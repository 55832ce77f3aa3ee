-- ===== src/Vm/Ops/Objects.antt =====
-- The heap branches of `_run` in runtime/vm.py: blocks, structs, variants and arrays.
use quin_lang.Vm.Words.{word_mod}
use quin_lang.Vm.Floats.{FloatOps, bits_to_float, float_to_bits}
use quin_lang.Prelude.{
  Bool, List, Option, eqb_ℤ, false, get_or, if◌then◌else◌, length, ltb, negsuc, none, not, pos,
  some, true, ℕ, ℤ, ◌%◌, ◌*ℤ◌, ◌*◌, ◌+ℤ◌, ◌+◌, ◌-◌, ◌/◌, ◌==◌,
}
use quin_lang.Program.{StructLayout}
use quin_lang.Vm.Machine.{
  Exec, Setup, float_overflow, gets, header_bytes, heap_start, not_a_variant, null_addr,
  null_pointer, null_variant, operand, pure, raise, refuse, require, unknown_variant, ◌>>=◌, ◌>>◌,
}
use quin_lang.Vm.Operands.{pop, pop_float, pop_signed, push, push_float}
use quin_lang.Vm.Objects.{array_at, element_addr, field_is_ref}
use quin_lang.Vm.Heap.{detail, kind, kind_struct, read_word}
use quin_lang.Vm.Store.{check_heap_word, peek, write_word}
use quin_lang.Vm.Alloc.{alloc_array, alloc_raw, alloc_struct}

module _ {W : Type 0} where
  -- the test of `TAG_OF`, on a reference that is not null
  unfoldable pub is_struct : ℕ → Exec W Bool
  is_struct ref =
      if ltb ref (heap_start + header_bytes)
      then pure false
      else do k ← peek (λ h. kind h (ref - header_bytes)); pure (k == kind_struct)

  -- `TAG_OF`
  unfoldable pub exec_tag_of : Exec W (Unit {0})
  unfolding is_struct
  exec_tag_of = do
    ref ← pop
    refuse (ref == null_addr) null_variant
    good ← is_struct ref
    refuse (not good) (not_a_variant ref)
    id ← peek (λ h. detail h (ref - header_bytes))
    push (pos id) false

  -- self.variants[type_id], with the test before it
  unfoldable pub variant_at : ℤ → Exec W ℕ
  variant_at (negsuc i) = raise (unknown_variant (negsuc i))
  variant_at (pos id) = do
    known ← gets (λ vm. vm.variants)
    if ltb id (length known) then pure (get_or known id 0) else raise (unknown_variant (pos id))

  -- `LOAD_VARIANT`
  unfoldable pub exec_load_variant : Option ℤ → Exec W (Unit {0})
  unfolding variant_at
  exec_load_variant arg = do id ← operand arg; addr ← variant_at id; push (pos addr) true

  unfoldable pub exec_array_len : Exec W (Unit {0})
  exec_array_len = do ref ← pop; a ← array_at ref; push (pos a.count) false

  -- `ARRAY_GET`: whether the element is a reference is the array's own answer.
  unfoldable pub exec_array_get : Exec W (Unit {0})
  exec_array_get = do
    index ← pop_signed
    ref ← pop
    (addr, holds_refs) ← element_addr ref index
    value ← peek (λ h. read_word h addr)
    push (pos value) holds_refs

  unfoldable pub exec_array_set : Exec W (Unit {0})
  exec_array_set = do
    value ← pop
    index ← pop_signed
    ref ← pop
    (addr, holds_refs) ← element_addr ref index
    write_word addr value

  unfoldable pub exec_heap_load : Exec W (Unit {0})
  exec_heap_load = do
    addr ← pop
    refuse (addr == null_addr) null_pointer
    at ← check_heap_word (pos addr)
    value ← peek (λ h. read_word h at)
    push (pos value) false

  unfoldable pub exec_heap_store : Exec W (Unit {0})
  exec_heap_store = do
    value ← pop
    addr ← pop
    refuse (addr == null_addr) null_pointer
    at ← check_heap_word (pos addr)
    write_word at value

  -- the null check, then ref + int(arg) * 2
  unfoldable pub field_addr : ℕ → Option ℤ → Exec W ℤ
  field_addr ref arg = do
    refuse (ref == null_addr) null_pointer
    offset ← operand arg
    pure (pos ref +ℤ offset *ℤ pos 2)

  -- `HEAP_LOAD_FIELD`
  unfoldable pub exec_heap_load_field : List StructLayout → Option ℤ → Exec W (Unit {0})
  exec_heap_load_field structs arg = do
    ref ← pop
    addr ← field_addr ref arg
    at ← check_heap_word addr
    value ← peek (λ h. read_word h at)
    offset ← operand arg
    is_ref ← field_is_ref structs ref offset
    push (pos value) is_ref

  unfoldable pub exec_heap_store_field : Option ℤ → Exec W (Unit {0})
  exec_heap_store_field arg = do
    value ← pop
    ref ← pop
    addr ← field_addr ref arg
    at ← check_heap_word addr
    write_word at value

module _ {F W : Type 0} (fl : FloatOps F) where
  -- `HEAP_LOAD_FIELD_F` checks both words before it reads one.
  unfoldable pub exec_heap_load_field_f : Option ℤ → Exec W (Unit {0})
  exec_heap_load_field_f arg = do
    ref ← pop
    addr ← field_addr ref arg
    low ← check_heap_word addr
    high ← check_heap_word (addr +ℤ pos 2)
    low_word ← peek (λ h. read_word h low)
    high_word ← peek (λ h. read_word h high)
    push_float fl (bits_to_float fl (low_word + high_word * word_mod))

  -- self._pop_float() as bits again, the "Float overflow" fault where they do not fit
  unfoldable pub float_bits : Exec W ℕ
  float_bits = do value ← pop_float fl; require (float_to_bits fl value) float_overflow

  unfoldable pub exec_heap_store_field_f : Option ℤ → Exec W (Unit {0})
  unfolding float_bits
  exec_heap_store_field_f arg = do
    bits ← float_bits
    ref ← pop
    addr ← field_addr ref arg
    low ← check_heap_word addr
    high ← check_heap_word (addr +ℤ pos 2)
    write_word low (bits % word_mod)
    write_word high (bits / word_mod % word_mod)

module _ {F W : Type 0} (setup : Setup F W) where
  -- `ALLOC`
  unfoldable pub exec_alloc : Exec W (Unit {0})
  exec_alloc = do size ← pop_signed; addr ← alloc_raw setup size; push (pos addr) true

  -- `ALLOC_TYPED`
  unfoldable pub exec_alloc_typed : Option ℤ → Exec W (Unit {0})
  exec_alloc_typed arg = do id ← operand arg; addr ← alloc_struct setup id; push (pos addr) true

  -- `NEW_ARRAY`; `arg == 1` is false for None
  unfoldable pub exec_new_array : Option ℤ → Exec W (Unit {0})
  exec_new_array arg = do
    count ← pop_signed
    addr ← alloc_array setup count (elim arg [ none ↦ false | some n ↦ eqb_ℤ n (pos 1) ])
    push (pos addr) true
