-- ===== src/Vm/Ops/Slots.antt =====
-- The branches of `_run` in runtime/vm.py that work on the locals of a frame.
pub mod Copy
pub mod Overlap
use quin_lang.Vm.Words.{to_signed}
use quin_lang.Prelude.{
  Bool, List, Option, [], false, if◌then◌else◌, is_neg, leb_ℤ, ltb_ℤ, negsuc, pos, suc, zero, ℕ, ℤ,
  ◌+ℤ◌, ◌+◌, ◌||◌, ◌∷◌,
}
use quin_lang.Program.{FunctionInfo}
use quin_lang.Vm.Machine.{
  Exec, gets, index_bounds, index_error, negative_count, operand, pure, raise, refuse,
  stack_underflow, ◌>>=◌, ◌>>◌,
}
use quin_lang.Vm.Operands.{at_base, local, pop, pop_signed, push, set_local}
use quin_lang.Vm.Objects.{mem_ℕ}
use quin_lang.Vm.Collect.Roots.{ref_slots_of}

-- `idx in self._current_ref_slots()`
unfoldable pub slot_is_ref : List FunctionInfo → ℕ → ℤ → Bool
slot_is_ref functions fn (pos i) = mem_ℕ i (ref_slots_of functions fn)
slot_is_ref functions fn (negsuc i) = false

module _ {W : Type 0} where
  -- `LOAD_LOCAL`
  unfoldable pub exec_load_local : List FunctionInfo → Option ℤ → Exec W (Unit {0})
  unfolding slot_is_ref
  exec_load_local functions arg = do
    idx ← operand arg
    value ← local idx
    fn ← gets (λ vm. vm.current_fn)
    push (pos value) (slot_is_ref functions fn idx)

  -- `STORE_LOCAL`
  unfoldable pub exec_store_local : Option ℤ → Exec W (Unit {0})
  exec_store_local arg = do idx ← operand arg; value ← pop; set_local idx value

  -- the test of `BOUNDS_CHECK`
  unfoldable pub check_bounds : ℤ → ℤ → Exec W (Unit {0})
  check_bounds idx n = refuse (is_neg idx || leb_ℤ n idx) (index_bounds idx n)

  -- self.stack[-1]
  unfoldable pub top_of : List ℕ → Exec W ℕ
  top_of [] = raise index_error
  top_of (v ∷ vs) = pure v

  -- `BOUNDS_CHECK` inspects the index without popping it.
  unfoldable pub exec_bounds_check : Option ℤ → Exec W (Unit {0})
  unfolding top_of
  exec_bounds_check arg = do
    empty ← gets at_base
    refuse empty stack_underflow
    stack ← gets (λ vm. vm.stack)
    v ← top_of stack
    n ← operand arg
    check_bounds (to_signed v) n

  unfoldable pub exec_load_local_idx : Option ℤ → Exec W (Unit {0})
  exec_load_local_idx arg = do
    idx ← pop_signed
    base ← operand arg
    value ← local (base +ℤ idx)
    push (pos value) false

  unfoldable pub exec_store_local_idx : Option ℤ → Exec W (Unit {0})
  exec_store_local_idx arg = do
    idx ← pop_signed
    value ← pop
    base ← operand arg
    set_local (base +ℤ idx) value

  unfoldable pub exec_load_indirect : Exec W (Unit {0})
  exec_load_indirect = do p ← pop_signed; value ← local p; push (pos value) false

  unfoldable pub exec_store_indirect : Exec W (Unit {0})
  exec_store_indirect = do v ← pop; p ← pop_signed; set_local p v

  -- self._set_local(dst + i, self._local(src + i))
  unfoldable pub copy_slot : ℤ → ℤ → ℕ → Exec W (Unit {0})
  copy_slot dst src i = do value ← local (src +ℤ pos i); set_local (dst +ℤ pos i) value

  -- for i in range(count), from `i` on
  unfoldable pub copy_up : ℤ → ℤ → ℕ → ℕ → Exec W (Unit {0})
  copy_up dst src zero i = pure tt
  copy_up dst src (suc more) i = do copy_slot dst src i; copy_up dst src more (i + 1)

  -- for i in range(count - 1, -1, -1)
  unfoldable pub copy_down : ℤ → ℤ → ℕ → Exec W (Unit {0})
  copy_down dst src zero = pure tt
  copy_down dst src (suc i) = do copy_slot dst src i; copy_down dst src i

  -- `order` puts an overlapping forward copy back to front.
  unfoldable pub copy_slots : ℤ → ℤ → ℤ → Exec W (Unit {0})
  copy_slots dst src (negsuc n) = raise (negative_count (negsuc n))
  copy_slots dst src (pos n) = if ltb_ℤ src dst then copy_down dst src n else copy_up dst src n 0

  -- `MEMCPY_LOCALS`
  unfoldable pub exec_memcpy_locals : Exec W (Unit {0})
  exec_memcpy_locals = do
    count ← pop_signed
    src ← pop_signed
    dst ← pop_signed
    copy_slots dst src count

  unfoldable pub fill_up : ℤ → ℕ → ℕ → ℕ → Exec W (Unit {0})
  fill_up dst value zero i = pure tt
  fill_up dst value (suc more) i = do set_local (dst +ℤ pos i) value; fill_up dst value more (i + 1)

  unfoldable pub fill_slots : ℤ → ℕ → ℤ → Exec W (Unit {0})
  fill_slots dst value (negsuc n) = raise (negative_count (negsuc n))
  fill_slots dst value (pos n) = fill_up dst value n 0

  -- `MEMSET_LOCALS`
  unfoldable pub exec_memset_locals : Exec W (Unit {0})
  exec_memset_locals = do
    count ← pop_signed
    value ← pop
    dst ← pop_signed
    fill_slots dst value count
