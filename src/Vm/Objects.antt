-- ===== src/Vm/Objects.antt =====
-- Reading arrays, strings and fields in runtime/vm.py: `_array_at` to `_array_bytes`,
-- `_string_bytes`, `_literal` and `_field_is_ref`.
pub mod Texts
pub mod Rows
pub mod Zeros
pub mod Arrays
pub mod Elements
use quin_lang.Vm.Words.{to_signed}
use quin_lang.Prelude.{
  Bool, List, [], err, false, get_or, if◌then◌else◌, leb, length, ltb, negsuc, not, ok, pos, suc,
  zero, ℕ, ℤ, ◌*◌, ◌+◌, ◌-◌, ◌==◌, ◌||◌, ◌∷◌,
}
use quin_lang.Program.{StructLayout}
use quin_lang.Vm.Machine.{
  Exec, array_bounds, array_of_references, gets, header_bytes, heap_size, heap_start, not_a_byte,
  not_a_string, not_an_array, null_addr, null_array, null_string, pure, raise, refuse,
  unknown_string_id, ◌>>=◌, ◌>>◌,
}
use quin_lang.Vm.Heap.{
  Heap, detail, kind, kind_refarray, kind_string, kind_struct, kind_valarray, read_word,
}
use quin_lang.Vm.Store.{peek}
use quin_lang.Vm.Collect.Mark.{ref_offsets_of}

-- `count` bytes from `addr`
unfoldable pub bytes_at : Heap → ℕ → ℕ → List ℕ
bytes_at h addr zero = []
bytes_at h addr (suc count) = h addr ∷ bytes_at h (addr + 1) count

-- bytes(self.heap[addr:addr + count]), which stops at the end of the heap
unfoldable pub slice_heap : Heap → ℕ → ℕ → List ℕ
slice_heap h addr count =
    bytes_at h addr (if leb (addr + count) heap_size then count else heap_size - addr)

unfoldable pub mem_ℕ : ℕ → List ℕ → Bool
mem_ℕ n [] = false
mem_ℕ n (m ∷ ms) = m == n || mem_ℕ n ms

-- what `_array_at` returns
pub record ArrayRef : Type 0 where
  pub start : ℕ
  pub count : ℕ
  pub holds_refs : Bool

module _ {W : Type 0} where
  -- `_array_at`
  unfoldable pub array_at : ℕ → Exec W ArrayRef
  array_at ref = do
    refuse (ref == null_addr) null_array
    refuse (ltb ref (heap_start + header_bytes)) (not_an_array ref)
    k ← peek (λ h. kind h (ref - header_bytes))
    refuse (not (k == kind_refarray || k == kind_valarray)) (not_an_array ref)
    n ← peek (λ h. detail h (ref - header_bytes))
    pure (record { start = ref; count = n; holds_refs = (k == kind_refarray) })

  -- `index < 0 or index >= count`, and the address
  unfoldable pub element_at : ArrayRef → ℤ → Exec W (ℕ × Bool)
  element_at a (negsuc i) = raise (array_bounds (negsuc i) a.count)
  element_at a (pos i) =
      if ltb i a.count
      then pure (a.start + i * 2, a.holds_refs)
      else raise (array_bounds (pos i) a.count)

  -- `_element_addr`
  unfoldable pub element_addr : ℕ → ℤ → Exec W (ℕ × Bool)
  unfolding element_at
  element_addr ref index = do a ← array_at ref; element_at a index

  -- the loop of `_array_bytes`
  unfoldable pub word_bytes : ℕ → ℕ → ℕ → Exec W (List ℕ)
  word_bytes zero index start = pure []
  word_bytes (suc more) index start = do
    word ← peek (λ h. read_word h (start + index * 2))
    refuse (ltb 0xff word) (not_a_byte index (to_signed word))
    rest ← word_bytes more (index + 1) start
    pure (word ∷ rest)

  -- `_array_bytes`
  unfoldable pub array_bytes : ℕ → Exec W (List ℕ)
  unfolding word_bytes
  array_bytes ref = do
    a ← array_at ref
    refuse a.holds_refs array_of_references
    word_bytes a.count 0 a.start

  -- the test `hdr < HEAP_START or self._kind(hdr) != KIND_STRING`
  unfoldable pub is_string : ℕ → Exec W Bool
  is_string addr =
      if ltb addr (heap_start + header_bytes)
      then pure false
      else do k ← peek (λ h. kind h (addr - header_bytes)); pure (k == kind_string)

  -- `_string_bytes`; `_string_text` decodes Latin-1, which keeps the numbers
  unfoldable pub string_bytes : ℕ → Exec W (List ℕ)
  string_bytes addr = do
    refuse (addr == null_addr) null_string
    good ← is_string addr
    refuse (not good) (not_a_string addr)
    n ← peek (λ h. detail h (addr - header_bytes))
    peek (λ h. ok (slice_heap h addr n))

  -- `_literal`
  unfoldable pub literal : ℤ → Exec W ℕ
  literal (negsuc i) = raise (unknown_string_id (negsuc i))
  literal (pos sid) = do
    known ← gets (λ vm. vm.literals)
    if ltb sid (length known)
        then pure (get_or known sid 0)
        else raise (unknown_string_id (pos sid))

-- `offset in self.structs[type_id].ref_offsets`, false for an unknown type
offset_is_ref : List StructLayout → ℕ → ℤ → Bool
offset_is_ref structs id (negsuc i) = false
offset_is_ref structs id (pos offset) = elim (ref_offsets_of structs id) [
  | ok offsets ↦ mem_ℕ offset offsets
  | err e ↦ false
]

-- `_field_is_ref`
unfoldable pub field_is_ref : {W : Type 0} → List StructLayout → ℕ → ℤ → Exec W Bool
unfolding offset_is_ref
field_is_ref structs ref offset = if ltb ref (heap_start + header_bytes) then pure false else do
  k ← peek (λ h. kind h (ref - header_bytes))
  if k == kind_struct
      then (do
        id ← peek (λ h. detail h (ref - header_bytes))
        pure (offset_is_ref structs id offset))
      else pure false
