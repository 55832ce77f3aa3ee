-- ===== src/Vm/Collect/Mark.antt =====
-- The marking phase of runtime/vm.py: `_object_starts`, `_containing_object` and `_mark_from`.
use quin_lang.Prelude.{
  List, Option, Result, [], bisect_right, err, get_or, if◌then◌else◌, length, ltb, map, none, ok,
  some, suc, true, zero, ℕ, ◌*◌, ◌+◌, ◌-◌, ◌==◌, ◌∷◌,
}
use quin_lang.Program.{StructLayout}
use quin_lang.Vm.Machine.{
  Exec, Fault, gets, header_bytes, heap_size, index_error, lift, null_addr, out_of_fuel, pure,
  raise, ◌>>=◌, ◌>>◌,
}
use quin_lang.Vm.Heap.{
  block_end, blocks, detail, is_marked, kind, kind_refarray, kind_struct, read_word,
}
use quin_lang.Vm.Store.{peek, set_mark}

-- an index into `self.structs`
unfoldable pub ref_offsets_of : List StructLayout → ℕ → Result Fault (List ℕ)
ref_offsets_of [] id = err index_error
ref_offsets_of (s ∷ ss) zero = ok s.ref_offsets
ref_offsets_of (s ∷ ss) (suc id) = ref_offsets_of ss id

-- the addresses of `count` words from `addr`
unfoldable pub word_addresses : ℕ → ℕ → List ℕ
word_addresses zero addr = []
word_addresses (suc count) addr = addr ∷ word_addresses count (addr + 2)

-- references named by all layouts together
total_refs : List StructLayout → ℕ
total_refs [] = 0
total_refs (s ∷ ss) = length s.ref_offsets + total_refs ss

-- A heap has at most heap_size / 4 objects, and each pushes at most the words of the heap or the
-- references of a layout, and is popped once more than it is pushed.
unfoldable pub mark_rounds : List StructLayout → ℕ
unfolding total_refs
mark_rounds structs = heap_size * (heap_size + total_refs structs) + 2

module _ {W : Type 0} (structs : List StructLayout) where
  -- `_object_starts`
  unfoldable pub object_starts : Exec W (List ℕ)
  object_starts = do
    ptr ← gets (λ vm. vm.heap_ptr)
    hdrs ← peek (λ h. blocks structs h ptr)
    pure (map (λ hdr. hdr + header_bytes) hdrs)

  -- `_containing_object`
  unfoldable pub containing_object : ℕ → List ℕ → Exec W (Option ℕ)
  containing_object ref starts =
      let found = bisect_right starts ref in
      let start = get_or starts (found - 1) 0 in
      if found == 0 then pure none else do
        end ← peek (λ h. block_end structs h (start - header_bytes))
        pure (if ltb ref end then some start else none)

  -- the addresses of the words of an object that hold references, by its kind
  unfoldable pub traced_words : ℕ → Exec W (List ℕ)
  traced_words start = do
    let hdr = start - header_bytes
    k ← peek (λ h. kind h hdr)
    n ← peek (λ h. detail h hdr)
    if k == kind_struct
        then (do
          offsets ← lift (ref_offsets_of structs n)
          pure (map (λ off. start + off * 2) offsets))
        else if k == kind_refarray
        then pure (word_addresses n start)
        else pure []

  -- pending.append(self._read_word(addr)) for each address; the last one is on top
  unfoldable pub push_words : List ℕ → List ℕ → Exec W (List ℕ)
  push_words [] pending = pure pending
  push_words (addr ∷ addrs) pending = do
    value ← peek (λ h. read_word h addr)
    push_words addrs (value ∷ pending)

  -- one object that is not null: mark it and return what is pending after it
  unfoldable pub visit : List ℕ → Option ℕ → List ℕ → Exec W (List ℕ)
  visit starts none pending = pure pending
  visit starts (some start) pending = do
    let hdr = start - header_bytes
    marked ← peek (λ h. is_marked h hdr)
    if marked
        then pure pending
        else do set_mark hdr true; addrs ← traced_words start; push_words addrs pending

  -- `_mark_from`: while pending, pop one address and visit its object. Each object is marked once, so
  -- the words of the heap and the references of the layouts bound the rounds.
  unfoldable pub mark_from : ℕ → List ℕ → List ℕ → Exec W (Unit {0})
  mark_from zero starts pending = raise out_of_fuel
  mark_from (suc fuel) starts [] = pure tt
  mark_from (suc fuel) starts (addr ∷ pending) =
      let skip = mark_from fuel starts pending in
      if addr == null_addr then skip else do
        object ← containing_object addr starts
        pending' ← visit starts object pending
        mark_from fuel starts pending'

  -- for ref in self._roots(): self._mark_from(ref, starts)
  unfoldable pub mark_all : List ℕ → List ℕ → Exec W (Unit {0})
  mark_all starts [] = pure tt
  mark_all starts (ref ∷ refs) = do
    mark_from (mark_rounds structs) starts (ref ∷ [])
    mark_all starts refs
