-- ===== src/Vm/Collect/Compact.antt =====
-- The compaction of runtime/vm.py: `_plan_compaction`, `_update_references` and `_slide`.
use quin_lang.Prelude.{
  Bool, List, Option, [], false, get_or, if◌then◌else◌, leb, ltb, none, set, some, suc, zero, ℕ,
  ◌&&◌, ◌+◌, ◌-◌, ◌==◌, ◌∷◌,
}
use quin_lang.Program.{FunctionInfo, StructLayout}
use quin_lang.Vm.Machine.{
  Exec, Frame, gets, header_bytes, heap_start, key_error, modify, null_addr, pure, require, ◌>>=◌,
  ◌>>◌,
}
use quin_lang.Vm.Heap.{Heap, block_end, blocks, is_marked, payload_size, read_word}
use quin_lang.Vm.Store.{peek, set_mark, write_word}
use quin_lang.Vm.Collect.Mark.{containing_object, traced_words}
use quin_lang.Vm.Collect.Roots.{ref_slots_of}

-- old payload address to new payload address, in the order of insertion
abbrev pub Forward : Type 0
Forward = List (ℕ × ℕ)

unfoldable pub forward_of : Forward → ℕ → Option ℕ
forward_of [] start = none
forward_of ((a, b) ∷ fs) start = if a == start then some b else forward_of fs start

-- self.heap[dest:dest + size] = self.heap[hdr:hdr + size]
unfoldable pub copy_bytes : Heap → ℕ → ℕ → ℕ → Heap
copy_bytes h dest hdr size a =
    if leb dest a && ltb a (dest + size) then h (hdr + (a - dest)) else h a

-- self.heap[top:end] = bytes(end - top)
unfoldable pub wipe : Heap → ℕ → ℕ → Heap
wipe h top end a = if leb top a && ltb a end then 0 else h a

-- local_values[slot] = moved(local_values[slot]) for each slot that is there
unfoldable pub rewrite_slots : {W : Type 0} → (ℕ → Exec W ℕ) → List ℕ → List ℕ → Exec W (List ℕ)
rewrite_slots moved [] locals = pure locals
rewrite_slots moved (slot ∷ slots) locals = do
  value ← moved (get_or locals slot 0)
  rewrite_slots moved slots (set locals slot value)

unfoldable pub rewrite_all : {W : Type 0} → (ℕ → Exec W ℕ) → List ℕ → Exec W (List ℕ)
rewrite_all moved [] = pure []
rewrite_all moved (v ∷ vs) = do v' ← moved v; vs' ← rewrite_all moved vs; pure (v' ∷ vs')

unfoldable pub rewrite_stack : {W : Type 0} → (ℕ → Exec W ℕ) → List ℕ → List Bool → Exec W (List ℕ)
rewrite_stack moved (v ∷ vs) (b ∷ bs) = do
  v' ← if b then moved v else pure v
  vs' ← rewrite_stack moved vs bs
  pure (v' ∷ vs')
rewrite_stack moved vs _ = pure vs

unfoldable pub rewrite_frames :
    {W : Type 0} → (ℕ → Exec W ℕ) → List FunctionInfo → List Frame → Exec W (List Frame)
rewrite_frames moved functions [] = pure []
rewrite_frames moved functions (f ∷ fs) = do
  locals' ← rewrite_slots moved (ref_slots_of functions f.fn_index) f.locals
  fs' ← rewrite_frames moved functions fs
  pure (record f { locals = locals' } ∷ fs')

-- self._write_word(addr, moved(self._read_word(addr))) for each address
unfoldable pub rewrite_words : {W : Type 0} → (ℕ → Exec W ℕ) → List ℕ → Exec W (Unit {0})
rewrite_words moved [] = pure tt
rewrite_words moved (addr ∷ addrs) = do
  value ← peek (λ h. read_word h addr)
  value' ← moved value
  write_word addr value'
  rewrite_words moved addrs

module _ {W : Type 0} (structs : List StructLayout) where
  unfoldable pub plan_from : ℕ → List ℕ → Exec W Forward
  plan_from free [] = pure []
  plan_from free (hdr ∷ hdrs) = do
    marked ← peek (λ h. is_marked h hdr)
    size ← peek (λ h. payload_size structs h hdr)
    rest ← plan_from (if marked then free + header_bytes + size else free) hdrs
    pure (if marked then (hdr + header_bytes, free + header_bytes) ∷ rest else rest)

  -- `_plan_compaction`
  unfoldable pub plan_compaction : Exec W Forward
  unfolding plan_from
  plan_compaction = do
    ptr ← gets (λ vm. vm.heap_ptr)
    hdrs ← peek (λ h. blocks structs h ptr)
    plan_from heap_start hdrs

  -- the inner function `moved`, which keeps the offset of an interior reference
  unfoldable pub moved : Forward → List ℕ → ℕ → Exec W ℕ
  moved forward starts ref = if ref == null_addr then pure ref else do
    object ← containing_object structs ref starts
    pure (elim object [
      | none ↦ ref
      | some start ↦ elim (forward_of forward start) [
        | none ↦ ref
        | some dest ↦ dest + (ref - start)
      ]
    ])

  -- the loop over `_blocks` that rewrites the objects
  unfoldable pub update_blocks : ℕ → Forward → List ℕ → ℕ → Exec W (Unit {0})
  update_blocks zero forward starts hdr = pure tt
  update_blocks (suc fuel) forward starts hdr = do
    ptr ← gets (λ vm. vm.heap_ptr)
    if leb ptr hdr then pure tt else do
      marked ← peek (λ h. is_marked h hdr)
      addrs ← (if marked then traced_words structs (hdr + header_bytes) else pure [])
      rewrite_words (moved forward starts) addrs
      next ← peek (λ h. block_end structs h hdr)
      update_blocks fuel forward starts next

  -- `_slide`: one block, with the top that the blocks before it left
  unfoldable pub slide_block : Forward → ℕ → ℕ → Exec W ℕ
  slide_block forward top hdr = do
    payload ← peek (λ h. payload_size structs h hdr)
    let size = header_bytes + payload
    marked ← peek (λ h. is_marked h hdr)
    if marked
        then (do
          start ← require (forward_of forward (hdr + header_bytes)) key_error
          let dest = start - header_bytes
          modify (λ vm. if dest == hdr then vm else record vm {
            heap = copy_bytes vm.heap dest hdr size;
            stats = record (vm.stats) { objects_moved = vm.stats.objects_moved + 1 };
          })
          set_mark dest false
          pure (dest + size))
        else (do
          modify (λ vm. record vm {
            stats = record (vm.stats) {
              objects_freed = vm.stats.objects_freed + 1;
              bytes_freed = vm.stats.bytes_freed + size;
            };
          })
          pure top)

  unfoldable pub slide_blocks : Forward → ℕ → List ℕ → Exec W ℕ
  slide_blocks forward top [] = pure top
  slide_blocks forward top (hdr ∷ hdrs) = do
    top' ← slide_block forward top hdr
    slide_blocks forward top' hdrs

  unfoldable pub slide : Forward → Exec W (Unit {0})
  slide forward = do
    ptr ← gets (λ vm. vm.heap_ptr)
    hdrs ← peek (λ h. blocks structs h ptr)
    top ← slide_blocks forward heap_start hdrs
    modify (λ vm. record vm { heap = wipe vm.heap top vm.heap_ptr; heap_ptr = top })

module _ {W : Type 0} (functions : List FunctionInfo) (structs : List StructLayout) where
  -- `_update_references`: locals, frames, the operand stack, literals, variants, then the objects
  unfoldable pub update_references : Forward → List ℕ → Exec W (Unit {0})
  update_references forward starts = do
    vm ← gets (λ vm. vm)
    let move = moved structs forward starts
    locals' ← rewrite_slots move (ref_slots_of functions vm.current_fn) vm.locals
    frames' ← rewrite_frames move functions vm.call_stack
    stack' ← rewrite_stack move vm.stack vm.stack_is_ref
    literals' ← rewrite_all move vm.literals
    variants' ← rewrite_all move vm.variants
    modify (λ vm. record vm {
      locals = locals';
      call_stack = frames';
      stack = stack';
      literals = literals';
      variants = variants';
    })
    update_blocks structs vm.heap_ptr forward starts heap_start
