-- ===== src/Vm/Objects/Rows.antt =====
-- The heap of runtime/vm.py as a row of blocks, and how an allocation extends it.
use quin_lang.Vm.Heap.Bytes.{put_word_outside}
use quin_lang.Vm.Objects.Texts.{
  IsText, alloc_string_fits, detail_lem, filled, filled-IsText, filled_below, kind_lem,
  round_payload_le, with_header,
}
use quin_lang.Vm.Heap.Walk.{IsSameBelow, Walk, Walk-append, Walk-ext, Walk-length}
use quin_lang.Program.{StructLayout}
use quin_lang.Vm.Alloc.{alloc_string, round_payload}
use quin_lang.Vm.Heap.{Heap, block_end, kind_string, payload_size, plain_payload, word_at}
use quin_lang.Vm.Machine.{Setup, Vm, header_bytes, heap_size, heap_start}
use quin_lang.Prelude.{
  List, [], arith, inl, length, ok, refl, subst, sym, ℕ, ◌++◌, ◌+◌, ◌-◌, ◌∙◌, ◌∷◌, ◌≡◌, ◌≤◌,
}

string_payload : (n : ℕ) → plain_payload kind_string n ≡ round_payload n
unfolding plain_payload round_payload
string_payload n = ground arith

back : (hdr : ℕ) → hdr + header_bytes - header_bytes ≡ hdr
back hdr = omega arith

-- where a string object ends
block_end-IsText :
    (structs : List StructLayout) (h : Heap) (hdr : ℕ) (content : List ℕ)
    → IsText h (hdr + header_bytes) content
    → block_end structs h hdr ≡ ok (hdr + header_bytes + round_payload (length content))
unfolding block_end payload_size
block_end-IsText structs h hdr content (lo, hi, k, n, b) =
    rw
      (
        kind_lem h hdr kind_string (omega arith)
            (subst (λ a. word_at h a ≡ kind_string) (back hdr) k) (omega arith),
        detail_lem h hdr (length content) (omega arith)
            (subst (λ a. word_at h (a + 2) ≡ length content) (back hdr) n),
        string_payload (length content),
      )
      refl

-- the bytes below a new string are as they were
filled-IsSameBelow :
    (h : Heap) (hdr : ℕ) (content : List ℕ)
    → IsSameBelow hdr h (filled (with_header h hdr content) (hdr + header_bytes) content)
filled-IsSameBelow h hdr content a i =
    sym (put_word_outside h hdr kind_string a (inl i))
    ∙ sym (put_word_outside _ (hdr + 2) (length content) a (inl (omega arith)))
    ∙ sym (filled_below (with_header h hdr content) (hdr + header_bytes) content a (omega arith))

module _ {F W : Type 0} (setup : Setup F W) where
  -- On a heap that is a row of blocks up to the heap pointer, the allocation of a string of at most
  -- 32767 bytes that fits below the end of the heap adds one block at the end of the row and leaves
  -- the earlier blocks in place.
  pub alloc_string-Walk :
      (content : List ℕ) (vm : Vm W) (hdrs : List ℕ)
      → length content ≤ 0x7fff
      → vm.heap_ptr + header_bytes + round_payload (length content) ≤ heap_size
      → Walk setup.structs vm.heap heap_start vm.heap_ptr hdrs
      → Walk setup.structs
          (alloc_string setup content vm).1.heap
          heap_start
          (alloc_string setup content vm).1.heap_ptr
          (hdrs ++ vm.heap_ptr ∷ [])
  alloc_string-Walk content vm hdrs l f w =
      let h =
        filled (with_header vm.heap vm.heap_ptr content) (vm.heap_ptr + header_bytes) content in
      let old =
        Walk-ext setup.structs vm.heap h heap_start vm.heap_ptr hdrs
          (filled-IsSameBelow vm.heap vm.heap_ptr content) w in
      let new =
        filled-IsText vm.heap vm.heap_ptr content l
          (omega (arith, Walk-length setup.structs vm.heap heap_start vm.heap_ptr hdrs w))
          (omega (arith, f, round_payload_le (length content))) in
      subst (λ o. Walk setup.structs o.1.heap heap_start o.1.heap_ptr (hdrs ++ vm.heap_ptr ∷ []))
        (sym (alloc_string_fits setup content vm l f).at)
        (Walk-append setup.structs h heap_start vm.heap_ptr _ hdrs old
          (block_end-IsText setup.structs h vm.heap_ptr content new) (omega arith))
