-- ===== src/Vm/Heap/Walk.antt =====
-- The walk over the blocks of the heap of runtime/vm.py, `_blocks`, as a relation: a row of blocks, each
-- beginning where the one before it ends.
use quin_lang.Vm.Heap.Bytes.{word_at-ext}
use quin_lang.Vm.Machine.{header_bytes, heap_size, heap_start, index_error}
use quin_lang.Program.{StructLayout}
use quin_lang.Vm.Heap.{Heap, block_end, blocks, blocks_from, detail, kind, payload_size, read_word}
use quin_lang.Prelude.{
  List, [], ap, arith, err, false, if◌then◌else◌, length, ltb, ok, refl, suc, sym, true, zero, ℕ,
  ◌++◌, ◌+◌, ◌<◌, ◌∙◌, ◌∷◌, ◌≡◌, ◌≤◌,
}

read_word-ext :
    (h g : Heap) (a : ℕ) → h a ≡ g a → h (a + 1) ≡ g (a + 1) → read_word h a ≡ read_word g a
unfolding read_word
read_word-ext h g a e e' =
    ap (λ w. if ltb (a + 1) heap_size then ok w else err index_error) (word_at-ext h g a e e')

not_below : (a : ℕ) → ltb a a ≡ false
not_below a = ground arith

below : (a b : ℕ) → a < b → ltb a b ≡ true
below a b h = ground arith

-- two heaps with the same bytes below `top`
abbrev pub IsSameBelow : ℕ → Heap → Heap → Type 0
IsSameBelow top h g = (a : ℕ) → a < top → h a ≡ g a

module _ (structs : List StructLayout) where
  -- the blocks from the first address to the second
  pub data Walk (h : Heap) : ℕ → ℕ → List ℕ → Type 0 where
    done : {a : ℕ} → Walk h a a []
    block :
        {a e top : ℕ} {hdrs : List ℕ}
        → block_end structs h a ≡ ok e
        → a + header_bytes ≤ e
        → Walk h e top hdrs
        → Walk h a top (a ∷ hdrs)

  pub Walk-length :
      (h : Heap) (a top : ℕ) (hdrs : List ℕ) → Walk h a top hdrs → a + length hdrs ≤ top
  Walk-length h a _ [] done = omega arith
  Walk-length h a top (_ ∷ hdrs) (block {e = e} q l w) = omega (arith, Walk-length h e top hdrs w)

  block_end-ext :
      (h g : Heap) (a : ℕ)
      → IsSameBelow (a + header_bytes) h g
      → block_end structs h a ≡ block_end structs g a
  unfolding block_end payload_size kind detail
  block_end-ext h g a s =
      rw
        (
          read_word-ext h g a (s a (omega arith)) (s (a + 1) (omega arith)),
          read_word-ext h g (a + 2) (s (a + 2) (omega arith)) (s (a + 2 + 1) (omega arith)),
        )
        refl

  -- A walk stays where the bytes below its end stay.
  pub Walk-ext :
      (h g : Heap) (a top : ℕ) (hdrs : List ℕ)
      → IsSameBelow top h g
      → Walk h a top hdrs
      → Walk g a top hdrs
  Walk-ext h g a _ [] s done = done
  Walk-ext h g a top (_ ∷ hdrs) s (block {e = e} q l w) =
      block (sym (block_end-ext h g a (λ b i. s b (omega (arith, Walk-length h e top hdrs w)))) ∙ q)
        l (Walk-ext h g e top hdrs s w)

  -- One more block at the end.
  pub Walk-append :
      (h : Heap) (a mid top : ℕ) (hdrs : List ℕ)
      → Walk h a mid hdrs
      → block_end structs h mid ≡ ok top
      → mid + header_bytes ≤ top
      → Walk h a top (hdrs ++ mid ∷ [])
  Walk-append h a mid top [] done q l = block q l done
  Walk-append h a mid top (_ ∷ hdrs) (block {e = e} p m w) q l =
      block p m (Walk-append h e mid top hdrs w q l)

  blocks_from-Walk :
      (fuel : ℕ) (h : Heap) (a top : ℕ) (hdrs : List ℕ)
      → length hdrs ≤ fuel
      → Walk h a top hdrs
      → blocks_from structs fuel h top a ≡ ok hdrs
  unfolding blocks_from
  blocks_from-Walk zero h a _ [] f done = refl
  blocks_from-Walk zero h a top (_ ∷ hdrs) f (block q l w) = absurd (ground arith)
  blocks_from-Walk (suc fuel) h a _ [] f done = rw (not_below a) refl
  blocks_from-Walk (suc fuel) h a top (_ ∷ hdrs) f (block {e = e} q l w) =
      rw
        (
          below a top (omega (arith, Walk-length h e top hdrs w)),
          q,
          blocks_from-Walk fuel h e top hdrs (omega arith) w,
        )
        refl

  -- `_blocks` lists the blocks of a heap that is a row of blocks up to the heap pointer, all of them
  -- and in their order.
  pub blocks-Walk :
      (h : Heap) (top : ℕ) (hdrs : List ℕ)
      → Walk h heap_start top hdrs
      → blocks structs h top ≡ ok hdrs
  unfolding blocks
  blocks-Walk h top hdrs w =
      blocks_from-Walk top h heap_start top hdrs
        (omega (arith, Walk-length h heap_start top hdrs w)) w
