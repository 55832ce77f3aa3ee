-- ===== src/Vm/Objects/Elements.antt =====
-- `ARRAY_GET` after `ARRAY_SET` in runtime/vm.py.
use quin_lang.Vm.Operands.Stacked.{pop_run, pop_signed_run, push_run, stacked}
use quin_lang.Vm.Objects.Zeros.{write_word_run}
use quin_lang.Vm.Ops.Objects.{exec_array_get, exec_array_set}
use quin_lang.Vm.Heap.Bytes.{put_word_outside, read_word_lem, word_at-ext, word_at-put_word}
use quin_lang.Vm.Runs.{run_bind, run_peek}
use quin_lang.Vm.Objects.Arrays.{IsArray, element_addr-IsArray}
use quin_lang.Vm.Words.{word_mod}
use quin_lang.Vm.Heap.{Heap, put_word, read_word}
use quin_lang.Vm.Machine.{Vm, header_bytes, heap_size}
use quin_lang.Prelude.{
  Bool, List, ap, arith, inl, length, ok, ℕ, ◌*◌, ◌+◌, ◌-◌, ◌<◌, ◌∙◌, ◌∷◌, ◌≡◌, ◌≤◌,
}

put_word-IsArray :
    (h : Heap) (ref count i v : ℕ) (refs : Bool)
    → IsArray h ref count refs
    → IsArray (put_word h (ref + i * 2) v) ref count refs
put_word-IsArray h ref count i v refs (lo, hi, k, n) = (
  lo,
  hi,
  word_at-ext _ h (ref - header_bytes) (put_word_outside h (ref + i * 2) v _ (inl (omega arith)))
        (put_word_outside h (ref + i * 2) v _ (inl (omega arith)))
      ∙ k,
  word_at-ext _ h (ref - header_bytes + 2)
        (put_word_outside h (ref + i * 2) v _ (inl (omega arith)))
        (put_word_outside h (ref + i * 2) v _ (inl (omega arith)))
      ∙ n,
)

module _ {W : Type 0} where
  element_word :
      (ref count i v : ℕ) (refs : Bool) (vm : Vm W)
      → IsArray vm.heap ref count refs
      → i < count
      → ref + i * 2 + 1 < heap_size
      → v < word_mod
      → read_word (put_word vm.heap (ref + i * 2) v) (ref + i * 2) ≡ ok v
  element_word ref count i v refs vm a l b w =
      read_word_lem _ (ref + i * 2) b
      ∙ ap ok (word_at-put_word vm.heap (ref + i * 2) v ∙ omega (arith, w))

  -- With a word, an index below the length of an array and of at most 32767, and the array on the stack
  -- of the frame, and the element inside the heap, `ARRAY_SET` succeeds and changes that one word of the heap and the
  -- stacks, and `ARRAY_GET` at the same index then pushes the word, tagged as a reference exactly where
  -- the array holds references.
  pub exec_array_get-exec_array_set :
      (ref count i v : ℕ) (refs : Bool) (vm : Vm W) (s : List ℕ) (b c d : Bool) (bs : List Bool)
      → IsArray vm.heap ref count refs
      → i < count
      → i ≤ 0x7fff
      → ref + i * 2 + 1 < heap_size
      → v < word_mod
      → vm.frame_base ≤ length s
      → (exec_array_set (stacked vm (v ∷ i ∷ ref ∷ s) (b ∷ c ∷ d ∷ bs))
          ≡ (ok tt, stacked (record vm { heap = put_word vm.heap (ref + i * 2) v }) s bs))
        × (exec_array_get (
              stacked
                (record vm { heap = put_word vm.heap (ref + i * 2) v })
                (i ∷ ref ∷ s)
                (c ∷ d ∷ bs))
            ≡ (
              ok tt,
              stacked (record vm { heap = put_word vm.heap (ref + i * 2) v }) (v ∷ s) (refs ∷ bs),
            ))
  unfolding exec_array_set exec_array_get
  exec_array_get-exec_array_set ref count i v refs vm s b c d bs a l m r w h =
      let after = record vm { heap = put_word vm.heap (ref + i * 2) v } in
      (
        (run_bind _ _ (pop_run vm v (i ∷ ref ∷ s) b (c ∷ d ∷ bs) (omega arith)) (
            run_bind _ _ (pop_signed_run vm i (ref ∷ s) c (d ∷ bs) m (omega arith)) (
              run_bind _ _ (pop_run vm ref s d bs h) (
                run_bind _ _ (element_addr-IsArray ref count i refs (stacked vm s bs) a l)
                  (record { at = write_word_run (ref + i * 2) v (stacked vm s bs) r }))))).at,
        (run_bind _ _ (pop_signed_run after i (ref ∷ s) c (d ∷ bs) m (omega arith)) (
            run_bind _ _ (pop_run after ref s d bs h) (
              run_bind _ _
                (element_addr-IsArray ref count i refs (stacked after s bs)
                  (put_word-IsArray vm.heap ref count i v refs a) l)
                (run_peek _ _ (element_word ref count i v refs vm a l r w)
                  (record { at = push_run after v s refs bs w }))))).at,
      )
