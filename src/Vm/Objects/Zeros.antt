-- ===== src/Vm/Objects/Zeros.antt =====
-- The cleared payload of a new object in runtime/vm.py, and the parts of its allocation that every kind
-- of object shares.
use quin_lang.Vm.Runs.{Runs, run_bind}
use quin_lang.Vm.Words.{word_mod}
use quin_lang.Vm.Heap.Bytes.{put_word_outside, word_at-ext, word_at-put_word}
use quin_lang.Vm.Machine.{Vm, header_bytes, heap_size, pure}
use quin_lang.Vm.Heap.Walk.{IsSameBelow}
use quin_lang.Vm.Heap.{Heap, put_word, word_at}
use quin_lang.Vm.Store.{write_word, zero_words}
use quin_lang.Prelude.{arith, inl, ok, refl, subst, suc, sym, zero, ℕ, ◌*◌, ◌+◌, ◌<◌, ◌∙◌, ◌≡◌, ◌≤◌}

unfoldable pub zeroed : Heap → ℕ → ℕ → Heap
zeroed h zero addr = h
zeroed h (suc count) addr = zeroed (put_word h addr 0) count (addr + 2)

module _ {W : Type 0} where
  pub write_word_run :
      (addr v : ℕ) (vm : Vm W)
      → addr + 1 < heap_size
      → write_word addr v vm ≡ (ok tt, record vm { heap = put_word vm.heap addr v })
  unfolding write_word
  write_word_run addr v vm h = ground arith

  pub zero_words_run :
      (count addr : ℕ) (vm : Vm W)
      → addr + count * 2 ≤ heap_size
      → Runs (zero_words count addr) vm (ok tt, record vm { heap = zeroed vm.heap count addr })
  unfolding zero_words zeroed pure
  zero_words_run zero addr vm h = record { at = refl }
  zero_words_run (suc count) addr vm h =
      run_bind _ _ (record { at = write_word_run addr 0 vm (omega arith) })
        (zero_words_run count (addr + 2) (record vm { heap = put_word vm.heap addr 0 })
          (omega arith))

pub zeroed_below : (h : Heap) (count addr a : ℕ) → a < addr → zeroed h count addr a ≡ h a
unfolding zeroed
zeroed_below h zero addr a l = refl
zeroed_below h (suc count) addr a l =
    zeroed_below (put_word h addr 0) count (addr + 2) a (omega arith)
    ∙ put_word_outside h addr 0 a (inl l)

pub word_at-zeroed :
    (h : Heap) (count addr i : ℕ) → i < count → word_at (zeroed h count addr) (addr + i * 2) ≡ 0
unfolding zeroed
word_at-zeroed h zero addr i l = elim l [ ]
word_at-zeroed h (suc count) addr zero l =
    subst (λ a. word_at (zeroed (put_word h addr 0) count (addr + 2)) a ≡ 0) (omega arith)
      (word_at-ext _ (put_word h addr 0) addr
          (zeroed_below (put_word h addr 0) count (addr + 2) addr (omega arith))
          (zeroed_below (put_word h addr 0) count (addr + 2) (addr + 1) (omega arith))
        ∙ word_at-put_word h addr 0)
word_at-zeroed h (suc count) addr (suc i) l =
    subst (λ a. word_at (zeroed (put_word h addr 0) count (addr + 2)) a ≡ 0) (omega arith)
      (word_at-zeroed (put_word h addr 0) count (addr + 2) i (omega arith))

-- the words that `_write_header` stored, read under what was cleared above them
module _ (h : Heap) (hdr k n count : ℕ) where
  abbrev pub cleared : Heap
  cleared = zeroed (put_word (put_word h hdr k) (hdr + 2) n) count (hdr + header_bytes)

  pub cleared_kind : k < word_mod → word_at cleared hdr ≡ k
  cleared_kind l =
      word_at-ext _ (put_word (put_word h hdr k) (hdr + 2) n) hdr
        (zeroed_below _ count (hdr + header_bytes) hdr (omega arith))
        (zeroed_below _ count (hdr + header_bytes) (hdr + 1) (omega arith))
      ∙ word_at-ext _ (put_word h hdr k) hdr
          (put_word_outside _ (hdr + 2) n hdr (inl (omega arith)))
          (put_word_outside _ (hdr + 2) n (hdr + 1) (inl (omega arith)))
      ∙ word_at-put_word h hdr k
      ∙ omega arith

  pub cleared_detail : n < word_mod → word_at cleared (hdr + 2) ≡ n
  cleared_detail l =
      word_at-ext _ (put_word (put_word h hdr k) (hdr + 2) n) (hdr + 2)
        (zeroed_below _ count (hdr + header_bytes) (hdr + 2) (omega arith))
        (zeroed_below _ count (hdr + header_bytes) (hdr + 2 + 1) (omega arith))
      ∙ word_at-put_word (put_word h hdr k) (hdr + 2) n
      ∙ omega arith

  pub cleared-IsSameBelow : IsSameBelow hdr h cleared
  cleared-IsSameBelow a i =
      sym (put_word_outside h hdr k a (inl i))
      ∙ sym (put_word_outside _ (hdr + 2) n a (inl (omega arith)))
      ∙ sym (zeroed_below _ count (hdr + header_bytes) a (omega arith))
