-- ===== src/Vm/Operands/Stacked.antt =====
-- `_push` and `_pop` of runtime/vm.py on stacks that are written out.
use quin_lang.Vm.Runs.{Runs, run_bind}
use quin_lang.Vm.Words.{to_signed, to_word, word_mod}
use quin_lang.Vm.Machine.{Vm, gets, pure, refuse, ◌>>=◌}
use quin_lang.Vm.Operands.{at_base, pop, pop_both, pop_signed, pop_tagged, push, push_raw}
use quin_lang.Prelude.{Bool, List, ap, arith, length, ok, pos, refl, ℕ, ◌<◌, ◌∷◌, ◌≡◌, ◌≤◌}

signed_small : (i : ℕ) → i ≤ 0x7fff → to_signed i ≡ pos i
unfolding to_signed
signed_small i h = ground arith

module _ {W : Type 0} where
  -- a machine whose stacks are replaced
  abbrev pub stacked : Vm W → List ℕ → List Bool → Vm W
  stacked vm s bs = record vm { stack = s; stack_is_ref = bs }

  pub pop_run :
      (vm : Vm W) (v : ℕ) (s : List ℕ) (b : Bool) (bs : List Bool)
      → vm.frame_base ≤ length s
      → Runs pop (stacked vm (v ∷ s) (b ∷ bs)) (ok v, stacked vm s bs)
  unfolding pop at_base refuse gets pure ◌>>=◌
  pop_run vm v s b bs h = record { at = ground arith }

  pub pop_tagged_run :
      (vm : Vm W) (v : ℕ) (s : List ℕ) (b : Bool) (bs : List Bool)
      → vm.frame_base ≤ length s
      → Runs pop_tagged (stacked vm (v ∷ s) (b ∷ bs)) (ok (v, b), stacked vm s bs)
  unfolding pop_tagged pop_both at_base refuse gets pure ◌>>=◌
  pop_tagged_run vm v s b bs h = record { at = ground arith }

  pub pop_signed_any :
      (vm : Vm W) (v : ℕ) (s : List ℕ) (b : Bool) (bs : List Bool)
      → vm.frame_base ≤ length s
      → Runs pop_signed (stacked vm (v ∷ s) (b ∷ bs)) (ok (to_signed v), stacked vm s bs)
  unfolding pop_signed pure
  pop_signed_any vm v s b bs h = run_bind _ _ (pop_run vm v s b bs h) (record { at = refl })

  pub pop_signed_run :
      (vm : Vm W) (i : ℕ) (s : List ℕ) (b : Bool) (bs : List Bool)
      → i ≤ 0x7fff
      → vm.frame_base ≤ length s
      → Runs pop_signed (stacked vm (i ∷ s) (b ∷ bs)) (ok (pos i), stacked vm s bs)
  unfolding pop_signed pure
  pop_signed_run vm i s b bs l h =
      run_bind _ _ (pop_run vm i s b bs h)
        (record { at = ap (λ n. (ok n, stacked vm s bs)) (signed_small i l) })

  pub push_run :
      (vm : Vm W) (v : ℕ) (s : List ℕ) (b : Bool) (bs : List Bool)
      → v < word_mod
      → push (pos v) b (stacked vm s bs) ≡ (ok tt, stacked vm (v ∷ s) (b ∷ bs))
  unfolding push push_raw to_word
  push_run vm v s b bs w = ap (λ n. (ok tt, stacked vm (n ∷ s) (b ∷ bs))) (omega (arith, w))
