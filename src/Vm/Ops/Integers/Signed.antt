-- ===== src/Vm/Ops/Integers/Signed.antt =====
-- `ADD`, `SUB` and `DIV` of runtime/vm.py on the two words on top of the stack, as operations on
-- signed integers.
use quin_lang.Prelude.{
  Bool, List, Result, abs_ℤ, arith, eqb_ℤ, err, false, is_neg, length, negsuc, ok, pos, refl, ℕ, ℤ,
  ◌%◌, ◌*ℤ◌, ◌+ℤ◌, ◌+◌, ◌-ℤ◌, ◌<◌, ◌||◌, ◌∷◌, ◌≡◌, ◌≤ℤ◌, ◌≤◌, ◌⊎◌,
}
use quin_lang.Vm.Runs.{run_bind}
use quin_lang.Vm.Words.{to_signed, to_word, trunc_div, word_mod}
use quin_lang.Vm.Words.Arith.{to_signed_range, to_word-lt}
use quin_lang.Vm.Machine.{
  Exec, Fault, Vm, division_by_zero, refuse, require, zero_division, ◌>>=◌, ◌>>◌,
}
use quin_lang.Vm.Operands.{pop_tagged, push, push_raw}
use quin_lang.Vm.Operands.Stacked.{pop_tagged_run, stacked}
use quin_lang.Vm.Ops.Integers.{exec_add, exec_sub}

-- The word stands for the integer of the int range that is the given one but for a multiple of 2 ^ 16.
abbrev pub IsWrapped : ℕ → ℤ → Type 0
IsWrapped w x =
    (w < word_mod)
    × (negsuc 32767 ≤ℤ to_signed w)
    × (to_signed w ≤ℤ pos 32767)
    × ((to_signed w ≡ x) ⊎ ((to_signed w ≡ x -ℤ pos 65536) ⊎ (to_signed w ≡ x +ℤ pos 65536)))

add_wrap :
    (a b : ℕ)
    → a < word_mod
    → b < word_mod
    → (to_signed (to_word (pos (a + b))) ≡ to_signed a +ℤ to_signed b)
      ⊎ ((to_signed (to_word (pos (a + b))) ≡ (to_signed a +ℤ to_signed b) -ℤ pos 65536)
          ⊎ (to_signed (to_word (pos (a + b))) ≡ (to_signed a +ℤ to_signed b) +ℤ pos 65536))
unfolding to_signed to_word ◌+ℤ◌ ◌-ℤ◌
add_wrap a b h k = ground arith

sub_wrap :
    (a b : ℕ)
    → a < word_mod
    → b < word_mod
    → (to_signed (to_word (pos a -ℤ pos b)) ≡ to_signed a -ℤ to_signed b)
      ⊎ ((to_signed (to_word (pos a -ℤ pos b)) ≡ (to_signed a -ℤ to_signed b) -ℤ pos 65536)
          ⊎ (to_signed (to_word (pos a -ℤ pos b)) ≡ (to_signed a -ℤ to_signed b) +ℤ pos 65536))
unfolding to_signed to_word ◌+ℤ◌ ◌-ℤ◌
sub_wrap a b h k = ground arith

module _ {W : Type 0} (vm : Vm W) (a b : ℕ) (s : List ℕ) (a_ref b_ref : Bool) (bs : List Bool)
    (h : vm.frame_base ≤ length s) where
  two_tagged :
      {r : Result Fault (Unit {0}) × Vm W} (k : (ℕ × Bool) → (ℕ × Bool) → Exec W (Unit {0}))
      → k (b, b_ref) (a, a_ref) (stacked vm s bs) ≡ r
      → (pop_tagged >>= (λ x. pop_tagged >>= (λ y. k x y)))
          (stacked vm (b ∷ a ∷ s) (b_ref ∷ a_ref ∷ bs))
        ≡ r
  two_tagged k e =
      (run_bind _ _ (pop_tagged_run vm b (a ∷ s) b_ref (a_ref ∷ bs) (omega arith))
        (run_bind _ _ (pop_tagged_run vm a s a_ref bs h) (record { at = e }))).at

  -- On a stack with two words above the frame's base, ADD replaces them by a word, which stands for
  -- the sum of the signed integers that they stand for, wrapped to the int range; it is tagged as a
  -- reference where one of them was.
  pub exec_add_lem :
      a < word_mod
      → b < word_mod
      → (w : ℕ) × (exec_add (stacked vm (b ∷ a ∷ s) (b_ref ∷ a_ref ∷ bs))
          ≡ (ok tt, stacked vm (w ∷ s) ((a_ref || b_ref) ∷ bs)))
        × IsWrapped w (to_signed a +ℤ to_signed b)
  unfolding exec_add push push_raw
  exec_add_lem la lb =
      let w = to_word (pos (a + b)) in
      (
        w,
        two_tagged (λ x y. push (pos (y.0 + x.0)) (y.1 || x.1)) refl,
        (
          to_word-lt (pos (a + b)),
          (to_signed_range w).0,
          (to_signed_range w).1,
          add_wrap a b la lb,
        ),
      )

  -- On a stack with two words above the frame's base, SUB replaces them by a word, which stands for
  -- the lower less the upper of the signed integers that they stand for, wrapped to the int range; it
  -- is tagged as a reference where one of them was.
  pub exec_sub_lem :
      a < word_mod
      → b < word_mod
      → (w : ℕ) × (exec_sub (stacked vm (b ∷ a ∷ s) (b_ref ∷ a_ref ∷ bs))
          ≡ (ok tt, stacked vm (w ∷ s) ((a_ref || b_ref) ∷ bs)))
        × IsWrapped w (to_signed a -ℤ to_signed b)
  unfolding exec_sub push push_raw
  exec_sub_lem la lb =
      let w = to_word (pos a -ℤ pos b) in
      (
        w,
        two_tagged (λ x y. push (pos y.0 -ℤ pos x.0) (y.1 || x.1)) refl,
        (
          to_word-lt (pos a -ℤ pos b),
          (to_signed_range w).0,
          (to_signed_range w).1,
          sub_wrap a b la lb,
        ),
      )

  divided : ℤ → ℤ → Exec W (Unit {0})
  divided y x = do
    refuse (eqb_ℤ y (pos 0)) division_by_zero
    q ← require (trunc_div x y) zero_division
    push q false

  -- the three outcomes of `DIV`
  abbrev pub Divides : Result Fault (Unit {0}) × Vm W → Type 0
  Divides r =
      ((to_signed b ≡ pos 0) × (r ≡ (err division_by_zero, stacked vm s bs)))
      ⊎ (((to_signed a ≡ negsuc 32767)
            × (to_signed b ≡ negsuc 0)
            × (r ≡ (ok tt, stacked vm (a % word_mod ∷ s) (false ∷ bs))))
          ⊎ ((w : ℕ) × (r ≡ (ok tt, stacked vm (w ∷ s) (false ∷ bs)))
              × (abs_ℤ (to_signed a -ℤ to_signed w *ℤ to_signed b) < abs_ℤ (to_signed b))
              × ((to_signed a -ℤ to_signed w *ℤ to_signed b ≡ pos 0)
                  ⊎ (is_neg (to_signed a -ℤ to_signed w *ℤ to_signed b) ≡ is_neg (to_signed a)))))
