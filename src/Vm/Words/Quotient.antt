-- ===== src/Vm/Words/Quotient.antt =====
-- Where the quotient of runtime/vm.py fits a word.
use quin_lang.Vm.Words.Arith.{to_signed-to_word, to_signed_range}
use quin_lang.Vm.Words.{quotient, to_signed, to_word}
use mathlib.Core.Bool.{xor}
use quin_lang.Prelude.{ap, arith, negsuc, pos, refl, suc, zero, ℕ, ℤ, ◌*◌, ◌/◌, ◌≡◌, ◌≤ℤ◌, ◌≤◌}

quot_le : (m n : ℕ) → m / n ≤ m
quot_le m n = grind arith

quot_lt : (m n : ℕ) → 2 ≤ n → m / n * 2 ≤ m
quot_lt m n h = grind arith

-- The quotient of two integers of the int range is in that range, but for the least one divided by -1.
quotient_range :
    (a b : ℤ)
    → negsuc 32767 ≤ℤ a
    → a ≤ℤ pos 32767
    → ¬ ((a ≡ negsuc 32767) × (b ≡ negsuc 0))
    → (negsuc 32767 ≤ℤ quotient a b) × (quotient a b ≤ℤ pos 32767)
unfolding quotient xor
quotient_range (pos m) (pos n) lo hi h = ground (arith, quot_le m n)
quotient_range (pos m) (negsuc n) lo hi h = ground (arith, quot_le m (suc n))
quotient_range (negsuc m) (pos n) lo hi h = ground (arith, quot_le (suc m) n)
quotient_range (negsuc m) (negsuc zero) lo hi h = ground (arith, not_least, quot_le (suc m) 1)
  where
    not_least : ¬ (m ≡ 32767)
    not_least e = h (ap negsuc e, refl)
quotient_range (negsuc m) (negsuc (suc n)) lo hi h =
    ground (arith, quot_lt (suc m) (suc (suc n)) (omega arith))

-- The quotient of two words wraps for no dividend and divisor but the least integer and -1.
pub to_signed-quotient :
    (a b : ℕ)
    → ¬ ((to_signed a ≡ negsuc 32767) × (to_signed b ≡ negsuc 0))
    → to_signed (to_word (quotient (to_signed a) (to_signed b)))
      ≡ quotient (to_signed a) (to_signed b)
to_signed-quotient a b h =
    let (lo, hi) = to_signed_range a in
    let (ql, qh) = quotient_range (to_signed a) (to_signed b) lo hi h in
    to_signed-to_word (quotient (to_signed a) (to_signed b)) ql qh
