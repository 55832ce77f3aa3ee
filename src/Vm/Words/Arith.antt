-- ===== src/Vm/Words/Arith.antt =====
-- What the word operations compute, as arithmetic on signed integers.
use native.Mathlib.Nat.{mod-lt}
use mathlib.Core.Bool.{xor}
use quin_lang.Vm.Words.{quotient, to_signed, to_word, trunc_div, word_mod}
use quin_lang.Prelude.{
  abs_ℤ, ap, arith, eqb_ℤ, false, if◌then◌else◌, inl, inr, is_neg, neg_ℤ, negsuc, none, pos, refl,
  some, suc, true, zero, ℕ, ℤ, ◌%◌, ◌*ℤ◌, ◌*◌, ◌+◌, ◌-ℤ◌, ◌/◌, ◌<◌, ◌≡◌, ◌≤ℤ◌, ◌⊎◌,
}

-- The word of an integer is below 2 ^ 16, and stands for an integer of the int range.
pub to_word-lt : (a : ℤ) → to_word a < word_mod
unfolding to_word
to_word-lt (pos n) = omega arith
to_word-lt (negsuc n) = omega arith

pub to_signed_range : (v : ℕ) → (negsuc 32767 ≤ℤ to_signed v) × (to_signed v ≤ℤ pos 32767)
unfolding to_signed
to_signed_range v = ground arith

-- An integer of the int range survives the trip through a word.
pub to_signed-to_word : (a : ℤ) → negsuc 32767 ≤ℤ a → a ≤ℤ pos 32767 → to_signed (to_word a) ≡ a
unfolding to_signed to_word
to_signed-to_word (pos n) lo hi = ground arith
to_signed-to_word (negsuc n) lo hi = ground arith

-- A word survives the trip through its signed integer.
pub to_word-to_signed : (v : ℕ) → v < word_mod → to_word (to_signed v) ≡ v
unfolding to_signed to_word
to_word-to_signed v h = ground arith

-- two integers have the same word exactly if they differ by a multiple of 2 ^ 16
pub to_word-to_signed_mod : (v : ℕ) → to_word (to_signed v) ≡ v % word_mod
unfolding to_signed to_word
to_word-to_signed_mod v = ground arith

-- the remainder that goes with a quotient truncated toward zero
pub trunc_rem : ℤ → ℤ → ℤ
trunc_rem a b = let r = abs_ℤ a % abs_ℤ b in if is_neg a then neg_ℤ (pos r) else pos r

remainder : (m n : ℕ) → m ≡ m / n * n + m % n
remainder m n = grind arith

module _ (q r m n : ℕ) where
  rem_pos_pos : m ≡ q * n + r → pos m -ℤ pos q *ℤ pos n ≡ pos r
  unfolding ◌-ℤ◌ ◌*ℤ◌
  rem_pos_pos e = ground arith

  rem_pos_neg : m ≡ q * suc n + r → pos m -ℤ neg_ℤ (pos q) *ℤ negsuc n ≡ pos r
  unfolding ◌-ℤ◌ ◌*ℤ◌
  rem_pos_neg e = ground arith

  rem_neg_pos : suc m ≡ q * n + r → negsuc m -ℤ neg_ℤ (pos q) *ℤ pos n ≡ neg_ℤ (pos r)
  unfolding ◌-ℤ◌ ◌*ℤ◌
  rem_neg_pos e = ground arith

  rem_neg_neg : suc m ≡ q * suc n + r → negsuc m -ℤ pos q *ℤ negsuc n ≡ neg_ℤ (pos r)
  unfolding ◌-ℤ◌ ◌*ℤ◌
  rem_neg_neg e = ground arith

pub quotient-remainder : (a b : ℤ) → a -ℤ quotient a b *ℤ b ≡ trunc_rem a b
unfolding quotient trunc_rem xor
quotient-remainder (pos m) (pos n) = rem_pos_pos _ _ m n (remainder m n)
quotient-remainder (pos m) (negsuc n) = rem_pos_neg _ _ m n (remainder m (suc n))
quotient-remainder (negsuc m) (pos n) = rem_neg_pos _ _ m n (remainder (suc m) n)
quotient-remainder (negsuc m) (negsuc n) = rem_neg_neg _ _ m n (remainder (suc m) (suc n))

nonzero : (b : ℤ) → 0 < abs_ℤ b → eqb_ℤ b (pos 0) ≡ false
nonzero (pos n) h = ground arith
nonzero (negsuc n) h = ground arith

trunc_rem_small : (a b : ℤ) → 0 < abs_ℤ b → abs_ℤ (trunc_rem a b) < abs_ℤ b
unfolding trunc_rem
trunc_rem_small (pos m) b h = omega (arith, mod-lt m h)
trunc_rem_small (negsuc m) b h = ground (arith, mod-lt (suc m) h)

trunc_rem_sign : (a b : ℤ) → (trunc_rem a b ≡ pos 0) ⊎ (is_neg (trunc_rem a b) ≡ is_neg a)
unfolding trunc_rem
trunc_rem_sign (pos m) b = inr refl
trunc_rem_sign (negsuc m) b = neg_sign (suc m % abs_ℤ b)
  where
    neg_sign : (r : ℕ) → (neg_ℤ (pos r) ≡ pos 0) ⊎ (is_neg (neg_ℤ (pos r)) ≡ true)
    neg_sign zero = inl refl
    neg_sign (suc r) = ground arith

pub quotient_lem :
    (a b : ℤ)
    → 0 < abs_ℤ b
    → (abs_ℤ (a -ℤ quotient a b *ℤ b) < abs_ℤ b)
      × ((a -ℤ quotient a b *ℤ b ≡ pos 0) ⊎ (is_neg (a -ℤ quotient a b *ℤ b) ≡ is_neg a))
quotient_lem a b h = rw quotient-remainder (trunc_rem_small a b h, trunc_rem_sign a b)

-- Division by what is not zero truncates toward zero: the quotient times the divisor, plus a remainder
-- that is smaller than the divisor in absolute value and is zero or has the sign of the dividend, is
-- the dividend.
pub trunc_div_lem :
    (a b : ℤ)
    → 0 < abs_ℤ b
    → (q : ℤ) × (trunc_div a b ≡ some q)
      × (abs_ℤ (a -ℤ q *ℤ b) < abs_ℤ b)
      × ((a -ℤ q *ℤ b ≡ pos 0) ⊎ (is_neg (a -ℤ q *ℤ b) ≡ is_neg a))
unfolding trunc_div
trunc_div_lem a b h = (
  quotient a b,
  ap (λ c. if c then none else some (quotient a b)) (nonzero b h),
  (quotient_lem a b h).0,
  (quotient_lem a b h).1,
)
