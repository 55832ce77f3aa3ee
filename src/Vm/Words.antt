-- ===== src/Vm/Words.antt =====
-- The 16-bit words of runtime/vm.py and the integers that they stand for: `to_signed`, `trunc_div`,
-- and the mask of `_push`. The laws are in the module below.
pub mod Arith
pub mod Quotient
use quin_lang.Prelude.{
  Option, abs_ℤ, eqb_ℤ, if◌then◌else◌, is_neg, leb, neg_ℤ, negsuc, none, pos, some, ℕ, ℤ, ◌%◌, ◌-◌,
  ◌/◌, ◌^◌,
}
use mathlib.Core.Bool.{xor}

-- WORD_MASK + 1
abbrev pub word_mod : ℕ
word_mod = 2 ^ 16

abbrev pub sign_bit : ℕ
sign_bit = 2 ^ 15

-- value & WORD_MASK, for an int of either sign
unfoldable pub to_word : ℤ → ℕ
to_word (pos n) = n % word_mod
to_word (negsuc n) = word_mod - 1 - n % word_mod

unfoldable pub to_signed : ℕ → ℤ
to_signed v = let w = v % word_mod in if leb sign_bit w then negsuc (word_mod - 1 - w) else pos w

-- q = abs(a) // abs(b); -q if (a < 0) != (b < 0) else q
unfoldable pub quotient : ℤ → ℤ → ℤ
quotient a b =
    let q = abs_ℤ a / abs_ℤ b in if xor (is_neg a) (is_neg b) then neg_ℤ (pos q) else pos q

-- `trunc_div`, which raises ZeroDivisionError, as `none`, where b is 0
unfoldable pub trunc_div : ℤ → ℤ → Option ℤ
trunc_div a b = if eqb_ℤ b (pos 0) then none else some (quotient a b)

-- value >> count, which rounds down
unfoldable pub shift_right : ℤ → ℕ → ℤ
shift_right (pos n) count = pos (n / 2 ^ count)
shift_right (negsuc n) count = negsuc (n / 2 ^ count)
