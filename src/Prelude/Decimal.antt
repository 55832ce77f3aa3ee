-- ===== src/Prelude/Decimal.antt =====
-- Python's `str(n)` for an int: the decimal digits as code points, after a sign.
use quin_lang.Prelude.Tests.{Bool-cases, if◌then◌else◌, leb, ltb, ◌==◌}
use quin_lang.Prelude.Int.{negsuc, pos, ℤ}
use Prim.Native.Nat.{ℕ, zero, suc, ◌+◌, ◌-◌, ◌*◌, ◌/◌, ◌%◌, ◌≤◌, ◌<◌}
use mathlib.Core.Path.{◌≡◌, sym, ap, ◌∙◌}
use mathlib.Core.Logic.{inl, inr}
use mathlib.Core.Bool.{Bool, true, false, ◌&&◌}
use mathlib.Core.Option.{Option, none, some}
use native.Mathlib.Omega.{arith}
use mathlib.Core.List.{List, [], ◌∷◌, ◌++◌, append_assoc, append-nil}

digits : ℕ → ℕ → List ℕ
digits zero n = []
digits (suc fuel) n =
    let more = digits fuel (n / 10) in
    if ltb n 10 then (48 + n) ∷ [] else more ++ (48 + n % 10) ∷ []

-- The number itself is fuel enough, since a tenth of it is smaller.
unfoldable pub str_ℕ : ℕ → List ℕ
unfolding digits
str_ℕ n = digits (suc n) n

unfoldable pub str_ℤ : ℤ → List ℕ
unfolding str_ℕ
str_ℤ (pos n) = str_ℕ n
str_ℤ (negsuc n) = b'-' ∷ str_ℕ (suc n)

-- int() of a text without blanks and sign, with the number before it and whether a digit stands
-- right before it: an underscore may stand between two digits.
unfoldable pub parse_digits : Bool → ℕ → List ℕ → Option ℕ
parse_digits after n [] = if after then some n else none
parse_digits after n (c ∷ cs) =
    let more = parse_digits true (n * 10 + (c - 48)) cs in
    let past = parse_digits false n cs in
    if leb 48 c && leb c 57 then more else if after && c == 95 then past else none

abbrev pub IsDigits : List ℕ → Type 0
IsDigits [] = Unit
IsDigits (c ∷ cs) = (48 ≤ c) × (c ≤ 57) × IsDigits cs

digit_read : (d : ℕ) → d < 10 → (leb 48 (48 + d) && leb (48 + d) 57) ≡ true
digit_read d h = ground arith

parse_digits_step :
    (after : Bool) (n d m : ℕ) (rest : List ℕ)
    → d < 10
    → n * 10 + d ≡ m
    → parse_digits after n ((48 + d) ∷ rest) ≡ parse_digits true m rest
unfolding parse_digits
parse_digits_step after n d m rest h e =
    ap
      (λ b.
        if b
        then parse_digits true (n * 10 + (48 + d - 48)) rest
        else if after && (48 + d) == 95
        then parse_digits false n rest
        else none)
      (digit_read d h)
    ∙ ap (λ k. parse_digits true k rest) (omega arith)

parse_digits-digits :
    (fuel n : ℕ) (after : Bool) (rest : List ℕ)
    → n < fuel
    → parse_digits after 0 (digits fuel n ++ rest) ≡ parse_digits true n rest
unfolding digits
parse_digits-digits zero n after rest h = absurd (omega arith)
parse_digits-digits (suc fuel) n after rest h = elim (Bool-cases (ltb n 10)) [
  | inl e ↦ rw e (parse_digits_step after 0 n n rest (ground arith) (omega arith))
  | inr e ↦ rw e (
      ap (parse_digits after 0) (append_assoc (digits fuel (n / 10)) ((48 + n % 10) ∷ []) rest)
      ∙ parse_digits-digits fuel (n / 10) after ((48 + n % 10) ∷ rest) (ground arith)
      ∙ parse_digits_step true (n / 10) (n % 10) n rest (omega arith) (omega arith))
]

-- int() reads back what str() writes of a number.
pub parse_digits-str_ℕ : (n : ℕ) → parse_digits false 0 (str_ℕ n) ≡ some n
unfolding str_ℕ parse_digits
parse_digits-str_ℕ n =
    ap (parse_digits false 0) (sym (append-nil (digits (suc n) n)))
    ∙ parse_digits-digits (suc n) n false [] (omega arith)

IsDigits-append : (xs ys : List ℕ) → IsDigits xs → IsDigits ys → IsDigits (xs ++ ys)
IsDigits-append [] ys h k = k
IsDigits-append (x ∷ xs) ys (a, b, h) k = (a, b, IsDigits-append xs ys h k)

digits-IsDigits : (fuel n : ℕ) → IsDigits (digits fuel n)
unfolding digits
digits-IsDigits zero n = tt
digits-IsDigits (suc fuel) n = elim (Bool-cases (ltb n 10)) [
  | inl e ↦ rw e (omega arith, ground arith, tt)
  | inr e ↦ rw e (
      IsDigits-append (digits fuel (n / 10)) ((48 + n % 10) ∷ []) (digits-IsDigits fuel (n / 10))
        (omega arith, omega arith, tt))
]

pub str_ℕ-IsDigits : (n : ℕ) → IsDigits (str_ℕ n)
unfolding str_ℕ
str_ℕ-IsDigits n = digits-IsDigits (suc n) n
