-- ===== src/Compiler/Lexer/Chars.antt =====
-- The tests on characters that compiler/lexer.py takes from Python's `str`: written out on ASCII, with
-- a parameter for the code points above it.
use quin_lang.Prelude.{
  Bool, Option, [], false, if◌then◌else◌, leb, ltb, none, some, true, ℕ, ◌&&◌, ◌*◌, ◌+◌, ◌-◌, ◌==◌,
  ◌||◌, ◌∷◌,
}
use quin_lang.Program.{Text}

-- The Unicode tables of Python on code points from 128 on: `str.isdigit`, `str.isalpha`,
-- `str.isalnum`, and the value that int() and float() read, which is not there for every digit.
pub record UnicodeTables : Type 0 where
  pub digit : ℕ → Bool
  pub alpha : ℕ → Bool
  pub alnum : ℕ → Bool
  pub decimal : ℕ → Option ℕ

unfoldable pub between : ℕ → ℕ → ℕ → Bool
between low high c = leb low c && leb c high

unfoldable pub is_letter : ℕ → Bool
is_letter c = between b'a' b'z' c || between b'A' b'Z' c

-- 'a' <= ch.lower() <= 'f', which holds of ASCII letters only
unfoldable pub is_hex_letter : ℕ → Bool
is_hex_letter c = between b'a' b'f' c || between b'A' b'F' c

module _ (u : UnicodeTables) where
  unfoldable pub is_digit : ℕ → Bool
  is_digit c = if ltb c 128 then between b'0' b'9' c else u.digit c

  unfoldable pub is_alpha : ℕ → Bool
  is_alpha c = if ltb c 128 then is_letter c else u.alpha c

  unfoldable pub is_alnum : ℕ → Bool
  is_alnum c = if ltb c 128 then is_letter c || between b'0' b'9' c else u.alnum c

  -- ch.isdigit() or ('a' <= ch.lower() <= 'f')
  unfoldable pub is_hex_digit : ℕ → Bool
  is_hex_digit c = is_digit c || is_hex_letter c

  -- isalnum() or == '_'
  unfoldable pub is_word : ℕ → Bool
  is_word c = is_alnum c || c == b'_'

  -- the value of a digit for int() in base 16, `none` where it is not one
  unfoldable pub digit_value : ℕ → Option ℕ
  digit_value c =
      if between b'0' b'9' c
      then some (c - b'0')
      else if between b'a' b'f' c
      then some (c - b'a' + 10)
      else if between b'A' b'F' c
      then some (c - b'A' + 10)
      else if ltb c 128
      then none
      else u.decimal c

  -- int(str, base) of a text of digits, after a first part with this value
  unfoldable pub int_from : ℕ → ℕ → Text → Option ℕ
  int_from base n [] = some n
  int_from base n (c ∷ cs) = elim (digit_value c) [
    | none ↦ none
    | some d ↦ int_from base (n * base + d) cs
  ]

  -- int(str), int(str[2:], 16)
  unfoldable pub int_of : ℕ → Text → Option ℕ
  int_of base str = int_from base 0 str

  -- whether float() reads every character of a literal
  unfoldable pub is_float_text : Text → Bool
  is_float_text [] = true
  is_float_text (c ∷ cs) =
      (c == b'.' || elim (digit_value c) [ none ↦ false | some d ↦ true ]) && is_float_text cs
