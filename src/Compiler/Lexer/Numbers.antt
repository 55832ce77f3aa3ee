-- ===== src/Compiler/Lexer/Numbers.antt =====
-- `_number` of compiler/lexer.py, with its checks.
use quin_lang.Prelude.{
  Bool, Result, [], drop, err, if◌then◌else◌, length, ltb, none, not, ok, pos, some, ℕ, ◌&&◌, ◌==◌,
  ◌>>=◌, ◌||◌, ◌∷◌,
}
use quin_lang.Program.{Text}
use quin_lang.Vm.Floats.{FloatOps}
use quin_lang.Compiler.Tokens.{float_number, float_value, int_value, number}
use quin_lang.Compiler.Lexer.{
  LexError, Lexer, add_token, advance, advance_while, after_number, float_range, int_range,
  lexeme_of, no_fraction, no_hex_digits, peek_in, peek_next_in, start_col, value_error,
}
use quin_lang.Compiler.Lexer.Chars.{
  UnicodeTables, int_of, is_digit, is_float_text, is_hex_digit, is_word,
}

-- FLOAT32_MAX, as the text that stands in the source
abbrev pub float32_max_text : Text
float32_max_text =
    b'3' ∷ b'.' ∷ b'4' ∷ b'0' ∷ b'2' ∷ b'8' ∷ b'2' ∷ b'3' ∷ b'4' ∷ b'6' ∷ b'6' ∷ b'3' ∷ b'8' ∷ b'5'
    ∷ b'2' ∷ b'8' ∷ b'8' ∷ b'6' ∷ b'e' ∷ b'3' ∷ b'8' ∷ []

module _ {F : Type 0} (floats : FloatOps F) (u : UnicodeTables) where
  -- `_check_trailing`
  unfoldable pub check_trailing : Lexer F → Result LexError (Unit {0})
  check_trailing s =
      if is_word u (peek_in s.rest)
      then err (after_number (peek_in s.rest) (lexeme_of s) s.line (pos s.col))
      else ok tt

  -- `_check_range`
  unfoldable pub check_range : ℕ → Lexer F → Result LexError (Unit {0})
  check_range value s =
      if ltb 0xffff value then err (int_range (lexeme_of s) s.line (start_col s)) else ok tt

  -- int(...) and what follows it
  unfoldable pub add_int : ℕ → Text → Lexer F → Result LexError (Lexer F)
  add_int base digits s = elim (int_of u base digits) [
    | none ↦ err value_error
    | some n ↦ do fits ← check_range n s; ok (add_token number (int_value n) s)
  ]

  -- abs(value) > FLOAT32_MAX
  unfoldable pub is_too_large : F → Bool
  is_too_large value =
      floats.lt (floats.parse float32_max_text) value
      || floats.lt value (floats.neg (floats.parse float32_max_text))

  -- `_check_float_range`
  unfoldable pub check_float_range : F → Lexer F → Result LexError (Unit {0})
  check_float_range value s =
      if not (floats.is_finite value) || is_too_large value
      then err (float_range (lexeme_of s) s.line (start_col s))
      else ok tt

  -- float(...) and what follows it
  unfoldable pub add_float : Lexer F → Result LexError (Lexer F)
  add_float s = if not (is_float_text u (lexeme_of s)) then err value_error else do
    fits ← check_float_range (floats.parse (lexeme_of s)) s
    ok (add_token float_number (float_value (floats.parse (lexeme_of s))) s)

  -- the branch for 0x, before the letter is read
  unfoldable pub scan_hex : Lexer F → Result LexError (Lexer F)
  scan_hex s =
      let from = advance s in
      let s' = advance_while (is_hex_digit u) from in
      if length s'.taken == length from.taken
      then err (no_hex_digits s'.line (start_col s'))
      else do alone ← check_trailing s'; add_int 16 (drop 2 (lexeme_of s')) s'

  -- the branch for a point, before the point is read
  unfoldable pub scan_fraction : Lexer F → Result LexError (Lexer F)
  scan_fraction s =
      if not (is_digit u (peek_next_in s.rest)) then err (no_fraction s.line (pos s.col)) else do
        alone ← check_trailing (advance_while (is_digit u) (advance s))
        add_float (advance_while (is_digit u) (advance s))

  unfoldable pub scan_decimal : Lexer F → Result LexError (Lexer F)
  scan_decimal s =
      if peek_in s.rest == b'.'
      then scan_fraction s
      else do alone ← check_trailing s; add_int 10 (lexeme_of s) s

  -- `_number`, behind its first character
  unfoldable pub scan_number : ℕ → Lexer F → Result LexError (Lexer F)
  scan_number c s =
      if c == b'0' && (peek_in s.rest == b'x' || peek_in s.rest == b'X')
      then scan_hex s
      else scan_decimal (advance_while (is_digit u) s)
