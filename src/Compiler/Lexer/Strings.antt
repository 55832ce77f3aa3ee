-- ===== src/Compiler/Lexer/Strings.antt =====
-- `_string` of compiler/lexer.py.
use quin_lang.Prelude.{
  Option, Result, [], err, if◌then◌else◌, ltb, none, ok, pos, some, ℕ, ℤ, ◌++◌, ◌+◌, ◌-ℤ◌, ◌==◌,
  ◌>>=◌, ◌∷◌,
}
use quin_lang.Program.{Text}
use quin_lang.Compiler.Tokens.{chars, string}
use quin_lang.Compiler.Lexer.{
  LexError, Lexer, add_token, advance, unknown_escape, unterminated_string, wide_character,
}

-- ESCAPES
unfoldable pub escape_of : ℕ → Option ℕ
escape_of c =
    if c == b'n'
    then some 10
    else if c == b't'
    then some 9
    else if c == b'r'
    then some 13
    else if c == b'0'
    then some 0
    else if c == 92
    then some 92
    else if c == 34
    then some 34
    else none

module _ {F : Type 0} where
  -- self.line += 1, self.col = 1 after a newline
  unfoldable pub count_line : ℕ → Lexer F → Lexer F
  count_line c s = if c == 10 then record s { line = s.line + 1; col = 1 } else s

  -- `_advance` over this character, and the count of the lines
  unfoldable pub read_char : ℕ → Lexer F → Lexer F
  read_char c s = count_line c (advance s)

  -- what the loop does with the character behind a backslash
  unfoldable pub after_escape :
      (ℕ → Result LexError (Text × Lexer F)) → ℕ → Lexer F → Result LexError (Text × Lexer F)
  after_escape go c s = elim (escape_of c) [
    | none ↦ err (unknown_escape c s.line (pos s.col -ℤ pos 2))
    | some v ↦ go v
  ]

  -- a character that is no backslash
  unfoldable pub plain_char :
      Result LexError (Text × Lexer F) → ℕ → Lexer F → Result LexError (Text × Lexer F)
  plain_char go c s = if ltb 0xff c then err (wide_character c s.line (pos s.col -ℤ pos 1)) else go

  -- the loop of `_string`, over what is left of the source
  unfoldable pub string_loop : Text → Text → Lexer F → Result LexError (Text × Lexer F)
  string_loop [] value s = ok (value, s)
  string_loop (c ∷ []) value s =
      if c == 34
      then ok (value, s)
      else if c == 92
      then ok (value, advance s)
      else plain_char (ok (value ++ c ∷ [], read_char c s)) c (read_char c s)
  string_loop (c ∷ e ∷ cs) value s =
      let onward = string_loop (e ∷ cs) (value ++ c ∷ []) (read_char c s) in
      let behind = (λ (v : ℕ). string_loop cs (value ++ v ∷ []) (read_char e (read_char c s))) in
      if c == 34
      then ok (value, s)
      else if c == 92
      then after_escape behind e (read_char e (read_char c s))
      else plain_char onward c (read_char c s)

  -- behind the loop, where the string began at this line and column
  unfoldable pub close_string : ℕ → ℤ → Text × Lexer F → Result LexError (Lexer F)
  close_string open_line open_col (value, s) = elim s.rest [
    | [] ↦ err (unterminated_string open_line open_col)
    | c ∷ cs ↦ ok (add_token string (chars value) (advance s))
  ]

  -- `_string`
  unfoldable pub scan_string : Lexer F → Result LexError (Lexer F)
  scan_string s = do found ← string_loop s.rest [] s; close_string s.line (pos s.col -ℤ pos 1) found
