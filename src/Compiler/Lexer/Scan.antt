-- ===== src/Compiler/Lexer/Scan.antt =====
-- `_scan_token` and `tokenize` of compiler/lexer.py.
use quin_lang.Prelude.{
  Bool, List, Option, Result, [], err, if◌then◌else◌, length, none, not, ok, pos, some, suc, zero,
  ℕ, ◌++◌, ◌+◌, ◌-ℤ◌, ◌==◌, ◌>>=◌, ◌||◌, ◌∷◌,
}
use quin_lang.Program.{Text}
use quin_lang.Vm.Floats.{FloatOps}
use quin_lang.Compiler.Tokens.{
  Token, TokenType, amp, and_and, at, bang, bang_equal, caret, colon, colon_colon, comma, dot, eof,
  equal, equal_equal, fat_arrow, greater, greater_equal, keyword_or_identifier, left_brace,
  left_bracket, left_paren, less, less_equal, minus, no_literal, or_or, percent, pipe, plus,
  right_brace, right_bracket, right_paren, semicolon, shl, shr, slash, star, tilde,
}
use quin_lang.Compiler.Lexer.{
  LexError, Lexer, add_token, advance, advance_while, cut_off, lexeme_of, next_is, start,
  unexpected_character,
}
use quin_lang.Compiler.Lexer.Chars.{UnicodeTables, is_alpha, is_digit, is_word}
use quin_lang.Compiler.Lexer.Strings.{scan_string}
use quin_lang.Compiler.Lexer.Numbers.{scan_number}

-- the characters that are a token whatever follows them
unfoldable pub single_type : ℕ → Option TokenType
single_type c =
    if c == b'('
    then some left_paren
    else if c == b')'
    then some right_paren
    else if c == b'{'
    then some left_brace
    else if c == b'}'
    then some right_brace
    else if c == b'['
    then some left_bracket
    else if c == b']'
    then some right_bracket
    else if c == b','
    then some comma
    else if c == b'.'
    then some dot
    else if c == b'-'
    then some minus
    else if c == b'+'
    then some plus
    else if c == b';'
    then some semicolon
    else if c == b'*'
    then some star
    else if c == b'%'
    then some percent
    else if c == b'^'
    then some caret
    else if c == b'~'
    then some tilde
    else if c == b'@'
    then some at
    else none

-- A character that makes one token with a certain other behind it, and another token without: that
-- other and the two types. `<` and `=` have two such others, of which the second is `=` or `>`.
unfoldable pub double_type : ℕ → Option (ℕ × (TokenType × TokenType))
double_type c =
    if c == b'|'
    then some (b'|', (or_or, pipe))
    else if c == b':'
    then some (b':', (colon_colon, colon))
    else if c == b'&'
    then some (b'&', (and_and, amp))
    else if c == b'!'
    then some (b'=', (bang_equal, bang))
    else none

-- the same with two others, which are tried in order
unfoldable pub triple_type : ℕ → Option (ℕ × (TokenType × (ℕ × (TokenType × TokenType))))
triple_type c =
    if c == b'='
    then some (b'=', (equal_equal, (b'>', (fat_arrow, equal))))
    else if c == b'<'
    then some (b'<', (shl, (b'=', (less_equal, less))))
    else if c == b'>'
    then some (b'>', (shr, (b'=', (greater_equal, greater))))
    else none

-- c in ' \r\t'
unfoldable pub is_blank : ℕ → Bool
is_blank c = c == 32 || (c == 13 || c == 9)

module _ {F : Type 0} where
  -- `_add_token` with no literal
  unfoldable pub add_plain : TokenType → Lexer F → Lexer F
  add_plain t s = add_token t no_literal s

  unfoldable pub scan_double : ℕ × (TokenType × TokenType) → Lexer F → Lexer F
  scan_double (other, (both, alone)) s =
      if next_is s.rest other then add_plain both (advance s) else add_plain alone s

  unfoldable pub scan_triple : ℕ × (TokenType × (ℕ × (TokenType × TokenType))) → Lexer F → Lexer F
  scan_triple (other, (both, more)) s =
      if next_is s.rest other then add_plain both (advance s) else scan_double more s

  -- the branch for `/`
  unfoldable pub scan_slash : Lexer F → Lexer F
  scan_slash s =
      if next_is s.rest b'/'
      then advance_while (λ c. not (c == 10)) (advance s)
      else add_plain slash s

  -- `_identifier`
  unfoldable pub scan_identifier : UnicodeTables → Lexer F → Lexer F
  scan_identifier u s =
      let s' = advance_while (is_word u) s in add_plain (keyword_or_identifier (lexeme_of s')) s'

module _ {F : Type 0} (floats : FloatOps F) (u : UnicodeTables) where
  -- the last branches of `_scan_token`
  unfoldable pub scan_other : ℕ → Lexer F → Result LexError (Lexer F)
  scan_other c s =
      if c == b'/'
      then ok (scan_slash s)
      else if c == 34
      then scan_string s
      else if is_digit u c
      then scan_number floats u c s
      else if is_alpha u c || c == b'_'
      then ok (scan_identifier u s)
      else err (unexpected_character c s.line (pos s.col -ℤ pos 1))

  unfoldable pub scan_symbol : ℕ → Lexer F → Result LexError (Lexer F)
  scan_symbol c s = elim (single_type c) [
    | some t ↦ ok (add_plain t s)
    | none ↦ elim (double_type c) [
      | some d ↦ ok (scan_double d s)
      | none ↦ elim (triple_type c) [ some d ↦ ok (scan_triple d s) | none ↦ scan_other c s ]
    ]
  ]

  -- `_scan_token`, behind its `_advance` over this character
  unfoldable pub scan_token : ℕ → Lexer F → Result LexError (Lexer F)
  scan_token c s =
      if is_blank c
      then ok s
      else if c == 10
      then ok (record s { line = s.line + 1; col = 1 })
      else scan_symbol c s

  -- the loop of `tokenize`, for so many tokens
  unfoldable pub token_loop : ℕ → Lexer F → Result LexError (Lexer F)
  token_loop zero s = err cut_off
  token_loop (suc fuel) s = elim s.rest [
    | [] ↦ ok s
    | c ∷ cs ↦ do s' ← scan_token c (advance (record s { taken = [] })); token_loop fuel s'
  ]

  -- Token(TokenType.EOF, "", self.line, self.col)
  unfoldable pub eof_token : Lexer F → Token F
  eof_token s = record {
    kind = eof;
    lexeme = [];
    line = s.line;
    col = pos s.col;
    literal = no_literal;
  }

  -- `tokenize`; a round of the loop reads a character at least
  unfoldable pub tokenize : Text → Result LexError (List (Token F))
  tokenize source = do
    s ← token_loop (suc (length source)) (start source)
    ok (s.tokens ++ eof_token s ∷ [])
