-- ===== src/Compiler/Lexer.antt =====
-- The class `Lexer` of compiler/lexer.py: its state and the moves over the source. Its children have
-- the scanning of strings and numbers, the dispatch, and the proofs.
pub mod Chars
pub mod Strings
pub mod Numbers
pub mod Scan
pub mod Moves
pub mod Spelling
pub mod Literals
pub mod Tokenize
use quin_lang.Prelude.{
  Bool, List, [], false, if◌then◌else◌, length, pos, reverse, ℕ, ℤ, ◌++◌, ◌+◌, ◌-ℤ◌, ◌==◌, ◌∷◌,
}
use quin_lang.Program.{Text}
use quin_lang.Compiler.Tokens.{Literal, Token, TokenType}

-- LexError, with a constructor for each message, a line and a column; the ValueError of int() and
-- float(); and a loop of the model that was cut off.
pub data LexError : Type 0 where
  unexpected_character : ℕ → ℕ → ℤ → LexError
  unknown_escape : ℕ → ℕ → ℤ → LexError
  wide_character : ℕ → ℕ → ℤ → LexError
  unterminated_string : ℕ → ℤ → LexError
  after_number : ℕ → Text → ℕ → ℤ → LexError
  int_range : Text → ℕ → ℤ → LexError
  no_hex_digits : ℕ → ℤ → LexError
  no_fraction : ℕ → ℤ → LexError
  float_range : Text → ℕ → ℤ → LexError
  value_error : LexError
  cut_off : LexError

-- `rest` is source[current:], and `taken` is source[start:current] with the last character first.
pub record Lexer (F : Type 0) : Type 0 where
  pub rest : Text
  pub taken : Text
  pub line : ℕ
  pub col : ℕ
  pub tokens : List (Token F)

abbrev pub start : {F : Type 0} → Text → Lexer F
start source = record { rest = source; taken = []; line = 1; col = 1; tokens = [] }

-- `_peek`, 0 at the end
unfoldable pub peek_in : Text → ℕ
peek_in [] = 0
peek_in (c ∷ cs) = c

-- `_peek_next`
unfoldable pub peek_next_in : Text → ℕ
peek_next_in [] = 0
peek_next_in (c ∷ cs) = peek_in cs

-- the test of `_match`
unfoldable pub next_is : Text → ℕ → Bool
next_is [] expected = false
next_is (c ∷ cs) expected = c == expected

module _ {F : Type 0} where
  unfoldable pub advance_over : Text → Lexer F → Lexer F
  advance_over [] s = s
  advance_over (c ∷ cs) s = record s { rest = cs; taken = c ∷ s.taken; col = s.col + 1 }

  -- `_advance`
  unfoldable pub advance : Lexer F → Lexer F
  advance s = advance_over s.rest s

  -- while the test holds of `_peek`, `_advance`; it fails at the end
  unfoldable pub advance_through : (ℕ → Bool) → Text → Lexer F → Lexer F
  advance_through p [] s = s
  advance_through p (c ∷ cs) s =
      let more = advance_through p cs (advance s) in if p c then more else s

  unfoldable pub advance_while : (ℕ → Bool) → Lexer F → Lexer F
  advance_while p s = advance_through p s.rest s

  -- self.source[self.start:self.current]
  unfoldable pub lexeme_of : Lexer F → Text
  lexeme_of s = reverse s.taken

  -- self.col - (self.current - self.start)
  unfoldable pub start_col : Lexer F → ℤ
  start_col s = pos s.col -ℤ pos (length s.taken)

  -- the token that `_add_token` makes
  unfoldable pub token_of : TokenType → Literal F → Lexer F → Token F
  token_of t literal s = record {
    kind = t;
    lexeme = lexeme_of s;
    line = s.line;
    col = start_col s;
    literal = literal;
  }

  -- `_add_token`
  unfoldable pub add_token : TokenType → Literal F → Lexer F → Lexer F
  add_token t literal s = record s { tokens = s.tokens ++ token_of t literal s ∷ [] }
