-- ===== src/Compiler/Tests.antt =====
-- A line of source through the scanner.
use quin_lang.Prelude.{List, [], false, none, ℤ, ◌∷◌}
use quin_lang.Program.{Text}
use quin_lang.Vm.Tests.{whole_numbers}
use quin_lang.Compiler.Tokens.{Token, TokenType}
use quin_lang.Compiler.Lexer.Chars.{UnicodeTables}
use quin_lang.Compiler.Lexer.Scan.{tokenize}
use quin_lang.Compiler.Lexer.Tokenize.{Tokenizes, tokenize-Spells}

-- no letters and no digits beyond ASCII
abbrev ascii_only : UnicodeTables
ascii_only = record {
  digit = λ c. false;
  alpha = λ c. false;
  alnum = λ c. false;
  decimal = λ c. none;
}

-- `if x1<=0x1F //!`
abbrev line : Text
line =
    b'i' ∷ b'f' ∷ 32 ∷ b'x' ∷ b'1' ∷ b'<' ∷ b'=' ∷ b'0' ∷ b'x' ∷ b'1' ∷ b'F' ∷ 32 ∷ b'/' ∷ b'/'
    ∷ b'!' ∷ []

abbrev kinds_of : List (Token ℤ) → List TokenType
kinds_of [] = []
kinds_of (t ∷ ts) = t.kind ∷ kinds_of ts

tokenize-Spells_example : Tokenizes line (tokenize whole_numbers ascii_only line)
tokenize-Spells_example = tokenize-Spells whole_numbers ascii_only line
