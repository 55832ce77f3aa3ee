-- ===== src/Compiler/Lexer/Spelling.antt =====
-- What one round of `tokenize` in compiler/lexer.py reads and makes, for each kind of token.
use quin_lang.Compiler.Lexer.Chars.{UnicodeTables, is_word}
use native.Mathlib.Decide.{ℕ_discrete}
use quin_lang.Prelude.{
  Bool, Result, [], ap, arith, err, false, if◌then◌else◌, leb, not, ok, refl, subst, sym, true, ℕ,
  ◌++◌, ◌==◌, ◌∙◌, ◌∷◌, ◌≡◌, ◌≢◌, ◌≤◌,
}
use quin_lang.Program.{Text}
use quin_lang.Compiler.Tokens.{
  Literal, Token, TokenType, chars, float_value, int_value, no_literal, slash,
}
use quin_lang.Compiler.Lexer.{
  LexError, Lexer, add_token, advance, advance_while, cut_off, lexeme_of, next_is, token_of,
}
use quin_lang.Compiler.Lexer.Scan.{
  add_plain, is_blank, scan_double, scan_identifier, scan_slash, scan_triple,
}
use quin_lang.Compiler.Lexer.Moves.{
  AllPass, Moved, Moved-still, Moved-twice, advance_over-Moved, advance_while-Moved,
}

abbrev pub is_byte : ℕ → Bool
is_byte c = leb c 0xff

-- An int fits 16 bits, and the characters of a string fit a byte.
abbrev pub Fits : {F : Type 0} → Literal F → Type 0
Fits (int_value n) = n ≤ 0xffff
Fits (chars v) = AllPass is_byte v
Fits no_literal = Unit
Fits (float_value x) = Unit

abbrev pub is_inline : ℕ → Bool
is_inline c = not (c == 10)

-- A blank or a newline by itself, or a comment up to the end of its line.
pub data Gap : Text → Type 0 where
  blank : (c : ℕ) → is_blank c ≡ true → Gap (c ∷ [])
  newline : Gap (10 ∷ [])
  comment : (w : Text) → AllPass is_inline w → Gap (b'/' ∷ b'/' ∷ w)

-- Behind the character c, the scanner has read a gap, or the rest of one token that it has made.
pub data Scanned {F : Type 0} (c : ℕ) (s s' : Lexer F) : Type 0 where
  gap : (w : Text) → Gap (c ∷ w) → s.rest ≡ w ++ s'.rest → s'.tokens ≡ s.tokens → Scanned c s s'
  token :
      (t : Token F) (w : Text)
      → t.lexeme ≡ c ∷ w
      → Fits t.literal
      → s.rest ≡ w ++ s'.rest
      → s'.tokens ≡ s.tokens ++ t ∷ []
      → Scanned c s s'

tests_true : (d other : ℕ) → d ≡ other → (d == other) ≡ true
tests_true d other q = ground arith

tests_false : (d other : ℕ) → d ≢ other → (d == other) ≡ false
tests_false d other q = ground arith

-- The outcome of a scan: such a state, or an error that is not the model's own.
abbrev pub Scans : {F : Type 0} → ℕ → Lexer F → Result LexError (Lexer F) → Type 0
Scans c s (ok s') = Scanned c s s'
Scans c s (err e) = e ≢ cut_off

module _ {F : Type 0} (c : ℕ) (s : Lexer F) (begun : lexeme_of s ≡ c ∷ []) where
  -- a move, and a token of what has been read
  pub add_token-Scanned :
      (w : Text) (s' : Lexer F) (t : TokenType) (l : Literal F)
      → Moved w s s'
      → Fits l
      → Scanned c s (add_token t l s')
  unfolding add_token token_of
  add_token-Scanned w s' t l m f =
      token (token_of t l s') w (m.spelled ∙ ap (λ x. x ++ w) begun) f m.source
        (ap (λ x. x ++ token_of t l s' ∷ []) m.kept)

  pub Scans-if :
      (b : Bool) (x y : Result LexError (Lexer F))
      → Scans c s x
      → Scans c s y
      → Scans c s (if b then x else y)
  Scans-if true x y h k = h
  Scans-if false x y h k = k

  pub add_plain-Scanned :
      (w : Text) (s' : Lexer F) (t : TokenType) → Moved w s s' → Scanned c s (add_plain t s')
  unfolding add_plain
  add_plain-Scanned w s' t m = add_token-Scanned w s' t no_literal m tt

  -- one more character, where it is the expected one
  pub next-Scanned :
      (other : ℕ) (x y : Lexer F)
      → (Moved (other ∷ []) s (advance s) → Scanned c s x)
      → Scanned c s y
      → Scanned c s (if next_is s.rest other then x else y)
  unfolding next_is
  next-Scanned other x y h k = split s.rest refl
    where
      split : (r : Text) → s.rest ≡ r → Scanned c s (if next_is r other then x else y)
      split [] e = k
      split (d ∷ ds) e = elim (ℕ_discrete d other) [
        | yes q ↦
            rw (tests_true d other q)
              (h (subst (λ n. Moved (n ∷ []) s (advance s)) q (advance_over-Moved d ds s e).0))
        | no n ↦ rw (tests_false d other n) k
      ]

  pub scan_double-Scanned :
      (other : ℕ) (both alone : TokenType) → Scanned c s (scan_double (other, (both, alone)) s)
  unfolding scan_double
  scan_double-Scanned other both alone =
      next-Scanned other _ _ (add_plain-Scanned (other ∷ []) (advance s) both)
        (add_plain-Scanned [] s alone (Moved-still s))

  pub scan_triple-Scanned :
      (other : ℕ) (both : TokenType) (d : ℕ × (TokenType × TokenType))
      → Scanned c s (scan_triple (other, (both, d)) s)
  unfolding scan_triple
  scan_triple-Scanned other both (second, (third, alone)) =
      next-Scanned other _ _ (add_plain-Scanned (other ∷ []) (advance s) both)
        (scan_double-Scanned second third alone)

  pub scan_slash-Scanned : c ≡ b'/' → Scanned c s (scan_slash s)
  unfolding scan_slash
  scan_slash-Scanned q =
      next-Scanned b'/' _ _ in_comment (add_plain-Scanned [] s slash (Moved-still s))
    where
      in_comment :
          Moved (b'/' ∷ []) s (advance s) → Scanned c s (advance_while is_inline (advance s))
      in_comment m =
          let (w, n, a) = advance_while-Moved is_inline (advance s) in
          let both = Moved-twice (b'/' ∷ []) w s (advance s) _ m n in
          gap (b'/' ∷ w) (subst (λ d. Gap (d ∷ b'/' ∷ w)) (sym q) (comment w a)) both.source
            both.kept

  pub scan_identifier-Scanned : (u : UnicodeTables) → Scanned c s (scan_identifier u s)
  unfolding scan_identifier
  scan_identifier-Scanned u =
      let (w, m, a) = advance_while-Moved (is_word u) s in add_plain-Scanned w _ _ m
