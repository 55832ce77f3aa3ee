-- ===== src/Compiler/Lexer/Tokenize.antt =====
-- `tokenize` of compiler/lexer.py as a whole: how the tokens spell the source.
use quin_lang.Prelude.{
  Bool-cases, List, Option, Result, [], ap, append-nil, append_assoc, arith, err, inl, inr, length,
  length-append, none, ok, pos, refl, some, subst, suc, sym, zero, ℕ, ◌++◌, ◌-ℤ◌, ◌<◌, ◌==◌, ◌>>=◌,
  ◌||◌, ◌∙◌, ◌∷◌, ◌≡◌, ◌≢◌,
}
use quin_lang.Program.{Text}
use quin_lang.Vm.Floats.{FloatOps}
use quin_lang.Compiler.Tokens.{Token, TokenType, eof}
use quin_lang.Compiler.Lexer.{
  LexError, Lexer, advance, cut_off, lexeme_of, start, unexpected_character,
}
use quin_lang.Compiler.Lexer.Chars.{UnicodeTables, is_alpha, is_digit}
use quin_lang.Compiler.Lexer.Scan.{
  add_plain, double_type, eof_token, is_blank, scan_double, scan_other, scan_symbol, scan_token,
  scan_triple, single_type, token_loop, tokenize, triple_type,
}
use quin_lang.Compiler.Lexer.Moves.{Moved-still, advance_over-Moved}
use quin_lang.Compiler.Lexer.Spelling.{
  Fits, Gap, Scanned, Scans, Scans-if, add_plain-Scanned, blank, gap, newline, scan_double-Scanned,
  scan_identifier-Scanned, scan_slash-Scanned, scan_triple-Scanned, token,
}
use quin_lang.Compiler.Lexer.Literals.{scan_number-Scanned, scan_string-Scanned}

-- The source is the lexemes of the tokens, in order, with gaps between them.
pub data Spells {F : Type 0} : List (Token F) → Text → Type 0 where
  ended : Spells [] []
  skipped : (ts : List (Token F)) (w rest : Text) → Gap w → Spells ts rest → Spells ts (w ++ rest)
  spelled :
      (t : Token F) (ts : List (Token F)) (rest : Text)
      → Fits t.literal
      → Spells ts rest
      → Spells (t ∷ ts) (t.lexeme ++ rest)

module _ {F : Type 0} (floats : FloatOps F) (u : UnicodeTables) where
  module _ (c : ℕ) (s : Lexer F) (begun : lexeme_of s ≡ c ∷ []) where
    scan_other-Scans : Scans c s (scan_other floats u c s)
    unfolding scan_other
    scan_other-Scans = elim (Bool-cases (c == b'/')) [
      | inl e ↦ rw e (scan_slash-Scanned c s begun (ground arith))
      | inr e ↦ rw e (
          Scans-if c s begun (c == 34) _ _ (scan_string-Scanned c s begun) (
            Scans-if c s begun (is_digit u c) _ _ (scan_number-Scanned floats u c s begun) (
              Scans-if c s begun (is_alpha u c || c == b'_') _
                (err (unexpected_character c s.line (pos s.col -ℤ pos 1)))
                (scan_identifier-Scanned c s begun u) (λ q. cc))))
    ]

    scan_symbol-Scans : Scans c s (scan_symbol floats u c s)
    unfolding scan_symbol
    scan_symbol-Scans = single (single_type c)
      where
        triple :
            (o : Option (ℕ × (TokenType × (ℕ × (TokenType × TokenType)))))
            → Scans c s (elim o as (λ x. Result LexError (Lexer F)) [
              | some d ↦ ok (scan_triple d s)
              | none ↦ scan_other floats u c s
            ])
        triple none = scan_other-Scans
        triple (some (other, (both, d))) = scan_triple-Scanned c s begun other both d

        double :
            (o : Option (ℕ × (TokenType × TokenType)))
            → Scans c s (elim o as (λ x. Result LexError (Lexer F)) [
              | some d ↦ ok (scan_double d s)
              | none ↦ elim (triple_type c) as (λ x. Result LexError (Lexer F)) [
                | some d ↦ ok (scan_triple d s)
                | none ↦ scan_other floats u c s
              ]
            ])
        double none = triple (triple_type c)
        double (some (other, (both, alone))) = scan_double-Scanned c s begun other both alone

        single :
            (o : Option TokenType)
            → Scans c s (elim o as (λ x. Result LexError (Lexer F)) [
              | some t ↦ ok (add_plain t s)
              | none ↦ elim (double_type c) as (λ x. Result LexError (Lexer F)) [
                | some d ↦ ok (scan_double d s)
                | none ↦ elim (triple_type c) as (λ x. Result LexError (Lexer F)) [
                  | some d ↦ ok (scan_triple d s)
                  | none ↦ scan_other floats u c s
                ]
              ]
            ])
        single none = double (double_type c)
        single (some t) = add_plain-Scanned c s begun [] s t (Moved-still s)

    scan_token-Scans : Scans c s (scan_token floats u c s)
    unfolding scan_token
    scan_token-Scans = elim (Bool-cases (is_blank c)) [
      | inl e ↦ rw e (gap [] (blank c e) refl refl)
      | inr e ↦ rw e (elim (Bool-cases (c == 10)) [
        | inl e' ↦ rw e' (gap [] (subst (λ d. Gap (d ∷ [])) (ground arith) newline) refl refl)
        | inr e' ↦ rw e' scan_symbol-Scans
      ])
    ]

-- The outcome of the loop from a state on: its tokens spell what was left of the source, or there is
-- an error that is not the model's own.
abbrev Looped : {F : Type 0} → Lexer F → Result LexError (Lexer F) → Type 0
Looped {F} s (ok s') = (ts : List (Token F)) × (s'.tokens ≡ s.tokens ++ ts) × Spells ts s.rest
Looped s (err e) = e ≢ cut_off

-- The outcome of `tokenize`: the tokens spell the source, and one of the type EOF with no lexeme is
-- behind them.
abbrev pub Tokenizes : {F : Type 0} → Text → Result LexError (List (Token F)) → Type 0
Tokenizes {F} source (ok tokens) =
    (ts : List (Token F)) × (last : Token F) × (tokens ≡ ts ++ last ∷ [])
    × (last.kind ≡ eof)
    × (last.lexeme ≡ [])
    × Spells ts source
Tokenizes source (err e) = e ≢ cut_off

shorter : (c : ℕ) (w rest cs : Text) → cs ≡ w ++ rest → length rest < length (c ∷ cs)
shorter c w rest cs e = omega (arith, ap length e, length-append w rest)

module _ {F : Type 0} where
  -- one token or gap in front of the outcome of the rest of the loop
  Looped-after :
      (c : ℕ) (cs : Text) (s t s' : Lexer F) (r : Result LexError (Lexer F))
      → s.rest ≡ c ∷ cs
      → t.rest ≡ cs
      → t.tokens ≡ s.tokens
      → Scanned c t s'
      → Looped s' r
      → Looped s r
  Looped-after c cs s t s' (err e) a b k x h = h
  Looped-after c cs s t s' (ok r) a b k (gap w g q kept) (ts, e, sp) = (
    ts,
    e ∙ ap (λ l. l ++ ts) (kept ∙ k),
    subst (λ l. Spells ts l) (sym (a ∙ ap (λ l. c ∷ l) (sym b ∙ q)))
        (skipped ts (c ∷ w) s'.rest g sp),
  )
  Looped-after c cs s t s' (ok r) a b k (token n w x f q kept) (ts, e, sp) = (
    n ∷ ts,
    e ∙ ap (λ l. l ++ ts) (kept ∙ ap (λ l. l ++ n ∷ []) k) ∙ append_assoc s.tokens (n ∷ []) ts,
    subst (λ l. Spells (n ∷ ts) l)
        (ap (λ l. l ++ s'.rest) x ∙ sym (a ∙ ap (λ l. c ∷ l) (sym b ∙ q)))
        (spelled n ts s'.rest f sp),
  )

  Scanned-shorter : (c : ℕ) (t s' : Lexer F) → Scanned c t s' → length s'.rest < length (c ∷ t.rest)
  Scanned-shorter c t s' (gap w g q kept) = shorter c w s'.rest t.rest q
  Scanned-shorter c t s' (token n w x f q kept) = shorter c w s'.rest t.rest q

module _ {F : Type 0} (floats : FloatOps F) (u : UnicodeTables) where
  -- a round, and the rest of the loop
  round_Looped :
      (fuel c : ℕ) (cs : Text) (s t : Lexer F) (r : Result LexError (Lexer F))
      → s.rest ≡ c ∷ cs
      → t.rest ≡ cs
      → t.tokens ≡ s.tokens
      → length s.rest < suc fuel
      → Scans c t r
      → ((s' : Lexer F) → length s'.rest < fuel → Looped s' (token_loop floats u fuel s'))
      → Looped s (do s' ← r; token_loop floats u fuel s')
  round_Looped fuel c cs s t (err e) a b k l h go = h
  round_Looped fuel c cs s t (ok s') a b k l h go =
      Looped-after c cs s t s' _ a b k h
        (go s' (omega (arith, Scanned-shorter c t s' h, ap length a, ap length b)))

  token_loop-Looped :
      (fuel : ℕ) (s : Lexer F) → length s.rest < fuel → Looped s (token_loop floats u fuel s)
  unfolding token_loop lexeme_of
  token_loop-Looped zero s h = absurd (omega arith)
  token_loop-Looped (suc fuel) s h = at_rest s.rest refl (λ s' l. token_loop-Looped fuel s' l)
    where
      at_rest :
          (r : Text)
          → s.rest ≡ r
          → ((s' : Lexer F) → length s'.rest < fuel → Looped s' (token_loop floats u fuel s'))
          → Looped s (elim r [
            | [] ↦ ok s
            | c ∷ cs ↦ (do
              s' ← scan_token floats u c (advance (record s { taken = [] }))
              token_loop floats u fuel s')
          ])
      at_rest [] e go =
          ([], sym (append-nil s.tokens), subst (λ l. Spells {F = F} [] l) (sym e) ended)
      at_rest (c ∷ cs) e go =
          let (m, q) = advance_over-Moved c cs (record s { taken = [] }) e in
          round_Looped fuel c cs s (advance (record s { taken = [] })) _ e q m.kept h
            (scan_token-Scans floats u c (advance (record s { taken = [] })) m.spelled) go

  tokenized :
      (source : Text) (r : Result LexError (Lexer F))
      → Looped (start source) r
      → Tokenizes source (do s ← r; ok (s.tokens ++ eof_token floats u s ∷ []))
  unfolding eof_token
  tokenized source (err e) h = h
  tokenized source (ok s) (ts, e, sp) =
      (ts, eof_token floats u s, ap (λ l. l ++ eof_token floats u s ∷ []) e, refl, refl, sp)

  -- `tokenize` ends on every source, with an error of the source or with tokens that spell it: the
  -- lexemes in order, with nothing between them but blanks, newlines and comments, and a token of the
  -- type EOF behind them. A number fits 16 bits, and each character of a string fits a byte.
  pub tokenize-Spells : (source : Text) → Tokenizes source (tokenize floats u source)
  unfolding tokenize
  tokenize-Spells source =
      tokenized source _ (token_loop-Looped (suc (length source)) (start source) (omega arith))
