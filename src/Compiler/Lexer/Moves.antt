-- ===== src/Compiler/Lexer/Moves.antt =====
-- What the loops of compiler/lexer.py move over.
use mathlib.Core.List.{reverse-append}
use quin_lang.Prelude.{
  Bool, [], ap, append-nil, append_assoc, false, if◌then◌else◌, refl, subst, sym, true, ℕ, ◌++◌,
  ◌+◌, ◌==◌, ◌∙◌, ◌∷◌, ◌≡◌,
}
use quin_lang.Program.{Text}
use quin_lang.Compiler.Lexer.{
  Lexer, advance, advance_over, advance_through, advance_while, lexeme_of,
}
use quin_lang.Compiler.Lexer.Strings.{count_line, read_char}

-- From the first state to the second the scanner has read exactly this text and made no token.
pub record Moved {F : Type 0} (w : Text) (s s' : Lexer F) : Type 0 where
  pub source : s.rest ≡ w ++ s'.rest
  pub spelled : lexeme_of s' ≡ lexeme_of s ++ w
  pub kept : s'.tokens ≡ s.tokens

-- every character passes the test
abbrev pub AllPass : (ℕ → Bool) → Text → Type 0
AllPass p [] = Unit
AllPass p (c ∷ cs) = (p c ≡ true) × AllPass p cs

pub AllPass-append : (p : ℕ → Bool) (v w : Text) → AllPass p v → AllPass p w → AllPass p (v ++ w)
AllPass-append p [] w h k = k
AllPass-append p (c ∷ v) w (h, hs) k = (h, AllPass-append p v w hs k)

module _ {F : Type 0} where
  pub Moved-still : (s : Lexer F) → Moved [] s s
  Moved-still s = record { source = refl; spelled = sym (append-nil (lexeme_of s)); kept = refl }

  pub Moved-twice : (v w : Text) (s t r : Lexer F) → Moved v s t → Moved w t r → Moved (v ++ w) s r
  Moved-twice v w s t r a b = record {
    source = a.source ∙ ap (λ x. v ++ x) b.source ∙ sym (append_assoc v w r.rest);
    spelled = b.spelled ∙ ap (λ x. x ++ w) a.spelled ∙ append_assoc (lexeme_of s) v w;
    kept = b.kept ∙ a.kept;
  }

  pub advance_over-Moved :
      (c : ℕ) (cs : Text) (s : Lexer F)
      → s.rest ≡ c ∷ cs
      → Moved (c ∷ []) s (advance s) × ((advance s).rest ≡ cs)
  unfolding advance advance_over lexeme_of
  advance_over-Moved c cs s h =
      subst (λ r. Moved (c ∷ []) s (advance_over r s) × ((advance_over r s).rest ≡ cs)) (sym h)
        moved
    where
      moved : Moved (c ∷ []) s (advance_over (c ∷ cs) s) × ((advance_over (c ∷ cs) s).rest ≡ cs)
      moved = (record { source = h; spelled = reverse-append (c ∷ []) s.taken; kept = refl }, refl)

  -- at the end, `_advance` is not called; the model stands still there
  pub advance-Moved : (s : Lexer F) → (w : Text) × Moved w s (advance s)
  unfolding advance advance_over
  advance-Moved s = from_rest s.rest refl
    where
      from_rest : (r : Text) → s.rest ≡ r → (w : Text) × Moved w s (advance s)
      from_rest [] e = ([], subst (λ r. Moved [] s (advance_over r s)) (sym e) (Moved-still s))
      from_rest (c ∷ cs) e = (c ∷ [], (advance_over-Moved c cs s e).0)

  pub advance_through-Moved :
      (p : ℕ → Bool) (cs : Text) (s : Lexer F)
      → s.rest ≡ cs
      → (w : Text) × Moved w s (advance_through p cs s) × AllPass p w
  unfolding advance_through
  advance_through-Moved p [] s h = ([], Moved-still s, tt)
  advance_through-Moved p (c ∷ cs) s h =
      let (m, r) = advance_over-Moved c cs s h in
      let (w, n, a) = advance_through-Moved p cs (advance s) r in
      through (p c) refl w (Moved-twice (c ∷ []) w s (advance s) _ m n) a
    where
      through :
          (b : Bool)
          → p c ≡ b
          → (w : Text) → Moved (c ∷ w) s (advance_through p cs (advance s))
          → AllPass p w
          → (w' : Text) × Moved w' s (if b then advance_through p cs (advance s) else s)
            × AllPass p w'
      through true e w m a = (c ∷ w, m, (e, a))
      through false e w m a = ([], Moved-still s, tt)

  pub advance_while-Moved :
      (p : ℕ → Bool) (s : Lexer F) → (w : Text) × Moved w s (advance_while p s) × AllPass p w
  unfolding advance_while
  advance_while-Moved p s = advance_through-Moved p s.rest s refl

  pub read_char-Moved :
      (c : ℕ) (cs : Text) (s : Lexer F)
      → s.rest ≡ c ∷ cs
      → Moved (c ∷ []) s (read_char c s) × ((read_char c s).rest ≡ cs)
  unfolding read_char count_line lexeme_of
  read_char-Moved c cs s h = let (m, r) = advance_over-Moved c cs s h in counted (c == 10) m r
    where
      counted :
          (b : Bool)
          → Moved (c ∷ []) s (advance s)
          → (advance s).rest ≡ cs
          → let s' =
              (if b
                then record (advance s) { line = (advance s).line + 1; col = 1 }
                else advance s) in
            Moved (c ∷ []) s s' × (s'.rest ≡ cs)
      counted true m r = (record { source = m.source; spelled = m.spelled; kept = m.kept }, r)
      counted false m r = (m, r)
