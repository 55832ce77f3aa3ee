-- ===== src/Compiler/Types/Results.antt =====
-- Results of compiler/compiler_types.py of which a value has a property and an error is one that the
-- code raises.
use quin_lang.Prelude.{
  Bool, Result, arith, err, false, if◌then◌else◌, ok, refl, subst, true, ◌>>=◌, ◌≡◌, ◌≢◌,
}
use quin_lang.Compiler.Types.Names.{UnknownTypeError, recursion_cut_off}

abbrev pub is_cut_off : UnknownTypeError → Bool
is_cut_off recursion_cut_off = true
is_cut_off _ = false

abbrev pub Satisfies : {A : Type 0} → (A → Type 0) → Result UnknownTypeError A → Type 0
Satisfies P (ok a) = P a
Satisfies P (err e) = is_cut_off e ≡ false

module _ {A B : Type 0} (P : A → Type 0) (Q : B → Type 0) where
  pub Satisfies->>= :
      (r : Result UnknownTypeError A) (f : A → Result UnknownTypeError B)
      → Satisfies P r
      → ((a : A) → P a → Satisfies Q (f a))
      → Satisfies Q (r >>= f)
  Satisfies->>= (ok a) f h k = k a h
  Satisfies->>= (err e) f h k = h

module _ {A : Type 0} (P : A → Type 0) where
  pub Satisfies-if :
      (b : Bool) (x y : Result UnknownTypeError A)
      → (b ≡ true → Satisfies P x)
      → (b ≡ false → Satisfies P y)
      → Satisfies P (if b then x else y)
  Satisfies-if true x y h k = h refl
  Satisfies-if false x y h k = k refl

  pub Satisfies-ok : (r : Result UnknownTypeError A) (a : A) → r ≡ ok a → Satisfies P r → P a
  Satisfies-ok r a e h = subst (Satisfies P) e h

  pub Satisfies-ends : (r : Result UnknownTypeError A) → Satisfies P r → r ≢ err recursion_cut_off
  Satisfies-ends r h e = let wrong : true ≡ false = subst (Satisfies P) e h in absurd (ground arith)

  pub Satisfies-self : (r : Result UnknownTypeError A) → Satisfies P r → Satisfies (λ a. r ≡ ok a) r
  Satisfies-self (ok a) h = refl
  Satisfies-self (err e) h = h

  -- the value with where it comes from
  pub Satisfies-both :
      (r : Result UnknownTypeError A) → Satisfies P r → Satisfies (λ (a : A). (r ≡ ok a) × P a) r
  Satisfies-both (ok a) h = (refl, h)
  Satisfies-both (err e) h = h

module _ {A : Type 0} (P Q : A → Type 0) where
  pub Satisfies-map :
      (r : Result UnknownTypeError A) → ((a : A) → P a → Q a) → Satisfies P r → Satisfies Q r
  Satisfies-map (ok a) k h = k a h
  Satisfies-map (err e) k h = h
