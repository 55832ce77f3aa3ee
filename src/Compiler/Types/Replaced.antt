-- ===== src/Compiler/Types/Replaced.antt =====
-- `substitute_type_name` of compiler/compiler_types.py: where its recursion goes.
use quin_lang.Prelude.{
  List, Option, Result, [], arith, ends_with, err, inl, inr, length, none, same_name, some,
  starts_with, subst, suc, sym, zero, ℕ, ◌∷◌, ◌≡◌, ◌≢◌,
}
use quin_lang.Program.{Text}
use quin_lang.Compiler.Types.Names.{
  NameTables, UnknownTypeError, func_signature_from_name, generic_application, recursion_cut_off,
}
use quin_lang.Compiler.Types.Rewriting.{
  Substitution, bound_to, each_name, substitute_function, substitute_parts, substitute_rounds,
  substitute_type_name, substitute_unbound,
}
use quin_lang.Compiler.Types.Results.{Satisfies, Satisfies->>=, Satisfies-ends}
use quin_lang.Compiler.Types.Parts.{
  AllBelow, IsApplied, IsEnough, IsPart, IsSplit, func_signature_from_name-IsSplit,
  generic_application-IsApplied, part-IsEnough, void_name,
}

abbrev IsAny : {A : Type 0} → A → Type 0
IsAny a = Unit

Recurs : ℕ → (Text → Result UnknownTypeError Text) → Type 0
Recurs n go = (t : Text) → IsPart n t → Satisfies IsAny (go t)

each_name-ends :
    (n : ℕ) (go : Text → Result UnknownTypeError Text) (ps : List Text)
    → Recurs n go
    → AllBelow n ps
    → Satisfies IsAny (each_name go ps)
unfolding each_name Recurs
each_name-ends n go [] h b = tt
each_name-ends n go (p ∷ ps) h (l, b) =
    Satisfies->>= IsAny IsAny (go p) _ (h p (inl l)) (λ t _.
      Satisfies->>= IsAny IsAny (each_name go ps) _ (each_name-ends n go ps h b) (λ ts _. tt))

module _ (u : NameTables) where
  substitute_function-ends :
      (n : ℕ) (go : Text → Result UnknownTypeError Text) (name : Text)
      (o : Option (List Text × Text))
      → Recurs n go
      → IsSplit n o
      → Satisfies IsAny (substitute_function u go name o)
  unfolding substitute_function Recurs
  substitute_function-ends n go name none h i = tt
  substitute_function-ends n go name (some (ps, r)) h (i, j) =
      Satisfies->>= IsAny IsAny (each_name go ps) _ (each_name-ends n go ps h i)
        (λ ts _. Satisfies->>= IsAny IsAny (go r) _ (h r j) (λ t _. tt))

  substitute_parts-ends :
      (n : ℕ) (go : Text → Result UnknownTypeError Text) (name : Text)
      (o : Option (Text × List Text))
      → Recurs n go
      → IsApplied n o
      → Satisfies (IsSplit n) (func_signature_from_name name)
      → Satisfies IsAny (substitute_parts u go name o)
  unfolding substitute_parts
  substitute_parts-ends n go name (some (base, args)) h i j =
      Satisfies->>= IsAny IsAny (each_name go args) _ (each_name-ends n go args h i) (λ ts _. tt)
  substitute_parts-ends n go name none h i j =
      Satisfies->>= (IsSplit n) IsAny (func_signature_from_name name) _ j
        (λ o k. substitute_function-ends n go name o h k)

  substitute_unbound-ends :
      (n : ℕ) (go : Text → Result UnknownTypeError Text) (name : Text) (o : Option Text)
      → Recurs n go
      → Satisfies (IsApplied n) (generic_application u name)
      → Satisfies (IsSplit n) (func_signature_from_name name)
      → Satisfies IsAny (substitute_unbound u go name o)
  unfolding substitute_unbound
  substitute_unbound-ends n go name (some t) h i j = tt
  substitute_unbound-ends n go name none h i j =
      Satisfies->>= (IsApplied n) IsAny (generic_application u name) _ i
        (λ o k. substitute_parts-ends n go name o h k j)

  void-ends :
      (go : Text → Result UnknownTypeError Text) (name : Text) (o : Option Text)
      → name ≡ void_name
      → Satisfies IsAny (substitute_unbound u go name o)
  unfolding Recurs generic_application func_signature_from_name starts_with ends_with same_name
  void-ends go name o e =
      substitute_unbound-ends 0 go name o
        (λ t i. elim i [ inl l ↦ absurd (omega arith) | inr (_, l) ↦ absurd (omega arith) ])
        (subst (λ t. Satisfies (IsApplied 0) (generic_application u t)) (sym e) tt)
        (subst (λ t. Satisfies (IsSplit 0) (func_signature_from_name t)) (sym e) tt)

  substitute_rounds-ends :
      (subs : Substitution) (fuel : ℕ) (name : Text)
      → IsEnough fuel name
      → Satisfies IsAny (substitute_rounds u subs fuel name)
  unfolding substitute_rounds Recurs
  substitute_rounds-ends subs zero name (inl l) = absurd (omega arith)
  substitute_rounds-ends subs zero name (inr (e, l)) = absurd (omega arith)
  substitute_rounds-ends subs (suc fuel) name (inl l) =
      substitute_unbound-ends (length name) (substitute_rounds u subs fuel) name
        (bound_to subs name)
        (λ t i. substitute_rounds-ends subs fuel t (part-IsEnough fuel (length name) t l i))
        (generic_application-IsApplied u name) (func_signature_from_name-IsSplit name)
  substitute_rounds-ends subs (suc fuel) name (inr (e, l)) =
      void-ends (substitute_rounds u subs fuel) name (bound_to subs name) e

  -- `substitute_type_name` ends on every name and every dict.
  pub substitute_type_name-ends :
      (name : Text) (subs : Substitution) → substitute_type_name u name subs ≢ err recursion_cut_off
  unfolding substitute_type_name
  substitute_type_name-ends name subs =
      Satisfies-ends IsAny (substitute_rounds u subs (suc (length name)) name)
        (substitute_rounds-ends subs (suc (length name)) name (inl (omega arith)))
