-- ===== src/Compiler/Types/Matching/Unified.antt =====
-- `unify_type_name` of compiler/compiler_types.py against what a match means.
use quin_lang.Prelude.{Bool, List, false, true, ℕ, ◌≡◌}
use quin_lang.Program.{Text}
use quin_lang.Compiler.Types.Names.{NameTables}
use quin_lang.Compiler.Types.Rewriting.{
  Substitution, Unified, bind_parameter, bound_to, unify_parts, unify_rounds,
}
use quin_lang.Compiler.Types.Results.{Satisfies}
use quin_lang.Compiler.Types.Parts.{IsPart}
use quin_lang.Compiler.Types.Matching.{AllMatch, Keeps, Matches}

module _ (u : NameTables) (params : List Text) where
  -- the bindings stay, and a match is one
  pub Unifies : Text → Text → Substitution → Bool × Substitution → Type 0
  Unifies p a s (b, t) = Keeps s t × (b ≡ true → Matches u params t p a)

  UnifyAll : List Text → List Text → Substitution → Bool × Substitution → Type 0
  UnifyAll ps as' s (b, t) = Keeps s t × (b ≡ true → AllMatch u params t ps as')

  Recurs : ℕ → (Text → Text → Substitution → Unified) → Type 0
  Recurs n go = (p a : Text) (s : Substitution) → IsPart n p → Satisfies (Unifies p a s) (go p a s)

  -- a round, behind its test
  tested : ℕ → Text → Text → Substitution → Bool → Unified
  tested fuel p a s true = bind_parameter p a s (bound_to s p)
  tested fuel p a s false = unify_parts u params (unify_rounds u params fuel) p a s
