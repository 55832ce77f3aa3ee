-- ===== src/Compiler/Types/Matching.antt =====
-- What a match of `unify_type_name` in compiler/compiler_types.py means, and what it leaves bound.
pub mod Unified
use quin_lang.Prelude.{
  Bool-cases, List, [], arith, false, if◌then◌else◌, inl, inr, none, ok, refl, same_name, some,
  subst, true, ◌++◌, ◌∷◌, ◌≡◌,
}
use quin_lang.Program.{Text}
use quin_lang.Compiler.Types.Names.{NameTables, func_signature_from_name, generic_application}
use quin_lang.Compiler.Types.Rewriting.{Substitution, bound_to, is_among}
use quin_lang.Compiler.Types.Conversions.{same_name_refl}

-- what is bound in the first dict is bound to the same name in the second
abbrev pub Keeps : Substitution → Substitution → Type 0
Keeps s t = (k v : Text) → bound_to s k ≡ some v → bound_to t k ≡ some v

pub bound_to-append_old :
    (s : Substitution) (p a k v : Text)
    → bound_to s k ≡ some v
    → bound_to (s ++ (p, a) ∷ []) k ≡ some v
unfolding bound_to
bound_to-append_old [] p a k v h = absurd (ground arith)
bound_to-append_old ((j, w) ∷ s) p a k v h = elim (Bool-cases (same_name j k)) [
  | inl e ↦ rw e (subst (λ b. (if b then some w else bound_to s k) ≡ some v) e h)
  | inr e ↦ rw e (
      bound_to-append_old s p a k v
        (subst (λ b. (if b then some w else bound_to s k) ≡ some v) e h))
]

pub bound_to-append_new :
    (s : Substitution) (p a : Text) → bound_to s p ≡ none → bound_to (s ++ (p, a) ∷ []) p ≡ some a
unfolding bound_to
bound_to-append_new [] p a h = rw (same_name_refl p) refl
bound_to-append_new ((j, w) ∷ s) p a h = elim (Bool-cases (same_name j p)) [
  | inl e ↦
      let wrong : some w ≡ none = subst (λ b. (if b then some w else bound_to s p) ≡ none) e h in
      absurd (ground arith)
  | inr e ↦
      rw e
        (bound_to-append_new s p a (subst (λ b. (if b then some w else bound_to s p) ≡ none) e h))
]

module _ (u : NameTables) (params : List Text) where
  -- The name is the pattern with each parameter replaced by what the dict binds it to.
  mutual
    pub data Matches (s : Substitution) : Text → Text → Type 0 where
      by_parameter : (p a : Text) → is_among params p ≡ true → bound_to s p ≡ some a → Matches s p a
      by_arguments :
          (p a f : Text) (ps as' : List Text)
          → generic_application u p ≡ ok (some (f, ps))
          → generic_application u a ≡ ok (some (f, as'))
          → AllMatch s ps as'
          → Matches s p a
      by_signature :
          (p a r r' : Text) (ps as' : List Text)
          → func_signature_from_name p ≡ ok (some (ps, r))
          → func_signature_from_name a ≡ ok (some (as', r'))
          → AllMatch s ps as'
          → Matches s r r'
          → Matches s p a
      by_name : (p a : Text) → is_among params p ≡ false → p ≡ a → Matches s p a

    pub data AllMatch (s : Substitution) : List Text → List Text → Type 0 where
      none_match : AllMatch s [] []
      more_match :
          (p a : Text) (ps as' : List Text)
          → Matches s p a
          → AllMatch s ps as'
          → AllMatch s (p ∷ ps) (a ∷ as')

  mutual
    pub Matches-Keeps :
        (s t : Substitution) (p a : Text) → Keeps s t → Matches s p a → Matches t p a
    Matches-Keeps s t p a k (by_parameter _ _ e b) = by_parameter p a e (k p a b)
    Matches-Keeps s t p a k (by_arguments _ _ f ps as' e q m) =
        by_arguments p a f ps as' e q (AllMatch-Keeps s t ps as' k m)
    Matches-Keeps s t p a k (by_signature _ _ r r' ps as' e q m n) =
        by_signature p a r r' ps as' e q (AllMatch-Keeps s t ps as' k m)
          (Matches-Keeps s t r r' k n)
    Matches-Keeps s t p a k (by_name _ _ e q) = by_name p a e q

    pub AllMatch-Keeps :
        (s t : Substitution) (ps as' : List Text)
        → Keeps s t
        → AllMatch s ps as'
        → AllMatch t ps as'
    AllMatch-Keeps s t ps as' k none_match = none_match
    AllMatch-Keeps s t ps as' k (more_match p a qs bs m n) =
        more_match p a qs bs (Matches-Keeps s t p a k m) (AllMatch-Keeps s t qs bs k n)
