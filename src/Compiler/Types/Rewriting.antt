-- ===== src/Compiler/Types/Rewriting.antt =====
-- `substitute_type_name` and `unify_type_name` of compiler/compiler_types.py. The recursion goes into
-- the parts of a name, and takes as many rounds at most as the name is long.
use quin_lang.Prelude.{
  Bool, List, Option, Result, [], err, false, if◌then◌else◌, length, none, ok, same_name, some, suc,
  true, zero, ℕ, ◌&&◌, ◌++◌, ◌==◌, ◌>>=◌, ◌||◌, ◌∷◌,
}
use quin_lang.Program.{Text}
use quin_lang.Compiler.Types.Names.{
  NameTables, UnknownTypeError, func_signature_from_name, generic_application, recursion_cut_off,
}

-- a dict from names to names
abbrev pub Substitution : Type 0
Substitution = List (Text × Text)

-- subs.get(name)
unfoldable pub bound_to : Substitution → Text → Option Text
bound_to [] name = none
bound_to ((k, v) ∷ subs) name =
    let rest = bound_to subs name in if same_name k name then some v else rest

-- name in params
unfoldable pub is_among : List Text → Text → Bool
is_among [] name = false
is_among (p ∷ ps) name = same_name p name || is_among ps name

-- ",".join(texts)
unfoldable pub comma_joined : List Text → Text
comma_joined [] = []
comma_joined (t ∷ []) = t
comma_joined (t ∷ u ∷ ts) = t ++ (b',' ∷ comma_joined (u ∷ ts))

-- the texts of a list in turn, up to the first error
unfoldable pub each_name :
    (Text → Result UnknownTypeError Text) → List Text → Result UnknownTypeError (List Text)
each_name go [] = ok []
each_name go (a ∷ args) = do b ← go a; bs ← each_name go args; ok (b ∷ bs)

module _ (u : NameTables) where
  unfoldable pub substitute_function :
      (Text → Result UnknownTypeError Text)
      → Text
      → Option (List Text × Text)
      → Result UnknownTypeError Text
  substitute_function go name none = ok name
  substitute_function go name (some (params, ret)) = do
    inner ← each_name go params
    r ← go ret
    ok ((b'f' ∷ b'n' ∷ b'(' ∷ []) ++ (comma_joined inner ++ ((b')' ∷ b':' ∷ []) ++ r)))

  unfoldable pub substitute_parts :
      (Text → Result UnknownTypeError Text)
      → Text
      → Option (Text × List Text)
      → Result UnknownTypeError Text
  substitute_parts go name (some (base, args)) = do
    inner ← each_name go args
    ok (base ++ (b'<' ∷ (comma_joined inner ++ (b'>' ∷ []))))
  substitute_parts go name none = do
    signature ← func_signature_from_name name
    substitute_function go name signature

  unfoldable pub substitute_unbound :
      (Text → Result UnknownTypeError Text) → Text → Option Text → Result UnknownTypeError Text
  substitute_unbound go name (some t) = ok t
  substitute_unbound go name none = do
    app ← generic_application u name
    substitute_parts go name app

  unfoldable pub substitute_rounds : Substitution → ℕ → Text → Result UnknownTypeError Text
  substitute_rounds subs zero name = err recursion_cut_off
  substitute_rounds subs (suc fuel) name =
      substitute_unbound (substitute_rounds subs fuel) name (bound_to subs name)

  unfoldable pub substitute_type_name : Text → Substitution → Result UnknownTypeError Text
  substitute_type_name name subs = substitute_rounds subs (suc (length name)) name

-- whether the two spellings match, and the dict as it is left
abbrev pub Unified : Type 0
Unified = Result UnknownTypeError (Bool × Substitution)

-- a pattern that is a parameter
unfoldable pub bind_parameter : Text → Text → Substitution → Option Text → Unified
bind_parameter pattern_name actual subs none = ok (true, subs ++ (pattern_name, actual) ∷ [])
bind_parameter pattern_name actual subs (some bound) = ok (same_name bound actual, subs)

-- what follows where the first match holds
unfoldable pub and_then : (Substitution → Unified) → Bool × Substitution → Unified
and_then go (true, subs) = go subs
and_then go (false, subs) = ok (false, subs)

-- all(unify(p, a) for p, a in zip(ps, as)), with its early end
unfoldable pub unify_all :
    (Text → Text → Substitution → Unified) → List Text → List Text → Substitution → Unified
unify_all go (p ∷ ps) (a ∷ as') subs = do r ← go p a subs; and_then (unify_all go ps as') r
unify_all go _ _ subs = ok (true, subs)

unfoldable pub unify_signatures :
    (Text → Text → Substitution → Unified)
    → Text
    → Text
    → Substitution
    → Option (List Text × Text)
    → Option (List Text × Text)
    → Unified
unify_signatures go p a subs none none = ok (same_name p a, subs)
unify_signatures go p a subs (some (ps, r)) (some (as', s)) =
    if length ps == length as'
    then unify_all go ps as' subs >>= and_then (go r s)
    else ok (false, subs)
unify_signatures go p a subs _ _ = ok (false, subs)

unfoldable pub unify_applications :
    (Text → Text → Substitution → Unified)
    → Text
    → Text
    → Substitution
    → Option (Text × List Text)
    → Option (Text × List Text)
    → Unified
unify_applications go p a subs none none = do
  s ← func_signature_from_name p
  t ← func_signature_from_name a
  unify_signatures go p a subs s t
unify_applications go p a subs (some (f, ps)) (some (g, as')) =
    if same_name f g && length ps == length as' then unify_all go ps as' subs else ok (false, subs)
unify_applications go p a subs _ _ = ok (false, subs)

module _ (u : NameTables) (params : List Text) where
  unfoldable pub unify_parts :
      (Text → Text → Substitution → Unified) → Text → Text → Substitution → Unified
  unify_parts go p a subs = do
    f ← generic_application u p
    g ← generic_application u a
    unify_applications go p a subs f g

  unfoldable pub unify_rounds : ℕ → Text → Text → Substitution → Unified
  unify_rounds zero p a subs = err recursion_cut_off
  unify_rounds (suc fuel) p a subs = elim (is_among params p) [
    | true ↦ bind_parameter p a subs (bound_to subs p)
    | false ↦ unify_parts (unify_rounds fuel) p a subs
  ]

  unfoldable pub unify_type_name : Text → Text → Substitution → Unified
  unify_type_name p a subs = unify_rounds (suc (length p)) p a subs
