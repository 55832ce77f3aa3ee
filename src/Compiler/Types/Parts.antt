-- ===== src/Compiler/Types/Parts.antt =====
-- The parts of a type's name in compiler/compiler_types.py are shorter than the name.
use quin_lang.Compiler.Types.Results.{Satisfies, Satisfies->>=, Satisfies-if}
use quin_lang.Prelude.{
  Bool-cases, List, Option, [], arith, drop, ends_with, inl, inr, length, length-drop, length-take,
  map, none, pos, refl, reverse, same_name, some, starts_with, suc, take, true, zero, ℕ, ℤ, ◌&&◌,
  ◌+◌, ◌-◌, ◌<◌, ◌==◌, ◌∷◌, ◌≡◌, ◌≤◌, ◌⊎◌,
}
use mathlib.Core.List.{reverse_aux}
use quin_lang.Program.{Text}
use quin_lang.Compiler.Types.Names.{
  NameTables, close_from, closed_at, depth_after, drop_white, element_of, element_type_from_name,
  find_angle, func_prefix, func_signature_from_name, generic_application, has_empty, is_identifier,
  is_top_level, is_white, one_element, opened_at, parameter_names, push_char, signature_parts,
  split_from, split_top_level, strip_white, with_arguments, with_parameters,
}

abbrev pub AllBelow : ℕ → List Text → Type 0
AllBelow n [] = Unit
AllBelow n (p ∷ ps) = (length p < n) × AllBelow n ps

-- a return type that is left out is `void`
abbrev pub void_name : Text
void_name = b'v' ∷ b'o' ∷ b'i' ∷ b'd' ∷ []

abbrev pub IsPart : ℕ → Text → Type 0
IsPart n t = (length t < n) ⊎ ((t ≡ void_name) × (0 < n))

abbrev pub IsSplit : ℕ → Option (List Text × Text) → Type 0
IsSplit n none = Unit
IsSplit n (some (ps, r)) = AllBelow n ps × IsPart n r

abbrev pub IsApplied : ℕ → Option (Text × List Text) → Type 0
IsApplied n none = Unit
IsApplied n (some (base, args)) = AllBelow n args

abbrev pub IsElement : ℕ → Option Text → Type 0
IsElement n none = Unit
IsElement n (some e) = length e < n

-- so many rounds are enough: the name is shorter, or the `void` of a return type that is left out
abbrev pub IsEnough : ℕ → Text → Type 0
IsEnough fuel name = (length name < fuel) ⊎ ((name ≡ void_name) × (0 < fuel))

pub part-IsEnough : (fuel n : ℕ) (t : Text) → n < suc fuel → IsPart n t → IsEnough fuel t
part-IsEnough fuel n t h (inl l) = inl (omega arith)
part-IsEnough fuel n t h (inr (e, l)) = inr (e, omega arith)

AllBelow-below : (m n : ℕ) (ps : List Text) → m ≤ n → AllBelow m ps → AllBelow n ps
AllBelow-below m n [] h k = tt
AllBelow-below m n (p ∷ ps) h (a, k) = (omega arith, AllBelow-below m n ps h k)

length-reverse_aux : (xs ys : Text) → length (reverse_aux xs ys) ≡ length xs + length ys
length-reverse_aux [] ys = omega arith
length-reverse_aux (x ∷ xs) ys = omega (arith, length-reverse_aux xs (x ∷ ys))

length-reverse : (xs : Text) → length (reverse xs) ≡ length xs
length-reverse xs = omega (arith, length-reverse_aux xs [])

length-drop_white : (s : Text) → length (drop_white s) ≤ length s
unfolding drop_white
length-drop_white [] = omega arith
length-drop_white (c ∷ s) = elim (Bool-cases (is_white c)) [
  | inl e ↦ rw e (omega (arith, length-drop_white s))
  | inr e ↦ rw e (omega arith)
]

length-strip_white : (s : Text) → length (strip_white s) ≤ length s
unfolding strip_white
length-strip_white s = omega (
  arith,
  length-drop_white s,
  length-drop_white (reverse (drop_white s)),
  length-reverse (drop_white s),
  length-reverse (drop_white (reverse (drop_white s))),
)

push_char-AllBelow :
    (c n : ℕ) (ps : List Text) → 0 < n → AllBelow n ps → AllBelow (suc n) (push_char c ps)
unfolding push_char
push_char-AllBelow c n [] z h = (omega arith, tt)
push_char-AllBelow c n (p ∷ ps) z (a, h) =
    (omega arith, AllBelow-below n (suc n) ps (omega arith) h)

split_from-AllBelow : (d : ℤ) (s : Text) → AllBelow (suc (length s)) (split_from d s)
unfolding split_from
split_from-AllBelow d [] = (omega arith, tt)
split_from-AllBelow d (c ∷ s) =
    let rest = split_from-AllBelow (depth_after d c) s in
    elim (Bool-cases (c == b',' && is_top_level d)) [
      | inl e ↦ rw e (
        omega arith,
        AllBelow-below (suc (length s)) (suc (suc (length s))) (split_from (depth_after d c) s)
            (omega arith) rest,
      )
      | inr e ↦ rw e (
          push_char-AllBelow c (suc (length s)) (split_from (depth_after d c) s) (omega arith) rest)
    ]

strip-AllBelow : (n : ℕ) (ps : List Text) → AllBelow n ps → AllBelow n (map strip_white ps)
strip-AllBelow n [] h = tt
strip-AllBelow n (p ∷ ps) (a, h) = (omega (arith, length-strip_white p), strip-AllBelow n ps h)

split_top_level-AllBelow : (n : ℕ) (s : Text) → length s < n → AllBelow n (split_top_level s)
unfolding split_top_level
split_top_level-AllBelow n s h = strip-AllBelow n (split_from (pos 0) s) (
    AllBelow-below (suc (length s)) n (split_from (pos 0) s) (omega arith)
      (split_from-AllBelow (pos 0) s))

parameter_names-AllBelow :
    (n : ℕ) (inner : Text) → length inner < n → AllBelow n (parameter_names inner)
unfolding parameter_names
parameter_names-AllBelow n inner h =
    elim (strip_white inner)
      as (λ t. AllBelow n (elim t [ [] ↦ [] | _ ∷ _ ↦ split_top_level inner ])) [
        | [] ↦ tt
        | c ∷ cs ↦ split_top_level-AllBelow n inner h
      ]

with_parameters-IsSplit :
    (n : ℕ) (name : Text) (params : List Text) (ret : Text)
    → AllBelow n params
    → IsPart n ret
    → Satisfies (IsSplit n) (with_parameters name params ret)
unfolding with_parameters
with_parameters-IsSplit n name params ret h k =
    Satisfies-if (IsSplit n) (has_empty params) _ _ (λ e. refl) (λ e. (h, k))

signature_parts-IsSplit :
    (n : ℕ) (name inner rest : Text)
    → length inner < n
    → length rest < suc n
    → Satisfies (IsSplit n) (signature_parts name inner rest)
unfolding signature_parts
signature_parts-IsSplit n name inner [] h k =
    with_parameters-IsSplit n name (parameter_names inner) void_name
      (parameter_names-AllBelow n inner h) (inr (refl, omega arith))
signature_parts-IsSplit n name inner (c ∷ []) h k = refl
signature_parts-IsSplit n name inner (c ∷ d ∷ rest) h k =
    Satisfies-if (IsSplit n) (c == b':') _ _
      (λ e.
        with_parameters-IsSplit n name (parameter_names inner) (d ∷ rest)
          (parameter_names-AllBelow n inner h) (inl (omega arith)))
      (λ e. refl)

closed_at-IsSplit :
    (name : Text) (close : Option ℕ)
    → 3 ≤ length name
    → Satisfies (IsSplit (length name)) (closed_at name close)
unfolding closed_at
closed_at-IsSplit name none h = refl
closed_at-IsSplit name (some close) h =
    signature_parts-IsSplit (length name) name (take (close - 3) (drop 3 name))
      (drop (close + 1) name)
      (omega (arith, length-take (close - 3) (drop 3 name), length-drop 3 name))
      (omega (arith, length-drop (close + 1) name))

starts_with-length : (s prefix : Text) → starts_with s prefix ≡ true → length prefix ≤ length s
unfolding starts_with
starts_with-length s prefix h = ground arith

pub func_signature_from_name-IsSplit :
    (name : Text) → Satisfies (IsSplit (length name)) (func_signature_from_name name)
unfolding func_signature_from_name
func_signature_from_name-IsSplit name =
    Satisfies-if (IsSplit (length name)) (starts_with name func_prefix) _ _
      (λ e.
        closed_at-IsSplit name (close_from 2 0 (drop 2 name))
          (starts_with-length name func_prefix e))
      (λ e. tt)

ends_with-length : (s suffix : Text) → ends_with s suffix ≡ true → length suffix ≤ length s
unfolding ends_with
ends_with-length s suffix h = ground arith

module _ (u : NameTables) where
  with_arguments-IsApplied :
      (n : ℕ) (name base : Text) (args : List Text)
      → AllBelow n args
      → Satisfies (IsApplied n) (with_arguments u name base args)
  unfolding with_arguments
  with_arguments-IsApplied n name base args h =
      Satisfies-if (IsApplied n) (has_empty args) _ _ (λ e. refl) (λ e. h)

  opened_at-IsApplied :
      (name : Text) (i : Option ℕ)
      → 1 ≤ length name
      → Satisfies (IsApplied (length name)) (opened_at u name i)
  unfolding opened_at
  opened_at-IsApplied name none h = tt
  opened_at-IsApplied name (some zero) h = tt
  opened_at-IsApplied name (some (suc i)) h =
      let inner = drop (suc i + 1) (take (length name - 1) name) in
      Satisfies-if (IsApplied (length name)) (is_identifier u (take (suc i) name)) _ _
        (λ e.
          with_arguments-IsApplied (length name) name (take (suc i) name) (split_top_level inner) (
            split_top_level-AllBelow (length name) inner (
              omega (
                arith,
                length-drop (suc i + 1) (take (length name - 1) name),
                length-take (length name - 1) name,
              ))))
        (λ e. tt)

  pub generic_application-IsApplied :
      (name : Text) → Satisfies (IsApplied (length name)) (generic_application u name)
  unfolding generic_application
  generic_application-IsApplied name =
      Satisfies-if (IsApplied (length name)) (ends_with name (b'>' ∷ [])) _ _
        (λ e. opened_at-IsApplied name (find_angle name) (ends_with-length name (b'>' ∷ []) e))
        (λ e. tt)

  one_element-IsElement :
      (n : ℕ) (name : Text) (args : List Text)
      → AllBelow n args
      → Satisfies (IsElement n) (one_element u name args)
  unfolding one_element
  one_element-IsElement n name [] h = refl
  one_element-IsElement n name (a ∷ []) (h, k) = h
  one_element-IsElement n name (a ∷ b ∷ args) h = refl

  element_of-IsElement :
      (n : ℕ) (name : Text) (app : Option (Text × List Text))
      → IsApplied n app
      → Satisfies (IsElement n) (element_of u name app)
  unfolding element_of
  element_of-IsElement n name none h = tt
  element_of-IsElement n name (some (base, args)) h =
      Satisfies-if (IsElement n) (same_name base _) _ _ (λ e. one_element-IsElement n name args h)
        (λ e. tt)

  pub element_type_from_name-IsElement :
      (name : Text) → Satisfies (IsElement (length name)) (element_type_from_name u name)
  unfolding element_type_from_name
  element_type_from_name-IsElement name =
      Satisfies->>= (IsApplied (length name)) (IsElement (length name)) (generic_application u name)
        (element_of u name) (generic_application-IsApplied name)
        (element_of-IsElement (length name) name)
