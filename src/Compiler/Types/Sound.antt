-- ===== src/Compiler/Types/Sound.antt =====
-- The rules that every type of `type_from_name` in compiler/compiler_types.py obeys, in its parts too.
pub mod Checked
use quin_lang.Prelude.{
  Bool-cases, List, Option, Result, [], arith, ends_with, false, if◌then◌else◌, inl, inr, negsuc,
  none, ok, pos, refl, same_name, some, some-injective, starts_with, subst, suc, zero, ℕ, ℤ, ◌&&◌,
  ◌*◌, ◌<◌, ◌∷◌, ◌≡◌, ◌⊎◌,
}
use quin_lang.Program.{Text}
use quin_lang.Compiler.Types.{
  Class, QuinType, QuinTypes, array_obj_class, array_obj_type, array_prefix, builtin_in,
  builtin_types, enum_class, eq_type, float_type, func_class, func_type, is_array_type,
  is_frame_relative, more_types, no_types, plain_class, struct_class, typ, type_name, void_type,
  word_count,
}
use quin_lang.Compiler.Types.Names.{
  NameTables, UnknownTypeError, array_length_from_name, checked_length,
}
use quin_lang.Compiler.Types.FromName.{
  checked_element, checked_parameter, checked_return, parameter_types,
}
use quin_lang.Compiler.Types.Results.{Satisfies, Satisfies->>=, Satisfies-if}
use quin_lang.Compiler.Types.Parts.{AllBelow, IsPart}

module _ (u : NameTables) where
  -- A plain type is built in, or an array that has as many words as its name says. The others are
  -- one word wide, with a name that follows from their parts: a function type takes no void, no array
  -- and no ptr, and returns no array and no ptr; the elements of an array object are of one word.
  mutual
    pub IsSound : QuinType → Type 0
    IsSound (typ name size c) = IsSoundClass name size c

    pub IsSoundClass : Text → ℕ → Class → Type 0
    IsSoundClass name size plain_class =
        (builtin_in builtin_types name ≡ some (typ name size plain_class))
        ⊎ ((n : ℕ) × (array_length_from_name u name ≡ ok (some n)) × (0 < n) × (size ≡ 2 * n))
    IsSoundClass name size struct_class = size ≡ 2
    IsSoundClass name size enum_class = size ≡ 2
    IsSoundClass name size (func_class params ret) =
        (typ name size (func_class params ret) ≡ func_type params ret)
        × AreParameters params
        × IsSound ret
        × (is_array_type ret ≡ false)
        × (is_frame_relative ret ≡ false)
    IsSoundClass name size (array_obj_class e) =
        (typ name size (array_obj_class e) ≡ array_obj_type e)
        × IsSound e
        × (eq_type e void_type ≡ false)
        × (word_count e ≡ 1)
        × (is_array_type e ≡ false)

    pub AreParameters : QuinTypes → Type 0
    AreParameters no_types = Unit
    AreParameters (more_types t ts) =
        (IsSound t
          × (eq_type t void_type ≡ false)
          × (is_array_type t ≡ false)
          × (is_frame_relative t ≡ false))
        × AreParameters ts

  IsParameter : QuinType → Type 0
  IsParameter t =
      IsSound t
      × (eq_type t void_type ≡ false)
      × (is_array_type t ≡ false)
      × (is_frame_relative t ≡ false)

  pub IsReturn : QuinType → Type 0
  IsReturn t = IsSound t × (is_array_type t ≡ false) × (is_frame_relative t ≡ false)

  pub IsElementType : QuinType → Type 0
  IsElementType t =
      IsSound t × (eq_type t void_type ≡ false) × (word_count t ≡ 1) × (is_array_type t ≡ false)

  checked_parameter-IsParameter :
      (name : Text) (t : QuinType) → IsSound t → Satisfies IsParameter (checked_parameter name t)
  unfolding checked_parameter IsParameter
  checked_parameter-IsParameter name t h =
      Satisfies-if IsParameter (eq_type t void_type) _ _ (λ e. refl)
        (λ a.
          Satisfies-if IsParameter (is_array_type t) _ _ (λ e. refl)
            (λ b.
              Satisfies-if IsParameter (is_frame_relative t) _ _ (λ e. refl) (λ c. (h, a, b, c))))

  pub checked_return-IsReturn :
      (name : Text) (t : QuinType) → IsSound t → Satisfies IsReturn (checked_return name t)
  unfolding checked_return IsReturn
  checked_return-IsReturn name t h =
      Satisfies-if IsReturn (is_array_type t) _ _ (λ e. refl)
        (λ b. Satisfies-if IsReturn (is_frame_relative t) _ _ (λ e. refl) (λ c. (h, b, c)))

  one_word : (t : QuinType) → eq_type t float_type ≡ false → word_count t ≡ 1
  unfolding word_count
  one_word t h = rw h refl

  pub checked_element-IsElementType :
      (name : Text) (t : QuinType) → IsSound t → Satisfies IsElementType (checked_element name t)
  unfolding checked_element IsElementType
  checked_element-IsElementType name t h =
      Satisfies-if IsElementType (eq_type t void_type) _ _ (λ e. refl)
        (λ a.
          Satisfies-if IsElementType (eq_type t float_type) _ _ (λ e. refl)
            (λ b.
              Satisfies-if IsElementType (is_array_type t) _ _ (λ e. refl)
                (λ c. (h, a, one_word t b, c))))

  -- `go` on the parts of a name
  pub Recurs : ℕ → (Text → Result UnknownTypeError QuinType) → Type 0
  Recurs n go = (t : Text) → IsPart n t → Satisfies IsSound (go t)

  pub parameter_types-AreParameters :
      (n : ℕ) (go : Text → Result UnknownTypeError QuinType) (name : Text) (ps : List Text)
      → Recurs n go
      → AllBelow n ps
      → Satisfies AreParameters (parameter_types go name ps)
  unfolding parameter_types Recurs IsParameter AreParameters
  parameter_types-AreParameters n go name [] h k = tt
  parameter_types-AreParameters n go name (p ∷ ps) h (l, k) =
      Satisfies->>= IsSound AreParameters (go p) _ (h p (inl l)) (λ t st.
        Satisfies->>= IsParameter AreParameters (checked_parameter name t) _
          (checked_parameter-IsParameter name t st)
          (λ t' pt.
            Satisfies->>= AreParameters AreParameters (parameter_types go name ps) _
              (parameter_types-AreParameters n go name ps h k) (λ ts ats. (pt, ats))))

  checked_length-positive :
      (name inner : Text) (i : Option ℤ)
      → Satisfies (λ (o : Option ℕ). (n : ℕ) → o ≡ some n → 0 < n) (checked_length u name inner i)
  unfolding checked_length
  checked_length-positive name inner none = refl
  checked_length-positive name inner (some (pos zero)) = refl
  checked_length-positive name inner (some (pos (suc n))) =
      (λ m e. subst (λ k. 0 < k) (some-injective e) (omega arith))
  checked_length-positive name inner (some (negsuc n)) = refl

  pub array_length_from_name-positive :
      (name : Text)
      → Satisfies (λ (o : Option ℕ). (n : ℕ) → o ≡ some n → 0 < n) (array_length_from_name u name)
  unfolding array_length_from_name
  array_length_from_name-positive name =
      Satisfies-if (λ (o : Option ℕ). (n : ℕ) → o ≡ some n → 0 < n)
        (starts_with name array_prefix && ends_with name (b']' ∷ [])) _ _
        (λ e. checked_length-positive name _ _) (λ e. λ n h. absurd (ground arith))

  pub AllSound : List QuinType → Type 0
  AllSound [] = Unit
  AllSound (t ∷ ts) = IsSound t × AllSound ts

  pub builtin_in-IsSound :
      (ts : List QuinType) (name : Text) (t : QuinType)
      → AllSound ts
      → builtin_in ts name ≡ some t
      → IsSound t
  unfolding builtin_in AllSound
  builtin_in-IsSound [] name t h e = absurd (ground arith)
  builtin_in-IsSound (v ∷ ts) name t (a, h) e = elim (Bool-cases (same_name (type_name v) name)) [
    | inl q ↦
        subst IsSound
          (some-injective (subst (λ b. (if b then some v else builtin_in ts name) ≡ some t) q e)) a
    | inr q ↦
        builtin_in-IsSound ts name t h
          (subst (λ b. (if b then some v else builtin_in ts name) ≡ some t) q e)
  ]

  pub builtin_types-AllSound : AllSound builtin_types
  unfolding AllSound IsSound builtin_in type_name same_name
  builtin_types-AllSound =
      (inl refl, (inl refl, (inl refl, (inl refl, (inl refl, (inl refl, (inl refl, tt)))))))
