-- ===== src/Compiler/Types/Sound/Checked.antt =====
-- `type_from_name` of compiler/compiler_types.py against the rules of its types.
use quin_lang.Prelude.{
  List, Option, Result, arith, ends_with, inl, inr, length, none, ok, refl, same_name, some,
  starts_with, subst, suc, sym, zero, ℕ, ◌<◌, ◌≡◌,
}
use quin_lang.Program.{Text}
use quin_lang.Compiler.Types.{
  QuinType, array_obj_type, builtin_in, builtin_types, func_type, type_name,
}
use quin_lang.Compiler.Types.Names.{
  NameTables, UnknownTypeError, array_length_from_name, element_of, element_type_from_name,
  func_signature_from_name, generic_application,
}
use quin_lang.Compiler.Types.Layouts.{EnumInfo, StructInfo, enum_type_of, struct_type_of}
use quin_lang.Compiler.Types.FromName.{
  builtin_or_other, checked_element, checked_return, declared, enum_or_unknown, parameter_types,
  struct_or_other, type_from_name, type_of_element, type_of_length, type_of_signature, type_rounds,
}
use quin_lang.Compiler.Types.Results.{Satisfies, Satisfies->>=, Satisfies-ok, Satisfies-self}
use quin_lang.Compiler.Types.Parts.{
  IsElement, IsEnough, IsSplit, element_type_from_name-IsElement, func_signature_from_name-IsSplit,
  part-IsEnough, void_name,
}
use quin_lang.Compiler.Types.Sound.{
  AreParameters, IsElementType, IsReturn, IsSound, Recurs, array_length_from_name-positive,
  builtin_in-IsSound, builtin_types-AllSound, checked_element-IsElementType,
  checked_return-IsReturn, parameter_types-AreParameters,
}

module _ (u : NameTables) (structs : List (Text × StructInfo))
    (enums : List (Text × EnumInfo)) where
  enum_or_unknown-IsSound :
      (name : Text) (o : Option EnumInfo)
      → Satisfies (IsSound u) (enum_or_unknown u structs enums name o)
  unfolding enum_or_unknown IsSound enum_type_of
  enum_or_unknown-IsSound name none = refl
  enum_or_unknown-IsSound name (some e) = refl

  struct_or_other-IsSound :
      (name : Text) (o : Option StructInfo)
      → Satisfies (IsSound u) (struct_or_other u structs enums name o)
  unfolding struct_or_other IsSound struct_type_of
  struct_or_other-IsSound name none = enum_or_unknown-IsSound name (declared enums name)
  struct_or_other-IsSound name (some s) = refl

  builtin_or_other-IsSound :
      (name : Text) (o : Option QuinType)
      → ((t : QuinType) → o ≡ some t → IsSound u t)
      → Satisfies (IsSound u) (builtin_or_other u structs enums name o)
  unfolding builtin_or_other
  builtin_or_other-IsSound name none h = struct_or_other-IsSound name (declared structs name)
  builtin_or_other-IsSound name (some t) h = h t refl

  type_of_element-IsSound :
      (n : ℕ) (go : Text → Result UnknownTypeError QuinType) (name : Text) (e : Option Text)
      → Recurs u n go
      → IsElement n e
      → Satisfies (IsSound u) (type_of_element u structs enums go name e)
  unfolding type_of_element IsSound array_obj_type IsElementType Recurs
  type_of_element-IsSound n go name none h k =
      builtin_or_other-IsSound name (builtin_in builtin_types name)
        (λ t q. builtin_in-IsSound u builtin_types name t (builtin_types-AllSound u) q)
  type_of_element-IsSound n go name (some e) h k =
      Satisfies->>= (IsSound u) (IsSound u) (go e) _ (h e (inl k)) (λ t st.
        Satisfies->>= (IsElementType u) (IsSound u) (checked_element name t) _
          (checked_element-IsElementType u name t st)
          (λ t' et. let (a, b, c, d) = et in (refl, a, b, c, d)))

  type_of_signature-IsSound :
      (go : Text → Result UnknownTypeError QuinType) (name : Text) (o : Option (List Text × Text))
      → Recurs u (length name) go
      → IsSplit (length name) o
      → Satisfies (IsSound u) (type_of_signature u structs enums go name o)
  unfolding type_of_signature IsSound func_type IsReturn Recurs
  type_of_signature-IsSound go name none h k =
      Satisfies->>= (IsElement (length name)) (IsSound u) (element_type_from_name u name) _
        (element_type_from_name-IsElement u name)
        (λ e p. type_of_element-IsSound (length name) go name e h p)
  type_of_signature-IsSound go name (some (params, ret)) h (k, l) =
      Satisfies->>= (AreParameters u) (IsSound u) (parameter_types go name params) _
        (parameter_types-AreParameters u (length name) go name params h k)
        (λ ts ats. Satisfies->>= (IsSound u) (IsSound u) (go ret) _ (h ret l) (λ r sr.
          Satisfies->>= (IsReturn u) (IsSound u) (checked_return name r) _
            (checked_return-IsReturn u name r sr)
            (λ r' rr. let (a, b, c) = rr in (refl, ats, a, b, c))))

  type_of_length-IsSound :
      (go : Text → Result UnknownTypeError QuinType) (name : Text) (o : Option ℕ)
      → array_length_from_name u name ≡ ok o
      → Recurs u (length name) go
      → Satisfies (IsSound u) (type_of_length u structs enums go name o)
  unfolding type_of_length IsSound
  type_of_length-IsSound go name none e h =
      Satisfies->>= (IsSplit (length name)) (IsSound u) (func_signature_from_name name) _
        (func_signature_from_name-IsSplit name) (λ o p. type_of_signature-IsSound go name o h p)
  type_of_length-IsSound go name (some n) e h = inr (
    n,
    e,
    Satisfies-ok (λ (o : Option ℕ). (n : ℕ) → o ≡ some n → 0 < n) (array_length_from_name u name)
        (some n) e (array_length_from_name-positive u name) n refl,
    refl,
  )

  void-IsSound :
      (fuel : ℕ) → Satisfies (IsSound u) (type_rounds u structs enums (suc fuel) void_name)
  unfolding type_rounds type_of_length type_of_signature type_of_element array_length_from_name
      func_signature_from_name element_type_from_name generic_application element_of starts_with
      ends_with same_name builtin_or_other builtin_in type_name IsSound
  void-IsSound fuel = inl refl

  type_rounds-IsSound :
      (fuel : ℕ) (name : Text)
      → IsEnough fuel name
      → Satisfies (IsSound u) (type_rounds u structs enums fuel name)
  unfolding type_rounds Recurs
  type_rounds-IsSound zero name (inl l) = absurd (omega arith)
  type_rounds-IsSound zero name (inr (e, l)) = absurd (omega arith)
  type_rounds-IsSound (suc fuel) name (inr (e, l)) =
      subst (λ t. Satisfies (IsSound u) (type_rounds u structs enums (suc fuel) t)) (sym e)
        (void-IsSound fuel)
  type_rounds-IsSound (suc fuel) name (inl l) =
      Satisfies->>= (λ o. array_length_from_name u name ≡ ok o) (IsSound u)
        (array_length_from_name u name) _
        (Satisfies-self (λ (o : Option ℕ). (n : ℕ) → o ≡ some n → 0 < n)
          (array_length_from_name u name) (array_length_from_name-positive u name))
        (λ o e.
          type_of_length-IsSound (type_rounds u structs enums fuel) name o e
            (λ t p. type_rounds-IsSound fuel t (part-IsEnough fuel (length name) t l p)))

  -- `type_from_name` ends on every name, with an error of its own or with a type that obeys the rules
  -- of its class, and so do all its parts: a built-in type or an array of a positive length; a
  -- function type under its canonical spelling, with no parameter of type void, ptr or int[N] and no
  -- ptr or int[N] to return; an array object whose elements are one word wide.
  pub type_from_name-IsSound :
      (name : Text) → Satisfies (IsSound u) (type_from_name u structs enums name)
  unfolding type_from_name
  type_from_name-IsSound name = type_rounds-IsSound (suc (length name)) name (inl (omega arith))
