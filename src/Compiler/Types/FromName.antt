-- ===== src/Compiler/Types/FromName.antt =====
-- `type_from_name` of compiler/compiler_types.py: the type that a name spells. The recursion goes into
-- the parts of a name, and takes as many rounds at most as the name is long.
use quin_lang.Prelude.{
  List, Option, Result, [], err, if◌then◌else◌, length, none, ok, same_name, some, suc, zero, ℕ,
  ◌*◌, ◌>>=◌, ◌∷◌,
}
use quin_lang.Program.{Text}
use quin_lang.Compiler.Types.{
  QuinType, QuinTypes, array_obj_type, builtin_in, builtin_types, eq_type, float_type, func_type,
  is_array_type, is_frame_relative, more_types, no_types, plain_class, typ, type_name, void_type,
}
use quin_lang.Compiler.Types.Names.{
  NameTables, UnknownTypeError, array_element, array_length_from_name, array_parameter,
  array_return, element_type_from_name, float_element, func_signature_from_name, ptr_parameter,
  ptr_return, recursion_cut_off, unknown_type, void_element, void_parameter,
}
use quin_lang.Compiler.Types.Layouts.{EnumInfo, StructInfo, enum_type_of, struct_type_of}

-- the dict of the structs, and of the enums, by name
unfoldable pub declared {ℓ} : {A : Type ℓ} → List (Text × A) → Text → Option A
declared [] name = none
declared ((k, v) ∷ ds) name =
    let rest = declared ds name in if same_name k name then some v else rest

-- the rules of a parameter of a function type
unfoldable pub checked_parameter : Text → QuinType → Result UnknownTypeError QuinType
checked_parameter name t =
    if eq_type t void_type
    then err (void_parameter name)
    else if is_array_type t
    then err (array_parameter name)
    else if is_frame_relative t
    then err (ptr_parameter name)
    else ok t

unfoldable pub checked_return : Text → QuinType → Result UnknownTypeError QuinType
checked_return name t =
    if is_array_type t
    then err (array_return name)
    else if is_frame_relative t
    then err (ptr_return name)
    else ok t

unfoldable pub checked_element : Text → QuinType → Result UnknownTypeError QuinType
checked_element name t =
    if eq_type t void_type
    then err (void_element name)
    else if eq_type t float_type
    then err (float_element name)
    else if is_array_type t
    then err (array_element name)
    else ok t

-- the loop over the parameters
unfoldable pub parameter_types :
    (Text → Result UnknownTypeError QuinType) → Text → List Text → Result UnknownTypeError QuinTypes
parameter_types go name [] = ok no_types
parameter_types go name (p ∷ ps) = do
  t ← go p
  t' ← checked_parameter name t
  ts ← parameter_types go name ps
  ok (more_types t' ts)

module _ (u : NameTables) (structs : List (Text × StructInfo))
    (enums : List (Text × EnumInfo)) where
  unfoldable pub enum_or_unknown : Text → Option EnumInfo → Result UnknownTypeError QuinType
  enum_or_unknown name none = err (unknown_type name)
  enum_or_unknown name (some e) = ok (enum_type_of e)

  unfoldable pub struct_or_other : Text → Option StructInfo → Result UnknownTypeError QuinType
  struct_or_other name none = enum_or_unknown name (declared enums name)
  struct_or_other name (some s) = ok (struct_type_of s)

  unfoldable pub builtin_or_other : Text → Option QuinType → Result UnknownTypeError QuinType
  builtin_or_other name none = struct_or_other name (declared structs name)
  builtin_or_other name (some t) = ok t

  unfoldable pub type_of_element :
      (Text → Result UnknownTypeError QuinType)
      → Text
      → Option Text
      → Result UnknownTypeError QuinType
  type_of_element go name none = builtin_or_other name (builtin_in builtin_types name)
  type_of_element go name (some e) = do
    t ← go e
    t' ← checked_element name t
    ok (array_obj_type t')

  unfoldable pub type_of_signature :
      (Text → Result UnknownTypeError QuinType)
      → Text
      → Option (List Text × Text)
      → Result UnknownTypeError QuinType
  type_of_signature go name none = do e ← element_type_from_name u name; type_of_element go name e
  type_of_signature go name (some (params, ret)) = do
    ts ← parameter_types go name params
    r ← go ret
    r' ← checked_return name r
    ok (func_type ts r')

  unfoldable pub type_of_length :
      (Text → Result UnknownTypeError QuinType) → Text → Option ℕ → Result UnknownTypeError QuinType
  type_of_length go name none = do
    signature ← func_signature_from_name name
    type_of_signature go name signature
  type_of_length go name (some n) = ok (typ name (2 * n) plain_class)

  unfoldable pub type_rounds : ℕ → Text → Result UnknownTypeError QuinType
  type_rounds zero name = err recursion_cut_off
  type_rounds (suc fuel) name = do
    n ← array_length_from_name u name
    type_of_length (type_rounds fuel) name n

  unfoldable pub type_from_name : Text → Result UnknownTypeError QuinType
  type_from_name name = type_rounds (suc (length name)) name

unfoldable pub array_length : NameTables → QuinType → Result UnknownTypeError (Option ℕ)
array_length u t = array_length_from_name u (type_name t)
