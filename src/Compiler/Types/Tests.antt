-- ===== src/Compiler/Types/Tests.antt =====
-- Tests and examples of the types of compiler/compiler_types.py.
use quin_lang.Compiler.Types.Results.{Satisfies}
use quin_lang.Compiler.Lexer.Chars.{between, is_letter}
use quin_lang.Prelude.{
  List, Result, [], drop_spaces, ends_with, err, false, int_of_bytes, is_space, none, ok,
  parse_digits, pos, refl, same_name, starts_with, strip, true, ◌+ℤ◌, ◌-ℤ◌, ◌↔◌, ◌∷◌, ◌≡◌, ◌⊎◌,
}
use quin_lang.Program.{Text}
use quin_lang.Compiler.Types.{
  QuinType, array_obj_class, array_obj_type, assignable, builtin_in, class_of, enum_class, eq_type,
  func_type, heap_ptr_type, int_type, is_array_type, is_frame_relative, joined_names, more_types,
  no_types, null_type, plain_class, struct_class, typ, type_name,
}
use quin_lang.Compiler.Types.Names.{
  NameTables, UnknownTypeError, all_continue, array_length_from_name, between_brackets,
  checked_length, close_from, closed_at, depth_after, drop_white, element_of,
  element_type_from_name, find_angle, float_element, func_signature_from_name, generic_application,
  has_empty, int_of_text, is_identifier, is_top_level, is_white, not_positive, one_element,
  opened_at, parameter_names, ptr_parameter, push_char, signature_parts, split_from,
  split_top_level, starts_identifier, strip_white, to_ascii, with_arguments, with_parameters,
}
use quin_lang.Compiler.Types.Layouts.{StructInfo, struct_type_of}
use quin_lang.Compiler.Types.FromName.{
  builtin_or_other, checked_element, checked_parameter, checked_return, declared, enum_or_unknown,
  parameter_types, struct_or_other, type_from_name, type_of_element, type_of_length,
  type_of_signature, type_rounds,
}
use quin_lang.Compiler.Types.Rewriting.{
  Substitution, and_then, bind_parameter, bound_to, comma_joined, each_name, is_among,
  substitute_function, substitute_parts, substitute_rounds, substitute_type_name,
  substitute_unbound, unify_all, unify_applications, unify_parts, unify_rounds, unify_signatures,
  unify_type_name,
}
use quin_lang.Compiler.Types.Conversions.{assignable_iff}
use quin_lang.Compiler.Types.Sound.{IsSound}
use quin_lang.Compiler.Types.Sound.Checked.{type_from_name-IsSound}

abbrev ascii_names : NameTables
ascii_names = record { starts = λ c. false; continues = λ c. false; decimal = λ c. none }

-- struct Point { x: int }
abbrev point : StructInfo
point = record {
  name = (b'P' ∷ b'o' ∷ b'i' ∷ b'n' ∷ b't' ∷ []);
  type_id = 0;
  fields = record { name = (b'x' ∷ []); field_type = int_type; offset = 0 } ∷ [];
}

abbrev point_type : QuinType
point_type = typ (b'P' ∷ b'o' ∷ b'i' ∷ b'n' ∷ b't' ∷ []) 2 struct_class

abbrev structs : List (Text × StructInfo)
structs = ((b'P' ∷ b'o' ∷ b'i' ∷ b'n' ∷ b't' ∷ []), point) ∷ []

abbrev type_of : Text → Result UnknownTypeError QuinType
type_of name = type_from_name ascii_names structs [] name

-- fn(int, Array<Point>): Point in its canonical spelling
abbrev visitor : QuinType
visitor =
    func_type (more_types int_type (more_types (array_obj_type point_type) no_types)) point_type

types_read :
    (type_of (
        b'f' ∷ b'n' ∷ b'(' ∷ b'i' ∷ b'n' ∷ b't' ∷ b',' ∷ 32 ∷ b'A' ∷ b'r' ∷ b'r' ∷ b'a' ∷ b'y'
        ∷ b'<' ∷ b'P' ∷ b'o' ∷ b'i' ∷ b'n' ∷ b't' ∷ b'>' ∷ b')' ∷ b':' ∷ b'P' ∷ b'o' ∷ b'i' ∷ b'n'
        ∷ b't' ∷ [])
      ≡ ok visitor)
    × (type_of (b'i' ∷ b'n' ∷ b't' ∷ b'[' ∷ b'4' ∷ b']' ∷ [])
        ≡ ok (typ (b'i' ∷ b'n' ∷ b't' ∷ b'[' ∷ b'4' ∷ b']' ∷ []) 8 plain_class))
    × (type_of (b'i' ∷ b'n' ∷ b't' ∷ b'[' ∷ b'0' ∷ b']' ∷ [])
        ≡ err (not_positive (pos 0) (b'i' ∷ b'n' ∷ b't' ∷ b'[' ∷ b'0' ∷ b']' ∷ [])))
    × (type_of
          (b'A' ∷ b'r' ∷ b'r' ∷ b'a' ∷ b'y' ∷ b'<' ∷ b'f' ∷ b'l' ∷ b'o' ∷ b'a' ∷ b't' ∷ b'>' ∷ [])
        ≡ err (
            float_element (
              b'A' ∷ b'r' ∷ b'r' ∷ b'a' ∷ b'y' ∷ b'<' ∷ b'f' ∷ b'l' ∷ b'o' ∷ b'a' ∷ b't' ∷ b'>'
              ∷ [])))
    × (type_of (b'f' ∷ b'n' ∷ b'(' ∷ b'p' ∷ b't' ∷ b'r' ∷ b')' ∷ [])
        ≡ err (ptr_parameter (b'f' ∷ b'n' ∷ b'(' ∷ b'p' ∷ b't' ∷ b'r' ∷ b')' ∷ [])))
unfolding is_white drop_white strip_white is_top_level depth_after push_char split_from
    split_top_level has_empty close_from parameter_names with_parameters signature_parts closed_at
    func_signature_from_name find_angle to_ascii int_of_text checked_length between_brackets
    array_length_from_name starts_identifier all_continue is_identifier with_arguments opened_at
    generic_application one_element element_of element_type_from_name between is_letter same_name
    starts_with ends_with is_space drop_spaces strip int_of_bytes parse_digits ◌+ℤ◌ ◌-ℤ◌ declared
    checked_parameter checked_return checked_element parameter_types enum_or_unknown struct_or_other
    builtin_or_other type_of_element type_of_signature type_of_length type_rounds type_from_name
    eq_type is_array_type is_frame_relative type_name builtin_in func_type array_obj_type
    joined_names struct_type_of
types_read = (refl, refl, refl, refl, refl)

assignable_iff_example : (assignable point_type null_type ≡ true) ↔ (
    (point_type ≡ null_type)
    ⊎ ((null_type ≡ null_type)
        × ((class_of point_type ≡ struct_class)
            ⊎ ((class_of point_type ≡ enum_class)
                ⊎ (((e : QuinType) × (class_of point_type ≡ array_obj_class e))
                    ⊎ (point_type ≡ heap_ptr_type))))))
assignable_iff_example = assignable_iff point_type null_type

abbrev parameters : List Text
parameters = (b'T' ∷ []) ∷ (b'U' ∷ []) ∷ []

abbrev inferred : Substitution
inferred = ((b'T' ∷ []), (b'i' ∷ b'n' ∷ b't' ∷ [])) ∷ ((b'U' ∷ []), (b's' ∷ b't' ∷ b'r' ∷ [])) ∷ []

names_matched :
    (unify_type_name ascii_names parameters
        (b'M' ∷ b'a' ∷ b'p' ∷ b'<' ∷ b'T' ∷ b',' ∷ b'f' ∷ b'n' ∷ b'(' ∷ b'T' ∷ b')' ∷ b':' ∷ b'U'
          ∷ b'>' ∷ [])
        (b'M' ∷ b'a' ∷ b'p' ∷ b'<' ∷ b'i' ∷ b'n' ∷ b't' ∷ b',' ∷ b'f' ∷ b'n' ∷ b'(' ∷ b'i' ∷ b'n'
          ∷ b't' ∷ b')' ∷ b':' ∷ b's' ∷ b't' ∷ b'r' ∷ b'>' ∷ [])
        []
      ≡ ok (true, inferred))
    × (unify_type_name ascii_names parameters
          (b'P' ∷ b'a' ∷ b'i' ∷ b'r' ∷ b'<' ∷ b'T' ∷ b',' ∷ b'T' ∷ b'>' ∷ [])
          (b'P' ∷ b'a' ∷ b'i' ∷ b'r' ∷ b'<' ∷ b'i' ∷ b'n' ∷ b't' ∷ b',' ∷ b's' ∷ b't' ∷ b'r' ∷ b'>'
            ∷ [])
          []
        ≡ ok (false, ((b'T' ∷ []), (b'i' ∷ b'n' ∷ b't' ∷ [])) ∷ []))
    × (substitute_type_name ascii_names
          (b'M' ∷ b'a' ∷ b'p' ∷ b'<' ∷ b'T' ∷ b',' ∷ b'f' ∷ b'n' ∷ b'(' ∷ b'T' ∷ b')' ∷ b':' ∷ b'U'
            ∷ b'>' ∷ [])
          inferred
        ≡ ok (
            b'M' ∷ b'a' ∷ b'p' ∷ b'<' ∷ b'i' ∷ b'n' ∷ b't' ∷ b',' ∷ b'f' ∷ b'n' ∷ b'(' ∷ b'i' ∷ b'n'
            ∷ b't' ∷ b')' ∷ b':' ∷ b's' ∷ b't' ∷ b'r' ∷ b'>' ∷ []))
    × (substitute_type_name ascii_names (b'T' ∷ b'o' ∷ b't' ∷ b'a' ∷ b'l' ∷ []) inferred
        ≡ ok (b'T' ∷ b'o' ∷ b't' ∷ b'a' ∷ b'l' ∷ []))
unfolding is_white drop_white strip_white is_top_level depth_after push_char split_from
    split_top_level has_empty close_from parameter_names with_parameters signature_parts closed_at
    func_signature_from_name find_angle to_ascii int_of_text checked_length between_brackets
    array_length_from_name starts_identifier all_continue is_identifier with_arguments opened_at
    generic_application one_element element_of element_type_from_name between is_letter same_name
    starts_with ends_with is_space drop_spaces strip int_of_bytes parse_digits ◌+ℤ◌ ◌-ℤ◌ bound_to
    is_among comma_joined each_name substitute_function substitute_parts substitute_unbound
    substitute_rounds substitute_type_name bind_parameter and_then unify_all unify_signatures
    unify_applications unify_parts unify_rounds unify_type_name
names_matched = (refl, refl, refl, refl)

type_from_name-IsSound_example : Satisfies (IsSound ascii_names) (
    type_of (
      b'f' ∷ b'n' ∷ b'(' ∷ b'i' ∷ b'n' ∷ b't' ∷ b',' ∷ 32 ∷ b'A' ∷ b'r' ∷ b'r' ∷ b'a' ∷ b'y' ∷ b'<'
      ∷ b'P' ∷ b'o' ∷ b'i' ∷ b'n' ∷ b't' ∷ b'>' ∷ b')' ∷ b':' ∷ b'P' ∷ b'o' ∷ b'i' ∷ b'n' ∷ b't'
      ∷ []))
type_from_name-IsSound_example = type_from_name-IsSound ascii_names structs [] (
    b'f' ∷ b'n' ∷ b'(' ∷ b'i' ∷ b'n' ∷ b't' ∷ b',' ∷ 32 ∷ b'A' ∷ b'r' ∷ b'r' ∷ b'a' ∷ b'y' ∷ b'<'
    ∷ b'P' ∷ b'o' ∷ b'i' ∷ b'n' ∷ b't' ∷ b'>' ∷ b')' ∷ b':' ∷ b'P' ∷ b'o' ∷ b'i' ∷ b'n' ∷ b't' ∷ [])
