-- ===== src/Compiler/Types.antt =====
-- The types of compiler/compiler_types.py, their equality, and the rules of assignment.
pub mod Layouts
pub mod Names
pub mod Rewriting
pub mod FromName
pub mod Conversions
pub mod Results
pub mod Parts
pub mod Sound
pub mod Matching
pub mod Replaced
pub mod Tests
use quin_lang.Prelude.{
  Bool, List, Option, [], false, if◌then◌else◌, none, same_name, some, starts_with, true, ℕ, ◌&&◌,
  ◌++◌, ◌==◌, ◌||◌, ◌∷◌,
}
use quin_lang.Program.{Text}

-- A type is of the class Type or of one of its subclasses, with the fields that the class adds.
mutual
  pub data QuinType : Type 0 where
    typ : Text → ℕ → Class → QuinType

  pub data Class : Type 0 where
    plain_class struct_class enum_class : Class
    func_class : QuinTypes → QuinType → Class
    array_obj_class : QuinType → Class

  pub data QuinTypes : Type 0 where
    no_types : QuinTypes
    more_types : QuinType → QuinTypes → QuinTypes

unfoldable pub type_name : QuinType → Text
type_name (typ name size c) = name

unfoldable pub class_of : QuinType → Class
class_of (typ name size c) = c

-- the equality of dataclasses: the same class, and equal fields
unfoldable mutual
  pub eq_type : QuinType → QuinType → Bool
  eq_type (typ n s c) (typ m t d) = same_name n m && (s == t && eq_class c d)

  pub eq_class : Class → Class → Bool
  eq_class plain_class plain_class = true
  eq_class struct_class struct_class = true
  eq_class enum_class enum_class = true
  eq_class (func_class ps r) (func_class qs q) = eq_types ps qs && eq_type r q
  eq_class (array_obj_class e) (array_obj_class f) = eq_type e f
  eq_class _ _ = false

  pub eq_types : QuinTypes → QuinTypes → Bool
  eq_types no_types no_types = true
  eq_types (more_types t ts) (more_types u us) = eq_type t u && eq_types ts us
  eq_types _ _ = false

abbrev pub int_type : QuinType
int_type = typ (b'i' ∷ b'n' ∷ b't' ∷ []) 2 plain_class

abbrev pub str_type : QuinType
str_type = typ (b's' ∷ b't' ∷ b'r' ∷ []) 2 plain_class

abbrev pub void_type : QuinType
void_type = typ (b'v' ∷ b'o' ∷ b'i' ∷ b'd' ∷ []) 0 plain_class

abbrev pub bool_type : QuinType
bool_type = typ (b'b' ∷ b'o' ∷ b'o' ∷ b'l' ∷ []) 1 plain_class

abbrev pub float_type : QuinType
float_type = typ (b'f' ∷ b'l' ∷ b'o' ∷ b'a' ∷ b't' ∷ []) 4 plain_class

abbrev pub ptr_type : QuinType
ptr_type = typ (b'p' ∷ b't' ∷ b'r' ∷ []) 2 plain_class

abbrev pub heap_ptr_type : QuinType
heap_ptr_type = typ (b'h' ∷ b'e' ∷ b'a' ∷ b'p' ∷ b'p' ∷ b't' ∷ b'r' ∷ []) 2 plain_class

abbrev pub null_type : QuinType
null_type = typ (b'n' ∷ b'u' ∷ b'l' ∷ b'l' ∷ []) 2 plain_class

-- BUILTIN_TYPES, which `null` is not in
abbrev pub builtin_types : List QuinType
builtin_types =
    int_type ∷ str_type ∷ void_type ∷ bool_type ∷ float_type ∷ ptr_type ∷ heap_ptr_type ∷ []

-- BUILTIN_TYPES[name], where each type goes by its own name
unfoldable pub builtin_in : List QuinType → Text → Option QuinType
builtin_in [] name = none
builtin_in (t ∷ ts) name =
    let rest = builtin_in ts name in if same_name (type_name t) name then some t else rest

unfoldable pub word_count : QuinType → ℕ
word_count t = if eq_type t float_type then 2 else 1

unfoldable pub is_func_class : Class → Bool
is_func_class (func_class ps r) = true
is_func_class _ = false

unfoldable pub is_func_type : QuinType → Bool
is_func_type t = is_func_class (class_of t)

unfoldable pub is_struct_class : Class → Bool
is_struct_class struct_class = true
is_struct_class _ = false

unfoldable pub is_struct_type : QuinType → Bool
is_struct_type t = is_struct_class (class_of t)

unfoldable pub is_enum_class : Class → Bool
is_enum_class enum_class = true
is_enum_class _ = false

unfoldable pub is_enum_type : QuinType → Bool
is_enum_type t = is_enum_class (class_of t)

unfoldable pub is_array_obj_class : Class → Bool
is_array_obj_class (array_obj_class e) = true
is_array_obj_class _ = false

unfoldable pub is_array_obj_type : QuinType → Bool
is_array_obj_type t = is_array_obj_class (class_of t)

unfoldable pub is_frame_relative : QuinType → Bool
is_frame_relative t = eq_type t ptr_type

unfoldable pub is_nullable : QuinType → Bool
is_nullable t =
    is_struct_type t || (is_enum_type t || (is_array_obj_type t || eq_type t heap_ptr_type))

unfoldable pub is_reference_type : QuinType → Bool
is_reference_type t =
    is_struct_type t
    || (is_enum_type t || (is_array_obj_type t || (eq_type t heap_ptr_type || eq_type t str_type)))

unfoldable pub assignable : QuinType → QuinType → Bool
assignable target value =
    if eq_type target value then true else eq_type value null_type && is_nullable target

unfoldable pub comparable : QuinType → QuinType → Bool
comparable left right =
    if eq_type left right
    then true
    else (eq_type left null_type && is_nullable right)
      || (eq_type right null_type && is_nullable left)

-- ARRAY_PREFIX
abbrev pub array_prefix : Text
array_prefix = (b'i' ∷ b'n' ∷ b't' ∷ b'[' ∷ [])

unfoldable pub is_array_type : QuinType → Bool
is_array_type t = starts_with (type_name t) array_prefix

-- ','.join(p.name for p in params)
unfoldable pub joined_names : QuinTypes → Text
joined_names no_types = []
joined_names (more_types t no_types) = type_name t
joined_names (more_types t (more_types u ts)) =
    type_name t ++ (b',' ∷ joined_names (more_types u ts))

unfoldable pub func_type : QuinTypes → QuinType → QuinType
func_type params ret =
    typ
      ((b'f' ∷ b'n' ∷ b'(' ∷ []) ++ (joined_names params ++ ((b')' ∷ b':' ∷ []) ++ type_name ret)))
      2 (func_class params ret)

unfoldable pub array_obj_type : QuinType → QuinType
array_obj_type element =
    typ ((b'A' ∷ b'r' ∷ b'r' ∷ b'a' ∷ b'y' ∷ b'<' ∷ []) ++ (type_name element ++ (b'>' ∷ []))) 2
      (array_obj_class element)
