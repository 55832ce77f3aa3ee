-- ===== src/Debugger/Values.antt =====
-- The values that runtime/debugger.py shows: `Value`, `_describe_*`, `children_of` and `_flatten`.
pub mod Describe
pub mod Flatten
pub mod Ends
use quin_lang.Prelude.{
  Bool, List, Option, [], drop, ends_with, false, get_or, if◌then◌else◌, length, none, same_name,
  some, starts_with, str_ℕ, take, true, ℕ, ◌&&◌, ◌++◌, ◌-◌, ◌==◌, ◌||◌, ◌∷◌,
}
use quin_lang.Program.{FieldLayout, Text}
use quin_lang.Vm.Machine.{Fault, index_error}
use quin_lang.Debugger.Session.{is_vm_error}

pub data ValueKind : Type 0 where
  scalar structure variant array : ValueKind

-- summary, type_name, kind, address, object_name and elements; an element has a name and a value
mutual
  pub data Value : Type 0 where
    value : Text → Text → ValueKind → ℕ → Text → Elements → Value

  pub data Elements : Type 0 where
    no_more : Elements
    element : Text → Value → Elements → Elements

unfoldable pub summary : Value → Text
summary (value s t k a o es) = s

unfoldable pub kind_of : Value → ValueKind
kind_of (value s t k a o es) = k

-- Value(summary, type_name)
unfoldable pub plain : Text → Text → Value
plain s t = value s t scalar 0 [] no_more

-- what a description may raise: an exception of the machine's methods, the ValueError of a type name
-- with no bracket; and a recursion of the model that was cut off
pub data Unshown : Type 0 where
  escaped : Fault → Unshown
  value_error : Unshown
  too_deep : Unshown

abbrev pub max_struct_depth : ℕ
max_struct_depth = 3

-- not layout.fields
unfoldable pub no_fields : List FieldLayout → Bool
no_fields [] = true
no_fields (f ∷ fs) = false

abbrev pub array_preview : ℕ
array_preview = 32

-- type_name[:type_name.index("[")]
unfoldable pub before_bracket : Text → Option Text
before_bracket [] = none
before_bracket (c ∷ cs) =
    let rest = before_bracket cs in
    if c == b'[' then some [] else elim rest [ none ↦ none | some s ↦ some (c ∷ s) ]

-- `_slot`
unfoldable pub slot_of : List ℕ → ℕ → ℕ
slot_of slots index = get_or slots index 0

-- f"[{i}]"
unfoldable pub subscript : ℕ → Text
subscript i = b'[' ∷ (str_ℕ i ++ b']' ∷ [])

-- ", ".join(...)
unfoldable pub join_commas : List Text → Text
join_commas [] = []
join_commas (s ∷ []) = s
join_commas (s ∷ s' ∷ ss) = s ++ (b',' ∷ 32 ∷ join_commas (s' ∷ ss))

unfoldable pub summaries : Elements → List Text
summaries no_more = []
summaries (element name v es) = summary v ∷ summaries es

-- f"<{name} at {ref}>"
unfoldable pub at_address : Text → ℕ → Text
at_address name ref = b'<' ∷ (name ++ (32 ∷ b'a' ∷ b't' ∷ 32 ∷ (str_ℕ ref ++ b'>' ∷ [])))

-- type_name in ("int", "heapptr", "ptr")
unfoldable pub is_number : Text → Bool
is_number t =
    same_name t (b'i' ∷ b'n' ∷ b't' ∷ [])
    || (same_name t (b'h' ∷ b'e' ∷ b'a' ∷ b'p' ∷ b'p' ∷ b't' ∷ b'r' ∷ [])
        || same_name t (b'p' ∷ b't' ∷ b'r' ∷ []))

-- type_name.startswith("Array<") and type_name.endswith(">")
unfoldable pub is_array_type : Text → Bool
is_array_type t =
    starts_with t (b'A' ∷ b'r' ∷ b'r' ∷ b'a' ∷ b'y' ∷ b'<' ∷ []) && ends_with t (b'>' ∷ [])

-- type_name[len("Array<"):-1]
unfoldable pub element_type : Text → Text
element_type t = take (length t - 7) (drop 6 t)

-- the exceptions that a description catches
unfoldable pub is_caught : Fault → Bool
is_caught index_error = true
is_caught e = is_vm_error e
