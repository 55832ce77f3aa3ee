-- ===== src/Debugger/Values/Describe.antt =====
-- `_describe_slots` and what it calls, in runtime/debugger.py: what a word of memory is shown as.
use quin_lang.Debugger.{FrameView}
use Prim.Native.Nat.{min}
use quin_lang.Prelude.{
  List, Option, Result, [], ends_with, err, get_elem?, if◌then◌else◌, length, ltb, none, not, ok,
  same_name, some, starts_with, str_ℕ, str_ℤ, suc, zero, ℕ, ◌*◌, ◌++◌, ◌+◌, ◌-◌, ◌==◌, ◌>>=◌, ◌∷◌,
}
use quin_lang.Program.{CompiledProgram, LocalInfo, StructLayout, Text}
use quin_lang.Debugger.Values.{
  Elements, Unshown, Value, array, array_preview, at_address, before_bracket, element, element_type,
  escaped, is_array_type, is_caught, is_number, join_commas, no_fields, no_more, plain, scalar,
  slot_of, structure, subscript, summaries, too_deep, value, value_error, variant,
}
use quin_lang.Vm.Machine.{Fault, Vm, header_bytes, overflow_error}
use quin_lang.Vm.Words.{to_signed}
use quin_lang.Vm.Floats.{FloatOps, bits_to_float, format_float}
use quin_lang.Vm.Objects.{array_at, string_bytes}
use quin_lang.Vm.Heap.{detail, kind, kind_struct, read_word}

module _ {F W : Type 0} (floats : FloatOps F) (program : CompiledProgram) (vm : Vm W) where
  -- Value(format_float(bits_to_float(bits)), type_name)
  unfoldable pub describe_float : ℕ → Text → Result Unshown Value
  describe_float bits t = elim (format_float floats (bits_to_float floats bits)) [
    | none ↦ err (escaped overflow_error)
    | some s ↦ ok (plain s t)
  ]

  unfoldable pub quoted : Text → Text
  quoted s = 34 ∷ (s ++ 34 ∷ [])

  -- the branch for `str`
  unfoldable pub describe_str : ℕ → Text → Result Unshown Value
  describe_str word t =
      if word == 0
      then ok (plain (b'n' ∷ b'u' ∷ b'l' ∷ b'l' ∷ []) t)
      else elim (string_bytes word vm).0 [
        | ok s ↦ ok (plain (quoted s) t)
        | err e ↦
            if is_caught e
            then ok (
                plain
                  ((b'<' ∷ b'u' ∷ b'n' ∷ b'r' ∷ b'e' ∷ b'a' ∷ b'd' ∷ b'a' ∷ b'b' ∷ b'l' ∷ b'e' ∷ 32
                      ∷ b's' ∷ b't' ∷ b'r' ∷ 32 ∷ b'a' ∷ b't' ∷ 32 ∷ [])
                    ++ (str_ℕ word ++ b'>' ∷ []))
                  t)
            else err (escaped e)
      ]

  -- the branch for `fn(`
  unfoldable pub describe_fn : ℕ → Text → Value
  describe_fn word t = elim (get_elem? program.functions word) [
    | some f ↦ plain f.name t
    | none ↦
        plain
          ((b'<' ∷ b'f' ∷ b'u' ∷ b'n' ∷ b'c' ∷ b't' ∷ b'i' ∷ b'o' ∷ b'n' ∷ 32 ∷ [])
            ++ (str_ℤ (to_signed word) ++ b'>' ∷ []))
          t
  ]

  -- the type id of a struct at a header, `none` for another kind and for an IndexError
  unfoldable pub type_id_at : ℕ → Option ℕ
  type_id_at hdr = elim (kind vm.heap hdr) [
    | err e ↦ none
    | ok k ↦
        if not (k == kind_struct)
        then none
        else elim (detail vm.heap hdr) [ err e ↦ none | ok id ↦ some id ]
  ]

  -- `_layout_at`
  unfoldable pub layout_at : ℕ → Option StructLayout
  layout_at ref = if ltb ref header_bytes then none else elim (type_id_at (ref - header_bytes)) [
    | none ↦ none
    | some id ↦ get_elem? program.structs id
  ]

  -- what an object with a layout reads as
  unfoldable pub describe_layout : ℕ → Text → StructLayout → Value
  describe_layout ref t layout =
      if no_fields layout.fields
      then (if layout.is_variant
          then value layout.name t scalar 0 layout.name no_more
          else plain (at_address t ref) t)
      else if layout.is_variant
      then value (layout.name ++ b'(' ∷ 8230 ∷ b')' ∷ []) t variant ref layout.name no_more
      else value (layout.name ++ 32 ∷ b'{' ∷ 8230 ∷ b'}' ∷ []) t structure ref layout.name no_more

  -- `_describe_object`
  unfoldable pub describe_object : ℕ → Text → Value
  describe_object ref t =
      if ref == 0 then plain (b'n' ∷ b'u' ∷ b'l' ∷ b'l' ∷ []) t else elim (layout_at ref) [
        | none ↦ plain (at_address t ref) t
        | some layout ↦ describe_layout ref t layout
      ]

  -- vm._read_word(addr) | (vm._read_word(addr + 2) << 16)
  unfoldable pub read_float_bits : ℕ → Result Fault ℕ
  read_float_bits addr = do
    low ← read_word vm.heap addr
    high ← read_word vm.heap (addr + 2)
    ok (low + 65536 * high)

  -- the handler of `_describe_field`
  unfoldable pub or_unreadable : Text → Result Unshown Value → Result Unshown Value
  or_unreadable t (err (escaped e)) =
      if is_caught e
      then ok (
          plain
            (b'<' ∷ b'u' ∷ b'n' ∷ b'r' ∷ b'e' ∷ b'a' ∷ b'd' ∷ b'a' ∷ b'b' ∷ b'l' ∷ b'e' ∷ b'>' ∷ [])
            t)
      else err (escaped e)
  or_unreadable t r = r

  -- `_describe_field`, where describe is `_describe_word`
  unfoldable pub describe_field :
      (ℕ → Text → Result Unshown Value) → ℕ → Text → Result Unshown Value
  describe_field describe addr t = or_unreadable t (
      if same_name t (b'f' ∷ b'l' ∷ b'o' ∷ b'a' ∷ b't' ∷ [])
      then elim (read_float_bits addr) [ err e ↦ err (escaped e) | ok bits ↦ describe_float bits t ]
      else elim (read_word vm.heap addr) [ err e ↦ err (escaped e) | ok word ↦ describe word t ])

  -- the elements of a heap array: so many of them, from an index on
  unfoldable pub describe_elements :
      (ℕ → Text → Result Unshown Value) → ℕ → ℕ → ℕ → Text → Result Unshown Elements
  describe_elements describe zero i ref t = ok no_more
  describe_elements describe (suc n) i ref t = do
    v ← describe_field describe (ref + i * 2) t
    vs ← describe_elements describe n (i + 1) ref t
    ok (element (subscript i) v vs)

  -- f", … {count - shown} more"
  unfoldable pub truncated : ℕ → ℕ → Text
  truncated count shown =
      if ltb shown count
      then (b',' ∷ 32 ∷ 8230 ∷ 32 ∷ [])
        ++ (str_ℕ (count - shown) ++ 32 ∷ b'm' ∷ b'o' ∷ b'r' ∷ b'e' ∷ [])
      else []

  unfoldable pub array_value : ℕ → ℕ → Text → Elements → Value
  array_value ref count t es =
      value
        (b'['
          ∷ (join_commas (summaries es)
              ++ (truncated count (min count array_preview) ++ b']' ∷ [])))
        t array ref [] es

  -- `_describe_array`
  unfoldable pub describe_array :
      (ℕ → Text → Result Unshown Value) → ℕ → Text → Result Unshown Value
  describe_array describe ref t =
      if ref == 0 then ok (plain (b'n' ∷ b'u' ∷ b'l' ∷ b'l' ∷ []) t) else elim (array_at ref vm).0 [
        | err e ↦ if is_caught e then ok (plain (at_address t ref) t) else err (escaped e)
        | ok a ↦ do
          es ← describe_elements describe (min a.count array_preview) 0 ref (element_type t)
          ok (array_value ref a.count t es)
      ]

  -- `_describe_word`, with so many array types inside one another
  unfoldable pub describe_word : ℕ → ℕ → Text → Result Unshown Value
  describe_word zero word t = err too_deep
  describe_word (suc depth) word t =
      if same_name t (b'b' ∷ b'o' ∷ b'o' ∷ b'l' ∷ [])
      then ok (
          plain
            (if word == 0
              then b'f' ∷ b'a' ∷ b'l' ∷ b's' ∷ b'e' ∷ []
              else b't' ∷ b'r' ∷ b'u' ∷ b'e' ∷ [])
            t)
      else if same_name t (b's' ∷ b't' ∷ b'r' ∷ [])
      then describe_str word t
      else if is_number t
      then ok (plain (str_ℤ (to_signed word)) t)
      else if starts_with t (b'f' ∷ b'n' ∷ b'(' ∷ [])
      then ok (describe_fn word t)
      else if is_array_type t
      then describe_array (λ w s. describe_word depth w s) word t
      else ok (describe_object word t)

  -- a type name is longer than the type names inside it
  unfoldable pub describe_named : ℕ → Text → Result Unshown Value
  describe_named word t = describe_word (suc (length t)) word t

  -- `_describe_slots` for a type that is no inline array
  unfoldable pub describe_slot : List ℕ → ℕ → Text → Result Unshown Value
  describe_slot slots slot t =
      if same_name t (b'f' ∷ b'l' ∷ b'o' ∷ b'a' ∷ b't' ∷ [])
      then describe_float (slot_of slots slot + 65536 * slot_of slots (slot + 1)) t
      else describe_named (slot_of slots slot) t

  -- the elements of an inline array; a base type that ends in a bracket has none to begin with
  unfoldable pub describe_inline : List ℕ → ℕ → ℕ → ℕ → Text → Result Unshown Elements
  describe_inline slots slot zero i base = ok no_more
  describe_inline slots slot (suc n) i base = do
    v ←
        (if ends_with base (b']' ∷ [])
          then err value_error
          else describe_slot slots (slot + i) base)
    vs ← describe_inline slots slot n (i + 1) base
    ok (element (subscript i) v vs)

  unfoldable pub inline_value : Text → Elements → Value
  inline_value t es = value (b'[' ∷ (join_commas (summaries es) ++ b']' ∷ [])) t array 0 [] es

  -- `_describe_slots`
  unfoldable pub describe_slots : List ℕ → ℕ → Text → ℕ → Result Unshown Value
  describe_slots slots slot t words =
      if not (ends_with t (b']' ∷ []))
      then describe_slot slots slot t
      else elim (before_bracket t) [
        | none ↦ err value_error
        | some base ↦ do es ← describe_inline slots slot words 0 base; ok (inline_value t es)
      ]

  unfoldable pub describe_local : FrameView → LocalInfo → Result Unshown Value
  describe_local frame info = describe_slots frame.locals info.slot info.type_name info.words
