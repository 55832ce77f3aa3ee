-- ===== src/Debugger/Values/Flatten.antt =====
-- `children_of` and `_flatten` of runtime/debugger.py: one level of a value, and all of it on a line.
use quin_lang.Debugger.{FrameView}
use quin_lang.Prelude.{
  Bool, List, Result, [], false, if◌then◌else◌, none, ok, some, suc, true, zero, ℕ, ◌*◌, ◌++◌, ◌+◌,
  ◌==◌, ◌>>=◌, ◌∷◌,
}
use quin_lang.Program.{CompiledProgram, FieldLayout, LocalInfo, Text}
use quin_lang.Debugger.Values.{
  Elements, Unshown, Value, ValueKind, array, at_address, element, join_commas, max_struct_depth,
  no_more, scalar, structure, subscript, value, variant,
}
use quin_lang.Debugger.Values.Describe.{describe_field, describe_local, describe_named, layout_at}
use quin_lang.Vm.Machine.{Vm}
use quin_lang.Vm.Floats.{FloatOps}

unfoldable pub is_variant_kind : ValueKind → Bool
is_variant_kind variant = true
is_variant_kind _ = false

-- f"{name}: {text}" for each
unfoldable pub labelled : Elements → List Text → List Text
labelled (element name v es) (s ∷ ss) = (name ++ (b':' ∷ 32 ∷ s)) ∷ labelled es ss
labelled _ _ = []

unfoldable pub object_text : ValueKind → Text → Elements → List Text → Text
object_text k o es rendered =
    if is_variant_kind k
    then o ++ (b'(' ∷ (join_commas rendered ++ b')' ∷ []))
    else o ++ ((32 ∷ b'{' ∷ 32 ∷ []) ++ (join_commas (labelled es rendered) ++ 32 ∷ b'}' ∷ []))

-- the texts of the elements, one by one
unfoldable pub each_text : (Value → Result Unshown Text) → Elements → Result Unshown (List Text)
each_text show no_more = ok []
each_text show (element name v es) = do s ← show v; ss ← each_text show es; ok (s ∷ ss)

unfoldable mutual
  -- a value on one line, where `object` writes a struct or a variant
  pub render : (ValueKind → ℕ → Text → Result Unshown Text) → Value → Result Unshown Text
  render object (value s t scalar a o es) = ok s
  render object (value s t array a o es) = do
    rendered ← render_all object es
    ok (b'[' ∷ (join_commas rendered ++ b']' ∷ []))
  render object (value s t structure a o es) = object structure a o
  render object (value s t variant a o es) = object variant a o

  pub render_all :
      (ValueKind → ℕ → Text → Result Unshown Text) → Elements → Result Unshown (List Text)
  render_all object no_more = ok []
  render_all object (element name v es) = do
    s ← render object v
    ss ← render_all object es
    ok (s ∷ ss)

module _ {F W : Type 0} (floats : FloatOps F) (program : CompiledProgram) (vm : Vm W) where
  -- the loop of `children_of` over the fields; those of a variant are numbered
  unfoldable pub describe_children : Bool → ℕ → ℕ → List FieldLayout → Result Unshown Elements
  describe_children numbered address i [] = ok no_more
  describe_children numbered address i (f ∷ fs) = do
    v ←
        describe_field floats program vm (describe_named floats program vm) (address + f.offset * 2)
          f.type_name
    vs ← describe_children numbered address (i + 1) fs
    ok (element (if numbered then subscript i else f.name) v vs)

  unfoldable pub object_children : ValueKind → ℕ → Result Unshown Elements
  object_children k address =
      if address == 0 then ok no_more else elim (layout_at floats program vm address) [
        | none ↦ ok no_more
        | some layout ↦ describe_children (is_variant_kind k) address 0 layout.fields
      ]

  -- `children_of`
  unfoldable pub children_of : Value → Result Unshown Elements
  children_of (value s t array a o es) = ok es
  children_of (value s t k a o es) = object_children k a

  -- the last part of `_flatten`, where `show` goes one level deeper
  unfoldable pub expand : (Value → Result Unshown Text) → ValueKind → ℕ → Text → Result Unshown Text
  expand show k a o = do
    children ← object_children k a
    rendered ← each_text show children
    ok (object_text k o children rendered)

  -- `_flatten`, where MAX_STRUCT_DEPTH - depth levels are left
  unfoldable pub flatten : ℕ → Value → Result Unshown Text
  flatten zero v = render (λ k a o. ok (at_address o a)) v
  flatten (suc left) v = render (expand (λ w. flatten left w)) v

  unfoldable pub format_local : FrameView → LocalInfo → Result Unshown Text
  format_local frame info = do
    v ← describe_local floats program vm frame info
    flatten max_struct_depth v
