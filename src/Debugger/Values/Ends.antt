-- ===== src/Debugger/Values/Ends.antt =====
-- The recursions of runtime/debugger.py over type names and over values, and their cut-off.
use quin_lang.Vm.Heap.{read_word}
use quin_lang.Vm.Objects.{array_at, string_bytes}
use quin_lang.Debugger.Values.Flatten.{
  describe_children, each_text, expand, flatten, format_local, object_children, render, render_all,
}
use quin_lang.Debugger.{FrameView}
use quin_lang.Vm.Machine.{Vm}
use quin_lang.Vm.Floats.{FloatOps, bits_to_float, format_float}
use quin_lang.Prelude.{
  Bool, List, Option, Result, [], arith, drop, ends_with, err, false, if◌then◌else◌, leb→le, length,
  length-take, none, not, ok, refl, same_name, some, starts_with, suc, true, zero, ℕ, ◌*◌, ◌+◌, ◌-◌,
  ◌<◌, ◌==◌, ◌>>=◌, ◌∷◌, ◌≡◌,
}
use quin_lang.Program.{CompiledProgram, FieldLayout, LocalInfo, Text}
use quin_lang.Debugger.Values.{
  Elements, Unshown, Value, ValueKind, array, before_bracket, element, element_type, escaped,
  is_array_type, is_caught, is_number, max_struct_depth, no_more, scalar, structure, too_deep,
  value, value_error, variant,
}
use quin_lang.Debugger.Values.Describe.{
  describe_array, describe_elements, describe_field, describe_float, describe_inline,
  describe_local, describe_named, describe_slot, describe_slots, describe_str, describe_word,
  layout_at, or_unreadable, read_float_bits,
}

-- The model's cut-off was not reached.
abbrev pub Ends : {A : Type 0} → Result Unshown A → Type 0
Ends (ok a) = Unit
Ends (err too_deep) = ⊥
Ends (err e) = Unit

Ends-bind :
    {A B : Type 0} (m : Result Unshown A) (k : A → Result Unshown B)
    → Ends m
    → ((a : A) → Ends (k a))
    → Ends (m >>= k)
Ends-bind (ok a) k h g = g a
Ends-bind (err (escaped e)) k h g = tt
Ends-bind (err value_error) k h g = tt
Ends-bind (err too_deep) k h g = absurd h

Ends-if :
    {A : Type 0} (b : Bool) (x y : Result Unshown A)
    → (b ≡ true → Ends x)
    → Ends y
    → Ends (if b then x else y)
Ends-if true x y h k = h refl
Ends-if false x y h k = k

length-element_type : (t : Text) → is_array_type t ≡ true → length (element_type t) < length t
unfolding element_type is_array_type starts_with
length-element_type t h =
    omega (arith, length-take (length t - 7) (drop 6 t), leb→le 6 (length t) (ground arith))

Ends-elim :
    {E A B : Type 0} (r : Result E A) (f : A → Result Unshown B) (g : E → Result Unshown B)
    → ((a : A) → Ends (f a))
    → ((e : E) → Ends (g e))
    → Ends (elim r [ ok a ↦ f a | err e ↦ g e ])
Ends-elim (ok a) f g h k = h a
Ends-elim (err e) f g h k = k e

Ends-option :
    {A B : Type 0} (o : Option A) (x : Result Unshown B) (f : A → Result Unshown B)
    → Ends x
    → ((a : A) → Ends (f a))
    → Ends (elim o [ none ↦ x | some a ↦ f a ])
Ends-option none x f h k = h
Ends-option (some a) x f h k = k a

-- either branch
Ends-either :
    {A : Type 0} (b : Bool) (x y : Result Unshown A) → Ends x → Ends y → Ends (if b then x else y)
Ends-either b x y h k = Ends-if b x y (λ e. h) k

module _ {F W : Type 0} (floats : FloatOps F) (program : CompiledProgram) (vm : Vm W) where
  describe_float-Ends : (bits : ℕ) (t : Text) → Ends (describe_float floats program vm bits t)
  unfolding describe_float
  describe_float-Ends bits t =
      Ends-option (format_float floats (bits_to_float floats bits)) _ _ tt (λ s. tt)

  describe_str-Ends : (word : ℕ) (t : Text) → Ends (describe_str floats program vm word t)
  unfolding describe_str
  describe_str-Ends word t =
      Ends-either (word == 0) _ _ tt (
        Ends-elim (string_bytes word vm).0 _ _ (λ s. tt) (λ e. Ends-either (is_caught e) _ _ tt tt))

  or_unreadable-Ends :
      (t : Text) (r : Result Unshown Value) → Ends r → Ends (or_unreadable floats program vm t r)
  unfolding or_unreadable
  or_unreadable-Ends t (ok v) h = tt
  or_unreadable-Ends t (err (escaped e)) h = Ends-either (is_caught e) _ _ tt tt
  or_unreadable-Ends t (err value_error) h = tt
  or_unreadable-Ends t (err too_deep) h = h

  describe_field-Ends :
      (describe : ℕ → Text → Result Unshown Value) (addr : ℕ) (t : Text)
      → ((word : ℕ) → Ends (describe word t))
      → Ends (describe_field floats program vm describe addr t)
  unfolding describe_field
  describe_field-Ends describe addr t h = or_unreadable-Ends t _ (
      Ends-either (same_name t _) _ _
        (Ends-elim (read_float_bits floats program vm addr) _ _ (λ bits. describe_float-Ends bits t)
          (λ e. tt))
        (Ends-elim (read_word vm.heap addr) _ _ h (λ e. tt)))

  describe_elements-Ends :
      (describe : ℕ → Text → Result Unshown Value) (n i ref : ℕ) (t : Text)
      → ((word : ℕ) → Ends (describe word t))
      → Ends (describe_elements floats program vm describe n i ref t)
  unfolding describe_elements
  describe_elements-Ends describe zero i ref t h = tt
  describe_elements-Ends describe (suc n) i ref t h =
      Ends-bind (describe_field floats program vm describe (ref + i * 2) t) _
        (describe_field-Ends describe (ref + i * 2) t h)
        (λ v.
          Ends-bind (describe_elements floats program vm describe n (i + 1) ref t) _
            (describe_elements-Ends describe n (i + 1) ref t h) (λ vs. tt))

  describe_array-Ends :
      (describe : ℕ → Text → Result Unshown Value) (ref : ℕ) (t : Text)
      → ((word : ℕ) → Ends (describe word (element_type t)))
      → Ends (describe_array floats program vm describe ref t)
  unfolding describe_array
  describe_array-Ends describe ref t h = Ends-either (ref == 0) _ _ tt (
      Ends-elim (array_at ref vm).0 _ _
        (λ a.
          Ends-bind (describe_elements floats program vm describe _ 0 ref (element_type t)) _
            (describe_elements-Ends describe _ 0 ref (element_type t) h) (λ es. tt))
        (λ e. Ends-either (is_caught e) _ _ tt tt))

  describe_word-Ends :
      (depth word : ℕ) (t : Text)
      → length t < depth
      → Ends (describe_word floats program vm depth word t)
  unfolding describe_word
  describe_word-Ends zero word t h = absurd (omega arith)
  describe_word-Ends (suc depth) word t h = Ends-either (same_name t _) _ _ tt (
      Ends-either (same_name t _) _ _ (describe_str-Ends word t) (
        Ends-either (is_number t) _ _ tt (
          Ends-either (starts_with t _) _ _ tt (
            Ends-if (is_array_type t) _ _
              (λ e. describe_array-Ends _ word t (λ w.
                describe_word-Ends depth w (element_type t)
                  (omega (arith, length-element_type t e))))
              tt))))

  describe_named-Ends : (word : ℕ) (t : Text) → Ends (describe_named floats program vm word t)
  unfolding describe_named
  describe_named-Ends word t = describe_word-Ends (suc (length t)) word t (omega arith)

  describe_slot-Ends :
      (slots : List ℕ) (slot : ℕ) (t : Text) → Ends (describe_slot floats program vm slots slot t)
  unfolding describe_slot
  describe_slot-Ends slots slot t =
      Ends-either (same_name t _) _ _ (describe_float-Ends _ t) (describe_named-Ends _ t)

  describe_inline-Ends :
      (slots : List ℕ) (slot n i : ℕ) (base : Text)
      → Ends (describe_inline floats program vm slots slot n i base)
  unfolding describe_inline
  describe_inline-Ends slots slot zero i base = tt
  describe_inline-Ends slots slot (suc n) i base =
      Ends-bind _ _
        (Ends-either (ends_with base _) _ _ tt (describe_slot-Ends slots (slot + i) base))
        (λ v.
          Ends-bind (describe_inline floats program vm slots slot n (i + 1) base) _
            (describe_inline-Ends slots slot n (i + 1) base) (λ vs. tt))

  describe_local-Ends :
      (frame : FrameView) (info : LocalInfo) → Ends (describe_local floats program vm frame info)
  unfolding describe_local describe_slots
  describe_local-Ends frame info =
      Ends-either (not (ends_with info.type_name _)) _ _ (describe_slot-Ends _ _ _) (
        Ends-option (before_bracket info.type_name) _ _ tt
          (λ base. Ends-bind _ _ (describe_inline-Ends _ _ _ 0 base) (λ es. tt)))

  describe_children-Ends :
      (numbered : Bool) (address i : ℕ) (fs : List FieldLayout)
      → Ends (describe_children floats program vm numbered address i fs)
  unfolding describe_children
  describe_children-Ends numbered address i [] = tt
  describe_children-Ends numbered address i (f ∷ fs) =
      Ends-bind _ _ (describe_field-Ends _ _ _ (λ w. describe_named-Ends w f.type_name))
        (λ v. Ends-bind _ _ (describe_children-Ends numbered address (i + 1) fs) (λ vs. tt))

  object_children-Ends :
      (k : ValueKind) (address : ℕ) → Ends (object_children floats program vm k address)
  unfolding object_children
  object_children-Ends k address = Ends-either (address == 0) _ _ tt (
      Ends-option (layout_at floats program vm address) _ _ tt
        (λ layout. describe_children-Ends _ address 0 layout.fields))

  each_text-Ends :
      (show : Value → Result Unshown Text) (es : Elements)
      → ((v : Value) → Ends (show v))
      → Ends (each_text show es)
  unfolding each_text
  each_text-Ends show no_more h = tt
  each_text-Ends show (element name v es) h =
      Ends-bind (show v) _ (h v)
        (λ s. Ends-bind (each_text show es) _ (each_text-Ends show es h) (λ ss. tt))

  mutual
    unfolding render

    render-Ends :
        (object : ValueKind → ℕ → Text → Result Unshown Text) (v : Value)
        → ((k : ValueKind) (a : ℕ) (o : Text) → Ends (object k a o))
        → Ends (render object v)
    render-Ends object (value s t scalar a o es) h = tt
    render-Ends object (value s t array a o es) h =
        Ends-bind (render_all object es) _ (render_all-Ends object es h) (λ r. tt)
    render-Ends object (value s t structure a o es) h = h structure a o
    render-Ends object (value s t variant a o es) h = h variant a o

    render_all-Ends :
        (object : ValueKind → ℕ → Text → Result Unshown Text) (es : Elements)
        → ((k : ValueKind) (a : ℕ) (o : Text) → Ends (object k a o))
        → Ends (render_all object es)
    render_all-Ends object no_more h = tt
    render_all-Ends object (element name v es) h =
        Ends-bind (render object v) _ (render-Ends object v h)
          (λ s. Ends-bind (render_all object es) _ (render_all-Ends object es h) (λ ss. tt))

  flatten-Ends : (left : ℕ) (v : Value) → Ends (flatten floats program vm left v)
  unfolding flatten expand
  flatten-Ends zero v = render-Ends _ v (λ k a o. tt)
  flatten-Ends (suc left) v = render-Ends _ v (λ k a o.
      Ends-bind _ _ (object_children-Ends k a) (λ children.
        Ends-bind _ _ (each_text-Ends _ children (λ w. flatten-Ends left w)) (λ r. tt)))

  -- The rounds that the model gives to the recursions over type names and over values are enough,
  -- objects that lead back to themselves included.
  format_local-Ends :
      (frame : FrameView) (info : LocalInfo) → Ends (format_local floats program vm frame info)
  unfolding format_local
  format_local-Ends frame info =
      Ends-bind _ _ (describe_local-Ends frame info) (λ v. flatten-Ends max_struct_depth v)
