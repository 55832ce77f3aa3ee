-- ===== src/Vm/Floats.antt =====
-- What runtime/vm.py takes of Python's floats and of `struct`: the type and its operations are a
-- parameter. `bits_to_float`, `float_to_bits` and `format_float` are built on them as in the source.
use quin_lang.Prelude.{
  Bool, Option, [], false, if◌then◌else◌, negsuc, none, pos, some, suc, true, zero, ℕ, ℤ, ◌%◌, ◌&&◌,
  ◌++◌, ◌+◌, ◌==◌, ◌^◌, ◌||◌, ◌∷◌,
}
use mathlib.Core.Option
use quin_lang.Program.{Text}

pub record FloatOps (F : Type 0) : Type 0 where
  -- struct.unpack("<f", …) of a 32-bit pattern
  pub unpack : ℕ → F
  -- struct.pack("<f", …), with `none` for its OverflowError
  pub pack : F → Option ℕ
  pub is_finite : F → Bool
  pub add : F → F → F
  pub sub : F → F → F
  pub mul : F → F → F
  pub div : F → F → F
  pub neg : F → F
  pub lt : F → F → Bool
  pub eq : F → F → Bool
  pub is_zero : F → Bool
  pub of_int : ℤ → F
  -- int(value), with `none` for the error of an infinity or a nan
  pub truncate : F → Option ℤ
  -- f"{value:.{digits}g}"
  pub general : ℕ → F → Text
  -- float(text), repr(value)
  pub parse : Text → F
  pub repr : F → Text

abbrev pub float_mod : ℕ
float_mod = 2 ^ 32

module _ {F : Type 0} (fl : FloatOps F) where
  unfoldable pub bits_to_float : ℕ → F
  bits_to_float bits = fl.unpack (bits % float_mod)

  -- `none` is the "Float overflow" fault, raised for what is not finite and for what does not fit.
  unfoldable pub float_to_bits : F → Option ℕ
  float_to_bits value = if fl.is_finite value then fl.pack value else none

  -- (a > b) - (a < b)
  unfoldable pub compare_floats : F → F → ℤ
  compare_floats a b =
      if fl.lt b a
      then (if fl.lt a b then pos 0 else pos 1)
      else if fl.lt a b
      then negsuc 0
      else pos 0

  -- whether the text reads back as the value once narrowed to 32 bits; `none` is an OverflowError
  reads_back : F → Text → Option Bool
  reads_back value s = Option.map (λ bits. fl.eq (fl.unpack bits) value) (fl.pack (fl.parse s))

  -- for digits in range(1, 10), as the rounds that are left and the next number of digits
  shortest : ℕ → ℕ → F → Option Text
  shortest zero digits value = some (fl.repr value)
  shortest (suc rounds) digits value =
      let more = shortest rounds (digits + 1) value in
      elim (reads_back value (fl.general digits value)) [
        | none ↦ none
        | some b ↦ if b then some (fl.general digits value) else more
      ]

  has_point : Text → Bool
  has_point [] = false
  has_point (c ∷ cs) = c == b'.' || (c == b'e' || (c == b'E' || has_point cs))

  same_text : Text → Text → Bool
  same_text [] [] = true
  same_text (a ∷ as') (b ∷ bs) = a == b && same_text as' bs
  same_text _ _ = false

  -- text in ("inf", "-inf", "nan")
  is_special : Text → Bool
  unfolding same_text
  is_special s =
      same_text s (b'i' ∷ b'n' ∷ b'f' ∷ [])
      || (same_text s (b'-' ∷ b'i' ∷ b'n' ∷ b'f' ∷ []) || same_text s (b'n' ∷ b'a' ∷ b'n' ∷ []))

  -- the branch behind the loop: a text with no point gets ".0"
  with_point : Text → Text
  unfolding has_point is_special
  with_point s = if has_point s || is_special s then s else s ++ b'.' ∷ b'0' ∷ []

  -- `none` is an OverflowError of `struct.pack` in the loop
  unfoldable pub format_float : F → Option Text
  unfolding shortest reads_back with_point
  format_float value = Option.map with_point (shortest 9 1 value)
