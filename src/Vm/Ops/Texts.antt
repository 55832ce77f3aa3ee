-- ===== src/Vm/Ops/Texts.antt =====
-- The string branches of `_run` in runtime/vm.py.
use quin_lang.Prelude.{
  List, Option, [], drop, false, get_or, if◌then◌else◌, length, ltb, negsuc, pos, str_ℤ, take, true,
  ℕ, ℤ, ◌++◌, ◌-◌, ◌||◌, ◌∷◌,
}
use quin_lang.Vm.Machine.{
  Exec, Setup, char_at_range, char_code, operand, pure, raise, slice_range, ◌>>=◌,
}
use quin_lang.Vm.Operands.{pop, pop_signed, push}
use quin_lang.Vm.Objects.{literal, string_bytes}
use quin_lang.Vm.Alloc.{alloc_string}
use quin_lang.Vm.Ops.Reals.{formatted}

-- 0 if a == b else (1 if a > b else -1), on bytes
unfoldable pub compare_bytes : List ℕ → List ℕ → ℤ
compare_bytes [] [] = pos 0
compare_bytes [] (b ∷ bs) = negsuc 0
compare_bytes (a ∷ as') [] = pos 1
compare_bytes (a ∷ as') (b ∷ bs) =
    let rest = compare_bytes as' bs in if ltb a b then negsuc 0 else if ltb b a then pos 1 else rest

module _ {W : Type 0} where
  -- self._string_bytes(self._pop())
  unfoldable pub pop_string : Exec W (List ℕ)
  pop_string = do addr ← pop; string_bytes addr

  -- `LOAD_STR`
  unfoldable pub exec_load_str : Option ℤ → Exec W (Unit {0})
  exec_load_str arg = do sid ← operand arg; addr ← literal sid; push (pos addr) true

  unfoldable pub exec_str_cmp : Exec W (Unit {0})
  exec_str_cmp = do b ← pop_string; a ← pop_string; push (compare_bytes a b) false

  unfoldable pub exec_str_len : Exec W (Unit {0})
  exec_str_len = do s ← pop_string; push (pos (length s)) false

  -- the character at a signed index
  unfoldable pub char_at : List ℕ → ℤ → Exec W ℕ
  char_at s (negsuc i) = raise (char_at_range (negsuc i) (length s))
  char_at s (pos i) =
      if ltb i (length s) then pure (get_or s i 0) else raise (char_at_range (pos i) (length s))

  unfoldable pub exec_str_char_at : Exec W (Unit {0})
  exec_str_char_at = do index ← pop_signed; s ← pop_string; c ← char_at s index; push (pos c) false

  -- data[start:end], with the three tests before it
  unfoldable pub slice : List ℕ → ℤ → ℤ → Exec W (List ℕ)
  slice s (pos start) (pos end) =
      if ltb (length s) end || ltb end start
      then raise (slice_range (pos start) (pos end) (length s))
      else pure (take (end - start) (drop start s))
  slice s start end = raise (slice_range start end (length s))

module _ {F W : Type 0} (setup : Setup F W) where
  -- self._push(self._alloc_string(content), True)
  unfoldable pub push_string : List ℕ → Exec W (Unit {0})
  push_string content = do addr ← alloc_string setup content; push (pos addr) true

  unfoldable pub exec_str_concat : Exec W (Unit {0})
  exec_str_concat = do right ← pop_string; left ← pop_string; push_string (left ++ right)

  unfoldable pub exec_str_slice : Exec W (Unit {0})
  exec_str_slice = do
    end ← pop_signed
    start ← pop_signed
    s ← pop_string
    part ← slice s start end
    push_string part

  unfoldable pub exec_str_from_float : Exec W (Unit {0})
  exec_str_from_float = do s ← formatted (setup.floats); push_string s

  unfoldable pub exec_str_from_int : Exec W (Unit {0})
  exec_str_from_int = do n ← pop_signed; push_string (str_ℤ n)

  -- `char_code < 0 or char_code > 255`
  unfoldable pub one_char : ℤ → Exec W (List ℕ)
  one_char (negsuc i) = raise (char_code (negsuc i))
  one_char (pos c) = if ltb 255 c then raise (char_code (pos c)) else pure (c ∷ [])

  unfoldable pub exec_str_from_char : Exec W (Unit {0})
  unfolding one_char
  exec_str_from_char = do code ← pop_signed; s ← one_char code; push_string s
