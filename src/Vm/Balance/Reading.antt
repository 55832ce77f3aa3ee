-- ===== src/Vm/Balance/Reading.antt =====
-- The balance of the stacks over the reading of arrays, strings and files in runtime/vm.py.
use quin_lang.Vm.Balance.Moves.{move_rules}
use quin_lang.Vm.Balance.{IsBalanced}
use quin_lang.Vm.Io.{IoValue, OsError, bytes, other, text}
use quin_lang.Vm.Keeps.{Keeps, Keeps-bind, Keeps-modify, Keeps-peek, Keeps-pure, Keeps-refuse}
use quin_lang.Program.{StructLayout, Text}
use quin_lang.Vm.Objects.{
  ArrayRef, array_at, array_bytes, element_addr, element_at, field_is_ref, is_string, literal,
  string_bytes, word_bytes,
}
use quin_lang.Vm.Machine.{Setup, Vm}
use quin_lang.Vm.Files.{
  bytes_from_io, content_or_empty, file_op, file_result, read_input, write_out,
}
use quin_lang.Prelude.{List, Option, Result, err, negsuc, none, ok, pos, some, suc, zero, ℕ, ℤ, ◌+◌}

module _ {W : Type 0} where
  pub array_at-IsBalanced : (a0 : ℕ) → Keeps {W = W} IsBalanced (array_at a0)
  unfolding array_at
  array_at-IsBalanced a0 =
      Keeps-bind _ _ (Keeps-refuse _ _)
        (λ x0. Keeps-bind _ _ (Keeps-refuse _ _) (λ x1. search (move_rules)))

  element_at-IsBalanced : (a : ArrayRef) (i : ℤ) → Keeps {W = W} IsBalanced (element_at a i)
  unfolding element_at
  element_at-IsBalanced a (negsuc i) = search move_rules
  element_at-IsBalanced a (pos i) = search move_rules

  pub element_addr-IsBalanced : (a0 : ℕ) (a1 : ℤ) → Keeps {W = W} IsBalanced (element_addr a0 a1)
  unfolding element_addr
  element_addr-IsBalanced a0 a1 = search (move_rules, array_at-IsBalanced, element_at-IsBalanced)

  word_bytes-IsBalanced :
      (more index start : ℕ) → Keeps {W = W} IsBalanced (word_bytes more index start)
  unfolding word_bytes
  word_bytes-IsBalanced zero index start = search move_rules
  word_bytes-IsBalanced (suc more) index start = Keeps-bind _ _ (Keeps-peek _) (λ word.
      Keeps-bind _ _ (Keeps-refuse _ _)
        (λ u. Keeps-bind _ _ (word_bytes-IsBalanced more (index + 1) start) (λ rest. Keeps-pure _)))

  pub array_bytes-IsBalanced : (a0 : ℕ) → Keeps {W = W} IsBalanced (array_bytes a0)
  unfolding array_bytes
  array_bytes-IsBalanced a0 = search (move_rules, array_at-IsBalanced, word_bytes-IsBalanced)

  pub is_string-IsBalanced : (a0 : ℕ) → Keeps {W = W} IsBalanced (is_string a0)
  unfolding is_string
  is_string-IsBalanced a0 = search (move_rules)

  pub string_bytes-IsBalanced : (a0 : ℕ) → Keeps {W = W} IsBalanced (string_bytes a0)
  unfolding string_bytes
  string_bytes-IsBalanced a0 = search (move_rules, is_string-IsBalanced)

  pub literal-IsBalanced : (sid : ℤ) → Keeps {W = W} IsBalanced (literal sid)
  unfolding literal
  literal-IsBalanced (negsuc i) = search move_rules
  literal-IsBalanced (pos sid) = search move_rules

  file_result-IsBalanced :
      {A : Type 0} (r : Result OsError A) (vm : Vm W)
      → IsBalanced vm
      → IsBalanced (file_result r vm).1
  unfolding file_result
  file_result-IsBalanced (ok a) vm h = h
  file_result-IsBalanced (err e) vm h = h

  pub file_op-IsBalanced :
      {A : Type 0} (f : W → Result OsError A × W) → Keeps {W = W} IsBalanced (file_op f)
  unfolding file_op
  file_op-IsBalanced f = record {
    at = λ vm h. file_result-IsBalanced (f vm.world).0 (record vm { world = (f vm.world).1 }) h;
  }

  bytes_from_io-IsBalanced : (v : IoValue) → Keeps {W = W} IsBalanced (bytes_from_io v)
  unfolding bytes_from_io
  bytes_from_io-IsBalanced (bytes b) = search move_rules
  bytes_from_io-IsBalanced (text s) = search move_rules
  bytes_from_io-IsBalanced other = search move_rules

  pub content_or_empty-IsBalanced :
      (o : Option IoValue) → Keeps {W = W} IsBalanced (content_or_empty o)
  unfolding content_or_empty
  content_or_empty-IsBalanced none = search move_rules
  content_or_empty-IsBalanced (some v) = bytes_from_io-IsBalanced v

pub field_is_ref-IsBalanced :
    {W : Type 0} (structs : List StructLayout) (ref : ℕ) (offset : ℤ)
    → Keeps {W = W} IsBalanced (field_is_ref structs ref offset)
unfolding field_is_ref
field_is_ref-IsBalanced structs ref offset = search move_rules

module _ {F W : Type 0} (setup : Setup F W) where
  pub write_out-IsBalanced : (s : Text) → Keeps {W = W} IsBalanced (write_out setup s)
  unfolding write_out
  write_out-IsBalanced s = Keeps-modify _ (λ vm h. h)

  pub read_input-IsBalanced : Keeps {W = W} IsBalanced (read_input setup)
  unfolding read_input
  read_input-IsBalanced = record { at = λ vm h. h }
