-- ===== src/Vm/Ops/Reals.antt =====
-- The float branches of `_run` in runtime/vm.py, over the operations that `FloatOps` takes of Python.
use quin_lang.Prelude.{List, Option, false, ltb_ℤ, negsuc, pos, ℕ, ℤ, ◌%◌, ◌-◌, ◌||◌}
use quin_lang.Vm.Machine.{
  Exec, float_division_by_zero, float_to_int_range, operand, overflow_error, refuse, require, ◌>>=◌,
  ◌>>◌,
}
use quin_lang.Vm.Operands.{
  local_float, pop_float, pop_signed, push, push_float, push_raw, set_local_float,
}
use quin_lang.Vm.Floats.{FloatOps, compare_floats, float_mod, format_float}

-- int(arg) & FLOAT_MASK
unfoldable pub to_bits : ℤ → ℕ
to_bits (pos n) = n % float_mod
to_bits (negsuc n) = float_mod - 1 - n % float_mod

module _ {W : Type 0} where
  -- `PUSH_FLOAT`
  unfoldable pub exec_push_float : Option ℤ → Exec W (Unit {0})
  unfolding to_bits
  exec_push_float arg = do n ← operand arg; push_raw (to_bits n) false

module _ {F W : Type 0} (fl : FloatOps F) where
  -- `LOAD_LOCAL_F`
  unfoldable pub exec_load_local_f : Option ℤ → Exec W (Unit {0})
  exec_load_local_f arg = do i ← operand arg; v ← local_float fl i; push_float fl v

  -- `STORE_LOCAL_F`: Python evaluates the operand first
  unfoldable pub exec_store_local_f : Option ℤ → Exec W (Unit {0})
  exec_store_local_f arg = do i ← operand arg; v ← pop_float fl; set_local_float fl i v

  -- `FADD`, `FSUB` and `FMUL`
  unfoldable pub exec_float_op : (F → F → F) → Exec W (Unit {0})
  exec_float_op f = do b ← pop_float fl; a ← pop_float fl; push_float fl (f a b)

  unfoldable pub exec_fdiv : Exec W (Unit {0})
  exec_fdiv = do
    b ← pop_float fl
    a ← pop_float fl
    refuse (fl.is_zero b) float_division_by_zero
    push_float fl (fl.div a b)

  unfoldable pub exec_fneg : Exec W (Unit {0})
  exec_fneg = do a ← pop_float fl; push_float fl (fl.neg a)

  unfoldable pub exec_fcmp : Exec W (Unit {0})
  exec_fcmp = do b ← pop_float fl; a ← pop_float fl; push (compare_floats fl a b) false

  unfoldable pub exec_f_from_int : Exec W (Unit {0})
  exec_f_from_int = do n ← pop_signed; push_float fl (fl.of_int n)

  -- `F_TO_INT`
  unfoldable pub exec_f_to_int : Exec W (Unit {0})
  exec_f_to_int = do
    value ← pop_float fl
    n ← require (fl.truncate value) overflow_error
    refuse (ltb_ℤ n (negsuc 0x7fff) || ltb_ℤ (pos 0x7fff) n) float_to_int_range
    push n false

  -- format_float, an OverflowError where `struct.pack` raises one
  unfoldable pub formatted : Exec W (List ℕ)
  formatted = do value ← pop_float fl; require (format_float fl value) overflow_error
