-- ===== src/Vm/Balance/Reals.antt =====
-- The balance of the stacks over the float branches of `_run` in runtime/vm.py.
use quin_lang.Vm.Balance.Moves.{
  local_float-IsBalanced, move_rules, pop_float-IsBalanced, push_float-IsBalanced,
  set_local_float-IsBalanced,
}
use quin_lang.Vm.Balance.{IsBalanced}
use quin_lang.Vm.Keeps.{Keeps}
use quin_lang.Vm.Ops.Reals.{
  exec_f_from_int, exec_f_to_int, exec_fcmp, exec_fdiv, exec_float_op, exec_fneg, exec_load_local_f,
  exec_push_float, exec_store_local_f, formatted,
}
use quin_lang.Vm.Floats.{FloatOps}
use quin_lang.Prelude.{Option, ℤ}

module _ {W : Type 0} where
  pub exec_push_float-IsBalanced : (a0 : Option ℤ) → Keeps {W = W} IsBalanced (exec_push_float a0)
  unfolding exec_push_float
  exec_push_float-IsBalanced a0 = search (
    move_rules, pop_float-IsBalanced, push_float-IsBalanced, local_float-IsBalanced,
    set_local_float-IsBalanced,
  )

module _ {F W : Type 0} (fl : FloatOps F) where
  pub exec_load_local_f-IsBalanced :
      (a0 : Option ℤ) → Keeps {W = W} IsBalanced (exec_load_local_f fl a0)
  unfolding exec_load_local_f
  exec_load_local_f-IsBalanced a0 = search (
    move_rules, pop_float-IsBalanced, push_float-IsBalanced, local_float-IsBalanced,
    set_local_float-IsBalanced,
  )

  pub exec_store_local_f-IsBalanced :
      (a0 : Option ℤ) → Keeps {W = W} IsBalanced (exec_store_local_f fl a0)
  unfolding exec_store_local_f
  exec_store_local_f-IsBalanced a0 = search (
    move_rules, pop_float-IsBalanced, push_float-IsBalanced, local_float-IsBalanced,
    set_local_float-IsBalanced,
  )

  pub exec_float_op-IsBalanced : (a0 : (F → F → F)) → Keeps {W = W} IsBalanced (exec_float_op fl a0)
  unfolding exec_float_op
  exec_float_op-IsBalanced a0 = search (
    move_rules, pop_float-IsBalanced, push_float-IsBalanced, local_float-IsBalanced,
    set_local_float-IsBalanced,
  )

  pub exec_fdiv-IsBalanced : Keeps {W = W} IsBalanced (exec_fdiv fl)
  unfolding exec_fdiv
  exec_fdiv-IsBalanced = search (
    move_rules, pop_float-IsBalanced, push_float-IsBalanced, local_float-IsBalanced,
    set_local_float-IsBalanced,
  )

  pub exec_fneg-IsBalanced : Keeps {W = W} IsBalanced (exec_fneg fl)
  unfolding exec_fneg
  exec_fneg-IsBalanced = search (
    move_rules, pop_float-IsBalanced, push_float-IsBalanced, local_float-IsBalanced,
    set_local_float-IsBalanced,
  )

  pub exec_fcmp-IsBalanced : Keeps {W = W} IsBalanced (exec_fcmp fl)
  unfolding exec_fcmp
  exec_fcmp-IsBalanced = search (
    move_rules, pop_float-IsBalanced, push_float-IsBalanced, local_float-IsBalanced,
    set_local_float-IsBalanced,
  )

  pub exec_f_from_int-IsBalanced : Keeps {W = W} IsBalanced (exec_f_from_int fl)
  unfolding exec_f_from_int
  exec_f_from_int-IsBalanced = search (
    move_rules, pop_float-IsBalanced, push_float-IsBalanced, local_float-IsBalanced,
    set_local_float-IsBalanced,
  )

  pub exec_f_to_int-IsBalanced : Keeps {W = W} IsBalanced (exec_f_to_int fl)
  unfolding exec_f_to_int
  exec_f_to_int-IsBalanced = search (
    move_rules, pop_float-IsBalanced, push_float-IsBalanced, local_float-IsBalanced,
    set_local_float-IsBalanced,
  )

  pub formatted-IsBalanced : Keeps {W = W} IsBalanced (formatted fl)
  unfolding formatted
  formatted-IsBalanced = search (
    move_rules, pop_float-IsBalanced, push_float-IsBalanced, local_float-IsBalanced,
    set_local_float-IsBalanced,
  )
