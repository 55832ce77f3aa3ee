-- ===== src/Vm/Balance/Rounds.antt =====
-- The balance of the stacks over the dispatch and the loop of runtime/vm.py.
use quin_lang.Vm.Balance.Allocs.{collect-IsBalanced}
use quin_lang.Vm.Balance.Objects.{
  exec_alloc-IsBalanced, exec_alloc_typed-IsBalanced, exec_array_get-IsBalanced,
  exec_array_len-IsBalanced, exec_array_set-IsBalanced, exec_heap_load-IsBalanced,
  exec_heap_load_field-IsBalanced, exec_heap_load_field_f-IsBalanced, exec_heap_store-IsBalanced,
  exec_heap_store_field-IsBalanced, exec_heap_store_field_f-IsBalanced,
  exec_load_variant-IsBalanced, exec_new_array-IsBalanced, exec_tag_of-IsBalanced,
}
use quin_lang.Vm.Ops.Streams.{newline}
use quin_lang.Vm.Balance.Streams.{
  exec_argc-IsBalanced, exec_argv-IsBalanced, exec_file_delete-IsBalanced,
  exec_file_error-IsBalanced, exec_file_exists-IsBalanced, exec_file_read-IsBalanced,
  exec_file_read_bytes-IsBalanced, exec_file_write-IsBalanced, exec_file_write_bytes-IsBalanced,
  exec_panic-IsBalanced, exec_print_float-IsBalanced, exec_print_int-IsBalanced,
  exec_print_str-IsBalanced, exec_read_line-IsBalanced,
}
use quin_lang.Vm.Balance.Reals.{
  exec_f_from_int-IsBalanced, exec_f_to_int-IsBalanced, exec_fcmp-IsBalanced, exec_fdiv-IsBalanced,
  exec_float_op-IsBalanced, exec_fneg-IsBalanced, exec_load_local_f-IsBalanced,
  exec_push_float-IsBalanced, exec_store_local_f-IsBalanced,
}
use quin_lang.Vm.Balance.Texts.{
  exec_load_str-IsBalanced, exec_str_char_at-IsBalanced, exec_str_cmp-IsBalanced,
  exec_str_concat-IsBalanced, exec_str_from_char-IsBalanced, exec_str_from_float-IsBalanced,
  exec_str_from_int-IsBalanced, exec_str_len-IsBalanced, exec_str_slice-IsBalanced,
}
use quin_lang.Vm.Ops.Integers.{eq, ge, gt, le, lt, ne}
use quin_lang.Vm.Balance.Slots.{
  exec_bounds_check-IsBalanced, exec_load_indirect-IsBalanced, exec_load_local-IsBalanced,
  exec_load_local_idx-IsBalanced, exec_memcpy_locals-IsBalanced, exec_memset_locals-IsBalanced,
  exec_store_indirect-IsBalanced, exec_store_local-IsBalanced, exec_store_local_idx-IsBalanced,
}
use quin_lang.Vm.Balance.Calls.{enter_function-IsBalanced, exec_ret-IsBalanced}
use quin_lang.Vm.Balance.Integers.{
  exec_add-IsBalanced, exec_and-IsBalanced, exec_bitnot-IsBalanced, exec_cmp-IsBalanced,
  exec_div-IsBalanced, exec_dup-IsBalanced, exec_jmp-IsBalanced, exec_jnz-IsBalanced,
  exec_jz-IsBalanced, exec_mod-IsBalanced, exec_mul-IsBalanced, exec_neg-IsBalanced,
  exec_not-IsBalanced, exec_or-IsBalanced, exec_pop-IsBalanced, exec_push_int-IsBalanced,
  exec_shl-IsBalanced, exec_shr-IsBalanced, exec_sub-IsBalanced, exec_swap-IsBalanced,
  exec_xor-IsBalanced,
}
use quin_lang.Vm.Keeps.{
  Keeps, Keeps-bind, Keeps-gets, Keeps-lift, Keeps-modify, Keeps-operand, Keeps-pure,
}
use quin_lang.Bytecode.OpCode.{OpCode}
use quin_lang.Program.{FunctionInfo}
use quin_lang.Vm.Balance.{IsBalanced, pop-IsBalanced}
use quin_lang.Vm.Run.{
  after_step, dispatch, exec_call, exec_call_indirect, in_code, proceed, run, step,
}
use quin_lang.Vm.Machine.{Exec, Fault, Setup, Vm}
use quin_lang.Prelude.{
  Bool, List, Option, Result, [], err, false, none, ok, pos, some, suc, true, zero, ℕ, ℤ,
}

module _ {W : Type 0} where
  proceed-IsBalanced :
      (m : Exec W (Unit {0})) → Keeps IsBalanced m → Keeps {W = W} IsBalanced (proceed m)
  unfolding proceed
  proceed-IsBalanced m k = Keeps-bind _ _ k (λ u. Keeps-pure none)

  exec_call-IsBalanced :
      (functions : List FunctionInfo) (arg : Option ℤ)
      → Keeps {W = W} IsBalanced (exec_call functions arg)
  unfolding exec_call
  exec_call-IsBalanced functions arg =
      Keeps-bind _ _ (Keeps-operand arg) (enter_function-IsBalanced functions)

  exec_call_indirect-IsBalanced :
      (functions : List FunctionInfo) → Keeps {W = W} IsBalanced (exec_call_indirect functions)
  unfolding exec_call_indirect
  exec_call_indirect-IsBalanced functions =
      Keeps-bind _ _ pop-IsBalanced (λ fn. enter_function-IsBalanced functions (pos fn))

-- what holds of the machine in which a run ended
abbrev pub Ended : {W : Type 0} → Option (Result Fault ℤ × Vm W) → Type 0
Ended none = Unit
Ended (some r) = IsBalanced r.1

module _ {F W : Type 0} (setup : Setup F W) where
  -- Every opcode, whether it goes on, ends the program or raises, leaves the stacks balanced.
  pub dispatch-IsBalanced :
      (op : OpCode) (arg : Option ℤ) → Keeps {W = W} IsBalanced (dispatch setup op arg)
  unfolding dispatch
  dispatch-IsBalanced OpCode.push_int arg = proceed-IsBalanced _ (exec_push_int-IsBalanced arg)
  dispatch-IsBalanced OpCode.load_local arg =
      proceed-IsBalanced _ (exec_load_local-IsBalanced setup.functions arg)
  dispatch-IsBalanced OpCode.store_local arg =
      proceed-IsBalanced _ (exec_store_local-IsBalanced arg)
  dispatch-IsBalanced OpCode.add arg = proceed-IsBalanced _ (exec_add-IsBalanced)
  dispatch-IsBalanced OpCode.sub arg = proceed-IsBalanced _ (exec_sub-IsBalanced)
  dispatch-IsBalanced OpCode.mul arg = proceed-IsBalanced _ (exec_mul-IsBalanced)
  dispatch-IsBalanced OpCode.div arg = proceed-IsBalanced _ (exec_div-IsBalanced)
  dispatch-IsBalanced OpCode.modulo arg = proceed-IsBalanced _ (exec_mod-IsBalanced)
  dispatch-IsBalanced OpCode.xor arg = proceed-IsBalanced _ (exec_xor-IsBalanced)
  dispatch-IsBalanced OpCode.and arg = proceed-IsBalanced _ (exec_and-IsBalanced)
  dispatch-IsBalanced OpCode.or arg = proceed-IsBalanced _ (exec_or-IsBalanced)
  dispatch-IsBalanced OpCode.shl arg = proceed-IsBalanced _ (exec_shl-IsBalanced)
  dispatch-IsBalanced OpCode.shr arg = proceed-IsBalanced _ (exec_shr-IsBalanced)
  dispatch-IsBalanced OpCode.neg arg = proceed-IsBalanced _ (exec_neg-IsBalanced)
  dispatch-IsBalanced OpCode.cmp_eq arg = proceed-IsBalanced _ (exec_cmp-IsBalanced eq)
  dispatch-IsBalanced OpCode.cmp_ne arg = proceed-IsBalanced _ (exec_cmp-IsBalanced ne)
  dispatch-IsBalanced OpCode.cmp_lt arg = proceed-IsBalanced _ (exec_cmp-IsBalanced lt)
  dispatch-IsBalanced OpCode.cmp_le arg = proceed-IsBalanced _ (exec_cmp-IsBalanced le)
  dispatch-IsBalanced OpCode.cmp_gt arg = proceed-IsBalanced _ (exec_cmp-IsBalanced gt)
  dispatch-IsBalanced OpCode.cmp_ge arg = proceed-IsBalanced _ (exec_cmp-IsBalanced ge)
  dispatch-IsBalanced OpCode.load_str arg = proceed-IsBalanced _ (exec_load_str-IsBalanced arg)
  dispatch-IsBalanced OpCode.str_cmp arg = proceed-IsBalanced _ (exec_str_cmp-IsBalanced)
  dispatch-IsBalanced OpCode.str_len arg = proceed-IsBalanced _ (exec_str_len-IsBalanced)
  dispatch-IsBalanced OpCode.str_char_at arg = proceed-IsBalanced _ (exec_str_char_at-IsBalanced)
  dispatch-IsBalanced OpCode.str_concat arg =
      proceed-IsBalanced _ (exec_str_concat-IsBalanced setup)
  dispatch-IsBalanced OpCode.str_slice arg = proceed-IsBalanced _ (exec_str_slice-IsBalanced setup)
  dispatch-IsBalanced OpCode.str_from_int arg =
      proceed-IsBalanced _ (exec_str_from_int-IsBalanced setup)
  dispatch-IsBalanced OpCode.str_from_char arg =
      proceed-IsBalanced _ (exec_str_from_char-IsBalanced setup)
  dispatch-IsBalanced OpCode.push_float arg = proceed-IsBalanced _ (exec_push_float-IsBalanced arg)
  dispatch-IsBalanced OpCode.load_local_f arg =
      proceed-IsBalanced _ (exec_load_local_f-IsBalanced setup.floats arg)
  dispatch-IsBalanced OpCode.store_local_f arg =
      proceed-IsBalanced _ (exec_store_local_f-IsBalanced setup.floats arg)
  dispatch-IsBalanced OpCode.fadd arg =
      proceed-IsBalanced _ (exec_float_op-IsBalanced setup.floats (setup.floats).add)
  dispatch-IsBalanced OpCode.fsub arg =
      proceed-IsBalanced _ (exec_float_op-IsBalanced setup.floats (setup.floats).sub)
  dispatch-IsBalanced OpCode.fmul arg =
      proceed-IsBalanced _ (exec_float_op-IsBalanced setup.floats (setup.floats).mul)
  dispatch-IsBalanced OpCode.fdiv arg = proceed-IsBalanced _ (exec_fdiv-IsBalanced setup.floats)
  dispatch-IsBalanced OpCode.fneg arg = proceed-IsBalanced _ (exec_fneg-IsBalanced setup.floats)
  dispatch-IsBalanced OpCode.fcmp arg = proceed-IsBalanced _ (exec_fcmp-IsBalanced setup.floats)
  dispatch-IsBalanced OpCode.f_from_int arg =
      proceed-IsBalanced _ (exec_f_from_int-IsBalanced setup.floats)
  dispatch-IsBalanced OpCode.f_to_int arg =
      proceed-IsBalanced _ (exec_f_to_int-IsBalanced setup.floats)
  dispatch-IsBalanced OpCode.str_from_float arg =
      proceed-IsBalanced _ (exec_str_from_float-IsBalanced setup)
  dispatch-IsBalanced OpCode.print_float arg =
      proceed-IsBalanced _ (exec_print_float-IsBalanced setup [])
  dispatch-IsBalanced OpCode.println_float arg =
      proceed-IsBalanced _ (exec_print_float-IsBalanced setup newline)
  dispatch-IsBalanced OpCode.not arg = proceed-IsBalanced _ (exec_not-IsBalanced)
  dispatch-IsBalanced OpCode.bitnot arg = proceed-IsBalanced _ (exec_bitnot-IsBalanced)
  dispatch-IsBalanced OpCode.jmp arg = proceed-IsBalanced _ (exec_jmp-IsBalanced arg)
  dispatch-IsBalanced OpCode.jz arg = proceed-IsBalanced _ (exec_jz-IsBalanced arg)
  dispatch-IsBalanced OpCode.jnz arg = proceed-IsBalanced _ (exec_jnz-IsBalanced arg)
  dispatch-IsBalanced OpCode.call arg =
      proceed-IsBalanced _ (exec_call-IsBalanced setup.functions arg)
  dispatch-IsBalanced OpCode.ret arg = exec_ret-IsBalanced
  dispatch-IsBalanced OpCode.load_local_idx arg =
      proceed-IsBalanced _ (exec_load_local_idx-IsBalanced arg)
  dispatch-IsBalanced OpCode.store_local_idx arg =
      proceed-IsBalanced _ (exec_store_local_idx-IsBalanced arg)
  dispatch-IsBalanced OpCode.bounds_check arg =
      proceed-IsBalanced _ (exec_bounds_check-IsBalanced arg)
  dispatch-IsBalanced OpCode.load_indirect arg =
      proceed-IsBalanced _ (exec_load_indirect-IsBalanced)
  dispatch-IsBalanced OpCode.store_indirect arg =
      proceed-IsBalanced _ (exec_store_indirect-IsBalanced)
  dispatch-IsBalanced OpCode.memcpy_locals arg =
      proceed-IsBalanced _ (exec_memcpy_locals-IsBalanced)
  dispatch-IsBalanced OpCode.memset_locals arg =
      proceed-IsBalanced _ (exec_memset_locals-IsBalanced)
  dispatch-IsBalanced OpCode.pop arg = proceed-IsBalanced _ (exec_pop-IsBalanced)
  dispatch-IsBalanced OpCode.dup arg = proceed-IsBalanced _ (exec_dup-IsBalanced)
  dispatch-IsBalanced OpCode.swap arg = proceed-IsBalanced _ (exec_swap-IsBalanced)
  dispatch-IsBalanced OpCode.print_int arg =
      proceed-IsBalanced _ (exec_print_int-IsBalanced setup [])
  dispatch-IsBalanced OpCode.print_str arg =
      proceed-IsBalanced _ (exec_print_str-IsBalanced setup [])
  dispatch-IsBalanced OpCode.println_int arg =
      proceed-IsBalanced _ (exec_print_int-IsBalanced setup newline)
  dispatch-IsBalanced OpCode.println_str arg =
      proceed-IsBalanced _ (exec_print_str-IsBalanced setup newline)
  dispatch-IsBalanced OpCode.alloc arg = proceed-IsBalanced _ (exec_alloc-IsBalanced setup)
  dispatch-IsBalanced OpCode.alloc_typed arg =
      proceed-IsBalanced _ (exec_alloc_typed-IsBalanced setup arg)
  dispatch-IsBalanced OpCode.heap_load arg = proceed-IsBalanced _ (exec_heap_load-IsBalanced)
  dispatch-IsBalanced OpCode.heap_store arg = proceed-IsBalanced _ (exec_heap_store-IsBalanced)
  dispatch-IsBalanced OpCode.heap_load_field arg =
      proceed-IsBalanced _ (exec_heap_load_field-IsBalanced setup.structs arg)
  dispatch-IsBalanced OpCode.heap_store_field arg =
      proceed-IsBalanced _ (exec_heap_store_field-IsBalanced arg)
  dispatch-IsBalanced OpCode.heap_load_field_f arg =
      proceed-IsBalanced _ (exec_heap_load_field_f-IsBalanced setup.floats arg)
  dispatch-IsBalanced OpCode.heap_store_field_f arg =
      proceed-IsBalanced _ (exec_heap_store_field_f-IsBalanced setup.floats arg)
  dispatch-IsBalanced OpCode.gc arg = proceed-IsBalanced _ (collect-IsBalanced setup)
  dispatch-IsBalanced OpCode.panic arg = proceed-IsBalanced _ (exec_panic-IsBalanced)
  dispatch-IsBalanced OpCode.tag_of arg = proceed-IsBalanced _ (exec_tag_of-IsBalanced)
  dispatch-IsBalanced OpCode.load_variant arg =
      proceed-IsBalanced _ (exec_load_variant-IsBalanced arg)
  dispatch-IsBalanced OpCode.read_line arg = proceed-IsBalanced _ (exec_read_line-IsBalanced setup)
  dispatch-IsBalanced OpCode.argc arg = proceed-IsBalanced _ (exec_argc-IsBalanced setup)
  dispatch-IsBalanced OpCode.argv arg = proceed-IsBalanced _ (exec_argv-IsBalanced setup)
  dispatch-IsBalanced OpCode.call_indirect arg =
      proceed-IsBalanced _ (exec_call_indirect-IsBalanced setup.functions)
  dispatch-IsBalanced OpCode.new_array arg =
      proceed-IsBalanced _ (exec_new_array-IsBalanced setup arg)
  dispatch-IsBalanced OpCode.array_len arg = proceed-IsBalanced _ (exec_array_len-IsBalanced)
  dispatch-IsBalanced OpCode.array_get arg = proceed-IsBalanced _ (exec_array_get-IsBalanced)
  dispatch-IsBalanced OpCode.array_set arg = proceed-IsBalanced _ (exec_array_set-IsBalanced)
  dispatch-IsBalanced OpCode.file_read arg = proceed-IsBalanced _ (exec_file_read-IsBalanced setup)
  dispatch-IsBalanced OpCode.file_write arg =
      proceed-IsBalanced _ (exec_file_write-IsBalanced setup false)
  dispatch-IsBalanced OpCode.file_append arg =
      proceed-IsBalanced _ (exec_file_write-IsBalanced setup true)
  dispatch-IsBalanced OpCode.file_exists arg =
      proceed-IsBalanced _ (exec_file_exists-IsBalanced setup)
  dispatch-IsBalanced OpCode.file_delete arg =
      proceed-IsBalanced _ (exec_file_delete-IsBalanced setup)
  dispatch-IsBalanced OpCode.file_error arg =
      proceed-IsBalanced _ (exec_file_error-IsBalanced setup)
  dispatch-IsBalanced OpCode.file_read_bytes arg =
      proceed-IsBalanced _ (exec_file_read_bytes-IsBalanced setup)
  dispatch-IsBalanced OpCode.file_write_bytes arg =
      proceed-IsBalanced _ (exec_file_write_bytes-IsBalanced setup)

  pub step-IsBalanced : Keeps {W = W} IsBalanced (step setup)
  unfolding step
  step-IsBalanced = Keeps-bind _ _ (Keeps-gets _) (λ at.
      Keeps-bind _ _ (Keeps-lift _)
        (λ i. Keeps-bind _ _ (Keeps-modify _ (λ vm h. h)) (λ u. dispatch-IsBalanced i.op i.arg)))

  after_step-Ended :
      (go : Vm W → Option (Result Fault ℤ × Vm W)) (r : Result Fault (Option ℤ) × Vm W)
      → ((vm : Vm W) → IsBalanced vm → Ended (go vm))
      → IsBalanced r.1
      → Ended (after_step go r)
  unfolding after_step
  after_step-Ended go (ok none, vm) k h = k vm h
  after_step-Ended go (ok (some code), vm) k h = h
  after_step-Ended go (err e, vm) k h = h

  round-Ended :
      (b : Bool) (go : Vm W → Option (Result Fault ℤ × Vm W)) (vm : Vm W)
      → ((vm' : Vm W) → IsBalanced vm' → Ended (go vm'))
      → IsBalanced vm
      → Ended (elim b [ false ↦ some (ok (pos 0), vm) | true ↦ after_step go (step setup vm) ])
  round-Ended false go vm k h = h
  round-Ended true go vm k h = after_step-Ended go (step setup vm) k (step-IsBalanced.at vm h)

  -- Where a run that starts balanced ends, with an exit code or with a fault, the machine is balanced.
  pub run-IsBalanced : (fuel : ℕ) (vm : Vm W) → IsBalanced vm → Ended (run setup fuel vm)
  unfolding run
  run-IsBalanced zero vm h = tt
  run-IsBalanced (suc fuel) vm h =
      round-Ended (in_code setup vm) (run setup fuel) vm (run-IsBalanced fuel) h
