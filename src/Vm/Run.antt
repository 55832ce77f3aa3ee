-- ===== src/Vm/Run.antt =====
-- The interpreter loop of runtime/vm.py: the dispatch of `_run`, the loop itself, `run_main` and the
-- frames that a fault is reported with.
use quin_lang.Prelude.{
  Bool, List, Option, Result, [], err, false, get_elem?, if◌then◌else◌, length, ltb, ltb_ℤ, map,
  negsuc, none, ok, pos, replicate, same_name, some, suc, true, zero, ℕ, ℤ, ◌+ℤ◌, ◌+◌, ◌-ℤ◌, ◌-◌,
  ◌∷◌,
}
use quin_lang.Program.{FunctionInfo, Instruction, Text}
use quin_lang.Bytecode.OpCode.{OpCode}
use quin_lang.Vm.Machine.{
  Exec, Fault, Setup, Vm, gets, index_error, lift, modify, no_main, operand, pure, require, ◌>>=◌,
  ◌>>◌,
}
use quin_lang.Vm.Operands.{pop}
use quin_lang.Vm.Calls.{enter_function, exec_ret}
use quin_lang.Vm.Ops.Integers.{
  eq, exec_add, exec_and, exec_bitnot, exec_cmp, exec_div, exec_dup, exec_jmp, exec_jnz, exec_jz,
  exec_mod, exec_mul, exec_neg, exec_not, exec_or, exec_pop, exec_push_int, exec_shl, exec_shr,
  exec_sub, exec_swap, exec_xor, ge, gt, le, lt, ne,
}
use quin_lang.Vm.Ops.Reals.{
  exec_f_from_int, exec_f_to_int, exec_fcmp, exec_fdiv, exec_float_op, exec_fneg, exec_load_local_f,
  exec_push_float, exec_store_local_f,
}
use quin_lang.Vm.Ops.Texts.{
  exec_load_str, exec_str_char_at, exec_str_cmp, exec_str_concat, exec_str_from_char,
  exec_str_from_float, exec_str_from_int, exec_str_len, exec_str_slice,
}
use quin_lang.Vm.Ops.Slots.{
  exec_bounds_check, exec_load_indirect, exec_load_local, exec_load_local_idx, exec_memcpy_locals,
  exec_memset_locals, exec_store_indirect, exec_store_local, exec_store_local_idx,
}
use quin_lang.Vm.Ops.Objects.{
  exec_alloc, exec_alloc_typed, exec_array_get, exec_array_len, exec_array_set, exec_heap_load,
  exec_heap_load_field, exec_heap_load_field_f, exec_heap_store, exec_heap_store_field,
  exec_heap_store_field_f, exec_load_variant, exec_new_array, exec_tag_of,
}
use quin_lang.Vm.Ops.Streams.{
  exec_argc, exec_argv, exec_file_delete, exec_file_error, exec_file_exists, exec_file_read,
  exec_file_read_bytes, exec_file_write, exec_file_write_bytes, exec_panic, exec_print_float,
  exec_print_int, exec_print_str, exec_read_line, newline,
}
use quin_lang.Vm.Collect.{collect}
use quin_lang.Vm.Alloc.{materialise_literals, materialise_variants}

module _ {W : Type 0} where
  -- A branch that goes on with the next instruction; `RET` alone can end the loop.
  unfoldable pub proceed : Exec W (Unit {0}) → Exec W (Option ℤ)
  proceed m = do m; pure none

  -- `CALL`
  unfoldable pub exec_call : List FunctionInfo → Option ℤ → Exec W (Unit {0})
  exec_call functions arg = do fn ← operand arg; enter_function functions fn

  -- `CALL_INDIRECT`: the function index is on top of the arguments
  unfoldable pub exec_call_indirect : List FunctionInfo → Exec W (Unit {0})
  exec_call_indirect functions = do fn ← pop; enter_function functions (pos fn)

-- what the loop does with the outcome of a round
unfoldable pub after_step :
    {W : Type 0}
    → (Vm W → Option (Result Fault ℤ × Vm W))
    → Result Fault (Option ℤ) × Vm W
    → Option (Result Fault ℤ × Vm W)
after_step go (ok none, vm) = go vm
after_step go (ok (some code), vm) = some (ok code, vm)
after_step go (err e, vm) = some (err e, vm)

module _ {F W : Type 0} (setup : Setup F W) where
  -- the if-chain on `op`
  unfoldable pub dispatch : OpCode → Option ℤ → Exec W (Option ℤ)
  dispatch OpCode.push_int arg = proceed (exec_push_int arg)
  dispatch OpCode.load_local arg = proceed (exec_load_local setup.functions arg)
  dispatch OpCode.store_local arg = proceed (exec_store_local arg)
  dispatch OpCode.add arg = proceed (exec_add)
  dispatch OpCode.sub arg = proceed (exec_sub)
  dispatch OpCode.mul arg = proceed (exec_mul)
  dispatch OpCode.div arg = proceed (exec_div)
  dispatch OpCode.modulo arg = proceed (exec_mod)
  dispatch OpCode.xor arg = proceed (exec_xor)
  dispatch OpCode.and arg = proceed (exec_and)
  dispatch OpCode.or arg = proceed (exec_or)
  dispatch OpCode.shl arg = proceed (exec_shl)
  dispatch OpCode.shr arg = proceed (exec_shr)
  dispatch OpCode.neg arg = proceed (exec_neg)
  dispatch OpCode.cmp_eq arg = proceed (exec_cmp eq)
  dispatch OpCode.cmp_ne arg = proceed (exec_cmp ne)
  dispatch OpCode.cmp_lt arg = proceed (exec_cmp lt)
  dispatch OpCode.cmp_le arg = proceed (exec_cmp le)
  dispatch OpCode.cmp_gt arg = proceed (exec_cmp gt)
  dispatch OpCode.cmp_ge arg = proceed (exec_cmp ge)
  dispatch OpCode.load_str arg = proceed (exec_load_str arg)
  dispatch OpCode.str_cmp arg = proceed (exec_str_cmp)
  dispatch OpCode.str_len arg = proceed (exec_str_len)
  dispatch OpCode.str_char_at arg = proceed (exec_str_char_at)
  dispatch OpCode.str_concat arg = proceed (exec_str_concat setup)
  dispatch OpCode.str_slice arg = proceed (exec_str_slice setup)
  dispatch OpCode.str_from_int arg = proceed (exec_str_from_int setup)
  dispatch OpCode.str_from_char arg = proceed (exec_str_from_char setup)
  dispatch OpCode.push_float arg = proceed (exec_push_float arg)
  dispatch OpCode.load_local_f arg = proceed (exec_load_local_f setup.floats arg)
  dispatch OpCode.store_local_f arg = proceed (exec_store_local_f setup.floats arg)
  dispatch OpCode.fadd arg = proceed (exec_float_op setup.floats (setup.floats).add)
  dispatch OpCode.fsub arg = proceed (exec_float_op setup.floats (setup.floats).sub)
  dispatch OpCode.fmul arg = proceed (exec_float_op setup.floats (setup.floats).mul)
  dispatch OpCode.fdiv arg = proceed (exec_fdiv setup.floats)
  dispatch OpCode.fneg arg = proceed (exec_fneg setup.floats)
  dispatch OpCode.fcmp arg = proceed (exec_fcmp setup.floats)
  dispatch OpCode.f_from_int arg = proceed (exec_f_from_int setup.floats)
  dispatch OpCode.f_to_int arg = proceed (exec_f_to_int setup.floats)
  dispatch OpCode.str_from_float arg = proceed (exec_str_from_float setup)
  dispatch OpCode.print_float arg = proceed (exec_print_float setup [])
  dispatch OpCode.println_float arg = proceed (exec_print_float setup newline)
  dispatch OpCode.not arg = proceed (exec_not)
  dispatch OpCode.bitnot arg = proceed (exec_bitnot)
  dispatch OpCode.jmp arg = proceed (exec_jmp arg)
  dispatch OpCode.jz arg = proceed (exec_jz arg)
  dispatch OpCode.jnz arg = proceed (exec_jnz arg)
  dispatch OpCode.call arg = proceed (exec_call setup.functions arg)
  dispatch OpCode.ret arg = exec_ret
  dispatch OpCode.load_local_idx arg = proceed (exec_load_local_idx arg)
  dispatch OpCode.store_local_idx arg = proceed (exec_store_local_idx arg)
  dispatch OpCode.bounds_check arg = proceed (exec_bounds_check arg)
  dispatch OpCode.load_indirect arg = proceed (exec_load_indirect)
  dispatch OpCode.store_indirect arg = proceed (exec_store_indirect)
  dispatch OpCode.memcpy_locals arg = proceed (exec_memcpy_locals)
  dispatch OpCode.memset_locals arg = proceed (exec_memset_locals)
  dispatch OpCode.pop arg = proceed (exec_pop)
  dispatch OpCode.dup arg = proceed (exec_dup)
  dispatch OpCode.swap arg = proceed (exec_swap)
  dispatch OpCode.print_int arg = proceed (exec_print_int setup [])
  dispatch OpCode.print_str arg = proceed (exec_print_str setup [])
  dispatch OpCode.println_int arg = proceed (exec_print_int setup newline)
  dispatch OpCode.println_str arg = proceed (exec_print_str setup newline)
  dispatch OpCode.alloc arg = proceed (exec_alloc setup)
  dispatch OpCode.alloc_typed arg = proceed (exec_alloc_typed setup arg)
  dispatch OpCode.heap_load arg = proceed (exec_heap_load)
  dispatch OpCode.heap_store arg = proceed (exec_heap_store)
  dispatch OpCode.heap_load_field arg = proceed (exec_heap_load_field setup.structs arg)
  dispatch OpCode.heap_store_field arg = proceed (exec_heap_store_field arg)
  dispatch OpCode.heap_load_field_f arg = proceed (exec_heap_load_field_f setup.floats arg)
  dispatch OpCode.heap_store_field_f arg = proceed (exec_heap_store_field_f setup.floats arg)
  dispatch OpCode.gc arg = proceed (collect setup)
  dispatch OpCode.panic arg = proceed (exec_panic)
  dispatch OpCode.tag_of arg = proceed (exec_tag_of)
  dispatch OpCode.load_variant arg = proceed (exec_load_variant arg)
  dispatch OpCode.read_line arg = proceed (exec_read_line setup)
  dispatch OpCode.argc arg = proceed (exec_argc setup)
  dispatch OpCode.argv arg = proceed (exec_argv setup)
  dispatch OpCode.call_indirect arg = proceed (exec_call_indirect setup.functions)
  dispatch OpCode.new_array arg = proceed (exec_new_array setup arg)
  dispatch OpCode.array_len arg = proceed (exec_array_len)
  dispatch OpCode.array_get arg = proceed (exec_array_get)
  dispatch OpCode.array_set arg = proceed (exec_array_set)
  dispatch OpCode.file_read arg = proceed (exec_file_read setup)
  dispatch OpCode.file_write arg = proceed (exec_file_write setup false)
  dispatch OpCode.file_append arg = proceed (exec_file_write setup true)
  dispatch OpCode.file_exists arg = proceed (exec_file_exists setup)
  dispatch OpCode.file_delete arg = proceed (exec_file_delete setup)
  dispatch OpCode.file_error arg = proceed (exec_file_error setup)
  dispatch OpCode.file_read_bytes arg = proceed (exec_file_read_bytes setup)
  dispatch OpCode.file_write_bytes arg = proceed (exec_file_write_bytes setup)

  -- code[self.pc]: a negative pc counts from the end, as an index of a list does
  unfoldable pub fetch : ℤ → Result Fault Instruction
  fetch (pos n) = elim (get_elem? setup.code n) [ some i ↦ ok i | none ↦ err index_error ]
  fetch (negsuc n) =
      if ltb n (length setup.code)
      then elim (get_elem? setup.code (length setup.code - (n + 1))) [
        | some i ↦ ok i
        | none ↦ err index_error
      ]
      else err index_error

  -- one round of the loop behind its test: fetch, advance, dispatch
  unfoldable pub step : Exec W (Option ℤ)
  step = do
    at ← gets (λ vm. vm.pc)
    i ← lift (fetch at)
    modify (λ vm. record vm { pc = at +ℤ pos 1 })
    dispatch i.op i.arg

  -- self.pc < len(code)
  unfoldable pub in_code : Vm W → Bool
  in_code vm = ltb_ℤ vm.pc (pos (length setup.code))

  -- `_run` for so many rounds: `none` while the program is still running
  unfoldable pub run : ℕ → Vm W → Option (Result Fault ℤ × Vm W)
  run zero vm = none
  run (suc fuel) vm = elim (in_code vm) [
    | false ↦ some (ok (pos 0), vm)
    | true ↦ after_step (run fuel) (step vm)
  ]

-- self.func_index[name]: of functions with one name, the last
function_named : Text → ℕ → List FunctionInfo → Option ℕ
unfolding same_name
function_named name i [] = none
function_named name i (f ∷ fs) = elim (function_named name (i + 1) fs) [
  | some j ↦ some j
  | none ↦ if same_name f.name name then some i else none
]

-- the loop is entered only where `prepare` raised nothing
after_prepare :
    {W : Type 0}
    → (Vm W → Option (Result Fault ℤ × Vm W))
    → Result Fault (Unit {0}) × Vm W
    → Option (Result Fault ℤ × Vm W)
after_prepare go (ok u, vm) = go vm
after_prepare go (err e, vm) = some (err e, vm)

-- "main"
abbrev pub main_name : Text
main_name = b'm' ∷ b'a' ∷ b'i' ∷ b'n' ∷ []

module _ {F W : Type 0} (setup : Setup F W) where
  -- the state in which `main` starts
  unfoldable pub enter_main : ℕ → FunctionInfo → Vm W → Vm W
  enter_main index fn vm = record vm {
    locals = replicate fn.num_locals 0;
    current_fn = index;
    pc = pos fn.entry_pc;
    frame_base = 0;
  }

  -- everything in `run_main` before the loop
  unfoldable pub prepare : Exec W (Unit {0})
  unfolding function_named
  prepare = do
    index ← require (function_named main_name 0 setup.functions) no_main
    materialise_literals setup
    materialise_variants setup
    fn ← require (get_elem? setup.functions index) index_error
    modify (enter_main index fn)

  -- `run_main`, with its loop cut off after so many rounds
  unfoldable pub run_main : ℕ → Vm W → Option (Result Fault ℤ × Vm W)
  unfolding after_prepare
  run_main fuel vm = after_prepare (run setup fuel) (prepare vm)

-- `_call_frames`: the faulting function and its callers, each with the pc of its own instruction
unfoldable pub call_frames : {W : Type 0} → Vm W → List (ℕ × ℤ)
call_frames vm =
    (vm.current_fn, vm.pc -ℤ pos 1) ∷ map (λ f. (f.fn_index, f.return_pc -ℤ pos 1)) vm.call_stack
