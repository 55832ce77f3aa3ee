-- ===== src/Vm/Calls/Return.antt =====
-- `RET` after `_enter_function` in runtime/vm.py.
use quin_lang.Vm.Runs.{run_refuse}
use quin_lang.Program.{FunctionInfo}
use quin_lang.Vm.Operands.{pop_both, push_raw}
use quin_lang.Vm.Machine.{Vm, gets, modify, pure, ◌>>=◌}
use quin_lang.Vm.Calls.{entered, exec_ret, resume_caller}
use quin_lang.Prelude.{
  Bool, List, arith, false, length, none, not, ok, refl, suc, ℕ, ℤ, ◌+◌, ◌==◌, ◌∷◌, ◌≡◌,
}

test_false : (n : ℕ) → not (suc n == n + 1) ≡ false
test_false n = ground arith

module _ {W : Type 0} where
  -- A callee that returns with one value above what it found gives its caller the frame it had before
  -- the call, with that value and its tag pushed, whatever the callee did to the locals and the
  -- program counter.
  pub exec_ret-entered :
      (id : ℕ) (fn : FunctionInfo) (args : List ℕ) (vm : Vm W) (v : ℕ) (b : Bool) (locals : List ℕ)
      (pc : ℤ)
      → exec_ret (record (entered id fn args vm) {
        stack = v ∷ vm.stack;
        stack_is_ref = b ∷ vm.stack_is_ref;
        locals = locals;
        pc = pc;
      })
        ≡ (ok none, record vm { stack = v ∷ vm.stack; stack_is_ref = b ∷ vm.stack_is_ref })
  unfolding exec_ret gets pop_both resume_caller push_raw modify pure entered ◌>>=◌
  exec_ret-entered id fn args vm v b locals pc =
      (run_refuse (not (suc (length vm.stack) == length vm.stack + 1)) _ _
        (test_false (length vm.stack)) (record { at = refl })).at
