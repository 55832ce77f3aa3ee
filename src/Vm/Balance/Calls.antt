-- ===== src/Vm/Balance/Calls.antt =====
-- The balance of the stacks over `_enter_function` and `RET` of runtime/vm.py.
use quin_lang.Vm.Balance.Moves.{move_rules}
use quin_lang.Vm.Balance.{IsBalanced, IsNested, pop-IsBalanced}
use quin_lang.Vm.Machine.{Exec, Fault, Frame, Vm, gets, modify, pure, refuse, ◌>>=◌, ◌>>◌}
use quin_lang.Program.{FunctionInfo}
use quin_lang.Vm.Keeps.{Keeps, Keeps-bind, Keeps-modify, Keeps-pure, Keeps-require}
use quin_lang.Vm.Operands.{pop_both, push_raw}
use quin_lang.Vm.Calls.{enter_function, entered, exec_ret, pop_args, resume_caller}
use quin_lang.Prelude.{
  Bool, List, [], arith, false, length, map, not, pos_part, refl, reverse, subst, suc, sym, true,
  zero, ℕ, ℤ, ◌+◌, ◌==◌, ◌∷◌, ◌≡◌, ◌≤◌,
}

module _ {W : Type 0} where
  pop_args-IsBalanced : (n : ℕ) → Keeps {W = W} IsBalanced (pop_args n)
  unfolding pop_args
  pop_args-IsBalanced zero = search move_rules
  pop_args-IsBalanced (suc n) =
      Keeps-bind _ _ pop-IsBalanced
        (λ v. Keeps-bind _ _ (pop_args-IsBalanced n) (λ vs. Keeps-pure _))

  entered-IsBalanced :
      (id : ℕ) (fn : FunctionInfo) (args : List ℕ) (vm : Vm W)
      → IsBalanced vm
      → IsBalanced (entered id fn args vm)
  unfolding entered
  entered-IsBalanced id fn args vm h = (h.0, omega arith, (h.1, h.2))

  pub enter_function-IsBalanced :
      (functions : List FunctionInfo) (id : ℤ)
      → Keeps {W = W} IsBalanced (enter_function functions id)
  unfolding enter_function
  enter_function-IsBalanced functions id = Keeps-bind _ _ (Keeps-require _ _) (λ fn.
      Keeps-bind _ _ (pop_args-IsBalanced _)
        (λ args. Keeps-modify _ (entered-IsBalanced (pos_part id) fn (reverse args))))

  resume_caller-IsBalanced :
      (frames : List Frame) (v : ℕ) (b : Bool) (vm : Vm W)
      → length vm.stack ≡ length vm.stack_is_ref
      → vm.frame_base ≤ length vm.stack
      → IsNested vm.frame_base (map (λ f. f.stack_base) frames)
      → vm.call_stack ≡ frames
      → IsBalanced (resume_caller frames v b vm).1
  unfolding resume_caller pure modify push_raw ◌>>=◌
  resume_caller-IsBalanced [] v b vm e h n c =
      (e, h, subst (λ fs. IsNested vm.frame_base (map (λ f. f.stack_base) fs)) (sym c) n)
  resume_caller-IsBalanced (f ∷ fs) v b vm e h n c = (omega arith, omega arith, n.1)

  refuse-Keeps :
      {A : Type 0} (P : Vm W → Type 0) (b : Bool) (e : Fault) (k : Exec W A) (vm : Vm W)
      → P vm
      → (b ≡ false → P (k vm).1)
      → P ((refuse b e >> k) vm).1
  unfolding refuse ◌>>=◌
  refuse-Keeps P true e k vm p h = p
  refuse-Keeps P false e k vm p h = h refl

  exec_ret_at :
      (vm : Vm W) (stack : List ℕ) (flags : List Bool)
      → IsBalanced (record vm { stack = stack; stack_is_ref = flags })
      → IsBalanced (exec_ret (record vm { stack = stack; stack_is_ref = flags })).1
  unfolding exec_ret pop_both gets refuse modify pure ◌>>=◌
  exec_ret_at vm [] flags h = ground arith
  exec_ret_at vm (v ∷ s) [] h = ground arith
  exec_ret_at vm (v ∷ s) (b ∷ bs) h =
      refuse-Keeps IsBalanced (not (suc (length s) == vm.frame_base + 1)) _ _
        (record vm { stack = v ∷ s; stack_is_ref = b ∷ bs }) h
        (λ e.
          resume_caller-IsBalanced vm.call_stack v b (record vm { stack = s; stack_is_ref = bs })
            (omega (arith, h.0)) (ground arith) h.2 refl)

  pub exec_ret-IsBalanced : Keeps {W = W} IsBalanced exec_ret
  exec_ret-IsBalanced = record { at = λ vm h. exec_ret_at vm vm.stack vm.stack_is_ref h }
