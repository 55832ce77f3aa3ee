-- ===== src/Vm/Balance.antt =====
-- The balance of the two stacks of runtime/vm.py, and what pushing and popping do to it.
pub mod Moves
pub mod Allocs
pub mod Reading
pub mod Integers
pub mod Reals
pub mod Texts
pub mod Slots
pub mod Objects
pub mod Streams
pub mod Calls
pub mod Rounds
use quin_lang.Vm.Collect.Shape.{IsAlike}
use quin_lang.Vm.Words.{to_word}
use quin_lang.Program.{FunctionInfo}
use quin_lang.Prelude.{Bool, List, [], ap, arith, length, map, subst, sym, ℕ, ℤ, ◌∙◌, ◌∷◌, ◌≡◌, ◌≤◌}
use quin_lang.Vm.Machine.{Vm, gets, pure, refuse, ◌>>=◌}
use quin_lang.Vm.Operands.{at_base, pop, pop_both, pop_tagged, push, push_raw}
use quin_lang.Vm.Keeps.{Keeps}

-- Each frame began at a stack height at or above that of its caller.
abbrev pub IsNested : ℕ → List ℕ → Type 0
IsNested base [] = Unit
IsNested base (b ∷ bs) = (b ≤ base) × IsNested b bs

-- `stack_is_ref` is as long as `stack`, the stack reaches up to the base of the current frame, and the
-- bases of the suspended frames are nested below it.
abbrev pub IsBalanced : {W : Type 0} → Vm W → Type 0
IsBalanced vm =
    (length vm.stack ≡ length vm.stack_is_ref)
    × (vm.frame_base ≤ length vm.stack)
    × IsNested vm.frame_base (map (λ f. f.stack_base) vm.call_stack)

module _ {W : Type 0} where
  pub push_raw-IsBalanced : (v : ℕ) (b : Bool) → Keeps {W = W} IsBalanced (push_raw v b)
  unfolding push_raw
  push_raw-IsBalanced v b = record { at = λ vm h. (omega arith, omega arith, h.2) }

  pub push-IsBalanced : (v : ℤ) (b : Bool) → Keeps {W = W} IsBalanced (push v b)
  unfolding push
  push-IsBalanced v b = push_raw-IsBalanced (to_word v) b

  pub pop_tagged-IsBalanced : Keeps {W = W} IsBalanced pop_tagged
  unfolding pop_tagged pop_both at_base refuse gets pure ◌>>=◌
  pop_tagged-IsBalanced = record { at = λ vm h. ground arith }

  pub pop-IsBalanced : Keeps {W = W} IsBalanced pop
  unfolding pop at_base refuse gets pure ◌>>=◌
  pop-IsBalanced = record { at = λ vm h. ground arith }

-- Balance is seen in the parts that a collection leaves alone.
pub IsAlike-IsBalanced :
    {W : Type 0} (functions : List FunctionInfo) (old vm : Vm W)
    → IsAlike functions old vm
    → IsBalanced old
    → IsBalanced vm
IsAlike-IsBalanced functions old vm a h = (
  a.4 ∙ h.0 ∙ ap length (sym a.3),
  subst (λ n. n ≤ length vm.stack) (sym a.2) (subst (λ n. old.frame_base ≤ n) (sym a.4) h.1),
  subst (λ bs. IsNested vm.frame_base bs) (sym (a.5).0)
      (subst (λ b. IsNested b (map (λ f. f.stack_base) old.call_stack)) (sym a.2) h.2),
)
