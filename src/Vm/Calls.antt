-- ===== src/Vm/Calls.antt =====
-- Calling and returning in runtime/vm.py: `_enter_function` and `RET`.
pub mod Return
pub mod Arguments
use quin_lang.Vm.Words.{to_signed, word_mod}
use quin_lang.Prelude.{
  Bool, List, Option, [], get_elem?, if◌then◌else◌, length, ltb, negsuc, none, not, pos, pos_part,
  replicate, set, some, suc, zero, ℕ, ℤ, ◌%◌, ◌+◌, ◌/◌, ◌==◌, ◌∷◌,
}
use quin_lang.Program.{FunctionInfo}
use quin_lang.Vm.Machine.{
  Exec, Frame, Vm, gets, invalid_function, modify, pure, refuse, require, unbalanced_stack, ◌>>=◌,
  ◌>>◌,
}
use quin_lang.Vm.Operands.{pop, pop_both, push_raw}
use mathlib.Core.List.{reverse}

unfoldable pub function_at : List FunctionInfo → ℤ → Option FunctionInfo
function_at functions (negsuc i) = none
function_at functions (pos i) = get_elem? functions i

-- fn.param_words[i] if i < len(fn.param_words) else 1, as the head of the widths that are left
unfoldable pub width_of : List ℕ → ℕ
width_of [] = 1
width_of (w ∷ ws) = w

unfoldable pub rest_of : List ℕ → List ℕ
rest_of [] = []
rest_of (w ∷ ws) = ws

-- one argument into its slot or two; what does not fit is dropped
unfoldable pub place_arg : ℕ → ℕ → ℕ → List ℕ → List ℕ
place_arg width slot v locals =
    if width == 2
    then (if ltb (slot + 1) (length locals)
        then set (set locals slot (v % word_mod)) (slot + 1) (v / word_mod % word_mod)
        else locals)
    else set locals slot (v % word_mod)

-- for i, v in enumerate(args)
unfoldable pub place_args : ℕ → List ℕ → List ℕ → List ℕ → List ℕ
unfolding width_of rest_of place_arg
place_args slot widths [] locals = locals
place_args slot widths (v ∷ vs) locals =
    place_args (slot + width_of widths) (rest_of widths) vs
      (place_arg (width_of widths) slot v locals)

module _ {W : Type 0} where
  -- [self._pop() for _ in range(n)], the last argument first
  unfoldable pub pop_args : ℕ → Exec W (List ℕ)
  pop_args zero = pure []
  pop_args (suc n) = do v ← pop; vs ← pop_args n; pure (v ∷ vs)

  -- the frame of the caller, and the callee's state
  unfoldable pub entered : ℕ → FunctionInfo → List ℕ → Vm W → Vm W
  entered fn_id fn args vm = record vm {
    call_stack =
        record {
          return_pc = vm.pc;
          locals = vm.locals;
          stack_base = vm.frame_base;
          fn_index = vm.current_fn;
        }
        ∷ vm.call_stack;
    current_fn = fn_id;
    locals = place_args 0 fn.param_words args (replicate fn.num_locals 0);
    frame_base = length vm.stack;
    pc = pos fn.entry_pc;
  }

  -- `_enter_function`
  unfoldable pub enter_function : List FunctionInfo → ℤ → Exec W (Unit {0})
  enter_function functions fn_id = do
    fn ← require (function_at functions fn_id) (invalid_function fn_id)
    args ← pop_args fn.num_params
    modify (entered (pos_part fn_id) fn (reverse args))

  -- back to the caller, or the exit code where there is none
  unfoldable pub resume_caller : List Frame → ℕ → Bool → Exec W (Option ℤ)
  resume_caller [] value is_ref = pure (some (to_signed value))
  resume_caller (frame ∷ frames) value is_ref = do
    modify (λ vm. record vm {
      call_stack = frames;
      locals = frame.locals;
      frame_base = frame.stack_base;
      current_fn = frame.fn_index;
      pc = frame.return_pc;
    })
    push_raw value is_ref
    pure none

  -- `RET`
  unfoldable pub exec_ret : Exec W (Option ℤ)
  exec_ret = do
    height ← gets (λ vm. length vm.stack)
    base ← gets (λ vm. vm.frame_base)
    refuse (not (height == base + 1)) (unbalanced_stack (base + 1) height)
    (value, is_ref) ← pop_both
    frames ← gets (λ vm. vm.call_stack)
    resume_caller frames value is_ref
