-- ===== src/Vm/Calls/Arguments.antt =====
-- How `_enter_function` of runtime/vm.py hands the arguments on the stack to the callee's locals.
use quin_lang.Vm.Operands.Stacked.{pop_run, stacked}
use quin_lang.Vm.Runs.{Runs, run_bind}
use quin_lang.Program.{FunctionInfo}
use quin_lang.Vm.Machine.{Fault, Vm, invalid_function, modify, pure, require}
use quin_lang.Vm.Words.{word_mod}
use quin_lang.Vm.Calls.{
  enter_function, entered, function_at, place_arg, place_args, pop_args, rest_of, width_of,
}
use quin_lang.Prelude.{
  Bool, Bool-cases, List, Option, [], ap, arith, get_or, inl, inr, length, length-append,
  length-replicate, length-set, ltb, none, ok, pos, pos_part, refl, replicate, reverse, set, some,
  subst, suc, zero, ℕ, ℤ, ◌%◌, ◌++◌, ◌+◌, ◌<◌, ◌==◌, ◌∙◌, ◌∷◌, ◌≡◌, ◌≤◌,
}
use quin_lang.Vm.Ops.Slots.Overlap.{get_or-set_ne, get_or-set_self}

-- every parameter that has a width is one word wide
abbrev pub IsNarrow : List ℕ → Type 0
IsNarrow [] = Unit
IsNarrow (w ∷ ws) = (w ≡ 1) × IsNarrow ws

width_of-IsNarrow : (widths : List ℕ) → IsNarrow widths → width_of widths ≡ 1
unfolding width_of
width_of-IsNarrow [] h = refl
width_of-IsNarrow (w ∷ ws) h = h.0

rest_of-IsNarrow : (widths : List ℕ) → IsNarrow widths → IsNarrow (rest_of widths)
unfolding rest_of
rest_of-IsNarrow [] h = tt
rest_of-IsNarrow (w ∷ ws) h = h.1

place_args-IsNarrow :
    (slot : ℕ) (widths : List ℕ) (v : ℕ) (vs locals : List ℕ)
    → IsNarrow widths
    → place_args slot widths (v ∷ vs) locals
      ≡ place_args (slot + 1) (rest_of widths) vs (set locals slot (v % word_mod))
unfolding place_args place_arg
place_args-IsNarrow slot widths v vs locals h = rw (width_of-IsNarrow widths h) refl

place_args_below :
    (slot : ℕ) (widths vs locals : List ℕ) (j : ℕ)
    → IsNarrow widths
    → j < slot
    → get_or (place_args slot widths vs locals) j 0 ≡ get_or locals j 0
unfolding place_args
place_args_below slot widths [] locals j h l = refl
place_args_below slot widths (v ∷ vs) locals j h l =
    ap (λ ls. get_or ls j 0) (place_args-IsNarrow slot widths v vs locals h)
    ∙ place_args_below (slot + 1) (rest_of widths) vs (set locals slot (v % word_mod)) j
        (rest_of-IsNarrow widths h) (omega arith)
    ∙ get_or-set_ne locals slot j _ (ground arith)

place_args_at :
    (slot : ℕ) (widths vs locals : List ℕ) (j : ℕ)
    → IsNarrow widths
    → slot + length vs ≤ length locals
    → j < length vs
    → get_or (place_args slot widths vs locals) (slot + j) 0 ≡ get_or vs j 0 % word_mod
place_args_at slot widths [] locals j h b l = elim l [ ]
place_args_at slot widths (v ∷ vs) locals zero h b l =
    ap (λ ls. get_or ls (slot + 0) 0) (place_args-IsNarrow slot widths v vs locals h)
    ∙ place_args_below (slot + 1) (rest_of widths) vs (set locals slot (v % word_mod)) (slot + 0)
        (rest_of-IsNarrow widths h) (omega arith)
    ∙ ap (λ i. get_or (set locals slot (v % word_mod)) i 0) (omega arith)
    ∙ get_or-set_self locals slot _ (omega arith)
place_args_at slot widths (v ∷ vs) locals (suc j) h b l =
    ap (λ ls. get_or ls (slot + suc j) 0) (place_args-IsNarrow slot widths v vs locals h)
    ∙ ap
        (λ i.
          get_or (place_args (slot + 1) (rest_of widths) vs (set locals slot (v % word_mod))) i 0)
        (omega arith)
    ∙ place_args_at (slot + 1) (rest_of widths) vs (set locals slot (v % word_mod)) j
        (rest_of-IsNarrow widths h) (omega (arith, length-set locals slot (v % word_mod)))
        (omega arith)

place_arg-length :
    (width slot v : ℕ) (locals : List ℕ) → length (place_arg width slot v locals) ≡ length locals
unfolding place_arg
place_arg-length width slot v locals = elim (Bool-cases (width == 2)) [
  | inr e ↦ rw e (length-set locals slot _)
  | inl e ↦ rw e (elim (Bool-cases (ltb (slot + 1) (length locals))) [
    | inl f ↦ rw f (length-set (set locals slot _) (slot + 1) _ ∙ length-set locals slot _)
    | inr f ↦ rw f refl
  ])
]

place_args-length :
    (slot : ℕ) (widths vs locals : List ℕ)
    → length (place_args slot widths vs locals) ≡ length locals
unfolding place_args
place_args-length slot widths [] locals = refl
place_args-length slot widths (v ∷ vs) locals =
    place_args-length (slot + width_of widths) (rest_of widths) vs
      (place_arg (width_of widths) slot v locals)
    ∙ place_arg-length (width_of widths) slot v locals

module _ {W : Type 0} where
  pop_args_run :
      (vm : Vm W) (vs s : List ℕ) (bs cs : List Bool)
      → length bs ≡ length vs
      → vm.frame_base ≤ length s
      → Runs (pop_args (length vs)) (stacked vm (vs ++ s) (bs ++ cs)) (ok vs, stacked vm s cs)
  unfolding pop_args pure
  pop_args_run vm [] s [] cs e h = record { at = refl }
  pop_args_run vm [] s (b ∷ bs) cs e h = absurd (ground arith)
  pop_args_run vm (v ∷ vs) s [] cs e h = absurd (ground arith)
  pop_args_run vm (v ∷ vs) s (b ∷ bs) cs e h =
      run_bind _ _ (pop_run vm v (vs ++ s) b (bs ++ cs) (omega (arith, length-append vs s, h)))
        (run_bind _ _ (pop_args_run vm vs s bs cs (omega arith) h) (record { at = refl }))

  require_run :
      {A : Type 0} (o : Option A) (e : Fault) (a : A) (vm : Vm W)
      → o ≡ some a
      → require o e vm ≡ (ok a, vm)
  unfolding require
  require_run none e a vm h = cc
  require_run (some b) e a vm h = cc

  -- A call of a function that the index names, with as many values on top of the frame's stack as it
  -- has parameters, takes those values off and goes to the entry of the function, on a frame that
  -- begins at what is left of the stack. The caller's pc, locals, base and function stand in a new
  -- frame above the suspended ones. Where the parameters are one word wide and the locals have room,
  -- the local of each parameter holds its argument, in the order they were pushed. The heap and the
  -- world are as they were.
  pub enter_function_lem :
      (functions : List FunctionInfo) (id : ℤ) (fn : FunctionInfo) (vm : Vm W) (vs s : List ℕ)
      (bs cs : List Bool)
      → function_at functions id ≡ some fn
      → length vs ≡ fn.num_params
      → length bs ≡ length vs
      → vm.frame_base ≤ length s
      → IsNarrow fn.param_words
      → length (reverse vs) ≤ fn.num_locals
      → (vm' : Vm W) × (enter_function functions id (stacked vm (vs ++ s) (bs ++ cs))
          ≡ (ok tt, vm'))
        × (vm'.stack ≡ s)
        × (vm'.stack_is_ref ≡ cs)
        × (vm'.pc ≡ pos fn.entry_pc)
        × (vm'.current_fn ≡ pos_part id)
        × (vm'.frame_base ≡ length s)
        × (vm'.call_stack
            ≡ record {
              return_pc = vm.pc;
              locals = vm.locals;
              stack_base = vm.frame_base;
              fn_index = vm.current_fn;
            }
              ∷ vm.call_stack)
        × (length vm'.locals ≡ fn.num_locals)
        × ((j : ℕ)
            → j < length (reverse vs)
            → get_or vm'.locals j 0 ≡ get_or (reverse vs) j 0 % word_mod)
        × (vm'.heap ≡ vm.heap)
        × (vm'.world ≡ vm.world)
  unfolding enter_function entered modify
  enter_function_lem functions id fn vm vs s bs cs f n b h w l = (
    entered (pos_part id) fn (reverse vs) (stacked vm s cs),
    (run_bind _ _ (record { at = require_run _ (invalid_function id) fn _ f })
        (run_bind _ _
          (subst (λ m. Runs (pop_args m) (stacked vm (vs ++ s) (bs ++ cs)) (ok vs, stacked vm s cs))
            n (pop_args_run vm vs s bs cs b h))
          (record { at = refl }))).at,
    refl,
    refl,
    refl,
    refl,
    refl,
    refl,
    place_args-length 0 fn.param_words (reverse vs) (replicate fn.num_locals 0)
        ∙ length-replicate fn.num_locals zero,
    λ j i.
        subst
          (λ m.
            get_or (place_args 0 fn.param_words (reverse vs) (replicate fn.num_locals 0)) m 0
            ≡ get_or (reverse vs) j 0 % word_mod)
          (omega arith)
          (place_args_at 0 fn.param_words (reverse vs) (replicate fn.num_locals 0) j w
            (omega (arith, l, length-replicate fn.num_locals zero)) i),
    refl,
    refl,
  )
