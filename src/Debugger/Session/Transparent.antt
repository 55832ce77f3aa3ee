-- ===== src/Debugger/Session/Transparent.antt =====
-- The machine under the debugger of runtime/debugger.py beside the machine alone.
use quin_lang.Debugger.Session.{
  Failure, Outcome, after_hook, after_instruction, asked, debug_loop, fault, interrupt,
}
use quin_lang.Vm.Run.{after_step, in_code, run, step}
use quin_lang.Prelude.{
  Bool, List, Option, Result, [], ap, arith, err, false, if◌then◌else◌, none, ok, pos, refl, some,
  some-injective, subst, suc, sym, true, zero, ℕ, ℤ, ◌∙◌, ◌∷◌, ◌≡◌,
}
use quin_lang.Program.{CompiledProgram}
use quin_lang.Vm.Machine.{Fault, Setup, Vm}
use quin_lang.Debugger.{Debugger, FrameView, Mode, StopReason, finish, step_in, step_over}
use quin_lang.Debugger.Hook.{
  FrontEnd, Interrupt, Session, after_callback, enabled_at, frames, hit, hook_mode, hook_step,
  on_instruction, stop, stop_here, stop_in,
}

module _ {E W S : Type 0} (program : CompiledProgram) (on_stop : FrontEnd E W S) where
  vm-after_callback :
      (s : Session W S) (r : Result E (Unit {0}) × (Debugger × S))
      → (after_callback s r).1.vm ≡ s.vm
  unfolding after_callback
  vm-after_callback s (ok u, (d, f)) = refl
  vm-after_callback s (err e, (d, f)) = refl

  vm-stop_in :
      (reason : StopReason) (bp : Option ℕ) (error : Option Fault) (s : Session W S)
      (r : Result ℕ (List FrameView))
      → (stop_in program on_stop reason bp error s r).1.vm ≡ s.vm
  unfolding stop_in stop
  vm-stop_in reason bp error s (ok (f ∷ fs)) = vm-after_callback s _
  vm-stop_in reason bp error s (ok []) = refl
  vm-stop_in reason bp error s (err e) = refl

  pub vm-stop_here :
      (reason : StopReason) (bp : Option ℕ) (error : Option Fault) (s : Session W S)
      → (stop_here program on_stop reason bp error s).1.vm ≡ s.vm
  unfolding stop_here
  vm-stop_here reason bp error s = vm-stop_in reason bp error s (frames program s.vm)

  vm-hook_step : (s : Session W S) → (hook_step program on_stop s).1.vm ≡ s.vm
  unfolding hook_step
  vm-hook_step s = ground (arith, vm-stop_here StopReason.step none none s)

  vm-hook_mode : (m : Option Mode) (s : Session W S) → (hook_mode program on_stop m s).1.vm ≡ s.vm
  unfolding hook_mode
  vm-hook_mode none s = vm-hook_step s
  vm-hook_mode (some Mode.run) s = refl
  vm-hook_mode (some Mode.entry) s = vm-stop_here StopReason.entry none none s
  vm-hook_mode (some step_in) s = vm-hook_step s
  vm-hook_mode (some step_over) s = vm-hook_step s
  vm-hook_mode (some finish) s = vm-hook_step s

  pub vm-on_instruction : (s : Session W S) → (on_instruction program on_stop s).1.vm ≡ s.vm
  unfolding on_instruction
  vm-on_instruction s =
      elim s.dbg.pause_requested
        as (λ b.
          (if b
            then stop_here program on_stop StopReason.pause none none
                (record s { dbg = record s.dbg { pause_requested = false } })
            else elim (enabled_at s.dbg s.vm.pc) [
              | some r ↦
                  stop_here program on_stop StopReason.breakpoint (some r) none
                    (record s { dbg = hit r s.dbg })
              | none ↦ hook_mode program on_stop s.dbg.mode s
            ]).1.vm
          ≡ s.vm) [
            | true ↦ vm-stop_here StopReason.pause none none _
            | false ↦ at_pc (enabled_at s.dbg s.vm.pc)
          ]
    where
      at_pc :
          (o : Option ℕ)
          → (elim o as (λ x. Result (Interrupt E) (Unit {0}) × Session W S) [
            | some r ↦
                stop_here program on_stop StopReason.breakpoint
                  (some r)
                  none
                  (record s { dbg = hit r s.dbg })
            | none ↦ hook_mode program on_stop s.dbg.mode s
          ]).1.vm
            ≡ s.vm
      at_pc none = vm-hook_mode s.dbg.mode s
      at_pc (some r) = vm-stop_here StopReason.breakpoint (some r) none _

vm-asked : {W S : Type 0} (b : Bool) (s : Session W S) → (asked b s).vm ≡ s.vm
unfolding asked
vm-asked false s = refl
vm-asked true s = refl

module _ {F W : Type 0} (setup : Setup F W) where
  -- The machine alone comes from the first state to the second.
  pub data Reaches : Vm W → Vm W → Type 0 where
    here : (vm : Vm W) → Reaches vm vm
    next :
        (vm vm' vm'' : Vm W)
        → in_code setup vm ≡ true
        → step setup vm ≡ (ok none, vm')
        → Reaches vm' vm''
        → Reaches vm vm''

module _ {F E W S : Type 0} (setup : Setup F W) where
  -- The outcome under the debugger against that of the machine alone: the same exit value or fault in
  -- the same state, or an interruption in a state that the machine alone comes through.
  abbrev pub Agrees :
      Vm W → Option (Result Fault ℤ × Vm W) → Result (Failure E) ℤ × Session W S → Type 0
  Agrees start alone (ok code, s) = alone ≡ some (ok code, s.vm)
  Agrees start alone (err (fault e), s) = alone ≡ some (err e, s.vm)
  Agrees start alone (err (interrupt i), s) = Reaches setup start s.vm

  Agrees-next :
      (vm vm' : Vm W) (alone : Option (Result Fault ℤ × Vm W))
      (r : Result (Failure E) ℤ × Session W S)
      → in_code setup vm ≡ true
      → step setup vm ≡ (ok none, vm')
      → Agrees vm' alone r
      → Agrees vm alone r
  Agrees-next vm vm' alone (ok code, s) c e h = h
  Agrees-next vm vm' alone (err (fault f), s) c e h = h
  Agrees-next vm vm' alone (err (interrupt i), s) c e h = next vm vm' s.vm c e h

module _ {F E W S : Type 0} (setup : Setup F W) (program : CompiledProgram)
    (on_stop : FrontEnd E W S) (pauses : ℕ → Bool) where
  instruction-Agrees :
      (fuel : ℕ) (vm : Vm W) (s : Session W S) (x : Result Fault (Option ℤ) × Vm W)
      (r : Result (Failure E) ℤ × Session W S)
      → in_code setup vm ≡ true
      → step setup vm ≡ x
      → ((s' : Session W S)
          → debug_loop setup program on_stop pauses fuel s' ≡ some r
          → Agrees setup s'.vm (run setup fuel s'.vm) r)
      → after_instruction (debug_loop setup program on_stop pauses fuel) s x ≡ some r
      → Agrees setup vm (after_step (run setup fuel) x) r
  unfolding after_instruction after_step
  instruction-Agrees fuel vm s (ok none, vm') r c e go h =
      Agrees-next setup vm vm' _ r c e (go (record s { vm = vm' }) h)
  instruction-Agrees fuel vm s (ok (some code), vm') r c e go h =
      subst (λ o. Agrees setup vm (some (ok code, vm')) o) (some-injective h) refl
  instruction-Agrees fuel vm s (err f, vm') r c e go h =
      subst (λ o. Agrees setup vm (some (err f, vm')) o) (some-injective h) refl

  hook-Agrees :
      (fuel : ℕ) (vm : Vm W) (x : Result (Interrupt E) (Unit {0}) × Session W S)
      (r : Result (Failure E) ℤ × Session W S)
      → in_code setup vm ≡ true
      → x.1.vm ≡ vm
      → ((s' : Session W S)
          → debug_loop setup program on_stop pauses fuel s' ≡ some r
          → Agrees setup s'.vm (run setup fuel s'.vm) r)
      → after_hook
          (λ s'.
            after_instruction (debug_loop setup program on_stop pauses fuel) s' (step setup s'.vm))
          x
        ≡ some r
      → Agrees setup vm (after_step (run setup fuel) (step setup vm)) r
  unfolding after_hook
  hook-Agrees fuel vm (ok u, s) r c e go h =
      subst (λ v. Agrees setup v (after_step (run setup fuel) (step setup v)) r) e
        (instruction-Agrees fuel s.vm s (step setup s.vm) r (ap (in_code setup) e ∙ c) refl go h)
  hook-Agrees fuel vm (err i, s) r c e go h =
      subst (λ o. Agrees setup vm (after_step (run setup fuel) (step setup vm)) o)
        (some-injective h) (subst (λ v. Reaches setup vm v) (sym e) (here vm))

  round-Agrees :
      (fuel : ℕ) (s : Session W S) (r : Result (Failure E) ℤ × Session W S) (b : Bool)
      → in_code setup s.vm ≡ b
      → ((s' : Session W S)
          → debug_loop setup program on_stop pauses fuel s' ≡ some r
          → Agrees setup s'.vm (run setup fuel s'.vm) r)
      → elim b as (λ x. Outcome E W S) [
        | false ↦ some (ok (pos 0), s)
        | true ↦
            after_hook
              (λ s'.
                after_instruction
                  (debug_loop setup program on_stop pauses fuel)
                  s'
                  (step setup s'.vm))
              (on_instruction program on_stop (asked (pauses fuel) s))
      ]
        ≡ some r
      → Agrees setup s.vm
          (elim b [
            | false ↦ some (ok (pos 0), s.vm)
            | true ↦ after_step (run setup fuel) (step setup s.vm)
          ])
          r
  round-Agrees fuel s r false c go h =
      subst (λ o. Agrees setup s.vm (some (ok (pos 0), s.vm)) o) (some-injective h) refl
  round-Agrees fuel s r true c go h =
      hook-Agrees fuel s.vm _ r c
        (vm-on_instruction program on_stop (asked (pauses fuel) s) ∙ vm-asked (pauses fuel) s) go h

  -- Whatever the front end does and whenever a pause is asked for: if the loop under the debugger ends
  -- within so many rounds, then the machine alone ends within as many, with the same exit value or
  -- fault in the same state; if it is interrupted, the machine alone comes through the state in which
  -- it was interrupted.
  pub debug_loop-run :
      (fuel : ℕ) (s : Session W S) (r : Result (Failure E) ℤ × Session W S)
      → debug_loop setup program on_stop pauses fuel s ≡ some r
      → Agrees setup s.vm (run setup fuel s.vm) r
  unfolding debug_loop run
  debug_loop-run zero s r h = cc
  debug_loop-run (suc fuel) s r h =
      round-Agrees fuel s r (in_code setup s.vm) refl (λ s'. debug_loop-run fuel s' r) h
