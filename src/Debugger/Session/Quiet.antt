-- ===== src/Debugger/Session/Quiet.antt =====
-- The loop of runtime/vm.py under a debugger that has nothing to stop for.
use quin_lang.Prelude.{
  Bool, Option, Result, arith, err, false, none, ok, pos, refl, some, suc, true, zero, ℕ, ℤ, ◌≡◌,
}
use quin_lang.Program.{CompiledProgram}
use quin_lang.Vm.Machine.{Fault, Setup, Vm}
use quin_lang.Debugger.{Debugger, Mode}
use quin_lang.Debugger.Session.{Outcome, after_hook, after_instruction, asked, debug_loop, fault}
use quin_lang.Vm.Run.{after_step, in_code, run, step}
use quin_lang.Debugger.Hook.{FrontEnd, Session, enabled_at, hook_mode, on_instruction}

-- No pause is asked for, no breakpoint is enabled and the mode is RUN.
pub record IsQuiet (d : Debugger) : Type 0 where
  pub unasked : d.pause_requested ≡ false
  pub disabled : (at : ℤ) → enabled_at d at ≡ none
  pub running : d.mode ≡ some Mode.run

-- an outcome of the machine alone as one of the session
abbrev pub beside : {E W S : Type 0} → Session W S → Option (Result Fault ℤ × Vm W) → Outcome E W S
beside s none = none
beside s (some (ok code, vm)) = some (ok code, record s { vm = vm })
beside s (some (err e, vm)) = some (err (fault e), record s { vm = vm })

module _ {E W S : Type 0} (program : CompiledProgram) (on_stop : FrontEnd E W S) where
  on_instruction-IsQuiet :
      (s : Session W S) → IsQuiet s.dbg → on_instruction program on_stop s ≡ (ok tt, s)
  unfolding on_instruction hook_mode
  on_instruction-IsQuiet s q = ground (arith, q.unasked, q.disabled s.vm.pc, q.running)

module _ {F E W S : Type 0} (setup : Setup F W) (program : CompiledProgram)
    (on_stop : FrontEnd E W S) where
  instruction-beside :
      (fuel : ℕ) (s : Session W S) (x : Result Fault (Option ℤ) × Vm W)
      → ((vm : Vm W)
          → debug_loop setup program on_stop (λ n. false) fuel (record s { vm = vm })
            ≡ beside s (run setup fuel vm))
      → after_instruction (debug_loop setup program on_stop (λ n. false) fuel) s x
        ≡ beside s (after_step (run setup fuel) x)
  unfolding after_instruction after_step
  instruction-beside fuel s (ok none, vm) go = go vm
  instruction-beside fuel s (ok (some code), vm) go = refl
  instruction-beside fuel s (err e, vm) go = refl

  round-beside :
      (b : Bool) (fuel : ℕ) (s : Session W S)
      → IsQuiet s.dbg
      → ((vm : Vm W)
          → debug_loop setup program on_stop (λ n. false) fuel (record s { vm = vm })
            ≡ beside s (run setup fuel vm))
      → elim b as (λ x. Outcome E W S) [
        | false ↦ some (ok (pos 0), s)
        | true ↦
            after_hook
              (λ s'.
                after_instruction
                  (debug_loop setup program on_stop (λ n. false) fuel)
                  s'
                  (step setup s'.vm))
              (on_instruction program on_stop (asked false s))
      ]
        ≡ beside s (elim b [
          | false ↦ some (ok (pos 0), s.vm)
          | true ↦ after_step (run setup fuel) (step setup s.vm)
        ])
  unfolding after_hook asked
  round-beside false fuel s q go = refl
  round-beside true fuel s q go =
      rw (on_instruction-IsQuiet program on_stop s q)
        (instruction-beside fuel s (step setup s.vm) go)

  -- Where no breakpoint is enabled, no pause is asked for and the mode is RUN, the loop under the
  -- debugger is the loop alone: it takes the same rounds, ends with the same exit value or fault in
  -- the same state, or is cut off with it, and neither the debugger nor the front end changes.
  pub debug_loop-IsQuiet :
      (fuel : ℕ) (s : Session W S)
      → IsQuiet s.dbg
      → debug_loop setup program on_stop (λ n. false) fuel s ≡ beside s (run setup fuel s.vm)
  unfolding debug_loop run
  debug_loop-IsQuiet zero s q = refl
  debug_loop-IsQuiet (suc fuel) s q =
      round-beside (in_code setup s.vm) fuel s q
        (λ vm. debug_loop-IsQuiet fuel (record s { vm = vm }) q)
