-- ===== src/Debugger/Session.antt =====
-- `run` of runtime/debugger.py: the loop of runtime/vm.py with the hook in it.
pub mod Transparent
pub mod Quiet
--C
use quin_lang.Prelude.{
  Bool, Option, Result, err, false, if◌then◌else◌, none, ok, pos, some, suc, true, zero, ℕ, ℤ,
}
use quin_lang.Program.{CompiledProgram}
use quin_lang.Vm.Machine.{
  Fault, Setup, Vm, encode_error, index_error, key_error, out_of_fuel, overflow_error, type_error,
  zero_division,
}
use quin_lang.Debugger.{StopReason, request_pause}
use quin_lang.Vm.Run.{in_code, prepare, step}
use quin_lang.Debugger.Hook.{FrontEnd, Interrupt, Session, on_instruction, stop_here}

-- what a run may end with in place of an exit value
pub data Failure (E : Type 0) : Type 0 where
  fault : Fault → Failure E
  interrupt : Interrupt E → Failure E

abbrev pub Outcome : Type 0 → Type 0 → Type 0 → Type 0
Outcome E W S = Option (Result (Failure E) ℤ × Session W S)

module _ {E W S : Type 0} where
  -- the loop goes on with the instruction where the hook raised nothing
  unfoldable pub after_hook :
      (Session W S → Outcome E W S) → Result (Interrupt E) (Unit {0}) × Session W S → Outcome E W S
  after_hook go (ok u, s) = go s
  after_hook go (err e, s) = some (err (interrupt e), s)

  unfoldable pub after_instruction :
      (Session W S → Outcome E W S) → Session W S → Result Fault (Option ℤ) × Vm W → Outcome E W S
  after_instruction go s (ok none, vm) = go (record s { vm = vm })
  after_instruction go s (ok (some code), vm) = some (ok code, record s { vm = vm })
  after_instruction go s (err e, vm) = some (err (fault e), record s { vm = vm })

-- another thread called `pause` since the last instruction, or did not
unfoldable pub asked : {W S : Type 0} → Bool → Session W S → Session W S
asked false s = s
asked true s = record s { dbg = request_pause s.dbg }

module _ {F E W S : Type 0} (setup : Setup F W) (program : CompiledProgram)
    (on_stop : FrontEnd E W S) (pauses : ℕ → Bool) where
  -- `_run` with the hook, for so many rounds; `pauses n` tells whether a pause is asked for before
  -- the round that has n left behind it
  unfoldable pub debug_loop : ℕ → Session W S → Outcome E W S
  debug_loop zero s = none
  debug_loop (suc fuel) s = elim (in_code setup s.vm) [
    | false ↦ some (ok (pos 0), s)
    | true ↦
        after_hook (λ s'. after_instruction (debug_loop fuel) s' (step setup s'.vm))
          (on_instruction program on_stop (asked (pauses fuel) s))
  ]

-- the faults that are a VMError
unfoldable pub is_vm_error : Fault → Bool
is_vm_error index_error = false
is_vm_error type_error = false
is_vm_error overflow_error = false
is_vm_error key_error = false
is_vm_error encode_error = false
is_vm_error zero_division = false
is_vm_error out_of_fuel = false
is_vm_error _ = true

module _ {F E W S : Type 0} (setup : Setup F W) (program : CompiledProgram)
    (on_stop : FrontEnd E W S) (pauses : ℕ → Bool) where
  -- raise, unless the stop raised something else
  unfoldable pub reraise :
      Fault → Result (Interrupt E) (Unit {0}) × Session W S → Result (Failure E) ℤ × Session W S
  reraise e (ok u, s) = (err (fault e), s)
  reraise e (err i, s) = (err (interrupt i), s)

  -- the `except VMError` of `run`
  unfoldable pub on_fault : Result (Failure E) ℤ × Session W S → Result (Failure E) ℤ × Session W S
  on_fault (err (fault e), s) =
      if is_vm_error e
      then reraise e (stop_here program on_stop StopReason.fault none (some e) s)
      else (err (fault e), s)
  on_fault (r, s) = (r, s)

  unfoldable pub after_prepared :
      (Session W S → Outcome E W S) → Session W S → Result Fault (Unit {0}) × Vm W → Outcome E W S
  after_prepared go s (ok u, vm) = go (record s { vm = vm })
  after_prepared go s (err e, vm) = some (err (fault e), record s { vm = vm })

  -- `run`, with the loop cut off after so many rounds
  unfoldable pub debug_run : ℕ → Session W S → Outcome E W S
  debug_run fuel s =
      elim (after_prepared (debug_loop setup program on_stop pauses fuel) s (prepare setup s.vm)) [
        | none ↦ none
        | some r ↦ some (on_fault r)
      ]
