-- ===== src/Debugger.antt =====
-- The class `Debugger` of runtime/debugger.py: its state, and in the modules below its breakpoints,
-- the hook it puts into the loop of the machine, and the values that it shows.
pub mod Layout
pub mod Breakpoints
pub mod Hook
pub mod Session
pub mod Values
pub mod Tests
use quin_lang.Prelude.{Bool, List, Option, [], false, none, pos, some, true, ℕ, ℤ}
use quin_lang.Program.{Text}
use quin_lang.Vm.Machine.{Fault}

pub data Mode : Type 0 where
  run entry step_in step_over finish : Mode

pub data StopReason : Type 0 where
  entry breakpoint step pause fault : StopReason

pub record Breakpoint : Type 0 where
  pub id : ℕ
  pub pc : ℕ
  pub function : Text
  pub file : Text
  pub line : ℕ
  pub enabled : Bool
  pub hits : ℕ

abbrev pub no_breakpoint : Breakpoint
no_breakpoint = record {
  id = 0;
  pc = 0;
  function = [];
  file = [];
  line = 0;
  enabled = false;
  hits = 0;
}

-- `locals` is the list that the frame has at the time of the stop.
pub record FrameView : Type 0 where
  pub depth : ℕ
  pub fn_index : ℕ
  pub function : Text
  pub file : Text
  pub pc : ℤ
  pub line : Option ℕ
  pub col : Option ℕ
  pub locals : List ℕ

-- The breakpoint is a reference to its object; the error is the fault before `_locate` words it.
pub record Stop : Type 0 where
  pub reason : StopReason
  pub frame : FrameView
  pub breakpoint : Option ℕ
  pub error : Option Fault

-- `breakpoints` and `by_pc` share their objects: both map to references into `objects`, of which the
-- first `allocated` have been made.
pub record Debugger : Type 0 where
  pub objects : ℕ → Breakpoint
  pub allocated : ℕ
  pub breakpoints : List (ℕ × ℕ)
  pub by_pc : List (ℕ × ℕ)
  pub next_id : ℕ
  pub mode : Option Mode
  pub from_line : Option ℕ
  pub from_depth : ℤ
  pub pause_requested : Bool

-- what `__init__` leaves
abbrev pub new : Debugger
new = record {
  objects = λ r. no_breakpoint;
  allocated = 0;
  breakpoints = [];
  by_pc = [];
  next_id = 1;
  mode = some Mode.entry;
  from_line = none;
  from_depth = pos 0;
  pause_requested = false;
}

-- DebuggerError, with a constructor for each message; the exceptions that a malformed table can
-- cause; and a search of the model that was cut off.
pub data DebugError : Type 0 where
  no_function : Text → DebugError
  no_source_file : Text → DebugError
  no_code : ℕ → Text → DebugError
  unknown_breakpoint : ℕ → DebugError
  bad_index bad_key cut_off : DebugError

-- `d.pause()`
unfoldable pub request_pause : Debugger → Debugger
request_pause d = record d { pause_requested = true }
