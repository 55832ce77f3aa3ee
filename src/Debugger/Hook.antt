-- ===== src/Debugger/Hook.antt =====
-- The hook of runtime/debugger.py that the loop of the machine calls before each instruction, and
-- `resume`, by which a front end answers a stop.
use quin_lang.Prelude.{
  Bool, List, Option, Result, [], eqb_ℤ, err, false, get_elem?, get_key, if◌then◌else◌, length,
  ltb_ℤ, map, negsuc, none, not, ok, pos, same_name, some, str_ℕ, true, ℕ, ℤ, ◌&&◌, ◌++◌, ◌+◌, ◌-ℤ◌,
  ◌==◌, ◌>>=◌, ◌||◌, ◌∷◌,
}
use quin_lang.Program.{CompiledProgram, FunctionInfo, LocalInfo, Text}
use quin_lang.Bytecode.SourceMap.{Position}
use quin_lang.Vm.Machine.{Fault, Vm}
use quin_lang.Debugger.{Debugger, FrameView, Mode, Stop, StopReason, finish, step_over}
use quin_lang.Debugger.Layout.{lookup_pc}
use quin_lang.Debugger.Breakpoints.{write_object}

-- What the hook may raise: an IndexError of the source map, ResumeNotChosen, and an exception of the
-- front end.
pub data Interrupt (E : Type 0) : Type 0 where
  map_index : Interrupt E
  not_chosen : Interrupt E
  raised : E → Interrupt E

-- The machine under the debugger, and the state of the front end.
pub record Session (W S : Type 0) : Type 0 where
  pub vm : Vm W
  pub dbg : Debugger
  pub front : S

-- on_stop: it reads the machine, and changes the debugger and its own state
abbrev pub FrontEnd : Type 0 → Type 0 → Type 0 → Type 0
FrontEnd E W S = Stop → Vm W → Debugger → S → Result E (Unit {0}) × (Debugger × S)

unfoldable pub line_of : Option Position → Option ℕ
line_of none = none
line_of (some (line, col)) = some line

unfoldable pub col_of : Option Position → Option ℕ
col_of none = none
col_of (some (line, col)) = some col

-- f"<function {fn_index}>"
abbrev pub unnamed : ℕ → Text
unnamed i =
    b'<' ∷ b'f' ∷ b'u' ∷ b'n' ∷ b'c' ∷ b't' ∷ b'i' ∷ b'o' ∷ b'n' ∷ 32 ∷ (str_ℕ i ++ b'>' ∷ [])

unfoldable pub name_and_file : List FunctionInfo → ℕ → Text × Text
name_and_file functions i = elim (get_elem? functions i) [
  | none ↦ (unnamed i, [])
  | some f ↦ (f.name, f.source_file)
]

unfoldable pub view : CompiledProgram → ℕ → ℕ × (ℤ × List ℕ) → Result ℕ FrameView
view program depth (i, (pc, slots)) = do
  found ← lookup_pc program.source_map pc
  ok (record {
    depth = depth;
    fn_index = i;
    function = (name_and_file program.functions i).0;
    file = (name_and_file program.functions i).1;
    pc = pc;
    line = line_of found;
    col = col_of found;
    locals = slots;
  })

unfoldable pub views : CompiledProgram → ℕ → List (ℕ × (ℤ × List ℕ)) → Result ℕ (List FrameView)
views program depth [] = ok []
views program depth (e ∷ es) = do
  v ← view program depth e
  vs ← views program (depth + 1) es
  ok (v ∷ vs)

-- `entries`: the current function, then the suspended callers from the innermost out
unfoldable pub entries : {W : Type 0} → Vm W → List (ℕ × (ℤ × List ℕ))
entries vm =
    (vm.current_fn, (vm.pc, vm.locals))
    ∷ map (λ f. (f.fn_index, (f.return_pc -ℤ pos 1, f.locals))) vm.call_stack

unfoldable pub frames : {W : Type 0} → CompiledProgram → Vm W → Result ℕ (List FrameView)
frames program vm = views program 0 (entries vm)

unfoldable pub locals_of : CompiledProgram → FrameView → List LocalInfo
locals_of program frame = elim (get_elem? program.functions frame.fn_index) [
  | none ↦ []
  | some f ↦ f.locals
]

unfoldable pub named : Text → List LocalInfo → List LocalInfo
named name [] = []
named name (l ∷ ls) = let rest = named name ls in if same_name l.name name then l ∷ rest else rest

unfoldable pub lookup_name : CompiledProgram → FrameView → Text → List LocalInfo
lookup_name program frame name = named name (locals_of program frame)

-- the assignments of `resume`, where the line is looked up last
unfoldable pub resume_at :
    Mode → ℤ → Debugger → Result ℕ (Option Position) → Result ℕ (Unit {0}) × Debugger
resume_at mode depth d (err e) = (err e, record d { mode = some mode; from_depth = depth })
resume_at mode depth d (ok found) =
    (ok tt, record d { mode = some mode; from_depth = depth; from_line = line_of found })

-- `resume`, which a front end calls
unfoldable pub resume :
    {W : Type 0} → CompiledProgram → Mode → Vm W → ℕ → Debugger → Result ℕ (Unit {0}) × Debugger
unfolding resume_at
resume program mode vm frame_depth d =
    resume_at mode (pos (length vm.call_stack) -ℤ pos frame_depth) d
      (lookup_pc program.source_map vm.pc)

-- line == self._from_line
unfoldable pub eq_line : Option ℕ → Option ℕ → Bool
eq_line none none = true
eq_line (some a) (some b) = a == b
eq_line none (some b) = false
eq_line (some a) none = false

-- whether a step ends here, at this depth and line
unfoldable pub should_stop : Option Mode → Debugger → ℤ → Option ℕ → Bool
should_stop (some finish) d depth line = ltb_ℤ depth d.from_depth
should_stop (some step_over) d depth line =
    ltb_ℤ depth d.from_depth || eqb_ℤ depth d.from_depth && not (eq_line line d.from_line)
should_stop _ d depth line = not (eqb_ℤ depth d.from_depth) || not (eq_line line d.from_line)

-- the check of `_stop` behind the callback
unfoldable pub answered : {E : Type 0} → Option Mode → Result (Interrupt E) (Unit {0})
answered none = err not_chosen
answered (some mode) = ok tt

module _ {E W S : Type 0} where
  unfoldable pub after_callback :
      Session W S
      → Result E (Unit {0}) × (Debugger × S)
      → Result (Interrupt E) (Unit {0}) × Session W S
  after_callback s (ok u, (d, f)) = (answered d.mode, record s { dbg = d; front = f })
  after_callback s (err e, (d, f)) = (err (raised e), record s { dbg = d; front = f })

module _ {E W S : Type 0} (program : CompiledProgram) (on_stop : FrontEnd E W S) where
  -- `_stop`
  unfoldable pub stop : Stop → Session W S → Result (Interrupt E) (Unit {0}) × Session W S
  stop why s = let d = record s.dbg { mode = none } in after_callback s (on_stop why s.vm d s.front)

  unfoldable pub stop_in :
      StopReason
      → Option ℕ
      → Option Fault
      → Session W S
      → Result ℕ (List FrameView)
      → Result (Interrupt E) (Unit {0}) × Session W S
  stop_in reason bp error s (ok (f ∷ fs)) =
      stop (record { reason = reason; frame = f; breakpoint = bp; error = error }) s
  stop_in reason bp error s _ = (err map_index, s)

  -- self._stop(vm, Stop(reason, self.frames(vm)[0], ...))
  unfoldable pub stop_here :
      StopReason
      → Option ℕ
      → Option Fault
      → Session W S
      → Result (Interrupt E) (Unit {0}) × Session W S
  stop_here reason bp error s = stop_in reason bp error s (frames program s.vm)

  -- the part of the hook behind the mode tests
  unfoldable pub hook_step : Session W S → Result (Interrupt E) (Unit {0}) × Session W S
  hook_step s = elim (lookup_pc program.source_map s.vm.pc) [
    | err e ↦ (err map_index, s)
    | ok found ↦
        if should_stop s.dbg.mode s.dbg (pos (length s.vm.call_stack)) (line_of found)
        then stop_here StopReason.step none none s
        else (ok tt, s)
  ]

  unfoldable pub hook_mode :
      Option Mode → Session W S → Result (Interrupt E) (Unit {0}) × Session W S
  hook_mode (some Mode.run) s = (ok tt, s)
  hook_mode (some Mode.entry) s = stop_here StopReason.entry none none s
  hook_mode _ s = hook_step s

-- self._by_pc.get(vm.pc), where it is enabled
unfoldable pub enabled_at : Debugger → ℤ → Option ℕ
enabled_at d (negsuc n) = none
enabled_at d (pos pc) = elim (get_key d.by_pc pc) [
  | none ↦ none
  | some r ↦ if (d.objects r).enabled then some r else none
]

-- bp.hits += 1
unfoldable pub hit : ℕ → Debugger → Debugger
hit r d = record d {
  objects = write_object d.objects r (record (d.objects r) { hits = (d.objects r).hits + 1 });
}

module _ {E W S : Type 0} (program : CompiledProgram) (on_stop : FrontEnd E W S) where
  -- `_on_instruction`
  unfoldable pub on_instruction : Session W S → Result (Interrupt E) (Unit {0}) × Session W S
  on_instruction s =
      if s.dbg.pause_requested
      then stop_here program on_stop StopReason.pause none none
          (record s { dbg = record s.dbg { pause_requested = false } })
      else elim (enabled_at s.dbg s.vm.pc) [
        | some r ↦
            stop_here program on_stop StopReason.breakpoint (some r) none
              (record s { dbg = hit r s.dbg })
        | none ↦ hook_mode program on_stop s.dbg.mode s
      ]
