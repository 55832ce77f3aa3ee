-- ===== src/Debugger/Breakpoints.antt =====
-- Setting, clearing and switching breakpoints, in runtime/debugger.py.
pub mod Search
pub mod Entries
pub mod Line
pub mod Aliases
pub mod Reached
use quin_lang.Prelude.{
  Bool, List, Option, Result, [], del_key, err, false, get_elem?, get_key, if◌then◌else◌, ltb, none,
  ok, set_key, some, suc, true, zero, ℕ, ◌++◌, ◌+◌, ◌==◌, ◌>>=◌, ◌∷◌,
}
use quin_lang.Program.{CompiledProgram, FunctionInfo, Text}
use quin_lang.Bytecode.SourceMap.{Position, SourceMap, first_pc_on_line, lines_in, lookup, minimum}
use quin_lang.Debugger.{
  Breakpoint, DebugError, Debugger, bad_index, bad_key, cut_off, no_code, no_function,
  no_source_file, unknown_breakpoint,
}
use quin_lang.Debugger.Layout.{entry_file, first_named, function_ranges, functions_in_file, ordered}

-- a new object at a reference
unfoldable pub write_object : (ℕ → Breakpoint) → ℕ → Breakpoint → ℕ → Breakpoint
write_object objects r b q = if q == r then b else objects q

-- self.functions[i].name and .source_file
unfoldable pub named_at : List FunctionInfo → ℕ → Text × Text
named_at functions i = elim (get_elem? functions i) [
  | none ↦ ([], [])
  | some f ↦ (f.name, f.source_file)
]

unfoldable pub make_breakpoint : ℕ → ℕ → Text × Text → ℕ → Breakpoint
make_breakpoint id pc (name, file) line = record {
  id = id;
  pc = pc;
  function = name;
  file = file;
  line = line;
  enabled = true;
  hits = 0;
}

-- the part of `_add` that makes a breakpoint
unfoldable pub add_new : List FunctionInfo → ℕ → ℕ → ℕ → Debugger → ℕ × Debugger
add_new functions pc fn_index line d = (
  d.allocated,
  record d {
    objects =
        write_object d.objects d.allocated
          (make_breakpoint d.next_id pc (named_at functions fn_index) line);
    allocated = d.allocated + 1;
    next_id = d.next_id + 1;
    breakpoints = set_key d.breakpoints d.next_id d.allocated;
    by_pc = set_key d.by_pc pc d.allocated;
  },
)

-- `_add`: the reference of the breakpoint at this pc, which is made if there is none
unfoldable pub add : List FunctionInfo → ℕ → ℕ → ℕ → Debugger → ℕ × Debugger
add functions pc fn_index line d = elim (get_key d.by_pc pc) [
  | some r ↦ (r, d)
  | none ↦ add_new functions pc fn_index line d
]

-- pos[0] if pos else 0
unfoldable pub line_or_zero : Option Position → ℕ
line_or_zero none = 0
line_or_zero (some (line, col)) = line

unfoldable pub break_at_function :
    CompiledProgram → Text → Debugger → Result DebugError (ℕ × Debugger)
break_at_function program name d = elim (first_named name program.functions 0) [
  | none ↦ err (no_function name)
  | some (i, f) ↦ elim (lookup program.source_map f.entry_pc) [
    | err e ↦ err bad_index
    | ok found ↦ ok (add program.functions f.entry_pc i (line_or_zero found) d)
  ]
]

-- the first loop of `break_at_line`: the first function with code on the line, and the pc
unfoldable pub find_line :
    SourceMap → List (ℕ × (ℕ × ℕ)) → List ℕ → ℕ → Result DebugError (Option (ℕ × ℕ))
find_line m ranges [] line = ok none
find_line m ranges (i ∷ is) line = elim (get_key ranges i) [
  | none ↦ err bad_key
  | some (start, end) ↦ elim (first_pc_on_line m line start (some end)) [
    | some pc ↦ ok (some (pc, i))
    | none ↦ find_line m ranges is line
  ]
]

-- (l for l in ... if l > line)
unfoldable pub lines_after : ℕ → List ℕ → List ℕ
lines_after line [] = []
lines_after line (l ∷ ls) = let rest = lines_after line ls in if ltb line l then l ∷ rest else rest

-- the second loop
unfoldable pub later_lines :
    SourceMap → List (ℕ × (ℕ × ℕ)) → List ℕ → ℕ → Result DebugError (List ℕ)
later_lines m ranges [] line = ok []
later_lines m ranges (i ∷ is) line = elim (get_key ranges i) [
  | none ↦ err bad_key
  | some (start, end) ↦ do
    rest ← later_lines m ranges is line
    ok (lines_after line (lines_in m start (some end)) ++ rest)
]

-- not indices
unfoldable pub is_empty : List ℕ → Bool
is_empty [] = true
is_empty (i ∷ is) = false

-- file or self._entry_file()
unfoldable pub wanted_file : List FunctionInfo → Text → Text
wanted_file functions [] = entry_file functions
wanted_file functions (c ∷ cs) = c ∷ cs

module _ (program : CompiledProgram) (sep : ℕ) where
  -- what `break_at_line` does where the line has no code: try the least later line that has some
  unfoldable pub retry_at :
      (ℕ → Result DebugError (ℕ × Debugger)) → ℕ → Text → List ℕ → Result DebugError (ℕ × Debugger)
  retry_at again line wanted lines = elim (minimum lines) [
    | none ↦ err (no_code line wanted)
    | some next ↦ again next
  ]

  unfoldable pub break_in :
      (ℕ → Result DebugError (ℕ × Debugger))
      → Text
      → List ℕ
      → ℕ
      → Debugger
      → Result DebugError (ℕ × Debugger)
  break_in again wanted indices line d = do
    found ←
        find_line program.source_map (function_ranges program) (ordered program.functions indices)
          line
    elim found [
      | some (pc, i) ↦ ok (add program.functions pc i line d)
      | none ↦ do
        later ← later_lines program.source_map (function_ranges program) indices line
        retry_at again line wanted later
    ]

  -- `break_at_line` with so many calls of itself
  unfoldable pub break_at_line : ℕ → ℕ → Text → Debugger → Result DebugError (ℕ × Debugger)
  break_at_line zero line file d = err cut_off
  break_at_line (suc tries) line file d =
      let wanted = wanted_file program.functions file in
      let indices = functions_in_file sep wanted program.functions 0 in
      if is_empty indices
      then err (no_source_file wanted)
      else break_in (λ next. break_at_line tries next file d) wanted indices line d

unfoldable pub clear_breakpoints : Debugger → Debugger
clear_breakpoints d = record d { breakpoints = []; by_pc = [] }

unfoldable pub remove : ℕ → Debugger → Result DebugError Debugger
remove id d = elim (get_key d.breakpoints id) [
  | none ↦ err (unknown_breakpoint id)
  | some r ↦ ok (record d {
    breakpoints = del_key d.breakpoints id;
    by_pc = del_key d.by_pc (d.objects r).pc;
  })
]

unfoldable pub set_enabled : ℕ → Bool → Debugger → Result DebugError (ℕ × Debugger)
set_enabled id enabled d = elim (get_key d.breakpoints id) [
  | none ↦ err (unknown_breakpoint id)
  | some r ↦ ok (
    r,
    record d { objects = write_object d.objects r (record (d.objects r) { enabled = enabled }) },
  )
]
