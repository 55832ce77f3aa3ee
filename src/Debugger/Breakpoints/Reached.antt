-- ===== src/Debugger/Breakpoints/Reached.antt =====
-- Which states of the debugger of runtime/debugger.py its methods lead to, in any order of calls.
use native.Mathlib.Decide.{ℕ_discrete}
use quin_lang.Bytecode.SourceMap.{Position, lookup}
use quin_lang.Prelude.{
  Bool, List, Option, Option-cases, Result, Result-cases, ap, arith, del_key, err, false, get_key,
  get_key-del_key_ne, get_key-del_key_self, inl, inr, length, negsuc, none, ok, pos, refl, some,
  subst, suc, sym, true, ℕ, ℤ, ◌+◌, ◌-ℤ◌, ◌∙◌, ◌≡◌, ◌≢◌,
}
use quin_lang.Program.{CompiledProgram, Text}
use quin_lang.Vm.Machine.{Vm}
use quin_lang.Debugger.{Debugger, Mode, new, request_pause}
use quin_lang.Debugger.Layout.{first_named, functions_in_file, lookup_pc}
use quin_lang.Debugger.Hook.{enabled_at, hit, line_of, resume, resume_at}
use quin_lang.Debugger.Breakpoints.{
  add, break_at_function, break_at_line, clear_breakpoints, line_or_zero, remove, set_enabled,
  wanted_file,
}
use quin_lang.Debugger.Breakpoints.Line.{Lands, break_at_line_lem}
use quin_lang.Debugger.Breakpoints.Aliases.{
  IsConsistent, add-IsConsistent, changed-IsConsistent, clear-IsConsistent, new-IsConsistent,
  removed-IsConsistent,
}

-- The calls of a front end, and what the hook changes by itself: it counts a hit, takes a request to
-- pause back and clears the mode.
pub data Reached (W : Type 0) (program : CompiledProgram) (sep : ℕ) : Debugger → Type 0 where
  made : Reached W program sep new
  lined :
      (d d' : Debugger) (tries line r : ℕ) (file : Text)
      → Reached W program sep d
      → break_at_line program sep (suc (suc tries)) line file d ≡ ok (r, d')
      → Reached W program sep d'
  named :
      (d d' : Debugger) (name : Text) (r : ℕ)
      → Reached W program sep d
      → break_at_function program name d ≡ ok (r, d')
      → Reached W program sep d'
  removed :
      (d d' : Debugger) (id : ℕ)
      → Reached W program sep d
      → remove id d ≡ ok d'
      → Reached W program sep d'
  switched :
      (d d' : Debugger) (id r : ℕ) (enabled : Bool)
      → Reached W program sep d
      → set_enabled id enabled d ≡ ok (r, d')
      → Reached W program sep d'
  cleared : (d : Debugger) → Reached W program sep d → Reached W program sep (clear_breakpoints d)
  counted : (d : Debugger) (r : ℕ) → Reached W program sep d → Reached W program sep (hit r d)
  resumed :
      (d : Debugger) (mode : Mode) (vm : Vm W) (depth : ℕ)
      → Reached W program sep d
      → Reached W program sep (resume program mode vm depth d).1
  asked : (d : Debugger) → Reached W program sep d → Reached W program sep (request_pause d)
  taken :
      (d : Debugger)
      → Reached W program sep d
      → Reached W program sep (record d { pause_requested = false })
  unset :
      (d : Debugger) → Reached W program sep d → Reached W program sep (record d { mode = none })

module _ (program : CompiledProgram) where
  Lands-IsConsistent :
      (wanted : Text) (is : List ℕ) (line : ℕ) (d : Debugger) (r : ℕ) (d' : Debugger)
      → Lands program wanted is line d (ok (r, d'))
      → IsConsistent d
      → IsConsistent d'
  Lands-IsConsistent wanted is line d r d' (at, pc, i, le, on, least, first, e) c =
      subst (λ x. IsConsistent x.1) (sym e) (add-IsConsistent program.functions pc i at d c)

  named-IsConsistent :
      (name : Text) (d : Debugger) (r : ℕ) (d' : Debugger)
      → break_at_function program name d ≡ ok (r, d')
      → IsConsistent d
      → IsConsistent d'
  unfolding break_at_function
  named-IsConsistent name d r d' h c = elim (Option-cases (first_named name program.functions 0)) [
    | inl e ↦ absurd (ground arith)
    | inr ((i, f), e) ↦ elim (Result-cases (lookup program.source_map f.entry_pc)) [
      | inr (x, l) ↦ absurd (ground arith)
      | inl (found, l) ↦
          subst IsConsistent
            (let q : (add program.functions f.entry_pc i (line_or_zero found) d) ≡ (r, d') =
                ground arith in
              ap (λ x. x.1) q)
            (add-IsConsistent program.functions f.entry_pc i (line_or_zero found) d c)
    ]
  ]

remove-IsConsistent :
    (id : ℕ) (d d' : Debugger) → remove id d ≡ ok d' → IsConsistent d → IsConsistent d'
unfolding remove
remove-IsConsistent id d d' h c = elim (Option-cases (get_key d.breakpoints id)) [
  | inl e ↦ absurd (ground arith)
  | inr (r, e) ↦ subst IsConsistent (ground arith) (removed-IsConsistent d id r e c)
]

set_enabled-IsConsistent :
    (id : ℕ) (enabled : Bool) (d : Debugger) (r : ℕ) (d' : Debugger)
    → set_enabled id enabled d ≡ ok (r, d')
    → IsConsistent d
    → IsConsistent d'
unfolding set_enabled
set_enabled-IsConsistent id enabled d r d' h c = elim (Option-cases (get_key d.breakpoints id)) [
  | inl e ↦ absurd (ground arith)
  | inr (q, e) ↦
      subst IsConsistent (ground arith)
        (changed-IsConsistent d q (record (d.objects q) { enabled = enabled }) refl refl c)
]

-- a change of what the dicts do not depend on
kept :
    (d : Debugger) (m : Option Mode) (l : Option ℕ) (k : ℤ) (p : Bool)
    → IsConsistent d
    → IsConsistent (record d { mode = m; from_line = l; from_depth = k; pause_requested = p })
kept d m l k p c = record { by_pc_sound = c.by_pc_sound; by_id_sound = c.by_id_sound }

resume-IsConsistent :
    {W : Type 0} (program : CompiledProgram) (mode : Mode) (vm : Vm W) (depth : ℕ) (d : Debugger)
    → IsConsistent d
    → IsConsistent (resume program mode vm depth d).1
unfolding resume
resume-IsConsistent program mode vm depth d c = from_lookup (lookup_pc program.source_map vm.pc)
  where
    from_lookup :
        (x : Result ℕ (Option Position))
        → IsConsistent (resume_at mode (pos (length vm.call_stack) -ℤ pos depth) d x).1
    from_lookup (ok found) = kept d (some mode) (line_of found) _ d.pause_requested c
    from_lookup (err e) = kept d (some mode) d.from_line _ d.pause_requested c

module _ {W : Type 0} (program : CompiledProgram) (sep : ℕ) where
  -- In every state that the methods lead to, in whatever order they are called, the two dicts hold the
  -- same breakpoints: what `_by_pc` has under a pc is a breakpoint of that pc that `breakpoints` has
  -- under its id, and the other way round; and the next id is fresh.
  pub Reached-IsConsistent : (d : Debugger) → Reached W program sep d → IsConsistent d
  unfolding hit request_pause
  Reached-IsConsistent d made = new-IsConsistent
  Reached-IsConsistent d' (lined d _ tries line r file h e) =
      Lands-IsConsistent program (wanted_file program.functions file)
        (functions_in_file sep (wanted_file program.functions file) program.functions 0) line d r d'
        (subst
          (λ x.
            Lands program (wanted_file program.functions file)
              (functions_in_file sep (wanted_file program.functions file) program.functions 0) line
              d x)
          e (break_at_line_lem program sep tries line file d))
        (Reached-IsConsistent d h)
  Reached-IsConsistent d' (named d _ name r h e) =
      named-IsConsistent program name d r d' e (Reached-IsConsistent d h)
  Reached-IsConsistent d' (removed d _ id h e) =
      remove-IsConsistent id d d' e (Reached-IsConsistent d h)
  Reached-IsConsistent d' (switched d _ id r enabled h e) =
      set_enabled-IsConsistent id enabled d r d' e (Reached-IsConsistent d h)
  Reached-IsConsistent d' (cleared d h) = clear-IsConsistent d
  Reached-IsConsistent d' (counted d r h) =
      changed-IsConsistent d r (record (d.objects r) { hits = (d.objects r).hits + 1 }) refl refl
        (Reached-IsConsistent d h)
  Reached-IsConsistent d' (resumed d mode vm depth h) =
      resume-IsConsistent program mode vm depth d (Reached-IsConsistent d h)
  Reached-IsConsistent d' (asked d h) =
      kept d d.mode d.from_line d.from_depth true (Reached-IsConsistent d h)
  Reached-IsConsistent d' (taken d h) =
      kept d d.mode d.from_line d.from_depth false (Reached-IsConsistent d h)
  Reached-IsConsistent d' (unset d h) =
      kept d none d.from_line d.from_depth d.pause_requested (Reached-IsConsistent d h)

  -- A breakpoint that was removed stops the program nowhere.
  pub enabled_at-remove :
      (d d' : Debugger) (id r : ℕ) (at : ℤ)
      → Reached W program sep d
      → get_key d.breakpoints id ≡ some r
      → remove id d ≡ ok d'
      → enabled_at d' at ≢ some r
  unfolding remove enabled_at
  enabled_at-remove d d' id r (negsuc n) reached e h = λ q. cc
  enabled_at-remove d d' id r (pos pc) reached e h = λ q.
      let taken_out : del_key d.by_pc (d.objects r).pc ≡ d'.by_pc = ground arith in
      let found : get_key d'.by_pc pc ≡ some r = ground arith in
      elim (ℕ_discrete (d.objects r).pc pc) [
        | yes p ↦ cc (get_key-del_key_self d.by_pc (d.objects r).pc)
        | no n ↦
            n
              ((Reached-IsConsistent d reached).by_pc_sound pc r (
                sym (get_key-del_key_ne d.by_pc (d.objects r).pc pc n)
                ∙ ap (λ m. get_key m pc) taken_out
                ∙ found)).1
      ]
