-- ===== src/Debugger/Breakpoints/Line.antt =====
-- `break_at_line` in runtime/debugger.py: how often it calls itself, and where it puts a breakpoint.
use native.Mathlib.Decide.{dec_lt}
use quin_lang.Prelude.{
  Bool, List, Option, Option-cases, Result, Result-cases, [], arith, err, false, if◌then◌else◌, inl,
  inr, none, ok, refl, some, subst, suc, sym, true, ℕ, ◌<◌, ◌∙◌, ◌∷◌, ◌≡◌, ◌≤◌, ◌⊎◌,
}
use quin_lang.Program.{CompiledProgram, Text}
use quin_lang.Bytecode.SourceMap.{minimum}
use quin_lang.Debugger.{DebugError, Debugger, no_code, no_source_file}
use quin_lang.Debugger.Layout.{entry_of, function_ranges, functions_in_file, ordered}
use quin_lang.Debugger.Breakpoints.{
  add, break_at_line, break_in, find_line, is_empty, later_lines, retry_at, wanted_file,
}
use quin_lang.Debugger.Breakpoints.Entries.{
  AllRanged, find_line-first, find_line-no_err, functions_in_file-AllRanged, later_lines-no_err,
  ordered-IsOrdered,
}
use quin_lang.Bytecode.SourceMap.Lines.{has_line}
use quin_lang.Debugger.Breakpoints.Search.{
  HasCode, find_line-none, find_line-some, has_line-minimum, has_line-ordered, later_lines_complete,
  later_lines_sound, minimum-none_lem, minimum_least,
}

module _ (program : CompiledProgram) where
  -- A function of the indices has code on the line, the first of it at the pc.
  abbrev pub IsOnLine : List ℕ → ℕ → ℕ → ℕ → Type 0
  IsOnLine is line pc i = HasCode program.source_map (function_ranges program) is line pc i

  -- The breakpoint stands at the first code of `at`, the least line from the asked one on that has
  -- code in one of the functions; where several have, in the one with the least entry. An error says
  -- that there is no function, or that none has code from the line on.
  abbrev pub Lands : Text → List ℕ → ℕ → Debugger → Result DebugError (ℕ × Debugger) → Type 0
  Lands wanted is line d (err e) =
      ((is ≡ []) × (e ≡ no_source_file wanted))
      ⊎ ((e ≡ no_code line wanted) × ((k pc j : ℕ) → line ≤ k → IsOnLine is k pc j → ⊥))
  Lands wanted is line d (ok (r, d')) =
      (at : ℕ) × (pc : ℕ) × (i : ℕ) × (line ≤ at)
      × IsOnLine is at pc i
      × ((k pc' j : ℕ) → line ≤ k → k < at → IsOnLine is k pc' j → ⊥)
      × ((pc' j : ℕ)
          → IsOnLine is at pc' j
          → entry_of program.functions i ≤ entry_of program.functions j)
      × ((r, d') ≡ add program.functions pc i at d)

  IsOnLine-ordered :
      (is : List ℕ) (line pc i : ℕ)
      → IsOnLine is line pc i
      → IsOnLine (ordered program.functions is) line pc i
  IsOnLine-ordered is line pc i h = record {
    start = h.start;
    end = h.end;
    listed = has_line-ordered program.functions is i ∙ h.listed;
    ranged = h.ranged;
    found = h.found;
  }

  ordered-IsOnLine :
      (is : List ℕ) (line pc i : ℕ)
      → IsOnLine (ordered program.functions is) line pc i
      → IsOnLine is line pc i
  ordered-IsOnLine is line pc i h = record {
    start = h.start;
    end = h.end;
    listed = sym (has_line-ordered program.functions is i) ∙ h.listed;
    ranged = h.ranged;
    found = h.found;
  }

  Lands-here :
      (wanted : Text) (is : List ℕ) (line pc i : ℕ) (d : Debugger)
      → IsOnLine is line pc i
      → ((pc' j : ℕ)
          → IsOnLine is line pc' j
          → entry_of program.functions i ≤ entry_of program.functions j)
      → Lands wanted is line d (ok (add program.functions pc i line d))
  Lands-here wanted is line pc i d h first =
      (line, pc, i, omega arith, h, λ k pc' j a b c. omega arith, first, refl)

  -- what a step forward to the least later line with code leaves to show
  Lands-later :
      (wanted : Text) (is : List ℕ) (line next pc i : ℕ) (d : Debugger)
      (x : Result DebugError (ℕ × Debugger))
      → line < next
      → ((k pc j : ℕ) → line ≤ k → k < next → IsOnLine is k pc j → ⊥)
      → IsOnLine is next pc i
      → Lands wanted is next d x
      → Lands wanted is line d x
  Lands-later wanted is line next pc i d (err e) l free on (inl h) = inl h
  Lands-later wanted is line next pc i d (err e) l free on (inr (q, none_at)) =
      absurd (none_at next pc i (omega arith) on)
  Lands-later wanted is line next pc i d (ok (r, d')) l free on
        (at, p, j, le, here, least, first, eq) =
      (at, p, j, omega arith, here, before, first, eq)
    where
      before : (k pc' j : ℕ) → line ≤ k → k < at → IsOnLine is k pc' j → ⊥
      before k pc' j a b c = elim (dec_lt k next) [
        | yes p ↦ free k pc' j a p c
        | no p ↦ least k pc' j (omega arith) b c
      ]

module _ (program : CompiledProgram) (sep : ℕ) (wanted : Text) (is : List ℕ) (d : Debugger)
    (all : AllRanged (function_ranges program) is) where
  abbrev search_now : ℕ → Result DebugError (Option (ℕ × ℕ))
  search_now line =
      find_line program.source_map (function_ranges program) (ordered program.functions is) line

  abbrev search_later : ℕ → Result DebugError (List ℕ)
  search_later line = later_lines program.source_map (function_ranges program) is line

  refused : (e : DebugError) (line : ℕ) → search_now line ≡ err e → ⊥
  refused e line h =
      find_line-no_err program.source_map (function_ranges program) (ordered program.functions is)
        line e (λ i q. all i (sym (has_line-ordered program.functions is i) ∙ q)) h

  first_of :
      (line pc i pc' j : ℕ)
      → search_now line ≡ ok (some (pc, i))
      → IsOnLine program is line pc' j
      → entry_of program.functions i ≤ entry_of program.functions j
  first_of line pc i pc' j h on =
      find_line-first program.functions program.source_map (function_ranges program)
        (ordered program.functions is) line pc i pc' j (ordered-IsOrdered program.functions is) h
        (IsOnLine-ordered program is line pc' j on)

  on_line : (line pc i : ℕ) → search_now line ≡ ok (some (pc, i)) → IsOnLine program is line pc i
  on_line line pc i h = ordered-IsOnLine program is line pc i (
      find_line-some program.source_map (function_ranges program) (ordered program.functions is)
        line pc i h)

  -- a line from the asked one on that has code is among the later ones
  is_later :
      (line k pc j : ℕ) (ls : List ℕ)
      → search_now line ≡ ok none
      → search_later line ≡ ok ls
      → line ≤ k
      → IsOnLine program is k pc j
      → has_line ls k ≡ true
  is_later line k pc j ls h l a on = elim (dec_lt line k) [
    | yes p ↦
        later_lines_complete program.source_map (function_ranges program) is line k pc j ls l on p
    | no p ↦ absurd (
        find_line-none program.source_map (function_ranges program) (ordered program.functions is)
          line pc j h
          (IsOnLine-ordered program is line pc j
            (subst (λ n. IsOnLine program is n pc j) (omega arith) on)))
  ]

  free_below :
      (line next : ℕ) (ls : List ℕ)
      → search_now line ≡ ok none
      → search_later line ≡ ok ls
      → minimum ls ≡ some next
      → (k pc j : ℕ) → line ≤ k
      → k < next
      → IsOnLine program is k pc j
      → ⊥
  free_below line next ls h l m k pc j a b on =
      omega (arith, minimum_least ls next k m (is_later line k pc j ls h l a on))

  free_above :
      (line : ℕ) (ls : List ℕ)
      → search_now line ≡ ok none
      → search_later line ≡ ok ls
      → minimum ls ≡ none
      → (k pc j : ℕ) → line ≤ k
      → IsOnLine program is k pc j
      → ⊥
  free_above line ls h l m k pc j a on =
      let wrong : true ≡ false = sym (is_later line k pc j ls h l a on) ∙ minimum-none_lem ls k m in
      absurd (ground arith)

  retried :
      (again : ℕ → Result DebugError (ℕ × Debugger)) (line : ℕ) (ls : List ℕ)
      → search_now line ≡ ok none
      → search_later line ≡ ok ls
      → ((next pc i : ℕ)
          → IsOnLine program is next pc i
          → Lands program wanted is next d (again next))
      → Lands program wanted is line d (retry_at program sep again line wanted ls)
  unfolding retry_at
  retried again line ls h l go = elim (Option-cases (minimum ls)) [
    | inl e ↦
        subst (λ o. Lands program wanted is line d (found_or o)) (sym e)
          (inr (refl, free_above line ls h l e))
    | inr (next, e) ↦
        let (lt, i, pc, on) =
          later_lines_sound program.source_map (function_ranges program) is line next ls l
            (has_line-minimum ls next e) in
        subst (λ o. Lands program wanted is line d (found_or o)) (sym e)
          (Lands-later program wanted is line next pc i d (again next) lt
            (free_below line next ls h l e) on (go next pc i on))
  ]
    where
      found_or : Option ℕ → Result DebugError (ℕ × Debugger)
      found_or o = elim o [ none ↦ err (no_code line wanted) | some next ↦ again next ]

  -- on a line that has code, nothing is tried again
  break_in_now :
      (again : ℕ → Result DebugError (ℕ × Debugger)) (line pc i : ℕ)
      → IsOnLine program is line pc i
      → Lands program wanted is line d (break_in program sep again wanted is line d)
  unfolding break_in
  break_in_now again line pc i on = elim (Result-cases (search_now line)) [
    | inr (e, h) ↦ absurd (refused e line h)
    | inl (none, h) ↦ absurd (
        find_line-none program.source_map (function_ranges program) (ordered program.functions is)
          line pc i h (IsOnLine-ordered program is line pc i on))
    | inl (some (p, j), h) ↦ rw h (
        Lands-here program wanted is line p j d (on_line line p j h)
          (λ q k. first_of line p j q k h))
  ]

  -- on any line, the second try is on a line that has code
  break_in_lem :
      (again : ℕ → Result DebugError (ℕ × Debugger)) (line : ℕ)
      → ((next pc i : ℕ)
          → IsOnLine program is next pc i
          → Lands program wanted is next d (again next))
      → Lands program wanted is line d (break_in program sep again wanted is line d)
  unfolding break_in
  break_in_lem again line go = elim (Result-cases (search_now line)) [
    | inr (e, h) ↦ absurd (refused e line h)
    | inl (some (p, j), h) ↦ rw h (
        Lands-here program wanted is line p j d (on_line line p j h)
          (λ q k. first_of line p j q k h))
    | inl (none, h) ↦ elim (Result-cases (search_later line)) [
      | inr (e, l) ↦
          absurd (later_lines-no_err program.source_map (function_ranges program) is line e all l)
      | inl (ls, l) ↦ rw (h, l) (retried again line ls h l go)
    ]
  ]

is_empty→≡ : (is : List ℕ) → is_empty is ≡ true → is ≡ []
unfolding is_empty
is_empty→≡ [] h = refl
is_empty→≡ (i ∷ is) h = absurd (ground arith)

module _ (program : CompiledProgram) (wanted : Text) (is : List ℕ) (line : ℕ) (d : Debugger) where
  Lands-if :
      (b : Bool) (x y : Result DebugError (ℕ × Debugger))
      → (b ≡ true → Lands program wanted is line d x)
      → Lands program wanted is line d y
      → Lands program wanted is line d (if b then x else y)
  Lands-if true x y h k = h refl
  Lands-if false x y h k = k

-- `break_at_line` calls itself at most once. It sets the breakpoint on the least line from the asked
-- one on that has code in the functions of the file, at the first code of that line in the function
-- with the least entry of those that have some. It raises a DebuggerError instead exactly where the
-- file has no functions, or where none of them has code from the line on.
pub break_at_line_lem :
    (program : CompiledProgram) (sep tries line : ℕ) (file : Text) (d : Debugger)
    → Lands program
        (wanted_file program.functions file)
        (functions_in_file sep (wanted_file program.functions file) program.functions 0)
        line
        d
        (break_at_line program sep (suc (suc tries)) line file d)
unfolding break_at_line
break_at_line_lem program sep tries line file d =
    Lands-if program wanted is line d (is_empty is) (err (no_source_file wanted)) _
      (λ q. inl (is_empty→≡ is q, refl))
      (break_in_lem program sep wanted is d all _ line (λ next pc i on.
        Lands-if program wanted is next d (is_empty is) (err (no_source_file wanted)) _
          (λ q. inl (is_empty→≡ is q, refl))
          (break_in_now program sep wanted is d all _ next pc i on)))
  where
    wanted : Text
    wanted = wanted_file program.functions file

    is : List ℕ
    is = functions_in_file sep wanted program.functions 0

    all : AllRanged (function_ranges program) is
    all = functions_in_file-AllRanged program sep wanted
