-- ===== src/Debugger/Breakpoints/Entries.antt =====
-- The functions of a file as `break_at_line` of runtime/debugger.py goes through them: in the order of
-- their entries, each with its range of the code.
use quin_lang.Prelude.{
  Bool-cases, List, Option-cases, Result-cases, [], ap, arith, err, false, get_key, inl, inr, leb,
  leb→le, length, none, ok, refl, some, subst, suc, sym, true, zero, ℕ, ◌+◌, ◌<◌, ◌==◌, ◌∙◌, ◌∷◌,
  ◌≡◌, ◌≢◌, ◌≤◌, ◌⊎◌,
}
use quin_lang.Program.{CompiledProgram, FunctionInfo, Text}
use quin_lang.Bytecode.SourceMap.{SourceMap, first_pc_on_line}
use quin_lang.Bytecode.SourceMap.Lines.{has_line}
use quin_lang.Debugger.{DebugError}
use quin_lang.Debugger.Layout.{
  entry_of, function_ranges, functions_in_file, in_file, insert_by_entry, ordered, range_from,
  ranges_along,
}
use quin_lang.Debugger.Breakpoints.{find_line, later_lines}
use quin_lang.Debugger.Breakpoints.Search.{
  HasCode, has_line-insert_by_entry, has_line-ordered, tail_HasCode,
}

has_line-cons :
    (j : ℕ) (js : List ℕ) (k : ℕ) → has_line (j ∷ js) k ≡ true → (j ≡ k) ⊎ (has_line js k ≡ true)
unfolding has_line
has_line-cons j js k h = elim (Bool-cases (j == k)) [
  | inl e ↦ inl (ground arith)
  | inr e ↦ inr (ground arith)
]

module _ (functions : List FunctionInfo) where
  -- no function comes before one with a lesser entry
  abbrev pub IsOrdered : List ℕ → Type 0
  IsOrdered [] = Unit
  IsOrdered (i ∷ is) =
      ((k : ℕ) → has_line is k ≡ true → entry_of functions i ≤ entry_of functions k) × IsOrdered is

  above :
      (i j k : ℕ)
      → leb (entry_of functions i) (entry_of functions j) ≡ false
      → i ≡ k
      → entry_of functions j ≤ entry_of functions k
  above i j k e f = subst (λ n. entry_of functions j ≤ entry_of functions n) f (ground arith)

  insert_by_entry-IsOrdered :
      (i : ℕ) (js : List ℕ) → IsOrdered js → IsOrdered (insert_by_entry functions i js)
  unfolding insert_by_entry has_line
  insert_by_entry-IsOrdered i [] h = ((λ k q. absurd (ground arith)), tt)
  insert_by_entry-IsOrdered i (j ∷ js) (l, h) =
      elim (Bool-cases (leb (entry_of functions i) (entry_of functions j))) [
        | inl e ↦ rw e (
          (λ k q. elim (has_line-cons j js k q) [
            | inl f ↦ omega (arith, leb→le _ _ e, ap (entry_of functions) f)
            | inr f ↦ omega (arith, leb→le _ _ e, l k f)
          ]),
          ((λ k q. l k q), h),
        )
        | inr e ↦ rw e (
          (λ k q.
              elim (has_line-cons i js k (sym (has_line-insert_by_entry functions i js k) ∙ q)) [
                | inl f ↦ above i j k e f
                | inr f ↦ l k f
              ]),
          insert_by_entry-IsOrdered i js h,
        )
      ]

  pub ordered-IsOrdered : (is : List ℕ) → IsOrdered (ordered functions is)
  unfolding ordered
  ordered-IsOrdered [] = tt
  ordered-IsOrdered (i ∷ is) =
      insert_by_entry-IsOrdered i (ordered functions is) (ordered-IsOrdered is)

  same_entry : (k i j : ℕ) → k ≡ i → k ≡ j → entry_of functions i ≤ entry_of functions j
  same_entry k i j e f = omega (arith, ap (entry_of functions) e, ap (entry_of functions) f)

  pub find_line-first :
      (m : SourceMap) (ranges : List (ℕ × (ℕ × ℕ))) (is : List ℕ) (line pc i pc' j : ℕ)
      → IsOrdered is
      → find_line m ranges is line ≡ ok (some (pc, i))
      → HasCode m ranges is line pc' j
      → entry_of functions i ≤ entry_of functions j
  unfolding find_line has_line
  find_line-first m ranges [] line pc i pc' j o h c = cc c.listed
  find_line-first m ranges (k ∷ is) line pc i pc' j (l, o) h c =
      elim (Option-cases (get_key ranges k)) [
        | inl e ↦ absurd (ground arith)
        | inr ((s, e), r) ↦ elim (Option-cases (first_pc_on_line m line s (some e))) [
          | inl n ↦ elim (Bool-cases (k == j)) [
            | inl q ↦ absurd (ground (arith, c.ranged, c.found))
            | inr q ↦
                find_line-first m ranges is line pc i pc' j o (ground arith)
                  (tail_HasCode m ranges k j is line pc' q c)
          ]
          | inr (p, f) ↦ elim (Bool-cases (k == j)) [
            | inl q ↦ same_entry k i j (ground arith) (ground arith)
            | inr q ↦
                subst (λ n. entry_of functions n ≤ entry_of functions j) (ground arith)
                  (l j (tail_HasCode m ranges k j is line pc' q c).listed)
          ]
        ]
      ]

  ranges_along-has_key :
      (n : ℕ) (js : List ℕ) (i : ℕ)
      → has_line js i ≡ true
      → get_key (ranges_along functions n js) i ≢ none
  unfolding ranges_along has_line get_key
  ranges_along-has_key n [] i h = absurd (ground arith)
  ranges_along-has_key n (j ∷ []) i h = (λ q. ground arith)
  ranges_along-has_key n (j ∷ k ∷ js) i h = elim (Bool-cases (j == i)) [
    | inl e ↦ (λ q. ground arith)
    | inr e ↦ (λ q. ranges_along-has_key n (k ∷ js) i (ground arith) (ground arith))
  ]

has_line-range_from : (a n i : ℕ) → a ≤ i → i < a + n → has_line (range_from a n) i ≡ true
unfolding has_line range_from
has_line-range_from a zero i h k = absurd (omega arith)
has_line-range_from a (suc n) i h k = elim (Bool-cases (a == i)) [
  | inl e ↦ rw e refl
  | inr e ↦ rw e (has_line-range_from (a + 1) n i (ground arith) (omega arith))
]

functions_in_file-below :
    (sep : ℕ) (wanted : Text) (fs : List FunctionInfo) (a i : ℕ)
    → has_line (functions_in_file sep wanted fs a) i ≡ true
    → (a ≤ i) × (i < a + length fs)
unfolding has_line functions_in_file
functions_in_file-below sep wanted [] a i h = absurd (ground arith)
functions_in_file-below sep wanted (f ∷ fs) a i h = elim (Bool-cases (in_file sep wanted f)) [
  | inl e ↦ elim (has_line-cons a (functions_in_file sep wanted fs (a + 1)) i (ground arith)) [
    | inl q ↦ (omega arith, omega arith)
    | inr q ↦ wider (functions_in_file-below sep wanted fs (a + 1) i q)
  ]
  | inr e ↦ wider (functions_in_file-below sep wanted fs (a + 1) i (ground arith))
]
  where
    wider : (a + 1 ≤ i) × (i < a + 1 + length fs) → (a ≤ i) × (i < a + length (f ∷ fs))
    wider (l, k) = (omega arith, omega arith)

-- each of these functions has a range
abbrev pub AllRanged : List (ℕ × (ℕ × ℕ)) → List ℕ → Type 0
AllRanged ranges is = (i : ℕ) → has_line is i ≡ true → get_key ranges i ≢ none

pub functions_in_file-AllRanged :
    (program : CompiledProgram) (sep : ℕ) (wanted : Text)
    → AllRanged (function_ranges program) (functions_in_file sep wanted program.functions 0)
unfolding function_ranges
functions_in_file-AllRanged program sep wanted i h =
    let (_, below) = functions_in_file-below sep wanted program.functions 0 i h in
    ranges_along-has_key program.functions (length program.code)
      (ordered program.functions (range_from 0 (length program.functions))) i
      (has_line-ordered program.functions (range_from 0 (length program.functions)) i
        ∙ has_line-range_from 0 (length program.functions) i (omega arith) below)

module _ (m : SourceMap) (ranges : List (ℕ × (ℕ × ℕ))) where
  pub find_line-no_err :
      (is : List ℕ) (line : ℕ) (e : DebugError)
      → AllRanged ranges is
      → find_line m ranges is line ≡ err e
      → ⊥
  unfolding find_line has_line
  find_line-no_err [] line e all h = cc
  find_line-no_err (i ∷ is) line e all h = elim (Option-cases (get_key ranges i)) [
    | inl g ↦ all i (ground arith) g
    | inr ((s, t), g) ↦ elim (Option-cases (first_pc_on_line m line s (some t))) [
      | inl n ↦ find_line-no_err is line e (λ j q. all j (ground arith)) (ground arith)
      | inr (p, f) ↦ absurd (ground arith)
    ]
  ]

  pub later_lines-no_err :
      (is : List ℕ) (line : ℕ) (e : DebugError)
      → AllRanged ranges is
      → later_lines m ranges is line ≡ err e
      → ⊥
  unfolding later_lines has_line
  later_lines-no_err [] line e all h = cc
  later_lines-no_err (i ∷ is) line e all h = elim (Option-cases (get_key ranges i)) [
    | inl g ↦ all i (ground arith) g
    | inr ((s, t), g) ↦ elim (Result-cases (later_lines m ranges is line)) [
      | inl (rest, b) ↦ absurd (ground arith)
      | inr (x, b) ↦ later_lines-no_err is line x (λ j q. all j (ground arith)) b
    ]
  ]
