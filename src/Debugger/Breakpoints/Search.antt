-- ===== src/Debugger/Breakpoints/Search.antt =====
-- The searches of `break_at_line` in runtime/debugger.py: what they find and what they miss.
use quin_lang.Prelude.{
  Bool-cases, List, Option-cases, Result-cases, [], ap, arith, false, get_key, inl, inr, ltb,
  ltb→lt, none, ok, refl, some, sym, true, ℕ, ◌&&◌, ◌++◌, ◌<◌, ◌==◌, ◌||◌, ◌∙◌, ◌∷◌, ◌≡◌, ◌≤◌,
}
use quin_lang.Program.{FunctionInfo}
use quin_lang.Bytecode.SourceMap.{SourceMap, first_pc_on_line, lines_in, minimum}
use quin_lang.Bytecode.SourceMap.Lines.{has_line, lines_in-first_pc_on_line}
use quin_lang.Debugger.Layout.{insert_by_entry, ordered}
use quin_lang.Debugger.Breakpoints.{find_line, later_lines, lines_after}

pub has_line-insert_by_entry :
    (functions : List FunctionInfo) (i : ℕ) (js : List ℕ) (k : ℕ)
    → has_line (insert_by_entry functions i js) k ≡ (i == k || has_line js k)
unfolding has_line insert_by_entry
has_line-insert_by_entry functions i [] k = ground arith
has_line-insert_by_entry functions i (j ∷ js) k =
    ground (arith, has_line-insert_by_entry functions i js k)

pub has_line-ordered :
    (functions : List FunctionInfo) (is : List ℕ) (k : ℕ)
    → has_line (ordered functions is) k ≡ has_line is k
unfolding has_line ordered
has_line-ordered functions [] k = refl
has_line-ordered functions (i ∷ is) k =
    has_line-insert_by_entry functions i (ordered functions is) k
    ∙ ap (λ b. i == k || b) (has_line-ordered functions is k)

has_line-append :
    (xs ys : List ℕ) (k : ℕ) → has_line (xs ++ ys) k ≡ (has_line xs k || has_line ys k)
unfolding has_line
has_line-append [] ys k = refl
has_line-append (x ∷ xs) ys k = ground (arith, has_line-append xs ys k)

has_line-lines_after :
    (line : ℕ) (ls : List ℕ) (k : ℕ)
    → has_line (lines_after line ls) k ≡ (ltb line k && has_line ls k)
unfolding has_line lines_after
has_line-lines_after line [] k = ground arith
has_line-lines_after line (l ∷ ls) k = ground (arith, has_line-lines_after line ls k)

has_line_split :
    (line : ℕ) (xs rest : List ℕ) (k : ℕ)
    → has_line (lines_after line xs ++ rest) k ≡ ((ltb line k && has_line xs k) || has_line rest k)
has_line_split line xs rest k =
    has_line-append (lines_after line xs) rest k
    ∙ ap (λ b. b || has_line rest k) (has_line-lines_after line xs k)

pub has_line-minimum : (ls : List ℕ) (k : ℕ) → minimum ls ≡ some k → has_line ls k ≡ true
unfolding has_line minimum
has_line-minimum [] k h = cc
has_line-minimum (l ∷ ls) k h = ground (arith, has_line-minimum ls k)

pub minimum-none_lem : (ls : List ℕ) (j : ℕ) → minimum ls ≡ none → has_line ls j ≡ false
unfolding has_line minimum
minimum-none_lem [] j h = refl
minimum-none_lem (l ∷ ls) j h = ground arith

pub minimum_least : (ls : List ℕ) (k j : ℕ) → minimum ls ≡ some k → has_line ls j ≡ true → k ≤ j
unfolding has_line minimum
minimum_least [] k j h g = cc
minimum_least (l ∷ ls) k j h g = elim (Option-cases (minimum ls)) [
  | inl e ↦ ground (arith, minimum-none_lem ls j e)
  | inr (b, e) ↦ ground (arith, minimum_least ls b j e)
]

-- A function among the indices has code on the line, the first of it at the pc.
pub record HasCode (m : SourceMap) (ranges : List (ℕ × (ℕ × ℕ))) (is : List ℕ) (line pc index : ℕ)
    : Type 0 where
  pub start : ℕ
  pub end : ℕ
  pub listed : has_line is index ≡ true
  pub ranged : get_key ranges index ≡ some (start, end)
  pub found : first_pc_on_line m line start (some end) ≡ some pc

module _ (m : SourceMap) (ranges : List (ℕ × (ℕ × ℕ))) where
  HasCode-head :
      (i j : ℕ) (is : List ℕ) (line p pc s e : ℕ)
      → get_key ranges i ≡ some (s, e)
      → first_pc_on_line m line s (some e) ≡ some p
      → i ≡ j
      → p ≡ pc
      → HasCode m ranges (i ∷ is) line pc j
  unfolding has_line
  HasCode-head i j is line p pc s e r f q g = record {
    start = s;
    end = e;
    listed = ground arith;
    ranged = ap (get_key ranges) (sym q) ∙ r;
    found = f ∙ ap some g;
  }

  HasCode-tail :
      (i j : ℕ) (is : List ℕ) (line pc : ℕ)
      → HasCode m ranges is line pc j
      → HasCode m ranges (i ∷ is) line pc j
  unfolding has_line
  HasCode-tail i j is line pc h = record {
    start = h.start;
    end = h.end;
    listed = ground (arith, h.listed);
    ranged = h.ranged;
    found = h.found;
  }

  pub find_line-some :
      (is : List ℕ) (line pc i : ℕ)
      → find_line m ranges is line ≡ ok (some (pc, i))
      → HasCode m ranges is line pc i
  unfolding find_line
  find_line-some [] line pc i h = cc
  find_line-some (j ∷ is) line pc i h = elim (Option-cases (get_key ranges j)) [
    | inl e ↦ absurd (ground arith)
    | inr ((s, e), r) ↦ elim (Option-cases (first_pc_on_line m line s (some e))) [
      | inl n ↦ HasCode-tail j i is line pc (find_line-some is line pc i (ground arith))
      | inr (p, f) ↦ HasCode-head j i is line p pc s e r f (ground arith) (ground arith)
    ]
  ]

  pub tail_HasCode :
      (i j : ℕ) (is : List ℕ) (line pc : ℕ)
      → (i == j) ≡ false
      → HasCode m ranges (i ∷ is) line pc j
      → HasCode m ranges is line pc j
  unfolding has_line
  tail_HasCode i j is line pc q c = record {
    start = c.start;
    end = c.end;
    listed = ground (arith, c.listed);
    ranged = c.ranged;
    found = c.found;
  }

  pub find_line-none :
      (is : List ℕ) (line pc j : ℕ)
      → find_line m ranges is line ≡ ok none
      → HasCode m ranges is line pc j
      → ⊥
  unfolding find_line has_line
  find_line-none [] line pc j h c = cc c.listed
  find_line-none (i ∷ is) line pc j h c = elim (Option-cases (get_key ranges i)) [
    | inl e ↦ ground arith
    | inr ((s, e), r) ↦ elim (Option-cases (first_pc_on_line m line s (some e))) [
      | inr (p, f) ↦ ground arith
      | inl n ↦ elim (Bool-cases (i == j)) [
        | inl q ↦ ground arith
        | inr q ↦ find_line-none is line pc j (ground arith) (tail_HasCode i j is line pc q c)
      ]
    ]
  ]

  in_later :
      (i : ℕ) (is : List ℕ) (line k s e : ℕ) (rest : List ℕ)
      → get_key ranges i ≡ some (s, e)
      → (has_line rest k ≡ true → (line < k) × (j : ℕ) × (pc : ℕ) × HasCode m ranges is k pc j)
      → ((ltb line k && has_line (lines_in m s (some e)) k) || has_line rest k) ≡ true
      → (line < k) × (j : ℕ) × (pc : ℕ) × HasCode m ranges (i ∷ is) k pc j
  in_later i is line k s e rest r later h = elim (Option-cases (first_pc_on_line m k s (some e))) [
    | inr (pc, f) ↦ elim (Bool-cases (ltb line k)) [
      | inl l ↦ (ltb→lt line k l, i, pc, HasCode-head i i is k pc pc s e r f refl refl)
      | inr l ↦ deeper (later (ground arith))
    ]
    | inl n ↦ deeper (later (ground (arith, lines_in-first_pc_on_line m k s (some e))))
  ]
    where
      deeper :
          (line < k) × (j : ℕ) × (pc : ℕ) × HasCode m ranges is k pc j
          → (line < k) × (j : ℕ) × (pc : ℕ) × HasCode m ranges (i ∷ is) k pc j
      deeper (l, j, pc, c) = (l, j, pc, HasCode-tail i j is k pc c)

  pub later_lines_sound :
      (is : List ℕ) (line k : ℕ) (ls : List ℕ)
      → later_lines m ranges is line ≡ ok ls
      → has_line ls k ≡ true
      → (line < k) × (i : ℕ) × (pc : ℕ) × HasCode m ranges is k pc i
  unfolding later_lines has_line
  later_lines_sound [] line k ls h g = ground arith
  later_lines_sound (i ∷ is) line k ls h g = elim (Option-cases (get_key ranges i)) [
    | inl e ↦ absurd (ground arith)
    | inr ((s, e), r) ↦ elim (Result-cases (later_lines m ranges is line)) [
      | inr (x, b) ↦ absurd (ground arith)
      | inl (rest, b) ↦ in_later i is line k s e rest r (later_lines_sound is line k rest b) (
          sym (has_line_split line (lines_in m s (some e)) rest k)
          ∙ ap (λ l. has_line l k) (ground arith)
          ∙ g)
    ]
  ]

  here_or_later :
      (i : ℕ) (is : List ℕ) (line k pc j s e : ℕ) (rest : List ℕ)
      → get_key ranges i ≡ some (s, e)
      → HasCode m ranges (i ∷ is) k pc j
      → line < k
      → (HasCode m ranges is k pc j → has_line rest k ≡ true)
      → ((ltb line k && has_line (lines_in m s (some e)) k) || has_line rest k) ≡ true
  here_or_later i is line k pc j s e rest r c l later = elim (Bool-cases (i == j)) [
    | inl q ↦ ground (arith, lines_in-first_pc_on_line m k s (some e), c.ranged, c.found)
    | inr q ↦ ground (arith, later (tail_HasCode i j is k pc q c))
  ]

  pub later_lines_complete :
      (is : List ℕ) (line k pc j : ℕ) (ls : List ℕ)
      → later_lines m ranges is line ≡ ok ls
      → HasCode m ranges is k pc j
      → line < k
      → has_line ls k ≡ true
  unfolding later_lines has_line
  later_lines_complete [] line k pc j ls h c l = cc c.listed
  later_lines_complete (i ∷ is) line k pc j ls h c l = elim (Option-cases (get_key ranges i)) [
    | inl e ↦ absurd (ground arith)
    | inr ((s, e), r) ↦ elim (Result-cases (later_lines m ranges is line)) [
      | inr (x, b) ↦ absurd (ground arith)
      | inl (rest, b) ↦
          sym (ap (λ l. has_line l k) (ground arith))
          ∙ has_line_split line (lines_in m s (some e)) rest k
          ∙ here_or_later i is line k pc j s e rest r c l
              (λ c'. later_lines_complete is line k pc j rest b c' l)
    ]
  ]
