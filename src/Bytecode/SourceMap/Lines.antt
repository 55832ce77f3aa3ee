-- ===== src/Bytecode/SourceMap/Lines.antt =====
-- The searches of compiler/bytecode.py that set a breakpoint: `lines_in` and `first_pc_on_line`.
use quin_lang.Prelude.{
  Bool, List, Option, Option-cases, [], arith, false, if◌then◌else◌, inl, inr, none, refl, some,
  true, ℕ, ◌<◌, ◌==◌, ◌||◌, ◌∷◌, ◌≡◌, ◌≤◌, ◌⊎◌,
}
use quin_lang.Bytecode.SourceMap.{
  Position, SourceMap, candidates, first_pc_on_line, in_range, insert_line, lines_in, lines_of,
  markers, minimum,
}

unfoldable pub has_line : List ℕ → ℕ → Bool
has_line [] l = false
has_line (m ∷ ms) l = m == l || has_line ms l

abbrev pub is_some {ℓ} : {A : Type ℓ} → Option A → Bool
is_some none = false
is_some (some a) = true

has_line-insert_line :
    (l : ℕ) (ms : List ℕ) (k : ℕ) → has_line (insert_line l ms) k ≡ (l == k || has_line ms k)
unfolding has_line insert_line
has_line-insert_line l [] k = refl
has_line-insert_line l (m ∷ ms) k = ground (arith, has_line-insert_line l ms k)

is_some-minimum : (a : ℕ) (r : List ℕ) → is_some (minimum (a ∷ r)) ≡ true
unfolding minimum
is_some-minimum a r = ground arith

lines_of-candidates :
    (ms : List (ℕ × Position)) (line start : ℕ) (end : Option ℕ)
    → has_line (lines_of ms start end) line ≡ is_some (minimum (candidates ms line start end))
unfolding lines_of candidates
lines_of-candidates [] line start end = unfold has_line minimum in refl
lines_of-candidates ((pc, (l, col)) ∷ ms) line start end = ground (
  arith,
  has_line-insert_line l (lines_of ms start end) line,
  is_some-minimum pc (candidates ms line start end),
  lines_of-candidates ms line start end,
)

-- A line is among `lines_in` of a range exactly when `first_pc_on_line` finds a pc for it there.
pub lines_in-first_pc_on_line :
    (m : SourceMap) (line start : ℕ) (end : Option ℕ)
    → has_line (lines_in m start end) line ≡ is_some (first_pc_on_line m line start end)
unfolding lines_in first_pc_on_line
lines_in-first_pc_on_line m line start end = lines_of-candidates (markers m) line start end

-- strictly ascending, so also without repeats
abbrev pub IsAscending : List ℕ → Type 0
IsAscending [] = Unit
IsAscending (x ∷ []) = Unit
IsAscending (x ∷ y ∷ r) = (x < y) × IsAscending (y ∷ r)

insert_line-IsAscending : (l : ℕ) (ms : List ℕ) → IsAscending ms → IsAscending (insert_line l ms)
unfolding insert_line
insert_line-IsAscending l [] h = tt
insert_line-IsAscending l (m ∷ []) h = ground arith
insert_line-IsAscending l (m ∷ n ∷ ms) h = ground (arith, insert_line-IsAscending l (n ∷ ms) h.1)

lines_of-IsAscending :
    (ms : List (ℕ × Position)) (start : ℕ) (end : Option ℕ) → IsAscending (lines_of ms start end)
unfolding lines_of
lines_of-IsAscending [] start end = tt
lines_of-IsAscending ((pc, (l, col)) ∷ ms) start end =
    elim (in_range pc start end)
      as (λ b.
        IsAscending (if b then insert_line l (lines_of ms start end) else lines_of ms start end)) [
          | true ↦
              insert_line-IsAscending l (lines_of ms start end) (lines_of-IsAscending ms start end)
          | false ↦ lines_of-IsAscending ms start end
        ]

-- `lines_in` is ascending and names no line twice, whatever the order of the markers.
pub lines_in-IsAscending :
    (m : SourceMap) (start : ℕ) (end : Option ℕ) → IsAscending (lines_in m start end)
unfolding lines_in
lines_in-IsAscending m start end = lines_of-IsAscending (markers m) start end

-- a marker for `line` stands at `pc`
abbrev pub HasMarker : List (ℕ × Position) → ℕ → ℕ → Type 0
HasMarker [] pc line = ⊥
HasMarker ((p, (l, col)) ∷ ms) pc line = ((p ≡ pc) × (l ≡ line)) ⊎ HasMarker ms pc line

abbrev IsCandidate : List ℕ → ℕ → Type 0
IsCandidate [] pc = ⊥
IsCandidate (c ∷ cs) pc = (c ≡ pc) ⊎ IsCandidate cs pc

candidate_marked :
    (ms : List (ℕ × Position)) (line start : ℕ) (end : Option ℕ) (pc : ℕ)
    → IsCandidate (candidates ms line start end) pc
    → HasMarker ms pc line × (in_range pc start end ≡ true)
unfolding candidates
candidate_marked [] line start end pc h = absurd h
candidate_marked ((p, (l, col)) ∷ ms) line start end pc h =
    ground (arith, candidate_marked ms line start end pc)

marker-IsCandidate :
    (ms : List (ℕ × Position)) (line start : ℕ) (end : Option ℕ) (pc : ℕ)
    → HasMarker ms pc line
    → in_range pc start end ≡ true
    → IsCandidate (candidates ms line start end) pc
unfolding candidates
marker-IsCandidate [] line start end pc h r = absurd h
marker-IsCandidate ((p, (l, col)) ∷ ms) line start end pc h r =
    ground (arith, marker-IsCandidate ms line start end pc)

minimum_in : (cs : List ℕ) (pc : ℕ) → minimum cs ≡ some pc → IsCandidate cs pc
unfolding minimum
minimum_in [] pc h = cc
minimum_in (c ∷ cs) pc h = ground (arith, minimum_in cs pc)

minimum-none : (cs : List ℕ) (other : ℕ) → minimum cs ≡ none → IsCandidate cs other → ⊥
unfolding minimum
minimum-none [] other h k = absurd k
minimum-none (c ∷ cs) other h k = ground arith

minimum-le : (cs : List ℕ) (pc other : ℕ) → minimum cs ≡ some pc → IsCandidate cs other → pc ≤ other
unfolding minimum
minimum-le [] pc other h k = absurd k
minimum-le (c ∷ cs) pc other h k = elim (Option-cases (minimum cs)) [
  | inl empty_rest ↦ ground (arith, minimum-none cs other empty_rest)
  | inr (b, e) ↦ ground (arith, minimum-le cs b other e)
]

-- The pc that `first_pc_on_line` returns has a marker for the line and lies in the range, and no
-- marker for that line in the range has a lower pc.
pub first_pc_on_line_least :
    (m : SourceMap) (line start : ℕ) (end : Option ℕ) (pc : ℕ)
    → first_pc_on_line m line start end ≡ some pc
    → HasMarker (markers m) pc line
      × (in_range pc start end ≡ true)
      × ((other : ℕ)
          → HasMarker (markers m) other line
          → in_range other start end ≡ true
          → pc ≤ other)
unfolding first_pc_on_line
first_pc_on_line_least m line start end pc h =
    let (marked, within) = candidate_marked (markers m) line start end pc (minimum_in _ pc h) in
    (
      marked,
      within,
      λ other k r.
          minimum-le _ pc other h (marker-IsCandidate (markers m) line start end other k r),
    )
