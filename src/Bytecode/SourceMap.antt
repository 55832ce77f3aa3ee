-- ===== src/Bytecode/SourceMap.antt =====
-- The classes `SourceMap` and `SourceMapBuilder` of compiler/bytecode.py: which source position each
-- instruction came from. The proofs are in the modules below.
pub mod Lookup
pub mod Lines
pub mod Builder
use quin_lang.Prelude.{
  Bool, List, Option, Result, [], bisect_right, err, false, if◌then◌else◌, leb, ltb, none, ok, some,
  str_ℕ, suc, true, zero, ℕ, ◌&&◌, ◌++◌, ◌-◌, ◌==◌, ◌>>=◌, ◌∷◌,
}
unfoldable pub use mathlib.Core.List.{zip}

-- (line, col)
abbrev pub Position : Type 0
Position = ℕ × ℕ

pub record SourceMap : Type 0 where
  pub pcs : List ℕ
  pub positions : List Position

abbrev pub empty : SourceMap
empty = record { pcs = []; positions = [] }

-- `err index` is the IndexError of `self.positions[i]`
unfoldable pub position_at : List Position → ℕ → Result ℕ (Option Position)
position_at [] i = err i
position_at (p ∷ ps) zero = ok (some p)
position_at (p ∷ ps) (suc i) = position_at ps i

-- the test `i < 0` of the source, where i = bisect_right(...) - 1
unfoldable pub lookup : SourceMap → ℕ → Result ℕ (Option Position)
unfolding position_at
lookup m pc =
    let found = bisect_right m.pcs pc in
    if found == 0 then ok none else position_at m.positions (found - 1)

-- f"[{line}:{col}]", or an empty text
unfoldable pub describe : SourceMap → ℕ → Result ℕ (List ℕ)
describe m pc = do
  found ← lookup m pc
  ok (elim found [
    | none ↦ []
    | some (line, col) ↦ b'[' ∷ (str_ℕ line ++ (b':' ∷ (str_ℕ col ++ b']' ∷ [])))
  ])

-- `pc >= start and (end is None or pc < end)`
unfoldable pub in_range : ℕ → ℕ → Option ℕ → Bool
in_range pc start end = leb start pc && elim end [ none ↦ true | some e ↦ ltb pc e ]

-- sorted({...}): insertion that keeps the list ascending and without repeats
unfoldable pub insert_line : ℕ → List ℕ → List ℕ
insert_line l [] = l ∷ []
insert_line l (m ∷ ms) =
    let rest = insert_line l ms in
    if ltb l m then l ∷ m ∷ ms else if l == m then m ∷ ms else m ∷ rest

unfoldable pub lines_of : List (ℕ × Position) → ℕ → Option ℕ → List ℕ
lines_of [] start end = []
lines_of ((pc, (line, col)) ∷ ms) start end =
    let rest = lines_of ms start end in
    if in_range pc start end then insert_line line rest else rest

-- zip(self.pcs, self.positions)
abbrev pub markers : SourceMap → List (ℕ × Position)
markers m = zip m.pcs m.positions

unfoldable pub lines_in : SourceMap → ℕ → Option ℕ → List ℕ
lines_in m start end = lines_of (markers m) start end

-- the list comprehension of `first_pc_on_line`
unfoldable pub candidates : List (ℕ × Position) → ℕ → ℕ → Option ℕ → List ℕ
candidates [] line start end = []
candidates ((pc, (l, col)) ∷ ms) line start end =
    let rest = candidates ms line start end in
    if l == line && in_range pc start end then pc ∷ rest else rest

-- min(candidates) if candidates else None
unfoldable pub minimum : List ℕ → Option ℕ
minimum [] = none
minimum (a ∷ r) = elim (minimum r) [ none ↦ some a | some b ↦ some (if leb a b then a else b) ]

unfoldable pub first_pc_on_line : SourceMap → ℕ → ℕ → Option ℕ → Option ℕ
first_pc_on_line m line start end = minimum (candidates (markers m) line start end)

-- `self._pcs and self._pcs[-1] == pc`
unfoldable pub last_is_pc : List ℕ → ℕ → Bool
last_is_pc [] pc = false
last_is_pc (p ∷ []) pc = p == pc
last_is_pc (p ∷ q ∷ r) pc = last_is_pc (q ∷ r) pc

unfoldable pub eq_position : Position → Position → Bool
eq_position (l, c) (l', c') = (l == l') && (c == c')

-- `self._positions and self._positions[-1] == place`
unfoldable pub last_is_position : List Position → Position → Bool
unfolding eq_position
last_is_position [] place = false
last_is_position (p ∷ []) place = eq_position p place
last_is_position (p ∷ q ∷ r) place = last_is_position (q ∷ r) place

-- self._positions[-1] = place; there is a last one wherever this is called
unfoldable pub set_last : List Position → Position → List Position
set_last [] place = []
set_last (p ∷ []) place = place ∷ []
set_last (p ∷ q ∷ r) place = p ∷ set_last (q ∷ r) place

-- The builder has the fields of the map that it builds.
unfoldable pub mark : SourceMap → ℕ → Position → SourceMap
mark b pc place =
    if last_is_pc b.pcs pc
    then record b { positions = set_last b.positions place }
    else if last_is_position b.positions place
    then b
    else record { pcs = b.pcs ++ pc ∷ []; positions = b.positions ++ place ∷ [] }

unfoldable pub build : SourceMap → SourceMap
build b = record { pcs = b.pcs; positions = b.positions }
