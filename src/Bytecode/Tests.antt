-- ===== src/Bytecode/Tests.antt =====
-- Look-ups in a small source map.
use quin_lang.Prelude.{
  [], arith, bisect_right, if◌then◌else◌, leb, none, ok, refl, some, true, ℕ, ◌∷◌, ◌≡◌, ◌≤◌,
}
use quin_lang.Bytecode.OpCode.{OpCode, of_value, of_value-value, value}
use quin_lang.Bytecode.SourceMap.{
  SourceMap, build, candidates, first_pc_on_line, in_range, lines_in, lookup, mark, markers,
  minimum, position_at, zip,
}
use quin_lang.Bytecode.SourceMap.Lookup.{IsAligned, in_force, lookup-eq-in_force}
use quin_lang.Bytecode.SourceMap.Lines.{
  HasMarker, IsAscending, first_pc_on_line_least, has_line, is_some, lines_in-IsAscending,
  lines_in-first_pc_on_line,
}
use quin_lang.Bytecode.SourceMap.Builder.{lookup-mark}

abbrev sample : SourceMap
sample = record { pcs = 0 ∷ 4 ∷ 9 ∷ []; positions = (2, 5) ∷ (3, 1) ∷ (2, 9) ∷ [] }

sample-IsAligned : IsAligned sample
sample-IsAligned = record { sorted = omega arith; paired = refl }

looked_up : lookup sample 6 ≡ ok (some (3, 1))
unfolding lookup position_at bisect_right
looked_up = refl

lookup-eq-in_force_example : lookup sample 6 ≡ ok (in_force (markers sample) 6)
lookup-eq-in_force_example = lookup-eq-in_force sample 6 sample-IsAligned

lookup-mark_example :
    lookup (build (mark sample 9 (7, 7))) 12
    ≡ (if leb 9 12 then ok (some (7, 7)) else lookup (build sample) 12)
lookup-mark_example = lookup-mark sample 9 (7, 7) 12 sample-IsAligned (omega arith)

found_first : first_pc_on_line sample 2 1 none ≡ some 9
unfolding first_pc_on_line candidates in_range minimum zip
found_first = refl

first_pc_on_line_least_example :
    HasMarker (markers sample) 9 2
    × (in_range 9 1 none ≡ true)
    × ((other : ℕ) → HasMarker (markers sample) other 2 → in_range other 1 none ≡ true → 9 ≤ other)
first_pc_on_line_least_example = first_pc_on_line_least sample 2 1 none 9 found_first

lines_in-first_pc_on_line_example :
    has_line (lines_in sample 1 none) 2 ≡ is_some (first_pc_on_line sample 2 1 none)
lines_in-first_pc_on_line_example = lines_in-first_pc_on_line sample 2 1 none

lines_in-IsAscending_example : IsAscending (lines_in sample 0 (some 9))
lines_in-IsAscending_example = lines_in-IsAscending sample 0 (some 9)

of_value-value_example : of_value (value OpCode.call_indirect) ≡ some OpCode.call_indirect
of_value-value_example = of_value-value OpCode.call_indirect
