-- ===== src/Bytecode/SourceMap/Lookup.antt =====
-- What `SourceMap.lookup` returns, by a scan that follows the description of the markers.
use quin_lang.Prelude.{
  IsSorted, List, Option, Result, [], arith, bisect_right-eq-count_le, count_le, if◌then◌else◌, leb,
  length, none, ok, refl, some, suc, zero, ℕ, ◌-◌, ◌<◌, ◌==◌, ◌∙◌, ◌∷◌, ◌≡◌,
}
use quin_lang.Bytecode.SourceMap.{Position, SourceMap, lookup, markers, position_at, zip}

-- "From this pc onward, the position is this": the last marker at or below `pc`.
unfoldable pub in_force : List (ℕ × Position) → ℕ → Option Position
in_force [] pc = none
in_force ((p, place) ∷ ms) pc = elim (in_force ms pc) [
  | some found ↦ some found
  | none ↦ if leb p pc then some place else none
]

pub record IsAligned (m : SourceMap) : Type 0 where
  pub sorted : IsSorted m.pcs
  pub paired : length m.pcs ≡ length m.positions

position_after : List Position → ℕ → Result ℕ (Option Position)
position_after ps zero = ok none
position_after ps (suc n) = position_at ps n

at_count :
    (ps : List Position) (n : ℕ)
    → (if n == 0 then ok none else position_at ps (n - 1)) ≡ position_after ps n
unfolding position_after
at_count ps zero = refl
at_count ps (suc n) = ground arith

lookup-count :
    (m : SourceMap) (pc : ℕ)
    → IsSorted m.pcs
    → lookup m pc ≡ position_after m.positions (count_le m.pcs pc)
unfolding lookup position_after
lookup-count m pc s =
    rw (bisect_right-eq-count_le m.pcs pc s) (at_count m.positions (count_le m.pcs pc))

none_above :
    (p : ℕ) (pcs : List ℕ) (ps : List Position) (pc : ℕ)
    → IsSorted (p ∷ pcs)
    → pc < p
    → in_force (zip pcs ps) pc ≡ none
unfolding in_force zip
none_above p [] [] pc s h = refl
none_above p [] (x ∷ ps) pc s h = refl
none_above p (q ∷ pcs) [] pc s h = refl
none_above p (q ∷ pcs) (x ∷ ps) pc s h = ground (arith, none_above q pcs ps pc s.1)

position_after-in_force :
    (pcs : List ℕ) (ps : List Position) (pc : ℕ)
    → IsSorted pcs
    → length pcs ≡ length ps
    → position_after ps (count_le pcs pc) ≡ ok (in_force (zip pcs ps) pc)
unfolding position_after position_at count_le in_force zip
position_after-in_force [] [] pc s e = refl
position_after-in_force [] (x ∷ ps) pc s e = refl
position_after-in_force (p ∷ pcs) [] pc s e = absurd (omega arith)
position_after-in_force (p ∷ []) (x ∷ ps) pc s e = ground arith
position_after-in_force (p ∷ q ∷ pcs) (x ∷ ps) pc s e = ground (
  arith,
  none_above p (q ∷ pcs) (x ∷ ps) pc s,
  none_above q pcs ps pc s.1,
  position_after-in_force (q ∷ pcs) ps pc s.1,
)

-- On markers with ascending pcs, one position each, the binary search finds the position in force:
-- that of the last marker at or below `pc`, and none before the first marker.
pub lookup-eq-in_force :
    (m : SourceMap) (pc : ℕ) → IsAligned m → lookup m pc ≡ ok (in_force (markers m) pc)
lookup-eq-in_force m pc a =
    lookup-count m pc a.sorted ∙ position_after-in_force m.pcs m.positions pc a.sorted a.paired
