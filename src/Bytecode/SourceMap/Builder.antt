-- ===== src/Bytecode/SourceMap/Builder.antt =====
-- `SourceMapBuilder.mark` of compiler/bytecode.py, which adds a marker, overwrites the last one or does
-- nothing.
use quin_lang.Prelude.{
  IsSorted, List, [], arith, false, if◌then◌else◌, leb, length, length-append, ok, refl, some, true,
  ℕ, ◌++◌, ◌∷◌, ◌≡◌, ◌≤◌,
}
use quin_lang.Bytecode.SourceMap.{
  Position, SourceMap, build, eq_position, last_is_pc, last_is_position, lookup, mark, markers,
  set_last, zip,
}
use quin_lang.Bytecode.SourceMap.Lookup.{IsAligned, in_force, lookup-eq-in_force}

-- no marker stands above `pc`
abbrev pub AllAtMost : List ℕ → ℕ → Type 0
AllAtMost [] pc = Unit
AllAtMost (p ∷ ps) pc = (p ≤ pc) × AllAtMost ps pc

IsSorted-append :
    (pcs : List ℕ) (pc : ℕ) → IsSorted pcs → AllAtMost pcs pc → IsSorted (pcs ++ pc ∷ [])
IsSorted-append [] pc s h = tt
IsSorted-append (p ∷ []) pc s h = (h.0, tt)
IsSorted-append (p ∷ q ∷ r) pc s h = (s.0, IsSorted-append (q ∷ r) pc s.1 h.1)

length-set_last : (ps : List Position) (p : Position) → length (set_last ps p) ≡ length ps
unfolding set_last
length-set_last [] p = refl
length-set_last (x ∷ []) p = refl
length-set_last (x ∷ y ∷ r) p = omega (arith, length-set_last (y ∷ r) p)

-- Codegen marks at the pc of the code emitted so far, which never falls.
pub mark-IsAligned :
    (b : SourceMap) (pc : ℕ) (place : Position)
    → IsAligned b
    → AllAtMost b.pcs pc
    → IsAligned (mark b pc place)
unfolding mark
mark-IsAligned b pc place a h =
    elim (last_is_pc b.pcs pc)
      as (λ t. IsAligned (
        if t
        then record b { positions = set_last b.positions place }
        else if last_is_position b.positions place
        then b
        else record { pcs = b.pcs ++ pc ∷ []; positions = b.positions ++ place ∷ [] })) [
          | true ↦ record {
            sorted = a.sorted;
            paired = omega (arith, a.paired, length-set_last b.positions place);
          }
          | false ↦
              elim (last_is_position b.positions place)
                as (λ t. IsAligned (
                  if t
                  then b
                  else record { pcs = b.pcs ++ pc ∷ []; positions = b.positions ++ place ∷ [] })) [
                    | true ↦ a
                    | false ↦ record {
                      sorted = IsSorted-append b.pcs pc a.sorted h;
                      paired = omega (
                        arith,
                        a.paired,
                        length-append b.pcs (pc ∷ []),
                        length-append b.positions (place ∷ []),
                      );
                    }
                  ]
        ]

in_force-append :
    (pcs : List ℕ) (ps : List Position) (pc : ℕ) (place : Position) (q : ℕ)
    → length pcs ≡ length ps
    → in_force (zip (pcs ++ pc ∷ []) (ps ++ place ∷ [])) q
      ≡ (if leb pc q then some place else in_force (zip pcs ps) q)
unfolding in_force zip
in_force-append [] [] pc place q e = refl
in_force-append [] (x ∷ ps) pc place q e = absurd (omega arith)
in_force-append (p ∷ pcs) [] pc place q e = absurd (omega arith)
in_force-append (p ∷ pcs) (x ∷ ps) pc place q e = ground (arith, in_force-append pcs ps pc place q)

in_force-set_last :
    (pcs : List ℕ) (ps : List Position) (pc : ℕ) (place : Position) (q : ℕ)
    → length pcs ≡ length ps
    → last_is_pc pcs pc ≡ true
    → in_force (zip pcs (set_last ps place)) q
      ≡ (if leb pc q then some place else in_force (zip pcs ps) q)
unfolding in_force zip set_last last_is_pc
in_force-set_last [] ps pc place q e h = cc
in_force-set_last (p ∷ pcs) [] pc place q e h = absurd (omega arith)
in_force-set_last (p ∷ []) (x ∷ []) pc place q e h = ground arith
in_force-set_last (p ∷ []) (x ∷ y ∷ ps) pc place q e h = absurd (omega arith)
in_force-set_last (p ∷ r ∷ pcs) (x ∷ []) pc place q e h = absurd (omega arith)
in_force-set_last (p ∷ r ∷ pcs) (x ∷ y ∷ ps) pc place q e h =
    ground (arith, in_force-set_last (r ∷ pcs) (y ∷ ps) pc place q)

eq_of_position : (p q : Position) → eq_position p q ≡ true → p ≡ q
unfolding eq_position
eq_of_position (a, b) (c, d) h = ground arith

in_force-same :
    (pcs : List ℕ) (ps : List Position) (pc : ℕ) (place : Position) (q : ℕ)
    → length pcs ≡ length ps
    → AllAtMost pcs pc
    → last_is_position ps place ≡ true
    → pc ≤ q
    → in_force (zip pcs ps) q ≡ some place
unfolding in_force zip last_is_position
in_force-same [] [] pc place q e a h le = cc
in_force-same [] (x ∷ ps) pc place q e a h le = absurd (omega arith)
in_force-same (p ∷ pcs) [] pc place q e a h le = absurd (omega arith)
in_force-same (p ∷ []) (x ∷ []) pc place q e a h le = ground (arith, eq_of_position x place)
in_force-same (p ∷ []) (x ∷ y ∷ ps) pc place q e a h le = absurd (omega arith)
in_force-same (p ∷ r ∷ pcs) (x ∷ []) pc place q e a h le = absurd (omega arith)
in_force-same (p ∷ r ∷ pcs) (x ∷ y ∷ ps) pc place q e a h le =
    rw (in_force-same (r ∷ pcs) (y ∷ ps) pc place q (omega arith) a.1 h le)

-- what `mark` makes of the position in force
in_force-mark :
    (b : SourceMap) (pc : ℕ) (place : Position) (q : ℕ)
    → IsAligned b
    → AllAtMost b.pcs pc
    → in_force (markers (mark b pc place)) q
      ≡ (if leb pc q then some place else in_force (markers b) q)
unfolding mark
in_force-mark b pc place q a h = ground (
  arith,
  in_force-set_last b.pcs b.positions pc place q a.paired,
  in_force-append b.pcs b.positions pc place q a.paired,
  in_force-same b.pcs b.positions pc place q a.paired h,
)

-- A marker at or above every earlier one takes effect from its pc onward, and changes nothing below:
-- a look-up in the map that is built gives the new position at or after `pc`, and before it what the
-- look-up gave without the marker.
pub lookup-mark :
    (b : SourceMap) (pc : ℕ) (place : Position) (q : ℕ)
    → IsAligned b
    → AllAtMost b.pcs pc
    → lookup (build (mark b pc place)) q
      ≡ (if leb pc q then ok (some place) else lookup (build b) q)
unfolding build
lookup-mark b pc place q a h = ground (
  arith,
  lookup-eq-in_force (mark b pc place) q (mark-IsAligned b pc place a h),
  lookup-eq-in_force b q a,
  in_force-mark b pc place q a h,
)
