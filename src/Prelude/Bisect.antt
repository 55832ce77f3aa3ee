-- ===== src/Prelude/Bisect.antt =====
-- Python's `bisect.bisect_right`, and what it computes on a sorted list.
use quin_lang.Prelude.Tests.{if◌then◌else◌, leb, ltb}
use quin_lang.Prelude.Lists.{get_or, length}
use Prim.Native.Nat.{ℕ, zero, suc, ◌+◌, ◌/◌, ◌≤◌, ◌<◌}
use mathlib.Core.Path.{◌≡◌}
use mathlib.Core.List.{List, [], ◌∷◌}
use native.Mathlib.Omega.{arith}

-- while lo < hi: mid = (lo + hi) // 2; if x < a[mid]: hi = mid; else: lo = mid + 1
bisect_loop : ℕ → List ℕ → ℕ → ℕ → ℕ → ℕ
bisect_loop zero a x lo hi = lo
bisect_loop (suc fuel) a x lo hi =
    let mid = (lo + hi) / 2 in
    let left = bisect_loop fuel a x lo mid in
    let right = bisect_loop fuel a x (mid + 1) hi in
    if ltb lo hi then (if ltb x (get_or a mid 0) then left else right) else lo

unfoldable pub bisect_right : List ℕ → ℕ → ℕ
unfolding bisect_loop
bisect_right a x = bisect_loop (suc (length a)) a x 0 (length a)

-- each element is at most the one after it
abbrev pub IsSorted : List ℕ → Type 0
IsSorted [] = Unit
IsSorted (x ∷ []) = Unit
IsSorted (x ∷ y ∷ r) = (x ≤ y) × IsSorted (y ∷ r)

-- how many leading elements are at most `x`
unfoldable pub count_le : List ℕ → ℕ → ℕ
count_le [] x = 0
count_le (a ∷ r) x = if leb a x then suc (count_le r x) else 0

count_le-le-length : (a : List ℕ) (x : ℕ) → count_le a x ≤ length a
unfolding count_le
count_le-le-length [] x = omega arith
count_le-le-length (b ∷ r) x = ground (arith, count_le-le-length r x)

-- in the first `count_le` places stands nothing above `x`
below_count : (a : List ℕ) (x i : ℕ) → i < count_le a x → get_or a i 0 ≤ x
unfolding count_le
below_count [] x i h = elim h [ ]
below_count (b ∷ r) x zero h = ground arith
below_count (b ∷ r) x (suc i) h = ground (arith, below_count r x i)

head_le :
    (b : ℕ) (r : List ℕ) (i : ℕ) → IsSorted (b ∷ r) → i < length (b ∷ r) → b ≤ get_or (b ∷ r) i 0
head_le b r zero s h = omega arith
head_le b [] (suc i) s h = absurd (omega arith)
head_le b (c ∷ r) (suc i) s h = omega (arith, head_le c r i s.1 (omega arith))

-- in a sorted list all the others stand above `x`
above_count :
    (a : List ℕ) (x i : ℕ) → IsSorted a → count_le a x ≤ i → i < length a → x < get_or a i 0
unfolding count_le
above_count [] x i s h lt = elim lt [ ]
above_count (b ∷ r) x zero s h lt = ground arith
above_count (b ∷ []) x (suc i) s h lt = absurd (omega arith)
above_count (b ∷ c ∷ r) x (suc i) s h lt =
    ground (arith, head_le b (c ∷ r) (suc i) s lt, above_count (c ∷ r) x i s.1)

bisect_loop_lem :
    (fuel : ℕ) (a : List ℕ) (x lo hi : ℕ)
    → IsSorted a
    → lo ≤ count_le a x
    → count_le a x ≤ hi
    → hi ≤ length a
    → hi < lo + fuel
    → bisect_loop fuel a x lo hi ≡ count_le a x
unfolding bisect_loop
bisect_loop_lem zero a x lo hi s l h b f = omega arith
bisect_loop_lem (suc fuel) a x lo hi s l h b f = ground (
  arith,
  below_count a x ((lo + hi) / 2),
  above_count a x ((lo + hi) / 2) s,
  bisect_loop_lem fuel a x lo ((lo + hi) / 2) s,
  bisect_loop_lem fuel a x ((lo + hi) / 2 + 1) hi s,
)

-- On a sorted list the binary search returns the number of elements that are at most `x`.
pub bisect_right-eq-count_le : (a : List ℕ) (x : ℕ) → IsSorted a → bisect_right a x ≡ count_le a x
unfolding bisect_right
bisect_right-eq-count_le a x s =
    bisect_loop_lem (suc (length a)) a x 0 (length a) s (omega arith) (count_le-le-length a x)
      (omega arith) (omega arith)
