-- ===== src/Vm/Ops/Slots/Overlap.antt =====
-- The locals that `MEMCPY_LOCALS` of runtime/vm.py leaves, as lists: what each of the two orders of
-- copying does to overlapping ranges.
use quin_lang.Vm.Words.{word_mod}
use quin_lang.Prelude.{
  List, [], ap, arith, get_or, inl, inr, length, length-set, refl, set, subst, suc, zero, ℕ, ◌+◌,
  ◌<◌, ◌∙◌, ◌∷◌, ◌≡◌, ◌≢◌, ◌≤◌, ◌⊎◌,
}

pub get_or-set_self : (xs : List ℕ) (i v : ℕ) → i < length xs → get_or (set xs i v) i 0 ≡ v
get_or-set_self [] i v h = elim h [ ]
get_or-set_self (x ∷ xs) zero v h = refl
get_or-set_self (x ∷ xs) (suc i) v h = get_or-set_self xs i v (omega arith)

pub get_or-set_ne : (xs : List ℕ) (i j v : ℕ) → i ≢ j → get_or (set xs i v) j 0 ≡ get_or xs j 0
get_or-set_ne [] i j v h = refl
get_or-set_ne (x ∷ xs) zero zero v h = absurd (h refl)
get_or-set_ne (x ∷ xs) zero (suc j) v h = refl
get_or-set_ne (x ∷ xs) (suc i) zero v h = refl
get_or-set_ne (x ∷ xs) (suc i) (suc j) v h = get_or-set_ne xs i j v (λ e. h (ap suc e))

-- the locals hold words
abbrev pub IsWords : List ℕ → Type 0
IsWords ls = (i : ℕ) → get_or ls i 0 < word_mod

set-IsWords : (ls : List ℕ) (i v : ℕ) → IsWords ls → v < word_mod → IsWords (set ls i v)
set-IsWords [] i v w h j = w j
set-IsWords (x ∷ xs) zero v w h zero = h
set-IsWords (x ∷ xs) zero v w h (suc j) = w (suc j)
set-IsWords (x ∷ xs) (suc i) v w h zero = w zero
set-IsWords (x ∷ xs) (suc i) v w h (suc j) = set-IsWords xs i v (λ k. w (suc k)) h j

lt_or_eq : (i n : ℕ) → i < suc n → (i < n) ⊎ (i ≡ n)
lt_or_eq i n h = ground arith

module _ (dst src : ℕ) where
  -- one slot copied
  abbrev pub copied : List ℕ → ℕ → List ℕ
  copied ls i = set ls (dst + i) (get_or ls (src + i) 0)

  -- the locals after `copy_down` and `copy_up`
  unfoldable pub down : List ℕ → ℕ → List ℕ
  down ls zero = ls
  down ls (suc i) = down (copied ls i) i

  unfoldable pub up : List ℕ → ℕ → ℕ → List ℕ
  up ls zero i = ls
  up ls (suc more) i = up (copied ls i) more (i + 1)

  copied_other :
      (ls : List ℕ) (i j : ℕ)
      → (j < dst + i) ⊎ (dst + i < j)
      → get_or (copied ls i) j 0 ≡ get_or ls j 0
  copied_other ls i j h = get_or-set_ne ls (dst + i) j _ (ground arith)

  pub down_outside :
      (n : ℕ) (ls : List ℕ) (j : ℕ)
      → (j < dst) ⊎ (dst + n ≤ j)
      → get_or (down ls n) j 0 ≡ get_or ls j 0
  unfolding down
  down_outside zero ls j h = refl
  down_outside (suc n) ls j h =
      down_outside n (copied ls n) j (ground arith) ∙ copied_other ls n j (ground arith)

  pub down_inside :
      (n : ℕ) (ls : List ℕ)
      → src < dst
      → dst + n ≤ length ls
      → (i : ℕ) → i < n
      → get_or (down ls n) (dst + i) 0 ≡ get_or ls (src + i) 0
  unfolding down
  down_inside zero ls o b i h = elim h [ ]
  down_inside (suc n) ls o b i h = elim (lt_or_eq i n (omega arith)) [
    | inl l ↦
        down_inside n (copied ls n) o
          (omega (arith, length-set ls (dst + n) (get_or ls (src + n) 0))) i l
        ∙ copied_other ls n (src + i) (inl (omega arith))
    | inr e ↦ rw e (
        down_outside n (copied ls n) (dst + n) (inr (omega arith))
        ∙ get_or-set_self ls (dst + n) _ (omega arith))
  ]

  pub up_outside :
      (more i : ℕ) (ls : List ℕ) (j : ℕ)
      → (j < dst + i) ⊎ (dst + i + more ≤ j)
      → get_or (up ls more i) j 0 ≡ get_or ls j 0
  unfolding up
  up_outside zero i ls j h = refl
  up_outside (suc more) i ls j h =
      up_outside more (i + 1) (copied ls i) j (ground arith) ∙ copied_other ls i j (ground arith)

  pub up_inside :
      (more i : ℕ) (ls : List ℕ)
      → dst ≤ src
      → dst + i + more ≤ length ls
      → (k : ℕ) → i ≤ k
      → k < i + more
      → get_or (up ls more i) (dst + k) 0 ≡ get_or ls (src + k) 0
  unfolding up
  up_inside zero i ls o b k l u = absurd (ground arith)
  up_inside (suc more) i ls o b k l u = elim (lt_or_eq i k (omega arith)) [
    | inl g ↦
        up_inside more (i + 1) (copied ls i) o
          (omega (arith, length-set ls (dst + i) (get_or ls (src + i) 0))) k (omega arith)
          (omega arith)
        ∙ copied_other ls i (src + k) (inr (omega arith))
    | inr e ↦
        subst (λ m. get_or (up (copied ls i) more (i + 1)) (dst + m) 0 ≡ get_or ls (src + m) 0) e
          (up_outside more (i + 1) (copied ls i) (dst + i) (inl (omega arith))
            ∙ get_or-set_self ls (dst + i) _ (omega arith))
  ]

  pub copied-IsWords : (ls : List ℕ) (i : ℕ) → IsWords ls → IsWords (copied ls i)
  copied-IsWords ls i w = set-IsWords ls (dst + i) (get_or ls (src + i) 0) w (w (src + i))

  pub length-copied : (ls : List ℕ) (i : ℕ) → length (copied ls i) ≡ length ls
  length-copied ls i = length-set ls (dst + i) (get_or ls (src + i) 0)

  -- the locals that a copy of `n` slots leaves
  abbrev pub IsMoved : ℕ → List ℕ → List ℕ → Type 0
  IsMoved n old new =
      ((i : ℕ) → i < n → get_or new (dst + i) 0 ≡ get_or old (src + i) 0)
      × ((j : ℕ) → (j < dst) ⊎ (dst + n ≤ j) → get_or new j 0 ≡ get_or old j 0)
