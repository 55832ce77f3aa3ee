-- ===== src/Prelude/Dict.antt =====
-- A dict with integer keys as its entries in insertion order.
use quin_lang.Prelude.Tests.{if◌then◌else◌, ◌==◌}
use Prim.Native.Nat.{ℕ}
use mathlib.Core.Path.{◌≡◌, refl}
use mathlib.Core.Logic.{◌≢◌}
use mathlib.Core.List.{List, [], ◌∷◌}
use mathlib.Core.Option.{Option, none, some}
use native.Mathlib.Omega.{arith}

module _ {ℓ} {A : Type ℓ} where
  -- d.get(k)
  unfoldable pub get_key : List (ℕ × A) → ℕ → Option A
  get_key [] k = none
  get_key ((j, a) ∷ d) k = let rest = get_key d k in if j == k then some a else rest

  -- d[k] = a: a known key keeps its place
  unfoldable pub set_key : List (ℕ × A) → ℕ → A → List (ℕ × A)
  set_key [] k a = (k, a) ∷ []
  set_key ((j, b) ∷ d) k a =
      let rest = set_key d k a in if j == k then (j, a) ∷ d else (j, b) ∷ rest

  -- d.pop(k, None)
  unfoldable pub del_key : List (ℕ × A) → ℕ → List (ℕ × A)
  del_key [] k = []
  del_key ((j, b) ∷ d) k = let rest = del_key d k in if j == k then rest else (j, b) ∷ rest

  pub get_key-set_key_self : (d : List (ℕ × A)) (k : ℕ) (a : A) → get_key (set_key d k a) k ≡ some a
  unfolding get_key set_key
  get_key-set_key_self [] k a = ground arith
  get_key-set_key_self ((j, b) ∷ d) k a = ground (arith, get_key-set_key_self d k a)

  pub get_key-set_key_ne :
      (d : List (ℕ × A)) (k j : ℕ) (a : A) → k ≢ j → get_key (set_key d k a) j ≡ get_key d j
  unfolding get_key set_key
  get_key-set_key_ne [] k j a h = ground arith
  get_key-set_key_ne ((i, b) ∷ d) k j a h = ground (arith, get_key-set_key_ne d k j a h)

  pub get_key-del_key_self : (d : List (ℕ × A)) (k : ℕ) → get_key (del_key d k) k ≡ none
  unfolding get_key del_key
  get_key-del_key_self [] k = refl
  get_key-del_key_self ((j, b) ∷ d) k = ground (arith, get_key-del_key_self d k)

  pub get_key-del_key_ne :
      (d : List (ℕ × A)) (k j : ℕ) → k ≢ j → get_key (del_key d k) j ≡ get_key d j
  unfolding get_key del_key
  get_key-del_key_ne [] k j h = refl
  get_key-del_key_ne ((i, b) ∷ d) k j h = ground (arith, get_key-del_key_ne d k j h)
