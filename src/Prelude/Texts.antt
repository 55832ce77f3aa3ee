-- ===== src/Prelude/Texts.antt =====
-- Texts and byte strings as lists of code points: the methods of `str` and `bytes` that several
-- parts call.
use quin_lang.Prelude.Tests.{if◌then◌else◌, leb, ◌==◌}
use quin_lang.Prelude.Lists.{drop, length, take}
use quin_lang.Prelude.Int.{pos, ℤ, ◌-ℤ◌}
use quin_lang.Prelude.Decimal.{parse_digits}
use Prim.Native.Nat.{ℕ, ◌-◌}
use mathlib.Core.Bool.{Bool, true, false, ◌&&◌, ◌||◌}
use mathlib.Core.Option.{Option, none, some}
use mathlib.Core.List.{List, [], ◌∷◌, reverse}

-- a == b
unfoldable pub same_name : List ℕ → List ℕ → Bool
same_name [] [] = true
same_name (a ∷ as') (b ∷ bs) = a == b && same_name as' bs
same_name _ _ = false

-- s.startswith(prefix)
unfoldable pub starts_with : List ℕ → List ℕ → Bool
starts_with s prefix = leb (length prefix) (length s) && same_name (take (length prefix) s) prefix

-- s.endswith(suffix)
unfoldable pub ends_with : List ℕ → List ℕ → Bool
ends_with s suffix =
    leb (length suffix) (length s) && same_name (drop (length s - length suffix) s) suffix

-- the bytes that bytes.strip() and int() take for blanks
unfoldable pub is_space : ℕ → Bool
is_space b = b == 32 || (leb 9 b && leb b 13)

unfoldable pub drop_spaces : List ℕ → List ℕ
drop_spaces [] = []
drop_spaces (b ∷ bs) = let rest = drop_spaces bs in if is_space b then rest else b ∷ bs

-- bs.strip()
unfoldable pub strip : List ℕ → List ℕ
strip bs = reverse (drop_spaces (reverse (drop_spaces bs)))

-- int(text), where the text has no blanks around it
unfoldable pub int_of_bytes : List ℕ → Option ℤ
int_of_bytes [] = none
int_of_bytes (b ∷ bs) =
    if b == b'-'
    then elim (parse_digits false 0 bs) [ none ↦ none | some n ↦ some (pos 0 -ℤ pos n) ]
    else if b == b'+'
    then elim (parse_digits false 0 bs) [ none ↦ none | some n ↦ some (pos n) ]
    else elim (parse_digits false 0 (b ∷ bs)) [ none ↦ none | some n ↦ some (pos n) ]
