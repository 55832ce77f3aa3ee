-- ===== src/Dap/Values.antt =====
-- dap/values.py: the class `Handles`, and the dicts that a value is sent as.
pub mod Stale
use quin_lang.Prelude.{
  Bool, List, Option, [], false, get_key, if◌then◌else◌, none, set_key, some, true, ℕ, ◌&&◌, ◌+◌,
  ◌==◌, ◌∷◌,
}
use quin_lang.Debugger.Values.{Value, scalar, value}

-- the kinds of the entries that go by a depth
pub data Scope : Type 0 where
  frame_scope locals_scope : Scope

-- what a number stands for: a frame or its locals, at a depth, or a value
pub data Entry : Type 0 where
  scope : Scope → ℕ → Entry
  shown : Value → Entry

pub record Handles : Type 0 where
  pub entries : List (ℕ × Entry)
  pub frames : List ((Scope × ℕ) × ℕ)
  pub next : ℕ

abbrev pub no_handles : Handles
no_handles = record { entries = []; frames = []; next = 1 }

unfoldable pub clear : Handles → Handles
clear h = record h { entries = []; frames = [] }

-- `_store`
unfoldable pub store : Entry → Handles → ℕ × Handles
store e h = (h.next, record h { next = h.next + 1; entries = set_key h.entries h.next e })

unfoldable pub eq_scope : Scope → Scope → Bool
eq_scope frame_scope frame_scope = true
eq_scope locals_scope locals_scope = true
eq_scope _ _ = false

-- self._frames[key], `none` where the key is not in it
unfoldable pub frame_of : List ((Scope × ℕ) × ℕ) → Scope → ℕ → Option ℕ
frame_of [] k depth = none
frame_of (((j, d), r) ∷ fs) k depth =
    let rest = frame_of fs k depth in if eq_scope j k && d == depth then some r else rest

-- the branch of `_keyed` for a new key
unfoldable pub new_keyed : Scope → ℕ → Handles → ℕ × Handles
new_keyed k depth h =
    let (r, h') = store (scope k depth) h in (r, record h' { frames = ((k, depth), r) ∷ h'.frames })

-- `_keyed`, which `frame` and `locals` call
unfoldable pub keyed : Scope → ℕ → Handles → ℕ × Handles
keyed k depth h = elim (frame_of h.frames k depth) [ some r ↦ (r, h) | none ↦ new_keyed k depth h ]

-- `expandable`
unfoldable pub is_expandable : Value → Bool
is_expandable (value s t scalar a o es) = false
is_expandable v = true

-- `value`
unfoldable pub handle_of : Value → Handles → ℕ × Handles
handle_of v h = if is_expandable v then store (shown v) h else (0, h)

-- `get`
unfoldable pub get : Handles → ℕ → Option Entry
get h reference = get_key h.entries reference
