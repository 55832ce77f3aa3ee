-- ===== src/Dap/Values/Stale.antt =====
-- The numbers that `Handles` of dap/values.py gives out before and after a stop.
use quin_lang.Prelude.{
  Bool, Option, arith, false, get_key, get_key-set_key_ne, if◌then◌else◌, none, refl, some, true, ℕ,
  ◌<◌, ◌∙◌, ◌≡◌,
}
use quin_lang.Debugger.Values.{Value}
use quin_lang.Dap.Values.{
  Entry, Handles, Scope, clear, frame_of, get, handle_of, is_expandable, keyed, new_keyed, scope,
  shown, store,
}

-- One state comes from another by calls of the methods, in any order.
pub data Later : Handles → Handles → Type 0 where
  same : (h : Handles) → Later h h
  by_scope : (h h' : Handles) (k : Scope) (depth : ℕ) → Later h h' → Later h (keyed k depth h').1
  by_value : (h h' : Handles) (v : Value) → Later h h' → Later h (handle_of v h').1
  by_clear : (h h' : Handles) → Later h h' → Later h (clear h')

-- No number below this one is in use, and none will be given out.
record IsPast (r : ℕ) (h : Handles) : Type 0 where
  unused : get h r ≡ none
  passed : r < h.next

store-IsPast : (r : ℕ) (e : Entry) (h : Handles) → IsPast r h → IsPast r (store e h).1
unfolding store get
store-IsPast r e h p = record {
  unused = get_key-set_key_ne h.entries h.next r e (λ q. omega (arith, p.passed)) ∙ p.unused;
  passed = omega (arith, p.passed);
}

keyed-IsPast :
    (r : ℕ) (k : Scope) (depth : ℕ) (h : Handles) → IsPast r h → IsPast r (keyed k depth h).1
unfolding keyed new_keyed get
keyed-IsPast r k depth h p = by_cases (frame_of h.frames k depth)
  where
    by_cases :
        (o : Option ℕ)
        → IsPast r (elim o as (λ x. ℕ × Handles) [ some q ↦ (q, h) | none ↦ new_keyed k depth h ]).1
    by_cases (some q) = p
    by_cases none =
        let s = store-IsPast r (scope k depth) h p in
        record { unused = s.unused; passed = s.passed }

handle_of-IsPast : (r : ℕ) (v : Value) (h : Handles) → IsPast r h → IsPast r (handle_of v h).1
unfolding handle_of
handle_of-IsPast r v h p = by_cases (is_expandable v)
  where
    by_cases : (b : Bool) → IsPast r (if b then store (shown v) h else (0, h)).1
    by_cases true = store-IsPast r (shown v) h p
    by_cases false = p

clear-IsPast : (r : ℕ) (h : Handles) → r < h.next → IsPast r (clear h)
unfolding clear get get_key
clear-IsPast r h l = record { unused = refl; passed = l }

Later-IsPast : (r : ℕ) (h h' : Handles) → IsPast r h → Later h h' → IsPast r h'
Later-IsPast r h h' p (same _) = p
Later-IsPast r h h' p (by_scope _ t k depth l) = keyed-IsPast r k depth t (Later-IsPast r h t p l)
Later-IsPast r h h' p (by_value _ t v l) = handle_of-IsPast r v t (Later-IsPast r h t p l)
Later-IsPast r h h' p (by_clear _ t l) = clear-IsPast r t (Later-IsPast r h t p l).passed

-- A number that was given out before a stop, when all handles are dropped, stands for nothing from
-- then on, whatever is asked for after it.
pub get-clear : (r : ℕ) (h h' : Handles) → r < h.next → Later (clear h) h' → get h' r ≡ none
get-clear r h h' l later = (Later-IsPast r (clear h) h' (clear-IsPast r h l) later).unused
