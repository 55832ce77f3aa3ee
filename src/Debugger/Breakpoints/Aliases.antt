-- ===== src/Debugger/Breakpoints/Aliases.antt =====
-- The two dicts of runtime/debugger.py, `breakpoints` and `_by_pc`, which share their objects.
use quin_lang.Program.{FunctionInfo}
use native.Mathlib.Decide.{ℕ_discrete}
use quin_lang.Prelude.{
  List, Option, Option-cases, ap, arith, del_key, get_key, get_key-del_key_ne, get_key-del_key_self,
  get_key-set_key_ne, get_key-set_key_self, inl, inr, none, refl, set_key, some, some-injective,
  subst, sym, ℕ, ◌+◌, ◌<◌, ◌∙◌, ◌≡◌, ◌≢◌,
}
use quin_lang.Debugger.{Breakpoint, Debugger, new}
use quin_lang.Debugger.Breakpoints.{
  add, add_new, clear_breakpoints, make_breakpoint, named_at, write_object,
}

-- The two dicts lead to the same objects, each under its own key, and the next id is fresh.
pub record IsConsistent (d : Debugger) : Type 0 where
  pub by_pc_sound :
      (pc r : ℕ)
      → get_key d.by_pc pc ≡ some r
      → (r < d.allocated)
        × ((d.objects r).pc ≡ pc)
        × (get_key d.breakpoints (d.objects r).id ≡ some r)
  pub by_id_sound :
      (id r : ℕ)
      → get_key d.breakpoints id ≡ some r
      → (r < d.allocated)
        × ((d.objects r).id ≡ id)
        × (id < d.next_id)
        × (get_key d.by_pc (d.objects r).pc ≡ some r)

pub new-IsConsistent : IsConsistent new
unfolding get_key
new-IsConsistent = record { by_pc_sound = λ pc r h. cc; by_id_sound = λ id r h. cc }

pub clear-IsConsistent : (d : Debugger) → IsConsistent (clear_breakpoints d)
unfolding clear_breakpoints get_key
clear-IsConsistent d = record { by_pc_sound = λ pc r h. cc; by_id_sound = λ id r h. cc }

-- a change of an object that leaves its id and its pc
module _ (d : Debugger) (q : ℕ) (b : Breakpoint) (same_id : b.id ≡ (d.objects q).id)
    (same_pc : b.pc ≡ (d.objects q).pc) where
  abbrev changed : Debugger
  changed = record d { objects = write_object d.objects q b }

  changed-id : (r : ℕ) → (write_object d.objects q b r).id ≡ (d.objects r).id
  unfolding write_object
  changed-id r = ground (arith, same_id)

  changed-pc : (r : ℕ) → (write_object d.objects q b r).pc ≡ (d.objects r).pc
  unfolding write_object
  changed-pc r = ground (arith, same_pc)

  pub changed-IsConsistent : IsConsistent d → IsConsistent changed
  changed-IsConsistent c = record {
    by_pc_sound = λ pc r h.
        let (a, p, i) = c.by_pc_sound pc r h in
        (a, changed-pc r ∙ p, ap (get_key d.breakpoints) (changed-id r) ∙ i);
    by_id_sound = λ id r h.
        let (a, i, n, p) = c.by_id_sound id r h in
        (a, changed-id r ∙ i, n, ap (get_key d.by_pc) (changed-pc r) ∙ p);
  }

write_object_self :
    (objects : ℕ → Breakpoint) (r : ℕ) (b : Breakpoint) → write_object objects r b r ≡ b
unfolding write_object
write_object_self objects r b = ground arith

write_object_ne :
    (objects : ℕ → Breakpoint) (r q : ℕ) (b : Breakpoint)
    → r ≢ q
    → write_object objects r b q ≡ objects q
unfolding write_object
write_object_ne objects r q b h = ground arith

-- a new object under a fresh id and a free pc
module _ (d : Debugger) (b : Breakpoint) (new_id : b.id ≡ d.next_id)
    (free : get_key d.by_pc b.pc ≡ none) (c : IsConsistent d) where
  abbrev added : Debugger
  added = record d {
    objects = write_object d.objects d.allocated b;
    allocated = d.allocated + 1;
    next_id = d.next_id + 1;
    breakpoints = set_key d.breakpoints d.next_id d.allocated;
    by_pc = set_key d.by_pc b.pc d.allocated;
  }

  itself : write_object d.objects d.allocated b d.allocated ≡ b
  itself = write_object_self d.objects d.allocated b

  old : (r : ℕ) → r < d.allocated → write_object d.objects d.allocated b r ≡ d.objects r
  old r h = write_object_ne d.objects d.allocated r b (λ e. omega arith)

  added_pc :
      (pc r : ℕ)
      → get_key added.by_pc pc ≡ some r
      → (r < added.allocated)
        × ((added.objects r).pc ≡ pc)
        × (get_key added.breakpoints (added.objects r).id ≡ some r)
  added_pc pc r h = elim (ℕ_discrete b.pc pc) [
    | yes e ↦
        let q : d.allocated ≡ r =
          some-injective (
            sym (get_key-set_key_self d.by_pc b.pc d.allocated) ∙ ap (get_key added.by_pc) e ∙ h) in
        subst
          (λ r.
            (r < added.allocated)
            × ((added.objects r).pc ≡ pc)
            × (get_key added.breakpoints (added.objects r).id ≡ some r))
          q
          (
            omega arith,
            ap (λ o. o.pc) itself ∙ e,
            ap (get_key added.breakpoints) (ap (λ o. o.id) itself ∙ new_id)
                ∙ get_key-set_key_self d.breakpoints d.next_id d.allocated,
          )
    | no n ↦
        let (a, p, i) =
          c.by_pc_sound pc r (sym (get_key-set_key_ne d.by_pc b.pc pc d.allocated n) ∙ h) in
        (
          omega arith,
          ap (λ o. o.pc) (old r a) ∙ p,
          ap (get_key added.breakpoints) (ap (λ o. o.id) (old r a))
              ∙ get_key-set_key_ne d.breakpoints d.next_id (d.objects r).id d.allocated
                  (λ e. omega (arith, e, (c.by_id_sound (d.objects r).id r i).2))
              ∙ i,
        )
  ]

  added_id :
      (id r : ℕ)
      → get_key added.breakpoints id ≡ some r
      → (r < added.allocated)
        × ((added.objects r).id ≡ id)
        × (id < added.next_id)
        × (get_key added.by_pc (added.objects r).pc ≡ some r)
  added_id id r h = elim (ℕ_discrete d.next_id id) [
    | yes e ↦
        let q : d.allocated ≡ r = some-injective (
          sym (get_key-set_key_self d.breakpoints d.next_id d.allocated)
          ∙ ap (get_key added.breakpoints) e
          ∙ h) in
        subst
          (λ r.
            (r < added.allocated)
            × ((added.objects r).id ≡ id)
            × (id < added.next_id)
            × (get_key added.by_pc (added.objects r).pc ≡ some r))
          q
          (
            omega arith,
            ap (λ o. o.id) itself ∙ new_id ∙ e,
            omega arith,
            ap (get_key added.by_pc) (ap (λ o. o.pc) itself)
                ∙ get_key-set_key_self d.by_pc b.pc d.allocated,
          )
    | no n ↦
        let (a, i, l, p) =
          c.by_id_sound id r
            (sym (get_key-set_key_ne d.breakpoints d.next_id id d.allocated n) ∙ h) in
        (
          omega arith,
          ap (λ o. o.id) (old r a) ∙ i,
          omega arith,
          ap (get_key added.by_pc) (ap (λ o. o.pc) (old r a))
              ∙ get_key-set_key_ne d.by_pc b.pc (d.objects r).pc d.allocated (λ e. cc)
              ∙ p,
        )
  ]

  added-IsConsistent : IsConsistent added
  added-IsConsistent = record { by_pc_sound = added_pc; by_id_sound = added_id }

pub add-IsConsistent :
    (functions : List FunctionInfo) (pc i line : ℕ) (d : Debugger)
    → IsConsistent d
    → IsConsistent (add functions pc i line d).1
unfolding add add_new make_breakpoint
add-IsConsistent functions pc i line d c = elim (Option-cases (get_key d.by_pc pc)) [
  | inl e ↦
      subst (λ o. IsConsistent (found_or o).1) (sym e)
        (added-IsConsistent d (make_breakpoint d.next_id pc (named_at functions i) line) refl e c)
  | inr (r, e) ↦ subst (λ o. IsConsistent (found_or o).1) (sym e) c
]
  where
    found_or : Option ℕ → ℕ × Debugger
    found_or o = elim o [ some r ↦ (r, d) | none ↦ add_new functions pc i line d ]

-- the entries that `remove` takes out
module _ (d : Debugger) (id r : ℕ) (e : get_key d.breakpoints id ≡ some r)
    (c : IsConsistent d) where
  abbrev removed : Debugger
  removed = record d {
    breakpoints = del_key d.breakpoints id;
    by_pc = del_key d.by_pc (d.objects r).pc;
  }

  removed_pc :
      (pc q : ℕ)
      → get_key removed.by_pc pc ≡ some q
      → (q < d.allocated)
        × ((d.objects q).pc ≡ pc)
        × (get_key removed.breakpoints (d.objects q).id ≡ some q)
  removed_pc pc q h = elim (ℕ_discrete (d.objects r).pc pc) [
    | yes n ↦ absurd (cc (get_key-del_key_self d.by_pc (d.objects r).pc))
    | no n ↦
        let (a, p, i) =
          c.by_pc_sound pc q (sym (get_key-del_key_ne d.by_pc (d.objects r).pc pc n) ∙ h) in
        (a, p, get_key-del_key_ne d.breakpoints id (d.objects q).id (λ g. n (cc)) ∙ i)
  ]

  removed_id :
      (j q : ℕ)
      → get_key removed.breakpoints j ≡ some q
      → (q < d.allocated)
        × ((d.objects q).id ≡ j)
        × (j < d.next_id)
        × (get_key removed.by_pc (d.objects q).pc ≡ some q)
  removed_id j q h = elim (ℕ_discrete id j) [
    | yes n ↦ absurd (cc (get_key-del_key_self d.breakpoints id))
    | no n ↦
        let (a, i, l, p) = c.by_id_sound j q (sym (get_key-del_key_ne d.breakpoints id j n) ∙ h) in
        let (_, i', _, p') = c.by_id_sound id r e in
        (a, i, l, get_key-del_key_ne d.by_pc (d.objects r).pc (d.objects q).pc (λ g. n cc) ∙ p)
  ]

  pub removed-IsConsistent : IsConsistent removed
  removed-IsConsistent = record { by_pc_sound = removed_pc; by_id_sound = removed_id }
