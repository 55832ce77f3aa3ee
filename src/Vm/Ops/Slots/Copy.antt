-- ===== src/Vm/Ops/Slots/Copy.antt =====
-- `MEMCPY_LOCALS` of runtime/vm.py.
use quin_lang.Vm.Words.{word_mod}
use quin_lang.Vm.Runs.{Runs, run_bind}
use quin_lang.Vm.Machine.{Vm, pure}
use quin_lang.Vm.Ops.Slots.{copy_down, copy_slot, copy_slots, copy_up}
use quin_lang.Vm.Operands.{local, set_local, slot_at}
use quin_lang.Prelude.{
  Bool, List, ap, arith, false, get_or, if◌then◌else◌, length, ltb, ok, pos, refl, set, suc, true,
  zero, ℕ, ◌%◌, ◌+ℤ◌, ◌+◌, ◌<◌, ◌∙◌, ◌≡◌, ◌≤◌,
}
use quin_lang.Vm.Ops.Slots.Overlap.{
  IsMoved, IsWords, copied, copied-IsWords, down, down_inside, down_outside, length-copied, up,
  up_inside, up_outside,
}

pos_add : (a b : ℕ) → pos a +ℤ pos b ≡ pos (a + b)
unfolding ◌+ℤ◌
pos_add a b = ground arith

module _ {W : Type 0} where
  local_run :
      (i : ℕ) (vm : Vm W)
      → i < length vm.locals
      → local (pos i) vm ≡ (ok (get_or vm.locals i 0), vm)
  unfolding local slot_at
  local_run i vm h = ground arith

  set_local_at :
      (i v : ℕ) (vm : Vm W)
      → i < length vm.locals
      → set_local (pos i) v vm ≡ (ok tt, record vm { locals = set vm.locals i (v % word_mod) })
  unfolding set_local slot_at
  set_local_at i v vm h = ground arith

  set_local_run :
      (i v : ℕ) (vm : Vm W)
      → v < word_mod
      → i < length vm.locals
      → set_local (pos i) v vm ≡ (ok tt, record vm { locals = set vm.locals i v })
  set_local_run i v vm w h =
      set_local_at i v vm h
      ∙ ap (λ n. (ok tt, record vm { locals = set vm.locals i n })) (omega (arith, w))

module _ {W : Type 0} (dst src : ℕ) where
  copy_slot_run :
      (i : ℕ) (vm : Vm W)
      → IsWords vm.locals
      → src + i < length vm.locals
      → dst + i < length vm.locals
      → Runs
          (copy_slot (pos dst) (pos src) i)
          vm
          (ok tt, record vm { locals = copied dst src vm.locals i })
  unfolding copy_slot
  copy_slot_run i vm w s d =
      run_bind _ _ (record { at = ap (λ n. local n vm) (pos_add src i) ∙ local_run (src + i) vm s })
        (record {
          at =
              ap (λ n. set_local n (get_or vm.locals (src + i) 0) vm) (pos_add dst i)
              ∙ set_local_run (dst + i) _ vm (w (src + i)) d;
        })

  copy_down_run :
      (n : ℕ) (vm : Vm W)
      → IsWords vm.locals
      → src + n ≤ length vm.locals
      → dst + n ≤ length vm.locals
      → Runs
          (copy_down (pos dst) (pos src) n)
          vm
          (ok tt, record vm { locals = down dst src vm.locals n })
  unfolding copy_down down pure
  copy_down_run zero vm w s d = record { at = refl }
  copy_down_run (suc n) vm w s d = run_bind _ _ (copy_slot_run n vm w (omega arith) (omega arith)) (
      copy_down_run n (record vm { locals = copied dst src vm.locals n })
        (copied-IsWords dst src vm.locals n w) (omega (arith, length-copied dst src vm.locals n))
        (omega (arith, length-copied dst src vm.locals n)))

  copy_up_run :
      (more i : ℕ) (vm : Vm W)
      → IsWords vm.locals
      → src + i + more ≤ length vm.locals
      → dst + i + more ≤ length vm.locals
      → Runs
          (copy_up (pos dst) (pos src) more i)
          vm
          (ok tt, record vm { locals = up dst src vm.locals more i })
  unfolding copy_up up pure
  copy_up_run zero i vm w s d = record { at = refl }
  copy_up_run (suc more) i vm w s d =
      run_bind _ _ (copy_slot_run i vm w (omega arith) (omega arith)) (
        copy_up_run more (i + 1) (record vm { locals = copied dst src vm.locals i })
          (copied-IsWords dst src vm.locals i w) (omega (arith, length-copied dst src vm.locals i))
          (omega (arith, length-copied dst src vm.locals i)))

  copy_slots-IsMoved :
      (b : Bool) (n : ℕ) (vm : Vm W)
      → IsWords vm.locals
      → src + n ≤ length vm.locals
      → dst + n ≤ length vm.locals
      → (b ≡ ltb (src + 0) (dst + 0))
      → (ls : List ℕ) × ((if b
              then copy_down (pos dst) (pos src) n
              else copy_up (pos dst) (pos src) n 0)
            vm
          ≡ (ok tt, record vm { locals = ls }))
        × IsMoved dst src n vm.locals ls
  copy_slots-IsMoved true n vm w s d e = (
    down dst src vm.locals n,
    (copy_down_run n vm w s d).at,
    (down_inside dst src n vm.locals (ground arith) d, down_outside dst src n vm.locals),
  )
  copy_slots-IsMoved false n vm w s d e = (
    up dst src vm.locals n 0,
    (copy_up_run n 0 vm w (omega arith) (omega arith)).at,
    (
      λ i h.
          up_inside dst src n 0 vm.locals (ground arith) (omega arith) i (omega arith)
            (omega arith),
      λ j h. up_outside dst src n 0 vm.locals j (ground arith),
    ),
  )

  -- Copying `n` slots that are all in a frame of 16-bit words succeeds and changes nothing but the locals. Each
  -- target slot then holds what its source slot held before, also where the two ranges overlap, and
  -- the other slots are as they were.
  pub copy_slots_lem :
      (n : ℕ) (vm : Vm W)
      → IsWords vm.locals
      → src + n ≤ length vm.locals
      → dst + n ≤ length vm.locals
      → (ls : List ℕ) × (copy_slots (pos dst) (pos src) (pos n) vm
          ≡ (ok tt, record vm { locals = ls }))
        × IsMoved dst src n vm.locals ls
  unfolding copy_slots
  copy_slots_lem n vm w s d = copy_slots-IsMoved (ltb (src + 0) (dst + 0)) n vm w s d refl
