-- ===== src/Vm/Balance/Slots.antt =====
-- The balance of the stacks over the branches of `_run` in runtime/vm.py on the locals of a frame.
use quin_lang.Vm.Balance.Moves.{move_rules, set_local-IsBalanced}
use quin_lang.Vm.Balance.{IsBalanced}
use quin_lang.Program.{FunctionInfo}
use quin_lang.Vm.Keeps.{Keeps, Keeps-bind, Keeps-gets, Keeps-refuse}
use quin_lang.Vm.Ops.Slots.{
  check_bounds, copy_down, copy_slot, copy_slots, copy_up, exec_bounds_check, exec_load_indirect,
  exec_load_local, exec_load_local_idx, exec_memcpy_locals, exec_memset_locals, exec_store_indirect,
  exec_store_local, exec_store_local_idx, fill_slots, fill_up, top_of,
}
use quin_lang.Prelude.{List, Option, [], negsuc, pos, suc, zero, ℕ, ℤ, ◌+◌, ◌∷◌}

module _ {W : Type 0} where
  pub exec_load_local-IsBalanced :
      (a0 : List FunctionInfo) (a1 : Option ℤ) → Keeps {W = W} IsBalanced (exec_load_local a0 a1)
  unfolding exec_load_local
  exec_load_local-IsBalanced a0 a1 = search (move_rules)

  pub exec_store_local-IsBalanced : (a0 : Option ℤ) → Keeps {W = W} IsBalanced (exec_store_local a0)
  unfolding exec_store_local
  exec_store_local-IsBalanced a0 = search (move_rules)

  pub check_bounds-IsBalanced : (a0 : ℤ) (a1 : ℤ) → Keeps {W = W} IsBalanced (check_bounds a0 a1)
  unfolding check_bounds
  check_bounds-IsBalanced a0 a1 = search (move_rules)

  top_of-IsBalanced : (vs : List ℕ) → Keeps {W = W} IsBalanced (top_of vs)
  unfolding top_of
  top_of-IsBalanced [] = search move_rules
  top_of-IsBalanced (v ∷ vs) = search move_rules

  pub exec_bounds_check-IsBalanced :
      (a0 : Option ℤ) → Keeps {W = W} IsBalanced (exec_bounds_check a0)
  unfolding exec_bounds_check
  exec_bounds_check-IsBalanced a0 = Keeps-bind _ _ (Keeps-gets _) (λ x0.
      Keeps-bind _ _ (Keeps-refuse _ _)
        (λ x1. search (move_rules, top_of-IsBalanced, check_bounds-IsBalanced)))

  pub exec_load_local_idx-IsBalanced :
      (a0 : Option ℤ) → Keeps {W = W} IsBalanced (exec_load_local_idx a0)
  unfolding exec_load_local_idx
  exec_load_local_idx-IsBalanced a0 = search (move_rules)

  pub exec_store_local_idx-IsBalanced :
      (a0 : Option ℤ) → Keeps {W = W} IsBalanced (exec_store_local_idx a0)
  unfolding exec_store_local_idx
  exec_store_local_idx-IsBalanced a0 = search (move_rules)

  pub exec_load_indirect-IsBalanced : Keeps {W = W} IsBalanced exec_load_indirect
  unfolding exec_load_indirect
  exec_load_indirect-IsBalanced = search (move_rules)

  pub exec_store_indirect-IsBalanced : Keeps {W = W} IsBalanced exec_store_indirect
  unfolding exec_store_indirect
  exec_store_indirect-IsBalanced = search (move_rules)

  pub copy_slot-IsBalanced :
      (a0 : ℤ) (a1 : ℤ) (a2 : ℕ) → Keeps {W = W} IsBalanced (copy_slot a0 a1 a2)
  unfolding copy_slot
  copy_slot-IsBalanced a0 a1 a2 = search (move_rules)

  copy_up-IsBalanced : (dst src : ℤ) (n i : ℕ) → Keeps {W = W} IsBalanced (copy_up dst src n i)
  unfolding copy_up
  copy_up-IsBalanced dst src zero i = search move_rules
  copy_up-IsBalanced dst src (suc n) i =
      Keeps-bind _ _ (copy_slot-IsBalanced dst src i) (λ u. copy_up-IsBalanced dst src n (i + 1))

  copy_down-IsBalanced : (dst src : ℤ) (n : ℕ) → Keeps {W = W} IsBalanced (copy_down dst src n)
  unfolding copy_down
  copy_down-IsBalanced dst src zero = search move_rules
  copy_down-IsBalanced dst src (suc i) =
      Keeps-bind _ _ (copy_slot-IsBalanced dst src i) (λ u. copy_down-IsBalanced dst src i)

  copy_slots-IsBalanced : (dst src n : ℤ) → Keeps {W = W} IsBalanced (copy_slots dst src n)
  unfolding copy_slots
  copy_slots-IsBalanced dst src (negsuc n) = search move_rules
  copy_slots-IsBalanced dst src (pos n) =
      search (move_rules, copy_up-IsBalanced, copy_down-IsBalanced)

  pub exec_memcpy_locals-IsBalanced : Keeps {W = W} IsBalanced exec_memcpy_locals
  unfolding exec_memcpy_locals
  exec_memcpy_locals-IsBalanced = search (move_rules, copy_slots-IsBalanced)

  fill_up-IsBalanced : (dst : ℤ) (value n i : ℕ) → Keeps {W = W} IsBalanced (fill_up dst value n i)
  unfolding fill_up
  fill_up-IsBalanced dst value zero i = search move_rules
  fill_up-IsBalanced dst value (suc n) i =
      Keeps-bind _ _ (set_local-IsBalanced _ value) (λ u. fill_up-IsBalanced dst value n (i + 1))

  fill_slots-IsBalanced :
      (dst : ℤ) (value : ℕ) (n : ℤ) → Keeps {W = W} IsBalanced (fill_slots dst value n)
  unfolding fill_slots
  fill_slots-IsBalanced dst value (negsuc n) = search move_rules
  fill_slots-IsBalanced dst value (pos n) = fill_up-IsBalanced dst value n 0

  pub exec_memset_locals-IsBalanced : Keeps {W = W} IsBalanced exec_memset_locals
  unfolding exec_memset_locals
  exec_memset_locals-IsBalanced = search (move_rules, fill_slots-IsBalanced)
