-- ===== src/Vm/Balance/Objects.antt =====
-- The balance of the stacks over the heap branches of `_run` in runtime/vm.py.
use quin_lang.Vm.Balance.Reading.{
  array_at-IsBalanced, element_addr-IsBalanced, field_is_ref-IsBalanced,
}
use quin_lang.Vm.Balance.Allocs.{
  alloc_array-IsBalanced, alloc_raw-IsBalanced, alloc_struct-IsBalanced,
}
use quin_lang.Vm.Balance.Moves.{
  check_heap_word-IsBalanced, move_rules, pop_float-IsBalanced, push_float-IsBalanced,
}
use quin_lang.Vm.Balance.{IsBalanced, pop-IsBalanced}
use quin_lang.Program.{StructLayout}
use quin_lang.Vm.Keeps.{Keeps, Keeps-bind, Keeps-refuse}
use quin_lang.Vm.Ops.Objects.{
  exec_alloc, exec_alloc_typed, exec_array_get, exec_array_len, exec_array_set, exec_heap_load,
  exec_heap_load_field, exec_heap_load_field_f, exec_heap_store, exec_heap_store_field,
  exec_heap_store_field_f, exec_load_variant, exec_new_array, exec_tag_of, field_addr, float_bits,
  is_struct, variant_at,
}
use quin_lang.Vm.Machine.{Setup}
use quin_lang.Vm.Floats.{FloatOps}
use quin_lang.Prelude.{List, Option, negsuc, pos, ℕ, ℤ}

module _ {W : Type 0} where
  pub is_struct-IsBalanced : (a0 : ℕ) → Keeps {W = W} IsBalanced (is_struct a0)
  unfolding is_struct
  is_struct-IsBalanced a0 = search (move_rules)

  pub exec_tag_of-IsBalanced : Keeps {W = W} IsBalanced exec_tag_of
  unfolding exec_tag_of
  exec_tag_of-IsBalanced =
      Keeps-bind _ _ pop-IsBalanced
        (λ x0. Keeps-bind _ _ (Keeps-refuse _ _) (λ x1. search (move_rules, is_struct-IsBalanced)))

  variant_at-IsBalanced : (id : ℤ) → Keeps {W = W} IsBalanced (variant_at id)
  unfolding variant_at
  variant_at-IsBalanced (negsuc i) = search move_rules
  variant_at-IsBalanced (pos id) = search move_rules

  pub exec_load_variant-IsBalanced :
      (a0 : Option ℤ) → Keeps {W = W} IsBalanced (exec_load_variant a0)
  unfolding exec_load_variant
  exec_load_variant-IsBalanced a0 = search (move_rules, variant_at-IsBalanced)

  pub exec_array_len-IsBalanced : Keeps {W = W} IsBalanced exec_array_len
  unfolding exec_array_len
  exec_array_len-IsBalanced = search (move_rules, array_at-IsBalanced)

  pub exec_array_get-IsBalanced : Keeps {W = W} IsBalanced exec_array_get
  unfolding exec_array_get
  exec_array_get-IsBalanced = search (move_rules, element_addr-IsBalanced)

  pub exec_array_set-IsBalanced : Keeps {W = W} IsBalanced exec_array_set
  unfolding exec_array_set
  exec_array_set-IsBalanced = search (move_rules, element_addr-IsBalanced)

  pub exec_heap_load-IsBalanced : Keeps {W = W} IsBalanced exec_heap_load
  unfolding exec_heap_load
  exec_heap_load-IsBalanced = Keeps-bind _ _ pop-IsBalanced (λ x0.
      Keeps-bind _ _ (Keeps-refuse _ _) (λ x1. search (move_rules, check_heap_word-IsBalanced)))

  pub exec_heap_store-IsBalanced : Keeps {W = W} IsBalanced exec_heap_store
  unfolding exec_heap_store
  exec_heap_store-IsBalanced =
      Keeps-bind _ _ pop-IsBalanced (λ x0.
        Keeps-bind _ _ pop-IsBalanced (λ x1. search (move_rules, check_heap_word-IsBalanced)))

  pub field_addr-IsBalanced : (a0 : ℕ) (a1 : Option ℤ) → Keeps {W = W} IsBalanced (field_addr a0 a1)
  unfolding field_addr
  field_addr-IsBalanced a0 a1 = search (move_rules)

  pub exec_heap_load_field-IsBalanced :
      (a0 : List StructLayout) (a1 : Option ℤ)
      → Keeps {W = W} IsBalanced (exec_heap_load_field a0 a1)
  unfolding exec_heap_load_field
  exec_heap_load_field-IsBalanced a0 a1 = Keeps-bind _ _ pop-IsBalanced (λ x0.
      Keeps-bind _ _ (field_addr-IsBalanced _ _) (λ x1.
        search
          (move_rules, check_heap_word-IsBalanced, field_addr-IsBalanced, field_is_ref-IsBalanced)))

  pub exec_heap_store_field-IsBalanced :
      (a0 : Option ℤ) → Keeps {W = W} IsBalanced (exec_heap_store_field a0)
  unfolding exec_heap_store_field
  exec_heap_store_field-IsBalanced a0 = Keeps-bind _ _ pop-IsBalanced (λ x0.
      Keeps-bind _ _ pop-IsBalanced
        (λ x1. search (move_rules, check_heap_word-IsBalanced, field_addr-IsBalanced)))

module _ {F W : Type 0} (fl : FloatOps F) where
  pub exec_heap_load_field_f-IsBalanced :
      (a0 : Option ℤ) → Keeps {W = W} IsBalanced (exec_heap_load_field_f fl a0)
  unfolding exec_heap_load_field_f
  exec_heap_load_field_f-IsBalanced a0 = Keeps-bind _ _ pop-IsBalanced (λ x0.
      Keeps-bind _ _ (field_addr-IsBalanced _ _) (λ x1.
        search
          (move_rules, check_heap_word-IsBalanced, field_addr-IsBalanced, push_float-IsBalanced)))

  pub float_bits-IsBalanced : Keeps {W = W} IsBalanced (float_bits fl)
  unfolding float_bits
  float_bits-IsBalanced = search (move_rules, pop_float-IsBalanced)

  pub exec_heap_store_field_f-IsBalanced :
      (a0 : Option ℤ) → Keeps {W = W} IsBalanced (exec_heap_store_field_f fl a0)
  unfolding exec_heap_store_field_f
  exec_heap_store_field_f-IsBalanced a0 = Keeps-bind _ _ float_bits-IsBalanced (λ x0.
      Keeps-bind _ _ pop-IsBalanced (λ x1.
        search
          (move_rules, check_heap_word-IsBalanced, field_addr-IsBalanced, float_bits-IsBalanced)))

module _ {F W : Type 0} (setup : Setup F W) where
  pub exec_alloc-IsBalanced : Keeps {W = W} IsBalanced (exec_alloc setup)
  unfolding exec_alloc
  exec_alloc-IsBalanced = search (move_rules, alloc_raw-IsBalanced)

  pub exec_alloc_typed-IsBalanced :
      (a0 : Option ℤ) → Keeps {W = W} IsBalanced (exec_alloc_typed setup a0)
  unfolding exec_alloc_typed
  exec_alloc_typed-IsBalanced a0 = search (move_rules, alloc_struct-IsBalanced)

  pub exec_new_array-IsBalanced :
      (a0 : Option ℤ) → Keeps {W = W} IsBalanced (exec_new_array setup a0)
  unfolding exec_new_array
  exec_new_array-IsBalanced a0 = search (move_rules, alloc_array-IsBalanced)
