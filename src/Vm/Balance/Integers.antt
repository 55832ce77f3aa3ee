-- ===== src/Vm/Balance/Integers.antt =====
-- The balance of the stacks over the integer, logical and stack branches of `_run` in runtime/vm.py.
use quin_lang.Vm.Balance.Moves.{move_rules}
use quin_lang.Vm.Balance.{IsBalanced}
use quin_lang.Vm.Keeps.{Keeps, Keeps-bind, Keeps-modify, Keeps-operand}
use quin_lang.Vm.Ops.Integers.{
  Comparison, exec_add, exec_and, exec_bitnot, exec_bitwise, exec_cmp, exec_div, exec_dup, exec_jmp,
  exec_jnz, exec_jz, exec_mod, exec_mul, exec_neg, exec_not, exec_or, exec_pop, exec_push_int,
  exec_shl, exec_shr, exec_sub, exec_swap, exec_xor, peek_top, shift_amount,
}
use quin_lang.Prelude.{Bool, List, Option, [], negsuc, pos, ℕ, ℤ, ◌∷◌}

module _ {W : Type 0} where
  pub exec_push_int-IsBalanced : (a0 : Option ℤ) → Keeps {W = W} IsBalanced (exec_push_int a0)
  unfolding exec_push_int
  exec_push_int-IsBalanced a0 = search (move_rules)

  pub exec_add-IsBalanced : Keeps {W = W} IsBalanced exec_add
  unfolding exec_add
  exec_add-IsBalanced = search (move_rules)

  pub exec_sub-IsBalanced : Keeps {W = W} IsBalanced exec_sub
  unfolding exec_sub
  exec_sub-IsBalanced = search (move_rules)

  pub exec_mul-IsBalanced : Keeps {W = W} IsBalanced exec_mul
  unfolding exec_mul
  exec_mul-IsBalanced = search (move_rules)

  pub exec_div-IsBalanced : Keeps {W = W} IsBalanced exec_div
  unfolding exec_div
  exec_div-IsBalanced = search (move_rules)

  pub exec_mod-IsBalanced : Keeps {W = W} IsBalanced exec_mod
  unfolding exec_mod
  exec_mod-IsBalanced = search (move_rules)

  pub exec_bitwise-IsBalanced : (a0 : (ℕ → ℕ → ℕ)) → Keeps {W = W} IsBalanced (exec_bitwise a0)
  unfolding exec_bitwise
  exec_bitwise-IsBalanced a0 = search (move_rules)

  pub exec_xor-IsBalanced : Keeps {W = W} IsBalanced exec_xor
  unfolding exec_xor
  exec_xor-IsBalanced = search (move_rules, exec_bitwise-IsBalanced)

  pub exec_and-IsBalanced : Keeps {W = W} IsBalanced exec_and
  unfolding exec_and
  exec_and-IsBalanced = search (move_rules, exec_bitwise-IsBalanced)

  pub exec_or-IsBalanced : Keeps {W = W} IsBalanced exec_or
  unfolding exec_or
  exec_or-IsBalanced = search (move_rules, exec_bitwise-IsBalanced)

  shift_amount-IsBalanced : (n : ℤ) → Keeps {W = W} IsBalanced (shift_amount n)
  unfolding shift_amount
  shift_amount-IsBalanced (negsuc i) = search move_rules
  shift_amount-IsBalanced (pos n) = search move_rules

  pub exec_shl-IsBalanced : Keeps {W = W} IsBalanced exec_shl
  unfolding exec_shl
  exec_shl-IsBalanced = search (move_rules, shift_amount-IsBalanced)

  pub exec_shr-IsBalanced : Keeps {W = W} IsBalanced exec_shr
  unfolding exec_shr
  exec_shr-IsBalanced = search (move_rules, shift_amount-IsBalanced)

  pub exec_neg-IsBalanced : Keeps {W = W} IsBalanced exec_neg
  unfolding exec_neg
  exec_neg-IsBalanced = search (move_rules)

  pub exec_cmp-IsBalanced : (a0 : Comparison) → Keeps {W = W} IsBalanced (exec_cmp a0)
  unfolding exec_cmp
  exec_cmp-IsBalanced a0 = search (move_rules)

  pub exec_not-IsBalanced : Keeps {W = W} IsBalanced exec_not
  unfolding exec_not
  exec_not-IsBalanced = search (move_rules)

  pub exec_bitnot-IsBalanced : Keeps {W = W} IsBalanced exec_bitnot
  unfolding exec_bitnot
  exec_bitnot-IsBalanced = search (move_rules)

  pub exec_pop-IsBalanced : Keeps {W = W} IsBalanced exec_pop
  unfolding exec_pop
  exec_pop-IsBalanced = search (move_rules)

  peek_top-IsBalanced : (vs : List ℕ) (bs : List Bool) → Keeps {W = W} IsBalanced (peek_top vs bs)
  unfolding peek_top
  peek_top-IsBalanced (v ∷ vs) (b ∷ bs) = search move_rules
  peek_top-IsBalanced [] bs = search move_rules
  peek_top-IsBalanced (v ∷ vs) [] = search move_rules

  pub exec_dup-IsBalanced : Keeps {W = W} IsBalanced exec_dup
  unfolding exec_dup
  exec_dup-IsBalanced = search (move_rules, peek_top-IsBalanced)

  pub exec_swap-IsBalanced : Keeps {W = W} IsBalanced exec_swap
  unfolding exec_swap
  exec_swap-IsBalanced = search (move_rules)

  pub exec_jmp-IsBalanced : (arg : Option ℤ) → Keeps {W = W} IsBalanced (exec_jmp arg)
  unfolding exec_jmp
  exec_jmp-IsBalanced arg = Keeps-bind _ _ (Keeps-operand arg) (λ n. Keeps-modify _ (λ vm h. h))

  pub exec_jz-IsBalanced : (a0 : Option ℤ) → Keeps {W = W} IsBalanced (exec_jz a0)
  unfolding exec_jz
  exec_jz-IsBalanced a0 = search (move_rules, exec_jmp-IsBalanced)

  pub exec_jnz-IsBalanced : (a0 : Option ℤ) → Keeps {W = W} IsBalanced (exec_jnz a0)
  unfolding exec_jnz
  exec_jnz-IsBalanced a0 = search (move_rules, exec_jmp-IsBalanced)
