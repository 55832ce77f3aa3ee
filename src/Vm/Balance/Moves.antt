-- ===== src/Vm/Balance/Moves.antt =====
-- The balance of the stacks over locals, floats and heap words of runtime/vm.py.
use quin_lang.Vm.Floats.{FloatOps}
use quin_lang.Prelude.{Bool, arith, negsuc, pos, suc, zero, ℕ, ℤ, ◌+◌}
use quin_lang.Vm.Operands.{
  local, local_float, pop_float, pop_signed, push_float, set_local, set_local_float,
}
use quin_lang.Vm.Store.{check_heap_word, set_mark, write_header, write_word, zero_words}
use quin_lang.Vm.Keeps.{Keeps, Keeps-bind, keeps_rules}
use quin_lang.Vm.Balance.{
  IsBalanced, pop-IsBalanced, pop_tagged-IsBalanced, push-IsBalanced, push_raw-IsBalanced,
}

module _ {W : Type 0} where
  pub pop_signed-IsBalanced : Keeps {W = W} IsBalanced pop_signed
  unfolding pop_signed
  pop_signed-IsBalanced = search (keeps_rules, pop-IsBalanced)

  pub local-IsBalanced : (i : ℤ) → Keeps {W = W} IsBalanced (local i)
  unfolding local
  local-IsBalanced i = record { at = λ vm h. ground arith }

  pub set_local-IsBalanced : (i : ℤ) (v : ℕ) → Keeps {W = W} IsBalanced (set_local i v)
  unfolding set_local
  set_local-IsBalanced i v = record { at = λ vm h. ground arith }

  pub write_word-IsBalanced : (addr v : ℕ) → Keeps {W = W} IsBalanced (write_word addr v)
  unfolding write_word
  write_word-IsBalanced addr v = record { at = λ vm h. ground arith }

pub ruleset move_rules = (
  keeps_rules, push_raw-IsBalanced, push-IsBalanced, pop_tagged-IsBalanced, pop-IsBalanced,
  pop_signed-IsBalanced, local-IsBalanced, set_local-IsBalanced, write_word-IsBalanced,
)

module _ {W : Type 0} where
  pub write_header-IsBalanced : (hdr k n : ℕ) → Keeps {W = W} IsBalanced (write_header hdr k n)
  unfolding write_header
  write_header-IsBalanced hdr k n = search move_rules

  pub set_mark-IsBalanced : (hdr : ℕ) (b : Bool) → Keeps {W = W} IsBalanced (set_mark hdr b)
  unfolding set_mark
  set_mark-IsBalanced hdr b = search move_rules

  pub zero_words-IsBalanced : (n addr : ℕ) → Keeps {W = W} IsBalanced (zero_words n addr)
  unfolding zero_words
  zero_words-IsBalanced zero addr = search move_rules
  zero_words-IsBalanced (suc n) addr =
      Keeps-bind _ _ (write_word-IsBalanced addr 0) (λ _. zero_words-IsBalanced n (addr + 2))

  pub check_heap_word-IsBalanced : (addr : ℤ) → Keeps {W = W} IsBalanced (check_heap_word addr)
  unfolding check_heap_word
  check_heap_word-IsBalanced (pos addr) = search move_rules
  check_heap_word-IsBalanced (negsuc n) = search move_rules

module _ {F W : Type 0} (fl : FloatOps F) where
  pub push_float-IsBalanced : (v : F) → Keeps {W = W} IsBalanced (push_float fl v)
  unfolding push_float
  push_float-IsBalanced v = search move_rules

  pub pop_float-IsBalanced : Keeps {W = W} IsBalanced (pop_float fl)
  unfolding pop_float
  pop_float-IsBalanced = search move_rules

  pub local_float-IsBalanced : (i : ℤ) → Keeps {W = W} IsBalanced (local_float fl i)
  unfolding local_float
  local_float-IsBalanced i = search move_rules

  pub set_local_float-IsBalanced :
      (i : ℤ) (v : F) → Keeps {W = W} IsBalanced (set_local_float fl i v)
  unfolding set_local_float
  set_local_float-IsBalanced i v = search move_rules
