-- ===== src/Vm/Balance/Texts.antt =====
-- The balance of the stacks over the string branches of `_run` in runtime/vm.py.
use quin_lang.Vm.Balance.Reading.{literal-IsBalanced, string_bytes-IsBalanced}
use quin_lang.Vm.Balance.Reals.{formatted-IsBalanced}
use quin_lang.Vm.Balance.Allocs.{alloc_string-IsBalanced}
use quin_lang.Vm.Balance.Moves.{move_rules}
use quin_lang.Vm.Balance.{IsBalanced}
use quin_lang.Vm.Keeps.{Keeps}
use quin_lang.Vm.Machine.{Setup}
use quin_lang.Vm.Ops.Texts.{
  char_at, exec_load_str, exec_str_char_at, exec_str_cmp, exec_str_concat, exec_str_from_char,
  exec_str_from_float, exec_str_from_int, exec_str_len, exec_str_slice, one_char, pop_string,
  push_string, slice,
}
use quin_lang.Prelude.{List, Option, negsuc, pos, ℕ, ℤ}

module _ {W : Type 0} where
  pub pop_string-IsBalanced : Keeps {W = W} IsBalanced pop_string
  unfolding pop_string
  pop_string-IsBalanced = search (move_rules, string_bytes-IsBalanced)

  pub exec_load_str-IsBalanced : (a0 : Option ℤ) → Keeps {W = W} IsBalanced (exec_load_str a0)
  unfolding exec_load_str
  exec_load_str-IsBalanced a0 = search (move_rules, pop_string-IsBalanced, literal-IsBalanced)

  pub exec_str_cmp-IsBalanced : Keeps {W = W} IsBalanced exec_str_cmp
  unfolding exec_str_cmp
  exec_str_cmp-IsBalanced = search (move_rules, pop_string-IsBalanced)

  pub exec_str_len-IsBalanced : Keeps {W = W} IsBalanced exec_str_len
  unfolding exec_str_len
  exec_str_len-IsBalanced = search (move_rules, pop_string-IsBalanced)

  char_at-IsBalanced : (s : List ℕ) (i : ℤ) → Keeps {W = W} IsBalanced (char_at s i)
  unfolding char_at
  char_at-IsBalanced s (negsuc i) = search move_rules
  char_at-IsBalanced s (pos i) = search move_rules

  pub exec_str_char_at-IsBalanced : Keeps {W = W} IsBalanced exec_str_char_at
  unfolding exec_str_char_at
  exec_str_char_at-IsBalanced = search (move_rules, pop_string-IsBalanced, char_at-IsBalanced)

  slice-IsBalanced : (s : List ℕ) (start end : ℤ) → Keeps {W = W} IsBalanced (slice s start end)
  unfolding slice
  slice-IsBalanced s (pos i) (pos j) = search move_rules
  slice-IsBalanced s (pos i) (negsuc j) = search move_rules
  slice-IsBalanced s (negsuc i) end = search move_rules

module _ {F W : Type 0} (setup : Setup F W) where
  pub push_string-IsBalanced : (a0 : List ℕ) → Keeps {W = W} IsBalanced (push_string setup a0)
  unfolding push_string
  push_string-IsBalanced a0 = search (move_rules, pop_string-IsBalanced, alloc_string-IsBalanced)

  pub exec_str_concat-IsBalanced : Keeps {W = W} IsBalanced (exec_str_concat setup)
  unfolding exec_str_concat
  exec_str_concat-IsBalanced = search (move_rules, pop_string-IsBalanced, push_string-IsBalanced)

  pub exec_str_slice-IsBalanced : Keeps {W = W} IsBalanced (exec_str_slice setup)
  unfolding exec_str_slice
  exec_str_slice-IsBalanced =
      search (move_rules, pop_string-IsBalanced, slice-IsBalanced, push_string-IsBalanced)

  pub exec_str_from_float-IsBalanced : Keeps {W = W} IsBalanced (exec_str_from_float setup)
  unfolding exec_str_from_float
  exec_str_from_float-IsBalanced =
      search (move_rules, pop_string-IsBalanced, formatted-IsBalanced, push_string-IsBalanced)

  pub exec_str_from_int-IsBalanced : Keeps {W = W} IsBalanced (exec_str_from_int setup)
  unfolding exec_str_from_int
  exec_str_from_int-IsBalanced = search (move_rules, pop_string-IsBalanced, push_string-IsBalanced)

  one_char-IsBalanced : (c : ℤ) → Keeps {W = W} IsBalanced (one_char setup c)
  unfolding one_char
  one_char-IsBalanced (negsuc i) = search move_rules
  one_char-IsBalanced (pos c) = search move_rules

  pub exec_str_from_char-IsBalanced : Keeps {W = W} IsBalanced (exec_str_from_char setup)
  unfolding exec_str_from_char
  exec_str_from_char-IsBalanced =
      search (move_rules, pop_string-IsBalanced, one_char-IsBalanced, push_string-IsBalanced)
