-- ===== src/Vm/Balance/Streams.antt =====
-- The balance of the stacks over the branches of `_run` in runtime/vm.py that print, read, work on
-- files or stop.
use quin_lang.Vm.Balance.Reals.{formatted-IsBalanced}
use quin_lang.Vm.Balance.Reading.{
  array_bytes-IsBalanced, content_or_empty-IsBalanced, file_op-IsBalanced, read_input-IsBalanced,
  write_out-IsBalanced,
}
use quin_lang.Vm.Balance.Allocs.{alloc_array-IsBalanced, string_from_text-IsBalanced}
use quin_lang.Vm.Balance.Texts.{pop_string-IsBalanced, push_string-IsBalanced}
use quin_lang.Vm.Balance.Moves.{move_rules, write_word-IsBalanced}
use quin_lang.Vm.Balance.{IsBalanced}
use quin_lang.Vm.Keeps.{Keeps, Keeps-bind}
use quin_lang.Program.{Text}
use quin_lang.Vm.Machine.{Setup}
use quin_lang.Vm.Ops.Streams.{
  argument, exec_argc, exec_argv, exec_file_delete, exec_file_error, exec_file_exists,
  exec_file_read, exec_file_read_bytes, exec_file_write, exec_file_write_bytes, exec_panic,
  exec_print_float, exec_print_int, exec_print_str, exec_read_line, push_text, store_bytes,
}
use quin_lang.Prelude.{Bool, List, [], negsuc, pos, ℕ, ℤ, ◌+◌, ◌∷◌}

module _ {W : Type 0} where
  pub exec_panic-IsBalanced : Keeps {W = W} IsBalanced exec_panic
  unfolding exec_panic
  exec_panic-IsBalanced = search (move_rules, pop_string-IsBalanced)

  store_bytes-IsBalanced : (addr : ℕ) (bs : List ℕ) → Keeps {W = W} IsBalanced (store_bytes addr bs)
  unfolding store_bytes
  store_bytes-IsBalanced addr [] = search move_rules
  store_bytes-IsBalanced addr (b ∷ bs) =
      Keeps-bind _ _ (write_word-IsBalanced addr b) (λ u. store_bytes-IsBalanced (addr + 2) bs)

module _ {F W : Type 0} (setup : Setup F W) where
  pub exec_print_int-IsBalanced : (a0 : Text) → Keeps {W = W} IsBalanced (exec_print_int setup a0)
  unfolding exec_print_int
  exec_print_int-IsBalanced a0 = search (move_rules, write_out-IsBalanced)

  pub exec_print_str-IsBalanced : (a0 : Text) → Keeps {W = W} IsBalanced (exec_print_str setup a0)
  unfolding exec_print_str
  exec_print_str-IsBalanced a0 = search (move_rules, write_out-IsBalanced, pop_string-IsBalanced)

  pub exec_print_float-IsBalanced :
      (a0 : Text) → Keeps {W = W} IsBalanced (exec_print_float setup a0)
  unfolding exec_print_float
  exec_print_float-IsBalanced a0 = search (move_rules, write_out-IsBalanced, formatted-IsBalanced)

  pub push_text-IsBalanced : (a0 : Text) → Keeps {W = W} IsBalanced (push_text setup a0)
  unfolding push_text
  push_text-IsBalanced a0 = search (move_rules, string_from_text-IsBalanced)

  pub exec_read_line-IsBalanced : Keeps {W = W} IsBalanced (exec_read_line setup)
  unfolding exec_read_line
  exec_read_line-IsBalanced = search (move_rules, read_input-IsBalanced, push_text-IsBalanced)

  pub exec_argc-IsBalanced : Keeps {W = W} IsBalanced (exec_argc setup)
  unfolding exec_argc
  exec_argc-IsBalanced = search (move_rules)

  argument-IsBalanced : (i : ℤ) → Keeps {W = W} IsBalanced (argument setup i)
  unfolding argument
  argument-IsBalanced (negsuc i) = search move_rules
  argument-IsBalanced (pos i) = search move_rules

  pub exec_argv-IsBalanced : Keeps {W = W} IsBalanced (exec_argv setup)
  unfolding exec_argv
  exec_argv-IsBalanced = search (move_rules, argument-IsBalanced, push_text-IsBalanced)

  pub exec_file_read-IsBalanced : Keeps {W = W} IsBalanced (exec_file_read setup)
  unfolding exec_file_read
  exec_file_read-IsBalanced = search (
    move_rules, pop_string-IsBalanced, file_op-IsBalanced, content_or_empty-IsBalanced,
    push_string-IsBalanced,
  )

  pub exec_file_write-IsBalanced : (a0 : Bool) → Keeps {W = W} IsBalanced (exec_file_write setup a0)
  unfolding exec_file_write
  exec_file_write-IsBalanced a0 = search (move_rules, pop_string-IsBalanced, file_op-IsBalanced)

  pub exec_file_exists-IsBalanced : Keeps {W = W} IsBalanced (exec_file_exists setup)
  unfolding exec_file_exists
  exec_file_exists-IsBalanced = search (move_rules, pop_string-IsBalanced, file_op-IsBalanced)

  pub exec_file_delete-IsBalanced : Keeps {W = W} IsBalanced (exec_file_delete setup)
  unfolding exec_file_delete
  exec_file_delete-IsBalanced = search (move_rules, pop_string-IsBalanced, file_op-IsBalanced)

  pub exec_file_error-IsBalanced : Keeps {W = W} IsBalanced (exec_file_error setup)
  unfolding exec_file_error
  exec_file_error-IsBalanced = search (move_rules, push_text-IsBalanced)

  pub exec_file_read_bytes-IsBalanced : Keeps {W = W} IsBalanced (exec_file_read_bytes setup)
  unfolding exec_file_read_bytes
  exec_file_read_bytes-IsBalanced = Keeps-bind _ _ pop_string-IsBalanced (λ x0.
      Keeps-bind _ _ (file_op-IsBalanced _) (λ x1. search (
        move_rules, pop_string-IsBalanced, file_op-IsBalanced, content_or_empty-IsBalanced,
        alloc_array-IsBalanced, store_bytes-IsBalanced,
      )))

  pub exec_file_write_bytes-IsBalanced : Keeps {W = W} IsBalanced (exec_file_write_bytes setup)
  unfolding exec_file_write_bytes
  exec_file_write_bytes-IsBalanced =
      search (move_rules, pop_string-IsBalanced, file_op-IsBalanced, array_bytes-IsBalanced)
