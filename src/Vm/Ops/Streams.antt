-- ===== src/Vm/Ops/Streams.antt =====
-- The branches of `_run` in runtime/vm.py that print, read input and arguments, work on files or stop
-- the program.
use quin_lang.Prelude.{
  Bool, List, Option, [], false, get_elem?, if◌then◌else◌, length, negsuc, none, pos, some, str_ℤ,
  true, ℕ, ℤ, ◌++◌, ◌+◌, ◌∷◌,
}
use quin_lang.Program.{Text}
use quin_lang.Vm.Machine.{
  Exec, Setup, argv_bounds, gets, panicked, pure, raise, require, ◌>>=◌, ◌>>◌,
}
use quin_lang.Vm.Operands.{pop, pop_signed, push}
use quin_lang.Vm.Objects.{array_bytes}
use quin_lang.Vm.Store.{write_word}
use quin_lang.Vm.Alloc.{alloc_array, string_from_text}
use quin_lang.Vm.Files.{content_or_empty, file_op, read_input, write_out}
use quin_lang.Vm.Ops.Texts.{pop_string, push_string}
use quin_lang.Vm.Ops.Reals.{formatted}

-- the newline of the PRINTLN opcodes
abbrev pub newline : Text
newline = 10 ∷ []

-- 1 if ok else 0
unfoldable pub worked : Option (Unit {0}) → ℤ
worked none = pos 0
worked (some u) = pos 1

module _ {W : Type 0} where
  -- `PANIC`
  unfoldable pub exec_panic : Exec W (Unit {0})
  exec_panic = do message ← pop_string; raise (panicked message)

  -- for index, byte in enumerate(content)
  unfoldable pub store_bytes : ℕ → List ℕ → Exec W (Unit {0})
  store_bytes addr [] = pure tt
  store_bytes addr (b ∷ bs) = do write_word addr b; store_bytes (addr + 2) bs

module _ {F W : Type 0} (setup : Setup F W) where
  -- The PRINT opcodes and, with the newline, the PRINTLN ones.
  unfoldable pub exec_print_int : Text → Exec W (Unit {0})
  exec_print_int end = do n ← pop_signed; write_out setup (str_ℤ n ++ end)

  unfoldable pub exec_print_str : Text → Exec W (Unit {0})
  exec_print_str end = do s ← pop_string; write_out setup (s ++ end)

  unfoldable pub exec_print_float : Text → Exec W (Unit {0})
  exec_print_float end = do s ← formatted setup.floats; write_out setup (s ++ end)

  -- self._push(self._string_from_text(text, what), True)
  unfoldable pub push_text : Text → Exec W (Unit {0})
  push_text s = do addr ← string_from_text setup s; push (pos addr) true

  unfoldable pub exec_read_line : Exec W (Unit {0})
  exec_read_line = do line ← read_input setup; push_text line

  unfoldable pub exec_argc : Exec W (Unit {0})
  exec_argc = push (pos (length setup.args)) false

  unfoldable pub argument : ℤ → Exec W Text
  argument (negsuc i) = raise (argv_bounds (negsuc i) (length setup.args))
  argument (pos i) = require (get_elem? setup.args i) (argv_bounds (pos i) (length setup.args))

  unfoldable pub exec_argv : Exec W (Unit {0})
  unfolding argument
  exec_argv = do index ← pop_signed; s ← argument index; push_text s

  -- `FILE_READ`
  unfoldable pub exec_file_read : Exec W (Unit {0})
  exec_file_read = do
    path ← pop_string
    result ← file_op (setup.io.read_file path)
    content ← content_or_empty result
    push_string setup content

  -- `FILE_WRITE` and `FILE_APPEND`
  unfoldable pub exec_file_write : Bool → Exec W (Unit {0})
  exec_file_write append = do
    content ← pop_string
    path ← pop_string
    result ← file_op (setup.io.write_file path content append)
    push (worked result) false

  unfoldable pub exec_file_exists : Exec W (Unit {0})
  exec_file_exists = do
    path ← pop_string
    result ← file_op (setup.io.file_exists path)
    push (elim result [ none ↦ pos 0 | some present ↦ if present then pos 1 else pos 0 ]) false

  unfoldable pub exec_file_delete : Exec W (Unit {0})
  exec_file_delete = do
    path ← pop_string
    result ← file_op (setup.io.delete_file path)
    push (worked result) false

  unfoldable pub exec_file_error : Exec W (Unit {0})
  exec_file_error = do text ← gets (λ vm. vm.file_error); push_text text

  -- `FILE_READ_BYTES`
  unfoldable pub exec_file_read_bytes : Exec W (Unit {0})
  exec_file_read_bytes = do
    path ← pop_string
    result ← file_op (setup.io.read_file path)
    content ← content_or_empty result
    ref ← alloc_array setup (pos (length content)) false
    store_bytes ref content
    push (pos ref) true

  -- `FILE_WRITE_BYTES`
  unfoldable pub exec_file_write_bytes : Exec W (Unit {0})
  exec_file_write_bytes = do
    ref ← pop
    content ← array_bytes ref
    path ← pop_string
    result ← file_op (setup.io.write_file path content false)
    push (worked result) false
