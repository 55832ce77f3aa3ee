-- ===== src/Vm/Machine.antt =====
-- The state of `QuinVM` in runtime/vm.py, what it may raise, and the actions that its methods are
-- made of. An action returns the machine beside an error too: `_locate` reads it after a fault.
use quin_lang.Vm.Floats.{FloatOps}
use quin_lang.Vm.Io.{ProgramIo}
use quin_lang.Prelude.{
  Bool, List, Option, Result, [], err, if◌then◌else◌, none, ok, pos, some, ℕ, ℤ, ◌*◌, ◌+◌,
}
use quin_lang.Program.{FunctionInfo, Instruction, Strings, StructLayout, Text}

-- `Fault` has a constructor for each VMError message, with the values that the message shows, and one
-- for each exception of Python that a malformed program can cause instead.
pub data Fault : Type 0 where
  stack_underflow : Fault
  local_range : ℤ → ℕ → Fault
  unknown_type_id : ℕ → ℕ → Fault
  out_of_memory : Fault
  alloc_unknown_type : ℤ → Fault
  negative_array array_too_long : ℤ → Fault
  null_array : Fault
  not_an_array : ℕ → Fault
  array_bounds : ℤ → ℕ → Fault
  negative_size : ℤ → Fault
  string_too_long : ℕ → Fault
  wide_character : ℕ → Fault
  not_bytes : Fault
  array_of_references : Fault
  not_a_byte : ℕ → ℤ → Fault
  null_string : Fault
  not_a_string : ℕ → Fault
  unknown_string_id : ℤ → Fault
  heap_range : ℤ → Fault
  invalid_function : ℤ → Fault
  division_by_zero modulo_by_zero : Fault
  shift_count : ℤ → Fault
  float_overflow float_division_by_zero float_to_int_range : Fault
  char_at_range : ℤ → ℕ → Fault
  slice_range : ℤ → ℤ → ℕ → Fault
  char_code : ℤ → Fault
  unbalanced_stack : ℕ → ℕ → Fault
  index_bounds : ℤ → ℤ → Fault
  negative_count : ℤ → Fault
  null_variant : Fault
  not_a_variant : ℕ → Fault
  unknown_variant : ℤ → Fault
  argv_bounds : ℤ → ℕ → Fault
  panicked : Text → Fault
  null_pointer : Fault
  no_main : Fault
  -- IndexError, TypeError, OverflowError, KeyError, UnicodeEncodeError and ZeroDivisionError
  index_error type_error overflow_error key_error encode_error zero_division : Fault
  -- a loop of the model was cut off, which the source has no counterpart of
  out_of_fuel : Fault

-- a suspended caller
pub record Frame : Type 0 where
  pub return_pc : ℤ
  pub locals : List ℕ
  pub stack_base : ℕ
  pub fn_index : ℕ

pub record HeapStats : Type 0 where
  pub collections : ℕ
  pub objects_freed : ℕ
  pub bytes_freed : ℕ
  pub objects_allocated : ℕ
  pub objects_moved : ℕ

abbrev pub no_stats : HeapStats
no_stats = record {
  collections = 0;
  objects_freed = 0;
  bytes_freed = 0;
  objects_allocated = 0;
  objects_moved = 0;
}

-- What the constructor of `QuinVM` is given and no method changes. `W` is the world of `self.io`.
pub record Setup (F W : Type 0) : Type 0 where
  pub code : List Instruction
  pub functions : List FunctionInfo
  pub strings : Strings
  pub structs : List StructLayout
  pub args : List Text
  pub io : ProgramIo W
  pub floats : FloatOps F

-- What the methods change. The stacks are lists with the top first; the heap is its bytes by
-- address, with `heap_size` of them.
pub record Vm (W : Type 0) : Type 0 where
  pub stack : List ℕ
  pub stack_is_ref : List Bool
  pub call_stack : List Frame
  pub pc : ℤ
  pub locals : List ℕ
  pub current_fn : ℕ
  pub frame_base : ℕ
  pub heap : ℕ → ℕ
  pub heap_ptr : ℕ
  pub stats : HeapStats
  pub literals : List ℕ
  pub variants : List ℕ
  pub file_error : Text
  pub world : W

abbrev pub heap_size : ℕ
heap_size = 64 * 1024

abbrev pub null_addr : ℕ
null_addr = 0

abbrev pub header_bytes : ℕ
header_bytes = 4

abbrev pub heap_start : ℕ
heap_start = null_addr + 2

-- the state that `__init__` leaves
abbrev pub init : {W : Type 0} → W → Vm W
init w = record {
  stack = [];
  stack_is_ref = [];
  call_stack = [];
  pc = pos 0;
  locals = [];
  current_fn = 0;
  frame_base = 0;
  heap = λ a. 0;
  heap_ptr = heap_start;
  stats = no_stats;
  literals = [];
  variants = [];
  file_error = [];
  world = w;
}

abbrev pub Exec : Type 0 → Type 0 → Type 0
Exec W A = Vm W → Result Fault A × Vm W

module _ {W A : Type 0} where
  unfoldable pub pure : A → Exec W A
  pure a vm = (ok a, vm)

  unfoldable pub raise : Fault → Exec W A
  raise e vm = (err e, vm)

  unfoldable pub lift : Result Fault A → Exec W A
  lift r vm = (r, vm)

  unfoldable pub gets : (Vm W → A) → Exec W A
  gets f vm = (ok (f vm), vm)

module _ {W : Type 0} where
  unfoldable pub modify : (Vm W → Vm W) → Exec W (Unit {0})
  modify f vm = (ok tt, f vm)

  -- raise if the test holds
  unfoldable pub refuse : Bool → Fault → Exec W (Unit {0})
  refuse b e vm = (if b then err e else ok tt, vm)

module _ {W A B : Type 0} where
  abbrev pub resume : Result Fault A → (A → Exec W B) → Exec W B
  resume (ok a) k vm = k a vm
  resume (err e) k vm = (err e, vm)

  infixl 5 ◌>>=◌ ◌>>◌
  unfoldable pub ◌>>=◌ : Exec W A → (A → Exec W B) → Exec W B
  ◌>>=◌ m k vm = let (r, vm') = m vm in resume r k vm'

  abbrev pub ◌>>◌ : Exec W A → Exec W B → Exec W B
  m >> n = m >>= λ _. n

-- the value, or the fault where there is none
unfoldable pub require : {W A : Type 0} → Option A → Fault → Exec W A
require none e vm = (err e, vm)
require (some a) e vm = (ok a, vm)

-- raise if there is a value that is at fault
unfoldable pub forbid : {W A : Type 0} → Option A → (A → Fault) → Exec W (Unit {0})
forbid none fault vm = (ok tt, vm)
forbid (some a) fault vm = (err (fault a), vm)

-- int(arg), a TypeError if the instruction has no operand
unfoldable pub operand : {W : Type 0} → Option ℤ → Exec W ℤ
operand none vm = (err type_error, vm)
operand (some n) vm = (ok n, vm)
