-- ===== src/Vm/Tests.antt =====
-- A small program on the machine, with its input and output in memory.
use quin_lang.Vm.Calls.Arguments.{enter_function_lem}
use quin_lang.Vm.Operands.Stacked.{stacked}
use quin_lang.Vm.Objects.Elements.{exec_array_get-exec_array_set}
use quin_lang.Vm.Objects.Arrays.{IsArray, alloc_array-element_addr, get_element}
use quin_lang.Vm.Ops.Objects.{exec_array_get, exec_array_set}
use quin_lang.Vm.Objects.Rows.{alloc_string-Walk}
use quin_lang.Vm.Heap.Walk.{Walk, blocks-Walk, done}
use quin_lang.Vm.Keeps.{Keeps}
use quin_lang.Vm.Objects.Texts.{alloc_string-string_bytes}
use mathlib.Core.Bool.{xor}
use quin_lang.Bytecode.OpCode.{OpCode}
use quin_lang.Vm.Calls.Return.{exec_ret-entered}
use quin_lang.Vm.Operands.{at_base, pop, pop_both, pop_signed, push, push_raw}
use quin_lang.Vm.Collect.Untouched.{collect-IsAlike}
use quin_lang.Vm.Ops.Slots.Copy.{copy_slots_lem}
use quin_lang.Vm.Heap.Bytes.{put_word_outside, word_at-ext, word_at-put_word}
use quin_lang.Vm.Ops.Integers.Signed.{IsWrapped, exec_add_lem, exec_sub_lem}
use quin_lang.Vm.Objects.{string_bytes}
use quin_lang.Vm.Ops.Integers.{exec_add, exec_div, exec_push_int, exec_sub}
use quin_lang.Vm.Words.Arith.{to_signed-to_word, to_word-to_signed, trunc_div_lem}
use quin_lang.Vm.Calls.{enter_function, entered, exec_ret, function_at, resume_caller}
use quin_lang.Vm.Collect.{collect}
use quin_lang.Vm.Heap.{blocks, kind_valarray, put_word, word_at}
use quin_lang.Vm.Capture.{CaptureIo, capture_io}
use quin_lang.Vm.Machine.{
  Setup, Vm, gets, heap_start, init, lift, modify, operand, pure, refuse, require, ◌>>=◌,
}
use quin_lang.Vm.Words.{quotient, to_signed, to_word, trunc_div, word_mod}
use quin_lang.Program.{FunctionInfo}
use quin_lang.Vm.Alloc.{alloc_array, alloc_string, round_payload}
use quin_lang.Vm.Balance.{IsBalanced}
use quin_lang.Vm.Run.{after_step, dispatch, fetch, in_code, main_name, proceed, run, step}
use quin_lang.Vm.Ops.Slots.{copy_slots}
use quin_lang.Vm.Collect.Shape.{IsAlike}
use quin_lang.Vm.Floats.{FloatOps}
use quin_lang.Vm.Balance.Rounds.{Ended, dispatch-IsBalanced, run-IsBalanced}
use quin_lang.Vm.Ops.Slots.Overlap.{IsMoved, IsWords}
use quin_lang.Prelude.{
  List, [], abs_ℤ, arith, eqb_ℤ, false, get_or, inl, is_neg, length, ltb_ℤ, neg_ℤ, negsuc, none, ok,
  pos, pos_part, refl, reverse, some, str_ℤ, suc, true, zero, ℕ, ℤ, ◌%◌, ◌*ℤ◌, ◌+ℤ◌, ◌-ℤ◌, ◌<◌, ◌∙◌,
  ◌∷◌, ◌≡◌, ◌⊎◌,
}

-- integers in place of floats, which the programs below do not use
abbrev pub whole_numbers : FloatOps ℤ
whole_numbers = record {
  unpack = λ n. pos n;
  pack = λ v. some (pos_part v);
  is_finite = λ v. true;
  add = λ a b. a +ℤ b;
  sub = λ a b. a -ℤ b;
  mul = λ a b. a *ℤ b;
  div = quotient;
  neg = neg_ℤ;
  lt = ltb_ℤ;
  eq = eqb_ℤ;
  is_zero = λ v. eqb_ℤ v (pos 0);
  of_int = λ v. v;
  truncate = λ v. some v;
  general = λ digits v. str_ℤ v;
  parse = λ s. pos 0;
  repr = str_ℤ;
}

abbrev pub main_function : FunctionInfo
main_function = record {
  name = main_name;
  entry_pc = 0;
  num_locals = 0;
  num_params = 0;
  ref_slots = [];
  param_words = [];
  locals = [];
  source_file = [];
}

-- `fn main(): int { return 7 / 2; }`
abbrev pub halves : Setup ℤ CaptureIo
halves = record {
  code =
      record { op = OpCode.push_int; arg = some (pos 7) }
      ∷ record { op = OpCode.push_int; arg = some (pos 2) }
      ∷ record { op = OpCode.div; arg = none }
      ∷ record { op = OpCode.ret; arg = none }
      ∷ [];
  functions = main_function ∷ [];
  strings = [];
  structs = [];
  args = [];
  io = capture_io;
  floats = whole_numbers;
}

abbrev no_files : CaptureIo
no_files = record { chunks = []; files = []; pending = [] }

abbrev pub start : Vm CaptureIo
start = init no_files

-- `start` with three locals
abbrev framed : Vm CaptureIo
framed = record start { locals = 1 ∷ 2 ∷ 3 ∷ [] }

halves_returns : run halves 4 start ≡ some (ok (pos 3), record start { pc = pos 4 })
unfolding run after_step step in_code fetch dispatch proceed exec_push_int exec_div exec_ret
    resume_caller pop_signed pop pop_both push push_raw at_base gets modify pure lift refuse operand
    to_word to_signed trunc_div ◌>>=◌ ◌+ℤ◌ xor require quotient
halves_returns = refl

dispatch-IsBalanced_example : Keeps IsBalanced (dispatch halves OpCode.swap none)
dispatch-IsBalanced_example = dispatch-IsBalanced halves OpCode.swap none

to_signed-to_word_example : to_signed (to_word (negsuc 2)) ≡ negsuc 2
to_signed-to_word_example = to_signed-to_word (negsuc 2) (omega arith) (omega arith)

to_word-to_signed_example : to_word (to_signed 65533) ≡ 65533
to_word-to_signed_example = to_word-to_signed 65533 (omega arith)

trunc_div_lem_example :
    (q : ℤ) × (trunc_div (negsuc 6) (pos 2) ≡ some q)
    × (abs_ℤ (negsuc 6 -ℤ q *ℤ pos 2) < 2)
    × ((negsuc 6 -ℤ q *ℤ pos 2 ≡ pos 0) ⊎ (is_neg (negsuc 6 -ℤ q *ℤ pos 2) ≡ true))
trunc_div_lem_example = trunc_div_lem (negsuc 6) (pos 2) (omega arith)

start-IsBalanced : IsBalanced start
start-IsBalanced = (refl, omega arith, tt)

run-IsBalanced_example : Ended (run halves 4 start)
run-IsBalanced_example = run-IsBalanced halves 4 start start-IsBalanced

collect-IsAlike_example : IsAlike halves.functions framed (collect halves framed).1
collect-IsAlike_example = collect-IsAlike halves framed

exec_ret-entered_example :
    exec_ret (record (entered 0 main_function [] framed) {
      stack = 9 ∷ [];
      stack_is_ref = false ∷ [];
      locals = [];
      pc = pos 5;
    })
    ≡ (ok none, record framed { stack = 9 ∷ []; stack_is_ref = false ∷ [] })
exec_ret-entered_example = exec_ret-entered 0 main_function [] framed 9 false [] (pos 5)

alloc_string-string_bytes_example :
    ((alloc_string halves (104 ∷ 105 ∷ 33 ∷ []) >>= string_bytes) start).0
    ≡ ok (104 ∷ 105 ∷ 33 ∷ [])
unfolding round_payload
alloc_string-string_bytes_example =
    alloc_string-string_bytes halves (104 ∷ 105 ∷ 33 ∷ []) start (omega arith) (omega arith)
      (omega arith)

framed-IsWords : IsWords framed.locals
framed-IsWords zero = omega arith
framed-IsWords (suc zero) = omega arith
framed-IsWords (suc (suc zero)) = omega arith
framed-IsWords (suc (suc (suc i))) = omega arith

copy_slots_lem_example :
    (ls : List ℕ) × (copy_slots (pos 1) (pos 0) (pos 2) framed
      ≡ (ok tt, record framed { locals = ls }))
    × IsMoved 1 0 2 framed.locals ls
copy_slots_lem_example = copy_slots_lem 1 0 2 framed framed-IsWords (omega arith) (omega arith)

word_at-put_word_example : word_at (put_word start.heap 6 515) 6 ≡ 515
word_at-put_word_example = word_at-put_word start.heap 6 515

-- the state after one string
abbrev with_text : Vm CaptureIo
with_text = (alloc_string halves (104 ∷ 105 ∷ 33 ∷ []) start).1

alloc_string-Walk_example : Walk [] with_text.heap heap_start with_text.heap_ptr (2 ∷ [])
unfolding round_payload
alloc_string-Walk_example =
    alloc_string-Walk halves (104 ∷ 105 ∷ 33 ∷ []) start [] (omega arith) (omega arith) done

text_row : Walk [] with_text.heap heap_start with_text.heap_ptr (2 ∷ [])
unfolding round_payload
text_row = alloc_string-Walk halves (104 ∷ 105 ∷ 33 ∷ []) start [] (omega arith) (omega arith) done

blocks-Walk_example : blocks [] with_text.heap with_text.heap_ptr ≡ ok (2 ∷ [])
blocks-Walk_example = blocks-Walk [] with_text.heap with_text.heap_ptr (2 ∷ []) text_row

alloc_array-element_addr_example :
    ((alloc_array halves (pos 3) true >>= λ ref. get_element ref (pos 2)) start).0 ≡ ok 0
unfolding round_payload
alloc_array-element_addr_example =
    alloc_array-element_addr halves 3 true start 2 (omega arith) (omega arith) (omega arith)
      (omega arith)

-- a machine with an array of 3 words at address 6
abbrev stored : Vm CaptureIo
stored = record start { heap = put_word (put_word start.heap 2 kind_valarray) 4 3; heap_ptr = 12 }

stored-IsArray : IsArray stored.heap 6 3 false
stored-IsArray = (
  omega arith,
  omega arith,
  word_at-ext _ (put_word start.heap 2 kind_valarray) 2
        (put_word_outside _ 4 3 2 (inl (omega arith)))
        (put_word_outside _ 4 3 3 (inl (omega arith)))
      ∙ word_at-put_word start.heap 2 kind_valarray,
  word_at-put_word _ 4 3,
)

exec_array_get-exec_array_set_example :
    (exec_array_set (stacked stored (7 ∷ 1 ∷ 6 ∷ []) (false ∷ false ∷ true ∷ []))
      ≡ (ok tt, stacked (record stored { heap = put_word stored.heap 8 7 }) [] []))
    × (exec_array_get (
          stacked
            (record stored { heap = put_word stored.heap 8 7 })
            (1 ∷ 6 ∷ [])
            (false ∷ true ∷ []))
        ≡ (
          ok tt,
          stacked (record stored { heap = put_word stored.heap 8 7 }) (7 ∷ []) (false ∷ []),
        ))
exec_array_get-exec_array_set_example =
    exec_array_get-exec_array_set 6 3 1 7 false stored [] false false true [] stored-IsArray
      (omega arith) (omega arith) (omega arith) (omega arith) (omega arith)

-- two arguments on the stack, the last one on top
abbrev popped : List ℕ
popped = 5 ∷ 4 ∷ []

abbrev two_params : FunctionInfo
two_params = record main_function { num_params = 2; num_locals = 3 }

known : function_at (two_params ∷ []) (pos 0) ≡ some two_params
unfolding function_at
known = refl

enter_function_lem_example :
    (vm' : Vm CaptureIo) × (enter_function
        (two_params ∷ [])
        (pos 0)
        (stacked start popped (false ∷ false ∷ []))
      ≡ (ok tt, vm'))
    × (vm'.stack ≡ [])
    × (vm'.stack_is_ref ≡ [])
    × (vm'.pc ≡ pos two_params.entry_pc)
    × (vm'.current_fn ≡ 0)
    × (vm'.frame_base ≡ 0)
    × (vm'.call_stack
        ≡ record {
          return_pc = start.pc;
          locals = start.locals;
          stack_base = start.frame_base;
          fn_index = start.current_fn;
        }
          ∷ start.call_stack)
    × (length vm'.locals ≡ two_params.num_locals)
    × ((j : ℕ)
        → j < length (reverse popped)
        → get_or vm'.locals j 0 ≡ get_or (reverse popped) j 0 % word_mod)
    × (vm'.heap ≡ start.heap)
    × (vm'.world ≡ start.world)
enter_function_lem_example =
    enter_function_lem (two_params ∷ []) (pos 0) two_params start popped [] (false ∷ false ∷ []) []
      known refl refl (omega arith) tt (omega arith)

exec_add_lem_example :
    (w : ℕ) × (exec_add (stacked start (3 ∷ 65535 ∷ []) (false ∷ true ∷ []))
      ≡ (ok tt, stacked start (w ∷ []) (true ∷ [])))
    × IsWrapped w (to_signed 65535 +ℤ to_signed 3)
exec_add_lem_example =
    exec_add_lem start 65535 3 [] true false [] (omega arith) (omega arith) (omega arith)

exec_sub_lem_example :
    (w : ℕ) × (exec_sub (stacked start (3 ∷ 2 ∷ []) (false ∷ false ∷ []))
      ≡ (ok tt, stacked start (w ∷ []) (false ∷ [])))
    × IsWrapped w (to_signed 2 -ℤ to_signed 3)
exec_sub_lem_example =
    exec_sub_lem start 2 3 [] false false [] (omega arith) (omega arith) (omega arith)
