-- ===== src/Debugger/Tests.antt =====
-- A small program under the debugger.
use quin_lang.Debugger.Session.Quiet.{IsQuiet, beside, debug_loop-IsQuiet}
use quin_lang.Debugger.Breakpoints.Aliases.{IsConsistent}
use quin_lang.Debugger.Breakpoints.Line.{Lands, break_at_line_lem}
use quin_lang.Debugger.Breakpoints.Reached.{Reached-IsConsistent, enabled_at-remove, lined, made}
use mathlib.Core.Bool.{xor}
use quin_lang.Vm.Machine
use quin_lang.Vm.Words.{quotient, to_signed, to_word, trunc_div}
use quin_lang.Vm.Machine.{gets, lift, modify, operand, pure, refuse, require}
use quin_lang.Vm.Operands.{at_base, pop, pop_both, pop_signed, push, push_raw}
use quin_lang.Vm.Calls.{exec_ret, resume_caller}
use quin_lang.Vm.Ops.Integers.{exec_div, exec_push_int}
use quin_lang.Debugger.Breakpoints.{
  add, add_new, break_at_line, break_in, find_line, is_empty, later_lines, lines_after,
  make_breakpoint, named_at, remove, retry_at, wanted_file, write_object,
}
use quin_lang.Bytecode.SourceMap.{
  candidates, first_pc_on_line, in_range, insert_line, lines_in, lines_of, lookup, minimum,
  position_at, zip,
}
use quin_lang.Debugger.Layout.{
  entry_file, entry_of, first_file, first_named, function_ranges, functions_in_file, in_file,
  insert_by_entry, lookup_pc, ordered, range_from, ranges_along, slashed, strip_dots,
}
use quin_lang.Vm.Run.{dispatch, fetch, in_code, proceed, run, step}
use quin_lang.Prelude.{
  [], bisect_right, del_key, ends_with, false, get_key, negsuc, none, ok, pos, refl, same_name,
  set_key, some, ℤ, ◌+ℤ◌, ◌-ℤ◌, ◌∷◌, ◌≡◌, ◌≢◌,
}
use quin_lang.Program.{CompiledProgram, StructLayout, Text}
use quin_lang.Vm.Capture.{CaptureIo}
use quin_lang.Vm.Tests.{halves, main_function, start}
use quin_lang.Debugger.{Debugger, Mode, new}
use quin_lang.Debugger.Session.{after_hook, after_instruction, asked, debug_loop}
use quin_lang.Debugger.Session.Transparent.{debug_loop-run}
use quin_lang.Debugger.Hook.{
  FrontEnd, Session, after_callback, answered, col_of, enabled_at, entries, frames, hook_mode,
  line_of, name_and_file, on_instruction, resume, stop, stop_here, stop_in, view, views,
}

-- struct Node { next: Node }
abbrev node : StructLayout
node = record {
  name = b'N' ∷ [];
  word_size = 1;
  ref_offsets = 0 ∷ [];
  fields = record { name = b'n' ∷ []; type_name = b'N' ∷ []; offset = 0 } ∷ [];
  is_variant = false;
}

-- the program with a source map: line 2 at pc 0, line 4 at pc 3
abbrev mapped : CompiledProgram
mapped = record {
  code = halves.code;
  functions = main_function ∷ [];
  strings = [];
  structs = node ∷ [];
  source_map = record { pcs = 0 ∷ 3 ∷ []; positions = (2, 1) ∷ (4, 1) ∷ [] };
}

-- a front end that goes on at every stop
abbrev go_on : FrontEnd Text CaptureIo (Unit {0})
go_on why vm d f = (ok tt, ((resume mapped Mode.run vm 0 d).1, f))

abbrev begun : Session CaptureIo (Unit {0})
begun = record { vm = start; dbg = new; front = tt }

abbrev ended_session : Session CaptureIo (Unit {0})
ended_session = record {
  vm = record start { pc = pos 4 };
  dbg = record new { mode = some Mode.run; from_line = some 2 };
  front = tt;
}

debugged : debug_loop halves mapped go_on (λ n. false) 4 begun ≡ some (ok (pos 3), ended_session)
unfolding debug_loop on_instruction enabled_at hook_mode stop_here stop_in stop frames views view
    entries name_and_file lookup_pc lookup position_at bisect_right after_callback answered resume
    line_of col_of get_key after_hook after_instruction asked write_object step in_code fetch
    dispatch proceed exec_push_int exec_div exec_ret resume_caller pop_signed pop pop_both push
    push_raw at_base gets modify pure lift refuse operand to_word to_signed trunc_div Machine.◌>>=◌
    ◌+ℤ◌ ◌-ℤ◌ xor require quotient
debugged = refl

debug_loop-run_example : run halves 4 start ≡ some (ok (pos 3), record start { pc = pos 4 })
debug_loop-run_example =
    debug_loop-run halves mapped go_on (λ n. false) 4 begun (ok (pos 3), ended_session) debugged

-- the same state once the program runs on
abbrev going : Session CaptureIo (Unit {0})
going = record { vm = start; dbg = record new { mode = some Mode.run }; front = tt }

going-IsQuiet : IsQuiet going.dbg
unfolding enabled_at get_key
going-IsQuiet = record { unasked = refl; disabled = nowhere; running = refl }
  where
    nowhere : (at : ℤ) → enabled_at going.dbg at ≡ none
    nowhere (pos n) = refl
    nowhere (negsuc n) = refl

debug_loop-IsQuiet_example :
    debug_loop halves mapped go_on (λ n. false) 4 going ≡ beside going (run halves 4 start)
debug_loop-IsQuiet_example = debug_loop-IsQuiet halves mapped go_on 4 going going-IsQuiet

-- line 3 has no code, and line 4 has some
abbrev at_line_4 : Debugger
at_line_4 = (add mapped.functions 3 0 4 new).1

moved_on : break_at_line mapped b'/' 2 3 [] new ≡ ok (0, at_line_4)
unfolding break_at_line break_in wanted_file entry_file first_file first_named functions_in_file
    in_file slashed strip_dots ends_with same_name is_empty find_line later_lines lines_after
    retry_at first_pc_on_line candidates minimum in_range lines_in lines_of insert_line
    function_ranges ranges_along ordered insert_by_entry range_from entry_of get_key add add_new
    set_key make_breakpoint named_at zip
moved_on = refl

break_at_line_lem_example :
    Lands mapped
      (wanted_file mapped.functions [])
      (0 ∷ [])
      3
      new
      (break_at_line mapped b'/' 2 3 [] new)
unfolding wanted_file entry_file first_file first_named functions_in_file in_file slashed strip_dots
    ends_with same_name
break_at_line_lem_example = break_at_line_lem mapped b'/' 0 3 [] new

Reached-IsConsistent_example : IsConsistent at_line_4
Reached-IsConsistent_example =
    Reached-IsConsistent {W = CaptureIo} mapped b'/' at_line_4
      (lined new at_line_4 0 3 0 [] made moved_on)

known : get_key at_line_4.breakpoints 1 ≡ some 0
unfolding get_key add add_new set_key
known = refl

abbrev without : Debugger
without = record at_line_4 { breakpoints = []; by_pc = [] }

taken_off : remove 1 at_line_4 ≡ ok without
unfolding remove get_key del_key add add_new set_key write_object make_breakpoint
taken_off = refl

enabled_at-remove_example : enabled_at without (pos 3) ≢ some 0
enabled_at-remove_example =
    enabled_at-remove {W = CaptureIo} mapped b'/' at_line_4 without 1 0 (pos 3)
      (lined new at_line_4 0 3 0 [] made moved_on) known taken_off
