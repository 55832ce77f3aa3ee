-- ===== src/Lib.antt =====
-- QuinLang: the scanner, the types, the bytecode, its file format, the virtual machine, the
-- debugger and the messages of its adapter.
--
-- QuinLang compiles a source file to a `CompiledProgram` (compiler/codegen_vm.py): instructions
-- (compiler/bytecode.py), function and struct tables (runtime/vm.py), string literals and a source
-- map. compiler/serialize.py writes such a program to a `.qlc` file and reads it back;
-- runtime/vm.py runs it on a stack machine with 16-bit words and a 64 KB heap that a mark-compact
-- collector manages; runtime/program_io.py is what the program itself reads and writes;
-- runtime/debugger.py stops the machine through a hook before each instruction, and shows what it
-- holds. The compiler begins with compiler/lexer.py, which turns the text of a file into tokens;
-- compiler/compiler_types.py has the types, which the later passes know by their spelling.
--
-- Which file models which part:
-- - Prelude.antt and Prelude/: tests and lists over the native numbers, signed integers, decimal
--   text, results, and `bisect_right` of Python's library.
-- - Bytecode/OpCode.antt: `OpCode`. Bytecode/SourceMap.antt: `SourceMap` and `SourceMapBuilder`.
-- - Program.antt: `Instruction`, the tables, and `CompiledProgram`. A `str` is the list of its code
--   points and a dict the list of its entries.
-- - Serialize/Write.antt, Serialize/Read.antt: `_Writer`, `_Reader`, `dumps`, `loads` and
--   `is_bytecode`; Serialize/Utf8.antt: the UTF-8 text of both; Serialize/Errors.antt: one
--   constructor for each BytecodeError message. Reads, Records, Code, Dict and RoundTrip beside them
--   hold the proofs.
-- - Vm/Words.antt, Vm/Floats.antt: `to_signed`, `trunc_div`, and the conversions of floats.
-- - Vm/Machine.antt: the state of `QuinVM` as the record `Vm`, what its constructor is given as
--   `Setup`, and actions `Exec`: functions from a machine to a result and a machine, so that a fault
--   keeps the state it was raised in. `Fault` has a constructor for each VMError message.
-- - Vm/Operands.antt: `_push` to `_set_local_float`. Vm/Heap.antt, Vm/Store.antt: words, headers and
--   blocks. Vm/Collect.antt and Vm/Collect/: `collect` with `_roots`, `_mark_from`,
--   `_plan_compaction`, `_update_references` and `_slide`. Vm/Alloc.antt: `_bump`, `_reserve` and the
--   allocators. Vm/Objects.antt: arrays, strings and fields. Vm/Files.antt: `_file_op` and the calls
--   of `self.io`. Vm/Calls.antt: `_enter_function` and `RET`. Vm/Ops/: the other branches of `_run`.
--   Vm/Run.antt: the dispatch, the loop and `run_main`.
-- - Vm/Io.antt: `ProgramIO` as an interface over a world that it changes; Vm/Capture.antt:
--   `CaptureIO`.
-- - Vm/Keeps.antt, Vm/Runs.antt: rules for reasoning on actions. Vm/Balance.antt and Vm/Balance/: the
--   balance of the stacks, one lemma for each branch. The other proofs stand below the module that
--   they are about.
-- - Debugger.antt: the state of `Debugger`, where `breakpoints` and `_by_pc` map to references to
--   shared objects. Debugger/Layout.antt: function ranges and files. Debugger/Breakpoints.antt:
--   `break_at_line`, `_add`, `remove` and the rest; Debugger/Hook.antt: `frames`, `resume`, `_stop`
--   and `_on_instruction`; Debugger/Session.antt: the loop with the hook in it, and `run`.
--   Debugger/Values.antt and Debugger/Values/: `Value`, `_describe_slots` to `_describe_field`,
--   `children_of` and `_flatten`.
-- - Compiler/Tokens.antt: the tokens and the keywords. Compiler/Lexer.antt and Compiler/Lexer/: the
--   state of `Lexer`, `_string`, `_number` with its checks, `_scan_token` and `tokenize`.
-- - Compiler/Types.antt and Compiler/Types/: the classes of compiler/compiler_types.py, with
--   `StructInfo` and its like in Layouts; Names takes a type name apart, Rewriting is `substitute_type_name` and
--   `unify_type_name`, and FromName `type_from_name`. The other files there hold the proofs.
-- - Dap/Protocol.antt: `MessageStream` of dap/protocol.py, `read` and `write` over bytes.
--   Dap/Values.antt: `Handles` of dap/values.py. Dap/Messages.antt: the dicts that dap/protocol.py and
--   dap/values.py build.
--
-- The stacks are lists with the top first, the program counter is an integer, since a jump takes any,
-- and the heap is its bytes by address.
--
-- Loops. `bisect_right` halves a range and has a round more than the list is long. The reader of
-- UTF-8 has a round for each byte. The walk over the blocks of the heap has `heap_ptr` rounds, and
-- a block takes a header at least. Marking has a round for each address that can be pending, which
-- the words of the heap and the references of the layouts bound; running out is a fault of its own.
-- The loop of `_run` need not end: `run` is cut off after a number of rounds, and `none` is its
-- result where the program is still running. The loop of `tokenize` has a round for each character
-- and one more. `break_at_line` calls itself on a line that has code, so that two calls are enough;
-- and an element type is shorter than the array type around it, which bounds `_describe_word`. The
-- loop of `_read_header` has two rounds more than `MAX_HEADER_BYTES`, since each adds a byte to the
-- buffer, and the loop of `_read_exactly` one more than the bytes it is asked for. The functions on
-- type names recurse into shorter parts, but for the `void` of a return type that is left out, so a
-- round more than the name is long is enough.
--
-- Parameters. The floats of Python and `struct` are the record `FloatOps`, and the console and the
-- disk are a `ProgramIo`. The Unicode tables of `str` are `UnicodeTables`, and `NameTables` for
-- type names, beyond ASCII and written out below. The callback `on_stop` of the debugger is a
-- function that reads the machine and changes the debugger and a state of its own; what another
-- thread asks for is a function from rounds to requests. The `json` module is a `JsonCodec`, and a
-- stream is the pieces in which its bytes arrive. An address below the first header, a negative
-- index and an operand that is missing are taken as Python takes them, or raise what Python raises.
--
-- Not modelled: the parser, semantic analysis, code generation and imports under compiler/, the
-- session of the adapter (dap/session.py), `_locate` and the text of the messages of faults, the
-- listings of compiler/debug.py, and the entry points.
pub mod Prelude
pub mod Bytecode
pub mod Program
pub mod Serialize
pub mod Vm
pub mod Debugger
pub mod Compiler
pub mod Dap
