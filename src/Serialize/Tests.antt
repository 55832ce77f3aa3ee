-- ===== src/Serialize/Tests.antt =====
-- Small programs written and read back.
use quin_lang.Serialize.RoundTrip.{is_bytecode-dumps, loads-dumps, loads-dumps_trailing, reloaded}
use quin_lang.Bytecode.SourceMap.{zip}
use quin_lang.Serialize.Read.{is_bytecode, loads}
use quin_lang.Serialize.Dict.{IsDict}
use quin_lang.Prelude.{[], err, length, none, ok, pos, refl, some, true, ℕ, ◌++◌, ◌+◌, ◌∷◌, ◌≡◌}
use quin_lang.Program.{CompiledProgram}
use quin_lang.Bytecode.OpCode.{OpCode, value}
use quin_lang.Serialize.Errors.{trailing}
use quin_lang.Serialize.Utf8.{encode, encode_char}
use quin_lang.Serialize.Write.{
  Bytes, dumps, insert_item, sort_items, write_bool, write_code, write_debug, write_each,
  write_field, write_function, write_function_debug, write_functions, write_instruction,
  write_instructions, write_local, write_marker, write_operand, write_source_map, write_string,
  write_strings, write_struct, write_structs, write_text, write_u16, write_u32, write_u32_list,
  write_u8, ◌▷◌,
}

-- `fn f(): int { return 7; }` with one literal that UTF-8 widens
abbrev sample : CompiledProgram
sample = record {
  code =
      record { op = OpCode.push_int; arg = some (pos 7) }
      ∷ record { op = OpCode.ret; arg = none }
      ∷ [];
  functions =
      record {
        name = b'f' ∷ [];
        entry_pc = 0;
        num_locals = 0;
        num_params = 0;
        ref_slots = [];
        param_words = [];
        locals = [];
        source_file = b'a' ∷ [];
      }
      ∷ [];
  strings = (0, 0xe9 ∷ []) ∷ [];
  structs = [];
  source_map = record { pcs = 0 ∷ []; positions = (3, 5) ∷ [] };
}

abbrev sample_bytes : Bytes
sample_bytes =
    81 ∷ 76 ∷ 67 ∷ 26 ∷ 1 ∷ 0 ∷ 1 ∷ 0 ∷ 1 ∷ 0 ∷ 0 ∷ 0 ∷ 0 ∷ 0 ∷ 0 ∷ 0 ∷ 2 ∷ 0 ∷ 0 ∷ 0 ∷ 195 ∷ 169
    ∷ 0 ∷ 0 ∷ 0 ∷ 0 ∷ 1 ∷ 0 ∷ 0 ∷ 0 ∷ 1 ∷ 0 ∷ 0 ∷ 0 ∷ 102 ∷ 0 ∷ 0 ∷ 0 ∷ 0 ∷ 0 ∷ 0 ∷ 0 ∷ 0 ∷ 0 ∷ 0
    ∷ 0 ∷ 0 ∷ 0 ∷ 0 ∷ 0 ∷ 0 ∷ 0 ∷ 0 ∷ 0 ∷ 0 ∷ 1 ∷ 0 ∷ 0 ∷ 0 ∷ 97 ∷ 0 ∷ 0 ∷ 0 ∷ 0 ∷ 2 ∷ 0 ∷ 0 ∷ 0 ∷ 1
    ∷ 128 ∷ 7 ∷ 0 ∷ 0 ∷ 0 ∷ 49 ∷ 0 ∷ 1 ∷ 0 ∷ 0 ∷ 0 ∷ 0 ∷ 0 ∷ 0 ∷ 0 ∷ 3 ∷ 0 ∷ 0 ∷ 0 ∷ 5 ∷ 0 ∷ 0 ∷ 0
    ∷ []

sample_written : dumps sample true ≡ ok sample_bytes
unfolding dumps write_u8 write_u16 write_u32 write_text write_each write_u32_list write_bool
    sort_items insert_item write_string write_strings write_field write_struct write_structs
    write_local write_function write_function_debug write_functions write_operand write_instruction
    write_instructions write_code write_marker write_source_map write_debug encode encode_char value
    ◌▷◌ zip
sample_written = refl

one_literal : IsDict sample.strings
one_literal = (λ h. h, tt)

loads-dumps_example : loads sample_bytes ≡ ok (reloaded sample true)
loads-dumps_example = loads-dumps sample true sample_bytes one_literal refl sample_written

loads-dumps_trailing_example :
    loads (sample_bytes ++ 9 ∷ []) ≡ err (trailing (length {A = ℕ} [] + 1))
loads-dumps_trailing_example =
    loads-dumps_trailing sample true sample_bytes 9 [] one_literal refl sample_written

is_bytecode-dumps_example : is_bytecode (some sample_bytes) ≡ true
is_bytecode-dumps_example = is_bytecode-dumps sample true sample_bytes sample_written
