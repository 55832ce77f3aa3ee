-- ===== src/Serialize/Write.antt =====
-- The writing half of compiler/serialize.py. A writer returns the bytes that the source appends to
-- `_Writer.out`; `a ▷ b` is one after the other, and stops at the first error.
use quin_lang.Prelude.{
  Bool, List, Option, [], err, false, if◌then◌else◌, leb, length, ltb, negsuc, none, ok, pos, some,
  suc, true, ℕ, ℤ, ◌%◌, ◌++◌, ◌+◌, ◌-◌, ◌/◌, ◌>>=◌, ◌^◌, ◌∷◌,
}
use quin_lang.Serialize.Errors.{Res, opcode_too_large, operand_range, pack_range}
use quin_lang.Serialize.Utf8.{encode}
use quin_lang.Program.{
  CompiledProgram, FieldLayout, FunctionInfo, Instruction, LocalInfo, Strings, StructLayout, Text,
}
use quin_lang.Bytecode.OpCode.{value}
use quin_lang.Bytecode.SourceMap.{Position, SourceMap, markers}

abbrev pub Bytes : Type 0
Bytes = List ℕ

infixr 3 ◌▷◌
unfoldable pub ◌▷◌ : Res Bytes → Res Bytes → Res Bytes
a ▷ b = do x ← a; y ← b; ok (x ++ y)

-- struct.pack("<B", value)
unfoldable pub write_u8 : ℕ → Res Bytes
write_u8 v = if ltb v 256 then ok (v ∷ []) else err pack_range

-- struct.pack("<H", value)
unfoldable pub write_u16 : ℕ → Res Bytes
write_u16 v = if ltb v 65536 then ok ((v % 256) ∷ (v / 256) ∷ []) else err pack_range

-- struct.pack("<I", value)
unfoldable pub write_u32 : ℕ → Res Bytes
write_u32 v =
    if ltb v 0x1_0000_0000
    then ok ((v % 256) ∷ (v / 256 % 256) ∷ (v / 65536 % 256) ∷ (v / 0x100_0000) ∷ [])
    else err pack_range

unfoldable pub write_text : Text → Res Bytes
write_text s = do encoded ← encode s; write_u32 (length encoded) ▷ ok encoded

-- a loop that writes each element
unfoldable pub write_each {ℓ} : {A : Type ℓ} → (A → Res Bytes) → List A → Res Bytes
write_each w [] = ok []
write_each w (x ∷ xs) = w x ▷ write_each w xs

-- a count, then each element
abbrev pub write_list {ℓ} : {A : Type ℓ} → (A → Res Bytes) → List A → Res Bytes
write_list w xs = write_u32 (length xs) ▷ write_each w xs

unfoldable pub write_u32_list : List ℕ → Res Bytes
write_u32_list values = write_list write_u32 values

unfoldable pub write_bool : Bool → Res Bytes
write_bool b = write_u8 (if b then 1 else 0)

-- sorted(strings.items()): the keys of a dict differ, so the texts are never compared
unfoldable pub insert_item : ℕ × Text → Strings → Strings
insert_item i [] = i ∷ []
insert_item i (j ∷ js) = if leb i.0 j.0 then i ∷ j ∷ js else j ∷ insert_item i js

unfoldable pub sort_items : Strings → Strings
sort_items [] = []
sort_items (i ∷ is) = insert_item i (sort_items is)

unfoldable pub write_string : ℕ × Text → Res Bytes
write_string (literal_id, text) = write_u32 literal_id ▷ write_text text

unfoldable pub write_strings : Strings → Res Bytes
write_strings strings = write_list write_string (sort_items strings)

unfoldable pub write_field : FieldLayout → Res Bytes
write_field f = write_text f.name ▷ write_text f.type_name ▷ write_u32 f.offset

unfoldable pub write_struct : StructLayout → Res Bytes
write_struct s =
    write_text s.name
    ▷ write_u32 s.word_size
    ▷ write_bool s.is_variant
    ▷ write_u32_list s.ref_offsets
    ▷ write_list write_field s.fields

unfoldable pub write_structs : List StructLayout → Res Bytes
write_structs structs = write_list write_struct structs

unfoldable pub write_local : LocalInfo → Res Bytes
write_local l =
    write_text l.name
    ▷ write_u32 l.slot
    ▷ write_text l.type_name
    ▷ write_u32 l.words
    ▷ write_bool l.is_param

unfoldable pub write_function_debug : Bool → FunctionInfo → Res Bytes
write_function_debug false f = ok []
write_function_debug true f = write_text f.source_file ▷ write_list write_local f.locals

unfoldable pub write_function : Bool → FunctionInfo → Res Bytes
write_function debug f =
    write_text f.name
    ▷ write_u32 f.entry_pc
    ▷ write_u32 f.num_locals
    ▷ write_u32 f.num_params
    ▷ write_u32_list f.ref_slots
    ▷ write_u32_list f.param_words
    ▷ write_function_debug debug f

unfoldable pub write_functions : Bool → List FunctionInfo → Res Bytes
write_functions debug functions = write_list (write_function debug) functions

abbrev pub has_operand : ℕ
has_operand = 2 ^ 15

abbrev pub max_opcode : ℕ
max_opcode = has_operand - 1

abbrev pub max_operand : ℕ
max_operand = 0xffff_ffff

-- the operand test `0 <= instruction.arg <= MAX_OPERAND`, and what follows it
unfoldable pub write_operand : ℕ → ℕ → Option ℤ → Res Bytes
write_operand pc number none = write_u16 number
write_operand pc number (some (pos n)) =
    if leb n max_operand
    then (write_u16 (number + has_operand) ▷ write_u32 n)
    else err (operand_range pc)
write_operand pc number (some (negsuc n)) = err (operand_range pc)

unfoldable pub write_instruction : ℕ → Instruction → Res Bytes
write_instruction pc i =
    let number = value i.op in
    if ltb max_opcode number then err (opcode_too_large number) else write_operand pc number i.arg

-- for pc, instruction in enumerate(code)
unfoldable pub write_instructions : ℕ → List Instruction → Res Bytes
write_instructions pc [] = ok []
write_instructions pc (i ∷ is) = write_instruction pc i ▷ write_instructions (suc pc) is

unfoldable pub write_code : List Instruction → Res Bytes
write_code code = write_u32 (length code) ▷ write_instructions 0 code

unfoldable pub write_marker : ℕ × Position → Res Bytes
write_marker (pc, (line, col)) = write_u32 pc ▷ write_u32 line ▷ write_u32 col

-- the count is that of the pcs, the loop that of the shorter list
unfoldable pub write_source_map : SourceMap → Res Bytes
write_source_map m = write_u32 (length m.pcs) ▷ write_each write_marker (markers m)

-- b"QLC\x1a"
abbrev pub magic : Bytes
magic = 81 ∷ 76 ∷ 67 ∷ 26 ∷ []

abbrev pub format_version : ℕ
format_version = 1

abbrev pub has_debug_info : ℕ
has_debug_info = 1

unfoldable pub write_debug : Bool → SourceMap → Res Bytes
write_debug debug m = if debug then write_source_map m else ok []

unfoldable pub dumps : CompiledProgram → Bool → Res Bytes
dumps program debug =
    ok magic
    ▷ write_u16 format_version
    ▷ write_u16 (if debug then has_debug_info else 0)
    ▷ write_strings program.strings
    ▷ write_structs program.structs
    ▷ write_functions debug program.functions
    ▷ write_code program.code
    ▷ write_debug debug program.source_map
