-- ===== src/Serialize/Read.antt =====
-- The reading half of compiler/serialize.py. `_Reader` is its data with a position; here a reader
-- takes the bytes that are left, `data[pos:]`, and returns what it read and those left after it.
use quin_lang.Prelude.{
  Bool, List, Option, [], drop, err, false, if◌then◌else◌, length, ltb, map, none, not, ok, pos,
  some, suc, take, true, zero, ℕ, ℤ, ◌%◌, ◌&&◌, ◌*◌, ◌+◌, ◌/◌, ◌==◌, ◌∷◌,
}
use quin_lang.Serialize.Errors.{
  Res, SerialError, bad_magic, bad_version, not_utf8, trailing, truncated, unknown_opcode,
  unreadable,
}
use quin_lang.Serialize.Utf8.{decode}
use quin_lang.Serialize.Write.{Bytes, format_version, has_operand, magic}
use quin_lang.Program.{
  CompiledProgram, FieldLayout, FunctionInfo, Instruction, LocalInfo, Strings, StructLayout, Text,
}
use quin_lang.Bytecode.OpCode.{OpCode, of_value}
use quin_lang.Bytecode.SourceMap.{Position, SourceMap, empty}

abbrev pub Reader : Type 0 → Type 0
Reader A = Bytes → Res (A × Bytes)

infixl 5 ◌>>=◌ ◌>>◌
unfoldable pub ◌>>=◌ : {A B : Type 0} → Reader A → (A → Reader B) → Reader B
◌>>=◌ r k bytes = elim (r bytes) [ ok (a, rest) ↦ k a rest | err e ↦ err e ]

abbrev pub ◌>>◌ : {B : Type 0} → Reader (Unit {0}) → Reader B → Reader B
r >> k = r >>= λ _. k

unfoldable pub pure : {A : Type 0} → A → Reader A
pure a bytes = ok (a, bytes)

unfoldable pub fail : {A : Type 0} → SerialError → Reader A
fail e bytes = err e

-- `take(count)`: an error if fewer than `count` bytes are left
unfoldable pub take_bytes : ℕ → Reader Bytes
take_bytes count bytes =
    if ltb (length bytes) count then err truncated else ok (take count bytes, drop count bytes)

-- the little-endian value of bytes, struct.unpack of "<H" and "<I"
unfoldable pub unpack : Bytes → ℕ
unpack [] = 0
unpack (b ∷ bs) = b + 256 * unpack bs

unfoldable pub read_u8 : Reader ℕ
unfolding unpack
read_u8 = do b ← take_bytes 1; pure (unpack b)

unfoldable pub read_u16 : Reader ℕ
unfolding unpack
read_u16 = do b ← take_bytes 2; pure (unpack b)

unfoldable pub read_u32 : Reader ℕ
unfolding unpack
read_u32 = do b ← take_bytes 4; pure (unpack b)

-- `except UnicodeDecodeError` turns the codec's error into a BytecodeError
unfoldable pub decode_text : Bytes → Reader Text
decode_text chunk bytes = elim (decode chunk) [ ok s ↦ ok (s, bytes) | err e ↦ err not_utf8 ]

unfoldable pub read_text : Reader Text
read_text = do n ← read_u32; chunk ← take_bytes n; decode_text chunk

-- for _ in range(n)
unfoldable pub read_times : {A : Type 0} → ℕ → Reader A → Reader (List A)
read_times zero r = pure []
read_times (suc n) r = do x ← r; xs ← read_times n r; pure (x ∷ xs)

unfoldable pub read_list : {A : Type 0} → Reader A → Reader (List A)
read_list r = do n ← read_u32; read_times n r

unfoldable pub read_u32_list : Reader (List ℕ)
read_u32_list = read_list read_u32

-- bool(r.u8())
unfoldable pub read_bool : Reader Bool
read_bool = do b ← read_u8; pure (not (b == 0))

-- strings[literal_id] = text
unfoldable pub dict_set : ℕ → Text → Strings → Strings
dict_set k s [] = (k, s) ∷ []
dict_set k s ((j, t) ∷ d) = if j == k then (k, s) ∷ d else (j, t) ∷ dict_set k s d

unfoldable pub read_string : Reader (ℕ × Text)
read_string = do literal_id ← read_u32; text ← read_text; pure (literal_id, text)

unfoldable pub dict_of : Strings → Strings → Strings
dict_of d [] = d
dict_of d ((k, s) ∷ items) = dict_of (dict_set k s d) items

unfoldable pub read_strings : Reader Strings
read_strings = do items ← read_list read_string; pure (dict_of [] items)

unfoldable pub read_field : Reader FieldLayout
read_field = do
  field_name ← read_text
  field_type ← read_text
  at_offset ← read_u32
  pure (record { name = field_name; type_name = field_type; offset = at_offset })

unfoldable pub read_struct : Reader StructLayout
read_struct = do
  struct_name ← read_text
  size ← read_u32
  variant ← read_bool
  offsets ← read_u32_list
  layouts ← read_list read_field
  pure (record {
    name = struct_name;
    word_size = size;
    ref_offsets = offsets;
    fields = layouts;
    is_variant = variant;
  })

unfoldable pub read_structs : Reader (List StructLayout)
read_structs = read_list read_struct

unfoldable pub read_local : Reader LocalInfo
read_local = do
  local_name ← read_text
  at_slot ← read_u32
  local_type ← read_text
  size ← read_u32
  param ← read_bool
  pure (record {
    name = local_name;
    slot = at_slot;
    type_name = local_type;
    words = size;
    is_param = param;
  })

-- the two fields that only a file with debug information has
unfoldable pub read_function_debug : Bool → Reader (Text × List LocalInfo)
read_function_debug false = pure ([], [])
read_function_debug true = do file ← read_text; named ← read_list read_local; pure (file, named)

unfoldable pub read_function : Bool → Reader FunctionInfo
read_function debug = do
  fn_name ← read_text
  entry ← read_u32
  locals_count ← read_u32
  params_count ← read_u32
  slots ← read_u32_list
  widths ← read_u32_list
  extra ← read_function_debug debug
  pure (record {
    name = fn_name;
    entry_pc = entry;
    num_locals = locals_count;
    num_params = params_count;
    ref_slots = slots;
    param_words = widths;
    locals = extra.1;
    source_file = extra.0;
  })

unfoldable pub read_functions : Bool → Reader (List FunctionInfo)
read_functions debug = read_list (read_function debug)

-- OpCode(number), whose ValueError becomes a BytecodeError
unfoldable pub read_opcode : ℕ → ℕ → Reader OpCode
read_opcode pc number = elim (of_value number) [
  | some op ↦ pure op
  | none ↦ fail (unknown_opcode number pc)
]

-- r.u32() if field & HAS_OPERAND else None
unfoldable pub read_operand : Bool → Reader (Option ℤ)
read_operand false = pure none
read_operand true = do n ← read_u32; pure (some (pos n))

unfoldable pub read_instruction : ℕ → Reader Instruction
read_instruction pc = do
  field ← read_u16
  code ← read_opcode pc (field % has_operand)
  operand ← read_operand (field / has_operand % 2 == 1)
  pure (record { op = code; arg = operand })

-- for pc in range(n)
unfoldable pub read_instructions : ℕ → ℕ → Reader (List Instruction)
read_instructions pc zero = pure []
read_instructions pc (suc n) = do
  i ← read_instruction pc
  rest ← read_instructions (suc pc) n
  pure (i ∷ rest)

unfoldable pub read_code : Reader (List Instruction)
read_code = do n ← read_u32; read_instructions 0 n

unfoldable pub read_marker : Reader (ℕ × Position)
read_marker = do at ← read_u32; line ← read_u32; col ← read_u32; pure (at, (line, col))

unfoldable pub read_source_map : Reader SourceMap
read_source_map = do
  ms ← read_list read_marker
  pure (record { pcs = map (λ m. m.0) ms; positions = map (λ m. m.1) ms })

unfoldable pub read_debug : Bool → Reader SourceMap
read_debug debug = elim debug [ true ↦ read_source_map | false ↦ pure empty ]

eq_bytes : Bytes → Bytes → Bool
eq_bytes [] [] = true
eq_bytes (a ∷ as') (b ∷ bs) = a == b && eq_bytes as' bs
eq_bytes _ _ = false

unfoldable pub read_magic : Reader (Unit {0})
unfolding eq_bytes
read_magic = do m ← take_bytes (length magic); if eq_bytes m magic then pure tt else fail bad_magic

unfoldable pub read_version : Reader (Unit {0})
read_version = do
  version ← read_u16
  if version == format_version then pure tt else fail (bad_version version)

-- the tables behind the header
unfoldable pub read_sections : Bool → Reader CompiledProgram
read_sections debug = do
  strings ← read_strings
  structs ← read_structs
  functions ← read_functions debug
  code ← read_code
  lines ← read_debug debug
  pure (record {
    code = code;
    functions = functions;
    strings = strings;
    structs = structs;
    source_map = lines;
  })

-- everything that `loads` reads
unfoldable pub read_tables : Reader CompiledProgram
read_tables = do read_magic; read_version; flags ← read_u16; read_sections (flags % 2 == 1)

-- `r.pos != len(data)`: no byte may be left
at_end : CompiledProgram × Bytes → Res CompiledProgram
at_end (p, []) = ok p
at_end (p, (b ∷ rest)) = err (trailing (length (b ∷ rest)))

unfoldable pub loads : Bytes → Res CompiledProgram
unfolding at_end
loads content = elim (read_tables content) [ ok read ↦ at_end read | err e ↦ err e ]

-- `none` is the OSError of reading the file
unfoldable pub read_program : Option Bytes → Res CompiledProgram
read_program none = err unreadable
read_program (some content) = loads content

-- the first bytes of the file that `is_bytecode` opens
unfoldable pub is_bytecode : Option Bytes → Bool
unfolding eq_bytes
is_bytecode none = false
is_bytecode (some content) = eq_bytes (take (length magic) content) magic
