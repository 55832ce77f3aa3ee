-- ===== src/Program.antt =====
-- What a compiled program is made of: `Instruction` of compiler/bytecode.py, the tables that
-- runtime/vm.py declares, and `CompiledProgram` of compiler/codegen_vm.py. A `str` is the list of its
-- code points, and a dict its entries in insertion order.
use quin_lang.Prelude.{Bool, List, Option, ℕ, ℤ}
use quin_lang.Bytecode.OpCode.{OpCode}
use quin_lang.Bytecode.SourceMap.{SourceMap}

abbrev pub Text : Type 0
Text = List ℕ

-- An operand is an int or None.
pub record Instruction : Type 0 where
  pub op : OpCode
  pub arg : Option ℤ

pub record FieldLayout : Type 0 where
  pub name : Text
  pub type_name : Text
  pub offset : ℕ

pub record StructLayout : Type 0 where
  pub name : Text
  pub word_size : ℕ
  pub ref_offsets : List ℕ
  pub fields : List FieldLayout
  pub is_variant : Bool

pub record LocalInfo : Type 0 where
  pub name : Text
  pub slot : ℕ
  pub type_name : Text
  pub words : ℕ
  pub is_param : Bool

pub record FunctionInfo : Type 0 where
  pub name : Text
  pub entry_pc : ℕ
  pub num_locals : ℕ
  pub num_params : ℕ
  pub ref_slots : List ℕ
  pub param_words : List ℕ
  pub locals : List LocalInfo
  pub source_file : Text

-- Dict[int, str]
abbrev pub Strings : Type 0
Strings = List (ℕ × Text)

pub record CompiledProgram : Type 0 where
  pub code : List Instruction
  pub functions : List FunctionInfo
  pub strings : Strings
  pub structs : List StructLayout
  pub source_map : SourceMap
