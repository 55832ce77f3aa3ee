-- ===== src/Serialize/Errors.antt =====
-- What reading or writing a bytecode file raises.
use quin_lang.Prelude.{Result, ℕ}

pub data SerialError : Type 0 where
  -- BytecodeError: the file ends in the middle of a record
  truncated : SerialError
  -- BytecodeError: a string in the file is not UTF-8
  not_utf8 : SerialError
  -- BytecodeError: not a QuinLang bytecode file
  bad_magic : SerialError
  -- BytecodeError: bytecode format n
  bad_version : ℕ → SerialError
  -- BytecodeError: opcode number at pc
  unknown_opcode : ℕ → ℕ → SerialError
  -- BytecodeError: n trailing bytes
  trailing : ℕ → SerialError
  -- BytecodeError: an opcode is numbered past what the format encodes
  opcode_too_large : ℕ → SerialError
  -- BytecodeError: the operand at pc does not fit 32 bits
  operand_range : ℕ → SerialError
  -- BytecodeError: cannot read the file
  unreadable : SerialError
  -- struct.error of struct.pack
  pack_range : SerialError
  -- UnicodeEncodeError of a lone surrogate
  unencodable : SerialError

abbrev pub Res : Type 0 → Type 0
Res A = Result SerialError A
