-- ===== src/Vm/Io.antt =====
-- runtime/program_io.py: the protocol `ProgramIO` as an interface over a world that it changes.
use quin_lang.Prelude.{Bool, List, Result, ℕ}
use quin_lang.Program.{Text}

-- an OSError: its text and the name of its class
pub record OsError : Type 0 where
  pub message : Text
  pub class_name : Text

-- what an implementation may hand back where bytes are asked for
pub data IoValue : Type 0 where
  bytes : List ℕ → IoValue
  text : Text → IoValue
  other : IoValue

pub record ProgramIo (W : Type 0) : Type 0 where
  pub write : Text → W → W
  pub read_line : W → Text × W
  pub read_file : Text → W → Result OsError IoValue × W
  pub write_file : Text → List ℕ → Bool → W → Result OsError (Unit {0}) × W
  pub file_exists : Text → W → Result OsError Bool × W
  pub delete_file : Text → W → Result OsError (Unit {0}) × W
