-- ===== src/Serialize.antt =====
-- compiler/serialize.py: the `.qlc` bytecode file.
pub mod Errors
pub mod Utf8
pub mod Write
pub mod Read
pub mod Reads
pub mod Records
pub mod Code
pub mod Dict
pub mod RoundTrip
mod Tests
