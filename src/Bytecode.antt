-- ===== src/Bytecode.antt =====
-- compiler/bytecode.py: the opcodes and the source map of a compiled program.
pub mod OpCode
pub mod SourceMap
mod Tests
