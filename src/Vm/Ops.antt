-- ===== src/Vm/Ops.antt =====
-- The branches of `_run` in runtime/vm.py, one action each, by kind.
pub mod Integers
pub mod Reals
pub mod Texts
pub mod Slots
pub mod Objects
pub mod Streams
