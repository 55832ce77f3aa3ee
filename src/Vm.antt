-- ===== src/Vm.antt =====
-- runtime/vm.py: the stack machine.
pub mod Words
pub mod Io
pub mod Capture
pub mod Floats
pub mod Machine
pub mod Operands
pub mod Heap
pub mod Store
pub mod Collect
pub mod Alloc
pub mod Objects
pub mod Files
pub mod Calls
pub mod Ops
pub mod Run
pub mod Keeps
pub mod Runs
pub mod Balance
pub mod Tests
