-- ===== src/Dap.antt =====
-- The debug adapter of the package dap: the framing of its messages, from dap/protocol.py, and the
-- handles and the dicts of dap/values.py.
pub mod Protocol
pub mod Values
pub mod Messages
pub mod Tests
