-- ===== src/Pipeline.antt =====
-- The five pipeline stages, the latches between them, forwarding and hazard detection: src/uarch and
-- include/cpusim/uarch. A stage that holds references to other parts takes them as arguments, and
-- returns those that it changes.
pub mod Bounds
mod Tests
pub mod Latch
pub mod Regs
pub mod Fetch
pub mod Decode
pub mod Forward
pub mod Execute
pub mod MemAccess
pub mod Writeback
pub mod Hazard
