-- ===== src/Refine.antt =====
-- The simulator against the machine of `Arch`: what the latched state of a core stands for, and that
-- a cycle keeps it. The claims are on what the stages read at the start of a cycle.
pub mod Latched
pub mod Claims
pub mod Stalled
pub mod Step
pub mod Executing
pub mod Entering
pub mod Decoding
pub mod Advance
pub mod Tick
pub mod Counting
pub mod Rank
pub mod Linear
pub mod Waiting
pub mod Progress
pub mod Standing
pub mod Run
pub mod Halting
pub mod Nearby
pub mod Defined
pub mod Total
pub mod Ports
pub mod Configured
pub mod Aligned
pub mod OnPort
pub mod Guides
pub mod Guided
pub mod Terminates
pub mod Executable
mod Tests
mod LoopTests
mod Examples
pub mod Operands
pub mod Front
pub mod Memory
