-- ===== src/Sim.antt =====
-- The simulator around the pipeline: include/cpusim/sim and src/sim.
pub mod Stats
pub mod Core
pub mod Config
pub mod Elf
pub mod Tracer
mod Tests
