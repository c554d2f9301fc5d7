-- ===== src/Tools.antt =====
-- The programs of tools.
pub mod BenchRun
