-- ===== src/Memory.antt =====
-- The memories: include/cpusim/memory and src/memory.
pub mod Interface
pub mod FlatMem
pub mod TreePlru
pub mod Tags
pub mod Cache
pub mod Transparency
pub mod Prompt
mod Tests
