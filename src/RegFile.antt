-- ===== src/RegFile.antt =====
-- `RegFile` of include/cpusim/regfile.h: 32 registers, x0 hardwired to zero. `read` and `write`
-- assert that the index is below 32, which theorems on them take as a hypothesis where it matters.
pub mod Laws
mod Tests
use cpu_sim.Base.{ℕ, List, ◌==◌, if◌then◌else◌, get_or, set, replicate}

abbrev pub num_regs : ℕ
num_regs = 32

pub record RegFile : Type 0 where
  pub regs : List ℕ

-- The constructor, and `reset`.
unfoldable pub empty : RegFile
empty = record { regs = replicate num_regs 0 }

unfoldable pub reset : RegFile → RegFile
reset rf = record rf { regs = replicate num_regs 0 }

unfoldable pub read : RegFile → ℕ → ℕ
read rf idx = get_or rf.regs idx 0

unfoldable pub write : RegFile → ℕ → ℕ → RegFile
write rf idx value = if idx == 0 then rf else record rf { regs = set rf.regs idx value }
