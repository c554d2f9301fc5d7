-- ===== src/Sim/Stats.antt =====
-- `SimStats` of include/cpusim/sim/sim_stats.h. A `uint64_t` counter wraps. The two prefetch counters
-- are in `Memory.Tags`, with the cache that writes them.
use cpu_sim.Base.{ℕ, ◌+◌, ◌%◌, ◌^◌}

pub record SimStats : Type 0 where
  pub cycles : ℕ
  pub instructions : ℕ
  pub branch_correct : ℕ
  pub branch_mispredicts : ℕ

abbrev pub no_stats : SimStats
no_stats = record { cycles = 0; instructions = 0; branch_correct = 0; branch_mispredicts = 0 }

-- `++n` on a `uint64_t`.
abbrev pub increment : ℕ → ℕ
increment n = (n + 1) % 2 ^ 64
