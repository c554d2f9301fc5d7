-- ===== src/Memory/Cache/Tests.antt =====
-- A cache on a flat memory, and one on that.
use cpu_sim.Base.{ℕ, ◌+◌, ◌*◌, ◌≤◌, ◌≡◌, ◌==◌, true, refl, arith, false, none}
use cpu_sim.Memory.FlatMem.{flat_memory}
use cpu_sim.Memory.FlatMem
use cpu_sim.Memory.Tags.Tests.{filled, filled-hit}
use cpu_sim.Memory.Cache.{Cache, Phase, cache_memory, create, ready}
use cpu_sim.Memory.Cache.Timing.{wait, hit-wait}
use cpu_sim.Memory.Prompt.{waited}
use cpu_sim.Memory.Cache.Prompt.{cache-answers}

-- The line of 0x80000014 is there; a hit takes three cycles.
abbrev warm : Cache flat_memory
warm = record (create flat_memory (FlatMem.create 0x80000000 64 5) 16 4 3 2 false 1 none) {
  tags = filled;
}

hit-wait_example :
    ((ready flat_memory (wait 0x80000014 false 2 warm) 0x80000014 false).0 ≡ (2 + 1 == 3))
    × ((wait 0x80000014 false 3 warm).phase ≡ Phase.idle)
unfolding create
hit-wait_example = hit-wait 0x80000014 false 1 2 warm refl filled-hit (omega arith) (omega arith)

-- The same cache, when it fetches a line that was not there.
abbrev missing : Cache flat_memory
missing = record warm { phase = Phase.miss_fetch; cur_addr = 0x80000030; victim_way = 1 }

cache-answers_example :
    (n : ℕ) × (n ≤ 2 * 4 + 3 + 3)
    × ((ready flat_memory
          (waited (cache_memory flat_memory) 0x80000030 false n missing)
          0x80000030
          false).0
        ≡ true)
unfolding create FlatMem.create
cache-answers_example = cache-answers 4 3 0x80000030 false missing (record {
  backing = record {
    latency_gt = omega arith;
    latency_lt = omega arith;
    latency_le = omega arith;
    remaining_lt = omega arith;
    remaining_le = omega arith;
  };
  latency_gt = omega arith;
  latency_lt = omega arith;
  latency_le = omega arith;
  remaining_lt = omega arith;
  remaining_le = omega arith;
})
