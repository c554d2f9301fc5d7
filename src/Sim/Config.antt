-- ===== src/Sim/Config.antt =====
-- `SimConfig` of include/cpusim/sim/sim_config.h, and the parts that the constructor of `Core` makes
-- from it.
use cpu_sim.Base.{
  ℕ, ◌≡◌, refl, Bool, true, false, not, ◌&&◌, ◌||◌, Option, none, some, if◌then◌else◌, ◌>>=◌,
}
use cpu_sim.Memory.Interface.{IMemory}
use cpu_sim.Memory.FlatMem
use cpu_sim.Memory.FlatMem.{FlatMem, flat_memory}
use cpu_sim.Memory.Cache
use cpu_sim.Memory.Cache.{Cache, cache_memory}
use cpu_sim.Memory.Tags
use cpu_sim.Predictor
use cpu_sim.Predictor.{BranchPredictor}
use cpu_sim.Sim.Core.{Core, create}

pub record SimConfig : Type 0 where
  pub ram_base_addr : ℕ
  pub ram_size_bytes : ℕ
  pub dmem_latency_cycles : ℕ
  pub dcache_enabled : Bool
  pub dcache_line_bytes : ℕ
  pub dcache_sets : ℕ
  pub dcache_hit_latency_cycles : ℕ
  pub dcache_ways : ℕ
  pub imem_latency_cycles : ℕ
  pub icache_enabled : Bool
  pub icache_line_bytes : ℕ
  pub icache_sets : ℕ
  pub icache_hit_latency_cycles : ℕ
  pub icache_ways : ℕ
  pub icache_prefetch_enabled : Bool
  pub icache_prefetch_degree : ℕ
  pub bpred_enabled : Bool
  pub bpred_bht_entries : ℕ
  pub bpred_btb_entries : ℕ

abbrev pub default_config : SimConfig
default_config = record {
  ram_base_addr = 0x80000000;
  ram_size_bytes = 0x10000;
  dmem_latency_cycles = 1;
  dcache_enabled = false;
  dcache_line_bytes = 32;
  dcache_sets = 64;
  dcache_hit_latency_cycles = 1;
  dcache_ways = 1;
  imem_latency_cycles = 1;
  icache_enabled = false;
  icache_line_bytes = 32;
  icache_sets = 64;
  icache_hit_latency_cycles = 1;
  icache_ways = 1;
  icache_prefetch_enabled = false;
  icache_prefetch_degree = 1;
  bpred_enabled = false;
  bpred_bht_entries = 256;
  bpred_btb_entries = 64;
}

-- A port is a memory, with a cache on it if there is one.
abbrev pub port : Bool → IMemory
port true = cache_memory flat_memory
port false = flat_memory

unfoldable pub attach : (enabled : Bool) → FlatMem → Cache flat_memory → (port enabled).State
attach true m c = c
attach false m c = m

unfoldable pub imem : SimConfig → FlatMem
imem cfg = FlatMem.create cfg.ram_base_addr cfg.ram_size_bytes cfg.imem_latency_cycles

unfoldable pub dram : SimConfig → FlatMem
dram cfg = FlatMem.create cfg.ram_base_addr cfg.ram_size_bytes cfg.dmem_latency_cycles

unfoldable pub icache : SimConfig → Cache flat_memory
unfolding imem
icache cfg =
    Cache.create flat_memory (imem cfg) cfg.icache_line_bytes cfg.icache_sets
      cfg.icache_hit_latency_cycles cfg.icache_ways cfg.icache_prefetch_enabled
      cfg.icache_prefetch_degree (some (record { useful = 0; useless = 0 }))

unfoldable pub dcache : SimConfig → Cache flat_memory
unfolding dram
dcache cfg =
    Cache.create flat_memory (dram cfg) cfg.dcache_line_bytes cfg.dcache_sets
      cfg.dcache_hit_latency_cycles cfg.dcache_ways false 1 none

unfoldable pub bpred : SimConfig → Option BranchPredictor
bpred cfg =
    if cfg.bpred_enabled
    then some (Predictor.create cfg.bpred_bht_entries cfg.bpred_btb_entries)
    else none

-- The assertions of the constructors that `Core` calls.
unfoldable pub asserted : SimConfig → Bool
unfolding Tags.accepts Predictor.accepts
asserted cfg =
    (not cfg.icache_enabled || Tags.accepts cfg.icache_line_bytes cfg.icache_sets cfg.icache_ways)
    && (not cfg.dcache_enabled
        || Tags.accepts cfg.dcache_line_bytes cfg.dcache_sets cfg.dcache_ways)
    && (not cfg.bpred_enabled || Predictor.accepts cfg.bpred_btb_entries)

abbrev pub CoreOf : SimConfig → Type 0
CoreOf cfg = Core (port cfg.icache_enabled) (port cfg.dcache_enabled)

-- The core of a configuration that passes them.
unfoldable pub built : (cfg : SimConfig) → CoreOf cfg
unfolding attach icache dcache bpred create
built cfg =
    create (port cfg.icache_enabled) (port cfg.dcache_enabled) cfg.ram_base_addr
      (attach cfg.icache_enabled (imem cfg) (icache cfg))
      (attach cfg.dcache_enabled (dram cfg) (dcache cfg)) (bpred cfg)

-- The constructor of `Core`: an assertion that fails ends the program.
unfoldable pub make_core : (cfg : SimConfig) → Option (CoreOf cfg)
unfolding asserted built
make_core cfg = if asserted cfg then some (built cfg) else none

module _ (cfg : SimConfig) {A : Type 0} (k : CoreOf cfg → Option A) where
  pub make_core-passed : asserted cfg ≡ true → (make_core cfg >>= k) ≡ k (built cfg)
  unfolding make_core
  make_core-passed h = rw h refl

  -- What goes on from a core goes on from the one that is built.
  pub make_core-built : {x : A} → (make_core cfg >>= k) ≡ some x → k (built cfg) ≡ some x
  unfolding make_core
  make_core-built {x} h = passed (asserted cfg) h
    where
      passed :
          (b : Bool)
          → ((if b then some (built cfg) else none) >>= k) ≡ some x
          → k (built cfg) ≡ some x
      passed true h = h
      passed false h = cc
