-- ===== src/Tools/BenchRun/CommandLine.antt =====
-- The command line of tools/bench_run.cpp.
use cpu_sim.Base.{ℕ, Bool, true, false, Option, none, some, List, [], ◌∷◌, if◌then◌else◌, drop}
use cpu_sim.Sim.Tracer.Texts.{Text, codes}
use cpu_sim.Sim.Config.{SimConfig, default_config}
use cpu_sim.Tools.BenchRun.Numbers.{equal, same_start, strtoul, to_unsigned, ulong_max}

pub record Options : Type 0 where
  pub trace_path : Option Text
  pub cycles_path : Option Text
  pub elf_path : Option Text
  pub max_cycles : ℕ
  pub mem_latency : ℕ
  pub dcache : Bool
  pub dcache_ways : ℕ
  pub imem_latency : ℕ
  pub icache : Bool
  pub icache_ways : ℕ
  pub iprefetch : Bool
  pub iprefetch_degree : ℕ
  pub bpred : Bool

abbrev pub default_options : Options
default_options = record {
  trace_path = none;
  cycles_path = none;
  elf_path = none;
  max_cycles = ulong_max;
  mem_latency = 5;
  dcache = false;
  dcache_ways = 1;
  imem_latency = 1;
  icache = false;
  icache_ways = 1;
  iprefetch = false;
  iprefetch_degree = 1;
  bpred = false;
}

-- An argument that is no option: the first is the path, any other the limit.
unfoldable pub positional : Option Text → Text → Options → Options
unfolding strtoul
positional none arg o = record o { elf_path = some arg }
positional (some p) arg o = record o { max_cycles = strtoul arg }

abbrev unsigned_after : ℕ → Text → ℕ
unsigned_after n arg = to_unsigned (strtoul (drop n arg))

-- One pass of the loop over `argv`.
unfoldable pub read_arg : Text → Options → Options
unfolding same_start equal strtoul positional
read_arg arg o =
    if same_start 8 arg (codes "--trace=")
    then record o { trace_path = some (drop 8 arg) }
    else if same_start 9 arg (codes "--cycles=")
    then record o { cycles_path = some (drop 9 arg) }
    else if same_start 14 arg (codes "--mem-latency=")
    then record o { mem_latency = unsigned_after 14 arg }
    else if equal arg (codes "--dcache")
    then record o { dcache = true }
    else if same_start 14 arg (codes "--dcache-ways=")
    then record o { dcache_ways = unsigned_after 14 arg }
    else if same_start 15 arg (codes "--imem-latency=")
    then record o { imem_latency = unsigned_after 15 arg }
    else if equal arg (codes "--icache")
    then record o { icache = true }
    else if same_start 14 arg (codes "--icache-ways=")
    then record o { icache_ways = unsigned_after 14 arg }
    else if equal arg (codes "--iprefetch")
    then record o { iprefetch = true }
    else if same_start 19 arg (codes "--iprefetch-degree=")
    then record o { iprefetch_degree = unsigned_after 19 arg }
    else if equal arg (codes "--bpred")
    then record o { bpred = true }
    else positional o.elf_path arg o

unfoldable pub read_args : List Text → Options → Options
unfolding read_arg
read_args [] o = o
read_args (arg ∷ args) o = read_args args (read_arg arg o)

-- The configuration that the options ask for.
unfoldable pub configured : Options → SimConfig
configured o = record default_config {
  dmem_latency_cycles = o.mem_latency;
  dcache_enabled = o.dcache;
  dcache_ways = o.dcache_ways;
  imem_latency_cycles = o.imem_latency;
  icache_enabled = o.icache;
  icache_ways = o.icache_ways;
  icache_prefetch_enabled = o.iprefetch;
  icache_prefetch_degree = o.iprefetch_degree;
  bpred_enabled = o.bpred;
}
