-- ===== src/Tools/BenchRun.antt =====
-- `main` of tools/bench_run.cpp: the command line, a run of the core, the report and the exit
-- code. The files of the host and what is printed of a `double` are arguments; an exception is the
-- error message and exit code 2, and `none` an assertion that fails.
pub mod Numbers
pub mod CommandLine
pub mod Report
pub mod Decimals
pub mod RoundTrip
pub mod Exits
mod Tests
use cpu_sim.Base.{ℕ, ◌-◌, Bool, true, false, not, ◌&&◌, ◌||◌, Option, none, some, List, [], ◌∷◌}
use cpu_sim.Base.{◌++◌, ◌==◌, if◌then◌else◌, ◌>>=◌, is_some, bit_and, length}
use cpu_sim.Memory.Interface.{IMemory}
use cpu_sim.Memory.Cache.{Cache}
use cpu_sim.Memory.Tags.{PrefetchStats}
use cpu_sim.Pipeline.Regs.{MemWb}
use cpu_sim.Sim.Core.{Core, HaltReason, run, set_tracer}
use cpu_sim.Sim.Config.{SimConfig, port, make_core}
use cpu_sim.Sim.Elf.{Outcome, LoadError, load_core}
use cpu_sim.Sim.Tracer
use cpu_sim.Sim.Tracer.{Tracer, Format, trace}
use cpu_sim.Sim.Tracer.Texts.{Text, codes}
use cpu_sim.Tools.BenchRun.CommandLine.{Options, default_options, read_args, configured}
use cpu_sim.Tools.BenchRun.Report.{
  Doubles, line, option_lines, branch_lines, halt_line, speed_lines, read_regs, load_message,
  stopped_for_illegal,
}

-- The file system of the host.
pub record Host : Type 0 where
  pub contents : Text → Option (List ℕ)
  pub can_write : Text → Bool
  pub doubles : Doubles

pub record Result : Type 0 where
  pub exit_code : ℕ
  pub out : Text
  pub err : Text
  pub written : Option (Text × Text)

unfoldable pub usage : Text
usage = line (
    codes "usage: bench_run [--trace=<file>] [--cycles=<file>] "
    ∷ codes "[--mem-latency=<n>] [--dcache] [--dcache-ways=<n>] "
    ∷ codes "[--imem-latency=<n>] [--icache] [--icache-ways=<n>] "
    ∷ codes "[--iprefetch] [--iprefetch-degree=<n>] "
    ∷ codes "[--bpred] <elf> [max_cycles]"
    ∷ [])

abbrev pub failed : ℕ → Text → Result
failed code err = record { exit_code = code; out = []; err = err; written = none }

-- The tracer, if a path is given; a path for cycles comes first.
unfoldable pub tracer_for : Host → Options → Option (Text × Format)
tracer_for h o = elim o.cycles_path [
  | some p ↦ some (p, Format.cycle)
  | none ↦ elim o.trace_path [ some p ↦ some (p, Format.commit) | none ↦ none ]
]

-- Whether the tracer's file opens.
unfoldable pub opens : Host → Option (Text × Format) → Bool
opens h none = false
opens h (some (p, fmt)) = h.can_write p

unfoldable pub warning : Host → Option (Text × Format) → Text
warning h none = []
warning h (some (p, fmt)) =
    if h.can_write p then [] else line (codes "warn: cannot open trace file '" ∷ p ∷ codes "'" ∷ [])

-- The stream behind the calls of `record`, newest first.
unfoldable pub traced : Format → List (MemWb × ℕ) → Tracer
unfolding Tracer.create trace
traced fmt [] = Tracer.create fmt
traced fmt ((wb, n) ∷ calls) = trace wb n (traced fmt calls)

unfoldable pub trace_file :
    Host → Option (Text × Format) → Option (List (MemWb × ℕ)) → Option (Text × Text)
unfolding traced
trace_file h (some (p, fmt)) (some calls) = some (p, (traced fmt calls).out)
trace_file h _ _ = none

-- The counters of the I-cache, which stay 0 without one.
unfoldable pub prefetch_stats : (enabled : Bool) → (port enabled).State → PrefetchStats
prefetch_stats true c = elim c.tags.stats [ some s ↦ s | none ↦ record { useful = 0; useless = 0 } ]
prefetch_stats false m = record { useful = 0; useless = 0 }

unfoldable pub exit_code_for : HaltReason → Bool → ℕ
unfolding stopped_for_illegal
exit_code_for reason halted = if stopped_for_illegal reason then 3 else if halted then 0 else 1

module _ (h : Host) (path : Text) (o : Options) where
  abbrev pub cfg : SimConfig
  cfg = configured o

  abbrev pub BenchCore : Type 0
  BenchCore = Core (port (configured o).icache_enabled) (port (configured o).dcache_enabled)

  -- What is printed behind the run.
  unfoldable pub report : BenchCore → Text
  unfolding option_lines branch_lines halt_line speed_lines read_regs prefetch_stats configured
  report c =
      option_lines path o
      ++ branch_lines h.doubles o.iprefetch c.stats
          (prefetch_stats (configured o).icache_enabled c.imem)
      ++ halt_line c.halt_reason c.halted c.halt_pc c.halt_raw
      ++ speed_lines h.doubles c.stats
      ++ read_regs c.rf 16 0

  unfoldable pub finished : BenchCore → Result
  unfolding exit_code_for report trace_file warning tracer_for configured
  finished c = record {
    exit_code = exit_code_for c.halt_reason c.halted;
    out = report c;
    err = warning h (tracer_for h o);
    written = trace_file h (tracer_for h o) c.tracer;
  }

  -- Behind the load.
  unfoldable pub run_loaded : Outcome × BenchCore → Option Result
  unfolding load_message finished opens tracer_for configured set_tracer run
  run_loaded (Outcome.thrown e, c) =
      some (failed 2 (line (codes "error: " ∷ load_message path e ∷ [])))
  run_loaded (Outcome.returned entry, c) =
      let I = port (configured o).icache_enabled in
      let D = port (configured o).dcache_enabled in
      let ready = if opens h (tracer_for h o) then set_tracer I D (some []) c else c in
      run I D o.max_cycles ready >>= λ c'. some (finished c')

  unfoldable pub bench : Option Result
  unfolding run_loaded configured make_core load_core
  bench =
      make_core (configured o)
      >>= load_core (port (configured o).icache_enabled) (port (configured o).dcache_enabled)
          (h.contents path)
      >>= run_loaded

unfoldable pub with_path : Host → Options → Option Text → Option Result
unfolding bench
with_path h o none = some (failed 1 (line (codes "error: no ELF path given" ∷ [])))
with_path h o (some path) = bench h path o

-- `argv` without the program's name.
unfoldable pub main : Host → List Text → Option Result
unfolding usage with_path read_args
main h [] = some (failed 1 usage)
main h (arg ∷ args) = let o = read_args (arg ∷ args) default_options in with_path h o o.elf_path
