-- ===== src/Tools/BenchRun/Report.antt =====
-- What tools/bench_run.cpp prints about a run, with `Core::read_regs` of src/sim/core.cpp and the
-- messages of the exceptions. A `double` and the clock enter as the texts that are printed of them.

use mathlib.Core.List.{map}
use cpu_sim.Base.{ℕ, zero, suc, ◌+◌, ◌-◌, ◌%◌, ◌^◌, Bool, true, false, not, List, [], ◌∷◌, ◌++◌}
use cpu_sim.Base.{◌==◌, leb, ◌&&◌, if◌then◌else◌}
use cpu_sim.Memory.Tags.{PrefetchStats}
use cpu_sim.RegFile
use cpu_sim.RegFile.{RegFile}
use cpu_sim.Sim.Stats.{SimStats}
use cpu_sim.Sim.Core.{HaltReason}
use cpu_sim.Sim.Elf.{LoadError}
use cpu_sim.Sim.Tracer.{abi_name}
use cpu_sim.Sim.Tracer.Texts.{
  Text, codes, decimal, hex, hex_word, zero_fill, left_fill, right_fill, snprintf,
}
use cpu_sim.Tools.BenchRun.CommandLine.{Options}

-- What is printed of a `double`: `accuracy` and `ipc` of two counters, and what the clock gives.
pub record Doubles : Type 0 where
  pub accuracy : ℕ → ℕ → Text
  pub ipc : ℕ → ℕ → Text
  pub elapsed : Text
  pub mcps : Text

abbrev pub line : List Text → Text
line [] = 10 ∷ []
line (t ∷ ts) = t ++ line ts

-- `%X` of a 32-bit pattern.
unfoldable pub upper_hex : ℕ → Text
unfolding hex
upper_hex n = map (λ c. if leb b'a' c && leb c b'f' then c - 32 else c) (hex n)

-- "x%-2d %4s = 0x%08X"
abbrev register : RegFile → ℕ → Text
register rf i =
    codes "x"
    ++ right_fill 2 (decimal i)
    ++ codes " "
    ++ left_fill 4 (abi_name i)
    ++ codes " = 0x"
    ++ zero_fill 8 (upper_hex (RegFile.read rf i))

-- The lines of `read_regs` from register i on, of which `n` are left.
unfoldable pub read_regs : RegFile → ℕ → ℕ → Text
unfolding right_fill decimal left_fill abi_name zero_fill upper_hex RegFile.read
read_regs rf zero i = []
read_regs rf (suc n) i =
    line (codes " " ∷ register rf i ∷ codes "    " ∷ register rf (i + 16) ∷ [])
    ++ read_regs rf n (i + 1)

abbrev on_off : Bool → Text
on_off b = if b then codes "on" else codes "off"

abbrev if_on : Bool → Text → Text
if_on b t = if b then t else []

-- The lines about the options.
unfoldable pub option_lines : Text → Options → Text
unfolding decimal
option_lines path o =
    line (codes "elf:       " ∷ path ∷ [])
    ++ line (
        codes "mem lat:   "
        ∷ decimal o.mem_latency
        ∷ codes " cycle(s)"
        ∷ if_on o.dcache (codes " (miss penalty)")
        ∷ [])
    ++ line (
        codes "dcache:    "
        ∷ on_off o.dcache
        ∷ if_on o.dcache (codes " (" ++ decimal o.dcache_ways ++ codes "-way)")
        ∷ [])
    ++ line (
        codes "imem lat:  "
        ∷ decimal o.imem_latency
        ∷ codes " cycle(s)"
        ∷ if_on o.icache (codes " (miss penalty)")
        ∷ [])
    ++ line (
        codes "icache:    "
        ∷ on_off o.icache
        ∷ if_on o.icache (codes " (" ++ decimal o.icache_ways ++ codes "-way)")
        ∷ [])
    ++ line (
        codes "iprefetch: "
        ∷ on_off o.iprefetch
        ∷ if_on o.iprefetch (codes " (degree " ++ decimal o.iprefetch_degree ++ codes ")")
        ∷ [])
    ++ line (codes "bpred:     " ∷ on_off o.bpred ∷ [])

-- The sum is an `unsigned long long`.
unfoldable pub branch_lines : Doubles → Bool → SimStats → PrefetchStats → Text
unfolding decimal
branch_lines d iprefetch s p =
    let total = (s.branch_correct + s.branch_mispredicts) % 2 ^ 64 in
    line (codes "branches:  " ∷ decimal total ∷ [])
    ++ line (codes "correct:   " ∷ decimal s.branch_correct ∷ [])
    ++ line (codes "mispred:   " ∷ decimal s.branch_mispredicts ∷ [])
    ++ if_on iprefetch
        (line (codes "pf useful/useless: " ∷ decimal p.useful ∷ codes "/" ∷ decimal p.useless ∷ []))
    ++ if_on (not (total == 0))
        (line (codes "accuracy:  " ∷ d.accuracy s.branch_correct total ∷ codes "%" ∷ []))

unfoldable pub stopped_for_illegal : HaltReason → Bool
stopped_for_illegal HaltReason.illegal = true
stopped_for_illegal _ = false

unfoldable pub halt_line : HaltReason → Bool → ℕ → ℕ → Text
unfolding stopped_for_illegal hex_word
halt_line reason halted pc raw =
    if stopped_for_illegal reason
    then line (
        codes "halted:    ILLEGAL INSTRUCTION " ∷ hex_word raw ∷ codes " at pc " ∷ hex_word pc ∷ [])
    else line
        (codes "halted:    " ∷ (if halted then codes "yes" else codes "no (cycle limit)") ∷ [])

unfoldable pub speed_lines : Doubles → SimStats → Text
unfolding decimal
speed_lines d s =
    line (codes "cycles:    " ∷ decimal s.cycles ∷ [])
    ++ line (codes "insts:     " ∷ decimal s.instructions ∷ [])
    ++ if_on (not (s.cycles == 0)) (line (codes "IPC:       " ∷ d.ipc s.instructions s.cycles ∷ []))
    ++ line (codes "wall time: " ∷ d.elapsed ∷ codes " s" ∷ [])
    ++ line (codes "sim speed: " ∷ d.mcps ∷ codes " Mcycles/s" ∷ [])
    ++ line []

-- `what()` of the exceptions of a load.
unfoldable pub load_message : Text → LoadError → Text
unfolding decimal hex_word
load_message path LoadError.cannot_open = codes "elf_loader: cannot open '" ++ path ++ codes "'"
load_message path LoadError.short_header = codes "elf_loader: failed to read ELF header"
load_message path LoadError.not_elf = codes "elf_loader: not an ELF file"
load_message path LoadError.not_elf32 = codes "elf_loader: not ELF32"
load_message path LoadError.not_little_endian = codes "elf_loader: not little-endian ELF"
load_message path LoadError.not_riscv = codes "elf_loader: not a RISC-V ELF"
load_message path (LoadError.short_segment i) =
    codes "elf_loader: short read on segment " ++ decimal i
load_message path (LoadError.entry_not_base entry base) =
    snprintf 80 (codes "load_elf: entry " ++ hex_word entry ++ codes " != base " ++ hex_word base)
