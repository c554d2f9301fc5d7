-- ===== src/Tools/BenchRun/Tests.antt =====
-- A file with one instruction, an EBREAK, run from the command line.
use cpu_sim.Base.{
  ℕ, ◌≡◌, refl, inl, arith, true, Option, none, some, List, [], ◌∷◌, ◌++◌, get_or, set, value_or,
}
use mathlib.Core.Option
use cpu_sim.Memory.FlatMem
use cpu_sim.Memory.Tags
use cpu_sim.Predictor
use cpu_sim.RegFile
use cpu_sim.Isa.Encoding
use cpu_sim.Isa.Decoder.{decode, undecoded, system_op}
use cpu_sim.Alu.{alu_exec, alu_op_for, branch_taken}
use cpu_sim.Pipeline.Fetch
use cpu_sim.Pipeline.Decode
use cpu_sim.Pipeline.Forward
use cpu_sim.Pipeline.Execute
use cpu_sim.Pipeline.MemAccess
use cpu_sim.Pipeline.Writeback
use cpu_sim.Pipeline.Hazard
use cpu_sim.Sim.Core.{
  create, run, run_loop, tick, evaluate, commit, record_trace, detect_halt, set_tracer,
  count_instruction, count_cycle, capture_ex_operands, captured, latch_stalled, latch_all,
  is_ebreak, is_illegal,
}
use cpu_sim.Sim.Config.{make_core, built, asserted, attach, imem, dram, icache, dcache, bpred}
use cpu_sim.Sim.Elf.{
  load_elf, load_core, check_entry, load_read, load_checked, load_segments, load_segment,
  store_segment, store_data, zero_bss, ehdr_of, phdr_of, header_error,
}
use cpu_sim.Sim.Elf.Stream.{read, seekg, opened}
use cpu_sim.Sim.Tracer.Texts.{Text, codes}
use cpu_sim.Tools.BenchRun.{
  Host, Result, main, with_path, bench, run_loaded, finished, opens, tracer_for, exit_code_for,
  failed,
}
use cpu_sim.Tools.BenchRun.Numbers.{equal, same_start, strtoul}
use cpu_sim.Tools.BenchRun.Report.{stopped_for_illegal}
use cpu_sim.Tools.BenchRun.CommandLine.{
  default_options, read_args, read_arg, positional, configured,
}
use cpu_sim.Tools.BenchRun.RoundTrip.{
  Setting, render, asked, applied, apply, fit, number, read_args-render,
}
use cpu_sim.Tools.BenchRun.Exits.{Told, main-Told}

abbrev word : ℕ → List ℕ
word b = b ∷ 0 ∷ 0 ∷ 0 ∷ []

abbrev base_word : List ℕ
base_word = 0 ∷ 0 ∷ 0 ∷ 0x80 ∷ []

-- Entry point 0x80000000, one program header, one segment of four bytes there.
abbrev file : List ℕ
file =
    (0x7f ∷ 0x45 ∷ 0x4c ∷ 0x46 ∷ 1 ∷ 1 ∷ 1 ∷ 0 ∷ 0 ∷ 0 ∷ 0 ∷ 0 ∷ 0 ∷ 0 ∷ 0 ∷ 0 ∷ [])
    ++ (2 ∷ 0 ∷ 0xf3 ∷ 0 ∷ [])
    ++ word 1
    ++ base_word
    ++ word 52
    ++ word 0
    ++ word 0
    ++ (52 ∷ 0 ∷ 32 ∷ 0 ∷ 1 ∷ 0 ∷ 0 ∷ 0 ∷ 0 ∷ 0 ∷ 0 ∷ 0 ∷ [])
    ++ word 1
    ++ word 84
    ++ base_word
    ++ base_word
    ++ word 4
    ++ word 4
    ++ word 5
    ++ word 4
    ++ (0x73 ∷ 0x00 ∷ 0x10 ∷ 0x00 ∷ [])

abbrev host : Host
host = record {
  contents = λ p. some file;
  can_write = λ p. true;
  doubles = record { accuracy = λ n m. []; ipc = λ n m. []; elapsed = []; mcps = [] };
}

abbrev args : List Text
args = codes "a" ∷ []

exits : Option.map (λ (r : Result). r.exit_code) (main host args) ≡ some 0
unfolding main with_path bench run_loaded finished asserted Tags.accepts Predictor.accepts
    Predictor.is_power_of_two opens tracer_for exit_code_for equal same_start strtoul
    stopped_for_illegal read_args read_arg positional configured set_tracer load_core check_entry
    load_elf load_read load_checked header_error ehdr_of phdr_of load_segments load_segment
    store_segment store_data zero_bss read seekg opened run run_loop tick create evaluate commit
    record_trace detect_halt count_instruction count_cycle capture_ex_operands captured
    latch_stalled latch_all is_ebreak is_illegal RegFile.empty RegFile.read RegFile.write
    FlatMem.create FlatMem.offset FlatMem.byte_at FlatMem.put_byte FlatMem.load_byte
    FlatMem.load_word FlatMem.store_byte FlatMem.ready FlatMem.tick Fetch.create Fetch.guess
    Fetch.fetched Fetch.predicted_pc Fetch.evaluate Fetch.latch_stage Decode.decoded Decode.evaluate
    Decode.latch_stage Forward.evaluate Forward.latch_stage Forward.resolve Execute.executed
    Execute.signals Execute.evaluate Execute.latch_stage Execute.count_branch
    Execute.train_predictor MemAccess.evaluate MemAccess.latch_stage MemAccess.idle
    MemAccess.perform MemAccess.access MemAccess.passed MemAccess.is_mem_op MemAccess.is_store
    Writeback.evaluate Writeback.latch_stage Writeback.has_writeback Hazard.evaluate Hazard.is_load
    Hazard.latch_stage get_or set make_core built attach imem dram icache dcache bpred decode
    system_op undecoded Encoding.opcode Encoding.rd Encoding.rs1 Encoding.rs2 Encoding.funct3
    Encoding.funct7 Encoding.funct12 Encoding.sext Encoding.imm_i Execute.alu_out
    Execute.actual_taken Execute.target Execute.next_pc Execute.is_jal Execute.is_jalr
    Execute.is_auipc Execute.uses_imm Execute.is_cond_branch alu_exec alu_op_for branch_taken
exits = refl

-- The result of the run.
result : Result
result = value_or (failed 9 []) (main host args)

runs : main host args ≡ some result
unfolding result
runs = defined_value (main host args) exits
  where
    defined_value :
        (o : Option Result)
        → Option.map (λ (r : Result). r.exit_code) o ≡ some 0
        → o ≡ some (value_or (failed 9 []) o)
    defined_value none e = cc
    defined_value (some r) e = refl

exit_code_is : result.exit_code ≡ 0
unfolding result
exit_code_is = exit_of (main host args) exits
  where
    exit_of :
        (o : Option Result)
        → Option.map (λ (r : Result). r.exit_code) o ≡ some 0
        → (value_or (failed 9 []) o).exit_code ≡ 0
    exit_of none e = cc
    exit_of (some r) e = ground (arith, e)

main-Told_example : Told host (read_args args default_options) result.exit_code
unfolding read_args
main-Told_example = main-Told host args refl runs (inl exit_code_is)

-- Options with a trace and both caches, one of them given twice.
abbrev settings : List Setting
settings =
    Setting.icache_ways 2
    ∷ Setting.dcache
    ∷ Setting.trace (codes "t")
    ∷ Setting.icache
    ∷ Setting.icache_ways 4
    ∷ []

read_args-render_example :
    read_args (render settings (codes "a") (some 1000)) default_options
    ≡ asked settings (codes "a") (some 1000)
unfolding fit number
read_args-render_example =
    read_args-render settings (codes "a") (some 1000) refl (omega arith) (ground arith)

settings_read : asked settings (codes "a") (some 1000) ≡ record default_options {
  trace_path = some (codes "t");
  dcache = true;
  icache = true;
  icache_ways = 4;
  elf_path = some (codes "a");
  max_cycles = 1000;
}
unfolding asked applied apply
settings_read = refl
