-- ===== src/Refine/Tests.antt =====
-- A program of two instructions on a configured core.
use cpu_sim.Base.{ℕ, refl, false, List, [], ◌∷◌, get_or, set, value_or}
use cpu_sim.Memory.FlatMem
use cpu_sim.Memory.FlatMem.{flat_memory}
use cpu_sim.Predictor
use cpu_sim.Memory.Tags
use cpu_sim.RegFile
use cpu_sim.Isa.Encoding
use cpu_sim.Isa.Decoder.{decode, undecoded, decode_op_imm, system_op}
use cpu_sim.Alu.{alu_exec, alu_op_for, branch_taken}
use cpu_sim.Pipeline.Fetch
use cpu_sim.Pipeline.Decode
use cpu_sim.Pipeline.Forward
use cpu_sim.Pipeline.Execute
use cpu_sim.Pipeline.MemAccess
use cpu_sim.Pipeline.Writeback
use cpu_sim.Pipeline.Hazard
use cpu_sim.Sim.Core.{
  Core, create, run, run_loop, tick, load_program, load_words, evaluate, commit, record_trace,
  detect_halt, count_instruction, count_cycle, capture_ex_operands, captured, latch_stalled,
  latch_all, is_ebreak, is_illegal,
}
use cpu_sim.Sim.Config.{
  SimConfig, default_config, make_core, built, asserted, attach, imem, dram, icache, dcache, bpred,
}
use cpu_sim.Memory.Cache.{cache_memory}
use cpu_sim.Arch.Refinement.{Implements}
use cpu_sim.Refine.Ports.{at_rest, flat_memory-Implements, cache_memory-Implements}
use cpu_sim.Refine.Configured.{Ran, run-program}

cache_memory-Implements_example :
    Implements
      (cache_memory (cache_memory flat_memory))
      flat_memory
      (λ c. at_rest c.backing.backing)
cache_memory-Implements_example =
    cache_memory-Implements (cache_memory-Implements flat_memory-Implements)

-- Thirty-two bytes of memory, a fetch takes two cycles.
abbrev pub small : SimConfig
small = record default_config {
  ram_base_addr = 0;
  ram_size_bytes = 32;
  imem_latency_cycles = 2;
  icache_enabled = false;
  dcache_enabled = false;
  bpred_enabled = false;
}

-- addi x1, x0, 5; ebreak.
abbrev pub program : List ℕ
program = 0x00500093 ∷ 0x00100073 ∷ []

abbrev ready_core : Core flat_memory flat_memory
ready_core = value_or (built small) (load_program flat_memory flat_memory program (built small))

abbrev finished : Core flat_memory flat_memory
finished = value_or ready_core (run flat_memory flat_memory 20 ready_core)

run-program_example : Ran small program finished
unfolding run run_loop tick create evaluate commit record_trace detect_halt count_instruction
    count_cycle capture_ex_operands captured latch_stalled latch_all is_ebreak is_illegal
    RegFile.empty RegFile.read RegFile.write FlatMem.create FlatMem.offset FlatMem.byte_at
    FlatMem.put_byte FlatMem.load_byte FlatMem.load_word FlatMem.store_word FlatMem.ready
    FlatMem.tick Fetch.create Fetch.guess Fetch.fetched Fetch.predicted_pc Fetch.evaluate
    Fetch.latch_stage Decode.decoded Decode.evaluate Decode.latch_stage Forward.evaluate
    Forward.latch_stage Forward.resolve Execute.executed Execute.signals Execute.evaluate
    Execute.latch_stage Execute.count_branch Execute.train_predictor MemAccess.evaluate
    MemAccess.latch_stage MemAccess.idle MemAccess.perform MemAccess.access MemAccess.passed
    MemAccess.is_mem_op MemAccess.is_store Writeback.evaluate Writeback.latch_stage
    Writeback.has_writeback Hazard.evaluate Hazard.is_load Hazard.latch_stage get_or set
    load_program load_words make_core built asserted Tags.accepts Predictor.accepts
    Predictor.is_power_of_two attach imem dram icache dcache bpred decode decode_op_imm system_op
    undecoded Encoding.opcode Encoding.rd Encoding.rs1 Encoding.rs2 Encoding.funct3 Encoding.funct7
    Encoding.funct12 Encoding.sext Encoding.imm_i Execute.alu_out Execute.actual_taken
    Execute.target Execute.next_pc Execute.is_jal Execute.is_jalr Execute.is_auipc Execute.uses_imm
    Execute.is_cond_branch alu_exec alu_op_for branch_taken
run-program_example =
    run-program small program 20 {c = ready_core} {c' = finished} refl refl refl refl
