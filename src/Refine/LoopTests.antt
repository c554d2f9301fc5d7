-- ===== src/Refine/LoopTests.antt =====
-- A loop on a core with a predictor.
use cpu_sim.Base.{ℕ, refl, true, List, [], ◌∷◌, get_or, set, value_or}
use cpu_sim.Memory.FlatMem
use cpu_sim.Memory.FlatMem.{flat_memory}
use cpu_sim.Predictor
use cpu_sim.Memory.Tags
use cpu_sim.RegFile
use cpu_sim.Isa.Encoding
use cpu_sim.Isa.Decoder.{decode, undecoded, decode_op_imm, branch_op, system_op}
use cpu_sim.Alu.{alu_exec, alu_op_for, branch_taken}
use cpu_sim.Pipeline.Fetch
use cpu_sim.Pipeline.Decode
use cpu_sim.Pipeline.Forward
use cpu_sim.Pipeline.Execute
use cpu_sim.Pipeline.MemAccess
use cpu_sim.Pipeline.Writeback
use cpu_sim.Pipeline.Hazard
use cpu_sim.Sim.Core.{
  Core, create, run, run_loop, tick, load_program, load_words, evaluate, commit, record_trace,
  detect_halt, count_instruction, count_cycle, capture_ex_operands, captured, latch_stalled,
  latch_all, is_ebreak, is_illegal,
}
use cpu_sim.Sim.Config.{
  SimConfig, default_config, make_core, built, asserted, attach, imem, dram, icache, dcache, bpred,
}
use cpu_sim.Refine.Configured.{Ran}
use cpu_sim.Refine.OnPort.{fetches_aligned, fetches_aligned-FetchesAligned}
use cpu_sim.Refine.Guided.{run-guided}

-- Sixty-four bytes of memory, and small tables.
abbrev guided : SimConfig
guided = record default_config {
  ram_base_addr = 0;
  ram_size_bytes = 64;
  bpred_enabled = true;
  bpred_bht_entries = 4;
  bpred_btb_entries = 2;
}

-- addi x1, x0, 3; addi x1, x1, -1; bne x1, x0, -4; ebreak.
abbrev loop : List ℕ
loop = 0x00300093 ∷ 0xfff08093 ∷ 0xfe009ee3 ∷ 0x00100073 ∷ []

abbrev ready_core : Core flat_memory flat_memory
ready_core = value_or (built guided) (load_program flat_memory flat_memory loop (built guided))

abbrev finished : Core flat_memory flat_memory
finished = value_or ready_core (run flat_memory flat_memory 30 ready_core)

run-guided_example : Ran guided loop finished
unfolding run run_loop tick create evaluate commit record_trace detect_halt count_instruction
    count_cycle capture_ex_operands captured latch_stalled latch_all is_ebreak is_illegal
    RegFile.empty RegFile.read RegFile.write FlatMem.create FlatMem.offset FlatMem.byte_at
    FlatMem.put_byte FlatMem.load_byte FlatMem.load_word FlatMem.store_word FlatMem.ready
    FlatMem.tick Fetch.create Fetch.guess Fetch.fetched Fetch.predicted_pc Fetch.evaluate
    Fetch.latch_stage Decode.decoded Decode.evaluate Decode.latch_stage Forward.evaluate
    Forward.latch_stage Forward.resolve Execute.executed Execute.signals Execute.evaluate
    Execute.latch_stage Execute.count_branch Execute.train_predictor MemAccess.evaluate
    MemAccess.latch_stage MemAccess.idle MemAccess.perform MemAccess.access MemAccess.passed
    MemAccess.is_mem_op MemAccess.is_store Writeback.evaluate Writeback.latch_stage
    Writeback.has_writeback Hazard.evaluate Hazard.is_load Hazard.latch_stage get_or set
    load_program load_words make_core built asserted Tags.accepts Predictor.accepts
    Predictor.is_power_of_two attach imem dram icache dcache bpred decode decode_op_imm system_op
    undecoded Encoding.opcode Encoding.rd Encoding.rs1 Encoding.rs2 Encoding.funct3 Encoding.funct7
    Encoding.funct12 Encoding.sext Encoding.imm_i Execute.alu_out Execute.actual_taken
    Execute.target Execute.next_pc Execute.is_jal Execute.is_jalr Execute.is_auipc Execute.uses_imm
    Execute.is_cond_branch alu_exec alu_op_for branch_taken fetches_aligned Predictor.predict
    Predictor.create Predictor.btb_index Predictor.update Predictor.btb_tag Predictor.bht_index
    branch_op Fetch.set_redirect Decode.set_flush Encoding.imm_b
run-guided_example =
    run-guided guided loop 30 2 1 {c = ready_core} {c' = finished} refl refl refl
      (fetches_aligned-FetchesAligned 30 ready_core refl) refl refl
