-- ===== src/Sim/Tests.antt =====
-- Short programs run on two flat memories.
use cpu_sim.Base.{
  get_or, ℕ, Bool, true, ◌≡◌, ◌≤◌, ◌⊎◌, refl, arith, Option, none, some, List, [], ◌∷◌, ◌>>=◌,
}
use cpu_sim.Memory.FlatMem
use cpu_sim.Memory.FlatMem.{flat_memory}
use cpu_sim.RegFile
use cpu_sim.Sim.Core.{
  Core, create, run, run_loop, tick, load_program, evaluate, commit, record_trace, detect_halt,
  count_instruction, count_cycle, capture_ex_operands, captured, latch_stalled, latch_all,
  is_ebreak, is_illegal,
}
use cpu_sim.Isa.Op.{Op}
use cpu_sim.Pipeline.Regs.{id_ex_bubble, ex_mem_bubble, mem_wb_bubble}
use cpu_sim.Pipeline.Fetch
use cpu_sim.Pipeline.Decode
use cpu_sim.Pipeline.Forward
use cpu_sim.Pipeline.Execute
use cpu_sim.Pipeline.MemAccess
use cpu_sim.Pipeline.Writeback
use cpu_sim.Pipeline.Hazard
use cpu_sim.Sim.Core.Stall.{Held, SameOperands, tick-Held, tick-operands}
use cpu_sim.Sim.Core.Loop.{run-stops}

abbrev fresh : Core flat_memory flat_memory
fresh =
    create flat_memory flat_memory 0x80000000 (FlatMem.create 0x80000000 128 1)
      (FlatMem.create 0x80000000 128 3) none

-- addi x1, x0, 5; addi x2, x1, 7; sw x2, 64(x10); lw x3, 64(x10); add x4, x3, x1; ebreak, with
-- lui x10, 0x80000 first.
abbrev program : List ℕ
program =
    0x80000537 ∷ 0x00500093 ∷ 0x00708113 ∷ 0x04252023 ∷ 0x04052183 ∷ 0x00118233 ∷ 0x00100073 ∷ []

outcome : Option (ℕ × ℕ × Bool × ℕ)
unfolding run load_program
outcome = load_program flat_memory flat_memory program fresh >>= λ c.
    (run flat_memory flat_memory 100 c >>= λ d.
    some (RegFile.read d.rf 4, d.stats.cycles, d.halted, d.stats.instructions))

-- Bit operations are computed on numbers, so a short run on an empty memory does for `run`.
abbrev get {ℓ} : {A : Type ℓ} → A → Option A → A
get d none = d
get d (some c) = c

abbrev two_cycles : Core flat_memory flat_memory
two_cycles = get fresh (run flat_memory flat_memory 2 fresh)

run-stops_example : (two_cycles.halted ≡ true) ⊎ (2 ≤ two_cycles.stats.cycles)
unfolding run run_loop tick create evaluate commit record_trace detect_halt count_instruction
    count_cycle capture_ex_operands captured latch_stalled latch_all is_ebreak is_illegal
    RegFile.empty FlatMem.create FlatMem.offset FlatMem.byte_at FlatMem.load_byte FlatMem.load_word
    FlatMem.ready FlatMem.tick Fetch.create Fetch.guess Fetch.fetched Fetch.predicted_pc
    Fetch.evaluate Fetch.latch_stage Decode.decoded Decode.evaluate Decode.latch_stage
    Forward.evaluate Forward.latch_stage Execute.executed Execute.signals Execute.evaluate
    Execute.latch_stage Execute.count_branch Execute.train_predictor MemAccess.evaluate
    MemAccess.latch_stage MemAccess.idle Writeback.evaluate Writeback.latch_stage Hazard.evaluate
    Hazard.latch_stage get_or
run-stops_example = run-stops 2 fresh {c' = two_cycles} (omega arith) refl

-- A load in MEM, whose memory answers in three cycles; behind it `add x3, x1, x2` in EX, with x2 in
-- WB.
abbrev loading : Core flat_memory flat_memory
loading = record fresh {
  ex_mem = record {
    reg = record ex_mem_bubble { op = Op.lw; rd = 1; alu_out = 0x80000000; valid = true };
    shadow = ex_mem_bubble;
  };
  id_ex = record {
    reg = record id_ex_bubble { op = Op.add; rd = 3; rs1 = 5; rs2 = 2; valid = true };
    shadow = id_ex_bubble;
  };
  mem_wb = record {
    reg = record mem_wb_bubble { op = Op.addi; rd = 2; wb_val = 7; valid = true };
    shadow = mem_wb_bubble;
  };
}

abbrev loading_next : Bool × Core flat_memory flat_memory
loading_next = get (true, fresh) (tick flat_memory flat_memory loading)

tick-Held_example : Held loading loading_next.1
unfolding tick create evaluate commit record_trace detect_halt count_instruction count_cycle
    capture_ex_operands captured latch_stalled latch_all is_ebreak is_illegal RegFile.empty
    FlatMem.create FlatMem.offset FlatMem.byte_at FlatMem.load_byte FlatMem.load_word FlatMem.ready
    FlatMem.tick Fetch.create Fetch.guess Fetch.fetched Fetch.predicted_pc Fetch.evaluate
    Fetch.latch_stage Decode.decoded Decode.evaluate Decode.latch_stage Forward.evaluate
    Forward.latch_stage Execute.executed Execute.signals Execute.evaluate Execute.latch_stage
    Execute.count_branch Execute.train_predictor MemAccess.evaluate MemAccess.latch_stage
    MemAccess.idle Writeback.evaluate Writeback.latch_stage Hazard.evaluate Hazard.latch_stage
    get_or MemAccess.is_mem_op MemAccess.is_store
tick-Held_example = tick-Held loading {c' = loading_next.1} {b = loading_next.0} refl refl refl

tick-operands_example : SameOperands loading loading_next.1
unfolding tick create evaluate commit record_trace detect_halt count_instruction count_cycle
    capture_ex_operands captured latch_stalled latch_all is_ebreak is_illegal RegFile.empty
    FlatMem.create FlatMem.offset FlatMem.byte_at FlatMem.load_byte FlatMem.load_word FlatMem.ready
    FlatMem.tick Fetch.create Fetch.guess Fetch.fetched Fetch.predicted_pc Fetch.evaluate
    Fetch.latch_stage Decode.decoded Decode.evaluate Decode.latch_stage Forward.evaluate
    Forward.latch_stage Execute.executed Execute.signals Execute.evaluate Execute.latch_stage
    Execute.count_branch Execute.train_predictor MemAccess.evaluate MemAccess.latch_stage
    MemAccess.idle Writeback.evaluate Writeback.latch_stage Hazard.evaluate Hazard.latch_stage
    get_or MemAccess.is_mem_op MemAccess.is_store
tick-operands_example =
    tick-operands loading {c' = loading_next.1} {b = loading_next.0} refl refl refl refl
