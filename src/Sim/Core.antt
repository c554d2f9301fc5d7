-- ===== src/Sim/Core.antt =====
-- `Core` of src/sim/core.cpp: the pipeline wired up and clocked. The instruction port `I` and the
-- data port `D` are any two memories; `Config` makes them from a configuration. A tracer is the list
-- of the calls of its `record`, newest first.
pub mod Phases
pub mod Stall
pub mod Commit
pub mod Loop
use cpu_sim.Base.{ℕ, zero, suc, ◌-◌, Bool, true, false, not, ◌&&◌, ◌||◌, Option, none, some, List}
use cpu_sim.Base.{[], ◌∷◌, ltb, if◌then◌else◌, add32, ◌>>=◌}
use mathlib.Core.Option
use cpu_sim.Isa.Op.{Op}
use cpu_sim.Memory.Interface.{IMemory}
use cpu_sim.RegFile
use cpu_sim.RegFile.{RegFile}
use cpu_sim.Predictor.{BranchPredictor}
use cpu_sim.Sim.Stats.{SimStats, no_stats, increment}
use cpu_sim.Pipeline.Latch.{Latch, write, latch}
use cpu_sim.Pipeline.Regs.{IfId, IdEx, ExMem, MemWb}
use cpu_sim.Pipeline.Regs.{if_id_bubble, id_ex_bubble, ex_mem_bubble, mem_wb_bubble}
use cpu_sim.Pipeline.Fetch
use cpu_sim.Pipeline.Fetch.{FetchStage}
use cpu_sim.Pipeline.Decode
use cpu_sim.Pipeline.Decode.{DecodeStage}
use cpu_sim.Pipeline.Forward
use cpu_sim.Pipeline.Forward.{ForwardUnit}
use cpu_sim.Pipeline.Execute
use cpu_sim.Pipeline.Execute.{ExecuteStage}
use cpu_sim.Pipeline.MemAccess
use cpu_sim.Pipeline.MemAccess.{MemAccessStage}
use cpu_sim.Pipeline.Writeback
use cpu_sim.Pipeline.Writeback.{WritebackStage}
use cpu_sim.Pipeline.Hazard
use cpu_sim.Pipeline.Hazard.{HazardUnit}

pub data HaltReason : Type 0 where
  running ebreak illegal : HaltReason

unfoldable pub is_ebreak : Op → Bool
is_ebreak Op.ebreak = true
is_ebreak _ = false

unfoldable pub is_illegal : Op → Bool
is_illegal Op.illegal = true
is_illegal _ = false

module _ (I D : IMemory) where
  pub record Core : Type 0 where
    pub base : ℕ
    pub imem : I.State
    pub dmem : D.State
    pub rf : RegFile
    pub bpred : Option BranchPredictor
    pub stats : SimStats
    pub if_id : Latch IfId
    pub id_ex : Latch IdEx
    pub ex_mem : Latch ExMem
    pub mem_wb : Latch MemWb
    pub fetch : FetchStage
    pub decode : DecodeStage
    pub fwd : ForwardUnit
    pub ex : ExecuteStage
    pub mem : MemAccessStage
    pub wb : WritebackStage
    pub hazard : HazardUnit
    pub tracer : Option (List (MemWb × ℕ))
    pub halted : Bool
    pub halt_reason : HaltReason
    pub halt_pc : ℕ
    pub halt_raw : ℕ

  -- The constructor, given the memories and the predictor.
  unfoldable pub create : ℕ → I.State → D.State → Option BranchPredictor → Core
  unfolding RegFile.empty Fetch.create
  create base imem dmem bpred = record {
    base = base;
    imem = imem;
    dmem = dmem;
    rf = RegFile.empty;
    bpred = bpred;
    stats = no_stats;
    if_id = record { reg = if_id_bubble; shadow = if_id_bubble };
    id_ex = record { reg = id_ex_bubble; shadow = id_ex_bubble };
    ex_mem = record { reg = ex_mem_bubble; shadow = ex_mem_bubble };
    mem_wb = record { reg = mem_wb_bubble; shadow = mem_wb_bubble };
    fetch = Fetch.create base;
    decode = Decode.create;
    fwd = Forward.create;
    ex = Execute.create;
    mem = MemAccess.create;
    wb = Writeback.create;
    hazard = Hazard.create;
    tracer = none;
    halted = false;
    halt_reason = HaltReason.running;
    halt_pc = 0;
    halt_raw = 0;
  }

  -- The seven `evaluate` calls of `tick`, in the order of the source. MEM runs before WB and hazard
  -- detection, and FETCH first of all; each can leave the program undefined by an address that its
  -- memory does not hold.
  unfoldable pub evaluate : Core → Option Core
  unfolding Fetch.evaluate Decode.evaluate Forward.evaluate Execute.evaluate
  evaluate c = do
    f ← Fetch.evaluate I c.bpred c.imem c.if_id c.fetch
    let id_ex = Decode.evaluate c.rf f.out c.id_ex
    let fwd = Forward.evaluate c.mem_wb c.fwd
    let (ex_mem, ex) = Execute.evaluate c.bpred fwd id_ex c.ex_mem c.mem_wb c.ex
    m ← MemAccess.evaluate D c.dmem ex_mem c.mem_wb
    some (record c {
      imem = f.imem;
      if_id = f.out;
      fetch = f.stage;
      id_ex = id_ex;
      fwd = fwd;
      ex_mem = ex_mem;
      ex = ex;
      dmem = m.dmem;
      mem_wb = m.out;
      mem = m.stage;
      wb = Writeback.evaluate m.out;
      hazard = Hazard.evaluate f.out id_ex;
    })

  -- What `tick` does with the instruction at the WB input: trace it, halt on it, count it.
  unfoldable pub record_trace : Core → Core
  record_trace c = record c {
    tracer = Option.map (λ t. (c.mem_wb.reg, c.stats.cycles) ∷ t) c.tracer;
  }

  unfoldable pub detect_halt : Core → Core
  unfolding is_ebreak is_illegal
  detect_halt c =
      let wb_in = c.mem_wb.reg in
      if wb_in.valid && (is_ebreak wb_in.op || is_illegal wb_in.op)
      then record c {
        halted = true;
        halt_reason = if is_ebreak wb_in.op then HaltReason.ebreak else HaltReason.illegal;
        halt_pc = wb_in.pc;
        halt_raw = wb_in.raw;
      }
      else c

  unfoldable pub count_instruction : Core → Core
  count_instruction c =
      if c.mem_wb.reg.valid
      then record c { stats = record (c.stats) { instructions = increment c.stats.instructions } }
      else c

  unfoldable pub count_cycle : Core → Core
  count_cycle c = record c { stats = record (c.stats) { cycles = increment c.stats.cycles } }

  -- `capture_ex_operands`.
  unfoldable pub captured : ForwardUnit → ExMem → MemWb → IdEx → IdEx
  captured fwd ex_mem mem_wb held = record held {
    rs1_val = Forward.resolve fwd ex_mem mem_wb held.rs1 held.rs1_val;
    rs2_val = Forward.resolve fwd ex_mem mem_wb held.rs2 held.rs2_val;
  }

  unfoldable pub capture_ex_operands : Core → Core
  unfolding captured
  capture_ex_operands c =
      if c.id_ex.reg.valid
      then record c {
        id_ex = latch (write (captured c.fwd c.ex_mem.reg c.mem_wb.reg c.id_ex.reg) c.id_ex);
      }
      else c

  -- WB, FORWARD and MEM latch on a memory stall; EX, HAZARD, DECODE and FETCH hold.
  unfoldable pub latch_stalled : Core → Core
  latch_stalled c =
      let (wb, rf) = Writeback.latch_stage c.wb c.rf in
      let (dmem, mem_wb) = MemAccess.latch_stage D c.dmem c.mem_wb in
      record c { wb = wb; rf = rf; fwd = Forward.latch_stage c.fwd; dmem = dmem; mem_wb = mem_wb }

  -- All seven `latch` calls, in the order of the source.
  unfoldable pub latch_all : Core → Core
  latch_all c =
      let (wb, rf) = Writeback.latch_stage c.wb c.rf in
      let fwd = Forward.latch_stage c.fwd in
      let r = Execute.latch_stage c.ex c.ex_mem c.fetch c.decode c.bpred c.stats in
      let (dmem, mem_wb) = MemAccess.latch_stage D c.dmem c.mem_wb in
      let (hazard, fetch, decode) = Hazard.latch_stage c.hazard r.fetch r.decode in
      let (decode', id_ex) = Decode.latch_stage decode c.id_ex in
      let f = Fetch.latch_stage I c.imem c.if_id fetch in
      record c {
        wb = wb;
        rf = rf;
        fwd = fwd;
        ex = r.stage;
        ex_mem = r.out;
        bpred = r.bpred;
        stats = r.stats;
        dmem = dmem;
        mem_wb = mem_wb;
        hazard = hazard;
        decode = decode';
        id_ex = id_ex;
        imem = f.imem;
        if_id = f.out;
        fetch = f.stage;
      }

  -- What `tick` does once all stages are evaluated.
  unfoldable pub commit : Core → Core
  unfolding record_trace detect_halt count_instruction capture_ex_operands latch_stalled latch_all
      count_cycle
  commit c =
      let seen = count_instruction (detect_halt (record_trace c)) in
      count_cycle
        (if c.mem.stalling then latch_stalled (capture_ex_operands seen) else latch_all seen)

  -- The result says whether the machine still runs.
  unfoldable pub tick : Core → Option (Bool × Core)
  unfolding evaluate commit
  tick c =
      if c.halted
      then some (false, c)
      else Option.map (λ e. let c' = commit e in (not c'.halted, c')) (evaluate c)

  -- `while (!halted_ && stats_.cycles < max_cycles) tick();`
  unfoldable pub run_loop : ℕ → ℕ → Core → Option Core
  run_loop zero max_cycles c = some c
  run_loop (suc fuel) max_cycles c =
      if not c.halted && ltb c.stats.cycles max_cycles
      then (tick c >>= λ r. run_loop fuel max_cycles r.1)
      else some c

  -- A cycle brings the counter one nearer to `max_cycles`, a `uint64_t`.
  unfoldable pub run : ℕ → Core → Option Core
  unfolding run_loop
  run max_cycles c = run_loop (max_cycles - c.stats.cycles) max_cycles c

  -- `load_program`: words into the instruction memory from `base` on.
  unfoldable pub load_words : List ℕ → ℕ → I.State → Option I.State
  load_words [] addr imem = some imem
  load_words (w ∷ words) addr imem = I.store_word imem addr w >>= load_words words (add32 addr 4)

  unfoldable pub load_program : List ℕ → Core → Option Core
  unfolding load_words
  load_program words c =
      Option.map (λ imem. record c { imem = imem }) (load_words words c.base c.imem)

  unfoldable pub set_tracer : Option (List (MemWb × ℕ)) → Core → Core
  set_tracer t c = record c { tracer = t }

  unfoldable pub pc : Core → ℕ
  pc c = c.fetch.pc

  unfoldable pub write_reg : ℕ → ℕ → Core → Core
  write_reg reg val c = record c { rf = RegFile.write c.rf reg val }

  unfoldable pub read_reg : ℕ → Core → ℕ
  read_reg reg c = RegFile.read c.rf reg

  unfoldable pub load_word : ℕ → Core → Option ℕ
  load_word addr c = D.load_word c.dmem addr

  unfoldable pub store_word : ℕ → ℕ → Core → Option Core
  store_word addr val c =
      Option.map (λ dmem. record c { dmem = dmem }) (D.store_word c.dmem addr val)
