-- ===== src/Refine/Latched.antt =====
-- The part of a core that is read at the start of a cycle, and what a cycle makes of it.
use cpu_sim.Base.{ℕ, Bool, false, ◌&&◌, ◌||◌, ◌≡◌, arith, Option, if◌then◌else◌, is_some}
use cpu_sim.Memory.Interface.{IMemory}
use cpu_sim.RegFile.{RegFile}
use cpu_sim.Predictor.{BranchPredictor}
use cpu_sim.Pipeline.Regs.{IfId, IdEx, ExMem, MemWb, if_id_bubble, id_ex_bubble, mem_wb_bubble}
use cpu_sim.Pipeline.Fetch
use cpu_sim.Pipeline.Fetch.{FetchStage}
use cpu_sim.Pipeline.Fetch.Laws
use cpu_sim.Pipeline.Decode
use cpu_sim.Pipeline.Forward
use cpu_sim.Pipeline.Execute
use cpu_sim.Pipeline.Execute.{executed, signals, train_predictor}
use cpu_sim.Pipeline.MemAccess
use cpu_sim.Pipeline.Writeback
use cpu_sim.Pipeline.Hazard
use cpu_sim.Sim.Core.{Core, latch_stalled, latch_all, count_cycle, captured}
use cpu_sim.Sim.Core.Phases.{evaluated}
use cpu_sim.Sim.Core.Commit.{observed, capture}

module _ (I D : IMemory) where
  pub record Latched : Type 0 where
    pub imem : I.State
    pub dmem : D.State
    pub rf : RegFile
    pub bpred : Option BranchPredictor
    pub wb : MemWb
    pub prev : MemWb
    pub mem : ExMem
    pub ex : IdEx
    pub front : IfId
    pub pc : ℕ

  abbrev pub latched : Core I D → Latched
  latched c = record {
    imem = c.imem;
    dmem = c.dmem;
    rf = c.rf;
    bpred = c.bpred;
    wb = c.mem_wb.reg;
    prev = c.fwd.prev_mem_wb;
    mem = c.ex_mem.reg;
    ex = c.id_ex.reg;
    front = c.if_id.reg;
    pc = c.fetch.pc;
  }

  -- No stage has been told anything before the cycle.
  pub record IsQuiet (c : Core I D) : Type 0 where
    pub no_redirect : c.fetch.redirect ≡ false
    pub no_stall : c.fetch.stall ≡ false
    pub no_flush : c.decode.flush ≡ false
    pub no_hold : c.decode.stall ≡ false

  -- An operand of the instruction in EX.
  unfoldable pub operand : Latched → ℕ → ℕ → ℕ
  unfolding Forward.resolve
  operand l reg cur =
      Forward.resolve (record { prev_mem_wb = l.prev; prev_mem_wb_next = l.prev }) l.mem l.wb reg
        cur

  abbrev pub first : Latched → ℕ
  first l = operand l l.ex.rs1 l.ex.rs1_val

  abbrev pub second : Latched → ℕ
  second l = operand l l.ex.rs2 l.ex.rs2_val

  -- The register file with the result in WB written.
  unfoldable pub committed : Latched → RegFile
  unfolding Writeback.evaluate Writeback.latch_stage
  committed l =
      (Writeback.latch_stage (Writeback.evaluate (record { reg = l.wb; shadow = l.wb })) l.rf).1

  -- The stages behind WB, after a cycle in which MEM waits.
  unfoldable pub stalled : Latched → I.State → D.State → Latched
  unfolding operand committed
  stalled l imem dmem = record l {
    imem = imem;
    dmem = D.tick dmem;
    rf = committed l;
    wb = mem_wb_bubble;
    prev = l.wb;
    ex = record (l.ex) {
      rs1_val = if l.ex.valid then first l else l.ex.rs1_val;
      rs2_val = if l.ex.valid then second l else l.ex.rs2_val;
    };
  }

  pub latched-stalled :
      (c : Core I D) (f : Fetch.Fetched I) (m : MemAccess.Accessed D)
      → f.out.reg ≡ c.if_id.reg
      → f.stage.pc ≡ c.fetch.pc
      → m.out.reg ≡ c.mem_wb.reg
      → m.out.shadow ≡ mem_wb_bubble
      → latched (count_cycle I D (latch_stalled I D (capture (observed (evaluated I D c f m)))))
        ≡ stalled (latched c) f.imem m.dmem
  unfolding stalled operand committed count_cycle latch_stalled capture observed captured
      MemAccess.latch_stage Decode.evaluate Forward.evaluate Execute.evaluate Forward.latch_stage
      Writeback.evaluate Writeback.latch_stage Forward.resolve
  latched-stalled c f m a b d e = ground (arith, a, b, d, e)

  -- Whether EX finds that fetch went the wrong way, and where it should have gone.
  unfoldable pub redirects : Latched → Bool
  unfolding operand Execute.actual_taken
  redirects l =
      l.ex.valid
      && Execute.differs (Execute.actual_taken l.ex (first l) (second l)) l.ex.predicted_taken

  -- Whether the instruction in DECODE waits for the load in EX.
  unfoldable pub waits : Latched → Bool
  unfolding Hazard.evaluate
  waits l =
      (Hazard.evaluate (record { reg = l.front; shadow = l.front })
        (record { reg = l.ex; shadow = l.ex })).stall

  unfoldable pub trained : Latched → Option BranchPredictor
  unfolding signals operand train_predictor
  trained l =
      train_predictor (signals (is_some l.bpred) l.ex (first l) (second l) Execute.create) l.bpred

  -- Every stage, after a cycle in which MEM does not wait. `fetched` and `next` are what FETCH puts
  -- into its shadow and where it goes on.
  unfoldable pub advanced : Latched → I.State → D.State → MemWb → IfId → ℕ → Latched
  unfolding operand committed redirects waits trained executed Decode.decoded Execute.next_pc
  advanced l imem dmem wb fetched next = record {
    imem = I.tick imem;
    dmem = D.tick dmem;
    rf = committed l;
    bpred = trained l;
    wb = wb;
    prev = l.wb;
    mem = executed l.ex (first l) (second l);
    ex = if redirects l || waits l then id_ex_bubble else Decode.decoded l.rf l.front;
    front = if redirects l then if_id_bubble else if waits l then l.front else fetched;
    pc =
        if redirects l
        then Execute.next_pc l.ex (first l) (second l)
        else if waits l
        then l.pc
        else next;
  }

  abbrev pub next_fetch : FetchStage → ℕ
  next_fetch f = if f.fetch_stall then f.pc else f.next_pc

  pub latched-advanced :
      (c : Core I D) (f : Fetch.Fetched I) (m : MemAccess.Accessed D)
      → IsQuiet c
      → Laws.IsHeld c.if_id c.fetch f
      → m.out.reg ≡ c.mem_wb.reg
      → latched (count_cycle I D (latch_all I D (observed (evaluated I D c f m))))
        ≡ advanced (latched c) f.imem m.dmem m.out.shadow f.out.shadow (next_fetch f.stage)
  unfolding advanced operand committed redirects waits trained signals train_predictor count_cycle
      latch_all observed MemAccess.latch_stage Decode.evaluate Forward.evaluate Execute.evaluate
      Forward.latch_stage Writeback.evaluate Writeback.latch_stage Forward.resolve
      Execute.latch_stage Hazard.evaluate Hazard.latch_stage Decode.latch_stage Fetch.latch_stage
      Fetch.set_stall Fetch.set_redirect Decode.set_flush
  latched-advanced c f m q h d = ground (arith, q, h, d)

  pub stalled-IsQuiet :
      (c : Core I D) (f : Fetch.Fetched I) (m : MemAccess.Accessed D)
      → IsQuiet c
      → Laws.IsHeld c.if_id c.fetch f
      → IsQuiet (count_cycle I D (latch_stalled I D (capture (observed (evaluated I D c f m)))))
  unfolding count_cycle latch_stalled capture observed
  stalled-IsQuiet c f m q h = ground (arith, q, h)

  pub advanced-IsQuiet :
      (c : Core I D) (f : Fetch.Fetched I) (m : MemAccess.Accessed D)
      → IsQuiet c
      → Laws.IsHeld c.if_id c.fetch f
      → IsQuiet (count_cycle I D (latch_all I D (observed (evaluated I D c f m))))
  unfolding count_cycle latch_all observed Execute.latch_stage Hazard.latch_stage Decode.latch_stage
      Fetch.latch_stage Fetch.set_stall Fetch.set_redirect Decode.set_flush
  advanced-IsQuiet c f m q h = ground (arith, q, h)
