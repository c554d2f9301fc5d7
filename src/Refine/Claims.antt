-- ===== src/Refine/Claims.antt =====
-- What the slots of the pipeline hold, when the state before the instruction in MEM is given.
use cpu_sim.Base.{
  ℕ, ◌<◌, ◌≡◌, ◌⊎◌, Bool, true, false, not, Option, some, if◌then◌else◌, ◌&&◌, ◌||◌, add32, length,
}
use cpu_sim.Isa.Op.{Op}
use cpu_sim.Isa.Decoder.{decode}
use cpu_sim.Memory.Interface.{IMemory}
use cpu_sim.RegFile.{RegFile, num_regs, read}
use cpu_sim.Predictor.{BranchPredictor, update}
use cpu_sim.Pipeline.Regs.{IfId, IdEx, ExMem, MemWb}
use cpu_sim.Pipeline.Fetch.{guess}
use cpu_sim.Pipeline.Execute.{executed, actual_taken, is_cond_branch, is_jal, is_jalr}
use cpu_sim.Pipeline.Writeback.{has_writeback}
use cpu_sim.Arch.{Arch, halts, step}
use cpu_sim.Refine.Latched.{Latched, operand, committed}

-- The port that fetch reads holds the code, as long as `Holds`.
pub record IsCode (I : IMemory) (Holds : I.State → Type 0) (code : ℕ → Option ℕ) : Type 0 where
  pub same_code : (m : I.State) (a : ℕ) → Holds m → I.load_word m a ≡ code a
  pub ready_Holds : (m : I.State) (a : ℕ) (w : Bool) → Holds m → Holds (I.ready m a w).1
  pub tick_Holds : (m : I.State) → Holds m → Holds (I.tick m)

-- What the pipeline relies on of the predictor: it sends a branch or a JAL nowhere but to its target.
pub record IsGuide (code : ℕ → Option ℕ) (Guides : Option BranchPredictor → Type 0) : Type 0 where
  pub guess_Guides :
      (bp : Option BranchPredictor) (pc raw : ℕ)
      → Guides bp
      → code pc ≡ some raw
      → (guess bp pc).taken ≡ true
      → ((guess bp pc).target ≡ add32 pc (decode raw pc).imm) × (is_jalr (decode raw pc).op ≡ false)
  pub update_Guides :
      (p : BranchPredictor) (pc raw : ℕ) (taken : Bool)
      → Guides (some p)
      → code pc ≡ some raw
      → is_cond_branch (decode raw pc).op || is_jal (decode raw pc).op ≡ true
      → Guides (
          some
            (update p pc (is_cond_branch (decode raw pc).op) taken (add32 pc (decode raw pc).imm)))

pub record IsShaped (rf : RegFile) : Type 0 where
  pub size : length rf.regs ≡ num_regs
  pub zero_reg : read rf 0 ≡ 0

-- A word in EX, but for the values it was decoded with.
unfoldable pub plain : ℕ → ℕ → IdEx
plain raw pc =
    let i = decode raw pc in
    record {
      pc = pc;
      raw = raw;
      op = i.op;
      rd = i.rd;
      rs1 = i.rs1;
      rs2 = i.rs2;
      imm = i.imm;
      rs1_val = 0;
      rs2_val = 0;
      valid = true;
      predicted_taken = false;
    }

-- Whether the instruction in WB ends the program.
abbrev pub ends : MemWb → Bool
ends wb = wb.valid && halts wb.op

-- Whether the instruction in WB is one that the program goes on after.
abbrev pub carries_on : MemWb → Bool
carries_on wb = wb.valid && not (halts wb.op)

-- Where fetch goes after a word that it predicts as `taken`.
abbrev pub ahead : ℕ → ℕ → Bool → ℕ
ahead raw pc taken = if taken then add32 pc (decode raw pc).imm else add32 pc 4

module _ (I D S : IMemory) (view : D.State → S.State) (Holds : I.State → Type 0)
    (code : ℕ → Option ℕ) (Guides : Option BranchPredictor → Type 0) where
  -- The state after an instruction that may be a bubble.
  abbrev pub Follows : Bool → Op → Arch S → Arch S → Type 0
  Follows valid op s t =
      ((valid ≡ false) × (t ≡ s)) ⊎ ((valid ≡ true) × (halts op ≡ false) × (step S code s ≡ some t))

  pub record InFront (i : IfId) (pc : ℕ) (s : Arch S) : Type 0 where
    pub idle_pc : i.valid ≡ false → pc ≡ s.pc
    pub front_code : i.valid ≡ true → code s.pc ≡ some i.raw
    pub front_pc : i.valid ≡ true → i.pc ≡ s.pc
    pub ahead_pc : i.valid ≡ true → pc ≡ ahead i.raw i.pc i.predicted_taken
    pub front_jalr :
        i.valid ≡ true → i.predicted_taken ≡ true → is_jalr (decode i.raw i.pc).op ≡ false

  pub record InEx (l : Latched I D) (s : Arch S) : Type 0 where
    pub ex_code : l.ex.valid ≡ true → code s.pc ≡ some l.ex.raw
    pub ex_eq :
        l.ex.valid ≡ true
        → l.ex ≡ record (plain l.ex.raw s.pc) {
          rs1_val = l.ex.rs1_val;
          rs2_val = l.ex.rs2_val;
          predicted_taken = l.ex.predicted_taken;
        }
    pub first_eq : l.ex.valid ≡ true → operand I D l l.ex.rs1 l.ex.rs1_val ≡ read s.rf l.ex.rs1
    pub second_eq : l.ex.valid ≡ true → operand I D l l.ex.rs2 l.ex.rs2_val ≡ read s.rf l.ex.rs2
    pub ex_jalr : l.ex.valid ≡ true → l.ex.predicted_taken ≡ true → is_jalr l.ex.op ≡ false
    pub in_front :
        (t : Arch S)
        → Follows l.ex.valid l.ex.op s t
        → (l.ex.valid ≡ true
            → actual_taken l.ex (read s.rf l.ex.rs1) (read s.rf l.ex.rs2) ≡ l.ex.predicted_taken)
        → InFront l.front l.pc t

  pub record InMem (ex : ExMem) (s : Arch S) : Type 0 where
    pub mem_code : ex.valid ≡ true → code s.pc ≡ some ex.raw
    pub mem_eq :
        ex.valid ≡ true
        → ex
          ≡ executed
              (plain ex.raw s.pc)
              (read s.rf (decode ex.raw s.pc).rs1)
              (read s.rf (decode ex.raw s.pc).rs2)

  -- The rest of the pipeline, unless the program ends in WB.
  pub record Flows (l : Latched I D) (s : Arch S) : Type 0 where
    pub memory : view l.dmem ≡ s.mem
    pub guided : Guides l.bpred
    pub silent : l.wb.valid ≡ true → has_writeback l.wb.op ≡ false → l.wb.rd ≡ 0
    pub in_mem : InMem l.mem s
    pub in_ex : (t : Arch S) → Follows l.mem.valid l.mem.op s t → InEx l t

  pub record Represents (l : Latched I D) (s : Arch S) : Type 0 where
    pub holds : Holds l.imem
    pub shape : IsShaped l.rf
    pub registers : committed I D l ≡ s.rf
    pub wb_index : l.wb.rd < num_regs
    pub ended :
        ends l.wb ≡ true
        → (code s.pc ≡ some l.wb.raw) × (l.wb.pc ≡ s.pc) × (l.wb.op ≡ (decode l.wb.raw s.pc).op)
    pub flows : ends l.wb ≡ false → Flows l s
