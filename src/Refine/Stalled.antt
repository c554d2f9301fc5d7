-- ===== src/Refine/Stalled.antt =====
-- A cycle in which MEM waits leaves the core standing for the same state.
use cpu_sim.Base.{ℕ, ◌<◌, ◌≡◌, ap, ◌∙◌, arith, false, Option, length-set, get_or-set}
use cpu_sim.Memory.Interface.{IMemory}
use cpu_sim.Memory.Transparency.{IsTimingOnly}
use cpu_sim.RegFile.{RegFile, num_regs, read, write}
use cpu_sim.Predictor.{BranchPredictor}
use cpu_sim.Pipeline.Regs.{IdEx}
use cpu_sim.Pipeline.Execute.{actual_taken}
use cpu_sim.Arch.{Arch}
use cpu_sim.Refine.Latched.{Latched, operand, committed, stalled}
use cpu_sim.Refine.Claims.{IsShaped, InEx, Represents, ends}

pub write-IsShaped :
    {rf : RegFile} (rd v : ℕ) → IsShaped rf → rd < num_regs → IsShaped (write rf rd v)
unfolding write read
write-IsShaped {rf} rd v h b = record {
  size = ground (arith, h.size, length-set rf.regs rd v);
  zero_reg = ground (arith, h.zero_reg, get_or-set rf.regs rd 0 v 0, h.size);
}

module _ {I D : IMemory} where
  pub committed-IsShaped :
      (l : Latched I D) → IsShaped l.rf → l.wb.rd < num_regs → IsShaped (committed I D l)
  unfolding committed
  committed-IsShaped l h b = ground (arith, write-IsShaped l.wb.rd l.wb.wb_val h b, h)

  -- An operand captured while MEM waits is resolved to the same value in the next cycle.
  operand-stalled :
      (l : Latched I D) (imem : I.State) (dmem : D.State) (reg cur : ℕ)
      → operand I D (stalled I D l imem dmem) reg (operand I D l reg cur) ≡ operand I D l reg cur
  unfolding operand stalled
  operand-stalled l imem dmem reg cur = ground arith

module _ {I D S : IMemory} {view : D.State → S.State} {Holds : I.State → Type 0}
    {code : ℕ → Option ℕ} {Guides : Option BranchPredictor → Type 0}
    (timing : IsTimingOnly D view) where
  stalled-InEx :
      (l : Latched I D) (s : Arch S) (imem : I.State) (dmem : D.State)
      → InEx I D S view Holds code Guides l s
      → InEx I D S view Holds code Guides (stalled I D l imem dmem) s
  unfolding stalled actual_taken
  stalled-InEx l s imem dmem h = record {
    ex_code = h.ex_code;
    ex_eq = λ v.
        ap {A = IdEx}
          (λ e. record e {
            rs1_val = (stalled I D l imem dmem).ex.rs1_val;
            rs2_val = (stalled I D l imem dmem).ex.rs2_val;
          })
          (h.ex_eq v);
    first_eq = λ v. rw v (operand-stalled l imem dmem l.ex.rs1 l.ex.rs1_val ∙ h.first_eq v);
    second_eq = λ v. rw v (operand-stalled l imem dmem l.ex.rs2 l.ex.rs2_val ∙ h.second_eq v);
    ex_jalr = h.ex_jalr;
    in_front = h.in_front;
  }

  pub stalled-Represents :
      (l : Latched I D) (s : Arch S) (imem : I.State) (dmem : D.State)
      → Represents I D S view Holds code Guides l s
      → ends l.wb ≡ false
      → Holds imem
      → view dmem ≡ view l.dmem
      → Represents I D S view Holds code Guides (stalled I D l imem dmem) s
  unfolding stalled
  stalled-Represents l s imem dmem h e i d =
      let f = h.flows e in
      record {
        holds = i;
        shape = committed-IsShaped l h.shape h.wb_index;
        registers = unfold committed in h.registers;
        wb_index = omega arith;
        ended = λ p. cc;
        flows = λ p. record {
          memory = timing.tick_keeps dmem ∙ d ∙ f.memory;
          guided = f.guided;
          silent = λ v w. cc;
          in_mem = f.in_mem;
          in_ex = λ t g. stalled-InEx l t imem dmem (f.in_ex t g);
        };
      }
