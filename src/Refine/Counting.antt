-- ===== src/Refine/Counting.antt =====
-- `++stats_.instructions` of src/sim/core.cpp: what a cycle counts. The instruction in WB is counted in
-- the cycle that sees it there.
use cpu_sim.Base.{
  ℕ, suc, ◌%◌, ◌^◌, ◌≡◌, ap, ◌∙◌, arith, inl, inr, Bool, Bool-cases, true, false, if◌then◌else◌,
}
use cpu_sim.Memory.Interface.{IMemory}
use cpu_sim.Sim.Stats.{SimStats, increment}
use cpu_sim.Pipeline.Regs.{MemWb}
use cpu_sim.Pipeline.Execute.{ExecuteStage, count_branch}
use cpu_sim.Pipeline.Execute
use cpu_sim.Pipeline.MemAccess.Laws
use cpu_sim.Sim.Core.{Core, commit, count_cycle, latch_stalled, latch_all}
use cpu_sim.Sim.Core.Phases.{Cycle, evaluated}
use cpu_sim.Sim.Core.Commit.{commit-stalled, commit-advances, observed, capture}
use cpu_sim.Refine.Claims.{carries_on, ends}

-- A counter with the instruction in WB.
abbrev with_wb : MemWb → ℕ → ℕ
with_wb wb n = if wb.valid then increment n else n

count_branch-instructions :
    (x : ExecuteStage) (s : SimStats) → (count_branch x s).instructions ≡ s.instructions
unfolding count_branch
count_branch-instructions x s = ground arith

module _ {I D : IMemory} where
  commit-instructions :
      (c : Core I D) → (commit I D c).stats.instructions ≡ with_wb c.mem_wb.reg c.stats.instructions
  unfolding observed capture latch_stalled latch_all count_cycle Execute.latch_stage
  commit-instructions c = elim (Bool-cases c.mem.stalling) [
    | inl s ↦ ap (λ d. d.stats.instructions) (commit-stalled c s)
    | inr s ↦
        ap (λ d. d.stats.instructions) (commit-advances c s)
        ∙ count_branch-instructions c.ex (observed c).stats
  ]

  -- The count once the instruction in WB is done, unless the program ends there: that of the steps
  -- of the machine that the core has made.
  unfoldable pub counted : Core I D → ℕ
  counted c =
      if carries_on c.mem_wb.reg then increment c.stats.instructions else c.stats.instructions

  module _ (n : ℕ) (c c' : Core I D) (b : Bool) (t : Cycle I D c c' b) where
    cycle-instructions : c'.stats.instructions ≡ with_wb c.mem_wb.reg c.stats.instructions
    cycle-instructions =
        ap (λ d. d.stats.instructions) t.core_eq
        ∙ commit-instructions (evaluated I D c t.fetched t.accessed)
        ∙ ap (λ w. with_wb w c.stats.instructions)
            (Laws.evaluate-IsHeld c.dmem c.ex_mem c.mem_wb t.mem_eq).kept

    pub ended-instructions :
        ends c.mem_wb.reg ≡ true → counted c ≡ n % 2 ^ 64 → c'.stats.instructions ≡ suc n % 2 ^ 64
    unfolding counted
    ended-instructions e m = ground (arith, cycle-instructions)

    pub passed-counted :
        ends c.mem_wb.reg ≡ false
        → counted c ≡ n % 2 ^ 64
        → carries_on c'.mem_wb.reg ≡ false
        → counted c' ≡ n % 2 ^ 64
    unfolding counted
    passed-counted e m w = ground (arith, cycle-instructions)

    pub retired-counted :
        ends c.mem_wb.reg ≡ false
        → counted c ≡ n % 2 ^ 64
        → carries_on c'.mem_wb.reg ≡ true
        → counted c' ≡ suc n % 2 ^ 64
    unfolding counted
    retired-counted e m w = ground (arith, cycle-instructions)
