-- ===== src/Refine/Rank.antt =====
-- How many cycles are left at most until the oldest instruction in the pipeline is behind MEM.
use cpu_sim.Base.{ℕ, ◌+◌, ◌<◌, ◌≤◌, ◌≡◌, ◌⊎◌, arith, true, false, ◌||◌, if◌then◌else◌}
use cpu_sim.Memory.Interface.{IMemory}
use cpu_sim.Pipeline.Regs.{IfId, MemWb, mem_wb_bubble}
use cpu_sim.Pipeline.Execute.{executed}
use cpu_sim.Pipeline.Decode.{decoded}
use cpu_sim.Pipeline.Hazard
use cpu_sim.Refine.Latched.{Latched, stalled, advanced, redirects, waits, first, second}
use cpu_sim.Refine.Claims.{ends}

module _ {I D : IMemory} (left_i : I.State → ℕ) (left_d : D.State → ℕ) (bound_d : ℕ) where
  -- By the stage that the oldest instruction is in; at the end of the program there is none left.
  unfoldable pub rank : Latched I D → ℕ
  rank l =
      if ends l.wb
      then 0
      else if l.mem.valid
      then 1 + left_d l.dmem
      else if l.ex.valid
      then 2 + bound_d
      else if l.front.valid
      then 3 + bound_d
      else 4 + bound_d + left_i l.imem

  pub rank-le :
      (l : Latched I D) (bound_i : ℕ)
      → left_i l.imem ≤ bound_i
      → left_d l.dmem ≤ bound_d
      → rank l ≤ 4 + bound_d + bound_i
  unfolding rank
  rank-le l bound_i h k = ground (arith, h, k)

  -- MEM waits.
  pub stalled-rank :
      (l : Latched I D) (imem : I.State) (dmem : D.State)
      → ends l.wb ≡ false
      → l.mem.valid ≡ true
      → left_d (D.tick dmem) < left_d l.dmem
      → rank (stalled I D l imem dmem) < rank l
  unfolding rank stalled
  stalled-rank l imem dmem e v h = rw (e, v) (ground (arith, h))

  -- The instruction in MEM ends the program.
  pub ending-rank :
      (l : Latched I D) (imem : I.State) (dmem : D.State) (wb : MemWb) (f : IfId) (next : ℕ)
      → ends l.wb ≡ false
      → ends wb ≡ true
      → rank (advanced I D l imem dmem wb f next) < rank l
  unfolding rank advanced
  ending-rank l imem dmem wb f next e n = rw (e, n) (ground arith)

  -- MEM holds a bubble.
  executed-valid :
      (l : Latched I D) → (executed l.ex (first I D l) (second I D l)).valid ≡ l.ex.valid
  unfolding executed
  executed-valid l = ground arith

  no_redirects : (l : Latched I D) → l.ex.valid ≡ false → redirects I D l || waits I D l ≡ false
  unfolding redirects waits Hazard.evaluate
  no_redirects l e = ground (arith, e)

  pub bubble-rank :
      (l : Latched I D) (imem : I.State) (dmem : D.State) (f : IfId) (next : ℕ)
      → ends l.wb ≡ false
      → l.mem.valid ≡ false
      → left_d (D.tick dmem) ≤ bound_d
      → (f.valid ≡ true) ⊎ (left_i (I.tick imem) < left_i l.imem)
      → rank (advanced I D l imem dmem mem_wb_bubble f next) < rank l
  unfolding rank advanced decoded
  bubble-rank l imem dmem f next e n d o =
      ground (arith, executed-valid l, no_redirects l, d, o, e, n)
