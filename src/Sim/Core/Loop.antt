-- ===== src/Sim/Core/Loop.antt =====
-- `Core::run`: a cycle counts itself, and the loop ends as its condition says.
use cpu_sim.Base.{ℕ, zero, suc, ◌-◌, ◌^◌, ◌<◌, ◌≤◌, ◌≡◌, ◌⊎◌, inl, inr, refl, sym, ap, ◌∙◌, arith}
use cpu_sim.Base.{
  Bool, true, false, not, ◌&&◌, ltb, if◌then◌else◌, some, ◌>>=◌, if-either, >>=-eq-some, Bool-cases,
}
use mathlib.Core.Option
use mathlib.Core.Path.{subst}
use cpu_sim.Memory.Interface.{IMemory}
use cpu_sim.Sim.Stats.{SimStats, increment}
use cpu_sim.Pipeline.Execute.{ExecuteStage, count_branch}
use cpu_sim.Pipeline.Execute
use cpu_sim.Sim.Core.{Core, commit, tick, run, run_loop, count_cycle, latch_stalled, latch_all}
use cpu_sim.Sim.Core.Phases.{evaluated, tick-Cycle}
use cpu_sim.Sim.Core.Commit.{commit-stalled, commit-advances, observed, capture}

count_branch-cycles : (x : ExecuteStage) (s : SimStats) → (count_branch x s).cycles ≡ s.cycles
unfolding count_branch
count_branch-cycles x s = ground arith

module _ {I D : IMemory} where
  commit-cycles : (c : Core I D) → (commit I D c).stats.cycles ≡ increment c.stats.cycles
  unfolding observed capture latch_stalled latch_all count_cycle Execute.latch_stage
  commit-cycles c = elim (Bool-cases c.mem.stalling) [
    | inl s ↦ ap (λ d. d.stats.cycles) (commit-stalled c s)
    | inr s ↦
        ap (λ d. d.stats.cycles) (commit-advances c s)
        ∙ ap increment (count_branch-cycles c.ex (observed c).stats)
  ]

  -- A cycle of a running core counts itself.
  pub tick-cycles :
      (c : Core I D) {r : Bool × Core I D}
      → c.halted ≡ false
      → tick I D c ≡ some r
      → r.1.stats.cycles ≡ increment c.stats.cycles
  tick-cycles c r h =
      let t = tick-Cycle I D c r h in
      ap (λ d. d.stats.cycles) t.core_eq ∙ commit-cycles (evaluated I D c t.fetched t.accessed)

  -- The test of the loop.
  unfoldable pub goes_on : ℕ → Core I D → Bool
  goes_on max_cycles c = not c.halted && ltb c.stats.cycles max_cycles

  goes_on-lt :
      (max_cycles : ℕ) (c : Core I D)
      → goes_on max_cycles c ≡ true
      → (c.halted ≡ false) × (c.stats.cycles < max_cycles)
  unfolding goes_on
  goes_on-lt max_cycles c h = ground arith

  used_up :
      (max_cycles : ℕ) (c : Core I D)
      → 0 ≡ max_cycles - c.stats.cycles
      → goes_on max_cycles c ≡ false
  unfolding goes_on
  used_up max_cycles c h = ground arith

  -- A cycle that the loop goes on with leaves one less to do.
  one_less :
      (max_cycles n : ℕ) (c : Core I D) {r : Bool × Core I D}
      → max_cycles < 2 ^ 64
      → suc n ≡ max_cycles - c.stats.cycles
      → goes_on max_cycles c ≡ true
      → tick I D c ≡ some r
      → n ≡ max_cycles - r.1.stats.cycles
  one_less max_cycles n c m h g t =
      let lt = goes_on-lt max_cycles c g in omega (arith, tick-cycles c lt.0 t, lt.1)

  run_loop-suc :
      (max_cycles n : ℕ) (c : Core I D)
      → run_loop I D (suc n) max_cycles c ≡ (
          if goes_on max_cycles c
          then (tick I D c >>= λ r. run_loop I D n max_cycles r.1)
          else some c)
  unfolding run_loop goes_on
  run_loop-suc max_cycles n c = refl

  run_loop-stops :
      (max_cycles n : ℕ) (c : Core I D) {c' : Core I D}
      → max_cycles < 2 ^ 64
      → n ≡ max_cycles - c.stats.cycles
      → run_loop I D n max_cycles c ≡ some c'
      → goes_on max_cycles c' ≡ false
  unfolding run_loop
  run_loop-stops max_cycles zero c m h e =
      subst (λ d. goes_on max_cycles d ≡ false) (Option.some-injective _ _ e)
        (used_up max_cycles c h)
  run_loop-stops max_cycles (suc n) c m h e =
      elim (if-either (goes_on max_cycles c) (sym (run_loop-suc max_cycles n c) ∙ e)) [
        | inl (g, e') ↦
            let (r, t, rest) = >>=-eq-some (tick I D c) _ e' in
            run_loop-stops max_cycles n r.1 m (one_less max_cycles n c m h g t) rest
        | inr (g, e') ↦ subst (λ d. goes_on max_cycles d ≡ false) (Option.some-injective _ _ e') g
      ]

  -- A run that meets no undefined address ends in a core that is halted or has used up its cycles.
  pub run-stops :
      (max_cycles : ℕ) (c : Core I D) {c' : Core I D}
      → max_cycles < 2 ^ 64
      → run I D max_cycles c ≡ some c'
      → (c'.halted ≡ true) ⊎ (max_cycles ≤ c'.stats.cycles)
  unfolding goes_on run
  run-stops max_cycles c m e =
      ground (arith, run_loop-stops max_cycles (max_cycles - c.stats.cycles) c m refl e)
