-- ===== src/Refine/Progress.antt =====
-- A cycle of a core on ports that answer within a bound makes a step of the machine, or brings the
-- next one nearer.
use cpu_sim.Base.{
  ℕ, ◌<◌, ◌≡◌, ◌⊎◌, inl, inr, sym, ap, arith, Bool, Bool-cases, true, false, Option, some,
}
use mathlib.Core.Path.{subst}
use cpu_sim.Memory.Interface.{IMemory}
use cpu_sim.Memory.Prompt.{IsPrompt}
use cpu_sim.Predictor.{BranchPredictor}
use cpu_sim.Pipeline.Regs.{ExMem, MemWb}
use cpu_sim.Pipeline.MemAccess.{access}
use cpu_sim.Sim.Core.{Core, tick}
use cpu_sim.Sim.Core.Phases.{Cycle, tick-Cycle}
use cpu_sim.Arch.{Arch, halts, step}
use cpu_sim.Arch.Refinement.{Implements}
use cpu_sim.Refine.Latched.{Latched, latched, stalled, advanced, next_fetch}
use cpu_sim.Refine.Claims.{IsCode, IsGuide, ends}
use cpu_sim.Refine.Step.{access-Kept}
use cpu_sim.Refine.Memory.{Accesses}
use cpu_sim.Refine.Tick.{Moves, cycle-Moves}
use cpu_sim.Refine.Rank.{rank, stalled-rank, ending-rank, bubble-rank}
use cpu_sim.Refine.Waiting.{access-Waits, fetch-Brings}
use cpu_sim.Refine.Standing.{Halts, Stands, ended-Halts, accesses, going-Stands}

access-ends :
    (S : IMemory) (ex : ExMem) (m : S.State) {wb : MemWb} {m' : S.State}
    → access S ex.op ex m ≡ some (wb, m')
    → halts ex.op ≡ true
    → ends wb ≡ true
access-ends S ex m a h = let k = access-Kept S ex.op ex m a in ground (arith, k.is_valid, k.same_op)

module _ (I D S : IMemory) (view : D.State → S.State) (Holds : I.State → Type 0)
    (code : ℕ → Option ℕ) (Guides : Option BranchPredictor → Type 0) (impl : Implements D S view)
    (port : IsCode I Holds code) (guide : IsGuide code Guides) {ValidI : I.State → Type 0}
    {left_i : I.State → ℕ} {bound_i : ℕ} (prompt_i : IsPrompt I ValidI left_i bound_i)
    {ValidD : D.State → Type 0} {left_d : D.State → ℕ} {bound_d : ℕ}
    (prompt_d : IsPrompt D ValidD left_d bound_d) where
  pub record IsTimed (c : Core I D) : Type 0 where
    pub imem : ValidI c.imem
    pub dmem : ValidD c.dmem

  abbrev pub rank_of : Core I D → ℕ
  rank_of c = rank left_i left_d bound_d (latched I D c)

  module _ (c c' : Core I D) (s : Arch S) (b : Bool) (h : Stands I D S view Holds code Guides c s)
      (t : Cycle I D c c' b) (timed : IsTimed c) where
    cycle-IsTimed : IsTimed c'
    unfolding stalled advanced
    cycle-IsTimed =
        let w = access-Waits prompt_d c.dmem c.ex_mem c.mem_wb timed.dmem t.mem_eq in
        let f = fetch-Brings prompt_i c.bpred c.imem c.if_id c.fetch timed.imem t.fetch_eq in
        let d = prompt_d.tick_Valid t.accessed.dmem w.valid in
        elim (cycle-Moves c c' b h.quiet t) [
          | Moves.stood _ k ↦ record {
            imem = subst ValidI (sym (ap {A = Latched I D} (λ l. l.imem) k)) f.valid;
            dmem = subst ValidD (sym (ap {A = Latched I D} (λ l. l.dmem) k)) d;
          }
          | Moves.went _ k ↦ record {
            imem =
                subst ValidI (sym (ap {A = Latched I D} (λ l. l.imem) k))
                  (prompt_i.tick_Valid t.fetched.imem f.valid);
            dmem = subst ValidD (sym (ap {A = Latched I D} (λ l. l.dmem) k)) d;
          }
        ]

    -- What MEM does in a cycle that makes a step.
    abbrev Makes : Type 0
    Makes =
        (t.accessed.stage.stalling ≡ false)
        × (c.ex_mem.reg.valid ≡ true)
        × (halts c.ex_mem.reg.op ≡ false)

    went-rank :
        ends c.mem_wb.reg ≡ false
        → t.accessed.stage.stalling ≡ false
        → latched I D c'
          ≡ advanced I D
              (latched I D c)
              t.fetched.imem
              t.accessed.dmem
              t.accessed.out.shadow
              t.fetched.out.shadow
              (next_fetch I D t.fetched.stage)
        → Accesses impl c.ex_mem.reg c.dmem t.accessed
        → (rank_of c' < rank_of c) ⊎ Makes
    went-rank e r k (Accesses.waited w _ _) = cc
    went-rank e r k (Accesses.had_none _ n x _) =
        let w = access-Waits prompt_d c.dmem c.ex_mem c.mem_wb timed.dmem t.mem_eq in
        let f = fetch-Brings prompt_i c.bpred c.imem c.if_id c.fetch timed.imem t.fetch_eq in
        let d = prompt_d.left_le _ (prompt_d.tick_Valid t.accessed.dmem w.valid) in
        inl (
          rw (k, x)
            (bubble-rank left_i left_d bound_d (latched I D c) t.fetched.imem t.accessed.dmem
              t.fetched.out.shadow (next_fetch I D t.fetched.stage) e n d f.word_or_shorter))
    went-rank e r k (Accesses.accessed _ v acc) = elim (Bool-cases (halts c.ex_mem.reg.op)) [
      | inl n ↦ inl (
          rw k (
            ending-rank left_i left_d bound_d (latched I D c) t.fetched.imem t.accessed.dmem
              t.accessed.out.shadow t.fetched.out.shadow (next_fetch I D t.fetched.stage) e
              (access-ends S c.ex_mem.reg (view c.dmem) acc n)))
      | inr n ↦ inr (r, v, n)
    ]

    cycle-rank : ends c.mem_wb.reg ≡ false → (rank_of c' < rank_of c) ⊎ Makes
    cycle-rank e =
        let w = access-Waits prompt_d c.dmem c.ex_mem c.mem_wb timed.dmem t.mem_eq in
        elim (cycle-Moves c c' b h.quiet t) [
          | Moves.stood r k ↦ inl (
              rw k (
                stalled-rank left_i left_d bound_d (latched I D c) t.fetched.imem t.accessed.dmem e
                  (w.has_one r) (w.shorter r)))
          | Moves.went r k ↦
              went-rank e r k (accesses I D S view Holds code Guides impl port guide c c' s b h t)
        ]

  -- A cycle halts the core, makes a step, or brings the next step nearer.
  pub tick-progress :
      (c : Core I D) (s : Arch S) {b : Bool} {c' : Core I D}
      → Stands I D S view Holds code Guides c s
      → IsTimed c
      → tick I D c ≡ some (b, c')
      → Halts I D S code c' s
        ⊎ ((u : Arch S) × Stands I D S view Holds code Guides c' u
            × IsTimed c'
            × ((step S code s ≡ some u) ⊎ ((u ≡ s) × (rank_of c' < rank_of c))))
  tick-progress c s {b} {c'} h timed e =
      let t = tick-Cycle I D c h.running e in
      elim (Bool-cases (ends c.mem_wb.reg)) [
        | inl x ↦ inl (ended-Halts I D S view Holds code Guides impl port guide c c' s b h t x)
        | inr x ↦
            let (u, g) = going-Stands I D S view Holds code Guides impl port guide c c' s b h t x in
            inr (
              u,
              g.stands,
              cycle-IsTimed c c' s b h t timed,
              elim (cycle-rank c c' s b h t timed x) [
                | inl less ↦ elim g.same_or_next [
                  | inl (same, _) ↦ inr (same, less)
                  | inr (st, _) ↦ inl st
                ]
                | inr (r, v, n) ↦ inl (g.steps_on r v n)
              ],
            )
      ]
