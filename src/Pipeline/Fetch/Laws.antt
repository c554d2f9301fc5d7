-- ===== src/Pipeline/Fetch/Laws.antt =====
-- What a fetch leaves as it was until the latch.
use cpu_sim.Base.{false, ◌≡◌, inl, inr, Option, some, refl, if-either, >>=-eq-some}
use mathlib.Core.Option
use mathlib.Core.Path.{subst}
use cpu_sim.Memory.Interface.{IMemory}
use cpu_sim.Predictor.{BranchPredictor}
use cpu_sim.Pipeline.Latch.{Latch}
use cpu_sim.Pipeline.Regs.{IfId}
use cpu_sim.Pipeline.Fetch.{FetchStage, Fetched, evaluate}

module _ {M : IMemory} where
  pub record IsHeld (out : Latch IfId) (s : FetchStage) (f : Fetched M) : Type 0 where
    pub kept : f.out.reg ≡ out.reg
    pub same_pc : f.stage.pc ≡ s.pc
    pub same_stall : f.stage.stall ≡ s.stall
    pub same_redirect : f.stage.redirect ≡ s.redirect

  some-IsHeld :
      {out : Latch IfId} {s : FetchStage} (g : Fetched M) {f : Fetched M}
      → IsHeld out s g
      → some g ≡ some f
      → IsHeld out s f
  some-IsHeld {out} {s} g h e = subst (IsHeld out s) (Option.some-injective _ _ e) h

  pub evaluate-IsHeld :
      (bp : Option BranchPredictor) (imem : M.State) (out : Latch IfId) (s : FetchStage)
      {f : Fetched M}
      → evaluate M bp imem out s ≡ some f
      → IsHeld out s f
  unfolding evaluate
  evaluate-IsHeld bp imem out s h =
      let asked = M.ready imem s.pc false in
      elim (if-either asked.0 h) [
        | inl (_, e) ↦
            let (raw, _, last) = >>=-eq-some (M.load_word asked.1 s.pc) _ e in
            some-IsHeld _
              (record { kept = refl; same_pc = refl; same_stall = refl; same_redirect = refl }) last
        | inr (_, e) ↦
            some-IsHeld _
              (record { kept = refl; same_pc = refl; same_stall = refl; same_redirect = refl }) e
      ]
