-- ===== src/Refine/Total.antt =====
-- A run is defined and halts where the machine ends the program, when the code reaches far enough
-- beyond what the machine executes.
use cpu_sim.Base.{
  ℕ, zero, suc, ◌+◌, ◌-◌, ◌*◌, ◌%◌, ◌^◌, ◌<◌, ◌≤◌, ◌≡◌, refl, sym, arith, inl, inr, Bool,
  Bool-cases, true, not, ltb, Option, none, some, ◌&&◌, IsDefined, if-IsDefined, >>=-IsDefined,
}
use mathlib.Core.Path.{subst}
use cpu_sim.Memory.Interface.{IMemory}
use cpu_sim.Memory.Prompt.{IsPrompt}
use cpu_sim.Predictor.{BranchPredictor}
use cpu_sim.Sim.Core.{Core, create, tick, run, run_loop}
use cpu_sim.Sim.Core.Phases.{tick-Cycle}
use cpu_sim.Arch.{Arch, step, steps}
use cpu_sim.Arch.Refinement.{Implements}
use cpu_sim.Refine.Latched.{latched}
use cpu_sim.Refine.Claims.{IsCode, IsGuide, ends}
use cpu_sim.Refine.Linear.{IsLinear}
use cpu_sim.Refine.Nearby.{IsCovered, IsCalm, Continues}
use cpu_sim.Refine.Defined.{StandsPlain, tick-IsDefined, Cycle-IsLinear}
use cpu_sim.Refine.Standing.{Halts, step-first, ended-Halts, going-Stands}
use cpu_sim.Refine.Halting.{AtEnd, steps-first, steps-zero, stepped, run-Halts}
use cpu_sim.Refine.Run.{start, create-Stands, run_loop-halted}

module _ (I D S : IMemory) (view : D.State → S.State) (Holds : I.State → Type 0)
    (code : ℕ → Option ℕ) (impl : Implements D S view) (port : IsCode I Holds code)
    (guide : IsGuide code (λ bp. bp ≡ none)) where
  -- The code reaches beyond each of the next `k` instructions.
  abbrev pub Reachable : ℕ → Arch S → Type 0
  Reachable k s = (j : ℕ) (u : Arch S) → j ≤ k → steps S code j s ≡ some u → IsCovered code u.pc

  -- The program from a state on.
  record Leads (k : ℕ) (s t : Arch S) : Type 0 where
    pub path : steps S code k s ≡ some t
    pub end : AtEnd S code t
    pub calm : IsCalm code t.pc
    pub covered : Reachable k s

  Reachable-step :
      (k : ℕ) (s u : Arch S) → step S code s ≡ some u → Reachable (suc k) s → Reachable k u
  Reachable-step k s u st h j v le e = h (suc j) v (omega arith) (step-first S code j s u st e)

  here-IsCovered : (k : ℕ) (s t : Arch S) → Leads k s t → IsCovered code s.pc
  unfolding steps
  here-IsCovered k s t h = h.covered 0 s (omega arith) refl

  Leads-Continues :
      (k : ℕ) (s t : Arch S) → Leads k s t → Continues I D S view Holds code (λ bp. bp ≡ none) s
  unfolding steps
  Leads-Continues zero s t h =
      let same = sym (steps-zero S code s h.path) in
      let e = subst (AtEnd S code) same h.end in
      Continues.at_end e.word e.word_eq e.last
        (subst (λ (x : Arch S). IsCalm code x.pc) same h.calm)
  Leads-Continues (suc k) s t h =
      let (u, st, rest) = steps-first S code k s h.path in
      Continues.goes_on u st (h.covered 1 u (omega arith) st)

  Leads-step :
      (k : ℕ) (s u t : Arch S) → Leads k s t → step S code s ≡ some u → (j : ℕ) × Leads j u t
  Leads-step k s u t h st =
      let (j, k_eq, rest) = stepped S code k s h.end h.path st in
      (
        j,
        record {
          path = rest;
          end = h.end;
          calm = h.calm;
          covered = Reachable-step j s u st (subst (λ n. Reachable n s) k_eq h.covered);
        },
      )

  abbrev Plain : Core I D → Arch S → Type 0
  Plain = StandsPlain I D S view Holds code impl port guide

  -- A core that has halted is left alone.
  halted-IsDefined :
      (n max_cycles : ℕ) (c : Core I D) → c.halted ≡ true → IsDefined (run_loop I D n max_cycles c)
  halted-IsDefined n max_cycles c h =
      (c, run_loop-halted I D S view Holds code (λ bp. bp ≡ none) impl port guide n max_cycles c h)

  run_loop-IsDefined :
      (n max_cycles k : ℕ) (c : Core I D) (s t : Arch S)
      → Plain c s
      → IsLinear code (latched I D c)
      → Leads k s t
      → IsDefined (run_loop I D n max_cycles c)
  unfolding run_loop
  run_loop-IsDefined zero max_cycles k c s t h lin w = (c, refl)
  run_loop-IsDefined (suc n) max_cycles k c s t h lin w =
      if-IsDefined (not c.halted && ltb c.stats.cycles max_cycles)
        (λ _.
          >>=-IsDefined (tick I D c) (λ r. run_loop I D n max_cycles r.1)
            (tick-IsDefined I D S view Holds code impl port guide c s h lin
              (Leads-Continues k s t w) (here-IsCovered k s t w))
            (λ (r : Bool × Core I D) e.
              let x = tick-Cycle I D c h.running e in
              elim (Bool-cases (ends c.mem_wb.reg)) [
                | inl last ↦
                    halted-IsDefined n max_cycles r.1
                      (ended-Halts I D S view Holds code (λ bp. bp ≡ none) impl port guide c r.1 s
                        r.0 h x last).has_halted
                | inr more ↦
                    let (u, g) =
                      going-Stands I D S view Holds code (λ bp. bp ≡ none) impl port guide c r.1 s
                        r.0 h x more in
                    let lin' =
                      Cycle-IsLinear I D S view Holds code impl port guide c r.1 s r.0 h x lin
                        more in
                    elim g.same_or_next [
                      | inl (same, _) ↦
                          run_loop-IsDefined n max_cycles k r.1 u t g.stands lin'
                            (subst (λ v. Leads k v t) (sym same) w)
                      | inr (st, _) ↦
                          let (j, w') = Leads-step k s u t w st in
                          run_loop-IsDefined n max_cycles j r.1 u t g.stands lin' w'
                    ]
              ]))
        (λ _. (c, refl))

  create-IsLinear :
      (base : ℕ) (imem : I.State) (dmem : D.State) (bpred : Option BranchPredictor)
      → IsLinear code (latched I D (create I D base imem dmem bpred))
  unfolding create
  create-IsLinear base imem dmem bpred = record {
    front_next = λ v. cc;
    ex_next = λ v. cc;
    mem_next = λ v _. cc;
    wb_next = λ v. cc;
    front_taken = λ v. cc;
    ex_taken = λ v. cc;
    front_word = λ v. cc;
    ex_word = λ v. cc;
    ex_op = λ v. cc;
    mem_word = λ v. cc;
    mem_op = λ v. cc;
  }

  module _ {ValidI : I.State → Type 0} {left_i : I.State → ℕ} {bound_i : ℕ}
      (prompt_i : IsPrompt I ValidI left_i bound_i) {ValidD : D.State → Type 0}
      {left_d : D.State → ℕ} {bound_d : ℕ} (prompt_d : IsPrompt D ValidD left_d bound_d) where
    abbrev pub begin : ℕ → D.State → Arch S
    begin = start I D S view Holds code (λ bp. bp ≡ none) impl port guide

    -- When the machine ends a program after `k` steps, and the code reaches four words beyond each
    -- instruction that it executes, and the word behind the last one neither accesses the memory nor
    -- jumps, then a run of a new core without a predictor is defined and halts in the state that the
    -- machine ends in, with a count of k + 1 instructions modulo 2 ^ 64, if it may take k + 1 times the
    -- cycles that a step takes at most.
    pub run-total :
        (base max_cycles k : ℕ) (imem : I.State) (dmem : D.State) (bpred : Option BranchPredictor)
        (t : Arch S)
        → max_cycles < 2 ^ 64
        → suc k * (5 + bound_d + bound_i) ≤ max_cycles
        → Holds imem
        → bpred ≡ none
        → ValidI imem
        → ValidD dmem
        → steps S code k (begin base dmem) ≡ some t
        → AtEnd S code t
        → IsCalm code t.pc
        → Reachable k (begin base dmem)
        → (c' : Core I D) × (run I D max_cycles (create I D base imem dmem bpred) ≡ some c')
          × Halts I D S code c' t
          × (c'.stats.instructions ≡ suc k % 2 ^ 64)
    unfolding run create
    run-total base max_cycles k imem dmem bpred t m b h g vi vd st a calm cover =
        let c = create I D base imem dmem bpred in
        let (c', e) =
          run_loop-IsDefined (max_cycles - c.stats.cycles) max_cycles k c (begin base dmem) t
            (create-Stands I D S view Holds code (λ bp. bp ≡ none) impl port guide base imem dmem
              bpred h g)
            (create-IsLinear base imem dmem bpred)
            (record { path = st; end = a; calm = calm; covered = cover }) in
        let (x, counts) =
          run-Halts I D S view Holds code (λ bp. bp ≡ none) impl port guide prompt_i prompt_d base
            max_cycles k imem dmem bpred m b h g vi vd st a e in
        (c', e, x, counts)
