-- ===== src/Refine/Run.antt =====
-- A run of the core is a run of the architectural machine.
use cpu_sim.Base.{
  ℕ, zero, suc, ◌+◌, ◌-◌, ◌%◌, ◌^◌, length-replicate, get_or-replicate, ◌≡◌, ◌⊎◌, inl, inr, refl,
  sym, ap, ◌∙◌, arith, true, false, not, ltb, Option, some, if-either, >>=-eq-some, ◌&&◌,
}
use cpu_sim.Isa.Op.{Op}
use cpu_sim.Memory.Interface.{IMemory}
use mathlib.Core.Option
use mathlib.Core.Path.{subst}
use cpu_sim.Pipeline.Fetch
use cpu_sim.RegFile
use cpu_sim.RegFile.{RegFile}
use cpu_sim.Predictor.{BranchPredictor}
use cpu_sim.Sim.Core.{Core, create, tick, run, run_loop}
use cpu_sim.Arch.{Arch, step, steps}
use cpu_sim.Arch.Refinement.{Implements}
use cpu_sim.Refine.Latched.{latched, committed}
use cpu_sim.Refine.Claims.{IsCode, IsGuide, Represents, Follows, InEx}
use cpu_sim.Refine.Front.{bubble-InFront}
use cpu_sim.Refine.Entering.{bubble-InEx}
use cpu_sim.Refine.Counting.{counted}
use cpu_sim.Refine.Standing.{step-first, Halts, Stands, tick-Stands}

module _ (I D S : IMemory) (view : D.State → S.State) (Holds : I.State → Type 0)
    (code : ℕ → Option ℕ) (Guides : Option BranchPredictor → Type 0) where
  module _ (impl : Implements D S view) (port : IsCode I Holds code)
      (guide : IsGuide code Guides) where
    -- The core has halted at a state, or stands for it, after `n` steps of the machine.
    abbrev Arrives : ℕ → Core I D → Arch S → Type 0
    Arrives n c t =
        (Halts I D S code c t × (c.stats.instructions ≡ suc n % 2 ^ 64))
        ⊎ (Stands I D S view Holds code Guides c t × (counted c ≡ n % 2 ^ 64))

    -- Where a core that stood for `s` after `n` steps has come to.
    abbrev pub Reaches : ℕ → Core I D → Arch S → Type 0
    Reaches n c' s = (k : ℕ) × (t : Arch S) × (steps S code k s ≡ some t) × Arrives (n + k) c' t

    reach-further :
        (n : ℕ) (c' : Core I D) (s u : Arch S)
        → step S code s ≡ some u
        → Reaches (suc n) c' u
        → Reaches n c' s
    reach-further n c' s u e (k, t, h, o) =
        let same : suc n + k ≡ n + suc k = omega arith in
        (suc k, t, step-first S code k s u e h, subst (λ m. Arrives m c' t) same o)

    here-Reaches : (n : ℕ) (c' : Core I D) (s : Arch S) → Arrives n c' s → Reaches n c' s
    unfolding steps
    here-Reaches n c' s h =
        let same : n ≡ n + 0 = omega arith in (0, s, refl, subst (λ m. Arrives m c' s) same h)

    pub run_loop-halted :
        (n max_cycles : ℕ) (c : Core I D) → c.halted ≡ true → run_loop I D n max_cycles c ≡ some c
    unfolding run_loop
    run_loop-halted zero max_cycles c h = refl
    run_loop-halted (suc n) max_cycles c h = rw h refl

    pub run_loop-Reaches :
        (n max_cycles j : ℕ) (c : Core I D) (s : Arch S) {c' : Core I D}
        → Stands I D S view Holds code Guides c s
        → counted c ≡ j % 2 ^ 64
        → run_loop I D n max_cycles c ≡ some c'
        → Reaches j c' s
    unfolding run_loop
    run_loop-Reaches zero max_cycles j c s {c'} h m e =
        let same : c ≡ c' = cc in rw (← same) (here-Reaches j c s (inr (h, m)))
    run_loop-Reaches (suc n) max_cycles j c s {c'} h m e =
        elim (if-either (not c.halted && ltb c.stats.cycles max_cycles) e) [
          | inl (_, f) ↦
              let ((b, c1), t, rest) =
                >>=-eq-some (tick I D c) (λ r. run_loop I D n max_cycles r.1) f in
              elim (tick-Stands I D S view Holds code Guides impl port guide j c s h m t) [
                | inl (x, m') ↦
                    let same : c1 ≡ c' =
                      Option.some-injective _ _
                        (sym (run_loop-halted n max_cycles c1 x.has_halted) ∙ rest) in
                    rw (← same) (here-Reaches j c1 s (inl (x, m')))
                | inr (u, x, inl (same, m')) ↦
                    subst (Reaches j c') same (run_loop-Reaches n max_cycles j c1 u x m' rest)
                | inr (u, x, inr (st, m')) ↦
                    reach-further j c' s u st (run_loop-Reaches n max_cycles (suc j) c1 u x m' rest)
              ]
          | inr (_, f) ↦
              let same : c ≡ c' = Option.some-injective _ _ f in
              rw (← same) (here-Reaches j c s (inr (h, m)))
        ]

    -- The state before a program.
    abbrev pub start : ℕ → D.State → Arch S
    start base dmem = record { pc = base; rf = RegFile.empty; mem = view dmem }

    create-Represents :
        (base : ℕ) (imem : I.State) (dmem : D.State) (bpred : Option BranchPredictor)
        → Holds imem
        → Guides bpred
        → Represents I D S view Holds code Guides
            (latched I D (create I D base imem dmem bpred))
            (start base dmem)
    unfolding create committed RegFile.empty RegFile.read Fetch.create
    create-Represents base imem dmem bpred h g = record {
      holds = h;
      shape = record {
        size = length-replicate {A = ℕ} 32 0;
        zero_reg = get_or-replicate {A = ℕ} 32 0 0;
      };
      registers = refl;
      wb_index = omega arith;
      ended = λ p. cc;
      flows = λ _. record {
        memory = refl;
        guided = g;
        silent = λ v _. cc;
        in_mem = record { mem_code = λ v. cc; mem_eq = λ v. cc };
        in_ex = λ t f. start-InEx t f;
      };
    }
      where
        start-InEx :
            (t : Arch S)
            → Follows I D S view Holds code Guides false Op.illegal (start base dmem) t
            → InEx I D S view Holds code Guides (latched I D (create I D base imem dmem bpred)) t
        start-InEx t (inl (_, e)) =
            bubble-InEx I D S view Holds code Guides (latched I D (create I D base imem dmem bpred))
              t refl
              (bubble-InFront I D S view Holds code Guides base t (ap {A = Arch S} (λ s. s.pc) e))
        start-InEx t (inr (v, _, _)) = cc

    pub create-Stands :
        (base : ℕ) (imem : I.State) (dmem : D.State) (bpred : Option BranchPredictor)
        → Holds imem
        → Guides bpred
        → Stands I D S view Holds code Guides (create I D base imem dmem bpred) (start base dmem)
    unfolding create Fetch.create
    create-Stands base imem dmem bpred h g = record {
      running = refl;
      no_reason = refl;
      quiet = record { no_redirect = refl; no_stall = refl; no_flush = refl; no_hold = refl };
      represents = create-Represents base imem dmem bpred h g;
    }

    create-counted :
        (base : ℕ) (imem : I.State) (dmem : D.State) (bpred : Option BranchPredictor)
        → counted (create I D base imem dmem bpred) ≡ 0 % 2 ^ 64
    unfolding counted create
    create-counted base imem dmem bpred = refl

    -- A run of a new core that halts has carried out some number of instructions of the machine that
    -- executes the code one by one: it stopped at the EBREAK or illegal instruction at which that
    -- machine then stands, its registers are those of that machine, and it has counted one instruction
    -- more than the machine made steps, modulo 2 ^ 64.
    pub run-steps :
        (base max_cycles : ℕ) (imem : I.State) (dmem : D.State) (bpred : Option BranchPredictor)
        {c' : Core I D}
        → Holds imem
        → Guides bpred
        → run I D max_cycles (create I D base imem dmem bpred) ≡ some c'
        → c'.halted ≡ true
        → (k : ℕ) × (t : Arch S) × (steps S code k (start base dmem) ≡ some t)
          × Halts I D S code c' t
          × (c'.stats.instructions ≡ suc k % 2 ^ 64)
    unfolding run
    run-steps base max_cycles imem dmem bpred {c'} h g e halted =
        let c = create I D base imem dmem bpred in
        let (k, t, st, o) =
          run_loop-Reaches (max_cycles - c.stats.cycles) max_cycles 0 c (start base dmem)
            (create-Stands base imem dmem bpred h g) (create-counted base imem dmem bpred) e in
        let (x, counts) = halted-there k t o in (k, t, st, x, counts)
      where
        halted-there :
            (k : ℕ) (t : Arch S)
            → Arrives (0 + k) c' t
            → Halts I D S code c' t × (c'.stats.instructions ≡ suc k % 2 ^ 64)
        halted-there k t (inl (x, m)) =
            let same : suc (0 + k) ≡ suc k = omega arith in (x, m ∙ ap (λ n. n % 2 ^ 64) same)
        halted-there k t (inr (x, _)) = absurd (ground (arith, x.running))
