-- ===== src/Refine/Halting.antt =====
-- A run halts: on ports that answer within a bound, each step of the machine takes a bounded number
-- of cycles of the core.
use cpu_sim.Base.{
  ℕ, zero, suc, ◌+◌, ◌-◌, ◌*◌, ◌%◌, ◌^◌, ◌<◌, ◌≤◌, ◌≡◌, inl, inr, refl, sym, ap, ◌∙◌, arith, true,
  not, ltb, Option, none, some, ◌>>=◌, >>=-eq-some, if-either, ◌&&◌,
}
use mathlib.Core.Option
use mathlib.Core.Path.{subst}
use cpu_sim.Isa.Decoder.{decode}
use cpu_sim.Memory.Interface.{IMemory}
use cpu_sim.Memory.Prompt.{IsPrompt}
use cpu_sim.Predictor.{BranchPredictor}
use cpu_sim.Sim.Core.{Core, create, tick, run, run_loop}
use cpu_sim.Sim.Core.Loop.{tick-cycles}
use cpu_sim.Arch.{Arch, halts, step, steps}
use cpu_sim.Arch.Refinement.{Implements}
use cpu_sim.Refine.Claims.{IsCode, IsGuide}
use cpu_sim.Refine.Latched.{latched}
use cpu_sim.Refine.Rank.{rank-le}
use cpu_sim.Refine.Standing.{Halts, Stands}
use cpu_sim.Refine.Progress.{IsTimed, rank_of, tick-progress}
use cpu_sim.Refine.Run.{start, create-Stands, run_loop-halted, run-steps}

module _ (S : IMemory) (code : ℕ → Option ℕ) where
  -- The machine stands at the end of the program.
  pub record AtEnd (t : Arch S) : Type 0 where
    pub word : ℕ
    pub word_eq : code t.pc ≡ some word
    pub last : halts (decode word t.pc).op ≡ true

  no_step : (t : Arch S) → AtEnd t → step S code t ≡ none
  unfolding step
  no_step t e = rw (e.word_eq, e.last) refl

  -- The first of several steps.
  pub steps-first :
      (k : ℕ) (s : Arch S) {t : Arch S}
      → steps S code (suc k) s ≡ some t
      → (u : Arch S) × (step S code s ≡ some u) × (steps S code k u ≡ some t)
  unfolding steps
  steps-first zero s {t} e = (t, e, refl)
  steps-first (suc k) s e =
      let (v, f, g) = >>=-eq-some (steps S code (suc k) s) (step S code) e in
      let (u, st, rest) = steps-first k s f in (u, st, ap (λ o. o >>= step S code) rest ∙ g)

  pub steps-zero : (s : Arch S) {t : Arch S} → steps S code 0 s ≡ some t → s ≡ t
  unfolding steps
  steps-zero s e = cc

  -- At the end there is no further step, and before it there is one.
  ended :
      (k : ℕ) (s : Arch S) {t : Arch S} → AtEnd s → steps S code k s ≡ some t → (k ≡ 0) × (s ≡ t)
  ended zero s a e = (refl, steps-zero s e)
  ended (suc k) s a e =
      let (u, st, _) = steps-first k s e in absurd (ground (arith, st, no_step s a))

  pub stepped :
      (k : ℕ) (s : Arch S) {t u : Arch S}
      → AtEnd t
      → steps S code k s ≡ some t
      → step S code s ≡ some u
      → (j : ℕ) × (k ≡ suc j) × (steps S code j u ≡ some t)
  stepped zero s {t} a e st =
      absurd (ground (arith, st, no_step t a, ap (step S code) (steps-zero s e)))
  stepped (suc k) s {t} {u} a e st =
      let (v, st', rest) = steps-first k s e in
      let same : v ≡ u = Option.some-injective _ _ (sym st' ∙ st) in
      (k, refl, ap (steps S code k) (sym same) ∙ rest)

  -- A program has one end.
  pub same_end :
      (k j : ℕ) (s : Arch S) {t u : Arch S}
      → AtEnd t
      → AtEnd u
      → steps S code k s ≡ some t
      → steps S code j s ≡ some u
      → k ≡ j
  same_end zero j s {t} a b e f = sym ((ended j s (subst AtEnd (sym (steps-zero s e)) a) f).0)
  same_end (suc k) j s a b e f =
      let (v, st, rest) = steps-first k s e in
      let (i, j_eq, rest') = stepped j s b f st in ap suc (same_end k i v a b rest rest') ∙ sym j_eq

-- A core halts at an end of the program.
Halts-AtEnd :
    {I D S : IMemory} {code : ℕ → Option ℕ} {c : Core I D} {s : Arch S}
    → Halts I D S code c s
    → AtEnd S code s
Halts-AtEnd {c = c} x = record { word = c.halt_raw; word_eq = x.at_word; last = x.at_end }

module _ (I D S : IMemory) (view : D.State → S.State) (Holds : I.State → Type 0)
    (code : ℕ → Option ℕ) (Guides : Option BranchPredictor → Type 0) (impl : Implements D S view)
    (port : IsCode I Holds code) (guide : IsGuide code Guides) {ValidI : I.State → Type 0}
    {left_i : I.State → ℕ} {bound_i : ℕ} (prompt_i : IsPrompt I ValidI left_i bound_i)
    {ValidD : D.State → Type 0} {left_d : D.State → ℕ} {bound_d : ℕ}
    (prompt_d : IsPrompt D ValidD left_d bound_d) where
  -- The cycles that a step takes at most.
  abbrev pub per_step : ℕ
  per_step = 5 + bound_d + bound_i

  abbrev Timed : Core I D → Type 0
  Timed = IsTimed I D S view Holds code Guides impl port guide prompt_i prompt_d

  abbrev left_of : Core I D → ℕ
  left_of = rank_of I D S view Holds code Guides impl port guide prompt_i prompt_d

  left_of-lt : (c : Core I D) → Timed c → left_of c < per_step
  left_of-lt c t = omega (
    arith,
    rank-le left_i left_d bound_d (latched I D c) bound_i (prompt_i.left_le c.imem t.imem)
        (prompt_d.left_le c.dmem t.dmem),
  )

  -- What is left after a step.
  next_budget :
      (j n r r' : ℕ) → suc j * per_step + r < suc n → r' < per_step → j * per_step + r' < n
  next_budget j n r r' h k = grind arith

  -- A core that has halted is left alone, and has halted at the end.
  settled :
      (n max_cycles k : ℕ) (c : Core I D) (s : Arch S) {t : Arch S} {c' : Core I D}
      → steps S code k s ≡ some t
      → AtEnd S code t
      → Halts I D S code c s
      → run_loop I D n max_cycles c ≡ some c'
      → Halts I D S code c' t
  settled n max_cycles k c s {t} {c'} st a x e =
      let same : c ≡ c' = Option.some-injective _ _ (
        sym
          (run_loop-halted I D S view Holds code Guides impl port guide n max_cycles c x.has_halted)
        ∙ e) in
      rw (← same) (subst (Halts I D S code c) ((ended S code k s (Halts-AtEnd x) st).1) x)

  run_loop-Halts :
      (n max_cycles k : ℕ) (c : Core I D) (s : Arch S) {t : Arch S} {c' : Core I D}
      → max_cycles < 2 ^ 64
      → c.stats.cycles + n ≡ max_cycles
      → k * per_step + left_of c < n
      → Stands I D S view Holds code Guides c s
      → Timed c
      → steps S code k s ≡ some t
      → AtEnd S code t
      → run_loop I D n max_cycles c ≡ some c'
      → Halts I D S code c' t
  unfolding run_loop
  run_loop-Halts zero max_cycles k c s m b f h timed st a e = absurd (omega arith)
  run_loop-Halts (suc n) max_cycles k c s {t} {c'} m b f h timed st a e =
      elim (if-either (not c.halted && ltb c.stats.cycles max_cycles) e) [
        | inl (_, g) ↦
            let ((r, c1), ticked, rest) =
              >>=-eq-some (tick I D c) (λ r. run_loop I D n max_cycles r.1) g in
            let b' : c1.stats.cycles + n ≡ max_cycles =
              omega (arith, tick-cycles c h.running ticked) in
            elim (tick-progress I D S view Holds code Guides impl port guide prompt_i prompt_d c s h
              timed ticked) [
                | inl x ↦ settled n max_cycles k c1 s st a x rest
                | inr (u, h', timed', inl st') ↦
                    let (j, k_eq, rest') = stepped S code k s a st st' in
                    run_loop-Halts n max_cycles j c1 u m b'
                      (next_budget j n (left_of c) (left_of c1) (ground (arith, k_eq))
                        (left_of-lt c1 timed'))
                      h' timed' rest' a rest
                | inr (u, h', timed', inr (same, less)) ↦
                    run_loop-Halts n max_cycles k c1 u m b' (omega arith) h' timed'
                      (ap (steps S code k) same ∙ st) a rest
              ]
        | inr (x, _) ↦ absurd (ground (arith, h.running, x))
      ]

  -- When the machine ends a program after `k` steps, a run of a new core that meets no undefined
  -- address and may take (k + 1) * per_step cycles halts, in the state that the machine ends in, and
  -- has counted k + 1 instructions, modulo 2 ^ 64.
  pub run-Halts :
      (base max_cycles k : ℕ) (imem : I.State) (dmem : D.State) (bpred : Option BranchPredictor)
      {t : Arch S} {c' : Core I D}
      → max_cycles < 2 ^ 64
      → suc k * per_step ≤ max_cycles
      → Holds imem
      → Guides bpred
      → ValidI imem
      → ValidD dmem
      → steps S code k (start I D S view Holds code Guides impl port guide base dmem) ≡ some t
      → AtEnd S code t
      → run I D max_cycles (create I D base imem dmem bpred) ≡ some c'
      → Halts I D S code c' t × (c'.stats.instructions ≡ suc k % 2 ^ 64)
  unfolding run create
  run-Halts base max_cycles k imem dmem bpred {t} {c'} m b h g vi vd st a e =
      let c = create I D base imem dmem bpred in
      let timed : Timed c = record { imem = vi; dmem = vd } in
      let n = max_cycles - c.stats.cycles in
      let s = start I D S view Holds code Guides impl port guide base dmem in
      let x : Halts I D S code c' t =
        run_loop-Halts n max_cycles k c s m (omega arith)
          (first_budget k n (left_of c) (omega arith) (left_of-lt c timed))
          (create-Stands I D S view Holds code Guides impl port guide base imem dmem bpred h g)
          timed st a e in
      let (j, u, path, y, counts) =
        run-steps I D S view Holds code Guides impl port guide base max_cycles imem dmem bpred h g e
          x.has_halted in
      (x, counts ∙ ap (λ n. suc n % 2 ^ 64) (sym (same_end S code k j s a (Halts-AtEnd y) st path)))
    where
      first_budget : (k n r : ℕ) → suc k * per_step ≤ n → r < per_step → k * per_step + r < n
      first_budget k n r h l = grind arith
