-- ===== src/Refine/OnPort.antt =====
-- A core whose fetch addresses are whole words runs as on a port that has no other words.
use cpu_sim.Base.{
  and-right, ℕ, zero, suc, ◌≡◌, inl, inr, refl, sym, ap, ◌∙◌, arith, Bool, Bool-cases, true, false,
  not, ltb, ◌&&◌, Option, none, some, ◌>>=◌, >>=-eq-some, value_or, if◌then◌else◌, map->>=,
  map->>=-agree,
}
use mathlib.Core.Option
use mathlib.Core.Path.{subst}
use cpu_sim.Memory.Interface.{IMemory}
use cpu_sim.Predictor.{BranchPredictor}
use cpu_sim.Pipeline.Latch.{Latch}
use cpu_sim.Pipeline.Regs.{IfId, ExMem}
use cpu_sim.Pipeline.Fetch
use cpu_sim.Pipeline.Fetch.{FetchStage, Fetched}
use cpu_sim.Pipeline.Decode
use cpu_sim.Pipeline.Forward
use cpu_sim.Pipeline.Execute
use cpu_sim.Pipeline.MemAccess
use cpu_sim.Pipeline.Hazard
use cpu_sim.Sim.Core.{
  Core, tick, evaluate, commit, run_loop, count_cycle, latch_stalled, latch_all, captured,
}
use cpu_sim.Sim.Core.Commit.{commit-stalled, commit-advances, observed, capture, stops}
use cpu_sim.Refine.Aligned.{is_aligned, aligned_port}

module _ {I : IMemory} where
  abbrev fetched_on : Fetched (aligned_port I) → Fetched I
  fetched_on f = record { imem = f.imem; out = f.out; stage = f.stage }

  fetch-on_port :
      (bp : Option BranchPredictor) (imem : I.State) (out : Latch IfId) (f : FetchStage)
      → is_aligned f.pc ≡ true
      → Option.map fetched_on (Fetch.evaluate (aligned_port I) bp imem out f)
        ≡ Fetch.evaluate I bp imem out f
  unfolding Fetch.evaluate
  fetch-on_port bp imem out f a = elim (Bool-cases (I.ready imem f.pc false).0) [
    | inl r ↦ rw (r, a) (word (I.load_word (I.ready imem f.pc false).1 f.pc) _)
    | inr r ↦ rw r refl
  ]
    where
      word :
          (o : Option ℕ) (k : ℕ → Fetched (aligned_port I))
          → Option.map fetched_on (o >>= λ raw. some (k raw))
            ≡ (o >>= λ raw. some (fetched_on (k raw)))
      word none k = refl
      word (some raw) k = refl

  latch-on_port :
      (imem : I.State) (out : Latch IfId) (f : FetchStage)
      → fetched_on (Fetch.latch_stage (aligned_port I) imem out f) ≡ Fetch.latch_stage I imem out f
  unfolding Fetch.latch_stage
  latch-on_port imem out f = elim (Bool-cases f.redirect) [
    | inl r ↦ rw r refl
    | inr r ↦ elim (Bool-cases f.stall) [ inl t ↦ rw (r, t) refl | inr t ↦ rw (r, t) refl ]
  ]

module _ {I D : IMemory} where
  -- The same core on the whole port.
  abbrev pub on_port : Core (aligned_port I) D → Core I D
  on_port c = record {
    base = c.base;
    imem = c.imem;
    dmem = c.dmem;
    rf = c.rf;
    bpred = c.bpred;
    stats = c.stats;
    if_id = c.if_id;
    id_ex = c.id_ex;
    ex_mem = c.ex_mem;
    mem_wb = c.mem_wb;
    fetch = c.fetch;
    decode = c.decode;
    fwd = c.fwd;
    ex = c.ex;
    mem = c.mem;
    wb = c.wb;
    hazard = c.hazard;
    tracer = c.tracer;
    halted = c.halted;
    halt_reason = c.halt_reason;
    halt_pc = c.halt_pc;
    halt_raw = c.halt_raw;
  }

  stalled-on_port :
      (c : Core (aligned_port I) D)
      → count_cycle I D (latch_stalled I D (capture (observed (on_port c))))
        ≡ on_port (
            count_cycle
              (aligned_port I)
              D
              (latch_stalled (aligned_port I) D (capture (observed c))))
  unfolding count_cycle latch_stalled capture observed captured stops
  stalled-on_port c = refl

  advanced-on_port :
      (c : Core (aligned_port I) D)
      → count_cycle I D (latch_all I D (observed (on_port c)))
        ≡ on_port (count_cycle (aligned_port I) D (latch_all (aligned_port I) D (observed c)))
  unfolding count_cycle latch_all observed stops
  advanced-on_port c =
      let d = count_cycle I D (latch_all I D (observed (on_port c))) in
      let o = observed (on_port c) in
      let r = Execute.latch_stage o.ex o.ex_mem o.fetch o.decode o.bpred o.stats in
      let (_, f, _) = Hazard.latch_stage o.hazard r.fetch r.decode in
      ap {A = Fetched I} (λ g. record d { imem = g.imem; if_id = g.out; fetch = g.stage })
        (sym (latch-on_port o.imem o.if_id f))

  commit-on_port :
      (c : Core (aligned_port I) D) → commit I D (on_port c) ≡ on_port (commit (aligned_port I) D c)
  commit-on_port c = elim (Bool-cases c.mem.stalling) [
    | inl s ↦
        commit-stalled (on_port c) s ∙ stalled-on_port c ∙ ap on_port (sym (commit-stalled c s))
    | inr s ↦
        commit-advances (on_port c) s ∙ advanced-on_port c ∙ ap on_port (sym (commit-advances c s))
  ]

  evaluate-on_port :
      (c : Core (aligned_port I) D)
      → is_aligned c.fetch.pc ≡ true
      → Option.map on_port (evaluate (aligned_port I) D c) ≡ evaluate I D (on_port c)
  unfolding evaluate
  evaluate-on_port c a =
      map->>= fetched_on on_port _ _
        (λ f. rest (MemAccess.evaluate D c.dmem (executing f.out) c.mem_wb) _)
        (Fetch.evaluate (aligned_port I) c.bpred c.imem c.if_id c.fetch)
        (fetch-on_port c.bpred c.imem c.if_id c.fetch a)
    where
      executing : Latch IfId → Latch ExMem
      executing out =
          (Execute.evaluate c.bpred (Forward.evaluate c.mem_wb c.fwd)
            (Decode.evaluate c.rf out c.id_ex) c.ex_mem c.mem_wb c.ex).0

      rest :
          (o : Option (MemAccess.Accessed D)) (k : MemAccess.Accessed D → Core (aligned_port I) D)
          → Option.map on_port (o >>= λ m. some (k m)) ≡ (o >>= λ m. some (on_port (k m)))
      rest none k = refl
      rest (some m) k = refl

  abbrev result : Bool × Core (aligned_port I) D → Bool × Core I D
  result r = (r.0, on_port r.1)

  -- A cycle that fetches at a whole word is one on the port that has no other words.
  tick-on_port :
      (c : Core (aligned_port I) D)
      → is_aligned c.fetch.pc ≡ true
      → Option.map result (tick (aligned_port I) D c) ≡ tick I D (on_port c)
  unfolding tick
  tick-on_port c a =
      branch c.halted _ _ _ _ refl
        (finished (evaluate (aligned_port I) D c) ∙ ap (Option.map after) (evaluate-on_port c a))
    where
      branch :
          (b : Bool) (x y : Option (Bool × Core (aligned_port I) D))
          (x' y' : Option (Bool × Core I D))
          → Option.map result x ≡ x'
          → Option.map result y ≡ y'
          → Option.map result (if b then x else y) ≡ (if b then x' else y')
      branch true x y x' y' h k = h
      branch false x y x' y' h k = k

      after : Core I D → Bool × Core I D
      after e = let d = commit I D e in (not d.halted, d)

      finished :
          (o : Option (Core (aligned_port I) D))
          → Option.map result
              (Option.map (λ e. let d = commit (aligned_port I) D e in (not d.halted, d)) o)
            ≡ Option.map after (Option.map on_port o)
      finished none = refl
      finished (some e) = ap {A = Core I D} (λ d. some (not d.halted, d)) (sym (commit-on_port e))

module _ (I D : IMemory) where
  -- Some cycles, one after the other.
  unfoldable pub ticks : ℕ → Core I D → Option (Core I D)
  ticks zero c = some c
  ticks (suc n) c = tick I D c >>= λ r. ticks n r.1

  -- Each fetch address that the core comes to is that of a whole word.
  abbrev pub FetchesAligned : Core I D → Type 0
  FetchesAligned c = (n : ℕ) (d : Core I D) → ticks n c ≡ some d → is_aligned d.fetch.pc ≡ true

  -- Whether they are, for a core that halts within `n` cycles.
  unfoldable pub fetches_aligned : ℕ → Core I D → Bool
  fetches_aligned zero c = c.halted && is_aligned c.fetch.pc
  fetches_aligned (suc n) c =
      is_aligned c.fetch.pc && value_or true (Option.map (λ r. fetches_aligned n r.1) (tick I D c))

module _ {I D : IMemory} where
  halted-tick : (c : Core I D) → c.halted ≡ true → tick I D c ≡ some (false, c)
  unfolding tick
  halted-tick c h = rw h refl

  pub fetches_aligned-FetchesAligned :
      (n : ℕ) (c : Core I D) → fetches_aligned I D n c ≡ true → FetchesAligned I D c
  unfolding ticks fetches_aligned
  fetches_aligned-FetchesAligned zero c h zero d e =
      subst (λ (x : Core I D). is_aligned x.fetch.pc ≡ true) (Option.some-injective _ _ e)
        (ground (arith, h))
  fetches_aligned-FetchesAligned (suc n) c h zero d e =
      subst (λ (x : Core I D). is_aligned x.fetch.pc ≡ true) (Option.some-injective _ _ e)
        (ground (arith, h))
  fetches_aligned-FetchesAligned zero c h (suc m) d e =
      let t = halted-tick c (ground (arith, h)) in
      fetches_aligned-FetchesAligned zero c h m d
        (ap (λ (o : Option (Bool × Core I D)). o >>= λ r. ticks I D m r.1) (sym t) ∙ e)
  fetches_aligned-FetchesAligned (suc n) c h (suc m) d e =
      let (r, t, rest) = >>=-eq-some (tick I D c) (λ r. ticks I D m r.1) e in
      let later : fetches_aligned I D n r.1 ≡ true =
        ap
          (λ (o : Option (Bool × Core I D)).
            value_or true (Option.map (λ r. fetches_aligned I D n r.1) o))
          (sym t)
        ∙ and-right (is_aligned c.fetch.pc) _ h in
      fetches_aligned-FetchesAligned n r.1 later m d rest

  FetchesAligned-here : (c : Core I D) → FetchesAligned I D c → is_aligned c.fetch.pc ≡ true
  unfolding ticks
  FetchesAligned-here c h = h 0 c refl

  FetchesAligned-next :
      (c : Core I D) {r : Bool × Core I D}
      → FetchesAligned I D c
      → tick I D c ≡ some r
      → FetchesAligned I D r.1
  unfolding ticks
  FetchesAligned-next c h t n d e = h (suc n) d (rw t e)

  -- Such a core runs as on a port that has whole words only.
  pub run_loop-on_port :
      (n max_cycles : ℕ) (c : Core (aligned_port I) D)
      → FetchesAligned I D (on_port c)
      → Option.map on_port (run_loop (aligned_port I) D n max_cycles c)
        ≡ run_loop I D n max_cycles (on_port c)
  unfolding run_loop
  run_loop-on_port zero max_cycles c h = refl
  run_loop-on_port (suc n) max_cycles c h =
      let t = tick-on_port c (FetchesAligned-here (on_port c) h) in
      elim (Bool-cases (not c.halted && ltb c.stats.cycles max_cycles)) [
        | inr b ↦ rw b refl
        | inl b ↦
            rw (b, ← t)
              (map->>=-agree result on_port (λ r. run_loop (aligned_port I) D n max_cycles r.1)
                (λ r. run_loop I D n max_cycles r.1) (tick (aligned_port I) D c)
                (λ r e.
                  run_loop-on_port n max_cycles r.1
                    (FetchesAligned-next (on_port c) h (sym t ∙ ap (Option.map result) e))))
      ]
