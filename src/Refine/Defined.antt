-- ===== src/Refine/Defined.antt =====
-- A cycle near the code is defined, and leaves consecutive words in the pipeline.
use cpu_sim.Base.{
  ℕ, ◌≡◌, refl, sym, ◌∙◌, arith, inl, inr, Bool, true, false, not, Option, none, some, >>=-eq-some,
  if-either, IsDefined, if-IsDefined, >>=-IsDefined, map-IsDefined, IsDefined-map, if◌then◌else◌,
  add32,
}
use mathlib.Core.Path.{subst}
use cpu_sim.Memory.Interface.{IMemory}
use cpu_sim.Predictor.{BranchPredictor}
use cpu_sim.Pipeline.Latch.{Latch}
use cpu_sim.Pipeline.Regs.{IfId, ExMem, MemWb}
use cpu_sim.Pipeline.Fetch.{FetchStage, Fetched, guess, predicted_pc, fetched}
use cpu_sim.Pipeline.Fetch
use cpu_sim.Pipeline.MemAccess.{Accessed, access, perform, is_mem_op, is_store}
use cpu_sim.Pipeline.MemAccess
use cpu_sim.Pipeline.Execute
use cpu_sim.Sim.Core.{Core, tick, evaluate}
use cpu_sim.Sim.Core.Phases.{Cycle}
use cpu_sim.Arch.{Arch, halts}
use cpu_sim.Arch.Refinement.{Implements, seen, access-view}
use cpu_sim.Refine.Latched.{latched, next_fetch}
use cpu_sim.Refine.Claims.{IsCode, IsGuide, ends}
use cpu_sim.Refine.Step.{access-Kept}
use cpu_sim.Refine.Memory.{Accesses}
use cpu_sim.Refine.Tick.{Moves, cycle-Moves}
use cpu_sim.Refine.Linear.{IsLinear, stalled-IsLinear, advanced-IsLinear, is_control}
use cpu_sim.Refine.Nearby.{IsCovered, Continues, halts-calm, fetch-near, access-defined}
use cpu_sim.Refine.Standing.{Stands, accesses}

module _ (I : IMemory) {Holds : I.State → Type 0} {code : ℕ → Option ℕ}
    (port : IsCode I Holds code) where
  fetch-IsDefined :
      (bp : Option BranchPredictor) (m : I.State) (out : Latch IfId) (f : FetchStage) (raw : ℕ)
      → Holds m
      → code f.pc ≡ some raw
      → IsDefined (Fetch.evaluate I bp m out f)
  unfolding Fetch.evaluate
  fetch-IsDefined bp m out f raw h c =
      let asked = I.ready m f.pc false in
      let w : I.load_word asked.1 f.pc ≡ some raw =
        port.same_code asked.1 f.pc (port.ready_Holds m f.pc false h) ∙ c in
      if-IsDefined asked.0
        (λ _. >>=-IsDefined (I.load_word asked.1 f.pc) _ (raw, w) (λ _ _. (_, refl)))
        (λ _. (_, refl))

  -- What FETCH hands on without a predictor.
  record Hands (pc : ℕ) (f : IfId) (next : ℕ) : Type 0 where
    pub next_eq : next ≡ (if f.valid then add32 pc 4 else pc)
    pub same_pc : f.valid ≡ true → f.pc ≡ pc
    pub word : f.valid ≡ true → code pc ≡ some f.raw
    pub not_taken : f.valid ≡ true → f.predicted_taken ≡ false

  fetch-Hands :
      (D : IMemory) (bp : Option BranchPredictor) (m : I.State) (out : Latch IfId) (f : FetchStage)
      {g : Fetched I}
      → bp ≡ none
      → f.redirect ≡ false
      → Holds m
      → Fetch.evaluate I bp m out f ≡ some g
      → Hands f.pc g.out.shadow (next_fetch I D g.stage)
  unfolding Fetch.evaluate fetched predicted_pc guess
  fetch-Hands D bp m out f {g} n r h e =
      let asked = I.ready m f.pc false in
      let held = port.ready_Holds m f.pc false h in
      elim (if-either asked.0 e) [
        | inl (b, k) ↦
            let (raw, w, x) = >>=-eq-some (I.load_word asked.1 f.pc) _ k in
            let c = sym (port.same_code asked.1 f.pc held) ∙ w in
            record {
              next_eq = ground (arith, x, n, r);
              same_pc = λ v. ground (arith, x);
              word = λ v. c ∙ ground (arith, x);
              not_taken = λ v. ground (arith, x, n);
            }
        | inr (b, k) ↦ record {
          next_eq = ground (arith, k);
          same_pc = λ v. ground (arith, k);
          word = λ v. absurd (ground (arith, k, v));
          not_taken = λ v. absurd (ground (arith, k, v));
        }
      ]

module _ {D S : IMemory} {view : D.State → S.State} (impl : Implements D S view) where
  performed :
      (ex : ExMem) (out : Latch MemWb) (m : D.State)
      → IsDefined (access S ex.op ex (view m))
      → IsDefined (perform D ex out m)
  unfolding perform
  performed ex out m (r, e) =
      map-IsDefined _ (access D ex.op ex m)
        (IsDefined-map (seen impl) (access D ex.op ex m) (r, access-view impl ex.op ex m ∙ e))

  access-IsDefined :
      (m : D.State) (input : Latch ExMem) (out : Latch MemWb)
      → (input.reg.valid ≡ true → IsDefined (access S input.reg.op input.reg (view m)))
      → IsDefined (MemAccess.evaluate D m input out)
  unfolding MemAccess.evaluate
  access-IsDefined m input out h =
      let ex = input.reg in
      let asked = D.ready m ex.alu_out (is_store ex.op) in
      let same = impl.timing.ready_keeps m ex.alu_out (is_store ex.op) in
      if-IsDefined (not ex.valid) (λ _. (_, refl))
        (λ n.
          let a = h (ground (arith, n)) in
          if-IsDefined (is_mem_op ex.op)
            (λ _.
              if-IsDefined asked.0
                (λ _.
                  performed ex out asked.1
                    (subst (λ x. IsDefined (access S ex.op ex x)) (sym same) a))
                (λ _. (_, refl)))
            (λ _. performed ex out m a))

  -- MEM hands on the end of a program from its own slot.
  ends-from :
      (ex : ExMem) (m : D.State) (a : Accessed D)
      → Accesses impl ex m a
      → ends a.out.shadow ≡ true
      → (ex.valid ≡ true) × (is_control ex.op ≡ false) × (a.out.shadow.pc ≡ ex.pc)
  ends-from ex m a (Accesses.waited _ x _) e = absurd (ground (arith, x, e))
  ends-from ex m a (Accesses.had_none _ _ x _) e = absurd (ground (arith, x, e))
  ends-from ex m a (Accesses.accessed _ v acc) e =
      let k = access-Kept S ex.op ex (view m) acc in
      let h : halts ex.op ≡ true = ground (arith, e, k.same_op) in
      (v, (halts-calm ex.op h).1, k.same_pc)

stages-IsDefined :
    (I D : IMemory) (c : Core I D)
    → c.halted ≡ false
    → IsDefined (Fetch.evaluate I c.bpred c.imem c.if_id c.fetch)
    → ((x : Latch ExMem)
        → x.reg ≡ c.ex_mem.reg
        → IsDefined (MemAccess.evaluate D c.dmem x c.mem_wb))
    → IsDefined (tick I D c)
unfolding tick evaluate Execute.evaluate
stages-IsDefined I D c r f m =
    if-IsDefined c.halted (λ h. absurd (ground (arith, h, r)))
      (λ _.
        map-IsDefined _ (evaluate I D c)
          (>>=-IsDefined _ _ f (λ _ _. >>=-IsDefined _ _ (m _ refl) (λ _ _. (_, refl)))))

module _ (I D S : IMemory) (view : D.State → S.State) (Holds : I.State → Type 0)
    (code : ℕ → Option ℕ) (impl : Implements D S view) (port : IsCode I Holds code)
    (guide : IsGuide code (λ bp. bp ≡ none)) where
  -- A core without a predictor stands for a state.
  abbrev pub StandsPlain : Core I D → Arch S → Type 0
  StandsPlain = Stands I D S view Holds code (λ bp. bp ≡ none)

  -- What is known of the program at a state is enough for a cycle.
  pub tick-IsDefined :
      (c : Core I D) (s : Arch S)
      → StandsPlain c s
      → IsLinear code (latched I D c)
      → Continues I D S view Holds code (λ bp. bp ≡ none) s
      → IsCovered code s.pc
      → IsDefined (tick I D c)
  tick-IsDefined c s h lin k cover =
      let l = latched I D c in
      let (raw, w) =
        fetch-near I D S view Holds code (λ bp. bp ≡ none) l s h.represents lin k cover in
      stages-IsDefined I D c h.running
        (fetch-IsDefined I port c.bpred c.imem c.if_id c.fetch raw h.represents.holds w)
        (λ x e. access-IsDefined impl c.dmem x c.mem_wb (λ v.
          subst (λ y. IsDefined (access S y.op y (view c.dmem))) (sym e)
            (access-defined I D S view Holds code (λ bp. bp ≡ none) l s h.represents lin k
              (ground (arith, v, e)))))

  pub Cycle-IsLinear :
      (c c' : Core I D) (s : Arch S) (b : Bool)
      → StandsPlain c s
      → Cycle I D c c' b
      → IsLinear code (latched I D c)
      → ends c.mem_wb.reg ≡ false
      → IsLinear code (latched I D c')
  Cycle-IsLinear c c' s b h t lin e =
      let l = latched I D c in
      elim (cycle-Moves c c' b h.quiet t) [
        | Moves.stood _ k ↦ rw k (stalled-IsLinear code l t.fetched.imem t.accessed.dmem lin)
        | Moves.went _ k ↦
            let f =
              fetch-Hands I port D c.bpred c.imem c.if_id c.fetch (h.represents.flows e).guided
                h.quiet.no_redirect h.represents.holds t.fetch_eq in
            rw k (
              advanced-IsLinear code l t.fetched.imem t.accessed.dmem t.accessed.out.shadow
                t.fetched.out.shadow (next_fetch I D t.fetched.stage) lin
                (record {
                  next_eq = f.next_eq;
                  fetched_pc = f.same_pc;
                  fetched_word = f.word;
                  fetched_taken = f.not_taken;
                  from_mem = ends-from impl c.ex_mem.reg c.dmem t.accessed (
                      accesses I D S view Holds code (λ bp. bp ≡ none) impl port guide c c' s b h
                        t);
                }))
      ]
