-- ===== src/Sim/Core/Phases.antt =====
-- The two phases of a cycle, as equations.
use cpu_sim.Base.{Bool, false, not, ◌≡◌, some, >>=-eq-some, sym, ap, ◌∙◌}
use mathlib.Core.Option
use cpu_sim.Memory.Interface.{IMemory}
use cpu_sim.Pipeline.Fetch
use cpu_sim.Pipeline.Decode
use cpu_sim.Pipeline.Forward
use cpu_sim.Pipeline.Execute
use cpu_sim.Pipeline.MemAccess
use cpu_sim.Pipeline.Writeback
use cpu_sim.Pipeline.Hazard
use cpu_sim.Sim.Core.{Core, evaluate, commit, tick}

module _ (I D : IMemory) where
  -- The state that the `evaluate` calls leave, from the results of FETCH and MEM.
  abbrev pub evaluated : Core I D → Fetch.Fetched I → MemAccess.Accessed D → Core I D
  evaluated c f m =
      let id_ex = Decode.evaluate c.rf f.out c.id_ex in
      let fwd = Forward.evaluate c.mem_wb c.fwd in
      let x = Execute.evaluate c.bpred fwd id_ex c.ex_mem c.mem_wb c.ex in
      record c {
        imem = f.imem;
        if_id = f.out;
        fetch = f.stage;
        id_ex = id_ex;
        fwd = fwd;
        ex_mem = x.0;
        ex = x.1;
        dmem = m.dmem;
        mem_wb = m.out;
        mem = m.stage;
        wb = Writeback.evaluate m.out;
        hazard = Hazard.evaluate f.out id_ex;
      }

  -- A cycle of a running core that is defined.
  pub record Cycle (c c' : Core I D) (b : Bool) : Type 0 where
    pub fetched : Fetch.Fetched I
    pub accessed : MemAccess.Accessed D
    pub fetch_eq : Fetch.evaluate I c.bpred c.imem c.if_id c.fetch ≡ some fetched
    pub mem_eq : MemAccess.evaluate D c.dmem c.ex_mem c.mem_wb ≡ some accessed
    pub core_eq : c' ≡ commit I D (evaluated c fetched accessed)
    pub runs_eq : b ≡ not c'.halted

  evaluate-eq-some :
      (c : Core I D) {e : Core I D}
      → evaluate I D c ≡ some e
      → (f : Fetch.Fetched I) × (m : MemAccess.Accessed D) × (Fetch.evaluate I c.bpred c.imem
            c.if_id c.fetch
          ≡ some f)
        × (MemAccess.evaluate D c.dmem c.ex_mem c.mem_wb ≡ some m)
        × (evaluated c f m ≡ e)
  unfolding evaluate MemAccess.evaluate
  evaluate-eq-some c h =
      let (f, f_eq, rest) = >>=-eq-some (Fetch.evaluate I c.bpred c.imem c.if_id c.fetch) _ h in
      let (m, m_eq, last) = >>=-eq-some (MemAccess.evaluate D c.dmem c.ex_mem c.mem_wb) _ rest in
      (f, m, f_eq, m_eq, cc)

  -- What `tick` makes of the evaluated core.
  abbrev after : Core I D → Bool × Core I D
  after e = let d = commit I D e in (not d.halted, d)

  running : (c : Core I D) → c.halted ≡ false → tick I D c ≡ Option.map after (evaluate I D c)
  unfolding tick
  running c r = rw r

  pub tick-Cycle :
      (c : Core I D) {c' : Core I D} {b : Bool}
      → c.halted ≡ false
      → tick I D c ≡ some (b, c')
      → Cycle c c' b
  tick-Cycle c {c'} {b} r h =
      let (e, e_eq, out) =
        (Option.map-eq-some_iff after (evaluate I D c)).0 (sym (running c r) ∙ h) in
      let (f, m, f_eq, m_eq, e_is) = evaluate-eq-some c e_eq in
      let c_eq : c' ≡ commit I D (evaluated c f m) =
        sym (ap (λ x. x.1) out) ∙ ap (commit I D) (sym e_is) in
      record {
        fetched = f;
        accessed = m;
        fetch_eq = f_eq;
        mem_eq = m_eq;
        core_eq = c_eq;
        runs_eq = sym (ap (λ x. x.0) out) ∙ ap (λ x. not x.halted) (ap (λ x. x.1) out);
      }
