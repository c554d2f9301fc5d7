-- ===== src/Refine/Tick.antt =====
-- A cycle of the core, seen by the architectural machine.
use cpu_sim.Base.{
  ◌≡◌, inl, inr, refl, ap, ◌∙◌, Bool, Bool-cases, true, false, if◌then◌else◌, ◌&&◌, ◌||◌,
}
use cpu_sim.Isa.Op.{Op}
use cpu_sim.Memory.Interface.{IMemory}
use cpu_sim.Pipeline.Fetch.{Fetched}
use cpu_sim.Pipeline.Fetch.Laws
use cpu_sim.Pipeline.MemAccess.{Accessed}
use cpu_sim.Pipeline.MemAccess.Laws as MemAccessLaws
use cpu_sim.Sim.Core.{
  Core, HaltReason, is_ebreak, is_illegal, count_cycle, latch_stalled, latch_all,
}
use cpu_sim.Sim.Core.Phases.{evaluated, Cycle}
use cpu_sim.Sim.Core.Commit.{stops, observed, capture, commit-stalled, commit-advances}
use cpu_sim.Arch.{halts}
use cpu_sim.Refine.Latched.{
  latched, IsQuiet, stalled, advanced, next_fetch, latched-stalled, latched-advanced,
  stalled-IsQuiet, advanced-IsQuiet,
}
use cpu_sim.Refine.Claims.{ends}

halts-lem : (op : Op) → is_ebreak op || is_illegal op ≡ halts op
unfolding is_ebreak is_illegal halts
halts-lem Op.ebreak = refl
halts-lem Op.illegal = refl
halts-lem _ = refl

module _ {I D : IMemory} where
  -- What a cycle says of the end of the program.
  pub record Ends (c c' : Core I D) : Type 0 where
    pub halted_eq : c'.halted ≡ (if ends c.mem_wb.reg then true else c.halted)
    pub halt_pc_eq : c'.halt_pc ≡ (if ends c.mem_wb.reg then c.mem_wb.reg.pc else c.halt_pc)
    pub halt_raw_eq : c'.halt_raw ≡ (if ends c.mem_wb.reg then c.mem_wb.reg.raw else c.halt_raw)
    pub halt_reason_eq : c'.halt_reason ≡ (
        if ends c.mem_wb.reg
        then (if is_ebreak c.mem_wb.reg.op then HaltReason.ebreak else HaltReason.illegal)
        else c.halt_reason)

  -- What a cycle makes of the stages.
  pub data Moves (c c' : Core I D) (f : Fetched I) (m : Accessed D) : Type 0 where
    stood :
        m.stage.stalling ≡ true
        → latched I D c' ≡ stalled I D (latched I D c) f.imem m.dmem
        → Moves c c' f m
    went :
        m.stage.stalling ≡ false
        → latched I D c'
          ≡ advanced I D
              (latched I D c)
              f.imem
              m.dmem
              m.out.shadow
              f.out.shadow
              (next_fetch I D f.stage)
        → Moves c c' f m

  stops-ends :
      (c : Core I D) (f : Fetched I) (m : Accessed D)
      → m.out.reg ≡ c.mem_wb.reg
      → stops (evaluated I D c f m) ≡ ends c.mem_wb.reg
  unfolding stops
  stops-ends c f m k =
      ap (λ w. w.valid && (is_ebreak w.op || is_illegal w.op)) k
      ∙ ap (λ b. c.mem_wb.reg.valid && b) (halts-lem c.mem_wb.reg.op)

  observed-Ends :
      (c : Core I D) (f : Fetched I) (m : Accessed D)
      → m.out.reg ≡ c.mem_wb.reg
      → Ends c (observed (evaluated I D c f m))
  unfolding observed
  observed-Ends c f m k =
      let s = stops-ends c f m k in
      record {
        halted_eq = rw s refl;
        halt_pc_eq = rw (s, k) refl;
        halt_raw_eq = rw (s, k) refl;
        halt_reason_eq = rw (s, k) refl;
      }

  -- The latches leave that alone.
  stalled-Ends :
      (c c1 : Core I D) → Ends c c1 → Ends c (count_cycle I D (latch_stalled I D (capture c1)))
  unfolding count_cycle latch_stalled capture
  stalled-Ends c c1 e = record {
    halted_eq = e.halted_eq;
    halt_pc_eq = e.halt_pc_eq;
    halt_raw_eq = e.halt_raw_eq;
    halt_reason_eq = e.halt_reason_eq;
  }

  advanced-Ends : (c c1 : Core I D) → Ends c c1 → Ends c (count_cycle I D (latch_all I D c1))
  unfolding count_cycle latch_all
  advanced-Ends c c1 e = record {
    halted_eq = e.halted_eq;
    halt_pc_eq = e.halt_pc_eq;
    halt_raw_eq = e.halt_raw_eq;
    halt_reason_eq = e.halt_reason_eq;
  }

  module _ (c c' : Core I D) (b : Bool) (q : IsQuiet I D c) (t : Cycle I D c c' b) where
    fetch-IsHeld : Laws.IsHeld c.if_id c.fetch t.fetched
    fetch-IsHeld = Laws.evaluate-IsHeld c.bpred c.imem c.if_id c.fetch t.fetch_eq

    mem-IsHeld : MemAccessLaws.IsHeld c.mem_wb t.accessed
    mem-IsHeld = MemAccessLaws.evaluate-IsHeld c.dmem c.ex_mem c.mem_wb t.mem_eq

    -- The two ways that a cycle ends.
    cycle-stalled :
        t.accessed.stage.stalling ≡ true
        → c'
          ≡ count_cycle I D
              (latch_stalled I D (capture (observed (evaluated I D c t.fetched t.accessed))))
    cycle-stalled s = t.core_eq ∙ commit-stalled (evaluated I D c t.fetched t.accessed) s

    cycle-advances :
        t.accessed.stage.stalling ≡ false
        → c' ≡ count_cycle I D (latch_all I D (observed (evaluated I D c t.fetched t.accessed)))
    cycle-advances s = t.core_eq ∙ commit-advances (evaluated I D c t.fetched t.accessed) s

    pub cycle-Moves : Moves c c' t.fetched t.accessed
    cycle-Moves = elim (Bool-cases t.accessed.stage.stalling) [
      | inl s ↦ Moves.stood s (
          ap (latched I D) (cycle-stalled s)
          ∙ latched-stalled I D c t.fetched t.accessed fetch-IsHeld.kept fetch-IsHeld.same_pc
              mem-IsHeld.kept (mem-IsHeld.bubble s))
      | inr s ↦ Moves.went s (
          ap (latched I D) (cycle-advances s)
          ∙ latched-advanced I D c t.fetched t.accessed q fetch-IsHeld mem-IsHeld.kept)
    ]

    pub cycle-IsQuiet : IsQuiet I D c'
    cycle-IsQuiet = elim (Bool-cases t.accessed.stage.stalling) [
      | inl s ↦ rw (cycle-stalled s) (stalled-IsQuiet I D c t.fetched t.accessed q fetch-IsHeld)
      | inr s ↦ rw (cycle-advances s) (advanced-IsQuiet I D c t.fetched t.accessed q fetch-IsHeld)
    ]

    pub cycle-Ends : Ends c c'
    cycle-Ends =
        let o = observed-Ends c t.fetched t.accessed mem-IsHeld.kept in
        elim (Bool-cases t.accessed.stage.stalling) [
          | inl s ↦
              rw (cycle-stalled s)
                (stalled-Ends c (observed (evaluated I D c t.fetched t.accessed)) o)
          | inr s ↦
              rw (cycle-advances s)
                (advanced-Ends c (observed (evaluated I D c t.fetched t.accessed)) o)
        ]
