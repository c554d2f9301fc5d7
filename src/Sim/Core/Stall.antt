-- ===== src/Sim/Core/Stall.antt =====
-- What a cycle does while the memory stage waits: `latch_stalled` and `capture_ex_operands`.
use cpu_sim.Base.{Bool-cases, inl, inr, ℕ, Bool, true, false, ◌≡◌, refl, some, ap, ◌∙◌, sym}
use mathlib.Core.Path.{subst}
use cpu_sim.Memory.Interface.{IMemory}
use cpu_sim.Pipeline.Regs.{MemWb, ExMem, mem_wb_bubble}
use cpu_sim.Pipeline.Fetch
use cpu_sim.Pipeline.Fetch.Laws
use cpu_sim.Pipeline.Decode
use cpu_sim.Pipeline.Forward
use cpu_sim.Pipeline.Forward.Order.{resolve_again}
use cpu_sim.Pipeline.Execute
use cpu_sim.Pipeline.MemAccess
use cpu_sim.Pipeline.MemAccess.Laws.{IsHeld, evaluate-IsHeld}
use cpu_sim.Sim.Core.{Core, tick, latch_stalled, count_cycle, captured}
use cpu_sim.Sim.Core.Phases.{evaluated, Cycle, tick-Cycle}
use cpu_sim.Sim.Core.Commit.{commit-stalled, commit-mem, observed, capture}

-- An operand that is captured, and resolved again a cycle later.
resolve_captured :
    (f : Forward.ForwardUnit) (ex : ExMem) (wb : MemWb) (reg cur : ℕ)
    → Forward.resolve
        (Forward.latch_stage (record f { prev_mem_wb_next = wb }))
        ex
        mem_wb_bubble
        reg
        (Forward.resolve (record f { prev_mem_wb_next = wb }) ex wb reg cur)
      ≡ Forward.resolve f ex wb reg cur
unfolding Forward.resolve Forward.latch_stage
resolve_captured f ex wb reg cur = resolve_again f ex wb mem_wb_bubble reg cur refl

module _ {I D : IMemory} where
  -- The operands that EX resolves in a core.
  abbrev pub first_operand : Core I D → ℕ
  first_operand c =
      Forward.resolve c.fwd c.ex_mem.reg c.mem_wb.reg c.id_ex.reg.rs1 c.id_ex.reg.rs1_val

  abbrev pub second_operand : Core I D → ℕ
  second_operand c =
      Forward.resolve c.fwd c.ex_mem.reg c.mem_wb.reg c.id_ex.reg.rs2 c.id_ex.reg.rs2_val

  -- The stages that EX, MEM and the front of the pipeline read next, after a cycle with MEM waiting:
  -- the same instructions and the same fetch address, but for the operands of the one in EX.
  abbrev pub Held : Core I D → Core I D → Type 0
  Held c c' =
      (c'.ex_mem.reg ≡ c.ex_mem.reg)
      × (c'.if_id.reg ≡ c.if_id.reg)
      × (c'.fetch.pc ≡ c.fetch.pc)
      × (c'.id_ex.reg
          ≡ record (c.id_ex.reg) { rs1_val = c'.id_ex.reg.rs1_val; rs2_val = c'.id_ex.reg.rs2_val })

  abbrev pub SameOperands : Core I D → Core I D → Type 0
  SameOperands c c' = (first_operand c' ≡ first_operand c) × (second_operand c' ≡ second_operand c)

  abbrev stalled : Core I D → Fetch.Fetched I → MemAccess.Accessed D → Core I D
  stalled c f m = count_cycle I D (latch_stalled I D (capture (observed (evaluated I D c f m))))

  latch_stalled-Held :
      (c : Core I D) (f : Fetch.Fetched I) (m : MemAccess.Accessed D)
      → f.out.reg ≡ c.if_id.reg
      → f.stage.pc ≡ c.fetch.pc
      → Held c (stalled c f m)
  unfolding count_cycle latch_stalled capture observed captured MemAccess.latch_stage
      Decode.evaluate Forward.evaluate Execute.evaluate Forward.latch_stage
  latch_stalled-Held c f m e p = elim (Bool-cases c.id_ex.reg.valid) [
    | inl v ↦ rw v (refl, e, p, refl)
    | inr v ↦ rw v (refl, e, p, refl)
  ]

  latch_stalled-operands :
      (c : Core I D) (f : Fetch.Fetched I) (m : MemAccess.Accessed D)
      → IsHeld c.mem_wb m
      → m.stage.stalling ≡ true
      → c.id_ex.reg.valid ≡ true
      → SameOperands c (stalled c f m)
  unfolding count_cycle latch_stalled capture observed captured MemAccess.latch_stage
      Decode.evaluate Forward.evaluate Execute.evaluate Forward.latch_stage
  latch_stalled-operands c f m h s v =
      let id = c.id_ex.reg in
      rw (v, h.kept, h.bubble s)
        (
          resolve_captured c.fwd c.ex_mem.reg c.mem_wb.reg id.rs1 id.rs1_val,
          resolve_captured c.fwd c.ex_mem.reg c.mem_wb.reg id.rs2 id.rs2_val,
        )

  -- A cycle of a running core that MEM ends waiting.
  module _ (c : Core I D) {c' : Core I D} {b : Bool} (r : c.halted ≡ false)
      (h : tick I D c ≡ some (b, c')) (s : c'.mem.stalling ≡ true) where
    cycle : Cycle I D c c' b
    cycle = tick-Cycle I D c r h

    waits : cycle.accessed.stage.stalling ≡ true
    waits =
        sym (ap (λ m. m.stalling) (commit-mem (evaluated I D c cycle.fetched cycle.accessed)))
        ∙ ap (λ d. d.mem.stalling) (sym cycle.core_eq)
        ∙ s

    cycle-stalled : c' ≡ stalled c cycle.fetched cycle.accessed
    cycle-stalled =
        cycle.core_eq ∙ commit-stalled (evaluated I D c cycle.fetched cycle.accessed) waits

    -- In a cycle of a running core that MEM ends waiting, the instructions in MEM, EX and DECODE, or
    -- the bubbles there, and the fetch address stay as they are, but for the values of the operands of
    -- the one in EX.
    pub tick-Held : Held c c'
    tick-Held =
        let f = Laws.evaluate-IsHeld c.bpred c.imem c.if_id c.fetch cycle.fetch_eq in
        subst (Held c) (sym cycle-stalled)
          (latch_stalled-Held c cycle.fetched cycle.accessed f.kept f.same_pc)

    -- In a cycle of a running core that MEM ends waiting, a valid instruction in EX keeps the operands that it would be given, though the
    -- instruction in WB, whose result may be one of them, has left the pipeline.
    pub tick-operands : c.id_ex.reg.valid ≡ true → SameOperands c c'
    tick-operands v =
        let m = evaluate-IsHeld c.dmem c.ex_mem c.mem_wb cycle.mem_eq in
        subst (SameOperands c) (sym cycle-stalled)
          (latch_stalled-operands c cycle.fetched cycle.accessed m waits v)
