-- ===== src/Refine/Entering.antt =====
-- The instruction that a cycle brings into EX, and what stands behind it.
use cpu_sim.Base.{ℕ, ◌<◌, ◌≡◌, ◌≢◌, inl, inr, sym, ap, ◌∙◌, Bool-cases, true, false, Option, some}
use cpu_sim.Isa.Decoder.{decode}
use cpu_sim.Memory.Interface.{IMemory}
use cpu_sim.RegFile.{num_regs, read}
use cpu_sim.Predictor.{BranchPredictor}
use cpu_sim.Pipeline.Regs.{IdEx, ExMem, MemWb, ex_mem_bubble}
use cpu_sim.Pipeline.Execute.{executed, next_pc}
use cpu_sim.Pipeline.Forward.{resolve}
use cpu_sim.Pipeline.Writeback.{has_writeback}
use cpu_sim.Pipeline.Hazard.{is_load}
use cpu_sim.Pipeline.MemAccess.{access}
use cpu_sim.Arch.{Arch, halts}
use cpu_sim.Refine.Latched.{Latched, first, second}
use cpu_sim.Refine.Claims.{IsShaped, InFront, InEx, Follows}
use cpu_sim.Refine.Step.{handed, moved, step-parts}
use cpu_sim.Refine.Operands.{retired, resolve-retired, operand-behind}
use cpu_sim.Refine.Executing.{
  executed-valid, executed-op, executed-bubble, executed-handed, ex-next_pc, ex-op, ex-rd,
}

module _ (I D S : IMemory) (view : D.State → S.State) (Holds : I.State → Type 0)
    (code : ℕ → Option ℕ) (Guides : Option BranchPredictor → Type 0) where
  -- EX keeps whether there is an instruction.
  pub executed-Follows :
      (id : IdEx) (a b : ℕ) (t u : Arch S)
      → Follows I D S view Holds code Guides (executed id a b).valid (executed id a b).op t u
      → Follows I D S view Holds code Guides id.valid id.op t u
  executed-Follows id a b t u (inl (n, e)) = inl (sym (executed-valid id a b) ∙ n, e)
  executed-Follows id a b t u (inr (v, n, e)) =
      let w = sym (executed-valid id a b) ∙ v in
      inr (w, ap halts (sym (executed-op id a b w)) ∙ n, e)

  -- With a bubble in EX, only what stands in front of it counts.
  pub bubble-InEx :
      (l : Latched I D) (u : Arch S)
      → l.ex.valid ≡ false
      → InFront I D S view Holds code Guides l.front l.pc u
      → InEx I D S view Holds code Guides l u
  bubble-InEx l u n f = record {
    ex_code = λ v. cc;
    ex_eq = λ v. cc;
    first_eq = λ v. cc;
    second_eq = λ v. cc;
    ex_jalr = λ v. cc;
    in_front = λ w g _. bubble-in_front w g;
  }
    where
      bubble-in_front :
          (w : Arch S)
          → Follows I D S view Holds code Guides l.ex.valid l.ex.op u w
          → InFront I D S view Holds code Guides l.front l.pc w
      bubble-in_front w (inl (_, e)) = rw e f
      bubble-in_front w (inr (v, _, _)) = cc

  -- What the registers of a state are to the file and the results on their way to it.
  pub record Settled (l : Latched I D) (wb : MemWb) (t : Arch S) : Type 0 where
    pub file : IsShaped l.rf
    pub file_written : IsShaped (retired l.wb l.rf)
    pub state_file : IsShaped t.rf
    pub old_rd : l.wb.rd < num_regs
    pub new_rd : wb.rd < num_regs
    pub old_silent : l.wb.valid ≡ true → has_writeback l.wb.op ≡ false → l.wb.rd ≡ 0
    pub new_silent : wb.valid ≡ true → has_writeback wb.op ≡ false → wb.rd ≡ 0
    pub registers : retired wb (retired l.wb l.rf) ≡ t.rf

  module _ (l : Latched I D) (wb : MemWb) (t u : Arch S) (h : InEx I D S view Holds code Guides l t)
      (r : Settled l wb t) (f : Follows I D S view Holds code Guides l.ex.valid l.ex.op t u) where
    abbrev executing : ExMem
    executing = executed l.ex (first I D l) (second I D l)

    -- What EX makes of its instruction is a step of the machine.
    executing-parts :
        l.ex.valid ≡ true
        → (halts (decode l.ex.raw t.pc).op ≡ false)
          × (wb2 : MemWb) × (m2 : S.State) × (access S
                (decode l.ex.raw t.pc).op
                (handed S t l.ex.raw)
                t.mem
              ≡ some (wb2, m2))
          × (moved S t l.ex.raw (wb2, m2) ≡ u)
    executing-parts v = elim f [
      | inl (n, _) ↦ cc
      | inr (_, n, e) ↦
          let go = ap halts (sym (ex-op I D S view Holds code Guides l t h v)) ∙ n in
          let (wb2, m2, a, mv) = step-parts S code t l.ex.raw (h.ex_code v) go e in
          (go, wb2, m2, a, mv)
    ]

    executing-bubble : l.ex.valid ≡ false → u ≡ t
    executing-bubble n = elim f [ inl (_, e) ↦ e | inr (v, _, _) ↦ cc ]

    -- The operand that the next instruction finds.
    abbrev found : ExMem → ℕ → ℕ
    found ex reg =
        resolve (record { prev_mem_wb = l.wb; prev_mem_wb_next = l.wb }) ex wb reg (read l.rf reg)

    operand-bubble : (reg : ℕ) → l.ex.valid ≡ false → found executing reg ≡ read u.rf reg
    operand-bubble reg n =
        ap (λ x. found x reg) (executed-bubble l.ex (first I D l) (second I D l) n)
        ∙ resolve-retired l.rf l.wb wb ex_mem_bubble reg r.file r.file_written r.old_rd r.new_rd
            r.old_silent r.new_silent
        ∙ ap (λ rf. read rf reg) r.registers
        ∙ ap (λ s. read s.rf reg) (sym (executing-bubble n))

    operand-executing :
        (reg : ℕ)
        → l.ex.valid ≡ true
        → (is_load l.ex.op ≡ true → l.ex.rd ≢ 0 → reg ≢ l.ex.rd)
        → found executing reg ≡ read u.rf reg
    operand-executing reg v free =
        let (go, wb2, m2, a, mv) = executing-parts v in
        let eo = ex-op I D S view Holds code Guides l t h v in
        let er = ex-rd I D S view Holds code Guides l t h v in
        ap (λ x. found x reg) (executed-handed I D S view Holds code Guides l t h v)
        ∙ operand-behind S l.rf l.wb wb t l.ex.raw reg r.file r.file_written r.state_file r.old_rd
            r.new_rd r.old_silent r.new_silent r.registers go a (rw (eo, er) at free)
        ∙ ap {A = Arch S} (λ s. read s.rf reg) mv

    pub entering-operand :
        (reg : ℕ)
        → (l.ex.valid ≡ true → is_load l.ex.op ≡ true → l.ex.rd ≢ 0 → reg ≢ l.ex.rd)
        → found executing reg ≡ read u.rf reg
    entering-operand reg free = elim (Bool-cases l.ex.valid) [
      | inl v ↦ operand-executing reg v (free v)
      | inr n ↦ operand-bubble reg n
    ]

    -- Where the instruction in EX goes.
    pub follows-pc : l.ex.valid ≡ true → next_pc l.ex (first I D l) (second I D l) ≡ u.pc
    unfolding moved
    follows-pc v =
        let (go, wb2, m2, a, mv) = executing-parts v in
        ex-next_pc I D S view Holds code Guides l t h v ∙ ap {A = Arch S} (λ s. s.pc) mv
