-- ===== src/Refine/Advance.antt =====
-- A cycle in which MEM does not wait takes the core on to the state behind the instruction in MEM.
use cpu_sim.Base.{
  ℕ, ◌<◌, ◌≡◌, ◌⊎◌, inl, inr, refl, sym, ap, ◌∙◌, arith, Bool-cases, true, false, Option, some,
}
use mathlib.Core.Option
use cpu_sim.Isa.Op.{Op}
use cpu_sim.Isa.Decoder.{decode}
use cpu_sim.Memory.Interface.{IMemory}
use cpu_sim.RegFile.{RegFile, num_regs}
use cpu_sim.Predictor.{BranchPredictor}
use cpu_sim.Pipeline.Regs.{ExMem, MemWb, mem_wb_bubble}
use cpu_sim.Pipeline.MemAccess.{access, Accessed}
use cpu_sim.Pipeline.Fetch.{Fetched}
use cpu_sim.Pipeline.Writeback.{has_writeback}
use cpu_sim.Pipeline.Execute.{executed}
use cpu_sim.Arch.{Arch, halts, step}
use cpu_sim.Arch.Refinement.{Implements}
use cpu_sim.Refine.Latched.{Latched, first, second, committed, advanced, next_fetch}
use cpu_sim.Refine.Claims.{
  IsCode, IsGuide, IsShaped, InEx, Flows, Represents, carries_on, ends, plain,
}
use cpu_sim.Refine.Stalled.{write-IsShaped, committed-IsShaped}
use cpu_sim.Refine.Step.{Kept, handed, moved, step-moved, access-Kept, decode-silent}
use cpu_sim.Refine.Memory.{Accesses}
use cpu_sim.Refine.Front.{Fetches}
use cpu_sim.Refine.Operands.{retired, committed-retired, decode-rd_lt}
use cpu_sim.Refine.Executing.{executed-InMem, trained-Guides}
use cpu_sim.Refine.Entering.{Settled, executed-Follows}
use cpu_sim.Refine.Decoding.{advanced-InEx}

halts-silent : (op : Op) → halts op ≡ true → has_writeback op ≡ false
unfolding halts has_writeback
halts-silent Op.ebreak h = refl
halts-silent Op.illegal h = refl
halts-silent _ h = cc

retired-IsShaped :
    (wb : MemWb) {rf : RegFile} → IsShaped rf → wb.rd < num_regs → IsShaped (retired wb rf)
unfolding retired
retired-IsShaped wb h b = ground (arith, write-IsShaped wb.rd wb.wb_val h b, h)

retired-silent : (wb : MemWb) (rf : RegFile) → has_writeback wb.op ≡ false → retired wb rf ≡ rf
unfolding retired
retired-silent wb rf h = ground (arith, h)

module _ (I D S : IMemory) (view : D.State → S.State) (Holds : I.State → Type 0)
    (code : ℕ → Option ℕ) (Guides : Option BranchPredictor → Type 0) (impl : Implements D S view)
    (port : IsCode I Holds code) (guide : IsGuide code Guides) where
  module _ (l : Latched I D) (s : Arch S) (rep : Represents I D S view Holds code Guides l s)
      (go : ends l.wb ≡ false) (g : Fetched I)
      (fetches : Fetches I D S view port guide l.pc g) where
    -- The cycle, with what MEM hands on.
    abbrev after : D.State → MemWb → Latched I D
    after dmem wb = advanced I D l g.imem dmem wb g.out.shadow (next_fetch I D g.stage)

    written : retired l.wb l.rf ≡ s.rf
    written = sym (committed-retired l) ∙ rep.registers

    after-registers :
        (dmem : D.State) (wb : MemWb) {rf : RegFile}
        → retired wb s.rf ≡ rf
        → committed I D (after dmem wb) ≡ rf
    unfolding advanced
    after-registers dmem wb e =
        committed-retired (after dmem wb) ∙ ap (retired wb) rep.registers ∙ e

    after-Settled :
        (wb : MemWb) (t : Arch S)
        → wb.rd < num_regs
        → (wb.valid ≡ true → has_writeback wb.op ≡ false → wb.rd ≡ 0)
        → retired wb s.rf ≡ t.rf
        → Settled I D S view Holds code Guides l wb t
    after-Settled wb t b silent e =
        let w = retired-IsShaped l.wb rep.shape rep.wb_index in
        let r = ap (retired wb) written ∙ e in
        record {
          file = rep.shape;
          file_written = w;
          state_file = rw (← r) (retired-IsShaped wb w b);
          old_rd = rep.wb_index;
          new_rd = b;
          old_silent = (rep.flows go).silent;
          new_silent = silent;
          registers = r;
        }

    after-Flows :
        (dmem : D.State) (wb : MemWb) (t : Arch S)
        → view dmem ≡ t.mem
        → InEx I D S view Holds code Guides l t
        → Settled I D S view Holds code Guides l wb t
        → Flows I D S view Holds code Guides (after dmem wb) t
    unfolding advanced
    after-Flows dmem wb t m x settled = record {
      memory = impl.timing.tick_keeps dmem ∙ m;
      guided = trained-Guides I D S view Holds code Guides l t guide x (rep.flows go).guided;
      silent = settled.new_silent;
      in_mem = executed-InMem I D S view Holds code Guides l t x;
      in_ex = λ u f.
          advanced-InEx I D S view Holds code Guides l wb t u x settled
            (executed-Follows I D S view Holds code Guides l.ex (first I D l) (second I D l) t u f)
            g.imem dmem g.out.shadow (next_fetch I D g.stage) fetches.in_front;
    }

    after-Represents :
        (dmem : D.State) (wb : MemWb) (t : Arch S)
        → retired wb s.rf ≡ t.rf
        → wb.rd < num_regs
        → (ends wb ≡ true
            → (code t.pc ≡ some wb.raw) × (wb.pc ≡ t.pc) × (wb.op ≡ (decode wb.raw t.pc).op))
        → (ends wb ≡ false → Flows I D S view Holds code Guides (after dmem wb) t)
        → Represents I D S view Holds code Guides (after dmem wb) t
    unfolding advanced
    after-Represents dmem wb t e b ended flows = record {
      holds = port.tick_Holds g.imem fetches.holds;
      shape = committed-IsShaped l rep.shape rep.wb_index;
      registers = after-registers dmem wb e;
      wb_index = b;
      ended = ended;
      flows = flows;
    }

    -- MEM holds a bubble.
    bubble-Represents :
        (dmem : D.State)
        → l.mem.valid ≡ false
        → view dmem ≡ view l.dmem
        → Represents I D S view Holds code Guides (after dmem mem_wb_bubble) s
    unfolding retired
    bubble-Represents dmem n e =
        after-Represents dmem mem_wb_bubble s refl (omega arith) (λ p. cc) (λ _. bubble-Flows)
      where
        bubble-Flows : Flows I D S view Holds code Guides (after dmem mem_wb_bubble) s
        bubble-Flows =
            after-Flows dmem mem_wb_bubble s (e ∙ (rep.flows go).memory)
              ((rep.flows go).in_ex s (inl (n, refl)))
              (after-Settled mem_wb_bubble s (omega arith) (λ v _. refl) refl)

    module _ (v : l.mem.valid ≡ true) (wb : MemWb) (m : S.State)
        (acc : access S l.mem.op l.mem (view l.dmem) ≡ some (wb, m)) where
      abbrev raw : ℕ
      raw = l.mem.raw

      mem-handed : l.mem ≡ handed S s raw
      mem-handed = (rep.flows go).in_mem.mem_eq v

      mem-op : l.mem.op ≡ (decode raw s.pc).op
      unfolding executed plain
      mem-op = ap {A = ExMem} (λ x. x.op) mem-handed

      -- MEM makes the access of the state's instruction.
      state-access : access S (decode raw s.pc).op (handed S s raw) s.mem ≡ some (wb, m)
      unfolding executed plain
      state-access =
          ap {A = ExMem} (λ x. access S x.op x s.mem) (sym mem-handed)
          ∙ ap (access S l.mem.op l.mem) (sym ((rep.flows go).memory))
          ∙ acc

      kept : Kept (handed S s raw) wb
      kept = access-Kept S (decode raw s.pc).op (handed S s raw) s.mem state-access

      kept-rd : wb.rd < num_regs
      unfolding executed plain
      kept-rd = omega (arith, kept.same_rd, decode-rd_lt raw s.pc)

      kept-op : wb.op ≡ (decode raw s.pc).op
      unfolding executed plain
      kept-op = kept.same_op

      kept-raw : wb.raw ≡ raw
      unfolding executed plain
      kept-raw = kept.same_raw

      kept-pc : wb.pc ≡ s.pc
      unfolding executed plain
      kept-pc = kept.same_pc

      kept-rd_eq : wb.rd ≡ (decode raw s.pc).rd
      unfolding executed plain
      kept-rd_eq = kept.same_rd

      ends-not : ends wb ≡ false → halts wb.op ≡ true → ⊥
      ends-not p e = ground (arith, kept.is_valid)

      not_ends : ends wb ≡ true → halts wb.op ≡ false → ⊥
      not_ends p e = ground (arith, kept.is_valid)

      not-carries_on : halts l.mem.op ≡ true → carries_on wb ≡ false
      not-carries_on e = ground (arith, ap halts kept-op, ap halts mem-op)

      does-carry_on : halts l.mem.op ≡ false → carries_on wb ≡ true
      does-carry_on e = ground (arith, kept.is_valid, ap halts kept-op, ap halts mem-op)

      stepped-registers : retired wb s.rf ≡ (moved S s raw (wb, m)).rf
      unfolding retired moved
      stepped-registers = ground (arith, kept-op, kept-rd_eq, kept.is_valid)

      moved-mem : m ≡ (moved S s raw (wb, m)).mem
      unfolding moved
      moved-mem = refl

      -- The instruction in MEM ends the program.
      ending-Represents :
          (dmem : D.State)
          → halts l.mem.op ≡ true
          → Represents I D S view Holds code Guides (after dmem wb) s
      ending-Represents dmem e =
          let quiet =
            ap has_writeback kept-op
            ∙ halts-silent (decode raw s.pc).op (ap halts (sym mem-op) ∙ e) in
          after-Represents dmem wb s (retired-silent wb s.rf quiet) kept-rd
            (λ _. (
              (rep.flows go).in_mem.mem_code v ∙ ap some (sym kept-raw),
              kept-pc,
              kept-op ∙ ap (λ w. (decode w s.pc).op) (sym kept-raw),
            ))
            (λ p. absurd (ends-not p (ap halts kept-op ∙ ap halts (sym mem-op) ∙ e)))

      -- It is a step of the machine.
      stepping-Represents :
          (dmem : D.State)
          → halts l.mem.op ≡ false
          → view dmem ≡ m
          → (step S code s ≡ some (moved S s raw (wb, m)))
            × Represents I D S view Holds code Guides (after dmem wb) (moved S s raw (wb, m))
      stepping-Represents dmem e vm =
          let n : halts (decode raw s.pc).op ≡ false = ap halts (sym mem-op) ∙ e in
          let c = (rep.flows go).in_mem.mem_code v in
          let t = moved S s raw (wb, m) in
          let st : step S code s ≡ some t =
            step-moved S code s raw c n ∙ ap (Option.map (moved S s raw)) state-access in
          (
            st,
            after-Represents dmem wb t stepped-registers kept-rd
                (λ p. absurd (not_ends p (ap halts kept-op ∙ n)))
                (λ _.
                  after-Flows dmem wb t (vm ∙ moved-mem) ((rep.flows go).in_ex t (inr (v, e, st))) (
                    after-Settled wb t kept-rd
                      (λ _ w.
                        kept-rd_eq ∙ decode-silent raw s.pc n (ap has_writeback (sym kept-op) ∙ w))
                      stepped-registers)),
          )

    -- A cycle, when MEM does not wait: the core stands for the same state or for the next one.
    pub advance-Represents :
        (a : Accessed D)
        → a.stage.stalling ≡ false
        → Accesses impl l.mem l.dmem a
        → (t : Arch S) × (((t ≡ s) × (carries_on a.out.shadow ≡ false))
            ⊎ ((step S code s ≡ some t) × (carries_on a.out.shadow ≡ true)))
          × Represents I D S view Holds code Guides (after a.dmem a.out.shadow) t
          × (l.mem.valid ≡ true → halts l.mem.op ≡ false → step S code s ≡ some t)
    advance-Represents a r (Accesses.waited w _ _) = cc
    advance-Represents a r (Accesses.had_none _ n b e) =
        (s, inl (refl, ap carries_on b), rw b (bubble-Represents a.dmem n e), λ v h. cc)
    advance-Represents a r (Accesses.accessed _ v acc) = elim (Bool-cases (halts l.mem.op)) [
      | inl e ↦ (
        s,
        inl (refl, not-carries_on v a.out.shadow (view a.dmem) acc e),
        ending-Represents v a.out.shadow (view a.dmem) acc a.dmem e,
        λ v h. cc,
      )
      | inr e ↦
          let (st, rp) = stepping-Represents v a.out.shadow (view a.dmem) acc a.dmem e refl in
          (
            moved S s l.mem.raw (a.out.shadow, view a.dmem),
            inr (st, does-carry_on v a.out.shadow (view a.dmem) acc e),
            rp,
            λ _ _. st,
          )
    ]
