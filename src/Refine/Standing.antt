-- ===== src/Refine/Standing.antt =====
-- The state that a core stands for, and the one at which it has halted, from cycle to cycle.
use cpu_sim.Base.{
  and-right, ℕ, zero, suc, ◌≡◌, ◌⊎◌, inl, inr, refl, sym, ap, ◌∙◌, Bool, Bool-cases, true, false,
  Option, some, ◌%◌, ◌^◌, if◌then◌else◌, >>=-eq-some, ◌>>=◌,
}
use mathlib.Core.Path.{subst}
use cpu_sim.Isa.Decoder.{decode}
use cpu_sim.Memory.Interface.{IMemory}
use cpu_sim.Predictor.{BranchPredictor}
use cpu_sim.Sim.Core.{Core, HaltReason, is_ebreak, tick}
use cpu_sim.Sim.Core.Phases.{Cycle, tick-Cycle}
use cpu_sim.Arch.{Arch, halts, step, steps}
use cpu_sim.Arch.Refinement.{Implements}
use cpu_sim.Refine.Latched.{Latched, latched, IsQuiet, committed, stalled, advanced}
use cpu_sim.Refine.Claims.{IsCode, IsGuide, Represents, carries_on, ends}
use cpu_sim.Refine.Stalled.{stalled-Represents}
use cpu_sim.Refine.Memory.{Accesses, evaluate-Accesses}
use cpu_sim.Refine.Front.{Fetches, evaluate-Fetches}
use cpu_sim.Refine.Advance.{advance-Represents}
use cpu_sim.Refine.Counting.{counted, ended-instructions, passed-counted, retired-counted}
use cpu_sim.Refine.Tick.{Moves, cycle-Moves, cycle-IsQuiet, cycle-Ends}

pub step-first :
    (S : IMemory) (code : ℕ → Option ℕ) (k : ℕ) (s t : Arch S) {u : Arch S}
    → step S code s ≡ some t
    → steps S code k t ≡ some u
    → steps S code (suc k) s ≡ some u
unfolding steps
step-first S code zero s t e h = e ∙ h
step-first S code (suc k) s t e h =
    let (v, hv, st) = >>=-eq-some (steps S code k t) (step S code) h in
    ap (λ o. o >>= step S code) (step-first S code k s t e hv) ∙ st

module _ (I D S : IMemory) (code : ℕ → Option ℕ) where
  -- A core has halted at the instruction that the state stands at, with the state's registers.
  pub record Halts (c : Core I D) (s : Arch S) : Type 0 where
    pub has_halted : c.halted ≡ true
    pub registers : c.rf ≡ s.rf
    pub at_pc : c.halt_pc ≡ s.pc
    pub at_word : code s.pc ≡ some c.halt_raw
    pub at_end : halts (decode c.halt_raw s.pc).op ≡ true
    pub reason :
        c.halt_reason
        ≡ (if is_ebreak (decode c.halt_raw s.pc).op then HaltReason.ebreak else HaltReason.illegal)

module _ (I D S : IMemory) (view : D.State → S.State) (Holds : I.State → Type 0)
    (code : ℕ → Option ℕ) (Guides : Option BranchPredictor → Type 0) where
  -- A running core stands for a state.
  pub record Stands (c : Core I D) (s : Arch S) : Type 0 where
    pub running : c.halted ≡ false
    pub no_reason : c.halt_reason ≡ HaltReason.running
    pub quiet : IsQuiet I D c
    pub represents : Represents I D S view Holds code Guides (latched I D c) s

  module _ (impl : Implements D S view) (port : IsCode I Holds code)
      (guide : IsGuide code Guides) where
    module _ (c c' : Core I D) (s : Arch S) (b : Bool) (h : Stands c s) (t : Cycle I D c c' b) where
      cycle-rf : c'.rf ≡ committed I D (latched I D c)
      unfolding stalled advanced
      cycle-rf = elim (cycle-Moves c c' b h.quiet t) [
        | Moves.stood _ e ↦ ap {A = Latched I D} (λ l. l.rf) e
        | Moves.went _ e ↦ ap {A = Latched I D} (λ l. l.rf) e
      ]

      pub ended-Halts : ends c.mem_wb.reg ≡ true → Halts I D S code c' s
      ended-Halts e =
          let (at, pc, op) = h.represents.ended e in
          let x = cycle-Ends c c' b h.quiet t in
          let raw : c'.halt_raw ≡ c.mem_wb.reg.raw = x.halt_raw_eq ∙ rw e refl in
          let same : c.mem_wb.reg.op ≡ (decode c'.halt_raw s.pc).op =
            op ∙ ap (λ w. (decode w s.pc).op) (sym raw) in
          record {
            has_halted = x.halted_eq ∙ rw e refl;
            registers = cycle-rf ∙ h.represents.registers;
            at_pc = x.halt_pc_eq ∙ rw e pc;
            at_word = at ∙ ap some (sym raw);
            at_end = ap halts (sym same) ∙ and-right c.mem_wb.reg.valid (halts c.mem_wb.reg.op) e;
            reason =
                x.halt_reason_eq
                ∙ rw e
                    (ap (λ o. if is_ebreak o then HaltReason.ebreak else HaltReason.illegal) same);
          }

      went-on : ends c.mem_wb.reg ≡ false → c'.halted ≡ false
      went-on e = (cycle-Ends c c' b h.quiet t).halted_eq ∙ rw e h.running

      no-reason : ends c.mem_wb.reg ≡ false → c'.halt_reason ≡ HaltReason.running
      no-reason e = (cycle-Ends c c' b h.quiet t).halt_reason_eq ∙ rw e h.no_reason

      pub accesses : Accesses impl c.ex_mem.reg c.dmem t.accessed
      accesses = evaluate-Accesses impl c.dmem c.ex_mem c.mem_wb t.mem_eq

      waited-view :
          Accesses impl c.ex_mem.reg c.dmem t.accessed
          → t.accessed.stage.stalling ≡ true
          → view t.accessed.dmem ≡ view c.dmem
      waited-view (Accesses.waited _ _ e) w = e
      waited-view (Accesses.had_none n _ _ _) w = cc
      waited-view (Accesses.accessed n _ _) w = cc

      fetches : ends c.mem_wb.reg ≡ false → Fetches I D S view port guide c.fetch.pc t.fetched
      fetches e =
          evaluate-Fetches I D S view port guide c.bpred c.imem c.if_id c.fetch t.fetch_eq
            h.quiet.no_redirect h.represents.holds (h.represents.flows e).guided

      -- Where a cycle that does not halt the core leads; it makes the step of a valid instruction in
      -- MEM that is not the last one and does not wait.
      pub record Goes (u : Arch S) : Type 0 where
        pub same_or_next :
            ((u ≡ s) × (carries_on c'.mem_wb.reg ≡ false))
            ⊎ ((step S code s ≡ some u) × (carries_on c'.mem_wb.reg ≡ true))
        pub stands : Stands c' u
        pub steps_on :
            t.accessed.stage.stalling ≡ false
            → c.ex_mem.reg.valid ≡ true
            → halts c.ex_mem.reg.op ≡ false
            → step S code s ≡ some u

      pub going-Stands : ends c.mem_wb.reg ≡ false → (u : Arch S) × Goes u
      unfolding stalled advanced
      going-Stands e = elim (cycle-Moves c c' b h.quiet t) [
        | Moves.stood w k ↦ (
          s,
          record {
            same_or_next = inl (refl, ap {A = Latched I D} (λ l. carries_on l.wb) k);
            stands = record {
              running = went-on e;
              no_reason = no-reason e;
              quiet = cycle-IsQuiet c c' b h.quiet t;
              represents = rw k (
                  stalled-Represents impl.timing (latched I D c) s t.fetched.imem t.accessed.dmem
                    h.represents e (fetches e).holds (waited-view accesses w));
            };
            steps_on = λ r v n. cc;
          },
        )
        | Moves.went w k ↦
            let (u, st, rp, on) =
              advance-Represents I D S view Holds code Guides impl port guide (latched I D c) s
                h.represents e t.fetched (fetches e) t.accessed w accesses in
            (
              u,
              record {
                same_or_next =
                    subst
                      (λ w.
                        ((u ≡ s) × (carries_on w ≡ false))
                        ⊎ ((step S code s ≡ some u) × (carries_on w ≡ true)))
                      (sym (ap {A = Latched I D} (λ l. l.wb) k)) st;
                stands = record {
                  running = went-on e;
                  no_reason = no-reason e;
                  quiet = cycle-IsQuiet c c' b h.quiet t;
                  represents = rw k rp;
                };
                steps_on = λ _. on;
              },
            )
      ]

    -- A cycle halts the core at the state it stands for, or takes it to the same or the next state,
    -- and counts the instructions.
    pub tick-Stands :
        (n : ℕ) (c : Core I D) (s : Arch S) {b : Bool} {c' : Core I D}
        → Stands c s
        → counted c ≡ n % 2 ^ 64
        → tick I D c ≡ some (b, c')
        → (Halts I D S code c' s × (c'.stats.instructions ≡ suc n % 2 ^ 64))
          ⊎ ((u : Arch S) × Stands c' u
              × (((u ≡ s) × (counted c' ≡ n % 2 ^ 64))
                  ⊎ ((step S code s ≡ some u) × (counted c' ≡ suc n % 2 ^ 64))))
    tick-Stands n c s {b} {c'} h m e =
        let t = tick-Cycle I D c h.running e in
        elim (Bool-cases (ends c.mem_wb.reg)) [
          | inl x ↦ inl (ended-Halts c c' s b h t x, ended-instructions n c c' b t x m)
          | inr x ↦
              let (u, g) = going-Stands c c' s b h t x in
              inr (
                u,
                g.stands,
                elim g.same_or_next [
                  | inl (same, w) ↦ inl (same, passed-counted n c c' b t x m w)
                  | inr (st, w) ↦ inr (st, retired-counted n c c' b t x m w)
                ],
              )
        ]
