-- ===== src/Sim/Core/Commit.antt =====
-- The second phase of a cycle with the tests of `tick` moved into the fields that they decide.
use cpu_sim.Base.{Bool, true, false, ◌&&◌, ◌||◌, ◌≡◌, refl, ap, ◌∙◌, if◌then◌else◌}
use mathlib.Core.Option
use cpu_sim.Base.{◌∷◌, Bool-cases, inl, inr}
use cpu_sim.Memory.Interface.{IMemory}
use cpu_sim.Pipeline.Regs.{IdEx}
use cpu_sim.Sim.Stats.{increment}
use cpu_sim.Sim.Core.{
  Core, HaltReason, is_ebreak, is_illegal, record_trace, detect_halt, count_instruction,
}
use cpu_sim.Sim.Core.{capture_ex_operands, latch_stalled, latch_all, count_cycle, commit, captured}

module _ {I D : IMemory} where
  -- Whether the instruction in WB ends the program.
  unfoldable pub stops : Core I D → Bool
  stops c = c.mem_wb.reg.valid && (is_ebreak c.mem_wb.reg.op || is_illegal c.mem_wb.reg.op)

  unfoldable pub observed : Core I D → Core I D
  observed c = record c {
    tracer = Option.map (λ t. (c.mem_wb.reg, c.stats.cycles) ∷ t) c.tracer;
    halted = if stops c then true else c.halted;
    halt_reason =
        if stops c
        then (if is_ebreak c.mem_wb.reg.op then HaltReason.ebreak else HaltReason.illegal)
        else c.halt_reason;
    halt_pc = if stops c then c.mem_wb.reg.pc else c.halt_pc;
    halt_raw = if stops c then c.mem_wb.reg.raw else c.halt_raw;
    stats = record (c.stats) {
      instructions =
          if c.mem_wb.reg.valid then increment c.stats.instructions else c.stats.instructions;
    };
  }

  detected :
      (c : Core I D) (b e : Bool)
      → (if b
          then record c {
            halted = true;
            halt_reason = if e then HaltReason.ebreak else HaltReason.illegal;
            halt_pc = c.mem_wb.reg.pc;
            halt_raw = c.mem_wb.reg.raw;
          }
          else c)
        ≡ record c {
          halted = if b then true else c.halted;
          halt_reason =
              if b then (if e then HaltReason.ebreak else HaltReason.illegal) else c.halt_reason;
          halt_pc = if b then c.mem_wb.reg.pc else c.halt_pc;
          halt_raw = if b then c.mem_wb.reg.raw else c.halt_raw;
        }
  detected c true e = refl
  detected c false e = refl

  counted :
      (c : Core I D) (b : Bool)
      → (if b
          then record c {
            stats = record (c.stats) { instructions = increment c.stats.instructions };
          }
          else c)
        ≡ record c {
          stats = record (c.stats) {
            instructions = if b then increment c.stats.instructions else c.stats.instructions;
          };
        }
  counted c true = refl
  counted c false = refl

  observe :
      (c : Core I D) → count_instruction I D (detect_halt I D (record_trace I D c)) ≡ observed c
  unfolding count_instruction detect_halt record_trace observed stops
  observe c =
      ap (count_instruction I D)
        (detected (record_trace I D c) (stops c) (is_ebreak c.mem_wb.reg.op))
      ∙ counted _ c.mem_wb.reg.valid

  -- The operands of a valid instruction in EX are captured.
  unfoldable pub capture : Core I D → Core I D
  capture c = record c {
    id_ex = record {
      reg =
          if c.id_ex.reg.valid
          then captured I D c.fwd c.ex_mem.reg c.mem_wb.reg c.id_ex.reg
          else c.id_ex.reg;
      shadow =
          if c.id_ex.reg.valid
          then captured I D c.fwd c.ex_mem.reg c.mem_wb.reg c.id_ex.reg
          else c.id_ex.shadow;
    };
  }

  capture_if :
      (c : Core I D) (b : Bool) (id : IdEx)
      → (if b then record c { id_ex = record { reg = id; shadow = id } } else c) ≡ record c {
        id_ex = record {
          reg = if b then id else c.id_ex.reg;
          shadow = if b then id else c.id_ex.shadow;
        };
      }
  capture_if c true id = refl
  capture_if c false id = refl

  capture_lem : (c : Core I D) → capture_ex_operands I D c ≡ capture c
  unfolding capture_ex_operands capture
  capture_lem c = capture_if c c.id_ex.reg.valid _

  -- The latches of a cycle, chosen by whether MEM waits.
  abbrev finish : Bool → Core I D → Core I D
  finish waits c =
      count_cycle I D
        (if waits then latch_stalled I D (capture_ex_operands I D c) else latch_all I D c)

  commit_lem : (c : Core I D) → commit I D c ≡ finish c.mem.stalling (observed c)
  unfolding commit
  commit_lem c = ap (finish c.mem.stalling) (observe c)

  pub commit-stalled :
      (c : Core I D)
      → c.mem.stalling ≡ true
      → commit I D c ≡ count_cycle I D (latch_stalled I D (capture (observed c)))
  commit-stalled c s =
      commit_lem c
      ∙ ap (λ b. finish b (observed c)) s
      ∙ ap (λ d. count_cycle I D (latch_stalled I D d)) (capture_lem (observed c))

  pub commit-advances :
      (c : Core I D)
      → c.mem.stalling ≡ false
      → commit I D c ≡ count_cycle I D (latch_all I D (observed c))
  commit-advances c s = commit_lem c ∙ ap (λ b. finish b (observed c)) s

  -- What MEM said of its wait is still there after the cycle.
  pub commit-mem : (c : Core I D) → (commit I D c).mem ≡ c.mem
  unfolding observed capture latch_stalled latch_all count_cycle
  commit-mem c = elim (Bool-cases c.mem.stalling) [
    | inl s ↦ ap (λ d. d.mem) (commit-stalled c s)
    | inr s ↦ ap (λ d. d.mem) (commit-advances c s)
  ]
