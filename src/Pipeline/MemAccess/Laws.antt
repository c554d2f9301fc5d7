-- ===== src/Pipeline/MemAccess/Laws.antt =====
-- What the memory stage leaves for WB.
use cpu_sim.Base.{Bool, true, false, not, ◌≡◌, inl, inr, some, sym, ap, if-either}
use mathlib.Core.Option
use cpu_sim.Memory.Interface.{IMemory}
use cpu_sim.Pipeline.Latch.{Latch}
use cpu_sim.Pipeline.Regs.{MemWb, ExMem, mem_wb_bubble}
use cpu_sim.Pipeline.MemAccess.{Accessed, is_mem_op, is_store, evaluate, perform, idle, access}

module _ {M : IMemory} where
  -- WB still sees what it saw, and while MEM waits a bubble follows it.
  pub record IsHeld (out : Latch MemWb) (a : Accessed M) : Type 0 where
    pub kept : a.out.reg ≡ out.reg
    pub bubble : a.stage.stalling ≡ true → a.out.shadow ≡ mem_wb_bubble

  perform-IsHeld :
      (ex : ExMem) (out : Latch MemWb) (m : M.State) {a : Accessed M}
      → perform M ex out m ≡ some a
      → IsHeld out a
  unfolding perform
  perform-IsHeld ex out m h =
      let (r, r_eq, e) = (Option.map-eq-some_iff _ (access M ex.op ex m)).0 h in
      record { kept = ap (λ x. x.out.reg) (sym e); bubble = λ s. cc }

  idle-IsHeld :
      (out : Latch MemWb) (w : Bool) (m : M.State) {a : Accessed M}
      → some (idle M out w m) ≡ some a
      → IsHeld out a
  unfolding idle
  idle-IsHeld out w m h =
      let e = Option.some-injective _ _ h in
      record { kept = ap (λ x. x.out.reg) (sym e); bubble = λ s. ap (λ x. x.out.shadow) (sym e) }

  pub evaluate-IsHeld :
      (dmem : M.State) (input : Latch ExMem) (out : Latch MemWb) {a : Accessed M}
      → evaluate M dmem input out ≡ some a
      → IsHeld out a
  unfolding evaluate
  evaluate-IsHeld dmem input out h =
      let ex = input.reg in
      let asked = M.ready dmem ex.alu_out (is_store ex.op) in
      elim (if-either (not ex.valid) h) [
        | inl (_, e) ↦ idle-IsHeld out false dmem e
        | inr (_, e) ↦ elim (if-either (is_mem_op ex.op) e) [
          | inl (_, s) ↦ elim (if-either (asked.0) s) [
            | inl (_, p) ↦ perform-IsHeld ex out asked.1 p
            | inr (_, w) ↦ idle-IsHeld out true asked.1 w
          ]
          | inr (_, p) ↦ perform-IsHeld ex out dmem p
        ]
      ]
