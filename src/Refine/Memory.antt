-- ===== src/Refine/Memory.antt =====
-- MEM on a port that implements a memory: it waits, or makes the access of that memory.
use cpu_sim.Base.{
  ◌≡◌, inl, inr, refl, sym, ap, ◌∙◌, arith, true, false, not, Option, none, some, if-either,
}
use mathlib.Core.Option
use cpu_sim.Memory.Interface.{IMemory}
use cpu_sim.Pipeline.Latch.{Latch, write}
use cpu_sim.Pipeline.Regs.{ExMem, MemWb, mem_wb_bubble}
use cpu_sim.Pipeline.MemAccess.{access, perform, idle, evaluate, is_mem_op, is_store, Accessed}
use cpu_sim.Arch.Refinement.{Implements, seen, access-view}

pub map-some {ℓ κ} :
    {A : Type ℓ} {B : Type κ} (g : A → B) (o : Option A) {b : B}
    → Option.map g o ≡ some b
    → (a : A) × (o ≡ some a) × (g a ≡ b)
map-some g none h = cc
map-some g (some a) h = (a, refl, cc)

module _ {D S : IMemory} {view : D.State → S.State} (impl : Implements D S view) where
  -- What MEM did in a cycle.
  pub data Accesses (ex : ExMem) (m : D.State) (a : Accessed D) : Type 0 where
    waited :
        a.stage.stalling ≡ true
        → a.out.shadow ≡ mem_wb_bubble
        → view a.dmem ≡ view m
        → Accesses ex m a
    had_none :
        a.stage.stalling ≡ false
        → ex.valid ≡ false
        → a.out.shadow ≡ mem_wb_bubble
        → view a.dmem ≡ view m
        → Accesses ex m a
    accessed :
        a.stage.stalling ≡ false
        → ex.valid ≡ true
        → access S ex.op ex (view m) ≡ some (a.out.shadow, view a.dmem)
        → Accesses ex m a

  perform-Accesses :
      (ex : ExMem) (m0 m : D.State) (out : Latch MemWb) {a : Accessed D}
      → ex.valid ≡ true
      → view m ≡ view m0
      → perform D ex out m ≡ some a
      → Accesses ex m0 a
  unfolding perform
  perform-Accesses ex m0 m out {a} v e h =
      let made : MemWb × D.State → Accessed D =
        λ r. record { dmem = r.1; out = write r.0 out; stage = record { stalling = false } } in
      let (r, p, g) = map-some made (access D ex.op ex m) h in
      Accesses.accessed (ap (λ a. a.stage.stalling) (sym g)) v (
        ap (access S ex.op ex) (sym e)
        ∙ sym (access-view impl ex.op ex m)
        ∙ ap (Option.map (seen impl)) p
        ∙ ap {A = Accessed D} (λ a. some (a.out.shadow, view a.dmem)) g)

  had_none-Accesses :
      (ex : ExMem) (m : D.State) (out : Latch MemWb) {a : Accessed D}
      → ex.valid ≡ false
      → some (idle D out false m) ≡ some a
      → Accesses ex m a
  unfolding idle
  had_none-Accesses ex m out {a} v h =
      let e : idle D out false m ≡ a = cc in rw (← e) (Accesses.had_none refl v refl refl)

  waited-Accesses :
      (ex : ExMem) (m0 m : D.State) (out : Latch MemWb) {a : Accessed D}
      → view m ≡ view m0
      → some (idle D out true m) ≡ some a
      → Accesses ex m0 a
  unfolding idle
  waited-Accesses ex m0 m out {a} v h =
      let e : idle D out true m ≡ a = cc in rw (← e) (Accesses.waited refl refl v)

  pub evaluate-Accesses :
      (m : D.State) (input : Latch ExMem) (out : Latch MemWb) {a : Accessed D}
      → evaluate D m input out ≡ some a
      → Accesses input.reg m a
  unfolding evaluate
  evaluate-Accesses m input out {a} h =
      let ex = input.reg in
      elim (if-either (not ex.valid) h) [
        | inl (b, g) ↦ had_none-Accesses ex m out (ground (arith, b)) g
        | inr (b, g) ↦ elim (if-either (is_mem_op ex.op) g) [
          | inl (c, f) ↦
              let asked = D.ready m ex.alu_out (is_store ex.op) in
              elim (if-either asked.0 f) [
                | inl (d, k) ↦
                    perform-Accesses ex m asked.1 out (ground (arith, b))
                      (impl.timing.ready_keeps m ex.alu_out (is_store ex.op)) k
                | inr (d, k) ↦
                    waited-Accesses ex m asked.1 out
                      (impl.timing.ready_keeps m ex.alu_out (is_store ex.op)) k
              ]
          | inr (c, f) ↦ perform-Accesses ex m m out (ground (arith, b)) refl f
        ]
      ]
