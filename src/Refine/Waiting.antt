-- ===== src/Refine/Waiting.antt =====
-- FETCH and MEM on ports that answer within a bound: while one of them waits, its wait gets shorter.
use cpu_sim.Base.{
  ℕ, bit_and, ◌<◌, ◌≡◌, ◌⊎◌, inl, inr, refl, arith, Bool, true, false, not, Option, none, some,
  ◌>>=◌, if-either, >>=-eq-some,
}
use mathlib.Core.Path.{subst}
use cpu_sim.Isa.Op.{Op}
use cpu_sim.Memory.Interface.{IMemory}
use cpu_sim.Memory.Prompt.{IsPrompt}
use cpu_sim.Predictor.{BranchPredictor}
use cpu_sim.Pipeline.Latch.{Latch, write}
use cpu_sim.Pipeline.Regs.{IfId, ExMem, MemWb}
use cpu_sim.Pipeline.Fetch.{FetchStage, Fetched}
use cpu_sim.Pipeline.Fetch
use cpu_sim.Pipeline.MemAccess.{
  Accessed, access, perform, idle, is_mem_op, is_store, loaded, stored, widen8, widen16,
}
use cpu_sim.Pipeline.MemAccess
use cpu_sim.Refine.Memory.{map-some}

module _ {M : IMemory} {Valid : M.State → Type 0} {left : M.State → ℕ} {bound : ℕ}
    (p : IsPrompt M Valid left bound) where
  -- A load leaves the port as it is, and a store is one of the port's.
  load-Valid :
      (o : Option ℕ) (f : ℕ → MemWb) (m : M.State) {r : MemWb × M.State}
      → Valid m
      → (o >>= λ v. some (f v, m)) ≡ some r
      → Valid r.1
  load-Valid none f m v h = cc
  load-Valid (some x) f m {r} v h = let e : m ≡ r.1 = cc in rw (← e) v

  store-Valid :
      (o : Option M.State) (wb : MemWb) {r : MemWb × M.State}
      → ((m : M.State) → o ≡ some m → Valid m)
      → (o >>= λ m. some (wb, m)) ≡ some r
      → Valid r.1
  store-Valid none wb v h = cc
  store-Valid (some m) wb {r} v h = let e : m ≡ r.1 = cc in rw (← e) (v m refl)

  access-Valid :
      (op : Op) (ex : ExMem) (m : M.State) {r : MemWb × M.State}
      → Valid m
      → access M op ex m ≡ some r
      → Valid r.1
  unfolding access
  access-Valid Op.lw ex m v h = load-Valid (M.load_word m ex.alu_out) (loaded ex) m v h
  access-Valid Op.lh ex m v h =
      load-Valid (M.load_half m ex.alu_out) (λ x. loaded ex (widen16 x)) m v h
  access-Valid Op.lhu ex m v h = load-Valid (M.load_half m ex.alu_out) (loaded ex) m v h
  access-Valid Op.lb ex m v h =
      load-Valid (M.load_byte m ex.alu_out) (λ x. loaded ex (widen8 x)) m v h
  access-Valid Op.lbu ex m v h = load-Valid (M.load_byte m ex.alu_out) (loaded ex) m v h
  access-Valid Op.sw ex m v h =
      store-Valid (M.store_word m ex.alu_out ex.rs2_val) (stored ex ex.rs2_val)
        (λ m' e. p.word_Valid m ex.alu_out ex.rs2_val v e) h
  access-Valid Op.sh ex m v h =
      let x = bit_and ex.rs2_val 0xffff in
      store-Valid (M.store_half m ex.alu_out x) (stored ex x)
        (λ m' e. p.half_Valid m ex.alu_out x v e) h
  access-Valid Op.sb ex m v h =
      let x = bit_and ex.rs2_val 0xff in
      store-Valid (M.store_byte m ex.alu_out x) (stored ex x)
        (λ m' e. p.byte_Valid m ex.alu_out x v e) h
  access-Valid _ ex m {r} v h = let e : m ≡ r.1 = cc in rw (← e) v

  -- What MEM leaves of the wait.
  pub record Waits (ex : ExMem) (m : M.State) (a : Accessed M) : Type 0 where
    pub valid : Valid a.dmem
    pub has_one : a.stage.stalling ≡ true → ex.valid ≡ true
    pub shorter : a.stage.stalling ≡ true → left (M.tick a.dmem) < left m

  performed-Waits :
      (ex : ExMem) (m0 m : M.State) (out : Latch MemWb) {a : Accessed M}
      → Valid m
      → perform M ex out m ≡ some a
      → Waits ex m0 a
  unfolding perform
  performed-Waits ex m0 m out {a} v h =
      let made : MemWb × M.State → Accessed M =
        λ r. record { dmem = r.1; out = write r.0 out; stage = record { stalling = false } } in
      let (r, e, g) = map-some made (access M ex.op ex m) h in
      rw (← g)
        (record { valid = access-Valid ex.op ex m v e; has_one = λ s. cc; shorter = λ s. cc })

  idle-Waits :
      (ex : ExMem) (m0 m : M.State) (out : Latch MemWb) (b : Bool) {a : Accessed M}
      → Valid m
      → (b ≡ true → ex.valid ≡ true)
      → (b ≡ true → left (M.tick m) < left m0)
      → some (idle M out b m) ≡ some a
      → Waits ex m0 a
  unfolding idle
  idle-Waits ex m0 m out b {a} v one less h =
      let e : idle M out b m ≡ a = cc in
      rw (← e) (record { valid = v; has_one = one; shorter = less })

  pub access-Waits :
      (m : M.State) (input : Latch ExMem) (out : Latch MemWb) {a : Accessed M}
      → Valid m
      → MemAccess.evaluate M m input out ≡ some a
      → Waits input.reg m a
  unfolding MemAccess.evaluate
  access-Waits m input out {a} v h =
      let ex = input.reg in
      elim (if-either (not ex.valid) h) [
        | inl (b, g) ↦ idle-Waits ex m m out false v (λ e. cc) (λ e. cc) g
        | inr (b, g) ↦ elim (if-either (is_mem_op ex.op) g) [
          | inl (c, f) ↦
              let w = is_store ex.op in
              let asked = M.ready m ex.alu_out w in
              let v' = p.ready_Valid m ex.alu_out w v in
              elim (if-either asked.0 f) [
                | inl (d, k) ↦ performed-Waits ex m asked.1 out v' k
                | inr (d, k) ↦
                    idle-Waits ex m asked.1 out true v' (λ _. ground (arith, b))
                      (λ _. p.waits m ex.alu_out w v d) k
              ]
          | inr (c, f) ↦ performed-Waits ex m m out v f
        ]
      ]

  -- What FETCH leaves of the wait: a word, or a shorter one.
  pub record Brings (m : M.State) (g : Fetched M) : Type 0 where
    pub valid : Valid g.imem
    pub word_or_shorter : (g.out.shadow.valid ≡ true) ⊎ (left (M.tick g.imem) < left m)

  pub fetch-Brings :
      (bp : Option BranchPredictor) (m : M.State) (out : Latch IfId) (f : FetchStage)
      {g : Fetched M}
      → Valid m
      → Fetch.evaluate M bp m out f ≡ some g
      → Brings m g
  unfolding Fetch.evaluate Fetch.fetched
  fetch-Brings bp m out f {g} v h =
      let asked = M.ready m f.pc false in
      let v' = p.ready_Valid m f.pc false v in
      elim (if-either asked.0 h) [
        | inl (b, k) ↦
            let (raw, w, e) = >>=-eq-some (M.load_word asked.1 f.pc) _ k in
            record {
              valid = subst Valid (ground (arith, e)) v';
              word_or_shorter = inl (ground (arith, e));
            }
        | inr (b, k) ↦
            let less = p.waits m f.pc false v b in
            record {
              valid = subst Valid (ground (arith, k)) v';
              word_or_shorter =
                  inr (subst (λ x. left (M.tick x) < left m) (ground (arith, k)) less);
            }
      ]
