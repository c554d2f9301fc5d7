-- ===== src/Refine/Step.antt =====
-- A step of the machine in terms of what EX and MEM make of the word.
use cpu_sim.Base.{
  ℕ, bit_and, ◌≡◌, refl, sym, ap, ◌∙◌, arith, true, false, Option, none, some, if◌then◌else◌, ◌>>=◌,
}
use mathlib.Core.Option
use cpu_sim.Isa.Op.{Op}
use cpu_sim.Isa.Decoder.{decode, branch_op, load_op, store_op, decode_op_imm, op_op, system_op}
use cpu_sim.Memory.Interface.{IMemory}
use cpu_sim.RegFile.{read}
use cpu_sim.Pipeline.Regs.{ExMem, MemWb}
use cpu_sim.Pipeline.Execute.{executed, next_pc}
use cpu_sim.Pipeline.MemAccess.{access, loaded, stored, passed, widen8, widen16}
use cpu_sim.Pipeline.Writeback.{has_writeback}
use cpu_sim.Pipeline.Hazard.{is_load}
use cpu_sim.Arch.{Arch, Effect, halts, put, carry_out, step}
use cpu_sim.Arch.Effects.{pipeline_effect, pipeline_effect-effect}
use cpu_sim.Refine.Claims.{plain}

-- An instruction that writes no register names none, unless it ends the program.
pub decode-silent :
    (w pc : ℕ)
    → halts (decode w pc).op ≡ false
    → has_writeback (decode w pc).op ≡ false
    → (decode w pc).rd ≡ 0
unfolding decode decode_op_imm branch_op load_op store_op op_op system_op halts has_writeback
decode-silent w pc h n = ground arith

-- What MEM leaves of the instruction.
pub record Kept (ex : ExMem) (wb : MemWb) : Type 0 where
  pub same_pc : wb.pc ≡ ex.pc
  pub same_raw : wb.raw ≡ ex.raw
  pub same_op : wb.op ≡ ex.op
  pub same_rd : wb.rd ≡ ex.rd
  pub is_valid : wb.valid ≡ true

module _ (S : IMemory) where
  abbrev done : MemWb → S.State → Option (MemWb × S.State)
  done x m = some (x, m)

  result-of : {x wb : MemWb} {m m' : S.State} → done x m ≡ done wb m' → wb.wb_val ≡ x.wb_val
  result-of g = ground (arith, g)

  result_is-Kept :
      {ex : ExMem} {x wb : MemWb} {m m' : S.State} → Kept ex x → done x m ≡ done wb m' → Kept ex wb
  result_is-Kept {x = x} {wb = wb} k g = let e : wb ≡ x = cc in rw e k

  loaded-Kept : (ex : ExMem) (v : ℕ) → Kept ex (loaded ex v)
  unfolding loaded passed
  loaded-Kept ex v = record {
    same_pc = refl;
    same_raw = refl;
    same_op = refl;
    same_rd = refl;
    is_valid = refl;
  }

  stored-Kept : (ex : ExMem) (v : ℕ) → Kept ex (stored ex v)
  unfolding stored passed
  stored-Kept ex v = record {
    same_pc = refl;
    same_raw = refl;
    same_op = refl;
    same_rd = refl;
    is_valid = refl;
  }

  passed-Kept : (ex : ExMem) (v : ℕ) → Kept ex (record (passed ex) { wb_val = v })
  unfolding passed
  passed-Kept ex v = record {
    same_pc = refl;
    same_raw = refl;
    same_op = refl;
    same_rd = refl;
    is_valid = refl;
  }

  load-Kept :
      (o : Option ℕ) (f : ℕ → MemWb) (m : S.State) {ex : ExMem} {m' : S.State} {wb : MemWb}
      → ((v : ℕ) → Kept ex (f v))
      → (o >>= λ v. done (f v) m) ≡ done wb m'
      → Kept ex wb
  load-Kept none f m k h = cc
  load-Kept (some v) f m k h = result_is-Kept (k v) h

  store-Kept :
      (o : Option S.State) {x wb : MemWb} {ex : ExMem} {m' : S.State}
      → Kept ex x
      → (o >>= λ m. done x m) ≡ done wb m'
      → Kept ex wb
  store-Kept none k h = cc
  store-Kept (some m) k h = result_is-Kept k h

  pub access-Kept :
      (op : Op) (ex : ExMem) (m : S.State) {wb : MemWb} {m' : S.State}
      → access S op ex m ≡ some (wb, m')
      → Kept ex wb
  unfolding access
  access-Kept Op.lb ex m h =
      load-Kept (S.load_byte m ex.alu_out) (λ v. loaded ex (widen8 v)) m
        (λ v. loaded-Kept ex (widen8 v)) h
  access-Kept Op.lh ex m h =
      load-Kept (S.load_half m ex.alu_out) (λ v. loaded ex (widen16 v)) m
        (λ v. loaded-Kept ex (widen16 v)) h
  access-Kept Op.lw ex m h = load-Kept (S.load_word m ex.alu_out) (loaded ex) m (loaded-Kept ex) h
  access-Kept Op.lbu ex m h = load-Kept (S.load_byte m ex.alu_out) (loaded ex) m (loaded-Kept ex) h
  access-Kept Op.lhu ex m h = load-Kept (S.load_half m ex.alu_out) (loaded ex) m (loaded-Kept ex) h
  access-Kept Op.sb ex m h =
      store-Kept (S.store_byte m ex.alu_out (bit_and ex.rs2_val 0xff))
        (stored-Kept ex (bit_and ex.rs2_val 0xff)) h
  access-Kept Op.sh ex m h =
      store-Kept (S.store_half m ex.alu_out (bit_and ex.rs2_val 0xffff))
        (stored-Kept ex (bit_and ex.rs2_val 0xffff)) h
  access-Kept Op.sw ex m h =
      store-Kept (S.store_word m ex.alu_out ex.rs2_val) (stored-Kept ex ex.rs2_val) h
  access-Kept op ex m h = result_is-Kept (passed-Kept ex ex.alu_out) h

  -- The result of an instruction that does not load.
  pub access-result :
      (op : Op) (ex : ExMem) (m : S.State) {wb : MemWb} {m' : S.State}
      → access S op ex m ≡ some (wb, m')
      → is_load op ≡ false
      → has_writeback op ≡ true
      → wb.wb_val ≡ ex.alu_out
  unfolding access is_load has_writeback passed
  access-result Op.lb ex m h l w = cc
  access-result Op.lh ex m h l w = cc
  access-result Op.lw ex m h l w = cc
  access-result Op.lbu ex m h l w = cc
  access-result Op.lhu ex m h l w = cc
  access-result Op.sb ex m h l w = cc
  access-result Op.sh ex m h l w = cc
  access-result Op.sw ex m h l w = cc
  access-result op ex m {wb} {m'} h l w = result-of h

  -- The values of the sources of a word.
  abbrev pub source_one : Arch S → ℕ → ℕ
  source_one s raw = read s.rf (decode raw s.pc).rs1

  abbrev pub source_two : Arch S → ℕ → ℕ
  source_two s raw = read s.rf (decode raw s.pc).rs2

  -- The state after the word, when MEM passes `r` on.
  unfoldable pub moved : Arch S → ℕ → MemWb × S.State → Arch S
  moved s raw r =
      let i = decode raw s.pc in
      record {
        pc = next_pc (plain raw s.pc) (source_one s raw) (source_two s raw);
        rf = put S s.rf i.rd (if has_writeback i.op then some r.0.wb_val else none);
        mem = r.1;
      }

  -- What EX hands on of the word.
  abbrev pub handed : Arch S → ℕ → ExMem
  handed s raw = executed (plain raw s.pc) (source_one s raw) (source_two s raw)

  map-then {ℓ κ} :
      {A : Type ℓ} {B : Type κ} (o : Option A) (g : A → B) (k : B → Arch S)
      → (Option.map g o >>= λ e. some (k e)) ≡ Option.map (λ a. k (g a)) o
  map-then none g k = refl
  map-then (some a) g k = refl

  pub step-moved :
      (code : ℕ → Option ℕ) (s : Arch S) (raw : ℕ)
      → code s.pc ≡ some raw
      → halts (decode raw s.pc).op ≡ false
      → step S code s
        ≡ Option.map (moved s raw) (access S (decode raw s.pc).op (handed s raw) s.mem)
  unfolding step carry_out moved plain pipeline_effect
  step-moved code s raw c h =
      let i = decode raw s.pc in
      let k : Effect S → Arch S =
        λ e. record { pc = e.next; rf = put S s.rf i.rd e.value; mem = e.mem } in
      rw (c, h)
        (ap (λ o. o >>= λ e. some (k e))
            (sym (
              pipeline_effect-effect S i.op (plain raw s.pc) (source_one s raw) (source_two s raw)
                s.mem))
          ∙ map-then (access S i.op (handed s raw) s.mem) _ k)

  -- A step, taken apart.
  pub step-parts :
      (code : ℕ → Option ℕ) (s : Arch S) (raw : ℕ) {t : Arch S}
      → code s.pc ≡ some raw
      → halts (decode raw s.pc).op ≡ false
      → step S code s ≡ some t
      → (wb : MemWb) × (m : S.State) × (access S (decode raw s.pc).op (handed s raw) s.mem
          ≡ done wb m)
        × (moved s raw (wb, m) ≡ t)
  step-parts code s raw {t} c h e =
      parts (access S (decode raw s.pc).op (handed s raw) s.mem)
        (sym (step-moved code s raw c h) ∙ e)
    where
      parts :
          (o : Option (MemWb × S.State))
          → Option.map (moved s raw) o ≡ some t
          → (wb : MemWb) × (m : S.State) × (o ≡ done wb m) × (moved s raw (wb, m) ≡ t)
      parts none g = cc
      parts (some (wb, m)) g = (wb, m, refl, cc)
