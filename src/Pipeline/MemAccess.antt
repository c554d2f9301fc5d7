-- ===== src/Pipeline/MemAccess.antt =====
-- `MemAccessStage` of src/uarch/pipeline/mem_access.cpp.
pub mod Laws
use cpu_sim.Base.{ℕ, ◌+◌, ◌-◌, ◌^◌, Bool, true, false, not, Option, some, bit_and}
use cpu_sim.Base.{if◌then◌else◌, ltb, ◌>>=◌}
use mathlib.Core.Option
use cpu_sim.Isa.Op.{Op}
use cpu_sim.Memory.Interface.{IMemory}
use cpu_sim.Pipeline.Latch.{Latch, write, latch}
use cpu_sim.Pipeline.Regs.{ExMem, MemWb, mem_wb_bubble}

pub record MemAccessStage : Type 0 where
  pub stalling : Bool

abbrev pub create : MemAccessStage
create = record { stalling = false }

unfoldable pub is_store : Op → Bool
is_store Op.sb = true
is_store Op.sh = true
is_store Op.sw = true
is_store _ = false

unfoldable pub is_mem_op : Op → Bool
unfolding is_store
is_mem_op Op.lb = true
is_mem_op Op.lh = true
is_mem_op Op.lw = true
is_mem_op Op.lbu = true
is_mem_op Op.lhu = true
is_mem_op op = is_store op

-- `int16_t` and `int8_t` widened to 32 bits.
abbrev pub widen16 : ℕ → ℕ
widen16 h = if ltb h (2 ^ 15) then h else h + 2 ^ 32 - 2 ^ 16

abbrev pub widen8 : ℕ → ℕ
widen8 b = if ltb b (2 ^ 7) then b else b + 2 ^ 32 - 2 ^ 8

-- The `wb` of an instruction before the access.
unfoldable pub passed : ExMem → MemWb
passed ex = record {
  pc = ex.pc;
  raw = ex.raw;
  op = ex.op;
  rd = ex.rd;
  wb_val = 0;
  mem_addr = 0;
  mem_val = 0;
  is_store = false;
  valid = true;
}

unfoldable pub loaded : ExMem → ℕ → MemWb
unfolding passed
loaded ex v = record (passed ex) { wb_val = v; mem_addr = ex.alu_out }

unfoldable pub stored : ExMem → ℕ → MemWb
unfolding passed
stored ex v = record (passed ex) { is_store = true; mem_addr = ex.alu_out; mem_val = v }

module _ (M : IMemory) where
  -- The `switch`: the access itself.
  unfoldable pub access : Op → ExMem → M.State → Option (MemWb × M.State)
  unfolding loaded stored passed
  access Op.lw ex m = M.load_word m ex.alu_out >>= λ v. some (loaded ex v, m)
  access Op.lh ex m = M.load_half m ex.alu_out >>= λ v. some (loaded ex (widen16 v), m)
  access Op.lhu ex m = M.load_half m ex.alu_out >>= λ v. some (loaded ex v, m)
  access Op.lb ex m = M.load_byte m ex.alu_out >>= λ v. some (loaded ex (widen8 v), m)
  access Op.lbu ex m = M.load_byte m ex.alu_out >>= λ v. some (loaded ex v, m)
  access Op.sw ex m = M.store_word m ex.alu_out ex.rs2_val >>= λ m'. some (stored ex ex.rs2_val, m')
  access Op.sh ex m =
      let v = bit_and ex.rs2_val 0xffff in
      M.store_half m ex.alu_out v >>= λ m'. some (stored ex v, m')
  access Op.sb ex m =
      let v = bit_and ex.rs2_val 0xff in
      M.store_byte m ex.alu_out v >>= λ m'. some (stored ex v, m')
  access _ ex m = some (record (passed ex) { wb_val = ex.alu_out }, m)

  pub record Accessed : Type 0 where
    pub dmem : M.State
    pub out : Latch MemWb
    pub stage : MemAccessStage

  -- The access on the served cycle, and its result in the shadow.
  unfoldable pub perform : ExMem → Latch MemWb → M.State → Option Accessed
  unfolding access
  perform ex out m =
      Option.map
        (λ r. record { dmem = r.1; out = write r.0 out; stage = record { stalling = false } })
        (access ex.op ex m)

  -- A bubble, while the stage has nothing to do or waits.
  unfoldable pub idle : Latch MemWb → Bool → M.State → Accessed
  idle out waits m = record {
    dmem = m;
    out = write mem_wb_bubble out;
    stage = record { stalling = waits };
  }

  unfoldable pub evaluate : M.State → Latch ExMem → Latch MemWb → Option Accessed
  unfolding perform idle is_mem_op
  evaluate dmem input out =
      let ex = input.reg in
      if not ex.valid
      then some (idle out false dmem)
      else if is_mem_op ex.op
      then (let (served, asked) = M.ready dmem ex.alu_out (is_store ex.op) in
          if served then perform ex out asked else some (idle out true asked))
      else perform ex out dmem

  unfoldable pub latch_stage : M.State → Latch MemWb → M.State × Latch MemWb
  latch_stage dmem out = (M.tick dmem, latch out)
