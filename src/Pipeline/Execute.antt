-- ===== src/Pipeline/Execute.antt =====
-- `ExecuteStage` of src/uarch/pipeline/execute.cpp.
use cpu_sim.Base.{ℕ, Bool, true, false, not, ◌&&◌, ◌||◌, Option, none, some, add32, bit_and}
use cpu_sim.Base.{if◌then◌else◌, is_some}
use cpu_sim.Isa.Op.{Op}
use cpu_sim.Alu.{alu_exec, alu_op_for, branch_taken}
use cpu_sim.Predictor.{BranchPredictor, update}
use cpu_sim.Sim.Stats.{SimStats, increment}
use cpu_sim.Pipeline.Latch.{Latch, write, latch}
use cpu_sim.Pipeline.Regs.{IdEx, ExMem, MemWb, ex_mem_bubble}
use cpu_sim.Pipeline.Fetch
use cpu_sim.Pipeline.Fetch.{FetchStage}
use cpu_sim.Pipeline.Decode
use cpu_sim.Pipeline.Decode.{DecodeStage}
use cpu_sim.Pipeline.Forward.{ForwardUnit, resolve}

pub record ExecuteStage : Type 0 where
  pub redirect : Bool
  pub redirect_target : ℕ
  pub control : Bool
  pub train : Bool
  pub train_pc : ℕ
  pub train_cond : Bool
  pub train_taken : Bool
  pub train_target : ℕ

abbrev pub create : ExecuteStage
create = record {
  redirect = false;
  redirect_target = 0;
  control = false;
  train = false;
  train_pc = 0;
  train_cond = false;
  train_taken = false;
  train_target = 0;
}

unfoldable pub is_cond_branch : Op → Bool
is_cond_branch Op.beq = true
is_cond_branch Op.bne = true
is_cond_branch Op.blt = true
is_cond_branch Op.bge = true
is_cond_branch Op.bltu = true
is_cond_branch Op.bgeu = true
is_cond_branch _ = false

-- All but the ten register-register operations.
unfoldable pub uses_imm : Op → Bool
uses_imm Op.add = false
uses_imm Op.sub = false
uses_imm Op.and = false
uses_imm Op.or = false
uses_imm Op.xor = false
uses_imm Op.sll = false
uses_imm Op.srl = false
uses_imm Op.sra = false
uses_imm Op.slt = false
uses_imm Op.sltu = false
uses_imm _ = true

unfoldable pub is_auipc : Op → Bool
is_auipc Op.auipc = true
is_auipc _ = false

unfoldable pub is_jal : Op → Bool
is_jal Op.jal = true
is_jal _ = false

unfoldable pub is_jalr : Op → Bool
is_jalr Op.jalr = true
is_jalr _ = false

-- The locals of `evaluate` for an instruction with forwarded operands `rs1` and `rs2`.
unfoldable pub alu_out : IdEx → ℕ → ℕ → ℕ
unfolding is_jal is_jalr uses_imm is_auipc
alu_out id rs1 rs2 =
    let a = if is_auipc id.op then id.pc else rs1 in
    let b = if uses_imm id.op then id.imm else rs2 in
    if is_jal id.op || is_jalr id.op then add32 id.pc 4 else alu_exec (alu_op_for id.op) a b

unfoldable pub actual_taken : IdEx → ℕ → ℕ → Bool
unfolding is_jal is_jalr
actual_taken id rs1 rs2 = if is_jal id.op || is_jalr id.op then true else branch_taken id.op rs1 rs2

unfoldable pub target : IdEx → ℕ → ℕ
unfolding is_jalr
target id rs1 = if is_jalr id.op then bit_and (add32 rs1 id.imm) 0xfffffffe else add32 id.pc id.imm

unfoldable pub next_pc : IdEx → ℕ → ℕ → ℕ
unfolding actual_taken target
next_pc id rs1 rs2 = if actual_taken id rs1 rs2 then target id rs1 else add32 id.pc 4

-- `a != b` on Booleans.
abbrev pub differs : Bool → Bool → Bool
differs true b = not b
differs false b = b

-- What `evaluate` puts into the shadow.
unfoldable pub executed : IdEx → ℕ → ℕ → ExMem
unfolding alu_out actual_taken target
executed id rs1 rs2 =
    if id.valid
    then record {
      pc = id.pc;
      raw = id.raw;
      op = id.op;
      rd = id.rd;
      alu_out = alu_out id rs1 rs2;
      rs2_val = rs2;
      branch_taken = actual_taken id rs1 rs2;
      branch_target = target id rs1;
      valid = true;
    }
    else ex_mem_bubble

-- The signals that `evaluate` leaves for `latch`. `has_bp` is `bp_ != nullptr`.
unfoldable pub signals : Bool → IdEx → ℕ → ℕ → ExecuteStage → ExecuteStage
unfolding actual_taken target next_pc is_cond_branch is_jal is_jalr
signals has_bp id rs1 rs2 x =
    if id.valid
    then record {
      redirect = differs (actual_taken id rs1 rs2) id.predicted_taken;
      redirect_target = next_pc id rs1 rs2;
      control = is_cond_branch id.op || is_jal id.op || is_jalr id.op;
      train = has_bp && (is_cond_branch id.op || is_jal id.op);
      train_pc = id.pc;
      train_cond = is_cond_branch id.op;
      train_taken = actual_taken id rs1 rs2;
      train_target = target id rs1;
    }
    else record x { redirect = false; train = false; control = false }

unfoldable pub evaluate :
    Option BranchPredictor
    → ForwardUnit
    → Latch IdEx
    → Latch ExMem
    → Latch MemWb
    → ExecuteStage
    → Latch ExMem × ExecuteStage
unfolding executed signals
evaluate bp fwd input out mem_wb x =
    let id = input.reg in
    let rs1 = resolve fwd out.reg mem_wb.reg id.rs1 id.rs1_val in
    let rs2 = resolve fwd out.reg mem_wb.reg id.rs2 id.rs2_val in
    (write (executed id rs1 rs2) out, signals (is_some bp) id rs1 rs2 x)

-- The other parts that `latch` writes to.
pub record Resolved : Type 0 where
  pub stage : ExecuteStage
  pub out : Latch ExMem
  pub fetch : FetchStage
  pub decode : DecodeStage
  pub bpred : Option BranchPredictor
  pub stats : SimStats

unfoldable pub count_branch : ExecuteStage → SimStats → SimStats
count_branch x s =
    if x.control
    then (if x.redirect
        then record s { branch_mispredicts = increment s.branch_mispredicts }
        else record s { branch_correct = increment s.branch_correct })
    else s

unfoldable pub train_predictor : ExecuteStage → Option BranchPredictor → Option BranchPredictor
train_predictor x none = none
train_predictor x (some bp) =
    if x.train
    then some (update bp x.train_pc x.train_cond x.train_taken x.train_target)
    else some bp

unfoldable pub latch_stage :
    ExecuteStage
    → Latch ExMem
    → FetchStage
    → DecodeStage
    → Option BranchPredictor
    → SimStats
    → Resolved
unfolding count_branch train_predictor
latch_stage x out fetch decode bpred stats = record {
  stage = record x { redirect = false; train = false; control = false };
  out = latch out;
  fetch = if x.redirect then Fetch.set_redirect true x.redirect_target fetch else fetch;
  decode = if x.redirect then Decode.set_flush true decode else decode;
  bpred = train_predictor x bpred;
  stats = count_branch x stats;
}
