-- ===== src/Pipeline/Regs.antt =====
-- include/cpusim/uarch/pipeline/pipe_regs.h: what each latch carries, and its bubble.
use cpu_sim.Base.{ℕ, Bool, false}
use cpu_sim.Isa.Op.{Op}

pub record IfId : Type 0 where
  pub pc : ℕ
  pub raw : ℕ
  pub valid : Bool
  pub predicted_taken : Bool

abbrev pub if_id_bubble : IfId
if_id_bubble = record { pc = 0; raw = 0; valid = false; predicted_taken = false }

pub record IdEx : Type 0 where
  pub pc : ℕ
  pub raw : ℕ
  pub op : Op
  pub rd : ℕ
  pub rs1 : ℕ
  pub rs2 : ℕ
  pub imm : ℕ
  pub rs1_val : ℕ
  pub rs2_val : ℕ
  pub valid : Bool
  pub predicted_taken : Bool

abbrev pub id_ex_bubble : IdEx
id_ex_bubble = record {
  pc = 0;
  raw = 0;
  op = Op.illegal;
  rd = 0;
  rs1 = 0;
  rs2 = 0;
  imm = 0;
  rs1_val = 0;
  rs2_val = 0;
  valid = false;
  predicted_taken = false;
}

pub record ExMem : Type 0 where
  pub pc : ℕ
  pub raw : ℕ
  pub op : Op
  pub rd : ℕ
  pub alu_out : ℕ
  pub rs2_val : ℕ
  pub branch_taken : Bool
  pub branch_target : ℕ
  pub valid : Bool

abbrev pub ex_mem_bubble : ExMem
ex_mem_bubble = record {
  pc = 0;
  raw = 0;
  op = Op.illegal;
  rd = 0;
  alu_out = 0;
  rs2_val = 0;
  branch_taken = false;
  branch_target = 0;
  valid = false;
}

pub record MemWb : Type 0 where
  pub pc : ℕ
  pub raw : ℕ
  pub op : Op
  pub rd : ℕ
  pub wb_val : ℕ
  pub mem_addr : ℕ
  pub mem_val : ℕ
  pub is_store : Bool
  pub valid : Bool

abbrev pub mem_wb_bubble : MemWb
mem_wb_bubble = record {
  pc = 0;
  raw = 0;
  op = Op.illegal;
  rd = 0;
  wb_val = 0;
  mem_addr = 0;
  mem_val = 0;
  is_store = false;
  valid = false;
}
