-- ===== src/Pipeline/Bounds.antt =====
-- The pipeline registers of include/cpusim/uarch/pipeline/pipe_regs.h hold 32-bit words and indices
-- of registers.
use cpu_sim.Base.{◌^◌, ◌<◌}
use cpu_sim.RegFile.{num_regs}
use cpu_sim.Pipeline.Regs.{IdEx, ExMem, MemWb}

pub record IsBoundedId (id : IdEx) : Type 0 where
  pub id_pc : id.pc < 2 ^ 32
  pub id_rd : id.rd < num_regs
  pub id_rs1 : id.rs1 < num_regs
  pub id_rs2 : id.rs2 < num_regs
  pub id_imm : id.imm < 2 ^ 32
  pub id_rs1_val : id.rs1_val < 2 ^ 32
  pub id_rs2_val : id.rs2_val < 2 ^ 32

pub record IsBoundedEx (ex : ExMem) : Type 0 where
  pub ex_rd : ex.rd < num_regs
  pub ex_out : ex.alu_out < 2 ^ 32
  pub ex_rs2_val : ex.rs2_val < 2 ^ 32

pub record IsBoundedWb (wb : MemWb) : Type 0 where
  pub wb_rd : wb.rd < num_regs
  pub wb_out : wb.wb_val < 2 ^ 32
