-- ===== src/Isa/Op.antt =====
-- `Op` and `Instruction` of include/cpusim/isa/rv32i/decoder.h.
use cpu_sim.Base.{ℕ}

pub data Op : Type 0 where
  add sub : Op
  sll srl sra : Op
  slt sltu : Op
  and or xor : Op
  addi : Op
  slli srli srai : Op
  slti sltiu : Op
  andi ori xori : Op
  lb lh lw lbu lhu : Op
  sb sh sw : Op
  beq bne blt bge bltu bgeu : Op
  jal jalr : Op
  lui auipc : Op
  ecall ebreak fence : Op
  illegal : Op

-- `imm` is an `int32_t`, kept as its bit pattern.
pub record Instruction : Type 0 where
  pub raw : ℕ
  pub pc : ℕ
  pub op : Op
  pub rd : ℕ
  pub rs1 : ℕ
  pub rs2 : ℕ
  pub imm : ℕ
