-- ===== src/Alu.antt =====
-- src/uarch/alu.cpp: the combinational ALU, its operation table and the branch comparator.
pub mod Laws
mod Tests
use cpu_sim.Base.{ℕ, ◌+◌, ◌-◌, ◌*◌, ◌/◌, ◌%◌, ◌^◌, bit_and, bit_or, bit_xor, Bool, true, false, not}
use cpu_sim.Base.{ltb, leb, ◌==◌, if◌then◌else◌, add32, sub32, shl32, shr, signed32, ltb_ℤ}
use cpu_sim.Isa.Op.{Op}
use cpu_sim.Isa.Op

pub data AluOp : Type 0 where
  add sub and or xor sll srl sra slt sltu pass_b : AluOp

-- `>>` on an `int32_t` fills with the sign bit: a negative pattern is shifted as the complement of
-- its complement.
abbrev pub sar32 : ℕ → ℕ → ℕ
sar32 a k = if ltb a (2 ^ 31) then a / 2 ^ k else 2 ^ 32 - 1 - (2 ^ 32 - 1 - a) / 2 ^ k

unfoldable pub alu_exec : AluOp → ℕ → ℕ → ℕ
alu_exec AluOp.add a b = add32 a b
alu_exec AluOp.sub a b = sub32 a b
alu_exec AluOp.and a b = bit_and a b
alu_exec AluOp.or a b = bit_or a b
alu_exec AluOp.xor a b = bit_xor a b
alu_exec AluOp.sll a b = shl32 a (bit_and b 0x1f)
alu_exec AluOp.srl a b = shr a (bit_and b 0x1f)
alu_exec AluOp.sra a b = sar32 a (bit_and b 0x1f)
alu_exec AluOp.slt a b = if ltb_ℤ (signed32 a) (signed32 b) then 1 else 0
alu_exec AluOp.sltu a b = if ltb a b then 1 else 0
alu_exec AluOp.pass_b a b = b

unfoldable pub alu_op_for : Op → AluOp
alu_op_for Op.add = AluOp.add
alu_op_for Op.addi = AluOp.add
alu_op_for Op.sub = AluOp.sub
alu_op_for Op.and = AluOp.and
alu_op_for Op.andi = AluOp.and
alu_op_for Op.or = AluOp.or
alu_op_for Op.ori = AluOp.or
alu_op_for Op.xor = AluOp.xor
alu_op_for Op.xori = AluOp.xor
alu_op_for Op.sll = AluOp.sll
alu_op_for Op.slli = AluOp.sll
alu_op_for Op.srl = AluOp.srl
alu_op_for Op.srli = AluOp.srl
alu_op_for Op.sra = AluOp.sra
alu_op_for Op.srai = AluOp.sra
alu_op_for Op.slt = AluOp.slt
alu_op_for Op.slti = AluOp.slt
alu_op_for Op.sltu = AluOp.sltu
alu_op_for Op.sltiu = AluOp.sltu
alu_op_for Op.lui = AluOp.pass_b
alu_op_for _ = AluOp.add

unfoldable pub branch_taken : Op → ℕ → ℕ → Bool
branch_taken Op.beq rs1 rs2 = rs1 == rs2
branch_taken Op.bne rs1 rs2 = not (rs1 == rs2)
branch_taken Op.blt rs1 rs2 = ltb_ℤ (signed32 rs1) (signed32 rs2)
branch_taken Op.bge rs1 rs2 = not (ltb_ℤ (signed32 rs1) (signed32 rs2))
branch_taken Op.bltu rs1 rs2 = ltb rs1 rs2
branch_taken Op.bgeu rs1 rs2 = leb rs2 rs1
branch_taken _ rs1 rs2 = false
