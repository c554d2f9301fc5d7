-- ===== src/Isa/Assembler.antt =====
-- An assembler for RV32I, written from the format table of the specification (figure 2.3, quoted in
-- include/cpusim/isa/rv32i/encoding.h): what the decoder is held against.
use cpu_sim.Base.{ℕ, ◌+◌, ◌*◌, ◌/◌, ◌%◌, ◌^◌, ◌≤◌, ◌<◌, ◌≡◌, ◌⊎◌}
use cpu_sim.Isa.Op.{Op, Instruction}
use cpu_sim.Isa.Op.{add, sub, sll, srl, sra, slt, sltu, and, or, xor, addi, slli, srli, srai, slti}
use cpu_sim.Isa.Op.{sltiu, andi, ori, xori, lb, lh, lw, lbu, lhu, sb, sh, sw, beq, bne, blt, bge}
use cpu_sim.Isa.Op.{bltu, bgeu, jal, jalr, lui, auipc, ecall, ebreak, fence, illegal}

pub data Format : Type 0 where
  r_type : ℕ → ℕ → Format
  i_type s_type b_type : ℕ → ℕ → Format
  shift_type : ℕ → ℕ → Format
  u_type : ℕ → Format
  j_type : Format
  fence_type : Format
  system_type : ℕ → Format
  no_type : Format

-- The format of an operation: funct3 and funct7 for `r_type` and `shift_type`, the opcode and
-- funct3 for `i_type`, `s_type` and `b_type`, the opcode for `u_type`.
abbrev pub format : Op → Format
format add = Format.r_type 0 0
format sub = Format.r_type 0 32
format sll = Format.r_type 1 0
format slt = Format.r_type 2 0
format sltu = Format.r_type 3 0
format xor = Format.r_type 4 0
format srl = Format.r_type 5 0
format sra = Format.r_type 5 32
format or = Format.r_type 6 0
format and = Format.r_type 7 0
format addi = Format.i_type 0x13 0
format slti = Format.i_type 0x13 2
format sltiu = Format.i_type 0x13 3
format xori = Format.i_type 0x13 4
format ori = Format.i_type 0x13 6
format andi = Format.i_type 0x13 7
format slli = Format.shift_type 1 0
format srli = Format.shift_type 5 0
format srai = Format.shift_type 5 32
format lb = Format.i_type 0x03 0
format lh = Format.i_type 0x03 1
format lw = Format.i_type 0x03 2
format lbu = Format.i_type 0x03 4
format lhu = Format.i_type 0x03 5
format jalr = Format.i_type 0x67 0
format sb = Format.s_type 0x23 0
format sh = Format.s_type 0x23 1
format sw = Format.s_type 0x23 2
format beq = Format.b_type 0x63 0
format bne = Format.b_type 0x63 1
format blt = Format.b_type 0x63 4
format bge = Format.b_type 0x63 5
format bltu = Format.b_type 0x63 6
format bgeu = Format.b_type 0x63 7
format jal = Format.j_type
format lui = Format.u_type 0x37
format auipc = Format.u_type 0x17
format fence = Format.fence_type
format ecall = Format.system_type 0
format ebreak = Format.system_type 1
format illegal = Format.no_type

-- Six fields, from the highest bits to the lowest.
abbrev pub word : ℕ → ℕ → ℕ → ℕ → ℕ → ℕ → ℕ
word f7 rs2 rs1 f3 rd opc =
    f7 * 2 ^ 25 + rs2 * 2 ^ 20 + rs1 * 2 ^ 15 + f3 * 2 ^ 12 + rd * 2 ^ 7 + opc

module _ (rd rs1 rs2 imm : ℕ) where
  abbrev pub assemble_format : Format → ℕ
  assemble_format (Format.r_type f3 f7) = word f7 rs2 rs1 f3 rd 0x33
  assemble_format (Format.i_type opc f3) = word (imm / 32 % 128) (imm % 32) rs1 f3 rd opc
  assemble_format (Format.s_type opc f3) = word (imm / 32 % 128) rs2 rs1 f3 (imm % 32) opc
  assemble_format (Format.b_type opc f3) =
      word (imm / 4096 % 2 * 64 + imm / 32 % 64) rs2 rs1 f3 (imm / 2 % 16 * 2 + imm / 2048 % 2) opc
  assemble_format (Format.shift_type f3 f7) = word f7 imm rs1 f3 rd 0x13
  assemble_format (Format.u_type opc) =
      word (imm / 2 ^ 25 % 128) (imm / 2 ^ 20 % 32) (imm / 2 ^ 15 % 32) (imm / 2 ^ 12 % 8) rd opc
  assemble_format Format.j_type =
      word (imm / 2 ^ 20 % 2 * 64 + imm / 32 % 64) (imm / 2 % 16 * 2 + imm / 2048 % 2)
        (imm / 2 ^ 15 % 32) (imm / 2 ^ 12 % 8) rd 0x6f
  assemble_format Format.fence_type = word 0 0 0 0 0 0x0f
  assemble_format (Format.system_type f12) = word 0 f12 0 0 0 0x73
  assemble_format Format.no_type = 0

  -- The operands that a format can hold: registers below 32, the unused ones 0, and the
  -- immediate, a 32-bit pattern, in the format's signed range and a multiple of its step.
  abbrev pub Signed : ℕ → Type 0
  Signed half = (imm < half) ⊎ ((2 ^ 32 ≤ imm + half) × (imm < 2 ^ 32))

  abbrev pub Operands : Format → Type 0
  Operands (Format.r_type f3 f7) = (rd < 32) × (rs1 < 32) × (rs2 < 32) × (imm ≡ 0)
  Operands (Format.i_type opc f3) = (rd < 32) × (rs1 < 32) × (rs2 ≡ 0) × Signed 2048
  Operands (Format.s_type opc f3) = (rd ≡ 0) × (rs1 < 32) × (rs2 < 32) × Signed 2048
  Operands (Format.b_type opc f3) = (rd ≡ 0) × (rs1 < 32) × (rs2 < 32) × Signed 4096 × (imm % 2 ≡ 0)
  Operands (Format.shift_type f3 f7) = (rd < 32) × (rs1 < 32) × (rs2 ≡ 0) × (imm < 32)
  Operands (Format.u_type opc) =
      (rd < 32) × (rs1 ≡ 0) × (rs2 ≡ 0) × (imm % 4096 ≡ 0) × (imm < 2 ^ 32)
  Operands Format.j_type = (rd < 32) × (rs1 ≡ 0) × (rs2 ≡ 0) × Signed 1048576 × (imm % 2 ≡ 0)
  Operands Format.fence_type = (rd ≡ 0) × (rs1 ≡ 0) × (rs2 ≡ 0) × (imm ≡ 0)
  Operands (Format.system_type f12) = (rd ≡ 0) × (rs1 ≡ 0) × (rs2 ≡ 0) × (imm ≡ 0)
  Operands Format.no_type = ⊥

-- The word of a decoded instruction, and the instructions that have one.
abbrev pub assemble : Instruction → ℕ
assemble i = assemble_format i.rd i.rs1 i.rs2 i.imm (format i.op)

abbrev pub IsLegal : Instruction → Type 0
IsLegal i = Operands i.rd i.rs1 i.rs2 i.imm (format i.op)
