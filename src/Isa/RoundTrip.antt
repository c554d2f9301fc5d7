-- ===== src/Isa/RoundTrip.antt =====
-- The decoder against the assembler: a legal instruction is decoded to itself.
mod Fields
mod Formats
mod Choices
pub mod Sound
use cpu_sim.Base.{ℕ, ◌≡◌, refl}
use cpu_sim.Isa.Op.{Op, Instruction}
use cpu_sim.Isa.Op.{add, sub, sll, srl, sra, slt, sltu, and, or, xor, addi, slli, srli, srai, slti}
use cpu_sim.Isa.Op.{sltiu, andi, ori, xori, lb, lh, lw, lbu, lhu, sb, sh, sw, beq, bne, blt, bge}
use cpu_sim.Isa.Op.{bltu, bgeu, jal, jalr, lui, auipc, ecall, ebreak, fence, illegal}
use cpu_sim.Isa.Decoder.{branch_op, load_op, store_op, decode_op_imm, op_op, system_op, decode}
use cpu_sim.Isa.Assembler.{format, assemble_format, assemble, IsLegal, Operands}
use cpu_sim.Isa.Cases.{with_op}
use native.Mathlib.Omega.{arith}
use Formats.{decode_r_type, decode_imm_type, decode_shift_type, decode_load_type}
use Formats.{decode_store_type, decode_branch_type, decode_jal_type, decode_jalr_type}
use Formats.{decode_lui_type, decode_auipc_type, decode_system_type, decode_fence_type}

module _ (pc rd rs1 rs2 imm w : ℕ) where
  by_op :
      (op : Op)
      → Operands rd rs1 rs2 imm (format op)
      → w ≡ assemble_format rd rs1 rs2 imm (format op)
      → decode w pc ≡ with_op w pc op rd rs1 rs2 imm
  unfolding op_op decode_op_imm load_op store_op branch_op system_op
  by_op add o e = decode_r_type pc rd rs1 rs2 imm w 0 (omega arith) 0 (omega arith) o e
  by_op sub o e = decode_r_type pc rd rs1 rs2 imm w 0 (omega arith) 32 (omega arith) o e
  by_op sll o e = decode_r_type pc rd rs1 rs2 imm w 1 (omega arith) 0 (omega arith) o e
  by_op srl o e = decode_r_type pc rd rs1 rs2 imm w 5 (omega arith) 0 (omega arith) o e
  by_op sra o e = decode_r_type pc rd rs1 rs2 imm w 5 (omega arith) 32 (omega arith) o e
  by_op slt o e = decode_r_type pc rd rs1 rs2 imm w 2 (omega arith) 0 (omega arith) o e
  by_op sltu o e = decode_r_type pc rd rs1 rs2 imm w 3 (omega arith) 0 (omega arith) o e
  by_op and o e = decode_r_type pc rd rs1 rs2 imm w 7 (omega arith) 0 (omega arith) o e
  by_op or o e = decode_r_type pc rd rs1 rs2 imm w 6 (omega arith) 0 (omega arith) o e
  by_op xor o e = decode_r_type pc rd rs1 rs2 imm w 4 (omega arith) 0 (omega arith) o e
  by_op addi o e = decode_imm_type pc rd rs1 rs2 imm w 0 (omega arith) addi (λ i f7. refl) o e
  by_op slti o e = decode_imm_type pc rd rs1 rs2 imm w 2 (omega arith) slti (λ i f7. refl) o e
  by_op sltiu o e = decode_imm_type pc rd rs1 rs2 imm w 3 (omega arith) sltiu (λ i f7. refl) o e
  by_op andi o e = decode_imm_type pc rd rs1 rs2 imm w 7 (omega arith) andi (λ i f7. refl) o e
  by_op ori o e = decode_imm_type pc rd rs1 rs2 imm w 6 (omega arith) ori (λ i f7. refl) o e
  by_op xori o e = decode_imm_type pc rd rs1 rs2 imm w 4 (omega arith) xori (λ i f7. refl) o e
  by_op slli o e =
      decode_shift_type pc rd rs1 rs2 imm w 1 (omega arith) slli 0 (omega arith) (λ i. refl) o e
  by_op srli o e =
      decode_shift_type pc rd rs1 rs2 imm w 5 (omega arith) srli 0 (omega arith) (λ i. refl) o e
  by_op srai o e =
      decode_shift_type pc rd rs1 rs2 imm w 5 (omega arith) srai 32 (omega arith) (λ i. refl) o e
  by_op lb o e = decode_load_type pc rd rs1 rs2 imm w 0 (omega arith) o e
  by_op lh o e = decode_load_type pc rd rs1 rs2 imm w 1 (omega arith) o e
  by_op lw o e = decode_load_type pc rd rs1 rs2 imm w 2 (omega arith) o e
  by_op lbu o e = decode_load_type pc rd rs1 rs2 imm w 4 (omega arith) o e
  by_op lhu o e = decode_load_type pc rd rs1 rs2 imm w 5 (omega arith) o e
  by_op sb o e = decode_store_type pc rd rs1 rs2 imm w 0 (omega arith) o e
  by_op sh o e = decode_store_type pc rd rs1 rs2 imm w 1 (omega arith) o e
  by_op sw o e = decode_store_type pc rd rs1 rs2 imm w 2 (omega arith) o e
  by_op beq o e = decode_branch_type pc rd rs1 rs2 imm w 0 (omega arith) o e
  by_op bne o e = decode_branch_type pc rd rs1 rs2 imm w 1 (omega arith) o e
  by_op blt o e = decode_branch_type pc rd rs1 rs2 imm w 4 (omega arith) o e
  by_op bge o e = decode_branch_type pc rd rs1 rs2 imm w 5 (omega arith) o e
  by_op bltu o e = decode_branch_type pc rd rs1 rs2 imm w 6 (omega arith) o e
  by_op bgeu o e = decode_branch_type pc rd rs1 rs2 imm w 7 (omega arith) o e
  by_op jal o e = decode_jal_type pc rd rs1 rs2 imm w o e
  by_op jalr o e = decode_jalr_type pc rd rs1 rs2 imm w o e
  by_op lui o e = decode_lui_type pc rd rs1 rs2 imm w o e
  by_op auipc o e = decode_auipc_type pc rd rs1 rs2 imm w o e
  by_op ecall o e = decode_system_type pc rd rs1 rs2 imm w 0 (omega arith) o e
  by_op ebreak o e = decode_system_type pc rd rs1 rs2 imm w 1 (omega arith) o e
  by_op fence o e = decode_fence_type pc rd rs1 rs2 imm w o e
  by_op illegal o e = absurd o

-- Decoding the assembled word of a legal instruction gives the instruction back: operation,
-- registers, sign-extended immediate and address, with the word itself in `raw`.
pub decode-assemble :
    (i : Instruction) → IsLegal i → decode (assemble i) i.pc ≡ record i { raw = assemble i }
decode-assemble i h = by_op i.pc i.rd i.rs1 i.rs2 i.imm (assemble i) i.op h refl
