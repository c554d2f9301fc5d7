-- ===== src/Isa/Tests.antt =====
-- Words taken from the RV32I listing, and the theorems on the decoder at concrete instructions.
use cpu_sim.Base.{◌-◌, ◌^◌, ◌≡◌, ◌≢◌, refl, inr, arith}
use cpu_sim.Isa.Op
use cpu_sim.Isa.Op.{Instruction}
use cpu_sim.Isa.Encoding
use cpu_sim.Isa.Decoder.{decode, store_op}
use cpu_sim.Isa.Assembler.{assemble, IsLegal}
use cpu_sim.Isa.RoundTrip.{decode-assemble}
use cpu_sim.Isa.RoundTrip.Sound.{decode-IsLegal, assemble-decode}

-- bne x5, x6, -8 at 0x100.
abbrev back_branch : Instruction
back_branch = record {
  raw = 0;
  pc = 0x100;
  op = Op.bne;
  rd = 0;
  rs1 = 5;
  rs2 = 6;
  imm = 2 ^ 32 - 8;
}

assemble-back_branch : assemble back_branch ≡ 0xfe629ce3
assemble-back_branch = refl

back_branch-IsLegal : IsLegal back_branch
back_branch-IsLegal = (refl, omega arith, omega arith, inr (omega arith), refl)

decode-assemble_example :
    decode (assemble back_branch) 0x100 ≡ record back_branch { raw = assemble back_branch }
decode-assemble_example = decode-assemble back_branch back_branch-IsLegal

-- sw x2, 64(x10)
sw_word : (decode 0x04252023 0).op ≡ Op.sw
unfolding decode store_op Encoding.opcode Encoding.funct3
sw_word = refl

sw≢illegal : Op.sw ≢ Op.illegal
sw≢illegal e = cc

assemble-decode_example : assemble (decode 0x04252023 0) ≡ 0x04252023
assemble-decode_example = assemble-decode 0x04252023 0 (omega arith) (rw sw_word tt)

decode-IsLegal_example : IsLegal (decode 0x04252023 0)
decode-IsLegal_example = decode-IsLegal 0x04252023 0 (omega arith) (rw sw_word sw≢illegal)
