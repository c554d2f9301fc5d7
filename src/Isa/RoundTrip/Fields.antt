-- ===== src/Isa/RoundTrip/Fields.antt =====
-- The fields of an assembled word.
use cpu_sim.Base.{ℕ, ◌^◌, ◌<◌, ◌≡◌, arith}
use cpu_sim.Isa.Encoding
use cpu_sim.Isa.Immediates.{opcode_sum, rd_sum, funct3_sum, rs1_sum, rs2_sum, funct7_sum}
use cpu_sim.Isa.Assembler.{word}

-- The fields that the decoder reads from a word.
pub record HasFields (w f7 rs2 rs1 f3 rd opc : ℕ) : Type 0 where
  pub opcode_eq : Encoding.opcode w ≡ opc
  pub rd_eq : Encoding.rd w ≡ rd
  pub funct3_eq : Encoding.funct3 w ≡ f3
  pub rs1_eq : Encoding.rs1 w ≡ rs1
  pub rs2_eq : Encoding.rs2 w ≡ rs2
  pub funct7_eq : Encoding.funct7 w ≡ f7
  pub fits : w < 2 ^ 32

pub word-HasFields :
    {f7 rs2 rs1 f3 rd opc w : ℕ}
    → f7 < 128
    → rs2 < 32
    → rs1 < 32
    → f3 < 8
    → rd < 32
    → opc < 128
    → w ≡ word f7 rs2 rs1 f3 rd opc
    → HasFields w f7 rs2 rs1 f3 rd opc
word-HasFields {w = w} h7 h2 h1 h3 hd ho e = record {
  opcode_eq = omega (arith, opcode_sum w);
  rd_eq = omega (arith, rd_sum w);
  funct3_eq = omega (arith, funct3_sum w);
  rs1_eq = omega (arith, rs1_sum w);
  rs2_eq = omega (arith, rs2_sum w);
  funct7_eq = omega (arith, funct7_sum w);
  fits = omega arith;
}
