-- ===== src/Isa/Immediates.antt =====
-- The fields and immediates of an instruction word as arithmetic on the word.
use cpu_sim.Base.{
  ℕ, ◌+◌, ◌-◌, ◌*◌, ◌/◌, ◌%◌, ◌^◌, ◌<◌, bit_and, bit_or, shl32, shr, ◌≡◌, ap, ◌∙◌, arith, ltb,
  if◌then◌else◌,
}
use cpu_sim.Base.Bits.{bit_and_mask, bit_and_high, bit_or_add, bit_or_add_four, bit_xor_top}
use cpu_sim.Isa.Encoding.{opcode, rd, funct3, rs1, rs2, funct7, sext}
use cpu_sim.Isa.Encoding.{imm_i, imm_s, imm_b, imm_u, imm_j}

pub opcode_sum : (w : ℕ) → opcode w ≡ w % 128
unfolding opcode
opcode_sum w = bit_and_mask 7 w

pub rd_sum : (w : ℕ) → rd w ≡ w / 128 % 32
unfolding rd
rd_sum w = bit_and_mask 5 (w / 128)

pub funct3_sum : (w : ℕ) → funct3 w ≡ w / 4096 % 8
unfolding funct3
funct3_sum w = bit_and_mask 3 (w / 4096)

pub rs1_sum : (w : ℕ) → rs1 w ≡ w / 32768 % 32
unfolding rs1
rs1_sum w = bit_and_mask 5 (w / 32768)

pub rs2_sum : (w : ℕ) → rs2 w ≡ w / 1048576 % 32
unfolding rs2
rs2_sum w = bit_and_mask 5 (w / 1048576)

pub funct7_sum : (w : ℕ) → funct7 w ≡ w / 33554432 % 128
unfolding funct7
funct7_sum w = bit_and_mask 7 (w / 33554432)

-- The value of a `bits`-bit two's complement field, as a 32-bit pattern.
abbrev pub extend : ℕ → ℕ → ℕ
extend bits v = if ltb v (2 ^ (bits - 1)) then v else v + 2 ^ 32 - 2 ^ bits

pub sext_12 : (v : ℕ) → v < 2 ^ 12 → sext v 12 ≡ extend 12 v
unfolding sext
sext_12 v h = ground (arith, bit_xor_top 11 v h)

pub sext_13 : (v : ℕ) → v < 2 ^ 13 → sext v 13 ≡ extend 13 v
unfolding sext
sext_13 v h = ground (arith, bit_xor_top 12 v h)

pub sext_21 : (v : ℕ) → v < 2 ^ 21 → sext v 21 ≡ extend 21 v
unfolding sext
sext_21 v h = ground (arith, bit_xor_top 20 v h)

-- The bits that each format scatters over the word, put together.
abbrev pub s_bits : ℕ → ℕ
s_bits w = w / 2 ^ 25 * 32 + w / 128 % 32

abbrev pub b_bits : ℕ → ℕ
b_bits w = w / 2 ^ 31 * 4096 + w / 128 % 2 * 2048 + w / 2 ^ 25 % 64 * 32 + w / 256 % 16 * 2

abbrev pub j_bits : ℕ → ℕ
j_bits w =
    w / 2 ^ 31 * 1048576 + w / 4096 % 256 * 4096 + w / 2 ^ 20 % 2 * 2048 + w / 2 ^ 21 % 1024 * 2

module _ (w : ℕ) (fits : w < 2 ^ 32) where
  pub imm_i_sum : imm_i w ≡ extend 12 (w / 2 ^ 20)
  unfolding imm_i
  imm_i_sum = sext_12 (w / 2 ^ 20) (omega arith)

  pub imm_s_sum : imm_s w ≡ extend 12 (s_bits w)
  unfolding imm_s
  imm_s_sum = ap (λ (t : ℕ). sext t 12) joined ∙ sext_12 (s_bits w) (omega arith)
    where
      joined : bit_or (shl32 (shr w 25) 5) (bit_and (shr w 7) 0x1f) ≡ s_bits w
      joined = rw (bit_and_mask 5 (w / 128)) (
          omega
            (arith, bit_or_add 5 (shl32 (shr w 25) 5) (w / 128 % 32) (omega arith) (omega arith)))

  pub imm_b_sum : imm_b w ≡ extend 13 (b_bits w)
  unfolding imm_b
  imm_b_sum = ap (λ (t : ℕ). sext t 13) joined ∙ sext_13 (b_bits w) (omega arith)
    where
      joined :
          bit_or
            (bit_or
              (bit_or (shl32 (shr w 31) 12) (shl32 (bit_and (shr w 7) 0x1) 11))
              (shl32 (bit_and (shr w 25) 0x3f) 5))
            (shl32 (bit_and (shr w 8) 0xf) 1)
          ≡ b_bits w
      joined =
          rw (bit_and_mask 1 (w / 128), bit_and_mask 6 (w / 2 ^ 25), bit_and_mask 4 (w / 256))
            (bit_or_add_four 12 11 5 (shl32 (shr w 31) 12) (shl32 (w / 128 % 2) 11)
                (shl32 (w / 2 ^ 25 % 64) 5) (shl32 (w / 256 % 16) 1) (omega arith) (omega arith)
                (omega arith) (omega arith) (omega arith) (omega arith)
              ∙ omega arith)

  pub imm_j_sum : imm_j w ≡ extend 21 (j_bits w)
  unfolding imm_j
  imm_j_sum = ap (λ (t : ℕ). sext t 21) joined ∙ sext_21 (j_bits w) (omega arith)
    where
      joined :
          bit_or
            (bit_or
              (bit_or (shl32 (shr w 31) 20) (shl32 (bit_and (shr w 12) 0xff) 12))
              (shl32 (bit_and (shr w 20) 0x1) 11))
            (shl32 (bit_and (shr w 21) 0x3ff) 1)
          ≡ j_bits w
      joined =
          rw
            (bit_and_mask 8 (w / 2 ^ 12), bit_and_mask 1 (w / 2 ^ 20), bit_and_mask 10 (w / 2 ^ 21))
            (bit_or_add_four 20 12 11 (shl32 (shr w 31) 20) (shl32 (w / 2 ^ 12 % 256) 12)
                (shl32 (w / 2 ^ 20 % 2) 11) (shl32 (w / 2 ^ 21 % 1024) 1) (omega arith)
                (omega arith) (omega arith) (omega arith) (omega arith) (omega arith)
              ∙ omega arith)

  pub imm_u_sum : imm_u w ≡ w / 4096 * 4096
  unfolding imm_u
  imm_u_sum = omega (arith, bit_and_high 12 0xfffff w, bit_and_mask 20 (w / 4096))
