-- ===== src/Isa/Encoding.antt =====
-- include/cpusim/isa/rv32i/encoding.h: the bit fields of an instruction word, and its immediates.
use cpu_sim.Base.{ℕ, ◌-◌, bit_and, bit_or, bit_xor, sub32, shl32, shr}

unfoldable pub opcode : ℕ → ℕ
opcode w = bit_and w 0x7f

unfoldable pub rd : ℕ → ℕ
rd w = bit_and (shr w 7) 0x1f

unfoldable pub funct3 : ℕ → ℕ
funct3 w = bit_and (shr w 12) 0x07

unfoldable pub rs1 : ℕ → ℕ
rs1 w = bit_and (shr w 15) 0x1f

unfoldable pub rs2 : ℕ → ℕ
rs2 w = bit_and (shr w 20) 0x1f

unfoldable pub funct7 : ℕ → ℕ
funct7 w = bit_and (shr w 25) 0x7f

unfoldable pub funct12 : ℕ → ℕ
funct12 w = shr w 20

-- `val` has `bits` bits, and `bits` is at most 32.
unfoldable pub sext : ℕ → ℕ → ℕ
sext val bits = let sign = shl32 1 (bits - 1) in sub32 (bit_xor val sign) sign

unfoldable pub imm_i : ℕ → ℕ
unfolding sext
imm_i w = sext (shr w 20) 12

unfoldable pub imm_s : ℕ → ℕ
unfolding sext
imm_s w = sext (bit_or (shl32 (shr w 25) 5) (bit_and (shr w 7) 0x1f)) 12

-- `|` associates to the left.
unfoldable pub imm_b : ℕ → ℕ
unfolding sext
imm_b w =
    sext
      (bit_or
        (bit_or (bit_or (shl32 (shr w 31) 12) (shl32 (bit_and (shr w 7) 0x1) 11))
          (shl32 (bit_and (shr w 25) 0x3f) 5))
        (shl32 (bit_and (shr w 8) 0xf) 1))
      13

unfoldable pub imm_u : ℕ → ℕ
imm_u w = bit_and w 0xfffff000

unfoldable pub imm_j : ℕ → ℕ
unfolding sext
imm_j w =
    sext
      (bit_or
        (bit_or (bit_or (shl32 (shr w 31) 20) (shl32 (bit_and (shr w 12) 0xff) 12))
          (shl32 (bit_and (shr w 20) 0x1) 11))
        (shl32 (bit_and (shr w 21) 0x3ff) 1))
      21
