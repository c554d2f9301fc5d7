-- ===== src/Isa/RoundTrip/Choices.antt =====
-- The operation that each inner `switch` picks has the opcode, funct3 and funct7 it was picked by.
use cpu_sim.Base.{ℕ, ◌≡◌, ◌⊎◌, arith}
use cpu_sim.Isa.Op.{illegal}
use cpu_sim.Isa.Decoder.{branch_op, load_op, store_op, op_op, system_op}
use cpu_sim.Isa.Assembler.{Format, format}

pub branch_op-format :
    (f3 : ℕ) → (branch_op f3 ≡ illegal) ⊎ (format (branch_op f3) ≡ Format.b_type 0x63 f3)
unfolding branch_op
branch_op-format f3 = ground arith

pub load_op-format :
    (f3 : ℕ) → (load_op f3 ≡ illegal) ⊎ (format (load_op f3) ≡ Format.i_type 0x03 f3)
unfolding load_op
load_op-format f3 = ground arith

pub store_op-format :
    (f3 : ℕ) → (store_op f3 ≡ illegal) ⊎ (format (store_op f3) ≡ Format.s_type 0x23 f3)
unfolding store_op
store_op-format f3 = ground arith

pub op_op-format :
    (f3 f7 : ℕ) → (op_op f3 f7 ≡ illegal) ⊎ (format (op_op f3 f7) ≡ Format.r_type f3 f7)
unfolding op_op
op_op-format f3 f7 = ground arith

pub system_op-format :
    (f12 : ℕ) → (system_op f12 ≡ illegal) ⊎ (format (system_op f12) ≡ Format.system_type f12)
unfolding system_op
system_op-format f12 = ground arith
