-- ===== src/Alu/Laws.antt =====
-- What the ALU and the comparator compute, as integers.
use cpu_sim.Base.{ℕ, ◌-◌, ◌/◌, ◌%◌, ◌^◌, ◌≤◌, ◌<◌, ◌≡◌, ◌≢◌, ◌↔◌, arith}
use cpu_sim.Base.{true}
use cpu_sim.Base.{ℤ, pos, negsuc, signed32, ◌<ℤ◌}
use cpu_sim.Base.Bits.{bit_and_mask}
use cpu_sim.Isa.Op
use cpu_sim.Alu.{AluOp, alu_exec, branch_taken}
use native.Mathlib.Nat.{div-le_self}

-- Division of an integer by a positive number, rounded down.
abbrev pub floor_div : ℤ → ℕ → ℤ
floor_div (pos n) d = pos (n / d)
floor_div (negsuc n) d = negsuc (n / d)

-- SRA divides the signed value of `a` by 2 ^ (b % 32) and rounds down.
pub alu_exec-sra :
    (a b : ℕ)
    → a < 2 ^ 32
    → signed32 (alu_exec AluOp.sra a b) ≡ floor_div (signed32 a) (2 ^ (b % 32))
unfolding alu_exec
alu_exec-sra a b ha =
    rw (bit_and_mask 5 b)
      (ground (arith, div-le_self a (2 ^ (b % 32)), div-le_self (2 ^ 32 - 1 - a) (2 ^ (b % 32))))

-- The comparator decides the order that each branch is named for: BEQ and BNE equality, BLT and
-- BGE the signed order, BLTU and BGEU the unsigned one.
pub branch_taken_lem :
    (a b : ℕ)
    → ((branch_taken Op.beq a b ≡ true) ↔ (a ≡ b))
      × ((branch_taken Op.bne a b ≡ true) ↔ (a ≢ b))
      × ((branch_taken Op.blt a b ≡ true) ↔ (signed32 a <ℤ signed32 b))
      × ((branch_taken Op.bge a b ≡ true) ↔ ¬ (signed32 a <ℤ signed32 b))
      × ((branch_taken Op.bltu a b ≡ true) ↔ (a < b))
      × ((branch_taken Op.bgeu a b ≡ true) ↔ (b ≤ a))
unfolding branch_taken
branch_taken_lem a b =
    (ground arith, ground arith, ground arith, ground arith, ground arith, ground arith)
