-- ===== src/Alu/Tests.antt =====
-- The ALU at concrete operands.
use cpu_sim.Base.{ℕ, ◌-◌, ◌%◌, ◌^◌, ◌<◌, ◌≡◌, ◌≢◌, ◌↔◌, ◌≤◌, refl, arith, true, signed32, ◌<ℤ◌}
use cpu_sim.Isa.Op
use cpu_sim.Alu.{AluOp, alu_exec, branch_taken}
use cpu_sim.Alu.Laws.{alu_exec-sra, branch_taken_lem, floor_div}

-- -7 shifted by 1 is -4.
alu_exec-sra_example :
    signed32 (alu_exec AluOp.sra (2 ^ 32 - 7) 33)
    ≡ floor_div (signed32 (2 ^ 32 - 7)) (2 ^ (33 % 32))
alu_exec-sra_example = alu_exec-sra (2 ^ 32 - 7) 33 (omega arith)

branch_taken_lem_example :
    ((branch_taken Op.beq 1 4294967295 ≡ true) ↔ ◌≡◌ {A = ℕ} 1 4294967295)
    × ((branch_taken Op.bne 1 4294967295 ≡ true) ↔ ◌≢◌ {A = ℕ} 1 4294967295)
    × ((branch_taken Op.blt 1 4294967295 ≡ true) ↔ (signed32 1 <ℤ signed32 4294967295))
    × ((branch_taken Op.bge 1 4294967295 ≡ true) ↔ ¬ (signed32 1 <ℤ signed32 4294967295))
    × ((branch_taken Op.bltu 1 4294967295 ≡ true) ↔ (1 < 4294967295))
    × ((branch_taken Op.bgeu 1 4294967295 ≡ true) ↔ (4294967295 ≤ 1))
branch_taken_lem_example = branch_taken_lem 1 4294967295

sub_wraps : alu_exec AluOp.sub 3 5 ≡ 0xfffffffe
unfolding alu_exec
sub_wraps = refl

sra_fills : alu_exec AluOp.sra 0x80000000 31 ≡ 0xffffffff
unfolding alu_exec
sra_fills = refl
