-- ===== src/Arch/Effects.antt =====
-- EX and MEM together do what the manual says of an instruction.
use cpu_sim.Base.{
  ℕ, ◌-◌, ◌/◌, ◌%◌, ◌^◌, ◌<◌, ◌≡◌, refl, arith, true, Option, none, some, bit_and, if◌then◌else◌,
  add32,
}
use mathlib.Core.Option
use cpu_sim.Base.Bits.{bit_and_mask, bit_and_high}
use cpu_sim.Isa.Op.{Op}
use cpu_sim.Memory.Interface.{IMemory}
use cpu_sim.Alu.{alu_exec, alu_op_for, branch_taken}
use cpu_sim.Pipeline.Regs.{IdEx}
use cpu_sim.Pipeline.Execute.{executed, next_pc}
use cpu_sim.Pipeline.MemAccess.{access}
use cpu_sim.Pipeline.Writeback.{has_writeback}
use cpu_sim.Arch.{Effect, effect}

-- The mask of JALR clears bit 0.
clear_bit_zero : (x : ℕ) → x < 2 ^ 32 → bit_and x 0xfffffffe ≡ x - x % 2
clear_bit_zero x h = omega (arith, bit_and_high 1 0x7fffffff x, bit_and_mask 31 (x / 2))

module _ (S : IMemory) where
  -- The effect of an instruction as EX, MEM and WB make it.
  unfoldable pub pipeline_effect : Op → IdEx → ℕ → ℕ → S.State → Option (Effect S)
  unfolding executed next_pc access has_writeback
  pipeline_effect op id a b m =
      let i = record id { op = op; valid = true } in
      Option.map
        (λ r. record {
          value = if has_writeback op then some r.0.wb_val else none;
          next = next_pc i a b;
          mem = r.1;
        })
        (access S op (executed i a b) m)

  -- The effect that EX, MEM and WB make of an instruction is the one that the manual describes.
  pub pipeline_effect-effect :
      (op : Op) (id : IdEx) (a b : ℕ) (m : S.State)
      → pipeline_effect op id a b m ≡ effect S id.pc id.imm a b m op
  unfolding pipeline_effect effect alu_exec alu_op_for branch_taken
  pipeline_effect-effect Op.add id a b m = refl
  pipeline_effect-effect Op.sub id a b m = refl
  pipeline_effect-effect Op.sll id a b m = rw (bit_and_mask 5 b)
  pipeline_effect-effect Op.srl id a b m = rw (bit_and_mask 5 b)
  pipeline_effect-effect Op.sra id a b m = rw (bit_and_mask 5 b)
  pipeline_effect-effect Op.slt id a b m = refl
  pipeline_effect-effect Op.sltu id a b m = refl
  pipeline_effect-effect Op.and id a b m = refl
  pipeline_effect-effect Op.or id a b m = refl
  pipeline_effect-effect Op.xor id a b m = refl
  pipeline_effect-effect Op.addi id a b m = refl
  pipeline_effect-effect Op.slli id a b m = rw (bit_and_mask 5 id.imm)
  pipeline_effect-effect Op.srli id a b m = rw (bit_and_mask 5 id.imm)
  pipeline_effect-effect Op.srai id a b m = rw (bit_and_mask 5 id.imm)
  pipeline_effect-effect Op.slti id a b m = refl
  pipeline_effect-effect Op.sltiu id a b m = refl
  pipeline_effect-effect Op.andi id a b m = refl
  pipeline_effect-effect Op.ori id a b m = refl
  pipeline_effect-effect Op.xori id a b m = refl
  pipeline_effect-effect Op.lb id a b m = ground arith
  pipeline_effect-effect Op.lh id a b m = ground arith
  pipeline_effect-effect Op.lw id a b m = ground arith
  pipeline_effect-effect Op.lbu id a b m = ground arith
  pipeline_effect-effect Op.lhu id a b m = ground arith
  pipeline_effect-effect Op.sb id a b m = ground (arith, bit_and_mask 8 b)
  pipeline_effect-effect Op.sh id a b m = ground (arith, bit_and_mask 16 b)
  pipeline_effect-effect Op.sw id a b m = ground arith
  pipeline_effect-effect Op.beq id a b m = refl
  pipeline_effect-effect Op.bne id a b m = refl
  pipeline_effect-effect Op.blt id a b m = refl
  pipeline_effect-effect Op.bge id a b m = refl
  pipeline_effect-effect Op.bltu id a b m = refl
  pipeline_effect-effect Op.bgeu id a b m = refl
  pipeline_effect-effect Op.jal id a b m = refl
  pipeline_effect-effect Op.jalr id a b m = rw (clear_bit_zero (add32 a id.imm) (omega arith))
  pipeline_effect-effect Op.lui id a b m = refl
  pipeline_effect-effect Op.auipc id a b m = refl
  pipeline_effect-effect Op.ecall id a b m = refl
  pipeline_effect-effect Op.ebreak id a b m = refl
  pipeline_effect-effect Op.fence id a b m = refl
  pipeline_effect-effect Op.illegal id a b m = refl
