-- ===== src/Arch.antt =====
-- The machine that the simulator stands for: RV32I one instruction at a time, without a pipeline,
-- written from the instruction descriptions of the RISC-V manual. It is an independent description,
-- which no file of the source contains. The code is a function from addresses to words, the data
-- those of any memory.
pub mod Effects
pub mod Refinement
mod Tests
use cpu_sim.Base.{
  zero, suc, ℕ, ◌+◌, ◌-◌, ◌*◌, ◌/◌, ◌%◌, ◌^◌, Bool, true, false, not, Option, none, some, bit_and,
  bit_or, bit_xor,
}
use cpu_sim.Base.{ltb, leb, ◌==◌, if◌then◌else◌, ◌>>=◌, add32, sub32, shl32, signed32, ltb_ℤ}
use cpu_sim.Isa.Op.{Op, Instruction}
use cpu_sim.Isa.Decoder.{decode}
use cpu_sim.Memory.Interface.{IMemory}
use cpu_sim.RegFile.{RegFile, read, write}

-- The instructions at which a program ends.
unfoldable pub halts : Op → Bool
halts Op.ebreak = true
halts Op.illegal = true
halts _ = false

-- Arithmetic right shift of a two's complement pattern.
abbrev pub shift_right_signed : ℕ → ℕ → ℕ
shift_right_signed a k = if ltb a (2 ^ 31) then a / 2 ^ k else 2 ^ 32 - 1 - (2 ^ 32 - 1 - a) / 2 ^ k

-- A pattern of w bits, w < 32, widened with its sign.
abbrev pub sign_extend : ℕ → ℕ → ℕ
sign_extend w n = if ltb n (2 ^ (w - 1)) then n else n + 2 ^ 32 - 2 ^ w

module _ (M : IMemory) where
  -- What an instruction does: the register result, if it has one, the next address, the memory.
  pub record Effect : Type 0 where
    pub value : Option ℕ
    pub next : ℕ
    pub mem : M.State

  module _ (pc imm a b : ℕ) (m : M.State) where
    abbrev pub result : ℕ → Option Effect
    result v = some (record { value = some v; next = add32 pc 4; mem = m })

    abbrev pub jump : Option ℕ → ℕ → Option Effect
    jump v next = some (record { value = v; next = next; mem = m })

    abbrev pub branch : Bool → Option Effect
    branch taken = jump none (if taken then add32 pc imm else add32 pc 4)

    abbrev pub keep : M.State → Option Effect
    keep m' = some (record { value = none; next = add32 pc 4; mem = m' })

    -- `a` and `b` are the values of rs1 and rs2.
    unfoldable pub effect : Op → Option Effect
    effect Op.add = result (add32 a b)
    effect Op.sub = result (sub32 a b)
    effect Op.sll = result (shl32 a (b % 32))
    effect Op.srl = result (a / 2 ^ (b % 32))
    effect Op.sra = result (shift_right_signed a (b % 32))
    effect Op.slt = result (if ltb_ℤ (signed32 a) (signed32 b) then 1 else 0)
    effect Op.sltu = result (if ltb a b then 1 else 0)
    effect Op.and = result (bit_and a b)
    effect Op.or = result (bit_or a b)
    effect Op.xor = result (bit_xor a b)
    effect Op.addi = result (add32 a imm)
    effect Op.slli = result (shl32 a (imm % 32))
    effect Op.srli = result (a / 2 ^ (imm % 32))
    effect Op.srai = result (shift_right_signed a (imm % 32))
    effect Op.slti = result (if ltb_ℤ (signed32 a) (signed32 imm) then 1 else 0)
    effect Op.sltiu = result (if ltb a imm then 1 else 0)
    effect Op.andi = result (bit_and a imm)
    effect Op.ori = result (bit_or a imm)
    effect Op.xori = result (bit_xor a imm)
    effect Op.lw = M.load_word m (add32 a imm) >>= result
    effect Op.lh = M.load_half m (add32 a imm) >>= λ v. result (sign_extend 16 v)
    effect Op.lhu = M.load_half m (add32 a imm) >>= result
    effect Op.lb = M.load_byte m (add32 a imm) >>= λ v. result (sign_extend 8 v)
    effect Op.lbu = M.load_byte m (add32 a imm) >>= result
    effect Op.sw = M.store_word m (add32 a imm) b >>= keep
    effect Op.sh = M.store_half m (add32 a imm) (b % 2 ^ 16) >>= keep
    effect Op.sb = M.store_byte m (add32 a imm) (b % 2 ^ 8) >>= keep
    effect Op.beq = branch (a == b)
    effect Op.bne = branch (not (a == b))
    effect Op.blt = branch (ltb_ℤ (signed32 a) (signed32 b))
    effect Op.bge = branch (not (ltb_ℤ (signed32 a) (signed32 b)))
    effect Op.bltu = branch (ltb a b)
    effect Op.bgeu = branch (leb b a)
    effect Op.jal = jump (some (add32 pc 4)) (add32 pc imm)
    effect Op.jalr = jump (some (add32 pc 4)) (add32 a imm - add32 a imm % 2)
    effect Op.lui = result imm
    effect Op.auipc = result (add32 pc imm)
    effect Op.ecall = keep m
    effect Op.fence = keep m
    effect Op.ebreak = keep m
    effect Op.illegal = keep m

  pub record Arch : Type 0 where
    pub pc : ℕ
    pub rf : RegFile
    pub mem : M.State

  abbrev pub put : RegFile → ℕ → Option ℕ → RegFile
  put rf rd none = rf
  put rf rd (some v) = write rf rd v

  -- The instruction `i` carried out.
  unfoldable pub carry_out : Instruction → Arch → Option Arch
  carry_out i s = effect s.pc i.imm (read s.rf i.rs1) (read s.rf i.rs2) s.mem i.op >>= λ e.
      some (record { pc = e.next; rf = put s.rf i.rd e.value; mem = e.mem })

  -- One step, which there is not at the end of the program, outside the code, or when the data
  -- address is outside the memory.
  unfoldable pub step : (ℕ → Option ℕ) → Arch → Option Arch
  unfolding carry_out halts
  step code s =
      code s.pc >>= λ raw. let i = decode raw s.pc in if halts i.op then none else carry_out i s

  -- `n` steps.
  unfoldable pub steps : (ℕ → Option ℕ) → ℕ → Arch → Option Arch
  steps code zero s = some s
  steps code (suc n) s = steps code n s >>= step code
