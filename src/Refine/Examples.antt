-- ===== src/Refine/Examples.antt =====
-- The program of two instructions, which halts within the cycles that the latencies give.
use cpu_sim.Base.{
  ℕ, zero, suc, ◌>>=◌, true, ◌%◌, ◌^◌, ◌≤◌, ◌≡◌, refl, arith, some, get_or, set, value_or,
}
use mathlib.Core.Path.{subst}
use mathlib.Core.Option
use cpu_sim.Memory.FlatMem
use cpu_sim.Memory.FlatMem.{FlatMem, flat_memory}
use cpu_sim.RegFile
use cpu_sim.Isa.Encoding
use cpu_sim.Isa.Decoder.{decode, undecoded, decode_op_imm, system_op}
use cpu_sim.Pipeline.Execute
use cpu_sim.Pipeline.MemAccess
use cpu_sim.Sim.Core.{Core, run, load_program, load_words}
use cpu_sim.Sim.Config.{make_core, asserted}
use cpu_sim.Arch.{Arch, step, steps, carry_out, effect, halts}
use cpu_sim.Refine.Standing.{Halts}
use cpu_sim.Refine.Nearby.{IsCovered}
use cpu_sim.Refine.Configured.{blank}
use cpu_sim.Refine.Terminates.{FitsInts, RunsTo, at_start, program-Halts}
use cpu_sim.Refine.Tests.{small, program}

abbrev code : FlatMem
code = value_or (blank small) (load_words flat_memory flat_memory program 0 (blank small))

-- The machine behind the first instruction.
abbrev behind : Arch flat_memory
behind =
    value_or (at_start small (blank small))
      (step flat_memory (FlatMem.load_word code) (at_start small (blank small)))

IsCovered-start : IsCovered (FlatMem.load_word code) 0
unfolding FlatMem.create FlatMem.load_word FlatMem.store_word FlatMem.offset FlatMem.byte_at
    FlatMem.put_byte get_or set load_words
IsCovered-start zero h = (_, refl)
IsCovered-start (suc zero) h = (_, refl)
IsCovered-start (suc (suc zero)) h = (_, refl)
IsCovered-start (suc (suc (suc zero))) h = (_, refl)
IsCovered-start (suc (suc (suc (suc zero)))) h = (_, refl)
IsCovered-start (suc (suc (suc (suc (suc i))))) h = absurd (omega arith)

IsCovered-behind : IsCovered (FlatMem.load_word code) 4
unfolding FlatMem.create FlatMem.load_word FlatMem.store_word FlatMem.offset FlatMem.byte_at
    FlatMem.put_byte get_or set load_words
IsCovered-behind zero h = (_, refl)
IsCovered-behind (suc zero) h = (_, refl)
IsCovered-behind (suc (suc zero)) h = (_, refl)
IsCovered-behind (suc (suc (suc zero))) h = (_, refl)
IsCovered-behind (suc (suc (suc (suc zero)))) h = (_, refl)
IsCovered-behind (suc (suc (suc (suc (suc i))))) h = absurd (omega arith)

program-IsCovered :
    (j : ℕ) (u : Arch flat_memory)
    → j ≤ 1
    → steps flat_memory (FlatMem.load_word code) j (at_start small (blank small)) ≡ some u
    → IsCovered (FlatMem.load_word code) u.pc
unfolding FlatMem.create FlatMem.load_word FlatMem.store_word FlatMem.offset FlatMem.byte_at
    FlatMem.put_byte get_or set load_words step steps carry_out effect halts RegFile.empty
    RegFile.read RegFile.write decode decode_op_imm system_op undecoded Encoding.opcode Encoding.rd
    Encoding.rs1 Encoding.rs2 Encoding.funct3 Encoding.funct7 Encoding.funct12 Encoding.sext
    Encoding.imm_i
program-IsCovered zero u h e =
    subst (λ (x : Arch flat_memory). IsCovered (FlatMem.load_word code) x.pc)
      (Option.some-injective _ _ e) IsCovered-start
program-IsCovered (suc zero) u h e =
    subst (λ (x : Arch flat_memory). IsCovered (FlatMem.load_word code) x.pc)
      (Option.some-injective _ _ e) IsCovered-behind
program-IsCovered (suc (suc j)) u h e = absurd (omega arith)

program-RunsTo : RunsTo small (blank small) code 1 behind
unfolding FlatMem.create FlatMem.load_word FlatMem.store_word FlatMem.offset FlatMem.byte_at
    FlatMem.put_byte get_or set load_words step steps carry_out effect halts RegFile.empty
    RegFile.read RegFile.write decode decode_op_imm system_op undecoded Encoding.opcode Encoding.rd
    Encoding.rs1 Encoding.rs2 Encoding.funct3 Encoding.funct7 Encoding.funct12 Encoding.sext
    Encoding.imm_i MemAccess.is_mem_op MemAccess.is_store Execute.is_cond_branch Execute.is_jal
    Execute.is_jalr
program-RunsTo = record {
  path = refl;
  end = record { word = 0x00100073; word_eq = refl; last = refl };
  calm = record { behind = 0; behind_eq = refl; no_access = refl; no_jump = refl };
  covered = program-IsCovered;
}

small_passes : asserted small ≡ true
unfolding asserted
small_passes = refl

small-FitsInts : FitsInts small
small-FitsInts = record {
  imem = omega arith;
  dmem = omega arith;
  icache = omega arith;
  dcache = omega arith;
}

program-Halts_example :
    (c c' : Core flat_memory flat_memory) × ((make_core small
        >>= load_program flat_memory flat_memory program)
      ≡ some c)
    × (run flat_memory flat_memory 20 c ≡ some c')
    × Halts flat_memory flat_memory flat_memory (FlatMem.load_word code) c' behind
    × (c'.stats.instructions ≡ 2 % 2 ^ 64)
unfolding FlatMem.create FlatMem.load_word FlatMem.store_word FlatMem.offset FlatMem.byte_at
    FlatMem.put_byte get_or set load_words
program-Halts_example =
    program-Halts small program 20 1 code behind small_passes small-FitsInts refl (omega arith)
      (omega arith) refl program-RunsTo
