-- ===== src/Sim/Tracer/Tests.antt =====
-- The lines for `addi x1, x0, 5`, and what is read back of them.
use cpu_sim.Base.{◌≡◌, refl, arith, [], ◌∷◌, ◌++◌, take, drop, true, get_or}
use cpu_sim.Isa.Op.{Op}
use cpu_sim.Pipeline.Regs.{MemWb, mem_wb_bubble}
use cpu_sim.Sim.Tracer.Texts.{codes, digits, decimal, hex, zero_fill, right_fill, hex_word}
use cpu_sim.Sim.Tracer.{
  Format, record_line, disasm_op, op_name, abi_name, effect_text, format_effect, is_load_op,
}
use cpu_sim.Sim.Tracer.Lines.{whole_line, record_line-whole}
use cpu_sim.Sim.Tracer.Columns.{read_hex, commit_line-words}

abbrev addi : MemWb
addi = record mem_wb_bubble {
  pc = 0x80000000;
  raw = 0x00500093;
  op = Op.addi;
  rd = 1;
  wb_val = 5;
  valid = true;
}

addi-line :
    record_line Format.commit addi 7
    ≡ codes "core   0: 3 0x80000000 (0x00500093) x1  0x00000005" ++ (10 ∷ [])
unfolding record_line format_effect effect_text is_load_op hex_word zero_fill hex digits right_fill
    decimal
addi-line = refl

addi-text : disasm_op (abi_name 1) (abi_name 0) (abi_name 0) 5 0 Op.addi ≡ codes "addi  ra, zero, 5"
unfolding disasm_op op_name abi_name right_fill digits decimal get_or
addi-text = refl

record_line-whole_example : record_line Format.cycle addi 7 ≡ whole_line Format.cycle addi 7
record_line-whole_example = record_line-whole Format.cycle addi 7 (omega arith)

commit_line-words_example :
    (read_hex 0 (take 8 (drop 14 (record_line Format.commit addi 7))) ≡ 0x80000000)
    × (read_hex 0 (take 8 (drop 26 (record_line Format.commit addi 7))) ≡ 0x00500093)
commit_line-words_example = commit_line-words addi 7 refl (omega arith) (omega arith)
