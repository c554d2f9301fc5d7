-- ===== src/Sim/Tracer.antt =====
-- `Tracer` of src/sim/tracer.cpp: the lines that it writes for the instructions in WB, with `op_name`
-- of src/isa/rv32i/decoder.cpp and `abi_name` of include/cpusim/regfile.h.
pub mod Texts
pub mod Widths
pub mod Lines
pub mod Columns
mod Tests
use Prim.Native.String.{String}
use cpu_sim.Base.{
  ℕ, ◌+◌, ◌==◌, Bool, true, false, not, if◌then◌else◌, Option, none, some, List, [], ◌∷◌, ◌++◌,
  get_or, add32, bit_and, shr,
}
use cpu_sim.Isa.Op.{Op, Instruction}
use cpu_sim.Isa.Decoder.{decode}
use cpu_sim.Pipeline.Regs.{MemWb}
use cpu_sim.Sim.Tracer.Texts.{
  Text, codes, decimal, signed_decimal, hex, zero_fill, left_fill, right_fill, hex_word, snprintf,
}

unfoldable pub op_name : Op → Text
op_name Op.add = codes "add"
op_name Op.sub = codes "sub"
op_name Op.sll = codes "sll"
op_name Op.srl = codes "srl"
op_name Op.sra = codes "sra"
op_name Op.slt = codes "slt"
op_name Op.sltu = codes "sltu"
op_name Op.and = codes "and"
op_name Op.or = codes "or"
op_name Op.xor = codes "xor"
op_name Op.addi = codes "addi"
op_name Op.slli = codes "slli"
op_name Op.srli = codes "srli"
op_name Op.srai = codes "srai"
op_name Op.slti = codes "slti"
op_name Op.sltiu = codes "sltiu"
op_name Op.andi = codes "andi"
op_name Op.ori = codes "ori"
op_name Op.xori = codes "xori"
op_name Op.lb = codes "lb"
op_name Op.lh = codes "lh"
op_name Op.lw = codes "lw"
op_name Op.lbu = codes "lbu"
op_name Op.lhu = codes "lhu"
op_name Op.sb = codes "sb"
op_name Op.sh = codes "sh"
op_name Op.sw = codes "sw"
op_name Op.beq = codes "beq"
op_name Op.bne = codes "bne"
op_name Op.blt = codes "blt"
op_name Op.bge = codes "bge"
op_name Op.bltu = codes "bltu"
op_name Op.bgeu = codes "bgeu"
op_name Op.jal = codes "jal"
op_name Op.jalr = codes "jalr"
op_name Op.lui = codes "lui"
op_name Op.auipc = codes "auipc"
op_name Op.ecall = codes "ecall"
op_name Op.ebreak = codes "ebreak"
op_name Op.fence = codes "fence"
op_name Op.illegal = codes "ILLEGAL"

abbrev pub abi_names : List Text
abi_names =
    codes "zero"
    ∷ codes "ra"
    ∷ codes "sp"
    ∷ codes "gp"
    ∷ codes "tp"
    ∷ codes "t0"
    ∷ codes "t1"
    ∷ codes "t2"
    ∷ codes "s0"
    ∷ codes "s1"
    ∷ codes "a0"
    ∷ codes "a1"
    ∷ codes "a2"
    ∷ codes "a3"
    ∷ codes "a4"
    ∷ codes "a5"
    ∷ codes "a6"
    ∷ codes "a7"
    ∷ codes "s2"
    ∷ codes "s3"
    ∷ codes "s4"
    ∷ codes "s5"
    ∷ codes "s6"
    ∷ codes "s7"
    ∷ codes "s8"
    ∷ codes "s9"
    ∷ codes "s10"
    ∷ codes "s11"
    ∷ codes "t3"
    ∷ codes "t4"
    ∷ codes "t5"
    ∷ codes "t6"
    ∷ []

-- An index is a five-bit field, so the assertion holds.
unfoldable pub abi_name : ℕ → Text
abi_name idx = get_or abi_names idx []

unfoldable pub is_load_op : Op → Bool
is_load_op Op.lw = true
is_load_op Op.lh = true
is_load_op Op.lhu = true
is_load_op Op.lb = true
is_load_op Op.lbu = true
is_load_op _ = false

unfoldable pub store_hex_digits : Op → ℕ
store_hex_digits Op.sb = 2
store_hex_digits Op.sh = 4
store_hex_digits _ = 8

-- The text that the two calls of `snprintf` write one behind the other, before it is cut to the buffer.
unfoldable pub effect_text : MemWb → Text
unfolding is_load_op store_hex_digits hex_word zero_fill hex right_fill decimal
effect_text wb =
    if wb.is_store
    then codes " mem "
      ++ hex_word wb.mem_addr
      ++ codes " 0x"
      ++ zero_fill (store_hex_digits wb.op) (hex wb.mem_val)
    else if not (wb.rd == 0)
    then codes " x"
      ++ right_fill 2 (decimal wb.rd)
      ++ codes " "
      ++ hex_word wb.wb_val
      ++ (if is_load_op wb.op then codes " mem " ++ hex_word wb.mem_addr else [])
    else []

unfoldable pub format_effect : ℕ → MemWb → Text
unfolding effect_text
format_effect size wb = snprintf size (effect_text wb)

-- The operands of each format, behind the mnemonic: `rd`, `rs1` and `rs2` are names.
module _ (rd rs1 rs2 : Text) (imm pc : ℕ) where
  abbrev pub mnemonic : Op → Text
  mnemonic op = right_fill 5 (op_name op) ++ codes " "

  -- "%-5s %s, %s, %s"
  abbrev three : Op → Text
  three op = mnemonic op ++ rd ++ codes ", " ++ rs1 ++ codes ", " ++ rs2

  -- "%-5s %s, %s, %d"
  abbrev immediate : Op → Text
  immediate op = mnemonic op ++ rd ++ codes ", " ++ rs1 ++ codes ", " ++ signed_decimal imm

  abbrev shift : Op → Text
  shift op =
      mnemonic op ++ rd ++ codes ", " ++ rs1 ++ codes ", " ++ signed_decimal (bit_and imm 0x1f)

  -- "%-5s %s, %d(%s)"
  abbrev load : Op → Text
  load op = mnemonic op ++ rd ++ codes ", " ++ signed_decimal imm ++ codes "(" ++ rs1 ++ codes ")"

  abbrev store : Op → Text
  store op = mnemonic op ++ rs2 ++ codes ", " ++ signed_decimal imm ++ codes "(" ++ rs1 ++ codes ")"

  -- "%-5s %s, %s, 0x%08x"
  abbrev branch : Op → Text
  branch op = mnemonic op ++ rs1 ++ codes ", " ++ rs2 ++ codes ", " ++ hex_word (add32 pc imm)

  -- "%-5s %s, 0x%08x"
  abbrev jump : Op → Text
  jump op = mnemonic op ++ rd ++ codes ", " ++ hex_word (add32 pc imm)

  -- "%-5s %s, 0x%x"
  abbrev upper : Op → Text
  upper op = mnemonic op ++ rd ++ codes ", " ++ (codes "0x" ++ hex (shr imm 12))

  unfoldable pub disasm_op : Op → Text
  unfolding op_name right_fill signed_decimal hex_word hex
  disasm_op Op.add = three Op.add
  disasm_op Op.sub = three Op.sub
  disasm_op Op.sll = three Op.sll
  disasm_op Op.srl = three Op.srl
  disasm_op Op.sra = three Op.sra
  disasm_op Op.slt = three Op.slt
  disasm_op Op.sltu = three Op.sltu
  disasm_op Op.and = three Op.and
  disasm_op Op.or = three Op.or
  disasm_op Op.xor = three Op.xor
  disasm_op Op.addi = immediate Op.addi
  disasm_op Op.slti = immediate Op.slti
  disasm_op Op.sltiu = immediate Op.sltiu
  disasm_op Op.andi = immediate Op.andi
  disasm_op Op.ori = immediate Op.ori
  disasm_op Op.xori = immediate Op.xori
  disasm_op Op.slli = shift Op.slli
  disasm_op Op.srli = shift Op.srli
  disasm_op Op.srai = shift Op.srai
  disasm_op Op.lb = load Op.lb
  disasm_op Op.lh = load Op.lh
  disasm_op Op.lw = load Op.lw
  disasm_op Op.lbu = load Op.lbu
  disasm_op Op.lhu = load Op.lhu
  disasm_op Op.sb = store Op.sb
  disasm_op Op.sh = store Op.sh
  disasm_op Op.sw = store Op.sw
  disasm_op Op.beq = branch Op.beq
  disasm_op Op.bne = branch Op.bne
  disasm_op Op.blt = branch Op.blt
  disasm_op Op.bge = branch Op.bge
  disasm_op Op.bltu = branch Op.bltu
  disasm_op Op.bgeu = branch Op.bgeu
  disasm_op Op.jal = jump Op.jal
  disasm_op Op.jalr = load Op.jalr
  disasm_op Op.lui = upper Op.lui
  disasm_op Op.auipc = upper Op.auipc
  disasm_op op = op_name op

unfoldable pub disasm_text : ℕ → ℕ → Text
unfolding disasm_op abi_name
disasm_text raw pc =
    let i = decode raw pc in
    disasm_op (abi_name i.rd) (abi_name i.rs1) (abi_name i.rs2) i.imm pc i.op

unfoldable pub disasm : ℕ → ℕ → ℕ → Text
unfolding disasm_text
disasm size raw pc = snprintf size (disasm_text raw pc)

pub data Format : Type 0 where
  commit cycle : Format

-- What `record` appends to the stream: a line with its end, or nothing.
unfoldable pub record_line : Format → MemWb → ℕ → Text
unfolding format_effect disasm left_fill decimal hex_word
record_line Format.cycle wb n =
    if not wb.valid
    then snprintf 16 (left_fill 6 (decimal n) ++ codes " |") ++ (10 ∷ [])
    else snprintf 80 (
        left_fill 6 (decimal n)
        ++ codes " | "
        ++ hex_word wb.pc
        ++ codes "  "
        ++ disasm 40 wb.raw wb.pc)
      ++ (10 ∷ [])
record_line Format.commit wb n =
    if not wb.valid
    then []
    else snprintf 128 (
        codes "core   0: 3 "
        ++ hex_word wb.pc
        ++ codes " ("
        ++ hex_word wb.raw
        ++ codes ")"
        ++ format_effect 64 wb)
      ++ (10 ∷ [])

pub record Tracer : Type 0 where
  pub out : Text
  pub fmt : Format

unfoldable pub create : Format → Tracer
create fmt = record { out = []; fmt = fmt }

-- `record`.
unfoldable pub trace : MemWb → ℕ → Tracer → Tracer
unfolding record_line
trace wb n t = record t { out = t.out ++ record_line t.fmt wb n }
