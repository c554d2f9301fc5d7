-- ===== src/Isa/Defs.antt =====
-- The opcode, funct3, funct7 and funct12 constants of include/cpusim/isa/rv32i/defs.h.
use cpu_sim.Base.{ℕ}

abbrev pub opc_lui : ℕ
opc_lui = 0b0110111

abbrev pub opc_auipc : ℕ
opc_auipc = 0b0010111

abbrev pub opc_jal : ℕ
opc_jal = 0b1101111

abbrev pub opc_jalr : ℕ
opc_jalr = 0b1100111

abbrev pub opc_branch : ℕ
opc_branch = 0b1100011

abbrev pub opc_load : ℕ
opc_load = 0b0000011

abbrev pub opc_store : ℕ
opc_store = 0b0100011

abbrev pub opc_op_imm : ℕ
opc_op_imm = 0b0010011

abbrev pub opc_op : ℕ
opc_op = 0b0110011

abbrev pub opc_misc_mem : ℕ
opc_misc_mem = 0b0001111

abbrev pub opc_system : ℕ
opc_system = 0b1110011

abbrev pub f3_beq : ℕ
f3_beq = 0b000

abbrev pub f3_bne : ℕ
f3_bne = 0b001

abbrev pub f3_blt : ℕ
f3_blt = 0b100

abbrev pub f3_bge : ℕ
f3_bge = 0b101

abbrev pub f3_bltu : ℕ
f3_bltu = 0b110

abbrev pub f3_bgeu : ℕ
f3_bgeu = 0b111

abbrev pub f3_lb : ℕ
f3_lb = 0b000

abbrev pub f3_lh : ℕ
f3_lh = 0b001

abbrev pub f3_lw : ℕ
f3_lw = 0b010

abbrev pub f3_lbu : ℕ
f3_lbu = 0b100

abbrev pub f3_lhu : ℕ
f3_lhu = 0b101

abbrev pub f3_sb : ℕ
f3_sb = 0b000

abbrev pub f3_sh : ℕ
f3_sh = 0b001

abbrev pub f3_sw : ℕ
f3_sw = 0b010

abbrev pub f3_add_sub : ℕ
f3_add_sub = 0b000

abbrev pub f3_sll : ℕ
f3_sll = 0b001

abbrev pub f3_slt : ℕ
f3_slt = 0b010

abbrev pub f3_sltu : ℕ
f3_sltu = 0b011

abbrev pub f3_xor : ℕ
f3_xor = 0b100

abbrev pub f3_srl_sra : ℕ
f3_srl_sra = 0b101

abbrev pub f3_or : ℕ
f3_or = 0b110

abbrev pub f3_and : ℕ
f3_and = 0b111

abbrev pub f7_base : ℕ
f7_base = 0b0000000

abbrev pub f7_alt : ℕ
f7_alt = 0b0100000

abbrev pub f12_ecall : ℕ
f12_ecall = 0

abbrev pub f12_ebreak : ℕ
f12_ebreak = 1
