-- ===== src/Isa/Decoder.antt =====
-- `decode` of src/isa/rv32i/decoder.cpp. Each `case` of its `switch` on the opcode is a function.
use cpu_sim.Base.{ℕ, bit_and, ◌==◌, if◌then◌else◌}
use cpu_sim.Isa.Op.{Op, Instruction}
use cpu_sim.Isa.Op.{add, sub, sll, srl, sra, slt, sltu, and, or, xor, addi, slli, srli, srai, slti}
use cpu_sim.Isa.Op.{sltiu, andi, ori, xori, lb, lh, lw, lbu, lhu, sb, sh, sw, beq, bne, blt, bge}
use cpu_sim.Isa.Op.{bltu, bgeu, jal, jalr, lui, auipc, ecall, ebreak, fence, illegal}
use cpu_sim.Isa.Defs.{opc_lui, opc_auipc, opc_jal, opc_jalr, opc_branch, opc_load, opc_store}
use cpu_sim.Isa.Defs.{opc_op_imm, opc_op, opc_misc_mem, opc_system}
use cpu_sim.Isa.Defs.{f3_beq, f3_bne, f3_blt, f3_bge, f3_bltu, f3_bgeu, f3_lb, f3_lh, f3_lw}
use cpu_sim.Isa.Defs.{f3_lbu, f3_lhu, f3_sb, f3_sh, f3_sw, f3_add_sub, f3_sll, f3_slt, f3_sltu}
use cpu_sim.Isa.Defs.{f3_xor, f3_srl_sra, f3_or, f3_and, f7_base, f7_alt, f12_ecall, f12_ebreak}
use cpu_sim.Isa.Encoding

-- What stands in `insn` before the `switch`.
unfoldable pub undecoded : ℕ → ℕ → Instruction
undecoded raw pc = record {
  raw = raw;
  pc = pc;
  op = illegal;
  rd = Encoding.rd raw;
  rs1 = Encoding.rs1 raw;
  rs2 = Encoding.rs2 raw;
  imm = 0;
}

-- The inner `switch (f3)` of the branches, the loads and the stores.
unfoldable pub branch_op : ℕ → Op
branch_op f3 =
    if f3 == f3_beq
    then beq
    else if f3 == f3_bne
    then bne
    else if f3 == f3_blt
    then blt
    else if f3 == f3_bge
    then bge
    else if f3 == f3_bltu
    then bltu
    else if f3 == f3_bgeu
    then bgeu
    else illegal

unfoldable pub load_op : ℕ → Op
load_op f3 =
    if f3 == f3_lb
    then lb
    else if f3 == f3_lh
    then lh
    else if f3 == f3_lw
    then lw
    else if f3 == f3_lbu
    then lbu
    else if f3 == f3_lhu
    then lhu
    else illegal

unfoldable pub store_op : ℕ → Op
store_op f3 =
    if f3 == f3_sb then sb else if f3 == f3_sh then sh else if f3 == f3_sw then sw else illegal

-- `case OPC_OP_IMM`: a shift has its own test on funct7 and a 5-bit immediate.
unfoldable pub decode_op_imm : Instruction → ℕ → ℕ → ℕ → Instruction
decode_op_imm insn raw f3 f7 =
    let i = record insn { imm = Encoding.imm_i raw; rs2 = 0 } in
    let shamt = bit_and (Encoding.imm_i raw) 0x1f in
    if f3 == f3_add_sub
    then record i { op = addi }
    else if f3 == f3_slt
    then record i { op = slti }
    else if f3 == f3_sltu
    then record i { op = sltiu }
    else if f3 == f3_xor
    then record i { op = xori }
    else if f3 == f3_or
    then record i { op = ori }
    else if f3 == f3_and
    then record i { op = andi }
    else if f3 == f3_sll
    then (if f7 == f7_base then record i { op = slli; imm = shamt } else i)
    else if f3 == f3_srl_sra
    then (if f7 == f7_base
        then record i { op = srli; imm = shamt }
        else if f7 == f7_alt
        then record i { op = srai; imm = shamt }
        else i)
    else i

-- `case OPC_OP`: the operation by funct3 and funct7.
unfoldable pub op_op : ℕ → ℕ → Op
op_op f3 f7 =
    if f3 == f3_add_sub
    then (if f7 == f7_base then add else if f7 == f7_alt then sub else illegal)
    else if f3 == f3_sll
    then (if f7 == f7_base then sll else illegal)
    else if f3 == f3_slt
    then (if f7 == f7_base then slt else illegal)
    else if f3 == f3_sltu
    then (if f7 == f7_base then sltu else illegal)
    else if f3 == f3_xor
    then (if f7 == f7_base then xor else illegal)
    else if f3 == f3_srl_sra
    then (if f7 == f7_base then srl else if f7 == f7_alt then sra else illegal)
    else if f3 == f3_or
    then (if f7 == f7_base then or else illegal)
    else if f3 == f3_and
    then (if f7 == f7_base then and else illegal)
    else illegal

unfoldable pub system_op : ℕ → Op
system_op f12 = if f12 == f12_ecall then ecall else if f12 == f12_ebreak then ebreak else illegal

-- `decode`: the outer `switch (opc)`.
unfoldable pub decode : ℕ → ℕ → Instruction
unfolding undecoded
decode raw pc =
    let opc = Encoding.opcode raw in
    let f3 = Encoding.funct3 raw in
    let f7 = Encoding.funct7 raw in
    let insn = undecoded raw pc in
    if opc == opc_lui
    then record insn { op = lui; imm = Encoding.imm_u raw; rs1 = 0; rs2 = 0 }
    else if opc == opc_auipc
    then record insn { op = auipc; imm = Encoding.imm_u raw; rs1 = 0; rs2 = 0 }
    else if opc == opc_jal
    then record insn { op = jal; imm = Encoding.imm_j raw; rs1 = 0; rs2 = 0 }
    else if opc == opc_jalr
    then (if f3 == 0 then record insn { op = jalr; imm = Encoding.imm_i raw; rs2 = 0 } else insn)
    else if opc == opc_branch
    then record insn { imm = Encoding.imm_b raw; rd = 0; op = branch_op f3 }
    else if opc == opc_load
    then record insn { imm = Encoding.imm_i raw; rs2 = 0; op = load_op f3 }
    else if opc == opc_store
    then record insn { imm = Encoding.imm_s raw; rd = 0; op = store_op f3 }
    else if opc == opc_op_imm
    then decode_op_imm insn raw f3 f7
    else if opc == opc_op
    then record insn { imm = 0; op = op_op f3 f7 }
    else if opc == opc_misc_mem
    then (if f3 == 0 then record insn { op = fence; rd = 0; rs1 = 0; rs2 = 0; imm = 0 } else insn)
    else if opc == opc_system
    then (if f3 == 0
        then record insn {
          rd = 0;
          rs1 = 0;
          rs2 = 0;
          imm = 0;
          op = system_op (Encoding.funct12 raw);
        }
        else insn)
    else insn
