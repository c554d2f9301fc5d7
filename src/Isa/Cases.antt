-- ===== src/Isa/Cases.antt =====
-- `decode` on each opcode of the outer `switch`, with the fields of the word left as they are.
use cpu_sim.Base.{ℕ, ◌≡◌, if◌then◌else◌, ◌==◌}
use cpu_sim.Isa.Op.{Op, Instruction, lui, auipc, jal, jalr, fence}
use cpu_sim.Isa.Defs.{opc_lui, opc_auipc, opc_jal, opc_jalr, opc_branch, opc_load, opc_store}
use cpu_sim.Isa.Defs.{opc_op_imm, opc_op, opc_misc_mem, opc_system}
use cpu_sim.Isa.Encoding
use cpu_sim.Isa.Decoder.{undecoded, branch_op, load_op, store_op, decode_op_imm, op_op, system_op}
use cpu_sim.Isa.Decoder.{decode}

module _ (w pc : ℕ) where
  -- The operands that the `switch` leaves as it found them.
  abbrev pub with_op : Op → ℕ → ℕ → ℕ → ℕ → Instruction
  with_op op rd rs1 rs2 imm = record {
    raw = w;
    pc = pc;
    op = op;
    rd = rd;
    rs1 = rs1;
    rs2 = rs2;
    imm = imm;
  }

  pub decode-lui :
      Encoding.opcode w ≡ opc_lui → decode w pc ≡ with_op lui (Encoding.rd w) 0 0 (Encoding.imm_u w)
  unfolding decode
  decode-lui e = rw e

  pub decode-auipc :
      Encoding.opcode w ≡ opc_auipc
      → decode w pc ≡ with_op auipc (Encoding.rd w) 0 0 (Encoding.imm_u w)
  unfolding decode
  decode-auipc e = rw e

  pub decode-jal :
      Encoding.opcode w ≡ opc_jal → decode w pc ≡ with_op jal (Encoding.rd w) 0 0 (Encoding.imm_j w)
  unfolding decode
  decode-jal e = rw e

  pub decode-jalr :
      Encoding.opcode w ≡ opc_jalr
      → decode w pc ≡ (
          if Encoding.funct3 w == 0
          then with_op jalr (Encoding.rd w) (Encoding.rs1 w) 0 (Encoding.imm_i w)
          else undecoded w pc)
  unfolding decode
  decode-jalr e = rw e

  pub decode-branch :
      Encoding.opcode w ≡ opc_branch
      → decode w pc
        ≡ with_op
            (branch_op (Encoding.funct3 w))
            0
            (Encoding.rs1 w)
            (Encoding.rs2 w)
            (Encoding.imm_b w)
  unfolding decode
  decode-branch e = rw e

  pub decode-load :
      Encoding.opcode w ≡ opc_load
      → decode w pc
        ≡ with_op
            (load_op (Encoding.funct3 w))
            (Encoding.rd w)
            (Encoding.rs1 w)
            0
            (Encoding.imm_i w)
  unfolding decode
  decode-load e = rw e

  pub decode-store :
      Encoding.opcode w ≡ opc_store
      → decode w pc
        ≡ with_op
            (store_op (Encoding.funct3 w))
            0
            (Encoding.rs1 w)
            (Encoding.rs2 w)
            (Encoding.imm_s w)
  unfolding decode
  decode-store e = rw e

  pub decode-op_imm :
      Encoding.opcode w ≡ opc_op_imm
      → decode w pc ≡ decode_op_imm (undecoded w pc) w (Encoding.funct3 w) (Encoding.funct7 w)
  unfolding decode
  decode-op_imm e = rw e

  pub decode-op :
      Encoding.opcode w ≡ opc_op
      → decode w pc
        ≡ with_op
            (op_op (Encoding.funct3 w) (Encoding.funct7 w))
            (Encoding.rd w)
            (Encoding.rs1 w)
            (Encoding.rs2 w)
            0
  unfolding decode
  decode-op e = rw e

  pub decode-misc_mem :
      Encoding.opcode w ≡ opc_misc_mem
      → decode w pc ≡ (if Encoding.funct3 w == 0 then with_op fence 0 0 0 0 else undecoded w pc)
  unfolding decode
  decode-misc_mem e = rw e

  pub decode-system :
      Encoding.opcode w ≡ opc_system
      → decode w pc ≡ (
          if Encoding.funct3 w == 0
          then with_op (system_op (Encoding.funct12 w)) 0 0 0 0
          else undecoded w pc)
  unfolding decode
  decode-system e = rw e
