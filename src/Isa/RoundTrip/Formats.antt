-- ===== src/Isa/RoundTrip/Formats.antt =====
-- `decode` on an assembled word of each format.
use cpu_sim.Base.{ℕ, bit_and, ◌/◌, ◌^◌, ◌<◌, ◌≡◌, arith}
use cpu_sim.Base.Bits.{bit_and_mask}
use cpu_sim.Isa.Op.{Op, Instruction, lui, auipc, jal, jalr, fence}
use cpu_sim.Isa.Immediates.{imm_i_sum, imm_s_sum, imm_b_sum, imm_u_sum, imm_j_sum}
use cpu_sim.Isa.Encoding
use cpu_sim.Isa.Decoder.{branch_op, load_op, store_op, decode_op_imm, op_op, system_op, undecoded}
use cpu_sim.Isa.Decoder.{decode}
use cpu_sim.Isa.Assembler.{Format, assemble_format, Operands}
use cpu_sim.Isa.Cases.{with_op, decode-lui, decode-auipc, decode-jal, decode-jalr, decode-branch}
use cpu_sim.Isa.Cases.{decode-load, decode-store, decode-op_imm, decode-op, decode-misc_mem}
use cpu_sim.Isa.Cases.{decode-system}
use cpu_sim.Isa.RoundTrip.Fields.{word-HasFields}

module _ (pc rd rs1 rs2 imm w f3 : ℕ) (h3 : f3 < 8) where
  pub decode_r_type :
      (f7 : ℕ)
      → f7 < 128
      → Operands rd rs1 rs2 imm (Format.r_type f3 f7)
      → w ≡ assemble_format rd rs1 rs2 imm (Format.r_type f3 f7)
      → decode w pc ≡ with_op w pc (op_op f3 f7) rd rs1 rs2 imm
  decode_r_type f7 h7 o e =
      let f = word-HasFields h7 o.2 o.1 h3 o.0 (omega arith) e in
      ground (arith, decode-op w pc f.opcode_eq)

  pub decode_load_type :
      Operands rd rs1 rs2 imm (Format.i_type 0x03 f3)
      → w ≡ assemble_format rd rs1 rs2 imm (Format.i_type 0x03 f3)
      → decode w pc ≡ with_op w pc (load_op f3) rd rs1 rs2 imm
  decode_load_type o e =
      let f = word-HasFields (omega arith) (omega arith) o.1 h3 o.0 (omega arith) e in
      ground (arith, decode-load w pc f.opcode_eq, imm_i_sum w f.fits)

  pub decode_store_type :
      Operands rd rs1 rs2 imm (Format.s_type 0x23 f3)
      → w ≡ assemble_format rd rs1 rs2 imm (Format.s_type 0x23 f3)
      → decode w pc ≡ with_op w pc (store_op f3) rd rs1 rs2 imm
  decode_store_type o e =
      let f = word-HasFields (omega arith) o.2 o.1 h3 (omega arith) (omega arith) e in
      ground (arith, decode-store w pc f.opcode_eq, imm_s_sum w f.fits)

  pub decode_branch_type :
      Operands rd rs1 rs2 imm (Format.b_type 0x63 f3)
      → w ≡ assemble_format rd rs1 rs2 imm (Format.b_type 0x63 f3)
      → decode w pc ≡ with_op w pc (branch_op f3) rd rs1 rs2 imm
  decode_branch_type o e =
      let f = word-HasFields (omega arith) o.2 o.1 h3 (omega arith) (omega arith) e in
      ground (arith, decode-branch w pc f.opcode_eq, imm_b_sum w f.fits)

  -- `chosen` says which operation `decode_op_imm` picks at this funct3.
  pub decode_imm_type :
      (op : Op)
      → ((i : Instruction) (f7 : ℕ)
          → decode_op_imm i w f3 f7 ≡ record i { imm = Encoding.imm_i w; rs2 = 0; op = op })
      → Operands rd rs1 rs2 imm (Format.i_type 0x13 f3)
      → w ≡ assemble_format rd rs1 rs2 imm (Format.i_type 0x13 f3)
      → decode w pc ≡ with_op w pc op rd rs1 rs2 imm
  unfolding undecoded
  decode_imm_type op chosen o e =
      let f = word-HasFields (omega arith) (omega arith) o.1 h3 o.0 (omega arith) e in
      ground (
        arith,
        decode-op_imm w pc f.opcode_eq,
        chosen (undecoded w pc) (Encoding.funct7 w),
        imm_i_sum w f.fits,
      )

  pub decode_shift_type :
      (op : Op) (f7 : ℕ)
      → f7 < 128
      → ((i : Instruction)
          → decode_op_imm i w f3 f7
            ≡ record i { imm = bit_and (Encoding.imm_i w) 0x1f; rs2 = 0; op = op })
      → Operands rd rs1 rs2 imm (Format.shift_type f3 f7)
      → w ≡ assemble_format rd rs1 rs2 imm (Format.shift_type f3 f7)
      → decode w pc ≡ with_op w pc op rd rs1 rs2 imm
  unfolding undecoded
  decode_shift_type op f7 h7 chosen o e =
      let f = word-HasFields h7 o.3 o.1 h3 o.0 (omega arith) e in
      ground (
        arith,
        decode-op_imm w pc f.opcode_eq,
        chosen (undecoded w pc),
        bit_and_mask 5 (Encoding.imm_i w),
        imm_i_sum w f.fits,
      )

module _ (pc rd rs1 rs2 imm w : ℕ) where
  pub decode_jalr_type :
      Operands rd rs1 rs2 imm (Format.i_type 0x67 0)
      → w ≡ assemble_format rd rs1 rs2 imm (Format.i_type 0x67 0)
      → decode w pc ≡ with_op w pc jalr rd rs1 rs2 imm
  decode_jalr_type o e =
      let f =
        word-HasFields {f3 = 0} (omega arith) (omega arith) o.1 (omega arith) o.0 (omega arith) e in
      ground (arith, decode-jalr w pc f.opcode_eq, imm_i_sum w f.fits)

  pub decode_lui_type :
      Operands rd rs1 rs2 imm (Format.u_type 0x37)
      → w ≡ assemble_format rd rs1 rs2 imm (Format.u_type 0x37)
      → decode w pc ≡ with_op w pc lui rd rs1 rs2 imm
  decode_lui_type o e =
      let f =
        word-HasFields (omega arith) (omega arith) (omega arith) (omega arith) o.0 (omega arith)
          e in
      ground (arith, decode-lui w pc f.opcode_eq, imm_u_sum w f.fits)

  pub decode_auipc_type :
      Operands rd rs1 rs2 imm (Format.u_type 0x17)
      → w ≡ assemble_format rd rs1 rs2 imm (Format.u_type 0x17)
      → decode w pc ≡ with_op w pc auipc rd rs1 rs2 imm
  decode_auipc_type o e =
      let f =
        word-HasFields (omega arith) (omega arith) (omega arith) (omega arith) o.0 (omega arith)
          e in
      ground (arith, decode-auipc w pc f.opcode_eq, imm_u_sum w f.fits)

  pub decode_jal_type :
      Operands rd rs1 rs2 imm Format.j_type
      → w ≡ assemble_format rd rs1 rs2 imm Format.j_type
      → decode w pc ≡ with_op w pc jal rd rs1 rs2 imm
  decode_jal_type o e =
      let f =
        word-HasFields (omega arith) (omega arith) (omega arith) (omega arith) o.0 (omega arith)
          e in
      ground (arith, decode-jal w pc f.opcode_eq, imm_j_sum w f.fits)

  pub decode_fence_type :
      Operands rd rs1 rs2 imm Format.fence_type
      → w ≡ assemble_format rd rs1 rs2 imm Format.fence_type
      → decode w pc ≡ with_op w pc fence rd rs1 rs2 imm
  decode_fence_type o e =
      let f =
        word-HasFields {f7 = 0} {rs2 = 0} {rs1 = 0} {f3 = 0} {rd = 0} {opc = 0x0f} (omega arith)
          (omega arith) (omega arith) (omega arith) (omega arith) (omega arith) e in
      ground (arith, decode-misc_mem w pc f.opcode_eq)

  pub decode_system_type :
      (f12 : ℕ)
      → f12 < 2
      → Operands rd rs1 rs2 imm (Format.system_type f12)
      → w ≡ assemble_format rd rs1 rs2 imm (Format.system_type f12)
      → decode w pc ≡ with_op w pc (system_op f12) rd rs1 rs2 imm
  unfolding Encoding.funct12
  decode_system_type f12 h o e =
      let f =
        word-HasFields {f7 = 0} {rs2 = f12} {rs1 = 0} {f3 = 0} {rd = 0} (omega arith) (omega arith)
          (omega arith) (omega arith) (omega arith) (omega arith) e in
      let f12_eq : w / 2 ^ 20 ≡ f12 = omega arith in ground (arith, decode-system w pc f.opcode_eq)
