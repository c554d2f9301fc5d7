-- ===== src/Isa/RoundTrip/Sound.antt =====
-- What `decode` returns is legal, and unless its format leaves bits free, assembles to the word.
use cpu_sim.Base.{ℕ, ◌^◌, ◌<◌, ◌≡◌, ◌≢◌, refl, ◌⊎◌, inl, inr, arith}
use cpu_sim.Base.{ne→==}
use cpu_sim.Base.Bits.{bit_and_mask}
use cpu_sim.Isa.Op.{Op, Instruction, illegal, jalr, fence}
use cpu_sim.Isa.Encoding
use cpu_sim.Isa.Immediates.{opcode_sum, rd_sum, funct3_sum, rs1_sum, rs2_sum, funct7_sum}
use cpu_sim.Isa.Immediates.{imm_i_sum, imm_s_sum, imm_b_sum, imm_u_sum, imm_j_sum}
use cpu_sim.Isa.Decoder.{decode_op_imm, undecoded}
use cpu_sim.Isa.Decoder.{decode}
use cpu_sim.Isa.Assembler.{Format, format, assemble_format, assemble, IsLegal, Operands}
use cpu_sim.Isa.Cases.{with_op, decode-lui, decode-auipc, decode-jal, decode-jalr, decode-branch}
use cpu_sim.Isa.Cases.{decode-load, decode-store, decode-op_imm, decode-op, decode-misc_mem}
use cpu_sim.Isa.Cases.{decode-system}
use cpu_sim.Isa.RoundTrip.Choices.{branch_op-format, load_op-format, store_op-format}
use cpu_sim.Isa.RoundTrip.Choices.{op_op-format, system_op-format}
use native.Mathlib.Decide.{ℕ_discrete}

-- FENCE, ECALL and EBREAK are recognised by some of their fields only.
abbrev pub IsExact : Format → Type 0
IsExact Format.fence_type = ⊥
IsExact (Format.system_type f12) = ⊥
IsExact Format.no_type = ⊥
IsExact _ = Unit {0}

abbrev Sound : ℕ → Instruction → Type 0
Sound w i = (i.op ≡ illegal) ⊎ (IsLegal i × (IsExact (format i.op) → assemble i ≡ w))

module _ (w pc : ℕ) (fits : w < 2 ^ 32) where
  -- A word is its fields.
  abbrev WordOf : Op → Format → ℕ → ℕ → ℕ → ℕ → Type 0
  WordOf op f rd rs1 rs2 imm =
      Operands rd rs1 rs2 imm f × (IsExact f → assemble_format rd rs1 rs2 imm f ≡ w)

  assembled :
      (op : Op) (rd rs1 rs2 imm : ℕ) (f : Format)
      → (op ≡ illegal) ⊎ (format op ≡ f)
      → WordOf op f rd rs1 rs2 imm
      → Sound w (with_op w pc op rd rs1 rs2 imm)
  assembled op rd rs1 rs2 imm f (inl e) h = inl e
  assembled op rd rs1 rs2 imm f (inr e) h = inr (rw e h)

  op_Sound : Encoding.opcode w ≡ 0x33 → Sound w (decode w pc)
  op_Sound e = rw (decode-op w pc e) (
      assembled _ _ _ _ _ _ (op_op-format (Encoding.funct3 w) (Encoding.funct7 w))
        (omega (arith, opcode_sum w, rd_sum w, funct3_sum w, rs1_sum w, rs2_sum w, funct7_sum w)))

  load_Sound : Encoding.opcode w ≡ 0x03 → Sound w (decode w pc)
  load_Sound e = rw (decode-load w pc e) (
      assembled _ _ _ _ _ _ (load_op-format (Encoding.funct3 w))
        (ground (arith, opcode_sum w, rd_sum w, funct3_sum w, rs1_sum w, imm_i_sum w fits)))

  store_Sound : Encoding.opcode w ≡ 0x23 → Sound w (decode w pc)
  store_Sound e = rw (decode-store w pc e) (
      assembled _ _ _ _ _ _ (store_op-format (Encoding.funct3 w))
        (ground (arith, opcode_sum w, funct3_sum w, rs1_sum w, rs2_sum w, imm_s_sum w fits)))

  branch_Sound : Encoding.opcode w ≡ 0x63 → Sound w (decode w pc)
  branch_Sound e = rw (decode-branch w pc e) (
      assembled _ _ _ _ _ _ (branch_op-format (Encoding.funct3 w))
        (ground (arith, opcode_sum w, funct3_sum w, rs1_sum w, rs2_sum w, imm_b_sum w fits)))

  lui_Sound : Encoding.opcode w ≡ 0x37 → Sound w (decode w pc)
  lui_Sound e = rw (decode-lui w pc e) (
      assembled _ _ _ _ _ (Format.u_type 0x37) (inr refl)
        (ground (arith, opcode_sum w, rd_sum w, imm_u_sum w fits)))

  auipc_Sound : Encoding.opcode w ≡ 0x17 → Sound w (decode w pc)
  auipc_Sound e = rw (decode-auipc w pc e) (
      assembled _ _ _ _ _ (Format.u_type 0x17) (inr refl)
        (ground (arith, opcode_sum w, rd_sum w, imm_u_sum w fits)))

  jal_Sound : Encoding.opcode w ≡ 0x6f → Sound w (decode w pc)
  jal_Sound e = rw (decode-jal w pc e) (
      assembled _ _ _ _ _ Format.j_type (inr refl)
        (ground (arith, opcode_sum w, rd_sum w, imm_j_sum w fits)))

  jalr_Sound : Encoding.opcode w ≡ 0x67 → Sound w (decode w pc)
  unfolding undecoded
  jalr_Sound e = rw (decode-jalr w pc e) (elim (ℕ_discrete (Encoding.funct3 w) 0) [
    | yes z ↦ rw z (
        assembled jalr _ _ _ _ (Format.i_type 0x67 0) (inr refl)
          (ground (arith, opcode_sum w, rd_sum w, funct3_sum w, rs1_sum w, imm_i_sum w fits)))
    | no n ↦ rw (ne→== _ _ n) (inl refl)
  ])

  misc_Sound : Encoding.opcode w ≡ 0x0f → Sound w (decode w pc)
  unfolding undecoded
  misc_Sound e = rw (decode-misc_mem w pc e) (elim (ℕ_discrete (Encoding.funct3 w) 0) [
    | yes z ↦ rw z (assembled fence _ _ _ _ Format.fence_type (inr refl) (ground arith))
    | no n ↦ rw (ne→== _ _ n) (inl refl)
  ])

  system_Sound : Encoding.opcode w ≡ 0x73 → Sound w (decode w pc)
  unfolding undecoded
  system_Sound e = rw (decode-system w pc e) (elim (ℕ_discrete (Encoding.funct3 w) 0) [
    | yes z ↦ rw z (assembled _ _ _ _ _ _ (system_op-format (Encoding.funct12 w)) (ground arith))
    | no n ↦ rw (ne→== _ _ n) (inl refl)
  ])

  imm_Sound : Encoding.opcode w ≡ 0x13 → Sound w (decode w pc)
  unfolding undecoded decode_op_imm
  imm_Sound e = rw (decode-op_imm w pc e) (
      ground (
        arith,
        opcode_sum w,
        rd_sum w,
        funct3_sum w,
        rs1_sum w,
        funct7_sum w,
        imm_i_sum w fits,
        bit_and_mask 5 (Encoding.imm_i w),
      ))

  other_Sound :
      (n1 : Encoding.opcode w ≢ 0x37) (n2 : Encoding.opcode w ≢ 0x17)
      (n3 : Encoding.opcode w ≢ 0x6f) (n4 : Encoding.opcode w ≢ 0x67)
      (n5 : Encoding.opcode w ≢ 0x63) (n6 : Encoding.opcode w ≢ 0x03)
      (n7 : Encoding.opcode w ≢ 0x23) (n8 : Encoding.opcode w ≢ 0x13)
      (n9 : Encoding.opcode w ≢ 0x33) (n10 : Encoding.opcode w ≢ 0x0f)
      (n11 : Encoding.opcode w ≢ 0x73)
      → Sound w (decode w pc)
  unfolding decode
  other_Sound n1 n2 n3 n4 n5 n6 n7 n8 n9 n10 n11 =
      rw
        (
          ne→== _ _ n1,
          ne→== _ _ n2,
          ne→== _ _ n3,
          ne→== _ _ n4,
          ne→== _ _ n5,
          ne→== _ _ n6,
          ne→== _ _ n7,
          ne→== _ _ n8,
          ne→== _ _ n9,
          ne→== _ _ n10,
          ne→== _ _ n11,
        )
        (inl refl)

  decode-Sound : Sound w (decode w pc)
  decode-Sound = split 0x37 lui_Sound λ n1. split 0x17 auipc_Sound λ n2. split 0x6f jal_Sound λ n3.
      split 0x67 jalr_Sound λ n4. split 0x63 branch_Sound λ n5. split 0x03 load_Sound λ n6.
        split 0x23 store_Sound λ n7. split 0x13 imm_Sound λ n8. split 0x33 op_Sound λ n9.
          split 0x0f misc_Sound
            λ n10. split 0x73 system_Sound λ n11. other_Sound n1 n2 n3 n4 n5 n6 n7 n8 n9 n10 n11
    where
      split :
          (opc : ℕ)
          → (Encoding.opcode w ≡ opc → Sound w (decode w pc))
          → (Encoding.opcode w ≢ opc → Sound w (decode w pc))
          → Sound w (decode w pc)
      split opc here there = elim (ℕ_discrete (Encoding.opcode w) opc) [
        | yes e ↦ here e
        | no n ↦ there n
      ]

-- A word that is not decoded as ILLEGAL is decoded to a legal instruction: the registers are below
-- 32, those that the format lacks are 0, and the immediate is in the format's range.
pub decode-IsLegal : (w pc : ℕ) → w < 2 ^ 32 → (decode w pc).op ≢ illegal → IsLegal (decode w pc)
decode-IsLegal w pc fits ok = elim (decode-Sound w pc fits) [ inl e ↦ absurd (ok e) | inr s ↦ s.0 ]

-- Decoding loses nothing: but for FENCE, ECALL, EBREAK and ILLEGAL, the decoded instruction
-- assembles to the word it was decoded from.
pub assemble-decode :
    (w pc : ℕ) → w < 2 ^ 32 → IsExact (format (decode w pc).op) → assemble (decode w pc) ≡ w
assemble-decode w pc fits exact = elim (decode-Sound w pc fits) [
  | inl e ↦ absurd (rw e at exact)
  | inr s ↦ s.1 exact
]
