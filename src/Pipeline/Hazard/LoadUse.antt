-- ===== src/Pipeline/Hazard/LoadUse.antt =====
-- `HazardUnit::evaluate` against the registers that the decoder gives an instruction.
use cpu_sim.Base.{ℕ, ◌≡◌, ◌≢◌, ◌⊎◌, arith, true, false}
use cpu_sim.Isa.Encoding
use cpu_sim.Isa.Decoder.{decode, decode_op_imm}
use cpu_sim.Pipeline.Latch.{Latch}
use cpu_sim.Pipeline.Regs.{IfId, IdEx}
use cpu_sim.Pipeline.Hazard.{is_load}
use cpu_sim.Pipeline.Hazard

-- A source register of a decoded instruction is its field of the word, or x0.
decode-rs1 : (w pc : ℕ) → ((decode w pc).rs1 ≡ Encoding.rs1 w) ⊎ ((decode w pc).rs1 ≡ 0)
unfolding decode decode_op_imm
decode-rs1 w pc = ground arith

decode-rs2 : (w pc : ℕ) → ((decode w pc).rs2 ≡ Encoding.rs2 w) ⊎ ((decode w pc).rs2 ≡ 0)
unfolding decode decode_op_imm
decode-rs2 w pc = ground arith

-- When the hazard unit sees no hazard behind a load to a register other than x0, the instruction
-- that is decoded reads neither of its operands from that register.
pub evaluate-decode :
    (if_id : Latch IfId) (id_ex : Latch IdEx)
    → (Hazard.evaluate if_id id_ex).stall ≡ false
    → id_ex.reg.valid ≡ true
    → is_load id_ex.reg.op ≡ true
    → id_ex.reg.rd ≢ 0
    → ((decode if_id.reg.raw if_id.reg.pc).rs1 ≢ id_ex.reg.rd)
      × ((decode if_id.reg.raw if_id.reg.pc).rs2 ≢ id_ex.reg.rd)
unfolding Hazard.evaluate Encoding.rs1 Encoding.rs2
evaluate-decode if_id id_ex h v l nz = ground (
  arith,
  decode-rs1 if_id.reg.raw if_id.reg.pc,
  decode-rs2 if_id.reg.raw if_id.reg.pc,
  h,
  v,
  l,
  nz,
)
