-- ===== src/Pipeline/Decode.antt =====
-- `DecodeStage` of src/uarch/pipeline/decode.cpp.
use cpu_sim.Base.{Bool, true, false, if◌then◌else◌}
use cpu_sim.Isa.Decoder.{decode}
use cpu_sim.RegFile
use cpu_sim.RegFile.{RegFile}
use cpu_sim.Pipeline.Latch.{Latch, write, latch, flush}
use cpu_sim.Pipeline.Regs.{IfId, IdEx, id_ex_bubble}

pub record DecodeStage : Type 0 where
  pub stall : Bool
  pub flush : Bool

abbrev pub create : DecodeStage
create = record { stall = false; flush = false }

unfoldable pub set_stall : Bool → DecodeStage → DecodeStage
set_stall s d = record d { stall = s }

unfoldable pub set_flush : Bool → DecodeStage → DecodeStage
set_flush f d = record d { flush = f }

-- What `evaluate` puts into the shadow.
unfoldable pub decoded : RegFile → IfId → IdEx
decoded rf fetch =
    let insn = decode fetch.raw fetch.pc in
    if fetch.valid
    then record {
      pc = fetch.pc;
      raw = fetch.raw;
      op = insn.op;
      rd = insn.rd;
      rs1 = insn.rs1;
      rs2 = insn.rs2;
      imm = insn.imm;
      rs1_val = RegFile.read rf insn.rs1;
      rs2_val = RegFile.read rf insn.rs2;
      valid = true;
      predicted_taken = fetch.predicted_taken;
    }
    else id_ex_bubble

unfoldable pub evaluate : RegFile → Latch IfId → Latch IdEx → Latch IdEx
unfolding decoded
evaluate rf input out = write (decoded rf input.reg) out

unfoldable pub latch_stage : DecodeStage → Latch IdEx → DecodeStage × Latch IdEx
latch_stage d out = (
  record d { stall = false; flush = false },
  if d.flush then flush id_ex_bubble out else if d.stall then out else latch out,
)
