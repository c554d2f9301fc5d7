-- ===== src/Pipeline/Hazard.antt =====
-- `HazardUnit` of src/uarch/hazard.cpp.
pub mod LoadUse
use cpu_sim.Base.{Bool, true, false, not, ◌||◌, ◌==◌, if◌then◌else◌, bit_and, shr}
use cpu_sim.Isa.Op.{Op}
use cpu_sim.Pipeline.Latch.{Latch}
use cpu_sim.Pipeline.Regs.{IfId, IdEx}
use cpu_sim.Pipeline.Fetch
use cpu_sim.Pipeline.Fetch.{FetchStage}
use cpu_sim.Pipeline.Decode
use cpu_sim.Pipeline.Decode.{DecodeStage}

pub record HazardUnit : Type 0 where
  pub stall : Bool

abbrev pub create : HazardUnit
create = record { stall = false }

unfoldable pub is_load : Op → Bool
is_load Op.lb = true
is_load Op.lh = true
is_load Op.lw = true
is_load Op.lbu = true
is_load Op.lhu = true
is_load _ = false

unfoldable pub evaluate : Latch IfId → Latch IdEx → HazardUnit
unfolding is_load
evaluate if_id id_ex =
    let ex = id_ex.reg in
    let fe_rs1 = bit_and (shr if_id.reg.raw 15) 0x1f in
    let fe_rs2 = bit_and (shr if_id.reg.raw 20) 0x1f in
    if not ex.valid
    then record { stall = false }
    else if not (is_load ex.op) || ex.rd == 0
    then record { stall = false }
    else record { stall = ex.rd == fe_rs1 || ex.rd == fe_rs2 }

unfoldable pub latch_stage :
    HazardUnit → FetchStage → DecodeStage → HazardUnit × FetchStage × DecodeStage
latch_stage h fetch decode = (
  record { stall = false },
  if h.stall then Fetch.set_stall true fetch else fetch,
  if h.stall then Decode.set_flush true decode else decode,
)
