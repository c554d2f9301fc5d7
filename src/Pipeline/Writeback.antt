-- ===== src/Pipeline/Writeback.antt =====
-- `WritebackStage` of src/uarch/pipeline/writeback.cpp.
use cpu_sim.Base.{ℕ, Bool, true, false, not, ◌||◌, if◌then◌else◌}
use cpu_sim.Isa.Op.{Op}
use cpu_sim.RegFile
use cpu_sim.RegFile.{RegFile}
use cpu_sim.Pipeline.Latch.{Latch}
use cpu_sim.Pipeline.Regs.{MemWb}

pub record WritebackStage : Type 0 where
  pub pending : Bool
  pub rd : ℕ
  pub val : ℕ

abbrev pub create : WritebackStage
create = record { pending = false; rd = 0; val = 0 }

unfoldable pub has_writeback : Op → Bool
has_writeback Op.sb = false
has_writeback Op.sh = false
has_writeback Op.sw = false
has_writeback Op.beq = false
has_writeback Op.bne = false
has_writeback Op.blt = false
has_writeback Op.bge = false
has_writeback Op.bltu = false
has_writeback Op.bgeu = false
has_writeback Op.ecall = false
has_writeback Op.ebreak = false
has_writeback Op.fence = false
has_writeback Op.illegal = false
has_writeback _ = true

unfoldable pub evaluate : Latch MemWb → WritebackStage
evaluate input =
    let wb = input.reg in
    if not wb.valid || not (has_writeback wb.op)
    then record { pending = false; rd = 0; val = 0 }
    else record { pending = true; rd = wb.rd; val = wb.wb_val }

unfoldable pub latch_stage : WritebackStage → RegFile → WritebackStage × RegFile
latch_stage w rf =
    (record w { pending = false }, if w.pending then RegFile.write rf w.rd w.val else rf)
