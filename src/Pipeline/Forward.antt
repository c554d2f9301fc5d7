-- ===== src/Pipeline/Forward.antt =====
-- `ForwardUnit` of src/uarch/pipeline/forward.cpp.
pub mod Order
use cpu_sim.Base.{ℕ, ◌&&◌, ◌==◌, if◌then◌else◌}
use cpu_sim.Pipeline.Latch.{Latch}
use cpu_sim.Pipeline.Regs.{ExMem, MemWb, mem_wb_bubble}

pub record ForwardUnit : Type 0 where
  pub prev_mem_wb : MemWb
  pub prev_mem_wb_next : MemWb

abbrev pub create : ForwardUnit
create = record { prev_mem_wb = mem_wb_bubble; prev_mem_wb_next = mem_wb_bubble }

unfoldable pub evaluate : Latch MemWb → ForwardUnit → ForwardUnit
evaluate mem_wb f = record f { prev_mem_wb_next = mem_wb.reg }

unfoldable pub latch_stage : ForwardUnit → ForwardUnit
latch_stage f = record f { prev_mem_wb = f.prev_mem_wb_next }

unfoldable pub resolve : ForwardUnit → ExMem → MemWb → ℕ → ℕ → ℕ
resolve f ex wb reg cur =
    if reg == 0
    then 0
    else if ex.valid && ex.rd == reg
    then ex.alu_out
    else if wb.valid && wb.rd == reg
    then wb.wb_val
    else if f.prev_mem_wb.valid && f.prev_mem_wb.rd == reg
    then f.prev_mem_wb.wb_val
    else cur
