-- ===== src/Pipeline/Tests.antt =====
-- Forwarding and load-use detection on concrete pipeline registers.
use cpu_sim.Base.{◌≡◌, ◌≢◌, refl, true, false, arith}
use cpu_sim.Isa.Op.{Op}
use cpu_sim.Isa.Decoder.{decode}
use cpu_sim.RegFile.{empty, read}
use cpu_sim.RegFile.Laws.{empty-IsValid}
use cpu_sim.Pipeline.Latch.{Latch}
use cpu_sim.Pipeline.Regs.{
  IfId, IdEx, ExMem, MemWb, if_id_bubble, id_ex_bubble, ex_mem_bubble, mem_wb_bubble,
}
use cpu_sim.Pipeline.Writeback.{has_writeback}
use cpu_sim.Pipeline.Forward
use cpu_sim.Pipeline.Forward.{ForwardUnit, resolve}
use cpu_sim.Pipeline.Forward.Order.{in_order, resolve-in_order}
use cpu_sim.Pipeline.Hazard.{is_load}
use cpu_sim.Pipeline.Hazard
use cpu_sim.Pipeline.Hazard.LoadUse.{evaluate-decode}

-- A load to x6 in MEM, and an instruction that writes x5 in WB.
abbrev load_in_mem : ExMem
load_in_mem = record ex_mem_bubble { op = Op.lw; rd = 6; alu_out = 0x100; valid = true }

abbrev in_wb : MemWb
in_wb = record mem_wb_bubble { op = Op.addi; rd = 5; wb_val = 7; valid = true }

resolve-in_order_example :
    resolve Forward.create load_in_mem in_wb 5 (read empty 5)
    ≡ read (in_order Forward.create load_in_mem in_wb 77 empty) 5
unfolding is_load has_writeback
resolve-in_order_example =
    resolve-in_order Forward.create 5 77 empty-IsValid
      (record { ex_rd = omega arith; ex_out = omega arith; ex_rs2_val = omega arith })
      (record { wb_rd = omega arith; wb_out = omega arith })
      (record { wb_rd = omega arith; wb_out = omega arith }) (λ v w. cc) (λ v w. cc) (λ v w. refl)
      (λ v l e. absurd (omega (arith, e)))

-- addi x4, x3, 1 behind a load to x9.
abbrev in_decode : Latch IfId
in_decode = record {
  reg = record { pc = 4; raw = 0x00118213; valid = true; predicted_taken = false };
  shadow = if_id_bubble;
}

abbrev in_ex : Latch IdEx
in_ex = record {
  reg = record id_ex_bubble { op = Op.lw; rd = 9; rs1 = 2; valid = true };
  shadow = id_ex_bubble;
}

evaluate-decode_example : ((decode 0x00118213 4).rs1 ≢ 9) × ((decode 0x00118213 4).rs2 ≢ 9)
unfolding Hazard.evaluate is_load
evaluate-decode_example = evaluate-decode in_decode in_ex refl refl refl (omega arith)
