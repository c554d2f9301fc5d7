-- ===== src/Arch/Tests.antt =====
-- A load carried out by EX, MEM and WB, and as the manual says.
use cpu_sim.Base.{◌≡◌}
use cpu_sim.Isa.Op.{Op}
use cpu_sim.Memory.FlatMem.{flat_memory, create}
use cpu_sim.Pipeline.Regs.{IdEx, id_ex_bubble}
use cpu_sim.Arch.{effect}
use cpu_sim.Arch.Effects.{pipeline_effect, pipeline_effect-effect}

-- lb x5, 4(x1) at 0x80.
abbrev load : IdEx
load = record id_ex_bubble { pc = 0x80; op = Op.lb; rd = 5; rs1 = 1; imm = 4 }

pipeline_effect-effect_example :
    pipeline_effect flat_memory Op.lb load 0x100 0 (create 0x100 16 1)
    ≡ effect flat_memory 0x80 4 0x100 0 (create 0x100 16 1) Op.lb
pipeline_effect-effect_example =
    pipeline_effect-effect flat_memory Op.lb load 0x100 0 (create 0x100 16 1)
