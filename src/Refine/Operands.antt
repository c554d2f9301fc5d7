-- ===== src/Refine/Operands.antt =====
-- The operands of the instruction that enters EX are the registers after those before it.
use cpu_sim.Base.{
  ℕ, ◌<◌, ◌≡◌, ◌≢◌, ◌⊎◌, inl, inr, ◌∙◌, arith, true, false, not, ◌&&◌, some, if◌then◌else◌, ◌==◌,
  get_or-set, shr,
}
use cpu_sim.Base.Bits.{bit_and_mask}
use cpu_sim.Isa.Encoding
use cpu_sim.Isa.Decoder.{decode, decode_op_imm}
use cpu_sim.Memory.Interface.{IMemory}
use cpu_sim.RegFile.{RegFile, num_regs, read, write}
use cpu_sim.Pipeline.Regs.{ExMem, MemWb}
use cpu_sim.Pipeline.Execute.{executed}
use cpu_sim.Pipeline.Forward.{resolve}
use cpu_sim.Pipeline.Writeback.{has_writeback}
use cpu_sim.Arch.{Arch, halts}
use cpu_sim.Pipeline.Hazard.{is_load}
use cpu_sim.Pipeline.MemAccess.{access}
use cpu_sim.Refine.Latched.{Latched, committed}
use cpu_sim.Refine.Claims.{IsShaped, plain}
use cpu_sim.Refine.Step.{moved, handed, access-result, decode-silent}

decode-rd : (w pc : ℕ) → ((decode w pc).rd ≡ Encoding.rd w) ⊎ ((decode w pc).rd ≡ 0)
unfolding decode decode_op_imm
decode-rd w pc = ground arith

pub decode-rd_lt : (w pc : ℕ) → (decode w pc).rd < num_regs
unfolding Encoding.rd
decode-rd_lt w pc = elim (decode-rd w pc) [
  | inl e ↦ omega (arith, e, bit_and_mask 5 (shr w 7))
  | inr e ↦ omega arith
]

read-write_shaped :
    {rf : RegFile} (rd v reg : ℕ)
    → IsShaped rf
    → rd < num_regs
    → read (write rf rd v) reg ≡ (if (rd == reg) && not (reg == 0) then v else read rf reg)
unfolding read write
read-write_shaped {rf} rd v reg h b =
    ground (arith, get_or-set rf.regs rd reg v 0, h.size, h.zero_reg)

-- The register file with a result written, if there is one.
unfoldable pub retired : MemWb → RegFile → RegFile
retired wb rf = if wb.valid && has_writeback wb.op then write rf wb.rd wb.wb_val else rf

pub read-retired :
    (wb : MemWb) (rf : RegFile) (reg : ℕ)
    → IsShaped rf
    → wb.rd < num_regs
    → (wb.valid ≡ true → has_writeback wb.op ≡ false → wb.rd ≡ 0)
    → read (retired wb rf) reg
      ≡ (if wb.valid && (wb.rd == reg) && not (reg == 0) then wb.wb_val else read rf reg)
unfolding retired
read-retired wb rf reg h b s = ground (arith, read-write_shaped wb.rd wb.wb_val reg h b, s)

pub committed-retired : {I D : IMemory} (l : Latched I D) → committed I D l ≡ retired l.wb l.rf
unfolding committed retired
committed-retired l = ground arith

-- Forwarding, over the register file that the results in WB and behind it have not reached.
pub resolve-retired :
    (rf : RegFile) (prev wb : MemWb) (ex : ExMem) (reg : ℕ)
    → IsShaped rf
    → IsShaped (retired prev rf)
    → prev.rd < num_regs
    → wb.rd < num_regs
    → (prev.valid ≡ true → has_writeback prev.op ≡ false → prev.rd ≡ 0)
    → (wb.valid ≡ true → has_writeback wb.op ≡ false → wb.rd ≡ 0)
    → resolve (record { prev_mem_wb = prev; prev_mem_wb_next = prev }) ex wb reg (read rf reg) ≡ (
        if ex.valid && (ex.rd == reg) && not (reg == 0)
        then ex.alu_out
        else read (retired wb (retired prev rf)) reg)
unfolding resolve
resolve-retired rf prev wb ex reg h k bp bw sp sw = ground (
  arith,
  read-retired prev rf reg h bp sp,
  read-retired wb (retired prev rf) reg k bw sw,
  h.zero_reg,
)

module _ (S : IMemory) where
  read-moved :
      (s : Arch S) (raw reg : ℕ) (wb : MemWb) (m : S.State)
      → IsShaped s.rf
      → halts (decode raw s.pc).op ≡ false
      → read (moved S s raw (wb, m)).rf reg ≡ (
          if has_writeback (decode raw s.pc).op && ((decode raw s.pc).rd == reg) && not (reg == 0)
          then wb.wb_val
          else read s.rf reg)
  unfolding moved
  read-moved s raw reg wb m h n =
      ground (arith, read-write_shaped (decode raw s.pc).rd wb.wb_val reg h (decode-rd_lt raw s.pc))

  -- With an instruction in EX that is not a load of the register.
  pub operand-behind :
      (rf : RegFile) (prev wb : MemWb) (t : Arch S) (raw reg : ℕ) {wb2 : MemWb} {m2 : S.State}
      → IsShaped rf
      → IsShaped (retired prev rf)
      → IsShaped t.rf
      → prev.rd < num_regs
      → wb.rd < num_regs
      → (prev.valid ≡ true → has_writeback prev.op ≡ false → prev.rd ≡ 0)
      → (wb.valid ≡ true → has_writeback wb.op ≡ false → wb.rd ≡ 0)
      → retired wb (retired prev rf) ≡ t.rf
      → halts (decode raw t.pc).op ≡ false
      → access S (decode raw t.pc).op (handed S t raw) t.mem ≡ some (wb2, m2)
      → (is_load (decode raw t.pc).op ≡ true
          → (decode raw t.pc).rd ≢ 0
          → reg ≢ (decode raw t.pc).rd)
      → resolve
          (record { prev_mem_wb = prev; prev_mem_wb_next = prev })
          (handed S t raw)
          wb
          reg
          (read rf reg)
        ≡ read (moved S t raw (wb2, m2)).rf reg
  unfolding executed plain
  operand-behind rf prev wb t raw reg {wb2} {m2} h k ht bp bw sp sw e n a free =
      let op = (decode raw t.pc).op in
      resolve-retired rf prev wb (handed S t raw) reg h k bp bw sp sw
      ∙ ground (
        arith,
        e,
        read-moved t raw reg wb2 m2 ht n,
        access-result S op (handed S t raw) t.mem a,
        decode-silent raw t.pc n,
        free,
      )
