-- ===== src/Pipeline/Forward/Order.antt =====
-- `ForwardUnit::resolve` against the register file that the older instructions would leave.
use cpu_sim.Base.{
  sym, ap, ◌∙◌, ℕ, ◌<◌, ◌^◌, ◌≡◌, refl, arith, ◌==◌, ◌&&◌, not, Bool, true, false, if◌then◌else◌,
}
use cpu_sim.Isa.Op.{Op}
use cpu_sim.Pipeline.Writeback.{has_writeback}
use cpu_sim.Pipeline.Hazard.{is_load}
use cpu_sim.RegFile.{RegFile, num_regs, read, write}
use cpu_sim.RegFile.Laws.{IsValid, read-write, write-IsValid}
use cpu_sim.Pipeline.Regs.{ExMem, MemWb}
use cpu_sim.Pipeline.Bounds.{IsBoundedEx, IsBoundedWb}
use cpu_sim.Pipeline.Forward.{ForwardUnit, resolve}

-- The register file once an instruction, if there is one, has written its result, if it has one.
unfoldable pub retire : Bool → Op → ℕ → ℕ → RegFile → RegFile
retire valid op rd val rf = if valid && has_writeback op then write rf rd val else rf

-- The write that the register file has seen last, then those of the instructions in WB and in MEM,
-- where `loaded` is what the one in MEM finds in the memory if it is a load.
unfoldable pub in_order : ForwardUnit → ExMem → MemWb → ℕ → RegFile → RegFile
unfolding retire is_load
in_order f ex wb loaded rf =
    retire ex.valid ex.op ex.rd (if is_load ex.op then loaded else ex.alu_out) (
      retire wb.valid wb.op wb.rd wb.wb_val
        (retire f.prev_mem_wb.valid f.prev_mem_wb.op f.prev_mem_wb.rd f.prev_mem_wb.wb_val rf))

-- An instruction that has no result names x0 as its destination.
abbrev pub IsSilent : Bool → Op → ℕ → Type 0
IsSilent valid op rd = valid ≡ true → has_writeback op ≡ false → rd ≡ 0

read-retire :
    {rf : RegFile} (valid : Bool) (op : Op) (rd val reg : ℕ)
    → IsValid rf
    → rd < num_regs
    → IsSilent valid op rd
    → read (retire valid op rd val rf) reg
      ≡ (if valid && (rd == reg) && not (rd == 0) then val else read rf reg)
unfolding retire
read-retire false op rd val reg h fits s = refl
read-retire true op rd val reg h fits s = ground (arith, s, read-write rd reg val h fits)

retire-IsValid :
    {rf : RegFile} (valid : Bool) (op : Op) (rd val : ℕ)
    → IsValid rf
    → rd < num_regs
    → val < 2 ^ 32
    → IsValid (retire valid op rd val rf)
unfolding retire
retire-IsValid {rf} valid op rd val h fits word = either (valid && has_writeback op)
  where
    either : (b : Bool) → IsValid (if b then write rf rd val else rf)
    either true = write-IsValid rd val h fits word
    either false = h

-- The newest value of a register, if an instruction writes it, and an older one.
abbrev newest : Bool → ℕ → ℕ → ℕ → ℕ → ℕ
newest valid rd val reg old = if valid && (rd == reg) && not (rd == 0) then val else old

resolve-newest :
    (f : ForwardUnit) (ex : ExMem) (wb : MemWb) (reg loaded cur : ℕ)
    → (reg ≡ 0 → cur ≡ 0)
    → (ex.valid ≡ true → is_load ex.op ≡ true → ex.rd ≡ reg → reg ≡ 0)
    → resolve f ex wb reg cur
      ≡ newest ex.valid ex.rd (if is_load ex.op then loaded else ex.alu_out) reg (
          newest wb.valid wb.rd wb.wb_val reg
            (newest f.prev_mem_wb.valid f.prev_mem_wb.rd f.prev_mem_wb.wb_val reg cur))
unfolding resolve
resolve-newest f ex wb reg loaded cur z no_load = ground (arith, z, no_load)

-- The operand that EX is given for a register is what the register would hold once the older
-- instructions in the pipeline had written their results in program order, whatever a load in MEM
-- finds in the memory, when the register is not the destination of that load, results are words,
-- destinations registers, and an instruction without a result names x0 as its destination.
pub resolve-in_order :
    {ex : ExMem} {wb : MemWb} {rf : RegFile} (f : ForwardUnit) (reg loaded : ℕ)
    → IsValid rf
    → IsBoundedEx ex
    → IsBoundedWb wb
    → IsBoundedWb f.prev_mem_wb
    → IsSilent ex.valid ex.op ex.rd
    → IsSilent wb.valid wb.op wb.rd
    → IsSilent f.prev_mem_wb.valid f.prev_mem_wb.op f.prev_mem_wb.rd
    → (ex.valid ≡ true → is_load ex.op ≡ true → ex.rd ≡ reg → reg ≡ 0)
    → resolve f ex wb reg (read rf reg) ≡ read (in_order f ex wb loaded rf) reg
unfolding resolve in_order
resolve-in_order {ex} {wb} {rf} f reg loaded h e w p se sw sp no_load =
    let prev = f.prev_mem_wb in
    let h1 = retire-IsValid prev.valid prev.op prev.rd prev.wb_val h p.wb_rd p.wb_out in
    let h2 = retire-IsValid wb.valid wb.op wb.rd wb.wb_val h1 w.wb_rd w.wb_out in
    let val = if is_load ex.op then loaded else ex.alu_out in
    resolve-newest f ex wb reg loaded (read rf reg) (λ r. rw r (h.zero_reg)) no_load
    ∙ sym (
        read-retire ex.valid ex.op ex.rd val reg h2 e.ex_rd se
        ∙ ap (newest ex.valid ex.rd val reg) (
            read-retire wb.valid wb.op wb.rd wb.wb_val reg h1 w.wb_rd sw
            ∙ ap (newest wb.valid wb.rd wb.wb_val reg)
                (read-retire prev.valid prev.op prev.rd prev.wb_val reg h p.wb_rd sp)))

-- Once the result in WB is written and remembered, and WB holds a bubble, an operand that was
-- captured in between is resolved to the same value again.
pub resolve_again :
    (f : ForwardUnit) (ex : ExMem) (wb bubble : MemWb) (reg cur : ℕ)
    → bubble.valid ≡ false
    → resolve (record f { prev_mem_wb = wb }) ex bubble reg (resolve f ex wb reg cur)
      ≡ resolve f ex wb reg cur
unfolding resolve
resolve_again f ex wb bubble reg cur e = ground arith
