-- ===== src/RegFile/Laws.antt =====
-- Reads, writes and the hardwired zero.
use cpu_sim.Base.{ℕ, ◌^◌, ◌<◌, ◌≡◌, refl, arith, ◌==◌, ◌&&◌, not, if◌then◌else◌, length}
use cpu_sim.Base.{length-set, get_or-set, get_or-replicate}
use cpu_sim.RegFile.{RegFile, num_regs, empty, read, write}

-- 32 words, the first of them 0.
pub record IsValid (rf : RegFile) : Type 0 where
  pub size : length rf.regs ≡ num_regs
  pub zero_reg : read rf 0 ≡ 0
  pub words : (i : ℕ) → read rf i < 2 ^ 32

zero_reads : (i : ℕ) → read empty i ≡ 0
unfolding empty read
zero_reads i = get_or-replicate num_regs i 0

pub empty-IsValid : IsValid empty
unfolding empty
empty-IsValid = record {
  size = refl;
  zero_reg = zero_reads 0;
  words = λ i. rw (zero_reads i) (omega arith);
}

-- A read after a write sees the value exactly at the written register, unless that is x0.
pub read-write :
    {rf : RegFile} (i j v : ℕ)
    → IsValid rf
    → i < num_regs
    → read (write rf i v) j ≡ (if (i == j) && not (i == 0) then v else read rf j)
unfolding read write
read-write {rf} i j v h fits = ground (arith, get_or-set rf.regs i j v 0, h.size)

-- A write in range of a 32-bit word keeps the register file well formed: x0 stays 0 whatever is written to it.
pub write-IsValid :
    {rf : RegFile} (i v : ℕ) → IsValid rf → i < num_regs → v < 2 ^ 32 → IsValid (write rf i v)
write-IsValid {rf} i v h fits word = record {
  size = unfold write in ground (arith, length-set rf.regs i v, h.size);
  zero_reg = ground (arith, read-write i 0 v h fits, h.zero_reg);
  words = λ j. ground (arith, read-write i j v h fits, h.words j);
}
