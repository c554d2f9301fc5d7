-- ===== src/Memory/Transparency.antt =====
-- Waiting on a memory does not change what it holds.
use cpu_sim.Base.{ℕ, Bool, ◌≡◌, List, arith}
use cpu_sim.Memory.Interface.{IMemory}
use cpu_sim.Memory.FlatMem.{flat_memory, ready, tick}

-- `view` is a view of a memory that neither a request nor the clock changes.
pub record IsTimingOnly {ℓ} (M : IMemory) {A : Type ℓ} (view : M.State → A) : Type ℓ where
  pub ready_keeps :
      (m : M.State) (addr : ℕ) (is_write : Bool) → view (M.ready m addr is_write).1 ≡ view m
  pub tick_keeps : (m : M.State) → view (M.tick m) ≡ view m

pub flat_memory-IsTimingOnly : IsTimingOnly flat_memory {A = ℕ × List ℕ} (λ m. (m.base, m.mem))
unfolding ready tick
flat_memory-IsTimingOnly = record {
  ready_keeps = λ m addr is_write. ground arith;
  tick_keeps = λ m. ground arith;
}
