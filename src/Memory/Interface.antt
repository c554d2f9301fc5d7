-- ===== src/Memory/Interface.antt =====
-- `IMemory` of include/cpusim/memory/mem_interface.h: what a pipeline stage or a cache asks of a
-- memory. A `const` operation reads the state; any other returns the new one. `none` is an address
-- that the memory does not hold.
use cpu_sim.Base.{ℕ, Bool, Option}

pub record IMemory : Type 1 where
  pub State : Type 0
  pub load_word : State → ℕ → Option ℕ
  pub load_half : State → ℕ → Option ℕ
  pub load_byte : State → ℕ → Option ℕ
  pub store_word : State → ℕ → ℕ → Option State
  pub store_half : State → ℕ → ℕ → Option State
  pub store_byte : State → ℕ → ℕ → Option State
  pub ready : State → ℕ → Bool → Bool × State
  pub tick : State → State
