-- ===== src/Memory/Prompt.antt =====
-- A memory port that answers within a bound: `left` counts the cycles that a caller still waits.
use cpu_sim.Base.{
  ℕ, zero, suc, ◌+◌, ◌-◌, ◌^◌, ◌<◌, ◌≤◌, ◌≡◌, arith, Bool, true, false, some, if◌then◌else◌,
  Bool-cases, inl, inr,
}
use cpu_sim.Memory.Interface.{IMemory}
use cpu_sim.Memory.FlatMem.{
  FlatMem, flat_memory, ready, tick, store_word, store_half, store_byte, offset, put_byte,
}

-- Whatever is asked of it, and in whatever order, as long as it is clocked when it does not answer.
pub record IsPrompt (M : IMemory) (Valid : M.State → Type 0) (left : M.State → ℕ) (bound : ℕ)
    : Type 0 where
  pub left_le : (m : M.State) → Valid m → left m ≤ bound
  pub ready_Valid : (m : M.State) (a : ℕ) (w : Bool) → Valid m → Valid (M.ready m a w).1
  pub tick_Valid : (m : M.State) → Valid m → Valid (M.tick m)
  pub word_Valid :
      (m : M.State) (a v : ℕ) {m' : M.State} → Valid m → M.store_word m a v ≡ some m' → Valid m'
  pub half_Valid :
      (m : M.State) (a v : ℕ) {m' : M.State} → Valid m → M.store_half m a v ≡ some m' → Valid m'
  pub byte_Valid :
      (m : M.State) (a v : ℕ) {m' : M.State} → Valid m → M.store_byte m a v ≡ some m' → Valid m'
  pub waits :
      (m : M.State) (a : ℕ) (w : Bool)
      → Valid m
      → (M.ready m a w).0 ≡ false
      → left (M.tick (M.ready m a w).1) < left m

-- A flat memory answers on the last of its latency cycles, when that fits an `int`.
abbrev pub flat_left : FlatMem → ℕ
flat_left m = if m.serving then m.remaining else m.latency - 1

pub record IsTimed (bound : ℕ) (m : FlatMem) : Type 0 where
  pub latency_gt : 0 < m.latency
  pub latency_lt : m.latency < 2 ^ 31
  pub latency_le : m.latency ≤ bound + 1
  pub remaining_lt : m.remaining < 2 ^ 31
  pub remaining_le : m.remaining ≤ bound

pub flat_memory-IsPrompt : (bound : ℕ) → IsPrompt flat_memory (IsTimed bound) flat_left bound
unfolding ready tick store_word store_half store_byte offset put_byte
flat_memory-IsPrompt bound = record {
  left_le = λ m v. ground arith;
  ready_Valid = λ m a w v. ground arith;
  tick_Valid = λ m v. ground arith;
  word_Valid = λ m a x v e. ground arith;
  half_Valid = λ m a x v e. ground arith;
  byte_Valid = λ m a x v e. ground arith;
  waits = λ m a w v e. ground arith;
}

module _ (M : IMemory) (a : ℕ) (w : Bool) where
  -- The memory of a caller that has asked on `n` cycles.
  abbrev pub waited : ℕ → M.State → M.State
  waited zero m = m
  waited (suc n) m = waited n (M.tick (M.ready m a w).1)

  module _ {Valid : M.State → Type 0} {left : M.State → ℕ} {bound : ℕ}
      (p : IsPrompt M Valid left bound) where
    answers_within :
        (k : ℕ) (m : M.State)
        → left m ≤ k
        → Valid m
        → (n : ℕ) × (n ≤ k) × ((M.ready (waited n m) a w).0 ≡ true)
    answers_within zero m h v = elim (Bool-cases (M.ready m a w).0) [
      | inl e ↦ (0, omega arith, e)
      | inr e ↦ absurd (omega (arith, p.waits m a w v e))
    ]
    answers_within (suc k) m h v = elim (Bool-cases (M.ready m a w).0) [
      | inl e ↦ (0, omega arith, e)
      | inr e ↦
          let (n, le, r) =
            answers_within k (M.tick (M.ready m a w).1) (omega (arith, p.waits m a w v e))
              (p.tick_Valid (M.ready m a w).1 (p.ready_Valid m a w v)) in
          (suc n, omega arith, r)
    ]

    -- A caller that asks a port with a bound on every cycle is answered after at most `bound` cycles.
    pub answers :
        (m : M.State) → Valid m → (n : ℕ) × (n ≤ bound) × ((M.ready (waited n m) a w).0 ≡ true)
    answers m v = answers_within bound m (p.left_le m v) v
