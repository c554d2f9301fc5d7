-- ===== src/Memory/FlatMem/Timing.antt =====
-- The timer of `FlatMem`: a request is served on the cycle that its latency says.
use cpu_sim.Base.{ℕ, zero, suc, ◌+◌, ◌-◌, ◌^◌, ◌<◌, ◌≡◌, sym, arith, Bool, true, false, ◌==◌}
use mathlib.Core.Path.{subst}
use cpu_sim.Memory.FlatMem.{FlatMem, ready, tick}

module _ (addr : ℕ) (is_write : Bool) where
  -- One cycle of a caller that waits: `ready`, then `tick`.
  abbrev pub wait : ℕ → FlatMem → FlatMem
  wait zero m = m
  wait (suc n) m = let before = wait n m in tick (ready before addr is_write).1

  waiting :
      (n : ℕ) (m : FlatMem)
      → m.serving ≡ false
      → suc n < m.latency
      → m.latency < 2 ^ 31
      → wait (suc n) m ≡ record m { serving = true; remaining = m.latency - 1 - suc n }
  unfolding ready tick
  waiting zero m idle h int = ground arith
  waiting (suc n) m idle h int = rw (waiting n m idle (omega arith) int) (ground arith)

  served :
      (n : ℕ) (m : FlatMem)
      → m.serving ≡ false
      → n < m.latency
      → m.latency < 2 ^ 31
      → ((ready (wait n m) addr is_write).0 ≡ (n + 1 == m.latency)) × ((wait n m).mem ≡ m.mem)
  unfolding ready
  served zero m idle h int = ground arith
  served (suc n) m idle h int = rw (waiting n m idle (omega arith) int) (ground arith)

  released :
      (n : ℕ) (m : FlatMem)
      → m.serving ≡ false
      → m.latency ≡ suc n
      → m.latency < 2 ^ 31
      → (wait (suc n) m).serving ≡ false
  unfolding ready tick
  released zero m idle e int = ground arith
  released (suc n) m idle e int = rw (waiting n m idle (omega arith) int) (ground arith)

  -- An idle memory answers a caller that asks on every cycle for the first time on the last of
  -- `latency` cycles, at most 2 ^ 31 - 1, has the same bytes until then, and is idle again after that cycle's tick.
  pub ready-wait :
      (n : ℕ) (m : FlatMem)
      → m.serving ≡ false
      → n < m.latency
      → m.latency < 2 ^ 31
      → ((ready (wait n m) addr is_write).0 ≡ (n + 1 == m.latency))
        × ((wait n m).mem ≡ m.mem)
        × ((wait m.latency m).serving ≡ false)
  ready-wait n m idle h int =
      let s = served n m idle h int in
      let e : m.latency ≡ suc (m.latency - 1) = omega arith in
      (
        s.0,
        s.1,
        subst (λ k. (wait k m).serving ≡ false) (sym e) (released (m.latency - 1) m idle e int),
      )
