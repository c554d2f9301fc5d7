-- ===== src/Pipeline/Latch.antt =====
-- `Latch<T>` of include/cpusim/uarch/latch.h. `T{}`, the bubble, is an argument.
pub record Latch {ℓ} (A : Type ℓ) : Type ℓ where
  pub reg : A
  pub shadow : A

module _ {ℓ} {A : Type ℓ} where
  abbrev pub read : Latch A → A
  read l = l.reg

  abbrev pub write : A → Latch A → Latch A
  write v l = record l { shadow = v }

  abbrev pub latch : Latch A → Latch A
  latch l = record l { reg = l.shadow }

  -- `flush` and `reset`.
  abbrev pub flush : A → Latch A → Latch A
  flush bubble l = record l { reg = bubble; shadow = bubble }
