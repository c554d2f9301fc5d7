-- ===== src/Memory/Tags/Ways.antt =====
-- The loops over the ways of a set.
use cpu_sim.Base.{
  ℕ, zero, suc, ◌+◌, ◌≤◌, ◌<◌, ◌≡◌, arith, Bool, true, false, none, some, Bool-cases, inl, inr,
}
use cpu_sim.Memory.Tags.{first_way}

-- The loop finds the way that passes the test, if no earlier one does.
pub first_way-first :
    (test : ℕ → Bool) (w n j : ℕ)
    → w ≤ j
    → j < w + n
    → test j ≡ true
    → ((i : ℕ) → i < j → w ≤ i → test i ≡ false)
    → first_way test w n ≡ some j
unfolding first_way
first_way-first test w zero j a b t h = absurd (omega arith)
first_way-first test w (suc n) j a b t h = elim (Bool-cases (test w)) [
  | inl e ↦ ground (arith, h w)
  | inr e ↦ ground (arith, first_way-first test (w + 1) n j, t, h)
]

pub first_way-none :
    (test : ℕ → Bool) (w n i : ℕ) → first_way test w n ≡ none → w ≤ i → i < w + n → test i ≡ false
unfolding first_way
first_way-none test w zero i e a b = absurd (omega arith)
first_way-none test w (suc n) i e a b = ground (arith, first_way-none test (w + 1) n i)

-- What the loop finds is one of the ways, and passes the test.
pub first_way-some :
    (test : ℕ → Bool) (w n j : ℕ)
    → first_way test w n ≡ some j
    → (w ≤ j) × (j < w + n) × (test j ≡ true)
unfolding first_way
first_way-some test w zero j e = cc
first_way-some test w (suc n) j e = ground (arith, first_way-some test (w + 1) n j)
