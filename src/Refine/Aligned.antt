-- ===== src/Refine/Aligned.antt =====
-- A port, and code, without the words at addresses that are no multiple of four.
use cpu_sim.Base.{
  ℕ, zero, suc, ◌%◌, ◌≡◌, inl, inr, sym, ap, ◌∙◌, arith, Bool, Bool-cases, true, ◌==◌, Option, none,
  some, ◌>>=◌, >>=-eq-some, if◌then◌else◌,
}
use cpu_sim.Memory.Interface.{IMemory}
use cpu_sim.Arch.{Arch, step, steps}
use cpu_sim.Refine.Claims.{IsCode}

abbrev pub is_aligned : ℕ → Bool
is_aligned a = a % 4 == 0

-- A port without the words at other addresses.
abbrev pub aligned_port : IMemory → IMemory
aligned_port M = record {
  State = M.State;
  load_word = λ m a. if is_aligned a then M.load_word m a else none;
  load_half = M.load_half;
  load_byte = M.load_byte;
  store_word = M.store_word;
  store_half = M.store_half;
  store_byte = M.store_byte;
  ready = M.ready;
  tick = M.tick;
}

abbrev pub aligned_code : (ℕ → Option ℕ) → ℕ → Option ℕ
aligned_code code a = if is_aligned a then code a else none

pub aligned_port-IsCode :
    {I : IMemory} {Holds : I.State → Type 0} {code : ℕ → Option ℕ}
    → IsCode I Holds code
    → IsCode (aligned_port I) Holds (aligned_code code)
aligned_port-IsCode port = record {
  same_code = λ m a h. ap (λ o. if is_aligned a then o else none) (port.same_code m a h);
  ready_Holds = port.ready_Holds;
  tick_Holds = port.tick_Holds;
}

pub aligned_code-some :
    (code : ℕ → Option ℕ) (a : ℕ) {raw : ℕ}
    → aligned_code code a ≡ some raw
    → (is_aligned a ≡ true) × (code a ≡ some raw)
aligned_code-some code a h = elim (Bool-cases (is_aligned a)) [
  | inl b ↦ (b, ap (λ b. if b then code a else none) (sym b) ∙ h)
  | inr b ↦ absurd (ground (arith, b, h))
]

module _ (S : IMemory) (code : ℕ → Option ℕ) where
  aligned-step :
      (s : Arch S) {t : Arch S} → step S (aligned_code code) s ≡ some t → step S code s ≡ some t
  unfolding step
  aligned-step s h =
      let (raw, c, k) = >>=-eq-some (aligned_code code s.pc) _ h in
      rw ((aligned_code-some code s.pc c).1) k

  -- What the machine does on those words it does on all.
  pub aligned-steps :
      (n : ℕ) (s : Arch S) {t : Arch S}
      → steps S (aligned_code code) n s ≡ some t
      → steps S code n s ≡ some t
  unfolding steps
  aligned-steps zero s h = h
  aligned-steps (suc n) s h =
      let (u, e, k) =
        >>=-eq-some (steps S (aligned_code code) n s) (step S (aligned_code code)) h in
      ap (λ o. o >>= step S code) (aligned-steps n s e) ∙ aligned-step u k
