-- ===== src/Refine/Executing.antt =====
-- EX carries out the instruction that it holds, for the state before it.
use cpu_sim.Base.{
  ℕ, ◌≡◌, inl, inr, refl, ap, ◌∙◌, arith, Bool, Bool-cases, true, false, Option, none, some, ◌||◌,
  is_some,
}
use cpu_sim.Isa.Op.{Op}
use cpu_sim.Isa.Decoder.{decode}
use cpu_sim.Memory.Interface.{IMemory}
use cpu_sim.RegFile.{read}
use cpu_sim.Predictor.{BranchPredictor, update}
use cpu_sim.Pipeline.Regs.{IdEx, ex_mem_bubble}
use cpu_sim.Pipeline.Execute.{
  executed, actual_taken, next_pc, target, is_cond_branch, is_jal, is_jalr, signals,
  train_predictor, create,
}
use cpu_sim.Arch.{Arch}
use cpu_sim.Refine.Latched.{Latched, first, second, trained}
use cpu_sim.Refine.Claims.{IsGuide, InEx, InMem, plain, ahead}
use cpu_sim.Refine.Step.{handed, source_one, source_two}

-- A bubble in EX stays one, and an instruction its operation.
pub executed-valid : (id : IdEx) (a b : ℕ) → (executed id a b).valid ≡ id.valid
unfolding executed
executed-valid id a b = ground arith

pub executed-op : (id : IdEx) (a b : ℕ) → id.valid ≡ true → (executed id a b).op ≡ id.op
unfolding executed
executed-op id a b v = rw v refl

pub executed-bubble : (id : IdEx) (a b : ℕ) → id.valid ≡ false → executed id a b ≡ ex_mem_bubble
unfolding executed
executed-bubble id a b v = rw v refl

-- A prediction that comes true sends fetch where the instruction goes.
pub next_pc-ahead :
    (raw pc a b : ℕ) (taken : Bool)
    → actual_taken (plain raw pc) a b ≡ taken
    → (taken ≡ true → is_jalr (decode raw pc).op ≡ false)
    → next_pc (plain raw pc) a b ≡ ahead raw pc taken
unfolding next_pc target plain
next_pc-ahead raw pc a b true e j = let n = j refl in rw (e, n)
next_pc-ahead raw pc a b false e j = rw e

pub not_jalr : (op : Op) → is_cond_branch op || is_jal op ≡ true → is_jalr op ≡ false
unfolding is_cond_branch is_jal is_jalr
not_jalr Op.jalr h = cc
not_jalr _ h = refl

module _ {code : ℕ → Option ℕ} {Guides : Option BranchPredictor → Type 0}
    (guide : IsGuide code Guides) where
  update-Guides :
      (p : BranchPredictor) (id : IdEx) (pc raw a : ℕ) (taken : Bool)
      → code pc ≡ some raw
      → id.pc ≡ pc
      → id.op ≡ (decode raw pc).op
      → id.imm ≡ (decode raw pc).imm
      → is_cond_branch id.op || is_jal id.op ≡ true
      → Guides (some p)
      → Guides (some (update p id.pc (is_cond_branch id.op) taken (target id a)))
  unfolding target
  update-Guides p id pc raw a taken c ep eo ei k g =
      let n : is_jalr (decode raw pc).op ≡ false = not_jalr (decode raw pc).op (rw (← eo) k) in
      rw (ep, eo, ei, n) (guide.update_Guides p pc raw taken g c (rw (← eo) k))

  train-Guides :
      (bp : Option BranchPredictor) (id : IdEx) (pc raw a b : ℕ)
      → (id.valid ≡ true → code pc ≡ some raw)
      → (id.valid ≡ true → id.pc ≡ pc)
      → (id.valid ≡ true → id.op ≡ (decode raw pc).op)
      → (id.valid ≡ true → id.imm ≡ (decode raw pc).imm)
      → Guides bp
      → Guides (train_predictor (signals (is_some bp) id a b create) bp)
  unfolding train_predictor signals
  train-Guides none id pc raw a b c ep eo ei g = g
  train-Guides (some p) id pc raw a b c ep eo ei g = elim (Bool-cases id.valid) [
    | inr v ↦ rw v g
    | inl v ↦ elim (Bool-cases (is_cond_branch id.op || is_jal id.op)) [
      | inr k ↦ rw (v, k) g
      | inl k ↦
          rw (v, k)
            (update-Guides p id pc raw a (actual_taken id a b) (c v) (ep v) (eo v) (ei v) k g)
    ]
  ]

module _ (I D S : IMemory) (view : D.State → S.State) (Holds : I.State → Type 0)
    (code : ℕ → Option ℕ) (Guides : Option BranchPredictor → Type 0) where
  module _ (l : Latched I D) (t : Arch S) (h : InEx I D S view Holds code Guides l t)
      (v : l.ex.valid ≡ true) where
    -- The word with the values that it was decoded with.
    abbrev held : IdEx
    held = record (plain l.ex.raw t.pc) {
      rs1_val = l.ex.rs1_val;
      rs2_val = l.ex.rs2_val;
      predicted_taken = l.ex.predicted_taken;
    }

    pub first-source : first I D l ≡ source_one S t l.ex.raw
    unfolding plain
    first-source = h.first_eq v ∙ ap (λ r. read t.rf r) (ap {A = IdEx} (λ e. e.rs1) (h.ex_eq v))

    pub second-source : second I D l ≡ source_two S t l.ex.raw
    unfolding plain
    second-source = h.second_eq v ∙ ap (λ r. read t.rf r) (ap {A = IdEx} (λ e. e.rs2) (h.ex_eq v))

    -- What EX makes of it is what it makes of the word alone.
    at_sources :
        {A : Type 0} (f : IdEx → ℕ → ℕ → A)
        → f l.ex (first I D l) (second I D l)
          ≡ f held (source_one S t l.ex.raw) (source_two S t l.ex.raw)
    at_sources f =
        ap (λ a. f l.ex a (second I D l)) first-source
        ∙ ap (λ b. f l.ex (source_one S t l.ex.raw) b) second-source
        ∙ ap {A = IdEx} (λ e. f e (source_one S t l.ex.raw) (source_two S t l.ex.raw)) (h.ex_eq v)

    pub executed-handed : executed l.ex (first I D l) (second I D l) ≡ handed S t l.ex.raw
    unfolding executed plain
    executed-handed = at_sources executed

    pub ex-next_pc :
        next_pc l.ex (first I D l) (second I D l)
        ≡ next_pc (plain l.ex.raw t.pc) (source_one S t l.ex.raw) (source_two S t l.ex.raw)
    unfolding next_pc target actual_taken plain
    ex-next_pc = at_sources next_pc

    pub ex-op : l.ex.op ≡ (decode l.ex.raw t.pc).op
    unfolding plain
    ex-op = ap {A = IdEx} (λ e. e.op) (h.ex_eq v)

    pub ex-rd : l.ex.rd ≡ (decode l.ex.raw t.pc).rd
    unfolding plain
    ex-rd = ap {A = IdEx} (λ e. e.rd) (h.ex_eq v)

    pub ex-pc : l.ex.pc ≡ t.pc
    unfolding plain
    ex-pc = ap {A = IdEx} (λ e. e.pc) (h.ex_eq v)

    pub ex-imm : l.ex.imm ≡ (decode l.ex.raw t.pc).imm
    unfolding plain
    ex-imm = ap {A = IdEx} (λ e. e.imm) (h.ex_eq v)

  handed-InMem :
      (t : Arch S) (raw : ℕ)
      → code t.pc ≡ some raw
      → InMem I D S view Holds code Guides (handed S t raw) t
  unfolding executed plain
  handed-InMem t raw c = record { mem_code = λ _. c; mem_eq = λ _. refl }

  bubble-InMem : (t : Arch S) → InMem I D S view Holds code Guides ex_mem_bubble t
  bubble-InMem t = record { mem_code = λ v. cc; mem_eq = λ v. cc }

  pub executed-InMem :
      (l : Latched I D) (t : Arch S)
      → InEx I D S view Holds code Guides l t
      → InMem I D S view Holds code Guides (executed l.ex (first I D l) (second I D l)) t
  executed-InMem l t h = elim (Bool-cases l.ex.valid) [
    | inl v ↦ rw (executed-handed l t h v) (handed-InMem t l.ex.raw (h.ex_code v))
    | inr v ↦ rw (executed-bubble l.ex (first I D l) (second I D l) v) (bubble-InMem t)
  ]

  -- Training keeps the predictor a guide.
  pub trained-Guides :
      (l : Latched I D) (t : Arch S)
      → IsGuide code Guides
      → InEx I D S view Holds code Guides l t
      → Guides l.bpred
      → Guides (trained I D l)
  unfolding trained
  trained-Guides l t guide h g =
      train-Guides guide l.bpred l.ex t.pc l.ex.raw (first I D l) (second I D l) h.ex_code
        (ex-pc l t h) (ex-op l t h) (ex-imm l t h) g
