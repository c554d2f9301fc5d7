-- ===== src/Refine/Guides.antt =====
-- `BranchPredictor` sends a branch or a JAL of code at whole words nowhere but to its target.
use cpu_sim.Base.{
  ℕ, ◌*◌, ◌/◌, ◌^◌, ◌≡◌, refl, sym, ap, ◌∙◌, arith, Bool, true, false, Option, none, some, ◌||◌,
  add32,
}
use mathlib.Core.Option
use mathlib.Core.Path.{subst}
use cpu_sim.Isa.Decoder.{decode}
use cpu_sim.Predictor.{BranchPredictor, create, update}
use cpu_sim.Predictor.Laws.{
  IsValid, create-IsValid, update-IsValid, EntriesAre, create-EntriesAre, update-EntriesAre,
  predict-entry,
}
use cpu_sim.Pipeline.Fetch.{guess}
use cpu_sim.Pipeline.Execute.{is_cond_branch, is_jal, is_jalr}
use cpu_sim.Refine.Claims.{IsGuide}
use cpu_sim.Refine.Executing.{not_jalr}
use cpu_sim.Refine.Aligned.{aligned_code, aligned_code-some}

module _ (code : ℕ → Option ℕ) where
  -- The word `w` goes to `a` whenever it is taken.
  unfoldable pub LeadsTo : ℕ → ℕ → Type 0
  LeadsTo w a =
      (raw : ℕ)
      → aligned_code code (4 * w) ≡ some raw
      → (a ≡ add32 (4 * w) (decode raw (4 * w)).imm) × (is_jalr (decode raw (4 * w)).op ≡ false)

  -- The tables have their shape, and the entries lead where their words go.
  pub record IsTrained (h t : ℕ) (p : BranchPredictor) : Type 0 where
    pub valid : IsValid p h t
    pub entries : EntriesAre LeadsTo p

  abbrev pub Trained : ℕ → ℕ → Option BranchPredictor → Type 0
  Trained h t bp = (p : BranchPredictor) → bp ≡ some p → IsTrained h t p

  pub create-IsTrained : (h t : ℕ) → IsTrained h t (create (2 ^ h) (2 ^ t))
  create-IsTrained h t = record {
    valid = create-IsValid h t;
    entries = create-EntriesAre LeadsTo h t;
  }

  word_address : (pc : ℕ) {raw : ℕ} → aligned_code code pc ≡ some raw → 4 * (pc / 4) ≡ pc
  word_address pc c = let (a, _) = aligned_code-some code pc c in ground arith

  guess-LeadsTo :
      (h t : ℕ) (bp : Option BranchPredictor) (pc raw : ℕ)
      → Trained h t bp
      → aligned_code code pc ≡ some raw
      → (guess bp pc).taken ≡ true
      → ((guess bp pc).target ≡ add32 pc (decode raw pc).imm) × (is_jalr (decode raw pc).op ≡ false)
  unfolding guess LeadsTo
  guess-LeadsTo h t none pc raw g c k = cc
  guess-LeadsTo h t (some p) pc raw g c k =
      let w = word_address pc c in
      let x = predict-entry LeadsTo p pc (g p refl).entries k raw in
      subst
        (λ a.
          aligned_code code a ≡ some raw
          → ((guess (some p) pc).target ≡ add32 a (decode raw a).imm)
            × (is_jalr (decode raw a).op ≡ false))
        w x c

  update-IsTrained :
      (h t : ℕ) (p : BranchPredictor) (pc raw : ℕ) (taken : Bool)
      → IsTrained h t p
      → aligned_code code pc ≡ some raw
      → is_cond_branch (decode raw pc).op || is_jal (decode raw pc).op ≡ true
      → IsTrained h t
          (update p pc (is_cond_branch (decode raw pc).op) taken (add32 pc (decode raw pc).imm))
  unfolding LeadsTo
  update-IsTrained h t p pc raw taken g c k = record {
    valid = update-IsValid g.valid pc (is_cond_branch (decode raw pc).op) taken _;
    entries =
        update-EntriesAre g.valid LeadsTo pc (is_cond_branch (decode raw pc).op) taken _ g.entries
          leads;
  }
    where
      leads : LeadsTo (pc / 4) (add32 pc (decode raw pc).imm)
      leads raw' c' =
          let w = word_address pc c in
          let same : raw ≡ raw' =
            Option.some-injective _ _ (sym c ∙ ap (aligned_code code) (sym w) ∙ c') in
          rw (w, ← same) (refl, not_jalr (decode raw pc).op k)

  pub predictor-IsGuide : (h t : ℕ) → IsGuide (aligned_code code) (Trained h t)
  predictor-IsGuide h t = record {
    guess_Guides = λ bp pc raw. guess-LeadsTo h t bp pc raw;
    update_Guides = λ p pc raw taken g c k q e.
        subst (IsTrained h t) (Option.some-injective _ _ e)
          (update-IsTrained h t p pc raw taken (g p refl) c k);
  }
