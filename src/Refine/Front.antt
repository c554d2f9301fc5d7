-- ===== src/Refine/Front.antt =====
-- What FETCH puts in front of the pipeline is the word at its address, and it goes on where its
-- prediction says.
use cpu_sim.Base.{
  ℕ, ◌≡◌, inl, inr, refl, sym, ◌∙◌, Bool-cases, true, false, Option, some, if◌then◌else◌, if-either,
  >>=-eq-some,
}
use cpu_sim.Memory.Interface.{IMemory}
use cpu_sim.Predictor.{BranchPredictor}
use cpu_sim.Pipeline.Latch.{Latch, write}
use cpu_sim.Pipeline.Regs.{IfId, if_id_bubble}
use cpu_sim.Pipeline.Fetch.{FetchStage, Fetched, fetched, guess, predicted_pc, evaluate}
use cpu_sim.Arch.{Arch}
use cpu_sim.Refine.Latched.{next_fetch}
use cpu_sim.Refine.Claims.{IsCode, IsGuide, InFront, ahead}

some-eq {ℓ} : {A : Type ℓ} {x y : A} → some x ≡ some y → x ≡ y
some-eq h = cc

module _ (I D S : IMemory) (view : D.State → S.State) (Holds : I.State → Type 0)
    (code : ℕ → Option ℕ) (Guides : Option BranchPredictor → Type 0) where
  pub bubble-InFront :
      (pc : ℕ) (v : Arch S) → v.pc ≡ pc → InFront I D S view Holds code Guides if_id_bubble pc v
  bubble-InFront pc v e = record {
    idle_pc = λ _. sym e;
    front_code = λ n. cc;
    front_pc = λ n. cc;
    ahead_pc = λ n. cc;
    front_jalr = λ n t. cc;
  }

module _ (I D S : IMemory) (view : D.State → S.State) {Holds : I.State → Type 0}
    {code : ℕ → Option ℕ} {Guides : Option BranchPredictor → Type 0} (port : IsCode I Holds code)
    (guide : IsGuide code Guides) where
  predicted-ahead :
      (bp : Option BranchPredictor) (pc raw : ℕ)
      → Guides bp
      → code pc ≡ some raw
      → predicted_pc bp pc ≡ ahead raw pc (guess bp pc).taken
  unfolding predicted_pc
  predicted-ahead bp pc raw g c = elim (Bool-cases (guess bp pc).taken) [
    | inl t ↦ rw t ((guide.guess_Guides bp pc raw g c t).0)
    | inr t ↦ rw t refl
  ]

  fetched-InFront :
      (bp : Option BranchPredictor) (pc raw : ℕ)
      → Guides bp
      → code pc ≡ some raw
      → (v : Arch S) → v.pc ≡ pc
      → InFront I D S view Holds code Guides (fetched bp pc raw) (predicted_pc bp pc) v
  unfolding fetched
  fetched-InFront bp pc raw g c v e = record {
    idle_pc = λ n. cc;
    front_code = λ _. rw e c;
    front_pc = λ _. sym e;
    ahead_pc = λ _. predicted-ahead bp pc raw g c;
    front_jalr = λ _ t. (guide.guess_Guides bp pc raw g c t).1;
  }

  -- What a fetch leaves behind.
  pub record Fetches (pc : ℕ) (g : Fetched I) : Type 0 where
    pub holds : Holds g.imem
    pub in_front :
        (v : Arch S)
        → v.pc ≡ pc
        → InFront I D S view Holds code Guides g.out.shadow (next_fetch I D g.stage) v

  -- The two results of a fetch.
  abbrev served : Option BranchPredictor → I.State → Latch IfId → FetchStage → ℕ → Fetched I
  served bp imem out f raw = record {
    imem = imem;
    out = write (fetched bp f.pc raw) out;
    stage = record f {
      fetch_stall = false;
      next_pc = if f.redirect then f.redirect_target else predicted_pc bp f.pc;
    };
  }

  abbrev waited : I.State → Latch IfId → FetchStage → Fetched I
  waited imem out f = record {
    imem = imem;
    out = write if_id_bubble out;
    stage = record f { fetch_stall = true; next_pc = f.pc };
  }

  served-Fetches :
      (bp : Option BranchPredictor) (imem : I.State) (out : Latch IfId) (f : FetchStage) (raw : ℕ)
      {g : Fetched I}
      → f.redirect ≡ false
      → Holds imem
      → Guides bp
      → code f.pc ≡ some raw
      → served bp imem out f raw ≡ g
      → Fetches f.pc g
  served-Fetches bp imem out f raw {g} r holds gd c e =
      rw (← e)
        (record { holds = holds; in_front = λ v h. rw r (fetched-InFront bp f.pc raw gd c v h) })

  waited-Fetches :
      (imem : I.State) (out : Latch IfId) (f : FetchStage) {g : Fetched I}
      → Holds imem
      → waited imem out f ≡ g
      → Fetches f.pc g
  waited-Fetches imem out f {g} holds e = rw (← e) (record {
    holds = holds;
    in_front = λ v h. bubble-InFront I D S view Holds code Guides f.pc v h;
  })

  pub evaluate-Fetches :
      (bp : Option BranchPredictor) (imem : I.State) (out : Latch IfId) (f : FetchStage)
      {g : Fetched I}
      → evaluate I bp imem out f ≡ some g
      → f.redirect ≡ false
      → Holds imem
      → Guides bp
      → Fetches f.pc g
  unfolding evaluate
  evaluate-Fetches bp imem out f {g} h r holds gd =
      let (asked_yes, asked) = I.ready imem f.pc false in
      let now = port.ready_Holds imem f.pc false holds in
      elim (if-either (I.ready imem f.pc false).0 h) [
        | inl (b, k) ↦
            let (raw, w, e) =
              >>=-eq-some (I.load_word asked f.pc) (λ raw. some (served bp asked out f raw)) k in
            served-Fetches bp asked out f raw r now gd (sym (port.same_code asked f.pc now) ∙ w)
              (some-eq e)
        | inr (b, k) ↦ waited-Fetches asked out f now (some-eq k)
      ]
