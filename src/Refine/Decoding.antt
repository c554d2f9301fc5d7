-- ===== src/Refine/Decoding.antt =====
-- EX holds the word that DECODE held, or a bubble, and in front of it stands what FETCH brought.
use cpu_sim.Base.{
  and-left, ℕ, ◌≡◌, inl, inr, refl, sym, ap, ◌∙◌, Bool, Bool-cases, true, false, Option, some, ◌&&◌,
}
use cpu_sim.Isa.Decoder.{decode}
use cpu_sim.Memory.Interface.{IMemory}
use cpu_sim.RegFile.{RegFile, read}
use cpu_sim.Predictor.{BranchPredictor}
use cpu_sim.Pipeline.Regs.{IfId, IdEx, MemWb, id_ex_bubble, if_id_bubble}
use cpu_sim.Pipeline.Decode.{decoded}
use cpu_sim.Pipeline.Execute.{executed, actual_taken, next_pc, is_jalr, differs}
use cpu_sim.Pipeline.Hazard.LoadUse.{evaluate-decode}
use cpu_sim.Arch.{Arch, halts, step}
use cpu_sim.Refine.Latched.{
  Latched, operand, first, second, redirects, waits, advanced, committed, trained,
}
use cpu_sim.Refine.Claims.{InFront, InEx, Follows, plain, ahead}
use cpu_sim.Refine.Step.{source_one, source_two, moved, step-parts}
use cpu_sim.Refine.Front.{bubble-InFront}
use cpu_sim.Refine.Executing.{next_pc-ahead}
use cpu_sim.Refine.Entering.{Settled, bubble-InEx, entering-operand, follows-pc}

equal-differs : (a b : Bool) → differs a b ≡ false → a ≡ b
equal-differs true true h = refl
equal-differs true false h = cc
equal-differs false true h = cc
equal-differs false false h = refl

module _ (I D S : IMemory) (view : D.State → S.State) (Holds : I.State → Type 0)
    (code : ℕ → Option ℕ) (Guides : Option BranchPredictor → Type 0) where
  -- The word `raw` in EX, decoded with the values `x` and `y`.
  abbrev pub word : ℕ → ℕ → ℕ → ℕ → Bool → IdEx
  word raw pc x y p = record (plain raw pc) { rs1_val = x; rs2_val = y; predicted_taken = p }

  decoded-word :
      (rf : RegFile) (i : IfId)
      → i.valid ≡ true
      → decoded rf i
        ≡ word i.raw i.pc
            (read rf (decode i.raw i.pc).rs1)
            (read rf (decode i.raw i.pc).rs2)
            i.predicted_taken
  unfolding decoded plain
  decoded-word rf i v = rw v refl

  decoded-bubble : (rf : RegFile) (i : IfId) → i.valid ≡ false → (decoded rf i).valid ≡ false
  unfolding decoded
  decoded-bubble rf i n = rw n refl

  step-ahead :
      (u v : Arch S) (raw a b : ℕ) (p : Bool)
      → code u.pc ≡ some raw
      → halts (decode raw u.pc).op ≡ false
      → step S code u ≡ some v
      → a ≡ source_one S u raw
      → b ≡ source_two S u raw
      → actual_taken (plain raw u.pc) a b ≡ p
      → (p ≡ true → is_jalr (decode raw u.pc).op ≡ false)
      → v.pc ≡ ahead raw u.pc p
  unfolding moved
  step-ahead u v raw a b p c n e ea eb t j =
      let (wb2, m2, x, mv) = step-parts S code u raw c n e in
      sym (ap {A = Arch S} (λ s. s.pc) mv)
      ∙ next_pc-ahead raw u.pc (source_one S u raw) (source_two S u raw) p
          (ap (λ a. actual_taken (plain raw u.pc) a (source_two S u raw)) (sym ea)
            ∙ ap (λ b. actual_taken (plain raw u.pc) a b) (sym eb)
            ∙ t)
          j

  word-in_front :
      (k : IdEx) (u v : Arch S) (raw x y : ℕ) (p : Bool)
      → k ≡ word raw u.pc x y p
      → code u.pc ≡ some raw
      → (p ≡ true → is_jalr (decode raw u.pc).op ≡ false)
      → Follows I D S view Holds code Guides k.valid k.op u v
      → (k.valid ≡ true → actual_taken k (read u.rf k.rs1) (read u.rf k.rs2) ≡ k.predicted_taken)
      → v.pc ≡ ahead raw u.pc p
  unfolding plain actual_taken
  word-in_front k u v raw x y p e c j (inl (n, _)) taken = cc
  word-in_front k u v raw x y p e c j (inr (w, n, st)) taken =
      let a = read u.rf k.rs1 in
      let b = read u.rf k.rs2 in
      step-ahead u v raw a b p c (ap halts (ap {A = IdEx} (λ i. i.op) (sym e)) ∙ n) st
        (ap {A = IdEx} (λ i. read u.rf i.rs1) e) (ap {A = IdEx} (λ i. read u.rf i.rs2) e)
        (ap {A = IdEx} (λ i. actual_taken i a b) (sym e)
          ∙ taken w
          ∙ ap {A = IdEx} (λ i. i.predicted_taken) e)
        j

  word-InEx :
      (k : Latched I D) (u : Arch S) (raw x y : ℕ) (p : Bool)
      → k.ex ≡ word raw u.pc x y p
      → code u.pc ≡ some raw
      → operand I D k (decode raw u.pc).rs1 x ≡ source_one S u raw
      → operand I D k (decode raw u.pc).rs2 y ≡ source_two S u raw
      → (p ≡ true → is_jalr (decode raw u.pc).op ≡ false)
      → ((v : Arch S)
          → v.pc ≡ ahead raw u.pc p
          → InFront I D S view Holds code Guides k.front k.pc v)
      → InEx I D S view Holds code Guides k u
  unfolding plain operand
  word-InEx k u raw x y p e c o1 o2 j g = record {
    ex_code = λ _. rw e c;
    ex_eq = λ _. rw e refl;
    first_eq = λ _. rw e o1;
    second_eq = λ _. rw e o2;
    ex_jalr = λ _ t. rw e (j (ap {A = IdEx} (λ i. i.predicted_taken) (sym e) ∙ t));
    in_front = λ v f taken. g v (word-in_front k.ex u v raw x y p e c j f taken);
  }

  module _ (l : Latched I D) (wb : MemWb) (t u : Arch S) (h : InEx I D S view Holds code Guides l t)
      (r : Settled I D S view Holds code Guides l wb t)
      (f : Follows I D S view Holds code Guides l.ex.valid l.ex.op t u) where
    -- When EX does not redirect, the front is that of the state behind its instruction.
    kept-InFront : redirects I D l ≡ false → InFront I D S view Holds code Guides l.front l.pc u
    unfolding redirects
    kept-InFront n = h.in_front u f (λ v. kept-taken v n)
      where
        kept-taken :
            l.ex.valid ≡ true
            → redirects I D l ≡ false
            → actual_taken l.ex (read t.rf l.ex.rs1) (read t.rf l.ex.rs2) ≡ l.ex.predicted_taken
        kept-taken v n =
            ap (λ a. actual_taken l.ex a (read t.rf l.ex.rs2)) (sym (h.first_eq v))
            ∙ ap (λ b. actual_taken l.ex (first I D l) b) (sym (h.second_eq v))
            ∙ equal-differs (actual_taken l.ex (first I D l) (second I D l)) l.ex.predicted_taken (
                sym (
                  ap
                    (λ b.
                      b
                      && differs (actual_taken l.ex (first I D l) (second I D l))
                          l.ex.predicted_taken)
                    v)
                ∙ n)

    -- The operands of the word in DECODE, when it does not wait for a load.
    decoding-operand :
        waits I D l ≡ false
        → (operand I D
              (record l { prev = l.wb; wb = wb; mem = executed l.ex (first I D l) (second I D l) })
              (decode l.front.raw l.front.pc).rs1
              (read l.rf (decode l.front.raw l.front.pc).rs1)
            ≡ read u.rf (decode l.front.raw l.front.pc).rs1)
          × (operand I D
                (record l {
                  prev = l.wb;
                  wb = wb;
                  mem = executed l.ex (first I D l) (second I D l);
                })
                (decode l.front.raw l.front.pc).rs2
                (read l.rf (decode l.front.raw l.front.pc).rs2)
              ≡ read u.rf (decode l.front.raw l.front.pc).rs2)
    unfolding waits operand
    decoding-operand n =
        let free =
          evaluate-decode (record { reg = l.front; shadow = l.front })
            (record { reg = l.ex; shadow = l.ex }) n in
        (
          entering-operand I D S view Holds code Guides l wb t u h r f
              (decode l.front.raw l.front.pc).rs1 (λ v o z. (free v o z).0),
          entering-operand I D S view Holds code Guides l wb t u h r f
              (decode l.front.raw l.front.pc).rs2 (λ v o z. (free v o z).1),
        )

    module _ (imem : I.State) (dmem : D.State) (fetched : IfId) (next : ℕ) where
      -- The cycle, with what it leaves in the first stages.
      abbrev after : IdEx → IfId → ℕ → Latched I D
      after ex front pc = record {
        imem = I.tick imem;
        dmem = D.tick dmem;
        rf = committed I D l;
        bpred = trained I D l;
        wb = wb;
        prev = l.wb;
        mem = executed l.ex (first I D l) (second I D l);
        ex = ex;
        front = front;
        pc = pc;
      }

      abbrev advanced_l : Latched I D
      advanced_l = advanced I D l imem dmem wb fetched next

      after-redirect :
          redirects I D l ≡ true
          → advanced_l ≡ after id_ex_bubble if_id_bubble (next_pc l.ex (first I D l) (second I D l))
      unfolding advanced
      after-redirect e = rw e refl

      after-wait :
          redirects I D l ≡ false
          → waits I D l ≡ true
          → advanced_l ≡ after id_ex_bubble l.front l.pc
      unfolding advanced
      after-wait e w = rw (e, w) refl

      after-decode :
          redirects I D l ≡ false
          → waits I D l ≡ false
          → advanced_l ≡ after (decoded l.rf l.front) fetched next
      unfolding advanced
      after-decode e w = rw (e, w) refl

      redirect-InEx : redirects I D l ≡ true → InEx I D S view Holds code Guides advanced_l u
      unfolding redirects
      redirect-InEx e =
          let pc = next_pc l.ex (first I D l) (second I D l) in
          rw (after-redirect e) (
            bubble-InEx I D S view Holds code Guides (after id_ex_bubble if_id_bubble pc) u refl (
              bubble-InFront I D S view Holds code Guides pc u (
                sym (
                  follows-pc I D S view Holds code Guides l wb t u h r f (
                    and-left l.ex.valid
                      (differs (actual_taken l.ex (first I D l) (second I D l))
                        l.ex.predicted_taken)
                      e)))))

      wait-InEx :
          redirects I D l ≡ false
          → waits I D l ≡ true
          → InEx I D S view Holds code Guides advanced_l u
      wait-InEx e w = rw (after-wait e w) (
          bubble-InEx I D S view Holds code Guides (after id_ex_bubble l.front l.pc) u refl
            (kept-InFront e))

      module _
          (behind : (v : Arch S)
            → v.pc ≡ l.pc
            → InFront I D S view Holds code Guides fetched next v) where
        decoded-word-InEx :
            l.front.valid ≡ true
            → waits I D l ≡ false
            → InFront I D S view Holds code Guides l.front l.pc u
            → InEx I D S view Holds code Guides (after (decoded l.rf l.front) fetched next) u
        unfolding operand
        decoded-word-InEx v w front =
            let raw = l.front.raw in
            let i = decode raw l.front.pc in
            let q = front.front_pc v in
            let p = l.front.predicted_taken in
            let k = after (decoded l.rf l.front) fetched next in
            let x = read l.rf i.rs1 in
            let y = read l.rf i.rs2 in
            let (o1, o2) = decoding-operand w in
            word-InEx k u raw x y p (decoded-word l.rf l.front v ∙ ap (λ pc. word raw pc x y p) q)
              (front.front_code v)
              (ap (λ pc. operand I D k (decode raw pc).rs1 x) (sym q)
                ∙ o1
                ∙ ap (λ pc. read u.rf (decode raw pc).rs1) q)
              (ap (λ pc. operand I D k (decode raw pc).rs2 y) (sym q)
                ∙ o2
                ∙ ap (λ pc. read u.rf (decode raw pc).rs2) q)
              (λ t. ap (λ pc. is_jalr (decode raw pc).op) (sym q) ∙ front.front_jalr v t)
              (λ z e. behind z (e ∙ ap (λ pc. ahead raw pc p) (sym q) ∙ sym (front.ahead_pc v)))

        decode-InEx :
            redirects I D l ≡ false
            → waits I D l ≡ false
            → InEx I D S view Holds code Guides advanced_l u
        decode-InEx e w = elim (Bool-cases l.front.valid) [
          | inl v ↦ rw (after-decode e w) (decoded-word-InEx v w (kept-InFront e))
          | inr n ↦ rw (after-decode e w) (
              bubble-InEx I D S view Holds code Guides (after (decoded l.rf l.front) fetched next) u
                (decoded-bubble l.rf l.front n) (behind u (sym ((kept-InFront e).idle_pc n))))
        ]

        -- Whatever the cycle brings into EX stands for the state behind the instruction that was there.
        pub advanced-InEx : InEx I D S view Holds code Guides advanced_l u
        advanced-InEx = elim (Bool-cases (redirects I D l)) [
          | inl e ↦ redirect-InEx e
          | inr e ↦ elim (Bool-cases (waits I D l)) [
            | inl w ↦ wait-InEx e w
            | inr w ↦ decode-InEx e w
          ]
        ]
