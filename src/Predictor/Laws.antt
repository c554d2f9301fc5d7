-- ===== src/Predictor/Laws.antt =====
-- The tables keep their shape, the tag and the index together name one word of the program, and a
-- prediction is what the last updates for that word say.
use cpu_sim.Base.{ℕ, zero, suc, ◌+◌, ◌-◌, ◌*◌, ◌/◌, ◌^◌, ◌<◌, ◌≡◌, refl, ap, ◌∙◌}
use mathlib.Core.Path.{subst}
use cpu_sim.Base.{sym, inl, inr, Bool-cases, not, set, ◌||◌, ◌==◌}
use cpu_sim.Base.{Bool, true, false, leb, if◌then◌else◌, arith, get_or, length}
use cpu_sim.Base.{replicate, length-set, get_or-set, get_or-set_self, get_or-replicate}
use cpu_sim.Base.{length-replicate, get_or-set_keeps, lt→ltb}
use cpu_sim.Base.Bits.{bit_and_mask}
use cpu_sim.Predictor.{BranchPredictor, BtbEntry, empty_entry, log2_loop, log2_exact, create}
use cpu_sim.Predictor.{bht_index, btb_index, btb_tag, predict, saturate, update}
use native.Mathlib.Nat.{pow-suc, one-le-pow, mod-lt, div-add-mod'}

-- 2 ^ h counters, each from 0 to 3, and 2 ^ t target entries.
pub record IsValid (p : BranchPredictor) (h t : ℕ) : Type 0 where
  pub bht_mask_eq : p.bht_mask ≡ 2 ^ h - 1
  pub bht_size : length p.bht ≡ 2 ^ h
  pub counters : (i : ℕ) → get_or p.bht i 0 < 4
  pub btb_mask_eq : p.btb_mask ≡ 2 ^ t - 1
  pub btb_size : length p.btb ≡ 2 ^ t
  pub index_bits : p.btb_index_bits ≡ t

log2_loop-pow : (k fuel n : ℕ) → k < fuel → log2_loop fuel (2 ^ k) n ≡ n + k
unfolding log2_loop
log2_loop-pow k zero n h = elim h [ ]
log2_loop-pow zero (suc fuel) n h = omega arith
log2_loop-pow (suc k) (suc fuel) n h =
    let halved : 2 ^ suc k / 2 ≡ 2 ^ k = omega (arith, pow-suc 2 k) in
    rw (lt→ltb 1 (2 ^ suc k) (omega (arith, pow-suc 2 k, one-le-pow k 2 (omega arith))), halved)
      (omega (arith, log2_loop-pow k fuel (n + 1) (omega arith)))

lt-two-pow : (k : ℕ) → k < 2 ^ k
lt-two-pow zero = omega arith
lt-two-pow (suc k) = omega (arith, lt-two-pow k, pow-suc 2 k)

log2_exact-pow : (k : ℕ) → log2_exact (2 ^ k) ≡ k
unfolding log2_exact
log2_exact-pow k = omega (arith, log2_loop-pow k (2 ^ k) 0 (lt-two-pow k))

below-replicate : (n i : ℕ) → get_or (replicate n 1) i 0 < 4
unfolding get_or
below-replicate zero i = omega arith
below-replicate (suc n) zero = omega arith
below-replicate (suc n) (suc i) = below-replicate n i

-- The constructor gives valid tables for powers of two.
pub create-IsValid : (h t : ℕ) → IsValid (create (2 ^ h) (2 ^ t)) h t
unfolding create
create-IsValid h t = record {
  bht_mask_eq = refl;
  bht_size = length-replicate (2 ^ h) 1;
  counters = λ i. below-replicate (2 ^ h) i;
  btb_mask_eq = refl;
  btb_size = length-replicate (2 ^ t) empty_entry;
  index_bits = log2_exact-pow t;
}

saturate-lt : (taken : Bool) (c : ℕ) → c < 4 → saturate taken c < 4
unfolding saturate
saturate-lt true c h = ground arith
saturate-lt false c h = ground arith

module _ {p : BranchPredictor} {h t : ℕ} (v : IsValid p h t) where
  btb_index-lt : (pc : ℕ) → btb_index p pc < length p.btb
  unfolding btb_index
  btb_index-lt pc = rw v.btb_mask_eq (
      omega (
        arith,
        bit_and_mask t (pc / 4),
        v.btb_size,
        mod-lt (pc / 4) (one-le-pow t 2 (omega arith)),
      ))

  bht_index-lt : (pc : ℕ) → bht_index p pc < length p.bht
  unfolding bht_index
  bht_index-lt pc = rw v.bht_mask_eq (
      omega (
        arith,
        bit_and_mask h (pc / 4),
        v.bht_size,
        mod-lt (pc / 4) (one-le-pow h 2 (omega arith)),
      ))

  -- The tag and the index of an address give its word back.
  word_of_tag_index : (pc : ℕ) → btb_tag p pc * 2 ^ t + btb_index p pc ≡ pc / 4
  unfolding btb_tag btb_index
  word_of_tag_index pc =
      rw (v.btb_mask_eq, v.index_bits)
        (omega (arith, bit_and_mask t (pc / 4), div-add-mod' (pc / 4) (2 ^ t)))

  -- Training keeps the shape of the tables, and the counters from 0 to 3.
  pub update-IsValid :
      (pc : ℕ) (is_cond taken : Bool) (target : ℕ) → IsValid (update p pc is_cond taken target) h t
  unfolding update
  update-IsValid pc is_cond taken target =
      let i = bht_index p pc in
      let c = saturate taken (get_or p.bht i 0) in
      record {
        bht_mask_eq = v.bht_mask_eq;
        bht_size = ground (arith, length-set p.bht i c, v.bht_size);
        counters = λ j. ground (
          arith,
          get_or-set_keeps (λ x. x < 4) p.bht i j c 0,
          saturate-lt taken (get_or p.bht i 0),
          v.counters i,
          v.counters j,
        );
        btb_mask_eq = v.btb_mask_eq;
        btb_size = length-set p.btb (btb_index p pc) _ ∙ v.btb_size;
        index_bits = v.index_bits;
      }

  -- The prediction for the address just trained: its target, and for a conditional branch the
  -- direction of the counter, moved one step towards the outcome.
  pub predict-update_self :
      (pc : ℕ) (is_cond taken : Bool) (target : ℕ)
      → predict (update p pc is_cond taken target) pc ≡ record {
        taken = if is_cond then leb 2 (saturate taken (get_or p.bht (bht_index p pc) 0)) else true;
        target = target;
      }
  unfolding predict update btb_index bht_index btb_tag
  predict-update_self pc is_cond taken target =
      let i = bht_index p pc in
      let new : BtbEntry = record {
        valid = true;
        tag = btb_tag p pc;
        target = target;
        cond = is_cond;
      } in
      ground (
        arith,
        get_or-set_self p.btb (btb_index p pc) new empty_entry (btb_index-lt pc),
        get_or-set_self p.bht i (saturate taken (get_or p.bht i 0)) 0 (bht_index-lt pc),
      )

counter-update :
    {p : BranchPredictor} {h t : ℕ}
    → IsValid p h t
    → (pc : ℕ) (taken : Bool) (target : ℕ)
    → let p' = update p pc true taken target in
      get_or p'.bht (bht_index p' pc) 0 ≡ saturate taken (get_or p.bht (bht_index p pc) 0)
unfolding update bht_index
counter-update {p} v pc taken target =
    get_or-set_self p.bht (bht_index p pc) (saturate taken (get_or p.bht (bht_index p pc) 0)) 0
      (bht_index-lt v pc)

saturate_twice : (taken : Bool) (c : ℕ) → c < 4 → leb 2 (saturate taken (saturate taken c)) ≡ taken
unfolding saturate
saturate_twice true c h = ground arith
saturate_twice false c h = ground arith

-- Two outcomes in a row decide the direction of a conditional branch, whatever the counter was, and
-- the predicted target is that of the last training.
pub predict-update_twice :
    {p : BranchPredictor} {h t : ℕ}
    → IsValid p h t
    → (pc : ℕ) (taken : Bool) (first target : ℕ)
    → predict (update (update p pc true taken first) pc true taken target) pc
      ≡ record { taken = taken; target = target }
predict-update_twice {p} v pc taken first target =
    let once = update-IsValid v pc true taken first in
    let c = get_or p.bht (bht_index p pc) 0 in
    ground (
      arith,
      predict-update_self once pc true taken target,
      counter-update v pc taken first,
      saturate_twice taken c (v.counters (bht_index p pc)),
    )

-- `P` holds of the word and the target of each valid entry, for the addresses that it answers.
abbrev pub EntriesAre : (ℕ → ℕ → Type 0) → BranchPredictor → Type 0
EntriesAre P p =
    (pc : ℕ)
    → (get_or p.btb (btb_index p pc) empty_entry).valid ≡ true
    → (get_or p.btb (btb_index p pc) empty_entry).tag ≡ btb_tag p pc
    → P (pc / 4) (get_or p.btb (btb_index p pc) empty_entry).target

-- Each valid entry holds the target that `dest` gives the words that it answers.
abbrev pub TargetsAre : (ℕ → ℕ) → BranchPredictor → Type 0
TargetsAre dest = EntriesAre (λ w a. a ≡ dest w)

pub create-EntriesAre : (P : ℕ → ℕ → Type 0) (h t : ℕ) → EntriesAre P (create (2 ^ h) (2 ^ t))
unfolding create
create-EntriesAre P h t pc valid tag =
    let i = btb_index (create (2 ^ h) (2 ^ t)) pc in
    let missing : (get_or (replicate (2 ^ t) empty_entry) i empty_entry).valid ≡ false =
      ap (λ (e : BtbEntry). e.valid) (get_or-replicate (2 ^ t) i empty_entry) in
    cc

pub create-TargetsAre : (dest : ℕ → ℕ) (h t : ℕ) → TargetsAre dest (create (2 ^ h) (2 ^ t))
create-TargetsAre dest = create-EntriesAre (λ w a. a ≡ dest w)

-- A predicted-taken address is sent to the target of its entry.
pub predict-entry :
    (P : ℕ → ℕ → Type 0) (p : BranchPredictor) (pc : ℕ)
    → EntriesAre P p
    → (predict p pc).taken ≡ true
    → P (pc / 4) (predict p pc).target
unfolding predict
predict-entry P p pc h taken =
    let e = get_or p.btb (btb_index p pc) empty_entry in
    elim (Bool-cases (not e.valid || not (e.tag == btb_tag p pc))) [
      | inl b ↦ absurd (ground (arith, b, taken))
      | inr b ↦ rw b (h pc (ground (arith, b)) (ground (arith, b)))
    ]

-- When every valid entry holds, for the words that it answers, the target that `dest` gives the word,
-- a predicted-taken address is sent to that target.
pub predict-target :
    (dest : ℕ → ℕ) (p : BranchPredictor) (pc : ℕ)
    → TargetsAre dest p
    → (predict p pc).taken ≡ true
    → (predict p pc).target ≡ dest (pc / 4)
predict-target dest = predict-entry (λ w a. a ≡ dest w)

-- Training keeps what holds of the entries, when it holds of the trained word.
pub update-EntriesAre :
    {p : BranchPredictor} {h t : ℕ}
    → IsValid p h t
    → (P : ℕ → ℕ → Type 0) (pc : ℕ) (is_cond taken : Bool) (target : ℕ) → EntriesAre P p
    → P (pc / 4) target
    → EntriesAre P (update p pc is_cond taken target)
unfolding update btb_index btb_tag
update-EntriesAre {p} v P pc is_cond taken target old e q valid tag =
    let new : BtbEntry = record {
      valid = true;
      tag = btb_tag p pc;
      target = target;
      cond = is_cond;
    } in
    let i = btb_index p pc in
    let j = btb_index p q in
    let found = get_or-set p.btb i j new empty_entry (btb_index-lt v pc) in
    elim (Bool-cases (i == j)) [
      | inl b ↦
          let x : get_or (set p.btb i new) j empty_entry ≡ new = found ∙ rw b refl in
          let same : pc / 4 ≡ q / 4 = ground (
            arith,
            word_of_tag_index v pc,
            word_of_tag_index v q,
            b,
            sym (ap {A = BtbEntry} (λ n. n.tag) x) ∙ tag,
          ) in
          rw x (subst (λ w. P w target) same e)
      | inr b ↦
          let x : get_or (set p.btb i new) j empty_entry ≡ get_or p.btb j empty_entry =
            found ∙ rw b refl in
          rw x (
            old q (sym (ap {A = BtbEntry} (λ n. n.valid) x) ∙ valid)
              (sym (ap {A = BtbEntry} (λ n. n.tag) x) ∙ tag))
    ]

-- Training with the target that `dest` gives the trained word keeps the target of every valid entry
-- right, whatever words share its slot.
pub update-TargetsAre :
    {p : BranchPredictor} {h t : ℕ}
    → IsValid p h t
    → (dest : ℕ → ℕ) (pc : ℕ) (is_cond taken : Bool) (target : ℕ) → TargetsAre dest p
    → target ≡ dest (pc / 4)
    → TargetsAre dest (update p pc is_cond taken target)
update-TargetsAre v dest = update-EntriesAre v (λ w a. a ≡ dest w)
