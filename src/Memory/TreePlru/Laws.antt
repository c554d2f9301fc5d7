-- ===== src/Memory/TreePlru/Laws.antt =====
-- The victim is a way of the set, and never the way touched last.
use cpu_sim.Base.{ℕ, zero, suc, ◌+◌, ◌*◌, ◌/◌, ◌^◌, ◌≤◌, ◌<◌, ◌≡◌, ◌≢◌, refl, arith, List, ltb}
use cpu_sim.Base.{
  ◌==◌, if◌then◌else◌, get_or, set, length, length-set, get_or-set, get_or-set_keeps, ap, ◌∙◌,
  lt→ltb, le→ltb,
}
use cpu_sim.Memory.TreePlru.{TreePlru, descend, victim, ascend, touch}
use native.Mathlib.Nat.{pow-suc, one-le-pow}

-- Every node holds a bit.
abbrev pub Bits : List ℕ → Type 0
Bits bits = (i : ℕ) → get_or bits i 0 < 2

scaled_bit : (b p : ℕ) → b < 2 → b * p ≤ p
scaled_bit zero p h = omega arith
scaled_bit (suc zero) p h = omega arith
scaled_bit (suc (suc b)) p h = absurd (omega arith)

stays_inside : (i p w : ℕ) → 0 < p → i * p < w → i < w
stays_inside i p w hp h = grind arith

module _ (ways : ℕ) (bits : List ℕ) (base : ℕ) (binary : Bits bits) where
  -- From a node `l` levels above the leaves the walk ends at a leaf below that node.
  descend_below :
      (l fuel i : ℕ)
      → l ≤ fuel
      → ways ≤ i * 2 ^ l
      → (i + 1) * 2 ^ l ≤ 2 * ways
      → (i * 2 ^ l ≤ descend fuel ways bits base i)
        × (descend fuel ways bits base i < (i + 1) * 2 ^ l)
  unfolding descend
  descend_below zero zero i h lo hi = (omega arith, omega arith)
  descend_below zero (suc fuel) i h lo hi =
      rw (le→ltb i ways (omega arith)) (omega arith, omega arith)
  descend_below (suc l) zero i h lo hi = absurd (omega arith)
  descend_below (suc l) (suc fuel) i h lo hi =
      let b = get_or bits (base + i) 0 in
      let p = one-le-pow l 2 (omega arith) in
      let small = scaled_bit b (2 ^ l) (binary (base + i)) in
      let inside : i < ways =
        stays_inside i (2 ^ l) ways p
          (omega (arith, pow-suc 2 l, ap (λ (t : ℕ). i * t) (pow-suc 2 l))) in
      let rest =
        descend_below l fuel (2 * i + b) (omega arith)
          (omega (arith, ap (λ (t : ℕ). i * t) (pow-suc 2 l)))
          (omega (arith, pow-suc 2 l, ap (λ (t : ℕ). i * t) (pow-suc 2 l))) in
      rw (lt→ltb i ways inside) (
        omega (arith, rest, small, ap (λ (t : ℕ). i * t) (pow-suc 2 l)),
        omega (arith, rest, small, pow-suc 2 l, ap (λ (t : ℕ). i * t) (pow-suc 2 l)),
      )

-- The bit that a node gets when the walk comes from child i.
abbrev away : ℕ → ℕ
away i = if i == 2 * (i / 2) then 1 else 0

ascend-Bits : (fuel base : ℕ) (bits : List ℕ) (i : ℕ) → Bits bits → Bits (ascend fuel base bits i)
unfolding ascend
ascend-Bits zero base bits i h = h
ascend-Bits (suc fuel) base bits i h = λ j. ground (
  arith,
  h j,
  ascend-Bits fuel base (set bits (base + i / 2) (away i)) (i / 2)
      (λ k. get_or-set_keeps (λ b. b < 2) bits (base + i / 2) k (away i) 0 (ground arith) (h k)) j,
)

ascend-root : (fuel base : ℕ) (bits : List ℕ) → ascend fuel base bits 1 ≡ bits
unfolding ascend
ascend-root zero base bits = refl
ascend-root (suc fuel) base bits = refl

-- Walking up from below the root's left child leaves a 1 in the root, from the right one a 0.
ascend_root_bit :
    (l fuel base : ℕ) (bits : List ℕ) (i : ℕ)
    → suc l ≤ fuel
    → base + 1 < length bits
    → 2 * 2 ^ l ≤ i
    → i < 4 * 2 ^ l
    → get_or (ascend fuel base bits i) (base + 1) 0 ≡ (if ltb i (3 * 2 ^ l) then 1 else 0)
unfolding ascend
ascend_root_bit zero zero base bits i h room lo hi = elim h [ ]
ascend_root_bit (suc l) zero base bits i h room lo hi = elim h [ ]
ascend_root_bit zero (suc fuel) base bits i h room lo hi =
    let parent : i / 2 ≡ 1 = omega arith in
    rw
      (
        lt→ltb 1 i (omega arith),
        parent,
        ascend-root fuel base (set bits (base + 1) (if i == 2 then 1 else 0)),
      )
      (ground (arith, get_or-set bits (base + 1) (base + 1) (if i == 2 then 1 else 0) 0))
ascend_root_bit (suc l) (suc fuel) base bits i h room lo hi =
    rw (lt→ltb 1 i (omega (arith, pow-suc 2 l, one-le-pow l 2 (omega arith)))) (
      ground (
        arith,
        pow-suc 2 l,
        length-set bits (base + i / 2) (away i),
        ascend_root_bit l fuel base (set bits (base + i / 2) (away i)) (i / 2) (omega arith)
            (rw length-set room) (omega (arith, pow-suc 2 l)) (omega (arith, pow-suc 2 l)),
      ))

le-two-pow : (d : ℕ) → d ≤ 2 ^ d
le-two-pow zero = omega arith
le-two-pow (suc d) = omega (arith, le-two-pow d, pow-suc 2 d, one-le-pow d 2 (omega arith))

-- The shape that the constructor gives: a power of two of ways, and a bit for each node of a set.
pub record IsValid (p : TreePlru) (depth sets : ℕ) : Type 0 where
  pub perfect : p.ways ≡ 2 ^ depth
  pub binary : Bits p.bits
  pub size : length p.bits ≡ sets * p.ways

-- The walk goes to the root's child that the root's bit names, and ends below it.
descend_root :
    (ways l fuel : ℕ) (bits : List ℕ) (base : ℕ)
    → Bits bits
    → ways ≡ 2 ^ suc l
    → suc l ≤ fuel
    → let b = get_or bits (base + 1) 0 in
      ((2 + b) * 2 ^ l ≤ descend fuel ways bits base 1)
      × (descend fuel ways bits base 1 < (3 + b) * 2 ^ l)
unfolding descend
descend_root ways l zero bits base binary e h = elim h [ ]
descend_root ways l (suc fuel) bits base binary e h =
    let b = get_or bits (base + 1) 0 in
    let p = one-le-pow l 2 (omega arith) in
    let small = scaled_bit b (2 ^ l) (binary (base + 1)) in
    let rest =
      descend_below ways bits base binary l fuel (2 + b) (omega arith) (omega (arith, pow-suc 2 l))
        (omega (arith, pow-suc 2 l)) in
    rw (lt→ltb 1 ways (omega (arith, pow-suc 2 l))) (omega (arith, rest), omega (arith, rest))

module _ {p : TreePlru} {l sets : ℕ} (v : IsValid p (suc l) sets) where
  victim_leaf :
      (s : ℕ)
      → let b = get_or p.bits (s * p.ways + 1) 0 in
        ((2 + b) * 2 ^ l ≤ victim p s + p.ways) × (victim p s + p.ways < (3 + b) * 2 ^ l)
  unfolding victim
  victim_leaf s =
      let enough : suc l ≤ p.ways = omega (arith, le-two-pow (suc l), v.perfect) in
      let r = descend_root p.ways l p.ways p.bits (s * p.ways) v.binary v.perfect enough in
      (omega (arith, r, v.perfect, pow-suc 2 l), omega (arith, r, v.perfect, pow-suc 2 l))

  -- The victim is a way of the set.
  pub victim-lt : (s : ℕ) → victim p s < p.ways
  victim-lt s = omega (
    arith,
    victim_leaf s,
    scaled_bit (get_or p.bits (s * p.ways + 1) 0) (2 ^ l) (v.binary (s * p.ways + 1)),
    v.perfect,
    pow-suc 2 l,
  )

length-ascend :
    (fuel base : ℕ) (bits : List ℕ) (i : ℕ) → length (ascend fuel base bits i) ≡ length bits
unfolding ascend
length-ascend zero base bits i = refl
length-ascend (suc fuel) base bits i = ground (
  arith,
  length-set bits (base + i / 2) (away i),
  length-ascend fuel base (set bits (base + i / 2) (away i)) (i / 2),
)

pub touch-IsValid :
    {p : TreePlru} {depth sets : ℕ} (s way : ℕ)
    → IsValid p depth sets
    → IsValid (touch p s way) depth sets
unfolding touch
touch-IsValid {p} s way v = record {
  perfect = v.perfect;
  binary = ascend-Bits (way + p.ways) (s * p.ways) p.bits (way + p.ways) v.binary;
  size = length-ascend (way + p.ways) (s * p.ways) p.bits (way + p.ways) ∙ v.size;
}

root_fits : (s sets ways : ℕ) → s < sets → 1 < ways → s * ways + 1 < sets * ways
root_fits s sets ways h w = grind arith

-- In a set of at least two ways, the way touched last is not the next victim.
pub victim-touch :
    {p : TreePlru} {l sets : ℕ} (s way : ℕ)
    → IsValid p (suc l) sets
    → s < sets
    → way < p.ways
    → victim (touch p s way) s ≢ way
unfolding touch
victim-touch {p} {l} {sets} s way v hs hw =
    let power = one-le-pow l 2 (omega arith) in
    let root =
      ascend_root_bit l (way + p.ways) (s * p.ways) p.bits (way + p.ways)
        (omega (arith, le-two-pow (suc l), v.perfect))
        (omega (arith, root_fits s sets p.ways hs (omega (arith, v.perfect, pow-suc 2 l)), v.size))
        (omega (arith, v.perfect, pow-suc 2 l)) (omega (arith, v.perfect, pow-suc 2 l)) in
    ground (arith, root, victim_leaf (touch-IsValid s way v) s, v.perfect, pow-suc 2 l)
