-- ===== src/Memory/Tags/Address.antt =====
-- The address that `addr_of` makes of a set and a tag.
use cpu_sim.Base.{
  ℕ, ◌+◌, ◌-◌, ◌*◌, ◌/◌, ◌%◌, ◌^◌, ◌≤◌, ◌<◌, ◌≡◌, arith, bit_and, bit_or, ap, sym, ◌∙◌, zero, suc,
  shl32,
}
use cpu_sim.Base.Bits.{bit_and_mask, bit_and_high, bit_or_add}
use cpu_sim.Memory.Tags.{Tags, index_of, tag_of, line_addr_of, addr_of}
use native.Mathlib.Nat.{
  one-le-pow, mod-lt, div-add-mod', pow-suc, div-div-eq-div-mul, mul_assoc, mul_comm, add-mul,
  mul-lt-mul_of_pos_right, mul-mod_left, pow-le-pow_right, lt_of_mul-lt-mul_right, mod-eq_of_lt,
  div-mul-le_self,
}

pow_add : (o k : ℕ) → 2 ^ (o + k) ≡ 2 ^ o * 2 ^ k
pow_add o zero = let e : o + 0 ≡ o = omega arith in omega (arith, ap (λ n. 2 ^ n) e)
pow_add o (suc k) =
    let e : o + suc k ≡ suc (o + k) = omega arith in
    omega (
      arith,
      ap (λ n. 2 ^ n) e,
      pow-suc 2 (o + k),
      pow_add o k,
      ap (λ p. 2 ^ o * p) (pow-suc 2 k),
      mul_assoc (2 ^ o) (2 ^ k) 2,
    )

-- The bits above the offset are those of the tag and of the set.
parts : (o k a : ℕ) → a / 2 ^ (o + k) * 2 ^ (o + k) + a / 2 ^ o % 2 ^ k * 2 ^ o ≡ a / 2 ^ o * 2 ^ o
parts o k a = omega (
  arith,
  pow_add o k,
  ap (λ p. a / p * p) (pow_add o k),
  ap (λ q. q * (2 ^ o * 2 ^ k)) (div-div-eq-div-mul a (2 ^ o) (2 ^ k)),
  ap (λ p. a / 2 ^ o / 2 ^ k * p) (mul_comm (2 ^ o) (2 ^ k)),
  mul_assoc (a / 2 ^ o / 2 ^ k) (2 ^ k) (2 ^ o),
  add-mul (a / 2 ^ o / 2 ^ k * 2 ^ k) (a / 2 ^ o % 2 ^ k) (2 ^ o),
  ap (λ q. q * 2 ^ o) (div-add-mod' (a / 2 ^ o) (2 ^ k)),
)

-- The place of a set's bits in an address.
set-lt : (o k s : ℕ) → s < 2 ^ k → s * 2 ^ o < 2 ^ (o + k)
set-lt o k s h = omega (
  arith,
  pow_add o k,
  mul_comm (2 ^ o) (2 ^ k),
  mul-lt-mul_of_pos_right {m = s} {n = 2 ^ k} {k = 2 ^ o} h (one-le-pow o 2 (omega arith)),
)

joined :
    (o k a : ℕ)
    → a < 2 ^ 32
    → bit_or (shl32 (a / 2 ^ (o + k)) (o + k)) (shl32 (a / 2 ^ o % 2 ^ k) o) ≡ a / 2 ^ o * 2 ^ o
joined o k a word =
    let x = a / 2 ^ (o + k) * 2 ^ (o + k) in
    let r = a / 2 ^ o % 2 ^ k * 2 ^ o in
    let low : r < 2 ^ (o + k) =
      set-lt o k (a / 2 ^ o % 2 ^ k) (mod-lt (a / 2 ^ o) (one-le-pow k 2 (omega arith))) in
    let xe : x % 2 ^ 32 ≡ x = mod-eq_of_lt (omega (arith, div-mul-le_self a (2 ^ (o + k)))) in
    let re : r % 2 ^ 32 ≡ r =
      mod-eq_of_lt (omega (arith, parts o k a, div-mul-le_self a (2 ^ o))) in
    ap (λ y. bit_or y (r % 2 ^ 32)) xe
    ∙ ap (bit_or x) re
    ∙ bit_or_add (o + k) x r (mul-mod_left (a / 2 ^ (o + k)) (2 ^ (o + k))) low
    ∙ parts o k a

module _ (t : Tags) {k : ℕ} (mask : t.index_mask ≡ 2 ^ k - 1) (fits : t.offset_bits + k ≤ 31)
    (bits : t.index_bits ≡ k) where
  line_addr_of-high :
      (a : ℕ) → a < 2 ^ 32 → line_addr_of t a ≡ a / 2 ^ t.offset_bits * 2 ^ t.offset_bits
  unfolding line_addr_of
  line_addr_of-high a word =
      let o = t.offset_bits in
      let e : 32 - o + o ≡ 32 = omega arith in
      let whole : 2 ^ (32 - o) * 2 ^ o ≡ 2 ^ 32 = sym (pow_add (32 - o) o) ∙ ap (λ n. 2 ^ n) e in
      let small : 1 * 2 ^ o < 2 ^ 32 =
        omega (arith, pow-le-pow_right {n = 2} (omega arith) {i = o} {j = 31} (omega arith)) in
      let less : 2 ^ (32 - o) - 1 + 1 ≡ 2 ^ (32 - o) =
        omega (arith, one-le-pow (32 - o) 2 (omega arith)) in
      let m : 2 ^ 32 - 1 - (shl32 1 o - 1) ≡ (2 ^ (32 - o) - 1) * 2 ^ o = omega (
        arith,
        mod-eq_of_lt small,
        whole,
        one-le-pow o 2 (omega arith),
        add-mul (2 ^ (32 - o) - 1) 1 (2 ^ o),
        ap (λ n. n * 2 ^ o) less,
      ) in
      let high : a / 2 ^ o < 2 ^ (32 - o) =
        lt_of_mul-lt-mul_right (2 ^ o) (omega (arith, whole, div-mul-le_self a (2 ^ o))) in
      ap (bit_and a) m
      ∙ bit_and_high o (2 ^ (32 - o) - 1) a
      ∙ ap (λ b. b * 2 ^ o) (bit_and_mask (32 - o) (a / 2 ^ o) ∙ mod-eq_of_lt high)

  -- With 2 ^ k sets and at most 31 bits of offset and set, the set and the tag of a 32-bit address give
  -- the address of its line back, so a victim is written back to where it was fetched from.
  pub addr_of-line_addr_of :
      (a : ℕ) → a < 2 ^ 32 → addr_of t (index_of t a) (tag_of t a) ≡ line_addr_of t a
  unfolding addr_of index_of tag_of
  addr_of-line_addr_of a word =
      let o = t.offset_bits in
      let i : bit_and (a / 2 ^ o) t.index_mask ≡ a / 2 ^ o % 2 ^ k =
        ap (bit_and (a / 2 ^ o)) mask ∙ bit_and_mask k (a / 2 ^ o) in
      ap
        (λ n. bit_or (shl32 (a / 2 ^ (o + n)) (o + n)) (shl32 (bit_and (a / 2 ^ o) t.index_mask) o))
        bits
      ∙ ap (λ n. bit_or (shl32 (a / 2 ^ (o + k)) (o + k)) (shl32 n o)) i
      ∙ joined o k a word
      ∙ sym (line_addr_of-high a word)
