-- ===== src/Base/Bits.antt =====
-- `&`, `|` and `^` as arithmetic, for every width: a split of both operands at bit k, and what
-- it gives for masks, for disjoint fields and for the sign bit.
use Prim.Native.Nat.{ℕ, zero, suc, ◌+◌, ◌-◌, ◌*◌, ◌/◌, ◌%◌, ◌^◌, ◌≤◌, ◌<◌, min, max}
use Prim.Native.Nat.{bit_and, bit_or, bit_xor, digits, bitwise, differ}
use Prim.Native.Nat.{bit_and-bitwise, bit_or-bitwise, bit_xor-bitwise}
use mathlib.Core.Path.{◌≡◌, refl, ap, ap₂, sym, ◌∙◌}
use native.Mathlib.Nat.{pow-suc, one-le-pow, le_refl, mod-lt, div-add-mod'}
use native.Mathlib.Decide.{dec_lt}
use native.Mathlib.Omega.{arith}
use cpu_sim.Base.Tests.{ltb, lt→ltb, le→ltb, if◌then◌else◌}

-- Fuel above the first operand does not matter.
module _ (z : ℕ → ℕ) (f : ℕ → ℕ → ℕ) where
  digits_enough : (n a b : ℕ) → a ≤ n → digits z f n a b ≡ digits z f a a b
  digits_enough n a b h = agree n a a b h (le_refl a)
    where
      agree : (n m a b : ℕ) → a ≤ n → a ≤ m → digits z f n a b ≡ digits z f m a b
      agree zero zero a b p q = refl
      agree zero (suc m) zero b p q = refl
      agree zero (suc m) (suc a) b p q = absurd (omega arith)
      agree (suc n) zero zero b p q = refl
      agree (suc n) zero (suc a) b p q = absurd (omega arith)
      agree (suc n) (suc m) zero b p q = refl
      agree (suc n) (suc m) (suc a) b p q =
          ap (λ (t : ℕ). t * 2 + f (suc a % 2) (b % 2))
            (agree n m (suc a / 2) (b / 2) (omega arith) (omega arith))

  pub bitwise-digit :
      (a b : ℕ)
      → bitwise z f (suc a) b ≡ bitwise z f (suc a / 2) (b / 2) * 2 + f (suc a % 2) (b % 2)
  bitwise-digit a b =
      ap (λ (t : ℕ). t * 2 + f (suc a % 2) (b % 2))
        (digits_enough a (suc a / 2) (b / 2) (omega arith))

and_digit : (a b : ℕ) → bit_and a b ≡ bit_and (a / 2) (b / 2) * 2 + min (a % 2) (b % 2)
and_digit zero b = simp bit_and-bitwise (omega arith)
and_digit (suc a) b = simp bit_and-bitwise (bitwise-digit _ min a b)

or_digit : (a b : ℕ) → bit_or a b ≡ bit_or (a / 2) (b / 2) * 2 + max (a % 2) (b % 2)
or_digit zero b = simp bit_or-bitwise (omega arith)
or_digit (suc a) b = simp bit_or-bitwise (bitwise-digit _ max a b)

xor_digit : (a b : ℕ) → bit_xor a b ≡ bit_xor (a / 2) (b / 2) * 2 + differ (a % 2) (b % 2)
xor_digit zero b = simp bit_xor-bitwise (omega arith)
xor_digit (suc a) b = simp bit_xor-bitwise (bitwise-digit _ differ a b)

pow-double : (q k : ℕ) → q * 2 ^ suc k ≡ q * 2 ^ k * 2
pow-double q k = omega (arith, ap (λ (t : ℕ). q * t) (pow-suc 2 k))

halve : (k q r : ℕ) → (q * 2 ^ suc k + r) / 2 ≡ q * 2 ^ k + r / 2
halve k q r = omega (arith, pow-double q k)

parity : (k q r : ℕ) → (q * 2 ^ suc k + r) % 2 ≡ r % 2
parity k q r = omega (arith, pow-double q k)

-- An operation that works digit by digit works on the high and the low part of its operands.
module _ (op f : ℕ → ℕ → ℕ)
    (digit : (a b : ℕ) → op a b ≡ op (a / 2) (b / 2) * 2 + f (a % 2) (b % 2))
    (zeros : op 0 0 ≡ 0) where
  op_split :
      (k q r s t : ℕ)
      → r < 2 ^ k
      → t < 2 ^ k
      → op (q * 2 ^ k + r) (s * 2 ^ k + t) ≡ op q s * 2 ^ k + op r t
  op_split zero q r s t hr ht =
      let left : op (q * 2 ^ 0 + r) (s * 2 ^ 0 + t) ≡ op q s = ap₂ op (omega arith) (omega arith) in
      let right : op r t ≡ op 0 0 = ap₂ op (omega arith) (omega arith) in
      omega (arith, left, right, zeros)
  op_split (suc k) q r s t hr ht = omega (
    arith,
    digit (q * 2 ^ suc k + r) (s * 2 ^ suc k + t),
    ap₂ op (halve k q r) (halve k s t),
    ap₂ f (parity k q r) (parity k s t),
    op_split k q (r / 2) s (t / 2) (omega (arith, pow-suc 2 k)) (omega (arith, pow-suc 2 k)),
    digit r t,
    pow-double (op q s) k,
  )

bit_and_split :
    (k q r s t : ℕ)
    → r < 2 ^ k
    → t < 2 ^ k
    → bit_and (q * 2 ^ k + r) (s * 2 ^ k + t) ≡ bit_and q s * 2 ^ k + bit_and r t
bit_and_split = op_split bit_and min and_digit refl

bit_or_split :
    (k q r s t : ℕ)
    → r < 2 ^ k
    → t < 2 ^ k
    → bit_or (q * 2 ^ k + r) (s * 2 ^ k + t) ≡ bit_or q s * 2 ^ k + bit_or r t
bit_or_split = op_split bit_or max or_digit refl

pub bit_xor_split :
    (k q r s t : ℕ)
    → r < 2 ^ k
    → t < 2 ^ k
    → bit_xor (q * 2 ^ k + r) (s * 2 ^ k + t) ≡ bit_xor q s * 2 ^ k + bit_xor r t
bit_xor_split = op_split bit_xor differ xor_digit refl

-- An operand that is zero. The number of digits is bounded by `n`.
module _ (op f : ℕ → ℕ → ℕ) (g : ℕ → ℕ)
    (digit : (a b : ℕ) → op a b ≡ op (a / 2) (b / 2) * 2 + f (a % 2) (b % 2)) (zeros : op 0 0 ≡ 0)
    (bits : (a : ℕ) → f (a % 2) 0 ≡ g (a % 2)) (whole : (a : ℕ) → g (a / 2) * 2 + g (a % 2) ≡ g a)
    (none_left : g 0 ≡ 0) where
  op_zero : (n a : ℕ) → a ≤ n → op a 0 ≡ g a
  op_zero zero a h = let e : a ≡ 0 = omega arith in rw e (zeros ∙ sym none_left)
  op_zero (suc n) zero h = zeros ∙ sym none_left
  op_zero (suc n) (suc a) h =
      omega
        (arith, digit (suc a) 0, bits (suc a), whole (suc a), op_zero n (suc a / 2) (omega arith))

differ-zero : (b : ℕ) → b < 2 → differ b 0 ≡ b
differ-zero zero h = refl
differ-zero (suc zero) h = refl
differ-zero (suc (suc b)) h = absurd (omega arith)

pub bit_and-zero : (a : ℕ) → bit_and a 0 ≡ 0
bit_and-zero a =
    op_zero bit_and min (λ x. 0) and_digit refl (λ x. omega arith) (λ x. refl) refl a a (le_refl a)

pub bit_or-zero : (a : ℕ) → bit_or a 0 ≡ a
bit_or-zero a =
    op_zero bit_or max (λ x. x) or_digit refl (λ x. omega arith) (λ x. omega arith) refl a a
      (le_refl a)

pub bit_xor-zero : (a : ℕ) → bit_xor a 0 ≡ a
bit_xor-zero a =
    op_zero bit_xor differ (λ x. x) xor_digit refl (λ x. differ-zero (x % 2) (omega arith))
      (λ x. omega arith) refl a a (le_refl a)

-- Disjoint fields: `(q << k) | r` is a sum when `r` fits k bits.
pub bit_or_sum : (k q r : ℕ) → r < 2 ^ k → bit_or (q * 2 ^ k) r ≡ q * 2 ^ k + r
bit_or_sum k q r h = omega (
  arith,
  bit_or_split k q 0 0 r (one-le-pow k 2 (omega arith)) h,
  shown,
  ap (λ (t : ℕ). t * 2 ^ k) (bit_or-zero q),
  bit_or-bitwise 0 r,
)
  where
    shown : bit_or (q * 2 ^ k) r ≡ bit_or (q * 2 ^ k + 0) (0 * 2 ^ k + r)
    shown = ap₂ bit_or (omega arith) (omega arith)

mask_suc : (k : ℕ) → 2 ^ suc k - 1 ≡ (2 ^ k - 1) * 2 + 1
mask_suc k = omega (arith, pow-suc 2 k, one-le-pow k 2 (omega arith))

and_ones : (k r : ℕ) → r < 2 ^ k → bit_and r (2 ^ k - 1) ≡ r
and_ones zero r h = omega (arith, bit_and-zero r)
and_ones (suc k) r h = omega (
  arith,
  and_digit r (2 ^ suc k - 1),
  ap (λ (t : ℕ). bit_and (r / 2) t) halved,
  and_ones k (r / 2) (omega (arith, pow-suc 2 k)),
  mask_suc k,
)
  where
    halved : (2 ^ suc k - 1) / 2 ≡ 2 ^ k - 1
    halved = omega (arith, mask_suc k)

-- A mask of k low bits is the remainder by 2 ^ k.
pub bit_and_mask : (k a : ℕ) → bit_and a (2 ^ k - 1) ≡ a % 2 ^ k
bit_and_mask k a = omega (
  arith,
  bit_and_split k (a / 2 ^ k) (a % 2 ^ k) 0 (2 ^ k - 1) (mod-lt a (one-le-pow k 2 (omega arith)))
      (omega (arith, one-le-pow k 2 (omega arith))),
  shown,
  ap (λ (t : ℕ). t * 2 ^ k) (bit_and-zero (a / 2 ^ k)),
  and_ones k (a % 2 ^ k) (mod-lt a (one-le-pow k 2 (omega arith))),
)
  where
    shown :
        bit_and a (2 ^ k - 1) ≡ bit_and (a / 2 ^ k * 2 ^ k + a % 2 ^ k) (0 * 2 ^ k + (2 ^ k - 1))
    shown = ap₂ bit_and (sym (div-add-mod' a (2 ^ k))) (omega arith)

-- Clearing the k low bits: `a & ~((1 << k) - 1)` on 32 bits, with `high` the 32 - k high ones.
pub bit_and_high : (k high a : ℕ) → bit_and a (high * 2 ^ k) ≡ bit_and (a / 2 ^ k) high * 2 ^ k
bit_and_high k high a = omega (
  arith,
  bit_and_split k (a / 2 ^ k) (a % 2 ^ k) high 0 (mod-lt a (one-le-pow k 2 (omega arith)))
      (one-le-pow k 2 (omega arith)),
  shown,
  bit_and-zero (a % 2 ^ k),
)
  where
    shown : bit_and a (high * 2 ^ k) ≡ bit_and (a / 2 ^ k * 2 ^ k + a % 2 ^ k) (high * 2 ^ k + 0)
    shown = ap₂ bit_and (sym (div-add-mod' a (2 ^ k))) (omega arith)

xor_one_bit :
    (k q r a : ℕ) → a ≡ q * 2 ^ k + r → r < 2 ^ k → bit_xor a (2 ^ k) ≡ bit_xor q 1 * 2 ^ k + r
xor_one_bit k q r a e fits =
    omega
      (arith, shown, bit_xor_split k q r 1 0 fits (one-le-pow k 2 (omega arith)), bit_xor-zero r)
  where
    shown : bit_xor a (2 ^ k) ≡ bit_xor (q * 2 ^ k + r) (1 * 2 ^ k + 0)
    shown = ap₂ bit_xor e (omega arith)

-- Flipping bit k of a (k + 1)-bit number.
pub bit_xor_top :
    (k a : ℕ) → a < 2 ^ suc k → bit_xor a (2 ^ k) ≡ (if ltb a (2 ^ k) then a + 2 ^ k else a - 2 ^ k)
bit_xor_top k a h = elim (dec_lt a (2 ^ k)) [
  | yes low ↦ rw (lt→ltb a (2 ^ k) low) (omega (arith, xor_one_bit k 0 a a (omega arith) low))
  | no high ↦
      rw (le→ltb a (2 ^ k) (omega arith))
        (omega (arith, xor_one_bit k 1 (a - 2 ^ k) a (omega arith) (omega (arith, pow-suc 2 k))))
]

-- `x | r` is a sum when x has nothing below bit k, and r nothing from there on.
pub bit_or_add : (k x r : ℕ) → x % 2 ^ k ≡ 0 → r < 2 ^ k → bit_or x r ≡ x + r
bit_or_add k x r e h = omega (arith, ap (λ (t : ℕ). bit_or t r) whole, bit_or_sum k (x / 2 ^ k) r h)
  where
    whole : x ≡ x / 2 ^ k * 2 ^ k
    whole = omega (arith, div-add-mod' x (2 ^ k))

-- Four fields, from the highest to the lowest.
pub bit_or_add_four :
    (i j k a b c d : ℕ)
    → a % 2 ^ i ≡ 0
    → b < 2 ^ i
    → (a + b) % 2 ^ j ≡ 0
    → c < 2 ^ j
    → (a + b + c) % 2 ^ k ≡ 0
    → d < 2 ^ k
    → bit_or (bit_or (bit_or a b) c) d ≡ a + b + c + d
bit_or_add_four i j k a b c d ea lb eb lc ec ld =
    ap (λ (t : ℕ). bit_or (bit_or t c) d) (bit_or_add i a b ea lb)
    ∙ ap (λ (t : ℕ). bit_or t d) (bit_or_add j (a + b) c eb lc)
    ∙ bit_or_add k (a + b + c) d ec ld

-- A digit-by-digit operation whose digits stay below 2 keeps a bound on the number of digits.
module _ (op f : ℕ → ℕ → ℕ)
    (digit : (a b : ℕ) → op a b ≡ op (a / 2) (b / 2) * 2 + f (a % 2) (b % 2)) (zeros : op 0 0 ≡ 0)
    (small : (a b : ℕ) → f (a % 2) (b % 2) < 2) where
  op-lt : (k a b : ℕ) → a < 2 ^ k → b < 2 ^ k → op a b < 2 ^ k
  op-lt zero a b ha hb = let e : op a b ≡ op 0 0 = ap₂ op (omega arith) (omega arith) in omega arith
  op-lt (suc k) a b ha hb = omega (
    arith,
    digit a b,
    small a b,
    pow-suc 2 k,
    op-lt k (a / 2) (b / 2) (omega (arith, pow-suc 2 k)) (omega (arith, pow-suc 2 k)),
  )

differ-lt : (a b : ℕ) → a < 2 → b < 2 → differ a b < 2
differ-lt zero b ha hb = hb
differ-lt (suc zero) zero ha hb = omega arith
differ-lt (suc zero) (suc zero) ha hb = omega arith
differ-lt (suc zero) (suc (suc b)) ha hb = absurd (omega arith)
differ-lt (suc (suc a)) b ha hb = absurd (omega arith)

pub bit_and-lt : (k a b : ℕ) → a < 2 ^ k → b < 2 ^ k → bit_and a b < 2 ^ k
bit_and-lt = op-lt bit_and min and_digit refl (λ a b. omega arith)

pub bit_or-lt : (k a b : ℕ) → a < 2 ^ k → b < 2 ^ k → bit_or a b < 2 ^ k
bit_or-lt = op-lt bit_or max or_digit refl (λ a b. omega arith)

pub bit_xor-lt : (k a b : ℕ) → a < 2 ^ k → b < 2 ^ k → bit_xor a b < 2 ^ k
bit_xor-lt =
    op-lt bit_xor differ xor_digit refl
      (λ a b. differ-lt (a % 2) (b % 2) (omega arith) (omega arith))

-- `r | x` is a sum when x has nothing below bit k, and r nothing from there on.
pub bit_or_low : (k r x : ℕ) → x % 2 ^ k ≡ 0 → r < 2 ^ k → bit_or r x ≡ r + x
bit_or_low k r x e h = omega (
  arith,
  shown,
  bit_or_split k 0 r (x / 2 ^ k) 0 h (one-le-pow k 2 (omega arith)),
  ap (λ (t : ℕ). t * 2 ^ k) (bit_or-bitwise 0 (x / 2 ^ k)),
  bit_or-zero r,
  div-add-mod' x (2 ^ k),
)
  where
    shown : bit_or r x ≡ bit_or (0 * 2 ^ k + r) (x / 2 ^ k * 2 ^ k + 0)
    shown = ap₂ bit_or (omega arith) (omega (arith, div-add-mod' x (2 ^ k)))
