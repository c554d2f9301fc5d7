-- ===== src/Base/Words.antt =====
-- C++'s fixed-width integers. A `uint32_t` is a number below 2 ^ 32; an `int32_t` is its bit
-- pattern, such a number too, and `signed32` is the integer that the pattern stands for.
use Prim.Native.Nat.{ℕ, suc, ◌+◌, ◌-◌, ◌*◌, ◌/◌, ◌%◌, ◌^◌, ◌<◌}
use mathlib.Core.Path.{◌≡◌}
use mathlib.Core.Bool.{Bool, ◌&&◌}
use native.Mathlib.Omega.{arith}
use cpu_sim.Base.Tests.{ltb, leb, if◌then◌else◌}

abbrev pub u8 : ℕ → ℕ
u8 n = n % 2 ^ 8

abbrev pub u16 : ℕ → ℕ
u16 n = n % 2 ^ 16

abbrev pub u32 : ℕ → ℕ
u32 n = n % 2 ^ 32

-- `a + b`, `a - b`, `a << k` and `a >> k` on `uint32_t`.
abbrev pub add32 : ℕ → ℕ → ℕ
add32 a b = u32 (a + b)

abbrev pub sub32 : ℕ → ℕ → ℕ
sub32 a b = u32 (a + 2 ^ 32 - b)

abbrev pub shl32 : ℕ → ℕ → ℕ
shl32 a k = u32 (a * 2 ^ k)

abbrev pub shr : ℕ → ℕ → ℕ
shr a k = a / 2 ^ k

-- `negsuc n` is -(n + 1).
pub data ℤ : Type 0 where
  pos : ℕ → ℤ
  negsuc : ℕ → ℤ

abbrev pub pos_part : ℤ → ℕ
pos_part (pos n) = n
pos_part (negsuc n) = 0

abbrev pub neg_part : ℤ → ℕ
neg_part (pos n) = 0
neg_part (negsuc n) = suc n

-- a - b, as an integer.
abbrev pub sub_ℕ : ℕ → ℕ → ℤ
sub_ℕ a b = if leb b a then pos (a - b) else negsuc (b - a - 1)

infix 50 ◌<ℤ◌
abbrev pub ◌<ℤ◌ : ℤ → ℤ → Type 0
a <ℤ b = pos_part a + neg_part b < pos_part b + neg_part a

abbrev pub ltb_ℤ : ℤ → ℤ → Bool
ltb_ℤ a b = ltb (pos_part a + neg_part b) (pos_part b + neg_part a)

-- The value of a two's complement pattern, and the pattern of a value that fits.
abbrev pub signed32 : ℕ → ℤ
signed32 w = if ltb w (2 ^ 31) then pos w else negsuc (2 ^ 32 - w - 1)

abbrev pub pattern32 : ℤ → ℕ
pattern32 (pos n) = u32 n
pattern32 (negsuc n) = u32 (2 ^ 32 - 1 - n % 2 ^ 32)

pub pattern32-signed32 : (w : ℕ) → w < 2 ^ 32 → pattern32 (signed32 w) ≡ w
pattern32-signed32 w h = ground arith

-- `static_cast<int>(n) - 1` for an `unsigned` n, as the bit pattern of the `int`. For 2 ^ 31 the
-- subtraction overflows, which the language leaves undefined; the pattern wraps around.
abbrev pub countdown : ℕ → ℕ
countdown n = (n + 0xffffffff) % 2 ^ 32

-- `n > 0` for the bit pattern of an `int`.
abbrev pub is_positive : ℕ → Bool
is_positive n = ltb 0 n && ltb n (2 ^ 31)
