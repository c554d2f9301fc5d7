-- ===== src/Sim/Tracer/Texts.antt =====
-- `std::snprintf` for the conversions that the tracer uses. A text is the list of its character
-- codes.
use Prim.Native.Char.{code}
use Prim.Native.String.{String}
use cpu_sim.Base.{
  ℕ, zero, suc, ◌+◌, ◌-◌, ◌/◌, ◌%◌, ◌^◌, ltb, if◌then◌else◌, List, [], ◌∷◌, ◌++◌, length, replicate,
  take,
}

abbrev pub Text : Type 0
Text = List ℕ

abbrev pub codes : String → Text
codes String.[] = []
codes (String.◌∷◌ c s) = code c ∷ codes s

abbrev pub digit : ℕ → ℕ
digit d = if ltb d 10 then d + 48 else d + 87

-- The digits of `n` in base `b`, at most `fuel` of them.
unfoldable pub digits : ℕ → ℕ → ℕ → Text
digits zero b n = []
digits (suc fuel) b n =
    let rest = digits fuel b (n / b) in
    if ltb n b then digit n ∷ [] else rest ++ (digit (n % b) ∷ [])

-- `%u` and `%llu`, of a number below 2 ^ 64.
unfoldable pub decimal : ℕ → Text
unfolding digits
decimal n = digits 20 10 n

-- `%d` of a 32-bit pattern.
unfoldable pub signed_decimal : ℕ → Text
unfolding decimal
signed_decimal n = if ltb n (2 ^ 31) then decimal n else 45 ∷ decimal (2 ^ 32 - n)

-- `%x` of a 32-bit pattern.
unfoldable pub hex : ℕ → Text
unfolding digits
hex n = digits 8 16 n

-- A field of `w` characters: filled up with zeros or spaces on the left, or with spaces on the right.
unfoldable pub zero_fill : ℕ → Text → Text
zero_fill w t = replicate (w - length t) 48 ++ t

unfoldable pub left_fill : ℕ → Text → Text
left_fill w t = replicate (w - length t) 32 ++ t

unfoldable pub right_fill : ℕ → Text → Text
right_fill w t = t ++ replicate (w - length t) 32

-- `0x%08x`.
unfoldable pub hex_word : ℕ → Text
unfolding zero_fill hex
hex_word n = codes "0x" ++ zero_fill 8 (hex n)

-- What fits into a buffer of `size` characters, with the final zero.
abbrev pub snprintf : ℕ → Text → Text
snprintf size t = take (size - 1) t
