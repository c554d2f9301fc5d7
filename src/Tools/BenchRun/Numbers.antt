-- ===== src/Tools/BenchRun/Numbers.antt =====
-- `std::strtoul` and `std::strtoull` to base 10, on 64-bit results, and `std::strncmp` as a test. An
-- argument is the list of its character codes, without the final zero.
use cpu_sim.Base.{ℕ, ◌+◌, ◌-◌, ◌*◌, ◌%◌, ◌^◌, Bool, true, false, ◌&&◌, ◌||◌}
use cpu_sim.Base.{[], ◌∷◌, ◌==◌, leb, if◌then◌else◌, take}
use cpu_sim.Sim.Tracer.Texts.{Text}

unfoldable pub equal : Text → Text → Bool
equal [] [] = true
equal (x ∷ xs) (y ∷ ys) = x == y && equal xs ys
equal _ _ = false

-- `strncmp(s, t, n) == 0`.
unfoldable pub same_start : ℕ → Text → Text → Bool
unfolding equal
same_start n s t = equal (take n s) (take n t)

unfoldable pub is_digit : ℕ → Bool
is_digit c = leb b'0' c && leb c b'9'

unfoldable pub is_space : ℕ → Bool
is_space c = c == b' ' || (leb 9 c && leb c 13)

unfoldable pub skip_spaces : Text → Text
unfolding is_space
skip_spaces [] = []
skip_spaces (c ∷ cs) = if is_space c then skip_spaces cs else c ∷ cs

-- The value of the leading digits, behind digits of the value `acc`.
unfoldable pub number : ℕ → Text → ℕ
unfolding is_digit
number acc [] = acc
number acc (c ∷ cs) = if is_digit c then number (acc * 10 + (c - b'0')) cs else acc

abbrev pub ulong_max : ℕ
ulong_max = 2 ^ 64 - 1

abbrev pub saturated : ℕ → ℕ
saturated v = if leb v ulong_max then v else ulong_max

-- A sign negates in the unsigned type, if the digits fit.
unfoldable pub signed_number : Text → ℕ
unfolding number
signed_number [] = 0
signed_number (c ∷ cs) =
    if c == b'-'
    then (let v = number 0 cs in if leb v ulong_max then (2 ^ 64 - v) % 2 ^ 64 else ulong_max)
    else if c == b'+'
    then saturated (number 0 cs)
    else saturated (number 0 (c ∷ cs))

unfoldable pub strtoul : Text → ℕ
unfolding signed_number skip_spaces
strtoul s = signed_number (skip_spaces s)

-- The cast to `unsigned`.
abbrev pub to_unsigned : ℕ → ℕ
to_unsigned n = n % 2 ^ 32
