-- ===== src/Tools/BenchRun/Decimals.antt =====
-- `strtoul` reads back what `%u` and `%llu` print.
use cpu_sim.Base.{ℕ, zero, suc, ◌+◌, ◌-◌, ◌*◌, ◌/◌, ◌%◌, ◌^◌, ◌<◌, ◌≡◌, refl, sym, ap, ◌∙◌, arith}
use cpu_sim.Base.{true, [], ◌∷◌, ◌++◌, ◌≤◌}
use native.Mathlib.Nat.{pow-suc}
use mathlib.Core.Path.{subst}
use native.Mathlib.Decide.{dec_lt}
use cpu_sim.Sim.Tracer.Texts.{Text, digit, digits, decimal}
use cpu_sim.Tools.BenchRun.Numbers.{
  is_digit, is_space, skip_spaces, number, signed_number, strtoul, saturated,
}

-- Decimal digits only.
abbrev pub Digits : Text → Type 0
Digits [] = Unit
Digits (c ∷ cs) = (is_digit c ≡ true) × Digits cs

digit-is_digit : (d : ℕ) → d < 10 → (is_digit (digit d) ≡ true) × (digit d - b'0' ≡ d)
unfolding is_digit
digit-is_digit d h = ground arith

Digits-append : (s t : Text) → Digits s → Digits t → Digits (s ++ t)
Digits-append [] t p q = q
Digits-append (c ∷ s) t p q = (p.0, Digits-append s t p.1 q)

number-append : (acc : ℕ) (s t : Text) → Digits s → number acc (s ++ t) ≡ number (number acc s) t
unfolding number
number-append acc [] t p = refl
number-append acc (c ∷ s) t p = rw p.0 (number-append (acc * 10 + (c - b'0')) s t p.1)

number-digit : (acc d : ℕ) → d < 10 → number acc (digit d ∷ []) ≡ acc * 10 + d
unfolding number
number-digit acc d h = let e = digit-is_digit d h in ground (arith, e)

digits-small : (f n : ℕ) → n < 10 → digits (suc f) 10 n ≡ digit n ∷ []
unfolding digits
digits-small f n h = ground arith

digits-large :
    (f n : ℕ) → 10 ≤ n → digits (suc f) 10 n ≡ digits f 10 (n / 10) ++ (digit (n % 10) ∷ [])
unfolding digits
digits-large f n h = ground arith

digits-Digits : (f n : ℕ) → Digits (digits f 10 n)
unfolding digits
digits-Digits zero n = tt
digits-Digits (suc f) n = elim (dec_lt n 10) [
  | yes h ↦ subst Digits (sym (digits-small f n h)) ((digit-is_digit n h).0, tt)
  | no h ↦ subst Digits (sym (digits-large f n (omega arith))) (
      Digits-append (digits f 10 (n / 10)) (digit (n % 10) ∷ []) (digits-Digits f (n / 10))
        ((digit-is_digit (n % 10) (omega arith)).0, tt))
]

number-digits : (f n : ℕ) → n < 10 ^ f → number 0 (digits f 10 n) ≡ n
unfolding digits number
number-digits zero n h = omega arith
number-digits (suc f) n h = elim (dec_lt n 10) [
  | yes k ↦ ap (number 0) (digits-small f n k) ∙ number-digit 0 n k ∙ omega arith
  | no k ↦
      let rest = number-digits f (n / 10) (omega (arith, pow-suc 10 f)) in
      ap (number 0) (digits-large f n (omega arith))
      ∙ number-append 0 (digits f 10 (n / 10)) (digit (n % 10) ∷ []) (digits-Digits f (n / 10))
      ∙ number-digit (number 0 (digits f 10 (n / 10))) (n % 10) (omega arith)
      ∙ omega (arith, rest)
]

snoc_split : (s : Text) (d : ℕ) → (c : ℕ) × (cs : Text) × (s ++ (d ∷ []) ≡ c ∷ cs)
snoc_split [] d = (d, [], refl)
snoc_split (c ∷ s) d = (c, s ++ (d ∷ []), refl)

digits_split : (f n : ℕ) → (c : ℕ) × (cs : Text) × (digits (suc f) 10 n ≡ c ∷ cs)
digits_split f n = elim (dec_lt n 10) [
  | yes h ↦ (digit n, [], digits-small f n h)
  | no h ↦
      let (c, cs, e) = snoc_split (digits f 10 (n / 10)) (digit (n % 10)) in
      (c, cs, digits-large f n (omega arith) ∙ e)
]

-- What starts with a digit has neither spaces nor a sign in front.
strtoul-number :
    (c : ℕ) (cs : Text) → is_digit c ≡ true → strtoul (c ∷ cs) ≡ saturated (number 0 (c ∷ cs))
unfolding strtoul skip_spaces signed_number is_space is_digit
strtoul-number c cs h = ground arith

-- The first character of a printed number is a digit.
pub decimal_split : (n : ℕ) → (c : ℕ) × (cs : Text) × (decimal n ≡ c ∷ cs) × (is_digit c ≡ true)
unfolding decimal
decimal_split n = let (c, cs, e) = digits_split 19 n in (c, cs, e, (rw e at (digits-Digits 20 n)).0)

pub strtoul-decimal : (n : ℕ) → n < 2 ^ 64 → strtoul (decimal n) ≡ n
unfolding decimal
strtoul-decimal n h =
    let (c, cs, e, d) = decimal_split n in
    let v : number 0 (decimal n) ≡ n = number-digits 20 n (omega arith) in
    rw e (strtoul-number c cs d ∙ ap saturated (sym (ap (number 0) e) ∙ v) ∙ ground arith)
