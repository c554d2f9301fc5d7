-- ===== src/Sim/Tracer/Columns.antt =====
-- The address and the word of an instruction, read back from its commit line.
use cpu_sim.Base.{
  ℕ, zero, suc, ◌+◌, ◌-◌, ◌*◌, ◌/◌, ◌%◌, ◌^◌, ◌<◌, ◌≡◌, refl, sym, ap, ◌∙◌, arith, true, [], ◌∷◌,
  ◌++◌, length, replicate, take, drop, take-++, drop-++, drop-drop, ltb, if◌then◌else◌,
}
use mathlib.Core.List.{append_assoc}
use cpu_sim.Pipeline.Regs.{MemWb}
use cpu_sim.Sim.Tracer.Texts.{Text, codes, digit, digits, hex, zero_fill, hex_word}
use cpu_sim.Sim.Tracer.{Format, effect_text, record_line}
use cpu_sim.Sim.Tracer.Widths.{length-digits, length-zero_fill}
use cpu_sim.Sim.Tracer.Lines.{whole_line, record_line-whole}

-- A hexadecimal number read from a text.
unfoldable pub read_hex : ℕ → Text → ℕ
read_hex acc [] = acc
read_hex acc (c ∷ t) = read_hex (acc * 16 + (if ltb c 58 then c - 48 else c - 87)) t

abbrev pub sixteen_to : ℕ → ℕ
sixteen_to zero = 1
sixteen_to (suc k) = 16 * sixteen_to k

read_hex-digit :
    (acc d : ℕ) (t : Text) → d < 16 → read_hex acc (t ++ (digit d ∷ [])) ≡ read_hex acc t * 16 + d
unfolding read_hex
read_hex-digit acc d [] h = ground arith
read_hex-digit acc d (c ∷ t) h =
    read_hex-digit (acc * 16 + (if ltb c 58 then c - 48 else c - 87)) d t h

read_hex-digits : (fuel n : ℕ) → n < sixteen_to fuel → read_hex 0 (digits fuel 16 n) ≡ n
unfolding digits read_hex
read_hex-digits zero n h = omega arith
read_hex-digits (suc fuel) n h = ground (
  arith,
  read_hex-digits fuel (n / 16) (omega arith),
  read_hex-digit 0 (n % 16) (digits fuel 16 (n / 16)),
  read_hex-digit 0 n [],
)

read_hex-zeros : (k : ℕ) (t : Text) → read_hex 0 (replicate k 48 ++ t) ≡ read_hex 0 t
unfolding read_hex
read_hex-zeros zero t = refl
read_hex-zeros (suc k) t = read_hex-zeros k t

-- The eight digits of a word.
abbrev word_digits : ℕ → Text
word_digits n = zero_fill 8 (hex n)

read_hex-word : (n : ℕ) → n < 2 ^ 32 → read_hex 0 (word_digits n) ≡ n
unfolding hex zero_fill
read_hex-word n h =
    read_hex-zeros (8 - length (digits 8 16 n)) (digits 8 16 n) ∙ read_hex-digits 8 n (omega arith)

length-word_digits : (n : ℕ) → 8 ≡ length (word_digits n)
unfolding hex
length-word_digits n = sym (length-zero_fill 8 (digits 8 16 n) (length-digits 8 16 n))

-- The columns of a commit line from the program counter on.
abbrev columns : ℕ → ℕ → Text → Text
columns pc raw e =
    word_digits pc ++ (codes " (0x" ++ (word_digits raw ++ (codes ")" ++ (e ++ (10 ∷ [])))))

columns_assoc :
    (x y e : Text)
    → drop 14 (
        codes "core   0: 3 "
        ++ (codes "0x" ++ x)
        ++ codes " ("
        ++ (codes "0x" ++ y)
        ++ codes ")"
        ++ e
        ++ (10 ∷ []))
      ≡ x ++ (codes " (0x" ++ (y ++ (codes ")" ++ (e ++ (10 ∷ [])))))
columns_assoc x y e = simp append_assoc

commit-columns :
    (pc raw : ℕ) (e : Text)
    → drop 14 (
        codes "core   0: 3 "
        ++ hex_word pc
        ++ codes " ("
        ++ hex_word raw
        ++ codes ")"
        ++ e
        ++ (10 ∷ []))
      ≡ columns pc raw e
unfolding hex_word
commit-columns pc raw e = columns_assoc (word_digits pc) (word_digits raw) e

first_word : (n : ℕ) (t : Text) → n < 2 ^ 32 → read_hex 0 (take 8 (word_digits n ++ t)) ≡ n
first_word n t h =
    ap (λ k. read_hex 0 (take k (word_digits n ++ t))) (length-word_digits n)
    ∙ ap (read_hex 0) (take-++ (word_digits n) t)
    ∙ read_hex-word n h

behind_word : (n : ℕ) (t : Text) → drop 8 (word_digits n ++ t) ≡ t
behind_word n t =
    ap (λ k. drop k (word_digits n ++ t)) (length-word_digits n) ∙ drop-++ (word_digits n) t

-- Columns 14 and 26 of the line for a committed instruction, each eight wide, are its address and its
-- word in hexadecimal.
pub commit_line-words :
    (wb : MemWb) (n : ℕ)
    → wb.valid ≡ true
    → wb.pc < 2 ^ 32
    → wb.raw < 2 ^ 32
    → (read_hex 0 (take 8 (drop 14 (record_line Format.commit wb n))) ≡ wb.pc)
      × (read_hex 0 (take 8 (drop 26 (record_line Format.commit wb n))) ≡ wb.raw)
unfolding record_line whole_line
commit_line-words wb n v p r =
    let line = record_line Format.commit wb 0 in
    let at : drop 14 line ≡ columns wb.pc wb.raw (effect_text wb) =
      ap (drop 14) (record_line-whole Format.commit wb 0 (omega arith))
      ∙ rw v (commit-columns wb.pc wb.raw (effect_text wb)) in
    let tail = word_digits wb.raw ++ (codes ")" ++ (effect_text wb ++ (10 ∷ []))) in
    let later : drop 26 line ≡ tail =
      sym (drop-drop 14 12 line)
      ∙ ap (drop 12) at
      ∙ sym (drop-drop 8 4 (columns wb.pc wb.raw (effect_text wb)))
      ∙ ap (drop 4) (behind_word wb.pc (codes " (0x" ++ tail)) in
    (
      ap (λ t. read_hex 0 (take 8 t)) at ∙ first_word wb.pc (codes " (0x" ++ tail) p,
      ap (λ t. read_hex 0 (take 8 t)) later
          ∙ first_word wb.raw (codes ")" ++ (effect_text wb ++ (10 ∷ []))) r,
    )
