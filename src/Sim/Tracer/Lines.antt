-- ===== src/Sim/Tracer/Lines.antt =====
-- The lines of the tracer fit their buffers.
use cpu_sim.Base.{
  ℕ, ◌+◌, ◌-◌, ◌^◌, ◌≤◌, ◌<◌, ◌≡◌, refl, ap, arith, Bool, true, false, ◌==◌, [], ◌∷◌, ◌++◌, length,
  length-++, length-replicate, replicate, take-whole, if◌then◌else◌, Bool-cases, inl, inr,
}
use cpu_sim.Isa.Op.{Op}
use cpu_sim.Pipeline.Regs.{MemWb}
use cpu_sim.Sim.Tracer.Texts.{
  Text, codes, digits, decimal, hex, zero_fill, left_fill, right_fill, hex_word,
}
use cpu_sim.Sim.Tracer.{
  Format, disasm_text, disasm, effect_text, format_effect, record_line, store_hex_digits,
  is_load_op,
}
use cpu_sim.Sim.Tracer.Widths.{
  length-digits, decimal_digits_le, length-right_fill, length-hex_word, disasm_text_le,
}

-- The lines with no buffer in between.
unfoldable pub whole_line : Format → MemWb → ℕ → Text
unfolding left_fill decimal hex_word disasm_text effect_text
whole_line Format.cycle wb n =
    if wb.valid
    then left_fill 6 (decimal n)
      ++ codes " | "
      ++ hex_word wb.pc
      ++ codes "  "
      ++ disasm_text wb.raw wb.pc
      ++ (10 ∷ [])
    else left_fill 6 (decimal n) ++ codes " |" ++ (10 ∷ [])
whole_line Format.commit wb n =
    if wb.valid
    then codes "core   0: 3 "
      ++ hex_word wb.pc
      ++ codes " ("
      ++ hex_word wb.raw
      ++ codes ")"
      ++ effect_text wb
      ++ (10 ∷ [])
    else []

store_hex_digits_le : (op : Op) → store_hex_digits op ≤ 8
unfolding store_hex_digits
store_hex_digits_le Op.sb = omega arith
store_hex_digits_le Op.sh = omega arith
store_hex_digits_le _ = omega arith

length-zero_fill_le : (w : ℕ) (t : Text) → length (zero_fill w t) ≤ w + length t
unfolding zero_fill
length-zero_fill_le w t =
    omega
      (arith, length-++ (replicate (w - length t) 48) t, length-replicate {A = ℕ} (w - length t) 48)

length-left_fill : (w k : ℕ) (t : Text) → length t ≤ k → w ≤ k → length (left_fill w t) ≤ k
unfolding left_fill
length-left_fill w k t h b =
    omega
      (arith, length-++ (replicate (w - length t) 32) t, length-replicate {A = ℕ} (w - length t) 32)

store_text_le :
    (a v : ℕ) (op : Op)
    → length (codes " mem " ++ hex_word a ++ codes " 0x" ++ zero_fill (store_hex_digits op) (hex v))
      ≤ 40
unfolding hex
store_text_le a v op = omega (
  arith,
  store_hex_digits_le op,
  length-zero_fill_le (store_hex_digits op) (digits 8 16 v),
  length-digits 8 16 v,
  length-hex_word a,
  length-++ (codes " mem ") (hex_word a),
  length-++ (codes " mem " ++ hex_word a) (codes " 0x"),
  length-++ (codes " mem " ++ hex_word a ++ codes " 0x") (zero_fill (store_hex_digits op) (hex v)),
)

register_text_le :
    (rd v : ℕ) (t : Text)
    → length t ≤ 15
    → length (codes " x" ++ right_fill 2 (decimal rd) ++ codes " " ++ hex_word v ++ t) ≤ 55
unfolding decimal
register_text_le rd v t h = omega (
  arith,
  length-right_fill 2 (digits 20 10 rd),
  length-digits 20 10 rd,
  length-hex_word v,
  length-++ (codes " x") (right_fill 2 (decimal rd)),
  length-++ (codes " x" ++ right_fill 2 (decimal rd)) (codes " "),
  length-++ (codes " x" ++ right_fill 2 (decimal rd) ++ codes " ") (hex_word v),
  length-++ (codes " x" ++ right_fill 2 (decimal rd) ++ codes " " ++ hex_word v) (t),
)

load_text_le : (a : ℕ) (b : Bool) → length (if b then codes " mem " ++ hex_word a else []) ≤ 15
load_text_le a true = omega (arith, length-hex_word a, length-++ (codes " mem ") (hex_word a))
load_text_le a false = omega arith

effect_text_le : (wb : MemWb) → length (effect_text wb) ≤ 55
unfolding effect_text
effect_text_le wb = elim (Bool-cases wb.is_store) [
  | inl s ↦ rw s (omega (arith, store_text_le wb.mem_addr wb.mem_val wb.op))
  | inr s ↦ elim (Bool-cases (wb.rd == 0)) [
    | inl z ↦ rw (s, z) (omega arith)
    | inr z ↦
        rw (s, z) (register_text_le wb.rd wb.wb_val _ (load_text_le wb.mem_addr (is_load_op wb.op)))
  ]
]

cycle_line_le :
    (n pc : ℕ) (d : Text)
    → length d ≤ 39
    → length (left_fill 6 (decimal n) ++ codes " | " ++ hex_word pc ++ codes "  " ++ d) ≤ 79
unfolding decimal
cycle_line_le n pc d h = omega (
  arith,
  length-left_fill 6 20 (digits 20 10 n) (length-digits 20 10 n) (omega arith),
  length-hex_word pc,
  length-++ (left_fill 6 (decimal n)) (codes " | "),
  length-++ (left_fill 6 (decimal n) ++ codes " | ") (hex_word pc),
  length-++ (left_fill 6 (decimal n) ++ codes " | " ++ hex_word pc) (codes "  "),
  length-++ (left_fill 6 (decimal n) ++ codes " | " ++ hex_word pc ++ codes "  ") (d),
)

commit_line_le :
    (pc raw : ℕ) (e : Text)
    → length e ≤ 55
    → length (codes "core   0: 3 " ++ hex_word pc ++ codes " (" ++ hex_word raw ++ codes ")" ++ e)
      ≤ 127
commit_line_le pc raw e h = omega (
  arith,
  length-hex_word pc,
  length-hex_word raw,
  length-++ (codes "core   0: 3 ") (hex_word pc),
  length-++ (codes "core   0: 3 " ++ hex_word pc) (codes " ("),
  length-++ (codes "core   0: 3 " ++ hex_word pc ++ codes " (") (hex_word raw),
  length-++ (codes "core   0: 3 " ++ hex_word pc ++ codes " (" ++ hex_word raw) (codes ")"),
  length-++ (codes "core   0: 3 " ++ hex_word pc ++ codes " (" ++ hex_word raw ++ codes ")") (e),
)

bubble_line_le : (n : ℕ) → n < 10 ^ 13 → length (left_fill 6 (decimal n) ++ codes " |") ≤ 15
unfolding decimal
bubble_line_le n h = omega (
  arith,
  length-left_fill 6 13 (digits 20 10 n) (decimal_digits_le 20 12 n h) (omega arith),
  length-++ (left_fill 6 (decimal n)) (codes " |"),
)

disasm-whole : (raw pc : ℕ) → disasm 40 raw pc ≡ disasm_text raw pc
unfolding disasm
disasm-whole raw pc = take-whole 39 (disasm_text raw pc) (disasm_text_le raw pc)

format_effect-whole : (wb : MemWb) → format_effect 64 wb ≡ effect_text wb
unfolding format_effect
format_effect-whole wb = take-whole 63 (effect_text wb) (omega (arith, effect_text_le wb))

-- No buffer is too small, up to 10 ^ 13 cycles: `record` writes each line whole.
pub record_line-whole :
    (fmt : Format) (wb : MemWb) (n : ℕ) → n < 10 ^ 13 → record_line fmt wb n ≡ whole_line fmt wb n
unfolding record_line whole_line
record_line-whole Format.cycle wb n h = elim (Bool-cases wb.valid) [
  | inl v ↦
      rw (v, disasm-whole wb.raw wb.pc)
        (ap (λ t. t ++ (10 ∷ []))
          (take-whole 79
            (left_fill 6 (decimal n)
              ++ codes " | "
              ++ hex_word wb.pc
              ++ codes "  "
              ++ disasm_text wb.raw wb.pc)
            (cycle_line_le n wb.pc (disasm_text wb.raw wb.pc) (disasm_text_le wb.raw wb.pc))))
  | inr v ↦ rw v (
      ap (λ t. t ++ (10 ∷ []))
        (take-whole 15 (left_fill 6 (decimal n) ++ codes " |") (bubble_line_le n h)))
]
record_line-whole Format.commit wb n h = elim (Bool-cases wb.valid) [
  | inl v ↦
      rw (v, format_effect-whole wb)
        (ap (λ t. t ++ (10 ∷ []))
          (take-whole 127
            (codes "core   0: 3 "
              ++ hex_word wb.pc
              ++ codes " ("
              ++ hex_word wb.raw
              ++ codes ")"
              ++ effect_text wb)
            (commit_line_le wb.pc wb.raw (effect_text wb) (effect_text_le wb))))
  | inr v ↦ rw v refl
]
