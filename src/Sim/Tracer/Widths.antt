-- ===== src/Sim/Tracer/Widths.antt =====
-- How long the texts of the tracer can be.
use cpu_sim.Base.{
  ℕ, zero, suc, ◌+◌, ◌-◌, ◌*◌, ◌/◌, ◌%◌, ◌^◌, ◌≤◌, ◌<◌, ◌≡◌, refl, arith, leb, ◌&&◌, Bool, true,
  List, [], ◌∷◌, ◌++◌, get_or, length, length-++, length-replicate, replicate, add32, bit_and, shr,
}
use cpu_sim.Isa.Op.{Op}
use cpu_sim.Isa.Decoder.{decode}
use cpu_sim.Sim.Tracer.Texts.{
  Text, codes, digit, digits, decimal, signed_decimal, hex, zero_fill, right_fill, hex_word,
}
use cpu_sim.Sim.Tracer.{op_name, abi_name, abi_names, mnemonic, disasm_op, disasm_text}

pub length-digits : (fuel b n : ℕ) → length (digits fuel b n) ≤ fuel
unfolding digits
length-digits zero b n = omega arith
length-digits (suc fuel) b n =
    ground
      (arith, length-digits fuel b (n / b), length-++ (digits fuel b (n / b)) (digit (n % b) ∷ []))

-- 10 ^ k.
abbrev pub ten_to : ℕ → ℕ
ten_to zero = 1
ten_to (suc k) = 10 * ten_to k

pub decimal_digits_le : (fuel k n : ℕ) → n < ten_to (suc k) → length (digits fuel 10 n) ≤ suc k
unfolding digits
decimal_digits_le zero k n h = omega arith
decimal_digits_le (suc fuel) zero n h = ground arith
decimal_digits_le (suc fuel) (suc k) n h = ground (
  arith,
  decimal_digits_le fuel k (n / 10) (omega arith),
  length-++ (digits fuel 10 (n / 10)) (digit (n % 10) ∷ []),
)

pub signed_decimal_le : (n : ℕ) → length (signed_decimal n) ≤ 21
unfolding signed_decimal decimal
signed_decimal_le n = ground (arith, length-digits 20 10 n, length-digits 20 10 (2 ^ 32 - n))

pub length-zero_fill : (w : ℕ) (t : Text) → length t ≤ w → length (zero_fill w t) ≡ w
unfolding zero_fill
length-zero_fill w t h =
    omega
      (arith, length-++ (replicate (w - length t) 48) t, length-replicate {A = ℕ} (w - length t) 48)

pub length-right_fill : (w : ℕ) (t : Text) → length (right_fill w t) ≤ w + length t
unfolding right_fill
length-right_fill w t =
    omega
      (arith, length-++ t (replicate (w - length t) 32), length-replicate {A = ℕ} (w - length t) 32)

pub length-hex_word : (n : ℕ) → length (hex_word n) ≡ 10
unfolding hex_word hex
length-hex_word n = omega (arith, length-zero_fill 8 (digits 8 16 n) (length-digits 8 16 n))

-- The longest name has four letters.
abbrev all_short : List Text → Bool
all_short [] = true
all_short (t ∷ names) = leb (length t) 4 && all_short names

abi_name_le : (names : List Text) (i : ℕ) → all_short names ≡ true → length (get_or names i []) ≤ 4
unfolding get_or
abi_name_le [] i h = omega arith
abi_name_le (t ∷ names) zero h = ground arith
abi_name_le (t ∷ names) (suc i) h = abi_name_le names i (ground (arith, h))

mnemonic_le :
    (rd rs1 rs2 : Text) (imm pc : ℕ) (op : Op)
    → length (op_name op) ≤ 5
    → length (mnemonic rd rs1 rs2 imm pc op) ≤ 6
unfolding right_fill
mnemonic_le rd rs1 rs2 imm pc op h = omega (
  arith,
  length-++ (op_name op ++ replicate (5 - length (op_name op)) 32) (codes " "),
  length-++ (op_name op) (replicate (5 - length (op_name op)) 32),
  length-replicate {A = ℕ} (5 - length (op_name op)) 32,
)

three_le :
    (m a b c : Text)
    → length m ≤ 6
    → length a ≤ 4
    → length b ≤ 4
    → length c ≤ 21
    → length (m ++ a ++ codes ", " ++ b ++ codes ", " ++ c) ≤ 39
three_le m a b c hm ha hb hc = omega (
  arith,
  length-++ m (a),
  length-++ (m ++ a) (codes ", "),
  length-++ (m ++ a ++ codes ", ") (b),
  length-++ (m ++ a ++ codes ", " ++ b) (codes ", "),
  length-++ (m ++ a ++ codes ", " ++ b ++ codes ", ") (c),
)

two_le :
    (m a c : Text)
    → length m ≤ 6
    → length a ≤ 4
    → length c ≤ 21
    → length (m ++ a ++ codes ", " ++ c) ≤ 39
two_le m a c hm ha hc =
    omega (
      arith,
      length-++ m (a),
      length-++ (m ++ a) (codes ", "),
      length-++ (m ++ a ++ codes ", ") (c),
    )

offset_le :
    (m a b c : Text)
    → length m ≤ 6
    → length a ≤ 4
    → length b ≤ 4
    → length c ≤ 21
    → length (m ++ a ++ codes ", " ++ c ++ codes "(" ++ b ++ codes ")") ≤ 39
offset_le m a b c hm ha hb hc = omega (
  arith,
  length-++ m (a),
  length-++ (m ++ a) (codes ", "),
  length-++ (m ++ a ++ codes ", ") (c),
  length-++ (m ++ a ++ codes ", " ++ c) (codes "("),
  length-++ (m ++ a ++ codes ", " ++ c ++ codes "(") (b),
  length-++ (m ++ a ++ codes ", " ++ c ++ codes "(" ++ b) (codes ")"),
)

disasm_op_le :
    (rd rs1 rs2 : Text) (imm pc : ℕ) (op : Op)
    → length rd ≤ 4
    → length rs1 ≤ 4
    → length rs2 ≤ 4
    → length (disasm_op rd rs1 rs2 imm pc op) ≤ 39
unfolding disasm_op op_name
disasm_op_le rd rs1 rs2 imm pc Op.add a b c =
    three_le (mnemonic rd rs1 rs2 imm pc Op.add) rd rs1 rs2
      (mnemonic_le rd rs1 rs2 imm pc Op.add (omega arith)) a b (omega (arith, c))
disasm_op_le rd rs1 rs2 imm pc Op.sub a b c =
    three_le (mnemonic rd rs1 rs2 imm pc Op.sub) rd rs1 rs2
      (mnemonic_le rd rs1 rs2 imm pc Op.sub (omega arith)) a b (omega (arith, c))
disasm_op_le rd rs1 rs2 imm pc Op.sll a b c =
    three_le (mnemonic rd rs1 rs2 imm pc Op.sll) rd rs1 rs2
      (mnemonic_le rd rs1 rs2 imm pc Op.sll (omega arith)) a b (omega (arith, c))
disasm_op_le rd rs1 rs2 imm pc Op.srl a b c =
    three_le (mnemonic rd rs1 rs2 imm pc Op.srl) rd rs1 rs2
      (mnemonic_le rd rs1 rs2 imm pc Op.srl (omega arith)) a b (omega (arith, c))
disasm_op_le rd rs1 rs2 imm pc Op.sra a b c =
    three_le (mnemonic rd rs1 rs2 imm pc Op.sra) rd rs1 rs2
      (mnemonic_le rd rs1 rs2 imm pc Op.sra (omega arith)) a b (omega (arith, c))
disasm_op_le rd rs1 rs2 imm pc Op.slt a b c =
    three_le (mnemonic rd rs1 rs2 imm pc Op.slt) rd rs1 rs2
      (mnemonic_le rd rs1 rs2 imm pc Op.slt (omega arith)) a b (omega (arith, c))
disasm_op_le rd rs1 rs2 imm pc Op.sltu a b c =
    three_le (mnemonic rd rs1 rs2 imm pc Op.sltu) rd rs1 rs2
      (mnemonic_le rd rs1 rs2 imm pc Op.sltu (omega arith)) a b (omega (arith, c))
disasm_op_le rd rs1 rs2 imm pc Op.and a b c =
    three_le (mnemonic rd rs1 rs2 imm pc Op.and) rd rs1 rs2
      (mnemonic_le rd rs1 rs2 imm pc Op.and (omega arith)) a b (omega (arith, c))
disasm_op_le rd rs1 rs2 imm pc Op.or a b c =
    three_le (mnemonic rd rs1 rs2 imm pc Op.or) rd rs1 rs2
      (mnemonic_le rd rs1 rs2 imm pc Op.or (omega arith)) a b (omega (arith, c))
disasm_op_le rd rs1 rs2 imm pc Op.xor a b c =
    three_le (mnemonic rd rs1 rs2 imm pc Op.xor) rd rs1 rs2
      (mnemonic_le rd rs1 rs2 imm pc Op.xor (omega arith)) a b (omega (arith, c))
disasm_op_le rd rs1 rs2 imm pc Op.addi a b c =
    three_le (mnemonic rd rs1 rs2 imm pc Op.addi) rd rs1 (signed_decimal imm)
      (mnemonic_le rd rs1 rs2 imm pc Op.addi (omega arith)) a b (signed_decimal_le imm)
disasm_op_le rd rs1 rs2 imm pc Op.slti a b c =
    three_le (mnemonic rd rs1 rs2 imm pc Op.slti) rd rs1 (signed_decimal imm)
      (mnemonic_le rd rs1 rs2 imm pc Op.slti (omega arith)) a b (signed_decimal_le imm)
disasm_op_le rd rs1 rs2 imm pc Op.sltiu a b c =
    three_le (mnemonic rd rs1 rs2 imm pc Op.sltiu) rd rs1 (signed_decimal imm)
      (mnemonic_le rd rs1 rs2 imm pc Op.sltiu (omega arith)) a b (signed_decimal_le imm)
disasm_op_le rd rs1 rs2 imm pc Op.andi a b c =
    three_le (mnemonic rd rs1 rs2 imm pc Op.andi) rd rs1 (signed_decimal imm)
      (mnemonic_le rd rs1 rs2 imm pc Op.andi (omega arith)) a b (signed_decimal_le imm)
disasm_op_le rd rs1 rs2 imm pc Op.ori a b c =
    three_le (mnemonic rd rs1 rs2 imm pc Op.ori) rd rs1 (signed_decimal imm)
      (mnemonic_le rd rs1 rs2 imm pc Op.ori (omega arith)) a b (signed_decimal_le imm)
disasm_op_le rd rs1 rs2 imm pc Op.xori a b c =
    three_le (mnemonic rd rs1 rs2 imm pc Op.xori) rd rs1 (signed_decimal imm)
      (mnemonic_le rd rs1 rs2 imm pc Op.xori (omega arith)) a b (signed_decimal_le imm)
disasm_op_le rd rs1 rs2 imm pc Op.slli a b c =
    three_le (mnemonic rd rs1 rs2 imm pc Op.slli) rd rs1 (signed_decimal (bit_and imm 0x1f))
      (mnemonic_le rd rs1 rs2 imm pc Op.slli (omega arith)) a b
      (signed_decimal_le (bit_and imm 0x1f))
disasm_op_le rd rs1 rs2 imm pc Op.srli a b c =
    three_le (mnemonic rd rs1 rs2 imm pc Op.srli) rd rs1 (signed_decimal (bit_and imm 0x1f))
      (mnemonic_le rd rs1 rs2 imm pc Op.srli (omega arith)) a b
      (signed_decimal_le (bit_and imm 0x1f))
disasm_op_le rd rs1 rs2 imm pc Op.srai a b c =
    three_le (mnemonic rd rs1 rs2 imm pc Op.srai) rd rs1 (signed_decimal (bit_and imm 0x1f))
      (mnemonic_le rd rs1 rs2 imm pc Op.srai (omega arith)) a b
      (signed_decimal_le (bit_and imm 0x1f))
disasm_op_le rd rs1 rs2 imm pc Op.lb a b c =
    offset_le (mnemonic rd rs1 rs2 imm pc Op.lb) rd rs1 (signed_decimal imm)
      (mnemonic_le rd rs1 rs2 imm pc Op.lb (omega arith)) a b (signed_decimal_le imm)
disasm_op_le rd rs1 rs2 imm pc Op.lh a b c =
    offset_le (mnemonic rd rs1 rs2 imm pc Op.lh) rd rs1 (signed_decimal imm)
      (mnemonic_le rd rs1 rs2 imm pc Op.lh (omega arith)) a b (signed_decimal_le imm)
disasm_op_le rd rs1 rs2 imm pc Op.lw a b c =
    offset_le (mnemonic rd rs1 rs2 imm pc Op.lw) rd rs1 (signed_decimal imm)
      (mnemonic_le rd rs1 rs2 imm pc Op.lw (omega arith)) a b (signed_decimal_le imm)
disasm_op_le rd rs1 rs2 imm pc Op.lbu a b c =
    offset_le (mnemonic rd rs1 rs2 imm pc Op.lbu) rd rs1 (signed_decimal imm)
      (mnemonic_le rd rs1 rs2 imm pc Op.lbu (omega arith)) a b (signed_decimal_le imm)
disasm_op_le rd rs1 rs2 imm pc Op.lhu a b c =
    offset_le (mnemonic rd rs1 rs2 imm pc Op.lhu) rd rs1 (signed_decimal imm)
      (mnemonic_le rd rs1 rs2 imm pc Op.lhu (omega arith)) a b (signed_decimal_le imm)
disasm_op_le rd rs1 rs2 imm pc Op.jalr a b c =
    offset_le (mnemonic rd rs1 rs2 imm pc Op.jalr) rd rs1 (signed_decimal imm)
      (mnemonic_le rd rs1 rs2 imm pc Op.jalr (omega arith)) a b (signed_decimal_le imm)
disasm_op_le rd rs1 rs2 imm pc Op.sb a b c =
    offset_le (mnemonic rd rs1 rs2 imm pc Op.sb) rs2 rs1 (signed_decimal imm)
      (mnemonic_le rd rs1 rs2 imm pc Op.sb (omega arith)) c b (signed_decimal_le imm)
disasm_op_le rd rs1 rs2 imm pc Op.sh a b c =
    offset_le (mnemonic rd rs1 rs2 imm pc Op.sh) rs2 rs1 (signed_decimal imm)
      (mnemonic_le rd rs1 rs2 imm pc Op.sh (omega arith)) c b (signed_decimal_le imm)
disasm_op_le rd rs1 rs2 imm pc Op.sw a b c =
    offset_le (mnemonic rd rs1 rs2 imm pc Op.sw) rs2 rs1 (signed_decimal imm)
      (mnemonic_le rd rs1 rs2 imm pc Op.sw (omega arith)) c b (signed_decimal_le imm)
disasm_op_le rd rs1 rs2 imm pc Op.beq a b c =
    three_le (mnemonic rd rs1 rs2 imm pc Op.beq) rs1 rs2 (hex_word (add32 pc imm))
      (mnemonic_le rd rs1 rs2 imm pc Op.beq (omega arith)) b c
      (omega (arith, length-hex_word (add32 pc imm)))
disasm_op_le rd rs1 rs2 imm pc Op.bne a b c =
    three_le (mnemonic rd rs1 rs2 imm pc Op.bne) rs1 rs2 (hex_word (add32 pc imm))
      (mnemonic_le rd rs1 rs2 imm pc Op.bne (omega arith)) b c
      (omega (arith, length-hex_word (add32 pc imm)))
disasm_op_le rd rs1 rs2 imm pc Op.blt a b c =
    three_le (mnemonic rd rs1 rs2 imm pc Op.blt) rs1 rs2 (hex_word (add32 pc imm))
      (mnemonic_le rd rs1 rs2 imm pc Op.blt (omega arith)) b c
      (omega (arith, length-hex_word (add32 pc imm)))
disasm_op_le rd rs1 rs2 imm pc Op.bge a b c =
    three_le (mnemonic rd rs1 rs2 imm pc Op.bge) rs1 rs2 (hex_word (add32 pc imm))
      (mnemonic_le rd rs1 rs2 imm pc Op.bge (omega arith)) b c
      (omega (arith, length-hex_word (add32 pc imm)))
disasm_op_le rd rs1 rs2 imm pc Op.bltu a b c =
    three_le (mnemonic rd rs1 rs2 imm pc Op.bltu) rs1 rs2 (hex_word (add32 pc imm))
      (mnemonic_le rd rs1 rs2 imm pc Op.bltu (omega arith)) b c
      (omega (arith, length-hex_word (add32 pc imm)))
disasm_op_le rd rs1 rs2 imm pc Op.bgeu a b c =
    three_le (mnemonic rd rs1 rs2 imm pc Op.bgeu) rs1 rs2 (hex_word (add32 pc imm))
      (mnemonic_le rd rs1 rs2 imm pc Op.bgeu (omega arith)) b c
      (omega (arith, length-hex_word (add32 pc imm)))
disasm_op_le rd rs1 rs2 imm pc Op.jal a b c =
    two_le (mnemonic rd rs1 rs2 imm pc Op.jal) rd (hex_word (add32 pc imm))
      (mnemonic_le rd rs1 rs2 imm pc Op.jal (omega arith)) a
      (omega (arith, length-hex_word (add32 pc imm)))
disasm_op_le rd rs1 rs2 imm pc Op.lui a b c =
    two_le (mnemonic rd rs1 rs2 imm pc Op.lui) rd (codes "0x" ++ hex (shr imm 12))
      (mnemonic_le rd rs1 rs2 imm pc Op.lui (omega arith)) a
      (omega (arith, length-digits 8 16 (shr imm 12)))
disasm_op_le rd rs1 rs2 imm pc Op.auipc a b c =
    two_le (mnemonic rd rs1 rs2 imm pc Op.auipc) rd (codes "0x" ++ hex (shr imm 12))
      (mnemonic_le rd rs1 rs2 imm pc Op.auipc (omega arith)) a
      (omega (arith, length-digits 8 16 (shr imm 12)))
disasm_op_le rd rs1 rs2 imm pc Op.ecall a b c = omega arith
disasm_op_le rd rs1 rs2 imm pc Op.ebreak a b c = omega arith
disasm_op_le rd rs1 rs2 imm pc Op.fence a b c = omega arith
disasm_op_le rd rs1 rs2 imm pc Op.illegal a b c = omega arith

pub disasm_text_le : (raw pc : ℕ) → length (disasm_text raw pc) ≤ 39
unfolding disasm_text abi_name
disasm_text_le raw pc =
    let i = decode raw pc in
    disasm_op_le (abi_name i.rd) (abi_name i.rs1) (abi_name i.rs2) i.imm pc i.op
      (abi_name_le abi_names i.rd refl) (abi_name_le abi_names i.rs1 refl)
      (abi_name_le abi_names i.rs2 refl)
