-- ===== src/Memory/FlatMem/Data.antt =====
-- The data path of `FlatMem`: little-endian words, and what a store leaves alone.
use cpu_sim.Base.{ℕ, ◌+◌, ◌-◌, ◌*◌, ◌/◌, ◌%◌, ◌^◌, ◌≤◌, ◌<◌, ◌≡◌, arith}
use cpu_sim.Base.{some, length, get_or, set, length-set, get_or-set, if◌then◌else◌, ◌==◌}
use cpu_sim.Base.{List, ◌⊎◌}
use cpu_sim.Base.Bits.{bit_and_mask, bit_or_low}
use cpu_sim.Memory.FlatMem.{FlatMem, load_byte, load_word}
use cpu_sim.Memory.FlatMem.{store_word}

-- The byte that `addr` holds, 0 outside the memory.
abbrev pub byte : FlatMem → ℕ → ℕ
byte m addr = get_or m.mem (addr - m.base) 0

-- `n` bytes from `addr` on lie in the memory.
abbrev pub Holds : FlatMem → ℕ → ℕ → Type 0
Holds m addr n = (m.base ≤ addr) × (addr - m.base + n ≤ length m.mem)

pub record IsValid (m : FlatMem) : Type 0 where
  pub bytes : (i : ℕ) → get_or m.mem i 0 < 256
  pub slow : 1 ≤ m.latency

pub load_byte_lem :
    (m : FlatMem) (addr : ℕ) → Holds m addr 1 → load_byte m addr ≡ some (byte m addr)
unfolding load_byte
load_byte_lem m addr h = ground arith

pub load_word_lem :
    (m : FlatMem) (addr : ℕ)
    → IsValid m
    → Holds m addr 4
    → load_word m addr
      ≡ some (
          byte m addr
          + 256 * byte m (addr + 1)
          + 65536 * byte m (addr + 2)
          + 16777216 * byte m (addr + 3))
unfolding load_word
load_word_lem m addr v h = ground (
  arith,
  v.bytes (addr - m.base),
  v.bytes (addr - m.base + 1),
  v.bytes (addr - m.base + 2),
  v.bytes (addr - m.base + 3),
  bit_or_low 8 (byte m addr) (byte m (addr + 1) * 256),
  bit_or_low 16 (byte m addr + byte m (addr + 1) * 256) (byte m (addr + 2) * 65536),
  bit_or_low 24 (byte m addr + byte m (addr + 1) * 256 + byte m (addr + 2) * 65536)
      (byte m (addr + 3) * 16777216),
)

-- Four writes from index o on.
abbrev set_word : List ℕ → ℕ → ℕ → List ℕ
set_word xs o v =
    set (set (set (set xs o (v % 256)) (o + 1) (v / 256 % 256)) (o + 2) (v / 65536 % 256)) (o + 3)
      (v / 16777216 % 256)

length-set_word : (xs : List ℕ) (o v : ℕ) → length (set_word xs o v) ≡ length xs
length-set_word xs o v = simp length-set

get_or-set_word :
    (xs : List ℕ) (o v i : ℕ)
    → o + 4 ≤ length xs
    → get_or (set_word xs o v) i 0 ≡ (
        if o + 3 == i
        then v / 16777216 % 256
        else if o + 2 == i
        then v / 65536 % 256
        else if o + 1 == i
        then v / 256 % 256
        else if o == i
        then v % 256
        else get_or xs i 0)
get_or-set_word xs o v i h =
    let x1 = set xs o (v % 256) in
    let x2 = set x1 (o + 1) (v / 256 % 256) in
    let x3 = set x2 (o + 2) (v / 65536 % 256) in
    ground (
      arith,
      get_or-set xs o i (v % 256) 0,
      get_or-set x1 (o + 1) i (v / 256 % 256) 0,
      get_or-set x2 (o + 2) i (v / 65536 % 256) 0,
      get_or-set x3 (o + 3) i (v / 16777216 % 256) 0,
      length-set xs o (v % 256),
      length-set x1 (o + 1) (v / 256 % 256),
      length-set x2 (o + 2) (v / 65536 % 256),
    )

abbrev pub stored_word : FlatMem → ℕ → ℕ → FlatMem
stored_word m addr val = record m { mem = set_word m.mem (addr - m.base) val }

store_word_lem :
    (m : FlatMem) (addr val : ℕ)
    → Holds m addr 4
    → store_word m addr val ≡ some (stored_word m addr val)
unfolding store_word
store_word_lem m addr val h =
    let o = addr - m.base in
    let x1 = set m.mem o (val % 256) in
    let x2 = set x1 (o + 1) (val / 256 % 256) in
    let x3 = set x2 (o + 2) (val / 65536 % 256) in
    ground (
      arith,
      bit_and_mask 8 val,
      bit_and_mask 8 (val / 256),
      bit_and_mask 8 (val / 65536),
      bit_and_mask 8 (val / 16777216),
      length-set m.mem o (val % 256),
      length-set x1 (o + 1) (val / 256 % 256),
      length-set x2 (o + 2) (val / 65536 % 256),
    )

stored_word-IsValid :
    {m : FlatMem} (addr val : ℕ) → IsValid m → Holds m addr 4 → IsValid (stored_word m addr val)
stored_word-IsValid {m} addr val v h = record {
  bytes = λ i. ground (arith, get_or-set_word m.mem (addr - m.base) val i, v.bytes i);
  slow = v.slow;
}

load_word-stored_word :
    (m : FlatMem) (addr val : ℕ)
    → IsValid m
    → Holds m addr 4
    → val < 2 ^ 32
    → load_word (stored_word m addr val) addr ≡ some val
load_word-stored_word m addr val v h word =
    let o = addr - m.base in
    ground (
      arith,
      load_word_lem (stored_word m addr val) addr (stored_word-IsValid addr val v h),
      length-set_word m.mem o val,
      get_or-set_word m.mem o val o,
      get_or-set_word m.mem o val (addr + 1 - m.base),
      get_or-set_word m.mem o val (addr + 2 - m.base),
      get_or-set_word m.mem o val (addr + 3 - m.base),
    )

load_byte-stored_word :
    (m : FlatMem) (addr val b : ℕ)
    → Holds m addr 4
    → (b < addr) ⊎ (addr + 4 ≤ b)
    → load_byte (stored_word m addr val) b ≡ load_byte m b
unfolding load_byte
load_byte-stored_word m addr val b h outside = ground (
  arith,
  length-set_word m.mem (addr - m.base) val,
  get_or-set_word m.mem (addr - m.base) val (b - m.base),
)

-- A word stored in range is loaded back, every byte outside it is as before, and the memory stays
-- valid.
pub load_word-store_word :
    (m : FlatMem) (addr val : ℕ)
    → IsValid m
    → Holds m addr 4
    → val < 2 ^ 32
    → (m' : FlatMem) × (store_word m addr val ≡ some m')
      × (load_word m' addr ≡ some val)
      × ((b : ℕ) → (b < addr) ⊎ (addr + 4 ≤ b) → load_byte m' b ≡ load_byte m b)
      × IsValid m'
load_word-store_word m addr val v h word = (
  stored_word m addr val,
  store_word_lem m addr val h,
  load_word-stored_word m addr val v h word,
  (λ b outside. load_byte-stored_word m addr val b h outside),
  stored_word-IsValid addr val v h,
)
