-- ===== src/Memory/FlatMem.antt =====
-- `FlatMem` of src/memory/flat_mem.cpp: bytes at the addresses [base, base + size), and a timer for
-- one blocking request.
pub mod Data
pub mod Timing
use cpu_sim.Base.{ℕ, ◌+◌, ◌-◌, ◌*◌, ◌/◌, ◌%◌, ◌^◌, bit_and, bit_or, Bool, true, false, ◌&&◌}
use cpu_sim.Base.{Option, none, some, List, [], ◌∷◌, ltb, leb, ◌==◌, if◌then◌else◌, ◌>>=◌}
use cpu_sim.Base.{length, get_or, set, replicate, shr, countdown, is_positive}
use cpu_sim.Memory.Interface.{IMemory}

pub record FlatMem : Type 0 where
  pub base : ℕ
  pub mem : List ℕ
  pub latency : ℕ
  pub serving : Bool
  -- An `int`, as its bit pattern.
  pub remaining : ℕ

unfoldable pub create : ℕ → ℕ → ℕ → FlatMem
create base size_bytes latency = record {
  base = base;
  mem = replicate size_bytes 0;
  latency = if latency == 0 then 1 else latency;
  serving = false;
  remaining = 0;
}

-- The assertion of `offset`.
unfoldable pub offset : FlatMem → ℕ → Option ℕ
offset m addr =
    if leb m.base addr && ltb (addr - m.base) (length m.mem) then some (addr - m.base) else none

-- `mem_[o]`, read and written; the vector has no byte outside its size.
unfoldable pub byte_at : FlatMem → ℕ → Option ℕ
byte_at m o = if ltb o (length m.mem) then some (get_or m.mem o 0) else none

unfoldable pub put_byte : FlatMem → ℕ → ℕ → Option FlatMem
put_byte m o v = if ltb o (length m.mem) then some (record m { mem = set m.mem o v }) else none

unfoldable pub load_byte : FlatMem → ℕ → Option ℕ
unfolding offset byte_at
load_byte m addr = do o ← offset m addr; byte_at m o

unfoldable pub load_half : FlatMem → ℕ → Option ℕ
unfolding offset byte_at
load_half m addr = do
  o ← offset m addr
  b0 ← byte_at m o
  b1 ← byte_at m (o + 1)
  some (bit_or b0 (b1 * 2 ^ 8))

unfoldable pub load_word : FlatMem → ℕ → Option ℕ
unfolding offset byte_at
load_word m addr = do
  o ← offset m addr
  b0 ← byte_at m o
  b1 ← byte_at m (o + 1)
  b2 ← byte_at m (o + 2)
  b3 ← byte_at m (o + 3)
  some (bit_or (bit_or (bit_or b0 (b1 * 2 ^ 8)) (b2 * 2 ^ 16)) (b3 * 2 ^ 24))

unfoldable pub store_byte : FlatMem → ℕ → ℕ → Option FlatMem
unfolding offset put_byte
store_byte m addr val = do o ← offset m addr; put_byte m o val

unfoldable pub store_half : FlatMem → ℕ → ℕ → Option FlatMem
unfolding offset put_byte
store_half m addr val = do
  o ← offset m addr
  m1 ← put_byte m o (bit_and val 0xff)
  put_byte m1 (o + 1) (bit_and (shr val 8) 0xff)

unfoldable pub store_word : FlatMem → ℕ → ℕ → Option FlatMem
unfolding offset put_byte
store_word m addr val = do
  o ← offset m addr
  m1 ← put_byte m o (bit_and val 0xff)
  m2 ← put_byte m1 (o + 1) (bit_and (shr val 8) 0xff)
  m3 ← put_byte m2 (o + 2) (bit_and (shr val 16) 0xff)
  put_byte m3 (o + 3) (bit_and (shr val 24) 0xff)

-- The first call starts the timer.
unfoldable pub ready : FlatMem → ℕ → Bool → Bool × FlatMem
ready m addr is_write =
    let started =
      if m.serving then m else record m { serving = true; remaining = countdown m.latency } in
    (started.remaining == 0, started)

unfoldable pub tick : FlatMem → FlatMem
tick m =
    if m.serving
    then (if is_positive m.remaining
        then record m { remaining = m.remaining - 1 }
        else record m { serving = false })
    else m

-- `memcpy` into `mem_` from index o on.
unfoldable pub copy_bytes : List ℕ → ℕ → List ℕ → List ℕ
copy_bytes mem o [] = mem
copy_bytes mem o (b ∷ bytes) = copy_bytes (set mem o b) (o + 1) bytes

unfoldable pub write_bytes : FlatMem → ℕ → List ℕ → Option FlatMem
unfolding offset copy_bytes
write_bytes m addr bytes = do
  o ← offset m addr
  (if leb (o + length bytes) (length m.mem)
      then some (record m { mem = copy_bytes m.mem o bytes })
      else none)

-- A flat memory behind the interface.
abbrev pub flat_memory : IMemory
flat_memory = record {
  State = FlatMem;
  load_word = load_word;
  load_half = load_half;
  load_byte = load_byte;
  store_word = store_word;
  store_half = store_half;
  store_byte = store_byte;
  ready = ready;
  tick = tick;
}
