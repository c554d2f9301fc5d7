-- ===== src/Sim/Elf/Stream.antt =====
-- `std::ifstream` as the loader uses it: once a read has come short, the stream fails until the end.
use cpu_sim.Base.{
  ℕ, [], ◌+◌, ◌≤◌, ◌<◌, ◌≡◌, refl, arith, Bool, true, false, List, ltb, if◌then◌else◌, length, take,
  drop,
}
use cpu_sim.Base.{length-take, length-drop}

pub record InputFile : Type 0 where
  pub bytes : List ℕ
  pub pos : ℕ
  pub failed : Bool

unfoldable pub opened : List ℕ → InputFile
opened bytes = record { bytes = bytes; pos = 0; failed = false }

-- A position behind the end is allowed.
unfoldable pub seekg : InputFile → ℕ → InputFile
seekg f p = if f.failed then f else record f { pos = p }

-- `n` bytes, or as many as there are.
unfoldable pub read : InputFile → ℕ → List ℕ × InputFile
read f n =
    if f.failed
    then ([], f)
    else (let got = take n (drop f.pos f.bytes) in
        (got, record f { pos = f.pos + length got; failed = ltb (length got) n }))

-- What stands at a position.
abbrev pub slice : List ℕ → ℕ → ℕ → List ℕ
slice bytes p n = take n (drop p bytes)

pub read-seekg :
    (f : InputFile) (p n : ℕ)
    → f.failed ≡ false
    → p + n ≤ length f.bytes
    → read (seekg f p) n ≡ (slice f.bytes p n, record f { pos = p + n })
unfolding read seekg
read-seekg f p n h fits = ground (arith, length-take n (drop p f.bytes), length-drop p f.bytes)

pub read-short :
    (f : InputFile) (p n : ℕ)
    → f.failed ≡ false
    → length f.bytes < p + n
    → 0 < n
    → (read (seekg f p) n).1.failed ≡ true
unfolding read seekg
read-short f p n h short nonempty =
    ground (arith, length-take n (drop p f.bytes), length-drop p f.bytes)

pub read-failed : (f : InputFile) (p n : ℕ) → f.failed ≡ true → (read (seekg f p) n).1 ≡ f
unfolding read seekg
read-failed f p n h = rw h refl

pub read-whole :
    (bytes : List ℕ) (n : ℕ) → (read (opened bytes) n).1.failed ≡ false → n ≤ length bytes
unfolding read opened
read-whole bytes n h = ground (arith, h, length-take n bytes)
