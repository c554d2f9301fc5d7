-- ===== src/Sim/Elf/Bytes.antt =====
-- What the loops over a segment leave in a flat memory, byte by byte.
use cpu_sim.Base.{
  ℕ, zero, suc, ◌+◌, ◌-◌, ◌^◌, ◌≤◌, ◌≡◌, refl, ap, ◌∙◌, arith, ◌&&◌, Option, none, some, List, [],
  ◌∷◌,
}
use cpu_sim.Base.{
  ltb, leb, ◌==◌, if◌then◌else◌, ◌>>=◌, add32, length, get_or, set, length-set, get_or-set,
  replicate, get_or-replicate, length-replicate,
}
use cpu_sim.Memory.FlatMem.{FlatMem, flat_memory, load_byte, store_byte}
use cpu_sim.Memory.FlatMem.Data.{Holds}
use cpu_sim.Sim.Elf.{Elf32Phdr, Memories, store_data, zero_bss, store_segment}

abbrev pub FlatMemories : Type 0
FlatMemories = Memories flat_memory flat_memory

-- Two memories over the same addresses.
pub record SameShape (m m' : FlatMem) : Type 0 where
  pub same_base : m'.base ≡ m.base
  pub same_length : length m'.mem ≡ length m.mem

pub store_byte-byte :
    (m : FlatMem) (addr v : ℕ)
    → Holds m addr 1
    → (m' : FlatMem) × (store_byte m addr v ≡ some m')
      × SameShape m m'
      × ((a : ℕ) → load_byte m' a ≡ (if a == addr then some v else load_byte m a))
unfolding store_byte load_byte
store_byte-byte m addr v h = (
  record m { mem = set m.mem (addr - m.base) v },
  ground arith,
  record { same_base = refl; same_length = length-set m.mem (addr - m.base) v },
  λ a. ground (
    arith,
    length-set m.mem (addr - m.base) v,
    get_or-set m.mem (addr - m.base) (a - m.base) v 0,
  ),
)

-- `m'` is `m` with the bytes from `addr` on replaced.
pub record Writes (m m' : FlatMem) (addr : ℕ) (bytes : List ℕ) : Type 0 where
  pub shape : SameShape m m'
  pub content :
      (a : ℕ)
      → load_byte m' a ≡ (
          if leb addr a && ltb a (addr + length bytes)
          then some (get_or bytes (a - addr) 0)
          else load_byte m a)

no_bytes-Writes : (m : FlatMem) (addr : ℕ) → Writes m m addr []
no_bytes-Writes m addr = record {
  shape = record { same_base = refl; same_length = refl };
  content = λ a. ground arith;
}

get_or-from :
    (addr a v : ℕ) (bytes : List ℕ)
    → addr + 1 ≤ a
    → get_or (v ∷ bytes) (a - addr) 0 ≡ get_or bytes (a - (addr + 1)) 0
unfolding get_or
get_or-from addr a v bytes l =
    ap (λ k. get_or (v ∷ bytes) k 0) {x = a - addr} {y = suc (a - (addr + 1))} (omega arith)

store_byte-Writes :
    {m m1 m2 : FlatMem} (addr v : ℕ) (bytes : List ℕ)
    → SameShape m m1
    → ((a : ℕ) → load_byte m1 a ≡ (if a == addr then some v else load_byte m a))
    → Writes m1 m2 (addr + 1) bytes
    → Writes m m2 addr (v ∷ bytes)
unfolding get_or
store_byte-Writes {m} {m1} {m2} addr v bytes s c h = record {
  shape = record {
    same_base = ground (arith, s, h.shape);
    same_length = ground (arith, s, h.shape);
  };
  content = λ a. ground (arith, c a, h.content a, get_or-from addr a v bytes);
}

store_data-cons :
    (base b addr x : ℕ) (bytes : List ℕ) (m : FlatMemories) {i d : FlatMem}
    → add32 base b ≡ addr
    → store_byte m.imem addr x ≡ some i
    → store_byte m.dmem addr x ≡ some d
    → store_data flat_memory flat_memory base b (x ∷ bytes) m
      ≡ store_data flat_memory flat_memory base (b + 1) bytes (record { imem = i; dmem = d })
unfolding store_data
store_data-cons base b addr x bytes m {i} {d} e hi hd =
    ap
      (λ o. o >>= λ i.
        (store_byte m.dmem (add32 base b) x >>= λ d.
        store_data flat_memory flat_memory base (b + 1) bytes (record { imem = i; dmem = d })))
      (ap (λ a. store_byte m.imem a x) e ∙ hi)
    ∙ ap
        (λ o. o >>= λ d.
          store_data flat_memory flat_memory base (b + 1) bytes (record { imem = i; dmem = d }))
        (ap (λ a. store_byte m.dmem a x) e ∙ hd)

pub store_data-Writes :
    (base b addr : ℕ) (bytes : List ℕ) (m : FlatMemories)
    → addr ≡ base + b
    → addr + length bytes ≤ 2 ^ 32
    → Holds m.imem addr (length bytes)
    → Holds m.dmem addr (length bytes)
    → (m' : FlatMemories) × (store_data flat_memory flat_memory base b bytes m ≡ some m')
      × Writes m.imem m'.imem addr bytes
      × Writes m.dmem m'.dmem addr bytes
unfolding store_data
store_data-Writes base b addr [] m e w hi hd =
    (m, refl, no_bytes-Writes m.imem addr, no_bytes-Writes m.dmem addr)
store_data-Writes base b addr (x ∷ bytes) m e w hi hd =
    let at : add32 base b ≡ addr = omega arith in
    let (i1, ei, si, ci) = store_byte-byte m.imem addr x (omega arith, omega arith) in
    let (d1, ed, sd, cd) = store_byte-byte m.dmem addr x (omega arith, omega arith) in
    let m1 : FlatMemories = record { imem = i1; dmem = d1 } in
    let (m2, er, wi, wd) =
      store_data-Writes base (b + 1) (addr + 1) bytes m1 (omega arith) (omega arith)
        (ground (arith, si, hi)) (ground (arith, sd, hd)) in
    (
      m2,
      store_data-cons base b addr x bytes m at ei ed ∙ er,
      store_byte-Writes addr x bytes si ci wi,
      store_byte-Writes addr x bytes sd cd wd,
    )

zero_bss-suc :
    (base b addr n : ℕ) (m : FlatMem) {d : FlatMem}
    → add32 base b ≡ addr
    → store_byte m addr 0 ≡ some d
    → zero_bss flat_memory flat_memory base b (suc n) m
      ≡ zero_bss flat_memory flat_memory base (b + 1) n d
unfolding zero_bss
zero_bss-suc base b addr n m e h =
    ap (λ o. o >>= zero_bss flat_memory flat_memory base (b + 1) n)
      (ap (λ a. store_byte m a 0) e ∙ h)

pub zero_bss-Writes :
    (base b addr n : ℕ) (m : FlatMem)
    → addr ≡ base + b
    → addr + n ≤ 2 ^ 32
    → Holds m addr n
    → (m' : FlatMem) × (zero_bss flat_memory flat_memory base b n m ≡ some m')
      × Writes m m' addr (replicate n 0)
unfolding zero_bss
zero_bss-Writes base b addr zero m e w h = (m, refl, no_bytes-Writes m addr)
zero_bss-Writes base b addr (suc n) m e w h =
    let at : add32 base b ≡ addr = omega arith in
    let (m1, es, s, c) = store_byte-byte m addr 0 (omega arith, omega arith) in
    let (m2, er, ws) =
      zero_bss-Writes base (b + 1) (addr + 1) n m1 (omega arith) (omega arith)
        (ground (arith, s, h)) in
    (m2, zero_bss-suc base b addr n m at es ∙ er, store_byte-Writes addr 0 (replicate n 0) s c ws)

-- The byte that a loaded segment puts at `a`: from the file, or 0 behind what the file has of it.
unfoldable pub segment_byte : Elf32Phdr → List ℕ → ℕ → Option ℕ
segment_byte ph bytes a =
    if leb ph.p_vaddr a && ltb a (ph.p_vaddr + ph.p_filesz)
    then some (get_or bytes (a - ph.p_vaddr) 0)
    else if leb ph.p_vaddr a && ltb a (ph.p_vaddr + ph.p_memsz)
    then some 0
    else none

-- The part of it that the instruction memory is given.
unfoldable pub file_byte : Elf32Phdr → List ℕ → ℕ → Option ℕ
file_byte ph bytes a =
    if leb ph.p_vaddr a && ltb a (ph.p_vaddr + ph.p_filesz)
    then some (get_or bytes (a - ph.p_vaddr) 0)
    else none

-- A segment lies in the address space and in the memories.
pub record Fits (ph : Elf32Phdr) (m : FlatMemories) : Type 0 where
  pub in_space : ph.p_vaddr + ph.p_filesz ≤ 2 ^ 32
  pub zeros_in_space : ph.p_vaddr + ph.p_memsz ≤ 2 ^ 32
  pub code_fits : Holds m.imem ph.p_vaddr ph.p_filesz
  pub data_fits : Holds m.dmem ph.p_vaddr ph.p_filesz
  pub zeros_fit : Holds m.dmem ph.p_vaddr ph.p_memsz

abbrev pub or_else : Option ℕ → Option ℕ → Option ℕ
or_else none o = o
or_else (some v) o = some v

pub record SameShapes (m m' : FlatMemories) : Type 0 where
  pub imem_shape : SameShape m.imem m'.imem
  pub dmem_shape : SameShape m.dmem m'.dmem

store_segment-some :
    (ph : Elf32Phdr) (bytes : List ℕ) (m : FlatMemories) {m1 : FlatMemories} {d : FlatMem}
    → store_data flat_memory flat_memory ph.p_vaddr 0 bytes m ≡ some m1
    → zero_bss flat_memory flat_memory ph.p_vaddr ph.p_filesz (ph.p_memsz - ph.p_filesz) m1.dmem
      ≡ some d
    → store_segment flat_memory flat_memory ph bytes m ≡ some (record m1 { dmem = d })
unfolding store_segment
store_segment-some ph bytes m e1 e2 = rw (e1, e2) refl

pub store_segment-bytes :
    (ph : Elf32Phdr) (bytes : List ℕ) (m : FlatMemories)
    → length bytes ≡ ph.p_filesz
    → Fits ph m
    → (m' : FlatMemories) × (store_segment flat_memory flat_memory ph bytes m ≡ some m')
      × SameShapes m m'
      × ((a : ℕ) → load_byte m'.imem a ≡ or_else (file_byte ph bytes a) (load_byte m.imem a))
      × ((a : ℕ) → load_byte m'.dmem a ≡ or_else (segment_byte ph bytes a) (load_byte m.dmem a))
unfolding store_segment segment_byte file_byte
store_segment-bytes ph bytes m e f =
    let z = ph.p_memsz - ph.p_filesz in
    let (m1, e1, wi, wd) =
      store_data-Writes ph.p_vaddr 0 ph.p_vaddr bytes m (omega arith) (ground (arith, f))
        (ground (arith, f)) (ground (arith, f)) in
    let (d, e2, wz) =
      zero_bss-Writes ph.p_vaddr ph.p_filesz (ph.p_vaddr + ph.p_filesz) z m1.dmem refl
        (omega (arith, f.in_space, f.zeros_in_space)) (ground (arith, wd.shape, f)) in
    (
      record m1 { dmem = d },
      store_segment-some ph bytes m e1 e2,
      record { imem_shape = wi.shape; dmem_shape = ground (arith, wd.shape, wz.shape) },
      (λ a. ground (arith, wi.content a, e)),
      (λ a. ground (
        arith,
        wd.content a,
        wz.content a,
        e,
        get_or-replicate {A = ℕ} z (a - (ph.p_vaddr + ph.p_filesz)) 0,
        length-replicate {A = ℕ} z 0,
      )),
    )
