-- ===== src/Sim/Elf.antt =====
-- The ELF32 loader of src/sim/elf_loader.cpp, which writes an executable into the two memories. The
-- file is a list of bytes, or none when it cannot be opened; the host is little-endian, as the
-- loader takes the structs from the file as they are.
pub mod Stream
pub mod Bytes
pub mod Segments
pub mod Outcomes
pub mod Accepts
pub mod Views
mod Tests
use cpu_sim.Base.{ℕ, zero, suc, ◌+◌, ◌-◌, ◌*◌, ◌^◌, Bool, true, false, not, ◌&&◌, ◌||◌}
use cpu_sim.Base.{
  Option, none, some, List, [], ◌∷◌, ◌==◌, if◌then◌else◌, ◌>>=◌, get_or, take, add32,
}
use cpu_sim.Memory.Interface.{IMemory}
use cpu_sim.Sim.Core.{Core}
use cpu_sim.Sim.Elf.Stream.{InputFile, opened, seekg, read}

-- A struct's fields of two and of four bytes.
abbrev pub field16 : List ℕ → ℕ → ℕ
field16 bytes o = get_or bytes o 0 + get_or bytes (o + 1) 0 * 2 ^ 8

abbrev pub field32 : List ℕ → ℕ → ℕ
field32 bytes o = field16 bytes o + field16 bytes (o + 2) * 2 ^ 16

pub record Elf32Ehdr : Type 0 where
  pub e_ident : List ℕ
  pub e_type : ℕ
  pub e_machine : ℕ
  pub e_version : ℕ
  pub e_entry : ℕ
  pub e_phoff : ℕ
  pub e_shoff : ℕ
  pub e_flags : ℕ
  pub e_ehsize : ℕ
  pub e_phentsize : ℕ
  pub e_phnum : ℕ
  pub e_shentsize : ℕ
  pub e_shnum : ℕ
  pub e_shstrndx : ℕ

abbrev pub ehdr_size : ℕ
ehdr_size = 52

unfoldable pub ehdr_of : List ℕ → Elf32Ehdr
ehdr_of bytes = record {
  e_ident = take 16 bytes;
  e_type = field16 bytes 16;
  e_machine = field16 bytes 18;
  e_version = field32 bytes 20;
  e_entry = field32 bytes 24;
  e_phoff = field32 bytes 28;
  e_shoff = field32 bytes 32;
  e_flags = field32 bytes 36;
  e_ehsize = field16 bytes 40;
  e_phentsize = field16 bytes 42;
  e_phnum = field16 bytes 44;
  e_shentsize = field16 bytes 46;
  e_shnum = field16 bytes 48;
  e_shstrndx = field16 bytes 50;
}

pub record Elf32Phdr : Type 0 where
  pub p_type : ℕ
  pub p_offset : ℕ
  pub p_vaddr : ℕ
  pub p_paddr : ℕ
  pub p_filesz : ℕ
  pub p_memsz : ℕ
  pub p_flags : ℕ
  pub p_align : ℕ

abbrev pub phdr_size : ℕ
phdr_size = 32

unfoldable pub phdr_of : List ℕ → Elf32Phdr
phdr_of bytes = record {
  p_type = field32 bytes 0;
  p_offset = field32 bytes 4;
  p_vaddr = field32 bytes 8;
  p_paddr = field32 bytes 12;
  p_filesz = field32 bytes 16;
  p_memsz = field32 bytes 20;
  p_flags = field32 bytes 24;
  p_align = field32 bytes 28;
}

abbrev pub pt_load : ℕ
pt_load = 1

abbrev pub em_riscv : ℕ
em_riscv = 0xf3

-- The exceptions; a segment's has its index, and the last is that of `Core::load_elf`.
pub data LoadError : Type 0 where
  cannot_open short_header not_elf not_elf32 not_little_endian not_riscv : LoadError
  short_segment : ℕ → LoadError
  entry_not_base : ℕ → ℕ → LoadError

pub data Outcome : Type 0 where
  thrown : LoadError → Outcome
  returned : ℕ → Outcome

-- The checks of the header, in the order of the code.
unfoldable pub header_error : Elf32Ehdr → Option LoadError
header_error h =
    let id = λ (i : ℕ). get_or h.e_ident i 0 in
    if not (id 0 == 0x7f) || not (id 1 == 0x45) || not (id 2 == 0x4c) || not (id 3 == 0x46)
    then some LoadError.not_elf
    else if not (id 4 == 1)
    then some LoadError.not_elf32
    else if not (id 5 == 1)
    then some LoadError.not_little_endian
    else if not (h.e_machine == em_riscv)
    then some LoadError.not_riscv
    else none

module _ (I D : IMemory) where
  pub record Memories : Type 0 where
    pub imem : I.State
    pub dmem : D.State

  -- How a load ends, and the memories then.
  pub record Loaded : Type 0 where
    pub outcome : Outcome
    pub memories : Memories

  -- The bytes of a segment, from index b on, into both memories.
  unfoldable pub store_data : ℕ → ℕ → List ℕ → Memories → Option Memories
  store_data base b [] m = some m
  store_data base b (x ∷ bytes) m = do
    imem ← I.store_byte m.imem (add32 base b) x
    dmem ← D.store_byte m.dmem (add32 base b) x
    store_data base (b + 1) bytes (record { imem = imem; dmem = dmem })

  -- `n` zeros, from index b on.
  unfoldable pub zero_bss : ℕ → ℕ → ℕ → D.State → Option D.State
  zero_bss base b zero dmem = some dmem
  zero_bss base b (suc n) dmem = D.store_byte dmem (add32 base b) 0 >>= zero_bss base (b + 1) n

  unfoldable pub store_segment : Elf32Phdr → List ℕ → Memories → Option Memories
  unfolding store_data zero_bss
  store_segment ph bytes m = do
    m1 ← store_data ph.p_vaddr 0 bytes m
    dmem ← zero_bss ph.p_vaddr ph.p_filesz (ph.p_memsz - ph.p_filesz) m1.dmem
    some (record m1 { dmem = dmem })

  -- One pass of the loop over the program headers: on to the next, or an exception.
  pub data Pass : Type 0 where
    next : InputFile → Memories → Pass
    stop : LoadError → Memories → Pass

  unfoldable pub load_segment : Elf32Ehdr → ℕ → InputFile → Memories → Option Pass
  unfolding seekg read phdr_of store_segment
  load_segment eh i f m =
      let header = read (seekg f (eh.e_phoff + i * eh.e_phentsize)) phdr_size in
      let ph = phdr_of header.0 in
      let body = read (seekg header.1 ph.p_offset) ph.p_filesz in
      if header.1.failed || not (ph.p_type == pt_load)
      then some (Pass.next header.1 m)
      else if body.1.failed
      then some (Pass.stop (LoadError.short_segment i) m)
      else store_segment ph body.0 m >>= λ m1. some (Pass.next body.1 m1)

  abbrev pub follow : (InputFile → Memories → Option Loaded) → Pass → Option Loaded
  follow k (Pass.next f m) = k f m
  follow k (Pass.stop e m) = some (record { outcome = Outcome.thrown e; memories = m })

  -- The passes from index i on, of which `n` are left.
  unfoldable pub load_segments : Elf32Ehdr → ℕ → ℕ → InputFile → Memories → Option Loaded
  unfolding load_segment
  load_segments eh zero i f m =
      some (record { outcome = Outcome.returned eh.e_entry; memories = m })
  load_segments eh (suc n) i f m = load_segment eh i f m >>= follow (load_segments eh n (i + 1))

  abbrev pub throw : LoadError → Memories → Option Loaded
  throw e m = some (record { outcome = Outcome.thrown e; memories = m })

  -- Behind the checks of the header.
  unfoldable pub load_checked : Option LoadError → Elf32Ehdr → InputFile → Memories → Option Loaded
  unfolding load_segments
  load_checked (some e) eh f m = throw e m
  load_checked none eh f m = load_segments eh eh.e_phnum 0 f m

  -- Behind the read of the header.
  unfoldable pub load_read : List ℕ × InputFile → Memories → Option Loaded
  unfolding ehdr_of header_error load_checked
  load_read header m =
      let eh = ehdr_of header.0 in
      if header.1.failed
      then throw LoadError.short_header m
      else load_checked (header_error eh) eh header.1 m

  unfoldable pub load_elf : Option (List ℕ) → Memories → Option Loaded
  unfolding opened read load_read
  load_elf none m = throw LoadError.cannot_open m
  load_elf (some bytes) m = load_read (read (opened bytes) ehdr_size) m

  unfoldable pub check_entry : ℕ → Outcome → Outcome
  check_entry base (Outcome.thrown e) = Outcome.thrown e
  check_entry base (Outcome.returned entry) =
      if entry == base
      then Outcome.returned entry
      else Outcome.thrown (LoadError.entry_not_base entry base)

  -- `Core::load_elf`.
  unfoldable pub load_core : Option (List ℕ) → Core I D → Option (Outcome × Core I D)
  unfolding load_elf check_entry
  load_core file c = load_elf file (record { imem = c.imem; dmem = c.dmem }) >>= λ r.
      some
        (check_entry c.base r.outcome, record c { imem = r.memories.imem; dmem = r.memories.dmem })
