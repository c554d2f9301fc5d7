-- ===== src/Sim/Elf/Tests.antt =====
-- Executables of one segment, whole and cut off, loaded into two small memories.
use cpu_sim.Base.{ℕ, ◌<◌, ◌≡◌, refl, arith, none, some, List, [], ◌∷◌, ◌++◌, take, get_or, set}
use cpu_sim.Memory.FlatMem
use cpu_sim.Sim.Core.{Core, create}
use cpu_sim.Memory.FlatMem.{
  flat_memory, load_word, load_byte, store_byte, store_word, offset, byte_at, put_byte,
}
use cpu_sim.Sim.Elf.{
  Outcome, LoadError, load_elf, load_core, check_entry, load_read, load_checked, load_segments,
  load_segment, store_segment, store_data, zero_bss, ehdr_of, phdr_of, header_error,
}
use cpu_sim.Sim.Elf.Stream.{read, seekg, opened}
use cpu_sim.Sim.Elf.Bytes.{FlatMemories}
use cpu_sim.Sim.Elf.Segments.{IsWhole, Loads}
use cpu_sim.Sim.Elf.Outcomes.{
  IsExecutable, ehdr, load_elf-Loads, load_elf-short_segment, load_elf-truncated,
}
use cpu_sim.Sim.Elf.Accepts.{IsRiscvElf, load_core-accepts}

abbrev word : ℕ → List ℕ
word b = b ∷ 0 ∷ 0 ∷ 0 ∷ []

-- Entry point 16, `n` program headers of 32 bytes from byte 52 on.
abbrev header : ℕ → List ℕ
header n =
    (0x7f ∷ 0x45 ∷ 0x4c ∷ 0x46 ∷ 1 ∷ 1 ∷ 1 ∷ 0 ∷ 0 ∷ 0 ∷ 0 ∷ 0 ∷ 0 ∷ 0 ∷ 0 ∷ 0 ∷ [])
    ++ (2 ∷ 0 ∷ 0xf3 ∷ 0 ∷ [])
    ++ word 1
    ++ word 16
    ++ word 52
    ++ word 0
    ++ word 0
    ++ (52 ∷ 0 ∷ 32 ∷ 0 ∷ n ∷ 0 ∷ 0 ∷ 0 ∷ 0 ∷ 0 ∷ 0 ∷ 0 ∷ [])

-- A segment to load at 16, of four bytes from byte 84 on, and two zeros.
abbrev load_header : List ℕ
load_header = word 1 ++ word 84 ++ word 16 ++ word 16 ++ word 4 ++ word 6 ++ word 5 ++ word 4

-- `n` headers are announced.
abbrev executable : ℕ → List ℕ
executable n = header n ++ load_header ++ (0x11 ∷ 0x22 ∷ 0x33 ∷ 0x44 ∷ [])

abbrev blank : FlatMemories
blank = record { imem = FlatMem.create 16 8 1; dmem = FlatMem.create 16 8 1 }

-- The last two bytes are cut off.
abbrev cut : List ℕ
cut = take 86 (executable 1)

executable-IsExecutable : (n : ℕ) → IsExecutable (executable n)
unfolding header_error ehdr_of get_or
executable-IsExecutable n = record { header_whole = omega arith; accepted = refl }

cut-IsExecutable : IsExecutable cut
unfolding header_error ehdr_of get_or
cut-IsExecutable = record { header_whole = omega arith; accepted = refl }

executable-IsWhole : (n : ℕ) → IsWhole (ehdr (executable n)) (executable n) blank 0
unfolding ehdr_of phdr_of FlatMem.create get_or
executable-IsWhole n = record {
  header_whole = omega arith;
  segment_whole = λ t. omega arith;
  segment_fits = λ t. record {
    in_space = omega arith;
    zeros_in_space = omega arith;
    code_fits = (omega arith, omega arith);
    data_fits = (omega arith, omega arith);
    zeros_fit = (omega arith, omega arith);
  };
}

load_elf-Loads_example :
    (m : FlatMemories) × (load_elf flat_memory flat_memory (some (executable 1)) blank
      ≡ some (record { outcome = Outcome.returned 16; memories = m }))
    × Loads (ehdr (executable 1)) (executable 1) 1 blank m
unfolding ehdr_of get_or
load_elf-Loads_example =
    load_elf-Loads (executable 1) blank (executable-IsExecutable 1)
      (λ i h. rw (one i h) (executable-IsWhole 1))
  where
    one : (i : ℕ) → i < 1 → i ≡ 0
    one i h = omega arith

load_elf-truncated_example :
    (m : FlatMemories) × (load_elf flat_memory flat_memory (some (executable 2)) blank
      ≡ some (record { outcome = Outcome.returned 16; memories = m }))
    × Loads (ehdr (executable 2)) (executable 2) 1 blank m
unfolding ehdr_of get_or
load_elf-truncated_example =
    load_elf-truncated (executable 2) blank (executable-IsExecutable 2) 1 (omega arith)
      (λ i h. rw (one i h) (executable-IsWhole 2)) (omega arith)
  where
    one : (i : ℕ) → i < 1 → i ≡ 0
    one i h = omega arith

load_elf-short_segment_example :
    (m : FlatMemories) × (load_elf flat_memory flat_memory (some cut) blank
      ≡ some (record { outcome = Outcome.thrown (LoadError.short_segment 0); memories = m }))
    × Loads (ehdr cut) cut 0 blank m
unfolding ehdr_of phdr_of get_or
load_elf-short_segment_example =
    load_elf-short_segment cut blank cut-IsExecutable 0 (omega arith)
      (λ i h. absurd (ground (arith, h))) (omega arith) refl (omega arith) (omega arith)

abbrev loaded_memories : FlatMemories
loaded_memories = record {
  imem = record (blank.imem) { mem = 0x11 ∷ 0x22 ∷ 0x33 ∷ 0x44 ∷ 0 ∷ 0 ∷ 0 ∷ 0 ∷ [] };
  dmem = record (blank.dmem) { mem = 0x11 ∷ 0x22 ∷ 0x33 ∷ 0x44 ∷ 0 ∷ 0 ∷ 0 ∷ 0 ∷ [] };
}

abbrev core : ℕ → Core flat_memory flat_memory
core base = create flat_memory flat_memory base (blank.imem) (blank.dmem) none

executable-loaded :
    load_core flat_memory flat_memory (some (executable 1)) (core 16)
    ≡ some (
      Outcome.returned 16,
      record (core 16) { imem = loaded_memories.imem; dmem = loaded_memories.dmem },
    )
unfolding load_core check_entry load_elf load_read load_checked header_error ehdr_of phdr_of get_or
    load_segments load_segment store_segment store_data zero_bss read seekg opened FlatMem.create
    set store_byte create
executable-loaded = refl

load_core-accepts_example :
    (bytes : List ℕ) × (some (executable 1) ≡ some bytes) × IsRiscvElf bytes 16
unfolding create
load_core-accepts_example =
    load_core-accepts flat_memory flat_memory (some (executable 1)) (core 16) executable-loaded
