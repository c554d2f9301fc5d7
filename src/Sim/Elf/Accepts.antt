-- ===== src/Sim/Elf/Accepts.antt =====
-- What is known of a file that `load_elf` returns an entry point for, whatever the memories are.
use cpu_sim.Base.{
  ℕ, zero, suc, ◌+◌, ◌≤◌, ◌<◌, ◌≡◌, refl, ◌∙◌, arith, Option, none, some, List, inl, inr,
}
use cpu_sim.Base.{if-either, >>=-eq-some, length, get_or, get_or-take, take}
use cpu_sim.Memory.Interface.{IMemory}
use cpu_sim.Sim.Elf.{
  Elf32Ehdr, ehdr_size, ehdr_of, header_error, field16, field32, LoadError, Outcome, Loaded,
  Memories, Pass, follow, load_segment, load_segments, load_read, load_checked, load_elf, load_core,
  check_entry,
}
use cpu_sim.Sim.Core.{Core}
use cpu_sim.Sim.Elf.Stream.{InputFile, opened, read, read-whole}

-- A little-endian ELF32 file for RISC-V, as far as the loader looks, and its entry point.
pub record IsRiscvElf (bytes : List ℕ) (entry : ℕ) : Type 0 where
  pub size : 52 ≤ length bytes
  pub magic_0 : get_or bytes 0 0 ≡ 0x7f
  pub magic_1 : get_or bytes 1 0 ≡ 0x45
  pub magic_2 : get_or bytes 2 0 ≡ 0x4c
  pub magic_3 : get_or bytes 3 0 ≡ 0x46
  pub class_32 : get_or bytes 4 0 ≡ 1
  pub little_endian : get_or bytes 5 0 ≡ 1
  pub machine : field16 bytes 18 ≡ 0xf3
  pub entry_point : entry ≡ field32 bytes 24

module _ (I D : IMemory) where
  follow-entry :
      (x : ℕ) (k : InputFile → Memories I D → Option (Loaded I D)) {r : Loaded I D} {entry : ℕ}
      → ((f : InputFile) (m : Memories I D) → k f m ≡ some r → entry ≡ x)
      → (p : Pass I D) → follow I D k p ≡ some r
      → r.outcome ≡ Outcome.returned entry
      → entry ≡ x
  follow-entry x k h (Pass.next f m) g o = h f m g
  follow-entry x k h (Pass.stop e m) g o = cc

  load_segments-entry :
      (eh : Elf32Ehdr) (n i : ℕ) (f : InputFile) (m : Memories I D) {r : Loaded I D} {entry : ℕ}
      → load_segments I D eh n i f m ≡ some r
      → r.outcome ≡ Outcome.returned entry
      → entry ≡ eh.e_entry
  unfolding load_segments
  load_segments-entry eh zero i f m h o = cc
  load_segments-entry eh (suc n) i f m {r} {entry} h o =
      let (p, e, g) =
        >>=-eq-some (load_segment I D eh i f m) (follow I D (load_segments I D eh n (i + 1))) h in
      follow-entry eh.e_entry (load_segments I D eh n (i + 1))
        (λ f m g. load_segments-entry eh n (i + 1) f m g o) p g o

  header_error-none :
      (bytes : List ℕ)
      → 52 ≤ length bytes
      → header_error (ehdr_of (take ehdr_size bytes)) ≡ none
      → IsRiscvElf bytes (ehdr_of (take ehdr_size bytes)).e_entry
  unfolding header_error ehdr_of
  header_error-none bytes s h =
      let id = λ (i : ℕ) (b : i < 16).
        get_or-take 16 i (take ehdr_size bytes) 0 b
        ∙ get_or-take ehdr_size i bytes 0 (omega arith) in
      let at = λ (i : ℕ) (b : i < 52). get_or-take ehdr_size i bytes 0 b in
      record {
        size = s;
        magic_0 = ground (arith, h, id 0 (omega arith));
        magic_1 = ground (arith, h, id 1 (omega arith));
        magic_2 = ground (arith, h, id 2 (omega arith));
        magic_3 = ground (arith, h, id 3 (omega arith));
        class_32 = ground (arith, h, id 4 (omega arith));
        little_endian = ground (arith, h, id 5 (omega arith));
        machine = ground (arith, h, at 18 (omega arith), at 19 (omega arith));
        entry_point = omega (
          arith,
          at 24 (omega arith),
          at 25 (omega arith),
          at 26 (omega arith),
          at 27 (omega arith),
        );
      }

  load_checked-entry :
      (e : Option LoadError) (eh : Elf32Ehdr) (f : InputFile) (m : Memories I D) {r : Loaded I D}
      {entry : ℕ}
      → load_checked I D e eh f m ≡ some r
      → r.outcome ≡ Outcome.returned entry
      → (e ≡ none) × (entry ≡ eh.e_entry)
  unfolding load_checked
  load_checked-entry none eh f m h o = (refl, load_segments-entry eh eh.e_phnum 0 f m h o)
  load_checked-entry (some e) eh f m h o = cc

  load_elf-entry :
      (file : Option (List ℕ)) (m : Memories I D) {r : Loaded I D} {entry : ℕ}
      → load_elf I D file m ≡ some r
      → r.outcome ≡ Outcome.returned entry
      → (bytes : List ℕ) × (file ≡ some bytes) × IsRiscvElf bytes entry
  unfolding load_elf load_read read opened
  load_elf-entry none m h o = cc
  load_elf-entry (some bytes) m {r} {entry} h o =
      let eh = ehdr_of (take ehdr_size bytes) in
      let f = (read (opened bytes) ehdr_size).1 in
      elim (if-either f.failed h) [
        | inl (b, g) ↦ cc
        | inr (b, g) ↦
            let (e, n) = load_checked-entry (header_error eh) eh f m g o in
            (bytes, refl, rw n (header_error-none bytes (read-whole bytes ehdr_size b) e))
      ]

  pub check_entry-returned :
      (base : ℕ) (o : Outcome) {entry : ℕ}
      → check_entry I D base o ≡ Outcome.returned entry
      → (o ≡ Outcome.returned base) × (entry ≡ base)
  unfolding check_entry
  check_entry-returned base (Outcome.thrown e) h = cc
  check_entry-returned base (Outcome.returned n) h = ground (arith, h)

  -- `Core::load_elf` returns for a little-endian ELF32 file for RISC-V only, whose entry point is the
  -- base address of the core.
  pub load_core-accepts :
      (file : Option (List ℕ)) (c : Core I D) {c' : Core I D} {entry : ℕ}
      → load_core I D file c ≡ some (Outcome.returned entry, c')
      → (bytes : List ℕ) × (file ≡ some bytes) × IsRiscvElf bytes c.base
  unfolding load_core
  load_core-accepts file c {c'} {entry} h =
      let m : Memories I D = record { imem = c.imem; dmem = c.dmem } in
      let (r, e, g) =
        >>=-eq-some (load_elf I D file m)
          (λ r. some (
            check_entry I D c.base r.outcome,
            record c { imem = r.memories.imem; dmem = r.memories.dmem },
          ))
          h in
      let o : check_entry I D c.base r.outcome ≡ Outcome.returned entry = ground (arith, g) in
      load_elf-entry file m e (check_entry-returned c.base r.outcome o).0
