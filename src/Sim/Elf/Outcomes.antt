-- ===== src/Sim/Elf/Outcomes.antt =====
-- How a load ends: an executable that is whole, one whose program headers or a segment of it are cut
-- off, and files that are refused.
use cpu_sim.Base.{
  ℕ, zero, suc, ◌+◌, ◌-◌, ◌≤◌, ◌<◌, ◌≡◌, refl, sym, ap, ◌∙◌, arith, true, false, Option, none, some,
  List,
}
use cpu_sim.Base.{◌>>=◌, length}
use cpu_sim.Memory.FlatMem.{flat_memory}
use cpu_sim.Sim.Elf.{
  Elf32Ehdr, ehdr_size, ehdr_of, header_error, phdr_size, pt_load, LoadError, Outcome, Loaded, Pass,
  follow, load_segment, load_segments, load_read, load_checked, load_elf,
}
use cpu_sim.Sim.Elf.Stream.{InputFile, opened, seekg, slice, read-seekg}
use cpu_sim.Sim.Elf.Bytes.{FlatMemories}
use cpu_sim.Sim.Elf.Segments.{
  IsWhole, Loads, phdr, header_pos, image, load_segment-whole, pass-short, pass-truncated,
  pass-failed,
}

abbrev pub FlatLoaded : Type 0
FlatLoaded = Loaded flat_memory flat_memory

module _ (eh : Elf32Ehdr) where
  abbrev loop : ℕ → ℕ → InputFile → FlatMemories → Option FlatLoaded
  loop n i f m = load_segments flat_memory flat_memory eh n i f m

  loop-next :
      (t n i j : ℕ) (f : InputFile) {f' : InputFile} (m : FlatMemories) {m' : FlatMemories}
      → load_segment flat_memory flat_memory eh i f m ≡ some (Pass.next f' m')
      → t ≡ suc n
      → j ≡ i + 1
      → loop t i f m ≡ loop n j f' m'
  unfolding load_segments
  loop-next t n i j f {f'} m {m'} e et ej =
      ap (λ t. loop t i f m) et
      ∙ ap (λ o. o >>= follow flat_memory flat_memory (loop n (i + 1))) e
      ∙ ap (λ j. loop n j f' m') (sym ej)

  -- The loop, whose first `k` headers are whole: what the rest of it is given.
  loop-prefix :
      (k n i j : ℕ) (f : InputFile) (m0 m : FlatMemories)
      → j ≡ i + k
      → f.failed ≡ false
      → ((x : ℕ) → x < j → IsWhole eh f.bytes m0 x)
      → Loads eh f.bytes i m0 m
      → (p : ℕ) × (m' : FlatMemories) × (loop (k + n) i f m ≡ loop n j (record f { pos = p }) m')
        × Loads eh f.bytes j m0 m'
  loop-prefix zero n i j f m0 m ej ok w l =
      let e : j ≡ i = omega arith in (f.pos, m, rw e (ap (λ t. loop t i f m) (omega arith)), rw e l)
  loop-prefix (suc k) n i j f m0 m ej ok w l =
      let (p, m1, e, l1) = load_segment-whole eh i f m0 m ok (w i (omega arith)) l in
      let (q, m2, e2, l2) =
        loop-prefix k n (suc i) j (record f { pos = p }) m0 m1 (omega arith) ok w l1 in
      (q, m2, loop-next (suc k + n) (k + n) i (suc i) f m e (omega arith) (omega arith) ∙ e2, l2)

  load_segments-failed :
      (n i : ℕ) (f : InputFile) (m : FlatMemories)
      → f.failed ≡ true
      → load_segments flat_memory flat_memory eh n i f m
        ≡ some (record { outcome = Outcome.returned eh.e_entry; memories = m })
  unfolding load_segments
  load_segments-failed zero i f m h = refl
  load_segments-failed (suc n) i f m h =
      ap
        (λ o.
          o >>= follow flat_memory flat_memory (load_segments flat_memory flat_memory eh n (i + 1)))
        (pass-failed eh i f m h)
      ∙ load_segments-failed n (i + 1) f m h

abbrev pub ehdr : List ℕ → Elf32Ehdr
ehdr bytes = ehdr_of (slice bytes 0 ehdr_size)

-- A file with a header that the loader takes.
pub record IsExecutable (bytes : List ℕ) : Type 0 where
  pub header_whole : ehdr_size ≤ length bytes
  pub accepted : header_error (ehdr bytes) ≡ none

load_elf-start :
    (bytes : List ℕ) (m : FlatMemories)
    → IsExecutable bytes
    → load_elf flat_memory flat_memory (some bytes) m
      ≡ loop (ehdr bytes) (ehdr bytes).e_phnum 0 (record (opened bytes) { pos = ehdr_size }) m
unfolding load_elf load_read load_checked opened seekg
load_elf-start bytes m h =
    ap (λ r. load_read flat_memory flat_memory r m)
      (read-seekg (opened bytes) 0 ehdr_size refl h.header_whole)
    ∙ ap
        (λ o.
          load_checked flat_memory flat_memory o (ehdr bytes)
            (record (opened bytes) { pos = ehdr_size }) m)
        h.accepted

pub Loads-none : (eh : Elf32Ehdr) (bytes : List ℕ) (m : FlatMemories) → Loads eh bytes 0 m m
unfolding image
Loads-none eh bytes m = record {
  shapes = record {
    imem_shape = record { same_base = refl; same_length = refl };
    dmem_shape = record { same_base = refl; same_length = refl };
  };
  code = λ a. refl;
  contents = λ a. refl;
}

module _ (bytes : List ℕ) (m : FlatMemories) (x : IsExecutable bytes) where
  -- An executable whose headers and segments are whole and fit the memories is loaded: the entry
  -- point is returned, and the memories hold the image of all headers.
  pub load_elf-Loads :
      ((i : ℕ) → i < (ehdr bytes).e_phnum → IsWhole (ehdr bytes) bytes m i)
      → (m' : FlatMemories) × (load_elf flat_memory flat_memory (some bytes) m
          ≡ some (record { outcome = Outcome.returned (ehdr bytes).e_entry; memories = m' }))
        × Loads (ehdr bytes) bytes (ehdr bytes).e_phnum m m'
  unfolding opened load_segments
  load_elf-Loads w =
      let n = (ehdr bytes).e_phnum in
      let f : InputFile = record (opened bytes) { pos = ehdr_size } in
      let (p, m', e, l) =
        loop-prefix (ehdr bytes) n 0 0 n f m m (omega arith) refl w
          (Loads-none (ehdr bytes) bytes m) in
      (m', load_elf-start bytes m x ∙ ap (λ t. loop (ehdr bytes) t 0 f m) (omega arith) ∙ e, l)

  -- What comes of a load whose first `k` headers are whole.
  load_elf-after :
      (k : ℕ)
      → k < (ehdr bytes).e_phnum
      → ((i : ℕ) → i < k → IsWhole (ehdr bytes) bytes m i)
      → (n : ℕ) × (p : ℕ) × (m' : FlatMemories) × (load_elf flat_memory flat_memory (some bytes) m
          ≡ loop (ehdr bytes) (suc n) k (record (opened bytes) { pos = p }) m')
        × Loads (ehdr bytes) bytes k m m'
  unfolding opened
  load_elf-after k h w =
      let n = (ehdr bytes).e_phnum - k - 1 in
      let f : InputFile = record (opened bytes) { pos = ehdr_size } in
      let (p, m', e, l) =
        loop-prefix (ehdr bytes) k (suc n) 0 k f m m (omega arith) refl w
          (Loads-none (ehdr bytes) bytes m) in
      (
        n,
        p,
        m',
        load_elf-start bytes m x ∙ ap (λ t. loop (ehdr bytes) t 0 f m) (omega arith) ∙ e,
        l,
      )

  -- The first segment that the file does not hold whole is an error, which names it; the segments
  -- before it have been loaded then.
  pub load_elf-short_segment :
      (k : ℕ)
      → k < (ehdr bytes).e_phnum
      → ((i : ℕ) → i < k → IsWhole (ehdr bytes) bytes m i)
      → header_pos (ehdr bytes) k + phdr_size ≤ length bytes
      → (phdr (ehdr bytes) bytes k).p_type ≡ pt_load
      → 0 < (phdr (ehdr bytes) bytes k).p_filesz
      → length bytes < (phdr (ehdr bytes) bytes k).p_offset + (phdr (ehdr bytes) bytes k).p_filesz
      → (m' : FlatMemories) × (load_elf flat_memory flat_memory (some bytes) m
          ≡ some (record { outcome = Outcome.thrown (LoadError.short_segment k); memories = m' }))
        × Loads (ehdr bytes) bytes k m m'
  unfolding opened load_segments
  load_elf-short_segment k h w c t z s =
      let (n, p, m', e, l) = load_elf-after k h w in
      let f : InputFile = record (opened bytes) { pos = p } in
      (
        m',
        e
            ∙ ap (λ o. o >>= follow flat_memory flat_memory (loop (ehdr bytes) n (k + 1)))
                (pass-short (ehdr bytes) k f m' refl c t z s),
        l,
      )

  -- A program header that the file does not hold whole is no error: the load ends there, as if it
  -- had been the last.
  pub load_elf-truncated :
      (k : ℕ)
      → k < (ehdr bytes).e_phnum
      → ((i : ℕ) → i < k → IsWhole (ehdr bytes) bytes m i)
      → length bytes < header_pos (ehdr bytes) k + phdr_size
      → (m' : FlatMemories) × (load_elf flat_memory flat_memory (some bytes) m
          ≡ some (record { outcome = Outcome.returned (ehdr bytes).e_entry; memories = m' }))
        × Loads (ehdr bytes) bytes k m m'
  unfolding opened load_segments
  load_elf-truncated k h w s =
      let (n, p, m', e, l) = load_elf-after k h w in
      let f : InputFile = record (opened bytes) { pos = p } in
      let (f', b, e1) = pass-truncated (ehdr bytes) k f m' refl s in
      (
        m',
        e
            ∙ ap (λ o. o >>= follow flat_memory flat_memory (loop (ehdr bytes) n (k + 1))) e1
            ∙ load_segments-failed (ehdr bytes) n (k + 1) f' m' b,
        l,
      )
