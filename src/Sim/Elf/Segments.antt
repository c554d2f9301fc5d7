-- ===== src/Sim/Elf/Segments.antt =====
-- The loop over the program headers, with an independent description of the image it loads.
use cpu_sim.Base.{
  ℕ, zero, suc, ◌+◌, ◌*◌, ◌≤◌, ◌<◌, ◌≡◌, ◌≢◌, refl, ap, ◌∙◌, arith, true, false, not, ◌||◌, Option,
  none, some, List,
}
use cpu_sim.Base.{
  ◌==◌, ==→eq, Bool-cases, drop, inl, inr, if◌then◌else◌, ◌>>=◌, length, length-take, length-drop,
}
use cpu_sim.Memory.FlatMem.{FlatMem, flat_memory, load_byte}
use cpu_sim.Sim.Elf.{
  Elf32Ehdr, Elf32Phdr, phdr_size, phdr_of, pt_load, LoadError, Pass, store_segment, load_segment,
}
use cpu_sim.Sim.Elf.Stream.{InputFile, seekg, read, slice, read-seekg, read-short, read-failed}
use cpu_sim.Sim.Elf.Bytes.{
  FlatMemories, SameShape, SameShapes, Fits, segment_byte, file_byte, or_else, store_segment-bytes,
}

-- Program header i of the file.
abbrev pub header_pos : Elf32Ehdr → ℕ → ℕ
header_pos eh i = eh.e_phoff + i * eh.e_phentsize

abbrev pub phdr : Elf32Ehdr → List ℕ → ℕ → Elf32Phdr
phdr eh bytes i = phdr_of (slice bytes (header_pos eh i) phdr_size)

abbrev pub segment : Elf32Phdr → List ℕ → List ℕ
segment ph bytes = slice bytes ph.p_offset ph.p_filesz

-- The header is in the file, and so is the segment, if it is one to load, which the memories can hold.
pub record IsWhole (eh : Elf32Ehdr) (bytes : List ℕ) (m : FlatMemories) (i : ℕ) : Type 0 where
  pub header_whole : header_pos eh i + phdr_size ≤ length bytes
  pub segment_whole :
      (phdr eh bytes i).p_type ≡ pt_load
      → (phdr eh bytes i).p_offset + (phdr eh bytes i).p_filesz ≤ length bytes
  pub segment_fits : (phdr eh bytes i).p_type ≡ pt_load → Fits (phdr eh bytes i) m

-- The byte that the first `n` headers put at `a`: the last segment that holds `a` wins.
module _ (byte_of : Elf32Phdr → List ℕ → ℕ → Option ℕ) (eh : Elf32Ehdr) (bytes : List ℕ) where
  unfoldable pub image : ℕ → ℕ → Option ℕ
  image zero a = none
  image (suc n) a =
      let ph = phdr eh bytes n in
      or_else (if ph.p_type == pt_load then byte_of ph (segment ph bytes) a else none) (image n a)

-- The memories `m'` are `m` with the image of the first `n` headers loaded.
pub record Loads (eh : Elf32Ehdr) (bytes : List ℕ) (n : ℕ) (m m' : FlatMemories) : Type 0 where
  pub shapes : SameShapes m m'
  pub code :
      (a : ℕ) → load_byte m'.imem a ≡ or_else (image file_byte eh bytes n a) (load_byte m.imem a)
  pub contents :
      (a : ℕ) → load_byte m'.dmem a ≡ or_else (image segment_byte eh bytes n a) (load_byte m.dmem a)

SameShape-trans : {a b c : FlatMem} → SameShape a b → SameShape b c → SameShape a c
SameShape-trans s t = record {
  same_base = t.same_base ∙ s.same_base;
  same_length = t.same_length ∙ s.same_length;
}

or_else_assoc : (a b c : Option ℕ) → or_else a (or_else b c) ≡ or_else (or_else a b) c
or_else_assoc none b c = refl
or_else_assoc (some v) b c = refl

Fits-shapes : {ph : Elf32Phdr} {m m' : FlatMemories} → SameShapes m m' → Fits ph m → Fits ph m'
Fits-shapes {ph} {m} {m'} s f = record {
  in_space = f.in_space;
  zeros_in_space = f.zeros_in_space;
  code_fits = ground (arith, s.imem_shape, f.code_fits);
  data_fits = ground (arith, s.dmem_shape, f.data_fits);
  zeros_fit = ground (arith, s.dmem_shape, f.zeros_fit);
}

length-slice : (bytes : List ℕ) (p n : ℕ) → p + n ≤ length bytes → length (slice bytes p n) ≡ n
length-slice bytes p n h = ground (arith, length-take n (drop p bytes), length-drop p bytes)

module _ (eh : Elf32Ehdr) (i : ℕ) (f : InputFile) (m : FlatMemories) where
  pass-header :
      f.failed ≡ false
      → header_pos eh i + phdr_size ≤ length f.bytes
      → read (seekg f (header_pos eh i)) phdr_size ≡ (
        slice f.bytes (header_pos eh i) phdr_size,
        record f { pos = header_pos eh i + phdr_size },
      )
  pass-header ok w = read-seekg f (header_pos eh i) phdr_size ok w

  -- The rest of a pass, behind the header.
  abbrev pass_from : List ℕ × InputFile → Option (Pass flat_memory flat_memory)
  pass_from header =
      let ph = phdr_of header.0 in
      let body = read (seekg header.1 ph.p_offset) ph.p_filesz in
      if header.1.failed || not (ph.p_type == pt_load)
      then some (Pass.next header.1 m)
      else if body.1.failed
      then some (Pass.stop (LoadError.short_segment i) m)
      else store_segment flat_memory flat_memory ph body.0 m >>= λ m1. some (Pass.next body.1 m1)

  load_segment-from :
      {h : List ℕ × InputFile}
      → read (seekg f (header_pos eh i)) phdr_size ≡ h
      → load_segment flat_memory flat_memory eh i f m ≡ pass_from h
  unfolding load_segment
  load_segment-from e = ap pass_from e

  pub pass-other :
      f.failed ≡ false
      → header_pos eh i + phdr_size ≤ length f.bytes
      → (phdr eh f.bytes i).p_type ≢ pt_load
      → load_segment flat_memory flat_memory eh i f m
        ≡ some (Pass.next (record f { pos = header_pos eh i + phdr_size }) m)
  pass-other ok w t = load_segment-from (pass-header ok w) ∙ ground (arith, ok, t)

  pub pass-load :
      {m' : FlatMemories}
      → f.failed ≡ false
      → header_pos eh i + phdr_size ≤ length f.bytes
      → (phdr eh f.bytes i).p_type ≡ pt_load
      → (phdr eh f.bytes i).p_offset + (phdr eh f.bytes i).p_filesz ≤ length f.bytes
      → store_segment flat_memory flat_memory
          (phdr eh f.bytes i)
          (segment (phdr eh f.bytes i) f.bytes)
          m
        ≡ some m'
      → load_segment flat_memory flat_memory eh i f m
        ≡ some (
            Pass.next
              (record f { pos = (phdr eh f.bytes i).p_offset + (phdr eh f.bytes i).p_filesz })
              m')
  pass-load ok w t s e =
      let ph = phdr eh f.bytes i in
      let f1 : InputFile = record f { pos = header_pos eh i + phdr_size } in
      load_segment-from (pass-header ok w)
      ∙ ground (arith, ok, t, e, read-seekg f1 ph.p_offset ph.p_filesz ok s)

  pub pass-short :
      f.failed ≡ false
      → header_pos eh i + phdr_size ≤ length f.bytes
      → (phdr eh f.bytes i).p_type ≡ pt_load
      → 0 < (phdr eh f.bytes i).p_filesz
      → length f.bytes < (phdr eh f.bytes i).p_offset + (phdr eh f.bytes i).p_filesz
      → load_segment flat_memory flat_memory eh i f m
        ≡ some (Pass.stop (LoadError.short_segment i) m)
  pass-short ok w t z s =
      let ph = phdr eh f.bytes i in
      let f1 : InputFile = record f { pos = header_pos eh i + phdr_size } in
      load_segment-from (pass-header ok w)
      ∙ ground (arith, ok, t, read-short f1 ph.p_offset ph.p_filesz ok s z)

  pub pass-truncated :
      f.failed ≡ false
      → length f.bytes < header_pos eh i + phdr_size
      → (f' : InputFile) × (f'.failed ≡ true)
        × (load_segment flat_memory flat_memory eh i f m ≡ some (Pass.next f' m))
  unfolding load_segment
  pass-truncated ok s =
      let e = read-short f (header_pos eh i) phdr_size ok s (omega arith) in
      ((read (seekg f (header_pos eh i)) phdr_size).1, e, ground (arith, e))

  pub pass-failed :
      f.failed ≡ true → load_segment flat_memory flat_memory eh i f m ≡ some (Pass.next f m)
  unfolding load_segment
  pass-failed h = ground (arith, read-failed f (header_pos eh i) phdr_size h, h)

-- A pass over a whole header.
pub load_segment-whole :
    (eh : Elf32Ehdr) (i : ℕ) (f : InputFile) (m0 m : FlatMemories)
    → f.failed ≡ false
    → IsWhole eh f.bytes m0 i
    → Loads eh f.bytes i m0 m
    → (p : ℕ) × (m' : FlatMemories) × (load_segment flat_memory flat_memory eh i f m
        ≡ some (Pass.next (record f { pos = p }) m'))
      × Loads eh f.bytes (suc i) m0 m'
unfolding image
load_segment-whole eh i f m0 m ok w l =
    let ph = phdr eh f.bytes i in
    elim (Bool-cases (ph.p_type == pt_load)) [
      | inl e ↦
          let t : ph.p_type ≡ pt_load = ==→eq ph.p_type pt_load e in
          let (m', es, sh, ci, cd) =
            store_segment-bytes ph (segment ph f.bytes) m
              (length-slice f.bytes ph.p_offset ph.p_filesz (w.segment_whole t))
              (Fits-shapes l.shapes (w.segment_fits t)) in
          (
            ph.p_offset + ph.p_filesz,
            m',
            pass-load eh i f m ok w.header_whole t (w.segment_whole t) es,
            record {
              shapes = record {
                imem_shape = SameShape-trans l.shapes.imem_shape sh.imem_shape;
                dmem_shape = SameShape-trans l.shapes.dmem_shape sh.dmem_shape;
              };
              code = λ a. rw e (
                  ci a
                  ∙ ap (or_else (file_byte ph (segment ph f.bytes) a)) (l.code a)
                  ∙ or_else_assoc (file_byte ph (segment ph f.bytes) a)
                      (image file_byte eh f.bytes i a) (load_byte m0.imem a));
              contents = λ a. rw e (
                  cd a
                  ∙ ap (or_else (segment_byte ph (segment ph f.bytes) a)) (l.contents a)
                  ∙ or_else_assoc (segment_byte ph (segment ph f.bytes) a)
                      (image segment_byte eh f.bytes i a) (load_byte m0.dmem a));
            },
          )
      | inr e ↦ (
        header_pos eh i + phdr_size,
        m,
        pass-other eh i f m ok w.header_whole (λ t. ground arith),
        record {
          shapes = l.shapes;
          code = λ a. rw e (l.code a);
          contents = λ a. rw e (l.contents a);
        },
      )
    ]
