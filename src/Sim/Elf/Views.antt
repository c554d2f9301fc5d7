-- ===== src/Sim/Elf/Views.antt =====
-- A load into two ports that implement a memory is the load into two such memories.
use cpu_sim.Base.{
  ℕ, zero, suc, ◌+◌, ◌-◌, ◌*◌, ◌==◌, ◌≡◌, refl, Bool, true, false, not, ◌||◌, Option, none, some,
  List, [], ◌∷◌, ◌>>=◌, add32, if◌then◌else◌, map->>=,
}
use mathlib.Core.Option
use cpu_sim.Memory.Interface.{IMemory}
use cpu_sim.Arch.Refinement.{Implements}
use cpu_sim.Sim.Elf.{
  Elf32Ehdr, Elf32Phdr, ehdr_of, ehdr_size, phdr_of, phdr_size, pt_load, header_error, LoadError,
  Memories, Loaded, Pass, follow, throw, store_data, zero_bss, store_segment, load_segment,
  load_segments, load_checked, load_read, load_elf,
}
use cpu_sim.Sim.Elf.Stream.{InputFile, opened, seekg, read}

map-if {ℓ κ} :
    {A : Type ℓ} {B : Type κ} (f : A → B) (b : Bool) (x y : Option A) (x' y' : Option B)
    → Option.map f x ≡ x'
    → Option.map f y ≡ y'
    → Option.map f (if b then x else y) ≡ (if b then x' else y')
map-if f true x y x' y' h k = h
map-if f false x y x' y' h k = k

module _ {I D S : IMemory} {view_i : I.State → S.State} {view_d : D.State → S.State}
    (hi : Implements I S view_i) (hd : Implements D S view_d) where
  abbrev pub both : Memories I D → Memories S S
  both m = record { imem = view_i m.imem; dmem = view_d m.dmem }

  abbrev pub seen : Loaded I D → Loaded S S
  seen r = record { outcome = r.outcome; memories = both r.memories }

  abbrev seen_pass : Pass I D → Pass S S
  seen_pass (Pass.next f m) = Pass.next f (both m)
  seen_pass (Pass.stop e m) = Pass.stop e (both m)

  store_data-view :
      (base b : ℕ) (bytes : List ℕ) (m : Memories I D)
      → Option.map both (store_data I D base b bytes m) ≡ store_data S S base b bytes (both m)
  unfolding store_data
  store_data-view base b [] m = refl
  store_data-view base b (x ∷ bytes) m =
      map->>= view_i both
        (λ imem. D.store_byte m.dmem (add32 base b) x >>= λ dmem.
          store_data I D base (b + 1) bytes (record { imem = imem; dmem = dmem }))
        (λ imem. S.store_byte (view_d m.dmem) (add32 base b) x >>= λ dmem.
          store_data S S base (b + 1) bytes (record { imem = imem; dmem = dmem }))
        (λ imem.
          map->>= view_d both
            (λ dmem. store_data I D base (b + 1) bytes (record { imem = imem; dmem = dmem }))
            (λ dmem. store_data S S base (b + 1) bytes (record { imem = view_i imem; dmem = dmem }))
            (λ dmem. store_data-view base (b + 1) bytes (record { imem = imem; dmem = dmem }))
            (D.store_byte m.dmem (add32 base b) x) (hd.put_byte m.dmem (add32 base b) x))
        (I.store_byte m.imem (add32 base b) x) (hi.put_byte m.imem (add32 base b) x)

  zero_bss-view :
      (base b n : ℕ) (m : D.State)
      → Option.map view_d (zero_bss I D base b n m) ≡ zero_bss S S base b n (view_d m)
  unfolding zero_bss
  zero_bss-view base b zero m = refl
  zero_bss-view base b (suc n) m =
      map->>= view_d view_d (zero_bss I D base (b + 1) n) (zero_bss S S base (b + 1) n)
        (zero_bss-view base (b + 1) n) (D.store_byte m (add32 base b) 0)
        (hd.put_byte m (add32 base b) 0)

  store_segment-view :
      (ph : Elf32Phdr) (bytes : List ℕ) (m : Memories I D)
      → Option.map both (store_segment I D ph bytes m) ≡ store_segment S S ph bytes (both m)
  unfolding store_segment
  store_segment-view ph bytes m =
      let n = ph.p_memsz - ph.p_filesz in
      map->>= both both
        (λ m1. zero_bss I D ph.p_vaddr ph.p_filesz n m1.dmem >>= λ dmem.
          some (record m1 { dmem = dmem }))
        (λ m1. zero_bss S S ph.p_vaddr ph.p_filesz n m1.dmem >>= λ dmem.
          some (record m1 { dmem = dmem }))
        (λ m1.
          map->>= view_d both (λ dmem. some (record m1 { dmem = dmem }))
            (λ dmem. some (record (both m1) { dmem = dmem })) (λ dmem. refl)
            (zero_bss I D ph.p_vaddr ph.p_filesz n m1.dmem)
            (zero_bss-view ph.p_vaddr ph.p_filesz n m1.dmem))
        (store_data I D ph.p_vaddr 0 bytes m) (store_data-view ph.p_vaddr 0 bytes m)

  load_segment-view :
      (eh : Elf32Ehdr) (i : ℕ) (f : InputFile) (m : Memories I D)
      → Option.map seen_pass (load_segment I D eh i f m) ≡ load_segment S S eh i f (both m)
  unfolding load_segment
  load_segment-view eh i f m =
      let header = read (seekg f (eh.e_phoff + i * eh.e_phentsize)) phdr_size in
      let ph = phdr_of header.0 in
      let body = read (seekg header.1 ph.p_offset) ph.p_filesz in
      let stopped = Pass.stop (LoadError.short_segment i) m in
      let stored = store_segment I D ph body.0 m >>= λ m1. some (Pass.next body.1 m1) in
      let stopped' = Pass.stop (LoadError.short_segment i) (both m) in
      let stored' = store_segment S S ph body.0 (both m) >>= λ m1. some (Pass.next body.1 m1) in
      map-if seen_pass (header.1.failed || not (ph.p_type == pt_load)) (some (Pass.next header.1 m))
        (if body.1.failed then some stopped else stored) (some (Pass.next header.1 (both m)))
        (if body.1.failed then some stopped' else stored') refl
        (map-if seen_pass body.1.failed (some stopped) stored (some stopped') stored' refl (
          map->>= both seen_pass (λ m1. some (Pass.next body.1 m1))
            (λ m1. some (Pass.next body.1 m1)) (λ m1. refl) (store_segment I D ph body.0 m)
            (store_segment-view ph body.0 m)))

  follow-view :
      (k : InputFile → Memories I D → Option (Loaded I D))
      (k' : InputFile → Memories S S → Option (Loaded S S))
      → ((f : InputFile) (m : Memories I D) → Option.map seen (k f m) ≡ k' f (both m))
      → (p : Pass I D) → Option.map seen (follow I D k p) ≡ follow S S k' (seen_pass p)
  follow-view k k' h (Pass.next f m) = h f m
  follow-view k k' h (Pass.stop e m) = refl

  load_segments-view :
      (eh : Elf32Ehdr) (n i : ℕ) (f : InputFile) (m : Memories I D)
      → Option.map seen (load_segments I D eh n i f m) ≡ load_segments S S eh n i f (both m)
  unfolding load_segments
  load_segments-view eh zero i f m = refl
  load_segments-view eh (suc n) i f m =
      map->>= seen_pass seen (follow I D (load_segments I D eh n (i + 1)))
        (follow S S (load_segments S S eh n (i + 1)))
        (follow-view (load_segments I D eh n (i + 1)) (load_segments S S eh n (i + 1))
          (load_segments-view eh n (i + 1)))
        (load_segment I D eh i f m) (load_segment-view eh i f m)

  load_checked-view :
      (e : Option LoadError) (eh : Elf32Ehdr) (f : InputFile) (m : Memories I D)
      → Option.map seen (load_checked I D e eh f m) ≡ load_checked S S e eh f (both m)
  unfolding load_checked
  load_checked-view none eh f m = load_segments-view eh eh.e_phnum 0 f m
  load_checked-view (some e) eh f m = refl

  load_read-view :
      (header : List ℕ × InputFile) (m : Memories I D)
      → Option.map seen (load_read I D header m) ≡ load_read S S header (both m)
  unfolding load_read
  load_read-view header m =
      let eh = ehdr_of header.0 in
      map-if seen header.1.failed (throw I D LoadError.short_header m)
        (load_checked I D (header_error eh) eh header.1 m)
        (throw S S LoadError.short_header (both m))
        (load_checked S S (header_error eh) eh header.1 (both m)) refl
        (load_checked-view (header_error eh) eh header.1 m)

  -- A load into two ports that implement a memory ends as the load into two such memories, which then
  -- hold what the ports hold.
  pub load_elf-view :
      (file : Option (List ℕ)) (m : Memories I D)
      → Option.map seen (load_elf I D file m) ≡ load_elf S S file (both m)
  unfolding load_elf
  load_elf-view none m = refl
  load_elf-view (some bytes) m = load_read-view (read (opened bytes) ehdr_size) m
