-- ===== src/Tools/BenchRun/Exits.antt =====
-- What the exit code of `main` says of the program in the file.
use cpu_sim.Base.{
  ℕ, ◌≡◌, ◌⊎◌, inl, inr, refl, sym, ap, ◌∙◌, arith, Bool, true, false, Option, none, some, List, [],
  ◌∷◌, ◌>>=◌, >>=-eq-some, if◌then◌else◌,
}
use mathlib.Core.Option
use mathlib.Core.Path.{subst}
use cpu_sim.Isa.Decoder.{decode}
use cpu_sim.Memory.FlatMem
use cpu_sim.Memory.FlatMem.{flat_memory}
use cpu_sim.RegFile
use cpu_sim.Sim.Core.{HaltReason, is_ebreak, run, set_tracer}
use cpu_sim.Sim.Config.{port, make_core}
use cpu_sim.Sim.Elf.{Outcome, Memories, load_elf, load_core}
use cpu_sim.Sim.Tracer.Texts.{Text}
use cpu_sim.Arch.{Arch, halts, steps}
use cpu_sim.Refine.Executable.{blanks, Stopped, Executed, run-executable}
use cpu_sim.Tools.BenchRun.{
  Host, Result, main, with_path, bench, run_loaded, finished, opens, tracer_for, exit_code_for,
  BenchCore,
}
use cpu_sim.Tools.BenchRun.Report.{stopped_for_illegal}
use cpu_sim.Tools.BenchRun.CommandLine.{Options, default_options, read_args, configured}

-- The file at the path is an executable that is loaded, and the machine that runs what is loaded
-- comes to its end: an EBREAK for exit code 0, an illegal instruction for 3.
pub record Told (h : Host) (o : Options) (exit_code : ℕ) : Type 0 where
  pub path : Text
  pub path_eq : o.elf_path ≡ some path
  pub memories : Memories flat_memory flat_memory
  pub loaded :
      load_elf flat_memory flat_memory (h.contents path) (blanks (configured o))
      ≡ some
          (record { outcome = Outcome.returned (configured o).ram_base_addr; memories = memories })
  pub instructions : ℕ
  pub state : Arch flat_memory
  pub run_eq :
      steps flat_memory
        (FlatMem.load_word memories.imem)
        instructions
        (record { pc = (configured o).ram_base_addr; rf = RegFile.empty; mem = memories.dmem })
      ≡ some state
  pub word : ℕ
  pub word_eq : FlatMem.load_word memories.imem state.pc ≡ some word
  pub ends : halts (decode word state.pc).op ≡ true
  pub exit_eq : exit_code ≡ (if is_ebreak (decode word state.pc).op then 0 else 3)

-- The exit codes that say so.
abbrev pub TellsEnd : ℕ → Type 0
TellsEnd n = (n ≡ 0) ⊎ (n ≡ 3)

exit_code-halted :
    (b : Bool) (reason : HaltReason) (halted : Bool)
    → halted ≡ true
    → reason ≡ (if b then HaltReason.ebreak else HaltReason.illegal)
    → exit_code_for reason halted ≡ (if b then 0 else 3)
unfolding exit_code_for stopped_for_illegal
exit_code-halted true reason halted h e = rw (h, e) refl
exit_code-halted false reason halted h e = rw (h, e) refl

exit_code-running :
    (reason : HaltReason) (halted : Bool)
    → halted ≡ false
    → reason ≡ HaltReason.running
    → exit_code_for reason halted ≡ 1
unfolding exit_code_for stopped_for_illegal
exit_code-running reason halted h e = rw (h, e) refl

not-TellsEnd : (n : ℕ) → TellsEnd n → (n ≡ 1) ⊎ (n ≡ 2) → ⊥
not-TellsEnd n t o = ground arith

module _ (h : Host) (path : Text) (o : Options) where
  traced-is :
      (b : Bool) (c : BenchCore h path o)
      → (if b
          then set_tracer
              (port (configured o).icache_enabled)
              (port (configured o).dcache_enabled)
              (some [])
              c
          else c)
        ≡ set_tracer
            (port (configured o).icache_enabled)
            (port (configured o).dcache_enabled)
            (if b then some [] else c.tracer)
            c
  unfolding set_tracer
  traced-is true c = refl
  traced-is false c = refl

  Executed-Told :
      (c : BenchCore h path o)
      → o.elf_path ≡ some path
      → Executed (configured o) (h.contents path) c
      → TellsEnd (exit_code_for c.halt_reason c.halted)
      → Told h o (exit_code_for c.halt_reason c.halted)
  Executed-Told c p x t = told x.stopped
    where
      told :
          Stopped (configured o) x.memories.imem c x.state
          → Told h o (exit_code_for c.halt_reason c.halted)
      told (inl s) = record {
        path = path;
        path_eq = p;
        memories = x.memories;
        loaded = x.loaded;
        instructions = x.instructions;
        state = x.state;
        run_eq = x.path;
        word = c.halt_raw;
        word_eq = s.at_word;
        ends = s.at_end;
        exit_eq =
            exit_code-halted (is_ebreak (decode c.halt_raw x.state.pc).op) c.halt_reason c.halted
              s.has_halted s.reason;
      }
      told (inr (r, n)) =
          absurd (not-TellsEnd _ t (inl (exit_code-running c.halt_reason c.halted r n)))

  run_loaded-Told :
      (x : Outcome × BenchCore h path o) {r : Result}
      → o.elf_path ≡ some path
      → o.bpred ≡ false
      → (make_core (configured o)
          >>= load_core
              (port (configured o).icache_enabled)
              (port (configured o).dcache_enabled)
              (h.contents path))
        ≡ some x
      → run_loaded h path o x ≡ some r
      → TellsEnd r.exit_code
      → Told h o r.exit_code
  unfolding run_loaded finished configured
  run_loaded-Told (Outcome.thrown e, c) {r} p b l g t =
      absurd (not-TellsEnd r.exit_code t (inr (ground (arith, g))))
  run_loaded-Told (Outcome.returned entry, c) {r} p b l g t =
      let I = port (configured o).icache_enabled in
      let D = port (configured o).dcache_enabled in
      let on = opens h (tracer_for h o) in
      let ready = if on then set_tracer I D (some []) c else c in
      let (c', e, f) =
        >>=-eq-some (run I D o.max_cycles ready) (λ c'. some (finished h path o c')) g in
      let same : exit_code_for c'.halt_reason c'.halted ≡ r.exit_code =
        ap {A = Result} (λ x. x.exit_code) (Option.some-injective _ _ f) in
      let x =
        run-executable (configured o) (h.contents path) (if on then some [] else c.tracer)
          o.max_cycles entry b l (ap (run I D o.max_cycles) (sym (traced-is on c)) ∙ e) in
      subst (Told h o) same (Executed-Told c' p x (subst TellsEnd (sym same) t))

  bench-Told :
      {r : Result}
      → o.elf_path ≡ some path
      → o.bpred ≡ false
      → bench h path o ≡ some r
      → TellsEnd r.exit_code
      → Told h o r.exit_code
  unfolding bench
  bench-Told {r} p b e t =
      let (x, l, f) =
        >>=-eq-some
          (make_core (configured o)
            >>= load_core (port (configured o).icache_enabled) (port (configured o).dcache_enabled)
                (h.contents path))
          (run_loaded h path o) e in
      run_loaded-Told x p b l f t

with_path-Told :
    (h : Host) (o : Options) (p : Option Text) {r : Result}
    → o.elf_path ≡ p
    → o.bpred ≡ false
    → with_path h o p ≡ some r
    → TellsEnd r.exit_code
    → Told h o r.exit_code
unfolding with_path
with_path-Told h o none {r} q b e t = absurd (not-TellsEnd r.exit_code t (inl (ground (arith, e))))
with_path-Told h o (some path) q b e t = bench-Told h path o q b e t

-- When `main`, without the predictor, exits with 0 or 3, the file at the path of the command line is
-- an executable that is loaded whole, as into two plain memories, and the machine that runs what is
-- loaded one instruction at a time comes to its end: to an EBREAK if the code is 0, and to an illegal
-- instruction if it is 3, whatever the latencies, caches and traces that the options ask for.
pub main-Told :
    (h : Host) (args : List Text) {r : Result}
    → (read_args args default_options).bpred ≡ false
    → main h args ≡ some r
    → TellsEnd r.exit_code
    → Told h (read_args args default_options) r.exit_code
unfolding main
main-Told h [] {r} b e t = absurd (not-TellsEnd r.exit_code t (inl (ground (arith, e))))
main-Told h (arg ∷ args) b e t =
    let o = read_args (arg ∷ args) default_options in with_path-Told h o o.elf_path refl b e t
