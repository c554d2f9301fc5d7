-- ===== src/Refine/Guided.antt =====
-- The core that a configuration makes, with its predictor or without, runs a program that is fetched
-- at whole words as the architectural machine does.
use cpu_sim.Base.{
  ◌>>=◌, ℕ, ◌^◌, ◌≡◌, refl, sym, ap, ◌∙◌, Bool-cases, inl, inr, true, Option, some, none, List, ◌-◌,
}
use mathlib.Core.Option
use mathlib.Core.Path.{subst}
use cpu_sim.Memory.Interface.{IMemory}
use cpu_sim.Memory.FlatMem
use cpu_sim.Memory.FlatMem.{FlatMem, flat_memory}
use cpu_sim.Predictor
use cpu_sim.RegFile
use cpu_sim.Sim.Core.{Core, create, run, load_program, load_words}
use cpu_sim.Sim.Config.{
  SimConfig, attach, imem, dram, icache, dcache, bpred, built, make_core, make_core-built,
}
use cpu_sim.Arch.{Arch, steps}
use cpu_sim.Refine.Memory.{map-some}
use cpu_sim.Refine.Standing.{Halts}
use cpu_sim.Refine.Run.{run-steps}
use cpu_sim.Refine.Ports.{Implements-IsCode}
use cpu_sim.Refine.Configured.{
  port_view, port-Implements, Ran, iport, dport, dmem-blank, loaded-code, with_code,
  built-with_code,
}
use cpu_sim.Refine.Aligned.{
  aligned_port, aligned_code, aligned_port-IsCode, aligned_code-some, aligned-steps,
}
use cpu_sim.Refine.OnPort.{on_port, FetchesAligned, run_loop-on_port}
use cpu_sim.Refine.Guides.{Trained, IsTrained, create-IsTrained, predictor-IsGuide}

module _ {I D S : IMemory} {code : ℕ → Option ℕ} where
  -- A core that has halted on the port with whole words only.
  on_port-Halts :
      (c : Core (aligned_port I) D) (t : Arch S)
      → Halts (aligned_port I) D S (aligned_code code) c t
      → Halts I D S code (on_port c) t
  on_port-Halts c t h = record {
    has_halted = h.has_halted;
    registers = h.registers;
    at_pc = h.at_pc;
    at_word = (aligned_code-some code t.pc h.at_word).1;
    at_end = h.at_end;
    reason = h.reason;
  }

module _ (cfg : SimConfig) where
  -- The predictor of a configuration whose tables have sizes that are powers of two.
  bpred-Trained :
      (code : ℕ → Option ℕ) (h t : ℕ)
      → cfg.bpred_bht_entries ≡ 2 ^ h
      → cfg.bpred_btb_entries ≡ 2 ^ t
      → Trained code h t (bpred cfg)
  unfolding bpred
  bpred-Trained code h t e f p made = elim (Bool-cases cfg.bpred_enabled) [
    | inl b ↦
        let same : Predictor.create (2 ^ h) (2 ^ t) ≡ p =
          Option.some-injective _ _ (sym (rw (b, e, f) refl) ∙ made) in
        subst (IsTrained code h t) same (create-IsTrained code h t)
    | inr b ↦ let e : none ≡ some p = sym (rw b refl) ∙ made in cc
  ]

  run-with_code :
      (words : List ℕ) (max_cycles h t : ℕ) (m : (iport cfg).State)
      {c' : Core (iport cfg) (dport cfg)}
      → cfg.bpred_bht_entries ≡ 2 ^ h
      → cfg.bpred_btb_entries ≡ 2 ^ t
      → load_words
          (iport cfg)
          (dport cfg)
          words
          cfg.ram_base_addr
          (attach cfg.icache_enabled (imem cfg) (icache cfg))
        ≡ some m
      → FetchesAligned (iport cfg) (dport cfg) (with_code cfg m)
      → run (iport cfg) (dport cfg) max_cycles (with_code cfg m) ≡ some c'
      → c'.halted ≡ true
      → Ran cfg words c'
  unfolding run create
  run-with_code words max_cycles h t m {c'} eh et e aligned r halted =
      let im = port_view cfg.icache_enabled m in
      let code = FlatMem.load_word im in
      let dm = attach cfg.dcache_enabled (dram cfg) (dcache cfg) in
      let port = aligned_port (iport cfg) in
      let c = create port (dport cfg) cfg.ram_base_addr m dm (bpred cfg) in
      let (d, rd, same) =
        map-some on_port (run port (dport cfg) max_cycles c)
          (run_loop-on_port (max_cycles - 0) max_cycles c aligned ∙ r) in
      let (k, u, st, x, counts) =
        run-steps port (dport cfg) flat_memory (port_view cfg.dcache_enabled)
          (λ x. port_view cfg.icache_enabled x ≡ im) (aligned_code code) (Trained code h t)
          (port-Implements cfg.dcache_enabled)
          (aligned_port-IsCode (Implements-IsCode (port-Implements cfg.icache_enabled) im))
          (predictor-IsGuide code h t) cfg.ram_base_addr max_cycles m dm (bpred cfg) refl
          (bpred-Trained code h t eh et) rd (ap (λ x. x.halted) same ∙ halted) in
      let path =
        ap
          (λ d.
            steps flat_memory code k
              (record { pc = cfg.ram_base_addr; rf = RegFile.empty; mem = d }))
          (sym (dmem-blank cfg))
        ∙ aligned-steps flat_memory code k _ st in
      subst (Ran cfg words) same
        (im, k, u, loaded-code cfg words e, path, on_port-Halts d u x, counts)

  -- A program that is loaded into the core of a configuration, with a predictor whose tables have
  -- sizes that are powers of two or without one, and that halts within the cycles given, has halted
  -- at the EBREAK or illegal instruction at which the machine that runs the same words one by one
  -- then stands, with the same registers and the count of that machine's instructions, whatever the
  -- predictor, the latencies and the caches of the configuration are, if each fetch address that the
  -- core comes to is a multiple of four.
  pub run-guided :
      (words : List ℕ) (max_cycles h t : ℕ) {c c' : Core (iport cfg) (dport cfg)}
      → cfg.bpred_bht_entries ≡ 2 ^ h
      → cfg.bpred_btb_entries ≡ 2 ^ t
      → (make_core cfg >>= load_program (iport cfg) (dport cfg) words) ≡ some c
      → FetchesAligned (iport cfg) (dport cfg) c
      → run (iport cfg) (dport cfg) max_cycles c ≡ some c'
      → c'.halted ≡ true
      → Ran cfg words c'
  unfolding load_program built create
  run-guided words max_cycles h t {c} {c'} eh et l aligned r halted =
      let (m, e, ce) =
        map-some (λ imem. record (built cfg) { imem = imem })
          (load_words (iport cfg) (dport cfg) words cfg.ram_base_addr
            (attach cfg.icache_enabled (imem cfg) (icache cfg)))
          (make_core-built cfg (load_program (iport cfg) (dport cfg) words) l) in
      let same : with_code cfg m ≡ c = sym (built-with_code cfg m) ∙ ce in
      run-with_code words max_cycles h t m eh et e
        (subst (FetchesAligned (iport cfg) (dport cfg)) (sym same) aligned)
        (ap (run (iport cfg) (dport cfg) max_cycles) same ∙ r) halted
