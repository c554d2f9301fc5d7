-- ===== src/Refine/Configured.antt =====
-- The core that a configuration makes, without a predictor, runs a program as the architectural
-- machine does, whatever the latencies and the caches.
use cpu_sim.Base.{
  ℕ, suc, ◌%◌, ◌^◌, ◌≡◌, refl, sym, ap, ◌∙◌, Bool, true, false, none, some, List, ◌>>=◌,
}
use mathlib.Core.Option
use cpu_sim.Memory.Interface.{IMemory}
use cpu_sim.Memory.FlatMem
use cpu_sim.Memory.FlatMem.{FlatMem, flat_memory}
use cpu_sim.Memory.Cache
use cpu_sim.Memory.Cache.{Cache}
use cpu_sim.RegFile
use cpu_sim.Sim.Core.{Core, create, run, load_program, load_words}
use cpu_sim.Sim.Config.{
  SimConfig, port, attach, imem, dram, icache, dcache, bpred, built, make_core, make_core-built,
}
use cpu_sim.Arch.{Arch, steps}
use cpu_sim.Arch.Refinement.{Implements}
use cpu_sim.Refine.Memory.{map-some}
use cpu_sim.Refine.Standing.{Halts}
use cpu_sim.Refine.Run.{run-steps}
use cpu_sim.Refine.Ports.{
  at_rest, flat_memory-Implements, cache_memory-Implements, Implements-IsCode, load_words-view,
  no_predictor-IsGuide,
}

-- The memory behind a port.
abbrev pub port_view : (enabled : Bool) → (port enabled).State → FlatMem
port_view true c = at_rest c.backing
port_view false m = at_rest m

pub port-Implements : (enabled : Bool) → Implements (port enabled) flat_memory (port_view enabled)
port-Implements true = cache_memory-Implements flat_memory-Implements
port-Implements false = flat_memory-Implements

attach-view :
    (enabled : Bool) (m : FlatMem) (c : Cache flat_memory)
    → c.backing ≡ m
    → port_view enabled (attach enabled m c) ≡ at_rest m
unfolding attach
attach-view true m c e = ap at_rest e
attach-view false m c e = refl

-- A memory of the configured size, all of it 0.
abbrev pub blank : SimConfig → FlatMem
blank cfg = FlatMem.create cfg.ram_base_addr cfg.ram_size_bytes 1

module _ (cfg : SimConfig) where
  abbrev pub iport : IMemory
  iport = port cfg.icache_enabled

  abbrev pub dport : IMemory
  dport = port cfg.dcache_enabled

  pub imem-blank :
      port_view cfg.icache_enabled (attach cfg.icache_enabled (imem cfg) (icache cfg)) ≡ blank cfg
  unfolding imem icache FlatMem.create Cache.create
  imem-blank = attach-view cfg.icache_enabled (imem cfg) (icache cfg) refl

  pub dmem-blank :
      port_view cfg.dcache_enabled (attach cfg.dcache_enabled (dram cfg) (dcache cfg)) ≡ blank cfg
  unfolding dram dcache FlatMem.create Cache.create
  dmem-blank = attach-view cfg.dcache_enabled (dram cfg) (dcache cfg) refl

  -- What comes of a program: the core has halted where the machine that runs the words one by one on
  -- blank memories stands after `k` instructions, with its registers, and has counted k + 1.
  abbrev pub Ran : List ℕ → Core iport dport → Type 0
  Ran words c =
      (code : FlatMem) × (k : ℕ) × (t : Arch flat_memory) × (load_words flat_memory flat_memory
          words cfg.ram_base_addr (blank cfg)
        ≡ some code)
      × (steps flat_memory (FlatMem.load_word code) k
            (record { pc = cfg.ram_base_addr; rf = RegFile.empty; mem = blank cfg })
          ≡ some t)
      × Halts iport dport flat_memory (FlatMem.load_word code) c t
      × (c.stats.instructions ≡ suc k % 2 ^ 64)

  pub loaded-code :
      (words : List ℕ) {m : iport.State}
      → load_words iport dport words cfg.ram_base_addr
          (attach cfg.icache_enabled (imem cfg) (icache cfg))
        ≡ some m
      → load_words flat_memory flat_memory words cfg.ram_base_addr (blank cfg)
        ≡ some (port_view cfg.icache_enabled m)
  loaded-code words e =
      ap (load_words flat_memory flat_memory words cfg.ram_base_addr) (sym imem-blank)
      ∙ sym (
          load_words-view (port-Implements cfg.icache_enabled) dport flat_memory words
            cfg.ram_base_addr (attach cfg.icache_enabled (imem cfg) (icache cfg)))
      ∙ ap (Option.map (port_view cfg.icache_enabled)) e

  pub no_bpred : cfg.bpred_enabled ≡ false → bpred cfg ≡ none
  unfolding bpred
  no_bpred e = rw e refl

  -- The core with a loaded instruction port.
  abbrev pub with_code : iport.State → Core iport dport
  with_code m =
      create iport dport cfg.ram_base_addr m (attach cfg.dcache_enabled (dram cfg) (dcache cfg))
        (bpred cfg)

  pub built-with_code : (m : iport.State) → record (built cfg) { imem = m } ≡ with_code m
  unfolding built create
  built-with_code m = refl

  run-with_code :
      (words : List ℕ) (max_cycles : ℕ) (m : iport.State) {c' : Core iport dport}
      → cfg.bpred_enabled ≡ false
      → load_words iport dport words cfg.ram_base_addr
          (attach cfg.icache_enabled (imem cfg) (icache cfg))
        ≡ some m
      → run iport dport max_cycles (with_code m) ≡ some c'
      → c'.halted ≡ true
      → Ran words c'
  run-with_code words max_cycles m b e r halted =
      let im = port_view cfg.icache_enabled m in
      let code = FlatMem.load_word im in
      let dm = attach cfg.dcache_enabled (dram cfg) (dcache cfg) in
      let (k, t, st, h, counts) =
        run-steps iport dport flat_memory (port_view cfg.dcache_enabled)
          (λ x. port_view cfg.icache_enabled x ≡ im) code (λ bp. bp ≡ none)
          (port-Implements cfg.dcache_enabled)
          (Implements-IsCode (port-Implements cfg.icache_enabled) im) (no_predictor-IsGuide code)
          cfg.ram_base_addr max_cycles m dm (bpred cfg) refl (no_bpred b) r halted in
      (
        im,
        k,
        t,
        loaded-code words e,
        ap
              (λ d.
                steps flat_memory code k
                  (record { pc = cfg.ram_base_addr; rf = RegFile.empty; mem = d }))
              (sym dmem-blank)
            ∙ st,
        h,
        counts,
      )

  -- A program that is loaded into the core of a configuration without a predictor, and that halts
  -- within the cycles given, has halted at the EBREAK or illegal instruction at which the machine
  -- that runs the same words one by one then stands, with the same registers, and its count of retired
  -- instructions is the number of that machine's instructions with the last one, modulo 2 ^ 64,
  -- whatever the latencies and the caches of the configuration are.
  pub run-program :
      (words : List ℕ) (max_cycles : ℕ) {c c' : Core iport dport}
      → cfg.bpred_enabled ≡ false
      → (make_core cfg >>= load_program iport dport words) ≡ some c
      → run iport dport max_cycles c ≡ some c'
      → c'.halted ≡ true
      → Ran words c'
  unfolding load_program built create
  run-program words max_cycles {c} {c'} b l r halted =
      let (m, e, ce) =
        map-some (λ imem. record (built cfg) { imem = imem })
          (load_words iport dport words cfg.ram_base_addr
            (attach cfg.icache_enabled (imem cfg) (icache cfg)))
          (make_core-built cfg (load_program iport dport words) l) in
      let same : with_code m ≡ c = sym (built-with_code m) ∙ ce in
      run-with_code words max_cycles m b e (ap (run iport dport max_cycles) same ∙ r) halted
