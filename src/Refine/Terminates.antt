-- ===== src/Refine/Terminates.antt =====
-- The core that a configuration makes, without a predictor, runs a program to its end within a number
-- of cycles that the latencies of the configuration give.
use cpu_sim.Base.{
  ℕ, ◌+◌, ◌*◌, ◌%◌, ◌^◌, ◌<◌, ◌≤◌, ◌≡◌, refl, sym, ap, ◌∙◌, arith, Bool, true, false, some, List,
  [], ◌∷◌, suc, ◌>>=◌, >>=-eq-some, add32,
}
use mathlib.Core.Option
use mathlib.Core.Path.{subst}
use cpu_sim.Memory.Interface.{IMemory}
use cpu_sim.Memory.Prompt.{IsPrompt, flat_memory-IsPrompt, flat_left}
use cpu_sim.Memory.Prompt
use cpu_sim.Memory.FlatMem
use cpu_sim.Memory.FlatMem.{FlatMem, flat_memory}
use cpu_sim.Memory.Cache
use cpu_sim.Memory.Cache.{Cache}
use cpu_sim.Memory.Cache.Prompt as CachePrompt
use cpu_sim.RegFile
use cpu_sim.Sim.Core.{Core, create, run, load_program, load_words}
use cpu_sim.Sim.Config.{
  SimConfig, port, attach, imem, dram, icache, dcache, bpred, built, make_core, asserted,
  make_core-passed,
}
use cpu_sim.Arch.{Arch, steps}
use cpu_sim.Refine.Standing.{Halts}
use cpu_sim.Refine.Memory.{map-some}
use cpu_sim.Refine.Halting.{AtEnd}
use cpu_sim.Refine.Nearby.{IsCalm, IsCovered}
use cpu_sim.Refine.Total.{run-total}
use cpu_sim.Refine.Ports.{Implements-IsCode, load_words-view, no_predictor-IsGuide}
use cpu_sim.Refine.Configured.{
  port_view, port-Implements, blank, iport, dport, imem-blank, dmem-blank, no_bpred, with_code,
  built-with_code,
}

-- How long a caller waits on a port at most: with a cache, for a write-back, a fetch and a hit.
abbrev pub port_wait : Bool → ℕ → ℕ → ℕ
port_wait true latency hit = 2 * latency + (hit + 1) + 3
port_wait false latency hit = latency

abbrev PortValid : (enabled : Bool) → ℕ → ℕ → (port enabled).State → Type 0
PortValid true latency hit c = CachePrompt.IsTimed (flat_memory-IsPrompt latency) (hit + 1) c
PortValid false latency hit m = Prompt.IsTimed latency m

abbrev port_left : (enabled : Bool) → ℕ → ℕ → (port enabled).State → ℕ
port_left true latency hit c = CachePrompt.cache_left (flat_memory-IsPrompt latency) (hit + 1) c
port_left false latency hit m = flat_left m

port-IsPrompt :
    (enabled : Bool) (latency hit : ℕ)
    → IsPrompt
        (port enabled)
        (PortValid enabled latency hit)
        (port_left enabled latency hit)
        (port_wait enabled latency hit)
port-IsPrompt true latency hit =
    CachePrompt.cache_memory-IsPrompt (flat_memory-IsPrompt latency) (hit + 1)
port-IsPrompt false latency hit = flat_memory-IsPrompt latency

-- A new memory, and a new cache on it.
flat-IsTimed :
    (base size latency : ℕ)
    → latency < 2 ^ 31
    → Prompt.IsTimed latency (FlatMem.create base size latency)
unfolding FlatMem.create
flat-IsTimed base size latency h = record {
  latency_gt = ground arith;
  latency_lt = ground (arith, h);
  latency_le = ground arith;
  remaining_lt = omega arith;
  remaining_le = omega arith;
}

attach-Valid :
    (enabled : Bool) (latency hit : ℕ) (m : FlatMem) (c : Cache flat_memory)
    → Prompt.IsTimed latency m
    → CachePrompt.IsTimed (flat_memory-IsPrompt latency) (hit + 1) c
    → PortValid enabled latency hit (attach enabled m c)
unfolding attach
attach-Valid true latency hit m c h k = k
attach-Valid false latency hit m c h k = h

module _ {M : IMemory} {Valid : M.State → Type 0} {left : M.State → ℕ} {bound : ℕ}
    (p : IsPrompt M Valid left bound) (D : IMemory) where
  load_words-Valid :
      (words : List ℕ) (addr : ℕ) (m : M.State) {m' : M.State}
      → Valid m
      → load_words M D words addr m ≡ some m'
      → Valid m'
  unfolding load_words
  load_words-Valid [] addr m {m'} v e = let same : m ≡ m' = cc in rw (← same) v
  load_words-Valid (w ∷ words) addr m v e =
      let (m1, s, rest) =
        >>=-eq-some (M.store_word m addr w) (load_words M D words (add32 addr 4)) e in
      load_words-Valid words (add32 addr 4) m1 (p.word_Valid m addr w v s) rest

module _ (cfg : SimConfig) where
  abbrev wait_i : ℕ
  wait_i = port_wait cfg.icache_enabled cfg.imem_latency_cycles cfg.icache_hit_latency_cycles

  abbrev wait_d : ℕ
  wait_d = port_wait cfg.dcache_enabled cfg.dmem_latency_cycles cfg.dcache_hit_latency_cycles

  -- The cycles that an instruction takes at most.
  abbrev pub cycles_per_step : ℕ
  cycles_per_step = 5 + wait_d + wait_i

  -- The latencies are values of an `int`, in which the timers count them down.
  pub record FitsInts : Type 0 where
    pub imem : cfg.imem_latency_cycles < 2 ^ 31
    pub dmem : cfg.dmem_latency_cycles < 2 ^ 31
    pub icache : cfg.icache_hit_latency_cycles < 2 ^ 31
    pub dcache : cfg.dcache_hit_latency_cycles < 2 ^ 31

  imem-Valid :
      FitsInts
      → PortValid cfg.icache_enabled cfg.imem_latency_cycles cfg.icache_hit_latency_cycles
          (attach cfg.icache_enabled (imem cfg) (icache cfg))
  unfolding imem icache Cache.create
  imem-Valid h =
      let m = flat-IsTimed cfg.ram_base_addr cfg.ram_size_bytes cfg.imem_latency_cycles h.imem in
      attach-Valid cfg.icache_enabled cfg.imem_latency_cycles cfg.icache_hit_latency_cycles
        (imem cfg) (icache cfg) m
        (record {
          backing = m;
          latency_gt = ground arith;
          latency_lt = ground (arith, h.icache);
          latency_le = ground arith;
          remaining_lt = omega arith;
          remaining_le = omega arith;
        })

  dmem-Valid :
      FitsInts
      → PortValid cfg.dcache_enabled cfg.dmem_latency_cycles cfg.dcache_hit_latency_cycles
          (attach cfg.dcache_enabled (dram cfg) (dcache cfg))
  unfolding dram dcache Cache.create
  dmem-Valid h =
      let m = flat-IsTimed cfg.ram_base_addr cfg.ram_size_bytes cfg.dmem_latency_cycles h.dmem in
      attach-Valid cfg.dcache_enabled cfg.dmem_latency_cycles cfg.dcache_hit_latency_cycles
        (dram cfg) (dcache cfg) m
        (record {
          backing = m;
          latency_gt = ground arith;
          latency_lt = ground (arith, h.dcache);
          latency_le = ground arith;
          remaining_lt = omega arith;
          remaining_le = omega arith;
        })

  -- The machine before a program, with the data `d`.
  abbrev pub at_start : FlatMem → Arch flat_memory
  at_start d = record { pc = cfg.ram_base_addr; rf = RegFile.empty; mem = d }

  -- The machine runs the code to an end after `k` instructions, the code reaches four words beyond
  -- each of them, and the word behind the last one neither accesses the memory nor jumps.
  pub record RunsTo (d code : FlatMem) (k : ℕ) (t : Arch flat_memory) : Type 0 where
    pub path : steps flat_memory (FlatMem.load_word code) k (at_start d) ≡ some t
    pub end : AtEnd flat_memory (FlatMem.load_word code) t
    pub calm : IsCalm (FlatMem.load_word code) t.pc
    pub covered :
        (j : ℕ) (u : Arch flat_memory)
        → j ≤ k
        → steps flat_memory (FlatMem.load_word code) j (at_start d) ≡ some u
        → IsCovered (FlatMem.load_word code) u.pc

  -- From a core with the code in its port.
  with_code-Halts :
      (max_cycles k : ℕ) (t : Arch flat_memory) (m : (iport cfg).State)
      → FitsInts
      → cfg.bpred_enabled ≡ false
      → max_cycles < 2 ^ 64
      → suc k * cycles_per_step ≤ max_cycles
      → RunsTo (blank cfg) (port_view cfg.icache_enabled m) k t
      → PortValid cfg.icache_enabled cfg.imem_latency_cycles cfg.icache_hit_latency_cycles m
      → (c' : Core (iport cfg) (dport cfg)) × (run
            (iport cfg)
            (dport cfg)
            max_cycles
            (with_code cfg m)
          ≡ some c')
        × Halts
            (iport cfg)
            (dport cfg)
            flat_memory
            (FlatMem.load_word (port_view cfg.icache_enabled m))
            c'
            t
        × (c'.stats.instructions ≡ suc k % 2 ^ 64)
  with_code-Halts max_cycles k t m fits b mx le h valid =
      let im = port_view cfg.icache_enabled m in
      let code = FlatMem.load_word im in
      let dm = attach cfg.dcache_enabled (dram cfg) (dcache cfg) in
      let r = subst (λ d. RunsTo d im k t) (sym (dmem-blank cfg)) h in
      run-total (iport cfg) (dport cfg) flat_memory (port_view cfg.dcache_enabled)
        (λ x. port_view cfg.icache_enabled x ≡ im) code (port-Implements cfg.dcache_enabled)
        (Implements-IsCode (port-Implements cfg.icache_enabled) im) (no_predictor-IsGuide code)
        (port-IsPrompt cfg.icache_enabled cfg.imem_latency_cycles cfg.icache_hit_latency_cycles)
        (port-IsPrompt cfg.dcache_enabled cfg.dmem_latency_cycles cfg.dcache_hit_latency_cycles)
        cfg.ram_base_addr max_cycles k m dm (bpred cfg) t mx le refl (no_bpred cfg b) valid
        (dmem-Valid fits) r.path r.end r.calm r.covered

  loaded-view :
      (words : List ℕ) {code : FlatMem}
      → load_words flat_memory flat_memory words cfg.ram_base_addr (blank cfg) ≡ some code
      → (m : (iport cfg).State) × (load_words
            (iport cfg)
            (dport cfg)
            words
            cfg.ram_base_addr
            (attach cfg.icache_enabled (imem cfg) (icache cfg))
          ≡ some m)
        × (port_view cfg.icache_enabled m ≡ code)
  loaded-view words {code} e =
      let m0 = attach cfg.icache_enabled (imem cfg) (icache cfg) in
      let o = load_words (iport cfg) (dport cfg) words cfg.ram_base_addr m0 in
      let seen : Option.map (port_view cfg.icache_enabled) o ≡ some code =
        load_words-view (port-Implements cfg.icache_enabled) (dport cfg) flat_memory words
          cfg.ram_base_addr m0
        ∙ ap (load_words flat_memory flat_memory words cfg.ram_base_addr) (imem-blank cfg)
        ∙ e in
      map-some (port_view cfg.icache_enabled) o seen

  -- A program whose words fit the memory of a configuration that passes the assertions of the
  -- constructors and whose latencies are below 2 ^ 31, and which the machine runs to an EBREAK or an
  -- illegal instruction after `k` instructions, is loaded into the core of that configuration, without
  -- a predictor, and the core halts there, with the machine's registers and a count of k + 1 retired
  -- instructions, modulo 2 ^ 64, within the cycles that k + 1 instructions take at most. The code must
  -- reach four words beyond each executed instruction, and the word behind the last one must neither
  -- access the memory nor jump.
  pub program-Halts :
      (words : List ℕ) (max_cycles k : ℕ) (code : FlatMem) (t : Arch flat_memory)
      → asserted cfg ≡ true
      → FitsInts
      → cfg.bpred_enabled ≡ false
      → max_cycles < 2 ^ 64
      → suc k * cycles_per_step ≤ max_cycles
      → load_words flat_memory flat_memory words cfg.ram_base_addr (blank cfg) ≡ some code
      → RunsTo (blank cfg) code k t
      → (c c' : Core (iport cfg) (dport cfg)) × ((make_core cfg
            >>= load_program (iport cfg) (dport cfg) words)
          ≡ some c)
        × (run (iport cfg) (dport cfg) max_cycles c ≡ some c')
        × Halts (iport cfg) (dport cfg) flat_memory (FlatMem.load_word code) c' t
        × (c'.stats.instructions ≡ suc k % 2 ^ 64)
  unfolding load_program built create
  program-Halts words max_cycles k code t passed fits b mx le e h =
      let (m, l, v) = loaded-view words e in
      let valid =
        load_words-Valid
          (port-IsPrompt cfg.icache_enabled cfg.imem_latency_cycles cfg.icache_hit_latency_cycles)
          (dport cfg) words cfg.ram_base_addr (attach cfg.icache_enabled (imem cfg) (icache cfg))
          (imem-Valid fits) l in
      let (c', r, halts, counts) =
        with_code-Halts max_cycles k t m fits b mx le
          (subst (λ x. RunsTo (blank cfg) x k t) (sym v) h) valid in
      (
        record (built cfg) { imem = m },
        c',
        make_core-passed cfg (load_program (iport cfg) (dport cfg) words) passed
            ∙ ap (Option.map (λ imem. record (built cfg) { imem = imem })) l,
        ap (run (iport cfg) (dport cfg) max_cycles) (built-with_code cfg m) ∙ r,
        subst (λ x. Halts (iport cfg) (dport cfg) flat_memory (FlatMem.load_word x) c' t) v halts,
        counts,
      )
