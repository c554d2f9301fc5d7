-- ===== src/Refine/Executable.antt =====
-- The core of a configuration without a predictor runs an executable as the architectural machine
-- does, with or without a tracer.
use cpu_sim.Base.{
  ℕ, ◌-◌, ◌≡◌, ◌⊎◌, inl, inr, refl, sym, ap, ◌∙◌, false, Option, none, some, List, ◌>>=◌,
  >>=-eq-some,
}
use mathlib.Core.Option
use mathlib.Core.Path.{ap₂}
use cpu_sim.Memory.FlatMem
use cpu_sim.Memory.FlatMem.{FlatMem, flat_memory}
use cpu_sim.RegFile
use cpu_sim.Pipeline.Regs.{MemWb}
use cpu_sim.Sim.Core.{Core, HaltReason, create, run, set_tracer}
use cpu_sim.Sim.Config.{
  SimConfig, attach, imem, dram, icache, dcache, bpred, built, make_core, make_core-built,
}
use cpu_sim.Sim.Elf.{Outcome, Memories, Loaded, load_elf, load_core, check_entry}
use cpu_sim.Sim.Elf.Accepts.{check_entry-returned}
use cpu_sim.Sim.Elf.Views.{both, seen, load_elf-view}
use cpu_sim.Arch.{Arch, steps}
use cpu_sim.Refine.Standing.{Halts}
use cpu_sim.Refine.Run.{create-Stands, run_loop-Reaches}
use cpu_sim.Refine.Counting.{counted}
use cpu_sim.Refine.Ports.{Implements-IsCode, no_predictor-IsGuide}
use cpu_sim.Refine.Configured.{
  port_view, port-Implements, blank, iport, dport, imem-blank, dmem-blank, no_bpred,
}

module _ (cfg : SimConfig) where
  abbrev pub ConfigCore : Type 0
  ConfigCore = Core (iport cfg) (dport cfg)

  abbrev pub blanks : Memories flat_memory flat_memory
  blanks = record { imem = blank cfg; dmem = blank cfg }

  -- How far the core has come.
  abbrev pub Stopped : FlatMem → ConfigCore → Arch flat_memory → Type 0
  Stopped code c t =
      Halts (iport cfg) (dport cfg) flat_memory (FlatMem.load_word code) c t
      ⊎ ((c.halted ≡ false) × (c.halt_reason ≡ HaltReason.running))

  -- What comes of an executable: the file is loaded, and after `k` instructions of the machine that
  -- runs what is loaded, the core has halted at its state, or still runs.
  pub record Executed (file : Option (List ℕ)) (c : ConfigCore) : Type 0 where
    pub memories : Memories flat_memory flat_memory
    pub loaded :
        load_elf flat_memory flat_memory file blanks
        ≡ some (record { outcome = Outcome.returned cfg.ram_base_addr; memories = memories })
    pub instructions : ℕ
    pub state : Arch flat_memory
    pub path :
        steps flat_memory
          (FlatMem.load_word memories.imem)
          instructions
          (record { pc = cfg.ram_base_addr; rf = RegFile.empty; mem = memories.dmem })
        ≡ some state
    pub stopped : Stopped memories.imem c state

  -- A new core with memories and a tracer.
  abbrev prepared : (iport cfg).State → (dport cfg).State → Option (List (MemWb × ℕ)) → ConfigCore
  prepared m d tr = record (create (iport cfg) (dport cfg) cfg.ram_base_addr m d (bpred cfg)) {
    tracer = tr;
  }

  prepared-runs :
      (m : (iport cfg).State) (d : (dport cfg).State) (tr : Option (List (MemWb × ℕ)))
      (max_cycles : ℕ) {c' : ConfigCore}
      → cfg.bpred_enabled ≡ false
      → run (iport cfg) (dport cfg) max_cycles (prepared m d tr) ≡ some c'
      → (k : ℕ) × (t : Arch flat_memory) × (steps flat_memory
            (FlatMem.load_word (port_view cfg.icache_enabled m))
            k
            (record {
              pc = cfg.ram_base_addr;
              rf = RegFile.empty;
              mem = port_view cfg.dcache_enabled d;
            })
          ≡ some t)
        × Stopped (port_view cfg.icache_enabled m) c' t
  unfolding run create counted
  prepared-runs m d tr max_cycles {c'} b e =
      let im = port_view cfg.icache_enabled m in
      let code = FlatMem.load_word im in
      let view = port_view cfg.dcache_enabled in
      let Holds : (iport cfg).State → Type 0 = λ x. port_view cfg.icache_enabled x ≡ im in
      let impl = port-Implements cfg.dcache_enabled in
      let code_port = Implements-IsCode (port-Implements cfg.icache_enabled) im in
      let guide = no_predictor-IsGuide code in
      let h =
        create-Stands (iport cfg) (dport cfg) flat_memory view Holds code (λ bp. bp ≡ none) impl
          code_port guide cfg.ram_base_addr m d (bpred cfg) refl (no_bpred cfg b) in
      let (k, t, st, o) =
        run_loop-Reaches (iport cfg) (dport cfg) flat_memory view Holds code (λ bp. bp ≡ none) impl
          code_port guide (max_cycles - 0) max_cycles 0 (prepared m d tr)
          (record { pc = cfg.ram_base_addr; rf = RegFile.empty; mem = view d })
          (record {
            running = h.running;
            no_reason = h.no_reason;
            quiet = record {
              no_redirect = h.quiet.no_redirect;
              no_stall = h.quiet.no_stall;
              no_flush = h.quiet.no_flush;
              no_hold = h.quiet.no_hold;
            };
            represents = h.represents;
          })
          refl e in
      (k, t, st, elim o [ inl (x, _) ↦ inl x | inr (x, _) ↦ inr (x.running, x.no_reason) ])

  abbrev ports : Memories (iport cfg) (dport cfg)
  ports = record {
    imem = attach cfg.icache_enabled (imem cfg) (icache cfg);
    dmem = attach cfg.dcache_enabled (dram cfg) (dcache cfg);
  }

  loaded-view :
      (file : Option (List ℕ)) {r : Loaded (iport cfg) (dport cfg)}
      → load_elf (iport cfg) (dport cfg) file ports ≡ some r
      → load_elf flat_memory flat_memory file blanks
        ≡ some (seen (port-Implements cfg.icache_enabled) (port-Implements cfg.dcache_enabled) r)
  loaded-view file e =
      let hi = port-Implements cfg.icache_enabled in
      let hd = port-Implements cfg.dcache_enabled in
      ap₂ (λ (x y : FlatMem). load_elf flat_memory flat_memory file (record { imem = x; dmem = y }))
        (sym (imem-blank cfg)) (sym (dmem-blank cfg))
      ∙ sym (load_elf-view hi hd file ports)
      ∙ ap (Option.map (seen hi hd)) e

  loaded-Executed :
      (file : Option (List ℕ)) (r : Loaded (iport cfg) (dport cfg)) (tr : Option (List (MemWb × ℕ)))
      (max_cycles : ℕ) {c' : ConfigCore}
      → cfg.bpred_enabled ≡ false
      → load_elf (iport cfg) (dport cfg) file ports ≡ some r
      → r.outcome ≡ Outcome.returned cfg.ram_base_addr
      → run (iport cfg) (dport cfg) max_cycles (prepared r.memories.imem r.memories.dmem tr)
        ≡ some c'
      → Executed file c'
  loaded-Executed file r tr max_cycles b l o e =
      let hi = port-Implements cfg.icache_enabled in
      let hd = port-Implements cfg.dcache_enabled in
      let (k, t, st, s) = prepared-runs r.memories.imem r.memories.dmem tr max_cycles b e in
      record {
        memories = both hi hd r.memories;
        loaded =
            loaded-view file l
            ∙ ap {A = Outcome}
                (λ x. some (record { outcome = x; memories = both hi hd r.memories })) o;
        instructions = k;
        state = t;
        path = st;
        stopped = s;
      }

  -- An executable that is loaded into the core of a configuration without a predictor is loaded as
  -- into two plain memories, and a run of the core, with or without a tracer, has carried out some
  -- number of instructions of the machine that runs what is loaded: the core has halted at the EBREAK
  -- or illegal instruction at which the machine then stands, with its registers, or it has not halted
  -- and gives no reason.
  pub run-executable :
      (file : Option (List ℕ)) (tr : Option (List (MemWb × ℕ))) (max_cycles entry : ℕ)
      {c c' : ConfigCore}
      → cfg.bpred_enabled ≡ false
      → (make_core cfg >>= load_core (iport cfg) (dport cfg) file)
        ≡ some (Outcome.returned entry, c)
      → run (iport cfg) (dport cfg) max_cycles (set_tracer (iport cfg) (dport cfg) tr c) ≡ some c'
      → Executed file c'
  unfolding load_core built create set_tracer
  run-executable file tr max_cycles entry {c} {c'} b l e =
      let c0 = built cfg in
      let made = λ (r : Loaded (iport cfg) (dport cfg)). record c0 {
        imem = r.memories.imem;
        dmem = r.memories.dmem;
      } in
      let (r, lr, g) =
        >>=-eq-some (load_elf (iport cfg) (dport cfg) file ports)
          (λ r. some (check_entry (iport cfg) (dport cfg) c0.base r.outcome, made r))
          (make_core-built cfg (load_core (iport cfg) (dport cfg) file) l) in
      let o : check_entry (iport cfg) (dport cfg) c0.base r.outcome ≡ Outcome.returned entry =
        ap (λ x. x.0) (Option.some-injective _ _ g) in
      let same : made r ≡ c = ap (λ x. x.1) (Option.some-injective _ _ g) in
      loaded-Executed file r tr max_cycles b lr
        (check_entry-returned (iport cfg) (dport cfg) c0.base r.outcome o).0
        (ap (λ x. run (iport cfg) (dport cfg) max_cycles (set_tracer (iport cfg) (dport cfg) tr x))
            same
          ∙ e)
