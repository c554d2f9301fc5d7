-- ===== src/Memory/Cache.antt =====
-- `Cache` of src/memory/cache.cpp: a timing overlay on a backing memory, which serves the data. The
-- prefetch policy is `SequentialPrefetch`, kept as its line size.
pub mod Data
pub mod Timing
pub mod Prompt
mod Tests
use cpu_sim.Base.{ℕ, zero, suc, ◌+◌, ◌-◌, Bool, true, false, not, ◌&&◌, ◌||◌, Option, none, some}
use cpu_sim.Base.{ltb, ◌==◌, if◌then◌else◌, add32, is_some, countdown, is_positive}
use mathlib.Core.Option
use cpu_sim.Memory.Interface.{IMemory}
use cpu_sim.Memory.Tags.{Tags, PrefetchStats, index_of, tag_of, line_addr_of, addr_of, line_at}
use cpu_sim.Memory.Tags.{find_way, choose_victim, count_useful, install_line, use_line, may_fill}
use cpu_sim.Memory.Tags

pub data Phase : Type 0 where
  idle hit_wait write_back miss_fetch prefetch_wait : Phase

module _ (M : IMemory) where
  pub record Cache : Type 0 where
    pub backing : M.State
    pub tags : Tags
    pub hit_latency : ℕ
    pub phase : Phase
    pub cur_addr : ℕ
    pub cur_is_write : Bool
    pub victim_way : ℕ
    pub wb_addr : ℕ
    -- An `int`, as its bit pattern.
    pub hit_remaining : ℕ
    pub last_hit : Bool
    pub pf_policy : Option ℕ
    pub pf_degree : ℕ
    pub pf_active : Bool
    pub pf_addr : ℕ
    pub pf_way : ℕ
    pub pf_chain : ℕ

  unfoldable pub create : M.State → ℕ → ℕ → ℕ → ℕ → Bool → ℕ → Option PrefetchStats → Cache
  unfolding Tags.create
  create backing line_bytes sets hit_latency ways prefetch_enabled prefetch_degree stats = record {
    backing = backing;
    tags = Tags.create line_bytes sets ways stats;
    hit_latency = if hit_latency == 0 then 1 else hit_latency;
    phase = Phase.idle;
    cur_addr = 0;
    cur_is_write = false;
    victim_way = 0;
    wb_addr = 0;
    hit_remaining = 0;
    last_hit = false;
    pf_policy = if prefetch_enabled then some line_bytes else none;
    pf_degree = if prefetch_degree == 0 then 1 else prefetch_degree;
    pf_active = false;
    pf_addr = 0;
    pf_way = 0;
    pf_chain = 0;
  }

  -- The end of both `maybe_start_prefetch` and the chaining: queue the line `target`, unless it is
  -- there or its way would have to be written back.
  unfoldable pub queue_prefetch : ℕ → ℕ → Cache → Cache
  unfolding find_way index_of choose_victim may_fill
  queue_prefetch target chain c =
      let s = index_of c.tags target in
      let way = choose_victim c.tags s in
      if is_some (find_way c.tags target) || not (may_fill c.tags s way)
      then c
      else record c { pf_addr = target; pf_way = way; pf_active = true; pf_chain = chain }

  unfoldable pub maybe_start_prefetch : ℕ → Cache → Cache
  unfolding queue_prefetch line_addr_of
  maybe_start_prefetch addr c = elim c.pf_policy [
    | none ↦ c
    | some line_bytes ↦
        if c.pf_active then c else queue_prefetch (add32 (line_addr_of c.tags addr) line_bytes) 1 c
  ]

  -- The queued line has arrived: install it, and chain while the degree allows.
  unfoldable pub finish_prefetch : Cache → Cache
  unfolding install_line queue_prefetch index_of
  finish_prefetch c =
      let installed = record c {
        tags = install_line (index_of c.tags c.pf_addr) c.pf_way c.pf_addr false true c.tags;
        pf_active = false;
      } in
      elim c.pf_policy [
        | none ↦ installed
        | some line_bytes ↦
            if ltb c.pf_chain c.pf_degree
            then queue_prefetch (add32 c.pf_addr line_bytes) (c.pf_chain + 1) installed
            else installed
      ]

  abbrev pub tick_backing : Cache → Cache
  tick_backing c = record c { backing = M.tick c.backing }

  unfoldable pub service_prefetch : Cache → Cache
  unfolding finish_prefetch
  service_prefetch c =
      let (served, backing) = M.ready c.backing c.pf_addr false in
      let asked = record c { backing = backing } in
      if c.pf_active then tick_backing (if served then finish_prefetch asked else asked) else c

  -- The three ways on of a request that finds the cache idle: a hit, a merge with the prefetch of the
  -- same line, and a miss, which drops a prefetch that has reserved the victim.
  unfoldable pub on_hit : ℕ → ℕ → Bool → Cache → Cache
  unfolding use_line
  on_hit s way is_write c = record c {
    tags = use_line s way is_write c.tags;
    phase = Phase.hit_wait;
    hit_remaining = countdown c.hit_latency;
  }

  unfoldable pub on_miss : ℕ → Cache → Cache
  unfolding choose_victim index_of line_at addr_of
  on_miss s c =
      let way = choose_victim c.tags s in
      let v = line_at c.tags s way in
      let clash = c.pf_active && index_of c.tags c.pf_addr == s && c.pf_way == way in
      let dropped = record c {
        victim_way = way;
        pf_active = if clash then false else c.pf_active;
      } in
      if v.valid && v.dirty
      then record dropped { wb_addr = addr_of c.tags s v.tag; phase = Phase.write_back }
      else record dropped { phase = Phase.miss_fetch }

  unfoldable pub accept : ℕ → Bool → Cache → Cache
  unfolding index_of find_way maybe_start_prefetch on_hit on_miss line_addr_of
  accept addr is_write c =
      let s = index_of c.tags addr in
      let found = find_way c.tags addr in
      let fed =
        maybe_start_prefetch addr
          (record c { cur_addr = addr; cur_is_write = is_write; last_hit = is_some found }) in
      elim found [
        | some way ↦ on_hit s way is_write fed
        | none ↦
            if fed.pf_active && line_addr_of fed.tags addr == fed.pf_addr
            then record fed { victim_way = fed.pf_way; phase = Phase.prefetch_wait }
            else on_miss s fed
      ]

  unfoldable pub start : ℕ → Bool → Phase → Cache → Cache
  unfolding accept
  start addr is_write Phase.idle c = accept addr is_write c
  start addr is_write _ c = c

  -- `phase_ == Phase::HitWait && hit_remaining_ == 0`.
  unfoldable pub serves : Phase → ℕ → Bool
  serves Phase.hit_wait n = n == 0
  serves _ n = false

  unfoldable pub ready : Cache → ℕ → Bool → Bool × Cache
  unfolding start serves
  ready c addr is_write =
      let c' = start addr is_write c.phase c in (serves c'.phase c'.hit_remaining, c')

  -- The fill at the end of a miss or of a merge.
  unfoldable pub fill : Cache → Cache
  unfolding install_line index_of
  fill c = record c {
    tags =
        install_line (index_of c.tags c.cur_addr) c.victim_way c.cur_addr c.cur_is_write false
          c.tags;
    phase = Phase.hit_wait;
    hit_remaining = countdown c.hit_latency;
  }

  unfoldable pub tick_phase : Phase → Cache → Cache
  unfolding service_prefetch fill
  tick_phase Phase.idle c = service_prefetch c
  tick_phase Phase.hit_wait c = service_prefetch (
      if is_positive c.hit_remaining
      then record c { hit_remaining = c.hit_remaining - 1 }
      else record c { phase = Phase.idle })
  tick_phase Phase.write_back c =
      let (served, backing) = M.ready c.backing c.wb_addr true in
      tick_backing
        (record c { backing = backing; phase = if served then Phase.miss_fetch else c.phase })
  tick_phase Phase.miss_fetch c =
      let (served, backing) = M.ready c.backing c.cur_addr false in
      let asked = record c { backing = backing } in
      tick_backing (if served then fill asked else asked)
  tick_phase Phase.prefetch_wait c =
      let (served, backing) = M.ready c.backing c.cur_addr false in
      let asked = record c { backing = backing } in
      let merged = fill asked in
      tick_backing (
        if served
        then record merged {
          tags = record (merged.tags) { stats = count_useful merged.tags.stats };
          pf_active = false;
        }
        else asked)

  unfoldable pub tick : Cache → Cache
  unfolding tick_phase
  tick c = tick_phase c.phase c

  -- The cache as a memory: its data is that of the backing.
  abbrev pub with_backing : Cache → M.State → Cache
  with_backing c backing = record c { backing = backing }

  abbrev pub cache_memory : IMemory
  cache_memory = record {
    State = Cache;
    load_word = λ c addr. M.load_word c.backing addr;
    load_half = λ c addr. M.load_half c.backing addr;
    load_byte = λ c addr. M.load_byte c.backing addr;
    store_word = λ c addr v. Option.map (with_backing c) (M.store_word c.backing addr v);
    store_half = λ c addr v. Option.map (with_backing c) (M.store_half c.backing addr v);
    store_byte = λ c addr v. Option.map (with_backing c) (M.store_byte c.backing addr v);
    ready = ready;
    tick = tick;
  }
