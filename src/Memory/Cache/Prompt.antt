-- ===== src/Memory/Cache/Prompt.antt =====
-- A cache on a port that answers within a bound does so too, whatever phase a caller finds it in.
use cpu_sim.Base.{
  ℕ, ◌+◌, ◌-◌, ◌*◌, ◌<◌, ◌≤◌, ◌≡◌, refl, sym, ap, arith, Bool, true, false, Option, none, some,
  if◌then◌else◌, is_positive, ◌^◌, is_some,
}
use mathlib.Core.Option
use mathlib.Core.Path.{subst}
use cpu_sim.Memory.Interface.{IMemory}
use cpu_sim.Memory.FlatMem.{flat_memory}
use cpu_sim.Memory.Prompt.{IsPrompt, flat_memory-IsPrompt, waited, answers}
use cpu_sim.Memory.Cache.{
  Cache, Phase, cache_memory, with_backing, service_prefetch, maybe_start_prefetch, on_hit, on_miss,
  accept, start, serves, ready, fill, tick_phase, tick,
}
use cpu_sim.Memory.Cache.Data.{finish-backing, accept-backing, maybe_start-backing}
use cpu_sim.Memory.Cache.Timing.{maybe_start-request, service-request}
use cpu_sim.Memory.Tags.{find_way, index_of}

module _ {M : IMemory} {Valid : M.State → Type 0} {left : M.State → ℕ} {bound : ℕ}
    (p : IsPrompt M Valid left bound) (hit : ℕ) where
  -- How long a caller waits that finds the cache in a phase.
  abbrev phase_left : Phase → ℕ → ℕ → ℕ
  phase_left Phase.idle behind n = 2 * bound + hit + 3
  phase_left Phase.hit_wait behind n = n
  phase_left Phase.write_back behind n = behind + bound + hit + 2
  phase_left Phase.miss_fetch behind n = behind + hit + 1
  phase_left Phase.prefetch_wait behind n = behind + hit + 1

  abbrev pub cache_left : Cache M → ℕ
  cache_left c = phase_left c.phase (left c.backing) c.hit_remaining

  pub record IsTimed (c : Cache M) : Type 0 where
    pub backing : Valid c.backing
    pub latency_gt : 0 < c.hit_latency
    pub latency_lt : c.hit_latency < 2 ^ 31
    pub latency_le : c.hit_latency ≤ hit
    pub remaining_lt : c.hit_remaining < 2 ^ 31
    pub remaining_le : c.hit_remaining ≤ hit

  -- The phases of a request that has been accepted.
  abbrev is_busy : Phase → Bool
  is_busy Phase.idle = false
  is_busy _ = true

  busy-left :
      (q : Phase) (behind n : ℕ)
      → is_busy q ≡ true
      → behind ≤ bound
      → n ≤ hit
      → phase_left q behind n ≤ 2 * bound + hit + 2
  busy-left Phase.idle behind n b h k = cc
  busy-left Phase.hit_wait behind n b h k = omega arith
  busy-left Phase.write_back behind n b h k = omega arith
  busy-left Phase.miss_fetch behind n b h k = omega arith
  busy-left Phase.prefetch_wait behind n b h k = omega arith

  -- What accepting a request leaves of the timer.
  record Accepted (c c' : Cache M) : Type 0 where
    pub same_backing : c'.backing ≡ c.backing
    pub same_latency : c'.hit_latency ≡ c.hit_latency
    pub remaining_lt : c'.hit_remaining < 2 ^ 31
    pub remaining_le : c'.hit_remaining ≤ hit
    pub busy : is_busy c'.phase ≡ true

  on_miss-Accepted :
      (s : ℕ) (c0 c : Cache M)
      → c.backing ≡ c0.backing
      → c.hit_latency ≡ c0.hit_latency
      → c.hit_remaining < 2 ^ 31
      → c.hit_remaining ≤ hit
      → Accepted c0 (on_miss M s c)
  unfolding on_miss
  on_miss-Accepted s c0 c b l i r = record {
    same_backing = ground (arith, b);
    same_latency = ground (arith, l);
    remaining_lt = ground (arith, i);
    remaining_le = ground (arith, r);
    busy = ground arith;
  }

  accept-Accepted :
      (addr : ℕ) (is_write : Bool) (c : Cache M) → IsTimed c → Accepted c (accept M addr is_write c)
  unfolding accept on_hit
  accept-Accepted addr is_write c h =
      let seen : Cache M = record c {
        cur_addr = addr;
        cur_is_write = is_write;
        last_hit = is_some (find_way c.tags addr);
      } in
      let fed = maybe_start_prefetch M addr seen in
      let same = maybe_start-request addr seen in
      let kept = maybe_start-backing addr seen in
      let miss =
        on_miss-Accepted (index_of c.tags addr) c fed kept (ground (arith, same))
          (ground (arith, same, h.remaining_lt)) (ground (arith, same, h.remaining_le)) in
      record {
        same_backing = accept-backing addr is_write c;
        same_latency = ground (arith, same, miss.same_latency);
        remaining_lt =
            ground (arith, same, miss.remaining_lt, h.latency_gt, h.latency_lt, h.remaining_lt);
        remaining_le = ground (
          arith, same, miss.remaining_le, h.latency_gt, h.latency_lt, h.latency_le, h.remaining_le,
        );
        busy = ground (arith, miss.busy);
      }

  start-Accepted :
      (addr : ℕ) (is_write : Bool) (q : Phase) (c : Cache M)
      → IsTimed c
      → c.phase ≡ q
      → Accepted c (start M addr is_write q c)
  unfolding start
  start-Accepted addr is_write Phase.idle c h e = accept-Accepted addr is_write c h
  start-Accepted addr is_write Phase.hit_wait c h e = record {
    same_backing = refl;
    same_latency = refl;
    remaining_lt = h.remaining_lt;
    remaining_le = h.remaining_le;
    busy = rw e refl;
  }
  start-Accepted addr is_write Phase.write_back c h e = record {
    same_backing = refl;
    same_latency = refl;
    remaining_lt = h.remaining_lt;
    remaining_le = h.remaining_le;
    busy = rw e refl;
  }
  start-Accepted addr is_write Phase.miss_fetch c h e = record {
    same_backing = refl;
    same_latency = refl;
    remaining_lt = h.remaining_lt;
    remaining_le = h.remaining_le;
    busy = rw e refl;
  }
  start-Accepted addr is_write Phase.prefetch_wait c h e = record {
    same_backing = refl;
    same_latency = refl;
    remaining_lt = h.remaining_lt;
    remaining_le = h.remaining_le;
    busy = rw e refl;
  }

  Accepted-IsTimed : {c c' : Cache M} → IsTimed c → Accepted c c' → IsTimed c'
  Accepted-IsTimed h a = record {
    backing = subst Valid (sym a.same_backing) h.backing;
    latency_gt = ground (arith, h.latency_gt, a.same_latency);
    latency_lt = ground (arith, h.latency_lt, a.same_latency);
    latency_le = ground (arith, h.latency_le, a.same_latency);
    remaining_lt = a.remaining_lt;
    remaining_le = a.remaining_le;
  }

  -- Accepting a request does not make the wait longer.
  start-left :
      (addr : ℕ) (is_write : Bool) (q : Phase) (c : Cache M)
      → IsTimed c
      → c.phase ≡ q
      → cache_left (start M addr is_write q c) ≤ cache_left c
  unfolding start
  start-left addr is_write Phase.idle c h e =
      let a = accept-Accepted addr is_write c h in
      let t = Accepted-IsTimed h a in
      let c' = accept M addr is_write c in
      let now = ap (λ q. phase_left q (left c.backing) c.hit_remaining) e in
      omega (
        arith,
        now,
        busy-left c'.phase (left c'.backing) c'.hit_remaining a.busy
            (p.left_le c'.backing t.backing) a.remaining_le,
      )
  start-left addr is_write Phase.hit_wait c h e = omega arith
  start-left addr is_write Phase.write_back c h e = omega arith
  start-left addr is_write Phase.miss_fetch c h e = omega arith
  start-left addr is_write Phase.prefetch_wait c h e = omega arith

  service-backing :
      (c : Cache M)
      → (service_prefetch M c).backing
        ≡ (if c.pf_active then M.tick (M.ready c.backing c.pf_addr false).1 else c.backing)
  unfolding service_prefetch
  service-backing c =
      ground (arith, finish-backing (record c { backing = (M.ready c.backing c.pf_addr false).1 }))

  asked_Valid : (m : M.State) (a : ℕ) (w : Bool) → Valid m → Valid (M.tick (M.ready m a w).1)
  asked_Valid m a w v = p.tick_Valid (M.ready m a w).1 (p.ready_Valid m a w v)

  service-Valid : (c : Cache M) → Valid c.backing → Valid (service_prefetch M c).backing
  service-Valid c v =
      subst Valid (sym (service-backing c))
        (either c.pf_active (asked_Valid c.backing c.pf_addr false v))
    where
      either : (b : Bool) {m : M.State} → Valid m → Valid (if b then m else c.backing)
      either true h = h
      either false h = v

  service-IsTimed : (c : Cache M) → IsTimed c → IsTimed (service_prefetch M c)
  service-IsTimed c h = record {
    backing = service-Valid c h.backing;
    latency_gt = ground (arith, service-request c, h.latency_gt);
    latency_lt = ground (arith, service-request c, h.latency_lt);
    latency_le = ground (arith, service-request c, h.latency_le);
    remaining_lt = ground (arith, service-request c, h.remaining_lt);
    remaining_le = ground (arith, service-request c, h.remaining_le);
  }

  -- A phase in which the backing port is asked and clocked.
  module _ (c : Cache M) (h : IsTimed c) where
    write_back-backing :
        (tick_phase M Phase.write_back c).backing ≡ M.tick (M.ready c.backing c.wb_addr true).1
    unfolding tick_phase
    write_back-backing = refl

    miss_fetch-backing :
        (tick_phase M Phase.miss_fetch c).backing ≡ M.tick (M.ready c.backing c.cur_addr false).1
    unfolding tick_phase fill
    miss_fetch-backing = ground arith

    prefetch_wait-backing :
        (tick_phase M Phase.prefetch_wait c).backing ≡ M.tick (M.ready c.backing c.cur_addr false).1
    unfolding tick_phase fill
    prefetch_wait-backing = ground arith

    -- A hit counts down, or is released.
    abbrev counted : Bool → Cache M
    counted b =
        if b
        then record c { hit_remaining = c.hit_remaining - 1 }
        else record c { phase = Phase.idle }

    counted-IsTimed : (b : Bool) → IsTimed (counted b)
    counted-IsTimed true = record {
      backing = h.backing;
      latency_gt = h.latency_gt;
      latency_lt = h.latency_lt;
      latency_le = h.latency_le;
      remaining_lt = omega (arith, h.remaining_lt);
      remaining_le = omega (arith, h.remaining_le);
    }
    counted-IsTimed false = record {
      backing = h.backing;
      latency_gt = h.latency_gt;
      latency_lt = h.latency_lt;
      latency_le = h.latency_le;
      remaining_lt = h.remaining_lt;
      remaining_le = h.remaining_le;
    }

    tick_phase-IsTimed : (q : Phase) → IsTimed (tick_phase M q c)
    unfolding tick_phase fill
    tick_phase-IsTimed Phase.idle = service-IsTimed c h
    tick_phase-IsTimed Phase.hit_wait =
        service-IsTimed (counted (is_positive c.hit_remaining))
          (counted-IsTimed (is_positive c.hit_remaining))
    tick_phase-IsTimed Phase.write_back = record {
      backing = asked_Valid c.backing c.wb_addr true h.backing;
      latency_gt = h.latency_gt;
      latency_lt = h.latency_lt;
      latency_le = h.latency_le;
      remaining_lt = h.remaining_lt;
      remaining_le = h.remaining_le;
    }
    tick_phase-IsTimed Phase.miss_fetch = record {
      backing =
          subst Valid (sym miss_fetch-backing) (asked_Valid c.backing c.cur_addr false h.backing);
      latency_gt = ground (arith, h.latency_gt);
      latency_lt = ground (arith, h.latency_lt);
      latency_le = ground (arith, h.latency_le);
      remaining_lt = ground (arith, h.latency_gt, h.latency_lt, h.remaining_lt);
      remaining_le = ground (arith, h.latency_gt, h.latency_lt, h.latency_le, h.remaining_le);
    }
    tick_phase-IsTimed Phase.prefetch_wait = record {
      backing =
          subst Valid (sym prefetch_wait-backing)
            (asked_Valid c.backing c.cur_addr false h.backing);
      latency_gt = ground (arith, h.latency_gt);
      latency_lt = ground (arith, h.latency_lt);
      latency_le = ground (arith, h.latency_le);
      remaining_lt = ground (arith, h.latency_gt, h.latency_lt, h.remaining_lt);
      remaining_le = ground (arith, h.latency_gt, h.latency_lt, h.latency_le, h.remaining_le);
    }

    -- A cycle of a request that is not served shortens the wait.
    tick_phase-left :
        (q : Phase)
        → c.phase ≡ q
        → is_busy q ≡ true
        → serves M q c.hit_remaining ≡ false
        → cache_left (tick_phase M q c) < phase_left q (left c.backing) c.hit_remaining
    unfolding tick_phase fill serves
    tick_phase-left Phase.idle e b s = cc
    tick_phase-left Phase.hit_wait e b s =
        ground (
          arith,
          h.remaining_lt,
          service-request (record c { hit_remaining = c.hit_remaining - 1 }),
        )
    tick_phase-left Phase.write_back e b s =
        let m = M.tick (M.ready c.backing c.wb_addr true).1 in
        ground (
          arith,
          p.waits c.backing c.wb_addr true h.backing,
          p.left_le m (asked_Valid c.backing c.wb_addr true h.backing),
        )
    tick_phase-left Phase.miss_fetch e b s = ground (
      arith,
      p.waits c.backing c.cur_addr false h.backing,
      h.latency_gt,
      h.latency_lt,
      h.latency_le,
    )
    tick_phase-left Phase.prefetch_wait e b s = ground (
      arith,
      p.waits c.backing c.cur_addr false h.backing,
      h.latency_gt,
      h.latency_lt,
      h.latency_le,
    )

  backed :
      (c : Cache M) (o : Option M.State) {c' : Cache M}
      → IsTimed c
      → ((m : M.State) → o ≡ some m → Valid m)
      → Option.map (with_backing M c) o ≡ some c'
      → IsTimed c'
  backed c none h k e = cc
  backed c (some m) {c'} h k e =
      let same : with_backing M c m ≡ c' = cc in
      rw (← same) (record {
        backing = k m refl;
        latency_gt = h.latency_gt;
        latency_lt = h.latency_lt;
        latency_le = h.latency_le;
        remaining_lt = h.remaining_lt;
        remaining_le = h.remaining_le;
      })

  ready-IsTimed : (c : Cache M) (a : ℕ) (w : Bool) → IsTimed c → IsTimed (ready M c a w).1
  unfolding ready
  ready-IsTimed c a w h = Accepted-IsTimed h (start-Accepted a w c.phase c h refl)

  wait-left :
      (c : Cache M) (a : ℕ) (w : Bool)
      → IsTimed c
      → (ready M c a w).0 ≡ false
      → cache_left (tick M (ready M c a w).1) < cache_left c
  unfolding ready tick
  wait-left c a w h e =
      let c' = start M a w c.phase c in
      let acc = start-Accepted a w c.phase c h refl in
      let shorter = tick_phase-left c' (Accepted-IsTimed h acc) c'.phase refl acc.busy e in
      omega (arith, shorter, start-left a w c.phase c h refl)

  -- A cache on a port that answers any request within `bound` cycles answers any request too, within
  -- the cycles of a write-back, a fetch and a hit.
  pub cache_memory-IsPrompt : IsPrompt (cache_memory M) IsTimed cache_left (2 * bound + hit + 3)
  unfolding tick
  cache_memory-IsPrompt = record {
    left_le = λ c h.
        longest c.phase (left c.backing) c.hit_remaining (p.left_le c.backing h.backing)
          h.remaining_le;
    ready_Valid = ready-IsTimed;
    tick_Valid = λ c h. tick_phase-IsTimed c h c.phase;
    word_Valid = λ c a v h e.
        backed c (M.store_word c.backing a v) h (λ m k. p.word_Valid c.backing a v h.backing k) e;
    half_Valid = λ c a v h e.
        backed c (M.store_half c.backing a v) h (λ m k. p.half_Valid c.backing a v h.backing k) e;
    byte_Valid = λ c a v h e.
        backed c (M.store_byte c.backing a v) h (λ m k. p.byte_Valid c.backing a v h.backing k) e;
    waits = wait-left;
  }
    where
      longest :
          (q : Phase) (behind n : ℕ)
          → behind ≤ bound
          → n ≤ hit
          → phase_left q behind n ≤ 2 * bound + hit + 3
      longest Phase.idle behind n b k = omega arith
      longest Phase.hit_wait behind n b k = omega arith
      longest Phase.write_back behind n b k = omega arith
      longest Phase.miss_fetch behind n b k = omega arith
      longest Phase.prefetch_wait behind n b k = omega arith

-- A cache on a flat memory of a latency up to `bound` + 1, when both latencies and what is left of
-- them are below 2 ^ 31 and the latencies not 0, answers a caller that asks on every cycle,
-- for any address and from any phase, after at most twice `bound` and `hit` + 3 cycles: the rest of
-- what it is at, a write-back, a fetch and a hit of at most `hit` cycles.
pub cache-answers :
    (bound hit a : ℕ) (w : Bool) (c : Cache flat_memory)
    → IsTimed (flat_memory-IsPrompt bound) hit c
    → (n : ℕ) × (n ≤ 2 * bound + hit + 3)
      × ((ready flat_memory (waited (cache_memory flat_memory) a w n c) a w).0 ≡ true)
cache-answers bound hit a w c h =
    answers (cache_memory flat_memory) a w (cache_memory-IsPrompt (flat_memory-IsPrompt bound) hit)
      c h
