-- ===== src/Memory/Cache/Data.antt =====
-- The cache passes on data as it is: only the clock of the backing memory advances.
use cpu_sim.Base.{
  ℕ, ◌-◌, Bool, true, false, ◌≡◌, refl, arith, ap, ◌∙◌, add32, value_or, is_some, is_positive,
  if◌then◌else◌,
}
use cpu_sim.Memory.Interface.{IMemory}
use cpu_sim.Memory.Transparency.{IsTimingOnly}
use cpu_sim.Memory.Cache.{
  Cache, Phase, cache_memory, queue_prefetch, maybe_start_prefetch, finish_prefetch, tick_backing,
  service_prefetch, on_miss, accept, start, ready, fill, tick_phase, tick,
}
use cpu_sim.Memory.Tags.{count_useful, find_way, line_addr_of, index_of}

module _ {M : IMemory} where
  keeps-if {ℓ} :
      {A : Type ℓ} (f : M.State → A) (b : Bool) (x y : Cache M) {z : A}
      → f x.backing ≡ z
      → f y.backing ≡ z
      → f (if b then x else y).backing ≡ z
  keeps-if f true x y h g = h
  keeps-if f false x y h g = g

  queue-backing :
      (target chain : ℕ) (c : Cache M) → (queue_prefetch M target chain c).backing ≡ c.backing
  unfolding queue_prefetch
  queue-backing target chain c = ground arith

  pub maybe_start-backing :
      (addr : ℕ) (c : Cache M) → (maybe_start_prefetch M addr c).backing ≡ c.backing
  unfolding maybe_start_prefetch
  maybe_start-backing addr c =
      ground (arith, queue-backing (add32 (line_addr_of c.tags addr) (value_or 0 c.pf_policy)) 1 c)

  pub finish-backing : (c : Cache M) → (finish_prefetch M c).backing ≡ c.backing
  unfolding finish_prefetch
  finish-backing c = ground arith

  on_miss-backing : (s : ℕ) (c : Cache M) → (on_miss M s c).backing ≡ c.backing
  unfolding on_miss
  on_miss-backing s c = ground arith

  pub accept-backing :
      (addr : ℕ) (is_write : Bool) (c : Cache M) → (accept M addr is_write c).backing ≡ c.backing
  unfolding accept
  accept-backing addr is_write c =
      let fed = record c {
        cur_addr = addr;
        cur_is_write = is_write;
        last_hit = is_some (find_way c.tags addr);
      } in
      let same = maybe_start-backing addr fed in
      ground (arith, same, on_miss-backing (index_of c.tags addr) (maybe_start_prefetch M addr fed))

  pub start-backing :
      (addr : ℕ) (is_write : Bool) (p : Phase) (c : Cache M)
      → (start M addr is_write p c).backing ≡ c.backing
  unfolding start
  start-backing addr is_write Phase.idle c = accept-backing addr is_write c
  start-backing addr is_write Phase.hit_wait c = refl
  start-backing addr is_write Phase.write_back c = refl
  start-backing addr is_write Phase.miss_fetch c = refl
  start-backing addr is_write Phase.prefetch_wait c = refl

  module _ {ℓ} {A : Type ℓ} {view : M.State → A} (h : IsTimingOnly M view) where
    -- A request that is asked and clocked.
    ticked :
        (m : M.State) (addr : ℕ) (w : Bool) (x : Cache M)
        → x.backing ≡ (M.ready m addr w).1
        → view (M.tick x.backing) ≡ view m
    ticked m addr w x e = h.tick_keeps x.backing ∙ ap view e ∙ h.ready_keeps m addr w

    service-view : (c : Cache M) → view (service_prefetch M c).backing ≡ view c.backing
    unfolding service_prefetch
    service-view c =
        let r = M.ready c.backing c.pf_addr false in
        let asked = record c { backing = r.1 } in
        let served = if r.0 then finish_prefetch M asked else asked in
        keeps-if view c.pf_active (tick_backing M served) c
          (ticked c.backing c.pf_addr false served
            (keeps-if (λ m. m) r.0 (finish_prefetch M asked) asked (finish-backing asked) refl))
          refl

    tick_phase-view : (p : Phase) (c : Cache M) → view (tick_phase M p c).backing ≡ view c.backing
    unfolding tick_phase fill
    tick_phase-view Phase.idle c = service-view c
    tick_phase-view Phase.hit_wait c =
        let waits = record c { hit_remaining = c.hit_remaining - 1 } in
        let released = record c { phase = Phase.idle } in
        service-view (if is_positive c.hit_remaining then waits else released)
        ∙ keeps-if view (is_positive c.hit_remaining) waits released refl refl
    tick_phase-view Phase.write_back c =
        ticked c.backing c.wb_addr true
          (record c { backing = (M.ready c.backing c.wb_addr true).1 }) refl
    tick_phase-view Phase.miss_fetch c =
        let r = M.ready c.backing c.cur_addr false in
        let asked = record c { backing = r.1 } in
        ticked c.backing c.cur_addr false (if r.0 then fill M asked else asked)
          (keeps-if (λ m. m) r.0 (fill M asked) asked refl refl)
    tick_phase-view Phase.prefetch_wait c =
        let r = M.ready c.backing c.cur_addr false in
        let asked = record c { backing = r.1 } in
        let merged = fill M asked in
        let done = record merged {
          tags = record (merged.tags) { stats = count_useful merged.tags.stats };
          pf_active = false;
        } in
        ticked c.backing c.cur_addr false (if r.0 then done else asked)
          (keeps-if (λ m. m) r.0 done asked refl refl)

    -- A cache on a memory that keeps its data while it is asked and clocked keeps them too, so what a
    -- core loads does not depend on the caches in between.
    pub cache_memory-IsTimingOnly : IsTimingOnly (cache_memory M) (λ c. view c.backing)
    unfolding ready tick
    cache_memory-IsTimingOnly = record {
      ready_keeps = λ c addr is_write. ap view (start-backing addr is_write c.phase c);
      tick_keeps = λ c. tick_phase-view c.phase c;
    }
