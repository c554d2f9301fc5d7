-- ===== src/Memory/Cache/Timing.antt =====
-- How long a hit takes.
use cpu_sim.Base.{
  ℕ, zero, suc, ◌+◌, ◌-◌, ◌^◌, ◌<◌, ◌≡◌, refl, arith, sym, ap, ◌∙◌, Bool, false, some,
}
use cpu_sim.Base.{add32, value_or, is_some, ◌==◌}
use mathlib.Core.Path.{subst}
use cpu_sim.Memory.Interface.{IMemory}
use cpu_sim.Memory.Cache.{
  Cache, Phase, queue_prefetch, maybe_start_prefetch, finish_prefetch, service_prefetch, on_hit,
  accept, start, serves, ready, tick_phase, tick,
}
use cpu_sim.Memory.Tags.{find_way, line_addr_of}

module _ {M : IMemory} where
  -- What the engine leaves alone: the request that is being served.
  abbrev pub request : Cache M → Phase × ℕ × ℕ
  request c = (c.phase, c.hit_remaining, c.hit_latency)

  queue-request :
      (target chain : ℕ) (c : Cache M) → request (queue_prefetch M target chain c) ≡ request c
  unfolding queue_prefetch
  queue-request target chain c = ground arith

  pub maybe_start-request :
      (addr : ℕ) (c : Cache M) → request (maybe_start_prefetch M addr c) ≡ request c
  unfolding maybe_start_prefetch
  maybe_start-request addr c =
      ground (arith, queue-request (add32 (line_addr_of c.tags addr) (value_or 0 c.pf_policy)) 1 c)

  finish-request : (c : Cache M) → request (finish_prefetch M c) ≡ request c
  unfolding finish_prefetch
  finish-request c = ground arith

  pub service-request : (c : Cache M) → request (service_prefetch M c) ≡ request c
  unfolding service_prefetch
  service-request c =
      ground (arith, finish-request (record c { backing = (M.ready c.backing c.pf_addr false).1 }))

  -- A hit that is being served, with `n` cycles to go.
  abbrev Serving : ℕ → ℕ → Cache M → Type 0
  Serving latency n c =
      (c.phase ≡ Phase.hit_wait) × (c.hit_remaining ≡ n) × (c.hit_latency ≡ latency)

  accept-Serving :
      (addr way : ℕ) (is_write : Bool) (c : Cache M)
      → find_way c.tags addr ≡ some way
      → 0 < c.hit_latency
      → c.hit_latency < 2 ^ 31
      → Serving c.hit_latency (c.hit_latency - 1) (accept M addr is_write c)
  unfolding accept on_hit
  accept-Serving addr way is_write c e pos int =
      let same = maybe_start-request addr (record c {
        cur_addr = addr;
        cur_is_write = is_write;
        last_hit = is_some (find_way c.tags addr);
      }) in
      ground (arith, same, e, pos, int)

  ready-Serving :
      (latency n addr : ℕ) (is_write : Bool) (c : Cache M)
      → Serving latency n c
      → ((ready M c addr is_write).1 ≡ c) × ((ready M c addr is_write).0 ≡ (n == 0))
  unfolding ready start serves
  ready-Serving latency n addr is_write c s = rw (s.0, s.1) (refl, refl)

  tick-Serving :
      (latency n : ℕ) (c : Cache M)
      → suc n < 2 ^ 31
      → Serving latency (suc n) c
      → Serving latency n (tick M c)
  unfolding tick tick_phase
  tick-Serving latency n c int s =
      ground (arith, s, service-request (record c { hit_remaining = c.hit_remaining - 1 }))

  release : (latency : ℕ) (c : Cache M) → Serving latency 0 c → (tick M c).phase ≡ Phase.idle
  unfolding tick tick_phase
  release latency c s = ground (arith, s, service-request (record c { phase = Phase.idle }))

  ready-idle :
      (addr : ℕ) (is_write : Bool) (c : Cache M)
      → c.phase ≡ Phase.idle
      → ready M c addr is_write
        ≡ (let a = accept M addr is_write c in (serves M a.phase a.hit_remaining, a))
  unfolding ready start
  ready-idle addr is_write c i =
      ap (λ p. let a = start M addr is_write p c in (serves M a.phase a.hit_remaining, a)) i

  serves-Serving :
      (latency n : ℕ) (c : Cache M)
      → Serving latency n c
      → serves M c.phase c.hit_remaining ≡ (n == 0)
  unfolding serves
  serves-Serving latency n c s = rw (s.0, s.1) refl

  -- The first request of an idle cache.
  first :
      (addr way : ℕ) (is_write : Bool) (c : Cache M)
      → c.phase ≡ Phase.idle
      → find_way c.tags addr ≡ some way
      → 0 < c.hit_latency
      → c.hit_latency < 2 ^ 31
      → Serving c.hit_latency (c.hit_latency - 1) (ready M c addr is_write).1
        × ((ready M c addr is_write).0 ≡ (c.hit_latency - 1 == 0))
  first addr way is_write c i e pos int =
      let a = accept-Serving addr way is_write c e pos int in
      subst (λ r. Serving c.hit_latency (c.hit_latency - 1) r.1 × (r.0 ≡ (c.hit_latency - 1 == 0)))
        (sym (ready-idle addr is_write c i))
        (a, serves-Serving c.hit_latency (c.hit_latency - 1) (accept M addr is_write c) a)

  module _ (addr : ℕ) (is_write : Bool) where
    -- One cycle of a caller that waits: `ready`, then `tick`.
    abbrev pub wait : ℕ → Cache M → Cache M
    wait zero c = c
    wait (suc n) c = let before = wait n c in tick M (ready M before addr is_write).1

    asked :
        (way n : ℕ) (c : Cache M)
        → c.phase ≡ Phase.idle
        → find_way c.tags addr ≡ some way
        → n < c.hit_latency
        → c.hit_latency < 2 ^ 31
        → Serving c.hit_latency (c.hit_latency - 1 - n) (ready M (wait n c) addr is_write).1
          × ((ready M (wait n c) addr is_write).0 ≡ (n + 1 == c.hit_latency))
    asked way zero c i e h int = ground (arith, first addr way is_write c i e h int)
    asked way (suc n) c i e h int =
        let before = asked way n c i e (omega arith) int in
        let s : Serving c.hit_latency (c.hit_latency - 1 - suc n) (wait (suc n) c) =
          tick-Serving c.hit_latency (c.hit_latency - 1 - suc n)
            (ready M (wait n c) addr is_write).1 (omega arith)
            (subst (λ k. Serving c.hit_latency k (ready M (wait n c) addr is_write).1) (omega arith)
              before.0) in
        let r =
          ready-Serving c.hit_latency (c.hit_latency - 1 - suc n) addr is_write (wait (suc n) c)
            s in
        (rw r.0 s, r.1 ∙ ground arith)

    -- A caller that asks an idle cache on every cycle for an address that is resident is answered for
    -- the first time on the last of `hit_latency` cycles, at most 2 ^ 31 - 1, and after that cycle the cache is idle again,
    -- whatever the prefetch engine does meanwhile.
    pub hit-wait :
        (way n : ℕ) (c : Cache M)
        → c.phase ≡ Phase.idle
        → find_way c.tags addr ≡ some way
        → n < c.hit_latency
        → c.hit_latency < 2 ^ 31
        → ((ready M (wait n c) addr is_write).0 ≡ (n + 1 == c.hit_latency))
          × ((wait c.hit_latency c).phase ≡ Phase.idle)
    hit-wait way n c i e h int =
        let last = c.hit_latency - 1 in
        let s = asked way last c i e (omega arith) int in
        let whole : suc last ≡ c.hit_latency = omega arith in
        let none_left : c.hit_latency - 1 - last ≡ 0 = omega arith in
        (
          (asked way n c i e h int).1,
          subst (λ k. (wait k c).phase ≡ Phase.idle) whole
              (release c.hit_latency (ready M (wait last c) addr is_write).1 (
                subst (λ k. Serving c.hit_latency k (ready M (wait last c) addr is_write).1)
                  none_left s.0)),
        )
