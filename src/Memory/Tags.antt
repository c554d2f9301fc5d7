-- ===== src/Memory/Tags.antt =====
-- The tag store of `Cache` of src/memory/cache.cpp: its geometry, its lines, its replacement policy
-- and the prefetch outcomes that it counts. The constructor asserts that the geometry is powers of
-- two.
pub mod Laws
pub mod Address
pub mod Tests
pub mod Ways
use cpu_sim.Base.{
  ℕ, zero, suc, ◌+◌, ◌-◌, ◌*◌, ◌^◌, ◌%◌, Bool, true, false, not, ◌&&◌, Option, none, some,
}
use cpu_sim.Base.{
  List, ltb, ◌==◌, if◌then◌else◌, get_or, set, replicate, value_or, shr, shl32, bit_and, bit_or,
}
use mathlib.Core.Option
use cpu_sim.Memory.TreePlru.{TreePlru}
use cpu_sim.Memory.TreePlru
use cpu_sim.Predictor.{log2_exact, is_power_of_two}
use cpu_sim.Sim.Stats.{increment}

pub record Line : Type 0 where
  pub valid : Bool
  pub dirty : Bool
  pub prefetched : Bool
  pub tag : ℕ

abbrev pub empty_line : Line
empty_line = record { valid = false; dirty = false; prefetched = false; tag = 0 }

-- The counters of `SimStats` that only the cache writes.
pub record PrefetchStats : Type 0 where
  pub useful : ℕ
  pub useless : ℕ

pub record Tags : Type 0 where
  pub offset_bits : ℕ
  pub index_bits : ℕ
  pub index_mask : ℕ
  pub ways : ℕ
  pub lines : List Line
  pub repl : TreePlru
  pub stats : Option PrefetchStats

-- The assertions of `log2_exact` and of `TreePlru` in the constructor.
unfoldable pub accepts : ℕ → ℕ → ℕ → Bool
unfolding is_power_of_two
accepts line_bytes sets ways =
    is_power_of_two line_bytes && is_power_of_two sets && is_power_of_two ways

-- The constructor behind its assertions.
unfoldable pub create : ℕ → ℕ → ℕ → Option PrefetchStats → Tags
create line_bytes sets ways stats = record {
  offset_bits = log2_exact line_bytes;
  index_bits = log2_exact sets;
  index_mask = sets - 1;
  ways = ways;
  lines = replicate (sets * ways) empty_line;
  repl = TreePlru.create sets ways;
  stats = stats;
}

unfoldable pub index_of : Tags → ℕ → ℕ
index_of t addr = bit_and (shr addr t.offset_bits) t.index_mask

unfoldable pub tag_of : Tags → ℕ → ℕ
tag_of t addr = shr addr (t.offset_bits + t.index_bits)

-- `addr & ~((1u << offset_bits_) - 1u)`.
unfoldable pub line_addr_of : Tags → ℕ → ℕ
line_addr_of t addr = bit_and addr (2 ^ 32 - 1 - (shl32 1 t.offset_bits - 1))

unfoldable pub addr_of : Tags → ℕ → ℕ → ℕ
addr_of t s tag = bit_or (shl32 tag (t.offset_bits + t.index_bits)) (shl32 s t.offset_bits)

unfoldable pub line_at : Tags → ℕ → ℕ → Line
line_at t s way = get_or t.lines (s * t.ways + way) empty_line

unfoldable pub set_line : Tags → ℕ → ℕ → Line → Tags
set_line t s way l = record t { lines = set t.lines (s * t.ways + way) l }

-- The first of `n` ways from `w` on that passes a test: `for (unsigned w = 0; w < ways_; ++w)`.
unfoldable pub first_way : (ℕ → Bool) → ℕ → ℕ → Option ℕ
first_way test w zero = none
first_way test w (suc n) = let rest = first_way test (w + 1) n in if test w then some w else rest

-- -1 is `none`.
unfoldable pub find_way : Tags → ℕ → Option ℕ
unfolding index_of tag_of line_at first_way
find_way t addr =
    let s = index_of t addr in
    first_way (λ w. (line_at t s w).valid && (line_at t s w).tag == tag_of t addr) 0 t.ways

unfoldable pub choose_victim : Tags → ℕ → ℕ
unfolding line_at first_way
choose_victim t s =
    value_or (TreePlru.victim t.repl s) (first_way (λ w. not (line_at t s w).valid) 0 t.ways)

abbrev pub count_useless : Option PrefetchStats → Option PrefetchStats
count_useless = Option.map {A = PrefetchStats} (λ s. record s { useless = increment s.useless })

abbrev pub count_useful : Option PrefetchStats → Option PrefetchStats
count_useful = Option.map {A = PrefetchStats} (λ s. record s { useful = increment s.useful })

-- `install_line`: the counter first, then the line, then the policy.
unfoldable pub install_line : ℕ → ℕ → ℕ → Bool → Bool → Tags → Tags
unfolding line_at set_line tag_of
install_line s way addr is_write from_prefetch t =
    let l = line_at t s way in
    let counted = record t {
      stats = if l.valid && l.prefetched then count_useless t.stats else t.stats;
    } in
    let filled = set_line counted s way (record {
      valid = true;
      dirty = is_write;
      prefetched = from_prefetch;
      tag = tag_of t addr;
    }) in
    record filled { repl = TreePlru.touch filled.repl s way }

-- What a hit does to its line: a store dirties it, and the first use of a prefetched one is counted.
unfoldable pub use_line : ℕ → ℕ → Bool → Tags → Tags
unfolding line_at set_line
use_line s way is_write t =
    let l = line_at t s way in
    let used =
      set_line t s way
        (record l { dirty = if is_write then true else l.dirty; prefetched = false }) in
    record used {
      stats = if l.prefetched then count_useful t.stats else t.stats;
      repl = TreePlru.touch t.repl s way;
    }

-- Whether the engine, which cannot write back, may fill a way.
unfoldable pub may_fill : Tags → ℕ → ℕ → Bool
unfolding line_at
may_fill t s way = not ((line_at t s way).valid && (line_at t s way).dirty)
