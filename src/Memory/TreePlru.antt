-- ===== src/Memory/TreePlru.antt =====
-- `TreePlru` of src/memory/tree_plru.cpp: tree pseudo-LRU replacement. Each set has a perfect binary
-- tree of direction bits in heap order, node 1 at the root; `ways` is a power of two.
pub mod Laws
use cpu_sim.Base.{ℕ, zero, suc, ◌+◌, ◌-◌, ◌*◌, ◌/◌, List, ltb, ◌==◌, if◌then◌else◌}
use cpu_sim.Base.{get_or, set, replicate}

pub record TreePlru : Type 0 where
  pub ways : ℕ
  pub bits : List ℕ

unfoldable pub create : ℕ → ℕ → TreePlru
create sets ways = record { ways = ways; bits = replicate (sets * ways) 0 }

-- `while (i < ways_) i = 2 * i + bits_[base + i];`
unfoldable pub descend : ℕ → ℕ → List ℕ → ℕ → ℕ → ℕ
descend zero ways bits base i = i
descend (suc fuel) ways bits base i =
    let next = descend fuel ways bits base (2 * i + get_or bits (base + i) 0) in
    if ltb i ways then next else i

-- The index doubles on each round, so `ways` rounds are enough.
unfoldable pub victim : TreePlru → ℕ → ℕ
unfolding descend
victim p s = descend p.ways p.ways p.bits (s * p.ways) 1 - p.ways

-- `while (i > 1) { … }`: each node on the way up points away from where the walk came from.
unfoldable pub ascend : ℕ → ℕ → List ℕ → ℕ → List ℕ
ascend zero base bits i = bits
ascend (suc fuel) base bits i =
    let parent = i / 2 in
    let up =
      ascend fuel base (set bits (base + parent) (if i == 2 * parent then 1 else 0)) parent in
    if ltb 1 i then up else bits

unfoldable pub touch : TreePlru → ℕ → ℕ → TreePlru
unfolding ascend
touch p s way = record p { bits = ascend (way + p.ways) (s * p.ways) p.bits (way + p.ways) }
