-- ===== src/Memory/Tags/Laws.antt =====
-- The tag store keeps at most one copy of a line, and a fill makes its address hit.
use cpu_sim.Base.{ℕ, suc, ◌+◌, ◌-◌, ◌*◌, ◌/◌, ◌^◌, ◌<◌, ◌≡◌, refl, arith, ◌∙◌}
use cpu_sim.Base.{
  Bool, true, false, ◌==◌, ◌&&◌, if◌then◌else◌, Option, none, some, length, get_or-set, length-set,
  length-replicate, get_or-replicate,
}
use cpu_sim.Base.Bits.{bit_and_mask}
use cpu_sim.Memory.Tags.{
  Tags, PrefetchStats, Line, create, empty_line, index_of, tag_of, line_at, set_line, find_way,
  install_line,
}
use cpu_sim.Memory.Tags.Ways.{first_way-first, first_way-none}
use native.Mathlib.Nat.{mul-le-mul_right, one-le-pow, mod-lt, suc-mul}

-- 2 ^ k sets; no tag twice in a set.
pub record IsValid (t : Tags) (k : ℕ) : Type 0 where
  pub mask : t.index_mask ≡ 2 ^ k - 1
  pub size : length t.lines ≡ 2 ^ k * t.ways
  pub unique :
      (s v w : ℕ)
      → s < 2 ^ k
      → v < t.ways
      → w < t.ways
      → (line_at t s v).valid ≡ true
      → (line_at t s w).valid ≡ true
      → (line_at t s v).tag ≡ (line_at t s w).tag
      → v ≡ w

-- An empty tag store is valid.
pub create-IsValid :
    (line_bytes k ways : ℕ) (stats : Option PrefetchStats)
    → IsValid (create line_bytes (2 ^ k) ways stats) k
unfolding create line_at
create-IsValid line_bytes k ways stats = record {
  mask = refl;
  size = length-replicate (2 ^ k * ways) empty_line;
  unique = λ s v w a b c p q same.
      ground (arith, get_or-replicate (2 ^ k * ways) (s * ways + v) empty_line, p);
}

-- Rows of the same length do not overlap.
place-lt : (n r s w : ℕ) → w < n → s < r → s * n + w < r * n
place-lt n r s w a b = omega (arith, mul-le-mul_right {m = suc s} {n = r} n b, suc-mul s n)

place-injective : (n s r v w : ℕ) → v < n → w < n → s * n + v ≡ r * n + w → (s ≡ r) × (v ≡ w)
place-injective n s r v w a b e = ground (arith, place-lt n r s v a, place-lt n s r w b)

module _ {t : Tags} {k : ℕ} (h : IsValid t k) where
  index_of-lt : (addr : ℕ) → index_of t addr < 2 ^ k
  unfolding index_of
  index_of-lt addr = rw h.mask (
      omega (
        arith,
        bit_and_mask k (addr / 2 ^ t.offset_bits),
        mod-lt (addr / 2 ^ t.offset_bits) (one-le-pow k 2 (omega arith)),
      ))

  -- What stands at a way after a line is put into one.
  line_at-set_line :
      (s r v w : ℕ) (l : Line)
      → s < 2 ^ k
      → v < t.ways
      → w < t.ways
      → line_at (set_line t s v l) r w ≡ (if (s == r) && (v == w) then l else line_at t r w)
  unfolding line_at set_line
  line_at-set_line s r v w l a b c = ground (
    arith,
    get_or-set t.lines (s * t.ways + v) (r * t.ways + w) l empty_line,
    place-lt t.ways (2 ^ k) s v b a,
    place-injective t.ways s r v w b c,
    h.size,
  )

  -- Only the ways that the tags of the set name hit.
  find_way-none :
      (addr w : ℕ)
      → find_way t addr ≡ none
      → w < t.ways
      → ((line_at t (index_of t addr) w).valid
          && ((line_at t (index_of t addr) w).tag == tag_of t addr))
        ≡ false
  unfolding find_way
  find_way-none addr w e b = first_way-none _ 0 t.ways w e (omega arith) (omega arith)

  module _ (addr way : ℕ) (is_write from_prefetch : Bool) (in_range : way < t.ways) where
    abbrev installed : Tags
    installed = install_line (index_of t addr) way addr is_write from_prefetch t

    line_at-install :
        (r w : ℕ)
        → w < t.ways
        → line_at installed r w ≡ (
            if (index_of t addr == r) && (way == w)
            then record {
              valid = true;
              dirty = is_write;
              prefetched = from_prefetch;
              tag = tag_of t addr;
            }
            else line_at t r w)
    unfolding install_line line_at set_line
    line_at-install r w b =
        line_at-set_line (index_of t addr) r way w _ (index_of-lt addr) in_range b

    -- In a valid tag store, the address of a line that is filled into a way of its set hits in that way,
    -- when it has missed before.
    pub find_way-install : find_way t addr ≡ none → find_way installed addr ≡ some way
    unfolding find_way install_line
    find_way-install e =
        first_way-first _ 0 t.ways way (omega arith) (omega arith)
          (ground (arith, line_at-install (index_of t addr) way in_range))
          (λ i b c. ground (
            arith,
            line_at-install (index_of t addr) i (omega arith),
            find_way-none addr i e (omega arith),
          ))

    -- Filling a line that has missed into a way of its set keeps a valid tag store valid: no line stands
    -- twice in its set.
    pub install-IsValid : find_way t addr ≡ none → IsValid installed k
    unfolding install_line set_line
    install-IsValid e = record {
      mask = h.mask;
      size = length-set t.lines (index_of t addr * t.ways + way) _ ∙ h.size;
      unique = λ r v w a b c p q same. ground (
        arith,
        line_at-install r v b,
        line_at-install r w c,
        h.unique r v w a b c,
        find_way-none addr v e b,
        find_way-none addr w e c,
      );
    }
