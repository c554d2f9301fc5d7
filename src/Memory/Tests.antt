-- ===== src/Memory/Tests.antt =====
-- The memories at concrete states.
use cpu_sim.Base.{ℕ, ◌+◌, ◌<◌, ◌≤◌, ◌≡◌, ◌≢◌, ◌⊎◌, ◌==◌, refl, arith, false, some}
use cpu_sim.Base.{get_or, get_or-replicate, replicate}
use cpu_sim.Memory.FlatMem.{FlatMem, load_word, load_byte, store_word, ready}
use cpu_sim.Memory.FlatMem.Data.{IsValid, load_word-store_word}
use cpu_sim.Memory.FlatMem.Timing.{wait, ready-wait}
use cpu_sim.Memory.TreePlru.{TreePlru, victim, touch}
use cpu_sim.Memory.TreePlru.Laws
use cpu_sim.Memory.TreePlru.Laws.{victim-touch, victim-lt}

abbrev small : FlatMem
small = record { base = 0x100; mem = replicate 16 0; latency = 3; serving = false; remaining = 0 }

zeros : (i : ℕ) → get_or {A = ℕ} (replicate 16 0) i 0 ≡ 0
zeros i = get_or-replicate 16 i 0

small-IsValid : IsValid small
small-IsValid = record { bytes = λ i. rw (zeros i) (omega arith); slow = omega arith }

load_word-store_word_example :
    (m' : FlatMem) × (store_word small 0x104 0xdeadbeef ≡ some m')
    × (load_word m' 0x104 ≡ some 0xdeadbeef)
    × ((b : ℕ) → (b < 0x104) ⊎ (0x104 + 4 ≤ b) → load_byte m' b ≡ load_byte small b)
    × IsValid m'
load_word-store_word_example =
    load_word-store_word small 0x104 0xdeadbeef small-IsValid (omega arith, omega arith)
      (omega arith)

ready-wait_example :
    ((ready (wait 0x104 false 2 small) 0x104 false).0 ≡ (2 + 1 == 3))
    × ((wait 0x104 false 2 small).mem ≡ small.mem)
    × ((wait 0x104 false 3 small).serving ≡ false)
ready-wait_example = ready-wait 0x104 false 2 small refl (omega arith) (omega arith)

abbrev four_ways : TreePlru
four_ways = record { ways = 4; bits = replicate 8 0 }

four_ways_zeros : (i : ℕ) → get_or {A = ℕ} (replicate 8 0) i 0 ≡ 0
four_ways_zeros i = get_or-replicate 8 i 0

four_ways-IsValid : Laws.IsValid four_ways 2 2
four_ways-IsValid = record {
  perfect = refl;
  binary = λ i. rw (four_ways_zeros i) (omega arith);
  size = refl;
}

victim-touch_example : victim (touch four_ways 1 3) 1 ≢ 3
victim-touch_example = victim-touch 1 3 four_ways-IsValid (omega arith) (omega arith)

victim-lt_example : victim four_ways 1 < 4
victim-lt_example = victim-lt four_ways-IsValid 1
