-- ===== src/Predictor.antt =====
-- `BranchPredictor` of src/uarch/branch_predictor.cpp: a direct-mapped, tagged branch target buffer
-- and a table of 2-bit saturating counters, both indexed by the word address.
pub mod Laws
mod Tests
use cpu_sim.Base.{
  ℕ, zero, suc, ◌+◌, ◌-◌, ◌*◌, ◌/◌, ◌≤◌, ◌<◌, Bool, true, false, not, ◌&&◌, ◌||◌, bit_and,
}
use cpu_sim.Base.{List, ltb, leb, ◌==◌, if◌then◌else◌, get_or, set, replicate, shr}

pub record BtbEntry : Type 0 where
  pub valid : Bool
  pub tag : ℕ
  pub target : ℕ
  pub cond : Bool

abbrev pub empty_entry : BtbEntry
empty_entry = record { valid = false; tag = 0; target = 0; cond = false }

pub record BranchPredictor : Type 0 where
  pub bht : List ℕ
  pub bht_mask : ℕ
  pub btb : List BtbEntry
  pub btb_mask : ℕ
  pub btb_index_bits : ℕ

-- `while (v > 1) { v >>= 1; ++n; }`; the value halves, so `v` rounds are enough.
unfoldable pub log2_loop : ℕ → ℕ → ℕ → ℕ
log2_loop zero v n = n
log2_loop (suc fuel) v n = let rest = log2_loop fuel (v / 2) (n + 1) in if ltb 1 v then rest else n

unfoldable pub log2_exact : ℕ → ℕ
unfolding log2_loop
log2_exact v = log2_loop v v 0

-- The assertion of `log2_exact`, and that of `TreePlru` on the number of ways.
unfoldable pub is_power_of_two : ℕ → Bool
is_power_of_two v = not (v == 0) && bit_and v (v - 1) == 0

-- The assertion of the constructor.
unfoldable pub accepts : ℕ → Bool
unfolding is_power_of_two
accepts btb_entries = is_power_of_two btb_entries

-- The constructor behind its assertion. The counters start weakly not-taken.
unfoldable pub create : ℕ → ℕ → BranchPredictor
unfolding log2_exact
create bht_entries btb_entries = record {
  bht = replicate bht_entries 1;
  bht_mask = bht_entries - 1;
  btb = replicate btb_entries empty_entry;
  btb_mask = btb_entries - 1;
  btb_index_bits = log2_exact btb_entries;
}

unfoldable pub bht_index : BranchPredictor → ℕ → ℕ
bht_index p pc = bit_and (shr pc 2) p.bht_mask

unfoldable pub btb_index : BranchPredictor → ℕ → ℕ
btb_index p pc = bit_and (shr pc 2) p.btb_mask

unfoldable pub btb_tag : BranchPredictor → ℕ → ℕ
btb_tag p pc = shr (shr pc 2) p.btb_index_bits

pub record Prediction : Type 0 where
  pub taken : Bool
  pub target : ℕ

unfoldable pub predict : BranchPredictor → ℕ → Prediction
predict p pc =
    let e = get_or p.btb (btb_index p pc) empty_entry in
    if not e.valid || not (e.tag == btb_tag p pc)
    then record { taken = false; target = 0 }
    else record {
      taken = if e.cond then leb 2 (get_or p.bht (bht_index p pc) 0) else true;
      target = e.target;
    }

-- `if (taken) { if (c < 3) ++c; } else { if (c > 0) --c; }`
unfoldable pub saturate : Bool → ℕ → ℕ
saturate true c = if ltb c 3 then c + 1 else c
saturate false c = if ltb 0 c then c - 1 else c

unfoldable pub update : BranchPredictor → ℕ → Bool → Bool → ℕ → BranchPredictor
unfolding saturate
update p pc is_cond taken target = record p {
  bht =
      if is_cond
      then set p.bht (bht_index p pc) (saturate taken (get_or p.bht (bht_index p pc) 0))
      else p.bht;
  btb =
      set p.btb (btb_index p pc)
        (record { valid = true; tag = btb_tag p pc; target = target; cond = is_cond });
}
