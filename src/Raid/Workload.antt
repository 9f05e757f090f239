-- ===== src/Raid/Workload.antt =====
-- crates/trust-kernel/src/ram_raid.rs: `simulate_write`, `simulate_read` and `proactive_evict`.
use spaceshuttle.Prelude.{
  ℕ, zero, suc, ◌-◌, ◌*◌, ◌/◌, Bool, true, false, List, [], ◌∷◌, none, some, String, ltb,
  if◌then◌else◌, get_elem?, set, add64,
}
use spaceshuttle.Prelude.Text.{format, decimal}
use spaceshuttle.Raid.Types.{
  RaidBlock, resident, FaultResult, already_resident, failed, EvictionResult, evicted_local,
  evicted_remote, dropped, nothing_to_evict, eviction_failed, eviction_panicked,
}
use spaceshuttle.Raid.Controller.{RamRaid, resides}
use spaceshuttle.Raid.Evict.{evict_coldest}
use spaceshuttle.Raid.Fault.{handle_fault}

-- The block that a write leaves; the hash names the write's number.
unfoldable pub written : RaidBlock → ℕ → ℕ → RaidBlock
written b idx now_ns =
    let count = add64 b.write_count 1 in
    record b {
      location = resident;
      dirty = true;
      write_count = count;
      access_count = add64 b.access_count 1;
      last_access_ns = now_ns;
      content_hash =
          some (format ("sha256:dirty_block_" ∷ decimal idx ∷ "_write_" ∷ decimal count ∷ []));
    }

unfoldable pub simulate_write : RamRaid → ℕ → ℕ → RamRaid
unfolding written
simulate_write r idx now_ns = elim (get_elem? r.blocks idx) [
  | none ↦ r
  | some b ↦ record r {
    blocks = set r.blocks idx (written b idx now_ns);
    resident_count = if resides b then r.resident_count else add64 r.resident_count 1;
  }
]

-- The block that a read of a resident block leaves.
abbrev pub touched : RaidBlock → ℕ → RaidBlock
touched b now_ns = record b { access_count = add64 b.access_count 1; last_access_ns = now_ns }

abbrev pub is_nothing : EvictionResult → Bool
is_nothing nothing_to_evict = true
is_nothing (evicted_local _ _) = false
is_nothing (evicted_remote _ _) = false
is_nothing (dropped _) = false
is_nothing (eviction_failed _ _) = false
is_nothing eviction_panicked = false

-- After one round of the loop, `rest` runs the others, unless nothing was left to evict.
unfoldable pub next_round :
    (RamRaid → RamRaid × List EvictionResult)
    → RamRaid × EvictionResult
    → RamRaid × List EvictionResult
next_round rest (r, result) = elim (is_nothing result) [
  | true ↦ (r, [])
  | false ↦ let (r', results) = rest r in (r', result ∷ results)
]

-- `now_ns` is the clock at the read and at the fault that it may cause.
module _ (sha256_hex : List ℕ → String) where
  unfoldable pub simulate_read : RamRaid → ℕ → ℕ → RamRaid × FaultResult
  unfolding handle_fault
  simulate_read r idx now_ns = elim (get_elem? r.blocks idx) [
    | none ↦ (r, failed idx "Out of range")
    | some b ↦
        if resides b
        then (record r { blocks = set r.blocks idx (touched b now_ns) }, already_resident idx)
        else handle_fault sha256_hex r (idx * r.config.block_size) now_ns
  ]

  -- The loop stops when nothing is left to evict; a failed eviction counts as a round.
  unfoldable pub evict_rounds : ℕ → RamRaid → RamRaid × List EvictionResult
  unfolding next_round evict_coldest
  evict_rounds zero r = (r, [])
  evict_rounds (suc n) r = next_round (evict_rounds n) (evict_coldest sha256_hex r)

  -- `utilization < 75.0` and `(max * 0.6) as usize`: resident / max * 100 against 75, and 0.6 * max,
  -- are the same in exact arithmetic for counts below 2 ^ 50. With `max` 0 the quotient is no number
  -- below 75, and the code goes on.
  unfoldable pub proactive_evict : RamRaid → RamRaid × List EvictionResult
  unfolding evict_rounds
  proactive_evict r =
      if ltb (4 * r.resident_count) (3 * r.config.max_resident_blocks)
      then (r, [])
      else evict_rounds (r.resident_count - 3 * r.config.max_resident_blocks / 5) r
