-- ===== src/Raid/Fault.antt =====
-- crates/trust-kernel/src/ram_raid.rs: `handle_fault` and `handle_fault_production`.
use spaceshuttle.Prelude.{ℕ, List, [], ◌∷◌, Option, none, some, String, leb, if◌then◌else◌, length}
use spaceshuttle.Prelude.Text.{format, decimal}
use spaceshuttle.Raid.Types.{
  FaultResult, evicted_then_restored, failed, EvictionResult, evicted_local, evicted_remote,
  dropped, nothing_to_evict, eviction_failed, eviction_panicked,
}
use spaceshuttle.Raid.Controller.{RamRaid, block_index_for_addr}
use spaceshuttle.Raid.Evict.{evict_coldest}
use spaceshuttle.Raid.Restore.{restore_block, restore_block_inner}

-- The block whose slot an eviction freed.
abbrev pub freed : EvictionResult → Option ℕ
freed (evicted_local i _) = some i
freed (evicted_remote i _) = some i
freed (dropped i) = some i
freed nothing_to_evict = none
freed (eviction_failed _ _) = none
freed eviction_panicked = none

abbrev pub out_of_range : ℕ → ℕ → String
out_of_range idx count =
    format ("Block index " ∷ decimal idx ∷ " out of range (max " ∷ decimal count ∷ ")" ∷ [])

module _ (sha256_hex : List ℕ → String) where
  -- After an eviction the restore is made, and its result is not looked at.
  unfoldable pub restore_after : RamRaid × EvictionResult → ℕ → ℕ → RamRaid × FaultResult
  unfolding restore_block
  restore_after (r, eviction) idx now_ns = elim (freed eviction) [
    | none ↦ (r, failed idx "Cannot evict block to make room")
    | some evicted ↦ ((restore_block sha256_hex r idx now_ns).0, evicted_then_restored evicted idx)
  ]

  unfoldable pub handle_fault : RamRaid → ℕ → ℕ → RamRaid × FaultResult
  unfolding restore_after evict_coldest block_index_for_addr
  handle_fault r fault_addr now_ns =
      let idx = block_index_for_addr r fault_addr in
      if leb (length r.blocks) idx
      then (r, failed idx (out_of_range idx (length r.blocks)))
      else if leb r.config.max_resident_blocks r.resident_count
      then restore_after (evict_coldest sha256_hex r) idx now_ns
      else restore_block sha256_hex r idx now_ns

  -- Here the eviction's result is not looked at, and the restore is made in any case.
  unfoldable pub handle_fault_production : RamRaid → ℕ → ℕ → RamRaid × FaultResult × List ℕ
  unfolding evict_coldest restore_block_inner block_index_for_addr
  handle_fault_production r fault_addr now_ns =
      let idx = block_index_for_addr r fault_addr in
      if leb (length r.blocks) idx
      then (r, failed idx (format ("Block index " ∷ decimal idx ∷ " out of range" ∷ [])), [])
      else if leb r.config.max_resident_blocks r.resident_count
      then restore_block_inner sha256_hex (evict_coldest sha256_hex r).0 idx now_ns
      else restore_block_inner sha256_hex r idx now_ns
