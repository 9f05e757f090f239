-- ===== src/Raid/Batch.antt =====
-- crates/trust-kernel/src/ram_raid.rs: `simulate_read_batch`, `batch_restore_remote`, `prefetch`.
use spaceshuttle.Prelude.{
  ℕ, zero, suc, ◌+◌, ◌-◌, Bool, true, false, not, List, [], ◌∷◌, ◌++◌, map, none, some, String,
  if◌then◌else◌, length, get_elem?, set, count_if, add64,
}
use spaceshuttle.Prelude.Text.{format}
use spaceshuttle.Cluster.MuxClient.{ok, err, fetch_batch}
use spaceshuttle.Raid.Types.{
  RaidBlock, BlockLocation, resident, local_store, remote_kernel, fetching, virgin, FaultResult,
  already_resident, restored_local, restored_remote, zero_filled, evicted_then_restored, failed,
  panicked,
}
use spaceshuttle.Raid.Controller.{RamRaid, resides}
use spaceshuttle.Raid.Evict.{evict_coldest}
use spaceshuttle.Raid.Restore.{zero_fill, bring_remote, hash_matches, mismatch, restore_block}
use spaceshuttle.Raid.Workload.{touched}

-- `matches!(r, FaultResult::Failed { .. })`
abbrev pub is_failed : FaultResult → Bool
is_failed (failed _ _) = true
is_failed (already_resident _) = false
is_failed (restored_local _) = false
is_failed (restored_remote _) = false
is_failed (zero_filled _) = false
is_failed (evicted_then_restored _ _) = false
is_failed panicked = false

-- The four lists of the partition by location.
pub record Partition : Type 0 where
  pub already : List ℕ
  pub local : List ℕ
  pub remote : List ℕ
  pub fresh : List ℕ

unfoldable pub file_under : BlockLocation → ℕ → Partition → Partition
file_under resident idx p = record p { already = idx ∷ p.already }
file_under (local_store _ _) idx p = record p { local = idx ∷ p.local }
file_under (remote_kernel _ _ _) idx p = record p { remote = idx ∷ p.remote }
file_under virgin idx p = record p { fresh = idx ∷ p.fresh }
file_under fetching idx p = p

-- An index out of range is skipped. The lists keep the order of the indices.
unfoldable pub partition : List RaidBlock → List ℕ → Partition
unfolding file_under
partition blocks [] = record { already = []; local = []; remote = []; fresh = [] }
partition blocks (idx ∷ rest) = elim (get_elem? blocks idx) [
  | none ↦ partition blocks rest
  | some b ↦ file_under b.location idx (partition blocks rest)
]

-- A loop over indices that pushes one result for each.
unfoldable pub each :
    (RamRaid → ℕ → RamRaid × FaultResult) → RamRaid → List ℕ → RamRaid × List FaultResult
each step r [] = (r, [])
each step r (idx ∷ rest) =
    let (r', result) = step r idx in
    let (r'', results) = each step r' rest in (r'', result ∷ results)

-- The body of the loop over the blocks that were resident.
unfoldable pub touch_one : ℕ → RamRaid → ℕ → RamRaid × FaultResult
touch_one now_ns r idx = elim (get_elem? r.blocks idx) [
  | none ↦ (r, panicked)
  | some b ↦ (record r { blocks = set r.blocks idx (touched b now_ns) }, already_resident idx)
]

-- The body of the loop over the virgin blocks.
unfoldable pub fill_one : ℕ → RamRaid → ℕ → RamRaid × FaultResult
unfolding zero_fill
fill_one now_ns r idx = elim (get_elem? r.blocks idx) [
  | none ↦ (r, panicked)
  | some b ↦ (zero_fill r idx b now_ns, zero_filled idx)
]

-- `(block_index, bus_seq_base + i)`
unfoldable pub requests : ℕ → List ℕ → List (ℕ × ℕ)
requests seq [] = []
requests seq (idx ∷ rest) = (idx, seq) ∷ requests (add64 seq 1) rest

module _ (sha256_hex : List ℕ → String) where
  unfoldable pub accept_one : ℕ → RamRaid → ℕ × List ℕ → RamRaid × FaultResult
  unfolding hash_matches mismatch bring_remote
  accept_one now_ns r (idx, received) = elim (get_elem? r.blocks idx) [
    | none ↦ (r, panicked)
    | some b ↦
        if hash_matches sha256_hex b.content_hash received
        then (bring_remote r idx b now_ns (length received), restored_remote idx)
        else (
          r,
          failed idx
              (mismatch sha256_hex "Batch integrity failed: expected " b.content_hash received),
        )
  ]

  -- The loop over what a batch fetched.
  unfoldable pub accept_all : ℕ → RamRaid → List (ℕ × List ℕ) → RamRaid × List FaultResult
  unfolding accept_one
  accept_all now_ns r [] = (r, [])
  accept_all now_ns r (block ∷ rest) =
      let (r', result) = accept_one now_ns r block in
      let (r'', results) = accept_all now_ns r' rest in (r'', result ∷ results)

  unfoldable pub batch_restore_remote : RamRaid → List ℕ → ℕ → RamRaid × List FaultResult
  unfolding requests fetch_batch accept_all each restore_block
  batch_restore_remote r indices now_ns =
      let r' = record r { bus_seq = add64 r.bus_seq (length indices) } in
      elim r.mux_client [
        | some client ↦ elim (fetch_batch client (requests r.bus_seq indices)) [
          | ok fetched ↦ accept_all now_ns r' fetched
          | err e ↦ (r', map (λ idx. failed idx (format ("Batch fetch failed: " ∷ e ∷ []))) indices)
        ]
        | none ↦ each (λ s idx. restore_block sha256_hex s idx now_ns) r' indices
      ]

  -- Evictions whose results are dropped.
  unfoldable pub make_room : ℕ → RamRaid → RamRaid
  unfolding evict_coldest
  make_room zero r = r
  make_room (suc n) r = make_room n (evict_coldest sha256_hex r).0

  -- `total_to_restore.saturating_sub(max.saturating_sub(resident))`
  unfoldable pub need_slots : RamRaid → Partition → ℕ
  need_slots r p =
      length p.local
      + length p.remote
      + length p.fresh
      - (r.config.max_resident_blocks - r.resident_count)

  unfoldable pub batch_remote : RamRaid → List ℕ → ℕ → RamRaid × List FaultResult
  unfolding batch_restore_remote
  batch_remote r [] now_ns = (r, [])
  batch_remote r (idx ∷ rest) now_ns = batch_restore_remote r (idx ∷ rest) now_ns

  unfoldable pub simulate_read_batch : RamRaid → List ℕ → ℕ → RamRaid × List FaultResult
  unfolding partition make_room need_slots each touch_one fill_one restore_block batch_remote
  simulate_read_batch r indices now_ns =
      let p = partition r.blocks indices in
      let r₀ = make_room (need_slots r p) r in
      let (r₁, seen) = each (touch_one now_ns) r₀ p.already in
      let (r₂, filled) = each (fill_one now_ns) r₁ p.fresh in
      let (r₃, restored) = each (λ s idx. restore_block sha256_hex s idx now_ns) r₂ p.local in
      let (r₄, received) = batch_remote r₃ p.remote now_ns in
      (r₄, seen ++ (filled ++ (restored ++ received)))

  -- In range and not resident.
  unfoldable pub to_prefetch : List RaidBlock → List ℕ → List ℕ
  to_prefetch blocks [] = []
  to_prefetch blocks (idx ∷ rest) =
      let others = to_prefetch blocks rest in
      elim (get_elem? blocks idx) [
        | none ↦ others
        | some b ↦ if resides b then others else idx ∷ others
      ]

  unfoldable pub prefetch : RamRaid → List ℕ → ℕ → RamRaid × ℕ
  unfolding to_prefetch simulate_read_batch
  prefetch r indices now_ns = elim (to_prefetch r.blocks indices) [
    | [] ↦ (r, 0)
    | idx ∷ rest ↦
        let (r', results) = simulate_read_batch r (idx ∷ rest) now_ns in
        (r', count_if (λ result. not (is_failed result)) results)
  ]
