-- ===== src/Raid/Restore.antt =====
-- crates/trust-kernel/src/ram_raid.rs: `restore_block` and `restore_block_inner`.
-- `now_ns` is the wall clock that the caller read.
use spaceshuttle.Prelude.{
  ℕ, Bool, true, false, List, [], ◌∷◌, Option, none, some, String, str_eq, if◌then◌else◌, length,
  get_elem?, set, replicate, add64,
}
use spaceshuttle.Prelude.Text.{format, decimal}
use spaceshuttle.Cluster.BlockStore
use spaceshuttle.Cluster.BlockStore.{BlockStore}
use spaceshuttle.Cluster.MuxClient.{ClusterMuxClient, MuxResult, ok, err}
use spaceshuttle.Raid.Types.{
  RaidBlock, BlockLocation, resident, local_store, remote_kernel, fetching, virgin, FaultResult,
  already_resident, restored_local, restored_remote, zero_filled, failed, panicked,
}
use spaceshuttle.Raid.Controller.{RamRaid}

-- A virgin block becomes resident as a zero page.
unfoldable pub zero_fill : RamRaid → ℕ → RaidBlock → ℕ → RamRaid
zero_fill r idx b now_ns = record r {
  blocks =
      set r.blocks idx
        (record b { location = resident; access_count = 1; last_access_ns = now_ns });
  resident_count = add64 r.resident_count 1;
  zero_pages_served = add64 r.zero_pages_served 1;
  faults_handled = add64 r.faults_handled 1;
}

-- The block that a restore leaves.
abbrev pub brought_in : RaidBlock → ℕ → RaidBlock
brought_in b now_ns = record b {
  location = resident;
  access_count = add64 b.access_count 1;
  last_access_ns = now_ns;
  dirty = false;
}

unfoldable pub bring_local : RamRaid → ℕ → RaidBlock → ℕ → RamRaid
bring_local r idx b now_ns = record r {
  blocks = set r.blocks idx (brought_in b now_ns);
  resident_count = add64 r.resident_count 1;
  bytes_decompressed = add64 r.bytes_decompressed b.size;
  faults_handled = add64 r.faults_handled 1;
}

unfoldable pub bring_remote : RamRaid → ℕ → RaidBlock → ℕ → ℕ → RamRaid
bring_remote r idx b now_ns received = record r {
  blocks = set r.blocks idx (brought_in b now_ns);
  resident_count = add64 r.resident_count 1;
  bytes_decompressed = add64 r.bytes_decompressed received;
  remote_transfers = add64 r.remote_transfers 1;
  faults_handled = add64 r.faults_handled 1;
}

module _ (sha256_hex : List ℕ → String) where
  -- Data with no recorded hash passes unchecked.
  unfoldable pub hash_matches : Option String → List ℕ → Bool
  hash_matches none received = true
  hash_matches (some expected) received = str_eq (sha256_hex received) expected

  unfoldable pub mismatch : String → Option String → List ℕ → String
  mismatch what none received = what
  mismatch what (some expected) received =
      format (what ∷ expected ∷ ", got " ∷ sha256_hex received ∷ [])

  -- Steps 2 to 4 of the remote path, once the data are here.
  unfoldable pub accept_remote : RamRaid → ℕ → RaidBlock → ℕ → List ℕ → RamRaid × FaultResult
  unfolding hash_matches mismatch bring_remote
  accept_remote r idx b now_ns received =
      if hash_matches b.content_hash received
      then (bring_remote r idx b now_ns (length received), restored_remote idx)
      else (r, failed idx (mismatch "Integrity check failed: expected " b.content_hash received))

  unfoldable pub fetch_from_store :
      RamRaid
      → ℕ
      → RaidBlock
      → ℕ
      → BlockStore × Option BlockStore.StoredBlock
      → RamRaid × FaultResult
  unfolding accept_remote
  fetch_from_store r idx b now_ns (store, none) = (
    record r { local_block_store = some store },
    failed idx (format ("Block " ∷ decimal idx ∷ " not found in local block store" ∷ [])),
  )
  fetch_from_store r idx b now_ns (store, some found) =
      accept_remote (record r { local_block_store = some store }) idx b now_ns found.data_bytes

  -- What follows the client's answer.
  unfoldable pub restore_over_mux :
      MuxResult (List ℕ) → RamRaid → ℕ → RaidBlock → ℕ → RamRaid × FaultResult
  unfolding accept_remote
  restore_over_mux (ok received) r idx b now_ns = accept_remote r idx b now_ns received
  restore_over_mux (err e) r idx b now_ns =
      (r, failed idx (format ("Remote fetch failed: " ∷ e ∷ [])))

  -- The network client first, else the local block store, else no transfer at all. `r` has its bus
  -- sequence advanced past `seq` already.
  unfoldable pub restore_remote :
      Option ClusterMuxClient
      → Option BlockStore
      → RamRaid
      → ℕ
      → RaidBlock
      → ℕ
      → ℕ
      → RamRaid × FaultResult
  unfolding restore_over_mux fetch_from_store BlockStore.fetch
  restore_remote (some client) store r idx b seq now_ns =
      restore_over_mux (client.fetch_block idx b.content_hash seq) r idx b now_ns
  restore_remote none (some store) r idx b seq now_ns =
      fetch_from_store r idx b now_ns (BlockStore.fetch store idx)
  restore_remote none none r idx b seq now_ns =
      (bring_remote r idx b now_ns b.size, restored_remote idx)

  unfoldable pub restore_found : BlockLocation → RamRaid → ℕ → RaidBlock → ℕ → RamRaid × FaultResult
  unfolding zero_fill bring_local restore_remote
  restore_found resident r idx b now_ns = (r, already_resident idx)
  restore_found virgin r idx b now_ns = (zero_fill r idx b now_ns, zero_filled idx)
  restore_found (local_store _ _) r idx b now_ns = (bring_local r idx b now_ns, restored_local idx)
  restore_found (remote_kernel _ _ _) r idx b now_ns =
      restore_remote r.mux_client r.local_block_store (record r { bus_seq = add64 r.bus_seq 1 }) idx
        b r.bus_seq now_ns
  restore_found fetching r idx b now_ns =
      (r, failed idx "Block already being fetched (concurrent fault)")

  unfoldable pub restore_block : RamRaid → ℕ → ℕ → RamRaid × FaultResult
  unfolding restore_found
  restore_block r idx now_ns = elim (get_elem? r.blocks idx) [
    | none ↦ (r, panicked)
    | some b ↦ restore_found b.location r idx b now_ns
  ]

  -- The production path: the result, and the bytes that are injected.
  unfoldable pub accept_inner :
      RamRaid → ℕ → RaidBlock → ℕ → List ℕ → RamRaid × FaultResult × List ℕ
  unfolding hash_matches mismatch bring_remote
  accept_inner r idx b now_ns received =
      if hash_matches b.content_hash received
      then (bring_remote r idx b now_ns (length received), restored_remote idx, received)
      else (r, failed idx (mismatch "Integrity: expected " b.content_hash received), [])

  unfoldable pub inner_over_mux :
      MuxResult (List ℕ) → RamRaid → ℕ → RaidBlock → ℕ → RamRaid × FaultResult × List ℕ
  unfolding accept_inner
  inner_over_mux (ok received) r idx b now_ns = accept_inner r idx b now_ns received
  inner_over_mux (err e) r idx b now_ns =
      (r, failed idx (format ("Remote fetch failed: " ∷ e ∷ [])), [])

  -- Without a client the block is taken to be zeros: the local block store is not asked.
  unfoldable pub remote_inner :
      Option ClusterMuxClient → RamRaid → ℕ → RaidBlock → ℕ → ℕ → RamRaid × FaultResult × List ℕ
  unfolding inner_over_mux
  remote_inner (some client) r idx b seq now_ns =
      inner_over_mux (client.fetch_block idx b.content_hash seq) r idx b now_ns
  remote_inner none r idx b seq now_ns = accept_inner r idx b now_ns (replicate b.size 0)

  -- The simulated data of a local restore are zeros.
  unfoldable pub with_zeros : ℕ → RamRaid × FaultResult → RamRaid × FaultResult × List ℕ
  with_zeros size (r, result) = (r, result, replicate size 0)

  unfoldable pub inner_found :
      BlockLocation → RamRaid → ℕ → RaidBlock → ℕ → RamRaid × FaultResult × List ℕ
  unfolding zero_fill remote_inner restore_block with_zeros
  inner_found resident r idx b now_ns = (r, already_resident idx, [])
  inner_found virgin r idx b now_ns =
      (zero_fill r idx b now_ns, zero_filled idx, replicate b.size 0)
  inner_found (local_store _ _) r idx b now_ns = with_zeros b.size (restore_block r idx now_ns)
  inner_found (remote_kernel _ _ _) r idx b now_ns =
      remote_inner r.mux_client (record r { bus_seq = add64 r.bus_seq 1 }) idx b r.bus_seq now_ns
  inner_found fetching r idx b now_ns = (r, failed idx "Already fetching", [])

  unfoldable pub restore_block_inner : RamRaid → ℕ → ℕ → RamRaid × FaultResult × List ℕ
  unfolding inner_found
  restore_block_inner r idx now_ns = elim (get_elem? r.blocks idx) [
    | none ↦ (r, panicked, [])
    | some b ↦ inner_found b.location r idx b now_ns
  ]
