-- ===== src/Raid/Evict.antt =====
-- crates/trust-kernel/src/ram_raid.rs: `evict_coldest`.
-- `sha256_hex` is the digest of the sha2 crate (cluster_transport.rs formats it in hexadecimal).
use spaceshuttle.Prelude.{
  ℕ, zero, suc, ◌+◌, ◌%◌, Bool, false, ◌&&◌, List, [], ◌∷◌, Option, none, some, String, ltb, ◌==◌,
  if◌then◌else◌, is_some, unwrap_or, length, get_elem?, set, replicate, add64, sub64,
}
use spaceshuttle.Prelude.Text.{format, decimal, bytes}
use spaceshuttle.Cluster.BlockStore
use spaceshuttle.Cluster.BlockStore.{BlockStore}
use spaceshuttle.Cluster.MuxClient.{ClusterMuxClient, MuxResult, ok, err}
use spaceshuttle.Raid.Types.{
  RaidBlock, is_ram_b, local_store, remote_kernel, virgin, EvictionResult, evicted_local,
  evicted_remote, dropped, nothing_to_evict, eviction_failed, eviction_panicked,
}
use spaceshuttle.Raid.Simulated.{simulate_sha256, simulate_ed25519_sign, simulate_zstd_compress}
use spaceshuttle.Raid.Controller.{RamRaid, resides}

abbrev pub u64_max : ℕ
u64_max = 18446744073709551615

-- `(coldest_idx, coldest_access)`
abbrev pub Coldest : Type 0
Coldest = Option ℕ × ℕ

-- One round of the scan: a resident block with fewer accesses replaces the candidate.
unfoldable pub colder : List RaidBlock → ℕ → Coldest → Coldest
colder blocks idx best = elim (get_elem? blocks idx) [
  | none ↦ best
  | some b ↦ if resides b && ltb b.access_count best.1 then (some idx, b.access_count) else best
]

-- `for i in i..i + n`, with `idx = (start + i) % block_count`.
unfoldable pub scan : List RaidBlock → ℕ → ℕ → ℕ → Coldest → Coldest
scan blocks start i zero best = best
scan blocks start i (suc n) best =
    scan blocks start (suc i) n (colder blocks ((start + i) % length blocks) best)

unfoldable pub find_coldest : List RaidBlock → ℕ → Option ℕ
find_coldest blocks lru_clock =
    (scan blocks (lru_clock % length blocks) 0 (length blocks) (none, u64_max)).0

-- A clean block is dropped: it is taken to have its .tza already, or never to have been written.
unfoldable pub drop_clean : RamRaid → ℕ → RaidBlock → RamRaid × EvictionResult
drop_clean r idx b = (
  record r {
    blocks = set r.blocks idx (record b {
      location =
          if is_some b.content_hash
          then local_store (format ("/var/lib/airlock/raid/block_" ∷ decimal idx ∷ ".tza" ∷ []))
              (format ("raid_fork_" ∷ decimal idx ∷ []))
          else virgin;
    });
    resident_count = sub64 r.resident_count 1;
    evictions_performed = add64 r.evictions_performed 1;
  },
  dropped idx,
)

-- The state after a dirty block has left for RAM B.
unfoldable pub sent_remote : RamRaid → ℕ → RaidBlock → String → String → ℕ → RamRaid
sent_remote r idx b real_hash seal seq = record r {
  blocks = set r.blocks idx (record b {
    location =
        remote_kernel (unwrap_or r.config.ram_b_kernel_id "") (unwrap_or r.config.ram_b_endpoint "")
          (format ("raid_fork_remote_" ∷ decimal seq ∷ []));
    content_hash = some real_hash;
    seal = some seal;
    dirty = false;
  });
  resident_count = sub64 r.resident_count 1;
  evictions_performed = add64 r.evictions_performed 1;
  bytes_compressed = add64 r.bytes_compressed b.size;
  remote_transfers = add64 r.remote_transfers 1;
}

unfoldable pub store_local : RamRaid → ℕ → RaidBlock → String → String → ℕ → RamRaid
store_local r idx b content_hash seal seq = record r {
  blocks = set r.blocks idx (record b {
    location =
        local_store
          (format
            ("/var/lib/airlock/raid/block_" ∷ decimal idx ∷ "_seq" ∷ decimal seq ∷ ".tza" ∷ []))
          (format ("raid_fork_local_" ∷ decimal seq ∷ []));
    content_hash = some content_hash;
    seal = some seal;
    dirty = false;
  });
  resident_count = sub64 r.resident_count 1;
  evictions_performed = add64 r.evictions_performed 1;
  bytes_compressed = add64 r.bytes_compressed b.size;
}

-- `vec![42u8; block_size]`, which stands for the page's bytes in the code too.
unfoldable pub simulated_data : RaidBlock → List ℕ
simulated_data b = replicate b.size 42

unfoldable pub block_seal : List ℕ → String
block_seal contents = simulate_ed25519_sign (bytes (simulate_sha256 contents))

-- A dirty block goes to RAM B if it is of that stripe and an endpoint is configured.
unfoldable pub goes_remote : RamRaid → RaidBlock → Bool
goes_remote r b = is_some r.config.ram_b_endpoint && is_ram_b b.stripe

module _ (sha256_hex : List ℕ → String) where
  -- What follows the client's answer.
  unfoldable pub evict_over_mux :
      MuxResult (Unit {0}) → RamRaid → ℕ → RaidBlock → ℕ → RamRaid × EvictionResult
  unfolding sent_remote simulated_data block_seal
  evict_over_mux (ok _) r idx b seq =
      let contents = simulated_data b in
      (
        sent_remote r idx b (sha256_hex contents) (block_seal contents) seq,
        evicted_remote idx (length (simulate_zstd_compress contents)),
      )
  evict_over_mux (err e) r idx b seq =
      (r, eviction_failed idx (format ("Remote store failed: " ∷ e ∷ [])))

  -- Over the network client, else to the local block store, else with no transfer at all. `r` has its
  -- bus sequence advanced past `seq` already.
  unfoldable pub evict_remote :
      Option ClusterMuxClient
      → Option BlockStore
      → RamRaid
      → ℕ
      → RaidBlock
      → ℕ
      → RamRaid × EvictionResult
  unfolding evict_over_mux BlockStore.store
  evict_remote (some client) store r idx b seq =
      let contents = simulated_data b in
      evict_over_mux
        (client.store_block idx contents (sha256_hex contents) (block_seal contents) b.size seq) r
        idx b seq
  evict_remote none (some store) r idx b seq =
      let contents = simulated_data b in
      let kept =
        BlockStore.store store idx contents (sha256_hex contents) (block_seal contents) b.size
          r.config.from_aint seq in
      (
        sent_remote (record r { local_block_store = some kept }) idx b (sha256_hex contents)
            (block_seal contents) seq,
        evicted_remote idx (length (simulate_zstd_compress contents)),
      )
  evict_remote none none r idx b seq =
      let contents = simulated_data b in
      (
        sent_remote r idx b (sha256_hex contents) (block_seal contents) seq,
        evicted_remote idx (length (simulate_zstd_compress contents)),
      )

  unfoldable pub evict_dirty : RamRaid → ℕ → RaidBlock → RamRaid × EvictionResult
  unfolding evict_remote store_local goes_remote
  evict_dirty r idx b =
      let seq = r.bus_seq in
      let r' = record r { bus_seq = add64 r.bus_seq 1 } in
      if goes_remote r b
      then evict_remote r.mux_client r.local_block_store r' idx b seq
      else let contents = simulated_data b in
        (
          store_local r' idx b (simulate_sha256 contents) (block_seal contents) seq,
          evicted_local idx (length (simulate_zstd_compress contents)),
        )

  unfoldable pub evict_block : RamRaid → ℕ → RamRaid × EvictionResult
  unfolding evict_dirty drop_clean
  evict_block r idx = elim (get_elem? r.blocks idx) [
    | none ↦ (r, eviction_panicked)
    | some b ↦ if b.dirty then evict_dirty r idx b else drop_clean r idx b
  ]

  unfoldable pub evict_coldest : RamRaid → RamRaid × EvictionResult
  unfolding evict_block find_coldest scan colder
  evict_coldest r =
      if length r.blocks == 0
      then (r, nothing_to_evict)
      else elim (find_coldest r.blocks r.lru_clock) [
        | none ↦ (r, nothing_to_evict)
        | some idx ↦ evict_block (record r { lru_clock = suc idx }) idx
      ]
