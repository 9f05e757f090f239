-- ===== src/Raid/RoundTrip.antt =====
-- A block's way to RAM B and back (crates/trust-kernel/src/ram_raid.rs: `evict_coldest`,
-- `restore_block`, `restore_block_inner`), over the in-memory block store.
use text.Mathlib.TextPositions.{eq_refl}
use spaceshuttle.Prelude.{
  ℕ, ◌≡◌, refl, true, false, List, ◌∷◌, Option, none, some, String, arith, ap, ◌∙◌, [], unwrap_or,
  length, length-set, length-replicate, get_elem?, get_elem?_lt, get_elem?-set_self, set, add64,
  sub64,
}
use spaceshuttle.Prelude.Text.{format, decimal}
use spaceshuttle.Cluster.BlockStore
use spaceshuttle.Cluster.BlockStore.{BlockStore, StoredBlock, served, lookup, lookup-insert, fetch}
use spaceshuttle.Raid.Types.{
  RaidBlock, BlockLocation, remote_kernel, FaultResult, restored_remote, EvictionResult,
  evicted_remote,
}
use spaceshuttle.Raid.Simulated.{simulate_zstd_compress}
use spaceshuttle.Raid.Controller.{RamRaid}
use spaceshuttle.Raid.Evict.{simulated_data, block_seal, goes_remote, evict_dirty}
use spaceshuttle.Raid.Restore.{
  brought_in, accept_remote, bring_remote, hash_matches, fetch_from_store, restore_block,
  restore_found,
}

length-simulated_data : (b : RaidBlock) → length (simulated_data b) ≡ b.size
unfolding simulated_data
length-simulated_data b = length-replicate b.size 42

-- Any controller with a block store and no network client is of this form.
abbrev pub over_store : RamRaid → BlockStore → RamRaid
over_store r store = record r { mux_client = none; local_block_store = some store }

module _ (sha256_hex : List ℕ → String) where
  -- What RAM B holds for `idx` after the eviction of block `b`.
  abbrev pub sent_copy : RamRaid → ℕ → RaidBlock → StoredBlock
  sent_copy r idx b = record {
    block_index = idx;
    data_bytes = simulated_data b;
    content_hash = sha256_hex (simulated_data b);
    ed25519_seal = block_seal (simulated_data b);
    raw_size = b.size;
    stored_by = r.config.from_aint;
    bus_seq = r.bus_seq;
    access_count = 0;
  }

  accept_same :
      (r : RamRaid) (idx : ℕ) (b : RaidBlock) (now_ns : ℕ) (contents : List ℕ)
      → b.content_hash ≡ some (sha256_hex contents)
      → accept_remote sha256_hex r idx b now_ns contents
        ≡ (bring_remote r idx b now_ns (length contents), restored_remote idx)
  unfolding accept_remote
  accept_same r idx b now_ns contents hash = rw (passes hash)
    where
      passes :
          {h : Option String}
          → h ≡ some (sha256_hex contents)
          → hash_matches sha256_hex h contents ≡ true
      passes e = rw e (eq_refl (sha256_hex contents))

  found_remote :
      (r : RamRaid) (store : BlockStore) (idx : ℕ) (b : RaidBlock) (now_ns : ℕ)
      (place : BlockLocation) {kernel_id endpoint fork_token_id : String}
      → place ≡ remote_kernel kernel_id endpoint fork_token_id
      → restore_found sha256_hex place (over_store r store) idx b now_ns
        ≡ fetch_from_store sha256_hex
            (over_store (record r { bus_seq = add64 r.bus_seq 1 }) store)
            idx
            b
            now_ns
            (fetch store idx)
  unfolding restore_found
  found_remote r store idx b now_ns place e = rw e

  -- The store after it has served `stored` for `idx`.
  abbrev handed : BlockStore → ℕ → StoredBlock → BlockStore
  handed store idx stored = record store {
    blocks = BlockStore.insert idx (served stored) store.blocks;
    blocks_served = add64 store.blocks_served 1;
  }

  fetch_held :
      (store : BlockStore) (idx : ℕ) (stored : StoredBlock)
      → lookup idx store.blocks ≡ some stored
      → fetch store idx ≡ (handed store idx stored, some (served stored))
  unfolding fetch
  fetch_held store idx stored holds = rw (holds, fetch)

  -- A remote block whose recorded hash is that of the stored bytes comes back with no error.
  restore-remote :
      (r : RamRaid) (store : BlockStore) (idx : ℕ) (b : RaidBlock) (stored : StoredBlock)
      (now_ns : ℕ) {kernel_id endpoint fork_token_id : String}
      → get_elem? r.blocks idx ≡ some b
      → b.location ≡ remote_kernel kernel_id endpoint fork_token_id
      → lookup idx store.blocks ≡ some stored
      → b.content_hash ≡ some (sha256_hex stored.data_bytes)
      → restore_block sha256_hex (over_store r store) idx now_ns ≡ (
        bring_remote
            (over_store (record r { bus_seq = add64 r.bus_seq 1 }) (handed store idx stored))
            idx
            b
            now_ns
            (length stored.data_bytes),
        restored_remote idx,
      )
  unfolding restore_block fetch_from_store
  restore-remote r store idx b stored now_ns at location holds hash =
      rw (at, restore_block)
        (found_remote r store idx b now_ns b.location location
          ∙ (rw (fetch_held store idx stored holds)
              (accept_same _ idx b now_ns stored.data_bytes hash)))

  -- The eviction of a dirty block that belongs on RAM B.
  abbrev pub sent_block : RamRaid → RaidBlock → RaidBlock
  sent_block r b = record b {
    location =
        remote_kernel (unwrap_or r.config.ram_b_kernel_id "") (unwrap_or r.config.ram_b_endpoint "")
          (format ("raid_fork_remote_" ∷ decimal r.bus_seq ∷ []));
    content_hash = some (sha256_hex (simulated_data b));
    seal = some (block_seal (simulated_data b));
    dirty = false;
  }

  abbrev kept_store : RamRaid → BlockStore → ℕ → RaidBlock → BlockStore
  kept_store r store idx b =
      BlockStore.store store idx (simulated_data b) (sha256_hex (simulated_data b))
        (block_seal (simulated_data b)) b.size r.config.from_aint r.bus_seq

  -- The controller after the eviction, over its block store.
  abbrev sent : RamRaid → ℕ → RaidBlock → RamRaid
  sent r idx b = record r {
    blocks = set r.blocks idx (sent_block r b);
    resident_count = sub64 r.resident_count 1;
    evictions_performed = add64 r.evictions_performed 1;
    bytes_compressed = add64 r.bytes_compressed b.size;
    remote_transfers = add64 r.remote_transfers 1;
    bus_seq = add64 r.bus_seq 1;
  }

  evict_dirty-sent :
      (r : RamRaid) (store : BlockStore) (idx : ℕ) (b : RaidBlock)
      → goes_remote r b ≡ true
      → evict_dirty sha256_hex (over_store r store) idx b ≡ (
        over_store (sent r idx b) (kept_store r store idx b),
        evicted_remote idx (length (simulate_zstd_compress (simulated_data b))),
      )
  unfolding evict_dirty
  evict_dirty-sent r store idx b remote = rw remote

  kept_holds :
      (r : RamRaid) (store : BlockStore) (idx : ℕ) (b : RaidBlock)
      → lookup idx (kept_store r store idx b).blocks ≡ some (sent_copy r idx b)
  unfolding BlockStore.store
  kept_holds r store idx b =
      rw (lookup-insert idx idx (sent_copy r idx b) store.blocks) (ground arith)

  restored_after :
      (r : RamRaid) (store : BlockStore) (idx now_ns : ℕ) (b : RaidBlock)
      → get_elem? r.blocks idx ≡ some b
      → goes_remote r b ≡ true
      → restore_block sha256_hex (evict_dirty sha256_hex (over_store r store) idx b).0 idx now_ns
        ≡ (
          bring_remote
              (over_store
                (record (sent r idx b) { bus_seq = add64 (add64 r.bus_seq 1) 1 })
                (handed (kept_store r store idx b) idx (sent_copy r idx b)))
              idx
              (sent_block r b)
              now_ns
              b.size,
          restored_remote idx,
        )
  restored_after r store idx now_ns b at remote = rw (evict_dirty-sent r store idx b remote) (
      restore-remote (sent r idx b) (kept_store r store idx b) idx (sent_block r b)
        (sent_copy r idx b) now_ns
        (get_elem?-set_self r.blocks idx (sent_block r b) (get_elem?_lt r.blocks idx at)) refl
        (kept_holds r store idx b) refl
      ∙ rw (length-simulated_data b))

  -- On a controller with a block store and no client, a block of the table that belongs on RAM B
  -- is evicted as dirty, and a restore right after brings it back: the fetched bytes pass the
  -- integrity check against the hash recorded at the eviction, the block is resident and clean and
  -- keeps that hash, and its size is added to the bytes restored.
  pub evict-restore :
      (r : RamRaid) (store : BlockStore) (idx now_ns : ℕ) (b : RaidBlock)
      → get_elem? r.blocks idx ≡ some b
      → goes_remote r b ≡ true
      → let (s, evicted) = evict_dirty sha256_hex (over_store r store) idx b in
        let (t, restored) = restore_block sha256_hex s idx now_ns in
        (evicted ≡ evicted_remote idx (length (simulate_zstd_compress (simulated_data b))))
        × (restored ≡ restored_remote idx)
        × (get_elem? t.blocks idx ≡ some (brought_in (sent_block r b) now_ns))
        × (t.bytes_decompressed ≡ add64 r.bytes_decompressed b.size)
  unfolding bring_remote
  evict-restore r store idx now_ns b at remote =
      let back = restored_after r store idx now_ns b at remote in
      (
        ap (λ (t : RamRaid × EvictionResult). t.1) (evict_dirty-sent r store idx b remote),
        ap (λ (t : RamRaid × FaultResult). t.1) back,
        ap (λ (t : RamRaid × FaultResult). get_elem? t.0.blocks idx) back
            ∙ get_elem?-set_self (set r.blocks idx (sent_block r b)) idx _
                (rw (length-set r.blocks idx (sent_block r b)) (get_elem?_lt r.blocks idx at)),
        ap (λ (t : RamRaid × FaultResult). t.0.bytes_decompressed) back,
      )
