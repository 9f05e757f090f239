-- ===== src/Raid/LostBlock.antt =====
-- How a block is lost (crates/trust-kernel/src/ram_raid.rs): a clean block that came back from RAM B is
-- dropped as if its .tza lay on the local disk, and the production path then injects zeros for it.
use spaceshuttle.Prelude.{
  ℕ, ◌≡◌, refl, true, List, Option, some, String, is_some, subst, get_elem?, get_elem?_lt,
  get_elem?-set_self, replicate, if◌then◌else◌,
}
use spaceshuttle.Cluster.BlockStore.{BlockStore}
use spaceshuttle.Raid.Types.{
  RaidBlock, BlockLocation, local_store, virgin, FaultResult, restored_local,
}
use spaceshuttle.Raid.Controller.{RamRaid}
use spaceshuttle.Raid.Evict.{drop_clean, goes_remote, evict_dirty}
use spaceshuttle.Raid.Restore.{
  brought_in, restore_block, restore_found, restore_block_inner, inner_found, with_zeros,
}
use spaceshuttle.Raid.RoundTrip.{over_store, sent_block, evict-restore}

-- The result is a success and the injected bytes are zeros.
abbrev pub ZerosInjected : ℕ → ℕ → RamRaid × FaultResult × List ℕ → Type 0
ZerosInjected idx size t = (t.1 ≡ restored_local idx) × (t.2 ≡ replicate size 0)

module _ (sha256_hex : List ℕ → String) (r : RamRaid) (idx : ℕ) (b : RaidBlock) (now_ns : ℕ)
    {tza_path fork_token_id : String} (at : get_elem? r.blocks idx ≡ some b) where
  local_found :
      (place : BlockLocation)
      → place ≡ local_store tza_path fork_token_id
      → (restore_found sha256_hex place r idx b now_ns).1 ≡ restored_local idx
  unfolding restore_found
  local_found place e = rw e

  local_block :
      b.location ≡ local_store tza_path fork_token_id
      → (restore_block sha256_hex r idx now_ns).1 ≡ restored_local idx
  unfolding restore_block
  local_block e = rw (at, restore_block) (local_found b.location e)

  local_inner_found :
      (place : BlockLocation)
      → place ≡ local_store tza_path fork_token_id
      → (restore_block sha256_hex r idx now_ns).1 ≡ restored_local idx
      → ZerosInjected idx b.size (inner_found sha256_hex place r idx b now_ns)
  unfolding inner_found with_zeros
  local_inner_found place e back = rw e (back, refl)

  local_inner :
      b.location ≡ local_store tza_path fork_token_id
      → ZerosInjected idx b.size (restore_block_inner sha256_hex r idx now_ns)
  unfolding restore_block_inner
  local_inner e = rw (at, restore_block_inner) (local_inner_found b.location e (local_block e))

-- A dropped block that has a hash is recorded as on the local disk.
dropped_place :
    (r : RamRaid) (idx : ℕ) (b : RaidBlock) {hash : String}
    → get_elem? r.blocks idx ≡ some b
    → b.content_hash ≡ some hash
    → (b' : RaidBlock) × (tza_path : String) × (fork_token_id : String) × (get_elem?
          (drop_clean r idx b).0.blocks
          idx
        ≡ some b')
      × (b'.location ≡ local_store tza_path fork_token_id)
      × (b'.size ≡ b.size)
unfolding drop_clean
dropped_place r idx b at hash = (
  _,
  _,
  _,
  get_elem?-set_self r.blocks idx _ (get_elem?_lt r.blocks idx at),
  place _ _ (b.content_hash) hash,
  refl,
)
  where
    place :
        (p q : String) (h : Option String) {hash : String}
        → h ≡ some hash
        → (if is_some h then local_store p q else virgin) ≡ local_store p q
    place p q h e = rw e

-- A production fault on a clean block that was dropped injects zeros and reports success, whatever the
-- block held and wherever its last copy went.
drop_clean-zeros :
    (sha256_hex : List ℕ → String) (r : RamRaid) (idx now_ns : ℕ) (b : RaidBlock) {hash : String}
    → get_elem? r.blocks idx ≡ some b
    → b.content_hash ≡ some hash
    → ZerosInjected idx b.size (restore_block_inner sha256_hex (drop_clean r idx b).0 idx now_ns)
drop_clean-zeros sha256_hex r idx now_ns b at hash =
    let (b', p, q, at', place, size) = dropped_place r idx b at hash in
    subst
      (λ n. ZerosInjected idx n (restore_block_inner sha256_hex (drop_clean r idx b).0 idx now_ns))
      size (local_inner sha256_hex (drop_clean r idx b).0 idx b' now_ns at' place)

-- On a controller with a block store and no client, a block of the table that belongs on RAM B is
-- evicted as dirty, restored, dropped while clean, and faulted in by the production path: the
-- fault reports a local restore and injects zeros.
pub round_trip-zeros :
    (sha256_hex : List ℕ → String) (r : RamRaid) (store : BlockStore) (idx now_ns later : ℕ)
    (b : RaidBlock)
    → get_elem? r.blocks idx ≡ some b
    → goes_remote r b ≡ true
    → let s = (evict_dirty sha256_hex (over_store r store) idx b).0 in
      let t = (restore_block sha256_hex s idx now_ns).0 in
      let u = (drop_clean t idx (brought_in (sent_block sha256_hex r b) now_ns)).0 in
      ZerosInjected idx b.size (restore_block_inner sha256_hex u idx later)
round_trip-zeros sha256_hex r store idx now_ns later b at remote =
    drop_clean-zeros sha256_hex _ idx later (brought_in (sent_block sha256_hex r b) now_ns)
      (evict-restore sha256_hex r store idx now_ns b at remote).2 refl
