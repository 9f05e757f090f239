-- ===== src/Raid/Restores.antt =====
-- What the restores of crates/trust-kernel/src/ram_raid.rs do to the block table, on every branch.
use spaceshuttle.Prelude.{
  ℕ, ◌+◌, ◌≤◌, ◌≡◌, refl, Bool, true, false, List, inl, inr, Option, none, some, arith, ap, String,
  get_elem?, set, add64, replicate, Bool-cases, get_elem?-set_self, get_elem?_lt,
}
use spaceshuttle.Cluster.BlockStore.{BlockStore, StoredBlock}
use spaceshuttle.Cluster.MuxClient.{ClusterMuxClient, MuxResult, ok, err}
use spaceshuttle.Raid.Types.{
  RaidBlock, BlockLocation, resident, local_store, remote_kernel, fetching, virgin, FaultResult,
  already_resident, restored_local, restored_remote, zero_filled, evicted_then_restored, failed,
  panicked,
}
use spaceshuttle.Raid.Controller.{RamRaid, resides}
use spaceshuttle.Raid.Restore.{
  zero_fill, brought_in, bring_local, hash_matches, accept_remote, fetch_from_store,
  restore_over_mux, restore_remote, restore_found, restore_block, accept_inner, inner_over_mux,
  remote_inner, inner_found, restore_block_inner,
}
use spaceshuttle.Raid.Moves.{SamePlace, Puts, Move, keep, enter, IsValid}

-- The results of a restore that leave the block resident.
abbrev pub succeeds : FaultResult → Bool
succeeds (already_resident _) = true
succeeds (restored_local _) = true
succeeds (restored_remote _) = true
succeeds (zero_filled _) = true
succeeds (evicted_then_restored _ _) = true
succeeds (failed _ _) = false
succeeds panicked = false

-- The outcome of a restore of block `idx`: it came in, it was in already, or the restore failed and the
-- table is as it was.
pub data Restores (r : RamRaid) (idx : ℕ) : RamRaid → FaultResult → Type 0 where
  came_in :
      {s : RamRaid} {result : FaultResult} (b v : RaidBlock)
      → Puts r s idx b v
      → resides b ≡ false
      → resides v ≡ true
      → s.resident_count ≡ add64 r.resident_count 1
      → succeeds result ≡ true
      → Restores r idx s result
  was_in :
      {s : RamRaid} {result : FaultResult} (b : RaidBlock)
      → s ≡ r
      → get_elem? r.blocks idx ≡ some b
      → resides b ≡ true
      → result ≡ already_resident idx
      → Restores r idx s result
  gave_up :
      {s : RamRaid} {result : FaultResult} (b : RaidBlock)
      → get_elem? r.blocks idx ≡ some b
      → resides b ≡ false
      → s.config ≡ r.config
      → s.blocks ≡ r.blocks
      → s.resident_count ≡ r.resident_count
      → (why : String) → result ≡ failed idx why
      → Restores r idx s result

pub Restores-Move :
    {r s : RamRaid} {idx : ℕ} {result : FaultResult} → Restores r idx s result → Move r s
Restores-Move {idx = idx} (came_in b v p e f n _) = enter idx b v p e f n
Restores-Move (was_in b same at e _) = rw same (keep refl refl refl)
Restores-Move (gave_up _ _ _ c b n _ _) = keep c b n

pub came_by :
    {r s : RamRaid} {result : FaultResult} (idx : ℕ) (b v : RaidBlock)
    → get_elem? r.blocks idx ≡ some b
    → resides b ≡ false
    → s.blocks ≡ set r.blocks idx v
    → SamePlace b v
    → s.config ≡ r.config
    → resides v ≡ true
    → s.resident_count ≡ add64 r.resident_count 1
    → succeeds result ≡ true
    → Restores r idx s result
came_by idx b v at out put place config there count good =
    came_in b v (record { found = at; put = put; place = place; config_kept = config }) out there
      count good

module _ (sha256_hex : List ℕ → String) (r : RamRaid) (idx : ℕ) (b : RaidBlock) (now_ns : ℕ)
    (at : get_elem? r.blocks idx ≡ some b) (out : resides b ≡ false) where
  -- `s` is `r` with other counters and stores.
  accept_remote-Restores :
      (s : RamRaid) (received : List ℕ)
      → s.config ≡ r.config
      → s.blocks ≡ r.blocks
      → s.resident_count ≡ r.resident_count
      → let t = accept_remote sha256_hex s idx b now_ns received in Restores r idx t.0 t.1
  unfolding accept_remote
  accept_remote-Restores s received c e n =
      elim (Bool-cases (hash_matches sha256_hex b.content_hash received)) [
        | inl h ↦ rw h (
            came_by idx b (brought_in b now_ns) at out
              (ap (λ bs. set bs idx (brought_in b now_ns)) e) (refl, refl, refl, refl) c refl
              (ap (λ k. add64 k 1) n) refl)
        | inr h ↦ rw h (gave_up b at out c e n _ refl)
      ]

  accept_inner-Restores :
      (s : RamRaid) (received : List ℕ)
      → s.config ≡ r.config
      → s.blocks ≡ r.blocks
      → s.resident_count ≡ r.resident_count
      → let t = accept_inner sha256_hex s idx b now_ns received in Restores r idx t.0 t.1
  unfolding accept_inner
  accept_inner-Restores s received c e n =
      elim (Bool-cases (hash_matches sha256_hex b.content_hash received)) [
        | inl h ↦ rw h (
            came_by idx b (brought_in b now_ns) at out
              (ap (λ bs. set bs idx (brought_in b now_ns)) e) (refl, refl, refl, refl) c refl
              (ap (λ k. add64 k 1) n) refl)
        | inr h ↦ rw h (gave_up b at out c e n _ refl)
      ]

  abbrev stepped : RamRaid
  stepped = record r { bus_seq = add64 r.bus_seq 1 }

  restore_over_mux-Restores :
      (answer : MuxResult (List ℕ))
      → let t = restore_over_mux sha256_hex answer stepped idx b now_ns in Restores r idx t.0 t.1
  unfolding restore_over_mux
  restore_over_mux-Restores (ok received) = accept_remote-Restores stepped received refl refl refl
  restore_over_mux-Restores (err e) = gave_up b at out refl refl refl _ refl

  fetch_from_store-Restores :
      (fetched : BlockStore × Option StoredBlock)
      → let t = fetch_from_store sha256_hex stepped idx b now_ns fetched in Restores r idx t.0 t.1
  unfolding fetch_from_store
  fetch_from_store-Restores (store, none) = gave_up b at out refl refl refl _ refl
  fetch_from_store-Restores (store, some found) =
      accept_remote-Restores (record stepped { local_block_store = some store }) found.data_bytes
        refl refl refl

  restore_remote-Restores :
      (mux : Option ClusterMuxClient) (store : Option BlockStore)
      → let t = restore_remote sha256_hex mux store stepped idx b r.bus_seq now_ns in
        Restores r idx t.0 t.1
  unfolding restore_remote
  restore_remote-Restores (some client) store = restore_over_mux-Restores _
  restore_remote-Restores none (some store) = fetch_from_store-Restores _
  restore_remote-Restores none none =
      came_by idx b (brought_in b now_ns) at out refl (refl, refl, refl, refl) refl refl refl refl

  inner_over_mux-Restores :
      (answer : MuxResult (List ℕ))
      → let t = inner_over_mux sha256_hex answer stepped idx b now_ns in Restores r idx t.0 t.1
  unfolding inner_over_mux
  inner_over_mux-Restores (ok received) = accept_inner-Restores stepped received refl refl refl
  inner_over_mux-Restores (err e) = gave_up b at out refl refl refl _ refl

  remote_inner-Restores :
      (mux : Option ClusterMuxClient)
      → let t = remote_inner sha256_hex mux stepped idx b r.bus_seq now_ns in Restores r idx t.0 t.1
  unfolding remote_inner
  remote_inner-Restores (some client) = inner_over_mux-Restores _
  remote_inner-Restores none = accept_inner-Restores stepped (replicate b.size 0) refl refl refl

  pub zero_fill-Restores : Restores r idx (zero_fill r idx b now_ns) (zero_filled idx)
  unfolding zero_fill
  zero_fill-Restores = came_by idx b _ at out refl (refl, refl, refl, refl) refl refl refl refl

  bring_local-Restores : Restores r idx (bring_local r idx b now_ns) (restored_local idx)
  unfolding bring_local
  bring_local-Restores =
      came_by idx b (brought_in b now_ns) at out refl (refl, refl, refl, refl) refl refl refl refl

module _ (sha256_hex : List ℕ → String) (r : RamRaid) (idx : ℕ) (b : RaidBlock) (now_ns : ℕ)
    (at : get_elem? r.blocks idx ≡ some b) where
  restore_found-Restores :
      (place : BlockLocation)
      → b.location ≡ place
      → let t = restore_found sha256_hex place r idx b now_ns in Restores r idx t.0 t.1
  unfolding restore_found
  restore_found-Restores resident e = was_in b refl at (rw e) refl
  restore_found-Restores virgin e = zero_fill-Restores sha256_hex r idx b now_ns at (rw e)
  restore_found-Restores (local_store _ _) e =
      bring_local-Restores sha256_hex r idx b now_ns at (rw e)
  restore_found-Restores (remote_kernel _ _ _) e =
      restore_remote-Restores sha256_hex r idx b now_ns at (rw e) r.mux_client r.local_block_store
  restore_found-Restores fetching e = gave_up b at (rw e) refl refl refl _ refl

  pub found_block : let t = restore_block sha256_hex r idx now_ns in Restores r idx t.0 t.1
  unfolding restore_block
  found_block = rw (at, restore_block) (restore_found-Restores b.location refl)

  inner_found-Restores :
      (place : BlockLocation)
      → b.location ≡ place
      → let t = inner_found sha256_hex place r idx b now_ns in Restores r idx t.0 t.1
  unfolding inner_found
  inner_found-Restores resident e = was_in b refl at (rw e) refl
  inner_found-Restores virgin e = zero_fill-Restores sha256_hex r idx b now_ns at (rw e)
  inner_found-Restores (local_store _ _) e = found_block
  inner_found-Restores (remote_kernel _ _ _) e =
      remote_inner-Restores sha256_hex r idx b now_ns at (rw e) r.mux_client
  inner_found-Restores fetching e = gave_up b at (rw e) refl refl refl _ refl

  pub inner_block : let t = restore_block_inner sha256_hex r idx now_ns in Restores r idx t.0 t.1
  unfolding restore_block_inner
  inner_block = rw (at, restore_block_inner) (inner_found-Restores b.location refl)

-- Block `idx` is resident.
abbrev pub IsResident : RamRaid → ℕ → Type 0
IsResident r idx = (b : RaidBlock) × (get_elem? r.blocks idx ≡ some b) × (resides b ≡ true)

-- A restore says truly whether it left the block resident.
pub Restores-IsResident :
    {r s : RamRaid} {idx : ℕ} {result : FaultResult}
    → Restores r idx s result
    → succeeds result ≡ true
    → IsResident s idx
Restores-IsResident {r} {s} {idx} (came_in b v p e f n _) good =
    (v, rw p.put (get_elem?-set_self r.blocks idx v (get_elem?_lt r.blocks idx p.found)), f)
Restores-IsResident {r} {s} {idx} (was_in b same at e _) good = rw same (b, at, e)
Restores-IsResident {r} {s} {idx} (gave_up _ _ _ _ _ _ _ bad) good = cc (ap succeeds bad)

pub Restores-failed :
    {r s : RamRaid} {idx : ℕ} {result : FaultResult}
    → Restores r idx s result
    → succeeds result ≡ false
    → ¬ IsResident s idx
Restores-failed (came_in _ _ _ _ _ _ good) bad _ = cc
Restores-failed (was_in b same at e why) bad _ = cc (ap succeeds why)
Restores-failed {idx = idx} (gave_up b at out _ put _ _ _) bad (v, here, there) =
    ground (arith, at, here, ap (λ bs. get_elem? bs idx) put)

-- At most one block comes in.
pub Restores-count :
    {r s : RamRaid} {idx : ℕ} {result : FaultResult}
    → IsValid r
    → Restores r idx s result
    → s.resident_count ≤ r.resident_count + 1
Restores-count h (came_in b v p e f n _) = omega arith
Restores-count h (was_in b same at e _) = rw same (omega arith)
Restores-count h (gave_up _ _ _ _ _ n _ _) = omega arith
