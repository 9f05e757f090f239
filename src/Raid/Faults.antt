-- ===== src/Raid/Faults.antt =====
-- What a page fault does (crates/trust-kernel/src/ram_raid.rs: `handle_fault`), on every branch.
use spaceshuttle.Prelude.{
  ℕ, ◌≤◌, ◌<◌, ◌≡◌, refl, ◌≢◌, Bool, true, false, List, inl, inr, none, some, String, arith, ap,
  length, get_elem?-some, leb, leb→le, Bool-cases, Option-cases,
}
use spaceshuttle.Raid.Types.{
  FaultResult, already_resident, restored_local, restored_remote, zero_filled,
  evicted_then_restored, failed, panicked, EvictionResult,
}
use spaceshuttle.Raid.Controller.{RamRaid, block_index_for_addr}
use spaceshuttle.Raid.Evict.{evict_coldest}
use spaceshuttle.Raid.Restore.{restore_block, restore_block_inner}
use spaceshuttle.Raid.Fault.{freed, restore_after, handle_fault}
use spaceshuttle.Raid.Moves.{
  Moves, done, one, next, IsValid, Moves-IsValid, Move-IsValid, Moves-config,
}
use spaceshuttle.Raid.Evictions.{
  Evicts, Evicts-Move, Evicts-count, Evicts-length, evict_coldest-Evicts, slots,
}
use spaceshuttle.Raid.Restores.{
  Restores, came_in, was_in, gave_up, Restores-failed, Restores-Move, Restores-count,
  Restores-IsResident, succeeds, IsResident, found_block, inner_block,
}

module _ (sha256_hex : List ℕ → String) where
  -- In range, a restore has an outcome.
  pub restore_block-Restores :
      (r : RamRaid) (idx now_ns : ℕ)
      → idx < length r.blocks
      → let t = restore_block sha256_hex r idx now_ns in Restores r idx t.0 t.1
  restore_block-Restores r idx now_ns h =
      let (b, at) = get_elem?-some r.blocks idx h in found_block sha256_hex r idx b now_ns at

  pub restore_block_inner-Restores :
      (r : RamRaid) (idx now_ns : ℕ)
      → idx < length r.blocks
      → let t = restore_block_inner sha256_hex r idx now_ns in Restores r idx t.0 t.1
  restore_block_inner-Restores r idx now_ns h =
      let (b, at) = get_elem?-some r.blocks idx h in inner_block sha256_hex r idx b now_ns at

-- A result that reports a restore with no eviction before it.
abbrev pub is_direct : FaultResult → Bool
is_direct (already_resident _) = true
is_direct (restored_local _) = true
is_direct (restored_remote _) = true
is_direct (zero_filled _) = true
is_direct (evicted_then_restored _ _) = false
is_direct (failed _ _) = false
is_direct panicked = false

-- The outcome of a fault at block `idx`: out of range; restored with a slot free; no slot could be
-- freed; or restored after an eviction, and then the restore's own result is dropped.
pub data Faults (r : RamRaid) (idx : ℕ) : RamRaid → FaultResult → Type 0 where
  out_of_range : (why : String) → length r.blocks ≤ idx → Faults r idx r (failed idx why)
  direct :
      {s : RamRaid} {result : FaultResult}
      → r.resident_count < r.config.max_resident_blocks
      → Restores r idx s result
      → Faults r idx s result
  no_room :
      {s : RamRaid} (eviction : EvictionResult) (why : String)
      → r.config.max_resident_blocks ≤ r.resident_count
      → Evicts r (s, eviction)
      → freed eviction ≡ none
      → Faults r idx s (failed idx why)
  swapped :
      {s t : RamRaid} (eviction : EvictionResult) {dropped : FaultResult} (e : ℕ)
      → r.config.max_resident_blocks ≤ r.resident_count
      → Evicts r (s, eviction)
      → freed eviction ≡ some e
      → Restores s idx t dropped
      → Faults r idx t (evicted_then_restored e idx)

module _ (sha256_hex : List ℕ → String) where
  restore_after-Faults :
      (r : RamRaid) (idx now_ns : ℕ) (evicted : RamRaid × EvictionResult)
      → idx < length r.blocks
      → r.config.max_resident_blocks ≤ r.resident_count
      → Evicts r evicted
      → let t = restore_after sha256_hex evicted idx now_ns in Faults r idx t.0 t.1
  unfolding restore_after
  restore_after-Faults r idx now_ns (s, eviction) inside full out =
      elim (Option-cases (freed eviction)) [
        | inl none_freed ↦ rw (none_freed, restore_after) (no_room eviction _ full out none_freed)
        | inr (e, some_freed) ↦
            rw (some_freed, restore_after)
              (swapped eviction e full out some_freed
                (restore_block-Restores sha256_hex s idx now_ns (rw (Evicts-length out) inside)))
      ]

  pub handle_fault-Faults :
      (r : RamRaid) (fault_addr now_ns : ℕ)
      → let t = handle_fault sha256_hex r fault_addr now_ns in
        Faults r (block_index_for_addr r fault_addr) t.0 t.1
  unfolding handle_fault
  handle_fault-Faults r fault_addr now_ns =
      let idx = block_index_for_addr r fault_addr in
      elim (Bool-cases (leb (length r.blocks) idx)) [
        | inl h ↦ rw h (out_of_range _ (leb→le _ _ h))
        | inr h ↦ elim (Bool-cases (leb r.config.max_resident_blocks r.resident_count)) [
          | inl full ↦
              rw (h, full)
                (restore_after-Faults r idx now_ns (evict_coldest sha256_hex r) (ground arith)
                  (leb→le _ _ full) (evict_coldest-Evicts sha256_hex r))
          | inr free ↦
              rw (h, free)
                (direct (ground arith)
                  (restore_block-Restores sha256_hex r idx now_ns (ground arith)))
        ]
      ]

pub Faults-Moves :
    {r s : RamRaid} {idx : ℕ} {result : FaultResult} → Faults r idx s result → Moves r s
Faults-Moves (out_of_range _ _) = done
Faults-Moves (direct _ p) = one (Restores-Move p)
Faults-Moves (no_room _ _ _ out _) = one (Evicts-Move out)
Faults-Moves (swapped _ _ _ out _ p) = next (one (Evicts-Move out)) (Restores-Move p)

Faults-count :
    {r s : RamRaid} {idx : ℕ} {result : FaultResult}
    → IsValid r
    → Faults r idx s result
    → r.resident_count ≤ r.config.max_resident_blocks
    → s.resident_count ≤ r.config.max_resident_blocks
Faults-count h (out_of_range _ _) le = le
Faults-count h (direct free p) le = omega (arith, Restores-count h p)
Faults-count h (no_room eviction _ full out none_freed) le = omega (arith, Evicts-count h out)
Faults-count h (swapped eviction e full out some_freed p) le = omega (
  arith,
  Evicts-count h out,
  ap slots some_freed,
  Restores-count (Move-IsValid (Evicts-Move out) h) p,
)

-- On a well-formed table that holds no more blocks than configured, a fault leaves no more blocks
-- than configured.
pub handle_fault-le-max :
    (sha256_hex : List ℕ → String) (r : RamRaid) (fault_addr now_ns : ℕ)
    → IsValid r
    → r.resident_count ≤ r.config.max_resident_blocks
    → (handle_fault sha256_hex r fault_addr now_ns).0.resident_count ≤ r.config.max_resident_blocks
handle_fault-le-max sha256_hex r fault_addr now_ns h =
    Faults-count h (handle_fault-Faults sha256_hex r fault_addr now_ns)

Restores-panic :
    {r s : RamRaid} {idx : ℕ} {result : FaultResult} → Restores r idx s result → result ≢ panicked
Restores-panic (came_in _ _ _ _ _ _ good) e = cc (ap succeeds e)
Restores-panic (was_in _ _ _ _ why) e = cc
Restores-panic (gave_up _ _ _ _ _ _ _ bad) e = cc

Faults-panic :
    {r s : RamRaid} {idx : ℕ} {result : FaultResult} → Faults r idx s result → result ≢ panicked
Faults-panic (out_of_range _ _) e = cc
Faults-panic (direct _ p) e = Restores-panic p e
Faults-panic (no_room _ _ _ _ _) e = cc
Faults-panic (swapped _ _ _ _ _ _) e = cc

Faults-IsResident :
    {r s : RamRaid} {idx : ℕ} {result : FaultResult}
    → Faults r idx s result
    → is_direct result ≡ true
    → IsResident s idx
Faults-IsResident (out_of_range _ _) good = cc
Faults-IsResident (direct _ p) good = Restores-IsResident p (ground arith)
Faults-IsResident (no_room _ _ _ _ _) good = cc
Faults-IsResident (swapped _ _ _ _ _ _) good = cc

-- A fault never indexes the table out of bounds.
pub handle_fault_panic :
    (sha256_hex : List ℕ → String) (r : RamRaid) (fault_addr now_ns : ℕ)
    → (handle_fault sha256_hex r fault_addr now_ns).1 ≢ panicked
handle_fault_panic sha256_hex r fault_addr now_ns =
    Faults-panic (handle_fault-Faults sha256_hex r fault_addr now_ns)

-- If a fault reports a restore with no eviction before it, or that the block was resident, then the block
-- that was asked for is resident afterwards.
pub handle_fault-IsResident :
    (sha256_hex : List ℕ → String) (r : RamRaid) (fault_addr now_ns : ℕ)
    → is_direct (handle_fault sha256_hex r fault_addr now_ns).1 ≡ true
    → IsResident (handle_fault sha256_hex r fault_addr now_ns).0 (block_index_for_addr r fault_addr)
handle_fault-IsResident sha256_hex r fault_addr now_ns =
    Faults-IsResident (handle_fault-Faults sha256_hex r fault_addr now_ns)

-- A fault keeps the table well-formed and the configuration as it is.
pub handle_fault-IsValid :
    (sha256_hex : List ℕ → String) (r : RamRaid) (fault_addr now_ns : ℕ)
    → IsValid r
    → let t = handle_fault sha256_hex r fault_addr now_ns in IsValid t.0 × (t.0.config ≡ r.config)
handle_fault-IsValid sha256_hex r fault_addr now_ns h =
    let moves = Faults-Moves (handle_fault-Faults sha256_hex r fault_addr now_ns) in
    (Moves-IsValid moves h, Moves-config moves)

-- Where a fault in range must evict first, the eviction frees block `e`, and the restore then
-- fails, the fault still reports the block as restored, and the block is not resident.
pub handle_fault_masks_failure :
    (sha256_hex : List ℕ → String) (r : RamRaid) (fault_addr now_ns e : ℕ)
    → block_index_for_addr r fault_addr < length r.blocks
    → r.config.max_resident_blocks ≤ r.resident_count
    → freed (evict_coldest sha256_hex r).1 ≡ some e
    → succeeds
        (restore_block sha256_hex
          (evict_coldest sha256_hex r).0
          (block_index_for_addr r fault_addr)
          now_ns).1
      ≡ false
    → let t = handle_fault sha256_hex r fault_addr now_ns in
      (t.1 ≡ evicted_then_restored e (block_index_for_addr r fault_addr))
      × (¬ IsResident t.0 (block_index_for_addr r fault_addr))
unfolding handle_fault restore_after
handle_fault_masks_failure sha256_hex r fault_addr now_ns e inside full out bad =
    let idx = block_index_for_addr r fault_addr in
    let (s, eviction) = evict_coldest sha256_hex r in
    let within : leb (length r.blocks) idx ≡ false = ground arith in
    let crowded : leb r.config.max_resident_blocks r.resident_count ≡ true = ground arith in
    let still : idx < length s.blocks =
      rw (Evicts-length (evict_coldest-Evicts sha256_hex r)) inside in
    rw (within, crowded)
      (rw (out, restore_after)
        (refl, Restores-failed (restore_block-Restores sha256_hex s idx now_ns still) bad))
