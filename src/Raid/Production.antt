-- ===== src/Raid/Production.antt =====
-- The production path of a page fault (crates/trust-kernel/src/ram_raid.rs: `handle_fault_production`).
use spaceshuttle.Prelude.{
  ℕ, ◌+◌, ◌<◌, ◌≡◌, refl, true, false, List, inl, inr, none, some, String, arith, ap, length,
  get_elem?, get_elem?_lt, leb, Bool-cases,
}
use spaceshuttle.Raid.Types.{RaidBlock, FaultResult, zero_filled, virgin, EvictionResult}
use spaceshuttle.Raid.Controller.{RamRaid, block_index_for_addr}
use spaceshuttle.Raid.Evict.{evict_coldest}
use spaceshuttle.Raid.Restore.{inner_found, restore_block_inner}
use spaceshuttle.Raid.Fault.{freed, handle_fault_production}
use spaceshuttle.Raid.Faults.{restore_block_inner-Restores}
use spaceshuttle.Raid.Moves.{count-lt, Moves, done, one, next, IsValid, Move-IsValid}
use spaceshuttle.Raid.Evictions.{
  Evicts, left, refused, Evicts-Move, Evicts-count, Evicts-length, evict_coldest-Evicts, slots,
}
use spaceshuttle.Raid.Restores.{Restores, came_in, was_in, gave_up, Restores-Move}

-- The production path. It evicts at the limit, and restores whether or not that freed a slot.
pub handle_fault_production-Moves :
    (sha256_hex : List ℕ → String) (r : RamRaid) (fault_addr now_ns : ℕ)
    → Moves r (handle_fault_production sha256_hex r fault_addr now_ns).0
unfolding handle_fault_production
handle_fault_production-Moves sha256_hex r fault_addr now_ns =
    let idx = block_index_for_addr r fault_addr in
    let out = evict_coldest-Evicts sha256_hex r in
    elim (Bool-cases (leb (length r.blocks) idx)) [
      | inl h ↦ rw h done
      | inr h ↦ elim (Bool-cases (leb r.config.max_resident_blocks r.resident_count)) [
        | inl full ↦
            let inside : idx < length (evict_coldest sha256_hex r).0.blocks =
              rw (Evicts-length out) (ground arith) in
            rw (h, full)
              (next (one (Evicts-Move out))
                (Restores-Move (restore_block_inner-Restores sha256_hex _ idx now_ns inside)))
        | inr free ↦
            rw (h, free)
              (one (
                Restores-Move
                  (restore_block_inner-Restores sha256_hex r idx now_ns (ground arith))))
      ]
    ]

-- A zero fill adds one to the count, and the count has room for it.
arrives :
    {s t : RamRaid} {idx : ℕ} {result : FaultResult}
    → IsValid s
    → Restores s idx t result
    → result ≡ zero_filled idx
    → t.resident_count ≡ s.resident_count + 1
arrives {s} {t} {idx} h (came_in b v p e f n _) filled =
    omega (arith, n, count-lt s t idx b v p e f, h.counted, h.fits)
arrives h (was_in _ _ _ _ why) filled = cc
arrives h (gave_up _ _ _ _ _ _ _ bad) filled = cc

inner_virgin :
    (sha256_hex : List ℕ → String) (s : RamRaid) (idx now_ns : ℕ) (b : RaidBlock)
    → get_elem? s.blocks idx ≡ some b
    → b.location ≡ virgin
    → (restore_block_inner sha256_hex s idx now_ns).1 ≡ zero_filled idx
unfolding restore_block_inner
inner_virgin sha256_hex s idx now_ns b at fresh =
    rw (at, restore_block_inner) (rw (fresh, inner_found) refl)

refused_blocks :
    {r s : RamRaid} {result : EvictionResult}
    → Evicts r (s, result)
    → freed result ≡ none
    → s.blocks ≡ r.blocks
refused_blocks (left _ _ _ _ _ _ _ free) e = cc
refused_blocks (refused _ b _ _) e = b

-- On a well-formed table at the configured limit, where the eviction that a production fault makes
-- frees nothing and the block that was asked for is virgin, the fault takes the controller one
-- block over the limit.
pub handle_fault_production_overcommits :
    (sha256_hex : List ℕ → String) (r : RamRaid) (fault_addr now_ns : ℕ) (b : RaidBlock)
    → IsValid r
    → r.resident_count ≡ r.config.max_resident_blocks
    → freed (evict_coldest sha256_hex r).1 ≡ none
    → get_elem? r.blocks (block_index_for_addr r fault_addr) ≡ some b
    → b.location ≡ virgin
    → (handle_fault_production sha256_hex r fault_addr now_ns).0.resident_count
      ≡ r.config.max_resident_blocks + 1
unfolding handle_fault_production
handle_fault_production_overcommits sha256_hex r fault_addr now_ns b h full out at fresh =
    let idx = block_index_for_addr r fault_addr in
    let s = (evict_coldest sha256_hex r).0 in
    let evicted = evict_coldest-Evicts sha256_hex r in
    let inside = get_elem?_lt r.blocks idx at in
    let within : leb (length r.blocks) idx ≡ false = ground arith in
    let crowded : leb r.config.max_resident_blocks r.resident_count ≡ true = ground arith in
    let at' : get_elem? s.blocks idx ≡ some b = rw (refused_blocks evicted out) at in
    let inside' : idx < length s.blocks = get_elem?_lt s.blocks idx at' in
    let came =
      arrives (Move-IsValid (Evicts-Move evicted) h)
        (restore_block_inner-Restores sha256_hex s idx now_ns inside')
        (inner_virgin sha256_hex s idx now_ns b at' fresh) in
    rw (within, crowded) (omega (arith, came, Evicts-count h evicted, ap slots out, full))
