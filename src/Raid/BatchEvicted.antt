-- ===== src/Raid/BatchEvicted.antt =====
-- `simulate_read_batch` (crates/trust-kernel/src/ram_raid.rs) sorts the indices before it evicts: what becomes of
-- a block that it counts as resident and then evicts.
use mathlib.Core.Bool.{false≢true}
use spaceshuttle.Prelude.{
  ℕ, ◌≡◌, ◌≤◌, refl, sym, subst, ap, ◌∙◌, List, [], ◌∷◌, some, some-injective, String, ◌++◌, ◌-◌,
  arith, get_elem?, set, get_elem?-set_self, get_elem?_lt,
}
use spaceshuttle.Raid.Types.{
  RaidBlock, resident, virgin, is_resident, EvictionResult, FaultResult, already_resident,
  zero_filled,
}
use spaceshuttle.Raid.Controller.{RamRaid, resides}
use spaceshuttle.Raid.Evict.{evict_coldest}
use spaceshuttle.Raid.Fault.{freed}
use spaceshuttle.Raid.Batch.{
  file_under, partition, each, touch_one, fill_one, make_room, need_slots, batch_remote,
  simulate_read_batch,
}
use spaceshuttle.Raid.Evictions.{Evicts, left, refused, evict_coldest-Evicts}
use spaceshuttle.Raid.Restores.{IsResident}
use spaceshuttle.Raid.BatchSteps.{Away, Evicts-Spares, Restores-Spares}
use spaceshuttle.Raid.BatchLoops.{touches-Spares, fill_one-Restores}

-- What an eviction freed is away.
freed-Away :
    (r s : RamRaid) (result : EvictionResult) (idx : ℕ)
    → Evicts r (s, result)
    → freed result ≡ some idx
    → Away s idx
freed-Away r s result idx (left i b v p e f n g) h =
    let same : i ≡ idx = some-injective _ _ (sym g ∙ h) in
    (
      v,
      ap (λ bs. get_elem? bs idx) p.put
          ∙ ap (get_elem? (set r.blocks i v)) (sym same)
          ∙ get_elem?-set_self r.blocks i v (get_elem?_lt r.blocks i p.found),
      f,
    )
freed-Away r s result idx (refused c e n g) h = cc

module _ (r : RamRaid) (idx fresh : ℕ) (b c : RaidBlock) (at : get_elem? r.blocks idx ≡ some b)
    (within : b.location ≡ resident) (free : get_elem? r.blocks fresh ≡ some c)
    (never : c.location ≡ virgin) where
  partition_two :
      partition r.blocks (idx ∷ fresh ∷ [])
      ≡ record { already = idx ∷ []; local = []; remote = []; fresh = fresh ∷ [] }
  unfolding partition file_under
  partition_two = simp (partition, file_under, at, within, free, never)

  different : ¬ (idx ≡ fresh)
  different same =
      let one_block : b ≡ c = some-injective _ _ (sym at ∙ ap (get_elem? r.blocks) same ∙ free) in
      absurd (
        false≢true
          (sym (ap is_resident never) ∙ sym (ap resides one_block) ∙ ap is_resident within))

seen_again :
    (now_ns : ℕ) (r : RamRaid) (idx : ℕ)
    → Away r idx
    → (each (touch_one now_ns) r (idx ∷ [])).1 ≡ already_resident idx ∷ []
unfolding each touch_one
seen_again now_ns r idx (b, at, out) = rw (at, touch_one) refl

filled_anew :
    (now_ns : ℕ) (r : RamRaid) (idx : ℕ)
    → Away r idx
    → (each (fill_one now_ns) r (idx ∷ [])).1 ≡ zero_filled idx ∷ []
unfolding each fill_one
filled_anew now_ns r idx (b, at, out) = rw (at, fill_one) refl

fill-Away :
    (sha256_hex : List ℕ → String) (now_ns : ℕ) (r : RamRaid) (idx fresh : ℕ)
    → ¬ (idx ≡ fresh)
    → Away r fresh
    → Away r idx
    → Away (each (fill_one now_ns) r (fresh ∷ [])).0 idx
unfolding each
fill-Away sha256_hex now_ns r idx fresh differ (b, at, out) =
    let t = fill_one now_ns r fresh in
    (Restores-Spares r t.0 fresh t.1 (fill_one-Restores sha256_hex now_ns r fresh b at out)).spared
      idx (differ, tt)

Away-out : (r : RamRaid) (idx : ℕ) → Away r idx → ¬ IsResident r idx
Away-out r idx (b, at, out) (v, here, there) =
    false≢true (sym out ∙ ap resides (some-injective _ _ (sym at ∙ here)) ∙ there)

module _ (sha256_hex : List ℕ → String) (r : RamRaid) (idx fresh now_ns : ℕ) (b c : RaidBlock)
    (at : get_elem? r.blocks idx ≡ some b) (within : b.location ≡ resident)
    (free : get_elem? r.blocks fresh ≡ some c) (never : c.location ≡ virgin)
    (full : r.config.max_resident_blocks ≤ r.resident_count) where
  batch_of_two :
      let (s, seen) = each (touch_one now_ns) (evict_coldest sha256_hex r).0 (idx ∷ []) in
      let (t, filled) = each (fill_one now_ns) s (fresh ∷ []) in
      simulate_read_batch sha256_hex r (idx ∷ fresh ∷ []) now_ns ≡ (t, seen ++ (filled ++ []))
  unfolding simulate_read_batch make_room need_slots batch_remote each
  batch_of_two =
      let one_slot : 1 - (r.config.max_resident_blocks - r.resident_count) ≡ 1 = omega arith in
      simp (
        simulate_read_batch,
        partition_two r idx fresh b c at within free never,
        need_slots,
        one_slot,
        make_room,
        batch_remote,
        each,
      )

  -- A batch reads a resident block and a virgin block from a full table, and the eviction that it
  -- makes frees just that resident block: the batch answers that the block was already resident
  -- and that the virgin one is filled, but after it the first block is not resident.
  pub simulate_read_batch_evicts_own :
      freed (evict_coldest sha256_hex r).1 ≡ some idx
      → let t = simulate_read_batch sha256_hex r (idx ∷ fresh ∷ []) now_ns in
        (t.1 ≡ already_resident idx ∷ zero_filled fresh ∷ []) × (¬ IsResident t.0 idx)
  simulate_read_batch_evicts_own out =
      let differ = different r idx fresh b c at within free never in
      let r₀ = (evict_coldest sha256_hex r).0 in
      let r₁ = (each (touch_one now_ns) r₀ (idx ∷ [])).0 in
      let gone = freed-Away r r₀ _ idx (evict_coldest-Evicts sha256_hex r) out in
      let evicted = Evicts-Spares r r₀ _ (evict_coldest-Evicts sha256_hex r) in
      let touches = touches-Spares now_ns (idx ∷ []) r₀ in
      let waiting : Away r₁ fresh =
        touches.spared fresh tt (evicted.spared fresh tt (c, free, ap is_resident never)) in
      let still = touches.spared idx tt gone in
      let both : (each (touch_one now_ns) r₀ (idx ∷ [])).1
            ++ ((each (fill_one now_ns) r₁ (fresh ∷ [])).1 ++ [])
          ≡ already_resident idx ∷ zero_filled fresh ∷ [] =
        rw (seen_again now_ns r₀ idx gone, filled_anew now_ns r₁ fresh waiting) refl in
      (
        ap (λ t. t.1) batch_of_two ∙ both,
        subst (λ (t : RamRaid × List FaultResult). ¬ IsResident t.0 idx) (sym batch_of_two)
            (Away-out (each (fill_one now_ns) r₁ (fresh ∷ [])).0 idx
              (fill-Away sha256_hex now_ns r₁ idx fresh differ waiting still)),
      )
