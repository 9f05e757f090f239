-- ===== src/Mapper/Budget.antt =====
-- The blocks in RAM after a layer of inference (crates/trust-kernel/src/llm_mapper.rs).
use spaceshuttle.Prelude.{
  ℕ, zero, suc, ◌+◌, ◌-◌, ◌≡◌, refl, sym, subst, ap, ◌≤◌, ◌<◌, max, List, [], ◌∷◌, String, true,
  some, inl, inr, Bool-cases, arith, All, length, get_elem?, count_if, count_if-set, weight, leb,
  ltb, ltb→lt,
}
use spaceshuttle.Raid.Config.{RaidConfig}
use spaceshuttle.Raid.Moves.{Moves-config, Moves-IsValid, IsValid}
use spaceshuttle.Raid.Runs.{proactive_evict-Moves}
use spaceshuttle.Mapper.Manifest.{ModelManifest, layer_blocks}
use spaceshuttle.Mapper.Aperture.{
  evicted, ApertureBlock, LlmMemoryMapper, min_resident_blocks, in_ram, resident_count,
}
use spaceshuttle.Mapper.Layers.{materialize_layer, prefetch_layers}
use spaceshuttle.Mapper.Inference.{
  accesses, resident_indices, sort_by_key, evict_at, evict_index, evict_each, evict_cold_blocks,
  trim, infer_layer, infer_from, simulate_inference,
}
use spaceshuttle.Mapper.Steps.{
  turn_out, Step, Steps, stop, single, Steps-trans, Steps-Moves, Steps-manifest, IsPlaced,
  Steps-IsPlaced,
}
use spaceshuttle.Mapper.Loads.{Allows, materialize_layer-Steps, prefetch_layers-Steps}
use spaceshuttle.Mapper.Queue.{
  Queue, sort-Queue, sort-length, resident_indices-length, resident_indices-Queue, set-Queue,
}

-- The budget in blocks, no less than the number that eviction spares.
abbrev pub allowance : LlmMemoryMapper → ℕ
allowance m = max min_resident_blocks m.raid_controller.config.max_resident_blocks

module _ (sha256_hex : List ℕ → String) {Q : ℕ → Type 0} where
  evict_at-Step :
      (m : LlmMemoryMapper) (i : ℕ) (b : ApertureBlock)
      → get_elem? m.aperture i ≡ some b
      → in_ram b ≡ true
      → Step Q m (evict_at sha256_hex m i b)
  unfolding evict_at
  evict_at-Step m i b found was = record {
    turned = turn_out i b found was;
    moved = proactive_evict-Moves sha256_hex m.raid_controller;
    manifest_kept = refl;
    window_kept = refl;
  }

  -- The evictions are steps, and leave no more than the target, the least number or what the queue spares.
  evict_each-Steps :
      (m : LlmMemoryMapper) (is : List ℕ) (target n : ℕ)
      → Queue m.aperture is
      → let m' = (evict_each sha256_hex m is target n).0 in
        Steps Q m m'
        × (resident_count m'
            ≤ max 4 (max (resident_count m - (target - n)) (resident_count m - length is)))
  unfolding evict_each resident_count evict_index evict_at
  evict_each-Steps m [] target n h = (stop, omega arith)
  evict_each-Steps m (i ∷ is) target n ((b, found, was), apart, h) =
      elim (Bool-cases (leb target n)) [
        | inl reached ↦ rw (evict_each, reached) (stop, ground arith)
        | inr short ↦ elim (Bool-cases (leb (count_if in_ram m.aperture) 4)) [
          | inl few ↦ rw (evict_each, short, few) (stop, ground arith)
          | inr many ↦
              let m' = evict_at sha256_hex m i b in
              let fewer =
                count_if-set in_ram m.aperture i b (record b { status = evicted }) found in
              let rest =
                evict_each-Steps m' is target (suc n)
                  (set-Queue m.aperture i (record b { status = evicted }) is apart h) in
              let one : weight in_ram b ≡ 1 = rw (weight, was) refl in
              let wanted : n < target = ground arith in
              rw (evict_each, short, many, found)
                (
                  Steps-trans (single (evict_at-Step m i b found was)) rest.0,
                  omega (arith, fewer, one, wanted, rest.1),
                )
        ]
      ]

  evict_cold_blocks-Steps :
      (m : LlmMemoryMapper) (target : ℕ)
      → IsPlaced 0 m.aperture
      → let m' = (evict_cold_blocks sha256_hex m target).0 in
        Steps Q m m' × (resident_count m' ≤ max 4 (resident_count m - target))
  unfolding evict_cold_blocks resident_count
  evict_cold_blocks-Steps m target placed =
      let key = accesses m.aperture in
      let is = resident_indices m.aperture in
      let out =
        evict_each-Steps m (sort_by_key key is) target 0
          (sort-Queue m.aperture key is (resident_indices-Queue m.aperture placed)) in
      (out.0, omega (arith, out.1, sort-length key is, resident_indices-length m.aperture))

  trim-Steps :
      (m : LlmMemoryMapper)
      → IsPlaced 0 m.aperture
      → Steps Q m (trim sha256_hex m) × (resident_count (trim sha256_hex m) ≤ allowance m)
  unfolding trim resident_count
  trim-Steps m placed =
      let most = m.raid_controller.config.max_resident_blocks in
      elim (Bool-cases (ltb most (count_if in_ram m.aperture))) [
        | inl over ↦
            let out = evict_cold_blocks-Steps m (count_if in_ram m.aperture - most) placed in
            let more : most < count_if in_ram m.aperture = ltb→lt _ _ over in
            let le : count_if in_ram
                  (evict_cold_blocks sha256_hex m (count_if in_ram m.aperture - most)).0.aperture
                ≤ max 4 (count_if in_ram m.aperture - (count_if in_ram m.aperture - most)) =
              out.1 in
            rw (trim, over) (out.0, omega (arith, le, more))
        | inr fits ↦ rw (trim, fits) (stop, ground arith)
      ]

  infer_layer-Steps :
      (m : LlmMemoryMapper) (layer : ℕ) (now : ℕ → ℕ)
      → IsPlaced 0 m.aperture
      → Allows Q m.manifest
      → layer < m.manifest.num_layers
      → let m' = (infer_layer sha256_hex m layer now).0 in
        Steps Q m m' × (resident_count m' ≤ allowance m)
  unfolding infer_layer
  infer_layer-Steps m layer now placed allows lt =
      let m1 = (materialize_layer sha256_hex m layer now).0 in
      let m2 = (prefetch_layers sha256_hex m1 layer now).0 in
      let loads = materialize_layer-Steps sha256_hex m layer now allows lt in
      let ahead =
        prefetch_layers-Steps sha256_hex m1 layer now
          (subst (Allows Q) (sym (Steps-manifest loads)) allows) in
      let both = Steps-trans loads ahead in
      let trimmed = trim-Steps m2 (Steps-IsPlaced both placed) in
      (
        Steps-trans both trimmed.0,
        subst (λ (n : ℕ). resident_count (trim sha256_hex m2) ≤ n)
            (ap (λ (c : RaidConfig). max min_resident_blocks c.max_resident_blocks)
              (Moves-config (Steps-Moves both)))
            trimmed.1,
      )

  pub infer_from-Steps :
      (n : ℕ) (m : LlmMemoryMapper) (layer : ℕ) (now : ℕ → ℕ → ℕ)
      → IsPlaced 0 m.aperture
      → Allows Q m.manifest
      → layer + n ≤ m.manifest.num_layers
      → resident_count m ≤ allowance m
      → let m' = (infer_from sha256_hex n m layer now).0 in
        Steps Q m m' × (resident_count m' ≤ allowance m')
  unfolding infer_from
  infer_from-Steps zero m layer now placed allows le within = (stop, within)
  infer_from-Steps (suc n) m layer now placed allows le within =
      let m' = (infer_layer sha256_hex m layer (now layer)).0 in
      let first = infer_layer-Steps m layer (now layer) placed allows (omega (arith, le)) in
      let same = Steps-manifest first.0 in
      let still : suc layer + n ≤ m'.manifest.num_layers =
        subst (λ (manifest : ModelManifest). suc layer + n ≤ manifest.num_layers) (sym same)
          (omega (arith, le)) in
      let within' : resident_count m' ≤ allowance m' =
        subst
          (λ (c : RaidConfig). resident_count m' ≤ max min_resident_blocks c.max_resident_blocks)
          (sym (Moves-config (Steps-Moves first.0))) first.1 in
      let rest =
        infer_from-Steps n m' (suc layer) now (Steps-IsPlaced first.0 placed)
          (subst (Allows Q) (sym same) allows) still within' in
      (Steps-trans first.0 rest.0, rest.1)

-- Every block of the aperture stands at its index, the blocks in RAM are within the allowance, and the
-- controller is well-formed.
pub record IsSound (m : LlmMemoryMapper) : Type 0 where
  pub placed : IsPlaced 0 m.aperture
  pub within : resident_count m ≤ allowance m
  pub valid : IsValid m.raid_controller

-- Any index.
AnyIndex : ℕ → Type 0
AnyIndex i = Unit

any_index : (is : List ℕ) → All AnyIndex is
unfolding AnyIndex
any_index [] = tt
any_index (i ∷ is) = (tt, any_index is)

-- A run of inference keeps a sound mapper sound: every block of the aperture stands at its index,
-- the blocks in RAM are at most the budget or the four that eviction spares, whichever is more,
-- and the RAID controller under it is well-formed; it keeps the manifest and the configuration
-- too.
pub simulate_inference-IsSound :
    (sha256_hex : List ℕ → String) (m : LlmMemoryMapper) (now : ℕ → ℕ → ℕ)
    → IsSound m
    → let m' = (simulate_inference sha256_hex m now).0 in
      IsSound m'
      × (m'.manifest ≡ m.manifest)
      × (m'.raid_controller.config ≡ m.raid_controller.config)
unfolding simulate_inference
simulate_inference-IsSound sha256_hex m now sound =
    let n = m.manifest.num_layers in
    let out =
      infer_from-Steps sha256_hex {Q = AnyIndex} n m 0 now sound.placed
        (λ l lt. any_index (layer_blocks m.manifest l)) (omega arith) sound.within in
    (
      record {
        placed = Steps-IsPlaced out.0 sound.placed;
        within = out.1;
        valid = Moves-IsValid (Steps-Moves out.0) sound.valid;
      },
      Steps-manifest out.0,
      Moves-config (Steps-Moves out.0),
    )
