-- ===== src/Mapper/Loads.antt =====
-- Loading and prefetching layers as steps (crates/trust-kernel/src/llm_mapper.rs).
use spaceshuttle.Prelude.{
  ℕ, zero, suc, ◌≡◌, refl, sym, subst, ◌<◌, List, [], ◌∷◌, String, some, inl, inr, Bool-cases,
  Option-cases, arith, All, length, get_elem?, leb, ◌-◌, add64,
}
use spaceshuttle.Raid.Moves.{done}
use spaceshuttle.Raid.Runs.{simulate_read-Moves}
use spaceshuttle.Mapper.Manifest.{ModelManifest, layer_blocks}
use spaceshuttle.Mapper.Aperture.{
  ApertureStatus, unmapped, loading, mapped, evicted, ApertureBlock, LlmMemoryMapper, load,
  by_status, materialize_block,
}
use spaceshuttle.Mapper.Layers.{
  LayerResult, PrefetchResult, counted_in, is_idle, no_blocks, materialize_each, layer_done,
  materialize_indices, materialize_layer, prefetch_each, prefetch_from, count_prefetched,
  prefetch_layers,
}
use spaceshuttle.Mapper.Steps.{
  turn_none, turn_in, Step, Steps, stop, onward, single, Steps-trans, Steps-manifest,
}

-- The indices of the layers that the model has are allowed.
abbrev pub Allows : (ℕ → Type 0) → ModelManifest → Type 0
Allows Q manifest = (l : ℕ) → l < manifest.num_layers → All Q (layer_blocks manifest l)

module _ (sha256_hex : List ℕ → String) {Q : ℕ → Type 0} where
  load-Steps :
      (m : LlmMemoryMapper) (i : ℕ) (b : ApertureBlock) (now_ns : ℕ)
      → Q i
      → get_elem? m.aperture i ≡ some b
      → Steps Q m (load sha256_hex m i b now_ns).0
  unfolding load
  load-Steps m i b now_ns q found = single (record {
    turned = turn_in i b q found;
    moved = simulate_read-Moves sha256_hex m.raid_controller i now_ns;
    manifest_kept = refl;
    window_kept = refl;
  })

  by_status-Steps :
      (m : LlmMemoryMapper) (i : ℕ) (b : ApertureBlock) (status : ApertureStatus) (now_ns : ℕ)
      → Q i
      → get_elem? m.aperture i ≡ some b
      → Steps Q m (by_status sha256_hex m i b status now_ns).0
  unfolding by_status
  by_status-Steps m i b mapped now_ns q found = single (record {
    turned = turn_in i b q found;
    moved = done;
    manifest_kept = refl;
    window_kept = refl;
  })
  by_status-Steps m i b loading now_ns q found = stop
  by_status-Steps m i b (unmapped hash size) now_ns q found = load-Steps m i b now_ns q found
  by_status-Steps m i b evicted now_ns q found = load-Steps m i b now_ns q found

  pub materialize_block-Steps :
      (m : LlmMemoryMapper) (i now_ns : ℕ)
      → Q i
      → Steps Q m (materialize_block sha256_hex m i now_ns).0
  unfolding materialize_block
  materialize_block-Steps m i now_ns q = elim (Option-cases (get_elem? m.aperture i)) [
    | inl missing ↦ rw (materialize_block, missing) stop
    | inr (b, found) ↦ rw (materialize_block, found) (by_status-Steps m i b b.status now_ns q found)
  ]

  materialize_each-Steps :
      (m : LlmMemoryMapper) (is : List ℕ) (now : ℕ → ℕ) (t : LayerResult)
      → All Q is
      → Steps Q m (materialize_each sha256_hex m is now t).0
  unfolding materialize_each
  materialize_each-Steps m [] now t h = stop
  materialize_each-Steps m (i ∷ is) now t (q, h) =
      let one = materialize_block sha256_hex m i (now i) in
      Steps-trans (materialize_block-Steps m i (now i) q)
        (materialize_each-Steps one.0 is now (counted_in t one.1) h)

  layer_done-Step :
      (o : LlmMemoryMapper × LayerResult) (n : ℕ) → Step Q o.0 (layer_done sha256_hex o n).0
  unfolding layer_done
  layer_done-Step (m, t) n = record {
    turned = turn_none;
    moved = done;
    manifest_kept = refl;
    window_kept = refl;
  }

  materialize_indices-Steps :
      (m : LlmMemoryMapper) (layer : ℕ) (is : List ℕ) (now : ℕ → ℕ)
      → All Q is
      → Steps Q m (materialize_indices sha256_hex m layer is now).0
  unfolding materialize_indices
  materialize_indices-Steps m layer [] now h = stop
  materialize_indices-Steps m layer (i ∷ is) now h =
      onward (materialize_each-Steps m (i ∷ is) now (no_blocks layer) h) (
        layer_done-Step (materialize_each sha256_hex m (i ∷ is) now (no_blocks layer))
          (length (i ∷ is)))

  prefetch_each-Steps :
      (m : LlmMemoryMapper) (is : List ℕ) (now : ℕ → ℕ) (total : ℕ)
      → All Q is
      → Steps Q m (prefetch_each sha256_hex m is now total).0
  unfolding prefetch_each
  prefetch_each-Steps m [] now total h = stop
  prefetch_each-Steps m (i ∷ is) now total (q, h) =
      elim (Bool-cases (is_idle (get_elem? m.aperture i))) [
        | inl idle ↦
            rw (prefetch_each, idle)
              (Steps-trans (materialize_block-Steps m i (now i) q) (
                prefetch_each-Steps (materialize_block sha256_hex m i (now i)).0 is now (suc total)
                  h))
        | inr busy ↦ rw (prefetch_each, busy) (prefetch_each-Steps m is now total h)
      ]

  pub materialize_layer-Steps :
      (m : LlmMemoryMapper) (layer : ℕ) (now : ℕ → ℕ)
      → Allows Q m.manifest
      → layer < m.manifest.num_layers
      → Steps Q m (materialize_layer sha256_hex m layer now).0
  unfolding materialize_layer
  materialize_layer-Steps m layer now allows lt =
      materialize_indices-Steps m layer (layer_blocks m.manifest layer) now (allows layer lt)

  prefetch_from-Steps :
      (n : ℕ) (m : LlmMemoryMapper) (layer : ℕ) (now : ℕ → ℕ) (t : PrefetchResult)
      → Allows Q m.manifest
      → Steps Q m (prefetch_from sha256_hex n m layer now t).0
  unfolding prefetch_from
  prefetch_from-Steps zero m layer now t allows = stop
  prefetch_from-Steps (suc n) m layer now t allows =
      elim (Bool-cases (leb m.manifest.num_layers layer)) [
        | inl over ↦ rw (prefetch_from, over) stop
        | inr more ↦
            let o =
              prefetch_each sha256_hex m (layer_blocks m.manifest layer) now t.blocks_prefetched in
            let first =
              prefetch_each-Steps m (layer_blocks m.manifest layer) now t.blocks_prefetched
                (allows layer (ground arith)) in
            rw (prefetch_from, more)
              (Steps-trans first (
                prefetch_from-Steps n o.0 (suc layer) now
                  (record { layers_ahead = suc t.layers_ahead; blocks_prefetched = o.1 })
                  (subst (Allows Q) (sym (Steps-manifest first)) allows)))
      ]

  pub prefetch_layers-Steps :
      (m : LlmMemoryMapper) (layer : ℕ) (now : ℕ → ℕ)
      → Allows Q m.manifest
      → Steps Q m (prefetch_layers sha256_hex m layer now).0
  unfolding prefetch_layers count_prefetched
  prefetch_layers-Steps m layer now allows =
      onward
        (prefetch_from-Steps (suc (add64 layer m.prefetch_window) - add64 layer 1) m (add64 layer 1)
          now (record { layers_ahead = 0; blocks_prefetched = 0 }) allows)
        (record { turned = turn_none; moved = done; manifest_kept = refl; window_kept = refl })
