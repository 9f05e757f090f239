-- ===== src/Mapper/Layers.antt =====
-- crates/trust-kernel/src/llm_mapper.rs: the layers of a model, loaded and prefetched. What the controller
-- reads from the clock while a block is loaded is an argument by block.
use spaceshuttle.Prelude.{
  ℕ, zero, suc, ◌+◌, ◌-◌, List, [], ◌∷◌, String, Bool, true, false, ◌||◌, Option, none, some, ◌==◌,
  leb, if◌then◌else◌, length, get_elem?, add64,
}
use spaceshuttle.Mapper.Manifest.{layer_blocks}
use spaceshuttle.Mapper.Aperture.{
  is_unmapped, is_evicted, ApertureBlock, LlmMemoryMapper, local_ram_a, remote_ram_b,
  MaterializeResult, already_mapped, in_progress, loaded, out_of_range, materialize_block,
}

pub record LayerResult : Type 0 where
  pub layer : ℕ
  pub blocks_loaded : ℕ
  pub blocks_already_resident : ℕ
  pub blocks_from_remote : ℕ
  pub blocks_from_local : ℕ

pub record PrefetchResult : Type 0 where
  pub layers_ahead : ℕ
  pub blocks_prefetched : ℕ

abbrev pub no_blocks : ℕ → LayerResult
no_blocks layer = record {
  layer = layer;
  blocks_loaded = 0;
  blocks_already_resident = 0;
  blocks_from_remote = 0;
  blocks_from_local = 0;
}

-- The counters of the loop over a layer's blocks, after one more of them.
abbrev pub counted_in : LayerResult → MaterializeResult → LayerResult
counted_in t (loaded block_index remote_ram_b layer) = record t {
  blocks_loaded = suc t.blocks_loaded;
  blocks_from_remote = suc t.blocks_from_remote;
}
counted_in t (loaded block_index local_ram_a layer) = record t {
  blocks_loaded = suc t.blocks_loaded;
  blocks_from_local = suc t.blocks_from_local;
}
counted_in t already_mapped = record t { blocks_already_resident = suc t.blocks_already_resident }
counted_in t in_progress = t
counted_in t out_of_range = t

-- `matches!(self.aperture.get(idx).map(|b| &b.status), Some(Unmapped) | Some(Evicted))`
abbrev pub is_idle : Option ApertureBlock → Bool
is_idle none = false
is_idle (some b) = is_unmapped b.status || is_evicted b.status

module _ (sha256_hex : List ℕ → String) where
  -- The loop over the indices of a layer.
  unfoldable pub materialize_each :
      LlmMemoryMapper → List ℕ → (ℕ → ℕ) → LayerResult → LlmMemoryMapper × LayerResult
  unfolding materialize_block
  materialize_each m [] now t = (m, t)
  materialize_each m (i ∷ is) now t =
      let (m', result) = materialize_block sha256_hex m i (now i) in
      materialize_each m' is now (counted_in t result)

  -- The statistics after a layer of `n` blocks.
  unfoldable pub layer_done : LlmMemoryMapper × LayerResult → ℕ → LlmMemoryMapper × LayerResult
  layer_done (m, t) n = (
    record m {
      stats = record m.stats {
        current_layer = t.layer;
        layers_complete =
            if t.blocks_loaded + t.blocks_already_resident == n
            then add64 m.stats.layers_complete 1
            else m.stats.layers_complete;
      };
    },
    t,
  )

  unfoldable pub materialize_indices :
      LlmMemoryMapper → ℕ → List ℕ → (ℕ → ℕ) → LlmMemoryMapper × LayerResult
  unfolding materialize_each layer_done
  materialize_indices m layer [] now = (m, no_blocks layer)
  materialize_indices m layer (i ∷ is) now =
      layer_done (materialize_each m (i ∷ is) now (no_blocks layer)) (length (i ∷ is))

  unfoldable pub materialize_layer : LlmMemoryMapper → ℕ → (ℕ → ℕ) → LlmMemoryMapper × LayerResult
  unfolding materialize_indices layer_blocks
  materialize_layer m layer now = materialize_indices m layer (layer_blocks m.manifest layer) now

  -- The loop over the blocks of one layer ahead, with the number of blocks prefetched so far.
  unfoldable pub prefetch_each : LlmMemoryMapper → List ℕ → (ℕ → ℕ) → ℕ → LlmMemoryMapper × ℕ
  unfolding materialize_block
  prefetch_each m [] now total = (m, total)
  prefetch_each m (i ∷ is) now total = elim (is_idle (get_elem? m.aperture i)) [
    | true ↦ prefetch_each (materialize_block sha256_hex m i (now i)).0 is now (suc total)
    | false ↦ prefetch_each m is now total
  ]

  -- `n` layers from `layer` on, as far as the model has them.
  unfoldable pub prefetch_from :
      ℕ → LlmMemoryMapper → ℕ → (ℕ → ℕ) → PrefetchResult → LlmMemoryMapper × PrefetchResult
  unfolding prefetch_each layer_blocks
  prefetch_from zero m layer now t = (m, t)
  prefetch_from (suc n) m layer now t =
      let (m', total) = prefetch_each m (layer_blocks m.manifest layer) now t.blocks_prefetched in
      let rest =
        prefetch_from n m' (suc layer) now
          (record { layers_ahead = suc t.layers_ahead; blocks_prefetched = total }) in
      if leb m.manifest.num_layers layer then (m, t) else rest

  unfoldable pub count_prefetched : LlmMemoryMapper → ℕ → LlmMemoryMapper
  count_prefetched m total = record m {
    stats = record m.stats { blocks_prefetched = add64 m.stats.blocks_prefetched total };
  }

  -- The bounds of the loop are `usize` sums, which wrap.
  unfoldable pub prefetch_layers : LlmMemoryMapper → ℕ → (ℕ → ℕ) → LlmMemoryMapper × PrefetchResult
  unfolding prefetch_from count_prefetched
  prefetch_layers m current_layer now =
      let first = add64 current_layer 1 in
      let last = add64 current_layer m.prefetch_window in
      let (m', t) =
        prefetch_from (suc last - first) m first now
          (record { layers_ahead = 0; blocks_prefetched = 0 }) in
      (count_prefetched m' t.blocks_prefetched, t)
