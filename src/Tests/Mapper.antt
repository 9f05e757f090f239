-- ===== src/Tests/Mapper.antt =====
-- A small model in the mapper (crates/trust-kernel/src/llm_mapper.rs).
use spaceshuttle.Prelude.{
  ℕ, ◌+◌, ◌*◌, ◌≡◌, refl, arith, List, [], ◌∷◌, String, some, none, get_elem?, All, map,
}
use spaceshuttle.Raid.Config
use spaceshuttle.Raid.Controller
use spaceshuttle.Raid.Types.{from_block_index}
use spaceshuttle.Mapper.Manifest.{
  ManifestBlock, ModelManifest, synthetic, synthetic_block, layer_blocks, blocks_per_layer,
}
use spaceshuttle.Mapper.Aperture.{
  ApertureBlock, unmapped, LlmMemoryMapper, new, with_ram_budget_blocks, with_prefetch_window,
  resident_count, materialize_block, already_mapped, loaded, out_of_range, local_ram_a,
}
use spaceshuttle.Mapper.Inference.{simulate_inference, heartbeat, aperture_map}
use spaceshuttle.Mapper.Sizes.{sum_block_sizes, IsSized, synthetic-IsSized}
use spaceshuttle.Mapper.Budget.{IsSound, simulate_inference-IsSound}
use spaceshuttle.Mapper.Tail.{
  new-IsSound, with_ram_budget_blocks-IsSound, simulate_inference_skips_tail,
}

-- Seven blocks in three layers: two for each layer, and one behind the last.
abbrev model : ModelManifest
model = synthetic "tiny" 14000000 3 "Q4"

abbrev plain_hash : List ℕ → String
plain_hash bs = "sha256:0"

abbrev clock : ℕ → ℕ → ℕ
clock layer i = 100 * layer + i

sizes_test :
    (map (λ (b : ManifestBlock). b.size) model.blocks
      ≡ 2097152 ∷ 2097152 ∷ 2097152 ∷ 2097152 ∷ 2097152 ∷ 2097152 ∷ 1417088 ∷ [])
    × (layer_blocks model 1 ≡ 2 ∷ 3 ∷ [])
    × (layer_blocks model 3 ≡ 6 ∷ [])
    × (map (λ (b : ManifestBlock). b.label) model.blocks
        ≡ some "layers.0.block.0"
          ∷ some "layers.0.block.1"
          ∷ some "layers.1.block.0"
          ∷ some "layers.1.block.1"
          ∷ some "layers.2.block.0"
          ∷ some "layers.2.block.1"
          ∷ some "layers.3.block.0"
          ∷ [])
unfolding synthetic layer_blocks
sizes_test = (refl, refl, refl, refl)

hash_test :
    (synthetic_block 14000000 3 7 2).hash
    ≡ "000000000000000000000000000000000000000000000001bd5b7ddf95fd757c"
unfolding synthetic_block
hash_test = refl

abbrev mapper : LlmMemoryMapper
mapper = with_prefetch_window (new model) 1

materialize_test :
    ((materialize_block plain_hash mapper 2 5).1 ≡ loaded 2 local_ram_a (some 1))
    × ((materialize_block plain_hash mapper 9 5).1 ≡ out_of_range)
    × ((materialize_block plain_hash (materialize_block plain_hash mapper 2 5).0 2 6).1
        ≡ already_mapped)
unfolding materialize_block new synthetic with_prefetch_window Controller.new Config.new
materialize_test = (refl, refl, refl)

abbrev tight : LlmMemoryMapper
tight = with_ram_budget_blocks (new model) 5

-- All layers are loaded, and the block behind them never is.
inference_test :
    (aperture_map (simulate_inference plain_hash mapper clock).0 ≡ "██████░")
    × ((simulate_inference plain_hash mapper clock).1.total_blocks_loaded ≡ 6)
unfolding simulate_inference aperture_map new synthetic with_prefetch_window Controller.new
    Config.new
inference_test = (refl, refl)

eviction_test :
    (aperture_map (simulate_inference plain_hash tight clock).0 ≡ "·█████░")
    × (resident_count (simulate_inference plain_hash tight clock).0 ≡ 5)
unfolding simulate_inference aperture_map new synthetic with_ram_budget_blocks Controller.new
    Config.new resident_count
eviction_test = (refl, refl)

heartbeat_test : (heartbeat mapper (some 7)).1 ≡ none
unfolding heartbeat new with_prefetch_window
heartbeat_test = refl

synthetic-IsSized_example : (sum_block_sizes model.blocks ≡ 14000000) × All IsSized model.blocks
synthetic-IsSized_example = synthetic-IsSized "tiny" 14000000 3 "Q4" (omega arith)

tight-IsSound : IsSound tight
unfolding resident_count new synthetic
tight-IsSound =
    with_ram_budget_blocks-IsSound (new model) 5 (new-IsSound "tiny" 14000000 3 "Q4") (omega arith)

simulate_inference-IsSound_example :
    let m' = (simulate_inference plain_hash tight clock).0 in
    IsSound m'
    × (m'.manifest ≡ tight.manifest)
    × (m'.raid_controller.config ≡ tight.raid_controller.config)
simulate_inference-IsSound_example = simulate_inference-IsSound plain_hash tight clock tight-IsSound

abbrev last_block : ApertureBlock
last_block = record {
  index = 6;
  layer = some 3;
  stripe = from_block_index 6;
  status = unmapped (synthetic_block 14000000 3 7 6).hash 1417088;
  content_hash = (synthetic_block 14000000 3 7 6).hash;
  size = 1417088;
  access_count = 0;
  label = some "layers.3.block.0";
}

simulate_inference_skips_tail_example :
    get_elem? (simulate_inference plain_hash tight clock).0.aperture 6 ≡ some last_block
unfolding new synthetic with_ram_budget_blocks blocks_per_layer
simulate_inference_skips_tail_example =
    simulate_inference_skips_tail plain_hash tight clock "tiny" 14000000 3 "Q4" 6 last_block refl
      tight-IsSound (omega arith) refl refl
