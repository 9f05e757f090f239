-- ===== src/Mapper/Inference.antt =====
-- crates/trust-kernel/src/llm_mapper.rs: the eviction of cold blocks, a run of inference, the heartbeat and
-- the map. The clock of the controller is an argument by layer and block.
use spaceshuttle.Prelude.{
  ℕ, zero, suc, ◌-◌, List, [], ◌∷◌, String, Bool, true, false, Option, none, some, ltb, leb,
  if◌then◌else◌, get_elem?, set, add64,
}
use spaceshuttle.Prelude.Text.{format}
use spaceshuttle.Raid.Workload.{proactive_evict}
use spaceshuttle.Mapper.Aperture.{
  ApertureStatus, unmapped, loading, mapped, evicted, ApertureBlock, LlmMemoryMapper,
  min_resident_blocks, in_ram, resident_count,
}
use spaceshuttle.Mapper.Layers.{LayerResult, materialize_layer, prefetch_layers}

pub record InferenceResult : Type 0 where
  pub layers_processed : ℕ
  pub total_blocks_loaded : ℕ
  pub total_prefetched : ℕ
  pub total_evicted : ℕ
  pub cache_hits : ℕ
  pub bytes_transferred : ℕ
  pub layer_results : List LayerResult

-- The indices of the resident blocks, and a stable sort of them by the accesses to their blocks.
abbrev pub resident_indices : List ApertureBlock → List ℕ
resident_indices [] = []
resident_indices (b ∷ bs) =
    let rest = resident_indices bs in if in_ram b then b.index ∷ rest else rest

-- An index out of bounds panics in the code; the indices of a manifest are positions.
abbrev pub accesses : List ApertureBlock → ℕ → ℕ
accesses bs i = elim (get_elem? bs i) [ none ↦ 0 | some b ↦ b.access_count ]

abbrev pub insert_by : (ℕ → ℕ) → ℕ → List ℕ → List ℕ
insert_by key i [] = i ∷ []
insert_by key i (j ∷ js) = elim (leb (key i) (key j)) [
  | true ↦ i ∷ j ∷ js
  | false ↦ j ∷ insert_by key i js
]

abbrev pub sort_by_key : (ℕ → ℕ) → List ℕ → List ℕ
sort_by_key key [] = []
sort_by_key key (i ∷ is) = insert_by key i (sort_by_key key is)

module _ (sha256_hex : List ℕ → String) where
  -- One block goes, and the controller evicts what it chooses.
  unfoldable pub evict_at : LlmMemoryMapper → ℕ → ApertureBlock → LlmMemoryMapper
  unfolding proactive_evict
  evict_at m i b = record m {
    aperture = set m.aperture i (record b { status = evicted });
    raid_controller = (proactive_evict sha256_hex m.raid_controller).0;
    stats = record m.stats { blocks_evicted = add64 m.stats.blocks_evicted 1 };
  }

  unfoldable pub evict_index : LlmMemoryMapper → ℕ → Option ApertureBlock → LlmMemoryMapper
  unfolding evict_at
  evict_index m i none = m
  evict_index m i (some b) = evict_at m i b

  -- The loop over the indices, with the blocks evicted so far.
  unfoldable pub evict_each : LlmMemoryMapper → List ℕ → ℕ → ℕ → LlmMemoryMapper × ℕ
  unfolding resident_count evict_index
  evict_each m [] target_free n = (m, n)
  evict_each m (i ∷ is) target_free n =
      let rest = evict_each (evict_index m i (get_elem? m.aperture i)) is target_free (suc n) in
      if leb target_free n
      then (m, n)
      else if leb (resident_count m) min_resident_blocks
      then (m, n)
      else rest

  unfoldable pub evict_cold_blocks : LlmMemoryMapper → ℕ → LlmMemoryMapper × ℕ
  unfolding evict_each
  evict_cold_blocks m target_free =
      evict_each m (sort_by_key (accesses m.aperture) (resident_indices m.aperture)) target_free 0

  -- The eviction down to the budget.
  unfoldable pub trim : LlmMemoryMapper → LlmMemoryMapper
  unfolding resident_count evict_cold_blocks
  trim m =
      let most = m.raid_controller.config.max_resident_blocks in
      if ltb most (resident_count m) then (evict_cold_blocks m (resident_count m - most)).0 else m

  unfoldable pub infer_layer : LlmMemoryMapper → ℕ → (ℕ → ℕ) → LlmMemoryMapper × LayerResult
  unfolding materialize_layer prefetch_layers trim
  infer_layer m layer now =
      let (m', t) = materialize_layer sha256_hex m layer now in
      (trim (prefetch_layers sha256_hex m' layer now).0, t)

  -- `n` layers from `layer` on.
  unfoldable pub infer_from :
      ℕ → LlmMemoryMapper → ℕ → (ℕ → ℕ → ℕ) → LlmMemoryMapper × List LayerResult
  unfolding infer_layer
  infer_from zero m layer now = (m, [])
  infer_from (suc n) m layer now =
      let (m', t) = infer_layer m layer (now layer) in
      let (m'', ts) = infer_from n m' (suc layer) now in (m'', t ∷ ts)

  unfoldable pub simulate_inference :
      LlmMemoryMapper → (ℕ → ℕ → ℕ) → LlmMemoryMapper × InferenceResult
  unfolding infer_from
  simulate_inference m now =
      let (m', results) = infer_from m.manifest.num_layers m 0 now in
      (
        m',
        record {
          layers_processed = m'.manifest.num_layers;
          total_blocks_loaded = m'.stats.blocks_materialized;
          total_prefetched = m'.stats.blocks_prefetched;
          total_evicted = m'.stats.blocks_evicted;
          cache_hits = m'.stats.cache_hits;
          bytes_transferred = add64 m'.stats.bytes_from_remote m'.stats.bytes_from_local;
          layer_results = results;
        },
      )

-- The answer to a heartbeat: the round trip time, and whether the connection is alive. The answer of the
-- ping, if it succeeded, is an argument.
unfoldable pub heartbeat : LlmMemoryMapper → Option ℕ → LlmMemoryMapper × Option (ℕ × Bool)
heartbeat m rtt = elim m.mux_client [
  | none ↦ (m, none)
  | some client ↦ elim rtt [
    | some rtt_us ↦ (
      record m { stats = record m.stats { heartbeats_sent = add64 m.stats.heartbeats_sent 1 } },
      some (rtt_us, true),
    )
    | none ↦ (m, some (0, false))
  ]
]

abbrev pub sign_of : ApertureStatus → String
sign_of (unmapped expected_hash size) = "░"
sign_of loading = "▒"
sign_of mapped = "█"
sign_of evicted = "·"

abbrev pub signs : List ApertureBlock → List String
signs [] = []
signs (b ∷ bs) = sign_of b.status ∷ signs bs

unfoldable pub aperture_map : LlmMemoryMapper → String
aperture_map m = format (signs m.aperture)
