-- ===== src/Mapper/Aperture.antt =====
-- crates/trust-kernel/src/llm_mapper.rs: `LlmMemoryMapper`, its blocks and their materialization. Measured
-- durations and the times at which a block came and went are left out: no code reads them. What the RAID
-- controller reads from the clock is an argument; a fault at a block of its table does not panic
-- (Raid/Faults). The handle of the runtime is left out.
use spaceshuttle.Prelude.{
  ℕ, ◌/◌, max, List, String, Bool, true, false, Option, none, some, map, count_if, get_elem?, set,
  add64, mul64,
}
use spaceshuttle.Cluster.BlockStore.{BlockStore}
use spaceshuttle.Cluster.MuxClient.{ClusterMuxClient}
use spaceshuttle.Raid.Types.{RaidStripe, from_block_index, ram_a, ram_b}
use spaceshuttle.Raid.Config
use spaceshuttle.Raid.Config.{with_max_resident}
use spaceshuttle.Raid.Controller
use spaceshuttle.Raid.Controller.{RamRaid}
use spaceshuttle.Raid.Workload.{simulate_read}
use spaceshuttle.Mapper.Manifest.{ManifestBlock, ModelManifest}

abbrev pub default_prefetch_window : ℕ
default_prefetch_window = 4

abbrev pub min_resident_blocks : ℕ
min_resident_blocks = 4

pub data ApertureStatus : Type 0 where
  -- expected_hash, size
  unmapped : String → ℕ → ApertureStatus
  loading mapped evicted : ApertureStatus

pub record ApertureBlock : Type 0 where
  pub index : ℕ
  pub layer : Option ℕ
  pub stripe : RaidStripe
  pub status : ApertureStatus
  pub content_hash : String
  pub size : ℕ
  pub access_count : ℕ
  pub label : Option String

pub record MapperStats : Type 0 where
  pub faults_handled : ℕ
  pub blocks_materialized : ℕ
  pub blocks_evicted : ℕ
  pub blocks_prefetched : ℕ
  pub cache_hits : ℕ
  pub bytes_from_remote : ℕ
  pub bytes_from_local : ℕ
  pub heartbeats_sent : ℕ
  pub current_layer : ℕ
  pub layers_complete : ℕ

pub record LlmMemoryMapper : Type 0 where
  pub manifest : ModelManifest
  pub aperture : List ApertureBlock
  pub raid_controller : RamRaid
  pub mux_client : Option ClusterMuxClient
  pub local_store : Option BlockStore
  pub prefetch_window : ℕ
  pub stats : MapperStats
  pub active : Bool

unfoldable pub aperture_block : ManifestBlock → ApertureBlock
unfolding from_block_index
aperture_block b = record {
  index = b.index;
  layer = b.layer;
  stripe = from_block_index b.index;
  status = unmapped b.hash b.size;
  content_hash = b.hash;
  size = b.size;
  access_count = 0;
  label = b.label;
}

unfoldable pub new : ModelManifest → LlmMemoryMapper
unfolding aperture_block Config.new Controller.new
new manifest = record {
  manifest = manifest;
  aperture = map aperture_block manifest.blocks;
  raid_controller =
      Controller.new (Config.new (mul64 manifest.num_blocks manifest.block_size) "mapper.aint");
  mux_client = none;
  local_store = none;
  prefetch_window = default_prefetch_window;
  stats = record {
    faults_handled = 0;
    blocks_materialized = 0;
    blocks_evicted = 0;
    blocks_prefetched = 0;
    cache_hits = 0;
    bytes_from_remote = 0;
    bytes_from_local = 0;
    heartbeats_sent = 0;
    current_layer = 0;
    layers_complete = 0;
  };
  active = true;
}

unfoldable pub with_mux_transport : LlmMemoryMapper → ClusterMuxClient → LlmMemoryMapper
unfolding Controller.with_mux_transport
with_mux_transport m client = record m {
  raid_controller = Controller.with_mux_transport m.raid_controller client;
  mux_client = some client;
}

unfoldable pub with_local_store : LlmMemoryMapper → BlockStore → LlmMemoryMapper
unfolding Controller.with_local_block_store
with_local_store m store = record m {
  raid_controller = Controller.with_local_block_store m.raid_controller store;
  local_store = some store;
}

unfoldable pub with_prefetch_window : LlmMemoryMapper → ℕ → LlmMemoryMapper
with_prefetch_window m window = record m { prefetch_window = window }

unfoldable pub with_ram_budget_blocks : LlmMemoryMapper → ℕ → LlmMemoryMapper
unfolding with_max_resident
with_ram_budget_blocks m max_blocks = record m {
  raid_controller = record m.raid_controller {
    config = with_max_resident m.raid_controller.config max_blocks;
  };
}

-- A block size of 0 panics in the code; `synthetic` never sets it.
unfoldable pub with_ram_budget_bytes : LlmMemoryMapper → ℕ → LlmMemoryMapper
unfolding with_ram_budget_blocks
with_ram_budget_bytes m bytes =
    with_ram_budget_blocks m (max (bytes / m.manifest.block_size) min_resident_blocks)

abbrev pub is_unmapped : ApertureStatus → Bool
is_unmapped (unmapped expected_hash size) = true
is_unmapped loading = false
is_unmapped mapped = false
is_unmapped evicted = false

abbrev pub is_mapped : ApertureStatus → Bool
is_mapped (unmapped expected_hash size) = false
is_mapped loading = false
is_mapped mapped = true
is_mapped evicted = false

abbrev pub is_evicted : ApertureStatus → Bool
is_evicted (unmapped expected_hash size) = false
is_evicted loading = false
is_evicted mapped = false
is_evicted evicted = true

-- `matches!(b.status, ApertureStatus::Resident { .. })`
abbrev pub in_ram : ApertureBlock → Bool
in_ram b = is_mapped b.status

unfoldable pub unmapped_count : LlmMemoryMapper → ℕ
unmapped_count m = count_if (λ (b : ApertureBlock). is_unmapped b.status) m.aperture

unfoldable pub resident_count : LlmMemoryMapper → ℕ
resident_count m = count_if in_ram m.aperture

unfoldable pub evicted_count : LlmMemoryMapper → ℕ
evicted_count m = count_if (λ (b : ApertureBlock). is_evicted b.status) m.aperture

pub data BlockSource : Type 0 where
  local_ram_a remote_ram_b : BlockSource

pub data MaterializeResult : Type 0 where
  already_mapped in_progress : MaterializeResult
  -- block_index, source, layer
  loaded : ℕ → BlockSource → Option ℕ → MaterializeResult
  out_of_range : MaterializeResult

-- The block after an access, in the given state.
abbrev pub accessed : ApertureBlock → ApertureStatus → ApertureBlock
accessed b status = record b { status = status; access_count = add64 b.access_count 1 }

abbrev pub source_of : RaidStripe → BlockSource
source_of ram_a = local_ram_a
source_of ram_b = remote_ram_b

unfoldable pub count_loaded : MapperStats → ApertureBlock → BlockSource → MapperStats
count_loaded s b local_ram_a = record s {
  faults_handled = add64 s.faults_handled 1;
  blocks_materialized = add64 s.blocks_materialized 1;
  bytes_from_local = add64 s.bytes_from_local b.size;
}
count_loaded s b remote_ram_b = record s {
  faults_handled = add64 s.faults_handled 1;
  blocks_materialized = add64 s.blocks_materialized 1;
  bytes_from_remote = add64 s.bytes_from_remote b.size;
}

module _ (sha256_hex : List ℕ → String) where
  -- The block is read through the controller, whatever comes of that.
  unfoldable pub load :
      LlmMemoryMapper → ℕ → ApertureBlock → ℕ → LlmMemoryMapper × MaterializeResult
  unfolding simulate_read count_loaded
  load m block_index b now_ns = (
    record m {
      raid_controller = (simulate_read sha256_hex m.raid_controller block_index now_ns).0;
      aperture = set m.aperture block_index (accessed b mapped);
      stats = count_loaded m.stats b (source_of b.stripe);
    },
    loaded block_index (source_of b.stripe) b.layer,
  )

  unfoldable pub by_status :
      LlmMemoryMapper → ℕ → ApertureBlock → ApertureStatus → ℕ → LlmMemoryMapper × MaterializeResult
  unfolding load
  by_status m block_index b mapped now_ns =
      (record m { aperture = set m.aperture block_index (accessed b mapped) }, already_mapped)
  by_status m block_index b loading now_ns = (m, in_progress)
  by_status m block_index b (unmapped expected_hash size) now_ns = load m block_index b now_ns
  by_status m block_index b evicted now_ns = load m block_index b now_ns

  unfoldable pub materialize_block : LlmMemoryMapper → ℕ → ℕ → LlmMemoryMapper × MaterializeResult
  unfolding by_status
  materialize_block m block_index now_ns = elim (get_elem? m.aperture block_index) [
    | none ↦ (m, out_of_range)
    | some b ↦ by_status m block_index b b.status now_ns
  ]
