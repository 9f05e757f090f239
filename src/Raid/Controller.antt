-- ===== src/Raid/Controller.antt =====
-- crates/trust-kernel/src/ram_raid.rs: `RamRaidController`, its constructor and its read-outs.
-- The controller is behind one mutex, so each call is one step on this state. `mux_client` and
-- `local_block_store` are its two ways to RAM B.
use spaceshuttle.Prelude.{
  ℕ, zero, suc, ◌*◌, ◌/◌, Bool, true, false, List, [], ◌∷◌, Option, none, some,
}
use spaceshuttle.Cluster.BlockStore.{BlockStore}
use spaceshuttle.Cluster.MuxClient.{ClusterMuxClient}
use spaceshuttle.Raid.Types.{RaidBlock, from_block_index, virgin, is_resident}
use spaceshuttle.Raid.Config.{RaidConfig, block_count}

pub record RamRaid : Type 0 where
  pub config : RaidConfig
  pub blocks : List RaidBlock
  pub resident_count : ℕ
  pub faults_handled : ℕ
  pub evictions_performed : ℕ
  pub bytes_compressed : ℕ
  pub bytes_decompressed : ℕ
  pub remote_transfers : ℕ
  pub zero_pages_served : ℕ
  pub active : Bool
  pub bus_seq : ℕ
  pub lru_clock : ℕ
  pub mux_client : Option ClusterMuxClient
  pub local_block_store : Option BlockStore

-- The body of the loop of `new`.
unfoldable pub virgin_block : ℕ → ℕ → RaidBlock
unfolding from_block_index
virgin_block block_size i = record {
  index = i;
  stripe = from_block_index i;
  va_offset = i * block_size;
  size = block_size;
  location = virgin;
  content_hash = none;
  seal = none;
  access_count = 0;
  last_access_ns = 0;
  write_count = 0;
  dirty = false;
}

-- `for i in i..i + n`
unfoldable pub virgin_blocks : ℕ → ℕ → ℕ → List RaidBlock
unfolding virgin_block
virgin_blocks block_size i zero = []
virgin_blocks block_size i (suc n) = virgin_block block_size i ∷ virgin_blocks block_size (suc i) n

unfoldable pub new : RaidConfig → RamRaid
unfolding virgin_blocks block_count
new config = record {
  config = config;
  blocks = virgin_blocks config.block_size 0 (block_count config);
  resident_count = 0;
  faults_handled = 0;
  evictions_performed = 0;
  bytes_compressed = 0;
  bytes_decompressed = 0;
  remote_transfers = 0;
  zero_pages_served = 0;
  active = true;
  bus_seq = 0;
  lru_clock = 0;
  mux_client = none;
  local_block_store = none;
}

unfoldable pub with_mux_transport : RamRaid → ClusterMuxClient → RamRaid
with_mux_transport r client = record r { mux_client = some client }

unfoldable pub with_local_block_store : RamRaid → BlockStore → RamRaid
with_local_block_store r store = record r { local_block_store = some store }

unfoldable pub block_index_for_addr : RamRaid → ℕ → ℕ
block_index_for_addr r va_offset = va_offset / r.config.block_size

-- `blocks[..].location == BlockLocation::Resident`
abbrev pub resides : RaidBlock → Bool
resides b = is_resident b.location
