-- ===== src/Raid/Types.antt =====
-- crates/trust-kernel/src/ram_raid.rs: the blocks of the table.
use spaceshuttle.Prelude.{ℕ, ◌%◌, Bool, true, false, Option, String, ◌==◌, if◌then◌else◌}

pub data RaidStripe : Type 0 where
  ram_a ram_b : RaidStripe

unfoldable pub from_block_index : ℕ → RaidStripe
from_block_index idx = if idx % 2 == 0 then ram_a else ram_b

abbrev pub is_ram_b : RaidStripe → Bool
is_ram_b ram_a = false
is_ram_b ram_b = true

pub data BlockLocation : Type 0 where
  resident : BlockLocation
  -- tza_path, fork_token_id
  local_store : String → String → BlockLocation
  -- kernel_id, endpoint, fork_token_id
  remote_kernel : String → String → String → BlockLocation
  fetching : BlockLocation
  virgin : BlockLocation

-- `location == BlockLocation::Resident`
abbrev pub is_resident : BlockLocation → Bool
is_resident resident = true
is_resident (local_store _ _) = false
is_resident (remote_kernel _ _ _) = false
is_resident fetching = false
is_resident virgin = false

-- A `u64` or `usize` is a number; its operations wrap where the code adds to it.
pub record RaidBlock : Type 0 where
  pub index : ℕ
  pub stripe : RaidStripe
  pub va_offset : ℕ
  pub size : ℕ
  pub location : BlockLocation
  pub content_hash : Option String
  pub seal : Option String
  pub access_count : ℕ
  pub last_access_ns : ℕ
  pub write_count : ℕ
  pub dirty : Bool

-- The results of a fault and of an eviction. Fields that only hold measured durations (`*_us`) are
-- left out: no code reads them. `panicked` is an index out of bounds, where the code panics.
pub data FaultResult : Type 0 where
  already_resident : ℕ → FaultResult
  restored_local : ℕ → FaultResult
  restored_remote : ℕ → FaultResult
  zero_filled : ℕ → FaultResult
  -- evicted_block, restored_block
  evicted_then_restored : ℕ → ℕ → FaultResult
  failed : ℕ → String → FaultResult
  panicked : FaultResult

-- `evicted_local` and `evicted_remote` carry the compressed size.
pub data EvictionResult : Type 0 where
  evicted_local : ℕ → ℕ → EvictionResult
  evicted_remote : ℕ → ℕ → EvictionResult
  dropped : ℕ → EvictionResult
  nothing_to_evict : EvictionResult
  eviction_failed : ℕ → String → EvictionResult
  eviction_panicked : EvictionResult
