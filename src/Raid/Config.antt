-- ===== src/Raid/Config.antt =====
-- crates/trust-kernel/src/ram_raid.rs: `RaidConfig`.
use spaceshuttle.Prelude.{ℕ, ◌*◌, ◌/◌, Option, none, some, String}

-- The fields that the controller reads. It never reads `proactive_eviction`, `track_writes`, `intent`.
pub record RaidConfig : Type 0 where
  pub arena_size : ℕ
  pub block_size : ℕ
  pub max_resident_blocks : ℕ
  pub ram_b_endpoint : Option String
  pub ram_b_kernel_id : Option String
  pub from_aint : String

abbrev pub raid_block_size : ℕ
raid_block_size = 2 * 1024 * 1024

unfoldable pub new : ℕ → String → RaidConfig
new arena_size from_aint = record {
  arena_size = arena_size;
  block_size = raid_block_size;
  max_resident_blocks = arena_size / raid_block_size;
  ram_b_endpoint = none;
  ram_b_kernel_id = none;
  from_aint = from_aint;
}

unfoldable pub with_remote_ram_b : RaidConfig → String → String → RaidConfig
with_remote_ram_b c kernel_id endpoint = record c {
  ram_b_kernel_id = some kernel_id;
  ram_b_endpoint = some endpoint;
  max_resident_blocks = c.max_resident_blocks / 2;
}

unfoldable pub with_max_resident : RaidConfig → ℕ → RaidConfig
with_max_resident c max = record c { max_resident_blocks = max }

-- A block size of 0 panics in the code; `RaidConfig::new` never sets it.
unfoldable pub block_count : RaidConfig → ℕ
block_count c = c.arena_size / c.block_size
