-- ===== src/Snapshot/Engine.antt =====
-- crates/trust-kernel/src/snapshot.rs: capturing and storing a snapshot of a memory region.
-- Durations, the printed ratio and the text of the time are left out; what a call reads from the clock
-- comes to it as an argument. The simulated SHA-256 is that of Raid/Simulated, word for word.
use Prim.Native.String.{slice}
use spaceshuttle.Prelude.{
  ℕ, zero, suc, ◌+◌, ◌-◌, ◌*◌, ◌/◌, ◌%◌, List, [], ◌∷◌, ◌++◌, String, Bool, ◌==◌, if◌then◌else◌,
  length, take, replicate, count_if, add64,
}
use spaceshuttle.Prelude.Text.{format, decimal, hex16}
use spaceshuttle.Raid.Simulated.{simulate_sha256, compressed_len}
use spaceshuttle.Pager.Paging.{replace_colons}

abbrev pub tza_magic : List ℕ
tza_magic = 0x54 ∷ 0x42 ∷ 0x5a ∷ []

abbrev pub tza_version : ℕ
tza_version = 1

abbrev pub block_snapshot : ℕ
block_snapshot = 2

abbrev pub tza_header_size : ℕ
tza_header_size = 157

pub record Snapshot : Type 0 where
  pub id : String
  pub intent : String
  pub from_aint : String
  pub bus_seq : ℕ
  pub raw_size : ℕ
  pub compressed_size : ℕ
  pub content_hash : String
  pub compressed_hash : String
  pub ed25519_seal : String
  pub tibet_token_id : String
  pub hugepages : Bool
  pub compressed_data : List ℕ

pub data CaptureResult : Type 0 where
  captured : Snapshot → CaptureResult
  -- reason
  capture_skipped : String → CaptureResult
  capture_failed : String → CaptureResult

pub data StoreResult : Type 0 where
  -- path, bytes_written
  disk : String → ℕ → StoreResult
  -- path, bytes_written, git_hash
  disk_and_git : String → ℕ → String → StoreResult
  -- reason
  store_failed : String → StoreResult

pub record SnapshotEngine : Type 0 where
  pub store_path : String
  pub git_enabled : Bool
  pub zstd_level : ℕ
  pub snapshots_captured : ℕ
  pub bytes_saved : ℕ

unfoldable pub new : String → Bool → SnapshotEngine
new store_path git_enabled = record {
  store_path = store_path;
  git_enabled = git_enabled;
  zstd_level = 3;
  snapshots_captured = 0;
  bytes_saved = 0;
}

-- `resize(size, 0)`
abbrev pub resize : ℕ → List ℕ → List ℕ
resize size bs = take size bs ++ replicate (size - length bs) 0

-- Unlike that of the controller, this one starts with a marker of 5 bytes, cut off again where the
-- compressed size is smaller. The ratio by the share of zeros is the same.
unfoldable pub simulate_zstd_compress : List ℕ → List ℕ
unfolding compressed_len
simulate_zstd_compress raw_data =
    let compressed_size = compressed_len (count_if (λ b. b == 0) raw_data) (length raw_data) in
    let marker = tza_magic ++ tza_version ∷ block_snapshot ∷ [] in
    resize compressed_size (marker ++ take (compressed_size - length marker) raw_data)

unfoldable pub simulate_zstd_decompress : List ℕ → ℕ → List ℕ
simulate_zstd_decompress compressed original_size = replicate original_size 0

unfoldable pub simulate_ed25519_sign : List ℕ → String
unfolding simulate_sha256
simulate_ed25519_sign bs = format ("ed25519_snap:" ∷ slice (simulate_sha256 bs) 7 39 ∷ [])

-- The snapshot of `raw_data`, with the clock in microseconds in its id.
unfoldable pub snapshot_of : List ℕ → String → String → ℕ → Bool → ℕ → Snapshot
unfolding simulate_sha256 simulate_zstd_compress simulate_ed25519_sign replace_colons decimal
snapshot_of raw_data intent from_aint bus_seq hugepages now_us =
    let compressed = simulate_zstd_compress raw_data in
    record {
      id = format ("snap_" ∷ replace_colons "_" intent ∷ "_" ∷ decimal now_us ∷ []);
      intent = intent;
      from_aint = from_aint;
      bus_seq = bus_seq;
      raw_size = length raw_data;
      compressed_size = length compressed;
      content_hash = simulate_sha256 raw_data;
      compressed_hash = simulate_sha256 compressed;
      ed25519_seal = simulate_ed25519_sign compressed;
      tibet_token_id = format ("tibet_snap_seq" ∷ decimal bus_seq ∷ []);
      hugepages = hugepages;
      compressed_data = compressed;
    }

-- The compressed size is never above the raw one, so that `-` does what the code does.
unfoldable pub capture :
    SnapshotEngine → List ℕ → String → String → ℕ → Bool → ℕ → SnapshotEngine × CaptureResult
unfolding snapshot_of
capture e raw_data intent from_aint bus_seq hugepages now_us =
    if length raw_data == 0
    then (e, capture_failed "Cannot snapshot empty region")
    else let snapshot = snapshot_of raw_data intent from_aint bus_seq hugepages now_us in
      (
        record e {
          snapshots_captured = add64 e.snapshots_captured 1;
          bytes_saved = add64 e.bytes_saved (snapshot.raw_size - snapshot.compressed_size);
        },
        captured snapshot,
      )

-- `region.usage()`, of the sandbox.
pub record RegionUsage : Type 0 where
  pub allocated_bytes : ℕ
  pub intent : String
  pub hugepages : Bool

-- `n` bytes of pseudo-data, from byte `i` on.
unfoldable pub pseudo_data : ℕ → ℕ → List ℕ
pseudo_data i zero = []
pseudo_data i (suc n) = (i * 7 + 13) % 256 ∷ pseudo_data (suc i) n

-- The first 30 per cent of the region, cut to whole bytes, hold data.
unfoldable pub capture_region :
    SnapshotEngine → RegionUsage → String → ℕ → ℕ → SnapshotEngine × CaptureResult
unfolding capture pseudo_data
capture_region e usage from_aint bus_seq now_us =
    if usage.allocated_bytes == 0
    then (e, capture_skipped "Region has zero allocations — nothing to snapshot")
    else let data_end = usage.allocated_bytes * 3 / 10 in
      capture e (pseudo_data 0 data_end ++ replicate (usage.allocated_bytes - data_end) 0)
        usage.intent from_aint bus_seq usage.hugepages now_us

-- `{:08x}` of a number below 2 ^ 32: the low half of its 16 digits.
abbrev pub hex8 : ℕ → String
hex8 n = slice (hex16 n) 8 16

-- The git hash is modelled for bus numbers below 2 ^ 32; the file system is left out.
unfoldable pub store : SnapshotEngine → Snapshot → StoreResult
unfolding replace_colons hex16
store e snapshot =
    let path =
      format (
        e.store_path
        ∷ "/"
        ∷ replace_colons "/" snapshot.intent
        ∷ "/"
        ∷ snapshot.id
        ∷ ".tza"
        ∷ []) in
    let bytes_written = snapshot.compressed_size + tza_header_size in
    if e.git_enabled
    then disk_and_git path bytes_written (format ("g" ∷ hex8 snapshot.bus_seq ∷ []))
    else disk path bytes_written
