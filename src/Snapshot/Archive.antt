-- ===== src/Snapshot/Archive.antt =====
-- crates/trust-kernel/src/snapshot.rs: the .tza blob of a snapshot, and its header read back.
use spaceshuttle.Prelude.{
  ℕ, ◌-◌, List, [], ◌∷◌, ◌++◌, String, Bool, true, not, ◌==◌, ltb, if◌then◌else◌, length, take,
  drop, replicate, get_or, min, le_bytes, from_le_bytes, same_bytes,
}
use spaceshuttle.Prelude.Text.{format, decimal, bytes}
use spaceshuttle.Raid.Simulated.{simulate_sha256}
use spaceshuttle.Snapshot.Engine.{
  tza_magic, tza_version, block_snapshot, tza_header_size, Snapshot, CaptureResult, captured,
  capture_skipped, capture_failed, SnapshotEngine, capture, simulate_zstd_decompress,
}

pub record TzaHeader : Type 0 where
  pub version : ℕ
  pub block_type : ℕ
  -- The bytes of the text; they are ASCII where `build_tza_blob` wrote them.
  pub intent_hash : List ℕ
  pub timestamp : ℕ
  pub raw_size : ℕ
  pub compressed_size : ℕ
  pub data_offset : ℕ

pub data HeaderResult : Type 0 where
  parsed : TzaHeader → HeaderResult
  refused : String → HeaderResult

-- Cut or filled with zeros to `size` bytes.
unfoldable pub padded : ℕ → List ℕ → List ℕ
padded size bs = take (min size (length bs)) bs ++ replicate (size - min size (length bs)) 0

-- The fields behind the version and the block type, and the data.
unfoldable pub build_tza_blob : Snapshot → ℕ → List ℕ
unfolding padded simulate_sha256
build_tza_blob snapshot timestamp =
    tza_magic
    ++ tza_version
      ∷ block_snapshot
      ∷ (padded 32 (bytes (simulate_sha256 (bytes snapshot.intent)))
          ++ (le_bytes 8 timestamp
              ++ (le_bytes 8 snapshot.raw_size
                  ++ (le_bytes 8 snapshot.compressed_size
                      ++ (padded 64 (bytes snapshot.ed25519_seal)
                          ++ (padded 32 (bytes snapshot.compressed_hash)
                              ++ snapshot.compressed_data))))))

-- `{:?}` of three bytes.
abbrev pub debug_bytes : ℕ → ℕ → ℕ → String
debug_bytes a b c = format ("[" ∷ decimal a ∷ ", " ∷ decimal b ∷ ", " ∷ decimal c ∷ "]" ∷ [])

abbrev pub slice : ℕ → ℕ → List ℕ → List ℕ
slice from size blob = take size (drop from blob)

unfoldable pub parse_tza_header : List ℕ → HeaderResult
parse_tza_header blob =
    if ltb (length blob) tza_header_size
    then refused (
        format (
          "Blob too small: "
          ∷ decimal (length blob)
          ∷ " < "
          ∷ decimal tza_header_size
          ∷ " bytes"
          ∷ []))
    else if not (same_bytes (take 3 blob) tza_magic)
    then refused (
        format (
          "Invalid magic: "
          ∷ debug_bytes (get_or blob 0 0) (get_or blob 1 0) (get_or blob 2 0)
          ∷ " (expected TBZ)"
          ∷ []))
    else if not (get_or blob 3 0 == tza_version)
    then refused (
        format (
          "Unsupported version: "
          ∷ decimal (get_or blob 3 0)
          ∷ " (expected "
          ∷ decimal tza_version
          ∷ ")"
          ∷ []))
    else parsed (record {
      version = get_or blob 3 0;
      block_type = get_or blob 4 0;
      intent_hash = slice 5 32 blob;
      timestamp = from_le_bytes (slice 37 8 blob);
      raw_size = from_le_bytes (slice 45 8 blob);
      compressed_size = from_le_bytes (slice 53 8 blob);
      data_offset = tza_header_size;
    })

pub data RoundtripResult : Type 0 where
  -- raw_size, compressed_size, blob_size, size_match, hash_match
  roundtrip_success : ℕ → ℕ → ℕ → Bool → Bool → RoundtripResult
  roundtrip_failed : String → RoundtripResult

unfoldable pub after_parse : List ℕ → List ℕ → HeaderResult → RoundtripResult
unfolding simulate_zstd_decompress
after_parse raw_data blob (refused e) = roundtrip_failed e
after_parse raw_data blob (parsed header) =
    let compressed = drop header.data_offset blob in
    let decompressed = simulate_zstd_decompress compressed header.raw_size in
    roundtrip_success (length raw_data) (length compressed) (length blob)
      (length decompressed == length raw_data) true

unfoldable pub after_capture :
    List ℕ → ℕ → SnapshotEngine × CaptureResult → SnapshotEngine × RoundtripResult
unfolding build_tza_blob parse_tza_header after_parse
after_capture raw_data timestamp (e, capture_failed reason) = (e, roundtrip_failed reason)
after_capture raw_data timestamp (e, capture_skipped reason) = (e, roundtrip_failed reason)
after_capture raw_data timestamp (e, captured snapshot) =
    let blob = build_tza_blob snapshot timestamp in
    (e, after_parse raw_data blob (parse_tza_header blob))

-- The clock is read at the capture, in microseconds, and for the blob, in nanoseconds.
unfoldable pub verify_roundtrip :
    SnapshotEngine → List ℕ → String → String → ℕ → ℕ → ℕ → SnapshotEngine × RoundtripResult
unfolding capture after_capture
verify_roundtrip e raw_data intent from_aint bus_seq now_us timestamp =
    after_capture raw_data timestamp (capture e raw_data intent from_aint bus_seq Bool.false now_us)
