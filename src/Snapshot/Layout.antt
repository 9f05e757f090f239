-- ===== src/Snapshot/Layout.antt =====
-- A .tza blob read back (crates/trust-kernel/src/snapshot.rs).
use spaceshuttle.Prelude.{
  ℕ, zero, suc, ◌+◌, ◌-◌, ◌/◌, ◌<◌, ◌≡◌, refl, sym, ap, ◌∙◌, List, ◌++◌, false, arith, min, ltb,
  length, length-append, length-take, length-replicate, take, drop, replicate, drop-drop,
  drop_behind, take_front, u64_mod, get_or, le_bytes, from_le_bytes, from_le_bytes-le_bytes,
}
use spaceshuttle.Prelude.Text.{bytes}
use spaceshuttle.Raid.Simulated.{simulate_sha256}
use spaceshuttle.Snapshot.Engine.{tza_magic, tza_version, block_snapshot, tza_header_size, Snapshot}
use spaceshuttle.Snapshot.Archive.{
  TzaHeader, parsed, padded, build_tza_blob, slice, parse_tza_header,
}

pub length-padded : (size : ℕ) (bs : List ℕ) → length (padded size bs) ≡ size
unfolding padded
length-padded size bs =
    let n = min size (length bs) in
    omega (
      arith,
      length-append (take n bs) (replicate (size - n) 0),
      length-take n bs,
      length-replicate {A = ℕ} (size - n) 0,
    )

length-le_bytes : (k n : ℕ) → length (le_bytes k n) ≡ k
length-le_bytes zero n = refl
length-le_bytes (suc k) n = ap suc (length-le_bytes k (n / 256))

-- Where a part of known length stands, and what stands behind it.
field_at :
    (from size : ℕ) (blob part behind : List ℕ)
    → drop from blob ≡ part ++ behind
    → length part ≡ size
    → (slice from size blob ≡ part) × (drop (from + size) blob ≡ behind)
field_at from size blob part behind e len = (
  ap (take size) e ∙ take_front part behind len,
  sym (drop-drop from size blob) ∙ ap (drop size) e ∙ drop_behind part behind len,
)

module _ (s : Snapshot) (timestamp : ℕ) where
  abbrev intent_part : List ℕ
  intent_part = padded 32 (bytes (simulate_sha256 (bytes s.intent)))

  abbrev blob : List ℕ
  blob = build_tza_blob s timestamp

  abbrev from_hash : List ℕ
  from_hash = padded 32 (bytes s.compressed_hash) ++ s.compressed_data

  abbrev from_seal : List ℕ
  from_seal = padded 64 (bytes s.ed25519_seal) ++ from_hash

  abbrev from_compressed_size : List ℕ
  from_compressed_size = le_bytes 8 s.compressed_size ++ from_seal

  abbrev from_raw_size : List ℕ
  from_raw_size = le_bytes 8 s.raw_size ++ from_compressed_size

  abbrev from_timestamp : List ℕ
  from_timestamp = le_bytes 8 timestamp ++ from_raw_size

  begins : drop 5 blob ≡ intent_part ++ from_timestamp
  unfolding build_tza_blob
  begins = refl

  starts :
      (take 3 blob ≡ tza_magic)
      × (get_or blob 3 0 ≡ tza_version)
      × (get_or blob 4 0 ≡ block_snapshot)
  unfolding build_tza_blob
  starts = (refl, refl, refl)

  length-blob : length blob ≡ 157 + length s.compressed_data
  unfolding build_tza_blob
  length-blob = omega (
    arith,
    length-append intent_part from_timestamp,
    length-append (le_bytes 8 timestamp) from_raw_size,
    length-append (le_bytes 8 s.raw_size) from_compressed_size,
    length-append (le_bytes 8 s.compressed_size) from_seal,
    length-append (padded 64 (bytes s.ed25519_seal)) from_hash,
    length-append (padded 32 (bytes s.compressed_hash)) s.compressed_data,
    length-padded 32 (bytes (simulate_sha256 (bytes s.intent))),
    length-le_bytes 8 timestamp,
    length-le_bytes 8 s.raw_size,
    length-le_bytes 8 s.compressed_size,
    length-padded 64 (bytes s.ed25519_seal),
    length-padded 32 (bytes s.compressed_hash),
  )

  layout :
      (slice 5 32 blob ≡ intent_part)
      × (slice 37 8 blob ≡ le_bytes 8 timestamp)
      × (slice 45 8 blob ≡ le_bytes 8 s.raw_size)
      × (slice 53 8 blob ≡ le_bytes 8 s.compressed_size)
      × (drop 157 blob ≡ s.compressed_data)
  layout =
      let (intent, from_37) =
        field_at 5 32 blob intent_part from_timestamp begins
          (length-padded 32 (bytes (simulate_sha256 (bytes s.intent)))) in
      let (time, from_45) =
        field_at 37 8 blob (le_bytes 8 timestamp) from_raw_size from_37
          (length-le_bytes 8 timestamp) in
      let (raw, from_53) =
        field_at 45 8 blob (le_bytes 8 s.raw_size) from_compressed_size from_45
          (length-le_bytes 8 s.raw_size) in
      let (compressed, from_61) =
        field_at 53 8 blob (le_bytes 8 s.compressed_size) from_seal from_53
          (length-le_bytes 8 s.compressed_size) in
      let (_, from_125) =
        field_at 61 64 blob (padded 64 (bytes s.ed25519_seal)) from_hash from_61
          (length-padded 64 (bytes s.ed25519_seal)) in
      let (_, from_157) =
        field_at 125 32 blob (padded 32 (bytes s.compressed_hash)) s.compressed_data from_125
          (length-padded 32 (bytes s.compressed_hash)) in
      (intent, time, raw, compressed, from_157)

  -- The header of the blob.
  abbrev pub header : TzaHeader
  header = record {
    version = tza_version;
    block_type = block_snapshot;
    intent_hash = intent_part;
    timestamp = timestamp;
    raw_size = s.raw_size;
    compressed_size = s.compressed_size;
    data_offset = tza_header_size;
  }

  parse_fields :
      timestamp < u64_mod
      → s.raw_size < u64_mod
      → s.compressed_size < u64_mod
      → parse_tza_header blob ≡ parsed header
  unfolding parse_tza_header
  parse_fields time raw compressed =
      let (at_5, at_37, at_45, at_53, _) = layout in
      let long : ltb (length blob) 157 ≡ false = ground (arith, length-blob) in
      let (magic, version, block_type) = starts in
      let time_read = ap from_le_bytes at_37 ∙ from_le_bytes-le_bytes 8 timestamp time in
      let raw_read = ap from_le_bytes at_45 ∙ from_le_bytes-le_bytes 8 s.raw_size raw in
      let size_read =
        ap from_le_bytes at_53 ∙ from_le_bytes-le_bytes 8 s.compressed_size compressed in
      rw (long, magic, version)
        (λ i. parsed (record {
          version = tza_version;
          block_type = block_type i;
          intent_hash = at_5 i;
          timestamp = time_read i;
          raw_size = raw_read i;
          compressed_size = size_read i;
          data_offset = tza_header_size;
        }))

  -- With the time and both sizes below 2 ^ 64, the header of a snapshot's blob is read back as it
  -- was written (version, block type, hash of the intent, time, both sizes), the compressed data
  -- stands right behind the header, and the blob is the header and that data.
  pub parse_tza_header-build_tza_blob :
      timestamp < u64_mod
      → s.raw_size < u64_mod
      → s.compressed_size < u64_mod
      → (parse_tza_header blob ≡ parsed header)
        × (drop tza_header_size blob ≡ s.compressed_data)
        × (length blob ≡ tza_header_size + length s.compressed_data)
  parse_tza_header-build_tza_blob time raw compressed =
      let (_, _, _, _, data_part) = layout in
      (parse_fields time raw compressed, data_part, length-blob)
