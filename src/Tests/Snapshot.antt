-- ===== src/Tests/Snapshot.antt =====
-- Snapshots at concrete data (crates/trust-kernel/src/snapshot.rs).
use spaceshuttle.Prelude.{
  ℕ, ◌+◌, ◌≡◌, refl, arith, List, [], ◌∷◌, true, false, length, drop, replicate,
}
use spaceshuttle.Prelude.Text.{decimal}
use spaceshuttle.Snapshot.Engine.{
  tza_header_size, new, Snapshot, snapshot_of, capture_region, simulate_zstd_compress, store, disk,
  disk_and_git, capture_skipped,
}
use spaceshuttle.Snapshot.Archive.{
  refused, parsed, build_tza_blob, parse_tza_header, roundtrip_success, verify_roundtrip,
}
use spaceshuttle.Snapshot.Layout.{header, parse_tza_header-build_tza_blob}

abbrev raw : List ℕ
raw = 3 ∷ 1 ∷ 4 ∷ 1 ∷ 5 ∷ replicate 15 9

abbrev taken : Snapshot
taken = snapshot_of raw "code:execute" "root.aint" 12 false 1700000000000000

compress_test : simulate_zstd_compress raw ≡ 0x54 ∷ 0x42 ∷ 0x5a ∷ 1 ∷ 2 ∷ 3 ∷ 1 ∷ 4 ∷ []
unfolding simulate_zstd_compress
compress_test = refl

store_test :
    (store (new "/var/lib" false) taken
      ≡ disk "/var/lib/code/execute/snap_code_execute_1700000000000000.tza" 165)
    × (store (new "/var/lib" true) taken
        ≡ disk_and_git "/var/lib/code/execute/snap_code_execute_1700000000000000.tza" 165
            "g0000000c")
unfolding store new snapshot_of
store_test = (refl, refl)

empty_region_test :
    (capture_region
      (new "/var/lib" false)
      (record { allocated_bytes = 0; intent = "x"; hugepages = true })
      "root.aint"
      1
      0).1
    ≡ capture_skipped "Region has zero allocations — nothing to snapshot"
unfolding capture_region
empty_region_test = refl

wrong_magic_test :
    parse_tza_header (replicate 157 7) ≡ refused "Invalid magic: [7, 7, 7] (expected TBZ)"
unfolding parse_tza_header decimal
wrong_magic_test = refl

parse_tza_header-build_tza_blob_example :
    (parse_tza_header (build_tza_blob taken 99) ≡ parsed (header taken 99))
    × (drop tza_header_size (build_tza_blob taken 99) ≡ taken.compressed_data)
    × (length (build_tza_blob taken 99) ≡ tza_header_size + length taken.compressed_data)
unfolding snapshot_of
parse_tza_header-build_tza_blob_example =
    parse_tza_header-build_tza_blob taken 99 (omega arith) (omega arith) (omega arith)

-- The check of the code passes, though the bytes it restores are zeros.
verify_roundtrip_test :
    (verify_roundtrip (new "/var/lib" false) raw "code:execute" "root.aint" 12 1 99).1
    ≡ roundtrip_success 20 8 (tza_header_size + 8) true true
unfolding verify_roundtrip new
verify_roundtrip_test = refl
