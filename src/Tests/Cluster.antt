-- ===== src/Tests/Cluster.antt =====
-- The block server and its client at concrete links (crates/trust-kernel/src/cluster_mux.rs).
use spaceshuttle.Prelude.{
  ℕ, ◌≡◌, refl, List, [], ◌∷◌, none, some, ltb, if◌then◌else◌, length, take, drop,
}
use spaceshuttle.Prelude.Text.{format, decimal}
use spaceshuttle.Cluster.BlockStore
use spaceshuttle.Cluster.BlockStore.{BlockStore, StoredBlock, lookup}
use spaceshuttle.Cluster.Frames.{
  io_ok, io_err, unexpected_eof, remote_status, answered, refused, read_payload_streaming,
}
use spaceshuttle.Cluster.Streaming.{read_payload_streaming-read_exact}
use spaceshuttle.Cluster.HashCache.{read_payload_cached}
use spaceshuttle.Cluster.Server
use spaceshuttle.Cluster.Client
use spaceshuttle.Cluster.Requests
use spaceshuttle.Cluster.Client.{Link, MuxClient, fetch_block, take_payload}
use spaceshuttle.Cluster.Spec.{Op, ping_op, fetch_op, store_op, run, perform}
use spaceshuttle.Cluster.Refinement.{IsCoherent, Refines, run-Refines}
use spaceshuttle.Cluster.Batch.{fetch_batch, fetch_block-after_failed_batch}
use spaceshuttle.Cluster.Verdict.{outcome, verdict, read_payload_cached-verdict}
use spaceshuttle.Raid.Simulated.{simulate_sha256}

abbrev fresh : Link
fresh = record {
  client = Client.new "127.0.0.1:4430" "kernel_a.aint";
  server = Server.new "127.0.0.1:4430" "kernel_b.aint" BlockStore.new;
}

abbrev block : List ℕ
block = 7 ∷ 0 ∷ 255 ∷ []

fresh-IsCoherent : IsCoherent simulate_sha256 fresh
unfolding Client.new Server.new BlockStore.new lookup
fresh-IsCoherent = (λ block_index b e. cc, tt)

abbrev ops : List Op
ops =
    store_op 1 block (simulate_sha256 block) "seal" 3 10
    ∷ store_op 2 block "wrong" "seal" 3 11
    ∷ fetch_op 1 none 12
    ∷ fetch_op 2 none 13
    ∷ ping_op
    ∷ fetch_op 1 (some "other") 14
    ∷ []

run_test : (run (perform simulate_sha256) fresh ops).1 ≡ (
    answered []
    ∷ refused (remote_status 409 "Store hash mismatch")
    ∷ answered block
    ∷ refused (remote_status 404 "Block 2 not found")
    ∷ answered []
    ∷ refused (remote_status 409 "Hash mismatch")
    ∷ [])
unfolding run perform Client.new Server.new BlockStore.new simulate_sha256 decimal
run_test = refl

run-Refines_example : Refines simulate_sha256 fresh ops
run-Refines_example = run-Refines simulate_sha256 ops fresh fresh-IsCoherent

read_payload_streaming-read_exact_example : read_payload_streaming simulate_sha256 2 block ≡ (
    if ltb (length block) 2
    then io_err unexpected_eof
    else io_ok (take 2 block, simulate_sha256 (take 2 block), drop 2 block))
read_payload_streaming-read_exact_example =
    read_payload_streaming-read_exact simulate_sha256 2 block

abbrev reader : MuxClient
reader = Client.new "127.0.0.1:4430" "kernel_a.aint"

abbrev five_bytes : List ℕ
five_bytes = 7 ∷ 0 ∷ 255 ∷ 1 ∷ 2 ∷ []

-- Three bytes are announced, and five are on the connection.
read_payload_cached-verdict_example :
    let got = read_payload_cached simulate_sha256 3 "claimed" 4 reader.hash_cache five_bytes in
    (got ≡ outcome simulate_sha256 reader.hash_cache 4 "claimed" 3 five_bytes)
    × ((take_payload reader "claimed" got).1
        ≡ verdict simulate_sha256 reader.hash_cache 4 "claimed" 3 five_bytes)
read_payload_cached-verdict_example =
    read_payload_cached-verdict simulate_sha256 reader 4 3 "claimed" five_bytes

abbrev stored : StoredBlock
stored = record {
  block_index = 1;
  data_bytes = block;
  content_hash = simulate_sha256 block;
  ed25519_seal = "seal";
  raw_size = 3;
  stored_by = "kernel_a.aint";
  bus_seq = 10;
  access_count = 0;
}

-- The server holds block 1 and not block 0.
abbrev one_block : Link
one_block = record fresh {
  server = record fresh.server {
    store = record {
      blocks = (1, stored) ∷ [];
      total_bytes = 3;
      blocks_served = 0;
      blocks_stored = 1;
    };
  };
}

one_block-IsIdle : Requests.IsIdle one_block.client.connection
unfolding Client.new
one_block-IsIdle = tt

no_block_0 : lookup 0 one_block.server.store.blocks ≡ none
unfolding lookup
no_block_0 = refl

block_1 : lookup 1 one_block.server.store.blocks ≡ some stored
unfolding lookup
block_1 = refl

-- The bytes of block 1 come as block 9.
fetch_block-after_failed_batch_example :
    let (after, result) = fetch_batch simulate_sha256 one_block none ((0, 20) ∷ (1, 21) ∷ []) in
    (result ≡ refused (remote_status 404 (format ("Block " ∷ decimal 0 ∷ " not found" ∷ []))))
    × ((fetch_block simulate_sha256 after none 9 none 22).1 ≡ answered block)
fetch_block-after_failed_batch_example =
    fetch_block-after_failed_batch simulate_sha256 one_block 0 1 20 21 one_block-IsIdle stored
      no_block_0 block_1 9 22 refl
