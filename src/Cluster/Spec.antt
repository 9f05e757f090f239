-- ===== src/Cluster/Spec.antt =====
-- What a client of the block server may rely on: a map from block indices to bytes.
-- `fetch_block`, `store_block` and `ping` of crates/trust-kernel/src/cluster_mux.rs are compared with it.
use spaceshuttle.Prelude.{ℕ, List, [], ◌∷◌, Option, none, some, String, ◌==◌, if◌then◌else◌, str_eq}
use spaceshuttle.Prelude.Text.{format, decimal}
use spaceshuttle.Cluster.BlockStore.{StoredBlock, lookup}
use spaceshuttle.Cluster.Frames.{remote_status, Answer, answered, refused}
use spaceshuttle.Cluster.Server.{mismatches}
use spaceshuttle.Cluster.Client.{Link, ping, fetch_block, store_block}

abbrev pub BlockMap : Type 0
BlockMap = ℕ → Option (List ℕ)

pub data Op : Type 0 where
  ping_op : Op
  -- block_index, expected_hash, bus_seq
  fetch_op : ℕ → Option String → ℕ → Op
  -- block_index, bytes, content_hash, ed25519_seal, raw_size, bus_seq
  store_op : ℕ → List ℕ → String → String → ℕ → ℕ → Op

abbrev pub update : BlockMap → ℕ → List ℕ → BlockMap
update blocks block_index block wanted = if block_index == wanted then some block else blocks wanted

abbrev pub no_value : Answer (Unit {0}) → Answer (List ℕ)
no_value (answered _) = answered []
no_value (refused e) = refused e

module _ (sha256_hex : List ℕ → String) where
  abbrev pub found : ℕ → Option String → Option (List ℕ) → Answer (List ℕ)
  found block_index expected none =
      refused (remote_status 404 (format ("Block " ∷ decimal block_index ∷ " not found" ∷ [])))
  found block_index expected (some block) =
      if mismatches expected (sha256_hex block)
      then refused (remote_status 409 "Hash mismatch")
      else answered block

  -- The promise: what an operation does to the map, and what it answers.
  unfoldable pub promise : BlockMap → Op → BlockMap × Answer (List ℕ)
  promise blocks ping_op = (blocks, answered [])
  promise blocks (fetch_op block_index expected _) =
      (blocks, found block_index expected (blocks block_index))
  promise blocks (store_op block_index block content_hash _ _ _) =
      if str_eq (sha256_hex block) content_hash
      then (update blocks block_index block, answered [])
      else (blocks, refused (remote_status 409 "Store hash mismatch"))

  -- The operation on the link, where connecting succeeds.
  unfoldable pub perform : Link → Op → Link × Answer (List ℕ)
  unfolding ping fetch_block store_block
  perform l ping_op = let (l', result) = ping sha256_hex l none in (l', no_value result)
  perform l (fetch_op block_index expected bus_seq) =
      fetch_block sha256_hex l none block_index expected bus_seq
  perform l (store_op block_index block content_hash seal raw_size bus_seq) =
      let (l', result) =
        store_block sha256_hex l none block_index block content_hash seal raw_size bus_seq in
      (l', no_value result)

module _ {ℓ} {S : Type ℓ} (step : S → Op → S × Answer (List ℕ)) where
  -- The answers to a sequence of operations, and the state that it ends in.
  unfoldable pub run : S → List Op → S × List (Answer (List ℕ))
  run s [] = (s, [])
  run s (op ∷ ops) =
      let (s', answer) = step s op in let (s'', answers) = run s' ops in (s'', answer ∷ answers)

abbrev pub content : Option StoredBlock → Option (List ℕ)
content none = none
content (some b) = some b.data_bytes

-- The map that a link stands for.
unfoldable pub view : Link → BlockMap
unfolding lookup
view l block_index = content (lookup block_index l.server.store.blocks)
