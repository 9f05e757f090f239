-- ===== src/Cluster/Server.antt =====
-- crates/trust-kernel/src/cluster_mux.rs: `ClusterMuxServer` and `handle_mux_connection`.
-- A connection is a sequence of messages: a frame, with the payload bytes that its sender wrote behind it.
-- Frames travel as JSON with their length in front; the JSON is a library's, and left out.
use spaceshuttle.Prelude.{
  ℕ, List, [], ◌∷◌, Option, none, some, String, Bool, true, false, if◌then◌else◌, str_eq, ◌==◌,
  length, add64,
}
use spaceshuttle.Prelude.Text.{format, decimal}
use spaceshuttle.Cluster.BlockStore
use spaceshuttle.Cluster.BlockStore.{BlockStore, StoredBlock}
use spaceshuttle.Cluster.Frames.{
  MuxFrame, fetch_frame, store_frame, ping_frame, response_frame, IoResult, io_ok, io_err,
  out_of_fuel, read_payload_streaming,
}

abbrev pub Message : Type 0
Message = MuxFrame × List ℕ

pub record ClusterMuxServer : Type 0 where
  pub bind_addr : String
  pub kernel_aint : String
  pub store : BlockStore
  pub frames_handled : ℕ
  pub connections_total : ℕ

unfoldable pub new : String → String → BlockStore → ClusterMuxServer
new bind_addr kernel_aint store = record {
  bind_addr = bind_addr;
  kernel_aint = kernel_aint;
  store = store;
  frames_handled = 0;
  connections_total = 0;
}

-- What a frame comes to: a response, nothing (for a response frame), or an error that ends the connection.
-- `unframed` is not an outcome of the code: the payload is not as long as its frame announces, and what the
-- server reads from then on is not modelled.
pub data Handled : Type 0 where
  replied : Message → Handled
  ignored : Handled
  broken : Handled
  unframed : Handled

-- `if let Some(ref expected) = expected_hash { &b.content_hash != expected }`
abbrev pub mismatches : Option String → String → Bool
mismatches none content_hash = false
mismatches (some expected) content_hash = if str_eq content_hash expected then false else true

unfoldable pub fetch_response : ℕ → ℕ → Option String → Option StoredBlock → Message
fetch_response channel_id block_index expected_hash none = (
  response_frame channel_id 404 block_index "" 0 0 ""
      (some (format ("Block " ∷ decimal block_index ∷ " not found" ∷ []))),
  [],
)
fetch_response channel_id block_index expected_hash (some b) =
    if mismatches expected_hash b.content_hash
    then (
      response_frame channel_id 409 block_index b.content_hash 0 0 "" (some "Hash mismatch"),
      [],
    )
    else (
      response_frame channel_id 200 block_index b.content_hash (length b.data_bytes) b.raw_size
          (format ("mux_fetch_" ∷ decimal block_index ∷ "_" ∷ decimal channel_id ∷ [])) none,
      b.data_bytes,
    )

module _ (sha256_hex : List ℕ → String) where
  -- The store of a block, given what was read of it and its hash.
  unfoldable pub handle_store :
      ClusterMuxServer
      → ℕ
      → ℕ
      → String
      → ℕ
      → String
      → String
      → ℕ
      → IoResult (List ℕ × String × List ℕ)
      → ClusterMuxServer × Handled
  unfolding BlockStore.store
  handle_store s channel_id block_index from_aint raw_size content_hash seal bus_seq (io_err e) =
      (s, broken)
  handle_store s channel_id block_index from_aint raw_size content_hash seal bus_seq out_of_fuel =
      (s, broken)
  handle_store s channel_id block_index from_aint raw_size content_hash seal bus_seq
        (io_ok (block, computed, rest)) =
      if str_eq computed content_hash
      then (
        record s {
          store =
              BlockStore.store s.store block_index block content_hash seal raw_size from_aint
                bus_seq;
        },
        replied (
          response_frame channel_id 200 block_index content_hash (length block) raw_size
              (format ("mux_store_" ∷ decimal block_index ∷ "_" ∷ decimal channel_id ∷ [])) none,
          [],
        ),
      )
      else (
        s,
        replied (
          response_frame channel_id 409 block_index computed 0 0 "" (some "Store hash mismatch"),
          [],
        ),
      )

  -- The `match frame` of the loop.
  unfoldable pub dispatch : ClusterMuxServer → MuxFrame → List ℕ → ClusterMuxServer × Handled
  unfolding BlockStore.fetch fetch_response handle_store read_payload_streaming
  dispatch s (fetch_frame channel_id block_index _ expected_hash _) payload =
      let (store', block) = BlockStore.fetch s.store block_index in
      (
        record s { store = store' },
        replied (fetch_response channel_id block_index expected_hash block),
      )
  dispatch s
        (store_frame channel_id block_index from_aint payload_size raw_size content_hash seal
          bus_seq)
        payload =
      if length payload == payload_size
      then handle_store s channel_id block_index from_aint raw_size content_hash seal bus_seq
          (read_payload_streaming sha256_hex payload_size payload)
      else (s, unframed)
  dispatch s (ping_frame channel_id _) payload = (
    s,
    replied (
      response_frame channel_id 200 0 "" 0 0 (format ("mux_pong_" ∷ s.kernel_aint ∷ [])) none,
      [],
    ),
  )
  dispatch s (response_frame _ _ _ _ _ _ _ _) payload = (s, ignored)

  -- One round of the loop of `handle_mux_connection`.
  unfoldable pub handle_frame : ClusterMuxServer → Message → ClusterMuxServer × Handled
  unfolding dispatch
  handle_frame s message =
      dispatch (record s { frames_handled = add64 s.frames_handled 1 }) message.0 message.1

  -- What a round leaves to the rest of the connection.
  abbrev pub next_frame :
      (ClusterMuxServer → ClusterMuxServer × List Message)
      → ClusterMuxServer × Handled
      → ClusterMuxServer × List Message
  next_frame others (s, replied message) = let (s', messages) = others s in (s', message ∷ messages)
  next_frame others (s, ignored) = others s
  next_frame others (s, broken) = (s, [])
  next_frame others (s, unframed) = (s, [])

  -- The responses to what arrives on a connection before it ends.
  unfoldable pub handle_mux_connection :
      ClusterMuxServer → List Message → ClusterMuxServer × List Message
  unfolding handle_frame
  handle_mux_connection s [] = (s, [])
  handle_mux_connection s (message ∷ messages) =
      next_frame (λ s'. handle_mux_connection s' messages) (handle_frame s message)
