-- ===== src/Cluster/Client.antt =====
-- crates/trust-kernel/src/cluster_mux.rs: `ClusterMuxClient` over a link to the server of Cluster/Server.
-- The link is reliable: what one side writes, the other reads, in order. `attempt` is what connecting comes
-- to: none for success, or the error's text. Durations are left out of the results.
use spaceshuttle.Prelude.{
  ℕ, ◌+◌, ◌%◌, ◌^◌, List, [], ◌∷◌, ◌++◌, Option, none, some, String, ◌==◌, if◌then◌else◌, unwrap_or,
  str_eq, length, add64,
}
use spaceshuttle.Cluster.Frames.{
  MuxFrame, fetch_frame, store_frame, ping_frame, response_frame, unexpected_eof, IoResult, io_ok,
  io_err, out_of_fuel, connect_error, io_error, protocol_error, remote_error, remote_status,
  integrity_failed, still_reading, out_of_step, Answer, answered, refused,
}
use spaceshuttle.Cluster.HashCache
use spaceshuttle.Cluster.HashCache.{HashCache, VerifyResult, mark_verified, read_payload_cached}
use spaceshuttle.Cluster.Server.{Message, ClusterMuxServer, handle_mux_connection}

-- `ClusterMuxClient`; `connection` holds the messages that arrived and were not read yet.
pub record MuxClient : Type 0 where
  pub from_aint : String
  pub connection : Option (List Message)
  pub endpoint : String
  pub next_channel : ℕ
  pub requests_sent : ℕ
  pub bytes_transferred : ℕ
  pub hash_cache : HashCache

pub record Link : Type 0 where
  pub client : MuxClient
  pub server : ClusterMuxServer

unfoldable pub new : String → String → MuxClient
unfolding HashCache.new
new endpoint from_aint = record {
  from_aint = from_aint;
  connection = none;
  endpoint = endpoint;
  next_channel = 1;
  requests_sent = 0;
  bytes_transferred = 0;
  hash_cache = HashCache.new;
}

-- The messages unread on the connection that the call goes on with.
unfoldable pub ensure_connected : Option (List Message) → Option String → Answer (List Message)
ensure_connected (some unread) attempt = answered unread
ensure_connected none none = answered []
ensure_connected none (some text) = refused (connect_error text)

-- The counter has 32 bits.
unfoldable pub next_channel_id : MuxClient → MuxClient
next_channel_id c = record c { next_channel = (c.next_channel + 1) % 2 ^ 32 }

-- `read_frame`: the next unread message, if one is there.
unfoldable pub read_frame : MuxClient → MuxClient × Option Message
read_frame c = elim c.connection [
  | none ↦ (c, none)
  | some unread ↦ elim unread [
    | [] ↦ (c, none)
    | message ∷ others ↦ (record c { connection = some others }, some message)
  ]
]

unfoldable pub disconnect : MuxClient → MuxClient
disconnect c = record c { connection = none }

abbrev pub count_request : MuxClient → ℕ → MuxClient
count_request c size = record c {
  requests_sent = add64 c.requests_sent 1;
  bytes_transferred = add64 c.bytes_transferred size;
}

-- `ping`, from the response on.
unfoldable pub ping_reply : MuxClient × Option Message → MuxClient × Answer (Unit {0})
ping_reply (c, none) = (c, refused (io_error unexpected_eof))
ping_reply (c, some (response_frame _ status _ _ _ _ _ error, _)) = (
  record c { requests_sent = add64 c.requests_sent 1 },
  if status == 200 then answered tt else refused (remote_error (unwrap_or error "")),
)
ping_reply (c, some (fetch_frame _ _ _ _ _, _)) = (
  record c { requests_sent = add64 c.requests_sent 1 },
  refused (protocol_error "Unexpected frame type"),
)
ping_reply (c, some (store_frame _ _ _ _ _ _ _ _, _)) = (
  record c { requests_sent = add64 c.requests_sent 1 },
  refused (protocol_error "Unexpected frame type"),
)
ping_reply (c, some (ping_frame _ _, _)) = (
  record c { requests_sent = add64 c.requests_sent 1 },
  refused (protocol_error "Unexpected frame type"),
)

-- `store_block`, from the response on.
unfoldable pub store_status : MuxClient → ℕ → String → MuxFrame → MuxClient × Answer (Unit {0})
unfolding mark_verified
store_status c block_index content_hash (response_frame _ status _ _ _ _ _ error) =
    if status == 200
    then (
      record c { hash_cache = mark_verified c.hash_cache block_index content_hash },
      answered tt,
    )
    else (c, refused (remote_status status (unwrap_or error "")))
store_status c block_index content_hash (fetch_frame _ _ _ _ _) =
    (c, refused (protocol_error "Unexpected frame type"))
store_status c block_index content_hash (store_frame _ _ _ _ _ _ _ _) =
    (c, refused (protocol_error "Unexpected frame type"))
store_status c block_index content_hash (ping_frame _ _) =
    (c, refused (protocol_error "Unexpected frame type"))

unfoldable pub store_reply :
    ℕ → ℕ → String → MuxClient × Option Message → MuxClient × Answer (Unit {0})
unfolding store_status
store_reply block_index size content_hash (c, none) = (c, refused (io_error unexpected_eof))
store_reply block_index size content_hash (c, some message) =
    store_status (count_request c size) block_index content_hash message.0

-- The payload that came with a response of status 200.
unfoldable pub take_payload :
    MuxClient
    → String
    → HashCache × IoResult (List ℕ × String × VerifyResult × List ℕ)
    → MuxClient × Answer (List ℕ)
take_payload c content_hash (cache, io_err e) =
    (record c { hash_cache = cache }, refused (io_error e))
take_payload c content_hash (cache, out_of_fuel) =
    (record c { hash_cache = cache }, refused still_reading)
take_payload c content_hash (cache, io_ok (block, verified_hash, _, _)) =
    if str_eq verified_hash content_hash
    then (record c { hash_cache = cache }, answered block)
    else (record c { hash_cache = cache }, refused (integrity_failed content_hash verified_hash))

-- `fetch_block` counts what it has answered.
abbrev pub count_answer : MuxClient × Answer (List ℕ) → MuxClient × Answer (List ℕ)
count_answer (c, answered block) = (count_request c (length block), answered block)
count_answer (c, refused e) = (c, refused e)

module _ (sha256_hex : List ℕ → String) where
  -- The `match resp` that `fetch_block` and `fetch_batch` share, but for a text. It is modelled for a payload
  -- of the announced size, which is all that is read and leaves the messages behind it alone.
  unfoldable pub read_block : String → ℕ → MuxClient × Option Message → MuxClient × Answer (List ℕ)
  unfolding take_payload read_payload_cached
  read_block unexpected block_index (c, none) = (c, refused (io_error unexpected_eof))
  read_block unexpected block_index
        (c, some (response_frame _ status _ content_hash payload_size _ _ error, payload)) =
      if status == 200
      then if length payload == payload_size
        then take_payload c content_hash (
            read_payload_cached sha256_hex payload_size content_hash block_index c.hash_cache
              payload)
        else (c, refused out_of_step)
      else (c, refused (remote_status status (unwrap_or error "")))
  read_block unexpected block_index (c, some (fetch_frame _ _ _ _ _, _)) =
      (c, refused (protocol_error unexpected))
  read_block unexpected block_index (c, some (store_frame _ _ _ _ _ _ _ _, _)) =
      (c, refused (protocol_error unexpected))
  read_block unexpected block_index (c, some (ping_frame _ _, _)) =
      (c, refused (protocol_error unexpected))

  -- The client has written `messages`, with `unread` waiting for it; the server has handled them.
  unfoldable pub exchange : Link → List Message → List Message → Link
  unfolding handle_mux_connection
  exchange l unread messages =
      let (server, responses) = handle_mux_connection sha256_hex l.server messages in
      record {
        client = record l.client { connection = some (unread ++ responses) };
        server = server;
      }

  abbrev pub on_client {ℓ} :
      {A : Type ℓ} → (MuxClient → MuxClient × Answer A) → Link → Link × Answer A
  on_client f l = let (c, result) = f l.client in (record l { client = c }, result)

  abbrev pub connected {ℓ} :
      {A : Type ℓ}
      → Link
      → (List Message → Link × Answer A)
      → Answer (List Message)
      → Link × Answer A
  connected l f (answered unread) = f unread
  connected l f (refused e) = (l, refused e)

  -- What `ping`, `fetch_block` and `store_block` share: connect, take a channel, write the message, read the
  -- response.
  unfoldable pub request {ℓ} :
      {A : Type ℓ}
      → Link
      → Option String
      → Message
      → (MuxClient × Option Message → MuxClient × Answer A)
      → Link × Answer A
  unfolding ensure_connected next_channel_id exchange read_frame
  request l attempt message reply =
      connected l
        (λ unread.
          on_client (λ c. reply (read_frame c))
            (exchange (record l { client = next_channel_id l.client }) unread (message ∷ [])))
        (ensure_connected l.client.connection attempt)

  unfoldable pub ping : Link → Option String → Link × Answer (Unit {0})
  unfolding request ping_reply
  ping l attempt =
      request l attempt (ping_frame l.client.next_channel l.client.from_aint, []) ping_reply

  unfoldable pub fetch_block : Link → Option String → ℕ → Option String → ℕ → Link × Answer (List ℕ)
  unfolding request read_block
  fetch_block l attempt block_index expected_hash bus_seq =
      request l attempt
        (fetch_frame l.client.next_channel block_index l.client.from_aint expected_hash bus_seq, [])
        (λ response. count_answer (read_block "Unexpected frame type" block_index response))

  unfoldable pub store_block :
      Link → Option String → ℕ → List ℕ → String → String → ℕ → ℕ → Link × Answer (Unit {0})
  unfolding request store_reply
  store_block l attempt block_index block content_hash ed25519_seal raw_size bus_seq =
      request l attempt
        (
          store_frame l.client.next_channel block_index l.client.from_aint (length block) raw_size
              content_hash ed25519_seal bus_seq,
          block,
        )
        (store_reply block_index (length block) content_hash)
