-- ===== src/Cluster/Requests.antt =====
-- What one request over an idle link comes to (crates/trust-kernel/src/cluster_mux.rs).
use spaceshuttle.Prelude.{
  ℕ, ◌≡◌, refl, sym, subst, ap, ◌∙◌, List, [], ◌∷◌, Option, none, some, String, true, inl, inr,
  Bool-cases, str_eq, eq_iff, ◌==◌, ==_iff, length, add64,
}
use spaceshuttle.Prelude.Text.{format}
use spaceshuttle.Cluster.BlockStore
use spaceshuttle.Cluster.BlockStore.{BlockStore, StoredBlock, lookup, lookup-insert, insert, served}
use spaceshuttle.Cluster.Frames.{io_ok, fetch_frame, ping_frame, response_frame, Answer, answered}
use spaceshuttle.Cluster.Streaming.{read_chunks_whole}
use spaceshuttle.Cluster.HashCache.{
  HashCache, VerifyResult, full_verify, cache_hit, read_payload_cached, is_verified, after_hit,
  after_miss,
}
use spaceshuttle.Cluster.Server.{
  Message, replied, mismatches, ClusterMuxServer, handle_frame, next_frame, dispatch,
  handle_mux_connection, fetch_response,
}
use spaceshuttle.Cluster.Client.{
  Link, MuxClient, count_answer, on_client, connected, request, ping, fetch_block, exchange,
  ensure_connected, read_frame, read_block, take_payload, ping_reply, next_channel_id,
}
use spaceshuttle.Cluster.Spec.{found}

-- Nothing waits unread on the connection.
abbrev pub IsIdle : Option (List Message) → Type 0
IsIdle none = Unit
IsIdle (some []) = Unit
IsIdle (some (_ ∷ _)) = ⊥

pub ensure_connected_idle :
    (connection : Option (List Message))
    → IsIdle connection
    → ensure_connected connection none ≡ answered []
unfolding ensure_connected
ensure_connected_idle none h = refl
ensure_connected_idle (some []) h = refl
ensure_connected_idle (some (m ∷ ms)) h = absurd h

pub str_eq_refl : (s : String) → str_eq s s ≡ true
str_eq_refl s = (eq_iff s s).1 refl

pub ==_refl : (n : ℕ) → (n == n) ≡ true
==_refl n = (==_iff n n).1 refl

module _ (sha256_hex : List ℕ → String) where
  -- A payload that came whole is read whole, whether its hash is computed or not.
  pub read_payload_cached_whole :
      (block : List ℕ) (block_index : ℕ) (cache : HashCache)
      → (after : HashCache) × (result : VerifyResult) × (read_payload_cached sha256_hex
            (length block)
            (sha256_hex block)
            block_index
            cache
            block
          ≡ (after, io_ok (block, sha256_hex block, result, [])))
  unfolding read_payload_cached after_hit after_miss
  read_payload_cached_whole block block_index cache =
      elim (Bool-cases (is_verified cache block_index (sha256_hex block))) [
        | inl hit ↦ (
          (after_hit cache (length block) (sha256_hex block) (io_ok (block, block, []))).0,
          cache_hit (sha256_hex block),
          rw (hit, read_chunks_whole block) refl,
        )
        | inr miss ↦ (
          (after_miss cache block_index (io_ok (block, sha256_hex block, []))).0,
          full_verify (sha256_hex block),
          rw (miss, read_chunks_whole block) refl,
        )
      ]

  -- The call ends with this server and this answer, and nothing is left unread.
  abbrev pub Reaches {ℓ} : {A : Type ℓ} → Link × Answer A → ClusterMuxServer → Answer A → Type ℓ
  Reaches r server answer = IsIdle r.0.client.connection × (r.0.server ≡ server) × (r.1 ≡ answer)

  -- The client as it reads the one response to its one message.
  abbrev pub reading : Link → ClusterMuxServer → Message → Link
  reading l server reply = record {
    client = record (next_channel_id l.client) { connection = some (reply ∷ []) };
    server = server;
  }

  -- On an idle connection, a request reads the server's reply to its message.
  pub request_reads {ℓ} :
      {A : Type ℓ} (l : Link) (message reply : Message) (server : ClusterMuxServer)
      (finish : MuxClient × Option Message → MuxClient × Answer A)
      → IsIdle l.client.connection
      → handle_frame sha256_hex l.server message ≡ (server, replied reply)
      → request sha256_hex l none message finish
        ≡ on_client sha256_hex (λ c. finish (read_frame c)) (reading l server reply)
  unfolding request exchange handle_mux_connection next_channel_id
  request_reads l message reply server finish idle handled =
      ap
        (λ state.
          connected sha256_hex l
            (λ unread.
              on_client sha256_hex (λ c. finish (read_frame c))
                (exchange sha256_hex (record l { client = next_channel_id l.client }) unread
                  (message ∷ [])))
            state)
        (ensure_connected_idle l.client.connection idle)
      ∙ ap
          (λ handling.
            on_client sha256_hex (λ c. finish (read_frame c))
              (let (server', responses) = next_frame sha256_hex (λ s'. (s', [])) handling in
                record {
                  client = record (next_channel_id l.client) { connection = some responses };
                  server = server';
                }))
          handled

  abbrev pub counted : Link → ClusterMuxServer
  counted l = record l.server { frames_handled = add64 l.server.frames_handled 1 }

  pub ping-Reaches :
      (l : Link)
      → IsIdle l.client.connection
      → Reaches (ping sha256_hex l none) (counted l) (answered tt)
  unfolding ping handle_frame dispatch read_frame ping_reply next_channel_id
  ping-Reaches l idle =
      subst (λ r. Reaches r (counted l) (answered tt))
        (sym (
          request_reads l (ping_frame l.client.next_channel l.client.from_aint, [])
            (
              response_frame l.client.next_channel 200 0 "" 0 0
                  (format ("mux_pong_" ∷ l.server.kernel_aint ∷ [])) none,
              [],
            )
            (counted l) ping_reply idle refl))
        (tt, refl, refl)

  module _ (l : Link) (block_index : ℕ) (expected : Option String) (bus_seq : ℕ)
      (idle : IsIdle l.client.connection) where
    -- A fetch reads what the server makes of its lookup.
    fetch_reads :
        (server : ClusterMuxServer) (reply : Message)
        → handle_frame sha256_hex l.server
            (fetch_frame l.client.next_channel block_index l.client.from_aint expected bus_seq, [])
          ≡ (server, replied reply)
        → fetch_block sha256_hex l none block_index expected bus_seq
          ≡ on_client sha256_hex
              (λ c.
                count_answer
                  (read_block sha256_hex "Unexpected frame type" block_index (read_frame c)))
              (reading l server reply)
    unfolding fetch_block
    fetch_reads server reply handled =
        request_reads l
          (fetch_frame l.client.next_channel block_index l.client.from_aint expected bus_seq, [])
          reply server
          (λ response.
            count_answer (read_block sha256_hex "Unexpected frame type" block_index response))
          idle handled

    -- What the server makes of it, given what its store answers.
    pub fetch_handled :
        (store : BlockStore) (found_block : Option StoredBlock)
        → BlockStore.fetch l.server.store block_index ≡ (store, found_block)
        → handle_frame sha256_hex l.server
            (fetch_frame l.client.next_channel block_index l.client.from_aint expected bus_seq, [])
          ≡ (
            record (counted l) { store = store },
            replied (fetch_response l.client.next_channel block_index expected found_block),
          )
    unfolding handle_frame dispatch
    fetch_handled store found_block e =
        ap
          (λ fetched. (
            record (counted l) { store = fetched.0 },
            replied (fetch_response l.client.next_channel block_index expected fetched.1),
          ))
          e

    pub fetch_missing :
        lookup block_index l.server.store.blocks ≡ none
        → Reaches
            (fetch_block sha256_hex l none block_index expected bus_seq)
            (counted l)
            (found sha256_hex block_index expected none)
    unfolding BlockStore.fetch fetch_response read_frame next_channel_id read_block
    fetch_missing gone =
        subst (λ r. Reaches r (counted l) (found sha256_hex block_index expected none))
          (sym (
            fetch_reads (counted l) (fetch_response l.client.next_channel block_index expected none)
              (fetch_handled l.server.store none (rw (gone, BlockStore.fetch) refl))))
          (tt, refl, refl)

    abbrev pub serving : StoredBlock → ClusterMuxServer
    serving b = record (counted l) {
      store = record l.server.store {
        blocks = insert block_index (served b) l.server.store.blocks;
        blocks_served = add64 l.server.store.blocks_served 1;
      };
    }

    pub fetch_found :
        (b : StoredBlock)
        → lookup block_index l.server.store.blocks ≡ some b
        → b.content_hash ≡ sha256_hex b.data_bytes
        → Reaches
            (fetch_block sha256_hex l none block_index expected bus_seq)
            (serving b)
            (found sha256_hex block_index expected (some b.data_bytes))
    unfolding BlockStore.fetch fetch_response read_frame next_channel_id read_block take_payload
    fetch_found b is_there good =
        subst
          (λ r. Reaches r (serving b) (found sha256_hex block_index expected (some b.data_bytes)))
          (sym (
            fetch_reads (serving b)
              (fetch_response l.client.next_channel block_index expected (some (served b)))
              (fetch_handled (serving b).store (some (served b))
                (rw (is_there, BlockStore.fetch) refl))))
          (elim (Bool-cases (mismatches expected (sha256_hex b.data_bytes))) [
            | inl bad ↦ rw (good, bad) (tt, refl, refl)
            | inr same ↦
                let (after, result, whole) =
                  read_payload_cached_whole b.data_bytes block_index l.client.hash_cache in
                rw
                  (
                    good,
                    same,
                    ==_refl (length b.data_bytes),
                    whole,
                    str_eq_refl (sha256_hex b.data_bytes),
                  )
                  (tt, refl, refl)
          ])
