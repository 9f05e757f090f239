-- ===== src/Cluster/Batch.antt =====
-- crates/trust-kernel/src/cluster_mux.rs: `fetch_batch` over the link, and what it leaves on the connection
-- when it fails.
use spaceshuttle.Prelude.{
  ℕ, ◌≡◌, refl, ap, ◌∙◌, List, [], ◌∷◌, Option, none, some, String, length, add64,
}
use spaceshuttle.Prelude.Text.{format, decimal}
use spaceshuttle.Cluster.BlockStore
use spaceshuttle.Cluster.BlockStore.{BlockStore, StoredBlock, lookup, served}
use spaceshuttle.Cluster.Frames.{fetch_frame, remote_status, Answer, answered, refused}
use spaceshuttle.Cluster.Server.{
  Message, ClusterMuxServer, handle_frame, dispatch, fetch_response, handle_mux_connection,
}
use spaceshuttle.Cluster.Client.{
  MuxClient, Link, ensure_connected, next_channel_id, read_frame, read_block, take_payload,
  exchange, connected, on_client, request, fetch_block,
}
use spaceshuttle.Cluster.Requests.{
  IsIdle, ensure_connected_idle, read_payload_cached_whole, str_eq_refl, ==_refl,
}

-- Phase 1: a message for each request, each on a channel of its own.
unfoldable pub batch_messages : MuxClient → List (ℕ × ℕ) → MuxClient × List Message
unfolding next_channel_id
batch_messages c [] = (c, [])
batch_messages c ((block_index, bus_seq) ∷ requests) =
    let (c', messages) = batch_messages (next_channel_id c) requests in
    (c', (fetch_frame c.next_channel block_index c.from_aint none bus_seq, []) ∷ messages)

-- The rest of the responses is read after one that was fine, and left where it is after one that was not.
abbrev pub then_others :
    ℕ
    → (MuxClient → MuxClient × Answer (List (ℕ × List ℕ)))
    → MuxClient × Answer (List ℕ)
    → MuxClient × Answer (List (ℕ × List ℕ))
then_others block_index others (c, refused e) = (c, refused e)
then_others block_index others (c, answered block) =
    add_result (others (record c { bytes_transferred = add64 c.bytes_transferred (length block) }))
  where
    add_result : MuxClient × Answer (List (ℕ × List ℕ)) → MuxClient × Answer (List (ℕ × List ℕ))
    add_result (c', answered results) = (c', answered ((block_index, block) ∷ results))
    add_result (c', refused e) = (c', refused e)

abbrev pub count_batch :
    ℕ → MuxClient × Answer (List (ℕ × List ℕ)) → MuxClient × Answer (List (ℕ × List ℕ))
count_batch n (c, refused e) = (c, refused e)
count_batch n (c, answered results) =
    (record c { requests_sent = add64 c.requests_sent n }, answered results)

module _ (sha256_hex : List ℕ → String) where
  -- Phase 2: the responses, in the order of the requests.
  unfoldable pub read_batch : List (ℕ × ℕ) → MuxClient → MuxClient × Answer (List (ℕ × List ℕ))
  unfolding read_frame read_block
  read_batch [] c = (c, answered [])
  read_batch ((block_index, _) ∷ requests) c =
      then_others block_index (read_batch requests)
        (read_block sha256_hex "Unexpected frame" block_index (read_frame c))

  unfoldable pub fetch_batch :
      Link → Option String → List (ℕ × ℕ) → Link × Answer (List (ℕ × List ℕ))
  unfolding ensure_connected batch_messages exchange read_batch
  fetch_batch l attempt requests =
      connected sha256_hex l
        (λ unread.
          let (c, messages) = batch_messages l.client requests in
          on_client sha256_hex (λ c'. count_batch (length requests) (read_batch requests c'))
            (exchange sha256_hex (record l { client = c }) unread messages))
        (ensure_connected l.client.connection attempt)

  module _ (l : Link) (gone wanted q₀ q₁ : ℕ) (idle : IsIdle l.client.connection) where
    abbrev requests : List (ℕ × ℕ)
    requests = (gone, q₀) ∷ (wanted, q₁) ∷ []

    abbrev served_by : BlockStore → ClusterMuxServer
    served_by store = record l.server {
      frames_handled = add64 (add64 l.server.frames_handled 1) 1;
      store = store;
    }

    -- The second response.
    abbrev second : Option StoredBlock → Message
    second answer = fetch_response (next_channel_id l.client).next_channel wanted none answer

    -- The link with these messages unread.
    abbrev unread_by : List Message → BlockStore → Link
    unread_by messages store = record {
      client = record (next_channel_id (next_channel_id l.client)) { connection = some messages };
      server = served_by store;
    }

    -- The end of the batch, given what the server found.
    abbrev batch_ends :
        BlockStore → Option StoredBlock → Option StoredBlock → Link × Answer (List (ℕ × List ℕ))
    batch_ends store first_answer second_answer =
        on_client sha256_hex (λ c. count_batch 2 (read_batch requests c))
          (unread_by
            (fetch_response l.client.next_channel gone none first_answer
              ∷ second second_answer
              ∷ [])
            store)

    batch_reads :
        let first_fetch = BlockStore.fetch l.server.store gone in
        let second_fetch = BlockStore.fetch first_fetch.0 wanted in
        fetch_batch l none requests ≡ batch_ends second_fetch.0 first_fetch.1 second_fetch.1
    unfolding fetch_batch batch_messages exchange handle_mux_connection handle_frame dispatch
        next_channel_id
    batch_reads =
        ap
          (connected sha256_hex l (λ unread.
            let (c, messages) = batch_messages l.client requests in
            on_client sha256_hex (λ c'. count_batch 2 (read_batch requests c'))
              (exchange sha256_hex (record l { client = c }) unread messages)))
          (ensure_connected_idle l.client.connection idle)

    module _ (b : StoredBlock) (is_gone : lookup gone l.server.store.blocks ≡ none)
        (is_there : lookup wanted l.server.store.blocks ≡ some b) where
      abbrev store_after : BlockStore
      store_after = (BlockStore.fetch l.server.store wanted).0

      gone_fetch : BlockStore.fetch l.server.store gone ≡ (l.server.store, none)
      unfolding BlockStore.fetch
      gone_fetch = rw (is_gone, BlockStore.fetch) refl

      there_fetch : (BlockStore.fetch l.server.store wanted).1 ≡ some (served b)
      unfolding BlockStore.fetch
      there_fetch = rw (is_there, BlockStore.fetch) refl

      batch_fails : fetch_batch l none requests ≡ (
        unread_by (second (some (served b)) ∷ []) store_after,
        refused (remote_status 404 (format ("Block " ∷ decimal gone ∷ " not found" ∷ []))),
      )
      unfolding read_batch read_frame read_block fetch_response next_channel_id
      batch_fails =
          batch_reads
          ∙ ap
              (λ (fetched : BlockStore × Option StoredBlock).
                let again = BlockStore.fetch fetched.0 wanted in
                batch_ends again.0 fetched.1 again.1)
              gone_fetch
          ∙ ap (λ answer. batch_ends store_after none answer) there_fetch

      -- On a link with nothing unread, a batch asks for a block that the server does not have and
      -- then for one that it has, stored under the hash of its bytes: the batch fails as not
      -- found, and the next fetch, of any block, is answered with the bytes of that second block.
      pub fetch_block-after_failed_batch :
          (other bus_seq : ℕ)
          → b.content_hash ≡ sha256_hex b.data_bytes
          → let (l', result) = fetch_batch l none requests in
            (result
              ≡ refused (remote_status 404 (format ("Block " ∷ decimal gone ∷ " not found" ∷ []))))
            × ((fetch_block sha256_hex l' none other none bus_seq).1 ≡ answered b.data_bytes)
      unfolding fetch_block request ensure_connected exchange handle_mux_connection handle_frame
          dispatch fetch_response read_frame next_channel_id read_block take_payload
      fetch_block-after_failed_batch other bus_seq good =
          let (after, result, whole) =
            read_payload_cached_whole sha256_hex b.data_bytes other l.client.hash_cache in
          (
            ap (λ (r : Link × Answer (List (ℕ × List ℕ))). r.1) batch_fails,
            ap
                  (λ (r : Link × Answer (List (ℕ × List ℕ))).
                    (fetch_block sha256_hex r.0 none other none bus_seq).1)
                  batch_fails
                ∙ rw
                    (
                      good,
                      ==_refl (length b.data_bytes),
                      whole,
                      str_eq_refl (sha256_hex b.data_bytes),
                    )
                    refl,
          )
