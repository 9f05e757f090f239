-- ===== src/Cluster/Stores.antt =====
-- What a store over an idle link comes to (crates/trust-kernel/src/cluster_mux.rs).
use spaceshuttle.Prelude.{
  ℕ, ◌≡◌, refl, sym, subst, ◌∙◌, List, [], ◌∷◌, none, some, String, true, false, str_eq, length,
}
use spaceshuttle.Prelude.Text.{format, decimal}
use spaceshuttle.Cluster.BlockStore
use spaceshuttle.Cluster.BlockStore.{BlockStore, StoredBlock, lookup, lookup-insert, insert, served}
use spaceshuttle.Cluster.Frames.{
  io_ok, store_frame, response_frame, answered, refused, remote_status, read_payload_streaming,
}
use spaceshuttle.Cluster.Streaming.{read_chunks_whole}
use spaceshuttle.Cluster.Server.{Message, ClusterMuxServer, handle_frame, dispatch, handle_store}
use spaceshuttle.Cluster.Client.{
  Link, store_block, read_frame, store_reply, store_status, next_channel_id,
}
use spaceshuttle.Cluster.Requests.{IsIdle, Reaches, counted, request_reads, ==_refl}

module _ (sha256_hex : List ℕ → String) where
  module _ (l : Link) (block_index : ℕ) (block : List ℕ) (content_hash seal : String)
      (raw_size bus_seq : ℕ) (idle : IsIdle l.client.connection) where
    abbrev store_message : Message
    store_message = (
      store_frame l.client.next_channel block_index l.client.from_aint (length block) raw_size
          content_hash seal bus_seq,
      block,
    )

    -- What the server makes of a store, given whether the hash is that of the bytes.
    store_handled :
        handle_frame sha256_hex l.server store_message
        ≡ handle_store sha256_hex
            (counted sha256_hex l)
            l.client.next_channel
            block_index
            l.client.from_aint
            raw_size
            content_hash
            seal
            bus_seq
            (io_ok (block, sha256_hex block, []))
    unfolding handle_frame dispatch read_payload_streaming
    store_handled = rw (==_refl (length block), read_chunks_whole block) refl

    abbrev pub storing : ClusterMuxServer
    storing = record (counted sha256_hex l) {
      store =
          BlockStore.store l.server.store block_index block content_hash seal raw_size
            l.client.from_aint bus_seq;
    }

    pub store_good :
        str_eq (sha256_hex block) content_hash ≡ true
        → Reaches sha256_hex
            (store_block sha256_hex l none block_index block content_hash seal raw_size bus_seq)
            storing
            (answered tt)
    unfolding store_block handle_store read_frame next_channel_id store_reply store_status
    store_good good =
        subst (λ r. Reaches sha256_hex r storing (answered tt))
          (sym (
            request_reads sha256_hex l store_message
              (
                response_frame l.client.next_channel 200 block_index content_hash (length block)
                    raw_size
                    (format (
                      "mux_store_"
                      ∷ decimal block_index
                      ∷ "_"
                      ∷ decimal l.client.next_channel
                      ∷ []))
                    none,
                [],
              )
              storing (store_reply block_index (length block) content_hash) idle
              (store_handled ∙ rw good refl)))
          (tt, refl, refl)

    pub store_bad :
        str_eq (sha256_hex block) content_hash ≡ false
        → Reaches sha256_hex
            (store_block sha256_hex l none block_index block content_hash seal raw_size bus_seq)
            (counted sha256_hex l)
            (refused (remote_status 409 "Store hash mismatch"))
    unfolding store_block handle_store read_frame next_channel_id store_reply store_status
    store_bad bad =
        subst
          (λ r.
            Reaches sha256_hex r (counted sha256_hex l)
              (refused (remote_status 409 "Store hash mismatch")))
          (sym (
            request_reads sha256_hex l store_message
              (
                response_frame l.client.next_channel 409 block_index (sha256_hex block) 0 0 ""
                    (some "Store hash mismatch"),
                [],
              )
              (counted sha256_hex l) (store_reply block_index (length block) content_hash) idle
              (store_handled ∙ rw bad refl)))
          (tt, refl, refl)
