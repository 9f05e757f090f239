-- ===== src/Cluster/Verdict.antt =====
-- When a client takes the bytes it reads (crates/trust-kernel/src/cluster_mux.rs, `read_payload_cached` and
-- the check of the hash in `fetch_block`). The connection is a stream of bytes, shared by all its frames.
use spaceshuttle.Prelude.{
  ℕ, ◌≡◌, refl, List, [], String, arith, inl, inr, Bool-cases, ltb, if◌then◌else◌, str_eq, length,
  take, drop, add64,
}
use spaceshuttle.Cluster.BlockStore.{insert}
use spaceshuttle.Cluster.Frames.{
  IoResult, io_ok, io_err, unexpected_eof, io_error, integrity_failed, Answer, answered, refused,
  read_payload_streaming,
}
use spaceshuttle.Cluster.Streaming.{read_chunks-read_once}
use spaceshuttle.Cluster.HashCache.{
  HashCache, VerifyResult, cache_hit, full_verify, is_verified, mark_verified, read_payload_cached,
  after_hit, after_miss,
}
use spaceshuttle.Cluster.Client.{MuxClient, take_payload}
use spaceshuttle.Cluster.Requests.{str_eq_refl}

module _ (sha256_hex : List ℕ → String) where
  -- The cache, the bytes with the hash they are taken to have, and what stays on the stream.
  abbrev pub outcome :
      HashCache
      → ℕ
      → String
      → ℕ
      → List ℕ
      → HashCache × IoResult (List ℕ × String × VerifyResult × List ℕ)
  outcome cache block_index content_hash payload_size stream =
      let block = take payload_size stream in
      let rest = drop payload_size stream in
      let computed = sha256_hex block in
      if ltb (length stream) payload_size
      then (cache, io_err unexpected_eof)
      else if is_verified cache block_index content_hash
      then (
        record cache {
          hits = add64 cache.hits 1;
          bytes_saved = add64 cache.bytes_saved payload_size;
        },
        io_ok (block, content_hash, cache_hit content_hash, rest),
      )
      else (
        record cache {
          verified = insert block_index computed cache.verified;
          misses = add64 cache.misses 1;
        },
        io_ok (block, computed, full_verify computed, rest),
      )

  abbrev pub verdict : HashCache → ℕ → String → ℕ → List ℕ → Answer (List ℕ)
  verdict cache block_index content_hash payload_size stream =
      let block = take payload_size stream in
      if ltb (length stream) payload_size
      then refused (io_error unexpected_eof)
      else if is_verified cache block_index content_hash
      then answered block
      else if str_eq (sha256_hex block) content_hash
      then answered block
      else refused (integrity_failed content_hash (sha256_hex block))

  -- A client reads a payload whose header announces a size and claims a hash, and the bytes that
  -- still come on the connection, of this payload or of whatever is sent behind it, are any: if
  -- they are fewer than announced when the connection ends, the read fails and the cache stays as
  -- it is. Else just the announced number is taken from the connection and the rest stays. If the
  -- client has the claimed hash on record for this block, it answers those bytes unhashed and
  -- counts a hit; else it records the hash of those bytes for the block, counts a miss, and
  -- answers them exactly if that hash is the claimed one.
  pub read_payload_cached-verdict :
      (c : MuxClient) (block_index payload_size : ℕ) (content_hash : String) (stream : List ℕ)
      → let got =
          read_payload_cached sha256_hex payload_size content_hash block_index c.hash_cache
            stream in
        (got ≡ outcome c.hash_cache block_index content_hash payload_size stream)
        × ((take_payload c content_hash got).1
            ≡ verdict c.hash_cache block_index content_hash payload_size stream)
  unfolding read_payload_cached read_payload_streaming after_hit after_miss mark_verified
      take_payload
  read_payload_cached-verdict c block_index payload_size content_hash stream =
      let once = read_chunks-read_once payload_size payload_size [] [] stream (omega arith) in
      elim (Bool-cases (ltb (length stream) payload_size)) [
        | inl short ↦ elim (Bool-cases (is_verified c.hash_cache block_index content_hash)) [
          | inl hit ↦ rw (once, short, hit) (refl, refl)
          | inr miss ↦ rw (once, short, miss) (refl, refl)
        ]
        | inr long ↦ elim (Bool-cases (is_verified c.hash_cache block_index content_hash)) [
          | inl hit ↦ rw (once, long, hit, str_eq_refl content_hash) (refl, refl)
          | inr miss ↦
              elim (Bool-cases (str_eq (sha256_hex (take payload_size stream)) content_hash)) [
                | inl same ↦ rw (once, long, miss, same) (refl, refl)
                | inr differs ↦ rw (once, long, miss, differs) (refl, refl)
              ]
        ]
      ]
