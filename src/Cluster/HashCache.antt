-- ===== src/Cluster/HashCache.antt =====
-- crates/trust-kernel/src/cluster_mux.rs: `HashCache` and the reading of a payload through it.
use spaceshuttle.Prelude.{
  ℕ, List, [], ◌∷◌, Option, none, some, String, Bool, false, ◌==◌, if◌then◌else◌, str_eq, add64,
}
use spaceshuttle.Cluster.BlockStore.{lookup, insert}
use spaceshuttle.Cluster.Frames.{
  IoResult, io_ok, io_err, out_of_fuel, read_chunks, read_payload_streaming,
}

-- `HashMap` as an association list; the lock is held for each call.
pub record HashCache : Type 0 where
  pub verified : List (ℕ × String)
  pub hits : ℕ
  pub misses : ℕ
  pub bytes_saved : ℕ

-- Durations are left out.
pub data VerifyResult : Type 0 where
  full_verify : String → VerifyResult
  cache_hit : String → VerifyResult
  skipped : VerifyResult

unfoldable pub new : HashCache
new = record { verified = []; hits = 0; misses = 0; bytes_saved = 0 }

-- `map(|h| h == content_hash).unwrap_or(false)`
abbrev pub is_hash : Option String → String → Bool
is_hash none content_hash = false
is_hash (some h) content_hash = str_eq h content_hash

unfoldable pub is_verified : HashCache → ℕ → String → Bool
unfolding lookup
is_verified cache block_index content_hash =
    is_hash (lookup block_index cache.verified) content_hash

unfoldable pub mark_verified : HashCache → ℕ → String → HashCache
unfolding insert
mark_verified cache block_index content_hash = record cache {
  verified = insert block_index content_hash cache.verified;
}

unfoldable pub without : ℕ → List (ℕ × String) → List (ℕ × String)
without block_index [] = []
without block_index (entry ∷ others) =
    if entry.0 == block_index then others else entry ∷ without block_index others

unfoldable pub invalidate : HashCache → ℕ → HashCache
unfolding without
invalidate cache block_index = record cache { verified = without block_index cache.verified }

-- A hit: the bytes are read in the same chunks, and none is hashed.
unfoldable pub after_hit :
    HashCache
    → ℕ
    → String
    → IoResult (List ℕ × List ℕ × List ℕ)
    → HashCache × IoResult (List ℕ × String × VerifyResult × List ℕ)
after_hit cache payload_size server_hash (io_ok (block, _, rest)) = (
  record cache { hits = add64 cache.hits 1; bytes_saved = add64 cache.bytes_saved payload_size },
  io_ok (block, server_hash, cache_hit server_hash, rest),
)
after_hit cache payload_size server_hash (io_err e) = (cache, io_err e)
after_hit cache payload_size server_hash out_of_fuel = (cache, out_of_fuel)

-- A miss: the computed hash is marked as verified, whatever the server claimed.
unfoldable pub after_miss :
    HashCache
    → ℕ
    → IoResult (List ℕ × String × List ℕ)
    → HashCache × IoResult (List ℕ × String × VerifyResult × List ℕ)
unfolding mark_verified
after_miss cache block_index (io_ok (block, computed_hash, rest)) =
    let marked = mark_verified cache block_index computed_hash in
    (
      record marked { misses = add64 marked.misses 1 },
      io_ok (block, computed_hash, full_verify computed_hash, rest),
    )
after_miss cache block_index (io_err e) = (cache, io_err e)
after_miss cache block_index out_of_fuel = (cache, out_of_fuel)

-- `stream` is what the reader still gets before the connection ends; the rest of it is given back. A read that
-- has to wait is not told apart from one that finds its bytes there.
unfoldable pub read_payload_cached :
    (List ℕ → String)
    → ℕ
    → String
    → ℕ
    → HashCache
    → List ℕ
    → HashCache × IoResult (List ℕ × String × VerifyResult × List ℕ)
unfolding is_verified after_hit after_miss read_chunks read_payload_streaming
read_payload_cached sha256_hex payload_size server_hash block_index cache stream =
    if is_verified cache block_index server_hash
    then after_hit cache payload_size server_hash
        (read_chunks payload_size payload_size [] [] stream)
    else after_miss cache block_index (read_payload_streaming sha256_hex payload_size stream)
