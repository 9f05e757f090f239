-- ===== src/Cluster/MuxClient.antt =====
-- crates/trust-kernel/src/cluster_mux.rs: `ClusterMuxClient`, the link to a remote RAM B.
-- The socket and the server at its other end are the environment. Every request carries a fresh bus
-- sequence number, so a function of the request can stand for any behaviour of the link over time.
use spaceshuttle.Prelude.{ℕ, List, [], ◌∷◌, Option, none, String}

-- `Result<_, MuxError>`; the text is the error's `Display`.
pub data MuxResult {ℓ} (A : Type ℓ) : Type ℓ where
  ok : A → MuxResult A
  err : String → MuxResult A

infixl 5 ◌>>=◌
abbrev pub ◌>>=◌ {ℓ κ} : {A : Type ℓ} {B : Type κ} → MuxResult A → (A → MuxResult B) → MuxResult B
ok a >>= f = f a
err e >>= f = err e

pub record ClusterMuxClient : Type 0 where
  -- What one fetch exchange comes to: block_index, expected_hash, bus_seq.
  pub fetch_block : ℕ → Option String → ℕ → MuxResult (List ℕ)
  -- What one store exchange comes to: block_index, data, content_hash, ed25519_seal, raw_size, bus_seq.
  pub store_block : ℕ → List ℕ → String → String → ℕ → ℕ → MuxResult (Unit {0})

-- `fetch_batch`: all requests go out without an expected hash, then the responses are read in order;
-- the first that fails ends the batch.
unfoldable pub fetch_batch : ClusterMuxClient → List (ℕ × ℕ) → MuxResult (List (ℕ × List ℕ))
fetch_batch c [] = ok []
fetch_batch c ((block_index, bus_seq) ∷ requests) = do
  block ← c.fetch_block block_index none bus_seq
  rest ← fetch_batch c requests
  ok ((block_index, block) ∷ rest)
