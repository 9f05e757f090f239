-- ===== src/Cluster/Frames.antt =====
-- crates/trust-kernel/src/cluster_mux.rs: `MuxFrame`, `MuxError`, and what comes off a socket.
-- Durations (`server_latency_us`) are left out of the frames, as nothing decides by them.
use spaceshuttle.Prelude.{
  ℕ, zero, suc, ◌-◌, List, [], ◌++◌, Option, String, ltb, if◌then◌else◌, length, take, drop, min,
}

pub data MuxFrame : Type 0 where
  -- channel_id, block_index, from_aint, expected_hash, bus_seq
  fetch_frame : ℕ → ℕ → String → Option String → ℕ → MuxFrame
  -- channel_id, block_index, from_aint, payload_size, raw_size, content_hash, ed25519_seal, bus_seq
  store_frame : ℕ → ℕ → String → ℕ → ℕ → String → String → ℕ → MuxFrame
  -- channel_id, from_aint
  ping_frame : ℕ → String → MuxFrame
  -- channel_id, status, block_index, content_hash, payload_size, raw_size, tibet_token_id, error
  response_frame : ℕ → ℕ → ℕ → String → ℕ → ℕ → String → Option String → MuxFrame

unfoldable pub channel_id : MuxFrame → ℕ
channel_id (fetch_frame channel _ _ _ _) = channel
channel_id (store_frame channel _ _ _ _ _ _ _) = channel
channel_id (ping_frame channel _) = channel
channel_id (response_frame channel _ _ _ _ _ _ _) = channel

pub data IoError : Type 0 where
  unexpected_eof : IoError
  invalid_data : String → IoError

-- A read returns, fails, or is still in its loop when the rounds given to it are used up.
pub data IoResult {ℓ} (A : Type ℓ) : Type ℓ where
  io_ok : A → IoResult A
  io_err : IoError → IoResult A
  out_of_fuel : IoResult A

-- An I/O error is carried as it is, not as its text.
pub data MuxError : Type 0 where
  connect_error : String → MuxError
  not_connected : MuxError
  io_error : IoError → MuxError
  protocol_error : String → MuxError
  remote_error : String → MuxError
  -- status, error
  remote_status : ℕ → String → MuxError
  -- expected, got
  integrity_failed : String → String → MuxError
  -- A read that is still in its loop.
  still_reading : MuxError
  -- Not an error of the code: the payload sent is not as long as its frame announces, so that the reader
  -- and the writer lose step. What is read from then on is not modelled.
  out_of_step : MuxError

-- `Result<_, MuxError>`
pub data Answer {ℓ} (A : Type ℓ) : Type ℓ where
  answered : A → Answer A
  refused : MuxError → Answer A

unfoldable pub read_exact : ℕ → List ℕ → IoResult (List ℕ × List ℕ)
read_exact n stream =
    if ltb (length stream) n then io_err unexpected_eof else io_ok (take n stream, drop n stream)

-- What one round of the loop goes on with.
abbrev pub then_read :
    (List ℕ → List ℕ → IoResult (List ℕ × List ℕ × List ℕ))
    → IoResult (List ℕ × List ℕ)
    → IoResult (List ℕ × List ℕ × List ℕ)
then_read next (io_ok (chunk, rest)) = next chunk rest
then_read next (io_err e) = io_err e
then_read next out_of_fuel = out_of_fuel

-- `while offset < payload_size`, in chunks of 64 KB: `remaining` is payload_size - offset, `buffer` what
-- was read so far, `hashed` what the hasher was given.
unfoldable pub read_chunks : ℕ → ℕ → List ℕ → List ℕ → List ℕ → IoResult (List ℕ × List ℕ × List ℕ)
unfolding read_exact
read_chunks fuel zero buffer hashed stream = io_ok (buffer, hashed, stream)
read_chunks zero (suc n) buffer hashed stream = out_of_fuel
read_chunks (suc fuel) (suc n) buffer hashed stream =
    let size = min 65536 (suc n) in
    then_read
      (λ chunk rest. read_chunks fuel (suc n - size) (buffer ++ chunk) (hashed ++ chunk) rest)
      (read_exact size stream)

module _ (sha256_hex : List ℕ → String) where
  abbrev pub finalize : IoResult (List ℕ × List ℕ × List ℕ) → IoResult (List ℕ × String × List ℕ)
  finalize (io_ok (buffer, hashed, rest)) = io_ok (buffer, sha256_hex hashed, rest)
  finalize (io_err e) = io_err e
  finalize out_of_fuel = out_of_fuel

  -- The payload, its hash and the rest of the stream. A round reads a byte or more, so `payload_size`
  -- rounds are enough.
  unfoldable pub read_payload_streaming : ℕ → List ℕ → IoResult (List ℕ × String × List ℕ)
  unfolding read_chunks
  read_payload_streaming payload_size stream =
      finalize (read_chunks payload_size payload_size [] [] stream)
