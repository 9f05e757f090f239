-- ===== src/Cluster/Streaming.antt =====
-- What reading a payload in chunks comes to (crates/trust-kernel/src/cluster_mux.rs).
use mathlib.Core.List.{append_assoc, append-nil}
use spaceshuttle.Prelude.{
  ℕ, zero, suc, ◌+◌, ◌-◌, ◌≤◌, ◌≡◌, ap, ◌∙◌, List, [], ◌++◌, String, arith, min, inl, inr,
  Bool-cases, ltb, if◌then◌else◌, length, take, drop, length-drop, take-append-drop, drop-drop,
  take_all, drop_all,
}
use spaceshuttle.Cluster.Frames.{
  IoResult, io_ok, io_err, unexpected_eof, read_exact, then_read, read_chunks,
  read_payload_streaming,
}

-- One read of `n` bytes behind what was read before.
abbrev pub read_once : ℕ → List ℕ → List ℕ → List ℕ → IoResult (List ℕ × List ℕ × List ℕ)
read_once n buffer hashed stream =
    if ltb (length stream) n
    then io_err unexpected_eof
    else io_ok (buffer ++ take n stream, hashed ++ take n stream, drop n stream)

-- Two chunks in a row behind a buffer are one.
chunks_joined :
    (size n : ℕ) (buffer stream : List ℕ)
    → (buffer ++ take size stream) ++ take n (drop size stream) ≡ buffer ++ take (size + n) stream
chunks_joined size n buffer stream =
    append_assoc buffer (take size stream) (take n (drop size stream))
    ∙ ap (buffer ++◌) (take-append-drop size n stream)

-- A read of `size` bytes and then one of `n` more are one read.
read_once-read_exact :
    (size n : ℕ) (buffer hashed stream : List ℕ)
    → then_read
        (λ chunk rest. read_once n (buffer ++ chunk) (hashed ++ chunk) rest)
        (read_exact size stream)
      ≡ read_once (size + n) buffer hashed stream
unfolding read_exact
read_once-read_exact size n buffer hashed stream = elim (Bool-cases (ltb (length stream) size)) [
  | inl short ↦ ground arith
  | inr long ↦ ground (
    arith,
    length-drop size stream,
    chunks_joined size n buffer stream,
    chunks_joined size n hashed stream,
    drop-drop size n stream,
  )
]

pub read_chunks-read_once :
    (fuel n : ℕ) (buffer hashed stream : List ℕ)
    → n ≤ fuel
    → read_chunks fuel n buffer hashed stream ≡ read_once n buffer hashed stream
unfolding read_chunks
read_chunks-read_once fuel zero buffer hashed stream h =
    ground (arith, append-nil buffer, append-nil hashed)
read_chunks-read_once zero (suc n) buffer hashed stream h = ground arith
read_chunks-read_once (suc fuel) (suc n) buffer hashed stream h =
    let size = min 65536 (suc n) in
    let e : size + (suc n - size) ≡ suc n = omega arith in
    ap (λ next. then_read next (read_exact size stream))
      (λ i chunk rest.
        read_chunks-read_once fuel (suc n - size) (buffer ++ chunk) (hashed ++ chunk) rest
          (omega arith) i)
    ∙ read_once-read_exact size (suc n - size) buffer hashed stream
    ∙ ap (λ k. read_once k buffer hashed stream) e

-- A payload that came whole is read whole.
pub read_chunks_whole :
    (block : List ℕ)
    → read_chunks (length block) (length block) [] [] block ≡ io_ok (block, block, [])
read_chunks_whole block =
    read_chunks-read_once (length block) (length block) [] [] block (omega arith)
    ∙ ground (
      arith,
      take_all (length block) block (omega arith),
      drop_all (length block) block (omega arith),
    )

-- Whatever the sizes, reading a payload in chunks of 64 KB ends within as many rounds as it has
-- bytes, and it is one read of all of it: it fails exactly if the stream is shorter, and the hash
-- is that of the bytes read.
pub read_payload_streaming-read_exact :
    (sha256_hex : List ℕ → String) (payload_size : ℕ) (stream : List ℕ)
    → read_payload_streaming sha256_hex payload_size stream ≡ (
        if ltb (length stream) payload_size
        then io_err unexpected_eof
        else io_ok (
          take payload_size stream,
          sha256_hex (take payload_size stream),
          drop payload_size stream,
        ))
unfolding read_payload_streaming
read_payload_streaming-read_exact sha256_hex payload_size stream =
    rw (read_chunks-read_once payload_size payload_size [] [] stream (omega arith)) (ground arith)
