-- ===== src/Raid/Simulated.antt =====
-- crates/trust-kernel/src/ram_raid.rs: the simulated hash, seal and compression.
use Prim.Native.Nat.{bit_xor}
use Prim.Native.String.{slice}
use spaceshuttle.Prelude.{
  ℕ, ◌-◌, ◌*◌, ◌/◌, ◌≤◌, ◌≡◌, refl, List, [], ◌∷◌, ◌++◌, String, arith, min, max, ltb, ◌==◌,
  if◌then◌else◌, length, length-append, length-take, length-replicate, take, replicate, count_if,
  mul64, rotate_left64,
}
use spaceshuttle.Prelude.Text.{format, hex16}

-- The FNV-1a loop over the bytes.
unfoldable pub fnv1a : ℕ → List ℕ → ℕ
fnv1a hash [] = hash
fnv1a hash (byte ∷ rest) = fnv1a (mul64 (bit_xor hash byte) 0x100000001b3) rest

unfoldable pub simulate_sha256 : List ℕ → String
unfolding fnv1a hex16
simulate_sha256 bs =
    let hash = fnv1a 0xcbf29ce484222325 bs in
    format (
      "sha256:"
      ∷ hex16 hash
      ∷ hex16 (rotate_left64 hash 16)
      ∷ hex16 (rotate_left64 hash 32)
      ∷ hex16 (rotate_left64 hash 48)
      ∷ [])

unfoldable pub simulate_ed25519_sign : List ℕ → String
unfolding simulate_sha256
simulate_ed25519_sign bs = format ("ed25519_raid:" ∷ slice (simulate_sha256 bs) 7 39 ∷ [])

-- `(len as f64 / ratio) as usize`. The ratio of zeros is compared exactly, and 8, 5, 3.5 and 2.5 are
-- halves, so on fewer than 2 ^ 49 bytes the floating-point result is this one.
unfoldable pub compressed_len : ℕ → ℕ → ℕ
compressed_len zeros len =
    let n = max len 1 in
    if ltb (9 * n) (10 * zeros)
    then len / 8
    else if ltb (7 * n) (10 * zeros)
    then len / 5
    else if ltb n (2 * zeros)
    then 2 * len / 7
    else 2 * len / 5

-- The duration that the code returns beside the bytes is dropped by its one caller.
unfoldable pub simulate_zstd_compress : List ℕ → List ℕ
unfolding compressed_len
simulate_zstd_compress bs =
    let size = compressed_len (count_if (λ b. b == 0) bs) (length bs) in
    let fill = min size (length bs) in take fill bs ++ replicate (size - fill) 0

-- The simulated compression never makes a block longer, whatever its share of zeros.
pub length-simulate_zstd_compress : (bs : List ℕ) → length (simulate_zstd_compress bs) ≤ length bs
unfolding simulate_zstd_compress
length-simulate_zstd_compress bs =
    let size = compressed_len (count_if (λ b. b == 0) bs) (length bs) in
    let fill = min size (length bs) in
    ground (
      arith,
      length-append (take fill bs) (replicate (size - fill) 0),
      length-take fill bs,
      length-replicate {A = ℕ} (size - fill) 0,
    )

sha256_test :
    simulate_sha256 [] ≡ "sha256:cbf29ce4842223259ce484222325cbf284222325cbf29ce42325cbf29ce48422"
unfolding simulate_sha256
sha256_test = refl

sign_test : simulate_ed25519_sign [] ≡ "ed25519_raid:cbf29ce4842223259ce484222325cbf2"
unfolding simulate_ed25519_sign
sign_test = refl
