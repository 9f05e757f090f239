-- ===== src/Bifurcation/Crypto.antt =====
-- The cryptography that crates/trust-kernel/src/bifurcation.rs takes from other packages: X25519,
-- HKDF-SHA256, AES-256-GCM and SHA-256, as parameters with their documented behaviour.
use spaceshuttle.Prelude.{
  ℕ, ◌≡◌, ◌≢◌, ◌<◌, ◌^◌, List, [], ◌∷◌, ◌++◌, Option, some, ap, le_bytes, le_bytes-injective,
}
use spaceshuttle.Prelude.Text.{bytes}

pub record Crypto : Type 0 where
  -- `PublicKey::from(&secret)`
  pub public_key : List ℕ → List ℕ
  -- `secret.diffie_hellman(&public)`
  pub diffie_hellman : List ℕ → List ℕ → List ℕ
  -- `Hkdf::new(None, shared).expand(info)`
  pub hkdf_expand : List ℕ → List ℕ → List ℕ
  -- key, nonce, plaintext
  pub encrypt : List ℕ → List ℕ → List ℕ → List ℕ
  -- key, nonce, ciphertext; `none` when the tag does not verify
  pub decrypt : List ℕ → List ℕ → List ℕ → Option (List ℕ)
  pub sha256 : List ℕ → List ℕ

pub record IsLawful (c : Crypto) : Type 0 where
  -- Both sides of an exchange come to the same secret.
  pub dh_agree :
      (a b : List ℕ) → c.diffie_hellman a (c.public_key b) ≡ c.diffie_hellman b (c.public_key a)
  -- A ciphertext decrypts under the key and the nonce it was made with.
  pub decrypt_encrypt :
      (key nonce plaintext : List ℕ)
      → c.decrypt key nonce (c.encrypt key nonce plaintext) ≡ some plaintext

-- The HKDF info: the prefix, then the index as eight bytes.
unfoldable pub block_info : ℕ → List ℕ
block_info block_index = bytes "tibet-bifurcation-v1-block-" ++ le_bytes 8 block_index

unfoldable pub hkdf_derive_block_key : Crypto → List ℕ → ℕ → List ℕ
unfolding block_info
hkdf_derive_block_key c shared_secret block_index =
    c.hkdf_expand shared_secret (block_info block_index)

drop_prefix : List ℕ → List ℕ → List ℕ
drop_prefix [] bs = bs
drop_prefix (p ∷ ps) [] = []
drop_prefix (p ∷ ps) (b ∷ bs) = drop_prefix ps bs

-- Different block indices below 2 ^ 64 have different HKDF infos.
pub block_info-injective :
    (i j : ℕ) → i < 256 ^ 8 → j < 256 ^ 8 → i ≢ j → block_info i ≢ block_info j
unfolding block_info drop_prefix
block_info-injective i j hi hj differ e =
    differ
      (le_bytes-injective 8 i j hi hj (ap (drop_prefix (bytes "tibet-bifurcation-v1-block-")) e))
