-- ===== src/Bifurcation/Session.antt =====
-- crates/trust-kernel/src/bifurcation.rs: `SessionKey`, one key exchange for many blocks.
-- Times are nanoseconds since the start of the airlock.
use spaceshuttle.Prelude.{ℕ, ◌-◌, List, Bool, ◌&&◌, ltb, add64}
use spaceshuttle.Bifurcation.Crypto.{Crypto, hkdf_derive_block_key}

pub record SessionKey : Type 0 where
  pub shared_secret : List ℕ
  pub ephemeral_pub : List ℕ
  pub blocks_sealed : ℕ
  pub max_blocks : ℕ
  pub created_at : ℕ
  pub max_age : ℕ

unfoldable pub new : Crypto → List ℕ → List ℕ → ℕ → ℕ → ℕ → SessionKey
new c ephemeral_secret system_pub max_blocks max_age now_ns = record {
  shared_secret = c.diffie_hellman ephemeral_secret system_pub;
  ephemeral_pub = c.public_key ephemeral_secret;
  blocks_sealed = 0;
  max_blocks = max_blocks;
  created_at = now_ns;
  max_age = max_age;
}

unfoldable pub is_valid : SessionKey → ℕ → Bool
is_valid k now_ns = ltb k.blocks_sealed k.max_blocks && ltb (now_ns - k.created_at) k.max_age

unfoldable pub derive_block_key : Crypto → SessionKey → ℕ → SessionKey × List ℕ
unfolding hkdf_derive_block_key
derive_block_key c k block_index = (
  record k { blocks_sealed = add64 k.blocks_sealed 1 },
  hkdf_derive_block_key c k.shared_secret block_index,
)
