-- ===== src/Bifurcation/Types.antt =====
-- crates/trust-kernel/src/bifurcation.rs: claims, clearance levels, encrypted blocks and results.
-- A byte array is a list of bytes. The durations in the results are left out.
use spaceshuttle.Prelude.{ℕ, zero, suc, List, String, ◌≡◌, refl}

pub data ClearanceLevel : Type 0 where
  unclassified restricted confidential secret top_secret : ClearanceLevel

-- The discriminants, by which the derived order compares.
abbrev pub rank : ClearanceLevel → ℕ
rank unclassified = 0
rank restricted = 1
rank confidential = 2
rank secret = 3
rank top_secret = 4

unfoldable pub from_u8 : ℕ → ClearanceLevel
from_u8 zero = unclassified
from_u8 (suc zero) = restricted
from_u8 (suc (suc zero)) = confidential
from_u8 (suc (suc (suc zero))) = secret
from_u8 (suc (suc (suc (suc v)))) = top_secret

unfoldable pub as_str : ClearanceLevel → String
as_str unclassified = "UNCLASSIFIED"
as_str restricted = "RESTRICTED"
as_str confidential = "CONFIDENTIAL"
as_str secret = "SECRET"
as_str top_secret = "TOPSECRET"

pub record JisClaim : Type 0 where
  pub identity : String
  pub ed25519_pub : String
  pub clearance : ClearanceLevel
  pub role : String
  pub dept : String
  pub claimed_at : String
  pub signature : String

pub record EncryptedBlock : Type 0 where
  pub block_index : ℕ
  pub ephemeral_pub : List ℕ
  pub nonce : List ℕ
  pub required_clearance : ClearanceLevel
  pub plaintext_hash : List ℕ
  pub ciphertext : List ℕ
  pub encrypted_at_ns : ℕ
  pub encrypted_by : String

-- `crypto_error` is a result that no code makes. `panicked` stands for the `expect` of a decryption.
pub data BifurcationResult : Type 0 where
  sealed : EncryptedBlock → BifurcationResult
  opened : List ℕ → String → BifurcationResult
  access_denied : ClearanceLevel → ClearanceLevel → String → BifurcationResult
  claim_invalid : String → BifurcationResult
  integrity_failed : List ℕ → List ℕ → BifurcationResult
  crypto_error : String → BifurcationResult
  panicked : BifurcationResult

pub record BifurcationStats : Type 0 where
  pub blocks_sealed : ℕ
  pub blocks_opened : ℕ
  pub access_denied : ℕ
  pub integrity_failures : ℕ
  pub invalid_claims : ℕ
  pub avg_encrypt_us : ℕ
  pub avg_decrypt_us : ℕ
  pub avg_key_derive_us : ℕ

-- Every level survives the conversion to its number and back.
pub from_u8-rank : (level : ClearanceLevel) → from_u8 (rank level) ≡ level
unfolding from_u8
from_u8-rank unclassified = refl
from_u8-rank restricted = refl
from_u8-rank confidential = refl
from_u8-rank secret = refl
from_u8-rank top_secret = refl
