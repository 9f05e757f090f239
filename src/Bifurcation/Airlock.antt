-- ===== src/Bifurcation/Airlock.antt =====
-- crates/trust-kernel/src/bifurcation.rs: `AirlockBifurcation`, sealing and opening of single blocks.
-- `open` is `open_block` here. What a call reads from the random generators and the clocks comes to it as a `Moment`.
use spaceshuttle.Prelude.{
  ℕ, ◌/◌, List, [], ◌∷◌, Option, none, some, String, Bool, true, not, ◌==◌, ltb, if◌then◌else◌,
  add64, sub64, mul64, same_bytes,
}
use spaceshuttle.Prelude.Text.{format, decimal, bytes, byte_len}
use spaceshuttle.Bifurcation.Types.{
  ClearanceLevel, rank, JisClaim, EncryptedBlock, BifurcationStats, BifurcationResult, sealed,
  opened, access_denied, claim_invalid, integrity_failed, panicked,
}
use spaceshuttle.Bifurcation.Crypto.{Crypto, hkdf_derive_block_key}
use spaceshuttle.Bifurcation.KeyCache
use spaceshuttle.Bifurcation.KeyCache.{KeyCache}
use spaceshuttle.Bifurcation.Session
use spaceshuttle.Bifurcation.Session.{SessionKey}

pub record AirlockBifurcation : Type 0 where
  pub stats : BifurcationStats
  pub system_secret : List ℕ
  pub system_pub : List ℕ
  pub key_cache : KeyCache
  pub session : Option SessionKey

pub record Moment : Type 0 where
  pub ephemeral_secret : List ℕ
  pub nonce : List ℕ
  pub now_ns : ℕ
  pub key_derive_us : ℕ
  pub crypt_us : ℕ

unfoldable pub new : Crypto → AirlockBifurcation
unfolding KeyCache.new
new c =
    let secret_bytes = bytes "TIBET-BIFURCATION-SYSTEM-KEY-V01" in
    record {
      stats = record {
        blocks_sealed = 0;
        blocks_opened = 0;
        access_denied = 0;
        integrity_failures = 0;
        invalid_claims = 0;
        avg_encrypt_us = 0;
        avg_decrypt_us = 0;
        avg_key_derive_us = 0;
      };
      system_secret = secret_bytes;
      system_pub = c.public_key secret_bytes;
      key_cache = KeyCache.new 16384;
      session = none;
    }

-- `(avg * (total - 1) + x) / total`
unfoldable pub average : ℕ → ℕ → ℕ → ℕ
average avg total x = add64 (mul64 avg (sub64 total 1)) x / total

unfoldable pub count_sealed : BifurcationStats → Moment → BifurcationStats
unfolding average
count_sealed s m =
    let total = add64 s.blocks_sealed 1 in
    record s {
      blocks_sealed = total;
      avg_encrypt_us = average s.avg_encrypt_us total m.crypt_us;
      avg_key_derive_us = average s.avg_key_derive_us total m.key_derive_us;
    }

unfoldable pub count_opened : BifurcationStats → Moment → BifurcationStats
unfolding average
count_opened s m =
    let total = add64 s.blocks_opened 1 in
    record s { blocks_opened = total; avg_decrypt_us = average s.avg_decrypt_us total m.crypt_us }

-- `self.session.as_ref().map_or(true, |s| !s.is_valid())`
unfoldable pub needs_new : Option SessionKey → ℕ → Bool
unfolding Session.is_valid
needs_new none now_ns = true
needs_new (some k) now_ns = not (Session.is_valid k now_ns)

unfoldable pub rotate_session : AirlockBifurcation → AirlockBifurcation
rotate_session s = record s { session = none }

unfoldable pub session_blocks : AirlockBifurcation → ℕ
session_blocks s = elim s.session [ none ↦ 0 | some k ↦ k.blocks_sealed ]

abbrev pub bad_length : JisClaim → String
bad_length claim = format (
    "Invalid Ed25519 public key length: "
    ∷ decimal (byte_len claim.ed25519_pub)
    ∷ " (expected "
    ∷ decimal 64
    ∷ ")"
    ∷ [])

module _ (c : Crypto) where
  -- A new session, of at most 100000 blocks and 300 seconds.
  unfoldable pub fresh_session : AirlockBifurcation → Moment → SessionKey
  unfolding Session.new
  fresh_session s m = Session.new c m.ephemeral_secret s.system_pub 100000 300000000000 m.now_ns

  -- The session that a call goes on with.
  unfoldable pub current_session : Option SessionKey → AirlockBifurcation → Moment → SessionKey
  unfolding fresh_session needs_new
  current_session none s m = fresh_session s m
  current_session (some k) s m = if needs_new (some k) m.now_ns then fresh_session s m else k

  unfoldable pub encrypted :
      Moment → List ℕ → ℕ → ClearanceLevel → String → List ℕ → List ℕ → EncryptedBlock
  encrypted m plaintext block_index required_clearance encrypted_by ephemeral_pub aes_key = record {
    block_index = block_index;
    ephemeral_pub = ephemeral_pub;
    nonce = m.nonce;
    required_clearance = required_clearance;
    plaintext_hash = c.sha256 plaintext;
    ciphertext = c.encrypt aes_key m.nonce plaintext;
    encrypted_at_ns = m.now_ns;
    encrypted_by = encrypted_by;
  }

  unfoldable pub seal :
      AirlockBifurcation
      → Moment
      → List ℕ
      → ℕ
      → ClearanceLevel
      → String
      → AirlockBifurcation × BifurcationResult
  unfolding hkdf_derive_block_key KeyCache.put encrypted count_sealed
  seal s m plaintext block_index required_clearance encrypted_by =
      let ephemeral_pub = c.public_key m.ephemeral_secret in
      let shared = c.diffie_hellman m.ephemeral_secret s.system_pub in
      let aes_key = hkdf_derive_block_key c shared block_index in
      (
        record s {
          key_cache = KeyCache.put s.key_cache ephemeral_pub block_index aes_key;
          stats = count_sealed s.stats m;
        },
        sealed (
            encrypted m plaintext block_index required_clearance encrypted_by ephemeral_pub
              aes_key),
      )

  unfoldable pub seal_session :
      AirlockBifurcation
      → Moment
      → List ℕ
      → ℕ
      → ClearanceLevel
      → String
      → AirlockBifurcation × BifurcationResult
  unfolding current_session Session.derive_block_key KeyCache.put encrypted count_sealed
  seal_session s m plaintext block_index required_clearance encrypted_by =
      let (session, aes_key) =
        Session.derive_block_key c (current_session s.session s m) block_index in
      (
        record s {
          session = some session;
          key_cache = KeyCache.put s.key_cache session.ephemeral_pub block_index aes_key;
          stats = count_sealed s.stats m;
        },
        sealed (
            encrypted m plaintext block_index required_clearance encrypted_by session.ephemeral_pub
              aes_key),
      )

  -- The key of a block, given what the cache answered.
  unfoldable pub key_or_derive :
      AirlockBifurcation → EncryptedBlock → KeyCache × Option (List ℕ) → AirlockBifurcation × List ℕ
  unfolding hkdf_derive_block_key KeyCache.put
  key_or_derive s block (cache, some cached_key) = (record s { key_cache = cache }, cached_key)
  key_or_derive s block (cache, none) =
      let shared = c.diffie_hellman s.system_secret block.ephemeral_pub in
      let key = hkdf_derive_block_key c shared block.block_index in
      (record s { key_cache = KeyCache.put cache block.ephemeral_pub block.block_index key }, key)

  -- What follows the decryption; without a valid tag the code panics.
  unfoldable pub checked :
      AirlockBifurcation
      → Moment
      → EncryptedBlock
      → JisClaim
      → Option (List ℕ)
      → AirlockBifurcation × BifurcationResult
  unfolding count_opened
  checked s m block claim none = (s, panicked)
  checked s m block claim (some plaintext) =
      if same_bytes (c.sha256 plaintext) block.plaintext_hash
      then (record s { stats = count_opened s.stats m }, opened plaintext claim.identity)
      else (
        record s {
          stats = record s.stats { integrity_failures = add64 s.stats.integrity_failures 1 };
        },
        integrity_failed block.plaintext_hash (c.sha256 plaintext),
      )

  unfoldable pub decrypted :
      AirlockBifurcation × List ℕ
      → Moment
      → EncryptedBlock
      → JisClaim
      → AirlockBifurcation × BifurcationResult
  unfolding checked
  decrypted (s, aes_key) m block claim =
      checked s m block claim (c.decrypt aes_key block.nonce block.ciphertext)

  unfoldable pub open_block :
      AirlockBifurcation
      → Moment
      → EncryptedBlock
      → JisClaim
      → AirlockBifurcation × BifurcationResult
  unfolding decrypted key_or_derive KeyCache.get
  open_block s m block claim =
      if byte_len claim.identity == 0
      then (
        record s { stats = record s.stats { invalid_claims = add64 s.stats.invalid_claims 1 } },
        claim_invalid "Empty identity in JIS claim",
      )
      else if not (byte_len claim.ed25519_pub == 64)
      then (
        record s { stats = record s.stats { invalid_claims = add64 s.stats.invalid_claims 1 } },
        claim_invalid (bad_length claim),
      )
      else if ltb (rank claim.clearance) (rank block.required_clearance)
      then (
        record s { stats = record s.stats { access_denied = add64 s.stats.access_denied 1 } },
        access_denied block.required_clearance claim.clearance claim.identity,
      )
      else decrypted
          (key_or_derive s block (KeyCache.get s.key_cache block.ephemeral_pub block.block_index)) m
          block claim
