-- ===== src/Bifurcation/Batch.antt =====
-- crates/trust-kernel/src/bifurcation.rs: `seal_batch` and `open_batch`. The blocks of a batch are worked on
-- in parallel without shared state, so a list in their order stands for them; durations are left out.
use spaceshuttle.Prelude.{
  ℕ, suc, List, [], ◌∷◌, map, Option, none, some, String, ◌||◌, not, ◌==◌, ltb, if◌then◌else◌,
  length, add64, same_bytes,
}
use spaceshuttle.Prelude.Text.{byte_len}
use spaceshuttle.Bifurcation.Types.{ClearanceLevel, rank, JisClaim, EncryptedBlock}
use spaceshuttle.Bifurcation.Crypto.{Crypto, hkdf_derive_block_key}
use spaceshuttle.Bifurcation.KeyCache
use spaceshuttle.Bifurcation.KeyCache.{KeyCache}
use spaceshuttle.Bifurcation.Session.{SessionKey}
use spaceshuttle.Bifurcation.Airlock.{AirlockBifurcation, Moment, current_session, encrypted}

pub record BatchOpenResult : Type 0 where
  pub plaintexts : List (List ℕ)
  pub denied : ℕ

-- What opening one block of a batch comes to; without a valid tag the code panics.
pub data Opened : Type 0 where
  plain : List ℕ → Opened
  was_denied : Opened
  bad_hash : Opened
  tag_failed : Opened

module _ (c : Crypto) where
  -- `seal_one` over the plaintexts, each with the moment at which it is sealed.
  unfoldable pub seal_all :
      SessionKey → ClearanceLevel → String → ℕ → List (List ℕ × Moment) → List EncryptedBlock
  unfolding hkdf_derive_block_key encrypted
  seal_all session level by block_index [] = []
  seal_all session level by block_index (item ∷ items) =
      encrypted c item.1 item.0 block_index level by session.ephemeral_pub
        (hkdf_derive_block_key c session.shared_secret block_index)
      ∷ seal_all session level by (suc block_index) items

  -- The keys of the blocks are put into the cache.
  unfoldable pub cache_all : List ℕ → KeyCache → List EncryptedBlock → KeyCache
  unfolding hkdf_derive_block_key KeyCache.put
  cache_all shared cache [] = cache
  cache_all shared cache (block ∷ blocks) =
      cache_all shared
        (KeyCache.put cache block.ephemeral_pub block.block_index
          (hkdf_derive_block_key c shared block.block_index))
        blocks

  -- `m` is the moment of a new session. The session is checked once, for the whole batch.
  unfoldable pub seal_batch :
      AirlockBifurcation
      → Moment
      → List (List ℕ × Moment)
      → ClearanceLevel
      → String
      → AirlockBifurcation × List EncryptedBlock
  unfolding current_session seal_all cache_all
  seal_batch s m items level by =
      let session = current_session c s.session s m in
      let blocks = seal_all session level by 0 items in
      let count = length blocks in
      (
        record s {
          stats = record s.stats { blocks_sealed = add64 s.stats.blocks_sealed count };
          session = some (record session { blocks_sealed = add64 session.blocks_sealed count });
          key_cache = cache_all session.shared_secret s.key_cache blocks;
        },
        blocks,
      )

  -- The keys that the cache has, in order, and the cache with its counters.
  unfoldable pub cached_keys :
      KeyCache → List EncryptedBlock → KeyCache × List (EncryptedBlock × Option (List ℕ))
  unfolding KeyCache.get
  cached_keys cache [] = (cache, [])
  cached_keys cache (block ∷ blocks) =
      let (cache', key) = KeyCache.get cache block.ephemeral_pub block.block_index in
      let (cache'', keyed) = cached_keys cache' blocks in (cache'', (block, key) ∷ keyed)

  unfoldable pub batch_key : List ℕ → EncryptedBlock → Option (List ℕ) → List ℕ
  unfolding hkdf_derive_block_key
  batch_key system_secret block (some key) = key
  batch_key system_secret block none =
      hkdf_derive_block_key c (c.diffie_hellman system_secret block.ephemeral_pub) block.block_index

  unfoldable pub check_hash : EncryptedBlock → Option (List ℕ) → Opened
  check_hash block none = tag_failed
  check_hash block (some plaintext) =
      if same_bytes (c.sha256 plaintext) block.plaintext_hash then plain plaintext else bad_hash

  unfoldable pub open_item : List ℕ → JisClaim → EncryptedBlock × Option (List ℕ) → Opened
  unfolding batch_key check_hash
  open_item system_secret claim (block, cached_key) =
      if ltb (rank claim.clearance) (rank block.required_clearance)
      then was_denied
      else check_hash block
          (c.decrypt (batch_key system_secret block cached_key) block.nonce block.ciphertext)

  -- The plaintexts and the denials of a batch; one failed tag makes the whole call panic.
  unfoldable pub collect : List Opened → Option BatchOpenResult
  collect [] = some (record { plaintexts = []; denied = 0 })
  collect (result ∷ results) = add_result result (collect results)
    where
      add_result : Opened → Option BatchOpenResult → Option BatchOpenResult
      add_result tag_failed others = none
      add_result (plain _) none = none
      add_result (plain plaintext) (some others) =
          some (record others { plaintexts = plaintext ∷ others.plaintexts })
      add_result was_denied none = none
      add_result was_denied (some others) = some (record others { denied = suc others.denied })
      add_result bad_hash others = others

  abbrev pub batch_opened :
      AirlockBifurcation → Option BatchOpenResult → AirlockBifurcation × Option BatchOpenResult
  batch_opened s none = (s, none)
  batch_opened s (some result) = (
    record s {
      stats = record s.stats {
        blocks_opened = add64 s.stats.blocks_opened (length result.plaintexts);
        access_denied = add64 s.stats.access_denied result.denied;
      };
    },
    some result,
  )

  -- A claim without identity or with a key of the wrong length is denied every block. Without a result
  -- the call has panicked.
  unfoldable pub open_batch :
      AirlockBifurcation
      → List EncryptedBlock
      → JisClaim
      → AirlockBifurcation × Option BatchOpenResult
  unfolding cached_keys open_item collect
  open_batch s blocks claim =
      if (byte_len claim.identity == 0) || not (byte_len claim.ed25519_pub == 64)
      then (s, some (record { plaintexts = []; denied = length blocks }))
      else let (cache, keyed) = cached_keys s.key_cache blocks in
        batch_opened (record s { key_cache = cache })
          (collect (map (open_item s.system_secret claim) keyed))
