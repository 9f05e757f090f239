-- ===== src/Bifurcation/Parallel.antt =====
-- crates/trust-kernel/src/bifurcation.rs: the free functions `parallel_seal` and `parallel_open`, which have
-- neither cache nor session. The threads share only a counter, so a list in its order stands for their work;
-- durations, the throughput and the number of threads are left out.
use spaceshuttle.Prelude.{
  ℕ, suc, ◌≡◌, refl, sym, subst, ap, ◌∙◌, ◌<◌, ◌≤◌, List, [], ◌∷◌, map, Option, none, some, String,
  false, ◌||◌, ◌==◌, not, ltb, if◌then◌else◌, inl, inr, Bool-cases, arith, length, All,
}
use spaceshuttle.Prelude.Text.{byte_len}
use spaceshuttle.Bifurcation.Types.{ClearanceLevel, rank, JisClaim, EncryptedBlock}
use spaceshuttle.Bifurcation.Crypto.{Crypto, IsLawful, hkdf_derive_block_key}
use spaceshuttle.Bifurcation.KeyCache
use spaceshuttle.Bifurcation.KeyCache.{KeyCache}
use spaceshuttle.Bifurcation.Airlock.{AirlockBifurcation, Moment, encrypted}
use spaceshuttle.Bifurcation.Keys.{IsOwn, IsSound, sender_key}
use spaceshuttle.Bifurcation.Batch.{
  BatchOpenResult, Opened, was_denied, check_hash, collect, open_item, cached_keys, batch_opened,
  open_batch,
}
use spaceshuttle.Bifurcation.BatchKeys.{get_keys, batch_key_own, AllOpen, collect_plain}

module _ (c : Crypto) where
  -- The blocks from an index on, each with its own exchange at its own moment.
  unfoldable pub parallel_blocks :
      List ℕ → ClearanceLevel → String → ℕ → List (List ℕ × Moment) → List EncryptedBlock
  unfolding hkdf_derive_block_key encrypted
  parallel_blocks system_pub level by block_index [] = []
  parallel_blocks system_pub level by block_index ((plaintext, m) ∷ items) =
      encrypted c m plaintext block_index level by (c.public_key m.ephemeral_secret)
        (hkdf_derive_block_key c (c.diffie_hellman m.ephemeral_secret system_pub) block_index)
      ∷ parallel_blocks system_pub level by (suc block_index) items

  unfoldable pub parallel_seal :
      List (List ℕ × Moment) → List ℕ → ClearanceLevel → String → List EncryptedBlock
  unfolding parallel_blocks
  parallel_seal items system_secret required_clearance encrypted_by =
      parallel_blocks (c.public_key system_secret) required_clearance encrypted_by 0 items

  unfoldable pub parallel_item : List ℕ → JisClaim → EncryptedBlock → Opened
  unfolding hkdf_derive_block_key check_hash
  parallel_item system_secret claim block =
      if ltb (rank claim.clearance) (rank block.required_clearance)
      then was_denied
      else check_hash c block (
          c.decrypt
            (hkdf_derive_block_key c (c.diffie_hellman system_secret block.ephemeral_pub)
              block.block_index)
            block.nonce block.ciphertext)

  -- Without a result the call has panicked.
  unfoldable pub parallel_open : List EncryptedBlock → JisClaim → List ℕ → Option BatchOpenResult
  unfolding parallel_item collect
  parallel_open blocks claim system_secret =
      if (byte_len claim.identity == 0) || not (byte_len claim.ed25519_pub == 64)
      then some (record { plaintexts = []; denied = length blocks })
      else collect c (map (parallel_item system_secret claim) blocks)

  -- A cached key is the one that is derived without the cache.
  items-same :
      (secret : List ℕ) (claim : JisClaim) (cache : KeyCache) (blocks : List EncryptedBlock)
      → All (IsOwn c secret) cache.derived_keys
      → map (open_item c secret claim) (cached_keys c cache blocks).1
        ≡ map (parallel_item secret claim) blocks
  unfolding cached_keys open_item parallel_item
  items-same secret claim cache [] own = refl
  items-same secret claim cache (b ∷ blocks) own =
      let rest =
        items-same secret claim (KeyCache.get cache b.ephemeral_pub b.block_index).0 blocks
          (subst (All (IsOwn c secret)) (sym (get_keys c cache b)) own) in
      rw (batch_key_own c secret cache b own, rest) refl

  batch_opened-answer :
      (s : AirlockBifurcation) (result : Option BatchOpenResult)
      → (batch_opened c s result).1 ≡ result
  batch_opened-answer s none = refl
  batch_opened-answer s (some result) = refl

  -- On a sound airlock, `open_batch` with its cache gives for any blocks and any claim what
  -- `parallel_open` gives with the secret alone: the same plaintexts in the same order and the
  -- same denials, the same answer to an invalid claim, and a panic in the same cases.
  pub open_batch-parallel_open :
      (s : AirlockBifurcation) (blocks : List EncryptedBlock) (claim : JisClaim)
      → IsSound c s
      → (open_batch c s blocks claim).1 ≡ parallel_open blocks claim s.system_secret
  unfolding open_batch parallel_open
  open_batch-parallel_open s blocks claim h =
      elim (Bool-cases ((byte_len claim.identity == 0) || not (byte_len claim.ed25519_pub == 64))) [
        | inl bad ↦ rw bad refl
        | inr good ↦ rw good (
            batch_opened-answer (record s { key_cache = (cached_keys c s.key_cache blocks).0 })
              (collect c
                (map (open_item c s.system_secret claim) (cached_keys c s.key_cache blocks).1))
            ∙ ap (collect c) (items-same s.system_secret claim s.key_cache blocks h.cached))
      ]

  parallel_blocks-AllOpen :
      (secret : List ℕ) (claim : JisClaim) (level : ClearanceLevel) (by : String) (block_index : ℕ)
      (items : List (List ℕ × Moment))
      → IsLawful c
      → rank level ≤ rank claim.clearance
      → AllOpen c secret claim
          (parallel_blocks (c.public_key secret) level by block_index items)
          (map (λ item. item.0) items)
  unfolding parallel_blocks encrypted
  parallel_blocks-AllOpen secret claim level by block_index [] law cleared = tt
  parallel_blocks-AllOpen secret claim level by block_index ((plaintext, m) ∷ items) law cleared = (
    (
      ap (λ key. c.encrypt key m.nonce plaintext)
          (sender_key c law secret m.ephemeral_secret block_index),
      refl,
      cleared,
    ),
    parallel_blocks-AllOpen secret claim level by (suc block_index) items law cleared,
  )

  -- Under the laws of the cryptography: blocks that `parallel_seal` made from the secret of a
  -- sound airlock are opened with all their plaintexts in order and no denial, both by
  -- `parallel_open` and by the airlock's own `open_batch`, for any claim with an identity, a key
  -- of the right length and enough clearance.
  pub parallel_seal-parallel_open :
      (s : AirlockBifurcation) (items : List (List ℕ × Moment)) (level : ClearanceLevel)
      (by : String) (claim : JisClaim)
      → IsLawful c
      → IsSound c s
      → 0 < byte_len claim.identity
      → byte_len claim.ed25519_pub ≡ 64
      → rank level ≤ rank claim.clearance
      → (parallel_open (parallel_seal items s.system_secret level by) claim s.system_secret
          ≡ some (record { plaintexts = map (λ item. item.0) items; denied = 0 }))
        × ((open_batch c s (parallel_seal items s.system_secret level by) claim).1
            ≡ some (record { plaintexts = map (λ item. item.0) items; denied = 0 }))
  unfolding parallel_seal parallel_open
  parallel_seal-parallel_open s items level by claim law h named keyed cleared =
      let blocks = parallel_blocks (c.public_key s.system_secret) level by 0 items in
      let valid : ((byte_len claim.identity == 0) || not (byte_len claim.ed25519_pub == 64))
          ≡ false =
        ground arith in
      let alone : parallel_open blocks claim s.system_secret
          ≡ some (record { plaintexts = map (λ item. item.0) items; denied = 0 }) =
        rw
          (
            valid,
            sym (items-same s.system_secret claim s.key_cache blocks h.cached),
            collect_plain c law s.system_secret claim blocks (map (λ item. item.0) items)
                s.key_cache h.cached
                (parallel_blocks-AllOpen s.system_secret claim level by 0 items law cleared),
          )
          refl in
      (alone, open_batch-parallel_open s blocks claim h ∙ alone)
