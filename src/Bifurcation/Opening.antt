-- ===== src/Bifurcation/Opening.antt =====
-- `AirlockBifurcation::open` of crates/trust-kernel/src/bifurcation.rs against a description that has
-- no cache and no state.
use spaceshuttle.Prelude.{
  ℕ, ◌≡◌, refl, sym, ap, ◌∙◌, List, Option, none, some, ◌==◌, not, ltb, if◌then◌else◌, inl, inr,
  Bool-cases, Option-cases, same_bytes, add64,
}
use spaceshuttle.Prelude.Text.{byte_len}
use spaceshuttle.Bifurcation.Types.{
  rank, EncryptedBlock, JisClaim, BifurcationResult, opened, access_denied, claim_invalid,
  integrity_failed, panicked,
}
use spaceshuttle.Bifurcation.Crypto.{Crypto}
use spaceshuttle.Bifurcation.KeyCache
use spaceshuttle.Bifurcation.KeyCache.{KeyCache, CachedKey, put-All, lookup-Found, is_for_iff}
use spaceshuttle.Bifurcation.Airlock.{
  AirlockBifurcation, Moment, bad_length, key_or_derive, checked, decrypted, open_block,
}
use spaceshuttle.Bifurcation.Keys.{own_key, IsOwn, IsSound}

module _ (c : Crypto) where
  -- A ciphertext whose tag verifies is opened if its plaintext has the recorded hash.
  unfoldable pub outcome : EncryptedBlock → JisClaim → Option (List ℕ) → BifurcationResult
  outcome block claim none = panicked
  outcome block claim (some plaintext) =
      if same_bytes (c.sha256 plaintext) block.plaintext_hash
      then opened plaintext claim.identity
      else integrity_failed block.plaintext_hash (c.sha256 plaintext)

  -- What the holder of the secret answers to a claim on a block.
  unfoldable pub verdict : List ℕ → EncryptedBlock → JisClaim → BifurcationResult
  unfolding outcome
  verdict secret block claim =
      if byte_len claim.identity == 0
      then claim_invalid "Empty identity in JIS claim"
      else if not (byte_len claim.ed25519_pub == 64)
      then claim_invalid (bad_length claim)
      else if ltb (rank claim.clearance) (rank block.required_clearance)
      then access_denied block.required_clearance claim.clearance claim.identity
      else outcome block claim (
          c.decrypt (own_key c secret block.ephemeral_pub block.block_index) block.nonce
            block.ciphertext)

  -- The key that `open` comes to, cached or derived.
  looked_up : AirlockBifurcation → EncryptedBlock → AirlockBifurcation × List ℕ
  unfolding key_or_derive KeyCache.get
  looked_up s block =
      key_or_derive c s block (KeyCache.get s.key_cache block.ephemeral_pub block.block_index)

  looked_up_key :
      (s : AirlockBifurcation) (block : EncryptedBlock)
      → IsSound c s
      → (looked_up s block).1 ≡ own_key c s.system_secret block.ephemeral_pub block.block_index
  unfolding looked_up
  looked_up_key s block h =
      elim (Option-cases
        (KeyCache.lookup s.key_cache.derived_keys block.ephemeral_pub block.block_index)) [
          | inl missed ↦ rw missed refl
          | inr (key, hit) ↦
              let (e, own, for, same) =
                lookup-Found (IsOwn c s.system_secret) s.key_cache.derived_keys block.ephemeral_pub
                  block.block_index key h.cached hit in
              let (index, ephemeral) = is_for_iff block.ephemeral_pub block.block_index e for in
              rw hit (sym same ∙ own ∙ rw (index, ephemeral) refl)
        ]

  looked_up-IsSound :
      (s : AirlockBifurcation) (block : EncryptedBlock)
      → IsSound c s
      → IsSound c (looked_up s block).0
  unfolding looked_up
  looked_up-IsSound s block h =
      elim (Option-cases
        (KeyCache.lookup s.key_cache.derived_keys block.ephemeral_pub block.block_index)) [
          | inl missed ↦ rw missed (record {
            own = h.own;
            cached =
                put-All (IsOwn c s.system_secret)
                  (record s.key_cache { misses = add64 s.key_cache.misses 1 }) block.ephemeral_pub
                  block.block_index _ refl h.cached;
            live = h.live;
          })
          | inr (key, hit) ↦ rw hit (record { own = h.own; cached = h.cached; live = h.live })
        ]

  checked-outcome :
      (s : AirlockBifurcation) (m : Moment) (block : EncryptedBlock) (claim : JisClaim)
      (o : Option (List ℕ))
      → (checked c s m block claim o).1 ≡ outcome block claim o
  unfolding checked outcome
  checked-outcome s m block claim none = refl
  checked-outcome s m block claim (some plaintext) =
      elim (Bool-cases (same_bytes (c.sha256 plaintext) block.plaintext_hash)) [
        | inl h ↦ rw h refl
        | inr h ↦ rw h refl
      ]

  -- On a sound airlock, `open` answers what the holder of the secret answers with no cache at all,
  -- on every path: an empty identity, a key of the wrong length, a denial, a tag that does not
  -- verify (a panic), a failed integrity check and success.
  pub open_block-verdict :
      (s : AirlockBifurcation) (m : Moment) (block : EncryptedBlock) (claim : JisClaim)
      → IsSound c s
      → (open_block c s m block claim).1 ≡ verdict s.system_secret block claim
  unfolding open_block verdict decrypted looked_up
  open_block-verdict s m block claim h = elim (Bool-cases (byte_len claim.identity == 0)) [
    | inl a ↦ rw a refl
    | inr a ↦ elim (Bool-cases (not (byte_len claim.ed25519_pub == 64))) [
      | inl b ↦ rw (a, b) refl
      | inr b ↦ elim (Bool-cases (ltb (rank claim.clearance) (rank block.required_clearance))) [
        | inl d ↦ rw (a, b, d) refl
        | inr d ↦
            rw (a, b, d)
              (checked-outcome (looked_up s block).0 m block claim _
                ∙ ap (λ key. outcome block claim (c.decrypt key block.nonce block.ciphertext))
                    (looked_up_key s block h))
      ]
    ]
  ]

  checked-IsSound :
      (s : AirlockBifurcation) (m : Moment) (block : EncryptedBlock) (claim : JisClaim)
      (o : Option (List ℕ))
      → IsSound c s
      → IsSound c (checked c s m block claim o).0
        × ((checked c s m block claim o).0.system_secret ≡ s.system_secret)
  unfolding checked
  checked-IsSound s m block claim none h = (h, refl)
  checked-IsSound s m block claim (some plaintext) h =
      elim (Bool-cases (same_bytes (c.sha256 plaintext) block.plaintext_hash)) [
        | inl e ↦ rw e (record { own = h.own; cached = h.cached; live = h.live }, refl)
        | inr e ↦ rw e (record { own = h.own; cached = h.cached; live = h.live }, refl)
      ]

  looked_up_secret :
      (s : AirlockBifurcation) (block : EncryptedBlock)
      → (looked_up s block).0.system_secret ≡ s.system_secret
  unfolding looked_up
  looked_up_secret s block =
      elim (Option-cases
        (KeyCache.lookup s.key_cache.derived_keys block.ephemeral_pub block.block_index)) [
          | inl missed ↦ rw missed refl
          | inr (key, hit) ↦ rw hit refl
        ]

  -- Opening keeps the keys sound and the secret as it is.
  pub open_block-IsSound :
      (s : AirlockBifurcation) (m : Moment) (block : EncryptedBlock) (claim : JisClaim)
      → IsSound c s
      → IsSound c (open_block c s m block claim).0
        × ((open_block c s m block claim).0.system_secret ≡ s.system_secret)
  unfolding open_block decrypted looked_up
  open_block-IsSound s m block claim h = elim (Bool-cases (byte_len claim.identity == 0)) [
    | inl a ↦ rw a (record { own = h.own; cached = h.cached; live = h.live }, refl)
    | inr a ↦ elim (Bool-cases (not (byte_len claim.ed25519_pub == 64))) [
      | inl b ↦ rw (a, b) (record { own = h.own; cached = h.cached; live = h.live }, refl)
      | inr b ↦ elim (Bool-cases (ltb (rank claim.clearance) (rank block.required_clearance))) [
        | inl d ↦ rw (a, b, d) (record { own = h.own; cached = h.cached; live = h.live }, refl)
        | inr d ↦
            let (sound, kept) =
              checked-IsSound (looked_up s block).0 m block claim
                (c.decrypt (looked_up s block).1 block.nonce block.ciphertext)
                (looked_up-IsSound s block h) in
            rw (a, b, d) (sound, kept ∙ looked_up_secret s block)
      ]
    ]
  ]
