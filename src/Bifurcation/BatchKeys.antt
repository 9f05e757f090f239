-- ===== src/Bifurcation/BatchKeys.antt =====
-- Batches keep the keys of the airlock sound (crates/trust-kernel/src/bifurcation.rs).
use spaceshuttle.Prelude.{
  ℕ, suc, ◌≡◌, refl, sym, subst, ap, ◌∙◌, ◌≤◌, arith, false, ltb, same_bytes_refl, List, [], ◌∷◌,
  map, Option, none, some, String, inl, inr, Option-cases, Bool-cases, ◌==◌, ◌||◌, not, All,
}
use spaceshuttle.Prelude.Text.{byte_len}
use spaceshuttle.Bifurcation.Types.{ClearanceLevel, rank, JisClaim, EncryptedBlock}
use spaceshuttle.Bifurcation.Crypto.{Crypto, IsLawful, hkdf_derive_block_key}
use spaceshuttle.Bifurcation.KeyCache
use spaceshuttle.Bifurcation.KeyCache.{KeyCache, CachedKey, put-All, lookup-Found, is_for_iff}
use spaceshuttle.Bifurcation.Session.{SessionKey}
use spaceshuttle.Bifurcation.Airlock.{AirlockBifurcation, Moment, current_session, encrypted}
use spaceshuttle.Bifurcation.Keys.{own_key, IsOwn, IsSound, current_session-Agrees}
use spaceshuttle.Bifurcation.Batch.{
  plain, check_hash, seal_all, cache_all, seal_batch, cached_keys, batch_opened, collect, open_item,
  batch_key, open_batch, BatchOpenResult,
}

module _ (c : Crypto) where
  -- The keys of blocks that a session sealed are those of the holder of its secret.
  cache_all-All :
      (secret shared : List ℕ) (cache : KeyCache) (blocks : List EncryptedBlock)
      → All (λ b. shared ≡ c.diffie_hellman secret b.ephemeral_pub) blocks
      → All (IsOwn c secret) cache.derived_keys
      → All (IsOwn c secret) (cache_all c shared cache blocks).derived_keys
  unfolding cache_all
  cache_all-All secret shared cache [] agree own = own
  cache_all-All secret shared cache (b ∷ blocks) (e, others) own =
      cache_all-All secret shared
        (KeyCache.put cache b.ephemeral_pub b.block_index
          (hkdf_derive_block_key c shared b.block_index))
        blocks others
        (put-All (IsOwn c secret) cache b.ephemeral_pub b.block_index _
          (ap (λ key. hkdf_derive_block_key c key b.block_index) e) own)

  pub seal_all-All {κ} :
      (P : List ℕ → Type κ) (session : SessionKey) (level : ClearanceLevel) (by : String)
      (block_index : ℕ) (items : List (List ℕ × Moment))
      → P session.ephemeral_pub
      → All (λ b. P b.ephemeral_pub) (seal_all c session level by block_index items)
  unfolding seal_all encrypted
  seal_all-All P session level by block_index [] h = tt
  seal_all-All P session level by block_index (item ∷ items) h =
      (h, seal_all-All P session level by (suc block_index) items h)

  pub seal_batch-IsSound :
      (s : AirlockBifurcation) (m : Moment) (items : List (List ℕ × Moment))
      (level : ClearanceLevel) (by : String)
      → IsLawful c
      → IsSound c s
      → IsSound c (seal_batch c s m items level by).0
  unfolding seal_batch
  seal_batch-IsSound s m items level by law h =
      let session = current_session c s.session s m in
      let live : session.shared_secret ≡ c.diffie_hellman s.system_secret session.ephemeral_pub =
        current_session-Agrees c law s.session s m h h.live in
      record {
        own = h.own;
        cached =
            cache_all-All s.system_secret session.shared_secret s.key_cache
              (seal_all c session level by 0 items)
              (seal_all-All
                (λ pub_key. session.shared_secret ≡ c.diffie_hellman s.system_secret pub_key)
                session level by 0 items live)
              h.cached;
        live = live;
      }

  -- Looking a key up changes only counters, and a key that is not found is derived.
  pub get_keys :
      (cache : KeyCache) (b : EncryptedBlock)
      → (KeyCache.get cache b.ephemeral_pub b.block_index).0.derived_keys ≡ cache.derived_keys
  unfolding KeyCache.get
  get_keys cache b =
      elim (Option-cases (KeyCache.lookup cache.derived_keys b.ephemeral_pub b.block_index)) [
        | inl missed ↦ rw missed refl
        | inr (key, hit) ↦ rw hit refl
      ]

  pub batch_key_own :
      (secret : List ℕ) (cache : KeyCache) (b : EncryptedBlock)
      → All (IsOwn c secret) cache.derived_keys
      → batch_key c secret b (KeyCache.get cache b.ephemeral_pub b.block_index).1
        ≡ own_key c secret b.ephemeral_pub b.block_index
  unfolding KeyCache.get batch_key
  batch_key_own secret cache b own =
      elim (Option-cases (KeyCache.lookup cache.derived_keys b.ephemeral_pub b.block_index)) [
        | inl missed ↦ rw missed refl
        | inr (key, hit) ↦
            let (e, owned, for, same) =
              lookup-Found (IsOwn c secret) cache.derived_keys b.ephemeral_pub b.block_index key own
                hit in
            let (index, ephemeral) = is_for_iff b.ephemeral_pub b.block_index e for in
            rw hit (sym same ∙ owned ∙ rw (index, ephemeral) refl)
      ]

  cached_keys_same :
      (cache : KeyCache) (blocks : List EncryptedBlock)
      → (cached_keys c cache blocks).0.derived_keys ≡ cache.derived_keys
  unfolding cached_keys
  cached_keys_same cache [] = refl
  cached_keys_same cache (b ∷ blocks) =
      cached_keys_same (KeyCache.get cache b.ephemeral_pub b.block_index).0 blocks
      ∙ get_keys cache b

  batch_opened-IsSound :
      (s : AirlockBifurcation) (result : Option BatchOpenResult)
      → IsSound c s
      → IsSound c (batch_opened c s result).0
        × ((batch_opened c s result).0.system_secret ≡ s.system_secret)
  batch_opened-IsSound s none h = (h, refl)
  batch_opened-IsSound s (some result) h =
      (record { own = h.own; cached = h.cached; live = h.live }, refl)

  pub open_batch-IsSound :
      (s : AirlockBifurcation) (blocks : List EncryptedBlock) (claim : JisClaim)
      → IsSound c s
      → IsSound c (open_batch c s blocks claim).0
        × ((open_batch c s blocks claim).0.system_secret ≡ s.system_secret)
  unfolding open_batch
  open_batch-IsSound s blocks claim h =
      elim (Bool-cases ((byte_len claim.identity == 0) || not (byte_len claim.ed25519_pub == 64))) [
        | inl bad ↦ rw bad (record { own = h.own; cached = h.cached; live = h.live }, refl)
        | inr good ↦ rw good (
            batch_opened-IsSound (record s { key_cache = (cached_keys c s.key_cache blocks).0 })
              (collect c
                (map (open_item c s.system_secret claim) (cached_keys c s.key_cache blocks).1))
              (record {
                own = h.own;
                cached =
                    subst (All (IsOwn c s.system_secret))
                      (sym (cached_keys_same s.key_cache blocks)) h.cached;
                live = h.live;
              }))
      ]

  -- The claim's clearance is enough for the block, which was encrypted from the plaintext with the key that
  -- the holder of the secret derives.
  abbrev pub Opens : List ℕ → JisClaim → EncryptedBlock → List ℕ → Type 0
  Opens secret claim b plaintext =
      (b.ciphertext ≡ c.encrypt (own_key c secret b.ephemeral_pub b.block_index) b.nonce plaintext)
      × (b.plaintext_hash ≡ c.sha256 plaintext)
      × (rank b.required_clearance ≤ rank claim.clearance)

  abbrev pub AllOpen : List ℕ → JisClaim → List EncryptedBlock → List (List ℕ) → Type 0
  AllOpen secret claim [] [] = Unit
  AllOpen secret claim [] (p ∷ ps) = ⊥
  AllOpen secret claim (b ∷ bs) [] = ⊥
  AllOpen secret claim (b ∷ bs) (p ∷ ps) = Opens secret claim b p × AllOpen secret claim bs ps

  module _ (law : IsLawful c) where
    open_item_plain :
        (secret : List ℕ) (claim : JisClaim) (cache : KeyCache) (b : EncryptedBlock)
        (plaintext : List ℕ)
        → All (IsOwn c secret) cache.derived_keys
        → Opens secret claim b plaintext
        → open_item c secret claim (b, (KeyCache.get cache b.ephemeral_pub b.block_index).1)
          ≡ plain plaintext
    unfolding open_item check_hash
    open_item_plain secret claim cache b plaintext own (made, hashed, cleared) =
        let enough : ltb (rank claim.clearance) (rank b.required_clearance) ≡ false =
          ground arith in
        rw
          (
            enough,
            batch_key_own secret cache b own,
            made,
            law.decrypt_encrypt,
            hashed,
            same_bytes_refl,
          )
          refl

    pub collect_plain :
        (secret : List ℕ) (claim : JisClaim) (blocks : List EncryptedBlock)
        (plaintexts : List (List ℕ)) (cache : KeyCache)
        → All (IsOwn c secret) cache.derived_keys
        → AllOpen secret claim blocks plaintexts
        → collect c (map (open_item c secret claim) (cached_keys c cache blocks).1)
          ≡ some (record { plaintexts = plaintexts; denied = 0 })
    unfolding cached_keys collect
    collect_plain secret claim [] [] cache own opens = refl
    collect_plain secret claim [] (p ∷ ps) cache own opens = absurd opens
    collect_plain secret claim (b ∷ bs) [] cache own opens = absurd opens
    collect_plain secret claim (b ∷ bs) (p ∷ ps) cache own (opens, others) =
        let rest =
          collect_plain secret claim bs ps (KeyCache.get cache b.ephemeral_pub b.block_index).0
            (subst (All (IsOwn c secret)) (sym (get_keys cache b)) own) others in
        rw (open_item_plain secret claim cache b p own opens, rest) refl
