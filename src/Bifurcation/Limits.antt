-- ===== src/Bifurcation/Limits.antt =====
-- What stays bounded in the airlock of crates/trust-kernel/src/bifurcation.rs: the life of a session and
-- the size of the key cache.
use spaceshuttle.Prelude.{
  ℕ, ◌-◌, ◌≡◌, refl, sym, subst, ◌<◌, ◌≤◌, List, [], ◌∷◌, Option, none, some, some-injective,
  String, map, ◌||◌, ◌==◌, not, ltb, length, add64, arith, inl, inr, Bool-cases, Option-cases,
  same_bytes,
}
use spaceshuttle.Prelude.Text.{byte_len}
use spaceshuttle.Bifurcation.Types.{ClearanceLevel, rank, EncryptedBlock, JisClaim}
use spaceshuttle.Bifurcation.Crypto.{Crypto, hkdf_derive_block_key}
use spaceshuttle.Bifurcation.KeyCache
use spaceshuttle.Bifurcation.KeyCache.{KeyCache, length-put}
use spaceshuttle.Bifurcation.Session
use spaceshuttle.Bifurcation.Session.{SessionKey}
use spaceshuttle.Bifurcation.Airlock.{
  AirlockBifurcation, Moment, new, current_session, seal, seal_session, key_or_derive, checked,
  decrypted, open_block,
}
use spaceshuttle.Bifurcation.Runs.{
  Call, seal_one, seal_in_session, open_one, seal_many, open_many, rotate, step, run,
}
use spaceshuttle.Bifurcation.Batch.{
  seal_all, cache_all, seal_batch, cached_keys, collect, open_item, batch_opened, open_batch,
  BatchOpenResult,
}

-- A session that may still seal a block at a time.
abbrev pub IsLive : SessionKey → ℕ → Type 0
IsLive k now_ns = (k.blocks_sealed < k.max_blocks) × (now_ns - k.created_at < k.max_age)

-- The session that just sealed a block is within its limits.
abbrev pub IsWithin : SessionKey → ℕ → Type 0
IsWithin k now_ns = (k.blocks_sealed ≤ k.max_blocks) × (now_ns - k.created_at < k.max_age)

module _ (c : Crypto) where
  current_session-IsLive :
      (o : Option SessionKey) (s : AirlockBifurcation) (m : Moment)
      → IsLive (current_session c o s m) m.now_ns
  unfolding current_session
  current_session-IsLive none s m = (omega arith, omega arith)
  current_session-IsLive (some k) s m = elim (Bool-cases (Session.is_valid k m.now_ns)) [
    | inl h ↦ rw h (ground arith, ground arith)
    | inr h ↦ rw h (omega arith, omega arith)
  ]

  -- The session that a session seal leaves has sealed no more blocks than its limit and is younger
  -- than its age limit.
  pub seal_session-IsWithin :
      (s : AirlockBifurcation) (m : Moment) (plaintext : List ℕ) (block_index : ℕ)
      (level : ClearanceLevel) (by : String) (k : SessionKey)
      → (seal_session c s m plaintext block_index level by).0.session ≡ some k
      → IsWithin k m.now_ns
  unfolding seal_session
  seal_session-IsWithin s m plaintext block_index level by k at =
      let (room, young) = current_session-IsLive s.session s m in
      subst (λ k'. IsWithin k' m.now_ns) (some-injective _ _ at) (omega (arith, room), young)

  -- The cache keeps its limit, and does not outgrow it.
  abbrev pub IsBounded : ℕ → KeyCache → Type 0
  IsBounded max_entries cache =
      (cache.max_entries ≡ max_entries) × (length cache.derived_keys ≤ max_entries)

  put-IsBounded :
      (n : ℕ) (cache : KeyCache) (ephemeral_pub : List ℕ) (block_index : ℕ) (aes_key : List ℕ)
      → 1 ≤ n
      → IsBounded n cache
      → IsBounded n (KeyCache.put cache ephemeral_pub block_index aes_key)
  unfolding KeyCache.put
  put-IsBounded n cache ephemeral_pub block_index aes_key positive (limit, fits) = (
    limit,
    rw (sym limit) (length-put cache ephemeral_pub block_index aes_key (rw limit positive)),
  )

  checked_cache :
      (s : AirlockBifurcation) (m : Moment) (block : EncryptedBlock) (claim : JisClaim)
      (o : Option (List ℕ))
      → (checked c s m block claim o).0.key_cache ≡ s.key_cache
  unfolding checked
  checked_cache s m block claim none = refl
  checked_cache s m block claim (some plaintext) =
      elim (Bool-cases (same_bytes (c.sha256 plaintext) block.plaintext_hash)) [
        | inl h ↦ rw h refl
        | inr h ↦ rw h refl
      ]

  key_or_derive-IsBounded :
      (n : ℕ) (s : AirlockBifurcation) (block : EncryptedBlock)
      → 1 ≤ n
      → IsBounded n s.key_cache
      → let cached = KeyCache.get s.key_cache block.ephemeral_pub block.block_index in
        IsBounded n (key_or_derive c s block cached).0.key_cache
  unfolding key_or_derive KeyCache.get
  key_or_derive-IsBounded n s block positive h =
      elim (Option-cases
        (KeyCache.lookup s.key_cache.derived_keys block.ephemeral_pub block.block_index)) [
          | inl missed ↦ rw missed (
              put-IsBounded n (record s.key_cache { misses = add64 s.key_cache.misses 1 })
                block.ephemeral_pub block.block_index _ positive h)
          | inr (key, hit) ↦ rw hit h
        ]

  open_block-IsBounded :
      (n : ℕ) (s : AirlockBifurcation) (m : Moment) (block : EncryptedBlock) (claim : JisClaim)
      → 1 ≤ n
      → IsBounded n s.key_cache
      → IsBounded n (open_block c s m block claim).0.key_cache
  unfolding open_block decrypted
  open_block-IsBounded n s m block claim positive h =
      elim (Bool-cases (byte_len claim.identity == 0)) [
        | inl a ↦ rw a h
        | inr a ↦ elim (Bool-cases (not (byte_len claim.ed25519_pub == 64))) [
          | inl b ↦ rw (a, b) h
          | inr b ↦ elim (Bool-cases (ltb (rank claim.clearance) (rank block.required_clearance))) [
            | inl d ↦ rw (a, b, d) h
            | inr d ↦
                rw (a, b, d)
                  (subst (IsBounded n) (sym (checked_cache _ m block claim _))
                    (key_or_derive-IsBounded n s block positive h))
          ]
        ]
      ]

  cache_all-IsBounded :
      (n : ℕ) (shared : List ℕ) (cache : KeyCache) (blocks : List EncryptedBlock)
      → 1 ≤ n
      → IsBounded n cache
      → IsBounded n (cache_all c shared cache blocks)
  unfolding cache_all
  cache_all-IsBounded n shared cache [] positive h = h
  cache_all-IsBounded n shared cache (b ∷ blocks) positive h =
      let key = hkdf_derive_block_key c shared b.block_index in
      cache_all-IsBounded n shared (KeyCache.put cache b.ephemeral_pub b.block_index key) blocks
        positive (put-IsBounded n cache b.ephemeral_pub b.block_index key positive h)

  get-IsBounded :
      (n : ℕ) (cache : KeyCache) (ephemeral_pub : List ℕ) (block_index : ℕ)
      → IsBounded n cache
      → IsBounded n (KeyCache.get cache ephemeral_pub block_index).0
  unfolding KeyCache.get
  get-IsBounded n cache ephemeral_pub block_index h =
      elim (Option-cases (KeyCache.lookup cache.derived_keys ephemeral_pub block_index)) [
        | inl missed ↦ rw missed h
        | inr (key, hit) ↦ rw hit h
      ]

  cached_keys-IsBounded :
      (n : ℕ) (cache : KeyCache) (blocks : List EncryptedBlock)
      → IsBounded n cache
      → IsBounded n (cached_keys c cache blocks).0
  unfolding cached_keys
  cached_keys-IsBounded n cache [] h = h
  cached_keys-IsBounded n cache (b ∷ blocks) h =
      cached_keys-IsBounded n (KeyCache.get cache b.ephemeral_pub b.block_index).0 blocks
        (get-IsBounded n cache b.ephemeral_pub b.block_index h)

  batch_opened_cache :
      (s : AirlockBifurcation) (result : Option BatchOpenResult)
      → (batch_opened c s result).0.key_cache ≡ s.key_cache
  batch_opened_cache s none = refl
  batch_opened_cache s (some result) = refl

  open_batch-IsBounded :
      (n : ℕ) (s : AirlockBifurcation) (blocks : List EncryptedBlock) (claim : JisClaim)
      → IsBounded n s.key_cache
      → IsBounded n (open_batch c s blocks claim).0.key_cache
  unfolding open_batch
  open_batch-IsBounded n s blocks claim h =
      elim (Bool-cases ((byte_len claim.identity == 0) || not (byte_len claim.ed25519_pub == 64))) [
        | inl bad ↦ rw bad h
        | inr good ↦ rw good (
            subst (IsBounded n)
              (sym (
                batch_opened_cache (record s { key_cache = (cached_keys c s.key_cache blocks).0 })
                  (collect c (
                    map (open_item c s.system_secret claim) (cached_keys c s.key_cache blocks).1))))
              (cached_keys-IsBounded n s.key_cache blocks h))
      ]

  step-IsBounded :
      (n : ℕ) (s : AirlockBifurcation) (call : Call)
      → 1 ≤ n
      → IsBounded n s.key_cache
      → IsBounded n (step c s call).key_cache
  unfolding step seal seal_session seal_batch
  step-IsBounded n s (seal_one m plaintext block_index level by) positive h =
      put-IsBounded n s.key_cache _ block_index _ positive h
  step-IsBounded n s (seal_in_session m plaintext block_index level by) positive h =
      put-IsBounded n s.key_cache _ block_index _ positive h
  step-IsBounded n s (open_one m block claim) positive h =
      open_block-IsBounded n s m block claim positive h
  step-IsBounded n s (seal_many m items level by) positive h =
      let session = current_session c s.session s m in
      cache_all-IsBounded n session.shared_secret s.key_cache (seal_all c session level by 0 items)
        positive h
  step-IsBounded n s (open_many blocks claim) positive h = open_batch-IsBounded n s blocks claim h
  step-IsBounded n s rotate positive h = h

  run-IsBounded :
      (n : ℕ) (s : AirlockBifurcation) (calls : List Call)
      → 1 ≤ n
      → IsBounded n s.key_cache
      → IsBounded n (run c s calls).key_cache
  unfolding run
  run-IsBounded n s [] positive h = h
  run-IsBounded n s (call ∷ rest) positive h =
      run-IsBounded n (step c s call) rest positive (step-IsBounded n s call positive h)

  -- Whatever is called on a new airlock, its cache holds at most 16384 keys.
  pub run-new-le-cache :
      (calls : List Call) → length (run c (new c) calls).key_cache.derived_keys ≤ 16384
  unfolding new
  run-new-le-cache calls = (run-IsBounded 16384 (new c) calls (omega arith) (refl, omega arith)).1
