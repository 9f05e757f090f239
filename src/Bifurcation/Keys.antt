-- ===== src/Bifurcation/Keys.antt =====
-- The keys of crates/trust-kernel/src/bifurcation.rs: what the cache and the session hold is what the
-- airlock would derive from its own secret.
use spaceshuttle.Prelude.{
  ℕ, ◌≡◌, refl, ap, List, Option, none, some, String, true, false, if◌then◌else◌, All,
}
use spaceshuttle.Bifurcation.Types.{ClearanceLevel}
use spaceshuttle.Bifurcation.Crypto.{Crypto, IsLawful, hkdf_derive_block_key}
use spaceshuttle.Bifurcation.KeyCache.{CachedKey, put-All}
use spaceshuttle.Bifurcation.Session.{SessionKey}
use spaceshuttle.Bifurcation.Airlock.{
  AirlockBifurcation, Moment, new, needs_new, fresh_session, current_session, seal, seal_session,
}

module _ (c : Crypto) where
  -- The key that the holder of the secret derives for a block.
  abbrev pub own_key : List ℕ → List ℕ → ℕ → List ℕ
  own_key secret ephemeral_pub block_index =
      hkdf_derive_block_key c (c.diffie_hellman secret ephemeral_pub) block_index

  abbrev pub IsOwn : List ℕ → CachedKey → Type 0
  IsOwn secret e = e.aes_key ≡ own_key secret e.ephemeral_pub e.block_index

  abbrev pub Agrees : List ℕ → Option SessionKey → Type 0
  Agrees secret none = Unit
  Agrees secret (some k) = k.shared_secret ≡ c.diffie_hellman secret k.ephemeral_pub

  -- The public key belongs to the secret, and each cached key and the session's secret are those that
  -- the holder of the secret derives.
  pub record IsSound (s : AirlockBifurcation) : Type 0 where
    pub own : s.system_pub ≡ c.public_key s.system_secret
    pub cached : All (IsOwn s.system_secret) s.key_cache.derived_keys
    pub live : Agrees s.system_secret s.session

  pub new-IsSound : IsSound (new c)
  unfolding new
  new-IsSound = record { own = refl; cached = tt; live = tt }

  module _ (law : IsLawful c) where
    -- The sender of an exchange derives the key of the holder.
    pub sender_key :
        (secret ephemeral_secret : List ℕ) (block_index : ℕ)
        → hkdf_derive_block_key c
            (c.diffie_hellman ephemeral_secret (c.public_key secret))
            block_index
          ≡ own_key secret (c.public_key ephemeral_secret) block_index
    sender_key secret ephemeral_secret block_index =
        ap (λ shared. hkdf_derive_block_key c shared block_index)
          (law.dh_agree ephemeral_secret secret)

    pub seal-IsSound :
        (s : AirlockBifurcation) (m : Moment) (plaintext : List ℕ) (block_index : ℕ)
        (level : ClearanceLevel) (by : String)
        → IsSound s
        → IsSound (seal c s m plaintext block_index level by).0
    unfolding seal
    seal-IsSound s m plaintext block_index level by h = record {
      own = h.own;
      cached =
          put-All (IsOwn s.system_secret) s.key_cache (c.public_key m.ephemeral_secret) block_index
            _ (rw h.own (sender_key s.system_secret m.ephemeral_secret block_index)) h.cached;
      live = h.live;
    }

    fresh_session-Agrees :
        (s : AirlockBifurcation) (m : Moment)
        → IsSound s
        → Agrees s.system_secret (some (fresh_session c s m))
    unfolding fresh_session
    fresh_session-Agrees s m h = rw h.own (law.dh_agree m.ephemeral_secret s.system_secret)

    pub current_session-Agrees :
        (o : Option SessionKey) (s : AirlockBifurcation) (m : Moment)
        → IsSound s
        → Agrees s.system_secret o
        → Agrees s.system_secret (some (current_session c o s m))
    unfolding current_session
    current_session-Agrees none s m h live = fresh_session-Agrees s m h
    current_session-Agrees (some k) s m h live =
        elim (needs_new (some k) m.now_ns)
          as (λ b. Agrees s.system_secret (some (if b then fresh_session c s m else k))) [
            | true ↦ fresh_session-Agrees s m h
            | false ↦ live
          ]

    -- The key of the session is the one that the holder of the secret derives for the block.
    pub session_key :
        (s : AirlockBifurcation) (m : Moment) (block_index : ℕ)
        → IsSound s
        → let k = current_session c s.session s m in
          hkdf_derive_block_key c k.shared_secret block_index
          ≡ own_key s.system_secret k.ephemeral_pub block_index
    session_key s m block_index h =
        ap (λ shared. hkdf_derive_block_key c shared block_index)
          (current_session-Agrees s.session s m h h.live)

    pub seal_session-IsSound :
        (s : AirlockBifurcation) (m : Moment) (plaintext : List ℕ) (block_index : ℕ)
        (level : ClearanceLevel) (by : String)
        → IsSound s
        → IsSound (seal_session c s m plaintext block_index level by).0
    unfolding seal_session
    seal_session-IsSound s m plaintext block_index level by h = record {
      own = h.own;
      cached =
          put-All (IsOwn s.system_secret) s.key_cache _ block_index _
            (session_key s m block_index h) h.cached;
      live = current_session-Agrees s.session s m h h.live;
    }
