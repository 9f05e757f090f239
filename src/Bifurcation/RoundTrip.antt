-- ===== src/Bifurcation/RoundTrip.antt =====
-- Sealing and opening again (crates/trust-kernel/src/bifurcation.rs), with any calls in between.
use spaceshuttle.Prelude.{
  ℕ, ◌≡◌, refl, ap, subst, ◌∙◌, List, String, false, ◌==◌, not, ltb, same_bytes_refl, arith,
}
use spaceshuttle.Prelude.Text.{byte_len}
use spaceshuttle.Bifurcation.Types.{ClearanceLevel, rank, EncryptedBlock, JisClaim, sealed, opened}
use spaceshuttle.Bifurcation.Crypto.{Crypto, IsLawful}
use spaceshuttle.Bifurcation.Airlock.{
  AirlockBifurcation, Moment, seal, seal_session, open_block, encrypted,
}
use spaceshuttle.Bifurcation.Keys.{
  own_key, IsSound, seal-IsSound, seal_session-IsSound, sender_key, session_key,
}
use spaceshuttle.Bifurcation.Opening.{verdict, outcome, open_block-verdict}
use spaceshuttle.Bifurcation.Granted.{IsGranted}
use spaceshuttle.Bifurcation.Runs.{Call, run, run-IsSound}

module _ (c : Crypto) where
  -- The block was encrypted from the plaintext with the key that the holder of the secret derives.
  record Holds (secret : List ℕ) (block : EncryptedBlock) (plaintext : List ℕ) : Type 0 where
    made :
        block.ciphertext
        ≡ c.encrypt (own_key c secret block.ephemeral_pub block.block_index) block.nonce plaintext
    hashed : block.plaintext_hash ≡ c.sha256 plaintext

  module _ (law : IsLawful c) where
    verdict-Holds :
        (secret : List ℕ) (block : EncryptedBlock) (claim : JisClaim) (plaintext : List ℕ)
        → Holds secret block plaintext
        → IsGranted c block claim
        → verdict c secret block claim ≡ opened plaintext claim.identity
    unfolding verdict outcome
    verdict-Holds secret block claim plaintext h (named, keyed, cleared) =
        let a : (byte_len claim.identity == 0) ≡ false = ground arith in
        let b : not (byte_len claim.ed25519_pub == 64) ≡ false = ground arith in
        let d : ltb (rank claim.clearance) (rank block.required_clearance) ≡ false = ground arith in
        rw (a, b, d, h.made, law.decrypt_encrypt, h.hashed, same_bytes_refl) refl

    run-Holds :
        (s : AirlockBifurcation) (calls : List Call) (later : Moment) (block : EncryptedBlock)
        (claim : JisClaim) (plaintext : List ℕ)
        → IsSound c s
        → Holds s.system_secret block plaintext
        → IsGranted c block claim
        → (open_block c (run c s calls) later block claim).1 ≡ opened plaintext claim.identity
    run-Holds s calls later block claim plaintext sound h granted =
        let (sound', kept) = run-IsSound c law s calls sound in
        open_block-verdict c (run c s calls) later block claim sound'
        ∙ ap (λ secret. verdict c secret block claim) kept
        ∙ verdict-Holds s.system_secret block claim plaintext h granted

    sealed-injective : (b b' : EncryptedBlock) → sealed b ≡ sealed b' → b ≡ b'
    sealed-injective b b' e = cc

    -- Under the laws of the cryptography and on a sound airlock: a block that was sealed is
    -- opened, to the same plaintext, by any claim with an identity, a key of the right length and
    -- enough clearance, at any later time and after any other calls on the airlock, whether its
    -- key is still cached or not.
    pub seal-open :
        (s : AirlockBifurcation) (m later : Moment) (plaintext : List ℕ) (block_index : ℕ)
        (level : ClearanceLevel) (by : String) (block : EncryptedBlock) (calls : List Call)
        (claim : JisClaim)
        → IsSound c s
        → (seal c s m plaintext block_index level by).1 ≡ sealed block
        → IsGranted c block claim
        → (open_block c
            (run c (seal c s m plaintext block_index level by).0 calls)
            later
            block
            claim).1
          ≡ opened plaintext claim.identity
    unfolding seal encrypted
    seal-open s m later plaintext block_index level by block calls claim h made granted =
        run-Holds (seal c s m plaintext block_index level by).0 calls later block claim plaintext
          (seal-IsSound c law s m plaintext block_index level by h)
          (subst (λ b. Holds s.system_secret b plaintext) (sealed-injective _ _ made)
            (record {
              made =
                  ap (λ key. c.encrypt key m.nonce plaintext)
                    (rw h.own (sender_key c law s.system_secret m.ephemeral_secret block_index));
              hashed = refl;
            }))
          granted

    -- Under the laws of the cryptography and on a sound airlock: a block that was sealed with a
    -- session key, of a new session or of one that goes on, is opened, to the same plaintext, by
    -- any claim with an identity, a key of the right length and enough clearance, at any later
    -- time and after any other calls on the airlock.
    pub seal_session-open :
        (s : AirlockBifurcation) (m later : Moment) (plaintext : List ℕ) (block_index : ℕ)
        (level : ClearanceLevel) (by : String) (block : EncryptedBlock) (calls : List Call)
        (claim : JisClaim)
        → IsSound c s
        → (seal_session c s m plaintext block_index level by).1 ≡ sealed block
        → IsGranted c block claim
        → (open_block c
            (run c (seal_session c s m plaintext block_index level by).0 calls)
            later
            block
            claim).1
          ≡ opened plaintext claim.identity
    unfolding seal_session encrypted
    seal_session-open s m later plaintext block_index level by block calls claim h made granted =
        run-Holds (seal_session c s m plaintext block_index level by).0 calls later block claim
          plaintext (seal_session-IsSound c law s m plaintext block_index level by h)
          (subst (λ b. Holds s.system_secret b plaintext) (sealed-injective _ _ made)
            (record {
              made =
                  ap (λ key. c.encrypt key m.nonce plaintext) (session_key c law s m block_index h);
              hashed = refl;
            }))
          granted
