-- ===== src/Bifurcation/Granted.antt =====
-- `AirlockBifurcation::open` of crates/trust-kernel/src/bifurcation.rs answers only an entitled claim with plaintext.
use spaceshuttle.Prelude.{
  ℕ, ◌≡◌, refl, sym, subst, ◌∙◌, ◌≤◌, ◌<◌, List, Option, none, some, String, true, false, ◌==◌, not,
  ltb, if◌then◌else◌, inl, inr, Bool-cases, same_bytes, arith, ltb→le, same_bytes→≡,
}
use spaceshuttle.Prelude.Text.{byte_len}
use spaceshuttle.Bifurcation.Types.{rank, EncryptedBlock, JisClaim, opened, integrity_failed}
use spaceshuttle.Bifurcation.Crypto.{Crypto}
use spaceshuttle.Bifurcation.Airlock.{AirlockBifurcation, Moment, open_block}
use spaceshuttle.Bifurcation.Keys.{IsSound}
use spaceshuttle.Bifurcation.Opening.{verdict, outcome, open_block-verdict}

module _ (c : Crypto) where
  outcome_opened :
      (block : EncryptedBlock) (claim : JisClaim) (o : Option (List ℕ)) (plaintext : List ℕ)
      (by : String)
      → outcome c block claim o ≡ opened plaintext by
      → c.sha256 plaintext ≡ block.plaintext_hash
  unfolding outcome
  outcome_opened block claim none plaintext by = λ e. cc
  outcome_opened block claim (some found) plaintext by =
      elim (same_bytes (c.sha256 found) block.plaintext_hash)
          as (λ b.
            same_bytes (c.sha256 found) block.plaintext_hash ≡ b
            → (if b
                then opened found claim.identity
                else integrity_failed block.plaintext_hash (c.sha256 found))
              ≡ opened plaintext by
            → c.sha256 plaintext ≡ block.plaintext_hash) [
              | true ↦ λ same e.
                  let it : found ≡ plaintext = cc in
                  subst (λ bs. c.sha256 bs ≡ block.plaintext_hash) it (same_bytes→≡ _ _ same)
              | false ↦ λ same e. cc
            ]
        refl

  -- The claim has an identity and a key of the right length, and its clearance is enough.
  abbrev pub IsGranted : EncryptedBlock → JisClaim → Type 0
  IsGranted block claim =
      (0 < byte_len claim.identity)
      × (byte_len claim.ed25519_pub ≡ 64)
      × (rank block.required_clearance ≤ rank claim.clearance)

  abbrev IsEarned : EncryptedBlock → JisClaim → List ℕ → Type 0
  IsEarned block claim plaintext =
      IsGranted block claim × (c.sha256 plaintext ≡ block.plaintext_hash)

  verdict_opened :
      (secret : List ℕ) (block : EncryptedBlock) (claim : JisClaim) (plaintext : List ℕ)
      (by : String)
      → verdict c secret block claim ≡ opened plaintext by
      → IsEarned block claim plaintext
  unfolding verdict
  verdict_opened secret block claim plaintext by =
      elim (Bool-cases (byte_len claim.identity == 0)) [
        | inl a ↦ rw a (λ e. cc)
        | inr a ↦ elim (Bool-cases (not (byte_len claim.ed25519_pub == 64))) [
          | inl b ↦ rw (a, b) (λ e. cc)
          | inr b ↦ elim (Bool-cases (ltb (rank claim.clearance) (rank block.required_clearance))) [
            | inl d ↦ rw (a, b, d) (λ e. cc)
            | inr d ↦
                rw (a, b, d)
                  (λ e. (
                    (ground arith, ground arith, ltb→le _ _ d),
                    outcome_opened block claim _ plaintext by e,
                  ))
          ]
        ]
      ]

  -- On a sound airlock, only a claim with an identity, a key of the right length and enough
  -- clearance opens a block, and the plaintext it gets has the hash recorded in the block.
  pub open_block_opened :
      (s : AirlockBifurcation) (m : Moment) (block : EncryptedBlock) (claim : JisClaim)
      (plaintext : List ℕ) (by : String)
      → IsSound c s
      → (open_block c s m block claim).1 ≡ opened plaintext by
      → IsGranted block claim × (c.sha256 plaintext ≡ block.plaintext_hash)
  open_block_opened s m block claim plaintext by h answer =
      verdict_opened s.system_secret block claim plaintext by
        (sym (open_block-verdict c s m block claim h) ∙ answer)
