-- ===== src/Bifurcation/BatchRoundTrip.antt =====
-- A batch sealed and opened again (crates/trust-kernel/src/bifurcation.rs), with any calls in between.
use spaceshuttle.Prelude.{
  ℕ, suc, ◌≡◌, refl, sym, subst, ap, ◌<◌, ◌≤◌, List, [], ◌∷◌, map, some, String, false, ◌||◌, ◌==◌,
  not, arith,
}
use spaceshuttle.Prelude.Text.{byte_len}
use spaceshuttle.Bifurcation.Types.{ClearanceLevel, rank, JisClaim}
use spaceshuttle.Bifurcation.Crypto.{Crypto, IsLawful, hkdf_derive_block_key}
use spaceshuttle.Bifurcation.Session.{SessionKey}
use spaceshuttle.Bifurcation.Airlock.{AirlockBifurcation, Moment, current_session, encrypted}
use spaceshuttle.Bifurcation.Keys.{IsSound, current_session-Agrees}
use spaceshuttle.Bifurcation.Batch.{seal_all, seal_batch, open_batch}
use spaceshuttle.Bifurcation.BatchKeys.{AllOpen, collect_plain, seal_batch-IsSound}
use spaceshuttle.Bifurcation.Runs.{Call, run, run-IsSound}

module _ (c : Crypto) (law : IsLawful c) where
  abbrev plaintexts_of : List (List ℕ × Moment) → List (List ℕ)
  plaintexts_of = map (λ item. item.0)

  seal_all-AllOpen :
      (secret : List ℕ) (claim : JisClaim) (session : SessionKey) (level : ClearanceLevel)
      (by : String) (block_index : ℕ) (items : List (List ℕ × Moment))
      → session.shared_secret ≡ c.diffie_hellman secret session.ephemeral_pub
      → rank level ≤ rank claim.clearance
      → AllOpen c secret claim (seal_all c session level by block_index items) (plaintexts_of items)
  unfolding seal_all encrypted
  seal_all-AllOpen secret claim session level by block_index [] live cleared = tt
  seal_all-AllOpen secret claim session level by block_index (item ∷ items) live cleared = (
    (
      ap (λ shared. c.encrypt (hkdf_derive_block_key c shared block_index) item.1.nonce item.0)
          live,
      refl,
      cleared,
    ),
    seal_all-AllOpen secret claim session level by (suc block_index) items live cleared,
  )

  -- Under the laws of the cryptography and on a sound airlock: a batch of any size that was
  -- sealed, in a new session or in one that goes on, is opened with all its plaintexts in order
  -- and no denial, by any claim with an identity, a key of the right length and enough clearance,
  -- after any other calls on the airlock, batches among them.
  pub seal_batch-open_batch :
      (s : AirlockBifurcation) (m : Moment) (items : List (List ℕ × Moment))
      (level : ClearanceLevel) (by : String) (calls : List Call) (claim : JisClaim)
      → IsSound c s
      → 0 < byte_len claim.identity
      → byte_len claim.ed25519_pub ≡ 64
      → rank level ≤ rank claim.clearance
      → (open_batch c
          (run c (seal_batch c s m items level by).0 calls)
          (seal_batch c s m items level by).1
          claim).1
        ≡ some (record { plaintexts = map (λ item. item.0) items; denied = 0 })
  unfolding open_batch seal_batch
  seal_batch-open_batch s m items level by calls claim h named keyed cleared =
      let session = current_session c s.session s m in
      let after = (seal_batch c s m items level by).0 in
      let (sound, kept) =
        run-IsSound c law after calls (seal_batch-IsSound c s m items level by law h) in
      let later = run c after calls in
      let blocks = (seal_batch c s m items level by).1 in
      let valid : ((byte_len claim.identity == 0) || not (byte_len claim.ed25519_pub == 64))
          ≡ false =
        ground arith in
      let opens : AllOpen c later.system_secret claim blocks (map (λ item. item.0) items) =
        subst (λ secret. AllOpen c secret claim blocks (map (λ item. item.0) items)) (sym kept)
          (seal_all-AllOpen s.system_secret claim session level by 0 items
            (current_session-Agrees c law s.session s m h h.live) cleared) in
      rw
        (
          valid,
          collect_plain c law later.system_secret claim blocks (map (λ item. item.0) items)
              later.key_cache sound.cached opens,
        )
        refl
