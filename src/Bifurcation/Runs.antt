-- ===== src/Bifurcation/Runs.antt =====
-- Any sequence of calls on the airlock of crates/trust-kernel/src/bifurcation.rs.
use spaceshuttle.Prelude.{ℕ, ◌≡◌, refl, ◌∙◌, List, [], ◌∷◌, String}
use spaceshuttle.Bifurcation.Types.{ClearanceLevel, EncryptedBlock, JisClaim}
use spaceshuttle.Bifurcation.Crypto.{Crypto, IsLawful}
use spaceshuttle.Bifurcation.Airlock.{
  AirlockBifurcation, Moment, seal, seal_session, open_block, rotate_session,
}
use spaceshuttle.Bifurcation.Keys.{IsSound, seal-IsSound, seal_session-IsSound}
use spaceshuttle.Bifurcation.Opening.{open_block-IsSound}
use spaceshuttle.Bifurcation.Batch.{seal_batch, open_batch}
use spaceshuttle.Bifurcation.BatchKeys.{seal_batch-IsSound, open_batch-IsSound}

pub data Call : Type 0 where
  seal_one seal_in_session : Moment → List ℕ → ℕ → ClearanceLevel → String → Call
  open_one : Moment → EncryptedBlock → JisClaim → Call
  seal_many : Moment → List (List ℕ × Moment) → ClearanceLevel → String → Call
  open_many : List EncryptedBlock → JisClaim → Call
  rotate : Call

module _ (c : Crypto) where
  unfoldable pub step : AirlockBifurcation → Call → AirlockBifurcation
  unfolding seal seal_session open_block seal_batch open_batch rotate_session
  step s (seal_one m plaintext block_index level by) = (seal c s m plaintext block_index level by).0
  step s (seal_in_session m plaintext block_index level by) =
      (seal_session c s m plaintext block_index level by).0
  step s (open_one m block claim) = (open_block c s m block claim).0
  step s (seal_many m items level by) = (seal_batch c s m items level by).0
  step s (open_many blocks claim) = (open_batch c s blocks claim).0
  step s rotate = rotate_session s

  unfoldable pub run : AirlockBifurcation → List Call → AirlockBifurcation
  unfolding step
  run s [] = s
  run s (call ∷ rest) = run (step s call) rest

  module _ (law : IsLawful c) where
    step-IsSound :
        (s : AirlockBifurcation) (call : Call)
        → IsSound c s
        → IsSound c (step s call) × ((step s call).system_secret ≡ s.system_secret)
    unfolding step seal_batch
    step-IsSound s (seal_one m plaintext block_index level by) h =
        (seal-IsSound c law s m plaintext block_index level by h, refl)
    step-IsSound s (seal_in_session m plaintext block_index level by) h =
        (seal_session-IsSound c law s m plaintext block_index level by h, refl)
    step-IsSound s (open_one m block claim) h = open_block-IsSound c s m block claim h
    step-IsSound s (seal_many m items level by) h =
        (seal_batch-IsSound c s m items level by law h, refl)
    step-IsSound s (open_many blocks claim) h = open_batch-IsSound c s blocks claim h
    step-IsSound s rotate h = (record { own = h.own; cached = h.cached; live = tt }, refl)

    -- Under the laws of the cryptography: whatever is called on a sound airlock, it stays sound
    -- (its public key, its cached keys and the secret of its session are those that the holder of
    -- the secret derives) and keeps its secret.
    pub run-IsSound :
        (s : AirlockBifurcation) (calls : List Call)
        → IsSound c s
        → IsSound c (run s calls) × ((run s calls).system_secret ≡ s.system_secret)
    unfolding run
    run-IsSound s [] h = (h, refl)
    run-IsSound s (call ∷ rest) h =
        let (sound, kept) = step-IsSound s call h in
        let (sound', kept') = run-IsSound (step s call) rest sound in (sound', kept' ∙ kept)
