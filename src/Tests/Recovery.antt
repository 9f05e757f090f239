-- ===== src/Tests/Recovery.antt =====
-- Recoveries from a small catalogue (crates/trust-kernel/src/recovery.rs).
use spaceshuttle.Prelude.{ℕ, ◌≡◌, refl, List, [], ◌∷◌, String, Bool, true, false, none, some, map}
use spaceshuttle.Recovery.Index
use spaceshuttle.Recovery.Index.{
  last_good, checkpoint, git_recover, SnapshotCandidate, SnapshotIndex, register, resolve,
  total_disk_bytes,
}
use spaceshuttle.Recovery.Engine.{
  recovery_failed, restored, clean_booted, manual, bus_failure, RecoveryEngine, Clock, succeeded,
  attempted, recover, can_recover,
}
use spaceshuttle.Recovery.Order.{IsBuilt, built_new, built_register}
use spaceshuttle.Recovery.Best.{IsNewestUsable, outcome, recover-IsNewestUsable}

candidate : String → String → ℕ → Bool → ℕ → SnapshotCandidate
candidate path intent bus_seq hash_valid captured_at_ns = record {
  path = path;
  intent = intent;
  bus_seq = bus_seq;
  file_size = 165;
  signature_valid = true;
  hash_valid = hash_valid;
  captured_at_ns = captured_at_ns;
}

abbrev old : SnapshotCandidate
unfolding candidate
old = candidate "/a.tza" "code" 3 true 100

abbrev newest : SnapshotCandidate
unfolding candidate
newest = candidate "/c.tza" "code:execute" 9 false 300

abbrev middle : SnapshotCandidate
unfolding candidate
middle = candidate "/b.tza" "code:execute" 6 true 200

abbrev empty : SnapshotIndex
unfolding Index.new
empty = Index.new "/var/lib" none

abbrev catalogue : SnapshotIndex
unfolding register
catalogue = register (register (register empty newest) old) middle

abbrev engine : RecoveryEngine
engine = record {
  index = catalogue;
  recoveries_attempted = 4;
  recoveries_succeeded = 3;
  recoveries_failed = 1;
}

abbrev clock : Clock
clock = record { elapsed_us = 12; now_us = 1700000000000000 }

paths : List SnapshotCandidate → List String
paths cs = map (λ (c : SnapshotCandidate). c.path) cs

register_test : paths catalogue.snapshots ≡ "/c.tza" ∷ "/b.tza" ∷ "/a.tza" ∷ []
unfolding paths catalogue empty old
register_test = refl

resolve_test :
    (resolve catalogue "code:execute" last_good ≡ some middle)
    × (resolve catalogue "code:execute" (checkpoint 5) ≡ some old)
    × (resolve catalogue "code:execute" git_recover ≡ some newest)
    × (resolve catalogue "code" git_recover ≡ some old)
    × (resolve catalogue "mail" last_good ≡ none)
unfolding resolve catalogue empty old
resolve_test = (refl, refl, refl, refl, refl)

recover_test :
    (recover engine "code:execute" (bus_failure 9) none clock).1
    ≡ restored "/b.tza" 6 165 12 true "tibet_recovery_seq6_bus_failure_1700000000000000" last_good
unfolding recover catalogue empty old
recover_test = refl

recover_clean_test :
    (recover engine "mail" (manual "root") none clock).1
    ≡ clean_booted 12 "tibet_recovery_clean_1700000000000000"
unfolding recover catalogue empty old
recover_clean_test = refl

-- The newest snapshot's hash is not valid, so recovery in git alone fails.
recover_git_test :
    (recover engine "code:execute" (manual "root") (some git_recover) clock).1
    ≡ recovery_failed "No valid snapshot found for intent 'code:execute' after 1 strategies"
        (git_recover ∷ [])
unfolding recover catalogue empty old
recover_git_test = refl

can_recover_test : (can_recover engine "code:execute" 5000200).newest_snapshot_age_ms ≡ 4
unfolding can_recover catalogue empty old
can_recover_test = refl

total_test : total_disk_bytes catalogue ≡ 495
unfolding total_disk_bytes catalogue empty old
total_test = refl

catalogue-IsBuilt : IsBuilt (middle ∷ old ∷ newest ∷ []) catalogue
unfolding catalogue empty
catalogue-IsBuilt =
    built_register (old ∷ newest ∷ []) _ middle
      (built_register (newest ∷ []) _ old (built_register [] _ newest (built_new "/var/lib" none)))

recover-IsNewestUsable_example :
    (best : _) × IsNewestUsable "code:execute" (middle ∷ old ∷ newest ∷ []) best
    × (recover engine "code:execute" (bus_failure 9) none clock
        ≡ (succeeded (attempted engine), outcome clock (bus_failure 9) best))
recover-IsNewestUsable_example =
    recover-IsNewestUsable (middle ∷ old ∷ newest ∷ []) engine "code:execute" (bus_failure 9) clock
      catalogue-IsBuilt
