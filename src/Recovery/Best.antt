-- ===== src/Recovery/Best.antt =====
-- What a recovery without a preferred strategy does (crates/trust-kernel/src/recovery.rs).
use mathlib.Core.Bool.{false≢true}
use spaceshuttle.Prelude.{
  ◌≡◌, ◌≢◌, refl, subst, ◌∙◌, ◌≤◌, inl, inr, List, [], ◌∷◌, ◌++◌, String, Bool, true, false, not,
  ◌&&◌, ◌||◌, Option, none, some, All, Option-cases,
}
use spaceshuttle.Recovery.Index.{
  RecoveryStrategy, last_good, checkpoint, clean_boot, git_recover, SnapshotCandidate,
  SnapshotIndex, covers, resolve,
}
use spaceshuttle.Recovery.Engine.{
  RecoveryResult, RecoveryTrigger, RecoveryEngine, Clock, succeeded, attempted, boot_clean, restore,
  is_clean_boot, is_refused, attempt, recover,
}
use spaceshuttle.Recovery.Order.{IsBuilt, built-All, built-IsNewestFirst, find-IsNewest}
use spaceshuttle.Recovery.Choice.{IsRefused, find-none, find-some, resolve-none, resolve-some}

-- A snapshot for the intent whose signature and hash are valid.
abbrev pub usable : String → SnapshotCandidate → Bool
usable intent c = covers intent c && c.signature_valid && c.hash_valid

-- The newest usable one of the registered snapshots, if any is usable.
abbrev pub IsNewestUsable : String → List SnapshotCandidate → Option SnapshotCandidate → Type 0
IsNewestUsable intent cs none = All (λ (d : SnapshotCandidate). usable intent d ≡ false) cs
IsNewestUsable intent cs (some c) =
    (usable intent c ≡ true)
    × ¬ (All (λ (d : SnapshotCandidate). d ≢ c) cs)
    × All (λ (d : SnapshotCandidate). usable intent d ≡ true → d.captured_at_ns ≤ c.captured_at_ns)
        cs

-- That snapshot restored as the last good one, or a clean boot.
abbrev pub outcome : Clock → RecoveryTrigger → Option SnapshotCandidate → RecoveryResult
outcome clock trigger none = boot_clean clock
outcome clock trigger (some c) = restore clock trigger c last_good

resolve-IsNewestUsable :
    (cs : List SnapshotCandidate) (index : SnapshotIndex) (intent : String)
    → IsBuilt cs index
    → IsNewestUsable intent cs (resolve index intent last_good)
unfolding resolve
resolve-IsNewestUsable cs index intent built =
    let p = usable intent in
    elim (Option-cases (resolve index intent last_good)) [
      | inl e ↦ rw e ((built-All _ cs index built).0 (find-none p index.snapshots e))
      | inr (c, e) ↦
          let newest = find-IsNewest p index.snapshots (built-IsNewestFirst cs index built) e in
          rw e (
            (find-some (λ (d : SnapshotCandidate). p d ≡ true → d.captured_at_ns ≤ c.captured_at_ns)
                p index.snapshots e newest).1,
            (λ absent.
                (find-some (λ (d : SnapshotCandidate). d ≢ c) p index.snapshots e
                    ((built-All _ cs index built).1 absent)).0
                  refl),
            (built-All _ cs index built).0 newest,
          )
    ]

flags_pass : (a b d : Bool) → (a && b && d) ≡ true → (not b || not d) ≡ false
flags_pass true true true h = refl
flags_pass true true false h = absurd (false≢true h)
flags_pass true false d h = absurd (false≢true h)
flags_pass false b d h = absurd (false≢true h)

module _ (e : RecoveryEngine) (intent : String) (trigger : RecoveryTrigger) (clock : Clock) where
  attempt-restore :
      (ss tried : List RecoveryStrategy) (c : SnapshotCandidate)
      → resolve e.index intent last_good ≡ some c
      → is_refused c ≡ false
      → attempt e intent trigger clock (last_good ∷ ss) tried
        ≡ (succeeded e, restore clock trigger c last_good)
  unfolding attempt
  attempt-restore ss tried c found passed = rw (attempt, found, passed) refl

  attempt-passes_on :
      (s : RecoveryStrategy) (ss tried : List RecoveryStrategy)
      → is_clean_boot s ≡ false
      → All (IsRefused intent) e.index.snapshots
      → attempt e intent trigger clock (s ∷ ss) tried
        ≡ attempt e intent trigger clock ss (tried ++ s ∷ [])
  unfolding attempt
  attempt-passes_on s ss tried other refused = elim (Option-cases (resolve e.index intent s)) [
    | inl missing ↦ rw (attempt, other, missing) refl
    | inr (c, found) ↦
        let r = resolve-some (IsRefused intent) e.index intent s found refused in
        let turned_down : is_refused c ≡ true = r.0 r.1 in
        rw (attempt, other, found, turned_down) refl
  ]

  attempt-cleans :
      (ss tried : List RecoveryStrategy)
      → attempt e intent trigger clock (clean_boot ∷ ss) tried ≡ (succeeded e, boot_clean clock)
  unfolding attempt
  attempt-cleans ss tried = refl

  attempt-nothing_usable :
      resolve e.index intent last_good ≡ none
      → attempt e intent trigger clock (last_good ∷ checkpoint 0 ∷ git_recover ∷ clean_boot ∷ []) []
        ≡ (succeeded e, boot_clean clock)
  attempt-nothing_usable missing =
      let refused = resolve-none e.index intent missing in
      attempt-passes_on last_good (checkpoint 0 ∷ git_recover ∷ clean_boot ∷ []) [] refl refused
      ∙ attempt-passes_on (checkpoint 0) (git_recover ∷ clean_boot ∷ []) (last_good ∷ []) refl
          refused
      ∙ attempt-passes_on git_recover (clean_boot ∷ []) (last_good ∷ checkpoint 0 ∷ []) refl refused
      ∙ attempt-cleans [] (last_good ∷ checkpoint 0 ∷ git_recover ∷ [])

-- On an index that any registrations built, a recovery without a preferred strategy never fails:
-- where a registered snapshot for the intent has a valid signature and hash, it restores such a
-- one that none of them is newer than, as the last good one, and it boots clean where there is
-- none. It counts one attempt and one success and changes nothing else.
pub recover-IsNewestUsable :
    (cs : List SnapshotCandidate) (e : RecoveryEngine) (intent : String) (trigger : RecoveryTrigger)
    (clock : Clock)
    → IsBuilt cs e.index
    → (best : Option SnapshotCandidate) × IsNewestUsable intent cs best
      × (recover e intent trigger none clock
          ≡ (succeeded (attempted e), outcome clock trigger best))
unfolding recover
recover-IsNewestUsable cs e intent trigger clock built =
    let is_best = resolve-IsNewestUsable cs e.index intent built in
    elim (Option-cases (resolve e.index intent last_good)) [
      | inl missing ↦ (
        none,
        subst (IsNewestUsable intent cs) missing is_best,
        attempt-nothing_usable (attempted e) intent trigger clock missing,
      )
      | inr (c, found) ↦
          let best = subst (IsNewestUsable intent cs) found is_best in
          let passed : is_refused c ≡ false =
            flags_pass (covers intent c) c.signature_valid c.hash_valid best.0 in
          (
            some c,
            best,
            attempt-restore (attempted e) intent trigger clock
                (checkpoint 0 ∷ git_recover ∷ clean_boot ∷ []) [] c found passed,
          )
    ]
