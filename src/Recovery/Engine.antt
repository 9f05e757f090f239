-- ===== src/Recovery/Engine.antt =====
-- crates/trust-kernel/src/recovery.rs: `RecoveryEngine`. What a call reads from the clock comes to it
-- as an argument: the time that went by, and the time of the day. A checkpoint's number is printed
-- nowhere; the loop over the strategies is recursion on their list.
use spaceshuttle.Prelude.{
  ℕ, ◌-◌, ◌/◌, List, [], ◌∷◌, ◌++◌, String, Bool, true, false, not, ◌&&◌, ◌||◌, Option, none, some,
  ltb, is_some, u64_mod, length, count_if, add64,
}
use spaceshuttle.Prelude.Text.{format, decimal}
use spaceshuttle.Recovery.Index
use spaceshuttle.Recovery.Index.{
  RecoveryStrategy, last_good, checkpoint, clean_boot, git_recover, SnapshotCandidate,
  SnapshotIndex, covers, find, resolve, count_for_intent, total, total_disk_bytes,
}

pub data RecoveryResult : Type 0 where
  -- snapshot_path, restored_seq, bytes_injected, total_us, integrity_verified, tibet_token_id,
  -- strategy
  restored : String → ℕ → ℕ → ℕ → Bool → String → RecoveryStrategy → RecoveryResult
  -- reset_us, tibet_token_id
  clean_booted : ℕ → String → RecoveryResult
  -- reason, strategies_tried
  recovery_failed : String → List RecoveryStrategy → RecoveryResult

-- The time of the last response in hundredths of a millisecond.
pub data RecoveryTrigger : Type 0 where
  watchdog_kill : ℕ → RecoveryTrigger
  bus_failure : ℕ → RecoveryTrigger
  -- intent, allocated, budget
  memory_overflow : String → ℕ → ℕ → RecoveryTrigger
  -- expected, received
  sequence_gap : ℕ → ℕ → RecoveryTrigger
  manual : String → RecoveryTrigger
  jis_denied : String → RecoveryTrigger

pub record RecoveryEngine : Type 0 where
  pub index : SnapshotIndex
  pub recoveries_attempted : ℕ
  pub recoveries_succeeded : ℕ
  pub recoveries_failed : ℕ

pub record RecoveryHealth : Type 0 where
  pub intent : String
  pub snapshots_available : ℕ
  pub snapshots_valid : ℕ
  pub newest_snapshot_age_ms : ℕ
  pub can_last_good : Bool
  pub can_git_recover : Bool
  pub can_clean_boot : Bool

pub record RecoveryStats : Type 0 where
  pub recoveries_attempted : ℕ
  pub recoveries_succeeded : ℕ
  pub recoveries_failed : ℕ
  pub snapshots_indexed : ℕ
  pub total_snapshot_bytes : ℕ

-- The readings of the clock in one call.
pub record Clock : Type 0 where
  pub elapsed_us : ℕ
  pub now_us : ℕ

unfoldable pub new : String → Option String → RecoveryEngine
unfolding Index.new
new store_path git_path = record {
  index = Index.new store_path git_path;
  recoveries_attempted = 0;
  recoveries_succeeded = 0;
  recoveries_failed = 0;
}

abbrev pub trigger_name : RecoveryTrigger → String
trigger_name (watchdog_kill last_response) = "watchdog_kill"
trigger_name (bus_failure last_seq) = "bus_failure"
trigger_name (memory_overflow intent allocated budget) = "memory_overflow"
trigger_name (sequence_gap expected received) = "sequence_gap"
trigger_name (manual requested_by) = "manual"
trigger_name (jis_denied reason) = "jis_denied"

-- The engine with a success, or a failure, counted.
abbrev pub succeeded : RecoveryEngine → RecoveryEngine
succeeded e = record {
  index = e.index;
  recoveries_attempted = e.recoveries_attempted;
  recoveries_succeeded = add64 e.recoveries_succeeded 1;
  recoveries_failed = e.recoveries_failed;
}

abbrev pub failed : RecoveryEngine → RecoveryEngine
failed e = record {
  index = e.index;
  recoveries_attempted = e.recoveries_attempted;
  recoveries_succeeded = e.recoveries_succeeded;
  recoveries_failed = add64 e.recoveries_failed 1;
}

abbrev pub attempted : RecoveryEngine → RecoveryEngine
attempted e = record {
  index = e.index;
  recoveries_attempted = add64 e.recoveries_attempted 1;
  recoveries_succeeded = e.recoveries_succeeded;
  recoveries_failed = e.recoveries_failed;
}

unfoldable pub boot_clean : Clock → RecoveryResult
unfolding decimal
boot_clean clock =
    clean_booted clock.elapsed_us (format ("tibet_recovery_clean_" ∷ decimal clock.now_us ∷ []))

unfoldable pub restore :
    Clock → RecoveryTrigger → SnapshotCandidate → RecoveryStrategy → RecoveryResult
unfolding decimal
restore clock trigger candidate strategy =
    restored candidate.path candidate.bus_seq candidate.file_size clock.elapsed_us
      (candidate.signature_valid && candidate.hash_valid)
      (format (
        "tibet_recovery_seq"
        ∷ decimal candidate.bus_seq
        ∷ "_"
        ∷ trigger_name trigger
        ∷ "_"
        ∷ decimal clock.now_us
        ∷ []))
      strategy

abbrev pub is_clean_boot : RecoveryStrategy → Bool
is_clean_boot clean_boot = true
is_clean_boot last_good = false
is_clean_boot (checkpoint target_seq) = false
is_clean_boot git_recover = false

abbrev pub default_strategies : List RecoveryStrategy
default_strategies = last_good ∷ checkpoint 0 ∷ git_recover ∷ clean_boot ∷ []

-- `!candidate.signature_valid || !candidate.hash_valid`
abbrev pub is_refused : SnapshotCandidate → Bool
is_refused candidate = not candidate.signature_valid || not candidate.hash_valid

-- The rounds of the loop that are left, and the strategies tried before them.
unfoldable pub attempt :
    RecoveryEngine
    → String
    → RecoveryTrigger
    → Clock
    → List RecoveryStrategy
    → List RecoveryStrategy
    → RecoveryEngine × RecoveryResult
unfolding boot_clean restore resolve decimal
attempt e intent trigger clock [] tried = (
  failed e,
  recovery_failed
      (format (
        "No valid snapshot found for intent '"
        ∷ intent
        ∷ "' after "
        ∷ decimal (length tried)
        ∷ " strategies"
        ∷ []))
      tried,
)
attempt e intent trigger clock (strategy ∷ strategies) tried =
    let rest = attempt e intent trigger clock strategies (tried ++ strategy ∷ []) in
    elim (is_clean_boot strategy) [
      | true ↦ (succeeded e, boot_clean clock)
      | false ↦ elim (resolve e.index intent strategy) [
        | none ↦ rest
        | some candidate ↦ elim (is_refused candidate) [
          | true ↦ rest
          | false ↦ (succeeded e, restore clock trigger candidate strategy)
        ]
      ]
    ]

-- The strategies that a call goes through.
abbrev pub strategies_of : Option RecoveryStrategy → List RecoveryStrategy
strategies_of none = default_strategies
strategies_of (some preferred) = preferred ∷ []

unfoldable pub recover :
    RecoveryEngine
    → String
    → RecoveryTrigger
    → Option RecoveryStrategy
    → Clock
    → RecoveryEngine × RecoveryResult
unfolding attempt
recover e intent trigger preferred_strategy clock =
    attempt (attempted e) intent trigger clock (strategies_of preferred_strategy) []

-- `saturating_sub`: `-` on ℕ stops at 0.
age_ms : ℕ → Option SnapshotCandidate → ℕ
age_ms now_ns none = u64_mod - 1
age_ms now_ns (some s) = (now_ns - s.captured_at_ns) / 1000000

unfoldable pub can_recover : RecoveryEngine → String → ℕ → RecoveryHealth
unfolding covers count_for_intent age_ms
can_recover e intent now_ns =
    let available = count_for_intent e.index intent in
    let valid =
      count_if (λ (s : SnapshotCandidate). covers intent s && s.signature_valid && s.hash_valid)
        e.index.snapshots in
    record {
      intent = intent;
      snapshots_available = available;
      snapshots_valid = valid;
      newest_snapshot_age_ms = age_ms now_ns (find (covers intent) e.index.snapshots);
      can_last_good = ltb 0 valid;
      can_git_recover = is_some e.index.git_path && ltb 0 available;
      can_clean_boot = true;
    }

unfoldable pub stats : RecoveryEngine → RecoveryStats
unfolding total_disk_bytes
stats e = record {
  recoveries_attempted = e.recoveries_attempted;
  recoveries_succeeded = e.recoveries_succeeded;
  recoveries_failed = e.recoveries_failed;
  snapshots_indexed = total e.index;
  total_snapshot_bytes = total_disk_bytes e.index;
}
