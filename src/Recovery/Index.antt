-- ===== src/Recovery/Index.antt =====
-- crates/trust-kernel/src/recovery.rs: `SnapshotIndex`. A candidate that stands for a stored snapshot
-- takes the time of its registration as an argument. `sort_by` is stable, `min_by_key` gives the first
-- of equal minima.
use text.Mathlib.Text.{starts_with}
use spaceshuttle.Prelude.{
  ℕ, ◌+◌, ◌-◌, List, [], ◌∷◌, ◌++◌, String, Bool, true, false, ◌&&◌, ◌||◌, Option, none, some, leb,
  ltb, str_eq, if◌then◌else◌, length, count_if, add64,
}
use spaceshuttle.Prelude.Text.{format}
use spaceshuttle.Pager.Paging.{replace_colons}
use spaceshuttle.Snapshot.Engine.{Snapshot, tza_header_size}

pub data RecoveryStrategy : Type 0 where
  last_good : RecoveryStrategy
  -- target_seq
  checkpoint : ℕ → RecoveryStrategy
  clean_boot : RecoveryStrategy
  git_recover : RecoveryStrategy

pub record SnapshotCandidate : Type 0 where
  pub path : String
  pub intent : String
  pub bus_seq : ℕ
  pub file_size : ℕ
  pub signature_valid : Bool
  pub hash_valid : Bool
  pub captured_at_ns : ℕ

pub record SnapshotIndex : Type 0 where
  pub snapshots : List SnapshotCandidate
  pub store_path : String
  pub git_path : Option String

unfoldable pub new : String → Option String → SnapshotIndex
new store_path git_path = record { snapshots = []; store_path = store_path; git_path = git_path }

-- A stable sort by the time, newest first: an element goes in front of those that were behind it and
-- are not newer.
abbrev pub insert_newest : SnapshotCandidate → List SnapshotCandidate → List SnapshotCandidate
insert_newest c [] = c ∷ []
insert_newest c (d ∷ ds) = elim (leb d.captured_at_ns c.captured_at_ns) [
  | true ↦ c ∷ d ∷ ds
  | false ↦ d ∷ insert_newest c ds
]

abbrev pub sort_newest : List SnapshotCandidate → List SnapshotCandidate
sort_newest [] = []
sort_newest (c ∷ cs) = insert_newest c (sort_newest cs)

unfoldable pub register : SnapshotIndex → SnapshotCandidate → SnapshotIndex
register index candidate = record {
  snapshots = sort_newest (index.snapshots ++ candidate ∷ []);
  store_path = index.store_path;
  git_path = index.git_path;
}

unfoldable pub register_from_snapshot : SnapshotIndex → Snapshot → ℕ → SnapshotIndex
unfolding replace_colons
register_from_snapshot index snapshot now_ns = register index (record {
  path = format (
      index.store_path
      ∷ "/"
      ∷ replace_colons "/" snapshot.intent
      ∷ "/"
      ∷ snapshot.id
      ∷ ".tza"
      ∷ []);
  intent = snapshot.intent;
  bus_seq = snapshot.bus_seq;
  file_size = snapshot.compressed_size + tza_header_size;
  signature_valid = true;
  hash_valid = true;
  captured_at_ns = now_ns;
})

-- The test of a candidate's intent: the same, or a prefix.
unfoldable pub covers : String → SnapshotCandidate → Bool
covers intent s = str_eq s.intent intent || starts_with intent s.intent

abbrev pub find {ℓ} : {A : Type ℓ} → (A → Bool) → List A → Option A
find p [] = none
find p (x ∷ xs) = elim (p x) [ true ↦ some x | false ↦ find p xs ]

abbrev pub filter {ℓ} : {A : Type ℓ} → (A → Bool) → List A → List A
filter p [] = []
filter p (x ∷ xs) = let rest = filter p xs in if p x then x ∷ rest else rest

abbrev pub min_from {ℓ} : {A : Type ℓ} → (A → ℕ) → A → List A → A
min_from key best [] = best
min_from key best (x ∷ xs) = min_from key (if ltb (key x) (key best) then x else best) xs

abbrev pub min_by_key {ℓ} : {A : Type ℓ} → (A → ℕ) → List A → Option A
min_by_key key [] = none
min_by_key key (x ∷ xs) = some (min_from key x xs)

unfoldable pub resolve : SnapshotIndex → String → RecoveryStrategy → Option SnapshotCandidate
unfolding covers
resolve index intent last_good =
    find (λ (s : SnapshotCandidate). covers intent s && s.signature_valid && s.hash_valid)
      index.snapshots
resolve index intent (checkpoint target_seq) =
    min_by_key (λ (s : SnapshotCandidate). target_seq - s.bus_seq)
      (filter
        (λ (s : SnapshotCandidate).
          covers intent s && leb s.bus_seq target_seq && s.signature_valid)
        index.snapshots)
resolve index intent clean_boot = none
resolve index intent git_recover = find (covers intent) index.snapshots

unfoldable pub count_for_intent : SnapshotIndex → String → ℕ
unfolding covers
count_for_intent index intent = count_if (covers intent) index.snapshots

abbrev pub total : SnapshotIndex → ℕ
total index = length index.snapshots

sum_sizes : List SnapshotCandidate → ℕ
sum_sizes [] = 0
sum_sizes (s ∷ ss) = add64 s.file_size (sum_sizes ss)

unfoldable pub total_disk_bytes : SnapshotIndex → ℕ
unfolding sum_sizes
total_disk_bytes index = sum_sizes index.snapshots
