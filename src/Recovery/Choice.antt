-- ===== src/Recovery/Choice.antt =====
-- What the searches of the catalogue give (crates/trust-kernel/src/recovery.rs).
use mathlib.Core.Option.{none-ne-some}
use mathlib.Core.Bool.{false≢true}
use spaceshuttle.Prelude.{
  ℕ, ◌≡◌, refl, sym, subst, ◌∙◌, List, [], ◌∷◌, Bool, true, false, not, ◌&&◌, ◌||◌, inl, inr, none,
  some, some-injective, String, All, Bool-cases, leb, ltb,
}
use spaceshuttle.Recovery.Index.{
  RecoveryStrategy, last_good, checkpoint, clean_boot, git_recover, SnapshotCandidate,
  SnapshotIndex, covers, find, filter, min_from, min_by_key, resolve,
}
use spaceshuttle.Recovery.Engine.{is_refused}

module _ {ℓ} {A : Type ℓ} where
  pub find_hit : (p : A → Bool) (x : A) (xs : List A) → p x ≡ true → find p (x ∷ xs) ≡ some x
  find_hit p x xs h = rw (find, h) refl

  pub find_miss : (p : A → Bool) (x : A) (xs : List A) → p x ≡ false → find p (x ∷ xs) ≡ find p xs
  find_miss p x xs h = rw (find, h) refl

  pub find-none : (p : A → Bool) (xs : List A) → find p xs ≡ none → All (λ (x : A). p x ≡ false) xs
  find-none p [] h = tt
  find-none p (x ∷ xs) h = elim (Bool-cases (p x)) [
    | inl e ↦ absurd (none-ne-some _ (sym h ∙ find_hit p x xs e))
    | inr e ↦ (e, find-none p xs (sym (find_miss p x xs e) ∙ h))
  ]

module _ {ℓ κ} {A : Type ℓ} (P : A → Type κ) where
  pub find-some :
      (p : A → Bool) (xs : List A) {a : A} → find p xs ≡ some a → All P xs → P a × (p a ≡ true)
  find-some p [] h all = absurd (none-ne-some _ h)
  find-some p (x ∷ xs) {a} h (px, all) = elim (Bool-cases (p x)) [
    | inl e ↦
        subst (λ (y : A). P y × (p y ≡ true)) (some-injective _ _ (sym (find_hit p x xs e) ∙ h))
          (px, e)
    | inr e ↦ find-some p xs (sym (find_miss p x xs e) ∙ h) all
  ]

  pub min_from-All :
      (key : A → ℕ) (best : A) (xs : List A) → P best → All P xs → P (min_from key best xs)
  min_from-All key best [] pb all = pb
  min_from-All key best (x ∷ xs) pb (px, all) = elim (Bool-cases (ltb (key x) (key best))) [
    | inl e ↦ rw e (min_from-All key x xs px all)
    | inr e ↦ rw e (min_from-All key best xs pb all)
  ]

  pub min_by_key-some :
      (key : A → ℕ) (xs : List A) {a : A} → min_by_key key xs ≡ some a → All P xs → P a
  min_by_key-some key [] h all = absurd (none-ne-some _ h)
  min_by_key-some key (x ∷ xs) h (px, all) =
      subst P (some-injective _ _ h) (min_from-All key x xs px all)

  pub filter-All :
      (p : A → Bool) (xs : List A) → All P xs → All (λ (x : A). P x × (p x ≡ true)) (filter p xs)
  filter-All p [] all = all
  filter-All p (x ∷ xs) (px, all) = elim (Bool-cases (p x)) [
    | inl e ↦ rw e ((px, e), filter-All p xs all)
    | inr e ↦ rw e (filter-All p xs all)
  ]

  pub All-map {κ'} : {Q : A → Type κ'} (xs : List A) → ((x : A) → P x → Q x) → All P xs → All Q xs
  All-map [] f all = tt
  All-map (x ∷ xs) f (px, all) = (f x px, All-map xs f all)

pub and_left : (a b : Bool) → (a && b) ≡ true → a ≡ true
and_left true b h = refl
and_left false b h = h

-- A snapshot that the search for a checkpoint or in git finds, while the last good one finds none, is
-- refused.
abbrev pub IsRefused : String → SnapshotCandidate → Type 0
IsRefused intent c = covers intent c ≡ true → is_refused c ≡ true

refused_by_flags : (a b d : Bool) → (a && b && d) ≡ false → a ≡ true → (not b || not d) ≡ true
refused_by_flags true true false h e = refl
refused_by_flags true false d h e = refl
refused_by_flags true true true h e = sym h
refused_by_flags false b d h e = absurd (false≢true e)

pub resolve-none :
    (index : SnapshotIndex) (intent : String)
    → resolve index intent last_good ≡ none
    → All (IsRefused intent) index.snapshots
unfolding resolve
resolve-none index intent h =
    All-map
      (λ (c : SnapshotCandidate). (covers intent c && c.signature_valid && c.hash_valid) ≡ false)
      index.snapshots (λ c e. refused_by_flags (covers intent c) c.signature_valid c.hash_valid e)
      (find-none _ index.snapshots h)

-- What the search finds covers the intent.
pub resolve-some :
    (P : SnapshotCandidate → Type 0) (index : SnapshotIndex) (intent : String)
    (strategy : RecoveryStrategy) {c : SnapshotCandidate}
    → resolve index intent strategy ≡ some c
    → All P index.snapshots
    → P c × (covers intent c ≡ true)
unfolding resolve
resolve-some P index intent last_good {c} h all =
    let found = find-some P _ index.snapshots h all in
    (
      found.0,
      and_left (covers intent c) _ (and_left (covers intent c && c.signature_valid) _ found.1),
    )
resolve-some P index intent (checkpoint target_seq) {c} h all =
    let found = min_by_key-some _ _ _ h (filter-All P _ index.snapshots all) in
    (
      found.0,
      and_left (covers intent c) _
          (and_left (covers intent c && leb c.bus_seq target_seq) _ found.1),
    )
resolve-some P index intent clean_boot h all = absurd (none-ne-some _ h)
resolve-some P index intent git_recover h all = find-some P _ index.snapshots h all
