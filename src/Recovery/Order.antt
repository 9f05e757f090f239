-- ===== src/Recovery/Order.antt =====
-- The order of the catalogue (crates/trust-kernel/src/recovery.rs).
use mathlib.Core.Bool.{false≢true}
use spaceshuttle.Prelude.{
  ◌≡◌, sym, subst, ◌∙◌, ◌≤◌, ◌↔◌, List, [], ◌∷◌, ◌++◌, Bool, true, inl, inr, some, some-injective,
  All, Bool-cases, leb, leb→le, arith,
}
use spaceshuttle.Recovery.Index
use spaceshuttle.Recovery.Index.{
  SnapshotCandidate, SnapshotIndex, insert_newest, sort_newest, register, find,
}
use spaceshuttle.Recovery.Choice.{find_hit, find_miss, All-map}

-- None of the candidates is newer than the one.
abbrev pub IsNewest : SnapshotCandidate → List SnapshotCandidate → Type 0
IsNewest c cs = All (λ (d : SnapshotCandidate). d.captured_at_ns ≤ c.captured_at_ns) cs

abbrev pub IsNewestFirst : List SnapshotCandidate → Type 0
IsNewestFirst [] = Unit
IsNewestFirst (c ∷ cs) = IsNewest c cs × IsNewestFirst cs

-- The catalogue after the registration of candidates, the last of them first.
pub data IsBuilt : List SnapshotCandidate → SnapshotIndex → Type 0 where
  built_new : (store_path : _) (git_path : _) → IsBuilt [] (Index.new store_path git_path)
  built_register :
      (cs : List SnapshotCandidate) (index : SnapshotIndex) (c : SnapshotCandidate)
      → IsBuilt cs index
      → IsBuilt (c ∷ cs) (register index c)

module _ {κ} (P : SnapshotCandidate → Type κ) where
  insert-All :
      (c : SnapshotCandidate) (ds : List SnapshotCandidate)
      → All P (insert_newest c ds) ↔ (P c × All P ds)
  insert-All c [] = (λ h. h, λ h. h)
  insert-All c (d ∷ ds) = elim (Bool-cases (leb d.captured_at_ns c.captured_at_ns)) [
    | inl e ↦ rw (insert_newest, e) ((λ h. h), (λ h. h))
    | inr e ↦
        let rest = insert-All c ds in
        rw (insert_newest, e)
          ((λ h. let g = rest.0 h.1 in (g.0, (h.0, g.1))), (λ h. (h.1.0, rest.1 (h.0, h.1.1))))
  ]

  sort-All : (cs : List SnapshotCandidate) → All P (sort_newest cs) ↔ All P cs
  sort-All [] = (λ h. h, λ h. h)
  sort-All (c ∷ cs) =
      let front = insert-All c (sort_newest cs) in
      let rest = sort-All cs in
      ((λ h. let g = front.0 h in (g.0, rest.0 g.1)), (λ h. front.1 (h.0, rest.1 h.1)))

  snoc-All :
      (cs : List SnapshotCandidate) (c : SnapshotCandidate)
      → All P (cs ++ c ∷ []) ↔ (P c × All P cs)
  snoc-All [] c = (λ h. h, λ h. h)
  snoc-All (d ∷ cs) c =
      let rest = snoc-All cs c in
      ((λ h. let g = rest.0 h.1 in (g.0, (h.0, g.1))), (λ h. (h.1.0, rest.1 (h.0, h.1.1))))

  -- The catalogue holds the registered candidates.
  pub built-All :
      (cs : List SnapshotCandidate) (index : SnapshotIndex)
      → IsBuilt cs index
      → All P index.snapshots ↔ All P cs
  unfolding register Index.new
  built-All _ _ (built_new store_path git_path) = (λ h. h, λ h. h)
  built-All _ _ (built_register cs index c built) =
      let rest = built-All cs index built in
      let sorted = sort-All (index.snapshots ++ c ∷ []) in
      let last = snoc-All index.snapshots c in
      (
        (λ h. let g = last.0 (sorted.0 h) in (g.0, rest.0 g.1)),
        (λ h. sorted.1 (last.1 (h.0, rest.1 h.1))),
      )

insert-IsNewestFirst :
    (c : SnapshotCandidate) (ds : List SnapshotCandidate)
    → IsNewestFirst ds
    → IsNewestFirst (insert_newest c ds)
insert-IsNewestFirst c [] h = (tt, tt)
insert-IsNewestFirst c (d ∷ ds) (below, h) =
    elim (Bool-cases (leb d.captured_at_ns c.captured_at_ns)) [
      | inl e ↦
          let le = leb→le _ _ e in
          rw (insert_newest, e)
            (
              (
                le,
                All-map (λ (x : SnapshotCandidate). x.captured_at_ns ≤ d.captured_at_ns) ds
                    (λ x k. omega (arith, k, le)) below,
              ),
              (below, h),
            )
      | inr e ↦
          rw (insert_newest, e)
            (
              (insert-All (λ (x : SnapshotCandidate). x.captured_at_ns ≤ d.captured_at_ns) c ds).1
                  (ground arith, below),
              insert-IsNewestFirst c ds h,
            )
    ]

pub sort-IsNewestFirst : (cs : List SnapshotCandidate) → IsNewestFirst (sort_newest cs)
sort-IsNewestFirst [] = tt
sort-IsNewestFirst (c ∷ cs) = insert-IsNewestFirst c (sort_newest cs) (sort-IsNewestFirst cs)

pub built-IsNewestFirst :
    (cs : List SnapshotCandidate) (index : SnapshotIndex)
    → IsBuilt cs index
    → IsNewestFirst index.snapshots
unfolding register Index.new
built-IsNewestFirst _ _ (built_new store_path git_path) = tt
built-IsNewestFirst _ _ (built_register cs index c built) =
    sort-IsNewestFirst (index.snapshots ++ c ∷ [])

-- In that order, the first candidate that passes a test is the newest that does.
pub find-IsNewest :
    (p : SnapshotCandidate → Bool) (cs : List SnapshotCandidate) {c : SnapshotCandidate}
    → IsNewestFirst cs
    → find p cs ≡ some c
    → All (λ (d : SnapshotCandidate). p d ≡ true → d.captured_at_ns ≤ c.captured_at_ns) cs
find-IsNewest p [] h e = tt
find-IsNewest p (d ∷ ds) {c} (below, h) e = elim (Bool-cases (p d)) [
  | inl hit ↦
      subst
        (λ (a : SnapshotCandidate).
          All (λ (x : SnapshotCandidate). p x ≡ true → x.captured_at_ns ≤ a.captured_at_ns)
            (d ∷ ds))
        (some-injective _ _ (sym (find_hit p d ds hit) ∙ e))
        (
          (λ _. omega arith),
          All-map (λ (x : SnapshotCandidate). x.captured_at_ns ≤ d.captured_at_ns) ds (λ x k _. k)
              below,
        )
  | inr miss ↦ (
    (λ hit. absurd (false≢true (sym miss ∙ hit))),
    find-IsNewest p ds h (sym (find_miss p d ds miss) ∙ e),
  )
]
