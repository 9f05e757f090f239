-- ===== src/Raid/Coldest.antt =====
-- The scan of `evict_coldest` (crates/trust-kernel/src/ram_raid.rs) finds a coldest resident block.
use native.Mathlib.Decide.{dec_lt}
use native.Mathlib.Nat.{add-zero, zero-add}
use spaceshuttle.Prelude.{
  ℕ, zero, suc, ◌+◌, ◌-◌, ◌%◌, ◌≤◌, ◌<◌, ◌≡◌, refl, true, List, inl, inr, Option, none, some, arith,
  length, get_elem?, get_elem?_lt, ltb, ◌&&◌, Option-cases, Bool-cases, sym, subst,
}
use spaceshuttle.Raid.Types.{RaidBlock}
use spaceshuttle.Raid.Controller.{resides}
use spaceshuttle.Raid.Evict.{u64_max, Coldest, colder, scan, find_coldest}

-- A candidate is a resident block with that many accesses.
abbrev pub IsCandidate : List RaidBlock → Coldest → Type 0
IsCandidate blocks (none, a) = a ≡ u64_max
IsCandidate blocks (some idx, a) =
    (b : RaidBlock) × (get_elem? blocks idx ≡ some b) × (resides b ≡ true) × (b.access_count ≡ a)

colder-IsCandidate :
    (blocks : List RaidBlock) (idx : ℕ) (best : Coldest)
    → IsCandidate blocks best
    → IsCandidate blocks (colder blocks idx best)
unfolding colder
colder-IsCandidate blocks idx best h = elim (Option-cases (get_elem? blocks idx)) [
  | inl e ↦ rw (e, colder) h
  | inr (b, e) ↦ elim (Bool-cases (resides b && ltb b.access_count best.1)) [
    | inl t ↦ rw (e, colder) (rw t (b, e, ground arith, refl))
    | inr f ↦ rw (e, colder) (rw f h)
  ]
]

colder-le :
    (blocks : List RaidBlock) (idx : ℕ) (best : Coldest) → (colder blocks idx best).1 ≤ best.1
unfolding colder
colder-le blocks idx best = ground arith

colder-le-seen :
    (blocks : List RaidBlock) (idx : ℕ) (best : Coldest) (b : RaidBlock)
    → get_elem? blocks idx ≡ some b
    → resides b ≡ true
    → (colder blocks idx best).1 ≤ b.access_count
unfolding colder
colder-le-seen blocks idx best b e h = ground arith

-- Every index below `len` is reached from `start` in fewer than `len` steps round.
wraps_to : (start j len : ℕ) → start < len → j < len → (k : ℕ) × (k < len) × ((start + k) % len ≡ j)
wraps_to start j len hs hj = elim (dec_lt j start) [
  | yes p ↦ (j + len - start, omega arith, grind arith)
  | no p ↦ (j - start, omega arith, grind arith)
]

scan-IsCandidate :
    (blocks : List RaidBlock) (start i n : ℕ) (best : Coldest)
    → IsCandidate blocks best
    → IsCandidate blocks (scan blocks start i n best)
unfolding scan
scan-IsCandidate blocks start i zero best h = h
scan-IsCandidate blocks start i (suc n) best h =
    scan-IsCandidate blocks start (suc i) n _
      (colder-IsCandidate blocks ((start + i) % length blocks) best h)

scan-le :
    (blocks : List RaidBlock) (start i n : ℕ) (best : Coldest)
    → (scan blocks start i n best).1 ≤ best.1
unfolding scan
scan-le blocks start i zero best = omega arith
scan-le blocks start i (suc n) best =
    let at = (start + i) % length blocks in
    omega (arith, colder-le blocks at best, scan-le blocks start (suc i) n (colder blocks at best))

-- Whatever the scan has passed by is no colder than its candidate.
scan-le-seen :
    (blocks : List RaidBlock) (start i n : ℕ) (best : Coldest) (k : ℕ) (b : RaidBlock)
    → k < n
    → get_elem? blocks ((start + (i + k)) % length blocks) ≡ some b
    → resides b ≡ true
    → (scan blocks start i n best).1 ≤ b.access_count
unfolding scan
scan-le-seen blocks start i zero best k b h e res = absurd (omega arith)
scan-le-seen blocks start i (suc n) best zero b h e res =
    let at = (start + i) % length blocks in
    let e' : get_elem? blocks at ≡ some b = rw (← add-zero i) e in
    omega (
      arith,
      scan-le blocks start (suc i) n (colder blocks at best),
      colder-le-seen blocks at best b e' res,
    )
scan-le-seen blocks start i (suc n) best (suc k) b h e res =
    scan-le-seen blocks start (suc i) n _ k b (omega arith)
      (subst (λ m. get_elem? blocks ((start + m) % length blocks) ≡ some b) (omega arith) e) res

-- The whole scan meets every block.
scan-le_all :
    (blocks : List RaidBlock) (clock j : ℕ) (b : RaidBlock)
    → get_elem? blocks j ≡ some b
    → resides b ≡ true
    → (scan blocks (clock % length blocks) 0 (length blocks) (none, u64_max)).1 ≤ b.access_count
scan-le_all blocks clock j b e res =
    let inside = get_elem?_lt blocks j e in
    let start = clock % length blocks in
    let (k, hk, back) = wraps_to start j (length blocks) (omega arith) inside in
    scan-le-seen blocks start 0 (length blocks) _ k b hk
      (subst (λ m. get_elem? blocks m ≡ some b) (rw (zero-add k) (sym back)) e) res

-- What the scan answers for a block table: a resident block that no resident block undercuts; or
-- nothing, and then every resident block has the largest access count there is.
abbrev pub IsColdest : List RaidBlock → Option ℕ → Type 0
IsColdest blocks (some idx) =
    (b : RaidBlock) × (get_elem? blocks idx ≡ some b)
    × (resides b ≡ true)
    × ((j : ℕ) (c : RaidBlock)
        → get_elem? blocks j ≡ some c
        → resides c ≡ true
        → b.access_count ≤ c.access_count)
IsColdest blocks none =
    (j : ℕ) (c : RaidBlock)
    → get_elem? blocks j ≡ some c
    → resides c ≡ true
    → u64_max ≤ c.access_count

IsColdest-of :
    (blocks : List RaidBlock) (best : Coldest)
    → IsCandidate blocks best
    → ((j : ℕ) (c : RaidBlock)
        → get_elem? blocks j ≡ some c
        → resides c ≡ true
        → best.1 ≤ c.access_count)
    → IsColdest blocks best.0
IsColdest-of blocks (none, a) e least = λ j c at res. omega (arith, least j c at res)
IsColdest-of blocks (some idx, a) (b, at, res, e) least =
    (b, at, res, λ j c at' res'. omega (arith, least j c at' res'))

-- From any clock position, the scan picks a resident block with the fewest accesses among the
-- resident ones; it picks nothing only if each resident block has the largest access count.
pub find_coldest-IsColdest :
    (blocks : List RaidBlock) (clock : ℕ) → IsColdest blocks (find_coldest blocks clock)
unfolding find_coldest
find_coldest-IsColdest blocks clock =
    IsColdest-of blocks _
      (scan-IsCandidate blocks (clock % length blocks) 0 (length blocks) (none, u64_max) refl)
      (scan-le_all blocks clock)
