-- ===== src/Mapper/Queue.antt =====
-- The indices that an eviction goes through (crates/trust-kernel/src/llm_mapper.rs).
use spaceshuttle.Prelude.{
  ℕ, suc, ◌+◌, ◌≡◌, ◌≢◌, refl, sym, ap, ◌∙◌, ◌≤◌, List, [], ◌∷◌, true, some, inl, inr, Bool-cases,
  arith, All, length, get_elem?, set, get_elem?-set_ne, count_if, leb,
}
use spaceshuttle.Mapper.Aperture.{ApertureBlock, in_ram}
use spaceshuttle.Mapper.Inference.{resident_indices, insert_by, sort_by_key}
use spaceshuttle.Mapper.Steps.{IsPlaced}

-- The block at the index is resident.
abbrev pub IsIn : List ApertureBlock → ℕ → Type 0
IsIn bs i = (b : ApertureBlock) × (get_elem? bs i ≡ some b) × (in_ram b ≡ true)

-- Different indices of resident blocks.
abbrev pub Queue : List ApertureBlock → List ℕ → Type 0
Queue bs [] = Unit
Queue bs (i ∷ is) = IsIn bs i × All (λ (j : ℕ). j ≢ i) is × Queue bs is

pub All-weaken {κ κ'} :
    {P : ℕ → Type κ} {P' : ℕ → Type κ'} (is : List ℕ)
    → ((i : ℕ) → P i → P' i)
    → All P is
    → All P' is
All-weaken [] f h = tt
All-weaken (i ∷ is) f (p, h) = (f i p, All-weaken is f h)

insert_by-All :
    (P : ℕ → Type 0) (key : ℕ → ℕ) (i : ℕ) (js : List ℕ)
    → P i
    → All P js
    → All P (insert_by key i js)
insert_by-All P key i [] p h = (p, tt)
insert_by-All P key i (j ∷ js) p (q, h) = elim (Bool-cases (leb (key i) (key j))) [
  | inl e ↦ rw (insert_by, e) (p, (q, h))
  | inr e ↦ rw (insert_by, e) (q, insert_by-All P key i js p h)
]

insert_by-Queue :
    (bs : List ApertureBlock) (key : ℕ → ℕ) (i : ℕ) (js : List ℕ)
    → IsIn bs i
    → All (λ (j : ℕ). j ≢ i) js
    → Queue bs js
    → Queue bs (insert_by key i js)
insert_by-Queue bs key i [] p other h = (p, tt, tt)
insert_by-Queue bs key i (j ∷ js) p (away, other) (q, apart, h) =
    elim (Bool-cases (leb (key i) (key j))) [
      | inl e ↦ rw (insert_by, e) (p, (away, other), (q, apart, h))
      | inr e ↦
          rw (insert_by, e)
            (
              q,
              insert_by-All (λ (x : ℕ). x ≢ j) key i js (λ same. away (sym same)) apart,
              insert_by-Queue bs key i js p other h,
            )
    ]

sort-All : (P : ℕ → Type 0) (key : ℕ → ℕ) (is : List ℕ) → All P is → All P (sort_by_key key is)
sort-All P key [] h = tt
sort-All P key (i ∷ is) (p, h) = insert_by-All P key i (sort_by_key key is) p (sort-All P key is h)

pub sort-Queue :
    (bs : List ApertureBlock) (key : ℕ → ℕ) (is : List ℕ)
    → Queue bs is
    → Queue bs (sort_by_key key is)
sort-Queue bs key [] h = tt
sort-Queue bs key (i ∷ is) (p, apart, h) =
    insert_by-Queue bs key i (sort_by_key key is) p (sort-All (λ (j : ℕ). j ≢ i) key is apart)
      (sort-Queue bs key is h)

insert_by-length :
    (key : ℕ → ℕ) (i : ℕ) (js : List ℕ) → length (insert_by key i js) ≡ suc (length js)
insert_by-length key i [] = refl
insert_by-length key i (j ∷ js) = elim (Bool-cases (leb (key i) (key j))) [
  | inl e ↦ rw (insert_by, e) refl
  | inr e ↦ rw (insert_by, e) (ap suc (insert_by-length key i js))
]

pub sort-length : (key : ℕ → ℕ) (is : List ℕ) → length (sort_by_key key is) ≡ length is
sort-length key [] = refl
sort-length key (i ∷ is) = insert_by-length key i (sort_by_key key is) ∙ ap suc (sort-length key is)

pub resident_indices-length :
    (bs : List ApertureBlock) → length (resident_indices bs) ≡ count_if in_ram bs
resident_indices-length [] = refl
resident_indices-length (b ∷ bs) = ground (arith, resident_indices-length bs)

-- The rest of an aperture, from the block at `k` on.
abbrev IsRest : List ApertureBlock → ℕ → List ApertureBlock → Type 0
IsRest full k bs = (d : ℕ) → get_elem? full (k + d) ≡ get_elem? bs d

resident_indices-ge :
    (k : ℕ) (bs : List ApertureBlock) → IsPlaced k bs → All (λ (j : ℕ). k ≤ j) (resident_indices bs)
resident_indices-ge k [] h = tt
resident_indices-ge k (b ∷ bs) (here, h) =
    let rest : All (λ (j : ℕ). k ≤ j) (resident_indices bs) =
      All-weaken (resident_indices bs) (λ j le. omega (arith, le))
        (resident_indices-ge (suc k) bs h) in
    elim (Bool-cases (in_ram b)) [
      | inl e ↦ rw (resident_indices, e) (omega (arith, here), rest)
      | inr e ↦ rw (resident_indices, e) rest
    ]

resident_indices-Rest :
    (full : List ApertureBlock) (k : ℕ) (bs : List ApertureBlock)
    → IsPlaced k bs
    → IsRest full k bs
    → Queue full (resident_indices bs)
resident_indices-Rest full k [] h rest = tt
resident_indices-Rest full k (b ∷ bs) (here, h) rest =
    let later : IsRest full (suc k) bs = λ d.
      (let e : suc k + d ≡ k + suc d = omega arith in
        ap (λ (n : ℕ). get_elem? full n) e ∙ rest (suc d)) in
    let more = resident_indices-Rest full (suc k) bs h later in
    let at : b.index ≡ k + 0 = omega (arith, here) in
    elim (Bool-cases (in_ram b)) [
      | inl e ↦
          rw (resident_indices, e)
            (
              (b, ap (λ (n : ℕ). get_elem? full n) at ∙ rest 0, e),
              All-weaken (resident_indices bs) (λ j le. omega (arith, le, here))
                  (resident_indices-ge (suc k) bs h),
              more,
            )
      | inr e ↦ rw (resident_indices, e) more
    ]

pub resident_indices-Queue :
    (bs : List ApertureBlock) → IsPlaced 0 bs → Queue bs (resident_indices bs)
resident_indices-Queue bs h =
    resident_indices-Rest bs 0 bs h
      (λ d. let e : 0 + d ≡ d = omega arith in ap (λ (n : ℕ). get_elem? bs n) e)

-- A change of one block leaves the other indices as they are.
pub set-Queue :
    (bs : List ApertureBlock) (i : ℕ) (b : ApertureBlock) (is : List ℕ)
    → All (λ (j : ℕ). j ≢ i) is
    → Queue bs is
    → Queue (set bs i b) is
set-Queue bs i b [] other h = tt
set-Queue bs i b (j ∷ js) (away, other) ((x, found, was), apart, h) = (
  (x, get_elem?-set_ne bs b (λ same. away (sym same)) ∙ found, was),
  apart,
  set-Queue bs i b js other h,
)
