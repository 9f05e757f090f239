-- ===== src/Raid/BatchSteps.antt =====
-- What the loops of `simulate_read_batch` (crates/trust-kernel/src/ram_raid.rs) leave alone.
use spaceshuttle.Prelude.{
  ℕ, ◌≡◌, sym, ap, ◌∙◌, false, List, [], ◌∷◌, some, some-injective, inl, inr, arith, get_elem?, set,
  get_elem?-set_self, get_elem?-set_ne, get_elem?_lt, Bool-cases, ◌==◌, All,
}
use spaceshuttle.Raid.Types.{RaidBlock, EvictionResult, FaultResult}
use spaceshuttle.Raid.Controller.{RamRaid, resides}
use spaceshuttle.Raid.Moves.{Puts, Moves, done, one, Moves-trans}
use spaceshuttle.Raid.Evictions.{Evicts, left, refused, Evicts-Move}
use spaceshuttle.Raid.Restores.{Restores, came_in, was_in, gave_up, Restores-Move}
use spaceshuttle.Raid.Batch.{each}

-- Index `j` is not among the indices.
abbrev pub Misses : List ℕ → ℕ → Type 0
Misses js j = All (λ i. ¬ (j ≡ i)) js

abbrev pub Distinct : List ℕ → Type 0
Distinct [] = Unit
Distinct (i ∷ is) = Misses is i × Distinct is

-- Block `j` is in range and not resident.
abbrev pub Away : RamRaid → ℕ → Type 0
Away r j = (b : RaidBlock) × (get_elem? r.blocks j ≡ some b) × (resides b ≡ false)

-- `s` comes from `r` by moves that bring in no block but those listed.
pub record Spares (js : List ℕ) (r s : RamRaid) : Type 0 where
  pub moves : Moves r s
  pub spared : (j : ℕ) → Misses js j → Away r j → Away s j

pub Spares-trans :
    (js ks ls : List ℕ) (r s t : RamRaid)
    → ((j : ℕ) → Misses ls j → Misses js j × Misses ks j)
    → Spares js r s
    → Spares ks s t
    → Spares ls r t
Spares-trans js ks ls r s t split p q = record {
  moves = Moves-trans p.moves q.moves;
  spared = λ j m a. let (mj, mk) = split j m in q.spared j mk (p.spared j mj a);
}

-- Blocks that are away and not listed stay away.
pub carry :
    (js ks : List ℕ) (r s : RamRaid)
    → Spares js r s
    → All (Misses js) ks
    → All (Away r) ks
    → All (Away s) ks
carry js [] r s p m a = tt
carry js (k ∷ ks) r s p (m, ms) (a, others) = (p.spared k m a, carry js ks r s p ms others)

put-Away :
    (r s : RamRaid) (idx : ℕ) (b v : RaidBlock) (j : ℕ)
    → Puts r s idx b v
    → ¬ (j ≡ idx)
    → Away r j
    → Away s j
put-Away r s idx b v j p other (a, at, out) = (
  a,
  ap (λ bs. get_elem? bs j) p.put ∙ get_elem?-set_ne r.blocks v (λ e. other (sym e)) ∙ at,
  out,
)

-- The same for every block, if the one that is overwritten is not brought in.
pub put_kept-Away :
    (r s : RamRaid) (idx : ℕ) (b v : RaidBlock) (j : ℕ)
    → Puts r s idx b v
    → (resides b ≡ false → resides v ≡ false)
    → Away r j
    → Away s j
put_kept-Away r s idx b v j p gone (a, at, out) = elim (Bool-cases (j == idx)) [
  | inl t ↦
      let same : j ≡ idx = ground arith in
      let one_block : a ≡ b =
        some-injective _ _ (sym at ∙ ap (get_elem? r.blocks) same ∙ p.found) in
      (
        v,
        ap (λ bs. get_elem? bs j) p.put
            ∙ ap (get_elem? (set r.blocks idx v)) same
            ∙ get_elem?-set_self r.blocks idx v (get_elem?_lt r.blocks idx p.found),
        gone (sym (ap resides one_block) ∙ out),
      )
  | inr f ↦ put-Away r s idx b v j p (λ e. ground arith) (a, at, out)
]

same-Away : (r s : RamRaid) (j : ℕ) → s.blocks ≡ r.blocks → Away r j → Away s j
same-Away r s j e (b, at, out) = (b, ap (λ bs. get_elem? bs j) e ∙ at, out)

pub Evicts-Spares : (r s : RamRaid) (result : EvictionResult) → Evicts r (s, result) → Spares [] r s
Evicts-Spares r s result (left idx b v p e f n g) = record {
  moves = one (Evicts-Move (left idx b v p e f n g));
  spared = λ j m a. put_kept-Away r s idx b v j p (λ _. f) a;
}
Evicts-Spares r s result (refused c e n g) = record {
  moves = one (Evicts-Move (refused c e n g));
  spared = λ j m a. same-Away r s j e a;
}

pub Restores-Spares :
    (r s : RamRaid) (idx : ℕ) (result : FaultResult)
    → Restores r idx s result
    → Spares (idx ∷ []) r s
Restores-Spares r s idx result (came_in b v p e f n g) = record {
  moves = one (Restores-Move (came_in b v p e f n g));
  spared = λ j m a. put-Away r s idx b v j p m.0 a;
}
Restores-Spares r s idx result (was_in b same at e g) = record {
  moves = one (Restores-Move (was_in b same at e g));
  spared = λ j m a. same-Away r s j (ap (λ (t : RamRaid). t.blocks) same) a;
}
Restores-Spares r s idx result (gave_up b at out c e n why g) = record {
  moves = one (Restores-Move (gave_up b at out c e n why g));
  spared = λ j m a. same-Away r s j e a;
}

apart_one : (i : ℕ) (is : List ℕ) → Misses is i → All (Misses (i ∷ [])) is
apart_one i [] m = tt
apart_one i (j ∷ is) (m, ms) = (((λ e. m (sym e)), tt), apart_one i is ms)

pub Spares-next :
    (i : ℕ) (is : List ℕ) (r s t : RamRaid)
    → Spares (i ∷ []) r s
    → Spares is s t
    → Spares (i ∷ is) r t
Spares-next i is r s t = Spares-trans (i ∷ []) is (i ∷ is) r s t (λ j m. ((m.0, tt), m.1))

pub carry_next :
    (i : ℕ) (is : List ℕ) (r s : RamRaid)
    → Spares (i ∷ []) r s
    → Misses is i
    → All (Away r) is
    → All (Away s) is
carry_next i is r s p m = carry (i ∷ []) is r s p (apart_one i is m)

-- A loop of restores over distinct blocks that are away brings in no other block.
pub each-Spares :
    (step : RamRaid → ℕ → RamRaid × FaultResult)
    → ((r : RamRaid) (idx : ℕ) (b : RaidBlock)
        → get_elem? r.blocks idx ≡ some b
        → resides b ≡ false
        → Restores r idx (step r idx).0 (step r idx).1)
    → (js : List ℕ) (r : RamRaid) → Distinct js
    → All (Away r) js
    → Spares js r (each step r js).0
unfolding each
each-Spares step good [] r d a = record { moves = done; spared = λ j m a. a }
each-Spares step good (i ∷ is) r (m, d) ((b, at, out), others) =
    let s = (step r i).0 in
    let first = Restores-Spares r s i (step r i).1 (good r i b at out) in
    Spares-next i is r s (each step s is).0 first
      (each-Spares step good is s d (carry_next i is r s first m others))
