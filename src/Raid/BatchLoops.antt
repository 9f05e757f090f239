-- ===== src/Raid/BatchLoops.antt =====
-- The loops of `simulate_read_batch` (crates/trust-kernel/src/ram_raid.rs):
-- which blocks they may bring in.
use spaceshuttle.Prelude.{
  ℕ, zero, suc, ◌≡◌, refl, false, List, [], ◌∷◌, map, some, String, inl, inr, Option-cases,
  Bool-cases, get_elem?, All,
}
use spaceshuttle.Raid.Types.{RaidBlock}
use spaceshuttle.Raid.Controller.{RamRaid, resides}
use spaceshuttle.Raid.Evict.{evict_coldest}
use spaceshuttle.Raid.Restore.{brought_in, hash_matches}
use spaceshuttle.Raid.Workload.{touched}
use spaceshuttle.Raid.Batch.{each, touch_one, fill_one, accept_one, accept_all, make_room}
use spaceshuttle.Raid.Moves.{Puts, done, one, stay}
use spaceshuttle.Raid.Evictions.{evict_coldest-Evicts}
use spaceshuttle.Raid.Restores.{Restores, came_by, gave_up, zero_fill-Restores}
use spaceshuttle.Raid.BatchSteps.{
  Misses, Distinct, Away, put_kept-Away, Spares, Spares-trans, Spares-next, carry_next,
  Evicts-Spares, Restores-Spares,
}

pub nothing_listed : (js : List ℕ) → All (Misses []) js
nothing_listed [] = tt
nothing_listed (j ∷ js) = (tt, nothing_listed js)

pub unmoved : (js : List ℕ) (r : RamRaid) → Spares js r r
unmoved js r = record { moves = done; spared = λ j m a. a }

-- One step that leaves every block that is away.
pub then_all : (js : List ℕ) (r s t : RamRaid) → Spares [] r s → Spares js s t → Spares js r t
then_all js r s t = Spares-trans [] js js r s t (λ j m. (tt, m))

-- An access to a block keeps it where it is, also when it is not resident.
touch_one-Spares : (now_ns : ℕ) (r : RamRaid) (idx : ℕ) → Spares [] r (touch_one now_ns r idx).0
unfolding touch_one
touch_one-Spares now_ns r idx = elim (Option-cases (get_elem? r.blocks idx)) [
  | inl e ↦ rw (e, touch_one) (unmoved [] r)
  | inr (b, e) ↦
      let p : Puts r (touch_one now_ns r idx).0 idx b (touched b now_ns) =
        rw (e, touch_one)
          (record {
            found = e;
            put = refl;
            place = (refl, refl, refl, refl);
            config_kept = refl;
          }) in
      record {
        moves = one (stay idx b (touched b now_ns) p refl (rw (e, touch_one) refl));
        spared = λ j m a.
            put_kept-Away r (touch_one now_ns r idx).0 idx b (touched b now_ns) j p (λ out. out) a;
      }
]

pub touches-Spares :
    (now_ns : ℕ) (js : List ℕ) (r : RamRaid) → Spares [] r (each (touch_one now_ns) r js).0
unfolding each
touches-Spares now_ns [] r = unmoved [] r
touches-Spares now_ns (i ∷ is) r =
    let s = (touch_one now_ns r i).0 in
    then_all [] r s (each (touch_one now_ns) s is).0 (touch_one-Spares now_ns r i)
      (touches-Spares now_ns is s)

module _ (sha256_hex : List ℕ → String) where
  pub make_room-Spares : (n : ℕ) (r : RamRaid) → Spares [] r (make_room sha256_hex n r)
  unfolding make_room
  make_room-Spares zero r = unmoved [] r
  make_room-Spares (suc n) r =
      let t = evict_coldest sha256_hex r in
      then_all [] r t.0 (make_room sha256_hex n t.0)
        (Evicts-Spares r t.0 t.1 (evict_coldest-Evicts sha256_hex r)) (make_room-Spares n t.0)

  pub fill_one-Restores :
      (now_ns : ℕ) (r : RamRaid) (idx : ℕ) (b : RaidBlock)
      → get_elem? r.blocks idx ≡ some b
      → resides b ≡ false
      → let t = fill_one now_ns r idx in Restores r idx t.0 t.1
  unfolding fill_one
  fill_one-Restores now_ns r idx b at out =
      rw (at, fill_one) (zero_fill-Restores sha256_hex r idx b now_ns at out)

  accept_one-Restores :
      (now_ns : ℕ) (r : RamRaid) (idx : ℕ) (received : List ℕ) (b : RaidBlock)
      → get_elem? r.blocks idx ≡ some b
      → resides b ≡ false
      → let t = accept_one sha256_hex now_ns r (idx, received) in Restores r idx t.0 t.1
  unfolding accept_one
  accept_one-Restores now_ns r idx received b at out =
      elim (Bool-cases (hash_matches sha256_hex b.content_hash received)) [
        | inl h ↦
            rw (at, accept_one)
              (rw h (
                came_by idx b (brought_in b now_ns) at out refl (refl, refl, refl, refl) refl refl
                  refl refl))
        | inr h ↦ rw (at, accept_one) (rw h (gave_up b at out refl refl refl _ refl))
      ]

  pub accept_all-Spares :
      (now_ns : ℕ) (fetched : List (ℕ × List ℕ)) (r : RamRaid)
      → Distinct (map (λ x. x.0) fetched)
      → All (Away r) (map (λ x. x.0) fetched)
      → Spares (map (λ x. x.0) fetched) r (accept_all sha256_hex now_ns r fetched).0
  unfolding accept_all
  accept_all-Spares now_ns [] r d a = unmoved [] r
  accept_all-Spares now_ns ((i, received) ∷ rest) r (m, d) ((b, at, out), others) =
      let t = accept_one sha256_hex now_ns r (i, received) in
      let is = map (λ x. x.0) rest in
      let first = Restores-Spares r t.0 i t.1 (accept_one-Restores now_ns r i received b at out) in
      Spares-next i is r t.0 (accept_all sha256_hex now_ns t.0 rest).0 first
        (accept_all-Spares now_ns rest t.0 d (carry_next i is r t.0 first m others))
