-- ===== src/Migration/Mirrors.antt =====
-- What a sync round of crates/trust-kernel/src/bifurcation.rs guarantees of the recorded hashes.
use spaceshuttle.Prelude.{
  ℕ, zero, suc, ◌+◌, ◌≡◌, refl, ap, sym, List, [], ◌∷◌, Bool, true, false, length, map, set,
  replicate, count_if, inl, inr, Bool-cases, same_bytes, same_bytes→≡, arith,
}
use spaceshuttle.Migration.Live.{
  LiveMigration, Swept, quick_hash, new, mark_dirty, sweep_block, sweep, next_phase, sync_round,
}

-- The source: the migration and the blocks it moves, which change between rounds.
pub record Source : Type 0 where
  pub migration : LiveMigration
  pub blocks : List (List ℕ)

-- Block for block: a clean block has the hash of its contents on record.
abbrev pub Tracks : List (List ℕ) → List Bool → List (List ℕ) → Type 0
Tracks [] [] [] = Unit
Tracks (hash ∷ hashes) (false ∷ bits) (contents ∷ blocks) =
    (hash ≡ quick_hash contents) × Tracks hashes bits blocks
Tracks (hash ∷ hashes) (true ∷ bits) (contents ∷ blocks) = Tracks hashes bits blocks
Tracks _ _ _ = ⊥

pub data Event : Type 0 where
  write : ℕ → List ℕ → Event
  sync : ℕ → Event

-- A write changes a block and marks it, in range or not.
unfoldable pub happen : Source → Event → Source
unfolding mark_dirty sync_round
happen s (write block_index contents) = record {
  migration = mark_dirty s.migration block_index;
  blocks = set s.blocks block_index contents;
}
happen s (sync block_size) = record s { migration = (sync_round s.migration s.blocks block_size).0 }

unfoldable pub happen_all : Source → List Event → Source
unfolding happen
happen_all s [] = s
happen_all s (e ∷ es) = happen_all (happen s e) es

abbrev pub IsTracked : Source → Type 0
IsTracked s = Tracks s.migration.source_block_hashes s.migration.dirty_bitmap s.blocks

-- Every block is clean and has the hash of its contents on record.
abbrev pub IsMirrored : Source → Type 0
IsMirrored s =
    (s.migration.source_block_hashes ≡ map quick_hash s.blocks)
    × (count_if (λ d. d) s.migration.dirty_bitmap ≡ 0)

new-Tracks :
    (blocks : List (List ℕ))
    → Tracks (replicate (length blocks) (replicate 32 0)) (replicate (length blocks) true) blocks
new-Tracks [] = tt
new-Tracks (contents ∷ blocks) = new-Tracks blocks

write-Tracks :
    (hashes : List (List ℕ)) (bits : List Bool) (blocks : List (List ℕ)) (i : ℕ) (contents : List ℕ)
    → Tracks hashes bits blocks
    → Tracks hashes (set bits i true) (set blocks i contents)
write-Tracks [] [] [] i contents h = tt
write-Tracks (hash ∷ hashes) (false ∷ bits) (b ∷ blocks) zero contents (_, h) = h
write-Tracks (hash ∷ hashes) (true ∷ bits) (b ∷ blocks) zero contents h = h
write-Tracks (hash ∷ hashes) (false ∷ bits) (b ∷ blocks) (suc i) contents (e, h) =
    (e, write-Tracks hashes bits blocks i contents h)
write-Tracks (hash ∷ hashes) (true ∷ bits) (b ∷ blocks) (suc i) contents h =
    write-Tracks hashes bits blocks i contents h
write-Tracks [] [] (b ∷ blocks) i contents h = absurd h
write-Tracks [] (_ ∷ bits) blocks i contents h = absurd h
write-Tracks (hash ∷ hashes) [] blocks i contents h = absurd h
write-Tracks (hash ∷ hashes) (false ∷ bits) [] i contents h = absurd h
write-Tracks (hash ∷ hashes) (true ∷ bits) [] i contents h = absurd h

-- What a sweep over all blocks leaves.
record Mirrors (s : Swept) (blocks : List (List ℕ)) : Type 0 where
  hashed : s.hashes ≡ map quick_hash blocks
  clean : count_if (λ d. d) s.dirty ≡ 0
  as_many : length s.dirty ≡ length blocks
  tracked : Tracks s.hashes s.dirty blocks
  accounted : s.transferred + s.skipped ≡ length blocks

sweep-Mirrors :
    (hashes : List (List ℕ)) (bits : List Bool) (blocks : List (List ℕ))
    → Tracks hashes bits blocks
    → Mirrors (sweep hashes bits blocks) blocks
unfolding sweep sweep_block
sweep-Mirrors [] [] [] h = record {
  hashed = refl;
  clean = refl;
  as_many = refl;
  tracked = tt;
  accounted = refl;
}
sweep-Mirrors (hash ∷ hashes) (false ∷ bits) (b ∷ blocks) (e, h) =
    let m = sweep-Mirrors hashes bits blocks h in
    record {
      hashed = rw (e, m.hashed) refl;
      clean = m.clean;
      as_many = ap suc m.as_many;
      tracked = (e, m.tracked);
      accounted = omega (arith, m.accounted);
    }
sweep-Mirrors (hash ∷ hashes) (true ∷ bits) (b ∷ blocks) h =
    let m = sweep-Mirrors hashes bits blocks h in
    elim (Bool-cases (same_bytes (quick_hash b) hash)) [
      | inl same ↦
          let e = same_bytes→≡ (quick_hash b) hash same in
          rw same (record {
            hashed = rw (sym e, m.hashed) refl;
            clean = m.clean;
            as_many = ap suc m.as_many;
            tracked = (sym e, m.tracked);
            accounted = omega (arith, m.accounted);
          })
      | inr differs ↦ rw differs (record {
        hashed = rw m.hashed refl;
        clean = m.clean;
        as_many = ap suc m.as_many;
        tracked = (refl, m.tracked);
        accounted = omega (arith, m.accounted);
      })
    ]
sweep-Mirrors [] [] (b ∷ blocks) h = absurd h
sweep-Mirrors [] (_ ∷ bits) blocks h = absurd h
sweep-Mirrors (hash ∷ hashes) [] blocks h = absurd h
sweep-Mirrors (hash ∷ hashes) (false ∷ bits) [] h = absurd h
sweep-Mirrors (hash ∷ hashes) (true ∷ bits) [] h = absurd h

happen-IsTracked : (s : Source) (e : Event) → IsTracked s → IsTracked (happen s e)
unfolding happen mark_dirty sync_round
happen-IsTracked s (write i contents) h = write-Tracks _ _ s.blocks i contents h
happen-IsTracked s (sync block_size) h = (sweep-Mirrors _ _ s.blocks h).tracked

happen_all-IsTracked : (s : Source) (es : List Event) → IsTracked s → IsTracked (happen_all s es)
unfolding happen_all
happen_all-IsTracked s [] h = h
happen_all-IsTracked s (e ∷ es) h = happen_all-IsTracked (happen s e) es (happen-IsTracked s e h)

-- Whatever was written and synced since a migration of all blocks began, one more round leaves
-- each block clean with the hash of its present contents on record, reports nothing dirty, and
-- counts every block once, as sent or as skipped.
pub sync_round-mirrors :
    (blocks : List (List ℕ)) (es : List Event) (block_size : ℕ)
    → let s = happen_all (record { migration = new (length blocks); blocks = blocks }) es in
      let (m, round) = sync_round s.migration s.blocks block_size in
      IsMirrored (record { migration = m; blocks = s.blocks })
      × (round.blocks_transferred + round.blocks_skipped ≡ length s.blocks)
      × (round.remaining_dirty ≡ 0)
unfolding sync_round new
sync_round-mirrors blocks es block_size =
    let s = happen_all (record { migration = new (length blocks); blocks = blocks }) es in
    let swept = sweep-Mirrors _ _ s.blocks (happen_all-IsTracked _ es (new-Tracks blocks)) in
    ((swept.hashed, swept.clean), swept.accounted, swept.clean)

-- A round over all blocks of a tracked source moves to the phase that follows when nothing is left.
pub sync_round-phase :
    (s : Source) (block_size : ℕ)
    → IsTracked s
    → IsTracked (happen s (sync block_size))
      × ((happen s (sync block_size)).migration.phase
          ≡ next_phase s.migration.phase 0 (length s.blocks))
unfolding happen sync_round
sync_round-phase s block_size h =
    let swept = sweep-Mirrors _ _ s.blocks h in
    (swept.tracked, rw (swept.clean, swept.as_many) refl)

pub new-IsTracked :
    (blocks : List (List ℕ))
    → IsTracked (record { migration = new (length blocks); blocks = blocks })
unfolding new
new-IsTracked blocks = new-Tracks blocks
