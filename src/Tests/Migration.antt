-- ===== src/Tests/Migration.antt =====
-- The migration theorems at three blocks (crates/trust-kernel/src/bifurcation.rs).
use spaceshuttle.Prelude.{ℕ, ◌+◌, ◌≡◌, List, [], ◌∷◌, length, arith}
use spaceshuttle.Migration.Live.{new, sync_round, handoff, complete}
use spaceshuttle.Migration.Mirrors.{
  Source, Event, write, sync, happen_all, IsMirrored, sync_round-mirrors,
}
use spaceshuttle.Migration.Phases.{rounds, rounds-complete}

abbrev three_blocks : List (List ℕ)
three_blocks = (1 ∷ 2 ∷ []) ∷ (3 ∷ []) ∷ [] ∷ []

abbrev busy : List Event
busy = sync 4 ∷ write 1 (5 ∷ 6 ∷ []) ∷ write 7 (1 ∷ []) ∷ sync 4 ∷ write 0 [] ∷ []

sync_round-mirrors_example :
    let s = happen_all (record { migration = new 3; blocks = three_blocks }) busy in
    let (m, round) = sync_round s.migration s.blocks 4 in
    IsMirrored (record { migration = m; blocks = s.blocks })
    × (round.blocks_transferred + round.blocks_skipped ≡ length s.blocks)
    × (round.remaining_dirty ≡ 0)
sync_round-mirrors_example = sync_round-mirrors three_blocks busy 4

rounds-complete_example :
    let start : Source = record { migration = new 3; blocks = three_blocks } in
    ((rounds 3 4 start).migration.phase ≡ handoff) × ((rounds 4 4 start).migration.phase ≡ complete)
rounds-complete_example = rounds-complete three_blocks 4 (omega arith)
