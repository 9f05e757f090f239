-- ===== src/Migration/Phases.antt =====
-- The phases of a migration of crates/trust-kernel/src/bifurcation.rs.
use spaceshuttle.Prelude.{ℕ, zero, suc, ◌≡◌, refl, ap, ◌∙◌, ◌<◌, List, [], lt→ltb, length}
use spaceshuttle.Migration.Live.{MigrationPhase, delta_sync, handoff, complete, new, next_phase}
use spaceshuttle.Migration.Mirrors.{
  Source, sync, happen, IsTracked, new-IsTracked, sync_round-phase,
}

-- `n` rounds with no writes between them.
unfoldable pub rounds : ℕ → ℕ → Source → Source
unfolding happen
rounds zero block_size s = s
rounds (suc n) block_size s = rounds n block_size (happen s (sync block_size))

phase_after : ℕ → MigrationPhase → ℕ → MigrationPhase
unfolding next_phase
phase_after zero phase total = phase
phase_after (suc n) phase total = phase_after n (next_phase phase 0 total) total

rounds-phase :
    (n block_size : ℕ) (s : Source)
    → IsTracked s
    → (rounds n block_size s).migration.phase ≡ phase_after n s.migration.phase (length s.blocks)
unfolding rounds phase_after happen
rounds-phase zero block_size s h = refl
rounds-phase (suc n) block_size s h =
    let (tracked, phase) = sync_round-phase s block_size h in
    rounds-phase n block_size (happen s (sync block_size)) tracked
    ∙ ap (λ p. phase_after n p (length s.blocks)) phase

-- A migration of at least one block, with no writes between its rounds, is in the handoff phase
-- after the third round and complete after the fourth.
pub rounds-complete :
    (blocks : List (List ℕ)) (block_size : ℕ)
    → 0 < length blocks
    → let start : Source = record { migration = new (length blocks); blocks = blocks } in
      ((rounds 3 block_size start).migration.phase ≡ handoff)
      × ((rounds 4 block_size start).migration.phase ≡ complete)
unfolding phase_after next_phase new
rounds-complete blocks block_size some_block =
    let start : Source = record { migration = new (length blocks); blocks = blocks } in
    let h = new-IsTracked blocks in
    (
      rounds-phase 3 block_size start h ∙ rw (lt→ltb 0 (length blocks) some_block) refl,
      rounds-phase 4 block_size start h ∙ rw (lt→ltb 0 (length blocks) some_block) refl,
    )

stalled : (n : ℕ) → phase_after n delta_sync 0 ≡ delta_sync
unfolding phase_after next_phase
stalled zero = refl
stalled (suc n) = stalled n

-- A migration of no blocks never leaves the delta phase, however many rounds are made.
pub rounds_no_blocks :
    (n block_size : ℕ)
    → (rounds (suc n) block_size (record { migration = new 0; blocks = [] })).migration.phase
      ≡ delta_sync
unfolding phase_after next_phase new
rounds_no_blocks n block_size =
    rounds-phase (suc n) block_size (record { migration = new 0; blocks = [] }) (new-IsTracked [])
    ∙ stalled n
