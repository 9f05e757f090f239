-- ===== src/Migration/Live.antt =====
-- crates/trust-kernel/src/bifurcation.rs: `LiveMigration`, its dirty bitmap, sync rounds and phases.
use Prim.Native.Nat.{bit_xor}
use spaceshuttle.Prelude.{
  ℕ, suc, ◌+◌, ◌*◌, ◌%◌, List, [], ◌∷◌, ◌++◌, Bool, true, false, ◌==◌, ltb, String, if◌then◌else◌,
  length, get_or, set, replicate, count_if, add64, mul64, rotate_left64, le_bytes, same_bytes,
}

-- One byte of the hash: lane `i % 4` takes it in and is mixed into the next lane.
unfoldable pub mix : List ℕ → ℕ → ℕ → List ℕ
mix state i byte =
    let idx = i % 4 in
    let next = (idx + 1) % 4 in
    let lane = add64 (mul64 (get_or state idx 0) 0x100000001b3) byte in
    let state' = set state idx lane in
    set state' next (bit_xor (get_or state' next 0) (rotate_left64 lane 17))

unfoldable pub mix_all : List ℕ → ℕ → List ℕ → List ℕ
unfolding mix
mix_all state i [] = state
mix_all state i (byte ∷ rest) = mix_all (mix state i byte) (suc i) rest

-- The lanes as little-endian bytes.
unfoldable pub lanes : List ℕ → List ℕ
lanes [] = []
lanes (lane ∷ rest) = le_bytes 8 lane ++ lanes rest

unfoldable pub quick_hash : List ℕ → List ℕ
unfolding mix_all lanes
quick_hash contents = lanes (
    mix_all (0x243F6A8885A308D3 ∷ 0x13198A2E03707344 ∷ 0xA4093822299F31D0 ∷ 0x082EFA98EC4E6C89 ∷ [])
      0 contents)

pub data MigrationPhase : Type 0 where
  bulk_sync delta_sync micro_freeze handoff complete : MigrationPhase
  aborted : String → MigrationPhase

pub record LiveMigration : Type 0 where
  pub source_block_hashes : List (List ℕ)
  pub dirty_bitmap : List Bool
  pub bytes_transferred : ℕ
  pub bytes_skipped : ℕ
  pub sync_rounds : ℕ
  pub phase : MigrationPhase

-- What a round reports; its duration is left out.
pub record SyncRound : Type 0 where
  pub phase : MigrationPhase
  pub round : ℕ
  pub blocks_transferred : ℕ
  pub blocks_skipped : ℕ
  pub bytes_transferred : ℕ
  pub remaining_dirty : ℕ

unfoldable pub new : ℕ → LiveMigration
new block_count = record {
  source_block_hashes = replicate block_count (replicate 32 0);
  dirty_bitmap = replicate block_count true;
  bytes_transferred = 0;
  bytes_skipped = 0;
  sync_rounds = 0;
  phase = bulk_sync;
}

-- An index out of range changes nothing.
unfoldable pub mark_dirty : LiveMigration → ℕ → LiveMigration
mark_dirty m block_index = record m { dirty_bitmap = set m.dirty_bitmap block_index true }

-- What the loop of a round leaves and has counted.
pub record Swept : Type 0 where
  pub hashes : List (List ℕ)
  pub dirty : List Bool
  pub transferred : ℕ
  pub skipped : ℕ
  pub bytes : ℕ

-- One block in front of the others. A dirty block is sent only if its hash differs from that last sent.
unfoldable pub sweep_block : List ℕ → Bool → List ℕ → Swept → Swept
unfolding quick_hash
sweep_block hash false contents s = record s {
  hashes = hash ∷ s.hashes;
  dirty = false ∷ s.dirty;
  skipped = suc s.skipped;
}
sweep_block hash true contents s =
    if same_bytes (quick_hash contents) hash
    then record s { hashes = hash ∷ s.hashes; dirty = false ∷ s.dirty; skipped = suc s.skipped }
    else record s {
      hashes = quick_hash contents ∷ s.hashes;
      dirty = false ∷ s.dirty;
      transferred = suc s.transferred;
      bytes = add64 (length contents) s.bytes;
    }

-- Over the blocks of which there is data; the hashes are as many as the bits.
unfoldable pub sweep : List (List ℕ) → List Bool → List (List ℕ) → Swept
unfolding sweep_block
sweep (hash ∷ hashes) (dirty ∷ bits) (contents ∷ blocks) =
    sweep_block hash dirty contents (sweep hashes bits blocks)
sweep [] bits blocks = record { hashes = []; dirty = bits; transferred = 0; skipped = 0; bytes = 0 }
sweep (hash ∷ hashes) [] blocks = record {
  hashes = hash ∷ hashes;
  dirty = [];
  transferred = 0;
  skipped = 0;
  bytes = 0;
}
sweep (hash ∷ hashes) (dirty ∷ bits) [] = record {
  hashes = hash ∷ hashes;
  dirty = dirty ∷ bits;
  transferred = 0;
  skipped = 0;
  bytes = 0;
}

-- `remaining / total * 100.0 < 1.0`, exact on fewer than 2 ^ 46 blocks; with no blocks the quotient is
-- not a number and the test fails.
unfoldable pub next_phase : MigrationPhase → ℕ → ℕ → MigrationPhase
next_phase bulk_sync remaining total = if remaining == 0 then delta_sync else bulk_sync
next_phase delta_sync remaining total =
    if ltb (100 * remaining) total then micro_freeze else delta_sync
next_phase micro_freeze remaining total = if remaining == 0 then handoff else micro_freeze
next_phase handoff remaining total = complete
next_phase complete remaining total = complete
next_phase (aborted reason) remaining total = aborted reason

unfoldable pub sync_round : LiveMigration → List (List ℕ) → ℕ → LiveMigration × SyncRound
unfolding sweep next_phase
sync_round m block_data block_size =
    let s = sweep m.source_block_hashes m.dirty_bitmap block_data in
    let remaining = count_if (λ d. d) s.dirty in
    let rounds = (m.sync_rounds + 1) % 4294967296 in
    let phase' = next_phase m.phase remaining (length s.dirty) in
    (
      record {
        source_block_hashes = s.hashes;
        dirty_bitmap = s.dirty;
        bytes_transferred = add64 m.bytes_transferred s.bytes;
        bytes_skipped = add64 m.bytes_skipped (mul64 s.skipped block_size);
        sync_rounds = rounds;
        phase = phase';
      },
      record {
        phase = phase';
        round = rounds;
        blocks_transferred = s.transferred;
        blocks_skipped = s.skipped;
        bytes_transferred = s.bytes;
        remaining_dirty = remaining;
      },
    )

unfoldable pub complete_handoff : LiveMigration → LiveMigration
complete_handoff m = record m { phase = complete }
