-- ===== src/Cluster/BlockStore.antt =====
-- crates/trust-kernel/src/cluster_transport.rs: `BlockStore`, the store of evicted blocks.
-- The lock is held for each call, so a call is one step. `stored_at` is left out: nothing reads it.
use spaceshuttle.Prelude.{
  ℕ, ◌≡◌, refl, List, [], ◌∷◌, Option, none, some, String, arith, ◌==◌, if◌then◌else◌, length,
  add64,
}

pub record StoredBlock : Type 0 where
  pub block_index : ℕ
  pub data_bytes : List ℕ
  pub content_hash : String
  pub ed25519_seal : String
  pub raw_size : ℕ
  pub stored_by : String
  pub bus_seq : ℕ
  pub access_count : ℕ

-- `HashMap` as an association list with one entry for a key.
pub record BlockStore : Type 0 where
  pub blocks : List (ℕ × StoredBlock)
  pub total_bytes : ℕ
  pub blocks_served : ℕ
  pub blocks_stored : ℕ

unfoldable pub new : BlockStore
new = record { blocks = []; total_bytes = 0; blocks_served = 0; blocks_stored = 0 }

unfoldable pub lookup {ℓ} : {A : Type ℓ} → ℕ → List (ℕ × A) → Option A
lookup block_index [] = none
lookup block_index (entry ∷ others) =
    if entry.0 == block_index then some entry.1 else lookup block_index others

unfoldable pub insert {ℓ} : {A : Type ℓ} → ℕ → A → List (ℕ × A) → List (ℕ × A)
insert block_index block [] = (block_index, block) ∷ []
insert block_index block (entry ∷ others) =
    if entry.0 == block_index
    then (block_index, block) ∷ others
    else entry ∷ insert block_index block others

unfoldable pub store : BlockStore → ℕ → List ℕ → String → String → ℕ → String → ℕ → BlockStore
unfolding insert
store s block_index data_bytes content_hash ed25519_seal raw_size from_aint bus_seq = record s {
  blocks =
      insert block_index
        (record {
          block_index = block_index;
          data_bytes = data_bytes;
          content_hash = content_hash;
          ed25519_seal = ed25519_seal;
          raw_size = raw_size;
          stored_by = from_aint;
          bus_seq = bus_seq;
          access_count = 0;
        })
        s.blocks;
  total_bytes = add64 s.total_bytes (length data_bytes);
  blocks_stored = add64 s.blocks_stored 1;
}

-- The entry that a fetch hands out: its access count goes up first.
abbrev pub served : StoredBlock → StoredBlock
served b = record b { access_count = add64 b.access_count 1 }

unfoldable pub fetch : BlockStore → ℕ → BlockStore × Option StoredBlock
unfolding lookup insert
fetch s block_index = elim (lookup block_index s.blocks) [
  | none ↦ (s, none)
  | some b ↦ (
    record s {
      blocks = insert block_index (served b) s.blocks;
      blocks_served = add64 s.blocks_served 1;
    },
    some (served b),
  )
]

-- What was inserted is found under its index, and every other index finds what it found before.
pub lookup-insert {ℓ} :
    {A : Type ℓ} (block_index wanted : ℕ) (block : A) (entries : List (ℕ × A))
    → lookup wanted (insert block_index block entries)
      ≡ (if block_index == wanted then some block else lookup wanted entries)
unfolding lookup insert
lookup-insert block_index wanted block [] = refl
lookup-insert block_index wanted block (entry ∷ others) =
    ground (arith, lookup-insert block_index wanted block others)
