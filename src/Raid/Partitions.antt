-- ===== src/Raid/Partitions.antt =====
-- The partition of `simulate_read_batch` (crates/trust-kernel/src/ram_raid.rs): what its lists hold.
use spaceshuttle.Prelude.{
  ℕ, ◌≡◌, refl, sym, ap, ◌∙◌, ◌<◌, false, List, [], ◌∷◌, some, some-injective, inl, inr,
  Option-cases, arith, get_elem?, All,
}
use spaceshuttle.Raid.Types.{
  RaidBlock, BlockLocation, is_resident, resident, local_store, remote_kernel, fetching, virgin,
}
use spaceshuttle.Raid.Controller.{RamRaid}
use spaceshuttle.Raid.Batch.{Partition, file_under, partition}
use spaceshuttle.Raid.BatchSteps.{Misses, Distinct, Away}

abbrev kind : BlockLocation → ℕ
kind virgin = 0
kind (local_store _ _) = 1
kind (remote_kernel _ _ _) = 2
kind fetching = 3
kind resident = 4

-- Block `j` is in range with a location of that kind.
abbrev pub Stands : List RaidBlock → ℕ → ℕ → Type 0
Stands blocks k j = (b : RaidBlock) × (get_elem? blocks j ≡ some b) × (kind b.location ≡ k)

kind_out : (place : BlockLocation) → kind place < 4 → is_resident place ≡ false
kind_out virgin h = refl
kind_out (local_store _ _) h = refl
kind_out (remote_kernel _ _ _) h = refl
kind_out fetching h = refl
kind_out resident h = ground arith

pub Stands-Away :
    (r : RamRaid) (k : ℕ) (js : List ℕ) → k < 4 → All (Stands r.blocks k) js → All (Away r) js
Stands-Away r k [] h all = tt
Stands-Away r k (j ∷ js) h ((b, at, e), all) =
    ((b, at, kind_out b.location (omega arith)), Stands-Away r k js h all)

stand_apart :
    (blocks : List RaidBlock) (k l i : ℕ) (js : List ℕ)
    → ¬ (k ≡ l)
    → Stands blocks k i
    → All (Stands blocks l) js
    → Misses js i
stand_apart blocks k l i [] differ s all = tt
stand_apart blocks k l i (j ∷ js) differ (b, at, e) ((b', at', e'), all) = (
  λ same.
      let one_block : b ≡ b' = some-injective _ _ (sym at ∙ ap (get_elem? blocks) same ∙ at') in
      differ (sym e ∙ ap (λ (a : RaidBlock). kind a.location) one_block ∙ e'),
  stand_apart blocks k l i js differ (b, at, e) all,
)

-- Blocks of different kinds are different blocks.
pub kinds_apart :
    (blocks : List RaidBlock) (k l : ℕ) (is js : List ℕ)
    → ¬ (k ≡ l)
    → All (Stands blocks k) is
    → All (Stands blocks l) js
    → All (Misses js) is
kinds_apart blocks k l [] js differ all others = tt
kinds_apart blocks k l (i ∷ is) js differ (s, all) others =
    (stand_apart blocks k l i js differ s others, kinds_apart blocks k l is js differ all others)

-- Each list that is restored holds blocks of its kind, each once, and only indices that were asked for.
pub record IsFiled (blocks : List RaidBlock) (indices : List ℕ) (p : Partition) : Type 0 where
  pub fresh : All (Stands blocks 0) p.fresh
  pub local : All (Stands blocks 1) p.local
  pub remote : All (Stands blocks 2) p.remote
  pub fresh_once : Distinct p.fresh
  pub local_once : Distinct p.local
  pub remote_once : Distinct p.remote
  pub within : (j : ℕ) → Misses indices j → Misses p.fresh j × Misses p.local j × Misses p.remote j

passed_over :
    {blocks : List RaidBlock} {rest : List ℕ} {p : Partition} (idx : ℕ) (already : List ℕ)
    → IsFiled blocks rest p
    → IsFiled blocks (idx ∷ rest) (record p { already = already })
passed_over idx already h = record {
  fresh = h.fresh;
  local = h.local;
  remote = h.remote;
  fresh_once = h.fresh_once;
  local_once = h.local_once;
  remote_once = h.remote_once;
  within = λ j n. h.within j n.1;
}

file_under-IsFiled :
    (blocks : List RaidBlock) (idx : ℕ) (rest : List ℕ) (p : Partition) (b : RaidBlock)
    (place : BlockLocation)
    → get_elem? blocks idx ≡ some b
    → b.location ≡ place
    → Misses rest idx
    → IsFiled blocks rest p
    → IsFiled blocks (idx ∷ rest) (file_under place idx p)
unfolding file_under
file_under-IsFiled blocks idx rest p b virgin at e m h = record {
  fresh = ((b, at, rw e refl), h.fresh);
  local = h.local;
  remote = h.remote;
  fresh_once = ((h.within idx m).0, h.fresh_once);
  local_once = h.local_once;
  remote_once = h.remote_once;
  within = λ j n. let (f, l, o) = h.within j n.1 in ((n.0, f), l, o);
}
file_under-IsFiled blocks idx rest p b (local_store _ _) at e m h = record {
  fresh = h.fresh;
  local = ((b, at, rw e refl), h.local);
  remote = h.remote;
  fresh_once = h.fresh_once;
  local_once = ((h.within idx m).1, h.local_once);
  remote_once = h.remote_once;
  within = λ j n. let (f, l, o) = h.within j n.1 in (f, (n.0, l), o);
}
file_under-IsFiled blocks idx rest p b (remote_kernel _ _ _) at e m h = record {
  fresh = h.fresh;
  local = h.local;
  remote = ((b, at, rw e refl), h.remote);
  fresh_once = h.fresh_once;
  local_once = h.local_once;
  remote_once = ((h.within idx m).2, h.remote_once);
  within = λ j n. let (f, l, o) = h.within j n.1 in (f, l, (n.0, o));
}
file_under-IsFiled blocks idx rest p b fetching at e m h = passed_over idx p.already h
file_under-IsFiled blocks idx rest p b resident at e m h = passed_over idx (idx ∷ p.already) h

pub partition-IsFiled :
    (blocks : List RaidBlock) (indices : List ℕ)
    → Distinct indices
    → IsFiled blocks indices (partition blocks indices)
unfolding partition
partition-IsFiled blocks [] d = record {
  fresh = tt;
  local = tt;
  remote = tt;
  fresh_once = tt;
  local_once = tt;
  remote_once = tt;
  within = λ j n. (tt, tt, tt);
}
partition-IsFiled blocks (idx ∷ rest) (m, d) =
    let h = partition-IsFiled blocks rest d in
    elim (Option-cases (get_elem? blocks idx)) [
      | inl e ↦ rw (e, partition) (passed_over idx (partition blocks rest).already h)
      | inr (b, e) ↦
          rw (e, partition)
            (file_under-IsFiled blocks idx rest (partition blocks rest) b b.location e refl m h)
    ]
