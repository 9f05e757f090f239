-- ===== src/Raid/ReadBatch.antt =====
-- Batches of reads (crates/trust-kernel/src/ram_raid.rs: `simulate_read_batch`, `prefetch`) and the
-- well-formed table.
use spaceshuttle.Prelude.{
  ℕ, ◌≡◌, refl, List, [], ◌∷◌, String, inl, inr, Option-cases, Bool-cases, arith, get_elem?,
}
use spaceshuttle.Raid.Controller.{RamRaid, resides}
use spaceshuttle.Raid.Restore.{restore_block}
use spaceshuttle.Raid.Batch.{
  partition, each, touch_one, fill_one, make_room, need_slots, simulate_read_batch, to_prefetch,
  prefetch,
}
use spaceshuttle.Raid.Moves.{Moves-trans, IsValid, Moves-IsValid, Moves-config}
use spaceshuttle.Raid.BatchSteps.{Misses, Distinct, Spares, carry, each-Spares}
use spaceshuttle.Raid.Partitions.{Stands-Away, kinds_apart, partition-IsFiled}
use spaceshuttle.Raid.BatchLoops.{
  nothing_listed, then_all, unmoved, touches-Spares, make_room-Spares, fill_one-Restores,
}
use spaceshuttle.Raid.BatchRemote.{restores-Spares, batch_remote-Spares}

module _ (sha256_hex : List ℕ → String) where
  -- The indices that are left to prefetch are some of those given, each as often.
  to_prefetch-Misses :
      (r : RamRaid) (indices : List ℕ) (j : ℕ)
      → Misses indices j
      → Misses (to_prefetch sha256_hex r.blocks indices) j
  unfolding to_prefetch
  to_prefetch-Misses r [] j m = tt
  to_prefetch-Misses r (idx ∷ rest) j (n, m) =
      let others = to_prefetch-Misses r rest j m in
      elim (Option-cases (get_elem? r.blocks idx)) [
        | inl e ↦ rw (e, to_prefetch) others
        | inr (b, e) ↦ elim (Bool-cases (resides b)) [
          | inl t ↦ rw (e, to_prefetch) (rw t others)
          | inr f ↦ rw (e, to_prefetch) (rw f (n, others))
        ]
      ]

  to_prefetch-Distinct :
      (r : RamRaid) (indices : List ℕ)
      → Distinct indices
      → Distinct (to_prefetch sha256_hex r.blocks indices)
  unfolding to_prefetch
  to_prefetch-Distinct r [] d = tt
  to_prefetch-Distinct r (idx ∷ rest) (m, d) =
      let others = to_prefetch-Distinct r rest d in
      elim (Option-cases (get_elem? r.blocks idx)) [
        | inl e ↦ rw (e, to_prefetch) others
        | inr (b, e) ↦ elim (Bool-cases (resides b)) [
          | inl t ↦ rw (e, to_prefetch) (rw t others)
          | inr f ↦ rw (e, to_prefetch) (rw f (to_prefetch-Misses r rest idx m, others))
        ]
      ]

  simulate_read_batch-Spares :
      (r : RamRaid) (indices : List ℕ) (now_ns : ℕ)
      → Distinct indices
      → Spares indices r (simulate_read_batch sha256_hex r indices now_ns).0
  unfolding simulate_read_batch
  simulate_read_batch-Spares r indices now_ns d =
      let p = partition r.blocks indices in
      let h = partition-IsFiled r.blocks indices d in
      let r₀ = make_room sha256_hex (need_slots sha256_hex r p) r in
      let r₁ = (each (touch_one now_ns) r₀ p.already).0 in
      let r₂ = (each (fill_one now_ns) r₁ p.fresh).0 in
      let r₃ = (each (λ s idx. restore_block sha256_hex s idx now_ns) r₂ p.local).0 in
      let to₁ : Spares [] r r₁ =
        then_all [] r r₀ r₁ (make_room-Spares sha256_hex (need_slots sha256_hex r p) r)
          (touches-Spares now_ns p.already r₀) in
      let to₂ : Spares p.fresh r₁ r₂ =
        each-Spares (fill_one now_ns)
          (λ s idx b at out. fill_one-Restores sha256_hex now_ns s idx b at out) p.fresh r₁
          h.fresh_once
          (carry [] p.fresh r r₁ to₁ (nothing_listed p.fresh)
            (Stands-Away r 0 p.fresh (omega arith) h.fresh)) in
      let upto₂ = then_all p.fresh r r₁ r₂ to₁ to₂ in
      let to₃ : Spares p.local r₂ r₃ = restores-Spares sha256_hex now_ns p.local r₂ h.local_once (
        carry p.fresh p.local r r₂ upto₂
          (kinds_apart r.blocks 1 0 p.local p.fresh (λ e. omega arith) h.local h.fresh)
          (Stands-Away r 1 p.local (omega arith) h.local)) in
      let to₄ = batch_remote-Spares sha256_hex now_ns p.remote r₃ h.remote_once (
        carry p.local p.remote r₂ r₃ to₃
          (kinds_apart r.blocks 2 1 p.remote p.local (λ e. omega arith) h.remote h.local)
          (carry p.fresh p.remote r r₂ upto₂
            (kinds_apart r.blocks 2 0 p.remote p.fresh (λ e. omega arith) h.remote h.fresh)
            (Stands-Away r 2 p.remote (omega arith) h.remote))) in
      record {
        moves = Moves-trans upto₂.moves (Moves-trans to₃.moves to₄.moves);
        spared = λ j m a.
            let (f, l, o) = h.within j m in to₄.spared j o (to₃.spared j l (upto₂.spared j f a));
      }

  prefetch_found :
      (r : RamRaid) (indices found : List ℕ) (now_ns : ℕ)
      → to_prefetch sha256_hex r.blocks indices ≡ found
      → Distinct found
      → Spares found r (prefetch sha256_hex r indices now_ns).0
  unfolding prefetch
  prefetch_found r indices [] now_ns e d = simp (prefetch, e) (unmoved [] r)
  prefetch_found r indices (idx ∷ rest) now_ns e d =
      simp (prefetch, e) (simulate_read_batch-Spares r (idx ∷ rest) now_ns d)

  -- A batch of reads of distinct indices, and a prefetch of them, keep a well-formed table
  -- well-formed and its configuration unchanged, whatever the client or the block store answers:
  -- the resident count stays the number of resident blocks.
  pub simulate_read_batch-IsValid :
      (r : RamRaid) (indices : List ℕ) (now_ns : ℕ)
      → IsValid r
      → Distinct indices
      → let s = (simulate_read_batch sha256_hex r indices now_ns).0 in
        let t = (prefetch sha256_hex r indices now_ns).0 in
        IsValid s × (s.config ≡ r.config) × IsValid t × (t.config ≡ r.config)
  simulate_read_batch-IsValid r indices now_ns valid d =
      let batch = (simulate_read_batch-Spares r indices now_ns d).moves in
      let found =
        (prefetch_found r indices (to_prefetch sha256_hex r.blocks indices) now_ns refl
          (to_prefetch-Distinct r indices d)).moves in
      (Moves-IsValid batch valid, Moves-config batch, Moves-IsValid found valid, Moves-config found)
