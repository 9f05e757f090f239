-- ===== src/Raid/Evictions.antt =====
-- What `evict_coldest` (crates/trust-kernel/src/ram_raid.rs) does to the block table, on every branch.
use spaceshuttle.Prelude.{
  ℕ, suc, ◌+◌, ◌≡◌, refl, true, false, List, inl, inr, Option, none, some, String, arith, is_some,
  length, get_elem?, ◌==◌, set, add64, if◌then◌else◌, Bool-cases, sub64,
}
use spaceshuttle.Cluster.BlockStore.{BlockStore}
use spaceshuttle.Cluster.MuxClient.{ClusterMuxClient, MuxResult, ok, err}
use spaceshuttle.Raid.Types.{RaidBlock, EvictionResult, nothing_to_evict}
use spaceshuttle.Raid.Controller.{RamRaid, resides}
use spaceshuttle.Raid.Evict.{
  find_coldest, drop_clean, goes_remote, evict_over_mux, evict_remote, evict_dirty, evict_block,
  evict_coldest,
}
use spaceshuttle.Raid.Fault.{freed}
use spaceshuttle.Raid.Coldest.{IsColdest, find_coldest-IsColdest}
use spaceshuttle.Raid.Moves.{
  SamePlace, Puts, Move, keep, leave, Moves-length, one, IsValid, count-pos, count-le,
}

-- The outcome of an eviction: block `b` at `idx` left its slot, or nothing was taken and the result
-- says so.
pub data Evicts (r : RamRaid) : RamRaid × EvictionResult → Type 0 where
  left :
      {s : RamRaid} {result : EvictionResult} (idx : ℕ) (b v : RaidBlock)
      → Puts r s idx b v
      → resides b ≡ true
      → resides v ≡ false
      → s.resident_count ≡ sub64 r.resident_count 1
      → freed result ≡ some idx
      → Evicts r (s, result)
  refused :
      {s : RamRaid} {result : EvictionResult}
      → s.config ≡ r.config
      → s.blocks ≡ r.blocks
      → s.resident_count ≡ r.resident_count
      → freed result ≡ none
      → Evicts r (s, result)

pub Evicts-Move : {r s : RamRaid} {result : EvictionResult} → Evicts r (s, result) → Move r s
Evicts-Move (left idx b v p e f n _) = leave idx b v p e f n
Evicts-Move (refused c b n _) = keep c b n

-- Every eviction that succeeds overwrites one resident block by one that is not.
left_by :
    {r s : RamRaid} {result : EvictionResult} (idx : ℕ) (b v : RaidBlock)
    → get_elem? r.blocks idx ≡ some b
    → resides b ≡ true
    → s.blocks ≡ set r.blocks idx v
    → SamePlace b v
    → s.config ≡ r.config
    → resides v ≡ false
    → s.resident_count ≡ sub64 r.resident_count 1
    → freed result ≡ some idx
    → Evicts r (s, result)
left_by idx b v at res put place config away count free =
    left idx b v (record { found = at; put = put; place = place; config_kept = config }) res away
      count free

module _ (sha256_hex : List ℕ → String) (r : RamRaid) (idx : ℕ) (b : RaidBlock)
    (at : get_elem? r.blocks idx ≡ some b) (res : resides b ≡ true) where
  drop_clean-Evicts : Evicts r (drop_clean r idx b)
  unfolding drop_clean
  drop_clean-Evicts = elim (Bool-cases (is_some b.content_hash)) [
    | inl h ↦ left_by idx b _ at res refl (refl, refl, refl, refl) refl (rw h) refl refl
    | inr h ↦ left_by idx b _ at res refl (refl, refl, refl, refl) refl (rw h) refl refl
  ]

  evict_over_mux-Evicts :
      (answer : MuxResult (Unit {0})) (seq : ℕ)
      → Evicts r
          (evict_over_mux sha256_hex answer (record r { bus_seq = add64 r.bus_seq 1 }) idx b seq)
  unfolding evict_over_mux
  evict_over_mux-Evicts (ok _) seq =
      left_by idx b _ at res refl (refl, refl, refl, refl) refl refl refl refl
  evict_over_mux-Evicts (err e) seq = refused refl refl refl refl

  evict_remote-Evicts :
      (mux : Option ClusterMuxClient) (store : Option BlockStore) (seq : ℕ)
      → Evicts r
          (evict_remote sha256_hex mux store (record r { bus_seq = add64 r.bus_seq 1 }) idx b seq)
  unfolding evict_remote
  evict_remote-Evicts (some client) store seq = evict_over_mux-Evicts _ seq
  evict_remote-Evicts none (some store) seq =
      left_by idx b _ at res refl (refl, refl, refl, refl) refl refl refl refl
  evict_remote-Evicts none none seq =
      left_by idx b _ at res refl (refl, refl, refl, refl) refl refl refl refl

  evict_dirty-Evicts : Evicts r (evict_dirty sha256_hex r idx b)
  unfolding evict_dirty
  evict_dirty-Evicts = elim (Bool-cases (goes_remote r b)) [
    | inl h ↦ rw h (evict_remote-Evicts r.mux_client r.local_block_store r.bus_seq)
    | inr h ↦ rw h (left_by idx b _ at res refl (refl, refl, refl, refl) refl refl refl refl)
  ]

  evict_found-Evicts :
      Evicts r (if b.dirty then evict_dirty sha256_hex r idx b else drop_clean r idx b)
  evict_found-Evicts =
      elim b.dirty
        as (λ d. Evicts r (if d then evict_dirty sha256_hex r idx b else drop_clean r idx b)) [
          | true ↦ evict_dirty-Evicts
          | false ↦ drop_clean-Evicts
        ]

  evict_block-Evicts : Evicts r (evict_block sha256_hex r idx)
  unfolding evict_block
  evict_block-Evicts = rw (at, evict_block) evict_found-Evicts

-- The clock of the scan plays no part in what an eviction does to the table.
Evicts-clock :
    (r : RamRaid) (clock : ℕ) {s : RamRaid} {result : EvictionResult}
    → Evicts (record r { lru_clock = clock }) (s, result)
    → Evicts r (s, result)
Evicts-clock r clock (left idx b v p e f n free) =
    left_by idx b v p.found e p.put p.place p.config_kept f n free
Evicts-clock r clock (refused c b n free) = refused c b n free

-- `evict_coldest` takes one resident block out of its slot and names it in its result, or it leaves
-- the table, the configuration and the resident count alone and its result names no block.
pub evict_coldest-Evicts :
    (sha256_hex : List ℕ → String) (r : RamRaid) → Evicts r (evict_coldest sha256_hex r)
unfolding evict_coldest
evict_coldest-Evicts sha256_hex r = elim (Bool-cases (length r.blocks == 0)) [
  | inl h ↦ rw h (refused refl refl refl refl)
  | inr h ↦
      rw h
        (chosen (find_coldest r.blocks r.lru_clock) (find_coldest-IsColdest r.blocks r.lru_clock))
]
  where
    chosen :
        (o : Option ℕ)
        → IsColdest r.blocks o
        → Evicts r (elim o [
          | none ↦ (r, nothing_to_evict)
          | some idx ↦ evict_block sha256_hex (record r { lru_clock = suc idx }) idx
        ])
    chosen none c = refused refl refl refl refl
    chosen (some idx) (b, at, res, least) =
        Evicts-clock r (suc idx)
          (evict_block-Evicts sha256_hex (record r { lru_clock = suc idx }) idx b at res)

-- The slots that an eviction freed: one or none.
abbrev pub slots : Option ℕ → ℕ
slots none = 0
slots (some idx) = 1

-- The resident count falls by exactly the slots that the result reports as freed.
pub Evicts-count :
    {r s : RamRaid} {result : EvictionResult}
    → IsValid r
    → Evicts r (s, result)
    → s.resident_count + slots (freed result) ≡ r.resident_count
Evicts-count {r} {s} {result} h (left idx b v p e f n free) =
    rw free (ground (arith, count-pos r s idx b v p e, count-le r, h.counted, h.fits))
Evicts-count {r} {s} {result} h (refused c b n free) = rw free (omega arith)

pub Evicts-length :
    {r s : RamRaid} {result : EvictionResult}
    → Evicts r (s, result)
    → length s.blocks ≡ length r.blocks
Evicts-length e = Moves-length (one (Evicts-Move e))
