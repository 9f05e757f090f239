-- ===== src/Raid/Runs.antt =====
-- Any sequence of the calls of crates/trust-kernel/src/ram_raid.rs, from `new` on.
use spaceshuttle.Prelude.{
  ℕ, zero, suc, ◌*◌, ◌<◌, ◌≡◌, refl, sym, ap, ◌⊎◌, inl, inr, true, false, List, [], ◌∷◌, some,
  String, length, get_elem?, set, count_if, u64_mod, Option-cases, Bool-cases, if◌then◌else◌, add64,
  ltb,
}
use spaceshuttle.Raid.Types.{RaidBlock, EvictionResult}
use spaceshuttle.Raid.Config.{RaidConfig, block_count}
use spaceshuttle.Raid.Controller.{RamRaid, resides, new, virgin_blocks}
use spaceshuttle.Raid.Evict.{evict_coldest}
use spaceshuttle.Raid.Fault.{handle_fault, handle_fault_production}
use spaceshuttle.Raid.Workload.{
  written, touched, simulate_write, simulate_read, is_nothing, next_round, evict_rounds,
  proactive_evict,
}
use spaceshuttle.Raid.Moves.{
  Move, stay, enter, Moves, done, one, Moves-trans, LaidOut, IsValid, Moves-IsValid, Moves-config,
}
use spaceshuttle.Raid.Evictions.{Evicts, Evicts-Move, evict_coldest-Evicts}
use spaceshuttle.Raid.Faults.{handle_fault-Faults, Faults-Moves}
use spaceshuttle.Raid.Production.{handle_fault_production-Moves}

simulate_write-Moves : (r : RamRaid) (idx now_ns : ℕ) → Moves r (simulate_write r idx now_ns)
unfolding simulate_write
simulate_write-Moves r idx now_ns = elim (Option-cases (get_elem? r.blocks idx)) [
  | inl e ↦ rw (e, simulate_write) done
  | inr (b, e) ↦ rw (e, simulate_write) (one (write b e (Bool-cases (resides b))))
]
  where
    write :
        (b : RaidBlock)
        → get_elem? r.blocks idx ≡ some b
        → (resides b ≡ true) ⊎ (resides b ≡ false)
        → Move r (record r {
          blocks = set r.blocks idx (written b idx now_ns);
          resident_count = if resides b then r.resident_count else add64 r.resident_count 1;
        })
    write b e (inl h) =
        stay idx b (written b idx now_ns)
          (record { found = e; put = refl; place = (refl, refl, refl, refl); config_kept = refl })
          (rw h) (rw h)
    write b e (inr h) =
        enter idx b (written b idx now_ns)
          (record { found = e; put = refl; place = (refl, refl, refl, refl); config_kept = refl }) h
          refl (rw h)

module _ (sha256_hex : List ℕ → String) where
  pub simulate_read-Moves :
      (r : RamRaid) (idx now_ns : ℕ) → Moves r (simulate_read sha256_hex r idx now_ns).0
  unfolding simulate_read
  simulate_read-Moves r idx now_ns = elim (Option-cases (get_elem? r.blocks idx)) [
    | inl e ↦ rw (e, simulate_read) done
    | inr (b, e) ↦ elim (Bool-cases (resides b)) [
      | inl h ↦ rw (e, simulate_read) (rw h (one (touch b e)))
      | inr h ↦
          rw (e, simulate_read)
            (rw h
              (Faults-Moves (handle_fault-Faults sha256_hex r (idx * r.config.block_size) now_ns)))
    ]
  ]
    where
      touch :
          (b : RaidBlock)
          → get_elem? r.blocks idx ≡ some b
          → Move r (record r { blocks = set r.blocks idx (touched b now_ns) })
      touch b e =
          stay idx b (touched b now_ns)
            (record { found = e; put = refl; place = (refl, refl, refl, refl); config_kept = refl })
            refl refl

  next_round-Moves :
      (rest : RamRaid → RamRaid × List EvictionResult) (r : RamRaid)
      → ((s : RamRaid) → Moves s (rest s).0)
      → (evicted : RamRaid × EvictionResult) → Evicts r evicted
      → Moves r (next_round rest evicted).0
  unfolding next_round
  next_round-Moves rest r go (s, result) out = elim (Bool-cases (is_nothing result)) [
    | inl h ↦ rw (h, next_round) (one (Evicts-Move out))
    | inr h ↦ rw (h, next_round) (Moves-trans (one (Evicts-Move out)) (go s))
  ]

  evict_rounds-Moves : (n : ℕ) (r : RamRaid) → Moves r (evict_rounds sha256_hex n r).0
  unfolding evict_rounds
  evict_rounds-Moves zero r = done
  evict_rounds-Moves (suc n) r =
      next_round-Moves (evict_rounds sha256_hex n) r (evict_rounds-Moves n)
        (evict_coldest sha256_hex r) (evict_coldest-Evicts sha256_hex r)

  pub proactive_evict-Moves : (r : RamRaid) → Moves r (proactive_evict sha256_hex r).0
  unfolding proactive_evict
  proactive_evict-Moves r =
      elim (Bool-cases (ltb (4 * r.resident_count) (3 * r.config.max_resident_blocks))) [
        | inl h ↦ rw h done
        | inr h ↦ rw h (evict_rounds-Moves _ r)
      ]

-- The calls, with the clock that each reads.
pub data Call : Type 0 where
  fault production_fault read write : ℕ → ℕ → Call
  evict proactive : Call

unfoldable pub step : (List ℕ → String) → RamRaid → Call → RamRaid
unfolding handle_fault handle_fault_production simulate_read simulate_write evict_coldest
    proactive_evict
step sha256_hex r (fault addr now_ns) = (handle_fault sha256_hex r addr now_ns).0
step sha256_hex r (production_fault addr now_ns) =
    (handle_fault_production sha256_hex r addr now_ns).0
step sha256_hex r (read idx now_ns) = (simulate_read sha256_hex r idx now_ns).0
step sha256_hex r (write idx now_ns) = simulate_write r idx now_ns
step sha256_hex r evict = (evict_coldest sha256_hex r).0
step sha256_hex r proactive = (proactive_evict sha256_hex r).0

unfoldable pub run : (List ℕ → String) → RamRaid → List Call → RamRaid
unfolding step
run sha256_hex r [] = r
run sha256_hex r (c ∷ cs) = run sha256_hex (step sha256_hex r c) cs

module _ (sha256_hex : List ℕ → String) where
  step-Moves : (r : RamRaid) (c : Call) → Moves r (step sha256_hex r c)
  unfolding step
  step-Moves r (fault addr now_ns) = Faults-Moves (handle_fault-Faults sha256_hex r addr now_ns)
  step-Moves r (production_fault addr now_ns) =
      handle_fault_production-Moves sha256_hex r addr now_ns
  step-Moves r (read idx now_ns) = simulate_read-Moves sha256_hex r idx now_ns
  step-Moves r (write idx now_ns) = simulate_write-Moves r idx now_ns
  step-Moves r evict = one (Evicts-Move (evict_coldest-Evicts sha256_hex r))
  step-Moves r proactive = proactive_evict-Moves sha256_hex r

  pub run-Moves : (r : RamRaid) (cs : List Call) → Moves r (run sha256_hex r cs)
  unfolding run
  run-Moves r [] = done
  run-Moves r (c ∷ cs) = Moves-trans (step-Moves r c) (run-Moves (step sha256_hex r c) cs)

virgin_blocks-LaidOut : (size i n : ℕ) → LaidOut size i (virgin_blocks size i n)
unfolding virgin_blocks
virgin_blocks-LaidOut size i zero = tt
virgin_blocks-LaidOut size i (suc n) =
    ((refl, refl, refl, refl), virgin_blocks-LaidOut size (suc i) n)

count-virgin_blocks : (size i n : ℕ) → count_if resides (virgin_blocks size i n) ≡ 0
unfolding virgin_blocks
count-virgin_blocks size i zero = refl
count-virgin_blocks size i (suc n) = count-virgin_blocks size (suc i) n

length-virgin_blocks : (size i n : ℕ) → length (virgin_blocks size i n) ≡ n
unfolding virgin_blocks
length-virgin_blocks size i zero = refl
length-virgin_blocks size i (suc n) = ap suc (length-virgin_blocks size (suc i) n)

-- A new controller is well-formed, if its block size is not 0 and its block count is a `u64`.
pub new-IsValid : (c : RaidConfig) → 0 < c.block_size → block_count c < u64_mod → IsValid (new c)
unfolding new
new-IsValid c positive fits = record {
  positive = positive;
  fits = rw (length-virgin_blocks c.block_size 0 (block_count c)) fits;
  counted = sym (count-virgin_blocks c.block_size 0 (block_count c));
  laid_out = virgin_blocks-LaidOut c.block_size 0 (block_count c);
}

-- If the block size is not 0 and the number of blocks is a `u64`: after any sequence of faults,
-- production faults, reads, writes and evictions on a new controller, the resident count is the
-- number of resident blocks, block `i` still has index `i` and stands at `i * block_size` on the
-- stripe of its parity, and the configuration is unchanged.
pub run-new-IsValid :
    (sha256_hex : List ℕ → String) (c : RaidConfig) (cs : List Call)
    → 0 < c.block_size
    → block_count c < u64_mod
    → let r = run sha256_hex (new c) cs in IsValid r × (r.config ≡ c)
unfolding new
run-new-IsValid sha256_hex c cs positive fits =
    let moves = run-Moves sha256_hex (new c) cs in
    (Moves-IsValid moves (new-IsValid c positive fits), Moves-config moves)
