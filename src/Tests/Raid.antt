-- ===== src/Tests/Raid.antt =====
-- The RAM RAID theorems at concrete controllers (crates/trust-kernel/src/ram_raid.rs).
use spaceshuttle.Prelude.{
  ◌≤◌, ◌≡◌, refl, List, [], ◌∷◌, some, arith, length, set, get_elem?, add64, count_if,
}
use spaceshuttle.Cluster.BlockStore
use spaceshuttle.Cluster.MuxClient.{ClusterMuxClient, err}
use spaceshuttle.Raid.Types.{
  RaidBlock, remote_kernel, restored_remote, evicted_then_restored, evicted_remote,
  already_resident, zero_filled,
}
use spaceshuttle.Raid.Config.{RaidConfig, block_count}
use spaceshuttle.Raid.Simulated.{simulate_sha256, simulate_zstd_compress}
use spaceshuttle.Raid.Controller.{RamRaid, resides, virgin_block, new, with_mux_transport}
use spaceshuttle.Raid.Evict.{
  find_coldest, evict_coldest, simulated_data, evict_dirty, goes_remote, drop_clean,
}
use spaceshuttle.Raid.Restore.{restore_block, restore_block_inner, brought_in}
use spaceshuttle.Raid.Fault.{handle_fault, handle_fault_production}
use spaceshuttle.Raid.Workload.{written}
use spaceshuttle.Raid.Moves.{IsValid}
use spaceshuttle.Raid.Evictions.{Evicts, evict_coldest-Evicts}
use spaceshuttle.Raid.Restores.{IsResident}
use spaceshuttle.Raid.Faults.{
  handle_fault-le-max, handle_fault-IsResident, handle_fault_masks_failure,
}
use spaceshuttle.Raid.Production.{handle_fault_production_overcommits}
use spaceshuttle.Raid.Runs.{
  Call, fault, production_fault, read, write, evict, proactive, run, run-new-IsValid,
}
use spaceshuttle.Raid.RoundTrip.{over_store, sent_block, evict-restore}
use spaceshuttle.Raid.Batch.{simulate_read_batch, prefetch}
use spaceshuttle.Raid.ReadBatch.{simulate_read_batch-IsValid}
use spaceshuttle.Raid.BatchEvicted.{simulate_read_batch_evicts_own}
use spaceshuttle.Raid.LostBlock.{ZerosInjected, round_trip-zeros}

-- Four blocks of four bytes, two of them resident at most, and a remote RAM B.
abbrev small : RaidConfig
small = record {
  arena_size = 16;
  block_size = 4;
  max_resident_blocks = 2;
  ram_b_endpoint = some "10.0.0.2:4432";
  ram_b_kernel_id = some "dl360";
  from_aint = "p520.aint";
}

-- A link that answers nothing.
abbrev dead_link : ClusterMuxClient
dead_link = record {
  fetch_block = λ _ _ _. err "Connect";
  store_block = λ _ _ _ _ _ _. err "Connect";
}

abbrev history : List Call
history =
    write 0 10
    ∷ write 1 20
    ∷ fault 8 30
    ∷ read 1 40
    ∷ production_fault 12 50
    ∷ evict
    ∷ proactive
    ∷ []

-- Blocks 0 and 1 were written, 1 twice.
abbrev crowded : RamRaid
crowded = run simulate_sha256 (new small) (write 0 10 ∷ write 1 20 ∷ write 1 30 ∷ [])

run-new-IsValid_example :
    let r = run simulate_sha256 (new small) history in IsValid r × (r.config ≡ small)
unfolding block_count
run-new-IsValid_example = run-new-IsValid simulate_sha256 small history (omega arith) (omega arith)

history_counts : (run simulate_sha256 (new small) history).resident_count ≡ 1
unfolding run new
history_counts = refl

crowded-IsValid : IsValid crowded
unfolding block_count
crowded-IsValid =
    (run-new-IsValid simulate_sha256 small (write 0 10 ∷ write 1 20 ∷ write 1 30 ∷ []) (omega arith)
      (omega arith)).0

handle_fault-IsResident_example : IsResident (handle_fault simulate_sha256 (new small) 8 40).0 2
unfolding handle_fault new
handle_fault-IsResident_example = handle_fault-IsResident simulate_sha256 (new small) 8 40 refl

coldest_is_zero : find_coldest crowded.blocks 3 ≡ some 0
unfolding find_coldest run new
coldest_is_zero = refl

evict_coldest-Evicts_example : Evicts crowded (evict_coldest simulate_sha256 crowded)
evict_coldest-Evicts_example = evict_coldest-Evicts simulate_sha256 crowded

-- Block 3 lies on RAM B, and the link is dead.
abbrev stranded_block : RaidBlock
stranded_block = record (virgin_block 4 3) {
  location = remote_kernel "dl360" "10.0.0.2:4432" "raid_fork_remote_0";
}

abbrev stranded : RamRaid
stranded =
    with_mux_transport (record crowded { blocks = set crowded.blocks 3 stranded_block }) dead_link

handle_fault_masks_failure_example :
    ((handle_fault simulate_sha256 stranded 12 50).1 ≡ evicted_then_restored 0 3)
    × (¬ IsResident (handle_fault simulate_sha256 stranded 12 50).0 3)
unfolding handle_fault with_mux_transport run new
handle_fault_masks_failure_example =
    handle_fault_masks_failure simulate_sha256 stranded 12 50 0 (omega arith) (omega arith) refl
      refl

-- Both residents are dirty blocks of RAM B, which cannot be reached.
abbrev stuck_calls : List Call
stuck_calls = write 1 10 ∷ write 3 20 ∷ []

abbrev stuck : RamRaid
stuck = with_mux_transport (run simulate_sha256 (new small) stuck_calls) dead_link

stuck-IsValid : IsValid stuck
unfolding with_mux_transport block_count
stuck-IsValid =
    let (v, _) = run-new-IsValid simulate_sha256 small stuck_calls (omega arith) (omega arith) in
    record { positive = v.positive; fits = v.fits; counted = v.counted; laid_out = v.laid_out }

handle_fault_production_overcommits_example :
    (handle_fault_production simulate_sha256 stuck 0 50).0.resident_count ≡ 3
unfolding handle_fault_production with_mux_transport run new
handle_fault_production_overcommits_example =
    handle_fault_production_overcommits simulate_sha256 stuck 0 50 (virgin_block 4 0) stuck-IsValid
      refl refl refl refl

-- Block 1 as it stands in `crowded`.
abbrev hot_block : RaidBlock
hot_block = written (written (virgin_block 4 1) 1 20) 1 30

evict-restore_example :
    let (s, evicted) =
      evict_dirty simulate_sha256 (over_store crowded BlockStore.new) 1 hot_block in
    let (t, restored) = restore_block simulate_sha256 s 1 60 in
    (evicted ≡ evicted_remote 1 (length (simulate_zstd_compress (simulated_data hot_block))))
    × (restored ≡ restored_remote 1)
    × (get_elem? t.blocks 1 ≡ some (brought_in (sent_block simulate_sha256 crowded hot_block) 60))
    × (t.bytes_decompressed ≡ add64 crowded.bytes_decompressed hot_block.size)
unfolding run new written
evict-restore_example =
    evict-restore simulate_sha256 crowded BlockStore.new 1 60 hot_block refl
      (unfold goes_remote in refl)

round_trip-zeros_example :
    let s = (evict_dirty simulate_sha256 (over_store crowded BlockStore.new) 1 hot_block).0 in
    let t = (restore_block simulate_sha256 s 1 60).0 in
    let u = (drop_clean t 1 (brought_in (sent_block simulate_sha256 crowded hot_block) 60)).0 in
    ZerosInjected 1 4 (restore_block_inner simulate_sha256 u 1 70)
unfolding run new written
round_trip-zeros_example =
    round_trip-zeros simulate_sha256 crowded BlockStore.new 1 60 70 hot_block refl
      (unfold goes_remote in refl)

handle_fault-le-max_example : (handle_fault simulate_sha256 crowded 8 40).0.resident_count ≤ 2
unfolding run new
handle_fault-le-max_example =
    handle_fault-le-max simulate_sha256 crowded 8 40 crowded-IsValid (omega arith)

simulate_read_batch-IsValid_example :
    let s = (simulate_read_batch simulate_sha256 crowded (0 ∷ 2 ∷ 3 ∷ []) 60).0 in
    let t = (prefetch simulate_sha256 crowded (0 ∷ 2 ∷ 3 ∷ []) 60).0 in
    IsValid s × (s.config ≡ crowded.config) × IsValid t × (t.config ≡ crowded.config)
simulate_read_batch-IsValid_example =
    simulate_read_batch-IsValid simulate_sha256 crowded (0 ∷ 2 ∷ 3 ∷ []) 60 crowded-IsValid
      ((λ e. omega arith, (λ e. omega arith, tt)), ((λ e. omega arith, tt), (tt, tt)))

-- Block 0 as it stands in `crowded`, and a batch that asks for it and for the virgin block 2.
simulate_read_batch_evicts_own_example :
    let t = simulate_read_batch simulate_sha256 crowded (0 ∷ 2 ∷ []) 60 in
    (t.1 ≡ already_resident 0 ∷ zero_filled 2 ∷ []) × (¬ IsResident t.0 0)
unfolding evict_coldest run new written
simulate_read_batch_evicts_own_example =
    simulate_read_batch_evicts_own simulate_sha256 crowded 0 2 60 (written (virgin_block 4 0) 0 10)
      (virgin_block 4 2) refl refl refl refl (omega arith) refl

-- A virgin block that is asked for twice is counted twice.
twice_counted_test :
    let s = (simulate_read_batch simulate_sha256 (new small) (2 ∷ 2 ∷ []) 60).0 in
    (s.resident_count ≡ 2) × (count_if resides s.blocks ≡ 1)
unfolding simulate_read_batch new
twice_counted_test = (refl, refl)
