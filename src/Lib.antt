-- ===== src/Lib.antt =====
-- Spaceshuttle: a verification library of the trust kernel (crates/trust-kernel).
--
-- The program pages memory between two machines, encrypts the blocks it moves, and screens every request
-- before it reaches the archive. Its parts, and the files here that model them:
--
-- * RAM RAID controller (crates/trust-kernel/src/ram_raid.rs) - Raid. The block table with even blocks on RAM
--   A and odd ones on RAM B. Raid/Types and Raid/Config hold the data, Raid/Controller the state
--   (`RamRaidController` is `RamRaid`), Raid/Simulated the hash and the compression that the code simulates.
--   `evict_coldest` stands in Raid/Evict, split at its early returns; `restore_block` and
--   `restore_block_inner` in Raid/Restore; `handle_fault` and `handle_fault_production` in Raid/Fault; the
--   reads, writes and proactive evictions in Raid/Workload; batch reads and prefetch in Raid/Batch, with
--   BatchSteps, Partitions, BatchLoops, BatchRemote and ReadBatch about them, and BatchEvicted about one that
--   evicts what it reports. A call takes the state and gives the next one with its result. Atomic counters
--   wrap at 2 ^ 64. An index out of bounds, where the code would panic, is a result of its own.
-- * Block store and cluster MUX (crates/trust-kernel/src/cluster_transport.rs, cluster_mux.rs) - Cluster. The
--   store behind RAM B is an association list with counters (BlockStore). Frames holds the frames and the
--   streaming read of a payload, HashCache the client's cache, Server the loop of `handle_mux_connection`,
--   Client `ping`, `fetch_block` and `store_block`, Batch `fetch_batch`. A connection is a sequence of frames
--   with their payloads; JSON and sockets are left out. That holds as long as each payload is as long as its
--   frame announces, which is what both sides send; where one is not, the model says out_of_step or unframed,
--   and does not follow the bytes of later frames into it. The reading of a payload itself (HashCache,
--   Streaming) takes the stream of all bytes that still come before the connection ends, and gives back the
--   rest; Verdict is about it. A read that waits for ever is not modelled: a read with nothing left to come is
--   one whose connection ended. Spec is the map that a client sees. The RAID controller takes the client as a
--   pair of functions (MuxClient), since it has to cope with any link.
-- * Pager (crates/trust-kernel/src/upip_pager.rs) - Pager. Fork tokens and results (Types), the operations on
--   one token (Paging), and `page_out_bulk`, `assemble` and the reports (Bulk). Its simulated hash and
--   compression are those of the RAID controller, so they are taken from Raid/Simulated.
-- * Snapshot engine (crates/trust-kernel/src/snapshot.rs) - Snapshot. Engine captures a region and names its
--   file, Archive writes the .tza blob and reads its header. A header's text is kept as its bytes.
-- * Recovery (crates/trust-kernel/src/recovery.rs) - Recovery. Index is the catalogue: register, the search by
--   a strategy and the sums; Engine tries the strategies in their order (attempt is the loop of recover).
--   Order is about the catalogue's order, Choice about the searches, Best about a recovery with the default
--   strategies.
-- * Zandbak (crates/trust-kernel/src/zandbak.rs) - Zandbak. Region holds the budgets by intent, the region of
--   a sandbox, its allocations and zerofills; Runs is about any calls on a region.
-- * LLM memory mapper (crates/trust-kernel/src/llm_mapper.rs) - Mapper. Manifest lays out a model, Aperture is
--   the mapper over the RAID controller and the loading of one block, Layers loads and prefetches, Inference
--   evicts and runs all layers. Steps, Loads and Queue are about the steps of a run, Budget, Tail and Sizes
--   about its bounds, the blocks it passes over, and the sizes in a manifest.
-- * Airlock bifurcation (crates/trust-kernel/src/bifurcation.rs) - Bifurcation. Claims and clearance levels
--   (Types), the key cache (KeyCache), session keys (Session), sealing and opening (Airlock; `open` is
--   `open_block`), batches (Batch), and the functions without cache and session (Parallel). X25519, HKDF,
--   AES-GCM and SHA-256 are the record `Crypto`, with two laws in `IsLawful`: both sides of an exchange agree,
--   and a ciphertext decrypts under its own key and nonce. What a call draws from the random generators and
--   the clocks is its argument, a `Moment`.
-- * Live migration (crates/trust-kernel/src/bifurcation.rs) - Migration. The dirty bitmap, the sync round, its
--   hash and the phases.
-- * Kernel A and the bus (crates/trust-kernel/src/voorproever.rs, snaft.rs, bus.rs, watchdog.rs) - Kernel.
--   Screening of a frame by its intent and the patterns in its payload, the bus that numbers what passed, and
--   the watchdog that fires when Kernel A does not answer. Times are arguments.
-- * Kernel B (crates/trust-kernel/src/archivaris.rs, tibet_token.rs) - Archive. Token mints the tokens,
--   Archivaris takes a payload from the bus through its checks into the archive (process), Vault stores data
--   as blocks of the airlock. Growth is about any calls, RoundTrip about the vault, Passage about a frame's
--   way from Kernel A.
-- * Packet filter (crates/trust-kernel/src/xdp.rs) - Xdp. Parse reads the headers of raw bytes, Liquidator
--   gives the verdict in the order of the code's tests and counts it.
--
-- How they interact: the controller evicts blocks to the block store, directly or through the client, and
-- checks what comes back against the hash it recorded. Kernel A stamps a payload on the bus and tells the
-- watchdog that it answered; both are part of its state here, where the code shares them.
--
-- Loops over the table, over patterns, blocks and rounds are structural recursion on the list or the count, so
-- they need no fuel, but for three: the printing of a number in decimal, bounded by its value plus one, which
-- is enough since each step divides by ten; the reading of a payload in chunks, bounded by its size; and
-- `page_out_bulk`, whose bound is an argument. Floating-point tests are written as the exact comparisons they
-- come to on the sizes that their comments name. Durations in results are left out.
--
-- Not modelled: userfaultfd, mmap and the threads around them, the sockets of the MUX and overlay transports,
-- hardware random numbers and cache partitioning, seccomp, port classification, the git store, the Android
-- kernel, and the command-line programs, benchmarks and demonstrations.
--
-- Prelude passes on the library's names with lists, 64-bit words and text over native numbers. Tests holds the
-- theorems at concrete inputs.
pub mod Prelude
pub mod Archive
pub mod Bifurcation
pub mod Cluster
pub mod Kernel
pub mod Mapper
pub mod Migration
pub mod Pager
pub mod Raid
pub mod Recovery
pub mod Snapshot
pub mod Xdp
pub mod Zandbak
pub mod Tests
