-- ===== src/Pager/Types.antt =====
-- crates/trust-kernel/src/upip_pager.rs: fork tokens, results, and the pager's state.
-- Durations, timestamps and utilisation in per cent, which nothing reads, are left out.
use spaceshuttle.Prelude.{ℕ, List, [], Bool, true, false, Option, String}

pub data ChunkStorage : Type 0 where
  -- path
  archivaris : String → ChunkStorage
  -- commit_hash
  git_store : String → ChunkStorage
  -- kernel_id, endpoint
  remote_kernel : String → String → ChunkStorage
  in_transit : ChunkStorage

pub data ForkTokenState : Type 0 where
  creating : ForkTokenState
  paged_out : ForkTokenState
  paging_in : ForkTokenState
  paged_in : ForkTokenState
  consumed : ForkTokenState
  -- reason
  invalid : String → ForkTokenState

abbrev pub is_consumed : ForkTokenState → Bool
is_consumed creating = false
is_consumed paged_out = false
is_consumed paging_in = false
is_consumed paged_in = false
is_consumed consumed = true
is_consumed (invalid _) = false

abbrev pub is_invalid : ForkTokenState → Bool
is_invalid creating = false
is_invalid paged_out = false
is_invalid paging_in = false
is_invalid paged_in = false
is_invalid consumed = false
is_invalid (invalid _) = true

abbrev pub is_paged_out : ForkTokenState → Bool
is_paged_out creating = false
is_paged_out paged_out = true
is_paged_out paging_in = false
is_paged_out paged_in = false
is_paged_out consumed = false
is_paged_out (invalid _) = false

pub record ForkToken : Type 0 where
  pub id : String
  pub chunk_seq : ℕ
  pub total_chunks : Option ℕ
  pub intent : String
  pub from_aint : String
  pub bus_seq : ℕ
  pub memory_offset : ℕ
  pub raw_size : ℕ
  pub compressed_size : ℕ
  pub content_hash : String
  pub compressed_hash : String
  pub ed25519_seal : String
  pub tibet_token_id : String
  pub storage : ChunkStorage
  pub state : ForkTokenState
  pub access_count : ℕ

pub data PressureLevel : Type 0 where
  normal : PressureLevel
  -- chunks_to_free
  elevated : ℕ → PressureLevel
  critical : ℕ → PressureLevel
  -- over_budget_bytes
  exhausted : ℕ → PressureLevel
  -- A division by a chunk size of 0.
  pressure_panicked : PressureLevel

pub data PageOutResult : Type 0 where
  -- token, bytes_freed
  page_out_success : ForkToken → ℕ → PageOutResult
  not_needed : PressureLevel → PageOutResult
  -- reason
  page_out_failed : String → PageOutResult

pub data PageInResult : Type 0 where
  -- token_id, bytes_restored, memory_offset
  page_in_success : String → ℕ → ℕ → PageInResult
  -- token_id, expected_hash, actual_hash
  integrity_violation : String → String → String → PageInResult
  token_not_found : String → PageInResult
  already_consumed : String → PageInResult

pub data AssembleResult : Type 0 where
  -- total_chunks, total_bytes, all_verified
  complete : ℕ → ℕ → Bool → AssembleResult
  -- present, missing
  incomplete : ℕ → List ℕ → AssembleResult
  -- failed_chunk, reason
  integrity_broken : ℕ → String → AssembleResult

pub record UpipPager : Type 0 where
  pub tokens : List ForkToken
  pub chunk_size : ℕ
  pub next_token_id : ℕ
  pub pages_out : ℕ
  pub pages_in : ℕ
  pub bytes_paged_out : ℕ
  pub bytes_paged_in : ℕ
  pub integrity_violations : ℕ
  pub remote_continuations : ℕ

unfoldable pub new : ℕ → UpipPager
new chunk_size = record {
  tokens = [];
  chunk_size = chunk_size;
  next_token_id = 0;
  pages_out = 0;
  pages_in = 0;
  bytes_paged_out = 0;
  bytes_paged_in = 0;
  integrity_violations = 0;
  remote_continuations = 0;
}
