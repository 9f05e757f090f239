-- ===== src/Pager/Bulk.antt =====
-- crates/trust-kernel/src/upip_pager.rs: `page_out_bulk`, `assemble` and the read-only operations.
use spaceshuttle.Prelude.{
  ℕ, zero, suc, ◌+◌, ◌-◌, ◌*◌, List, [], ◌∷◌, map, Option, none, some, String, Bool, true, false,
  not, ◌&&◌, leb, ◌==◌, if◌then◌else◌, is_some, str_eq, length, take, drop, count_if, sub64,
}
use spaceshuttle.Pager.Types.{
  is_consumed, is_invalid, is_paged_out, ForkToken, PageOutResult, PageInResult, page_in_success,
  integrity_violation, token_not_found, already_consumed, AssembleResult, complete, incomplete,
  integrity_broken, UpipPager,
}
use spaceshuttle.Pager.Paging.{page_out, page_in, consume, position}

abbrev pub with_result :
    PageOutResult
    → Option (UpipPager × List PageOutResult)
    → Option (UpipPager × List PageOutResult)
with_result result none = none
with_result result (some (p, results)) = some (p, result ∷ results)

module _ (intent from_aint : String) (bus_seq : ℕ) where
  -- `while offset < data.len()`, for at most `fuel` rounds: `rest` is the data from `offset` on, and `at` is
  -- base_offset + offset. Without rounds left and with data, the loop still runs: none.
  unfoldable pub bulk_rounds : ℕ → UpipPager → List ℕ → ℕ → Option (UpipPager × List PageOutResult)
  unfolding page_out
  bulk_rounds fuel p [] at = some (p, [])
  bulk_rounds zero p (x ∷ xs) at = none
  bulk_rounds (suc fuel) p (x ∷ xs) at =
      let chunk = take p.chunk_size (x ∷ xs) in
      let (p', result) = page_out p chunk at intent from_aint bus_seq in
      with_result result (bulk_rounds fuel p' (drop p.chunk_size (x ∷ xs)) (at + length chunk))

-- `if token.chunk_seq >= start_seq && token.total_chunks.is_none()`
abbrev pub tag : ℕ → ℕ → ForkToken → ForkToken
tag start_seq total token =
    if leb start_seq token.chunk_seq && not (is_some token.total_chunks)
    then record token { total_chunks = some total }
    else token

-- `next_token_id - total` wraps, as in a build without overflow checks.
unfoldable pub tag_all : UpipPager → List PageOutResult → UpipPager
tag_all p results =
    let total = length results in
    record p { tokens = map (tag (sub64 p.next_token_id total) total) p.tokens }

abbrev pub tagged :
    Option (UpipPager × List PageOutResult) → Option (UpipPager × List PageOutResult)
tagged none = none
tagged (some (p, results)) = some (tag_all p results, results)

unfoldable pub page_out_bulk :
    ℕ → UpipPager → List ℕ → ℕ → String → String → ℕ → Option (UpipPager × List PageOutResult)
unfolding bulk_rounds tag_all
page_out_bulk fuel p chunk_data base_offset intent from_aint bus_seq =
    tagged (bulk_rounds intent from_aint bus_seq fuel p chunk_data base_offset)

unfoldable pub belongs : String → ℕ → ForkToken → Bool
belongs intent bus_seq t =
    str_eq t.intent intent
    && (t.bus_seq == bus_seq)
    && not (is_consumed t.state)
    && not (is_invalid t.state)

-- `filter(..).map(|t| t.id.clone())`
unfoldable pub task_ids : String → ℕ → List ForkToken → List String
unfolding belongs
task_ids intent bus_seq [] = []
task_ids intent bus_seq (t ∷ ts) =
    let rest = task_ids intent bus_seq ts in if belongs intent bus_seq t then t.id ∷ rest else rest

-- `find(..).map(|t| t.chunk_seq).unwrap_or(0)`
abbrev pub seq_of : Option (ℕ × ForkToken) → ℕ
seq_of none = 0
seq_of (some at) = at.1.chunk_seq

-- What one chunk adds; `others` goes on with the rest, unless its seal is wrong.
abbrev pub after_page_in :
    String
    → ℕ
    → (UpipPager → ℕ → UpipPager × (AssembleResult))
    → UpipPager × PageInResult
    → UpipPager × AssembleResult
after_page_in id total_bytes others (p, page_in_success _ bytes_restored _) =
    others (consume p id).0 (total_bytes + bytes_restored)
after_page_in id total_bytes others (p, integrity_violation _ _ _) = (
  p,
  integrity_broken (seq_of (position id p.tokens)) "Integrity verification failed during assembly",
)
after_page_in id total_bytes others (p, token_not_found _) = others p total_bytes
after_page_in id total_bytes others (p, already_consumed _) = others p total_bytes

unfoldable pub assemble_all : ℕ → List String → UpipPager → ℕ → UpipPager × AssembleResult
unfolding page_in consume position
assemble_all count [] p total_bytes = (p, complete count total_bytes true)
assemble_all count (id ∷ ids) p total_bytes =
    after_page_in id total_bytes (assemble_all count ids) (page_in p id)

unfoldable pub assemble : UpipPager → String → ℕ → UpipPager × AssembleResult
unfolding task_ids assemble_all
assemble p intent bus_seq =
    let token_ids = task_ids intent bus_seq p.tokens in
    if length token_ids == 0
    then (p, incomplete 0 (0 ∷ []))
    else assemble_all (length token_ids) token_ids p 0

-- `for _ in 0..count`: an interval behind the allocation is skipped.
unfoldable pub coldest_from : UpipPager → ℕ → ℕ → ℕ → List (ℕ × ℕ)
coldest_from p region_allocated zero offset = []
coldest_from p region_allocated (suc n) offset =
    elim (leb (offset + p.chunk_size) region_allocated) [
      | true ↦ (offset, p.chunk_size) ∷ coldest_from p region_allocated n (offset + p.chunk_size)
      | false ↦ coldest_from p region_allocated n offset
    ]

unfoldable pub find_coldest_offsets : UpipPager → ℕ → ℕ → List (ℕ × ℕ)
unfolding coldest_from
find_coldest_offsets p region_allocated count =
    coldest_from p region_allocated count (region_allocated - p.chunk_size * count)

unfoldable pub active_tokens : UpipPager → ℕ
active_tokens p = count_if (λ t. is_paged_out t.state) p.tokens

unfoldable pub paged_bytes : List ForkToken → ℕ
paged_bytes [] = 0
paged_bytes (t ∷ ts) = (if is_paged_out t.state then t.raw_size else 0) + paged_bytes ts

unfoldable pub bytes_currently_paged : UpipPager → ℕ
unfolding paged_bytes
bytes_currently_paged p = paged_bytes p.tokens
