-- ===== src/Pager/Paging.antt =====
-- crates/trust-kernel/src/upip_pager.rs: `check_pressure`, `page_out`, `page_in`, `consume` and
-- `prepare_continuation`. The simulated hash and compression are those of Raid/Simulated, word for word.
use Prim.Native.Char.{code}
use Prim.Native.String
use Prim.Native.String.{slice}
use spaceshuttle.Prelude.{
  ℕ, zero, suc, ◌+◌, ◌-◌, ◌*◌, ◌/◌, List, [], ◌∷◌, ◌++◌, Option, none, some, String, Bool, ◌&&◌,
  leb, ◌==◌, if◌then◌else◌, str_eq, length, set, add64,
}
use spaceshuttle.Prelude.Text.{format, decimal, bytes}
use spaceshuttle.Raid.Simulated.{simulate_sha256, simulate_zstd_compress}
use spaceshuttle.Pager.Types.{
  archivaris, remote_kernel, paged_out, paged_in, consumed, invalid, is_consumed, ForkToken,
  PressureLevel, normal, elevated, critical, exhausted, pressure_panicked, PageOutResult,
  page_out_success, page_out_failed, PageInResult, page_in_success, integrity_violation,
  token_not_found, already_consumed, UpipPager,
}

unfoldable pub simulate_ed25519_sign : List ℕ → String
unfolding simulate_sha256
simulate_ed25519_sign bs = format ("ed25519_fork:" ∷ slice (simulate_sha256 bs) 7 39 ∷ [])

-- `(to_free + chunk_size - 1) / chunk_size`
abbrev pub chunks_for : ℕ → ℕ → (ℕ → PressureLevel) → PressureLevel
chunks_for to_free zero level = pressure_panicked
chunks_for to_free (suc n) level = level ((to_free + n) / suc n)

-- The percentages are compared exactly, as are 80 and 70 per cent of the budget, cut to whole bytes. With a
-- budget of 0 the quotient is no number if nothing is allocated, and then below every threshold.
unfoldable pub check_pressure : UpipPager → ℕ → ℕ → PressureLevel
check_pressure p allocated budget =
    if (budget == 0) && (allocated == 0)
    then normal
    else if leb budget allocated
    then exhausted (allocated - budget)
    else if leb (95 * budget) (100 * allocated)
    then chunks_for (allocated - 4 * budget / 5) p.chunk_size critical
    else if leb (80 * budget) (100 * allocated)
    then chunks_for (allocated - 7 * budget / 10) p.chunk_size elevated
    else normal

-- `intent.replace(':', mark)`
unfoldable pub replace_colons : String → String → String
replace_colons mark String.[] = ""
replace_colons mark (String.◌∷◌ c s) =
    let rest = replace_colons mark s in
    if code c == 58 then String.◌++◌ mark rest else String.◌∷◌ c rest

unfoldable pub token_id : String → ℕ → String
unfolding replace_colons decimal
token_id intent n = format ("upip_fork_" ∷ replace_colons "_" intent ∷ "_" ∷ decimal n ∷ [])

unfoldable pub seal_of : String → String → String → ℕ → String
unfolding simulate_ed25519_sign decimal
seal_of content_hash compressed_hash intent bus_seq = simulate_ed25519_sign (
    bytes
      (format (content_hash ∷ ":" ∷ compressed_hash ∷ ":" ∷ intent ∷ ":" ∷ decimal bus_seq ∷ [])))

-- The token of a chunk, with number `n`.
unfoldable pub fork_token : List ℕ → ℕ → String → String → ℕ → ℕ → ForkToken
unfolding simulate_sha256 simulate_zstd_compress token_id seal_of decimal replace_colons
fork_token chunk_data memory_offset intent from_aint bus_seq n =
    let compressed = simulate_zstd_compress chunk_data in
    let content_hash = simulate_sha256 chunk_data in
    let compressed_hash = simulate_sha256 compressed in
    record {
      id = token_id intent n;
      chunk_seq = n;
      total_chunks = none;
      intent = intent;
      from_aint = from_aint;
      bus_seq = bus_seq;
      memory_offset = memory_offset;
      raw_size = length chunk_data;
      compressed_size = length compressed;
      content_hash = content_hash;
      compressed_hash = compressed_hash;
      ed25519_seal = seal_of content_hash compressed_hash intent bus_seq;
      tibet_token_id = format ("tibet_upip_fork_" ∷ decimal n ∷ []);
      storage = archivaris (
          format (
            "/var/lib/airlock/paged/"
            ∷ replace_colons "/" intent
            ∷ "/"
            ∷ token_id intent n
            ∷ ".chunk"
            ∷ []));
      state = paged_out;
      access_count = 0;
    }

-- The pager after a page-out that succeeds.
unfoldable pub add_token : UpipPager → ForkToken → ℕ → UpipPager
add_token p token bytes_freed = record p {
  tokens = p.tokens ++ (token ∷ []);
  next_token_id = add64 p.next_token_id 1;
  pages_out = add64 p.pages_out 1;
  bytes_paged_out = add64 p.bytes_paged_out bytes_freed;
}

unfoldable pub page_out : UpipPager → List ℕ → ℕ → String → String → ℕ → UpipPager × PageOutResult
unfolding fork_token add_token
page_out p chunk_data memory_offset intent from_aint bus_seq =
    if length chunk_data == 0
    then (p, page_out_failed "Cannot page out empty chunk")
    else if leb 256 (length p.tokens)
    then (p, page_out_failed (format ("Max paged chunks reached (" ∷ decimal 256 ∷ ")" ∷ [])))
    else let token = fork_token chunk_data memory_offset intent from_aint bus_seq p.next_token_id in
      (add_token p token (length chunk_data), page_out_success token (length chunk_data))

-- `tokens.iter().position(|t| t.id == token_id)`, with the token that stands there.
unfoldable pub position : String → List ForkToken → Option (ℕ × ForkToken)
position id [] = none
position id (t ∷ ts) = if str_eq t.id id then some (0, t) else one_more (position id ts)
  where
    one_more : Option (ℕ × ForkToken) → Option (ℕ × ForkToken)
    one_more none = none
    one_more (some (i, found)) = some (suc i, found)

-- `page_in` at the token's index. `PagingIn` is replaced before the call ends.
unfoldable pub page_in_at : UpipPager → String → ℕ → ForkToken → UpipPager × PageInResult
unfolding seal_of
page_in_at p id i t =
    let expected_seal = seal_of t.content_hash t.compressed_hash t.intent t.bus_seq in
    if is_consumed t.state
    then (p, already_consumed id)
    else if str_eq t.ed25519_seal expected_seal
    then (
      record p {
        tokens =
            set p.tokens i (record t { state = paged_in; access_count = add64 t.access_count 1 });
        pages_in = add64 p.pages_in 1;
        bytes_paged_in = add64 p.bytes_paged_in t.raw_size;
      },
      page_in_success id t.raw_size t.memory_offset,
    )
    else (
      record p {
        tokens = set p.tokens i (record t { state = invalid "Ed25519 signature mismatch" });
        integrity_violations = add64 p.integrity_violations 1;
      },
      integrity_violation id expected_seal t.ed25519_seal,
    )

unfoldable pub page_in : UpipPager → String → UpipPager × PageInResult
unfolding position page_in_at
page_in p id = elim (position id p.tokens) [
  | none ↦ (p, token_not_found id)
  | some at ↦ page_in_at p id at.0 at.1
]

unfoldable pub consume : UpipPager → String → UpipPager × Bool
unfolding position
consume p id = elim (position id p.tokens) [
  | none ↦ (p, Bool.false)
  | some at ↦
      (record p { tokens = set p.tokens at.0 (record at.1 { state = consumed }) }, Bool.true)
]

unfoldable pub prepare_continuation :
    UpipPager → String → String → String → UpipPager × Option ForkToken
unfolding position
prepare_continuation p id target_kernel endpoint = elim (position id p.tokens) [
  | none ↦ (p, none)
  | some at ↦
      let moved : ForkToken = record at.1 { storage = remote_kernel target_kernel endpoint } in
      (
        record p {
          tokens = set p.tokens at.0 moved;
          remote_continuations = add64 p.remote_continuations 1;
        },
        some moved,
      )
]
