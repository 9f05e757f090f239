-- ===== src/Tests/Pager.antt =====
-- The pager at concrete data (crates/trust-kernel/src/upip_pager.rs).
use spaceshuttle.Prelude.{
  ℕ, ◌+◌, ◌≡◌, refl, arith, true, List, [], ◌∷◌, none, some, not, ◌&&◌, ◌==◌, is_some, length,
  replicate,
}
use spaceshuttle.Pager.Types.{
  UpipPager, new, PageOutResult, complete, exhausted, critical, elevated, normal, pressure_panicked,
  already_consumed, token_not_found, page_in_success,
}
use spaceshuttle.Pager.Paging.{check_pressure, page_out, page_in, consume, prepare_continuation}
use spaceshuttle.Pager.Bulk.{
  page_out_bulk, assemble, find_coldest_offsets, active_tokens, bytes_currently_paged,
}
use spaceshuttle.Pager.Rounds.{page_out_bulk_ends}
use spaceshuttle.Pager.Assembly.{assemble-page_out_bulk}

check_pressure_test :
    let p = new 10 in
    (check_pressure p 79 100 ≡ normal)
    × (check_pressure p 80 100 ≡ elevated 1)
    × (check_pressure p 95 100 ≡ critical 2)
    × (check_pressure p 120 100 ≡ exhausted 20)
    × (check_pressure p 0 0 ≡ normal)
    × (check_pressure (new 0) 95 100 ≡ pressure_panicked)
unfolding check_pressure new
check_pressure_test = (refl, refl, refl, refl, refl, refl)

find_coldest_offsets_test : find_coldest_offsets (new 10) 35 2 ≡ (15, 10) ∷ (25, 10) ∷ []
unfolding find_coldest_offsets new
find_coldest_offsets_test = refl

paging_test :
    let p = (page_out (new 4) (1 ∷ 2 ∷ []) 8 "code:execute" "root.aint" 7).0 in
    let p₁ = (page_in p "upip_fork_code_execute_0").0 in
    let p₂ = (consume p₁ "upip_fork_code_execute_0").0 in
    ((page_in p "upip_fork_code_execute_0").1 ≡ page_in_success "upip_fork_code_execute_0" 2 8)
    × ((page_in p₂ "upip_fork_code_execute_0").1 ≡ already_consumed "upip_fork_code_execute_0")
    × ((page_in p₂ "x").1 ≡ token_not_found "x")
    × ((prepare_continuation p₂ "x" "kernel_b" "host").1 ≡ none)
    × (active_tokens p ≡ 1)
    × (bytes_currently_paged p ≡ 2)
unfolding page_out new page_in consume prepare_continuation active_tokens bytes_currently_paged
paging_test = (refl, refl, refl, refl, refl, refl)

abbrev eleven : List ℕ
eleven = 1 ∷ 2 ∷ 3 ∷ replicate 8 0

page_out_bulk_ends_example :
    is_some (page_out_bulk (length eleven + 5) (new 4) eleven 100 "data:batch" "root.aint" 3)
    ≡ not (((new 4).chunk_size == 0) && not (length eleven == 0))
page_out_bulk_ends_example = page_out_bulk_ends "data:batch" "root.aint" 3 5 (new 4) eleven 100

no_tokens : (new 4).tokens ≡ []
unfolding new
no_tokens = refl

assemble-page_out_bulk_example :
    (after : UpipPager) × (results : List PageOutResult) × (page_out_bulk
        (length eleven)
        (new 4)
        eleven
        100
        "data:batch"
        "root.aint"
        3
      ≡ some (after, results))
    × ((assemble after "data:batch" 3).1 ≡ complete (length results) (length eleven) true)
unfolding new
assemble-page_out_bulk_example =
    assemble-page_out_bulk (new 4) eleven 100 "data:batch" "root.aint" 3 no_tokens (omega arith)
      (omega arith) (omega arith) (omega arith)
