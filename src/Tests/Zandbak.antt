-- ===== src/Tests/Zandbak.antt =====
-- Regions of concrete sandboxes (crates/trust-kernel/src/zandbak.rs).
use spaceshuttle.Prelude.{◌≡◌, refl, List, [], ◌∷◌}
use spaceshuttle.Zandbak.Region.{
  memory_budget, align_to_page, page_size, new, allocate, alloc_success, budget_exceeded,
  region_dirty, every_dealloc, on_exit, routine, skipped, emergency, zerofill, emergency_zerofill,
  usage,
}
use spaceshuttle.Zandbak.Runs.{
  Call, call_allocate, call_zerofill, run, IsVerdict, allocate-run-IsVerdict,
}

budget_test :
    ((memory_budget "ai:chat").max_allocations ≡ 4096)
    × ((memory_budget "code:execute").work_region_bytes ≡ 67108864)
    × ((memory_budget "mail").stack_bytes ≡ 524288)
unfolding memory_budget
budget_test = (refl, refl, refl)

align_test :
    (align_to_page 1 page_size ≡ 4096)
    × (align_to_page 8192 page_size ≡ 8192)
    × (align_to_page 8193 page_size ≡ 12288)
unfolding align_to_page
align_test = (refl, refl, refl)

-- In a release build the sum of a size near 2 ^ 64 wraps around: such a request is served no bytes.
wrap_test : (allocate (new "mail") 18446744073709551615).1 ≡ alloc_success 0 0 8388608 127
unfolding allocate new
wrap_test = refl

abbrev calls : List Call
calls = call_allocate 5000 ∷ call_zerofill on_exit 0 ∷ []

allocate_test :
    ((allocate (new "mail") 5000).1 ≡ alloc_success 0 8192 8380416 127)
    × ((allocate (new "mail") 9000000).1 ≡ budget_exceeded 9003008 8388608)
    × ((allocate (run (new "mail") calls) 1).1 ≡ region_dirty)
unfolding allocate new zerofill
allocate_test = (refl, refl, refl)

zerofill_test :
    ((zerofill (run (new "mail") calls) every_dealloc 7).1 ≡ routine 8192 1024)
    × ((zerofill (new "mail") on_exit 7).1 ≡ skipped)
    × ((emergency_zerofill (new "mail") "escape" 7).1 ≡ emergency 8388608 1048576 "escape")
    × ((usage (run (new "mail") calls)).allocation_count ≡ 1)
unfolding allocate new zerofill emergency_zerofill usage
zerofill_test = (refl, refl, refl, refl)

allocate-run-IsVerdict_example :
    IsVerdict "mail" 1 (run (new "mail") calls) (allocate (run (new "mail") calls) 1)
allocate-run-IsVerdict_example = allocate-run-IsVerdict "mail" calls 1
