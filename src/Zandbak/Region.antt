-- ===== src/Zandbak/Region.antt =====
-- crates/trust-kernel/src/zandbak.rs: memory budgets and the region of a sandbox. The fields behind
-- atomics are read and written by one caller after another. Elapsed times are arguments; the share of the
-- budget in per cent is left out of the usage. Sums wrap around at 64 bits.
use text.Mathlib.Text.{starts_with}
use spaceshuttle.Prelude.{
  ℕ, ◌+◌, ◌-◌, ◌*◌, ◌/◌, ◌%◌, max, String, Bool, true, false, not, ltb, leb, str_eq, if◌then◌else◌,
  add64,
}

pub record MemoryBudget : Type 0 where
  pub work_region_bytes : ℕ
  pub stack_bytes : ℕ
  pub use_hugepages : Bool
  pub max_allocations : ℕ

abbrev pub kib : ℕ
kib = 1024

abbrev pub mib : ℕ
mib = 1048576

abbrev budget : ℕ → ℕ → Bool → ℕ → MemoryBudget
budget work_region_bytes stack_bytes use_hugepages max_allocations = record {
  work_region_bytes = work_region_bytes;
  stack_bytes = stack_bytes;
  use_hugepages = use_hugepages;
  max_allocations = max_allocations;
}

unfoldable pub memory_budget : String → MemoryBudget
memory_budget intent =
    if str_eq intent "math_calculation"
    then budget (4 * mib) (512 * kib) false 64
    else if str_eq intent "code:execute"
    then budget (64 * mib) (2 * mib) true 1024
    else if str_eq intent "file:scan"
    then budget (32 * mib) (1 * mib) false 256
    else if starts_with intent "ai:"
    then budget (512 * mib) (4 * mib) true 4096
    else if starts_with intent "db:"
    then budget (16 * mib) (1 * mib) false 512
    else if starts_with intent "http:"
    then budget (32 * mib) (2 * mib) false 1024
    else if starts_with intent "shell:"
    then budget (32 * mib) (2 * mib) false 512
    else if starts_with intent "call:"
    then budget (128 * mib) (2 * mib) true 2048
    else budget (8 * mib) (512 * kib) false 128

abbrev pub page_size : ℕ
page_size = 4096

abbrev pub hugepage_size : ℕ
hugepage_size = 2097152

pub record SandboxRegion : Type 0 where
  pub intent : String
  pub budget : MemoryBudget
  pub allocated_bytes : ℕ
  pub allocation_count : ℕ
  pub is_clean : Bool
  pub guards_active : Bool
  pub effective_page_size : ℕ

pub data AllocResult : Type 0 where
  -- offset, size, remaining_bytes, remaining_allocations
  alloc_success : ℕ → ℕ → ℕ → ℕ → AllocResult
  -- requested, available
  budget_exceeded : ℕ → ℕ → AllocResult
  -- current, max
  allocation_limit_reached : ℕ → ℕ → AllocResult
  region_dirty : AllocResult

pub data ZerofillEvent : Type 0 where
  -- bytes_zeroed, duration_ns
  routine : ℕ → ℕ → ZerofillEvent
  -- bytes_zeroed, duration_ns, triggered_by
  emergency : ℕ → ℕ → String → ZerofillEvent
  skipped : ZerofillEvent

pub data ZerofillPolicy : Type 0 where
  every_dealloc on_exit never : ZerofillPolicy

pub record SandboxUsage : Type 0 where
  pub intent : String
  pub allocated_bytes : ℕ
  pub budget_bytes : ℕ
  pub allocation_count : ℕ
  pub max_allocations : ℕ
  pub page_size : ℕ
  pub hugepages : Bool
  pub is_clean : Bool

unfoldable pub new : String → SandboxRegion
unfolding memory_budget
new intent =
    let b = memory_budget intent in
    record {
      intent = intent;
      budget = b;
      allocated_bytes = 0;
      allocation_count = 0;
      is_clean = true;
      guards_active = true;
      effective_page_size = if b.use_hugepages then hugepage_size else page_size;
    }

-- `(size + page_size - 1) & !(page_size - 1)`; both page sizes are powers of two, so the mask takes the
-- remainder off.
unfoldable pub align_to_page : ℕ → ℕ → ℕ
align_to_page size page = let raised = add64 size (page - 1) in raised - raised % page

-- A region with one more allocation of that many bytes; `fetch_add` wraps around.
abbrev pub committed : SandboxRegion → ℕ → SandboxRegion
committed r aligned_size = record {
  intent = r.intent;
  budget = r.budget;
  allocated_bytes = add64 r.allocated_bytes aligned_size;
  allocation_count = add64 r.allocation_count 1;
  is_clean = false;
  guards_active = r.guards_active;
  effective_page_size = r.effective_page_size;
}

unfoldable pub allocate : SandboxRegion → ℕ → SandboxRegion × AllocResult
unfolding align_to_page
allocate r size =
    let aligned_size = align_to_page size r.effective_page_size in
    let b = r.budget in
    if not r.is_clean
    then (r, region_dirty)
    else if leb b.max_allocations r.allocation_count
    then (r, allocation_limit_reached r.allocation_count b.max_allocations)
    else if ltb b.work_region_bytes (add64 r.allocated_bytes aligned_size)
    then (r, budget_exceeded aligned_size (b.work_region_bytes - r.allocated_bytes))
    else (
      committed r aligned_size,
      alloc_success r.allocated_bytes aligned_size
          (b.work_region_bytes - (r.allocated_bytes + aligned_size))
          (b.max_allocations - (r.allocation_count + 1)),
    )

abbrev pub zeroed : SandboxRegion → SandboxRegion
zeroed r = record {
  intent = r.intent;
  budget = r.budget;
  allocated_bytes = 0;
  allocation_count = 0;
  is_clean = true;
  guards_active = r.guards_active;
  effective_page_size = r.effective_page_size;
}

unfoldable pub zerofill : SandboxRegion → ZerofillPolicy → ℕ → SandboxRegion × ZerofillEvent
zerofill r every_dealloc elapsed_ns =
    (zeroed r, routine r.allocated_bytes (max (r.allocated_bytes / 8) elapsed_ns))
zerofill r on_exit elapsed_ns = (r, skipped)
zerofill r never elapsed_ns = (r, skipped)

unfoldable pub emergency_zerofill : SandboxRegion → String → ℕ → SandboxRegion × ZerofillEvent
emergency_zerofill r reason elapsed_ns =
    let bytes = r.budget.work_region_bytes in
    (zeroed r, emergency bytes (max (bytes / 8) elapsed_ns) reason)

unfoldable pub usage : SandboxRegion → SandboxUsage
usage r = record {
  intent = r.intent;
  allocated_bytes = r.allocated_bytes;
  budget_bytes = r.budget.work_region_bytes;
  allocation_count = r.allocation_count;
  max_allocations = r.budget.max_allocations;
  page_size = r.effective_page_size;
  hugepages = r.budget.use_hugepages;
  is_clean = r.is_clean;
}
