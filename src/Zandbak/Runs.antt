-- ===== src/Zandbak/Runs.antt =====
-- What a region can be after any calls on it (crates/trust-kernel/src/zandbak.rs).
use text.Mathlib.Text.{starts_with}
use spaceshuttle.Prelude.{
  ℕ, ◌+◌, ◌-◌, ◌≡◌, refl, sym, ap, subst, ◌∙◌, ◌≤◌, ◌<◌, inl, inr, List, [], ◌∷◌, String, Bool,
  true, false, ltb, leb, ltb→lt, ltb→le, Bool-cases, str_eq, arith, if◌then◌else◌, add64, u64_mod,
}
use spaceshuttle.Zandbak.Region.{
  MemoryBudget, memory_budget, SandboxRegion, AllocResult, alloc_success, budget_exceeded,
  allocation_limit_reached, region_dirty, ZerofillPolicy, every_dealloc, on_exit, never, new,
  align_to_page, committed, allocate, zerofill, zeroed, emergency_zerofill,
}

pub data Call : Type 0 where
  call_allocate : ℕ → Call
  call_zerofill : ZerofillPolicy → ℕ → Call
  call_emergency : String → ℕ → Call

-- A call on a region, and the calls of a list in their order.
abbrev pub step : SandboxRegion → Call → SandboxRegion
step r (call_allocate size) = (allocate r size).0
step r (call_zerofill policy elapsed_ns) = (zerofill r policy elapsed_ns).0
step r (call_emergency reason elapsed_ns) = (emergency_zerofill r reason elapsed_ns).0

abbrev pub run : SandboxRegion → List Call → SandboxRegion
run r [] = r
run r (call ∷ calls) = run (step r call) calls

if_both {ℓ κ} :
    {A : Type ℓ} (P : A → Type κ) (c : Bool) {a b : A} → P a → P b → P (if c then a else b)
if_both P true pa pb = pa
if_both P false pa pb = pb

abbrev IsSized : MemoryBudget → Type 0
IsSized b = 0 < b.max_allocations

memory_budget-IsSized : (intent : String) → IsSized (memory_budget intent)
unfolding memory_budget
memory_budget-IsSized intent = if_both IsSized (str_eq intent "math_calculation") (omega arith) (
    if_both IsSized (str_eq intent "code:execute") (omega arith) (
      if_both IsSized (str_eq intent "file:scan") (omega arith) (
        if_both IsSized (starts_with intent "ai:") (omega arith) (
          if_both IsSized (starts_with intent "db:") (omega arith) (
            if_both IsSized (starts_with intent "http:") (omega arith) (
              if_both IsSized (starts_with intent "shell:") (omega arith)
                (if_both IsSized (starts_with intent "call:") (omega arith) (omega arith))))))))

not_le : {n : ℕ} → 0 < n → leb n 0 ≡ false
not_le h = ground arith

-- The bytes that a request comes to, and the budget, of a sandbox for the intent.
abbrev pub aligned : String → ℕ → ℕ
aligned intent size = align_to_page size (new intent).effective_page_size

abbrev pub room : String → ℕ
room intent = (memory_budget intent).work_region_bytes

-- The region of the sandbox and what an allocation there gives: the region is new, and the request
-- fits or not, or it holds one allocation.
pub data IsVerdict : String → ℕ → SandboxRegion → SandboxRegion × AllocResult → Type 0 where
  served :
      (intent : String) (size : ℕ)
      → aligned intent size ≤ room intent
      → IsVerdict intent size (new intent) (
        committed (new intent) (aligned intent size),
        alloc_success 0
            (aligned intent size)
            (room intent - aligned intent size)
            ((memory_budget intent).max_allocations - 1),
      )
  exceeded :
      (intent : String) (size : ℕ)
      → room intent < aligned intent size
      → IsVerdict intent size
          (new intent)
          (new intent, budget_exceeded (aligned intent size) (room intent))
  dirty :
      (intent : String) (size held : ℕ)
      → held ≤ room intent
      → IsVerdict intent size
          (committed (new intent) held)
          (committed (new intent) held, region_dirty)

align_to_page-lt : (size page : ℕ) → align_to_page size page < u64_mod
unfolding align_to_page
align_to_page-lt size page = omega arith

module _ (intent : String) (size : ℕ) where
  add_none : add64 0 (aligned intent size) ≡ aligned intent size
  add_none =
      let below = align_to_page-lt size (new intent).effective_page_size in omega (arith, below)

  -- The last three tests of an allocation, with the sums they read.
  abbrev verdict : Bool → ℕ → ℕ → ℕ → SandboxRegion × AllocResult
  verdict limit total available left =
      if limit
      then (new intent, allocation_limit_reached 0 (memory_budget intent).max_allocations)
      else if ltb (room intent) total
      then (new intent, budget_exceeded (aligned intent size) available)
      else (
        committed (new intent) (aligned intent size),
        alloc_success 0 (aligned intent size) left ((memory_budget intent).max_allocations - 1),
      )

  allocate_lem :
      allocate (new intent) size
      ≡ verdict false (aligned intent size) (room intent) (room intent - aligned intent size)
  unfolding allocate new
  allocate_lem =
      let n = aligned intent size in
      let below_limit : leb (memory_budget intent).max_allocations 0 ≡ false =
        not_le (memory_budget-IsSized intent) in
      let all : room intent - 0 ≡ room intent = omega arith in
      let rest : room intent - (0 + n) ≡ room intent - n = omega arith in
      ap (λ (c : Bool). verdict c (add64 0 n) (room intent - 0) (room intent - (0 + n))) below_limit
      ∙ ap (λ (t : ℕ). verdict false t (room intent - 0) (room intent - (0 + n))) add_none
      ∙ ap (λ (a : ℕ). verdict false n a (room intent - (0 + n))) all
      ∙ ap (λ (l : ℕ). verdict false n (room intent) l) rest

  allocate_new : IsVerdict intent size (new intent) (allocate (new intent) size)
  allocate_new = elim (Bool-cases (ltb (room intent) (aligned intent size))) [
    | inl over ↦
        subst (IsVerdict intent size (new intent)) (sym (allocate_lem ∙ rw over refl))
          (exceeded intent size (ltb→lt _ _ over))
    | inr fits ↦
        subst (IsVerdict intent size (new intent)) (sym (allocate_lem ∙ rw fits refl))
          (served intent size (ltb→le _ _ fits))
  ]

  allocate_held :
      (held : ℕ)
      → held ≤ room intent
      → IsVerdict intent size
          (committed (new intent) held)
          (allocate (committed (new intent) held) size)
  unfolding allocate
  allocate_held held fits = dirty intent size held fits

-- A region that is new or holds one allocation within the budget.
pub data IsHolding : String → SandboxRegion → Type 0 where
  holds_none : (intent : String) → IsHolding intent (new intent)
  holds_one :
      (intent : String) (held : ℕ)
      → held ≤ room intent
      → IsHolding intent (committed (new intent) held)

allocate-IsVerdict :
    (intent : String) (r : SandboxRegion) (size : ℕ)
    → IsHolding intent r
    → IsVerdict intent size r (allocate r size)
allocate-IsVerdict _ _ size (holds_none intent) = allocate_new intent size
allocate-IsVerdict _ _ size (holds_one intent held fits) = allocate_held intent size held fits

verdict-IsHolding :
    (intent : String) (size : ℕ) (r : SandboxRegion) (result : SandboxRegion × AllocResult)
    → IsVerdict intent size r result
    → IsHolding intent result.0
verdict-IsHolding _ _ _ _ (served intent size fits) = holds_one intent (aligned intent size) fits
verdict-IsHolding _ _ _ _ (exceeded intent size over) = holds_none intent
verdict-IsHolding _ _ _ _ (dirty intent size held fits) = holds_one intent held fits

zeroed-IsHolding :
    (intent : String) (r : SandboxRegion) → IsHolding intent r → IsHolding intent (zeroed r)
unfolding new
zeroed-IsHolding _ _ (holds_none intent) = holds_none intent
zeroed-IsHolding _ _ (holds_one intent held fits) = holds_none intent

step-IsHolding :
    (intent : String) (r : SandboxRegion) (call : Call)
    → IsHolding intent r
    → IsHolding intent (step r call)
unfolding zerofill emergency_zerofill
step-IsHolding intent r (call_allocate size) h =
    verdict-IsHolding intent size r (allocate r size) (allocate-IsVerdict intent r size h)
step-IsHolding intent r (call_zerofill every_dealloc elapsed_ns) h = zeroed-IsHolding intent r h
step-IsHolding intent r (call_zerofill on_exit elapsed_ns) h = h
step-IsHolding intent r (call_zerofill never elapsed_ns) h = h
step-IsHolding intent r (call_emergency reason elapsed_ns) h = zeroed-IsHolding intent r h

run-IsHolding :
    (intent : String) (r : SandboxRegion) (calls : List Call)
    → IsHolding intent r
    → IsHolding intent (run r calls)
run-IsHolding intent r [] h = h
run-IsHolding intent r (call ∷ calls) h =
    run-IsHolding intent (step r call) calls (step-IsHolding intent r call h)

-- After any allocations and zerofills on the region of a sandbox, an allocation is served from
-- offset 0 with its aligned size where the region is as new and that size is within the budget, is
-- refused with that size and the whole budget where the region is as new and it is not, and is
-- refused as dirty where the region holds its one allocation, which is within the budget. The
-- limit on the number of allocations is never what refuses it.
pub allocate-run-IsVerdict :
    (intent : String) (calls : List Call) (size : ℕ)
    → IsVerdict intent size (run (new intent) calls) (allocate (run (new intent) calls) size)
allocate-run-IsVerdict intent calls size =
    allocate-IsVerdict intent (run (new intent) calls) size
      (run-IsHolding intent (new intent) calls (holds_none intent))
