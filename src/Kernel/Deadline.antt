-- ===== src/Kernel/Deadline.antt =====
-- When the watchdog of crates/trust-kernel/src/watchdog.rs fires.
use spaceshuttle.Prelude.{
  ℕ, zero, suc, ◌+◌, ◌-◌, ◌%◌, ◌≡◌, refl, ap, ◌∙◌, ◌<◌, ◌≤◌, List, [], ◌∷◌, Bool, true, false, ltb,
  leb, if◌then◌else◌, length, All, add64, arith, Bool-cases, inl, inr,
}
use spaceshuttle.Kernel.Watchdog.{Watchdog, check, missed_deadline, kernel_a_responded}

-- Checks at the given times, with no response in between.
unfoldable pub watch : Watchdog → List ℕ → Watchdog
unfolding check
watch w [] = w
watch w (now_ns ∷ rest) = watch (check w now_ns).0 rest

-- The time lies past the deadline.
abbrev pub IsLate : Watchdog → ℕ → Type 0
IsLate w now_ns = w.timeout_ns < now_ns - w.last_response_ns

-- The state after `n` more missed deadlines.
after : Watchdog → ℕ → Bool → Watchdog
after w n fired = record w { missed_count = w.missed_count + n; triggered = fired }

check-late :
    (w : Watchdog) (now_ns : ℕ)
    → w.active ≡ true
    → IsLate w now_ns
    → w.missed_count + 1 < 4294967296
    → (check w now_ns).0
      ≡ after w 1 (if leb w.max_missed (w.missed_count + 1) then true else w.triggered)
unfolding check missed_deadline after
check-late w now_ns on late room =
    let late' : ltb w.timeout_ns (now_ns - w.last_response_ns) ≡ true = ground arith in
    let small : (w.missed_count % 4294967296 + 1) % 4294967296 ≡ w.missed_count + 1 = omega arith in
    let count : add64 w.missed_count 1 ≡ w.missed_count + 1 = omega arith in
    elim (Bool-cases (leb w.max_missed (w.missed_count + 1))) [
      | inl h ↦ rw (on, late', small, h, count) refl
      | inr h ↦ rw (on, late', small, h, count) refl
    ]

-- Whether the watchdog has fired after `n` more late checks.
fires : Watchdog → ℕ → Bool
fires w zero = w.triggered
fires w (suc n) = if leb w.max_missed (w.missed_count + suc n) then true else w.triggered

fires-after :
    (w : Watchdog) (n : ℕ)
    → fires (after w 1 (if leb w.max_missed (w.missed_count + 1) then true else w.triggered)) n
      ≡ fires w (suc n)
unfolding fires after
fires-after w zero = refl
fires-after w (suc n) =
    let sum : w.missed_count + 1 + suc n ≡ w.missed_count + suc (suc n) = omega arith in
    rw sum (ground arith)

watch-late :
    (w : Watchdog) (times : List ℕ)
    → w.active ≡ true
    → All (IsLate w) times
    → w.missed_count + length times < 4294967296
    → watch w times ≡ after w (length times) (fires w (length times))
unfolding watch after fires
watch-late w [] on late room =
    let same : w.missed_count ≡ w.missed_count + 0 = omega arith in
    ap (λ k. record w { missed_count = k }) same
watch-late w (now_ns ∷ rest) on (first, late) room =
    let fired = if leb w.max_missed (w.missed_count + 1) then true else w.triggered in
    let sum : w.missed_count + 1 + length rest ≡ w.missed_count + suc (length rest) = omega arith in
    ap (λ v. watch v rest) (check-late w now_ns on first (omega arith))
    ∙ watch-late (after w 1 fired) rest on late (omega arith)
    ∙ ap (λ k. record w { missed_count = k; triggered = fires (after w 1 fired) (length rest) }) sum
    ∙ ap (λ f. record w { missed_count = w.missed_count + suc (length rest); triggered = f })
        (fires-after w (length rest))

fires_fresh :
    (w : Watchdog) (answered_ns n : ℕ)
    → w.triggered ≡ false
    → 1 ≤ w.max_missed
    → (after
        (kernel_a_responded w answered_ns)
        n
        (fires (kernel_a_responded w answered_ns) n)).triggered
      ≡ leb w.max_missed n
unfolding after fires kernel_a_responded
fires_fresh w answered_ns zero quiet positive = ground arith
fires_fresh w answered_ns (suc n) quiet positive = ground arith

-- Kernel A has just answered, the watchdog is active and has not fired, `max_missed` is not 0, and
-- from then on fewer than 2 ^ 32 checks are made, all of them past the deadline: the watchdog has
-- fired exactly if the checks are at least `max_missed`.
pub watch_triggered :
    (w : Watchdog) (answered_ns : ℕ) (times : List ℕ)
    → w.active ≡ true
    → w.triggered ≡ false
    → 1 ≤ w.max_missed
    → All (IsLate (kernel_a_responded w answered_ns)) times
    → length times < 4294967296
    → (watch (kernel_a_responded w answered_ns) times).triggered ≡ leb w.max_missed (length times)
unfolding kernel_a_responded
watch_triggered w answered_ns times on quiet positive late room =
    rw (watch-late (kernel_a_responded w answered_ns) times on late (omega arith))
      (fires_fresh w answered_ns (length times) quiet positive)
