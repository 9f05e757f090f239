-- ===== src/Kernel/Delivery.antt =====
-- What the bus of crates/trust-kernel/src/bus.rs detects: order, loss and repetition.
use spaceshuttle.Prelude.{
  ℕ, zero, suc, ◌+◌, ◌-◌, ◌≡◌, ◌≢◌, refl, ap, sym, ◌∙◌, ◌<◌, ◌≤◌, [], String, true, false, not,
  ◌==◌, ltb, if◌then◌else◌, add64, u64_mod, arith, Bool-cases, inl, inr,
}
use spaceshuttle.Prelude.Text.{byte_len}
use spaceshuttle.Kernel.Bus.{
  BusPayload, VirtualBus, delivered, sequence_gap, stamp_payload, passed, passed_gap, receive,
}

-- `n` payloads are stamped by Kernel A and lost on the way.
unfoldable pub lose : ℕ → VirtualBus → VirtualBus
lose zero bus = bus
lose (suc n) bus = lose n (stamp_payload bus 0 "" "" "" [] 0).0

-- The bus may take the text.
abbrev pub Takes : VirtualBus → String → Type 0
Takes bus payload = (bus.is_open ≡ true) × (byte_len payload ≤ bus.max_payload_bytes)

pub receive-in_order :
    (bus : VirtualBus) (p : BusPayload)
    → Takes bus p.payload
    → p.seq ≡ bus.next_expected_seq
    → receive bus p ≡ (passed bus p, delivered p)
unfolding receive
receive-in_order bus p (is_open, fits) e =
    let small : ltb bus.max_payload_bytes (byte_len p.payload) ≡ false = ground arith in
    let same : (p.seq == bus.next_expected_seq) ≡ true = ground arith in
    rw (is_open, small, same) refl

receive-out_of_order :
    (bus : VirtualBus) (p : BusPayload)
    → Takes bus p.payload
    → p.seq ≢ bus.next_expected_seq
    → receive bus p
      ≡ (passed_gap bus p, sequence_gap bus.next_expected_seq p.seq (p.seq - bus.next_expected_seq))
unfolding receive
receive-out_of_order bus p (is_open, fits) e =
    let small : ltb bus.max_payload_bytes (byte_len p.payload) ≡ false = ground arith in
    let other : (p.seq == bus.next_expected_seq) ≡ false = ground arith in
    rw (is_open, small, other) refl

-- What losing payloads leaves as it is.
lose_counter :
    (n : ℕ) (bus : VirtualBus)
    → bus.seq_counter + n < u64_mod
    → lose n bus ≡ (record bus { seq_counter = bus.seq_counter + n })
unfolding lose stamp_payload
lose_counter zero bus room =
    let same : bus.seq_counter ≡ bus.seq_counter + 0 = omega arith in
    ap (λ k. record bus { seq_counter = k }) same
lose_counter (suc n) bus room =
    let next = record bus { seq_counter = add64 bus.seq_counter 1 } in
    let same : add64 bus.seq_counter 1 + n ≡ bus.seq_counter + suc n = omega arith in
    lose_counter n (record bus { seq_counter = add64 bus.seq_counter 1 }) (omega arith)
    ∙ ap (λ k. record bus { seq_counter = k }) same

-- Both ends count alike.
abbrev pub IsSynced : VirtualBus → Type 0
IsSynced bus = bus.next_expected_seq ≡ bus.seq_counter

-- The payload that Kernel A stamps after `n` others were lost, as the bus gets it.
unfoldable pub after_loss : ℕ → VirtualBus → String → VirtualBus × BusPayload
unfolding lose stamp_payload
after_loss n bus payload = stamp_payload (lose n bus) 0 "" payload "" [] 0

receive_counter :
    (bus : VirtualBus) (p : BusPayload) → (receive bus p).0.seq_counter ≡ bus.seq_counter
unfolding receive passed passed_gap
receive_counter bus p = elim (Bool-cases (not bus.is_open)) [
  | inl a ↦ rw a refl
  | inr a ↦ elim (Bool-cases (ltb bus.max_payload_bytes (byte_len p.payload))) [
    | inl b ↦ rw (a, b) refl
    | inr b ↦ elim (Bool-cases (p.seq == bus.next_expected_seq)) [
      | inl d ↦ rw (a, b, d) refl
      | inr d ↦ rw (a, b, d) refl
    ]
  ]
]

receive-gap :
    (n : ℕ) (bus : VirtualBus) (p : BusPayload)
    → Takes bus p.payload
    → p.seq ≡ bus.next_expected_seq + n
    → ((receive bus p).1
        ≡ (if n == 0 then delivered p else sequence_gap bus.next_expected_seq p.seq n))
      × ((receive bus p).0.next_expected_seq ≡ add64 p.seq 1)
unfolding passed passed_gap
receive-gap zero bus p takes e = rw (receive-in_order bus p takes (omega (arith, e))) (refl, refl)
receive-gap (suc n) bus p takes e =
    let gap : p.seq - bus.next_expected_seq ≡ suc n = omega (arith, e) in
    let more : (suc n == 0) ≡ false = ground arith in
    rw (receive-out_of_order bus p takes (omega (arith, e))) (rw (gap, more) refl, refl)

-- On an open bus that expects the number it stamps next, with room below 2 ^ 64, a payload that
-- fits is delivered if none was lost before it; after `n` lost payloads the bus reports a gap of
-- exactly `n` from the number expected, and it expects the next number again.
pub receive-after_loss :
    (n : ℕ) (bus : VirtualBus) (payload : String)
    → Takes bus payload
    → IsSynced bus
    → bus.seq_counter + n < u64_mod
    → let (bus', p) = after_loss n bus payload in
      let (bus'', result) = receive bus' p in
      (result ≡ (if n == 0 then delivered p else sequence_gap bus.next_expected_seq p.seq n))
      × (p.seq ≡ bus.next_expected_seq + n)
      × IsSynced bus''
unfolding after_loss stamp_payload
receive-after_loss n bus payload takes synced room =
    let stamped =
      stamp_payload (record bus { seq_counter = bus.seq_counter + n }) 0 "" payload "" [] 0 in
    let at : bus.seq_counter + n ≡ bus.next_expected_seq + n = omega (arith, synced) in
    let (answer, next) = receive-gap n stamped.0 stamped.1 takes at in
    rw (lose_counter n bus room) (answer, at, next ∙ sym (receive_counter stamped.0 stamped.1))

-- On an open bus, a payload that fits, has the expected number and is received twice is taken both
-- times: the second time it is a gap of size 0 and counts as passed, and the bus expects the
-- number that follows it, as before.
pub receive_twice :
    (bus : VirtualBus) (p : BusPayload)
    → Takes bus p.payload
    → p.seq ≡ bus.next_expected_seq
    → p.seq + 1 < u64_mod
    → let once = (receive bus p).0 in
      let (twice, result) = receive once p in
      (result ≡ sequence_gap (p.seq + 1) p.seq 0)
      × (twice.next_expected_seq ≡ once.next_expected_seq)
      × (twice.stats.payloads_passed ≡ add64 once.stats.payloads_passed 1)
unfolding passed passed_gap
receive_twice bus p takes e room =
    let next : add64 p.seq 1 ≡ p.seq + 1 = omega arith in
    let none_left : p.seq - add64 p.seq 1 ≡ 0 = omega arith in
    rw (receive-in_order bus p takes e, receive-out_of_order (passed bus p) p takes (omega arith))
      (rw (none_left, next) refl, refl, refl)
