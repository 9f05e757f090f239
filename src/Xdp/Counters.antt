-- ===== src/Xdp/Counters.antt =====
-- What the counters of crates/trust-kernel/src/xdp.rs come to.
use spaceshuttle.Prelude.{
  ℕ, ◌+◌, ◌≡◌, ◌≢◌, refl, sym, subst, List, [], ◌∷◌, Option, none, some, Bool, true, false, not,
  inl, inr, Bool-cases, add64, arith,
}
use spaceshuttle.Xdp.Parse.{Parsed, parsed, refused, panicked, parse_headers}
use spaceshuttle.Xdp.Bounds.{parse_headers_panic}
use spaceshuttle.Xdp.Liquidator.{
  XdpVerdict, DropReason, no_intent, deny_listed_ip, unprotected_port, malformed, rate_limited,
  syn_flood, exploit_signature, Drops, XdpConfig, XdpLiquidator, new, count_drop, record_drop,
  dropped, let_through, elem, is_exploit, lacks_intent, judge, classify, pause, resume,
}

abbrev Answer : Type 0
Answer = Option (XdpLiquidator × XdpVerdict × Option DropReason)

-- The reasons for which a packet is dropped at all.
abbrev pub is_given : DropReason → Bool
is_given no_intent = true
is_given deny_listed_ip = true
is_given unprotected_port = true
is_given malformed = true
is_given rate_limited = false
is_given syn_flood = false
is_given exploit_signature = true

-- A packet is let through, or dropped for one of those reasons.
pub data Settles (x : XdpLiquidator) (answer : Answer) : Type 0 where
  through : answer ≡ some (let_through x) → Settles x answer
  stopped :
      (reason : DropReason)
      → is_given reason ≡ true
      → answer ≡ some (dropped x reason)
      → Settles x answer

judge-Settles :
    (x : XdpLiquidator) (raw_packet : List ℕ) (p : Parsed)
    → p ≢ panicked
    → Settles x (judge x raw_packet p)
unfolding judge
judge-Settles x raw_packet panicked safe = absurd (safe refl)
judge-Settles x raw_packet refused safe = stopped malformed refl refl
judge-Settles x raw_packet (parsed h) safe = elim (Bool-cases (elem h.src_ip x.config.allow_list)) [
  | inl a ↦ through (rw a refl)
  | inr a ↦ elim (Bool-cases (elem h.src_ip x.config.deny_list)) [
    | inl b ↦ stopped deny_listed_ip refl (rw (a, b) refl)
    | inr b ↦ elim (Bool-cases (not (elem h.dst_port x.config.protected_ports))) [
      | inl d ↦ stopped unprotected_port refl (rw (a, b, d) refl)
      | inr d ↦ elim (Bool-cases (is_exploit x.config raw_packet h)) [
        | inl e ↦ stopped exploit_signature refl (rw (a, b, d, e) refl)
        | inr e ↦ elim (Bool-cases (lacks_intent x.config raw_packet h)) [
          | inl f ↦ stopped no_intent refl (rw (a, b, d, e, f) refl)
          | inr f ↦ through (rw (a, b, d, e, f) refl)
        ]
      ]
    ]
  ]
]

-- Every packet, of whatever bytes, gets a verdict: it is counted, and then let through or dropped, never
-- for its rate or as a SYN flood.
pub classify-Settles :
    (x : XdpLiquidator) (raw_packet : List ℕ)
    → Settles (record x { packets_total = add64 x.packets_total 1 }) (classify x raw_packet)
unfolding classify
classify-Settles x raw_packet = elim (Bool-cases (not x.active)) [
  | inl paused ↦ rw paused (through refl)
  | inr active ↦ rw active (
      judge-Settles (record x { packets_total = add64 x.packets_total 1 }) raw_packet
        (parse_headers raw_packet) (parse_headers_panic raw_packet))
]

abbrev sum : Drops → ℕ
sum d =
    d.drops_no_intent + d.drops_deny_list + d.drops_unprotected + d.drops_malformed
    + d.drops_rate_limit + d.drops_syn_flood + d.drops_exploit

-- The two counters of reasons that are never given.
abbrev pub NeverGiven : Drops → Type 0
NeverGiven d = (d.drops_rate_limit ≡ 0) × (d.drops_syn_flood ≡ 0)

-- The counters agree, modulo the width of a counter.
pub record IsBalanced (x : XdpLiquidator) : Type 0 where
  pub accounted : add64 x.packets_dropped x.packets_passed ≡ add64 x.packets_total 0
  pub itemised : add64 (sum x.drops_by_reason) 0 ≡ add64 x.packets_dropped 0
  pub no_tx : x.packets_tx ≡ 0
  pub unused : NeverGiven x.drops_by_reason

-- The filter after a packet; a packet without a verdict would leave it as it was.
unfoldable pub settled : XdpLiquidator → Answer → XdpLiquidator
settled x none = x
settled x (some answer) = answer.0

-- A packet that arrives, and the two switches.
pub data Call : Type 0 where
  packet : List ℕ → Call
  pausing resuming : Call

unfoldable pub filter_all : XdpLiquidator → List Call → XdpLiquidator
unfolding settled classify pause resume
filter_all x [] = x
filter_all x (packet raw_packet ∷ rest) = filter_all (settled x (classify x raw_packet)) rest
filter_all x (pausing ∷ rest) = filter_all (pause x) rest
filter_all x (resuming ∷ rest) = filter_all (resume x) rest

count_drop-sum :
    (d : Drops) (reason : DropReason) → add64 (sum (count_drop d reason)) 0 ≡ add64 (sum d) 1
unfolding count_drop
count_drop-sum d no_intent = omega arith
count_drop-sum d deny_listed_ip = omega arith
count_drop-sum d unprotected_port = omega arith
count_drop-sum d malformed = omega arith
count_drop-sum d rate_limited = omega arith
count_drop-sum d syn_flood = omega arith
count_drop-sum d exploit_signature = omega arith

count_drop-NeverGiven :
    (d : Drops) (reason : DropReason)
    → is_given reason ≡ true
    → NeverGiven d
    → NeverGiven (count_drop d reason)
unfolding count_drop
count_drop-NeverGiven d no_intent given h = h
count_drop-NeverGiven d deny_listed_ip given h = h
count_drop-NeverGiven d unprotected_port given h = h
count_drop-NeverGiven d malformed given h = h
count_drop-NeverGiven d rate_limited given h = cc
count_drop-NeverGiven d syn_flood given h = cc
count_drop-NeverGiven d exploit_signature given h = h

settled-IsBalanced :
    (x : XdpLiquidator) (answer : Answer)
    → IsBalanced x
    → Settles (record x { packets_total = add64 x.packets_total 1 }) answer
    → IsBalanced (settled x answer)
unfolding settled let_through dropped record_drop
settled-IsBalanced x answer h (through e) =
    subst (λ a. IsBalanced (settled x a)) (sym e)
      (record {
        accounted = omega (arith, h.accounted);
        itemised = h.itemised;
        no_tx = h.no_tx;
        unused = h.unused;
      })
settled-IsBalanced x answer h (stopped reason given e) =
    let counted = count_drop-sum x.drops_by_reason reason in
    subst (λ a. IsBalanced (settled x a)) (sym e)
      (record {
        accounted = omega (arith, h.accounted);
        itemised = omega (arith, h.itemised, counted);
        no_tx = h.no_tx;
        unused = count_drop-NeverGiven x.drops_by_reason reason given h.unused;
      })

filter_all-IsBalanced :
    (x : XdpLiquidator) (calls : List Call) → IsBalanced x → IsBalanced (filter_all x calls)
unfolding filter_all pause resume
filter_all-IsBalanced x [] h = h
filter_all-IsBalanced x (packet raw_packet ∷ rest) h =
    filter_all-IsBalanced (settled x (classify x raw_packet)) rest
      (settled-IsBalanced x (classify x raw_packet) h (classify-Settles x raw_packet))
filter_all-IsBalanced x (pausing ∷ rest) h =
    filter_all-IsBalanced (pause x) rest (record {
      accounted = h.accounted;
      itemised = h.itemised;
      no_tx = h.no_tx;
      unused = h.unused;
    })
filter_all-IsBalanced x (resuming ∷ rest) h =
    filter_all-IsBalanced (resume x) rest (record {
      accounted = h.accounted;
      itemised = h.itemised;
      no_tx = h.no_tx;
      unused = h.unused;
    })

-- After any packets through a new filter, paused and resumed at any time, modulo 2 ^ 64: the
-- packets dropped and passed add up to all of them, and the drops by reason to those dropped; none
-- was sent back, limited by its rate or taken for a SYN flood.
pub filter_all-new-IsBalanced :
    (config : XdpConfig) (calls : List Call) → IsBalanced (filter_all (new config) calls)
unfolding new
filter_all-new-IsBalanced config calls =
    filter_all-IsBalanced (new config) calls
      (record { accounted = refl; itemised = refl; no_tx = refl; unused = (refl, refl) })
