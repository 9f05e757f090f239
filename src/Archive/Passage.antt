-- ===== src/Archive/Passage.antt =====
-- A frame on its way from Kernel A over the bus to the archive of Kernel B (crates/trust-kernel/src:
-- voorproever.rs, bus.rs, archivaris.rs).
use Prim.Native.Char.{code}
use Prim.Native.String
use Prim.Native.String.append
use spaceshuttle.Prelude.{
  ℕ, ◌≡◌, refl, sym, ap, subst, ◌∙◌, ◌<◌, List, [], ◌∷◌, ◌++◌, String, true, false, none, ◌==◌, ltb,
  inl, inr, Bool-cases, arith,
}
use spaceshuttle.Prelude.Text.{byte_len, decimal, starts_with}
use spaceshuttle.Kernel.Bus.{BusPayload, VirtualBus, BusResult, stamp_payload, passed}
use spaceshuttle.Kernel.Snaft.{SnaftMonitor}
use spaceshuttle.Kernel.Voorproever.{
  TibetMuxFrame, FiraMode, live, static, Voorproever, pass, is_known_intent, screened, compute_fira,
  conclude, evaluate,
}
use spaceshuttle.Kernel.Delivery.{Takes, IsSynced, receive-in_order}
use spaceshuttle.Archive.Archivaris.{
  Archivaris, ArchivarisResult, Reading, success, token_of, entry_of, accept,
  verify_voorproever_seal, jis_check, jis_reason, verified, after_receive, process,
}

-- What Kernel A stamps for a frame.
abbrev stamped : Voorproever → TibetMuxFrame → List String → ℕ → VirtualBus × BusPayload
stamped v frame syscalls now_ns =
    stamp_payload v.bus now_ns frame.intent frame.payload frame.from_aint syscalls
      (compute_fira v.fira_scoring)

pass_fields : (p q : BusPayload) (i j : ℕ) → pass p i ≡ pass q j → p ≡ q
pass_fields p q i j e = cc

conclude_stamps :
    (v : Voorproever) (frame : TibetMuxFrame) (m : SnaftMonitor) (violations : List String)
    (now_ns later_ns : ℕ) (p : BusPayload) (checked : ℕ)
    → (conclude v frame m violations now_ns later_ns).1 ≡ pass p checked
    → ((conclude v frame m violations now_ns later_ns).0.bus
        ≡ (stamped v frame m.observed_syscalls now_ns).0)
      × ((stamped v frame m.observed_syscalls now_ns).1 ≡ p)
unfolding conclude
conclude_stamps v frame m [] now_ns later_ns p checked e = (refl, pass_fields _ p _ checked e)
conclude_stamps v frame m (w ∷ ws) now_ns later_ns p checked e = cc

evaluate_stamps :
    (v : Voorproever) (frame : TibetMuxFrame) (now_ns later_ns : ℕ) (p : BusPayload) (checked : ℕ)
    → (evaluate v frame now_ns later_ns).1 ≡ pass p checked
    → (syscalls : List String) × ((evaluate v frame now_ns later_ns).0.bus
        ≡ (stamped v frame syscalls now_ns).0)
      × ((stamped v frame syscalls now_ns).1 ≡ p)
unfolding evaluate
evaluate_stamps v frame now_ns later_ns p checked =
    let m = screened v.voorproever_dryrun frame in
    elim (Bool-cases (is_known_intent frame.intent)) [
      | inl known ↦ rw known (λ e.
          let h = conclude_stamps v frame m m.violations now_ns later_ns p checked e in
          (m.observed_syscalls, h.0, h.1))
      | inr unknown ↦ rw unknown (λ e. cc)
    ]

starts_with-append : (s t : String) → starts_with (String.◌++◌ s t) s ≡ true
unfolding starts_with
starts_with-append String.[] t = refl
starts_with-append (String.◌∷◌ ch s) t =
    let same : (code ch == code ch) ≡ true = ground arith in
    rw (append.cons ch s t) (rw (starts_with, same) (starts_with-append s t))

sealed_by_bus :
    (bus : VirtualBus) (now_ns : ℕ) (intent payload from_aint : String) (syscalls : List String)
    (score : ℕ)
    → verify_voorproever_seal (stamp_payload bus now_ns intent payload from_aint syscalls score).1
      ≡ true
unfolding verify_voorproever_seal stamp_payload
sealed_by_bus bus now_ns intent payload from_aint syscalls score =
    starts_with-append "vp_seal_seq"
      (String.◌++◌ (decimal bus.seq_counter) (String.◌++◌ "_" (String.◌++◌ (decimal now_ns) "")))

-- Both modes score above the minimum.
fira_enough : (mode : FiraMode) → ltb (compute_fira mode) 30 ≡ false
unfolding compute_fira
fira_enough live = refl
fira_enough static = refl

named_granted :
    (a : Archivaris) (p : BusPayload)
    → 0 < byte_len p.from_aint
    → ltb p.fira_score 30 ≡ false
    → jis_reason a p ≡ none
unfolding jis_reason jis_check
named_granted a p named enough =
    let some_name : (byte_len p.from_aint == 0) ≡ false = ground arith in
    elim (Bool-cases a.jis_signing_per_action) [
      | inl asks ↦ rw (asks, some_name, enough) refl
      | inr free ↦ rw free refl
    ]

verified-accept :
    (a : Archivaris) (p : BusPayload) (frame : TibetMuxFrame) (r : Reading)
    → verify_voorproever_seal p ≡ true
    → jis_reason a p ≡ none
    → verified a p none frame r ≡ accept a p none frame r
unfolding verified
verified-accept a p frame r signed granted = rw (verified, signed, granted) refl

-- Kernel B answers success, logs the frame, and the ends of the bus agree.
abbrev pub Arrives : Archivaris → Reading → TibetMuxFrame → ℕ → VirtualBus → BusPayload → Type 0
Arrives a r frame seq bus p =
    let (bus', (a', result)) = process a bus p frame r in
    (result ≡ success (token_of p frame r) r.execution_us seq)
    × (a'.archive ≡ a.archive ++ (entry_of p r ∷ []))
    × IsSynced bus'

stamped-Arrives :
    (v : Voorproever) (frame : TibetMuxFrame) (syscalls : List String) (now_ns : ℕ) (a : Archivaris)
    (r : Reading)
    → Takes v.bus frame.payload
    → IsSynced v.bus
    → 0 < byte_len frame.from_aint
    → Arrives a r frame v.bus.seq_counter
        (stamped v frame syscalls now_ns).0
        (stamped v frame syscalls now_ns).1
unfolding process after_receive stamp_payload passed accept
stamped-Arrives v frame syscalls now_ns a r takes synced named =
    let s = stamped v frame syscalls now_ns in
    let signed =
      sealed_by_bus v.bus now_ns frame.intent frame.payload frame.from_aint syscalls
        (compute_fira v.fira_scoring) in
    let granted = named_granted a s.1 named (fira_enough v.fira_scoring) in
    let arrives : process a s.0 s.1 frame r ≡ (passed s.0 s.1, accept a s.1 none frame r) =
      ap (λ (o : VirtualBus × BusResult). (o.0, after_receive a o.1 s.1 frame r))
        (receive-in_order s.0 s.1 takes (sym synced))
      ∙ ap (λ (o : Archivaris × ArchivarisResult). (passed s.0 s.1, o))
          (verified-accept a s.1 frame r signed granted) in
    subst
      (λ (o : VirtualBus × (Archivaris × ArchivarisResult)).
        (o.1.1 ≡ success (token_of s.1 frame r) r.execution_us v.bus.seq_counter)
        × (o.1.0.archive ≡ a.archive ++ (entry_of s.1 r ∷ []))
        × IsSynced o.0)
      (sym arrives) (refl, refl, refl)

-- A frame that Kernel A passes reaches the archive of Kernel B: on an open bus whose ends agree,
-- with a payload that fits and a sender that is named, Kernel B answers success under the number
-- that the bus was at, its archive gains the entry of that frame and no other, and the ends of the
-- bus agree again, whether or not the profile asks for the check of the sender.
pub evaluate-Arrives :
    (v : Voorproever) (frame : TibetMuxFrame) (now_ns later_ns : ℕ) (p : BusPayload) (checked : ℕ)
    (a : Archivaris) (r : Reading)
    → (evaluate v frame now_ns later_ns).1 ≡ pass p checked
    → Takes v.bus frame.payload
    → IsSynced v.bus
    → 0 < byte_len frame.from_aint
    → Arrives a r frame v.bus.seq_counter (evaluate v frame now_ns later_ns).0.bus p
evaluate-Arrives v frame now_ns later_ns p checked a r passes takes synced named =
    let (syscalls, bus_is, p_is) = evaluate_stamps v frame now_ns later_ns p checked passes in
    let s = stamped v frame syscalls now_ns in
    subst (λ (bus : VirtualBus). Arrives a r frame v.bus.seq_counter bus p) (sym bus_is)
      (subst (λ (q : BusPayload). Arrives a r frame v.bus.seq_counter s.0 q) p_is
        (stamped-Arrives v frame syscalls now_ns a r takes synced named))
