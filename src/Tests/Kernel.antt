-- ===== src/Tests/Kernel.antt =====
-- The theorems on the bus, the watchdog and the screening at concrete inputs (crates/trust-kernel/src).
use spaceshuttle.Prelude.{◌≡◌, refl, [], ◌∷◌, true, arith}
use spaceshuttle.Prelude.Text.{byte_len, decimal}
use spaceshuttle.Kernel.Bus
use spaceshuttle.Kernel.Bus.{
  BusPayload, VirtualBus, delivered, sequence_gap, stamp_payload, receive,
}
use spaceshuttle.Kernel.Watchdog
use spaceshuttle.Kernel.Watchdog.{Watchdog, kernel_a_responded}
use spaceshuttle.Kernel.Snaft.{intent_allowlist}
use spaceshuttle.Kernel.Voorproever.{
  TibetMuxFrame, Voorproever, live, evaluate, is_known_intent, dangerous_patterns,
}
use spaceshuttle.Kernel.Delivery.{IsSynced, after_loss, receive-after_loss}
use spaceshuttle.Kernel.Deadline.{watch, watch_triggered}
use spaceshuttle.Kernel.Screening.{harmless, evaluate_pass}

abbrev line : VirtualBus
line = Bus.new 1024

receive-after_loss_example :
    let (bus', p) = after_loss 3 line "hello" in
    let (bus'', result) = receive bus' p in
    (result ≡ sequence_gap 0 p.seq 3) × (p.seq ≡ 3) × IsSynced bus''
unfolding Bus.new byte_len
receive-after_loss_example =
    receive-after_loss 3 line "hello" (refl, omega arith) refl (omega arith)

abbrev first_payload : BusPayload
first_payload = (stamp_payload line 7 "code:execute" "hello" "root.aint" [] 85).1

abbrev dog : Watchdog
dog = Watchdog.new 5 1 3

watch_triggered_example :
    (watch (kernel_a_responded dog 100) (6000000 ∷ 7000000 ∷ 8000000 ∷ [])).triggered ≡ true
unfolding Watchdog.new kernel_a_responded
watch_triggered_example =
    watch_triggered dog 100 (6000000 ∷ 7000000 ∷ 8000000 ∷ []) refl refl (omega arith)
      (omega arith, (omega arith, (omega arith, tt))) (omega arith)

abbrev pub gate : Voorproever
gate = record { voorproever_dryrun = true; fira_scoring = live; bus = line; watchdog = dog }

abbrev pub greeting : TibetMuxFrame
greeting = record {
  channel_id = 1;
  intent = "code:execute";
  from_aint = "root.aint";
  payload = "1+1";
}

abbrev pub greeting_payload : BusPayload
greeting_payload = record {
  seq = 0;
  intent = "code:execute";
  payload = "1+1";
  from_aint = "root.aint";
  voorproever_seal = "vp_seal_seq0_9";
  observed_syscalls = "sys_execve" ∷ "sys_read" ∷ "sys_write" ∷ "sys_brk" ∷ "sys_exit" ∷ [];
  fira_score = 85;
  approved_at_ns = 9;
}

evaluate_pass_example :
    (is_known_intent "code:execute" ≡ true)
    × (harmless "1+1" (intent_allowlist "code:execute") dangerous_patterns ≡ true)
    × (greeting_payload.payload ≡ greeting.payload)
    × (greeting_payload.intent ≡ greeting.intent)
unfolding evaluate Bus.new decimal
evaluate_pass_example = evaluate_pass gate greeting 9 9 greeting_payload 5 refl
