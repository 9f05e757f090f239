-- ===== src/Kernel/Watchdog.antt =====
-- crates/trust-kernel/src/watchdog.rs: the deadline of Kernel A. A call is one step, and the time since
-- boot comes to it as an argument, in nanoseconds.
use spaceshuttle.Prelude.{
  ℕ, ◌+◌, ◌-◌, ◌*◌, ◌/◌, ◌%◌, Bool, true, false, not, ltb, leb, if◌then◌else◌, add64,
}

pub record Watchdog : Type 0 where
  pub last_response_ns : ℕ
  pub timeout_ns : ℕ
  pub heartbeat_interval_ns : ℕ
  pub max_missed : ℕ
  pub missed_count : ℕ
  pub triggered : Bool
  pub active : Bool

pub data WatchdogEvent : Type 0 where
  -- response_time_us
  healthy : ℕ → WatchdogEvent
  -- consecutive, max
  heartbeat_missed : ℕ → ℕ → WatchdogEvent
  -- the nanoseconds of last_response_ms, timeout_ms
  triggered_event : ℕ → ℕ → WatchdogEvent

unfoldable pub new : ℕ → ℕ → ℕ → Watchdog
new timeout_ms heartbeat_interval_ms max_missed = record {
  last_response_ns = 0;
  timeout_ns = timeout_ms * 1000000;
  heartbeat_interval_ns = heartbeat_interval_ms * 1000000;
  max_missed = max_missed;
  missed_count = 0;
  triggered = false;
  active = true;
}

unfoldable pub kernel_a_responded : Watchdog → ℕ → Watchdog
kernel_a_responded w now_ns = record w { last_response_ns = now_ns; missed_count = 0 }

-- A check past the deadline.
unfoldable pub missed_deadline : Watchdog → ℕ → Watchdog × WatchdogEvent
missed_deadline w elapsed_ns =
    let missed = (w.missed_count % 4294967296 + 1) % 4294967296 in
    let w' = record w { missed_count = add64 w.missed_count 1 } in
    if leb w.max_missed missed
    then (record w' { triggered = true }, triggered_event elapsed_ns (w.timeout_ns / 1000000))
    else (w', heartbeat_missed missed w.max_missed)

unfoldable pub check : Watchdog → ℕ → Watchdog × WatchdogEvent
unfolding missed_deadline
check w now_ns =
    if not w.active
    then (w, healthy 0)
    else if ltb w.timeout_ns (now_ns - w.last_response_ns)
    then missed_deadline w (now_ns - w.last_response_ns)
    else (w, healthy ((now_ns - w.last_response_ns) / 1000))

unfoldable pub reset : Watchdog → ℕ → Watchdog
unfolding kernel_a_responded
reset w now_ns = kernel_a_responded (record w { triggered = false; missed_count = 0 }) now_ns

unfoldable pub pause : Watchdog → Watchdog
pause w = record w { active = false }

unfoldable pub resume : Watchdog → ℕ → Watchdog
unfolding kernel_a_responded
resume w now_ns = kernel_a_responded (record w { active = true }) now_ns
