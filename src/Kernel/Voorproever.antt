-- ===== src/Kernel/Voorproever.antt =====
-- crates/trust-kernel/src/voorproever.rs: Kernel A, which screens every frame before the bus.
-- The frame is that of mux.rs. The bus and the watchdog are shared objects there and state here.
use spaceshuttle.Prelude.{
  ℕ, List, [], ◌∷◌, String, Bool, true, false, not, ◌||◌, if◌then◌else◌, length,
}
use spaceshuttle.Prelude.Text.{format, decimal, starts_with, contains}
use spaceshuttle.Kernel.Bus.{BusPayload, VirtualBus, stamp_payload}
use spaceshuttle.Kernel.Watchdog.{Watchdog, kernel_a_responded}
use spaceshuttle.Kernel.Snaft
use spaceshuttle.Kernel.Snaft.{SnaftMonitor, log_syscall}

pub record TibetMuxFrame : Type 0 where
  pub channel_id : ℕ
  pub intent : String
  pub from_aint : String
  pub payload : String

pub data FiraMode : Type 0 where
  live static : FiraMode

pub record Voorproever : Type 0 where
  pub voorproever_dryrun : Bool
  pub fira_scoring : FiraMode
  pub bus : VirtualBus
  pub watchdog : Watchdog

pub data VoorproeverVerdict : Type 0 where
  -- bus_payload, syscalls_checked
  pass : BusPayload → ℕ → VoorproeverVerdict
  -- reason, violations, observed_syscalls
  kill : String → List String → List String → VoorproeverVerdict
  reject : String → VoorproeverVerdict

-- A pattern in the payload and the syscall that it stands for.
abbrev pub dangerous_patterns : List (String × String)
dangerous_patterns =
    ("os.system", "sys_socket")
    ∷ ("subprocess", "sys_socket")
    ∷ ("curl ", "sys_socket")
    ∷ ("wget ", "sys_socket")
    ∷ ("bash", "sys_socket")
    ∷ ("/bin/sh", "sys_socket")
    ∷ ("eval(", "sys_ptrace")
    ∷ ("exec(", "sys_ptrace")
    ∷ ("ptrace", "sys_ptrace")
    ∷ ("mmap", "sys_mmap")
    ∷ ("dlopen", "sys_dlopen")
    ∷ ("LD_PRELOAD", "sys_dlopen")
    ∷ ("fork(", "sys_fork")
    ∷ ("clone(", "sys_clone")
    ∷ ("mount(", "sys_mount")
    ∷ ("reboot(", "sys_reboot")
    ∷ ("kexec", "sys_kexec_load")
    ∷ ("import socket", "sys_socket")
    ∷ ("import os", "sys_fork")
    ∷ ("__import__", "sys_dlopen")
    ∷ []

abbrev pub critical_patterns : List (String × String)
critical_patterns =
    ("os.system", "sys_socket")
    ∷ ("subprocess", "sys_socket")
    ∷ ("eval(", "sys_ptrace")
    ∷ ("ptrace", "sys_ptrace")
    ∷ ("LD_PRELOAD", "sys_dlopen")
    ∷ []

abbrev pub known_intents : List String
known_intents =
    "code:execute" ∷ "analyze_malware_sample" ∷ "file:scan" ∷ "call:voice" ∷ "call:video"
    ∷ "math_calculation" ∷ "data:transform" ∷ "data:validate" ∷ "shell:session" ∷ "shell:command"
    ∷ "http:get" ∷ "http:post" ∷ "http:put" ∷ "http:delete" ∷ "http:patch" ∷ "http:head"
    ∷ "http:options" ∷ "http:api" ∷ "http:auth" ∷ "http:upload" ∷ "http:webhook" ∷ "http:admin"
    ∷ "tls:handshake" ∷ "db:connect" ∷ "db:query" ∷ "db:redis" ∷ "dns:query" ∷ "dns:resolve"
    ∷ "mail:send" ∷ "ai:inference" ∷ "metrics:scrape" ∷ "mux:native" ∷ []

unfoldable pub starts_with_any : String → List String → Bool
unfolding starts_with
starts_with_any text [] = false
starts_with_any text (k ∷ rest) = starts_with text k || starts_with_any text rest

unfoldable pub is_known_intent : String → Bool
unfolding starts_with_any
is_known_intent intent = starts_with_any intent known_intents

-- The loop over patterns: each one that the payload contains is logged as its syscall.
unfoldable pub log_patterns : String → SnaftMonitor → List (String × String) → SnaftMonitor
unfolding contains log_syscall
log_patterns payload m [] = m
log_patterns payload m ((pattern_text, syscall) ∷ rest) =
    log_patterns payload (if contains payload pattern_text then log_syscall m syscall else m) rest

unfoldable pub log_all : SnaftMonitor → List String → SnaftMonitor
unfolding log_syscall
log_all m [] = m
log_all m (call ∷ rest) = log_all (log_syscall m call) rest

abbrev pub is_empty : List String → Bool
is_empty [] = true
is_empty (s ∷ ss) = false

unfoldable pub dry_run_syscalls : String → SnaftMonitor → SnaftMonitor
unfolding log_patterns log_all
dry_run_syscalls payload m =
    let m' = log_patterns payload (log_syscall m "sys_execve") dangerous_patterns in
    if is_empty m'.violations
    then log_all m' ("sys_read" ∷ "sys_write" ∷ "sys_brk" ∷ "sys_exit" ∷ [])
    else m'

unfoldable pub pattern_check_only : String → SnaftMonitor → SnaftMonitor
unfolding log_patterns
pattern_check_only payload m = log_patterns payload (log_syscall m "sys_execve") critical_patterns

-- 0.85 and 0.50, in hundredths.
unfoldable pub compute_fira : FiraMode → ℕ
compute_fira live = 85
compute_fira static = 50

unfoldable pub screened : Bool → TibetMuxFrame → SnaftMonitor
unfolding Snaft.new dry_run_syscalls pattern_check_only
screened voorproever_dryrun frame =
    if voorproever_dryrun
    then dry_run_syscalls frame.payload (Snaft.new frame.intent)
    else pattern_check_only frame.payload (Snaft.new frame.intent)

-- Steps 3 to 5, on the violations that the monitor has. `now_ns` is the time since the bus was made,
-- `later_ns` that since the watchdog was made.
unfoldable pub conclude :
    Voorproever
    → TibetMuxFrame
    → SnaftMonitor
    → List String
    → ℕ
    → ℕ
    → Voorproever × VoorproeverVerdict
unfolding stamp_payload kernel_a_responded compute_fira
conclude v frame m [] now_ns later_ns =
    let (bus, bus_payload) =
      stamp_payload v.bus now_ns frame.intent frame.payload frame.from_aint m.observed_syscalls
        (compute_fira v.fira_scoring) in
    (
      record v { bus = bus; watchdog = kernel_a_responded v.watchdog later_ns },
      pass bus_payload (length m.observed_syscalls),
    )
conclude v frame m (w ∷ ws) now_ns later_ns = (
  record v { watchdog = kernel_a_responded v.watchdog later_ns },
  kill (format ("SNAFT: " ∷ decimal (length (w ∷ ws)) ∷ " violation(s) detected" ∷ [])) (w ∷ ws)
      m.observed_syscalls,
)

unfoldable pub evaluate : Voorproever → TibetMuxFrame → ℕ → ℕ → Voorproever × VoorproeverVerdict
unfolding is_known_intent screened conclude
evaluate v frame now_ns later_ns =
    if not (is_known_intent frame.intent)
    then (
      v,
      reject (format ("Unknown intent '" ∷ frame.intent ∷ "' — no safe execution path" ∷ [])),
    )
    else (let m = screened v.voorproever_dryrun frame in
        conclude v frame m m.violations now_ns later_ns)
