-- ===== src/Kernel/Snaft.antt =====
-- crates/trust-kernel/src/snaft.rs: which syscalls an intent allows, and the monitor that records them.
use spaceshuttle.Prelude.{
  List, [], ◌∷◌, ◌++◌, String, Bool, true, false, not, str_eq, if◌then◌else◌, length,
}
use spaceshuttle.Prelude.Text.{format, decimal, starts_with, elem}

abbrev pub base_syscalls : List String
base_syscalls =
    "sys_execve" ∷ "sys_write" ∷ "sys_read" ∷ "sys_exit" ∷ "sys_brk" ∷ "sys_mprotect" ∷ []

-- The first row that fits an intent: an exact one, or a prefix.
unfoldable pub extra_syscalls : String → List String
unfolding starts_with
extra_syscalls intent =
    if str_eq intent "analyze_malware_sample"
    then "sys_open" ∷ "sys_stat" ∷ "sys_close" ∷ []
    else if str_eq intent "code:execute"
    then "sys_open" ∷ "sys_stat" ∷ "sys_close" ∷ "sys_getpid" ∷ []
    else if str_eq intent "file:scan"
    then "sys_open" ∷ "sys_stat" ∷ "sys_close" ∷ "sys_getdents" ∷ []
    else if starts_with intent "call:voice"
    then "sys_sendto" ∷ "sys_recvfrom" ∷ "sys_ioctl" ∷ []
    else if starts_with intent "call:video"
    then "sys_sendto" ∷ "sys_recvfrom" ∷ "sys_ioctl" ∷ "sys_mmap" ∷ []
    else if starts_with intent "shell:"
    then "sys_open" ∷ "sys_stat" ∷ "sys_close" ∷ "sys_getpid" ∷ "sys_ioctl" ∷ []
    else if starts_with intent "http:"
    then "sys_open" ∷ "sys_stat" ∷ "sys_close" ∷ "sys_sendto" ∷ "sys_recvfrom" ∷ []
    else if starts_with intent "tls:"
    then "sys_open" ∷ "sys_stat" ∷ "sys_close" ∷ []
    else if starts_with intent "db:"
    then "sys_open" ∷ "sys_stat" ∷ "sys_close" ∷ "sys_sendto" ∷ "sys_recvfrom" ∷ []
    else if starts_with intent "dns:"
    then "sys_sendto" ∷ "sys_recvfrom" ∷ []
    else if starts_with intent "mail:"
    then "sys_open" ∷ "sys_sendto" ∷ "sys_recvfrom" ∷ []
    else if starts_with intent "ai:"
    then "sys_open" ∷ "sys_stat" ∷ "sys_close" ∷ "sys_sendto" ∷ "sys_recvfrom" ∷ "sys_mmap" ∷ []
    else if starts_with intent "metrics:"
    then "sys_open" ∷ "sys_stat" ∷ "sys_sendto" ∷ []
    else if str_eq intent "mux:native"
    then "sys_open" ∷ "sys_stat" ∷ "sys_close" ∷ []
    else []

unfoldable pub intent_allowlist : String → List String
unfolding extra_syscalls
intent_allowlist intent = base_syscalls ++ extra_syscalls intent

abbrev pub always_dangerous : List String
always_dangerous =
    "sys_ptrace" ∷ "sys_socket" ∷ "sys_connect" ∷ "sys_dlopen" ∷ "sys_fork" ∷ "sys_clone"
    ∷ "sys_mount" ∷ "sys_reboot" ∷ "sys_kexec_load" ∷ []

pub record SnaftMonitor : Type 0 where
  pub intent : String
  pub observed_syscalls : List String
  pub violations : List String
  pub allowlist : List String

pub record Decision : Type 0 where
  pub is_safe : Bool
  pub reason : String
  pub violations : List String
  pub observed_syscalls : List String

pub data Execution : Type 0 where
  finished : String → Execution
  went_wrong : String → Execution

unfoldable pub new : String → SnaftMonitor
unfolding intent_allowlist
new intent = record {
  intent = intent;
  observed_syscalls = [];
  violations = [];
  allowlist = intent_allowlist intent;
}

unfoldable pub log_syscall : SnaftMonitor → String → SnaftMonitor
unfolding elem
log_syscall m call =
    let observed = m.observed_syscalls ++ (call ∷ []) in
    if elem call always_dangerous
    then record m {
      observed_syscalls = observed;
      violations =
          m.violations
          ++ (format (call ∷ " (blocked: dangerous syscall for any intent)" ∷ []) ∷ []);
    }
    else if not (elem call m.allowlist)
    then record m {
      observed_syscalls = observed;
      violations =
          m.violations
          ++ (format (call ∷ " (not allowed for intent '" ∷ m.intent ∷ "')" ∷ []) ∷ []);
    }
    else record m { observed_syscalls = observed }

-- `violations.join("; ")`
unfoldable pub joined : List String → String
joined [] = ""
joined (v ∷ []) = v
joined (v ∷ (w ∷ vs)) = format (v ∷ "; " ∷ joined (w ∷ vs) ∷ [])

unfoldable pub decided : SnaftMonitor → List String → Decision
unfolding joined
decided m [] = record {
  is_safe = true;
  reason = format (
      "All "
      ∷ decimal (length m.observed_syscalls)
      ∷ " syscalls within intent '"
      ∷ m.intent
      ∷ "' bounds"
      ∷ []);
  violations = [];
  observed_syscalls = m.observed_syscalls;
}
decided m (v ∷ vs) = record {
  is_safe = false;
  reason =
      format
        ("SNAFT detected " ∷ decimal (length (v ∷ vs)) ∷ " violation(s): " ∷ joined (v ∷ vs) ∷ []);
  violations = v ∷ vs;
  observed_syscalls = m.observed_syscalls;
}

unfoldable pub triage : SnaftMonitor → Execution → Decision
unfolding decided
triage m (went_wrong msg) = record {
  is_safe = false;
  reason = msg;
  violations = m.violations;
  observed_syscalls = m.observed_syscalls;
}
triage m (finished out) = decided m m.violations
