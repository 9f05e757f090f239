-- ===== src/Archive/Token.antt =====
-- crates/trust-kernel/src/tibet_token.rs: `TibetProvenance`, the token that each outcome gets. The text of
-- the time is an argument, and the execution time is in thousandths of the code's milliseconds. The JSON
-- is a library's.
use spaceshuttle.Prelude.{ℕ, List, [], ◌∷◌, String}
use spaceshuttle.Prelude.Text.{format}
use spaceshuttle.Kernel.Snaft.{Decision}
use spaceshuttle.Kernel.Voorproever.{TibetMuxFrame}

pub record TibetProvenance : Type 0 where
  pub tbz_version : String
  pub token_type : String
  pub timestamp : String
  pub ains_identity : String
  pub intent : String
  pub erin : String
  pub eraan : String
  pub eromheen : String
  pub erachter : String
  pub execution_time_us : ℕ
  pub vm_id : String
  pub cryptographic_seal : String
  pub violations : List String
  pub observed_syscalls : List String

unfoldable pub generate_success :
    TibetMuxFrame → String → String → ℕ → List String → String → TibetProvenance
generate_success frame result vm_id execution_us syscalls timestamp = record {
  tbz_version = "v0.3.1-AIRLOCK";
  token_type = "SAFE_EXECUTION";
  timestamp = timestamp;
  ains_identity = frame.from_aint;
  intent = frame.intent;
  erin = result;
  eraan = format ("vm:" ∷ vm_id ∷ []);
  eromheen = "SNAFT: All syscalls within intent bounds";
  erachter = frame.intent;
  execution_time_us = execution_us;
  vm_id = vm_id;
  cryptographic_seal = "tbz_sign_ed25519_safeboot";
  violations = [];
  observed_syscalls = syscalls;
}

unfoldable pub generate_incident : TibetMuxFrame → Decision → String → ℕ → String → TibetProvenance
generate_incident frame decision vm_id execution_us timestamp = record {
  tbz_version = "v0.3.1-AIRLOCK-INCIDENT";
  token_type = "INCIDENT_KILL";
  timestamp = timestamp;
  ains_identity = frame.from_aint;
  intent = frame.intent;
  erin = "VM Execution Terminated — intent bounds violated";
  eraan = format ("vm:" ∷ vm_id ∷ []);
  eromheen = format ("Triage: KILL. " ∷ decision.reason ∷ []);
  erachter = frame.intent;
  execution_time_us = execution_us;
  vm_id = vm_id;
  cryptographic_seal = "tbz_sign_ed25519_incident";
  violations = decision.violations;
  observed_syscalls = decision.observed_syscalls;
}

unfoldable pub generate_rejected : TibetMuxFrame → String → String → TibetProvenance
generate_rejected frame reason timestamp = record {
  tbz_version = "v0.3.1-AIRLOCK-REJECTED";
  token_type = "INTENT_REJECTED";
  timestamp = timestamp;
  ains_identity = frame.from_aint;
  intent = frame.intent;
  erin = "Intent rejected — no safe snapshot available";
  eraan = "none";
  eromheen = format ("Rejection: " ∷ reason ∷ []);
  erachter = frame.intent;
  execution_time_us = 0;
  vm_id = "none";
  cryptographic_seal = "tbz_sign_ed25519_rejection";
  violations = [];
  observed_syscalls = [];
}
