-- ===== src/Kernel/Screening.antt =====
-- What the screening of crates/trust-kernel/src/voorproever.rs and snaft.rs lets through.
use spaceshuttle.Prelude.{
  ℕ, ◌≡◌, refl, ap, sym, subst, ◌∙◌, List, [], ◌∷◌, ◌++◌, String, Bool, true, false, not, ◌&&◌,
  ◌||◌, if◌then◌else◌, Bool-cases, inl, inr,
}
use spaceshuttle.Prelude.Text.{contains, elem}
use spaceshuttle.Kernel.Bus.{BusPayload, stamp_payload}
use spaceshuttle.Kernel.Snaft
use spaceshuttle.Kernel.Snaft.{
  SnaftMonitor, Decision, Execution, finished, log_syscall, decided, triage, always_dangerous,
  intent_allowlist,
}
use spaceshuttle.Kernel.Voorproever.{
  TibetMuxFrame, Voorproever, pass, dangerous_patterns, critical_patterns, is_known_intent,
  log_patterns, log_all, dry_run_syscalls, pattern_check_only, screened, conclude, evaluate,
  is_empty,
}

-- The policy: an intent permits a syscall that it lists and that is not among the dangerous ones.
unfoldable pub permits : List String → String → Bool
unfolding elem
permits allowlist call = not (elem call always_dangerous) && elem call allowlist

-- Every pattern that occurs in the payload stands for a permitted syscall.
abbrev pub harmless : String → List String → List (String × String) → Bool
harmless payload allowlist [] = true
harmless payload allowlist ((pattern_text, syscall) ∷ rest) =
    (not (contains payload pattern_text) || permits allowlist syscall)
    && harmless payload allowlist rest

is_empty_append : (xs : List String) (x : String) → is_empty (xs ++ (x ∷ [])) ≡ false
is_empty_append [] x = refl
is_empty_append (y ∷ ys) x = refl

and_false : (b : Bool) → false ≡ (b && false)
and_false true = refl
and_false false = refl

and_true : (b : Bool) → (b && true) ≡ b
and_true true = refl
and_true false = refl

log_syscall-clean :
    (m : SnaftMonitor) (call : String)
    → is_empty (log_syscall m call).violations ≡ (is_empty m.violations && permits m.allowlist call)
unfolding log_syscall permits
log_syscall-clean m call = elim (Bool-cases (elem call always_dangerous)) [
  | inl a ↦ rw (a, is_empty_append) (and_false (is_empty m.violations))
  | inr a ↦ elim (Bool-cases (elem call m.allowlist)) [
    | inl b ↦ rw (a, b) (sym (and_true (is_empty m.violations)))
    | inr b ↦ rw (a, b, is_empty_append) (and_false (is_empty m.violations))
  ]
]

log_syscall-allowlist :
    (m : SnaftMonitor) (call : String) → (log_syscall m call).allowlist ≡ m.allowlist
unfolding log_syscall
log_syscall-allowlist m call = elim (Bool-cases (elem call always_dangerous)) [
  | inl a ↦ rw a refl
  | inr a ↦ elim (Bool-cases (elem call m.allowlist)) [
    | inl b ↦ rw (a, b) refl
    | inr b ↦ rw (a, b) refl
  ]
]

and_assoc : (a b d : Bool) → ((a && b) && d) ≡ (a && (b && d))
and_assoc true b d = refl
and_assoc false b d = refl

log_patterns-clean :
    (payload : String) (m : SnaftMonitor) (patterns : List (String × String))
    → is_empty (log_patterns payload m patterns).violations
      ≡ (is_empty m.violations && harmless payload m.allowlist patterns)
unfolding log_patterns
log_patterns-clean payload m [] = sym (and_true (is_empty m.violations))
log_patterns-clean payload m ((text, syscall) ∷ rest) =
    elim (contains payload text)
      as (λ found.
        is_empty (log_patterns payload (if found then log_syscall m syscall else m) rest).violations
        ≡ (is_empty m.violations
            && ((not found || permits m.allowlist syscall) && harmless payload m.allowlist rest))) [
              | true ↦
                  log_patterns-clean payload (log_syscall m syscall) rest
                  ∙ rw (log_syscall-clean m syscall, log_syscall-allowlist m syscall)
                      (and_assoc (is_empty m.violations) (permits m.allowlist syscall)
                        (harmless payload m.allowlist rest))
              | false ↦ log_patterns-clean payload m rest
            ]

-- The patterns that a mode looks for.
abbrev pub patterns_of : Bool → List (String × String)
patterns_of dryrun = if dryrun then dangerous_patterns else critical_patterns

and_right : (a b : Bool) → (a && b) ≡ true → b ≡ true
and_right true b h = h
and_right false b h = cc

first_clean :
    (payload : String) (m : SnaftMonitor) (call : String) (patterns : List (String × String))
    → is_empty (log_patterns payload (log_syscall m call) patterns).violations ≡ true
    → harmless payload m.allowlist patterns ≡ true
first_clean payload m call patterns h =
    subst (λ allowlist. harmless payload allowlist patterns ≡ true) (log_syscall-allowlist m call)
      (and_right _ _ (sym (log_patterns-clean payload (log_syscall m call) patterns) ∙ h))

clean_before :
    (m other : SnaftMonitor)
    → is_empty (if is_empty m.violations then other else m).violations ≡ true
    → is_empty m.violations ≡ true
clean_before m other = elim (Bool-cases (is_empty m.violations)) [
  | inl c ↦ λ h. c
  | inr c ↦ rw c (λ h. cc (sym c ∙ h))
]

-- The monitor of a payload is clean only if each pattern found stands for a permitted syscall.
screened-harmless :
    (dryrun : Bool) (frame : TibetMuxFrame)
    → is_empty (screened dryrun frame).violations ≡ true
    → harmless frame.payload (intent_allowlist frame.intent) (patterns_of dryrun) ≡ true
unfolding screened dry_run_syscalls pattern_check_only Snaft.new
screened-harmless false frame h =
    first_clean frame.payload (Snaft.new frame.intent) "sys_execve" critical_patterns h
screened-harmless true frame h =
    first_clean frame.payload (Snaft.new frame.intent) "sys_execve" dangerous_patterns
      (clean_before _ _ h)

pass_payload : (p q : BusPayload) (i j : ℕ) → pass p i ≡ pass q j → p ≡ q
pass_payload p q i j e = cc

conclude_pass :
    (v : Voorproever) (frame : TibetMuxFrame) (m : SnaftMonitor) (violations : List String)
    (now_ns later_ns : ℕ) (p : BusPayload) (checked : ℕ)
    → (conclude v frame m violations now_ns later_ns).1 ≡ pass p checked
    → (is_empty violations ≡ true) × (p.payload ≡ frame.payload) × (p.intent ≡ frame.intent)
unfolding conclude stamp_payload
conclude_pass v frame m [] now_ns later_ns p checked e =
    let same = pass_payload _ p _ checked e in
    (refl, ap (λ q. q.payload) (sym same), ap (λ q. q.intent) (sym same))
conclude_pass v frame m (w ∷ ws) now_ns later_ns p checked e = cc

-- A frame passes only if its intent is known and each dangerous pattern that the mode looks for and the
-- payload contains stands for a syscall that the intent permits; what is stamped for the bus is the frame's
-- own payload and intent.
pub evaluate_pass :
    (v : Voorproever) (frame : TibetMuxFrame) (now_ns later_ns : ℕ) (p : BusPayload) (checked : ℕ)
    → (evaluate v frame now_ns later_ns).1 ≡ pass p checked
    → (is_known_intent frame.intent ≡ true)
      × (harmless frame.payload (intent_allowlist frame.intent) (patterns_of v.voorproever_dryrun)
          ≡ true)
      × (p.payload ≡ frame.payload)
      × (p.intent ≡ frame.intent)
unfolding evaluate
evaluate_pass v frame now_ns later_ns p checked = elim (Bool-cases (is_known_intent frame.intent)) [
  | inl known ↦ rw known (λ e.
      let m = screened v.voorproever_dryrun frame in
      let (clean, payload, intent) =
        conclude_pass v frame m m.violations now_ns later_ns p checked e in
      (refl, screened-harmless v.voorproever_dryrun frame clean, payload, intent))
  | inr unknown ↦ rw unknown (λ e. cc)
]

-- Every call is permitted.
abbrev pub all_permitted : List String → List String → Bool
all_permitted allowlist [] = true
all_permitted allowlist (call ∷ rest) = permits allowlist call && all_permitted allowlist rest

log_all-clean :
    (m : SnaftMonitor) (calls : List String)
    → is_empty (log_all m calls).violations
      ≡ (is_empty m.violations && all_permitted m.allowlist calls)
unfolding log_all
log_all-clean m [] = sym (and_true (is_empty m.violations))
log_all-clean m (call ∷ rest) =
    log_all-clean (log_syscall m call) rest
    ∙ rw (log_syscall-clean m call, log_syscall-allowlist m call)
        (and_assoc (is_empty m.violations) (permits m.allowlist call)
          (all_permitted m.allowlist rest))

decided_safe :
    (m : SnaftMonitor) (violations : List String)
    → (decided m violations).is_safe ≡ is_empty violations
unfolding decided
decided_safe m [] = refl
decided_safe m (v ∷ vs) = refl

-- After a finished execution the decision is safe exactly if every syscall logged is permitted by the
-- intent and none is among the dangerous ones.
pub triage_is_safe :
    (intent : String) (calls : List String) (out : String)
    → (triage (log_all (Snaft.new intent) calls) (finished out)).is_safe
      ≡ all_permitted (intent_allowlist intent) calls
unfolding triage Snaft.new
triage_is_safe intent calls out =
    decided_safe (log_all (Snaft.new intent) calls) _ ∙ log_all-clean (Snaft.new intent) calls
