-- ===== src/Archive/Growth.antt =====
-- What any calls on Kernel B keep (crates/trust-kernel/src/archivaris.rs).
use mathlib.Core.List.{append-nil, append_assoc}
use spaceshuttle.Prelude.{
  ℕ, ◌≡◌, refl, sym, ap, subst, ◌∙◌, List, [], ◌∷◌, ◌++◌, String, Option, none, some, not, inl, inr,
  Bool-cases, Option-cases, get_elem?, length,
}
use spaceshuttle.Kernel.Bus.{
  BusPayload, VirtualBus, BusResult, delivered, bus_closed, payload_too_large, sequence_gap,
  receive,
}
use spaceshuttle.Kernel.Voorproever.{TibetMuxFrame}
use spaceshuttle.Bifurcation.Types.{
  ClearanceLevel, JisClaim, EncryptedBlock, BifurcationResult, sealed, opened, access_denied,
  claim_invalid, integrity_failed, crypto_error, panicked,
}
use spaceshuttle.Bifurcation.Crypto.{Crypto}
use spaceshuttle.Bifurcation.Airlock.{AirlockBifurcation, Moment, seal, open_block}
use spaceshuttle.Bifurcation.Runs
use spaceshuttle.Archive.Archivaris.{
  Archivaris, ArchiveEntry, Reading, append, verify_voorproever_seal, jis_reason, accept, verified,
  after_receive, process,
}
use spaceshuttle.Archive.Vault.{airlock, stored, kept, retrieved, vault_store, vault_retrieve}

-- Kernel A and others use the bus between two calls, so each call comes with the bus as it is then.
pub data Call : Type 0 where
  process_one : VirtualBus → BusPayload → TibetMuxFrame → Reading → Call
  store_one : Moment → List ℕ → ClearanceLevel → String → ℕ → Call
  retrieve_one : Moment → ℕ → JisClaim → ℕ → Call

module _ (c : Crypto) where
  unfoldable pub step : Archivaris → Call → Archivaris
  unfolding process vault_store vault_retrieve
  step a (process_one bus p frame r) = (process a bus p frame r).1.0
  step a (store_one m bytes clearance stored_by elapsed_ns) =
      (vault_store c a m bytes clearance stored_by elapsed_ns).0
  step a (retrieve_one m block_index claim elapsed_ns) =
      (vault_retrieve c a m block_index claim elapsed_ns).0

  unfoldable pub run : Archivaris → List Call → Archivaris
  unfolding step
  run a [] = a
  run a (call ∷ rest) = run (step a call) rest

  -- The one follows from the other by appending entries and blocks, and by calls on the airlock.
  pub record Extends (a b : Archivaris) : Type 0 where
    pub entries : List ArchiveEntry
    pub blocks : List EncryptedBlock
    pub calls : List Runs.Call
    pub logged : b.archive ≡ a.archive ++ entries
    pub kept_all : b.vault ≡ a.vault ++ blocks
    pub called : b.bifurcation ≡ Runs.run c a.bifurcation calls
    pub profile : b.jis_signing_per_action ≡ a.jis_signing_per_action

  Extends-refl : (a : Archivaris) → Extends a a
  unfolding Runs.run
  Extends-refl a = record {
    entries = [];
    blocks = [];
    calls = [];
    logged = sym (append-nil a.archive);
    kept_all = sym (append-nil a.vault);
    called = refl;
    profile = refl;
  }

  run-append :
      (s : AirlockBifurcation) (xs ys : List Runs.Call)
      → Runs.run c s (xs ++ ys) ≡ Runs.run c (Runs.run c s xs) ys
  unfolding Runs.run
  run-append s [] ys = refl
  run-append s (x ∷ xs) ys = run-append (Runs.step c s x) xs ys

  Extends-trans : (a b d : Archivaris) → Extends a b → Extends b d → Extends a d
  Extends-trans a b d h k = record {
    entries = h.entries ++ k.entries;
    blocks = h.blocks ++ k.blocks;
    calls = h.calls ++ k.calls;
    logged =
        k.logged
        ∙ ap (λ (xs : List ArchiveEntry). xs ++ k.entries) h.logged
        ∙ append_assoc a.archive h.entries k.entries;
    kept_all =
        k.kept_all
        ∙ ap (λ (xs : List EncryptedBlock). xs ++ k.blocks) h.kept_all
        ∙ append_assoc a.vault h.blocks k.blocks;
    called =
        k.called
        ∙ ap (λ (s : AirlockBifurcation). Runs.run c s k.calls) h.called
        ∙ sym (run-append a.bifurcation h.calls k.calls);
    profile = k.profile ∙ h.profile;
  }

  -- An entry alone.
  append-Extends : (a : Archivaris) (e : ArchiveEntry) → Extends a (append a e)
  unfolding Runs.run
  append-Extends a e = record {
    entries = e ∷ [];
    blocks = [];
    calls = [];
    logged = refl;
    kept_all = sym (append-nil a.vault);
    called = refl;
    profile = refl;
  }

  -- One call on the airlock alone.
  airlock-Extends :
      (a : Archivaris) (call : Runs.Call) → Extends a (airlock a (Runs.step c a.bifurcation call))
  unfolding Runs.run
  airlock-Extends a call = record {
    entries = [];
    blocks = [];
    calls = call ∷ [];
    logged = sym (append-nil a.archive);
    kept_all = sym (append-nil a.vault);
    called = refl;
    profile = refl;
  }

  verified-Extends :
      (a : Archivaris) (p : BusPayload) (gap : Option (ℕ × ℕ)) (frame : TibetMuxFrame) (r : Reading)
      → Extends a (verified a p gap frame r).0
  unfolding verified accept
  verified-Extends a p gap frame r = elim (Bool-cases (not (verify_voorproever_seal p))) [
    | inl forged ↦ rw forged (Extends-refl a)
    | inr signed ↦ elim (Option-cases (jis_reason a p)) [
      | inl granted ↦ rw (signed, granted) (append-Extends a _)
      | inr (reason, denied) ↦ rw (signed, denied) (Extends-refl a)
    ]
  ]

  process-Extends :
      (a : Archivaris) (answer : BusResult) (p : BusPayload) (frame : TibetMuxFrame) (r : Reading)
      → Extends a (after_receive a answer p frame r).0
  unfolding after_receive
  process-Extends a (delivered q) p frame r = verified-Extends a q none frame r
  process-Extends a (sequence_gap expected received size) p frame r =
      verified-Extends a p (some (expected, received)) frame r
  process-Extends a bus_closed p frame r = Extends-refl a
  process-Extends a (payload_too_large size max) p frame r = Extends-refl a

  stored-Extends :
      (a : Archivaris) (result : BifurcationResult) (clearance : ClearanceLevel) (by : String)
      (m : Moment) (t : ℕ)
      → Extends a (stored a result clearance by m t).0
  unfolding stored kept Runs.run
  stored-Extends a (sealed block) clearance by m t = record {
    entries = _ ∷ [];
    blocks = block ∷ [];
    calls = [];
    logged = refl;
    kept_all = refl;
    called = refl;
    profile = refl;
  }
  stored-Extends a (opened bs who) clearance by m t = Extends-refl a
  stored-Extends a (access_denied required presented who) clearance by m t = Extends-refl a
  stored-Extends a (claim_invalid reason) clearance by m t = Extends-refl a
  stored-Extends a (integrity_failed expected got) clearance by m t = Extends-refl a
  stored-Extends a (crypto_error reason) clearance by m t = Extends-refl a
  stored-Extends a panicked clearance by m t = Extends-refl a

  retrieved-Extends :
      (a : Archivaris) (result : BifurcationResult) (i : ℕ) (claim : JisClaim) (m : Moment) (t : ℕ)
      → Extends a (retrieved a result i claim m t).0
  unfolding retrieved
  retrieved-Extends a (opened bs who) i claim m t = append-Extends a _
  retrieved-Extends a (access_denied required presented who) i claim m t = append-Extends a _
  retrieved-Extends a (claim_invalid reason) i claim m t = Extends-refl a
  retrieved-Extends a (integrity_failed expected got) i claim m t = Extends-refl a
  retrieved-Extends a panicked i claim m t = Extends-refl a
  retrieved-Extends a (sealed block) i claim m t = Extends-refl a
  retrieved-Extends a (crypto_error reason) i claim m t = Extends-refl a

  vault_retrieve_missing :
      (a : Archivaris) (m : Moment) (i : ℕ) (claim : JisClaim) (t : ℕ)
      → get_elem? a.vault i ≡ none
      → (vault_retrieve c a m i claim t).0 ≡ a
  unfolding vault_retrieve
  vault_retrieve_missing a m i claim t missing = rw (vault_retrieve, missing) refl

  -- A block that is there is opened by the airlock.
  pub vault_retrieve_found :
      (a : Archivaris) (m : Moment) (i : ℕ) (claim : JisClaim) (t : ℕ) (block : EncryptedBlock)
      → get_elem? a.vault i ≡ some block
      → vault_retrieve c a m i claim t ≡ (
          let (s, result) = open_block c a.bifurcation m block claim in
          retrieved (airlock a s) result i claim m t)
  unfolding vault_retrieve
  vault_retrieve_found a m i claim t block found = rw (vault_retrieve, found) refl

  pub step-Extends : (a : Archivaris) (call : Call) → Extends a (step a call)
  unfolding step process vault_store vault_retrieve Runs.step
  step-Extends a (process_one bus p frame r) = process-Extends a (receive bus p).1 p frame r
  step-Extends a (store_one m bytes clearance by t) =
      let call = Runs.seal_one m bytes (length a.vault) clearance by in
      Extends-trans a (airlock a (Runs.step c a.bifurcation call)) _ (airlock-Extends a call) (
        stored-Extends (airlock a (Runs.step c a.bifurcation call))
          (seal c a.bifurcation m bytes (length a.vault) clearance by).1 clearance by m t)
  step-Extends a (retrieve_one m i claim t) = elim (Option-cases (get_elem? a.vault i)) [
    | inl missing ↦
        subst (Extends a) (sym (vault_retrieve_missing a m i claim t missing)) (Extends-refl a)
    | inr (block, found) ↦
        let call = Runs.open_one m block claim in
        subst (λ (o : _). Extends a o.0) (sym (vault_retrieve_found a m i claim t block found))
          (Extends-trans a (airlock a (Runs.step c a.bifurcation call)) _ (airlock-Extends a call)
            (retrieved-Extends (airlock a (Runs.step c a.bifurcation call)) _ i claim m t))
  ]

  -- Any calls on Kernel B, each with the bus in any state, leave its profile as it is and only
  -- append to its archive and to its vault, and all that they do to its airlock is a sequence of
  -- calls of the airlock.
  pub run-Extends : (a : Archivaris) (calls : List Call) → Extends a (run a calls)
  unfolding run
  run-Extends a [] = Extends-refl a
  run-Extends a (call ∷ rest) =
      Extends-trans a (step a call) (run (step a call) rest) (step-Extends a call)
        (run-Extends (step a call) rest)
