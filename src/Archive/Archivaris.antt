-- ===== src/Archive/Archivaris.antt =====
-- crates/trust-kernel/src/archivaris.rs: `Archivaris`. The bus that it shares with Kernel A is an argument
-- of `process` and a part of what it gives. Clocks and generators are arguments; the trust score is in
-- hundredths, as on the bus.
use spaceshuttle.Prelude.{
  ℕ, ◌/◌, ◌%◌, List, [], ◌∷◌, ◌++◌, String, Bool, not, Option, none, some, ◌==◌, ltb, if◌then◌else◌,
  length,
}
use spaceshuttle.Prelude.Text.{format, decimal, byte_len, starts_with}
use spaceshuttle.Kernel.Bus.{
  BusPayload, VirtualBus, BusResult, delivered, bus_closed, payload_too_large, sequence_gap,
  receive,
}
use spaceshuttle.Kernel.Voorproever.{TibetMuxFrame}
use spaceshuttle.Bifurcation.Types.{EncryptedBlock}
use spaceshuttle.Bifurcation.Crypto.{Crypto}
use spaceshuttle.Bifurcation.Airlock
use spaceshuttle.Bifurcation.Airlock.{AirlockBifurcation, Moment, seal, open_block}
use spaceshuttle.Archive.Token.{TibetProvenance, generate_success}

pub data ArchivarisResult : Type 0 where
  -- token, execution_us, bus_seq
  success : TibetProvenance → ℕ → ℕ → ArchivarisResult
  -- reason, bus_seq
  bus_verify_failed : String → ℕ → ArchivarisResult
  -- reason, bus_seq
  jis_denied : String → ℕ → ArchivarisResult
  closed : ArchivarisResult
  -- expected, received, result
  gap_seen : ℕ → ℕ → ArchivarisResult → ArchivarisResult

pub record ArchiveEntry : Type 0 where
  pub seq : ℕ
  pub intent : String
  pub from_aint : String
  pub result : String
  pub tibet_token_type : String
  pub timestamp_ns : ℕ

pub record Archivaris : Type 0 where
  pub jis_signing_per_action : Bool
  pub archive : List ArchiveEntry
  pub bifurcation : AirlockBifurcation
  pub vault : List EncryptedBlock

-- The clocks during a call: the text of the time, the time the call took, and that since the start.
pub record Reading : Type 0 where
  pub timestamp : String
  pub execution_us : ℕ
  pub elapsed_ns : ℕ

unfoldable pub new : Crypto → Bool → Archivaris
unfolding Airlock.new
new c jis_signing_per_action = record {
  jis_signing_per_action = jis_signing_per_action;
  archive = [];
  bifurcation = Airlock.new c;
  vault = [];
}

abbrev pub append : Archivaris → ArchiveEntry → Archivaris
append a entry = record a { archive = a.archive ++ entry ∷ [] }

-- `{:.2}` of a number of hundredths.
unfoldable pub two_decimals : ℕ → String
unfolding decimal
two_decimals score =
    format (decimal (score / 100) ∷ "." ∷ decimal (score / 10 % 10) ∷ decimal (score % 10) ∷ [])

unfoldable pub verify_voorproever_seal : BusPayload → Bool
unfolding starts_with
verify_voorproever_seal p = starts_with p.voorproever_seal "vp_seal_seq"

-- The reason of a denial, if it is one.
unfoldable pub jis_check : BusPayload → Option String
unfolding two_decimals byte_len
jis_check p =
    if byte_len p.from_aint == 0
    then some "JIS: No agent identity (from_aint is empty)"
    else if ltb p.fira_score 30
    then some
        (format ("JIS: FIR/A score " ∷ two_decimals p.fira_score ∷ " below minimum " ∷ "0.30" ∷ []))
    else none

unfoldable pub result_text : BusPayload → String
unfolding decimal two_decimals
result_text p = format (
    "Archived: intent='"
    ∷ p.intent
    ∷ "' from='"
    ∷ p.from_aint
    ∷ "' fira="
    ∷ two_decimals p.fira_score
    ∷ " syscalls="
    ∷ decimal (length p.observed_syscalls)
    ∷ [])

abbrev pub with_gap : Option (ℕ × ℕ) → ArchivarisResult → ArchivarisResult
with_gap none result = result
with_gap (some (expected, received)) result = gap_seen expected received result

unfoldable pub token_of : BusPayload → TibetMuxFrame → Reading → TibetProvenance
unfolding result_text generate_success decimal
token_of p frame r =
    generate_success frame (result_text p) (format ("archivaris_seq" ∷ decimal p.seq ∷ []))
      r.execution_us p.observed_syscalls r.timestamp

unfoldable pub entry_of : BusPayload → Reading → ArchiveEntry
unfolding result_text
entry_of p r = record {
  seq = p.seq;
  intent = p.intent;
  from_aint = p.from_aint;
  result = result_text p;
  tibet_token_type = "SAFE_EXECUTION";
  timestamp_ns = r.elapsed_ns;
}

-- Steps 4 to 7: the token, the entry and the result.
unfoldable pub accept :
    Archivaris
    → BusPayload
    → Option (ℕ × ℕ)
    → TibetMuxFrame
    → Reading
    → Archivaris × ArchivarisResult
unfolding token_of entry_of
accept a p seq_gap frame r =
    (append a (entry_of p r), with_gap seq_gap (success (token_of p frame r) r.execution_us p.seq))

-- Step 3, where the profile asks for it.
unfoldable pub jis_reason : Archivaris → BusPayload → Option String
unfolding jis_check
jis_reason a p = if a.jis_signing_per_action then jis_check p else none

-- Steps 2 to 7.
unfoldable pub verified :
    Archivaris
    → BusPayload
    → Option (ℕ × ℕ)
    → TibetMuxFrame
    → Reading
    → Archivaris × ArchivarisResult
unfolding verify_voorproever_seal jis_reason accept
verified a p seq_gap frame r =
    if not (verify_voorproever_seal p)
    then (a, bus_verify_failed "Voorproever seal verification failed" p.seq)
    else elim (jis_reason a p) [
      | some reason ↦ (a, jis_denied reason p.seq)
      | none ↦ accept a p seq_gap frame r
    ]

-- What follows the answer of the bus.
unfoldable pub after_receive :
    Archivaris → BusResult → BusPayload → TibetMuxFrame → Reading → Archivaris × ArchivarisResult
unfolding verified decimal
after_receive a (delivered p) bus_payload frame r = verified a p none frame r
after_receive a (sequence_gap expected received gap_size) bus_payload frame r =
    verified a bus_payload (some (expected, received)) frame r
after_receive a bus_closed bus_payload frame r = (a, closed)
after_receive a (payload_too_large size max) bus_payload frame r = (
  a,
  bus_verify_failed
      (format ("Payload " ∷ decimal size ∷ "B exceeds bus max " ∷ decimal max ∷ "B" ∷ []))
      bus_payload.seq,
)

unfoldable pub process :
    Archivaris
    → VirtualBus
    → BusPayload
    → TibetMuxFrame
    → Reading
    → VirtualBus × (Archivaris × ArchivarisResult)
unfolding receive after_receive
process a bus bus_payload original_frame r =
    let (bus', answer) = receive bus bus_payload in
    (bus', after_receive a answer bus_payload original_frame r)
