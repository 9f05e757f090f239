-- ===== src/Kernel/Bus.antt =====
-- crates/trust-kernel/src/bus.rs: the one-way bus from Kernel A to Kernel B.
-- A call is one step; the trust score is in hundredths, and only carried along.
use spaceshuttle.Prelude.{
  ℕ, ◌-◌, List, [], ◌∷◌, String, Bool, true, false, not, ◌==◌, ltb, if◌then◌else◌, add64,
}
use spaceshuttle.Prelude.Text.{format, decimal, byte_len}

pub record BusPayload : Type 0 where
  pub seq : ℕ
  pub intent : String
  pub payload : String
  pub from_aint : String
  pub voorproever_seal : String
  pub observed_syscalls : List String
  pub fira_score : ℕ
  pub approved_at_ns : ℕ

pub record BusStats : Type 0 where
  pub payloads_passed : ℕ
  pub payloads_rejected : ℕ
  pub sequence_gaps_detected : ℕ
  pub watchdog_kills : ℕ

pub record VirtualBus : Type 0 where
  pub next_expected_seq : ℕ
  pub seq_counter : ℕ
  pub max_payload_bytes : ℕ
  pub is_open : Bool
  pub stats : BusStats

pub data BusResult : Type 0 where
  delivered : BusPayload → BusResult
  bus_closed : BusResult
  -- size, max
  payload_too_large : ℕ → ℕ → BusResult
  -- expected, received, gap_size
  sequence_gap : ℕ → ℕ → ℕ → BusResult

unfoldable pub new : ℕ → VirtualBus
new max_payload_bytes = record {
  next_expected_seq = 0;
  seq_counter = 0;
  max_payload_bytes = max_payload_bytes;
  is_open = true;
  stats = record {
    payloads_passed = 0;
    payloads_rejected = 0;
    sequence_gaps_detected = 0;
    watchdog_kills = 0;
  };
}

unfoldable pub stamp_payload :
    VirtualBus → ℕ → String → String → String → List String → ℕ → VirtualBus × BusPayload
stamp_payload bus elapsed_ns intent payload from_aint syscalls fira_score = (
  record bus { seq_counter = add64 bus.seq_counter 1 },
  record {
    seq = bus.seq_counter;
    intent = intent;
    payload = payload;
    from_aint = from_aint;
    voorproever_seal =
        format ("vp_seal_seq" ∷ decimal bus.seq_counter ∷ "_" ∷ decimal elapsed_ns ∷ []);
    observed_syscalls = syscalls;
    fira_score = fira_score;
    approved_at_ns = elapsed_ns;
  },
)

-- The payload is taken as the next one.
unfoldable pub passed : VirtualBus → BusPayload → VirtualBus
passed bus p = record bus {
  next_expected_seq = add64 p.seq 1;
  stats = record bus.stats { payloads_passed = add64 bus.stats.payloads_passed 1 };
}

-- The same after a gap, which is counted too. `saturating_sub` is `-` on ℕ.
unfoldable pub passed_gap : VirtualBus → BusPayload → VirtualBus
passed_gap bus p = record bus {
  next_expected_seq = add64 p.seq 1;
  stats = record bus.stats {
    payloads_passed = add64 bus.stats.payloads_passed 1;
    sequence_gaps_detected = add64 bus.stats.sequence_gaps_detected 1;
  };
}

unfoldable pub receive : VirtualBus → BusPayload → VirtualBus × BusResult
unfolding passed passed_gap byte_len
receive bus p =
    if not bus.is_open
    then (bus, bus_closed)
    else if ltb bus.max_payload_bytes (byte_len p.payload)
    then (bus, payload_too_large (byte_len p.payload) bus.max_payload_bytes)
    else if p.seq == bus.next_expected_seq
    then (passed bus p, delivered p)
    else (
      passed_gap bus p,
      sequence_gap bus.next_expected_seq p.seq (p.seq - bus.next_expected_seq),
    )

unfoldable pub shutdown : VirtualBus → VirtualBus
shutdown bus = record bus {
  is_open = false;
  stats = record bus.stats { watchdog_kills = add64 bus.stats.watchdog_kills 1 };
}

unfoldable pub reopen : VirtualBus → VirtualBus
reopen bus = record bus { is_open = true }
