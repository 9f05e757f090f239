-- ===== src/Tests/Archive.antt =====
-- Kernel B at concrete frames and data (crates/trust-kernel/src/archivaris.rs).
use spaceshuttle.Prelude.{◌≡◌, refl, arith, List, [], ◌∷◌, ◌++◌, true}
use spaceshuttle.Prelude.Text.{byte_len, decimal}
use spaceshuttle.Kernel.Bus
use spaceshuttle.Kernel.Bus.{stamp_payload}
use spaceshuttle.Kernel.Watchdog
use spaceshuttle.Kernel.Snaft
use spaceshuttle.Kernel.Snaft.{triage, went_wrong}
use spaceshuttle.Kernel.Voorproever.{evaluate}
use spaceshuttle.Bifurcation.Types.{confidential, secret, restricted}
use spaceshuttle.Bifurcation.Keys.{new-IsSound}
use spaceshuttle.Archive.Token.{generate_incident, generate_rejected}
use spaceshuttle.Archive.Archivaris.{
  Archivaris, Reading, new, jis_denied, closed, bus_verify_failed, two_decimals, process,
  result_text,
}
use spaceshuttle.Archive.Vault.{
  vault_sealed, vault_opened, vault_denied, not_found, opened_entry, vault_store, vault_retrieve,
}
use spaceshuttle.Archive.Growth.{
  Call, process_one, store_one, retrieve_one, run, Extends, run-Extends,
}
use spaceshuttle.Archive.RoundTrip.{vault_store-vault_retrieve}
use spaceshuttle.Archive.Passage.{Arrives, evaluate-Arrives}
use spaceshuttle.Tests.Kernel.{gate, greeting, greeting_payload}
use spaceshuttle.Tests.Bifurcation.{toy, toy-IsLawful, dawn, officer}

abbrev noon : Reading
noon = record { timestamp = "2026-01-01T12:00:00+00:00"; execution_us = 3; elapsed_ns = 50 }

abbrev kernel_b : Archivaris
unfolding new
kernel_b = new toy true

decimals_test : (two_decimals 85 ≡ "0.85") × (two_decimals 105 ≡ "1.05")
unfolding two_decimals
decimals_test = (refl, refl)

result_text_test :
    result_text greeting_payload
    ≡ "Archived: intent='code:execute' from='root.aint' fira=0.85 syscalls=5"
unfolding result_text
result_text_test = refl

tokens_test :
    ((generate_incident greeting
        (triage (Snaft.new "code:execute") (went_wrong "stop"))
        "v7"
        3
        "t").eraan
      ≡ "vm:v7")
    × ((generate_rejected greeting "no snapshot" "t").eromheen ≡ "Rejection: no snapshot")
unfolding generate_incident generate_rejected
tokens_test = (refl, refl)

-- A payload without a sender is denied, also after a gap; without a seal it is refused; on a closed bus
-- nothing is looked at.
refusals_test :
    ((process kernel_b
        (Bus.new 1024)
        (record greeting_payload { from_aint = "" })
        greeting
        noon).1.1
      ≡ jis_denied "JIS: No agent identity (from_aint is empty)" 0)
    × ((process kernel_b
          (Bus.new 1024)
          (record greeting_payload { seq = 4; fira_score = 29 })
          greeting
          noon).1.1
        ≡ jis_denied "JIS: FIR/A score 0.29 below minimum 0.30" 4)
    × ((process kernel_b
          (Bus.new 1024)
          (record greeting_payload { voorproever_seal = "vp" })
          greeting
          noon).1.1
        ≡ bus_verify_failed "Voorproever seal verification failed" 0)
    × ((process kernel_b (Bus.new 2) greeting_payload greeting noon).1.1
        ≡ bus_verify_failed "Payload 3B exceeds bus max 2B" 0)
    × ((process kernel_b (Bus.shutdown (Bus.new 1024)) greeting_payload greeting noon).1.1 ≡ closed)
unfolding process new Bus.new Bus.shutdown byte_len
refusals_test = (refl, refl, refl, refl, refl)

abbrev calls : List Call
calls =
    process_one (Bus.new 1024) greeting_payload greeting noon
    ∷ store_one dawn (7 ∷ []) restricted "root.aint" 60
    ∷ retrieve_one dawn 0 officer 61
    ∷ []

vault_test :
    ((vault_store toy kernel_b dawn (7 ∷ []) secret "root.aint" 60).1 ≡ vault_sealed 0 6 4)
    × ((vault_retrieve toy kernel_b dawn 5 officer 61).1 ≡ not_found 5)
    × ((vault_retrieve toy
          (vault_store toy kernel_b dawn (7 ∷ []) secret "root.aint" 60).0
          dawn
          0
          (record officer { clearance = restricted })
          61).1
        ≡ vault_denied secret restricted "jasper")
unfolding vault_store vault_retrieve new byte_len
vault_test = (refl, refl, refl)

run-Extends_example : Extends toy kernel_b (run toy kernel_b calls)
run-Extends_example = run-Extends toy kernel_b calls

vault_store-vault_retrieve_example :
    let (a', answer) = vault_store toy kernel_b dawn (7 ∷ 8 ∷ []) confidential "root.aint" 60 in
    let b = run toy a' calls in
    let (b', result) = vault_retrieve toy b dawn 0 officer 70 in
    (answer ≡ vault_sealed 0 6 4)
    × (result ≡ vault_opened (7 ∷ 8 ∷ []) 6 4)
    × (b'.archive ≡ b.archive ++ (opened_entry b 0 "jasper" officer dawn 70 ∷ []))
unfolding new byte_len
vault_store-vault_retrieve_example =
    vault_store-vault_retrieve toy toy-IsLawful kernel_b dawn (7 ∷ 8 ∷ []) confidential "root.aint"
      60 calls dawn officer 70 (new-IsSound toy) (omega arith, refl, omega arith)

evaluate-Arrives_example :
    Arrives kernel_b noon greeting 0 (evaluate gate greeting 9 10).0.bus greeting_payload
unfolding evaluate Bus.new Watchdog.new byte_len decimal
evaluate-Arrives_example =
    evaluate-Arrives gate greeting 9 10 greeting_payload 5 kernel_b noon refl (refl, omega arith)
      refl (omega arith)
