-- ===== src/Raid/BatchRemote.antt =====
-- `batch_restore_remote` (crates/trust-kernel/src/ram_raid.rs): which blocks it may bring in.
use spaceshuttle.Prelude.{
  ℕ, ◌≡◌, refl, sym, subst, ap, List, [], ◌∷◌, map, none, some, String, inl, inr, ◌⊎◌, Option-cases,
  add64, length, All,
}
use spaceshuttle.Cluster.MuxClient.{ClusterMuxClient, MuxResult, ok, err, fetch_batch, ◌>>=◌}
use spaceshuttle.Raid.Controller.{RamRaid}
use spaceshuttle.Raid.Restore.{restore_block}
use spaceshuttle.Raid.Batch.{each, requests, accept_all, batch_restore_remote, batch_remote}
use spaceshuttle.Raid.Moves.{one, keep}
use spaceshuttle.Raid.Restores.{found_block}
use spaceshuttle.Raid.BatchSteps.{Distinct, Away, Spares, each-Spares}
use spaceshuttle.Raid.BatchLoops.{then_all, unmoved, accept_all-Spares}

-- The blocks that a batch brings are those that were asked for, in their order.
abbrev Answers : List ℕ → MuxResult (List (ℕ × List ℕ)) → Type 0
Answers js (ok fetched) = map (λ x. x.0) fetched ≡ js
Answers js (err e) = Unit

Answers-next :
    (idx : ℕ) (js : List ℕ) (answer : MuxResult (List ℕ)) (rest : MuxResult (List (ℕ × List ℕ)))
    → Answers js rest
    → Answers (idx ∷ js) (answer >>= λ block. rest >>= λ found. ok ((idx, block) ∷ found))
Answers-next idx js (err e) rest h = tt
Answers-next idx js (ok block) (err e) h = tt
Answers-next idx js (ok block) (ok found) h = ap (λ is. idx ∷ is) h

fetch_batch-Answers :
    (client : ClusterMuxClient) (seq : ℕ) (js : List ℕ)
    → Answers js (fetch_batch client (requests seq js))
unfolding fetch_batch requests
fetch_batch-Answers client seq [] = refl
fetch_batch-Answers client seq (idx ∷ js) =
    Answers-next idx js (client.fetch_block idx none seq)
      (fetch_batch client (requests (add64 seq 1) js)) (fetch_batch-Answers client (add64 seq 1) js)

MuxResult-cases {ℓ} :
    {A : Type ℓ} (answer : MuxResult A)
    → ((a : A) × (answer ≡ ok a)) ⊎ ((e : String) × (answer ≡ err e))
MuxResult-cases (ok a) = inl (a, refl)
MuxResult-cases (err e) = inr (e, refl)

module _ (sha256_hex : List ℕ → String) where
  pub restores-Spares :
      (now_ns : ℕ) (js : List ℕ) (r : RamRaid)
      → Distinct js
      → All (Away r) js
      → Spares js r (each (λ s idx. restore_block sha256_hex s idx now_ns) r js).0
  restores-Spares now_ns js r =
      each-Spares (λ s idx. restore_block sha256_hex s idx now_ns)
        (λ s idx b at out. found_block sha256_hex s idx b now_ns at) js r

  received-Spares :
      (now_ns : ℕ) (js : List ℕ) (fetched : List (ℕ × List ℕ)) (r : RamRaid)
      → map (λ x. x.0) fetched ≡ js
      → Distinct js
      → All (Away r) js
      → Spares js r (accept_all sha256_hex now_ns r fetched).0
  received-Spares now_ns js fetched r e d a =
      subst (λ is. Spares is r (accept_all sha256_hex now_ns r fetched).0) e
        (accept_all-Spares sha256_hex now_ns fetched r (subst Distinct (sym e) d)
          (subst (All (Away r)) (sym e) a))

  abbrev stepped : List ℕ → RamRaid → RamRaid
  stepped js r = record r { bus_seq = add64 r.bus_seq (length js) }

  one_by_one :
      (now_ns : ℕ) (js : List ℕ) (r : RamRaid)
      → r.mux_client ≡ none
      → (batch_restore_remote sha256_hex r js now_ns).0
        ≡ (each (λ s idx. restore_block sha256_hex s idx now_ns) (stepped js r) js).0
  unfolding batch_restore_remote
  one_by_one now_ns js r gone = simp (batch_restore_remote, gone)

  all_answered :
      (now_ns : ℕ) (js : List ℕ) (r : RamRaid) (client : ClusterMuxClient)
      (fetched : List (ℕ × List ℕ))
      → r.mux_client ≡ some client
      → fetch_batch client (requests r.bus_seq js) ≡ ok fetched
      → (batch_restore_remote sha256_hex r js now_ns).0
        ≡ (accept_all sha256_hex now_ns (stepped js r) fetched).0
  unfolding batch_restore_remote
  all_answered now_ns js r client fetched e got = simp (batch_restore_remote, e, got)

  none_answered :
      (now_ns : ℕ) (js : List ℕ) (r : RamRaid) (client : ClusterMuxClient) (why : String)
      → r.mux_client ≡ some client
      → fetch_batch client (requests r.bus_seq js) ≡ err why
      → (batch_restore_remote sha256_hex r js now_ns).0 ≡ stepped js r
  unfolding batch_restore_remote
  none_answered now_ns js r client why e got = simp (batch_restore_remote, e, got)

  batch_restore_remote-Spares :
      (now_ns : ℕ) (js : List ℕ) (r : RamRaid)
      → Distinct js
      → All (Away r) js
      → Spares js r (batch_restore_remote sha256_hex r js now_ns).0
  unfolding batch_restore_remote
  batch_restore_remote-Spares now_ns js r d a =
      let s = stepped js r in
      let before : Spares [] r s = record {
        moves = one (keep refl refl refl);
        spared = λ j m away. away;
      } in
      elim (Option-cases r.mux_client) [
        | inl gone ↦
            subst (Spares js r) (sym (one_by_one now_ns js r gone))
              (then_all js r s _ before (restores-Spares now_ns js s d a))
        | inr (client, e) ↦ elim (MuxResult-cases (fetch_batch client (requests r.bus_seq js))) [
          | inl (fetched, got) ↦
              subst (Spares js r) (sym (all_answered now_ns js r client fetched e got)) (
                then_all js r s _ before (
                  received-Spares now_ns js fetched s
                    (subst (Answers js) got (fetch_batch-Answers client r.bus_seq js)) d a))
          | inr (why, got) ↦
              subst (Spares js r) (sym (none_answered now_ns js r client why e got))
                (then_all js r s s before (unmoved js s))
        ]
      ]

  pub batch_remote-Spares :
      (now_ns : ℕ) (js : List ℕ) (r : RamRaid)
      → Distinct js
      → All (Away r) js
      → Spares js r (batch_remote sha256_hex r js now_ns).0
  unfolding batch_remote
  batch_remote-Spares now_ns [] r d a = unmoved [] r
  batch_remote-Spares now_ns (i ∷ is) r d a = batch_restore_remote-Spares now_ns (i ∷ is) r d a
