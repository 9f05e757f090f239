-- ===== src/Archive/Vault.antt =====
-- crates/trust-kernel/src/archivaris.rs: the vault, blocks that are encrypted by the airlock. A panic of
-- `open` is a result of its own.
use spaceshuttle.Prelude.{ℕ, List, [], ◌∷◌, ◌++◌, String, none, some, length, get_elem?}
use spaceshuttle.Prelude.Text.{format, decimal}
use spaceshuttle.Bifurcation.Types.{
  ClearanceLevel, as_str, JisClaim, EncryptedBlock, BifurcationResult, sealed, opened,
  access_denied, claim_invalid, integrity_failed, crypto_error, panicked,
}
use spaceshuttle.Bifurcation.Crypto.{Crypto}
use spaceshuttle.Bifurcation.Airlock.{AirlockBifurcation, Moment, seal, open_block}
use spaceshuttle.Archive.Archivaris.{Archivaris, ArchiveEntry, append}

pub data VaultStoreResult : Type 0 where
  -- block_index, encrypt_us, key_derive_us
  vault_sealed : ℕ → ℕ → ℕ → VaultStoreResult
  vault_failed : String → VaultStoreResult

pub data VaultRetrieveResult : Type 0 where
  -- plaintext, decrypt_us, key_derive_us
  vault_opened : List ℕ → ℕ → ℕ → VaultRetrieveResult
  -- required, presented, identity
  vault_denied : ClearanceLevel → ClearanceLevel → String → VaultRetrieveResult
  vault_claim_invalid : String → VaultRetrieveResult
  vault_integrity_failed : ℕ → VaultRetrieveResult
  not_found : ℕ → VaultRetrieveResult
  retrieve_failed : String → VaultRetrieveResult
  retrieve_panicked : VaultRetrieveResult

-- An entry of the vault's log, numbered by the length of the archive.
abbrev pub entry : Archivaris → String → String → String → String → ℕ → ArchiveEntry
entry a intent from_aint result tibet_token_type timestamp_ns = record {
  seq = length a.archive;
  intent = intent;
  from_aint = from_aint;
  result = result;
  tibet_token_type = tibet_token_type;
  timestamp_ns = timestamp_ns;
}

abbrev pub airlock : Archivaris → AirlockBifurcation → Archivaris
airlock a bifurcation = record a { bifurcation = bifurcation }

unfoldable pub sealed_entry : Archivaris → ℕ → ClearanceLevel → String → Moment → ℕ → ArchiveEntry
unfolding decimal as_str
sealed_entry a block_index clearance stored_by m elapsed_ns =
    entry a (format ("vault_store_block_" ∷ decimal block_index ∷ [])) stored_by
      (format (
        "Sealed: block="
        ∷ decimal block_index
        ∷ " clearance="
        ∷ as_str clearance
        ∷ " encrypt="
        ∷ decimal m.crypt_us
        ∷ "us"
        ∷ []))
      "VAULT_SEAL" elapsed_ns

unfoldable pub opened_entry : Archivaris → ℕ → String → JisClaim → Moment → ℕ → ArchiveEntry
unfolding decimal as_str
opened_entry a block_index opened_by claim m elapsed_ns =
    entry a (format ("vault_retrieve_block_" ∷ decimal block_index ∷ [])) opened_by
      (format (
        "Opened: block="
        ∷ decimal block_index
        ∷ " by="
        ∷ opened_by
        ∷ " clearance="
        ∷ as_str claim.clearance
        ∷ " decrypt="
        ∷ decimal m.crypt_us
        ∷ "us"
        ∷ []))
      "VAULT_OPEN" elapsed_ns

unfoldable pub denied_entry :
    Archivaris → ℕ → ClearanceLevel → ClearanceLevel → String → ℕ → ArchiveEntry
unfolding decimal as_str
denied_entry a block_index required presented identity elapsed_ns =
    entry a (format ("vault_retrieve_DENIED_block_" ∷ decimal block_index ∷ [])) identity
      (format (
        "ACCESS DENIED: block="
        ∷ decimal block_index
        ∷ " required="
        ∷ as_str required
        ∷ " presented="
        ∷ as_str presented
        ∷ " identity="
        ∷ identity
        ∷ []))
      "VAULT_DENIED" elapsed_ns

-- The block is stored, and that is logged.
unfoldable pub kept :
    Archivaris → EncryptedBlock → ClearanceLevel → String → Moment → ℕ → Archivaris
unfolding sealed_entry
kept a block clearance stored_by m elapsed_ns =
    append (record a { vault = a.vault ++ block ∷ [] })
      (sealed_entry a (length a.vault) clearance stored_by m elapsed_ns)

-- What follows the sealing.
unfoldable pub stored :
    Archivaris
    → BifurcationResult
    → ClearanceLevel
    → String
    → Moment
    → ℕ
    → Archivaris × VaultStoreResult
unfolding kept
stored a (sealed block) clearance stored_by m elapsed_ns = (
  kept a block clearance stored_by m elapsed_ns,
  vault_sealed (length a.vault) m.crypt_us m.key_derive_us,
)
stored a _ clearance stored_by m elapsed_ns = (a, vault_failed "Bifurcation seal failed")

-- What follows the opening.
unfoldable pub retrieved :
    Archivaris → BifurcationResult → ℕ → JisClaim → Moment → ℕ → Archivaris × VaultRetrieveResult
unfolding opened_entry denied_entry
retrieved a (opened plaintext opened_by) block_index claim m elapsed_ns = (
  append a (opened_entry a block_index opened_by claim m elapsed_ns),
  vault_opened plaintext m.crypt_us m.key_derive_us,
)
retrieved a (access_denied required presented identity) block_index claim m elapsed_ns = (
  append a (denied_entry a block_index required presented identity elapsed_ns),
  vault_denied required presented identity,
)
retrieved a (claim_invalid reason) block_index claim m elapsed_ns = (a, vault_claim_invalid reason)
retrieved a (integrity_failed expected got) block_index claim m elapsed_ns =
    (a, vault_integrity_failed block_index)
retrieved a panicked block_index claim m elapsed_ns = (a, retrieve_panicked)
retrieved a (sealed block) block_index claim m elapsed_ns =
    (a, retrieve_failed "Unexpected bifurcation result")
retrieved a (crypto_error reason) block_index claim m elapsed_ns =
    (a, retrieve_failed "Unexpected bifurcation result")

module _ (c : Crypto) where
  unfoldable pub vault_store :
      Archivaris → Moment → List ℕ → ClearanceLevel → String → ℕ → Archivaris × VaultStoreResult
  unfolding seal stored
  vault_store a m bytes clearance stored_by elapsed_ns =
      let (bifurcation, result) =
        seal c a.bifurcation m bytes (length a.vault) clearance stored_by in
      stored (airlock a bifurcation) result clearance stored_by m elapsed_ns

  unfoldable pub vault_retrieve :
      Archivaris → Moment → ℕ → JisClaim → ℕ → Archivaris × VaultRetrieveResult
  unfolding open_block retrieved
  vault_retrieve a m block_index claim elapsed_ns = elim (get_elem? a.vault block_index) [
    | none ↦ (a, not_found block_index)
    | some block ↦
        let (bifurcation, result) = open_block c a.bifurcation m block claim in
        retrieved (airlock a bifurcation) result block_index claim m elapsed_ns
  ]
