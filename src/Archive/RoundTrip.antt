-- ===== src/Archive/RoundTrip.antt =====
-- Data in the vault of Kernel B (crates/trust-kernel/src/archivaris.rs) and back, with any calls between.
use spaceshuttle.Prelude.{
  ℕ, ◌≡◌, refl, ap, ◌∙◌, List, [], ◌∷◌, ◌++◌, ◌<◌, ◌≤◌, String, some, length, get_elem?,
}
use spaceshuttle.Prelude.Text.{byte_len}
use spaceshuttle.Bifurcation.Types.{
  ClearanceLevel, rank, EncryptedBlock, JisClaim, BifurcationResult, opened,
}
use spaceshuttle.Bifurcation.Crypto.{Crypto, IsLawful, hkdf_derive_block_key}
use spaceshuttle.Bifurcation.Airlock.{AirlockBifurcation, Moment, seal, open_block, encrypted}
use spaceshuttle.Bifurcation.Keys.{IsSound}
use spaceshuttle.Bifurcation.RoundTrip.{seal-open}
use spaceshuttle.Archive.Archivaris.{Archivaris}
use spaceshuttle.Archive.Vault.{
  VaultRetrieveResult, vault_sealed, vault_opened, opened_entry, airlock, stored, kept, retrieved,
  vault_store, vault_retrieve,
}
use spaceshuttle.Archive.Growth.{Call, run, run-Extends, vault_retrieve_found}

at_end :
    {A : Type 0} (xs ys : List A) (x : A) → get_elem? ((xs ++ (x ∷ [])) ++ ys) (length xs) ≡ some x
at_end [] ys x = refl
at_end (z ∷ xs) ys x = at_end xs ys x

-- The claim has an identity, a key of the right length, and at least the clearance.
abbrev pub IsEntitled : ClearanceLevel → JisClaim → Type 0
IsEntitled clearance claim =
    (0 < byte_len claim.identity)
    × (byte_len claim.ed25519_pub ≡ 64)
    × (rank clearance ≤ rank claim.clearance)

module _ (c : Crypto) where
  retrieved_opened :
      (a : Archivaris) (m : Moment) (i : ℕ) (claim : JisClaim) (t : ℕ) (block : EncryptedBlock)
      (plaintext : List ℕ)
      → get_elem? a.vault i ≡ some block
      → (open_block c a.bifurcation m block claim).1 ≡ opened plaintext claim.identity
      → ((vault_retrieve c a m i claim t).1 ≡ vault_opened plaintext m.crypt_us m.key_derive_us)
        × ((vault_retrieve c a m i claim t).0.archive
            ≡ a.archive ++ (opened_entry a i claim.identity claim m t ∷ []))
  unfolding retrieved
  retrieved_opened a m i claim t block plaintext found answer =
      let s = (open_block c a.bifurcation m block claim).0 in
      let all : vault_retrieve c a m i claim t
          ≡ retrieved (airlock a s) (opened plaintext claim.identity) i claim m t =
        vault_retrieve_found c a m i claim t block found
        ∙ ap (λ (o : BifurcationResult). retrieved (airlock a s) o i claim m t) answer in
      (
        ap (λ (o : Archivaris × VaultRetrieveResult). o.1) all,
        ap (λ (o : Archivaris × VaultRetrieveResult). o.0.archive) all,
      )

  -- Under the laws of the cryptography and with a sound airlock: data that is stored in the vault
  -- gets the number of blocks so far as its index, and comes back under that index to any claim
  -- with an identity, a key of the right length and at least the clearance it was stored with,
  -- after any other calls on Kernel B; the archive then ends in the entry of that opening.
  pub vault_store-vault_retrieve :
      (law : IsLawful c) (a : Archivaris) (m : Moment) (plaintext : List ℕ)
      (clearance : ClearanceLevel) (stored_by : String) (t : ℕ) (calls : List Call) (later : Moment)
      (claim : JisClaim) (t' : ℕ)
      → IsSound c a.bifurcation
      → IsEntitled clearance claim
      → let (a', answer) = vault_store c a m plaintext clearance stored_by t in
        let b = run c a' calls in
        let (b', result) = vault_retrieve c b later (length a.vault) claim t' in
        (answer ≡ vault_sealed (length a.vault) m.crypt_us m.key_derive_us)
        × (result ≡ vault_opened plaintext later.crypt_us later.key_derive_us)
        × (b'.archive
            ≡ b.archive ++ (opened_entry b (length a.vault) claim.identity claim later t' ∷ []))
  unfolding vault_store seal stored kept encrypted
  vault_store-vault_retrieve law a m plaintext clearance stored_by t calls later claim t' sound
        entitled =
      let n = length a.vault in
      let block = encrypted c m plaintext n clearance stored_by (c.public_key m.ephemeral_secret) (
        hkdf_derive_block_key c (c.diffie_hellman m.ephemeral_secret a.bifurcation.system_pub) n) in
      let start = (vault_store c a m plaintext clearance stored_by t).0 in
      let later_state = run c start calls in
      let grown = run-Extends c start calls in
      let found : get_elem? later_state.vault n ≡ some block =
        ap (λ (bs : List EncryptedBlock). get_elem? bs n) grown.kept_all
        ∙ at_end a.vault grown.blocks block in
      let answer : (open_block c later_state.bifurcation later block claim).1
          ≡ opened plaintext claim.identity =
        ap (λ (s : AirlockBifurcation). (open_block c s later block claim).1) grown.called
        ∙ seal-open c law a.bifurcation m later plaintext n clearance stored_by block grown.calls
            claim sound refl entitled in
      let back = retrieved_opened later_state later n claim t' block plaintext found answer in
      (refl, back.0, back.1)
