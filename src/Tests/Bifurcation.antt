-- ===== src/Tests/Bifurcation.antt =====
-- The airlock theorems at a concrete toy cryptography (crates/trust-kernel/src/bifurcation.rs).
use spaceshuttle.Prelude.{
  ℕ, ◌+◌, ◌≡◌, refl, List, [], ◌∷◌, map, Option, none, some, ◌==◌, if◌then◌else◌, length, arith,
}
use spaceshuttle.Prelude.Text.{byte_len}
use spaceshuttle.Bifurcation.Types.{
  restricted, confidential, secret, JisClaim, EncryptedBlock, opened,
}
use spaceshuttle.Bifurcation.Crypto.{Crypto, IsLawful}
use spaceshuttle.Bifurcation.Session.{SessionKey}
use spaceshuttle.Bifurcation.Airlock.{Moment, new, seal, seal_session, open_block, encrypted}
use spaceshuttle.Bifurcation.Keys.{IsSound, new-IsSound}
use spaceshuttle.Bifurcation.Opening.{verdict, open_block-verdict}
use spaceshuttle.Bifurcation.Granted.{IsGranted, open_block_opened}
use spaceshuttle.Bifurcation.Runs.{Call, seal_one, open_one, rotate, run, run-IsSound}
use spaceshuttle.Bifurcation.RoundTrip.{seal-open, seal_session-open}
use spaceshuttle.Bifurcation.Batch.{seal_batch, open_batch}
use spaceshuttle.Bifurcation.Parallel.{
  parallel_seal, parallel_open, open_batch-parallel_open, parallel_seal-parallel_open,
}
use spaceshuttle.Bifurcation.BatchRoundTrip.{seal_batch-open_batch}

unfoldable pub unlocked : List ℕ → List ℕ → Option (List ℕ)
unlocked key [] = none
unlocked key (tag ∷ plaintext) = if tag == length key then some plaintext else none

-- A public key is its secret, a shared secret is the sum of the lengths, and the tag is the key's length.
abbrev pub toy : Crypto
toy = record {
  public_key = λ s. s;
  diffie_hellman = λ a b. (length a + length b) ∷ [];
  hkdf_expand = λ shared info. shared;
  encrypt = λ key nonce plaintext. length key ∷ plaintext;
  decrypt = λ key nonce ciphertext. unlocked key ciphertext;
  sha256 = λ bs. length bs ∷ [];
}

pub toy-IsLawful : IsLawful toy
unfolding unlocked
toy-IsLawful = record {
  dh_agree =
      λ a b. let sum : length a + length b ≡ length b + length a = omega arith in rw sum refl;
  decrypt_encrypt = λ key nonce plaintext. ground arith;
}

abbrev pub dawn : Moment
dawn = record {
  ephemeral_secret = 1 ∷ 2 ∷ 3 ∷ [];
  nonce = 9 ∷ [];
  now_ns = 5;
  key_derive_us = 4;
  crypt_us = 6;
}

abbrev pub officer : JisClaim
officer = record {
  identity = "jasper";
  ed25519_pub = "00112233445566778899aabbccddeeff00112233445566778899aabbccddeeff";
  clearance = secret;
  role = "admin";
  dept = "ops";
  claimed_at = "now";
  signature = "";
}

abbrev letter : EncryptedBlock
letter = (encrypted toy dawn (7 ∷ 8 ∷ []) 3 confidential "kernel" (1 ∷ 2 ∷ 3 ∷ []) (35 ∷ []))

abbrev others : List Call
others = seal_one dawn (4 ∷ []) 3 restricted "kernel" ∷ rotate ∷ open_one dawn letter officer ∷ []

officer-IsGranted : IsGranted toy letter officer
unfolding encrypted byte_len
officer-IsGranted = (omega arith, refl, omega arith)

open_block-verdict_example :
    (open_block toy (new toy) dawn letter officer).1
    ≡ verdict toy (new toy).system_secret letter officer
open_block-verdict_example = open_block-verdict toy (new toy) dawn letter officer (new-IsSound toy)

open_block_opened_example :
    IsGranted toy letter officer × (toy.sha256 (7 ∷ 8 ∷ []) ≡ letter.plaintext_hash)
unfolding open_block new encrypted unlocked byte_len
open_block_opened_example =
    open_block_opened toy (new toy) dawn letter officer (7 ∷ 8 ∷ []) "jasper" (new-IsSound toy) refl

seal-open_example :
    (open_block toy
      (run toy (seal toy (new toy) dawn (7 ∷ 8 ∷ []) 3 confidential "kernel").0 others)
      dawn
      letter
      officer).1
    ≡ opened (7 ∷ 8 ∷ []) "jasper"
unfolding seal new encrypted
seal-open_example =
    seal-open toy toy-IsLawful (new toy) dawn dawn (7 ∷ 8 ∷ []) 3 confidential "kernel" letter
      others officer (new-IsSound toy) refl officer-IsGranted

seal_session-open_example :
    (open_block toy
      (run toy (seal_session toy (new toy) dawn (7 ∷ 8 ∷ []) 3 confidential "kernel").0 others)
      dawn
      letter
      officer).1
    ≡ opened (7 ∷ 8 ∷ []) "jasper"
unfolding seal_session new encrypted
seal_session-open_example =
    seal_session-open toy toy-IsLawful (new toy) dawn dawn (7 ∷ 8 ∷ []) 3 confidential "kernel"
      letter others officer (new-IsSound toy) refl officer-IsGranted

run-IsSound_example :
    IsSound toy (run toy (new toy) others)
    × ((run toy (new toy) others).system_secret ≡ (new toy).system_secret)
run-IsSound_example = run-IsSound toy toy-IsLawful (new toy) others (new-IsSound toy)

abbrev pub dawn_session : SessionKey
dawn_session = record {
  shared_secret = 35 ∷ [];
  ephemeral_pub = 1 ∷ 2 ∷ 3 ∷ [];
  blocks_sealed = 1;
  max_blocks = 100000;
  created_at = 5;
  max_age = 300000000000;
}

abbrev letters : List (List ℕ × Moment)
letters = (7 ∷ 8 ∷ [], dawn) ∷ ([], dawn) ∷ (4 ∷ [], dawn) ∷ []

seal_batch-open_batch_example :
    (open_batch toy
      (run toy (seal_batch toy (new toy) dawn letters confidential "kernel").0 others)
      (seal_batch toy (new toy) dawn letters confidential "kernel").1
      officer).1
    ≡ some (record { plaintexts = map (λ item. item.0) letters; denied = 0 })
unfolding byte_len
seal_batch-open_batch_example =
    seal_batch-open_batch toy toy-IsLawful (new toy) dawn letters confidential "kernel" others
      officer (new-IsSound toy) (omega arith) refl (omega arith)

open_batch-parallel_open_example :
    (open_batch toy (new toy) (letter ∷ letter ∷ []) officer).1
    ≡ parallel_open toy (letter ∷ letter ∷ []) officer (new toy).system_secret
open_batch-parallel_open_example =
    open_batch-parallel_open toy (new toy) (letter ∷ letter ∷ []) officer (new-IsSound toy)

parallel_seal-parallel_open_example :
    (parallel_open toy
        (parallel_seal toy letters (new toy).system_secret confidential "kernel")
        officer
        (new toy).system_secret
      ≡ some (record { plaintexts = map (λ item. item.0) letters; denied = 0 }))
    × ((open_batch toy
          (new toy)
          (parallel_seal toy letters (new toy).system_secret confidential "kernel")
          officer).1
        ≡ some (record { plaintexts = map (λ item. item.0) letters; denied = 0 }))
unfolding byte_len
parallel_seal-parallel_open_example =
    parallel_seal-parallel_open toy (new toy) letters confidential "kernel" officer toy-IsLawful
      (new-IsSound toy) (omega arith) refl (omega arith)

-- A claim without an identity is denied every block.
denied_test :
    (open_batch toy (new toy) (letter ∷ letter ∷ []) (record officer { identity = "" })).1
    ≡ some (record { plaintexts = []; denied = 2 })
unfolding open_batch byte_len
denied_test = refl
