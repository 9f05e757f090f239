-- ===== src/Bifurcation/KeyCache.antt =====
-- crates/trust-kernel/src/bifurcation.rs: `KeyCache`, derived keys by ephemeral key and block index.
use spaceshuttle.Prelude.{
  ℕ, suc, ◌≡◌, refl, ◌≤◌, List, [], ◌∷◌, Option, none, some, Bool, true, false, ◌&&◌, ◌==◌, leb,
  if◌then◌else◌, arith, length, some-injective, All, add64, same_bytes, same_bytes→≡,
}

pub record CachedKey : Type 0 where
  pub ephemeral_pub : List ℕ
  pub block_index : ℕ
  pub aes_key : List ℕ

-- The map as an association list with one entry for a key.
pub record KeyCache : Type 0 where
  pub derived_keys : List CachedKey
  pub max_entries : ℕ
  pub hits : ℕ
  pub misses : ℕ

unfoldable pub new : ℕ → KeyCache
new max_entries = record { derived_keys = []; max_entries = max_entries; hits = 0; misses = 0 }

abbrev pub is_for : List ℕ → ℕ → CachedKey → Bool
is_for ephemeral_pub block_index e =
    (e.block_index == block_index) && same_bytes e.ephemeral_pub ephemeral_pub

unfoldable pub lookup : List CachedKey → List ℕ → ℕ → Option (List ℕ)
lookup [] ephemeral_pub block_index = none
lookup (e ∷ rest) ephemeral_pub block_index =
    if is_for ephemeral_pub block_index e
    then some e.aes_key
    else lookup rest ephemeral_pub block_index

unfoldable pub insert : CachedKey → List CachedKey → List CachedKey
insert k [] = k ∷ []
insert k (e ∷ rest) = if is_for k.ephemeral_pub k.block_index e then k ∷ rest else e ∷ insert k rest

-- The cache after a lookup that came to `found`, and the answer.
unfoldable pub counted : KeyCache → Option (List ℕ) → KeyCache × Option (List ℕ)
counted c (some key) = (record c { hits = add64 c.hits 1 }, some key)
counted c none = (record c { misses = add64 c.misses 1 }, none)

unfoldable pub get : KeyCache → List ℕ → ℕ → KeyCache × Option (List ℕ)
unfolding lookup counted
get c ephemeral_pub block_index = counted c (lookup c.derived_keys ephemeral_pub block_index)

-- A full cache is cleared before the insertion.
unfoldable pub put : KeyCache → List ℕ → ℕ → List ℕ → KeyCache
unfolding insert
put c ephemeral_pub block_index aes_key =
    let kept = if leb c.max_entries (length c.derived_keys) then [] else c.derived_keys in
    record c {
      derived_keys =
          insert
            (record { ephemeral_pub = ephemeral_pub; block_index = block_index; aes_key = aes_key })
            kept;
    }

unfoldable pub flush : KeyCache → KeyCache
flush c = record c { derived_keys = []; hits = 0; misses = 0 }

length-insert : (k : CachedKey) (m : List CachedKey) → length (insert k m) ≤ suc (length m)
unfolding insert
length-insert k [] = omega arith
length-insert k (e ∷ rest) = ground (arith, length-insert k rest)

-- The cache never outgrows its limit, whatever it held before, if the limit is not 0.
pub length-put :
    (c : KeyCache) (ephemeral_pub : List ℕ) (block_index : ℕ) (aes_key : List ℕ)
    → 1 ≤ c.max_entries
    → length (put c ephemeral_pub block_index aes_key).derived_keys ≤ c.max_entries
unfolding put
length-put c ephemeral_pub block_index aes_key positive =
    let k : CachedKey = record {
      ephemeral_pub = ephemeral_pub;
      block_index = block_index;
      aes_key = aes_key;
    } in
    ground (arith, length-insert k [], length-insert k c.derived_keys)

module _ {κ} (P : CachedKey → Type κ) where
  insert-All : (k : CachedKey) (m : List CachedKey) → P k → All P m → All P (insert k m)
  unfolding insert
  insert-All k [] h hs = (h, tt)
  insert-All k (e ∷ rest) h (p, ps) =
      elim (is_for k.ephemeral_pub k.block_index e)
        as (λ b. All P (if b then k ∷ rest else e ∷ insert k rest)) [
          | true ↦ (h, ps)
          | false ↦ (p, insert-All k rest h ps)
        ]

  -- Whatever holds of every cached key holds after a key of which it holds was put in.
  pub put-All :
      (c : KeyCache) (ephemeral_pub : List ℕ) (block_index : ℕ) (aes_key : List ℕ)
      → P (record { ephemeral_pub = ephemeral_pub; block_index = block_index; aes_key = aes_key })
      → All P c.derived_keys
      → All P (put c ephemeral_pub block_index aes_key).derived_keys
  unfolding put
  put-All c ephemeral_pub block_index aes_key h hs =
      let k : CachedKey = record {
        ephemeral_pub = ephemeral_pub;
        block_index = block_index;
        aes_key = aes_key;
      } in
      elim (leb c.max_entries (length c.derived_keys))
        as (λ b. All P (insert k (if b then [] else c.derived_keys))) [
          | true ↦ insert-All k [] h tt
          | false ↦ insert-All k c.derived_keys h hs
        ]

  -- A key that is found is that of an entry for the ephemeral key and the index asked for.
  abbrev pub Found : List ℕ → ℕ → List ℕ → Type κ
  Found ephemeral_pub block_index key =
      (e : CachedKey) × P e × (is_for ephemeral_pub block_index e ≡ true) × (e.aes_key ≡ key)

  pub lookup-Found :
      (m : List CachedKey) (ephemeral_pub : List ℕ) (block_index : ℕ) (key : List ℕ)
      → All P m
      → lookup m ephemeral_pub block_index ≡ some key
      → Found ephemeral_pub block_index key
  unfolding lookup
  lookup-Found [] ephemeral_pub block_index key hs found = cc
  lookup-Found (e ∷ rest) ephemeral_pub block_index key (p, ps) found =
      elim (is_for ephemeral_pub block_index e)
          as (λ b.
            is_for ephemeral_pub block_index e ≡ b
            → (if b then some e.aes_key else lookup rest ephemeral_pub block_index) ≡ some key
            → Found ephemeral_pub block_index key) [
              | true ↦ λ h at. (e, p, h, some-injective _ _ at)
              | false ↦ λ h at. lookup-Found rest ephemeral_pub block_index key ps at
            ]
        refl found

pub is_for_iff :
    (ephemeral_pub : List ℕ) (block_index : ℕ) (e : CachedKey)
    → is_for ephemeral_pub block_index e ≡ true
    → (e.block_index ≡ block_index) × (e.ephemeral_pub ≡ ephemeral_pub)
is_for_iff ephemeral_pub block_index e h =
    (ground arith, same_bytes→≡ e.ephemeral_pub ephemeral_pub (ground arith))
