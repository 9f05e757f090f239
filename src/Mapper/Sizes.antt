-- ===== src/Mapper/Sizes.antt =====
-- The layout of a synthetic manifest (crates/trust-kernel/src/llm_mapper.rs).
use spaceshuttle.Prelude.{
  ℕ, zero, suc, ◌+◌, ◌-◌, ◌*◌, ◌/◌, ◌%◌, ◌≡◌, refl, ◌≤◌, ◌<◌, List, [], ◌∷◌, String, true, false,
  arith, All, add64, u64_mod, ◌==◌, ltb, inl, inr, Bool-cases,
}
use spaceshuttle.Raid.Config.{raid_block_size}
use spaceshuttle.Mapper.Manifest.{
  ManifestBlock, block_count, size_of, synthetic_block, synthetic_blocks, synthetic,
}

abbrev pub sum_block_sizes : List ManifestBlock → ℕ
sum_block_sizes [] = 0
sum_block_sizes (b ∷ bs) = b.size + sum_block_sizes bs

-- A block holds something, and no more than a block of the controller.
abbrev pub IsSized : ManifestBlock → Type 0
IsSized b = (0 < b.size) × (b.size ≤ raid_block_size)

size_of_inner : (total n i : ℕ) → suc i < n → size_of total n i ≡ raid_block_size
unfolding size_of
size_of_inner total n i h = let other : (i == n - 1) ≡ false = ground arith in rw other refl

size_of_last :
    (total n i : ℕ)
    → suc i ≡ n
    → n ≡ (total + 2097151) / 2097152
    → size_of total n i + i * 2097152 ≡ total
unfolding size_of
size_of_last total n i h e =
    let last : (i == n - 1) ≡ true = ground arith in
    elim (Bool-cases (ltb 0 (total % 2097152))) [
      | inl some_left ↦ rw (last, some_left) (ground arith)
      | inr none_left ↦ rw (last, none_left) (ground arith)
    ]

module _ (total num_layers n : ℕ) (blocks : n ≡ (total + 2097151) / 2097152) where
  sum-synthetic_blocks :
      (k i : ℕ)
      → i + suc k ≡ n
      → sum_block_sizes (synthetic_blocks total num_layers n i (suc k)) + i * 2097152 ≡ total
  unfolding synthetic_blocks synthetic_block
  sum-synthetic_blocks zero i h =
      let last = size_of_last total n i (omega (arith, h)) blocks in omega (arith, last)
  sum-synthetic_blocks (suc k) i h =
      let inner = size_of_inner total n i (omega (arith, h)) in
      let rest = sum-synthetic_blocks k (suc i) (omega (arith, h)) in omega (arith, inner, rest)

  size_of-IsSized : (i : ℕ) → (0 < size_of total n i) × (size_of total n i ≤ 2097152)
  unfolding size_of
  size_of-IsSized i = elim (Bool-cases (i == n - 1)) [
    | inl last ↦ elim (Bool-cases (ltb 0 (total % 2097152))) [
      | inl some_left ↦ rw (last, some_left) (ground arith, omega arith)
      | inr none_left ↦ rw (last, none_left) (omega arith, omega arith)
    ]
    | inr inner ↦ rw inner (omega arith, omega arith)
  ]

  sizes-synthetic_blocks : (k i : ℕ) → All IsSized (synthetic_blocks total num_layers n i k)
  unfolding synthetic_blocks synthetic_block
  sizes-synthetic_blocks zero i = tt
  sizes-synthetic_blocks (suc k) i = (size_of-IsSized i, sizes-synthetic_blocks k (suc i))

  sum-all_blocks :
      (k : ℕ) → k ≡ n → sum_block_sizes (synthetic_blocks total num_layers n 0 k) ≡ total
  unfolding synthetic_blocks
  sum-all_blocks zero h = omega (arith, blocks, h)
  sum-all_blocks (suc k) h =
      let all = sum-synthetic_blocks k 0 (omega (arith, h)) in omega (arith, all)

block_count_exact :
    (total : ℕ) → total + 2097152 ≤ u64_mod → block_count total ≡ (total + 2097151) / 2097152
unfolding block_count
block_count_exact total room =
    let exact : add64 total 2097151 ≡ total + 2097151 = omega arith in rw exact refl

-- Where the size of the model leaves room for one more block below 2 ^ 64, the blocks of a
-- synthetic manifest hold together exactly the bytes of the model, each at least one byte and at
-- most a block of the controller.
pub synthetic-IsSized :
    (name : String) (total_bytes num_layers : ℕ) (quantization : String)
    → total_bytes + raid_block_size ≤ u64_mod
    → let m = synthetic name total_bytes num_layers quantization in
      (sum_block_sizes m.blocks ≡ total_bytes) × All IsSized m.blocks
unfolding synthetic
synthetic-IsSized name total_bytes num_layers quantization room =
    let n = block_count total_bytes in
    let blocks = block_count_exact total_bytes room in
    (
      sum-all_blocks total_bytes num_layers n blocks n refl,
      sizes-synthetic_blocks total_bytes num_layers n blocks n 0,
    )
