-- ===== src/Mapper/Tail.antt =====
-- The blocks behind the last layer (crates/trust-kernel/src/llm_mapper.rs).
use mathlib.Core.Bool.{false≢true}
use native.Mathlib.Nat.{le-div_iff_mul-le}
use spaceshuttle.Prelude.{
  ℕ, zero, suc, ◌*◌, ◌/◌, max, ◌≡◌, ◌≢◌, refl, sym, subst, ap, ◌∙◌, ◌≤◌, ◌<◌, List, [], ◌∷◌, String,
  true, ◌&&◌, some, some-injective, inl, inr, Bool-cases, arith, All, map, get_elem?,
  get_elem?-set_ne, count_if, ltb, ◌==◌, ==_iff, mul64,
}
use spaceshuttle.Raid.Config
use spaceshuttle.Raid.Config.{with_max_resident}
use spaceshuttle.Raid.Runs.{new-IsValid}
use spaceshuttle.Mapper.Manifest.{
  ManifestBlock, ModelManifest, block_count, blocks_per_layer, layer_of, is_layer, per_layer,
  indices_of, layer_blocks, synthetic_block, synthetic_blocks, synthetic,
}
use spaceshuttle.Mapper.Aperture.{
  ApertureStatus, unmapped, loading, mapped, evicted, ApertureBlock, LlmMemoryMapper,
  aperture_block, new, is_unmapped, is_mapped, in_ram, resident_count, min_resident_blocks,
  with_ram_budget_blocks,
}
use spaceshuttle.Mapper.Inference.{simulate_inference}
use spaceshuttle.Mapper.Steps.{Turns, turn_none, turn_in, turn_out, Steps, stop, onward, IsPlaced}
use spaceshuttle.Mapper.Loads.{Allows}
use spaceshuttle.Mapper.Budget.{IsSound, infer_from-Steps}

mapped_fresh : (s : ApertureStatus) → is_mapped s ≡ true → is_unmapped s ≡ true → ⊥
mapped_fresh mapped was fresh = false≢true fresh
mapped_fresh loading was fresh = false≢true fresh
mapped_fresh evicted was fresh = false≢true fresh
mapped_fresh (unmapped hash size) was fresh = false≢true was

-- A block that is not mapped yet, at an index that no step may load, stays as it is.
Turns-keeps :
    (idx : ℕ) {bs bs' : List ApertureBlock} (b : ApertureBlock)
    → Turns (λ (i : ℕ). i ≢ idx) bs bs'
    → get_elem? bs idx ≡ some b
    → is_unmapped b.status ≡ true
    → get_elem? bs' idx ≡ some b
Turns-keeps idx b turn_none found fresh = found
Turns-keeps idx {bs} b (turn_in i x other at) found fresh = get_elem?-set_ne bs _ other ∙ found
Turns-keeps idx {bs} b (turn_out i x at was) found fresh = elim (Bool-cases (i == idx)) [
  | inl same ↦
      let it : i ≡ idx = (==_iff i idx).0 same in
      let equal : b ≡ x =
        some-injective _ _ (sym found ∙ sym (ap (λ (k : ℕ). get_elem? bs k) it) ∙ at) in
      absurd (
        mapped_fresh x.status was
          (subst (λ (y : ApertureBlock). is_unmapped y.status ≡ true) equal fresh))
  | inr away ↦ get_elem?-set_ne bs _ (λ same. ground arith) ∙ found
]

Steps-keeps :
    (idx : ℕ) {m m' : LlmMemoryMapper} (b : ApertureBlock)
    → Steps (λ (i : ℕ). i ≢ idx) m m'
    → get_elem? m.aperture idx ≡ some b
    → is_unmapped b.status ≡ true
    → get_elem? m'.aperture idx ≡ some b
Steps-keeps idx b stop found fresh = found
Steps-keeps idx b (onward p s) found fresh =
    Turns-keeps idx b s.turned (Steps-keeps idx b p found fresh) fresh

layer_of-eq :
    (num_layers n each i l : ℕ)
    → is_layer (layer_of num_layers n each i) l ≡ true
    → i / max each 1 ≡ l
unfolding layer_of
layer_of-eq num_layers n each i l = elim (Bool-cases (ltb 0 num_layers && ltb i n)) [
  | inl known ↦ rw known (λ h. (==_iff (i / max each 1) l).0 h)
  | inr unknown ↦ rw unknown (λ h. absurd (false≢true h))
]

module _ (total num_layers n idx : ℕ)
    (behind : num_layers * max (per_layer n num_layers) 1 ≤ idx) where
  layer_blocks-avoid :
      (l k i : ℕ)
      → l < num_layers
      → All (λ (j : ℕ). j ≢ idx) (indices_of (synthetic_blocks total num_layers n i k) l)
  unfolding synthetic_blocks synthetic_block
  layer_blocks-avoid l zero i lt = tt
  layer_blocks-avoid l (suc k) i lt =
      let each = per_layer n num_layers in
      let rest = layer_blocks-avoid l k (suc i) lt in
      elim (Bool-cases (is_layer (layer_of num_layers n each i) l)) [
        | inl here ↦
            let at = layer_of-eq num_layers n each i l here in
            let positive : 0 < max each 1 = omega arith in
            rw (indices_of, here)
              (
                (λ same.
                    let deep : num_layers ≤ i / max each 1 =
                      (le-div_iff_mul-le positive).1 (omega (arith, behind, same)) in
                    omega (arith, deep, at, lt)),
                rest,
              )
        | inr elsewhere ↦ rw (indices_of, elsewhere) rest
      ]

-- In a sound mapper with a synthetic manifest, a block that is not mapped yet, with an index of at
-- least the number of layers times the blocks per layer (or times one, where that is zero), is
-- left as it is, not mapped, by a whole run of inference.
pub simulate_inference_skips_tail :
    (sha256_hex : List ℕ → String) (m : LlmMemoryMapper) (now : ℕ → ℕ → ℕ) (name : String)
    (total_bytes num_layers : ℕ) (quantization : String) (idx : ℕ) (b : ApertureBlock)
    → m.manifest ≡ synthetic name total_bytes num_layers quantization
    → IsSound m
    → num_layers * max (blocks_per_layer m.manifest) 1 ≤ idx
    → get_elem? m.aperture idx ≡ some b
    → is_unmapped b.status ≡ true
    → get_elem? (simulate_inference sha256_hex m now).0.aperture idx ≡ some b
unfolding simulate_inference synthetic blocks_per_layer layer_blocks
simulate_inference_skips_tail sha256_hex m now name total_bytes num_layers quantization idx b made
      sound behind found fresh =
    let n = block_count total_bytes in
    let behind' : num_layers * max (per_layer n num_layers) 1 ≤ idx =
      subst (λ (manifest : ModelManifest). num_layers * max (blocks_per_layer manifest) 1 ≤ idx)
        made behind in
    let allows : Allows (λ (i : ℕ). i ≢ idx) m.manifest =
      subst (Allows (λ (i : ℕ). i ≢ idx)) (sym made)
        (λ l lt. layer_blocks-avoid total_bytes num_layers n idx behind' l n 0 lt) in
    Steps-keeps idx b
      (infer_from-Steps sha256_hex {Q = λ (i : ℕ). i ≢ idx} m.manifest.num_layers m 0 now
        sound.placed allows (omega arith) sound.within).0
      found fresh

aperture-IsPlaced :
    (total num_layers n k i : ℕ)
    → IsPlaced i (map aperture_block (synthetic_blocks total num_layers n i k))
unfolding synthetic_blocks synthetic_block aperture_block
aperture-IsPlaced total num_layers n zero i = tt
aperture-IsPlaced total num_layers n (suc k) i =
    (refl, aperture-IsPlaced total num_layers n k (suc i))

none_mapped : (bs : List ManifestBlock) → count_if in_ram (map aperture_block bs) ≡ 0
unfolding aperture_block
none_mapped [] = refl
none_mapped (b ∷ bs) = none_mapped bs

-- A new mapper of a synthetic manifest is sound.
pub new-IsSound :
    (name : String) (total_bytes num_layers : ℕ) (quantization : String)
    → IsSound (new (synthetic name total_bytes num_layers quantization))
unfolding new synthetic resident_count Config.new Config.block_count
new-IsSound name total_bytes num_layers quantization =
    let n = block_count total_bytes in
    let empty = none_mapped (synthetic_blocks total_bytes num_layers n 0 n) in
    record {
      placed = aperture-IsPlaced total_bytes num_layers n n 0;
      within = omega (arith, empty);
      valid = new-IsValid (Config.new (mul64 n 2097152) "mapper.aint") (omega arith) (omega arith);
    }

-- A mapper with no more blocks in RAM than eviction spares stays sound under any budget.
pub with_ram_budget_blocks-IsSound :
    (m : LlmMemoryMapper) (max_blocks : ℕ)
    → IsSound m
    → resident_count m ≤ min_resident_blocks
    → IsSound (with_ram_budget_blocks m max_blocks)
unfolding with_ram_budget_blocks with_max_resident resident_count
with_ram_budget_blocks-IsSound m max_blocks sound few = record {
  placed = sound.placed;
  within = omega (arith, few);
  valid = record {
    positive = sound.valid.positive;
    fits = sound.valid.fits;
    counted = sound.valid.counted;
    laid_out = sound.valid.laid_out;
  };
}
