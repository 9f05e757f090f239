-- ===== src/Mapper/Manifest.antt =====
-- crates/trust-kernel/src/llm_mapper.rs: `ModelManifest`, the layout of a model's blocks.
use spaceshuttle.Prelude.{
  ℕ, zero, suc, ◌-◌, ◌*◌, ◌/◌, ◌%◌, max, List, [], ◌∷◌, String, Bool, false, ◌&&◌, Option, none,
  some, ◌==◌, ltb, if◌then◌else◌, add64,
}
use spaceshuttle.Prelude.Text.{format, decimal, hex_from}
use spaceshuttle.Raid.Config.{raid_block_size}

pub record ManifestBlock : Type 0 where
  pub index : ℕ
  pub hash : String
  pub size : ℕ
  pub layer : Option ℕ
  pub label : Option String

pub record ModelManifest : Type 0 where
  pub name : String
  pub total_bytes : ℕ
  pub num_layers : ℕ
  pub block_size : ℕ
  pub num_blocks : ℕ
  pub blocks : List ManifestBlock
  pub quantization : String
  pub manifest_format : String

-- `(total_bytes + block_size - 1) / block_size`
unfoldable pub block_count : ℕ → ℕ
block_count total_bytes = add64 total_bytes (raid_block_size - 1) / raid_block_size

unfoldable pub size_of : ℕ → ℕ → ℕ → ℕ
size_of total_bytes num_blocks i =
    if i == num_blocks - 1
    then (let remainder = total_bytes % raid_block_size in
        if ltb 0 remainder then remainder else raid_block_size)
    else raid_block_size

-- `{:064x}`, of a product that fits 128 bits.
unfoldable pub hash_of : ℕ → String
unfolding hex_from
hash_of i = hex_from 64 (i * 0xdeadbeefcafebabe) ""

unfoldable pub layer_of : ℕ → ℕ → ℕ → ℕ → Option ℕ
layer_of num_layers num_blocks blocks_per_layer i =
    if ltb 0 num_layers && ltb i num_blocks then some (i / max blocks_per_layer 1) else none

abbrev pub label_of : ℕ → ℕ → Option ℕ → Option String
label_of blocks_per_layer i none = none
label_of blocks_per_layer i (some l) =
    some (format ("layers." ∷ decimal l ∷ ".block." ∷ decimal (i % max blocks_per_layer 1) ∷ []))

-- `num_blocks / num_layers`, or all of them where there are no layers.
abbrev pub per_layer : ℕ → ℕ → ℕ
per_layer num_blocks num_layers = if ltb 0 num_layers then num_blocks / num_layers else num_blocks

unfoldable pub synthetic_block : ℕ → ℕ → ℕ → ℕ → ManifestBlock
unfolding size_of hash_of layer_of decimal
synthetic_block total_bytes num_layers num_blocks i =
    let each = per_layer num_blocks num_layers in
    let layer = layer_of num_layers num_blocks each i in
    record {
      index = i;
      hash = hash_of i;
      size = size_of total_bytes num_blocks i;
      layer = layer;
      label = label_of each i layer;
    }

-- `(i..i + n).map(..)`
unfoldable pub synthetic_blocks : ℕ → ℕ → ℕ → ℕ → ℕ → List ManifestBlock
unfolding synthetic_block
synthetic_blocks total_bytes num_layers num_blocks i zero = []
synthetic_blocks total_bytes num_layers num_blocks i (suc n) =
    synthetic_block total_bytes num_layers num_blocks i
    ∷ synthetic_blocks total_bytes num_layers num_blocks (suc i) n

unfoldable pub synthetic : String → ℕ → ℕ → String → ModelManifest
unfolding block_count synthetic_blocks
synthetic name total_bytes num_layers quantization =
    let num_blocks = block_count total_bytes in
    record {
      name = name;
      total_bytes = total_bytes;
      num_layers = num_layers;
      block_size = raid_block_size;
      num_blocks = num_blocks;
      blocks = synthetic_blocks total_bytes num_layers num_blocks 0 num_blocks;
      quantization = quantization;
      manifest_format = "synthetic";
    }

unfoldable pub blocks_per_layer : ModelManifest → ℕ
blocks_per_layer m = per_layer m.num_blocks m.num_layers

-- `b.layer == Some(layer)`
abbrev pub is_layer : Option ℕ → ℕ → Bool
is_layer none layer = false
is_layer (some l) layer = l == layer

abbrev pub indices_of : List ManifestBlock → ℕ → List ℕ
indices_of [] layer = []
indices_of (b ∷ bs) layer =
    let rest = indices_of bs layer in if is_layer b.layer layer then b.index ∷ rest else rest

unfoldable pub layer_blocks : ModelManifest → ℕ → List ℕ
layer_blocks m layer = indices_of m.blocks layer
