-- ===== src/Catalog.antt =====
-- crates/chatty-metal/src/catalog.rs, the index of the weights on the drive, once its JSON is read. A
-- file of the model is its length and what its header says; arrays and hash maps are functions of the
-- index. Sums and products are of 64 bits, as in crates/chatty-metal/src/plan.rs.
mod Names
mod Placing
unfoldable pub use Names.*
pub mod Extents
pub mod Placed
mod Reading
mod Finished
pub mod Indexed
pub mod Rows
mod Runs
unfoldable pub use Placing.*
use chatty.Common.{
  ℕ, zero, suc, ◌+◌, ◌-◌, ◌*◌, ◌/◌, ◌^◌, Bool, true, false, ◌&&◌, ◌||◌, not, Option, none, some,
  List, [], ◌∷◌, map, max_of, ltb, leb, ◌==◌, if◌then◌else◌, length, get_elem?,
}

-- A directory, as the files of the shards that can be read.
abbrev pub Directory : Type 0
Directory = Text → Option ShardFile

pub record Catalog : Type 0 where
  pub config : ModelConfig
  pub shards : List Text
  pub sizes : Sizes
  pub expert_slot : ℕ
  pub core : List (Text × CoreTensor)
  pub engram : List EngramTable
  pub experts : List (List Extent)

-- `Build::shard`
unfoldable pub add_shard :
    ModelConfig → List (Text × Text) → ℕ → Text → Option ShardFile → Build → Result Error Build
add_shard config weight_map shard name none b = err unreadable
add_shard config weight_map shard name (some file) b = do
  fail_if (ltb max_json_bytes file.header_len) header_too_long
  fail_if (ltb file.file_len (8 + file.header_len)) header_past_end
  tensors ← or_fail file.tensors bad_header
  place_tensors config weight_map shard name (8 + file.header_len) file.file_len tensors b

-- The loop of `open` over the shards, from a number on.
unfoldable pub add_shards :
    ModelConfig → List (Text × Text) → Directory → ℕ → List Text → Build → Result Error Build
add_shards config weight_map dir shard [] b = ok b
add_shards config weight_map dir shard (name ∷ names) b = do
  fail_if (is_unsafe name) unsafe_name
  next ← add_shard config weight_map shard name (dir name) b
  add_shards config weight_map dir (shard + 1) names next

abbrev pub six_slots : (ℕ → Option Extent) → Result Error (List Extent)
six_slots slots = do
  a ← or_fail (slots 0) missing_weight
  b ← or_fail (slots 1) missing_weight
  c ← or_fail (slots 2) missing_weight
  d ← or_fail (slots 3) missing_weight
  e ← or_fail (slots 4) missing_weight
  f ← or_fail (slots 5) missing_weight
  ok (a ∷ b ∷ c ∷ d ∷ e ∷ f ∷ [])

-- `finish`, of the experts from a number on: as many as are left.
unfoldable pub finish_experts : ℕ → ℕ → (ℕ → ℕ → Option Extent) → Result Error (List (List Extent))
finish_experts zero index experts = ok []
finish_experts (suc left) index experts = do
  extents ← six_slots (experts index)
  others ← finish_experts left (index + 1) experts
  ok (extents ∷ others)

-- `finish`, of one table.
abbrev pub finish_table : ℕ → ℕ → ℕ → (ℕ → ℕ → Option (Extent × ℕ)) → Result Error EngramTable
finish_table dim layer rows tables = do
  (weight, weight_rows) ← or_fail (tables layer 0) missing_table
  (scale, scale_rows) ← or_fail (tables layer 1) missing_table
  fail_if (rows == 0 || not (weight_rows == rows) || not (scale_rows == rows)) wrong_rows
  fail_if (not (weight.len == mul64 rows dim)) wrong_width
  ok (record { layer = layer; rows = rows; weight = weight; scale = scale })

unfoldable pub finish_tables :
    ℕ → List ℕ → List ℕ → (ℕ → ℕ → Option (Extent × ℕ)) → Result Error (List EngramTable)
finish_tables dim (layer ∷ layers) (rows ∷ counts) tables = do
  t ← finish_table dim layer rows tables
  others ← finish_tables dim layers counts tables
  ok (t ∷ others)
finish_tables dim [] counts tables = ok []
finish_tables dim (layer ∷ layers) [] tables = ok []

abbrev pub sum_len : List Extent → ℕ
sum_len [] = 0
sum_len (e ∷ extents) = add64 e.len (sum_len extents)

abbrev pub largest : List (List Extent) → ℕ
largest [] = 0
largest (extents ∷ experts) = max_of (sum_len extents) (largest experts)

abbrev pub empty_build : Build
empty_build = record {
  sizes = record { core = 0; experts = 0; engram = 0; mtp = 0; vision = 0 };
  core = [];
  experts = λ index slot. none;
  engram = λ layer kind. none;
  seen = 0;
}

-- `Catalog::open`
unfoldable pub open_catalog :
    ModelConfig → EngramConfig → List (Text × Text) → Directory → Result Error Catalog
open_catalog config engrams weight_map dir = do
  fail_if (not (length engrams.layer_ids == length engrams.num_embeddings)) lengths_differ
  let names = shard_names weight_map
  fail_if (ltb 65535 (length names)) too_many_shards
  b ← add_shards config weight_map dir 0 names empty_build
  fail_if (not (b.seen == length weight_map)) tensors_missing
  experts ← finish_experts (expert_count_of config) 0 b.experts
  tables ← finish_tables engrams.embedding_dim engrams.layer_ids engrams.num_embeddings b.engram
  ok (record {
    config = config;
    shards = names;
    sizes = b.sizes;
    expert_slot = largest experts;
    core = b.core;
    engram = tables;
    experts = experts;
  })

-- `Catalog::expert`
abbrev pub expert_of : Catalog → ℕ → ℕ → Option (List Extent)
expert_of c layer x =
    if leb c.config.n_routed_experts x || leb (2 ^ 64) (layer * c.config.n_routed_experts)
    then none
    else get_elem? c.experts (add64 (layer * c.config.n_routed_experts) x)
