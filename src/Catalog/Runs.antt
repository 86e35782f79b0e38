-- ===== src/Catalog/Runs.antt =====
-- Tests, and the theorems at a model of one expert and one table in one file.
use chatty.Common.{ℕ, ◌≡◌, ◌≤◌, ◌<◌, refl, Option, none, some, List, [], ◌∷◌, map, codes, arith}
use chatty.Common.Texts.{strip_prefix, same_text}
use chatty.Catalog.Names.{
  split_dots, read_digits, parse_expert, split_at, parse_engram_table, part_of, insert_name,
  shard_names, text_before,
}
use chatty.Catalog.Indexed.{IsIndex, open_catalog-IsIndex}
use chatty.Catalog.Rows.{IsRow, row_of-IsRow}
use chatty.Catalog.{
  ok, err, Text, TensorEntry, Directory, Catalog, ModelConfig, EngramConfig, Extent, EngramTable,
  bf16, row_extent, row_of, extent, has_name, is_listed, place_tensor, place_tensors, add_shard,
  add_shards, finish_experts, finish_tables, open_catalog, past_end, wrong_offsets,
}

abbrev config : ModelConfig
config = record {
  n_layers = 1;
  n_routed_experts = 1;
  n_activated_experts = 1;
  head_dim = 1;
  index_head_dim = 1;
  rope_head_dim = 1;
  kv_source_layers = [];
  compress_ratios = [];
}

abbrev engrams : EngramConfig
engrams = record { layer_ids = 0 ∷ []; num_embeddings = 2 ∷ []; embedding_dim = 4 }

abbrev entry : Text → List ℕ → ℕ → ℕ → Option TensorEntry
entry dtype shape begins ends =
    some (record { dtype = dtype; shape = shape; begins = begins; ends = ends })

abbrev tensors : List (Text × Option TensorEntry)
tensors =
    (codes "__metadata__", none)
    ∷ (codes "image_norm", entry (codes "F32") (1 ∷ []) 0 4)
    ∷ (codes "layers.0.engram.embed.scale", entry (codes "F8_E8M0") (2 ∷ 1 ∷ []) 4 6)
    ∷ (codes "layers.0.engram.embed.weight", entry (codes "I8") (2 ∷ 4 ∷ []) 8 16)
    ∷ (codes "layers.0.ffn.experts.0.w1.scale", entry (codes "F8_E8M0") (1 ∷ []) 16 17)
    ∷ (codes "layers.0.ffn.experts.0.w1.weight", entry (codes "I8") (1 ∷ []) 17 18)
    ∷ (codes "layers.0.ffn.experts.0.w2.scale", entry (codes "F8_E8M0") (1 ∷ []) 18 19)
    ∷ (codes "layers.0.ffn.experts.0.w2.weight", entry (codes "I8") (1 ∷ []) 19 20)
    ∷ (codes "layers.0.ffn.experts.0.w3.scale", entry (codes "F8_E8M0") (1 ∷ []) 20 21)
    ∷ (codes "layers.0.ffn.experts.0.w3.weight", entry (codes "I8") (3 ∷ []) 21 24)
    ∷ (codes "norm", entry (codes "BF16") (3 ∷ []) 24 30)
    ∷ []

abbrev weight_map : List (Text × Text)
weight_map =
    map (λ name. (name, codes "s"))
      (codes "image_norm"
        ∷ codes "layers.0.engram.embed.scale"
        ∷ codes "layers.0.engram.embed.weight"
        ∷ codes "layers.0.ffn.experts.0.w1.scale"
        ∷ codes "layers.0.ffn.experts.0.w1.weight"
        ∷ codes "layers.0.ffn.experts.0.w2.scale"
        ∷ codes "layers.0.ffn.experts.0.w2.weight"
        ∷ codes "layers.0.ffn.experts.0.w3.scale"
        ∷ codes "layers.0.ffn.experts.0.w3.weight"
        ∷ codes "norm"
        ∷ [])

abbrev dir : Directory
dir name = some (record { file_len = 138; header_len = 100; tensors = some tensors })

abbrev at : ℕ → ℕ → Extent
at offset len = record { shard = 0; offset = offset; len = len }

abbrev pair : EngramTable
pair = record { layer = 0; rows = 2; weight = at 116 8; scale = at 112 2 }

abbrev index : Catalog
index = record {
  config = config;
  shards = codes "s" ∷ [];
  sizes = record { core = 6; experts = 8; engram = 10; mtp = 0; vision = 4 };
  expert_slot = 8;
  core = (codes "norm", record { dtype = bf16; shape = 3 ∷ []; extent = at 132 6 }) ∷ [];
  engram = pair ∷ [];
  experts = (at 125 1 ∷ at 124 1 ∷ at 127 1 ∷ at 126 1 ∷ at 129 3 ∷ at 128 1 ∷ []) ∷ [];
}

opened : open_catalog config engrams weight_map dir ≡ ok index
unfolding open_catalog shard_names insert_name text_before add_shards add_shard place_tensors
    place_tensor is_listed extent same_text part_of strip_prefix split_at split_dots read_digits
    parse_expert parse_engram_table has_name finish_experts finish_tables
opened = refl

past_the_file :
    extent 0 (record { dtype = codes "I8"; shape = 3 ∷ []; begins = 0; ends = 3 }) 108 110
    ≡ err past_end
unfolding extent same_text
past_the_file = refl

other_shape :
    extent 0 (record { dtype = codes "F32"; shape = 3 ∷ []; begins = 0; ends = 3 }) 8 100
    ≡ err wrong_offsets
unfolding extent same_text
other_shape = refl

second_row : row_of pair 1 ≡ some (at 120 4, at 113 1)
unfolding row_extent
second_row = refl

signed_number : parse_expert (codes "layers.+07.ffn.experts.3.w2.scale") ≡ some (7, 3, 3)
unfolding parse_expert split_dots read_digits same_text
signed_number = refl

open_catalog-IsIndex_example : IsIndex config weight_map dir (shard_names weight_map) engrams index
open_catalog-IsIndex_example =
    open_catalog-IsIndex config engrams weight_map dir index (omega arith) opened

row_of-IsRow_example :
    (1 < 2
      → (w : Extent) × (s : Extent) × (row_of pair 1 ≡ some (w, s))
        × IsRow (at 116 8) 2 1 w
        × IsRow (at 112 2) 2 1 s
        × (w.len ≡ 4))
    × (2 ≤ 1 → row_of pair 1 ≡ none)
row_of-IsRow_example =
    row_of-IsRow config engrams weight_map dir index 0 pair 1 (omega arith) opened refl
      (omega arith)
