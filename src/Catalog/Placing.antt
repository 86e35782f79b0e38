-- ===== src/Catalog/Placing.antt =====
-- Where the tensors of a header go: extent, Build::place and the loop of Build::shard of
-- crates/chatty-metal/src/catalog.rs.
pub use chatty.Catalog.Names.{
  Dtype, bf16, f32, f8_e4m3, f8_e8m0, i8, parse_dtype, element_bytes, Part, mtp, vision, core,
  expert, table, part_of, is_unsafe, shard_names,
}
pub use chatty.Common.Fallible.{Result, ok, err, ◌>>=◌, ◌>>◌, fail_if, or_fail}
pub use chatty.Plan.{ModelConfig, Sizes, add64, mul64}
use chatty.Common.{
  ℕ, ◌+◌, ◌-◌, ◌*◌, ◌/◌, ◌^◌, Bool, true, false, ◌&&◌, ◌||◌, not, Option, none, some, List, [], ◌∷◌,
  ltb, leb, ◌==◌, if◌then◌else◌, codes,
}
use chatty.Common.Texts.{same_text}

abbrev pub Text : Type 0
Text = List ℕ

abbrev pub max_json_bytes : ℕ
max_json_bytes = 2 ^ 26

-- The fields of ModelConfig that are about the n-gram tables.
pub record EngramConfig : Type 0 where
  pub layer_ids : List ℕ
  pub num_embeddings : List ℕ
  pub embedding_dim : ℕ

pub record Extent : Type 0 where
  pub shard : ℕ
  pub offset : ℕ
  pub len : ℕ

pub record EngramTable : Type 0 where
  pub layer : ℕ
  pub rows : ℕ
  pub weight : Extent
  pub scale : Extent

unfoldable pub row_extent : Extent → ℕ → ℕ → Extent
row_extent whole rows row =
    let row_len = whole.len / rows in
    record { shard = whole.shard; offset = add64 whole.offset (mul64 row row_len); len = row_len }

-- `EngramTable::row`
abbrev pub row_of : EngramTable → ℕ → Option (Extent × Extent)
row_of t row =
    if ltb row t.rows
    then some (row_extent t.weight t.rows row, row_extent t.scale t.rows row)
    else none

pub record TensorEntry : Type 0 where
  pub dtype : Text
  pub shape : List ℕ
  pub begins : ℕ
  pub ends : ℕ

pub record CoreTensor : Type 0 where
  pub dtype : Dtype
  pub shape : List ℕ
  pub extent : Extent

pub data Error : Type 0 where
  unsupported_dtype wrong_offsets past_end header_too_long header_past_end bad_header bad_entry :
      Error
  not_in_index unexpected_expert outside_model duplicate out_of_range missing_weight : Error
  missing_table wrong_rows wrong_width lengths_differ too_many_shards unsafe_name unreadable
        tensors_missing :
      Error

abbrev pub checked_mul : Option ℕ → ℕ → Option ℕ
checked_mul none dim = none
checked_mul (some bytes) dim = if ltb (bytes * dim) (2 ^ 64) then some (bytes * dim) else none

-- `try_fold`
abbrev pub expected_bytes : Option ℕ → List ℕ → Option ℕ
expected_bytes bytes [] = bytes
expected_bytes bytes (dim ∷ shape) = expected_bytes (checked_mul bytes dim) shape

abbrev pub is_expected : Option ℕ → ℕ → Bool
is_expected none len = false
is_expected (some bytes) len = bytes == len

-- `extent`: the checked sums with the start of the data fail at 2 ^ 64.
unfoldable pub extent : ℕ → TensorEntry → ℕ → ℕ → Result Error (Dtype × Extent)
extent shard entry data_start file_len = do
  dtype ← or_fail (parse_dtype entry.dtype) unsupported_dtype
  fail_if
      (ltb entry.ends entry.begins
        || not (
            is_expected (expected_bytes (some (element_bytes dtype)) entry.shape)
              (entry.ends - entry.begins)))
      wrong_offsets
  fail_if (leb (2 ^ 64) (data_start + entry.ends) || ltb file_len (data_start + entry.ends))
      past_end
  ok (
    dtype,
    record { shard = shard; offset = data_start + entry.begins; len = entry.ends - entry.begins },
  )

-- `tensors`: what the JSON of the header gives, with the entries that are entries.
pub record ShardFile : Type 0 where
  pub file_len : ℕ
  pub header_len : ℕ
  pub tensors : Option (List (Text × Option TensorEntry))

pub record Build : Type 0 where
  pub sizes : Sizes
  pub core : List (Text × CoreTensor)
  pub experts : ℕ → ℕ → Option Extent
  pub engram : ℕ → ℕ → Option (Extent × ℕ)
  pub seen : ℕ

abbrev pub is_put {ℓ} : {A : Type ℓ} → Option A → Bool
is_put none = false
is_put (some a) = true

abbrev pub put {ℓ} : {A : Type ℓ} → (ℕ → ℕ → Option A) → ℕ → ℕ → A → ℕ → ℕ → Option A
put values i k value j l = if j == i && l == k then some value else values j l

unfoldable pub has_name : Text → List (Text × CoreTensor) → Bool
has_name name [] = false
has_name name ((other, tensor) ∷ tensors) = same_text name other || has_name name tensors

-- `shape.first()`
abbrev pub first_or_0 : List ℕ → ℕ
first_or_0 [] = 0
first_or_0 (dim ∷ shape) = dim

abbrev pub expert_count_of : ModelConfig → ℕ
expert_count_of config = mul64 config.n_layers config.n_routed_experts

-- `place`, of an expert's weight; a write out of range panics.
abbrev pub place_expert : ModelConfig → Extent → Option (ℕ × ℕ × ℕ) → Build → Result Error Build
place_expert config e none b = err unexpected_expert
place_expert config e (some (layer, x, slot)) b = do
  fail_if (leb config.n_layers layer || leb config.n_routed_experts x) outside_model
  let index = add64 (mul64 layer config.n_routed_experts) x
  fail_if (leb (expert_count_of config) index) out_of_range
  fail_if (is_put (b.experts index slot)) duplicate
  ok (record b {
    experts = put b.experts index slot e;
    sizes = record b.sizes { experts = add64 b.sizes.experts e.len };
  })

-- `place`
abbrev pub place :
    ModelConfig → Text → Dtype → TensorEntry → Extent → Part → Build → Result Error Build
place config name dtype entry e mtp b =
    ok (record b { sizes = record b.sizes { mtp = add64 b.sizes.mtp e.len } })
place config name dtype entry e vision b =
    ok (record b { sizes = record b.sizes { vision = add64 b.sizes.vision e.len } })
place config name dtype entry e (expert found) b = place_expert config e found b
place config name dtype entry e (table layer kind) b = do
  fail_if (is_put (b.engram layer kind)) duplicate
  ok (record b {
    engram = put b.engram layer kind (e, first_or_0 entry.shape);
    sizes = record b.sizes { engram = add64 b.sizes.engram e.len };
  })
place config name dtype entry e core b = do
  fail_if (has_name name b.core) duplicate
  ok (record b {
    core = (name, record { dtype = dtype; shape = entry.shape; extent = e }) ∷ b.core;
    sizes = record b.sizes { core = add64 b.sizes.core e.len };
  })

unfoldable pub is_listed : List (Text × Text) → Text → Text → Bool
is_listed [] tensor name = false
is_listed ((other, shard) ∷ weight_map) tensor name =
    let rest = is_listed weight_map tensor name in
    if same_text other tensor then same_text shard name else rest

module _ (config : ModelConfig) (weight_map : List (Text × Text)) where
  -- One tensor of a header.
  unfoldable pub place_tensor :
      ℕ → Text → ℕ → ℕ → Text × Option TensorEntry → Build → Result Error Build
  place_tensor shard name data_start file_len (tensor, value) b =
      if same_text tensor (codes "__metadata__") then ok b else (do
        entry ← or_fail value bad_entry
        fail_if (not (is_listed weight_map tensor name)) not_in_index
        (dtype, e) ← extent shard entry data_start file_len
        place config tensor dtype entry e (part_of tensor) (record b { seen = b.seen + 1 }))

  unfoldable pub place_tensors :
      ℕ → Text → ℕ → ℕ → List (Text × Option TensorEntry) → Build → Result Error Build
  place_tensors shard name data_start file_len [] b = ok b
  place_tensors shard name data_start file_len (tensor ∷ tensors) b = do
    next ← place_tensor shard name data_start file_len tensor b
    place_tensors shard name data_start file_len tensors next
