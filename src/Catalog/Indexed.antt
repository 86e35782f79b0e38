-- ===== src/Catalog/Indexed.antt =====
-- What an index that is opened holds.
use chatty.Common.{
  either_false, not-false, ℕ, ◌+◌, ◌*◌, ◌%◌, ◌^◌, ◌≤◌, ◌<◌, ◌≡◌, refl, sym, ◌∙◌, ap, true, false,
  some, List, [], ◌∷◌, map, leb, ◌==◌, length, get_elem?, All, arith, ==_iff,
}
use chatty.Common.Fallible.{fail_if_passed, or_fail_passed, Result-passed, ok_inj}
use mathlib.Core.Path.{subst}
use chatty.Catalog.Placed.{
  IsExpert, IsWeight, IsTable, IsCore, IsPlaced, empty_build-IsPlaced, zero_add,
}
use chatty.Catalog.Reading.{add_shards-IsPlaced}
use chatty.Catalog.{
  ok, Text, Extent, EngramTable, Build, Directory, Catalog, ModelConfig, EngramConfig, add64, mul64,
  finish_experts, finish_table, finish_tables, sum_len, largest, open_catalog, expert_of,
  expert_count_of, shard_names, add_shards, empty_build, missing_table, wrong_rows, wrong_width,
  lengths_differ, too_many_shards, tensors_missing,
}
use chatty.Catalog.Finished.{
  finish_experts_lem, layers_apart, index_bound, sum_len-largest, expert_of_at,
}

-- The lengths of some extents, added up without wrapping around.
abbrev pub exact_len : List Extent → ℕ
exact_len [] = 0
exact_len (e ∷ extents) = e.len + exact_len extents

sum_len-exact_len : (extents : List Extent) → sum_len extents ≡ exact_len extents % 2 ^ 64
sum_len-exact_len [] = refl
sum_len-exact_len (e ∷ extents) = omega (arith, sum_len-exact_len extents)

exact_len_bounded :
    (n : ℕ) (extents : List Extent)
    → All (λ e. e.len < n) extents
    → exact_len extents ≤ n * length extents
exact_len_bounded n [] h = omega arith
exact_len_bounded n (e ∷ extents) h = ground (arith, h.0, exact_len_bounded n extents h.1)

module _ (config : ModelConfig) (weight_map : List (Text × Text)) (dir : Directory)
    (names : List Text) where
  -- An expert's six extents, each of the tensor that is named for it. The slots of the cache have at
  -- least their sum as the code adds it up, which is modulo 2 ^ 64.
  pub record HasExpert (c : Catalog) (layer x : ℕ) : Type 0 where
    pub extents : List Extent
    pub found : expert_of c layer x ≡ some extents
    pub six : length extents ≡ 6
    pub weights :
        (slot : ℕ) (e : Extent)
        → get_elem? extents slot ≡ some e
        → IsWeight config weight_map dir names layer x slot e
    pub fits : exact_len extents % 2 ^ 64 ≤ c.expert_slot

  pub record IsTablePair (dim : ℕ) (t : EngramTable) : Type 0 where
    pub weights : IsTable config weight_map dir names t.layer 0 t.weight t.rows
    pub scales : IsTable config weight_map dir names t.layer 1 t.scale t.rows
    pub some_rows : 0 < t.rows
    pub width : t.weight.len ≡ mul64 t.rows dim

  finish_table-IsTablePair :
      (dim layer rows : ℕ) (b : Build) (t : EngramTable)
      → IsPlaced config weight_map dir names b
      → finish_table dim layer rows b.engram ≡ ok t
      → IsTablePair dim t × (t.layer ≡ layer) × (t.rows ≡ rows)
  finish_table-IsTablePair dim layer rows b t v h =
      let ((weight, weight_rows), ew, h1) = or_fail_passed (b.engram layer 0) missing_table _ h in
      let ((scale, scale_rows), es, h2) = or_fail_passed (b.engram layer 1) missing_table _ h1 in
      let (counted, h3) = fail_if_passed _ wrong_rows _ h2 in
      let (wide, h4) = fail_if_passed _ wrong_width _ h3 in
      let (nonzero_weights, scales) = either_false _ _ counted in
      let (nonzero, weights) = either_false _ _ nonzero_weights in
      let nonzero_eq : (rows == 0) ≡ false = nonzero in
      let weights_eq : (weight_rows == rows) ≡ true = not-false _ weights in
      let scales_eq : (scale_rows == rows) ≡ true = not-false _ scales in
      let width_eq : (weight.len == mul64 rows dim) ≡ true = not-false _ wide in
      let same_weights : weight_rows ≡ rows = (==_iff weight_rows rows).0 weights_eq in
      let same_scales : scale_rows ≡ rows = (==_iff scale_rows rows).0 scales_eq in
      let made : EngramTable = record {
        layer = layer;
        rows = rows;
        weight = weight;
        scale = scale;
      } in
      let pair : IsTablePair dim made = record {
        weights =
            subst (IsTable config weight_map dir names layer 0 weight) same_weights
              (v.tables layer 0 weight weight_rows ew);
        scales =
            subst (IsTable config weight_map dir names layer 1 scale) same_scales
              (v.tables layer 1 scale scale_rows es);
        some_rows = ground (arith, nonzero_eq);
        width = (==_iff weight.len (mul64 rows dim)).0 width_eq;
      } in
      subst (λ u. IsTablePair dim u × (u.layer ≡ layer) × (u.rows ≡ rows)) (ok_inj h4)
        (pair, refl, refl)

  finish_tables-IsTablePair :
      (dim : ℕ) (layers counts : List ℕ) (b : Build) (tables : List EngramTable)
      → IsPlaced config weight_map dir names b
      → length layers ≡ length counts
      → finish_tables dim layers counts b.engram ≡ ok tables
      → All (IsTablePair dim) tables
        × (map (λ t. t.layer) tables ≡ layers)
        × (map (λ t. t.rows) tables ≡ counts)
  unfolding finish_tables
  finish_tables-IsTablePair dim [] [] b tables v same h = rw (← ok_inj h) (tt, refl, refl)
  finish_tables-IsTablePair dim [] (rows ∷ counts) b tables v same h = absurd (omega (arith, same))
  finish_tables-IsTablePair dim (layer ∷ layers) [] b tables v same h = absurd (omega (arith, same))
  finish_tables-IsTablePair dim (layer ∷ layers) (rows ∷ counts) b tables v same h =
      let (t, e, h1) = Result-passed (finish_table dim layer rows b.engram) _ h in
      let (others, es, h2) = Result-passed (finish_tables dim layers counts b.engram) _ h1 in
      let (pair, same_layer, same_rows) = finish_table-IsTablePair dim layer rows b t v e in
      let (pairs, same_layers, same_counts) =
        finish_tables-IsTablePair dim layers counts b others v (omega (arith, same)) es in
      subst
        (λ all.
          All (IsTablePair dim) all
          × (map (λ t. t.layer) all ≡ layer ∷ layers)
          × (map (λ t. t.rows) all ≡ rows ∷ counts))
        (ok_inj h2) ((pair, pairs), cc (same_layer, same_layers), cc (same_rows, same_counts))

  IsExpert-IsWeight :
      (index slot : ℕ) (e : Extent) (layer x : ℕ)
      → index ≡ layer * config.n_routed_experts + x
      → IsExpert config weight_map dir names index slot e
      → layer < config.n_layers
      → x < config.n_routed_experts
      → config.n_layers * config.n_routed_experts < 2 ^ 64
      → IsWeight config weight_map dir names layer x slot e
  IsExpert-IsWeight index slot e layer x same from few_layers few_experts no_wrap =
      let n = config.n_routed_experts in
      let here = index_bound n config.n_layers layer x few_layers few_experts in
      let there = index_bound n config.n_layers from.layer from.x from.layers from.experts in
      let indexed : layer * n + x ≡ from.layer * n + from.x =
        omega (arith, same, from.indexed, here, there, no_wrap) in
      let (same_layer, same_x) =
        layers_apart n layer from.layer x from.x few_experts from.experts indexed in
      subst (λ l. IsWeight config weight_map dir names l x slot e) (sym same_layer)
        (subst (λ y. IsWeight config weight_map dir names from.layer y slot e) (sym same_x)
          from.weight)

  expert-HasExpert :
      (c : Catalog) (b : Build) (layer x : ℕ)
      → c.config ≡ config
      → c.expert_slot ≡ largest c.experts
      → finish_experts (expert_count_of config) 0 b.experts ≡ ok c.experts
      → IsPlaced config weight_map dir names b
      → config.n_layers * config.n_routed_experts < 2 ^ 64
      → layer < config.n_layers
      → x < config.n_routed_experts
      → HasExpert c layer x
  expert-HasExpert c b layer x same_config same_slot h v no_wrap few_layers few_experts =
      let n = config.n_routed_experts in
      let index = layer * n + x in
      let bound : index < config.n_layers * n =
        index_bound n config.n_layers layer x few_layers few_experts in
      let count : expert_count_of config ≡ config.n_layers * n = omega (arith, no_wrap) in
      let whole : add64 (layer * n) x ≡ index = omega (arith, bound, no_wrap) in
      let inside : leb n x ≡ false = ground (arith, few_experts) in
      let no_overflow : leb (2 ^ 64) (layer * n) ≡ false = ground (arith, bound, no_wrap) in
      let (counted, each) = finish_experts_lem (expert_count_of config) 0 b.experts c.experts h in
      let (extents, at, (six, slots)) = each index (omega (arith, bound, count)) in
      record {
        extents = extents;
        found =
            expert_of_at c layer x n index (ap (λ k. k.n_routed_experts) same_config) inside
              no_overflow whole
            ∙ at;
        six = six;
        weights = λ slot e here.
            let from : IsExpert config weight_map dir names index slot e =
              v.experts index slot e
                (ap (λ i. b.experts i slot) (zero_add index) ∙ slots slot e here) in
            IsExpert-IsWeight index slot e layer x refl from few_layers few_experts no_wrap;
        fits =
            rw (same_slot, ← sum_len-exact_len extents)
              (sum_len-largest c.experts index extents at);
      }

  -- Where no extent is as long as 2 ^ 61 bytes, a slot of the cache holds the six.
  HasExpert-fits :
      (c : Catalog) (layer x : ℕ) (h : HasExpert c layer x)
      → All (λ e. e.len < 2 ^ 61) h.extents
      → exact_len h.extents ≤ c.expert_slot
  HasExpert-fits c layer x h short =
      omega (arith, exact_len_bounded (2 ^ 61) h.extents short, h.six, h.fits)

  -- What an index says of the model: each expert, each table and each tensor of the core.
  pub record IsIndex (engrams : EngramConfig) (c : Catalog) : Type 0 where
    pub experts :
        (layer x : ℕ) → layer < config.n_layers → x < config.n_routed_experts → HasExpert c layer x
    pub tables : All (IsTablePair engrams.embedding_dim) c.engram
    pub layers : map (λ t. t.layer) c.engram ≡ engrams.layer_ids
    pub rows : map (λ t. t.rows) c.engram ≡ engrams.num_embeddings
    pub cores : All (λ (name, t). IsCore config weight_map dir names name t) c.core
    pub shards : c.shards ≡ names

-- The index of a directory is right, whatever its files claim: when it opens, each expert of each layer
-- has six extents, each is that of a tensor whose name says that layer, expert and slot, and a slot of the
-- cache has at least the sum of the six lengths modulo 2 ^ 64, as the code adds them up; each layer of n-gram tables has its weight and its scale, with the rows that
-- the configuration counts; and every extent, also of the core, is that of a tensor in the header of the
-- shard that the weight map names, lies after the header inside the file of that shard, and has the
-- bytes of the tensor's type times its shape. Experts are fewer than 2 ^ 64.
pub open_catalog-IsIndex :
    (config : ModelConfig) (engrams : EngramConfig) (weight_map : List (Text × Text))
    (dir : Directory) (c : Catalog)
    → config.n_layers * config.n_routed_experts < 2 ^ 64
    → open_catalog config engrams weight_map dir ≡ ok c
    → IsIndex config weight_map dir (shard_names weight_map) engrams c
unfolding open_catalog
open_catalog-IsIndex config engrams weight_map dir c no_wrap h =
    let names = shard_names weight_map in
    let (lengths, h1) = fail_if_passed _ lengths_differ _ h in
    let (few, h2) = fail_if_passed _ too_many_shards _ h1 in
    let (b, added, h3) =
      Result-passed (add_shards config weight_map dir 0 names empty_build) _ h2 in
    let (complete, h4) = fail_if_passed _ tensors_missing _ h3 in
    let (experts, found, h5) =
      Result-passed (finish_experts (expert_count_of config) 0 b.experts) _ h4 in
    let (tables, joined, h6) =
      Result-passed
        (finish_tables engrams.embedding_dim engrams.layer_ids engrams.num_embeddings b.engram) _
        h5 in
    let v : IsPlaced config weight_map dir names b =
      add_shards-IsPlaced config weight_map dir names 0 names empty_build
        (λ k. ap (get_elem? names) (zero_add k)) (empty_build-IsPlaced config weight_map dir names)
        added in
    let lengths_eq : (length engrams.layer_ids == length engrams.num_embeddings) ≡ true =
      not-false _ lengths in
    let (pairs, same_layers, same_rows) =
      finish_tables-IsTablePair config weight_map dir names engrams.embedding_dim engrams.layer_ids
        engrams.num_embeddings b tables v
        ((==_iff (length engrams.layer_ids) (length engrams.num_embeddings)).0 lengths_eq) joined in
    let made : Catalog = record {
      config = config;
      shards = names;
      sizes = b.sizes;
      expert_slot = largest experts;
      core = b.core;
      engram = tables;
      experts = experts;
    } in
    let index : IsIndex config weight_map dir names engrams made = record {
      experts = λ layer x few_layers few_experts.
          expert-HasExpert config weight_map dir names made b layer x refl refl found v no_wrap
            few_layers few_experts;
      tables = pairs;
      layers = same_layers;
      rows = same_rows;
      cores = v.cores;
      shards = refl;
    } in
    subst (IsIndex config weight_map dir names engrams) (ok_inj h6) index
