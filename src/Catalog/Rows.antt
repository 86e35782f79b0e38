-- ===== src/Catalog/Rows.antt =====
-- The rows of an n-gram table, `EngramTable::row`.
use chatty.Common.{
  ℕ, zero, suc, ◌+◌, ◌*◌, ◌/◌, ◌^◌, ◌≤◌, ◌<◌, ◌≡◌, refl, sym, ◌∙◌, ap, none, some, List, [], ◌∷◌,
  get_elem?, All, arith, lt→ltb, le→ltb,
}
use mathlib.Core.Path.{subst}
use native.Mathlib.Nat.{mul-le-mul_right, mul_comm, suc-mul, mul-div_cancel}
use chatty.Catalog.Extents.{product, product-mul}
use chatty.Catalog.Placed.{IsTable}
use chatty.Catalog.Indexed.{IsTablePair, open_catalog-IsIndex}
use chatty.Catalog.{
  ok, Text, Extent, EngramTable, Directory, Catalog, ModelConfig, EngramConfig, first_or_0,
  element_bytes, row_extent, row_of, mul64, add64, open_catalog, shard_names,
}

-- The rows before it and itself, each as long, are a part of the whole, and all rows are the whole.
pub record IsRow (whole : Extent) (rows row : ℕ) (e : Extent) : Type 0 where
  pub shards : e.shard ≡ whole.shard
  pub starts : e.offset ≡ whole.offset + row * e.len
  pub tiles : whole.len ≡ rows * e.len
  pub ends : e.offset + e.len ≤ whole.offset + whole.len

counted_rows :
    (bytes : ℕ) (shape : List ℕ)
    → 0 < first_or_0 shape
    → (k : ℕ) × (product bytes shape ≡ k * first_or_0 shape)
unfolding product
counted_rows bytes [] h = absurd (omega (arith, h))
counted_rows bytes (dim ∷ shape) h = (product bytes shape, product-mul bytes dim shape)

row_extent-IsRow :
    (whole : Extent) (rows row k : ℕ)
    → row < rows
    → whole.len ≡ k * rows
    → whole.offset + whole.len < 2 ^ 64
    → IsRow whole rows row (row_extent whole rows row) × ((row_extent whole rows row).len ≡ k)
unfolding row_extent
row_extent-IsRow whole rows row k below same bounded =
    let some_rows : 0 < rows = omega (arith, below) in
    let quotient : whole.len / rows ≡ k = ap (λ n. n / rows) same ∙ mul-div_cancel k some_rows in
    let total : whole.len ≡ rows * k = same ∙ mul_comm k rows in
    let last : row * k + k ≤ rows * k =
      omega (arith, mul-le-mul_right {m = suc row} {n = rows} k below, suc-mul row k) in
    let start : add64 whole.offset (mul64 row k) ≡ whole.offset + row * k =
      omega (arith, total, last, bounded) in
    let moved : add64 whole.offset (mul64 row (whole.len / rows))
        ≡ whole.offset + row * (whole.len / rows) =
      subst (λ n. add64 whole.offset (mul64 row n) ≡ whole.offset + row * n) (sym quotient) start in
    (
      record {
        shards = refl;
        starts = moved;
        tiles = total ∙ ap (λ n. rows * n) (sym quotient);
        ends = omega (arith, moved, quotient, ap (λ n. row * n) quotient, total, last);
      },
      quotient,
    )

same_width : (k dim rows : ℕ) → 0 < rows → k * rows ≡ dim * rows → k ≡ dim
same_width k dim rows some_rows same =
    sym (mul-div_cancel k some_rows) ∙ ap (λ n. n / rows) same ∙ mul-div_cancel dim some_rows

All_nth :
    {A : Type 0} (P : A → Type 0) (xs : List A) (k : ℕ) (a : A)
    → get_elem? xs k ≡ some a
    → All P xs
    → P a
All_nth P [] k a h v = absurd (cc h)
All_nth P (x ∷ xs) zero a h (p, v) = let same : x ≡ a = cc h in subst P same p
All_nth P (x ∷ xs) (suc k) a h (p, v) = All_nth P xs k a h v

module _ (config : ModelConfig) (weight_map : List (Text × Text)) (dir : Directory)
    (names : List Text) where
  -- The extent of a table is as long as its rows, each of the same length.
  table_whole :
      (layer kind : ℕ) (e : Extent) (rows : ℕ)
      → 0 < rows
      → IsTable config weight_map dir names layer kind e rows
      → (k : ℕ) × (e.len ≡ k * rows) × (e.offset + e.len < 2 ^ 64)
  table_whole layer kind e rows some_rows t =
      let located = t.held.located in
      let (k, whole) =
        counted_rows (element_bytes t.dtype) t.entry.shape
          (subst (λ n. 0 < n) (sym t.counted) some_rows) in
      (k, located.sized ∙ whole ∙ ap (λ n. k * n) t.counted, located.bounded)

  row_of-Found :
      (dim : ℕ) (t : EngramTable) (row : ℕ)
      → IsTablePair config weight_map dir names dim t
      → row < t.rows
      → t.rows * dim < 2 ^ 64
      → (w : Extent) × (s : Extent) × (row_of t row ≡ some (w, s))
        × IsRow t.weight t.rows row w
        × IsRow t.scale t.rows row s
        × (w.len ≡ dim)
  row_of-Found dim t row pair below no_wrap =
      let (k, whole, bounded) = table_whole t.layer 0 t.weight t.rows pair.some_rows pair.weights in
      let (j, others, limit) = table_whole t.layer 1 t.scale t.rows pair.some_rows pair.scales in
      let (weights, length_k) = row_extent-IsRow t.weight t.rows row k below whole bounded in
      let (scales, length_j) = row_extent-IsRow t.scale t.rows row j below others limit in
      let width : k ≡ dim =
        same_width k dim t.rows pair.some_rows
          (omega (arith, whole, pair.width, no_wrap, mul_comm t.rows dim)) in
      (
        row_extent t.weight t.rows row,
        row_extent t.scale t.rows row,
        rw (lt→ltb row t.rows below) refl,
        weights,
        scales,
        length_k ∙ width,
      )

-- In an index that opens for a configuration with fewer than 2 ^ 64 experts, take a table whose rows
-- times the configured width are fewer than 2 ^ 64. A row that is one of the table's is a weight of the
-- configured width and a scale, both inside their tables: the row starts where those before it end, and
-- as many rows as the table has are the whole of it, so no two rows meet. A row past the end is none.
pub row_of-IsRow :
    (config : ModelConfig) (engrams : EngramConfig) (weight_map : List (Text × Text))
    (dir : Directory) (c : Catalog) (k : ℕ) (t : EngramTable) (row : ℕ)
    → config.n_layers * config.n_routed_experts < 2 ^ 64
    → open_catalog config engrams weight_map dir ≡ ok c
    → get_elem? c.engram k ≡ some t
    → t.rows * engrams.embedding_dim < 2 ^ 64
    → (row < t.rows
        → (w : Extent) × (s : Extent) × (row_of t row ≡ some (w, s))
          × IsRow t.weight t.rows row w
          × IsRow t.scale t.rows row s
          × (w.len ≡ engrams.embedding_dim))
      × (t.rows ≤ row → row_of t row ≡ none)
row_of-IsRow config engrams weight_map dir c k t row few opened at no_wrap =
    let index = open_catalog-IsIndex config engrams weight_map dir c few opened in
    let pair =
      All_nth (IsTablePair config weight_map dir (shard_names weight_map) engrams.embedding_dim)
        c.engram k t at index.tables in
    (
      λ below.
          row_of-Found config weight_map dir (shard_names weight_map) engrams.embedding_dim t row
            pair below no_wrap,
      λ past. rw (le→ltb row t.rows past) refl,
    )
