-- ===== src/Plan/Kv.antt =====
-- The cache memory of the source layers is the sum that the program means.
use chatty.Common.{ℕ, ◌+◌, ◌*◌, ◌/◌, ◌%◌, ◌^◌, ◌<◌, ◌≡◌, ◌≢◌, ◌∙◌, sym, ap, inl, inr}
use chatty.Common.{List, [], ◌∷◌, ◌⊎◌, ne→==, get_or, All, arith}
use native.Mathlib.Nat.{mod-eq_of_lt, add-zero, add_assoc}
use native.Mathlib.Decide.{ℕ_discrete}
use chatty.Plan.{
  ModelConfig, Catalog, no_compression_ratio, ok, err, add64, layer_bytes, kv_loop, position_bytes,
  kv_bytes,
}

-- The same with no bound on the numbers.
abbrev pub exact_layer : ModelConfig → ℕ → ℕ → ℕ
exact_layer c context ratio = context / ratio * (c.head_dim + c.index_head_dim) * 2

abbrev pub exact_layers : ModelConfig → ℕ → List ℕ → ℕ
exact_layers c context [] = 0
exact_layers c context (layer ∷ layers) =
    exact_layer c context (get_or c.compress_ratios layer 0) + exact_layers c context layers

abbrev pub exact_positions : ModelConfig → ℕ → ℕ
exact_positions c context = context * 8 + context * (c.rope_head_dim / 2) * 8

abbrev pub exact_kv : Catalog → ℕ → ℕ
exact_kv cat context =
    exact_positions cat.config context + exact_layers cat.config context cat.config.kv_source_layers

-- Each source layer has a compression ratio.
abbrev pub Compressed : ModelConfig → List ℕ → Type 0
Compressed c = All (λ layer. get_or c.compress_ratios layer 0 ≢ 0)

mul_twice :
    (x y : ℕ) → y < 2 ^ 64 → x * y * 2 < 2 ^ 64 → x * (y % 2 ^ 64) % 2 ^ 64 * 2 % 2 ^ 64 ≡ x * y * 2
mul_twice x y hy h = rw (mod-eq_of_lt hy) (omega arith)

layer_bytes-exact :
    (c : ModelConfig) (context ratio : ℕ)
    → c.head_dim + c.index_head_dim < 2 ^ 64
    → exact_layer c context ratio < 2 ^ 64
    → layer_bytes c context ratio ≡ exact_layer c context ratio
unfolding layer_bytes
layer_bytes-exact c context ratio hd h =
    mul_twice (context / ratio) (c.head_dim + c.index_head_dim) hd h

kv_loop-exact :
    (c : ModelConfig) (context total : ℕ) (layers : List ℕ)
    → c.head_dim + c.index_head_dim < 2 ^ 64
    → Compressed c layers
    → total + exact_layers c context layers < 2 ^ 64
    → kv_loop c context total layers ≡ ok (total + exact_layers c context layers)
unfolding kv_loop
kv_loop-exact c context total [] hd h fits = ap ok (sym (add-zero total))
kv_loop-exact c context total (layer ∷ layers) hd h fits =
    let ratio = get_or c.compress_ratios layer 0 in
    let e : (total + exact_layer c context ratio) % 2 ^ 64 ≡ total + exact_layer c context ratio =
      mod-eq_of_lt (omega arith) in
    rw (layer_bytes-exact c context ratio hd (omega arith), ne→== ratio 0 h.0, e)
      (kv_loop-exact c context (total + exact_layer c context ratio) layers hd h.1 (omega arith)
        ∙ ap ok (add_assoc total (exact_layer c context ratio) (exact_layers c context layers)))

position_bytes-exact :
    (c : ModelConfig) (context : ℕ)
    → exact_positions c context < 2 ^ 64
    → position_bytes c context ≡ exact_positions c context
unfolding position_bytes
position_bytes-exact c context h = omega arith

-- With a compression ratio for every source layer and a sum that fits 64 bits, the cache memory is
-- the sum of the token ids, the rope frequencies and the buffers of the source layers.
pub kv_bytes-exact :
    (cat : Catalog) (context : ℕ)
    → cat.config.head_dim + cat.config.index_head_dim < 2 ^ 64
    → Compressed cat.config cat.config.kv_source_layers
    → exact_kv cat context < 2 ^ 64
    → kv_bytes cat context ≡ ok (exact_kv cat context)
unfolding kv_bytes
kv_bytes-exact cat context hd h fits = rw (position_bytes-exact cat.config context (omega arith)) (
    kv_loop-exact cat.config context (exact_positions cat.config context)
      cat.config.kv_source_layers hd h fits)

-- The loop stops at a source layer with no ratio, and only there.
kv_loop_cases :
    (c : ModelConfig) (context total : ℕ) (layers : List ℕ)
    → Compressed c layers
      ⊎ ((layer : ℕ) × (kv_loop c context total layers ≡ err (no_compression_ratio layer)))
unfolding kv_loop
kv_loop_cases c context total [] = inl tt
kv_loop_cases c context total (layer ∷ layers) =
    elim (ℕ_discrete (get_or c.compress_ratios layer 0) 0) [
      | yes zero_ratio ↦ inr (layer, ground arith)
      | no ratio ↦
          elim (kv_loop_cases c context
            (add64 total (layer_bytes c context (get_or c.compress_ratios layer 0))) layers) [
              | inl rest ↦ inl (ratio, rest)
              | inr (l, e) ↦ inr (l, rw (ne→== _ 0 ratio) e)
            ]
    ]

pub kv_bytes_cases :
    (cat : Catalog) (context : ℕ)
    → Compressed cat.config cat.config.kv_source_layers
      ⊎ ((layer : ℕ) × (kv_bytes cat context ≡ err (no_compression_ratio layer)))
unfolding kv_bytes
kv_bytes_cases cat context =
    kv_loop_cases cat.config context (position_bytes cat.config context) cat.config.kv_source_layers
