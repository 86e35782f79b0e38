-- ===== src/Plan.antt =====
-- crates/chatty-metal/src/plan.rs: how the memory of the appliance is laid out, over the parts of
-- the catalog (crates/chatty-metal/src/catalog.rs) that it reads. Sums and products are of 64 bits.
pub mod Kv
pub mod Layout
mod Runs
pub use chatty.Common.Fallible.{Result, ok, err, ◌>>=◌, ◌>>◌, fail_if}
use chatty.Common.{
  ℕ, ◌+◌, ◌-◌, ◌*◌, ◌/◌, ◌%◌, ◌^◌, min, Bool, true, false, ◌||◌, Option, none, some,
}
use chatty.Common.{List, [], ◌∷◌, ltb, ◌==◌, if◌then◌else◌, get_or}

pub record ModelConfig : Type 0 where
  pub n_layers : ℕ
  pub n_routed_experts : ℕ
  pub n_activated_experts : ℕ
  pub head_dim : ℕ
  pub index_head_dim : ℕ
  pub rope_head_dim : ℕ
  pub kv_source_layers : List ℕ
  pub compress_ratios : List ℕ

pub record Sizes : Type 0 where
  pub core : ℕ
  pub experts : ℕ
  pub engram : ℕ
  pub mtp : ℕ
  pub vision : ℕ

pub record Catalog : Type 0 where
  pub config : ModelConfig
  pub sizes : Sizes
  pub expert_slot : ℕ
  pub expert_count : ℕ

pub record Budget : Type 0 where
  pub vram : ℕ
  pub ram : ℕ
  pub vram_reserved : ℕ
  pub ram_reserved : ℕ
  pub engram_ram : ℕ
  pub context : ℕ

pub record Plan : Type 0 where
  pub core : ℕ
  pub kv : ℕ
  pub vram_expert_slots : ℕ
  pub ram_expert_slots : ℕ
  pub engram_ram : ℕ
  pub expert_total : ℕ
  pub engram_total : ℕ
  pub drive_total : ℕ

abbrev pub max_context : ℕ
max_context = 1048576

-- The texts of `invalid`, with the numbers that they show.
pub data Error : Type 0 where
  context_out_of_range no_routed_experts : Error
  no_compression_ratio : ℕ → Error
  needs_vram : ℕ → ℕ → Error
  needs_ram : ℕ → ℕ → Error

-- `+` and `*` on `u64`, which wrap in a release build.
abbrev pub add64 : ℕ → ℕ → ℕ
add64 a b = (a + b) % 2 ^ 64

abbrev pub mul64 : ℕ → ℕ → ℕ
mul64 a b = a * b % 2 ^ 64

-- `checked_sub`, with the error of the `else` branch.
abbrev pub sub_or : ℕ → ℕ → Error → Result Error ℕ
sub_or a b e = if ltb a b then err e else ok (a - b)

-- What one KV source layer takes: `context / ratio * (head_dim + index_head_dim) * 2`.
unfoldable pub layer_bytes : ModelConfig → ℕ → ℕ → ℕ
layer_bytes c context ratio = mul64 (mul64 (context / ratio) (add64 c.head_dim c.index_head_dim)) 2

-- The loop of `kv_bytes` over the source layers.
unfoldable pub kv_loop : ModelConfig → ℕ → ℕ → List ℕ → Result Error ℕ
kv_loop c context total [] = ok total
kv_loop c context total (layer ∷ layers) =
    let ratio = get_or c.compress_ratios layer 0 in
    let rest = kv_loop c context (add64 total (layer_bytes c context ratio)) layers in
    if ratio == 0 then err (no_compression_ratio layer) else rest

-- Token ids and rope frequencies, of every position.
unfoldable pub position_bytes : ModelConfig → ℕ → ℕ
position_bytes c context = add64 (mul64 context 8) (mul64 (mul64 context (c.rope_head_dim / 2)) 8)

unfoldable pub kv_bytes : Catalog → ℕ → Result Error ℕ
kv_bytes cat context =
    kv_loop cat.config context (position_bytes cat.config context) cat.config.kv_source_layers

-- `sizes.core + kv + budget.vram_reserved`, and the same for the RAM.
abbrev pub vram_needed : Catalog → Budget → ℕ → ℕ
vram_needed cat b kv = add64 (add64 cat.sizes.core kv) b.vram_reserved

abbrev pub ram_needed : Budget → ℕ
ram_needed b = add64 b.ram_reserved b.engram_ram

-- The slots of the two tiers, and the record that `Plan::new` returns.
unfoldable pub layout : Catalog → Budget → ℕ → ℕ → ℕ → Plan
layout cat b kv vram_free ram_free =
    let in_vram = min (vram_free / cat.expert_slot) cat.expert_count in
    let in_ram = min (ram_free / cat.expert_slot) (cat.expert_count - in_vram) in
    let sz = cat.sizes in
    record {
      core = sz.core;
      kv = kv;
      vram_expert_slots = in_vram;
      ram_expert_slots = in_ram;
      engram_ram = min b.engram_ram sz.engram;
      expert_total = cat.expert_count;
      engram_total = sz.engram;
      drive_total = add64 (add64 (add64 (add64 sz.core sz.experts) sz.engram) sz.mtp) sz.vision;
    }

-- `Plan::new`
unfoldable pub new : Catalog → Budget → Result Error Plan
new cat b = do
  fail_if (b.context == 0 || ltb max_context b.context) context_out_of_range
  fail_if (cat.expert_slot == 0) no_routed_experts
  kv ← kv_bytes cat b.context
  vram_free ← sub_or b.vram (vram_needed cat b kv) (needs_vram (vram_needed cat b kv) b.vram)
  ram_free ← sub_or b.ram (ram_needed b) (needs_ram (ram_needed b) b.ram)
  ok (layout cat b kv vram_free ram_free)
