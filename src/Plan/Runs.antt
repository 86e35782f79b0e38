-- ===== src/Plan/Runs.antt =====
-- The model of the tests in catalog.rs and plan.rs, and the theorems at its budgets.
use chatty.Common.{◌≡◌, refl, [], ◌∷◌, arith}
use chatty.Plan.{
  Catalog, Budget, Plan, ok, err, needs_vram, new, layout, kv_bytes, kv_loop, layer_bytes,
  position_bytes,
}
use chatty.Plan.Kv.{exact_kv, kv_bytes-exact}
use chatty.Plan.Layout.{NoWrap, IsSound, new-IsSound}

abbrev fixture : Catalog
fixture = record {
  config = record {
    n_layers = 2;
    n_routed_experts = 2;
    n_activated_experts = 1;
    head_dim = 8;
    index_head_dim = 4;
    rope_head_dim = 4;
    kv_source_layers = 1 ∷ [];
    compress_ratios = 0 ∷ 2 ∷ [];
  };
  sizes = record { core = 16; experts = 96; engram = 40; mtp = 4; vision = 4 };
  expert_slot = 24;
  expert_count = 4;
}

-- Room for one expert in the VRAM, and two in the RAM.
abbrev tight : Budget
tight = record {
  vram = 616;
  ram = 48;
  vram_reserved = 0;
  ram_reserved = 0;
  engram_ram = 0;
  context = 16;
}

abbrev spilled : Plan
spilled = record {
  core = 16;
  kv = 576;
  vram_expert_slots = 1;
  ram_expert_slots = 2;
  engram_ram = 0;
  expert_total = 4;
  engram_total = 40;
  drive_total = 160;
}

spills : new fixture tight ≡ ok spilled
unfolding new layout kv_bytes kv_loop layer_bytes position_bytes
spills = refl

too_small : new fixture (record tight { vram = 16 }) ≡ err (needs_vram 592 16)
unfolding new kv_bytes kv_loop layer_bytes position_bytes
too_small = refl

no_wrap : NoWrap fixture tight
no_wrap = record { heads = omega arith; vram_sum = omega arith; ram_sum = omega arith }

kv_bytes-exact_example : kv_bytes fixture 16 ≡ ok (exact_kv fixture 16)
kv_bytes-exact_example = kv_bytes-exact fixture 16 (omega arith) (omega arith) (omega arith)

new-IsSound_example : IsSound fixture tight spilled
new-IsSound_example = new-IsSound fixture tight no_wrap spills
