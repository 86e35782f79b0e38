-- ===== src/Plan/Layout.antt =====
-- What a plan promises of the memory, and when there is one.
use chatty.Common.{ℕ, ◌+◌, ◌-◌, ◌*◌, ◌/◌, ◌%◌, ◌^◌, ◌≤◌, ◌<◌, ◌≡◌, ◌⊎◌, ◌↔◌, refl, inl, inr, min}
use chatty.Common.{arith, le→ltb, ne→==}
use native.Mathlib.Nat.{div-add-mod, le_refl}
use native.Mathlib.Decide.{dec_le}
use mathlib.Core.Path.{subst}
use chatty.Plan.{
  Catalog, Budget, Plan, ok, kv_bytes, vram_needed, ram_needed, layout, new, max_context,
}
use chatty.Plan.Kv.{exact_kv, kv_bytes-exact, kv_bytes_cases, Compressed}

-- `n` slots of so many bytes are as many as `room` holds, or all there is a use for.
abbrev pub Fills : ℕ → ℕ → ℕ → ℕ → Type 0
Fills n slot room most = (n * slot ≤ room) × (n ≤ most) × ((n ≡ most) ⊎ (room < (n + 1) * slot))

Fills-of_div :
    (q r slot room most : ℕ) → slot * q + r ≡ room → r < slot → Fills (min q most) slot room most
Fills-of_div q r slot room most e h = elim (dec_le q most) [
  | yes le ↦ let m : min q most ≡ q = omega arith in rw m (grind arith, le, inr (grind arith))
  | no gt ↦ let m : min q most ≡ most = omega arith in rw m (grind arith, le_refl most, inl refl)
]

fills_lem : (slot room most : ℕ) → 0 < slot → Fills (min (room / slot) most) slot room most
fills_lem slot room most h =
    Fills-of_div (room / slot) (room % slot) slot room most (omega (arith, div-add-mod room slot))
      (omega arith)

-- The sums of the budget fit 64 bits.
pub record NoWrap (cat : Catalog) (b : Budget) : Type 0 where
  pub heads : cat.config.head_dim + cat.config.index_head_dim < 2 ^ 64
  pub vram_sum : cat.sizes.core + exact_kv cat b.context + b.vram_reserved < 2 ^ 64
  pub ram_sum : b.ram_reserved + b.engram_ram < 2 ^ 64

-- A budget that has room for what the model always needs.
pub record IsFeasible (cat : Catalog) (b : Budget) : Type 0 where
  pub some_context : 0 < b.context
  pub context_known : b.context ≤ max_context
  pub has_experts : 0 < cat.expert_slot
  pub compressed : Compressed cat.config cat.config.kv_source_layers
  pub vram_room : cat.sizes.core + exact_kv cat b.context + b.vram_reserved ≤ b.vram
  pub ram_room : b.ram_reserved + b.engram_ram ≤ b.ram

-- What a plan promises: both memories hold what is put there, no expert has two slots, as many
-- experts as possible are in the VRAM and then in the RAM.
pub record IsSound (cat : Catalog) (b : Budget) (p : Plan) : Type 0 where
  pub kv_exact : p.kv ≡ exact_kv cat b.context
  pub vram_fits : p.core + p.kv + b.vram_reserved + p.vram_expert_slots * cat.expert_slot ≤ b.vram
  pub ram_fits : b.ram_reserved + b.engram_ram + p.ram_expert_slots * cat.expert_slot ≤ b.ram
  pub disjoint : p.vram_expert_slots + p.ram_expert_slots ≤ p.expert_total
  pub vram_full :
      (p.vram_expert_slots ≡ p.expert_total)
      ⊎ (b.vram < p.core + p.kv + b.vram_reserved + (p.vram_expert_slots + 1) * cat.expert_slot)
  pub ram_full :
      (p.vram_expert_slots + p.ram_expert_slots ≡ p.expert_total)
      ⊎ (b.ram < b.ram_reserved + b.engram_ram + (p.ram_expert_slots + 1) * cat.expert_slot)
  pub engram_small : (p.engram_ram ≤ b.engram_ram) × (p.engram_ram ≤ p.engram_total)
  pub same_core : (p.core ≡ cat.sizes.core) × (p.expert_total ≡ cat.expert_count)

abbrev planned : Catalog → Budget → Plan
planned cat b =
    let kv = exact_kv cat b.context in
    layout cat b kv (b.vram - (cat.sizes.core + kv + b.vram_reserved))
      (b.ram - (b.ram_reserved + b.engram_ram))

planned-IsSound : (cat : Catalog) (b : Budget) → IsFeasible cat b → IsSound cat b (planned cat b)
unfolding layout
planned-IsSound cat b f =
    let kv = exact_kv cat b.context in
    let vram_free = b.vram - (cat.sizes.core + kv + b.vram_reserved) in
    let ram_free = b.ram - (b.ram_reserved + b.engram_ram) in
    let in_vram = min (vram_free / cat.expert_slot) cat.expert_count in
    let (v₁, v₂, v₃) = fills_lem cat.expert_slot vram_free cat.expert_count f.has_experts in
    let (r₁, r₂, r₃) =
      fills_lem cat.expert_slot ram_free (cat.expert_count - in_vram) f.has_experts in
    record {
      kv_exact = refl;
      vram_fits = omega arith;
      ram_fits = omega arith;
      disjoint = omega arith;
      vram_full = elim v₃ [ inl e ↦ inl e | inr l ↦ inr (omega (arith, l)) ];
      ram_full = elim r₃ [ inl e ↦ inl (omega (arith, e)) | inr l ↦ inr (omega (arith, l)) ];
      engram_small = (omega arith, omega arith);
      same_core = (refl, refl);
    }

new-feasible :
    (cat : Catalog) (b : Budget) → NoWrap cat b → IsFeasible cat b → new cat b ≡ ok (planned cat b)
unfolding new
new-feasible cat b w f =
    let vram : vram_needed cat b (exact_kv cat b.context)
        ≡ cat.sizes.core + exact_kv cat b.context + b.vram_reserved =
      omega (arith, w, f) in
    let ram : ram_needed b ≡ b.ram_reserved + b.engram_ram = omega (arith, w) in
    rw (
      ne→== b.context 0 (omega (arith, f)),
      le→ltb max_context b.context f.context_known,
      ne→== cat.expert_slot 0 (omega (arith, f)),
      kv_bytes-exact cat b.context w.heads f.compressed (omega (arith, w)),
      vram,
      le→ltb _ _ f.vram_room,
      ram,
      le→ltb _ _ f.ram_room,
    )

IsFeasible-new :
    (cat : Catalog) (b : Budget) {p : Plan} → NoWrap cat b → new cat b ≡ ok p → IsFeasible cat b
unfolding new
IsFeasible-new cat b {p} w e = elim (kv_bytes_cases cat b.context) [
  | inr (layer, k) ↦ absurd (ground arith)
  | inl c ↦
      let k : kv_bytes cat b.context ≡ ok (exact_kv cat b.context) =
        kv_bytes-exact cat b.context w.heads c (omega (arith, w)) in
      record {
        some_context = ground (arith, k);
        context_known = ground (arith, k);
        has_experts = ground (arith, k);
        compressed = c;
        vram_room = ground (arith, k);
        ram_room = ground (arith, k);
      }
]

-- With sums that fit 64 bits, there is a plan exactly when the context is positive and known to the
-- model, there are routed experts, every source layer has a compression ratio, and both memories
-- have room for what is always needed.
new_iff :
    (cat : Catalog) (b : Budget)
    → NoWrap cat b
    → ((p : Plan) × (new cat b ≡ ok p)) ↔ IsFeasible cat b
new_iff cat b w = (λ (p, e). IsFeasible-new cat b w e, λ f. (planned cat b, new-feasible cat b w f))

-- With sums that fit 64 bits, every plan keeps within both memories, counts the cache exactly, gives
-- no expert two slots, leaves no room in a memory for one more expert that has none, and puts no more
-- of the engram tables in RAM than its share and their size.
pub new-IsSound :
    (cat : Catalog) (b : Budget) {p : Plan} → NoWrap cat b → new cat b ≡ ok p → IsSound cat b p
new-IsSound cat b {p} w e =
    let f = IsFeasible-new cat b w e in
    let same : planned cat b ≡ p = cc (new-feasible cat b w f, e) in
    subst (IsSound cat b) same (planned-IsSound cat b f)
