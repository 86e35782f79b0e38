-- ===== src/Residency/Moves.antt =====
-- What a job does to one memory: a slot is assigned, written, and the expert adopted.
use chatty.Common.{
  ℕ, zero, suc, ◌<◌, ◌≡◌, ◌≢◌, refl, Bool, true, false, Option, none, some, List, [], ◌∷◌,
}
use chatty.Common.{All, arith}
use native.Mathlib.Decide.{ℕ_discrete}
use chatty.Residency.Slots.{update, Tier, first_slot, assign}
use chatty.Residency.Held.{AllFree, AllFree-same, IsHeld}

pub IsHeld-busier :
    (t : Tier) (busy more : ℕ → Bool)
    → ((id : ℕ) → busy id ≡ true → more id ≡ true)
    → IsHeld t busy
    → IsHeld t more
IsHeld-busier t busy more up h = record {
  placed = h.placed;
  owned = λ id s p. ground (arith, h.owned id s p, up id);
  one_slot = h.one_slot;
  in_range = h.in_range;
  all_free = h.all_free;
}

AllFree-assigned :
    (t : Tier) (s id : ℕ) (free : List ℕ)
    → All (λ f. f ≢ s) free
    → AllFree t free
    → AllFree (assign t s id) free
AllFree-assigned t s id [] ne a = tt
AllFree-assigned t s id (f ∷ free) ne a =
    (ground (arith, a.0, ne.0), a.1, a.2, AllFree-assigned t s id free ne.1 a.3)

pub assign-IsHeld :
    (t : Tier) (busy : ℕ → Bool) (s id : ℕ)
    → IsHeld t busy
    → t.owner s ≡ none
    → s < t.slots
    → All (λ f. f ≢ s) t.free
    → t.place id ≡ none
    → busy id ≡ false
    → IsHeld (assign t s id) (update busy id true)
assign-IsHeld t busy s id h vacant lt ne nowhere idle = record {
  placed = λ j i p. ground (arith, h.placed j i, vacant);
  owned = λ j i p. ground (arith, h.owned j i);
  one_slot = λ j i k p q. ground (arith, h.one_slot j i k, h.owned j i, h.owned j k, nowhere, idle);
  in_range = λ j i p. ground (arith, h.in_range j i, lt);
  all_free = AllFree-assigned t s id t.free ne h.all_free;
}

first_slot-none :
    (owner : ℕ → Option ℕ) (id n : ℕ)
    → ((i : ℕ) → i < n → owner i ≢ some id)
    → first_slot owner id n ≡ none
unfolding first_slot
first_slot-none owner id zero nobody = refl
first_slot-none owner id (suc n) nobody =
    ground (arith, nobody n, first_slot-none owner id n (λ i lt. nobody i (omega arith)))

pub first_slot_found :
    (owner : ℕ → Option ℕ) (id s n : ℕ)
    → owner s ≡ some id
    → ((i : ℕ) → owner i ≡ some id → i ≡ s)
    → s < n
    → first_slot owner id n ≡ some s
unfolding first_slot
first_slot_found owner id s zero mine only lt = absurd (omega arith)
first_slot_found owner id s (suc n) mine only lt = elim (ℕ_discrete s n) [
  | yes e ↦
      ground (arith, mine, e, first_slot-none owner id n (λ i below p. omega (arith, only i p)))
  | no ne ↦ ground (arith, first_slot_found owner id s n mine only (omega arith))
]

-- The expert is in the slot that it was brought to.
pub adopted-IsHeld :
    (t : Tier) (busy : ℕ → Bool) (id s : ℕ)
    → IsHeld t busy
    → t.owner s ≡ some id
    → t.mem s ≡ some id
    → IsHeld (record t { place = update t.place id (some s) }) (update busy id false)
adopted-IsHeld t busy id s h mine there = record {
  placed = λ j i p. ground (arith, h.placed j i, mine, there);
  owned = λ j i p. ground (arith, h.owned j i, h.one_slot id s i mine);
  one_slot = h.one_slot;
  in_range = h.in_range;
  all_free =
      AllFree-same t (record t { place = update t.place id (some s) }) t.free refl (λ i p. p)
        h.all_free;
}

-- In the other memory nothing is on the way.
pub settled-IsHeld :
    (t : Tier) (busy : ℕ → Bool) (id : ℕ)
    → IsHeld t busy
    → ((s : ℕ) → t.owner s ≡ some id → t.place id ≡ some s)
    → IsHeld t (update busy id false)
settled-IsHeld t busy id h there = record {
  placed = h.placed;
  owned = λ j i p. ground (arith, h.owned j i p, there i);
  one_slot = h.one_slot;
  in_range = h.in_range;
  all_free = h.all_free;
}

-- A worker writes to a slot that no expert is mapped to.
pub written-IsHeld :
    (t : Tier) (busy : ℕ → Bool) (s : ℕ) (v : Option ℕ)
    → IsHeld t busy
    → ((id : ℕ) → t.place id ≢ some s)
    → IsHeld (record t { mem = update t.mem s v }) busy
written-IsHeld t busy s v h unmapped = record {
  placed = λ j i p. ground (arith, h.placed j i p, unmapped j);
  owned = h.owned;
  one_slot = h.one_slot;
  in_range = h.in_range;
  all_free = AllFree-same t (record t { mem = update t.mem s v }) t.free refl (λ i p. p) h.all_free;
}
