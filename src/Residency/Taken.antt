-- ===== src/Residency/Taken.antt =====
-- take_vram_slot and take_ram_slot of crates/chatty-metal/src/residency.rs: whose slot is taken, at what
-- cost.
use chatty.Common.{
  ℕ, ◌+◌, ◌≤◌, ◌<◌, ◌≡◌, ◌≢◌, ◌⊎◌, ◌∙◌, refl, min, Bool, true, false, Option, none, some, List, [],
  ◌∷◌, ltb, leb, arith, if◌then◌else◌,
}
use chatty.Residency.Slots.{update, Tier, take_slot}
use chatty.Residency.{Residency, may_go, ram_cost, take_ram_slot, take_vram_slot}
use chatty.Residency.Choice.{
  Choice, from_free, nobody, refused, cheapest, IsCheapest, take_slot-Choice,
}

-- What a RAM slot costs: nothing while the expert is in VRAM too, else one more than its demand, a
-- `u32` that saturates.
abbrev pub lost_demand : Option ℕ → ℕ → ℕ
lost_demand (some slot) demand = 0
lost_demand none demand = min (demand + 1) 4294967295

-- Slot `s` belongs to the expert `o`, on which no job works and which was not marked in this layer; no
-- other such expert costs less.
pub record IsVictim (r : Residency) (t : Tier) (cost : ℕ → ℕ) (s o : ℕ) : Type 0 where
  pub inside : s < t.slots
  pub mine : t.owner s ≡ some o
  pub idle : r.busy o ≡ false
  pub unmarked : r.used o ≢ r.tick
  pub least :
      (i p : ℕ)
      → i < t.slots
      → t.owner i ≡ some p
      → r.busy p ≡ false
      → r.used p ≢ r.tick
      → cost o ≤ cost p

-- What a slot is taken from: the top of the free slots; nothing, when a job works on the expert of every
-- slot or it was marked in this layer; nothing, when the cheapest costs too much; else its slot.
pub data Taken (r : Residency) (t : Tier) (cost : ℕ → ℕ) (too_dear : ℕ → Bool)
    : Tier × Option ℕ × Bool → Type 0 where
  free_slot :
      (s : ℕ) (free : List ℕ)
      → t.free ≡ s ∷ free
      → Taken r t cost too_dear (record t { free = free }, some s, false)
  none_goes :
      t.free ≡ []
      → ((s o : ℕ) → s < t.slots → t.owner s ≡ some o → (r.busy o ≡ true) ⊎ (r.used o ≡ r.tick))
      → Taken r t cost too_dear (t, none, false)
  all_dearer :
      (s o : ℕ)
      → t.free ≡ []
      → IsVictim r t cost s o
      → too_dear (cost o) ≡ true
      → Taken r t cost too_dear (t, none, false)
  victim :
      (s o : ℕ)
      → t.free ≡ []
      → IsVictim r t cost s o
      → too_dear (cost o) ≡ false
      → Taken r t cost too_dear
          (record t { place = update t.place o none; owner = update t.owner s none }, some s, true)

may_go_parts :
    (r : Residency) (o : ℕ) → may_go r o ≡ true → (r.busy o ≡ false) × (r.used o ≢ r.tick)
may_go_parts r o h = (ground (arith, h), λ e. ground (arith, h, e))

may_go-false :
    (r : Residency) (o : ℕ) → may_go r o ≡ false → (r.busy o ≡ true) ⊎ (r.used o ≡ r.tick)
may_go-false r o h = ground (arith, h)

may_go_whole : (r : Residency) (o : ℕ) → r.busy o ≡ false → r.used o ≢ r.tick → may_go r o ≡ true
may_go_whole r o idle unmarked = ground (arith, idle, unmarked)

module _ (r : Residency) (t : Tier) (cost own : ℕ → ℕ) (too_dear : ℕ → Bool)
    (same : (o : ℕ) → own o ≡ cost o) where
  cheapest-IsVictim :
      (c s o : ℕ) → IsCheapest (may_go r) own t.owner t.slots c s o → IsVictim r t cost s o
  cheapest-IsVictim c s o h =
      let (idle, unmarked) = may_go_parts r o h.goes in
      record {
        inside = h.inside;
        mine = h.mine;
        idle = idle;
        unmarked = unmarked;
        least = λ i p lt mine free away.
            omega
              (arith, h.least i p lt mine (may_go_whole r p free away), h.of_cost, same o, same p);
      }

  price : (c s o : ℕ) → IsCheapest (may_go r) own t.owner t.slots c s o → c ≡ cost o
  price c s o h = h.of_cost ∙ same o

  Choice-Taken :
      {x : Tier × Option ℕ × Bool} → Choice t (may_go r) own too_dear x → Taken r t cost too_dear x
  Choice-Taken (from_free s free e) = free_slot s free e
  Choice-Taken (nobody e h) = none_goes e (λ s o lt mine. may_go-false r o (h s o lt mine))
  Choice-Taken (refused c s o e h dear) =
      all_dearer s o e (cheapest-IsVictim c s o h) (rw (← price c s o h) dear)
  Choice-Taken (cheapest c s o e h fair) =
      victim s o e (cheapest-IsVictim c s o h) (rw (← price c s o h) fair)

-- What `take_ram_slot` does to the state, and the slot that it gives.
pub record TakesRam (r : Residency) (d : ℕ) (y : Residency × Option ℕ) : Type 0 where
  pub tier : Tier × Option ℕ × Bool
  pub taken :
      Taken r r.ram (λ o. lost_demand (r.vram.place o) (r.demand o)) (λ cost. ltb d cost) tier
  pub only : y ≡ (record r { ram = tier.0 }, tier.1)

-- The same of `take_vram_slot`, which counts the experts that it puts out.
pub record TakesVram (r : Residency) (d : ℕ) (y : Residency × Option ℕ) : Type 0 where
  pub tier : Tier × Option ℕ × Bool
  pub taken : Taken r r.vram (λ o. r.demand o) (λ cost. leb d cost) tier
  pub only : y.1 ≡ tier.1
  pub vram : y.0.vram ≡ tier.0
  pub ram : y.0.ram ≡ r.ram
  pub counted :
      y.0.counters.evicted_vram
      ≡ (if tier.2 then r.counters.evicted_vram + 1 else r.counters.evicted_vram)

ram_cost_same : (r : Residency) (o : ℕ) → ram_cost r o ≡ lost_demand (r.vram.place o) (r.demand o)
ram_cost_same r o = ground arith

-- For an expert with the demand `d`, a slot of the RAM or of the VRAM is taken from the free ones when
-- there is one. Else that expert loses its slot, of those on which no job works and which were not
-- marked in this layer, that costs least: in VRAM its demand; in RAM nothing when it is in VRAM too, and
-- otherwise one more than its demand, as far as 32 bits go. No slot is given when all are busy or
-- marked, when the least cost in RAM is above `d`, or when the least cost in VRAM is not below `d`.
pub take_slots-Taken :
    (r : Residency) (d : ℕ) → TakesRam r d (take_ram_slot r d) × TakesVram r d (take_vram_slot r d)
unfolding take_ram_slot take_vram_slot
take_slots-Taken r d = (
  record {
    tier = take_slot r.ram (may_go r) (ram_cost r) (λ cost. ltb d cost);
    taken =
        Choice-Taken r r.ram (λ o. lost_demand (r.vram.place o) (r.demand o)) (ram_cost r)
          (λ cost. ltb d cost) (ram_cost_same r)
          (take_slot-Choice r.ram (may_go r) (ram_cost r) (λ cost. ltb d cost));
    only = refl;
  },
  record {
    tier = take_slot r.vram (may_go r) r.demand (λ cost. leb d cost);
    taken =
        Choice-Taken r r.vram (λ o. r.demand o) r.demand (λ cost. leb d cost) (λ o. refl)
          (take_slot-Choice r.vram (may_go r) r.demand (λ cost. leb d cost));
    only = refl;
    vram = refl;
    ram = refl;
    counted = counted_if (take_slot r.vram (may_go r) r.demand (λ cost. leb d cost)).2;
  },
)
  where
    counted_if :
        (b : Bool)
        → (if b
            then record r.counters { evicted_vram = r.counters.evicted_vram + 1 }
            else r.counters).evicted_vram
          ≡ (if b then r.counters.evicted_vram + 1 else r.counters.evicted_vram)
    counted_if true = refl
    counted_if false = refl
