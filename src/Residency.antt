-- ===== src/Residency.antt =====
-- crates/chatty-metal/src/residency.rs: which expert is in which slot, and the jobs of the workers.
-- A vector over the experts or the slots is a function, u32::MAX is `none`; the vectors and the arena
-- of one memory make up a tier, with the expert whose bytes each slot holds (`mem`, not in the source).
use Slots.{update, Tier, first_slot, best, take_slot, assign}
pub mod Slots
pub mod Held
pub mod Moves
pub mod Steps
pub mod Jobs
pub mod Engine
pub mod Workers
pub mod Invariant
pub mod Safety
pub mod Pinned
pub mod Choice
pub mod Taken
pub mod Stuck
mod Runs
use chatty.Common.{
  zero, suc, ℕ, ◌+◌, ◌-◌, ◌/◌, ◌%◌, ◌^◌, min, Bool, true, false, ◌&&◌, ◌||◌, not, Option, none,
  some,
}
use chatty.Common.{List, [], ◌∷◌, ◌++◌, ltb, leb, ◌==◌, if◌then◌else◌}

pub data Kind : Type 0 where
  fetch copy : Kind

-- A job that was sent to a worker, until its `Done` is received; `finished` once that was sent.
pub record Job : Type 0 where
  pub kind : Kind
  pub id : ℕ
  pub src : ℕ
  pub dst : ℕ
  pub finished : Bool

pub record Counters : Type 0 where
  pub fetched : ℕ
  pub promoted : ℕ
  pub evicted_vram : ℕ

pub record Residency : Type 0 where
  pub vram : Tier
  pub ram : Tier
  pub demand : ℕ → ℕ
  pub busy : ℕ → Bool
  pub used : ℕ → ℕ
  pub tick : ℕ
  pub queued : ℕ
  pub jobs : List Job
  pub counters : Counters

abbrev pub none_slot : ℕ
none_slot = 4294967295

abbrev pub decay_ticks : ℕ
decay_ticks = 10240

abbrev pub promote_after : ℕ
promote_after = 2

abbrev pub max_queued : ℕ
max_queued = 16

abbrev pub is_some : Option ℕ → Bool
is_some none = false
is_some (some s) = true

abbrev pub or_none : Option ℕ → ℕ
or_none none = none_slot
or_none (some s) = s

-- `saturating_add(1)` on `u32`
abbrev pub add_one : ℕ → ℕ
add_one d = min (d + 1) 4294967295

-- `begin_layer`
unfoldable pub begin_layer : Residency → Residency
begin_layer r =
    let next : Residency = record r { tick = r.tick + 1 } in
    if (r.tick + 1) % decay_ticks == 0 then record next { demand = λ id. r.demand id / 2 } else next

-- `note_demand`
unfoldable pub note_demand : Residency → ℕ → Residency
note_demand r id = record r { demand = update r.demand id (add_one (r.demand id)) }

-- What the scans for a victim skip.
abbrev pub may_go : Residency → ℕ → Bool
may_go r id = not (r.busy id) && not (r.used id == r.tick)

-- `take_vram_slot`
unfoldable pub take_vram_slot : Residency → ℕ → Residency × Option ℕ
take_vram_slot r d =
    let t = take_slot r.vram (may_go r) r.demand (λ victim. leb d victim) in
    (
      record r {
        vram = t.0;
        counters =
            if t.2
            then record r.counters { evicted_vram = r.counters.evicted_vram + 1 }
            else r.counters;
      },
      t.1,
    )

-- `cost` in `take_ram_slot`
abbrev pub ram_cost : Residency → ℕ → ℕ
ram_cost r id = if is_some (r.vram.place id) then 0 else add_one (r.demand id)

-- `take_ram_slot`
unfoldable pub take_ram_slot : Residency → ℕ → Residency × Option ℕ
take_ram_slot r d =
    let t = take_slot r.ram (may_go r) (ram_cost r) (λ victim. ltb d victim) in
    (record r { ram = t.0 }, t.1)

abbrev pub send : Residency → Kind → ℕ → ℕ → ℕ → Residency
send r kind id src dst = record r {
  busy = update r.busy id true;
  queued = r.queued + 1;
  jobs = r.jobs ++ (record { kind = kind; id = id; src = src; dst = dst; finished = false }) ∷ [];
}

abbrev pub fetch_into : Residency → ℕ → Option ℕ → Residency × Bool
fetch_into r id none = (r, false)
fetch_into r id (some slot) =
    (send (record r { ram = assign r.ram slot id }) fetch id none_slot slot, true)

-- `start_fetch`
unfoldable pub start_fetch : Residency → ℕ → ℕ → Residency × Bool
start_fetch r id d = let t = take_ram_slot r d in fetch_into t.0 id t.1

abbrev pub promote_into : Residency → ℕ → Option ℕ → Residency
promote_into r id none = r
promote_into r id (some slot) =
    send (record r { vram = assign r.vram slot id }) copy id (or_none (r.ram.place id)) slot

-- `start_promote`
unfoldable pub start_promote : Residency → ℕ → Residency
start_promote r id = let t = take_vram_slot r (r.demand id) in promote_into t.0 id t.1

-- `tier` and `claim`: the tier and the slot, and the expert is marked as running in this layer.
pub data TierName : Type 0 where
  in_vram in_ram : TierName

abbrev pub find_expert : Residency → ℕ → Option (TierName × ℕ)
find_expert r id = elim (r.vram.place id) [
  | some s ↦ some (in_vram, s)
  | none ↦ elim (r.ram.place id) [ some s ↦ some (in_ram, s) | none ↦ none ]
]

abbrev pub mark_used : Residency → ℕ → Residency
mark_used r id = record r { used = update r.used id r.tick }

abbrev pub claim_found : Residency → ℕ → Option (TierName × ℕ) → Residency × Option (TierName × ℕ)
claim_found r id none = (r, none)
claim_found r id (some at) = (mark_used r id, some at)

unfoldable pub claim : Residency → ℕ → Residency × Option (TierName × ℕ)
claim r id = claim_found r id (find_expert r id)

abbrev pub is_cold : Residency → ℕ → Bool
is_cold r id = not (is_some (r.ram.place id)) && not (is_some (r.vram.place id)) && not (r.busy id)

-- `request`: false for the error.
unfoldable pub request : Residency → ℕ → Residency × Bool
request r id =
    let m = mark_used r id in
    let f = start_fetch m id 4294967295 in if is_cold m id then f else (m, true)

-- `want`
unfoldable pub want : Residency → ℕ → Residency
want r id =
    let fetched = (start_fetch r id (r.demand id)).0 in
    let promoted = start_promote r id in
    if r.busy id || is_some (r.vram.place id) || leb max_queued r.queued
    then r
    else if not (is_some (r.ram.place id))
    then fetched
    else if leb promote_after (r.demand id)
    then promoted
    else r

-- `adopt`, of what a worker has sent.
unfoldable pub adopt : Residency → Kind → ℕ → Residency
adopt r fetch id = record r {
  queued = r.queued - 1;
  ram = record r.ram { place = update r.ram.place id (first_slot r.ram.owner id r.ram.slots) };
  busy = update r.busy id false;
  counters = record r.counters { fetched = r.counters.fetched + 1 };
}
adopt r copy id = record r {
  queued = r.queued - 1;
  vram = record r.vram { place = update r.vram.place id (first_slot r.vram.owner id r.vram.slots) };
  busy = update r.busy id false;
  counters = record r.counters { promoted = r.counters.promoted + 1 };
}

-- `(0..slots).rev()`, the top of the stack first.
unfoldable pub slots_from : ℕ → ℕ → List ℕ
slots_from s zero = []
slots_from s (suc n) = s ∷ slots_from (s + 1) n

abbrev pub new_tier : ℕ → Tier
new_tier slots = record {
  slots = slots;
  place = λ id. none;
  owner = λ s. none;
  free = slots_from 0 slots;
  mem = λ s. none;
}

-- The state that `Residency::new` makes.
abbrev pub new : ℕ → ℕ → Residency
new vram_slots ram_slots = record {
  vram = new_tier vram_slots;
  ram = new_tier ram_slots;
  demand = λ id. 0;
  busy = λ id. false;
  used = λ id. 0;
  tick = 1;
  queued = 0;
  jobs = [];
  counters = record { fetched = 0; promoted = 0; evicted_vram = 0 };
}
