-- ===== src/Residency/Slots.antt =====
-- The slots of one memory: who owns them, which are free, and the choice of a victim.
use chatty.Common.{
  ℕ, zero, suc, Bool, true, false, Option, none, some, List, [], ◌∷◌, ltb, ◌==◌, if◌then◌else◌,
}

abbrev pub update {ℓ} : {A : Type ℓ} → (ℕ → A) → ℕ → A → ℕ → A
update f i v j = if i == j then v else f j

pub record Tier : Type 0 where
  pub slots : ℕ
  -- `in_vram`, `in_ram`: the slot of an expert
  pub place : ℕ → Option ℕ
  -- `vram_owner`, `ram_owner`
  pub owner : ℕ → Option ℕ
  -- `vram_free`, `ram_free`, the top of the stack first
  pub free : List ℕ
  pub mem : ℕ → Option ℕ

-- `owner.iter().position(|&owner| owner == id)`, of the first `n`.
abbrev pub owns : Option ℕ → ℕ → Bool
owns none id = false
owns (some o) id = o == id

abbrev pub or_else : Option ℕ → Option ℕ → Option ℕ
or_else (some s) other = some s
or_else none other = other

unfoldable pub first_slot : (ℕ → Option ℕ) → ℕ → ℕ → Option ℕ
first_slot owner id zero = none
first_slot owner id (suc n) =
    or_else (first_slot owner id n) (if owns (owner n) id then some n else none)

-- A victim: its cost, its slot and the expert.
abbrev pub Victim : Type 0
Victim = ℕ × ℕ × ℕ

abbrev pub is_better : ℕ → Option Victim → Bool
is_better cost none = true
is_better cost (some (d, s, o)) = ltb cost d

-- One round of the scan, at a slot.
abbrev pub consider : (ℕ → Bool) → (ℕ → ℕ) → ℕ → Option ℕ → Option Victim → Option Victim
consider may_go cost slot none found = found
consider may_go cost slot (some o) found =
    if may_go o then (if is_better (cost o) found then some (cost o, slot, o) else found) else found

-- The scan over the first `n` slots.
unfoldable pub best : (ℕ → Bool) → (ℕ → ℕ) → (ℕ → Option ℕ) → ℕ → Option Victim
best may_go cost owner zero = none
best may_go cost owner (suc n) = consider may_go cost n (owner n) (best may_go cost owner n)

abbrev pub evict : Tier → (ℕ → Bool) → Option Victim → Tier × Option ℕ × Bool
evict t refuse none = (t, none, false)
evict t refuse (some (c, s, o)) =
    if refuse c
    then (t, none, false)
    else (record t { place = update t.place o none; owner = update t.owner s none }, some s, true)

abbrev pub pop : Tier → Option Victim → (ℕ → Bool) → List ℕ → Tier × Option ℕ × Bool
pop t victim refuse (s ∷ free) = (record t { free = free }, some s, false)
pop t victim refuse [] = evict t refuse victim

-- A free slot, or that of a victim that is not refused: the slot, and whether a victim had to go.
unfoldable pub take_slot : Tier → (ℕ → Bool) → (ℕ → ℕ) → (ℕ → Bool) → Tier × Option ℕ × Bool
take_slot t may_go cost refuse = pop t (best may_go cost t.owner t.slots) refuse t.free

-- `owner[slot] = id`
abbrev pub assign : Tier → ℕ → ℕ → Tier
assign t slot id = record t { owner = update t.owner slot (some id) }
