-- ===== src/Residency/Invariant.antt =====
-- Slots and jobs stay consistent, in every interleaving of the engine and its workers.
use chatty.Common.{ℕ, zero, suc, ◌+◌, ◌≤◌, ◌<◌, ◌≢◌, refl, false, All, arith}
use chatty.Residency.{Residency, slots_from, new_tier, new}
use chatty.Residency.Held.{IsHeld, AllFree}
use chatty.Residency.Steps.{
  Step, Run, layer, noted, claimed, requested, wanted, loaded, promoted, writing, worked, failed,
  received, stop, next,
}
use chatty.Residency.Jobs.{IsConsistent}
use chatty.Residency.Engine.{
  begin_layer-IsConsistent, note_demand-IsConsistent, claim-IsConsistent, request-IsConsistent,
  want-IsConsistent, start_fetch-IsConsistent, start_promote-IsConsistent,
}
use chatty.Residency.Workers.{
  half_write-IsConsistent, work-IsConsistent, dropped-IsConsistent, adopt-IsConsistent,
}

pub Step-IsConsistent : {r s : Residency} → Step r s → IsConsistent r → IsConsistent s
Step-IsConsistent (layer r) c = begin_layer-IsConsistent r c
Step-IsConsistent (noted r id) c = note_demand-IsConsistent r id c
Step-IsConsistent (claimed r id) c = claim-IsConsistent r id c
Step-IsConsistent (requested r id) c = request-IsConsistent r id c
Step-IsConsistent (wanted r id) c = want-IsConsistent r id c
Step-IsConsistent (loaded r id d cold) c = start_fetch-IsConsistent r c id d cold
Step-IsConsistent (promoted r id idle out_vram in_ram) c =
    start_promote-IsConsistent r c id idle out_vram in_ram
Step-IsConsistent (writing r j rest p f) c = half_write-IsConsistent r c j rest p f
Step-IsConsistent (worked r j rest p f) c = work-IsConsistent r c j rest p
Step-IsConsistent (failed r j rest p f k) c = dropped-IsConsistent r c j rest p
Step-IsConsistent (received r j rest p f) c = adopt-IsConsistent r c j rest p f

pub Run-IsConsistent : {r s : Residency} → Run r s → IsConsistent r → IsConsistent s
Run-IsConsistent stop c = c
Run-IsConsistent (next step run) c = Run-IsConsistent run (Step-IsConsistent step c)

slots_from_above : (s t n : ℕ) → s < t → All (λ f. f ≢ s) (slots_from t n)
unfolding slots_from
slots_from_above s t zero lt = tt
slots_from_above s t (suc n) lt = (λ e. omega arith, slots_from_above s (t + 1) n (omega arith))

slots_from-AllFree : (slots s n : ℕ) → s + n ≤ slots → AllFree (new_tier slots) (slots_from s n)
unfolding slots_from
slots_from-AllFree slots s zero le = tt
slots_from-AllFree slots s (suc n) le = (
  refl,
  omega arith,
  slots_from_above s (s + 1) n (omega arith),
  slots_from-AllFree slots (s + 1) n (omega arith),
)

new_tier-IsHeld : (slots : ℕ) → IsHeld (new_tier slots) (λ id. false)
new_tier-IsHeld slots = record {
  placed = λ id s e. absurd (cc e);
  owned = λ id s e. absurd (cc e);
  one_slot = λ id s i e f. absurd (cc e);
  in_range = λ id s e. absurd (cc e);
  all_free = slots_from-AllFree slots 0 slots (omega arith);
}

-- In every state that the engine and its workers reach, in any order of their steps and with reads
-- that fail: an expert that is mapped to a slot owns it and the slot has its bytes, a slot has one
-- owner and an expert one slot of each memory, a free slot has no owner, every job's slot is owned by
-- its expert, and no expert has two jobs.
pub Run-new-IsConsistent :
    (vram_slots ram_slots : ℕ) {r : Residency} → Run (new vram_slots ram_slots) r → IsConsistent r
Run-new-IsConsistent v m run = Run-IsConsistent run (record {
  vram_held = new_tier-IsHeld v;
  ram_held = new_tier-IsHeld m;
  running = tt;
  apart = tt;
  counted = omega arith;
})
