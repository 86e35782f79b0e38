-- ===== src/Residency/Safety.antt =====
-- What the engine and the workers may rely on: the bytes of a claimed expert are there and stay.
use chatty.Common.{ℕ, ◌≡◌, ◌≢◌, refl, sym, ◌∙◌, Option, none, some, List}
use chatty.Common.{arith}
use chatty.Residency.{
  fetch, copy, Job, Residency, TierName, in_vram, in_ram, find_expert, claim_found, claim, new,
}
use chatty.Residency.Steps.{Picked, Run}
use chatty.Residency.Jobs.{IsRunning, IsConsistent, Picked-All}
use chatty.Residency.Workers.{fetch_unmapped, copy_unmapped}
use chatty.Residency.Invariant.{Run-new-IsConsistent}

-- The expert whose bytes are in a slot.
abbrev pub holds : Residency → TierName × ℕ → Option ℕ
holds r (in_vram, s) = r.vram.mem s
holds r (in_ram, s) = r.ram.mem s

claim_found_same :
    (r : Residency) (id : ℕ) (found : Option (TierName × ℕ)) → (claim_found r id found).1 ≡ found
claim_found_same r id none = refl
claim_found_same r id (some at) = refl

pub find_expert-holds :
    (r : Residency) (id : ℕ) (at : TierName × ℕ)
    → IsConsistent r
    → find_expert r id ≡ some at
    → holds r at ≡ some id
find_expert-holds r id (in_vram, s) c e = ground (arith, c.vram_held.placed id s)
find_expert-holds r id (in_ram, s) c e = ground (arith, c.ram_held.placed id s)

-- In every state that is reached, what `claim` returns is a slot that has the bytes of the expert.
claim-holds :
    (vram_slots ram_slots : ℕ) {r : Residency} (id : ℕ) (at : TierName × ℕ)
    → Run (new vram_slots ram_slots) r
    → (claim r id).1 ≡ some at
    → holds r at ≡ some id
unfolding claim
claim-holds v m {r} id at run e =
    find_expert-holds r id at (Run-new-IsConsistent v m run)
      (sym (claim_found_same r id (find_expert r id)) ∙ e)

-- In every state that is reached, the slot that a job writes to is one that no expert is mapped to,
-- and a copy reads from the slot that the RAM has its expert in.
pub job_alone :
    (vram_slots ram_slots : ℕ) {r : Residency} {j : Job} {rest : List Job}
    → Run (new vram_slots ram_slots) r
    → Picked r.jobs j rest
    → (j.kind ≡ fetch → (id : ℕ) → r.ram.place id ≢ some j.dst)
      × (j.kind ≡ copy → (id : ℕ) → r.vram.place id ≢ some j.dst)
      × (j.kind ≡ copy → r.ram.mem j.src ≡ some j.id)
job_alone v m {r} {j} run pick =
    let c : IsConsistent r = Run-new-IsConsistent v m run in
    let x : IsRunning r j = (Picked-All (IsRunning r) pick c.running).0 in
    (
      fetch_unmapped r c j x,
      copy_unmapped r c j x,
      λ k. let (o, p, q, f) = x.copying k in (c.ram_held.placed j.id j.src q).1,
    )
