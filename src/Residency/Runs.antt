-- ===== src/Residency/Runs.antt =====
-- Expert 5 is requested, fetched, adopted and claimed, with one VRAM slot and one RAM slot.
use chatty.Common.{ℕ, ◌≡◌, ◌≢◌, refl, true, false, some, []}
use chatty.Residency.Slots.{take_slot, best, first_slot}
use chatty.Residency.{
  fetch, copy, Job, Residency, in_ram, none_slot, slots_from, new, request, start_fetch,
  take_ram_slot, take_vram_slot, claim, adopt,
}
use chatty.Residency.Steps.{Picked, here, Run, requested, worked, received, stop, next, work}
use chatty.Residency.Jobs.{IsConsistent}
use chatty.Residency.Invariant.{Run-new-IsConsistent}
use chatty.Residency.Safety.{holds, job_alone}
use chatty.Residency.Pinned.{last, after, claim_stays}
use chatty.Residency.Stuck.{IsStuck, failed_stays}
use chatty.Residency.Taken.{TakesRam, TakesVram, take_slots-Taken}

abbrev asked : Residency
asked = (request (new 1 1) 5).0

abbrev job : Job
job = record { kind = fetch; id = 5; src = none_slot; dst = 0; finished = false }

abbrev fetched : Residency
fetched = work asked job []

abbrev here_now : Residency
here_now = adopt (record fetched { jobs = [] }) fetch 5

sent : Picked asked.jobs job []
unfolding request start_fetch take_ram_slot take_slot slots_from
sent = here

Run-asked : Run (new 1 1) asked
Run-asked = next (requested (new 1 1) 5) stop

Run-here : Run (new 1 1) here_now
Run-here = next (requested (new 1 1) 5) (
    next (worked asked job [] sent refl)
      (next (received fetched (record job { finished = true }) [] here refl) stop))

claim_test : (claim here_now 5).1 ≡ some (in_ram, 0)
unfolding claim adopt first_slot request start_fetch take_ram_slot take_slot slots_from
claim_test = refl

-- The only slot is that of an expert of this layer.
request_test : (request here_now 6).1 ≡ false
unfolding request adopt first_slot start_fetch take_ram_slot take_slot slots_from best
request_test = refl

Run-new-IsConsistent_example : IsConsistent here_now
Run-new-IsConsistent_example = Run-new-IsConsistent 1 1 Run-here

job_alone_example :
    (fetch ≡ fetch → (id : ℕ) → asked.ram.place id ≢ some 0)
    × (fetch ≡ copy → (id : ℕ) → asked.vram.place id ≢ some 0)
    × (fetch ≡ copy → asked.ram.mem none_slot ≡ some 5)
job_alone_example = job_alone 1 1 Run-asked sent

abbrev running : Residency
running = (claim here_now 5).0

same_layer : (request running 6).0.tick ≡ running.tick
unfolding request start_fetch take_ram_slot take_slot best claim adopt first_slot slots_from
same_layer = refl

claim_stays_example : holds (request running 6).0 (in_ram, 0) ≡ some 5
claim_stays_example =
    claim_stays 1 1 5 (in_ram, 0) Run-here claim_test (after (requested running 6) same_layer last)

take_slots-Taken_example :
    TakesRam here_now 3 (take_ram_slot here_now 3)
    × TakesVram here_now 3 (take_vram_slot here_now 3)
take_slots-Taken_example = take_slots-Taken here_now 3

abbrev lost : Residency
lost = record asked { jobs = [] }

failed_stays_example : IsStuck 5 (request lost 5).0
failed_stays_example =
    failed_stays 1 1 job [] Run-asked sent refl refl (next (requested lost 5) stop)
