-- ===== src/Residency/Stuck.antt =====
-- What becomes of an expert whose fetch failed.
use chatty.Common.{
  ℕ, ◌+◌, ◌≡◌, ◌≢◌, refl, Bool, true, false, ◌||◌, not, Option, none, some, inl, inr, List,
}
use chatty.Common.{
  All, All-append, ltb, leb, ◌==◌, ◌%◌, if◌then◌else◌, arith, Bool-cases, Option-cases,
}
use chatty.Residency.Slots.{Tier}
use chatty.Residency.{
  decay_ticks, max_queued, promote_after, Kind, fetch, copy, Job, Counters, Residency, TierName,
  find_expert, claim_found, mark_used, is_some, is_cold, may_go, ram_cost, claim, begin_layer,
  note_demand, request, want, start_fetch, start_promote, take_ram_slot, take_vram_slot, fetch_into,
  promote_into, adopt, new,
}
use chatty.Residency.Held.{Outcome, refused, taken, take_slot-Outcome}
use chatty.Residency.Steps.{
  Picked, half_write, write, Step, Run, layer, noted, claimed, requested, wanted, loaded, promoted,
  writing, worked, failed, received, stop, next,
}
use chatty.Residency.Jobs.{IsRunning, IsConsistent, Picked-All, Picked-AreApart}
use chatty.Residency.Engine.{mark_used-IsConsistent}
use chatty.Residency.Invariant.{Step-IsConsistent, Run-new-IsConsistent}

-- The expert is taken for busy, is in no memory, and no worker has a job for it.
pub record IsStuck (id : ℕ) (r : Residency) : Type 0 where
  pub is_busy : r.busy id ≡ true
  pub not_vram : r.vram.place id ≡ none
  pub not_ram : r.ram.place id ≡ none
  pub no_job : All (λ j. j.id ≢ id) r.jobs

module _ (r : Residency) (c : IsConsistent r) (id : ℕ) (x : IsStuck id r) where
  free_to_go : (i : ℕ) → may_go r i ≡ true → r.busy i ≡ false
  free_to_go i m = ground arith

  another : (j : ℕ) → r.busy j ≡ false → j ≢ id
  another j idle e = cc (x.is_busy, idle, e)

  fetch_into-IsStuck :
      {t : Tier × Option ℕ × Bool} (j : ℕ)
      → Outcome r.ram (may_go r) r.busy t
      → r.busy j ≡ false
      → IsStuck id (fetch_into (record r { ram = t.0 }) j t.1).0
  fetch_into-IsStuck j refused idle = x
  fetch_into-IsStuck j (taken s u b t h) idle = record {
    is_busy = ground (arith, x.is_busy);
    not_vram = x.not_vram;
    not_ram = t.none_added id x.not_ram;
    no_job = All-append _ r.jobs _ x.no_job (another j idle, tt);
  }

  promote_into-IsStuck :
      {t : Tier × Option ℕ × Bool} (n : Counters) (j : ℕ)
      → Outcome r.vram (may_go r) r.busy t
      → r.busy j ≡ false
      → IsStuck id (promote_into (record r { vram = t.0; counters = n }) j t.1)
  promote_into-IsStuck n j refused idle = record {
    is_busy = x.is_busy;
    not_vram = x.not_vram;
    not_ram = x.not_ram;
    no_job = x.no_job;
  }
  promote_into-IsStuck n j (taken s u b t h) idle = record {
    is_busy = ground (arith, x.is_busy);
    not_vram = t.none_added id x.not_vram;
    not_ram = x.not_ram;
    no_job = All-append _ r.jobs _ x.no_job (another j idle, tt);
  }

  start_fetch-IsStuck : (j d : ℕ) → r.busy j ≡ false → IsStuck id (start_fetch r j d).0
  unfolding start_fetch take_ram_slot
  start_fetch-IsStuck j d = fetch_into-IsStuck j (
      take_slot-Outcome r.ram (may_go r) r.busy (ram_cost r) (λ victim. ltb d victim) c.ram_held
        free_to_go)

  start_promote-IsStuck : (j : ℕ) → r.busy j ≡ false → IsStuck id (start_promote r j)
  unfolding start_promote take_vram_slot
  start_promote-IsStuck j = promote_into-IsStuck _ j (
      take_slot-Outcome r.vram (may_go r) r.busy r.demand (λ victim. leb (r.demand j) victim)
        c.vram_held free_to_go)

  mark_used-IsStuck : (j : ℕ) → IsStuck id (mark_used r j)
  mark_used-IsStuck j = record {
    is_busy = x.is_busy;
    not_vram = x.not_vram;
    not_ram = x.not_ram;
    no_job = x.no_job;
  }

  claim_found-IsStuck :
      (j : ℕ) (found : Option (TierName × ℕ)) → IsStuck id (claim_found r j found).0
  claim_found-IsStuck j none = x
  claim_found-IsStuck j (some at) = mark_used-IsStuck j

  half_write-IsStuck : (k : Kind) (dst : ℕ) → IsStuck id (half_write k r dst)
  half_write-IsStuck fetch dst = record {
    is_busy = x.is_busy;
    not_vram = x.not_vram;
    not_ram = x.not_ram;
    no_job = x.no_job;
  }
  half_write-IsStuck copy dst = record {
    is_busy = x.is_busy;
    not_vram = x.not_vram;
    not_ram = x.not_ram;
    no_job = x.no_job;
  }

  write-IsStuck :
      (k : Kind) (j : Job) (js : List Job)
      → All (λ i. i.id ≢ id) js
      → IsStuck id (record (write k r j) { jobs = js })
  write-IsStuck fetch j js a = record {
    is_busy = x.is_busy;
    not_vram = x.not_vram;
    not_ram = x.not_ram;
    no_job = a;
  }
  write-IsStuck copy j js a = record {
    is_busy = x.is_busy;
    not_vram = x.not_vram;
    not_ram = x.not_ram;
    no_job = a;
  }

  adopt-IsStuck :
      (k : Kind) (j : ℕ) (js : List Job)
      → j ≢ id
      → All (λ i. i.id ≢ id) js
      → IsStuck id (adopt (record r { jobs = js }) k j)
  unfolding adopt
  adopt-IsStuck fetch j js ne a = record {
    is_busy = ground (arith, x.is_busy, ne);
    not_vram = x.not_vram;
    not_ram = ground (arith, x.not_ram, ne);
    no_job = a;
  }
  adopt-IsStuck copy j js ne a = record {
    is_busy = ground (arith, x.is_busy, ne);
    not_vram = ground (arith, x.not_vram, ne);
    not_ram = x.not_ram;
    no_job = a;
  }

if_IsStuck :
    (id : ℕ) (b : Bool) (r s : Residency)
    → (b ≡ true → IsStuck id r)
    → (b ≡ false → IsStuck id s)
    → IsStuck id (if b then r else s)
if_IsStuck id true r s f g = f refl
if_IsStuck id false r s f g = g refl

request-IsStuck :
    (r : Residency) (c : IsConsistent r) (id : ℕ) (x : IsStuck id r) (j : ℕ)
    → IsStuck id (request r j).0
unfolding request
request-IsStuck r c id x j =
    let m : IsStuck id (mark_used r j) = mark_used-IsStuck r c id x j in
    elim (Bool-cases (is_cold (mark_used r j) j)) [
      | inl cold ↦ rw cold (
          start_fetch-IsStuck (mark_used r j) (mark_used-IsConsistent r j c) id m j 4294967295
            (ground (arith, cold)))
      | inr warm ↦ rw warm m
    ]

want-IsStuck :
    (r : Residency) (c : IsConsistent r) (id : ℕ) (x : IsStuck id r) (j : ℕ) → IsStuck id (want r j)
unfolding want
want-IsStuck r c id x j =
    if_IsStuck id (r.busy j || is_some (r.vram.place j) || leb max_queued r.queued) _ _ (λ h. x)
      (λ idle.
        if_IsStuck id (not (is_some (r.ram.place j))) _ _
          (λ cold. start_fetch-IsStuck r c id x j (r.demand j) (ground (arith, idle)))
          (λ in_ram.
            if_IsStuck id (leb promote_after (r.demand j)) _ _
              (λ hot. start_promote-IsStuck r c id x j (ground (arith, idle))) (λ h. x)))

Step-IsStuck : {r s : Residency} (id : ℕ) → IsConsistent r → Step r s → IsStuck id r → IsStuck id s
unfolding note_demand claim begin_layer
Step-IsStuck id c (layer r) x =
    if_IsStuck id ((r.tick + 1) % decay_ticks == 0) _ _
      (λ h. record {
        is_busy = x.is_busy;
        not_vram = x.not_vram;
        not_ram = x.not_ram;
        no_job = x.no_job;
      })
      (λ h. record {
        is_busy = x.is_busy;
        not_vram = x.not_vram;
        not_ram = x.not_ram;
        no_job = x.no_job;
      })
Step-IsStuck id c (noted r j) x = record {
  is_busy = x.is_busy;
  not_vram = x.not_vram;
  not_ram = x.not_ram;
  no_job = x.no_job;
}
Step-IsStuck id c (claimed r j) x = claim_found-IsStuck r c id x j (find_expert r j)
Step-IsStuck id c (requested r j) x = request-IsStuck r c id x j
Step-IsStuck id c (wanted r j) x = want-IsStuck r c id x j
Step-IsStuck id c (loaded r j d cold) x = start_fetch-IsStuck r c id x j d (ground (arith, cold))
Step-IsStuck id c (promoted r j idle p q) x = start_promote-IsStuck r c id x j idle
Step-IsStuck id c (writing r j rest p f) x = half_write-IsStuck r c id x j.kind j.dst
Step-IsStuck id c (worked r j rest p f) x =
    write-IsStuck r c id x j.kind j _ (Picked-All (λ i. i.id ≢ id) p x.no_job)
Step-IsStuck id c (failed r j rest p f k) x = record {
  is_busy = x.is_busy;
  not_vram = x.not_vram;
  not_ram = x.not_ram;
  no_job = (Picked-All (λ i. i.id ≢ id) p x.no_job).1;
}
Step-IsStuck id c (received r j rest p f) x =
    let (ne, a) = Picked-All (λ i. i.id ≢ id) p x.no_job in
    adopt-IsStuck r c id x j.kind j.id rest ne a

Run-IsStuck : {r s : Residency} (id : ℕ) → IsConsistent r → Run r s → IsStuck id r → IsStuck id s
Run-IsStuck id c stop x = x
Run-IsStuck id c (next step run) x =
    Run-IsStuck id (Step-IsConsistent step c) run (Step-IsStuck id c step x)

-- Once a read of the drive for an expert has failed, the expert stays busy and in
-- no memory in every state that follows: it is never fetched again, and waiting for it never ends.
pub failed_stays :
    (vram_slots ram_slots : ℕ) {r s : Residency} (j : Job) (rest : List Job)
    → Run (new vram_slots ram_slots) r
    → Picked r.jobs j rest
    → j.finished ≡ false
    → j.kind ≡ fetch
    → Run (record r { jobs = rest }) s
    → IsStuck j.id s
failed_stays v m {r} {s} j rest run pick f k on =
    let c : IsConsistent r = Run-new-IsConsistent v m run in
    let x : IsRunning r j = (Picked-All (IsRunning r) pick c.running).0 in
    let (o, p, q, n) = x.fetching k in
    Run-IsStuck j.id (Step-IsConsistent (failed r j rest pick f k) c) on (record {
      is_busy = x.is_busy;
      not_vram = elim (Option-cases (r.vram.place j.id)) [
        | inl away ↦ away
        | inr (t, e) ↦ absurd (q t (c.vram_held.placed j.id t e).0)
      ];
      not_ram = p;
      no_job = (Picked-AreApart pick c.apart).0;
    })
