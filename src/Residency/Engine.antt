-- ===== src/Residency/Engine.antt =====
-- The engine's operations keep the slots and the jobs consistent.
use chatty.Common.{
  ℕ, ◌+◌, ◌%◌, ◌≤◌, ◌≡◌, ◌≢◌, inl, inr, refl, ◌∙◌, Bool, true, false, ◌||◌, not, Option, none, some,
  List, [], ◌∷◌, ◌++◌,
}
use chatty.Common.{
  length, length-append, ltb, leb, ◌==◌, if◌then◌else◌, All, All_map, All-append, arith, Bool-cases,
}
use chatty.Residency.Slots.{update, Tier, assign}
use chatty.Residency.{
  claim_found, TierName, promote_after, max_queued, decay_ticks, Kind, fetch, copy, Job, Counters,
  Residency, none_slot, is_cold, is_some, or_none, mark_used, may_go, ram_cost, send, fetch_into,
  promote_into, begin_layer, note_demand, claim, request, want, take_vram_slot, take_ram_slot,
  start_fetch, start_promote, find_expert,
}
use chatty.Residency.Held.{Taken, Outcome, refused, taken, take_slot-Outcome}
use chatty.Residency.Moves.{IsHeld-busier, assign-IsHeld}
use chatty.Residency.Jobs.{IsRunning, AreApart, IsConsistent, AreApart-append}

may_go_idle : (r : Residency) (id : ℕ) → may_go r id ≡ true → r.busy id ≡ false
may_go_idle r id m = ground arith

may_go_busy : (r : Residency) (id : ℕ) → r.busy id ≡ true → may_go r id ≡ false
may_go_busy r id m = ground arith

recounted :
    (r : Residency) (n : Counters) (js : List Job)
    → All (IsRunning r) js
    → All (IsRunning (record r { counters = n })) js
recounted r n js =
    All_map _ _ js
      (λ j x. record { is_busy = x.is_busy; fetching = x.fetching; copying = x.copying })

-- What `start_fetch` does: nothing, or the job is sent for a slot that was taken.
module _ (r : Residency) (c : IsConsistent r) (id : ℕ) where
  sent_apart :
      (jobs : List Job) (k : Kind) (src dst : ℕ)
      → r.busy id ≡ false
      → All (IsRunning r) jobs
      → AreApart jobs
      → AreApart
          (jobs ++ (record { kind = k; id = id; src = src; dst = dst; finished = false }) ∷ [])
  sent_apart jobs k src dst idle all a =
      AreApart-append jobs _ a
        (All_map (IsRunning r) (λ i. i.id ≢ id) jobs (λ j x e. cc (x.is_busy, e, idle)) all)

  fetch_running :
      (s : ℕ) (u : Tier)
      → Taken r.ram (may_go r) s u
      → r.busy id ≡ false
      → r.ram.place id ≡ none
      → r.vram.place id ≡ none
      → All
          (IsRunning (send (record r { ram = assign u s id }) fetch id none_slot s))
          (send (record r { ram = assign u s id }) fetch id none_slot s).jobs
  fetch_running s u t idle out_ram out_vram =
      All-append _ r.jobs _
        (All_map (IsRunning r) _ r.jobs
          (λ j x. record {
            is_busy = ground (arith, x.is_busy);
            fetching = λ k.
                let (o, p, v, m) = x.fetching k in
                let stays = t.kept_owner j.id j.dst (may_go_busy r j.id x.is_busy) o in
                (ground (arith, t.vacant, stays), t.none_added j.id p, v, λ f. rw t.mem_same (m f));
            copying = λ k.
                let (o, p, q, m) = x.copying k in
                (o, p, t.kept j.id (may_go_busy r j.id x.is_busy) ∙ q, m);
          })
          c.running)
        (
          record {
            is_busy = ground arith;
            fetching = λ k. (
              ground arith,
              t.none_added id out_ram,
              λ i e. ground (arith, c.vram_held.owned id i e),
              λ f. absurd (cc f),
            );
            copying = λ k. absurd (cc k);
          },
          tt,
        )

  promote_running :
      (s : ℕ) (u : Tier)
      → Taken r.vram (may_go r) s u
      → r.busy id ≡ false
      → r.vram.place id ≡ none
      → is_some (r.ram.place id) ≡ true
      → All
          (IsRunning
            (send (record r { vram = assign u s id }) copy id (or_none (r.ram.place id)) s))
          (send (record r { vram = assign u s id }) copy id (or_none (r.ram.place id)) s).jobs
  promote_running s u t idle out_vram in_ram =
      All-append _ r.jobs _
        (All_map (IsRunning r) _ r.jobs
          (λ j x. record {
            is_busy = ground (arith, x.is_busy);
            fetching = λ k.
                let (o, p, v, m) = x.fetching k in
                (o, p, λ i e. ground (arith, e, x.is_busy, t.owners j.id i, v i), m);
            copying = λ k.
                let (o, p, q, m) = x.copying k in
                let stays = t.kept_owner j.id j.dst (may_go_busy r j.id x.is_busy) o in
                (ground (arith, t.vacant, stays), t.none_added j.id p, q, λ f. rw t.mem_same (m f));
          })
          c.running)
        (
          record {
            is_busy = ground arith;
            fetching = λ k. absurd (cc k);
            copying = λ k. (
              ground arith,
              t.none_added id out_vram,
              ground (arith, in_ram),
              λ f. absurd (cc f),
            );
          },
          tt,
        )

  busier : (j : ℕ) → r.busy j ≡ true → update r.busy id true j ≡ true
  busier j b = ground arith

  sent_counted : (k : Kind) (src dst : ℕ) → length (send r k id src dst).jobs ≤ r.queued + 1
  sent_counted k src dst = omega (
    arith,
    c.counted,
    length-append r.jobs
        ((record { kind = k; id = id; src = src; dst = dst; finished = false }) ∷ []),
  )

  fetch_into-IsConsistent :
      {x : Tier × Option ℕ × Bool}
      → Outcome r.ram (may_go r) r.busy x
      → r.busy id ≡ false
      → r.ram.place id ≡ none
      → r.vram.place id ≡ none
      → IsConsistent (fetch_into (record r { ram = x.0 }) id x.1).0
  fetch_into-IsConsistent refused idle out_ram out_vram = c
  fetch_into-IsConsistent (taken s u b t h) idle out_ram out_vram = record {
    vram_held = IsHeld-busier r.vram r.busy _ busier c.vram_held;
    ram_held =
        assign-IsHeld u r.busy s id h t.vacant (rw t.slots_same t.exists) t.not_free
          (t.none_added id out_ram) idle;
    running = fetch_running s u t idle out_ram out_vram;
    apart = sent_apart r.jobs fetch none_slot s idle c.running c.apart;
    counted = sent_counted fetch none_slot s;
  }

  promote_into-IsConsistent :
      {x : Tier × Option ℕ × Bool} (n : Counters)
      → Outcome r.vram (may_go r) r.busy x
      → r.busy id ≡ false
      → r.vram.place id ≡ none
      → is_some (r.ram.place id) ≡ true
      → IsConsistent (promote_into (record r { vram = x.0; counters = n }) id x.1)
  promote_into-IsConsistent n refused idle out_vram in_ram = record {
    vram_held = c.vram_held;
    ram_held = c.ram_held;
    running = recounted r n r.jobs c.running;
    apart = c.apart;
    counted = c.counted;
  }
  promote_into-IsConsistent n (taken s u b t h) idle out_vram in_ram = record {
    vram_held =
        assign-IsHeld u r.busy s id h t.vacant (rw t.slots_same t.exists) t.not_free
          (t.none_added id out_vram) idle;
    ram_held = IsHeld-busier r.ram r.busy _ busier c.ram_held;
    running =
        recounted (send (record r { vram = assign u s id }) copy id (or_none (r.ram.place id)) s) n
          _ (promote_running s u t idle out_vram in_ram);
    apart = sent_apart r.jobs copy (or_none (r.ram.place id)) s idle c.running c.apart;
    counted = sent_counted copy (or_none (r.ram.place id)) s;
  }

  pub start_fetch-IsConsistent : (d : ℕ) → is_cold r id ≡ true → IsConsistent (start_fetch r id d).0
  unfolding start_fetch take_ram_slot
  start_fetch-IsConsistent d cold =
      fetch_into-IsConsistent
        (take_slot-Outcome r.ram (may_go r) r.busy (ram_cost r) (λ victim. ltb d victim) c.ram_held
          (may_go_idle r))
        (ground arith) (ground arith) (ground arith)

  pub start_promote-IsConsistent :
      r.busy id ≡ false
      → is_some (r.vram.place id) ≡ false
      → is_some (r.ram.place id) ≡ true
      → IsConsistent (start_promote r id)
  unfolding start_promote take_vram_slot
  start_promote-IsConsistent idle out_vram in_ram =
      promote_into-IsConsistent _
        (take_slot-Outcome r.vram (may_go r) r.busy r.demand (λ victim. leb (r.demand id) victim)
          c.vram_held (may_go_idle r))
        idle (ground (arith, out_vram)) in_ram

-- The demand, the clock and the marks of the layer are not part of it.
pub reclocked :
    (r : Residency) (demand used : ℕ → ℕ) (tick : ℕ)
    → IsConsistent r
    → IsConsistent (record r { demand = demand; used = used; tick = tick })
reclocked r demand used tick c = record {
  vram_held = c.vram_held;
  ram_held = c.ram_held;
  running =
      All_map (IsRunning r) _ r.jobs
        (λ j x. record { is_busy = x.is_busy; fetching = x.fetching; copying = x.copying })
        c.running;
  apart = c.apart;
  counted = c.counted;
}

pub begin_layer-IsConsistent : (r : Residency) → IsConsistent r → IsConsistent (begin_layer r)
unfolding begin_layer
begin_layer-IsConsistent r c = elim (Bool-cases ((r.tick + 1) % decay_ticks == 0)) [
  | inl decay ↦ rw decay (reclocked r _ r.used (r.tick + 1) c)
  | inr later ↦ rw later (reclocked r r.demand r.used (r.tick + 1) c)
]

pub note_demand-IsConsistent :
    (r : Residency) (id : ℕ) → IsConsistent r → IsConsistent (note_demand r id)
unfolding note_demand
note_demand-IsConsistent r id c = reclocked r _ r.used r.tick c

pub mark_used-IsConsistent :
    (r : Residency) (id : ℕ) → IsConsistent r → IsConsistent (mark_used r id)
mark_used-IsConsistent r id c = reclocked r r.demand _ r.tick c

claim_found-IsConsistent :
    (r : Residency) (id : ℕ) (found : Option (TierName × ℕ))
    → IsConsistent r
    → IsConsistent (claim_found r id found).0
claim_found-IsConsistent r id none c = c
claim_found-IsConsistent r id (some at) c = mark_used-IsConsistent r id c

pub claim-IsConsistent : (r : Residency) (id : ℕ) → IsConsistent r → IsConsistent (claim r id).0
unfolding claim
claim-IsConsistent r id = claim_found-IsConsistent r id (find_expert r id)

pub request-IsConsistent : (r : Residency) (id : ℕ) → IsConsistent r → IsConsistent (request r id).0
unfolding request
request-IsConsistent r id c =
    let m : IsConsistent (mark_used r id) = mark_used-IsConsistent r id c in
    elim (Bool-cases (is_cold (mark_used r id) id)) [
      | inl cold ↦ rw cold (start_fetch-IsConsistent (mark_used r id) m id 4294967295 cold)
      | inr warm ↦ rw warm m
    ]

if_IsConsistent :
    (b : Bool) (r s : Residency)
    → (b ≡ true → IsConsistent r)
    → (b ≡ false → IsConsistent s)
    → IsConsistent (if b then r else s)
if_IsConsistent true r s f g = f refl
if_IsConsistent false r s f g = g refl

pub want-IsConsistent : (r : Residency) (id : ℕ) → IsConsistent r → IsConsistent (want r id)
unfolding want
want-IsConsistent r id c =
    if_IsConsistent (r.busy id || is_some (r.vram.place id) || leb max_queued r.queued) _ _ (λ h. c)
      (λ idle.
        if_IsConsistent (not (is_some (r.ram.place id))) _ _
          (λ cold. start_fetch-IsConsistent r c id (r.demand id) (ground (arith, idle, cold)))
          (λ in_ram.
            if_IsConsistent (leb promote_after (r.demand id)) _ _
              (λ hot.
                start_promote-IsConsistent r c id (ground (arith, idle)) (ground (arith, idle))
                  (ground (arith, in_ram)))
              (λ h. c)))
