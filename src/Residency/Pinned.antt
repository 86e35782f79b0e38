-- ===== src/Residency/Pinned.antt =====
-- An expert that was claimed or requested in a layer stays where it is until the next layer.
use chatty.Common.{
  ℕ, ◌+◌, ◌≡◌, refl, sym, ◌∙◌, Bool, true, false, ◌||◌, not, Option, none, some, inl, inr, List,
}
use chatty.Common.{ltb, leb, ◌==◌, ◌%◌, if◌then◌else◌, arith, Bool-cases}
use mathlib.Core.Path.{subst}
use chatty.Residency.Slots.{Tier}
use chatty.Residency.{
  decay_ticks, max_queued, promote_after, Kind, fetch, copy, Job, Counters, Residency, TierName,
  in_vram, in_ram, find_expert, claim_found, mark_used, is_some, is_cold, may_go, ram_cost, claim,
  begin_layer, note_demand, request, want, start_fetch, start_promote, take_ram_slot,
  take_vram_slot, fetch_into, promote_into, adopt, new,
}
use chatty.Residency.Held.{Outcome, refused, taken, take_slot-Outcome}
use chatty.Residency.Steps.{
  half_write, write, Step, Run, layer, noted, claimed, requested, wanted, loaded, promoted, writing,
  worked, failed, received,
}
use chatty.Residency.Jobs.{IsRunning, IsConsistent, Picked-All}
use chatty.Residency.Engine.{mark_used-IsConsistent}
use chatty.Residency.Safety.{holds}
use chatty.Residency.Invariant.{Step-IsConsistent, Run-new-IsConsistent}

-- The expert is marked, and keeps the slots that it has.
pub record Keeps (id : ℕ) (r s : Residency) : Type 0 where
  pub used_same : s.used id ≡ r.tick
  pub tick_same : s.tick ≡ r.tick
  pub vram_same : (t : ℕ) → r.vram.place id ≡ some t → s.vram.place id ≡ some t
  pub ram_same : (t : ℕ) → r.ram.place id ≡ some t → s.ram.place id ≡ some t

unchanged : (id : ℕ) (r : Residency) → r.used id ≡ r.tick → Keeps id r r
unchanged id r u = record {
  used_same = u;
  tick_same = refl;
  vram_same = λ t e. e;
  ram_same = λ t e. e;
}

module _ (r : Residency) (c : IsConsistent r) (id : ℕ) (u : r.used id ≡ r.tick) where
  stays : may_go r id ≡ false
  stays = ground arith

  idle : (i : ℕ) → may_go r i ≡ true → r.busy i ≡ false
  idle i m = ground arith

  fetch_into-Keeps :
      {x : Tier × Option ℕ × Bool} (j : ℕ)
      → Outcome r.ram (may_go r) r.busy x
      → Keeps id r (fetch_into (record r { ram = x.0 }) j x.1).0
  fetch_into-Keeps j refused = unchanged id r u
  fetch_into-Keeps j (taken s v b t h) = record {
    used_same = u;
    tick_same = refl;
    vram_same = λ i e. e;
    ram_same = λ i e. t.kept id stays ∙ e;
  }

  promote_into-Keeps :
      {x : Tier × Option ℕ × Bool} (n : Counters) (j : ℕ)
      → Outcome r.vram (may_go r) r.busy x
      → Keeps id r (promote_into (record r { vram = x.0; counters = n }) j x.1)
  promote_into-Keeps n j refused = record {
    used_same = u;
    tick_same = refl;
    vram_same = λ t e. e;
    ram_same = λ t e. e;
  }
  promote_into-Keeps n j (taken s v b t h) = record {
    used_same = u;
    tick_same = refl;
    vram_same = λ i e. t.kept id stays ∙ e;
    ram_same = λ i e. e;
  }

  start_fetch-Keeps : (j d : ℕ) → Keeps id r (start_fetch r j d).0
  unfolding start_fetch take_ram_slot
  start_fetch-Keeps j d = fetch_into-Keeps j (
      take_slot-Outcome r.ram (may_go r) r.busy (ram_cost r) (λ victim. ltb d victim) c.ram_held
        idle)

  start_promote-Keeps : (j : ℕ) → Keeps id r (start_promote r j)
  unfolding start_promote take_vram_slot
  start_promote-Keeps j = promote_into-Keeps _ j (
      take_slot-Outcome r.vram (may_go r) r.busy r.demand (λ victim. leb (r.demand j) victim)
        c.vram_held idle)

  mark_used-Keeps : (j : ℕ) → Keeps id r (mark_used r j)
  mark_used-Keeps j = record {
    used_same = ground arith;
    tick_same = refl;
    vram_same = λ t e. e;
    ram_same = λ t e. e;
  }

  claim_found-Keeps : (j : ℕ) (found : Option (TierName × ℕ)) → Keeps id r (claim_found r j found).0
  claim_found-Keeps j none = unchanged id r u
  claim_found-Keeps j (some at) = mark_used-Keeps j

  half_write-Keeps : (k : Kind) (dst : ℕ) → Keeps id r (half_write k r dst)
  half_write-Keeps fetch dst = record {
    used_same = u;
    tick_same = refl;
    vram_same = λ t e. e;
    ram_same = λ t e. e;
  }
  half_write-Keeps copy dst = record {
    used_same = u;
    tick_same = refl;
    vram_same = λ t e. e;
    ram_same = λ t e. e;
  }

  write-Keeps :
      (k : Kind) (j : Job) (js : List Job) → Keeps id r (record (write k r j) { jobs = js })
  write-Keeps fetch j js = record {
    used_same = u;
    tick_same = refl;
    vram_same = λ t e. e;
    ram_same = λ t e. e;
  }
  write-Keeps copy j js = record {
    used_same = u;
    tick_same = refl;
    vram_same = λ t e. e;
    ram_same = λ t e. e;
  }

  -- What a worker brings in had no slot of that memory.
  adopt-Keeps :
      (k : Kind) (j : Job) (js : List Job)
      → IsRunning r j
      → j.kind ≡ k
      → Keeps id r (adopt (record r { jobs = js }) k j.id)
  unfolding adopt
  adopt-Keeps fetch j js x k =
      let (o, p, q, m) = x.fetching k in
      record {
        used_same = u;
        tick_same = refl;
        vram_same = λ t e. e;
        ram_same = λ t e. ground (arith, e, p);
      }
  adopt-Keeps copy j js x k =
      let (o, p, q, m) = x.copying k in
      record {
        used_same = u;
        tick_same = refl;
        vram_same = λ t e. ground (arith, e, p);
        ram_same = λ t e. e;
      }

Keeps-if :
    (id : ℕ) (r s t : Residency) (b : Bool)
    → Keeps id r s
    → Keeps id r t
    → Keeps id r (if b then s else t)
Keeps-if id r s t true k l = k
Keeps-if id r s t false k l = l

Keeps-first :
    (id : ℕ) (r : Residency) (s t : Residency × Bool) (b : Bool)
    → Keeps id r s.0
    → Keeps id r t.0
    → Keeps id r (if b then s else t).0
Keeps-first id r s t true k l = k
Keeps-first id r s t false k l = l

Keeps-trans : {id : ℕ} {r s t : Residency} → Keeps id r s → Keeps id s t → Keeps id r t
Keeps-trans k l = record {
  used_same = l.used_same ∙ k.tick_same;
  tick_same = l.tick_same ∙ k.tick_same;
  vram_same = λ i e. l.vram_same i (k.vram_same i e);
  ram_same = λ i e. l.ram_same i (k.ram_same i e);
}

request-Keeps :
    (r : Residency) (c : IsConsistent r) (id : ℕ) (u : r.used id ≡ r.tick) (j : ℕ)
    → Keeps id r (request r j).0
unfolding request
request-Keeps r c id u j =
    let m : Keeps id r (mark_used r j) = mark_used-Keeps r c id u j in
    Keeps-first id r (start_fetch (mark_used r j) j 4294967295) (mark_used r j, true)
      (is_cold (mark_used r j) j)
      (Keeps-trans m (
        start_fetch-Keeps (mark_used r j) (mark_used-IsConsistent r j c) id m.used_same j
          4294967295))
      m

want-Keeps :
    (r : Residency) (c : IsConsistent r) (id : ℕ) (u : r.used id ≡ r.tick) (j : ℕ)
    → Keeps id r (want r j)
unfolding want
want-Keeps r c id u j =
    Keeps-if id r _ _ (r.busy j || is_some (r.vram.place j) || leb max_queued r.queued)
      (unchanged id r u)
      (Keeps-if id r _ _ (not (is_some (r.ram.place j))) (start_fetch-Keeps r c id u j (r.demand j))
        (Keeps-if id r _ _ (leb promote_after (r.demand j)) (start_promote-Keeps r c id u j)
          (unchanged id r u)))

begin_layer_tick : (r : Residency) → (begin_layer r).tick ≡ r.tick + 1
unfolding begin_layer
begin_layer_tick r = elim (Bool-cases ((r.tick + 1) % decay_ticks == 0)) [
  | inl decay ↦ rw decay refl
  | inr later ↦ rw later refl
]

Step-Keeps :
    {r s : Residency} (id : ℕ)
    → IsConsistent r
    → Step r s
    → r.used id ≡ r.tick
    → s.tick ≡ r.tick
    → Keeps id r s
unfolding note_demand claim
Step-Keeps id c (layer r) u same = absurd (omega (arith, same, begin_layer_tick r))
Step-Keeps id c (noted r j) u same = record {
  used_same = u;
  tick_same = refl;
  vram_same = λ t e. e;
  ram_same = λ t e. e;
}
Step-Keeps id c (claimed r j) u same = claim_found-Keeps r c id u j (find_expert r j)
Step-Keeps id c (requested r j) u same = request-Keeps r c id u j
Step-Keeps id c (wanted r j) u same = want-Keeps r c id u j
Step-Keeps id c (loaded r j d cold) u same = start_fetch-Keeps r c id u j d
Step-Keeps id c (promoted r j p q m) u same = start_promote-Keeps r c id u j
Step-Keeps id c (writing r j rest p f) u same = half_write-Keeps r c id u j.kind j.dst
Step-Keeps id c (worked r j rest p f) u same = write-Keeps r c id u j.kind j _
Step-Keeps id c (failed r j rest p f k) u same = record {
  used_same = u;
  tick_same = refl;
  vram_same = λ t e. e;
  ram_same = λ t e. e;
}
Step-Keeps id c (received r j rest p f) u same =
    adopt-Keeps r c id u j.kind j rest (Picked-All (IsRunning r) p c.running).0 refl

-- Steps of one layer, in any order.
pub data Layer : Residency → Residency → Type 0 where
  last : {r : Residency} → Layer r r
  after : {r s t : Residency} → Step r s → s.tick ≡ r.tick → Layer s t → Layer r t

layer-Keeps :
    {r s : Residency} (id : ℕ)
    → IsConsistent r
    → r.used id ≡ r.tick
    → Layer r s
    → IsConsistent s × Keeps id r s
layer-Keeps {r} id c u last = (c, unchanged id r u)
layer-Keeps id c u (after step same l) =
    let k = Step-Keeps id c step u same in
    let (d, m) = layer-Keeps id (Step-IsConsistent step c) (k.used_same ∙ sym k.tick_same) l in
    (d, Keeps-trans k m)

-- Where an expert is mapped to.
abbrev IsAt : Residency → ℕ → TierName × ℕ → Type 0
IsAt r id (in_vram, s) = r.vram.place id ≡ some s
IsAt r id (in_ram, s) = r.ram.place id ≡ some s

find_expert-IsAt :
    (r : Residency) (id : ℕ) (at : TierName × ℕ) → find_expert r id ≡ some at → IsAt r id at
find_expert-IsAt r id (in_vram, s) e = ground arith
find_expert-IsAt r id (in_ram, s) e = ground arith

IsAt-holds :
    (r : Residency) (id : ℕ) (at : TierName × ℕ)
    → IsConsistent r
    → IsAt r id at
    → holds r at ≡ some id
IsAt-holds r id (in_vram, s) c e = (c.vram_held.placed id s e).1
IsAt-holds r id (in_ram, s) c e = (c.ram_held.placed id s e).1

Keeps-IsAt :
    {r s : Residency} (id : ℕ) (at : TierName × ℕ) → Keeps id r s → IsAt r id at → IsAt s id at
Keeps-IsAt id (in_vram, t) k e = k.vram_same t e
Keeps-IsAt id (in_ram, t) k e = k.ram_same t e

claim_found_at :
    (r : Residency) (id : ℕ) (found : Option (TierName × ℕ)) (at : TierName × ℕ)
    → (claim_found r id found).1 ≡ some at
    → (found ≡ some at) × ((claim_found r id found).0 ≡ mark_used r id)
claim_found_at r id none at e = absurd (cc e)
claim_found_at r id (some found) at e = (e, refl)

-- After a claim that returns a slot, whatever the engine and the workers do until the next layer
-- begins, the slot has the bytes of the expert.
pub claim_stays :
    (vram_slots ram_slots : ℕ) {r s : Residency} (id : ℕ) (at : TierName × ℕ)
    → Run (new vram_slots ram_slots) r
    → (claim r id).1 ≡ some at
    → Layer (claim r id).0 s
    → holds s at ≡ some id
unfolding claim
claim_stays v m {r} {s} id at run e l =
    let c : IsConsistent r = Run-new-IsConsistent v m run in
    let (found, marked) = claim_found_at r id (find_expert r id) at e in
    let l' : Layer (mark_used r id) s = subst (λ t. Layer t s) marked l in
    let (d, k) = layer-Keeps id (mark_used-IsConsistent r id c) (ground arith) l' in
    IsAt-holds s id at d (Keeps-IsAt id at k (find_expert-IsAt (mark_used r id) id at found))
