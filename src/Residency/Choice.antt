-- ===== src/Residency/Choice.antt =====
-- Which slot is taken: a free one, or that of the cheapest expert that may go.
use chatty.Common.{
  ℕ, zero, suc, ◌≤◌, ◌<◌, ◌≡◌, ap, refl, sym, ◌∙◌, Bool, true, false, Option, none, some, inl, inr,
  List, [], ◌∷◌,
}
use chatty.Common.{ltb→lt, ltb, arith, Bool-cases}
use native.Mathlib.Decide.{ℕ_discrete}
use chatty.Residency.Slots.{update, Tier, Victim, consider, best, pop, take_slot}
use chatty.Residency.{
  Residency, is_cold, mark_used, may_go, ram_cost, take_ram_slot, fetch_into, start_fetch, request,
}

-- No slot has an owner that may go.
abbrev pub NoneMayGo : (ℕ → Bool) → (ℕ → Option ℕ) → ℕ → Type 0
NoneMayGo may_go owner n = (s o : ℕ) → s < n → owner s ≡ some o → may_go o ≡ false

-- The victim may go, and costs no more than any other that may.
pub record IsCheapest (may_go : ℕ → Bool) (cost : ℕ → ℕ) (owner : ℕ → Option ℕ) (n c s o : ℕ)
    : Type 0 where
  pub of_cost : c ≡ cost o
  pub inside : s < n
  pub mine : owner s ≡ some o
  pub goes : may_go o ≡ true
  pub least : (i p : ℕ) → i < n → owner i ≡ some p → may_go p ≡ true → c ≤ cost p

module _ (may_go : ℕ → Bool) (cost : ℕ → ℕ) (owner : ℕ → Option ℕ) where
  -- What the scan of the first `n` slots has found.
  abbrev IsFound : ℕ → Option Victim → Type 0
  IsFound n none = NoneMayGo may_go owner n
  IsFound n (some (c, s, o)) = IsCheapest may_go cost owner n c s o

  none_more :
      (n : ℕ)
      → NoneMayGo may_go owner n
      → ((o : ℕ) → owner n ≡ some o → may_go o ≡ false)
      → NoneMayGo may_go owner (suc n)
  none_more n h last s o lt mine = elim (ℕ_discrete s n) [
    | yes e ↦ last o (sym (ap owner e) ∙ mine)
    | no ne ↦ h s o (omega arith) mine
  ]

  no_better :
      (n c s o : ℕ)
      → IsCheapest may_go cost owner n c s o
      → ((p : ℕ) → owner n ≡ some p → may_go p ≡ true → c ≤ cost p)
      → IsCheapest may_go cost owner (suc n) c s o
  no_better n c s o h last = record {
    of_cost = h.of_cost;
    inside = omega (arith, h.inside);
    mine = h.mine;
    goes = h.goes;
    least = λ i p lt mine goes. elim (ℕ_discrete i n) [
      | yes e ↦ last p (sym (ap owner e) ∙ mine) goes
      | no ne ↦ h.least i p (omega arith) mine goes
    ];
  }

  better :
      (n c s o p : ℕ)
      → IsCheapest may_go cost owner n c s o
      → owner n ≡ some p
      → may_go p ≡ true
      → cost p < c
      → IsCheapest may_go cost owner (suc n) (cost p) n p
  better n c s o p h mine goes lt = record {
    of_cost = refl;
    inside = omega arith;
    mine = mine;
    goes = goes;
    least = λ i q below at may. elim (ℕ_discrete i n) [
      | yes e ↦ ground (arith, at, mine, e)
      | no ne ↦ omega (arith, h.least i q (omega arith) at may)
    ];
  }

  first_found :
      (n p : ℕ)
      → NoneMayGo may_go owner n
      → owner n ≡ some p
      → may_go p ≡ true
      → IsCheapest may_go cost owner (suc n) (cost p) n p
  first_found n p h mine goes = record {
    of_cost = refl;
    inside = omega arith;
    mine = mine;
    goes = goes;
    least = λ i q below at may. elim (ℕ_discrete i n) [
      | yes e ↦ ground (arith, at, mine, e)
      | no ne ↦ absurd (cc (h i q (omega arith) at, may))
    ];
  }

  consider-IsFound :
      (n : ℕ) (found : Option Victim) (w : Option ℕ)
      → owner n ≡ w
      → IsFound n found
      → IsFound (suc n) (consider may_go cost n w found)
  consider-IsFound n none none e h = none_more n h (λ o mine. absurd (cc (e, mine)))
  consider-IsFound n none (some p) e h = elim (Bool-cases (may_go p)) [
    | inl goes ↦ rw goes (first_found n p h e goes)
    | inr stays ↦ rw stays (none_more n h (λ o mine. ground (arith, mine, e)))
  ]
  consider-IsFound n (some (c, s, o)) none e h =
      no_better n c s o h (λ p mine. absurd (cc (e, mine)))
  consider-IsFound n (some (c, s, o)) (some p) e h = elim (Bool-cases (may_go p)) [
    | inl goes ↦ elim (Bool-cases (ltb (cost p) c)) [
      | inl lt ↦ rw (goes, lt) (better n c s o p h e goes (ltb→lt (cost p) c lt))
      | inr ge ↦ rw (goes, ge) (no_better n c s o h (λ q mine may. ground (arith, mine, e, ge)))
    ]
    | inr stays ↦ rw stays (no_better n c s o h (λ q mine may. ground (arith, mine, e)))
  ]

  best_lem : (n : ℕ) → IsFound n (best may_go cost owner n)
  unfolding best
  best_lem zero = λ s o lt mine. absurd (omega arith)
  best_lem (suc n) = consider-IsFound n (best may_go cost owner n) (owner n) refl (best_lem n)

-- What a slot is taken from: the free slots first, then the cheapest owner that may go.
pub data Choice (t : Tier) (may_go : ℕ → Bool) (cost : ℕ → ℕ) (refuse : ℕ → Bool)
    : Tier × Option ℕ × Bool → Type 0 where
  from_free :
      (s : ℕ) (free : List ℕ)
      → t.free ≡ s ∷ free
      → Choice t may_go cost refuse (record t { free = free }, some s, false)
  nobody :
      t.free ≡ [] → NoneMayGo may_go t.owner t.slots → Choice t may_go cost refuse (t, none, false)
  refused :
      (c s o : ℕ)
      → t.free ≡ []
      → IsCheapest may_go cost t.owner t.slots c s o
      → refuse c ≡ true
      → Choice t may_go cost refuse (t, none, false)
  cheapest :
      (c s o : ℕ)
      → t.free ≡ []
      → IsCheapest may_go cost t.owner t.slots c s o
      → refuse c ≡ false
      → Choice t may_go cost refuse
          (record t { place = update t.place o none; owner = update t.owner s none }, some s, true)

module _ (t : Tier) (may_go : ℕ → Bool) (cost : ℕ → ℕ) (refuse : ℕ → Bool) where
  pop-Choice :
      (v : Option Victim) (free : List ℕ)
      → t.free ≡ free
      → IsFound may_go cost t.owner t.slots v
      → Choice t may_go cost refuse (pop t v refuse free)
  pop-Choice v (s ∷ free) e h = from_free s free e
  pop-Choice none [] e h = nobody e h
  pop-Choice (some (c, s, o)) [] e h = elim (Bool-cases (refuse c)) [
    | inl no_slot ↦ rw no_slot (refused c s o e h no_slot)
    | inr go ↦ rw go (cheapest c s o e h go)
  ]

  -- A slot is taken from the free ones when there is one; else from an owner that may go and costs
  -- least, unless that is refused.
  pub take_slot-Choice : Choice t may_go cost refuse (take_slot t may_go cost refuse)
  unfolding take_slot
  take_slot-Choice =
      pop-Choice (best may_go cost t.owner t.slots) t.free refl
        (best_lem may_go cost t.owner t.slots)

-- A fetch for the engine takes any slot whose expert may go.
never_refused :
    (r : Residency) (c s o : ℕ)
    → IsCheapest (may_go r) (ram_cost r) r.ram.owner r.ram.slots c s o
    → ltb 4294967295 c ≡ false
never_refused r c s o h = ground (arith, h.of_cost)

Choice-none :
    (r : Residency) {x : Tier × Option ℕ × Bool}
    → Choice r.ram (may_go r) (ram_cost r) (λ victim. ltb 4294967295 victim) x
    → x.1 ≡ none
    → (r.ram.free ≡ []) × NoneMayGo (may_go r) r.ram.owner r.ram.slots
Choice-none r (from_free s free e) n = absurd (cc n)
Choice-none r (nobody e h) n = (e, h)
Choice-none r (refused c s o e h no_slot) n = absurd (cc (never_refused r c s o h, no_slot))
Choice-none r (cheapest c s o e h go) n = absurd (cc n)

fetch_into_fails :
    (r : Residency) (id : ℕ) (slot : Option ℕ) → (fetch_into r id slot).1 ≡ false → slot ≡ none
fetch_into_fails r id none h = refl
fetch_into_fails r id (some s) h = absurd (cc h)

-- A request fails only for an expert that is in no memory and not on its way, when no RAM slot is
-- free and the expert of every RAM slot is busy or marked in this layer.
request_fails :
    (r : Residency) (id : ℕ)
    → (request r id).1 ≡ false
    → (is_cold r id ≡ true)
      × (r.ram.free ≡ [])
      × ((s o : ℕ) → s < r.ram.slots → r.ram.owner s ≡ some o → may_go (mark_used r id) o ≡ false)
unfolding request start_fetch take_ram_slot
request_fails r id h = elim (Bool-cases (is_cold r id)) [
  | inl cold ↦
      let m : Residency = mark_used r id in
      let n = take_slot m.ram (may_go m) (ram_cost m) (λ victim. ltb 4294967295 victim) in
      let empty : n.1 ≡ none =
        fetch_into_fails (record m { ram = n.0 }) id n.1 (ground (arith, h, cold)) in
      let (none_free, none_goes) =
        Choice-none m (take_slot-Choice m.ram (may_go m) (ram_cost m) _) empty in
      (cold, none_free, none_goes)
  | inr warm ↦ absurd (ground (arith, h, warm))
]
