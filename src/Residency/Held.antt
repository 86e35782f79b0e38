-- ===== src/Residency/Held.antt =====
-- One memory: its slots and its experts map to each other.
use chatty.Common.{
  ℕ, zero, suc, ◌<◌, ◌≡◌, ◌≢◌, ◌⊎◌, inl, inr, refl, Bool, true, false, Option, none, some, List, [],
  ◌∷◌,
}
use chatty.Common.{All, arith, Bool-cases, Option-cases}
use mathlib.Core.Path.{subst}
use chatty.Residency.Slots.{update, Tier, best, evict, pop, take_slot}

-- A free slot is nobody's, and free once.
abbrev pub AllFree : Tier → List ℕ → Type 0
AllFree t [] = Unit {0}
AllFree t (s ∷ free) = (t.owner s ≡ none) × (s < t.slots) × All (λ f. f ≢ s) free × AllFree t free

pub record IsHeld (t : Tier) (busy : ℕ → Bool) : Type 0 where
  -- An expert with a slot owns it, and its bytes are there.
  pub placed : (id s : ℕ) → t.place id ≡ some s → (t.owner s ≡ some id) × (t.mem s ≡ some id)
  -- The owner of a slot is there, or on the way.
  pub owned : (id s : ℕ) → t.owner s ≡ some id → (t.place id ≡ some s) ⊎ (busy id ≡ true)
  pub one_slot : (id s i : ℕ) → t.owner s ≡ some id → t.owner i ≡ some id → s ≡ i
  pub in_range : (id s : ℕ) → t.owner s ≡ some id → s < t.slots
  pub all_free : AllFree t t.free

-- What a slot that is taken leaves as it was.
pub record Taken (t : Tier) (may_go : ℕ → Bool) (s : ℕ) (u : Tier) : Type 0 where
  pub slots_same : u.slots ≡ t.slots
  pub mem_same : u.mem ≡ t.mem
  pub vacant : u.owner s ≡ none
  pub exists : s < t.slots
  pub not_free : All (λ f. f ≢ s) u.free
  pub kept : (id : ℕ) → may_go id ≡ false → u.place id ≡ t.place id
  pub none_added : (id : ℕ) → t.place id ≡ none → u.place id ≡ none
  pub kept_owner : (id i : ℕ) → may_go id ≡ false → t.owner i ≡ some id → u.owner i ≡ some id
  pub owners : (id i : ℕ) → u.owner i ≡ some id → t.owner i ≡ some id

-- The slot that the scan finds belongs to an expert that may go.
pub best_found :
    (may_go : ℕ → Bool) (cost : ℕ → ℕ) (owner : ℕ → Option ℕ) (n c s o : ℕ)
    → best may_go cost owner n ≡ some (c, s, o)
    → (s < n) × (owner s ≡ some o) × (may_go o ≡ true)
unfolding best
best_found may_go cost owner zero c s o h = absurd (cc h)
best_found may_go cost owner (suc n) c s o h = ground (arith, best_found may_go cost owner n c s o)

pub AllFree-same :
    (t u : Tier) (free : List ℕ)
    → u.slots ≡ t.slots
    → ((s : ℕ) → t.owner s ≡ none → u.owner s ≡ none)
    → AllFree t free
    → AllFree u free
AllFree-same t u [] e keep a = tt
AllFree-same t u (s ∷ free) e keep a = (keep s a.0, rw e a.1, a.2, AllFree-same t u free e keep a.3)

module _ (t : Tier) (busy : ℕ → Bool) (h : IsHeld t busy) where
  IsHeld-popped :
      (s : ℕ) (free : List ℕ) → t.free ≡ s ∷ free → IsHeld (record t { free = free }) busy
  IsHeld-popped s free e =
      let all : AllFree t (s ∷ free) = subst (AllFree t) e h.all_free in
      record {
        placed = h.placed;
        owned = h.owned;
        one_slot = h.one_slot;
        in_range = h.in_range;
        all_free = AllFree-same t (record t { free = free }) free refl (λ i p. p) all.3;
      }

  Taken-popped :
      (may_go : ℕ → Bool) (s : ℕ) (free : List ℕ)
      → t.free ≡ s ∷ free
      → Taken t may_go s (record t { free = free })
  Taken-popped may_go s free e =
      let all : AllFree t (s ∷ free) = subst (AllFree t) e h.all_free in
      record {
        slots_same = refl;
        mem_same = refl;
        vacant = all.0;
        exists = all.1;
        not_free = all.2;
        kept = λ id m. refl;
        none_added = λ id p. p;
        kept_owner = λ id i m p. p;
        owners = λ id i p. p;
      }

  module _ (may_go : ℕ → Bool) (s o : ℕ) (mine : t.owner s ≡ some o) (idle : busy o ≡ false)
      (goes : may_go o ≡ true) (full : t.free ≡ []) where
    abbrev after : Tier
    after = record t { place = update t.place o none; owner = update t.owner s none }

    IsHeld-evicted : IsHeld after busy
    IsHeld-evicted = record {
      placed = λ id i p. ground (arith, h.placed id i, h.placed o i, h.one_slot o s i mine, mine);
      owned = λ id i p. ground (arith, h.owned id i, h.one_slot id s i, mine);
      one_slot = λ id i j p q. ground (arith, h.one_slot id i j);
      in_range = λ id i p. ground (arith, h.in_range id i);
      all_free = rw full tt;
    }

    Taken-evicted : Taken t may_go s after
    Taken-evicted = record {
      slots_same = refl;
      mem_same = refl;
      vacant = ground arith;
      exists = h.in_range o s mine;
      not_free = rw full tt;
      kept = λ id m. ground (arith, goes);
      none_added = λ id p. ground (arith, p);
      kept_owner = λ id i m p. ground (arith, goes, mine);
      owners = λ id i p. ground (arith, p);
    }

-- What taking a slot comes to: nothing, or a slot that is vacant in a tier as well-formed as before.
pub data Outcome (t : Tier) (may_go busy : ℕ → Bool) : Tier × Option ℕ × Bool → Type 0 where
  refused : Outcome t may_go busy (t, none, false)
  taken :
      (s : ℕ) (u : Tier) (b : Bool)
      → Taken t may_go s u
      → IsHeld u busy
      → Outcome t may_go busy (u, some s, b)

module _ (t : Tier) (may_go busy : ℕ → Bool) (cost : ℕ → ℕ) (refuse : ℕ → Bool) (h : IsHeld t busy)
    (idle : (id : ℕ) → may_go id ≡ true → busy id ≡ false) where
  evict-Outcome :
      (c s o : ℕ)
      → t.free ≡ []
      → best may_go cost t.owner t.slots ≡ some (c, s, o)
      → Outcome t may_go busy (evict t refuse (some (c, s, o)))
  evict-Outcome c s o full e =
      let (lt, mine, goes) = best_found may_go cost t.owner t.slots c s o e in
      elim (Bool-cases (refuse c)) [
        | inl stay ↦ rw stay refused
        | inr go ↦ rw go (
            taken s _ true (Taken-evicted t busy h may_go s o mine (idle o goes) goes full)
              (IsHeld-evicted t busy h may_go s o mine (idle o goes) goes full))
      ]

  pop-Outcome :
      (free : List ℕ)
      → t.free ≡ free
      → Outcome t may_go busy (pop t (best may_go cost t.owner t.slots) refuse free)
  pop-Outcome (s ∷ free) e =
      taken s _ false (Taken-popped t busy h may_go s free e) (IsHeld-popped t busy h s free e)
  pop-Outcome [] e = elim (Option-cases (best may_go cost t.owner t.slots)) [
    | inl e' ↦ rw e' refused
    | inr ((c, s, o), f) ↦ rw f (evict-Outcome c s o e f)
  ]

  pub take_slot-Outcome : Outcome t may_go busy (take_slot t may_go cost refuse)
  unfolding take_slot
  take_slot-Outcome = pop-Outcome t.free refl
