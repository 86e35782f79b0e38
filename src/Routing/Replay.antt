-- ===== src/Routing/Replay.antt =====
-- The replay through two tiers: they stay exclusive and within their sizes, and every use counts.
use chatty.Common.{
  ℕ, suc, ◌+◌, ◌≤◌, ◌≡◌, ◌∙◌, refl, sym, ap, Bool, true, false, Option, none, some, inl, inr,
}
use chatty.Common.{List, [], ◌∷◌, length, if◌then◌else◌, arith, Bool-cases}
use chatty.Routing.Map.{
  Key, key_eq, contains, put, erase, contains-put, contains-erase, key_eq_refl, key_eq_iff,
}
use chatty.Routing.{
  total, Use, RouteTrace, Lru, touch, remove, insert, Tiers, hit_slow, push_down, serve,
  replay_from, cold, replay,
}
use mathlib.Core.Path.{subst}
use chatty.Routing.Cache.{
  IsValid, IsValid-restamped, IsValid-ticked, Inserted, no_room, had_room, evicted, remove-IsValid,
  insert-IsValid, insert-Inserted, insert-only, insert-capacity, IsEntry-contains,
}

-- No key is in both tiers, and both are valid tiers of their sizes.
pub record IsExclusive (vram_slots ram_slots : ℕ) (s : Tiers) : Type 0 where
  pub fast_valid : IsValid s.fast
  pub slow_valid : IsValid s.slow
  pub fast_size : s.fast.capacity ≡ vram_slots
  pub slow_size : s.slow.capacity ≡ ram_slots
  pub apart : (j : Key) → contains j s.fast.entries ≡ true → contains j s.slow.entries ≡ false

key_ne :
    (a : Key) (j : Key) (m : List (Key × ℕ))
    → contains a m ≡ false
    → contains j m ≡ true
    → key_eq a j ≡ false
key_ne a j m p q = elim (Bool-cases (key_eq a j)) [
  | inl same ↦ absurd (cc ((key_eq_iff a j).0 same))
  | inr ne ↦ ne
]

-- The key that comes in is not in the slow tier any more.
erase_same : (k : Key) (m : List (Key × ℕ)) → contains k (erase k m) ≡ false
erase_same k m = contains-erase k k m ∙ rw (key_eq_refl k)

erase-out : (j k : Key) (m : List (Key × ℕ)) → contains j m ≡ false → contains j (erase k m) ≡ false
erase-out j k m out = contains-erase j k m ∙ ground arith

key_ne_sym : (k j : Key) → key_eq k j ≡ false → key_eq j k ≡ false
key_ne_sym (a, b) (c, d) h = ground arith

module _ (fast slow : Lru) (k : Key)
    (apart : (j : Key) → contains j fast.entries ≡ true → contains j slow.entries ≡ false)
    (miss : contains k fast.entries ≡ false) where
  kept :
      (j : Key)
      → contains j (put k (fast.tick + 1) fast.entries) ≡ true
      → key_eq k j ≡ false
      → contains j fast.entries ≡ true
  kept j h ne = sym (contains-put j k (fast.tick + 1) fast.entries ∙ rw ne refl) ∙ h

  erased :
      (j e : Key)
      → contains j (put k (fast.tick + 1) (erase e fast.entries)) ≡ true
      → key_eq k j ≡ false
      → (key_eq e j ≡ false) × (contains j fast.entries ≡ true)
  erased j e h ne =
      let in_rest : contains j (erase e fast.entries) ≡ true =
        sym (contains-put j k (fast.tick + 1) (erase e fast.entries) ∙ rw ne refl) ∙ h in
      let split : (if key_eq e j then false else contains j fast.entries) ≡ true =
        sym (contains-erase j e fast.entries) ∙ in_rest in
      ground (arith, split)

  -- What is pushed down is not what is left above.
  push_down-apart :
      {r : Lru × Option Key}
      → Inserted fast k r
      → (j : Key) → contains j r.0.entries ≡ true
      → contains j (push_down (remove slow k).0 r.1).entries ≡ false
  unfolding remove
  push_down-apart (no_room z) j h =
      insert-only _ k j (key_ne k j fast.entries miss h) (erase-out j k slow.entries (apart j h))
  push_down-apart (had_room room) j h = elim (Bool-cases (key_eq k j)) [
    | inl same ↦ rw (← (key_eq_iff k j).0 same) (erase_same k slow.entries)
    | inr ne ↦ erase-out j k slow.entries (apart j (kept j h ne))
  ]
  push_down-apart (evicted e pos full here least) j h = elim (Bool-cases (key_eq k j)) [
    | inl same ↦ rw (← (key_eq_iff k j).0 same) (
        insert-only _ e.0 k
          (key_ne_sym k e.0 (key_ne k e.0 fast.entries miss (IsEntry-contains e fast.entries here)))
          (erase_same k slow.entries))
    | inr ne ↦
        insert-only _ e.0 j (erased j e.0 h ne).0
          (erase-out j k slow.entries (apart j (erased j e.0 h ne).1))
  ]

push_down-IsValid : (l : Lru) (k : Option Key) → IsValid l → IsValid (push_down l k)
push_down-IsValid l none v = v
push_down-IsValid l (some k) v = insert-IsValid l k v

push_down-capacity : (l : Lru) (k : Option Key) → (push_down l k).capacity ≡ l.capacity
push_down-capacity l none = refl
push_down-capacity l (some k) = insert-capacity l k

-- A key that is there already adds none.
put-known :
    (k j : Key) (t : ℕ) (m : List (Key × ℕ))
    → contains k m ≡ true
    → contains j (put k t m) ≡ true
    → contains j m ≡ true
put-known k j t m here h = elim (Bool-cases (key_eq k j)) [
  | inl same ↦ rw (← (key_eq_iff k j).0 same) here
  | inr ne ↦ sym (contains-put j k t m ∙ rw ne refl) ∙ h
]

serve_hit :
    (s : Tiers) (k : Key)
    → contains k s.fast.entries ≡ true
    → serve s k ≡ record s {
      fast = record s.fast {
        tick = s.fast.tick + 1;
        entries = put k (s.fast.tick + 1) s.fast.entries;
      };
      hits = record s.hits { vram = s.hits.vram + 1 };
    }
unfolding serve touch
serve_hit s k hit = rw hit refl

serve_miss :
    (s : Tiers) (k : Key)
    → contains k s.fast.entries ≡ false
    → let fast : Lru = record s.fast { tick = s.fast.tick + 1 } in
      serve s k ≡ (record {
        fast = (insert fast k).0;
        slow = push_down (remove s.slow k).0 (insert fast k).1;
        hits = hit_slow (contains k s.slow.entries) s.hits;
      })
unfolding serve touch remove
serve_miss s k miss = rw miss refl

-- Serving a use keeps the two tiers exclusive, valid and of their sizes.
pub serve-IsExclusive :
    (v r : ℕ) (s : Tiers) (k : Key) → IsExclusive v r s → IsExclusive v r (serve s k)
serve-IsExclusive v r s k x = elim (Bool-cases (contains k s.fast.entries)) [
  | inl hit ↦ subst (IsExclusive v r) (sym (serve_hit s k hit)) (record {
    fast_valid = IsValid-restamped s.fast k hit x.fast_valid;
    slow_valid = x.slow_valid;
    fast_size = x.fast_size;
    slow_size = x.slow_size;
    apart = λ j h. x.apart j (put-known k j (s.fast.tick + 1) s.fast.entries hit h);
  })
  | inr miss ↦
      let fast : Lru = record s.fast { tick = s.fast.tick + 1 } in
      subst (IsExclusive v r) (sym (serve_miss s k miss)) (record {
        fast_valid = insert-IsValid fast k (IsValid-ticked s.fast x.fast_valid);
        slow_valid =
            push_down-IsValid (remove s.slow k).0 (insert fast k).1
              (remove-IsValid s.slow k x.slow_valid);
        fast_size = insert-capacity fast k ∙ x.fast_size;
        slow_size =
            push_down-capacity (remove s.slow k).0 (insert fast k).1 ∙ unfold remove in x.slow_size;
        apart = push_down-apart fast s.slow k x.apart miss (insert-Inserted fast k);
      })
]

replay_from-IsExclusive :
    (v r : ℕ) (us : List Use) (s : Tiers) → IsExclusive v r s → IsExclusive v r (replay_from s us)
unfolding replay_from
replay_from-IsExclusive v r [] s x = x
replay_from-IsExclusive v r (u ∷ us) s x =
    replay_from-IsExclusive v r us (serve s u.key) (serve-IsExclusive v r s u.key x)

-- At every point of a replay, through tiers of any two sizes, each tier holds at most its number
-- of experts, each once, and no expert is in both.
pub replay_from-cold-IsExclusive :
    (vram_slots ram_slots : ℕ) (us : List Use)
    → IsExclusive vram_slots ram_slots (replay_from (cold vram_slots ram_slots) us)
replay_from-cold-IsExclusive v r us = replay_from-IsExclusive v r us (cold v r) (record {
  fast_valid = record { one_entry = tt; fits = omega arith; stamped = tt };
  slow_valid = record { one_entry = tt; fits = omega arith; stamped = tt };
  fast_size = refl;
  slow_size = refl;
  apart = λ j h. unfold contains in refl;
})

serve-total : (s : Tiers) (k : Key) → total (serve s k).hits ≡ suc (total s.hits)
serve-total s k = elim (Bool-cases (contains k s.fast.entries)) [
  | inl hit ↦ rw (serve_hit s k hit) (omega arith)
  | inr miss ↦ rw (serve_miss s k miss) (slow_total (contains k s.slow.entries))
]
  where
    slow_total : (b : Bool) → total (hit_slow b s.hits) ≡ suc (total s.hits)
    slow_total true = omega arith
    slow_total false = omega arith

replay_from-total :
    (us : List Use) (s : Tiers) → total (replay_from s us).hits ≡ length us + total s.hits
unfolding replay_from
replay_from-total [] s = omega arith
replay_from-total (u ∷ us) s =
    replay_from-total us (serve s u.key) ∙ omega (arith, serve-total s u.key)

-- Every use that was recorded is counted once in a replay, for VRAM, for RAM or for the drive.
replay-total :
    (t : RouteTrace) (vram_slots ram_slots : ℕ)
    → total (replay t vram_slots ram_slots) ≡ length t.uses
unfolding replay
replay-total t v r = replay_from-total t.uses (cold v r) ∙ omega arith

contains_empty : (k : Key) (m : List (Key × ℕ)) → length m ≤ 0 → contains k m ≡ false
unfolding contains
contains_empty k [] h = refl
contains_empty k (e ∷ m) h = absurd (omega arith)

serve_without_slots :
    (s : Tiers) (k : Key)
    → IsExclusive 0 0 s
    → (serve s k).hits ≡ record s.hits { drive = s.hits.drive + 1 }
serve_without_slots s k x =
    let fast : length s.fast.entries ≤ 0 = omega (arith, x.fast_valid.fits, x.fast_size) in
    let slow : length s.slow.entries ≤ 0 = omega (arith, x.slow_valid.fits, x.slow_size) in
    rw (serve_miss s k (contains_empty k s.fast.entries fast), contains_empty k s.slow.entries slow)
      refl

replay_from_without_slots :
    (us : List Use) (s : Tiers)
    → IsExclusive 0 0 s
    → (replay_from s us).hits ≡ record s.hits { drive = length us + s.hits.drive }
unfolding replay_from
replay_from_without_slots [] s x = ap (λ n. record s.hits { drive = n }) (omega arith)
replay_from_without_slots (u ∷ us) s x =
    replay_from_without_slots us (serve s u.key) (serve-IsExclusive 0 0 s u.key x)
    ∙ rw (serve_without_slots s u.key x) (ap (λ n. record s.hits { drive = n }) (omega arith))

-- Without slots every use is counted for the drive.
replay_without_slots :
    (t : RouteTrace) → replay t 0 0 ≡ record { vram = 0; ram = 0; drive = length t.uses }
unfolding replay replay_from
replay_without_slots t =
    replay_from_without_slots t.uses (cold 0 0) (replay_from-cold-IsExclusive 0 0 [])
    ∙ ap (λ n. record { vram = 0; ram = 0; drive = n }) (omega arith)
