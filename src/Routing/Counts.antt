-- ===== src/Routing/Counts.antt =====
-- The counts of a trace: every expert once, with its number of uses, the most used first.
use chatty.Common.{◌⊎◌, ◌<◌, ◌≤◌, ℕ, suc, ◌+◌, ◌≡◌, ◌∙◌, refl, true, false, ◌||◌, inl, inr}
use chatty.Common.{List, [], ◌∷◌, if◌then◌else◌, All, arith, Bool-cases}
use chatty.Routing.Map.{Key, key_eq, contains, find, IsMap, find-put, put-IsMap, key_eq_iff}
use chatty.Routing.{Use, RouteTrace, bump, count_uses, before, sort_in, sort, counts}

-- How often an expert was used.
abbrev pub occurrences : Key → List Use → ℕ
occurrences k [] = 0
occurrences k (u ∷ us) = let rest = occurrences k us in if key_eq u.key k then suc rest else rest

find-bump :
    (j k : Key) (m : List (Key × ℕ))
    → find j (bump k m) ≡ (if key_eq k j then suc (find j m) else find j m)
find-bump j k m = find-put j k (find k m + 1) m ∙ elim (Bool-cases (key_eq k j)) [
  | inl same ↦ rw (same, (key_eq_iff k j).0 same) (omega arith)
  | inr ne ↦ rw ne refl
]

find-count_uses :
    (k : Key) (us : List Use) (m : List (Key × ℕ))
    → find k (count_uses m us) ≡ occurrences k us + find k m
unfolding count_uses
find-count_uses k [] m = omega arith
find-count_uses k (u ∷ us) m =
    find-count_uses k us (bump u.key m) ∙ ground (arith, find-bump k u.key m)

count_uses-IsMap : (us : List Use) (m : List (Key × ℕ)) → IsMap m → IsMap (count_uses m us)
unfolding count_uses
count_uses-IsMap [] m h = h
count_uses-IsMap (u ∷ us) m h =
    count_uses-IsMap us (bump u.key m) (put-IsMap u.key (find u.key m + 1) m h)

contains-sort_in :
    (k : Key) (x : Key × ℕ) (ys : List (Key × ℕ))
    → contains k (sort_in x ys) ≡ (key_eq x.0 k || contains k ys)
unfolding sort_in contains
contains-sort_in k x [] = refl
contains-sort_in k x (y ∷ ys) = ground (arith, contains-sort_in k x ys)

find-sort_in :
    (k : Key) (x : Key × ℕ) (ys : List (Key × ℕ))
    → contains x.0 ys ≡ false
    → find k (sort_in x ys) ≡ (if key_eq x.0 k then x.1 else find k ys)
unfolding sort_in contains find
find-sort_in k x [] out = refl
find-sort_in (a, b) ((c, d), v) (((e, f), w) ∷ ys) out =
    ground (arith, find-sort_in (a, b) ((c, d), v) ys)

sort_in-IsMap :
    (x : Key × ℕ) (ys : List (Key × ℕ)) → contains x.0 ys ≡ false → IsMap ys → IsMap (sort_in x ys)
unfolding sort_in contains
sort_in-IsMap x [] out h = (refl, tt)
sort_in-IsMap ((c, d), v) (((e, f), w) ∷ ys) out h =
    elim (Bool-cases (before ((c, d), v) ((e, f), w))) [
      | inl first ↦ rw first (out, h)
      | inr later ↦ rw later (
        contains-sort_in (e, f) ((c, d), v) ys ∙ ground (arith, h.0),
        sort_in-IsMap ((c, d), v) ys (ground arith) h.1,
      )
    ]

-- More uses; as many, and a lower layer; or the same layer, and not a higher number.
abbrev pub Precedes : Key × ℕ → Key × ℕ → Type 0
Precedes ((layer, expert), uses) ((layer2, expert2), uses2) =
    (uses2 < uses) ⊎ ((uses ≡ uses2) × ((layer < layer2) ⊎ ((layer ≡ layer2) × (expert ≤ expert2))))

-- Each entry precedes all that follow it.
abbrev pub IsSorted : List (Key × ℕ) → Type 0
IsSorted [] = Unit {0}
IsSorted (x ∷ xs) = All (λ y. Precedes x y) xs × IsSorted xs

before-Precedes : (x y : Key × ℕ) → before x y ≡ true → Precedes x y
before-Precedes ((a, b), c) ((d, e), f) h = ground arith

before_total : (x y : Key × ℕ) → before x y ≡ false → Precedes y x
before_total ((a, b), c) ((d, e), f) h = ground arith

chained_order : (x y z : Key × ℕ) → Precedes x y → Precedes y z → Precedes x z
chained_order ((a, b), c) ((d, e), f) ((g, h), i) p q = ground arith

first_of_both :
    (x y : Key × ℕ) (ys : List (Key × ℕ))
    → Precedes x y
    → All (λ z. Precedes y z) ys
    → All (λ z. Precedes x z) ys
first_of_both x y [] h r = tt
first_of_both x y (z ∷ zs) h r = (chained_order x y z h r.0, first_of_both x y zs h r.1)

keep_first :
    (x y : Key × ℕ) (ys : List (Key × ℕ))
    → Precedes y x
    → All (λ z. Precedes y z) ys
    → All (λ z. Precedes y z) (sort_in x ys)
unfolding sort_in
keep_first x y [] h r = (h, tt)
keep_first x y (z ∷ zs) h r = elim (Bool-cases (before x z)) [
  | inl first ↦ rw first (h, r)
  | inr later ↦ rw later (r.0, keep_first x y zs h r.1)
]

sort_in-IsSorted : (x : Key × ℕ) (ys : List (Key × ℕ)) → IsSorted ys → IsSorted (sort_in x ys)
unfolding sort_in
sort_in-IsSorted x [] s = (tt, tt)
sort_in-IsSorted x (y ∷ ys) s = elim (Bool-cases (before x y)) [
  | inl first ↦
      let ahead : Precedes x y = before-Precedes x y first in
      rw first ((ahead, first_of_both x y ys ahead s.0), s)
  | inr later ↦ rw later (keep_first x y ys (before_total x y later) s.0, sort_in-IsSorted x ys s.1)
]

-- Sorting keeps the keys and what is found under them.
sort_lem :
    (m : List (Key × ℕ))
    → IsMap m
    → IsMap (sort m)
      × IsSorted (sort m)
      × ((k : Key) → contains k (sort m) ≡ contains k m)
      × ((k : Key) → find k (sort m) ≡ find k m)
unfolding sort contains find
sort_lem [] h = (tt, tt, λ k. refl, λ k. refl)
sort_lem (x ∷ xs) h =
    let (one, sorted, keys, found) = sort_lem xs h.1 in
    let out : contains x.0 (sort xs) ≡ false = keys x.0 ∙ h.0 in
    (
      sort_in-IsMap x (sort xs) out one,
      sort_in-IsSorted x (sort xs) sorted,
      λ k. contains-sort_in k x (sort xs) ∙ rw (keys k) refl,
      λ k. find-sort_in k x (sort xs) out ∙ rw (found k) refl,
    )

-- The counts give every expert its number of uses, in one entry, and stand in the order: the most
-- used first, experts used as often by layer and then by number.
pub counts_lem :
    (t : RouteTrace)
    → IsMap (counts t)
      × IsSorted (counts t)
      × ((k : Key) → find k (counts t) ≡ occurrences k t.uses)
unfolding counts
counts_lem t =
    let (one, sorted, keys, found) =
      sort_lem (count_uses [] t.uses) (count_uses-IsMap t.uses [] tt) in
    (one, sorted, λ k. found k ∙ find-count_uses k t.uses [] ∙ unfold find in omega arith)
