-- ===== src/Routing/Map.antt =====
-- Keys, and association lists that stand for the hash maps over them.
use chatty.Common.{ℕ, suc, ◌≤◌, ◌≡◌, ◌↔◌, refl, ◌∙◌, Bool, true, false, ◌&&◌, ◌||◌}
use chatty.Common.{List, [], ◌∷◌, ◌==◌, if◌then◌else◌, length, arith, inl, inr, Bool-cases}

-- A layer and an expert.
abbrev pub Key : Type 0
Key = ℕ × ℕ

abbrev pub key_eq : Key → Key → Bool
key_eq (a, b) (c, d) = a == c && b == d

unfoldable pub contains : Key → List (Key × ℕ) → Bool
contains k [] = false
contains k ((j, v) ∷ m) = key_eq j k || contains k m

-- `get`, with the default of an integer where the key is missing.
unfoldable pub find : Key → List (Key × ℕ) → ℕ
find k [] = 0
find k ((j, v) ∷ m) = if key_eq j k then v else find k m

-- `insert`: the value of the key is replaced.
unfoldable pub put : Key → ℕ → List (Key × ℕ) → List (Key × ℕ)
put k v [] = (k, v) ∷ []
put k v ((j, w) ∷ m) = if key_eq j k then (k, v) ∷ m else (j, w) ∷ put k v m

-- `remove`
unfoldable pub erase : Key → List (Key × ℕ) → List (Key × ℕ)
erase k [] = []
erase k ((j, w) ∷ m) = let rest = erase k m in if key_eq j k then rest else (j, w) ∷ rest

pub key_eq_refl : (k : Key) → key_eq k k ≡ true
key_eq_refl (a, b) = ground arith

pub key_eq_iff : (k j : Key) → (key_eq k j ≡ true) ↔ (k ≡ j)
key_eq_iff (a, b) (c, d) = ground arith

pub contains-put :
    (j k : Key) (v : ℕ) (m : List (Key × ℕ)) → contains j (put k v m) ≡ (key_eq k j || contains j m)
unfolding contains put
contains-put j k v [] = refl
contains-put (a, b) (c, d) v (((e, f), w) ∷ m) = ground (arith, contains-put (a, b) (c, d) v m)

pub contains-erase :
    (j k : Key) (m : List (Key × ℕ))
    → contains j (erase k m) ≡ (if key_eq k j then false else contains j m)
unfolding contains erase
contains-erase (a, b) (c, d) [] = ground arith
contains-erase (a, b) (c, d) (((e, f), w) ∷ m) = ground (arith, contains-erase (a, b) (c, d) m)

pub find-put :
    (j k : Key) (v : ℕ) (m : List (Key × ℕ))
    → find j (put k v m) ≡ (if key_eq k j then v else find j m)
unfolding find put
find-put j k v [] = refl
find-put (a, b) (c, d) v (((e, f), w) ∷ m) = ground (arith, find-put (a, b) (c, d) v m)

-- Each key has one entry.
abbrev pub IsMap : List (Key × ℕ) → Type 0
IsMap [] = Unit {0}
IsMap ((k, v) ∷ m) = (contains k m ≡ false) × IsMap m

pub put-IsMap : (k : Key) (v : ℕ) (m : List (Key × ℕ)) → IsMap m → IsMap (put k v m)
unfolding put contains
put-IsMap k v [] h = (refl, tt)
put-IsMap (a, b) v (((c, d), w) ∷ m) h = elim (Bool-cases (key_eq (c, d) (a, b))) [
  | inl same ↦ rw same (ground (arith, h.0), h.1)
  | inr ne ↦ rw ne (contains-put (c, d) (a, b) v m ∙ ground (arith, h.0), put-IsMap (a, b) v m h.1)
]

pub erase-IsMap : (k : Key) (m : List (Key × ℕ)) → IsMap m → IsMap (erase k m)
unfolding erase
erase-IsMap k [] h = tt
erase-IsMap (a, b) (((c, d), w) ∷ m) h = elim (Bool-cases (key_eq (c, d) (a, b))) [
  | inl same ↦ rw same (erase-IsMap (a, b) m h.1)
  | inr ne ↦ rw ne (contains-erase (c, d) (a, b) m ∙ ground (arith, h.0), erase-IsMap (a, b) m h.1)
]

pub length-put :
    (k : Key) (v : ℕ) (m : List (Key × ℕ))
    → length (put k v m) ≡ (if contains k m then length m else suc (length m))
unfolding put contains
length-put k v [] = refl
length-put (a, b) v (((c, d), w) ∷ m) = ground (arith, length-put (a, b) v m)

pub length-erase-le : (k : Key) (m : List (Key × ℕ)) → length (erase k m) ≤ length m
unfolding erase
length-erase-le k [] = omega arith
length-erase-le (a, b) (((c, d), w) ∷ m) = ground (arith, length-erase-le (a, b) m)

-- An entry that is there makes room.
pub length-erase :
    (k : Key) (m : List (Key × ℕ)) → contains k m ≡ true → suc (length (erase k m)) ≤ length m
unfolding erase contains
length-erase k [] h = absurd (ground arith)
length-erase (a, b) (((c, d), w) ∷ m) h =
    ground (arith, length-erase (a, b) m, length-erase-le (a, b) m)
