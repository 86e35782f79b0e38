-- ===== src/Routing/Cache.antt =====
-- One LRU tier: its size, its keys, and which entry has to go.
use chatty.Common.{
  ℕ, ◌+◌, ◌≤◌, ◌<◌, ◌≡◌, ◌⊎◌, ◌∙◌, ap, ltb→lt, ltb→le, ne→==, ==_iff, sym, lt→leb, le→leb, refl,
  Bool, true, false, ◌||◌, Option, none, some, inl, inr,
}
use chatty.Common.{
  zero, suc, get_elem?, List, [], ◌∷◌, ltb, if◌then◌else◌, length, arith, All, Bool-cases,
}
use native.Mathlib.Nat.{le_refl}
use native.Mathlib.Decide.{ℕ_discrete, dec_lt}
use mathlib.Core.Path.{subst}
use chatty.Routing.Map.{
  Key, key_eq, contains, put, erase, IsMap, key_eq_refl, contains-put, contains-erase, put-IsMap,
  erase-IsMap, length-put, length-erase, length-erase-le,
}
use chatty.Routing.{Lru, remove, older, oldest, evict, insert}

-- At most `capacity` keys, each once, and no stamp from the future.
pub record IsValid (l : Lru) : Type 0 where
  pub one_entry : IsMap l.entries
  pub fits : length l.entries ≤ l.capacity
  pub stamped : All (λ e. e.1 ≤ l.tick) l.entries

put-stamped :
    (k : Key) (t u : ℕ) (m : List (Key × ℕ))
    → All (λ e. e.1 ≤ t) m
    → t ≤ u
    → All (λ e. e.1 ≤ u) (put k u m)
unfolding put
put-stamped k t u [] h le = omega arith
put-stamped k t u ((j, w) ∷ m) h le = elim (Bool-cases (key_eq j k)) [
  | inl same ↦ rw same (le_refl u, later m h.1)
  | inr ne ↦ rw ne (omega (arith, h.0), put-stamped k t u m h.1 le)
]
  where
    later : (m : List (Key × ℕ)) → All (λ e. e.1 ≤ t) m → All (λ e. e.1 ≤ u) m
    later [] s = tt
    later (e ∷ m) s = (omega (arith, s.0), later m s.1)

stamped_mono : (t u : ℕ) (m : List (Key × ℕ)) → All (λ e. e.1 ≤ t) m → t ≤ u → All (λ e. e.1 ≤ u) m
stamped_mono t u [] h le = tt
stamped_mono t u (e ∷ m) h le = (omega (arith, h.0), stamped_mono t u m h.1 le)

erase-stamped :
    (k : Key) (t : ℕ) (m : List (Key × ℕ)) → All (λ e. e.1 ≤ t) m → All (λ e. e.1 ≤ t) (erase k m)
unfolding erase
erase-stamped k t [] h = tt
erase-stamped k t ((j, w) ∷ m) h = elim (Bool-cases (key_eq j k)) [
  | inl same ↦ rw same (erase-stamped k t m h.1)
  | inr ne ↦ rw ne (h.0, erase-stamped k t m h.1)
]

pub IsValid-restamped :
    (l : Lru) (k : Key)
    → contains k l.entries ≡ true
    → IsValid l
    → IsValid (record l { tick = l.tick + 1; entries = put k (l.tick + 1) l.entries })
IsValid-restamped l k hit v = record {
  one_entry = put-IsMap k (l.tick + 1) l.entries v.one_entry;
  fits = rw (length-put, hit) v.fits;
  stamped = put-stamped k l.tick (l.tick + 1) l.entries v.stamped (omega arith);
}

pub IsValid-ticked : (l : Lru) → IsValid l → IsValid (record l { tick = l.tick + 1 })
IsValid-ticked l v = record {
  one_entry = v.one_entry;
  fits = v.fits;
  stamped = stamped_mono l.tick (l.tick + 1) l.entries v.stamped (omega arith);
}

pub remove-IsValid : (l : Lru) (k : Key) → IsValid l → IsValid (remove l k).0
unfolding remove
remove-IsValid l k v = record {
  one_entry = erase-IsMap k l.entries v.one_entry;
  fits = omega (arith, length-erase-le k l.entries, v);
  stamped = erase-stamped k l.tick l.entries v.stamped;
}

-- The entry stands among the entries, with its stamp.
abbrev pub IsEntry : Key × ℕ → List (Key × ℕ) → Type 0
IsEntry e m = (i : ℕ) × (get_elem? m i ≡ some e)

pub IsEntry-contains : (e : Key × ℕ) (m : List (Key × ℕ)) → IsEntry e m → contains e.0 m ≡ true
unfolding contains
IsEntry-contains e [] (i, h) = absurd (cc h)
IsEntry-contains e (x ∷ m) (zero, h) = let same : x ≡ e = cc h in rw (same, key_eq_refl e.0) refl
IsEntry-contains e (x ∷ m) (suc i, h) =
    or_true (key_eq x.0 e.0) (contains e.0 m) (IsEntry-contains e m (i, h))
  where
    or_true : (b c : Bool) → c ≡ true → (b || c) ≡ true
    or_true b c h = ground arith

-- The entry found is one of the entries, and none has a smaller stamp.
abbrev IsOldest : Key × ℕ → List (Key × ℕ) → Type 0
IsOldest e m = IsEntry e m × All (λ f. e.1 ≤ f.1) m

All-le_trans : (t u : ℕ) (m : List (Key × ℕ)) → t ≤ u → All (λ f. u ≤ f.1) m → All (λ f. t ≤ f.1) m
All-le_trans t u [] le h = tt
All-le_trans t u (e ∷ m) le h = (omega (arith, h.0), All-le_trans t u m le h.1)

older_cases :
    (x z : Key × ℕ)
    → ((z.1 < x.1) × (older x (some z) ≡ z)) ⊎ ((x.1 ≤ z.1) × (older x (some z) ≡ x))
older_cases x z = elim (Bool-cases (ltb z.1 x.1)) [
  | inl lt ↦ inl (ltb→lt z.1 x.1 lt, rw lt)
  | inr ge ↦ inr (ltb→le z.1 x.1 ge, rw ge)
]

older-IsOldest :
    (x z : Key × ℕ) (m : List (Key × ℕ)) → IsOldest z m → IsOldest (older x (some z)) (x ∷ m)
older-IsOldest x z m h = elim (older_cases x z) [
  | inl (lt, e) ↦ subst (λ w. IsOldest w (x ∷ m)) (sym e) ((suc h.0.0, h.0.1), (omega arith, h.1))
  | inr (ge, e) ↦
      subst (λ w. IsOldest w (x ∷ m)) (sym e)
        ((0, refl), (le_refl x.1, All-le_trans x.1 z.1 m ge h.1))
]

oldest-IsOldest : (x : Key × ℕ) (m : List (Key × ℕ)) → IsOldest (older x (oldest m)) (x ∷ m)
unfolding oldest
oldest-IsOldest x [] = ((0, refl), (le_refl x.1, tt))
oldest-IsOldest x (y ∷ m) = older-IsOldest x (older y (oldest m)) (y ∷ m) (oldest-IsOldest y m)

-- What an insertion into a tier that holds something does: it makes room for the key by giving up
-- an entry whose stamp is the least of all, or there was room.
pub data Inserted (l : Lru) (k : Key) : Lru × Option Key → Type 0 where
  no_room : l.capacity ≡ 0 → Inserted l k (l, some k)
  had_room :
      length l.entries < l.capacity
      → Inserted l k (record l { tick = l.tick + 1; entries = put k (l.tick + 1) l.entries }, none)
  evicted :
      (e : Key × ℕ)
      → 0 < l.capacity
      → l.capacity ≤ length l.entries
      → IsEntry e l.entries
      → All (λ f. e.1 ≤ f.1) l.entries
      → Inserted l k (
        record l { tick = l.tick + 1; entries = put k (l.tick + 1) (erase e.0 l.entries) },
        some e.0,
      )

full_not_empty : (l : Lru) → 0 < l.capacity → l.capacity ≤ length l.entries → 0 < length l.entries
full_not_empty l p q = omega arith

evict_full :
    (l : Lru) (k : Key) (m : List (Key × ℕ))
    → l.entries ≡ m
    → 0 < l.capacity
    → l.capacity ≤ length l.entries
    → Inserted l k (
      record l {
        tick = l.tick + 1;
        entries = put k (l.tick + 1) (evict l.entries (oldest l.entries)).0;
      },
      (evict l.entries (oldest l.entries)).1,
    )
evict_full l k [] e pos full = absurd (omega (arith, ap length e))
evict_full l k (x ∷ m) e pos full =
    let w = older x (oldest m) in
    let o : oldest l.entries ≡ some w = rw e (unfold oldest in refl) in
    let (here, least) = oldest-IsOldest x m in rw o (evicted w pos full (rw e here) (rw e least))

-- An insertion turns the key away when the tier has no capacity, takes it in when there is room, and
-- otherwise puts it in the place of the key of one entry, whose stamp no other entry's stamp is below.
pub insert-Inserted : (l : Lru) (k : Key) → Inserted l k (insert l k)
unfolding insert
insert-Inserted l k = elim (ℕ_discrete l.capacity 0) [
  | yes z ↦ rw ((==_iff l.capacity 0).1 z) (no_room z)
  | no ne ↦ elim (dec_lt (length l.entries) l.capacity) [
    | yes room ↦ rw (ne→== l.capacity 0 ne, lt→leb _ _ room) (had_room room)
    | no full ↦
        rw (ne→== l.capacity 0 ne, le→leb l.capacity (length l.entries) (omega arith))
          (evict_full l k l.entries refl (omega arith) (omega arith))
  ]
]

Inserted-IsValid :
    {l : Lru} {k : Key} {r : Lru × Option Key} → Inserted l k r → IsValid l → IsValid r.0
Inserted-IsValid (no_room z) v = v
Inserted-IsValid {l} {k} (had_room room) v = record {
  one_entry = put-IsMap k (l.tick + 1) l.entries v.one_entry;
  fits = ground (arith, length-put k (l.tick + 1) l.entries);
  stamped = put-stamped k l.tick (l.tick + 1) l.entries v.stamped (omega arith);
}
Inserted-IsValid {l} {k} (evicted e pos full here least) v = record {
  one_entry =
      put-IsMap k (l.tick + 1) (erase e.0 l.entries) (erase-IsMap e.0 l.entries v.one_entry);
  fits = ground (
    arith,
    v.fits,
    length-put k (l.tick + 1) (erase e.0 l.entries),
    length-erase e.0 l.entries (IsEntry-contains e l.entries here),
  );
  stamped =
      put-stamped k l.tick (l.tick + 1) (erase e.0 l.entries)
        (erase-stamped e.0 l.tick l.entries v.stamped) (omega arith);
}

-- Inserting into a valid tier keeps it within its capacity, with one entry for each key.
pub insert-IsValid : (l : Lru) (k : Key) → IsValid l → IsValid (insert l k).0
insert-IsValid l k v = Inserted-IsValid (insert-Inserted l k) v

Inserted-only :
    {l : Lru} {k : Key} {r : Lru × Option Key} (j : Key)
    → Inserted l k r
    → key_eq k j ≡ false
    → contains j l.entries ≡ false
    → contains j r.0.entries ≡ false
Inserted-only j (no_room z) ne out = out
Inserted-only {l} {k} j (had_room room) ne out =
    contains-put j k (l.tick + 1) l.entries ∙ rw (ne, out)
Inserted-only {l} {k} j (evicted e pos full here least) ne out =
    contains-put j k (l.tick + 1) (erase e.0 l.entries)
    ∙ rw (ne, contains-erase j e.0 l.entries, out) (if_same (key_eq e.0 j))
  where
    if_same : (b : Bool) → (if b then false else false) ≡ false
    if_same true = refl
    if_same false = refl

-- Nothing else comes in with a key.
pub insert-only :
    (l : Lru) (k j : Key)
    → key_eq k j ≡ false
    → contains j l.entries ≡ false
    → contains j (insert l k).0.entries ≡ false
insert-only l k j = Inserted-only j (insert-Inserted l k)

Inserted-capacity :
    {l : Lru} {k : Key} {r : Lru × Option Key} → Inserted l k r → r.0.capacity ≡ l.capacity
Inserted-capacity (no_room z) = refl
Inserted-capacity (had_room room) = refl
Inserted-capacity (evicted e pos full here least) = refl

pub insert-capacity : (l : Lru) (k : Key) → (insert l k).0.capacity ≡ l.capacity
insert-capacity l k = Inserted-capacity (insert-Inserted l k)
