-- ===== src/Routing.antt =====
-- crates/chatty-metal/src/routing.rs: the trace of expert uses, its counts and its replay through
-- two LRU tiers. A hash map is an association list; counters are taken not to overflow.
mod Map
pub mod Cache
pub mod Replay
pub mod Counts
mod Runs
unfoldable pub use Map.{Key, key_eq, contains, find, put, erase}
use chatty.Common.{ℕ, ◌+◌, ◌-◌, ◌%◌, ◌^◌, min, Bool, true, false, ◌||◌, Option, none, some}
use chatty.Common.{List, [], ◌∷◌, ◌++◌, ltb, leb, ◌==◌, if◌then◌else◌, length}

pub record TierHits : Type 0 where
  pub vram : ℕ
  pub ram : ℕ
  pub drive : ℕ

abbrev pub total : TierHits → ℕ
total h = h.vram + h.ram + h.drive

-- A use: the token, and the layer and expert that it ran.
pub record Use : Type 0 where
  pub token : ℕ
  pub key : Key

pub record RouteTrace : Type 0 where
  pub tokens : ℕ
  pub uses : List Use

unfoldable pub next_token : RouteTrace → RouteTrace × ℕ
next_token t = (record t { tokens = (t.tokens + 1) % 2 ^ 32 }, t.tokens)

-- `layer as u8`, `expert as u16`
unfoldable pub record_use : RouteTrace → ℕ → ℕ → ℕ → RouteTrace
record_use t token layer expert = record t {
  uses = t.uses ++ (record { token = token; key = (layer % 256, expert % 65536) }) ∷ [];
}

-- An LRU cache whose entries carry the tick of their last use.
pub record Lru : Type 0 where
  pub capacity : ℕ
  pub tick : ℕ
  pub entries : List (Key × ℕ)

abbrev pub empty_lru : ℕ → Lru
empty_lru capacity = record { capacity = capacity; tick = 0; entries = [] }

-- `Lru::touch`
unfoldable pub touch : Lru → Key → Lru × Bool
touch l k =
    let t = l.tick + 1 in
    if contains k l.entries
    then (record l { tick = t; entries = put k t l.entries }, true)
    else (record l { tick = t }, false)

-- `Lru::remove`
unfoldable pub remove : Lru → Key → Lru × Bool
remove l k = (record l { entries = erase k l.entries }, contains k l.entries)

-- `min_by_key` by the stamp: the first of the least.
abbrev pub older : Key × ℕ → Option (Key × ℕ) → Key × ℕ
older e none = e
older (k, t) (some (j, u)) = if ltb u t then (j, u) else (k, t)

unfoldable pub oldest : List (Key × ℕ) → Option (Key × ℕ)
oldest [] = none
oldest (e ∷ es) = some (older e (oldest es))

abbrev pub evict : List (Key × ℕ) → Option (Key × ℕ) → List (Key × ℕ) × Option Key
evict es none = (es, none)
evict es (some (k, t)) = (erase k es, some k)

-- `Lru::insert`: the cache, and the entry that had to go.
unfoldable pub insert : Lru → Key → Lru × Option Key
insert l k =
    if l.capacity == 0
    then (l, some k)
    else let r : List (Key × ℕ) × Option Key =
        if leb l.capacity (length l.entries)
        then evict l.entries (oldest l.entries)
        else (l.entries, none) in
      (record l { tick = l.tick + 1; entries = put k (l.tick + 1) r.0 }, r.1)

pub record Tiers : Type 0 where
  pub fast : Lru
  pub slow : Lru
  pub hits : TierHits

abbrev pub hit_slow : Bool → TierHits → TierHits
hit_slow true h = record h { ram = h.ram + 1 }
hit_slow false h = record h { drive = h.drive + 1 }

abbrev pub push_down : Lru → Option Key → Lru
push_down slow none = slow
push_down slow (some k) = (insert slow k).0

-- The loop body of `RouteTrace::replay`. The entry that the RAM tier gives up is dropped.
unfoldable pub serve : Tiers → Key → Tiers
serve s k =
    let t = touch s.fast k in
    if t.1
    then record s { fast = t.0; hits = record s.hits { vram = s.hits.vram + 1 } }
    else let r = remove s.slow k in
      let i = insert t.0 k in
      record { fast = i.0; slow = push_down r.0 i.1; hits = hit_slow r.1 s.hits }

unfoldable pub replay_from : Tiers → List Use → Tiers
replay_from s [] = s
replay_from s (u ∷ us) = replay_from (serve s u.key) us

abbrev pub cold : ℕ → ℕ → Tiers
cold vram_slots ram_slots = record {
  fast = empty_lru vram_slots;
  slow = empty_lru ram_slots;
  hits = record { vram = 0; ram = 0; drive = 0 };
}

unfoldable pub replay : RouteTrace → ℕ → ℕ → TierHits
replay t vram_slots ram_slots = (replay_from (cold vram_slots ram_slots) t.uses).hits

-- `*counts.entry(key).or_default() += 1`
abbrev pub bump : Key → List (Key × ℕ) → List (Key × ℕ)
bump k m = put k (find k m + 1) m

unfoldable pub count_uses : List (Key × ℕ) → List Use → List (Key × ℕ)
count_uses m [] = m
count_uses m (u ∷ us) = count_uses (bump u.key m) us

-- The order `(Reverse(count), layer, expert)`.
abbrev pub before : Key × ℕ → Key × ℕ → Bool
before ((l, e), c) ((l', e'), c') =
    ltb c' c || (if c == c' then ltb l l' || (if l == l' then leb e e' else false) else false)

unfoldable pub sort_in : Key × ℕ → List (Key × ℕ) → List (Key × ℕ)
sort_in x [] = x ∷ []
sort_in x (y ∷ ys) = if before x y then x ∷ y ∷ ys else y ∷ sort_in x ys

unfoldable pub sort : List (Key × ℕ) → List (Key × ℕ)
sort [] = []
sort (x ∷ xs) = sort_in x (sort xs)

-- `RouteTrace::counts`
unfoldable pub counts : RouteTrace → List (Key × ℕ)
counts t = sort (count_uses [] t.uses)
