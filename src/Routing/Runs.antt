-- ===== src/Routing/Runs.antt =====
-- A trace through small tiers.
use chatty.Common.{arith, ℕ, ◌≡◌, refl, [], ◌∷◌, some}
use chatty.Routing.Map.{Key, contains, find, put, erase, IsMap}
use chatty.Routing.{
  Use, RouteTrace, Lru, touch, remove, oldest, insert, next_token, record_use, serve, replay_from,
  cold, replay, count_uses, sort_in, sort, counts,
}
use chatty.Routing.Cache.{IsValid, Inserted, insert-Inserted, insert-IsValid}
use chatty.Routing.Replay.{IsExclusive, replay_from-cold-IsExclusive}
use chatty.Routing.Counts.{IsSorted, occurrences, counts_lem}

abbrev used : ℕ → ℕ → Use
used layer expert = record { token = 0; key = (layer, expert) }

-- Expert 2 pushes out 0, which is found again in RAM.
abbrev trace : RouteTrace
trace = record {
  tokens = 1;
  uses = used 0 0 ∷ used 0 1 ∷ used 0 0 ∷ used 0 2 ∷ used 0 1 ∷ used 7 3 ∷ [];
}

replay_test : replay trace 2 1 ≡ record { vram = 1; ram = 1; drive = 4 }
unfolding replay replay_from serve touch remove insert contains put erase oldest
replay_test = refl

counts_test : counts trace ≡ ((0, 0), 2) ∷ ((0, 1), 2) ∷ ((0, 2), 1) ∷ ((7, 3), 1) ∷ []
unfolding counts sort sort_in count_uses put find
counts_test = refl

record_use_test :
    record_use (record { tokens = 1; uses = [] }) 0 257 65537
    ≡ record { tokens = 1; uses = used 1 1 ∷ [] }
unfolding record_use
record_use_test = refl

next_token_test :
    next_token (record { tokens = 4294967295; uses = [] })
    ≡ (record { tokens = 0; uses = [] }, 4294967295)
unfolding next_token
next_token_test = refl

abbrev full : Lru
full = record { capacity = 2; tick = 3; entries = ((0, 0), 3) ∷ ((0, 1), 2) ∷ [] }

insert_test :
    insert full (0, 2)
    ≡ (record { capacity = 2; tick = 4; entries = ((0, 0), 3) ∷ ((0, 2), 4) ∷ [] }, some (0, 1))
unfolding insert put erase oldest
insert_test = refl

full-IsValid : IsValid full
unfolding contains
full-IsValid = record {
  one_entry = (refl, (refl, tt));
  fits = omega arith;
  stamped = (omega arith, (omega arith, tt));
}

insert-Inserted_example : Inserted full (0, 2) (insert full (0, 2))
insert-Inserted_example = insert-Inserted full (0, 2)

insert-IsValid_example : IsValid (insert full (0, 2)).0
insert-IsValid_example = insert-IsValid full (0, 2) full-IsValid

replay_from-cold-IsExclusive_example : IsExclusive 2 1 (replay_from (cold 2 1) trace.uses)
replay_from-cold-IsExclusive_example = replay_from-cold-IsExclusive 2 1 trace.uses

counts_lem_example :
    IsMap (counts trace)
    × IsSorted (counts trace)
    × ((k : Key) → find k (counts trace) ≡ occurrences k trace.uses)
counts_lem_example = counts_lem trace
