-- ===== src/Engram/Runs.antt =====
-- Tests, and the theorem at a cache of one set that has served batches before.
use chatty.Common.{ℕ, ◌+◌, ◌*◌, ◌≡◌, refl, false, true, List, [], ◌∷◌, map, arith}
use chatty.Engram.Batch.{wanted}
use chatty.Engram.Contract.{Request, answer, reader_of, serve_all, engram_refines_drive}
use chatty.Engram.Clock.{IsVictim, sweep_terminates}
use chatty.Engram.{
  Way, EngramTable, EngramStats, EngramCache, inconsistent_tables, row_out_of_bounds, ok, err, new,
  has_other_widths, make_engram_tag, mix64, set_index, probe, probe_hit, fill, sweep, insert_row,
  add_miss, scan, read_rows, fan_out, store, rows_of, lookup_batch, engram_skip_row, cache_of,
}

abbrev drive : ℕ → ℕ → List ℕ
drive t r = (100 * t + r) ∷ r ∷ []

abbrev table : EngramTable
table = record { layer = 0; rows = 50; weight_len = 50; scale_len = 50 }

abbrev cache : EngramCache
cache = cache_of (table ∷ table ∷ []) 1 1 1

cache_made : new (table ∷ table ∷ []) 82 ≡ ok cache
unfolding new has_other_widths
cache_made = refl

others_refused : new (table ∷ record table { scale_len = 100 } ∷ []) 82 ≡ err inconsistent_tables
unfolding new has_other_widths
others_refused = refl

tag_of_row : make_engram_tag 1 7 ≡ 281474976710664
unfolding make_engram_tag
tag_of_row = refl

abbrev blank : List (List ℕ)
blank = [] ∷ [] ∷ [] ∷ [] ∷ []

abbrev ask : ℕ → List ℕ → Request
ask t rows = record { table_index = t; rows = rows; out = blank; fails = λ u missing. false }

abbrev batch : Request
batch = ask 1 (3 ∷ engram_skip_row ∷ 9 ∷ 3 ∷ [])

-- Ten rows: the set is full, and its clock goes round.
abbrev history : List Request
history =
    ask 1 (1 ∷ 2 ∷ 3 ∷ 4 ∷ [])
    ∷ ask 0 (3 ∷ 9 ∷ 5 ∷ 6 ∷ [])
    ∷ ask 1 (20 ∷ 21 ∷ 3 ∷ 99 ∷ [])
    ∷ record (ask 1 (30 ∷ 31 ∷ 32 ∷ 33 ∷ [])) { fails = λ u missing. true }
    ∷ []

batch_answered : answer drive batch (serve_all drive history cache) ≡ (
  (answer drive batch (serve_all drive history cache)).0,
  ((103 ∷ 3 ∷ []) ∷ (0 ∷ 0 ∷ []) ∷ (109 ∷ 9 ∷ []) ∷ (103 ∷ 3 ∷ []) ∷ []),
  ok (record { hits = 2; misses = 1; unique_misses = 1; evictions = 1; bytes_read = 2 }),
)
unfolding serve_all lookup_batch scan probe_hit probe set_index mix64 make_engram_tag add_miss
    read_rows fan_out store insert_row fill sweep rows_of
batch_answered = refl

bad_row_refused : (answer drive (ask 1 (1 ∷ 2 ∷ 50 ∷ 4 ∷ [])) cache).2 ≡ err (row_out_of_bounds 50)
unfolding lookup_batch scan probe_hit probe set_index mix64 make_engram_tag add_miss
bad_row_refused = refl

engram_refines_drive_example :
    ((stats : EngramStats) × ((answer drive batch (serve_all drive history cache)).2 ≡ ok stats))
    × ((answer drive batch (serve_all drive history cache)).1
        ≡ map (wanted (reader_of drive batch) 1 2) (3 ∷ engram_skip_row ∷ 9 ∷ 3 ∷ []))
engram_refines_drive_example =
    engram_refines_drive drive (table ∷ table ∷ []) 82 cache history batch table cache_made
      (omega arith) (omega arith, (omega arith, tt)) refl refl (refl, (refl, (refl, (refl, tt))))
      (λ missing. refl)

abbrev full_ways : List Way
full_ways = way 5 ∷ way 6 ∷ way 7 ∷ way 8 ∷ way 9 ∷ way 10 ∷ way 11 ∷ way 12 ∷ []
  where
    way : ℕ → Way
    way tag = record { tag = tag; used = true; payload = [] }

sweep_terminates_example :
    IsVictim (sweep 9 full_ways 2) × (sweep (3 + 9) full_ways 2 ≡ sweep 9 full_ways 2)
sweep_terminates_example = sweep_terminates full_ways 2 3 refl (omega arith)
