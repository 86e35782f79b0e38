-- ===== src/Engram/History.antt =====
-- Whatever batches a cache has served, it gives what the drive holds.
use chatty.Common.{
  ℕ, ◌+◌, ◌≡◌, refl, sym, ◌∙◌, ap, Option, none, some, List, [], ◌∷◌, ◌==◌, ltb, get_or, inl, inr,
  arith, Bool-cases, Option-cases,
}
use chatty.Engram.Ways.{after_probe_passed}
use chatty.Engram.{
  EngramTable, EngramCache, Reader, Miss, Scan, Error, engram_skip_row, make_engram_tag, probe_hit,
  scan_row, is_bad_row, scan, read_rows, fan_out, insert_row, insert_missed, count_eviction, store,
}
use chatty.Engram.{probe, after_scan, reads_fail, count_reads, empty_set, set_index}

-- The tables and the width of a row stay what they are.
abbrev pub IsKept : EngramCache → EngramCache → Type 0
IsKept c z = (z.tables ≡ c.tables) × (z.row_bytes ≡ c.row_bytes)

pub IsKept-trans : (a b c : EngramCache) → IsKept a b → IsKept b c → IsKept a c
IsKept-trans a b c (e, f) (g, h) = (g ∙ e, h ∙ f)

probe_hit-IsKept :
    (c : EngramCache) (tag : ℕ) (payload : List ℕ) (z : EngramCache)
    → probe_hit c tag ≡ some (payload, z)
    → IsKept c z
unfolding probe_hit
probe_hit-IsKept c tag payload z h =
    let s = get_or c.sets (set_index c.num_sets tag) empty_set in
    elim (Bool-cases (c.num_sets == 0)) [
      | inl nothing ↦ absurd (ground (arith, h, nothing))
      | inr some_sets ↦
          let (ways, found, e) =
            after_probe_passed c (set_index c.num_sets tag) s (probe tag s.ways) payload z
              (ground (arith, h, some_sets)) in
          (ap EngramCache.tables (sym e), ap EngramCache.row_bytes (sym e))
    ]

scan_row-IsKept : (t i row : ℕ) (s : Scan) → IsKept s.cache (scan_row t i row s).cache
scan_row-IsKept t i row s = elim (Bool-cases (row == engram_skip_row)) [
  | inl skip ↦ rw skip (refl, refl)
  | inr other ↦ elim (Option-cases (probe_hit s.cache (make_engram_tag t row))) [
    | inl n ↦ rw (other, n) (refl, refl)
    | inr ((payload, c), found) ↦
        rw (other, found) (probe_hit-IsKept s.cache (make_engram_tag t row) payload c found)
  ]
]

pub scan-IsKept :
    (t : ℕ) (table : EngramTable) (i : ℕ) (rows : List ℕ) (s : Scan)
    → IsKept s.cache (scan t table i rows s).0.cache
unfolding scan
scan-IsKept t table i [] s = (refl, refl)
scan-IsKept t table i (row ∷ rows) s = elim (Bool-cases (is_bad_row table row)) [
  | inl bad ↦ rw bad (refl, refl)
  | inr good ↦ rw good (
      IsKept-trans s.cache (scan_row t i row s).cache
        (scan t table (i + 1) rows (scan_row t i row s)).0.cache (scan_row-IsKept t i row s)
        (scan-IsKept t table (i + 1) rows (scan_row t i row s)))
]

insert_missed-IsKept :
    (t : ℕ) (m : Miss) (out : List (List ℕ)) (c : EngramCache)
    → IsKept c (insert_missed t m out c).0
unfolding insert_row
insert_missed-IsKept t m out c = elim (Bool-cases (ltb 0 c.num_sets)) [
  | inl sets ↦ rw sets (refl, refl)
  | inr no_sets ↦ rw no_sets (refl, refl)
]

store-IsKept : (t : ℕ) (ms : List Miss) (s : Scan) → IsKept s.cache (store t ms s).cache
unfolding store
store-IsKept t [] s = (refl, refl)
store-IsKept t (m ∷ ms) s =
    let inserted = insert_missed t m s.out s.cache in
    let after : Scan = record s {
      cache = inserted.0;
      out = fan_out m.first m.extras s.out;
      batch_stats = count_eviction inserted.1 s.batch_stats;
    } in
    IsKept-trans s.cache inserted.0 (store t ms after).cache
      (insert_missed-IsKept t m s.out s.cache) (store-IsKept t ms after)

pub after_scan-IsKept :
    (reader : Reader) (t : ℕ) (z : Scan × Option Error) → IsKept z.0.cache (after_scan reader t z).0
after_scan-IsKept reader t (s, some e) = (refl, refl)
after_scan-IsKept reader t (s, none) = elim (Bool-cases (reads_fail reader t s.misses)) [
  | inl fails ↦ rw fails (refl, refl)
  | inr reads ↦ rw reads (
      store-IsKept t s.misses (record s {
        out = read_rows reader t s.misses s.out;
        batch_stats = count_reads s.cache.row_bytes s.misses s.batch_stats;
      }))
]
