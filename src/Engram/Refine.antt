-- ===== src/Engram/Refine.antt =====
-- The cache against the drive: what a batch gives is what the drive holds.
use chatty.Common.{
  ℕ, suc, ◌+◌, ◌≤◌, ◌<◌, ◌≡◌, refl, ◌∙◌, ap, false, Option, none, some, List, map, [], ◌∷◌,
  get_elem?, get_or, length, inl, inr, arith, Bool-cases,
}
use chatty.Engram.Ways.{IsConsistent}
use chatty.Engram.{EngramTable, EngramCache, Reader, Scan, Error, scan, read_rows, store}
use chatty.Engram.Batch.{wanted}
use chatty.Engram.Scanned.{IsScanned, scan-IsScanned}
use chatty.Engram.Store.{read_rows-IsRight, store-IsRight}
use chatty.Engram.{EngramStats, after_scan, reads_fail, count_reads, no_stats, ok}

rows_ext :
    (f : ℕ → List ℕ) (out : List (List ℕ)) (rows : List ℕ)
    → length out ≡ length rows
    → ((j : ℕ) → j < length rows → get_elem? out j ≡ some (f (get_or rows j 0)))
    → out ≡ map f rows
rows_ext f [] [] long at = refl
rows_ext f [] (r ∷ rows) long at = absurd (omega (arith, long))
rows_ext f (x ∷ out) [] long at = absurd (omega (arith, long))
rows_ext f (x ∷ out) (r ∷ rows) long at =
    let head : x ≡ f r = cc (at 0 (omega arith)) in
    ap (λ z. z ∷ out) head
    ∙ ap (λ z. f r ∷ z)
        (rows_ext f out rows (omega (arith, long)) (λ j lt. at (suc j) (omega (arith, lt))))

abbrev pub start : EngramCache → List (List ℕ) → Scan
start c out = record { cache = c; out = out; batch_stats = no_stats; misses = [] }

module _ (reader : Reader) (t : ℕ) (rows : List ℕ) (out : List (List ℕ)) (c : EngramCache)
    (table : EngramTable) (index_small : t < 65535) (few : table.rows ≤ 281474976710656)
    (good : IsConsistent reader.row c) (long : length out ≡ length rows) where
  pub scanned :
      IsConsistent reader.row (scan t table 0 rows (start c out)).0.cache
      × ((scan t table 0 rows (start c out)).1 ≡ none
          → IsScanned reader t c.row_bytes rows
              (0 + length rows)
              (scan t table 0 rows (start c out)).0)
  scanned =
      scan-IsScanned reader t c.row_bytes rows table 0 rows (start c out) index_small few refl
        (record {
          consistent = good;
          wide = refl;
          long = long;
          sound = tt;
          done = λ j lt. absurd (omega (arith, lt));
        })

  pub served :
      (s : Scan)
      → IsScanned reader t c.row_bytes rows (0 + length rows) s
      → reads_fail reader t s.misses ≡ false
      → IsConsistent reader.row (after_scan reader t (s, none)).0
        × ((stats : EngramStats) × ((after_scan reader t (s, none)).2 ≡ ok stats))
        × ((after_scan reader t (s, none)).1 ≡ map (wanted reader t c.row_bytes) rows)
  served s h reads =
      let width = c.row_bytes in
      let (read_long, kept, firsts) =
        read_rows-IsRight reader t width rows s.misses s.out h.sound h.long in
      let before : Scan = record s {
        out = read_rows reader t s.misses s.out;
        batch_stats = count_reads s.cache.row_bytes s.misses s.batch_stats;
      } in
      let (consistent, same_long, right, named) =
        store-IsRight reader t width rows s.misses before index_small h.sound read_long h.consistent
          firsts in
      rw reads (
        consistent,
        ((store t s.misses before).batch_stats, refl),
        rows_ext (wanted reader t width) (store t s.misses before).out rows same_long (λ j lt.
            elim (h.done j (omega (arith, lt))) [
              | inl done ↦ right j (kept j done)
              | inr later ↦ named j later
            ]),
      )

  ended_good :
      (z : Scan × Option Error)
      → IsConsistent reader.row z.0.cache
      → (z.1 ≡ none → IsScanned reader t c.row_bytes rows (0 + length rows) z.0)
      → IsConsistent reader.row (after_scan reader t z).0
  ended_good (s, some e) kept whole = kept
  ended_good (s, none) kept whole = elim (Bool-cases (reads_fail reader t s.misses)) [
    | inl fails ↦ rw fails kept
    | inr reads ↦ (served s (whole refl) reads).0
  ]

  pub after_scan-IsConsistent :
      IsConsistent reader.row (after_scan reader t (scan t table 0 rows (start c out))).0
  after_scan-IsConsistent = ended_good (scan t table 0 rows (start c out)) scanned.0 scanned.1
