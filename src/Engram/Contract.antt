-- ===== src/Engram/Contract.antt =====
-- What the cache promises: a batch gives the rows that the drive holds, whatever was asked before.
use chatty.Common.{
  ℕ, zero, suc, ◌+◌, ◌≤◌, ◌<◌, ◌≡◌, refl, sym, ◌∙◌, ap, Bool, true, false, some, List, map, [], ◌∷◌,
  ◌==◌, if◌then◌else◌, get_elem?, length, All, inl, inr, arith, Bool-cases, Option-cases,
}
use mathlib.Core.Path.{subst}
use chatty.Engram.Ways.{IsConsistent}
use chatty.Engram.{EngramTable, EngramCache, Reader, Miss, Error, is_bad_row, scan}
use chatty.Engram.Batch.{wanted}
use chatty.Engram.Scanned.{scan_ends}
use chatty.Engram.{
  EngramStats, Batch, after_scan, lookup_batch, reads_fail, rows_of, ok, err, new, cache_of,
  has_other_widths, empty_set, engram_ways, empty_way, bytes_per_set,
}
use chatty.Engram.Refine.{start, scanned, served, after_scan-IsConsistent}
use chatty.Engram.Ways.{All-replicate, IsGood}
use chatty.Common.Fallible.{ok_inj}
use chatty.Engram.{cache_of, bytes_per_set}
use chatty.Common.{◌/◌}
use chatty.Engram.History.{IsKept, IsKept-trans, scan-IsKept, after_scan-IsKept}

-- A batch that is asked for, with the reads that fail while it is served.
pub record Request : Type 0 where
  pub table_index : ℕ
  pub rows : List ℕ
  pub out : List (List ℕ)
  pub fails : ℕ → List ℕ → Bool

abbrev pub reader_of : (ℕ → ℕ → List ℕ) → Request → Reader
reader_of drive q = record { row = drive; fails = q.fails }

abbrev pub answer : (ℕ → ℕ → List ℕ) → Request → EngramCache → Batch
answer drive q c = lookup_batch (reader_of drive q) c q.table_index q.rows q.out

unfoldable pub serve_all : (ℕ → ℕ → List ℕ) → List Request → EngramCache → EngramCache
serve_all drive [] c = c
serve_all drive (q ∷ history) c = serve_all drive history (answer drive q c).0

IsFew : EngramTable → Type 0
IsFew table = table.rows ≤ 281474976710656

module _ {ℓ} {A : Type ℓ} where
  in_list : (xs : List A) (i : ℕ) (x : A) → get_elem? xs i ≡ some x → i < length xs
  in_list [] i x h = absurd (cc h)
  in_list (y ∷ xs) zero x h = omega arith
  in_list (y ∷ xs) (suc i) x h = omega (arith, in_list xs i x h)

  All-get_elem? {κ} :
      (P : A → Type κ) (xs : List A) (i : ℕ) (x : A) → All P xs → get_elem? xs i ≡ some x → P x
  All-get_elem? P [] i x all h = absurd (cc h)
  All-get_elem? P (y ∷ xs) zero x all h = let e : y ≡ x = cc h in subst P e all.0
  All-get_elem? P (y ∷ xs) (suc i) x all h = All-get_elem? P xs i x all.1 h

lookup_batch-IsKept :
    (reader : Reader) (c : EngramCache) (t : ℕ) (rows : List ℕ) (out : List (List ℕ))
    → IsKept c (lookup_batch reader c t rows out).0
unfolding lookup_batch
lookup_batch-IsKept reader c t rows out = elim (Option-cases (get_elem? c.tables t)) [
  | inl n ↦ rw n (refl, refl)
  | inr (table, found) ↦ elim (Bool-cases (length out == length rows)) [
    | inl same ↦
        rw (found, same)
          (IsKept-trans c (scan t table 0 rows (start c out)).0.cache
            (after_scan reader t (scan t table 0 rows (start c out))).0
            (scan-IsKept t table 0 rows (start c out))
            (after_scan-IsKept reader t (scan t table 0 rows (start c out))))
    | inr other ↦ rw (found, other) (refl, refl)
  ]
]

-- The batch leaves the cache consistent, whether it is served or fails.
lookup_batch-IsConsistent :
    (reader : Reader) (c : EngramCache) (t : ℕ) (rows : List ℕ) (out : List (List ℕ))
    → length c.tables ≤ 65535
    → All IsFew c.tables
    → IsConsistent reader.row c
    → IsConsistent reader.row (lookup_batch reader c t rows out).0
unfolding lookup_batch IsFew
lookup_batch-IsConsistent reader c t rows out most few good =
    elim (Option-cases (get_elem? c.tables t)) [
      | inl n ↦ rw n good
      | inr (table, found) ↦ elim (Bool-cases (length out == length rows)) [
        | inl same ↦
            let long : length out ≡ length rows = ground (arith, same) in
            let small : t < 65535 = omega (arith, in_list c.tables t table found, most) in
            rw (found, same)
              (after_scan-IsConsistent reader t rows out c table small
                (All-get_elem? IsFew c.tables t table few found) good long)
        | inr other ↦ rw (found, other) good
      ]
    ]

serve_all-IsConsistent :
    (drive : ℕ → ℕ → List ℕ) (history : List Request) (c : EngramCache)
    → length c.tables ≤ 65535
    → All IsFew c.tables
    → IsConsistent drive c
    → IsConsistent drive (serve_all drive history c) × IsKept c (serve_all drive history c)
unfolding serve_all
serve_all-IsConsistent drive [] c most few good = (good, (refl, refl))
serve_all-IsConsistent drive (q ∷ history) c most few good =
    let next = (answer drive q c).0 in
    let kept = lookup_batch-IsKept (reader_of drive q) c q.table_index q.rows q.out in
    let good_next =
      lookup_batch-IsConsistent (reader_of drive q) c q.table_index q.rows q.out most few good in
    let most_next : length next.tables ≤ 65535 = rw kept.0 most in
    let few_next : All IsFew next.tables = rw kept.0 few in
    let (later, kept_later) =
      serve_all-IsConsistent drive history next most_next few_next good_next in
    (later, IsKept-trans c next (serve_all drive history next) kept kept_later)

unless_failed :
    (bad : Bool) (reason : Error) (a z : EngramCache)
    → (if bad then err reason else ok a) ≡ ok z
    → a ≡ z
unless_failed true reason a z h = absurd (cc h)
unless_failed false reason a z h = ok_inj h

new_cache :
    (tables : List EngramTable) (engram_ram : ℕ) (c : EngramCache)
    → new tables engram_ram ≡ ok c
    → (weight_bytes : ℕ) × (scale_bytes : ℕ) × (num_sets : ℕ) × (cache_of tables weight_bytes
          scale_bytes num_sets
        ≡ c)
unfolding new
new_cache [] engram_ram c h = (0, 0, 0, ok_inj h)
new_cache (first ∷ tables) engram_ram c h =
    let weight_bytes = first.weight_len / first.rows in
    let scale_bytes = first.scale_len / first.rows in
    (
      weight_bytes,
      scale_bytes,
      engram_ram / bytes_per_set (weight_bytes + scale_bytes),
      unless_failed (has_other_widths weight_bytes scale_bytes tables) _ _ c h,
    )

cache_of-IsConsistent :
    (drive : ℕ → ℕ → List ℕ) (tables : List EngramTable) (w s n : ℕ)
    → IsConsistent drive (cache_of tables w s n)
cache_of-IsConsistent drive tables w s n =
    All-replicate (λ x. All (IsGood drive) x.ways) n empty_set
      (All-replicate (IsGood drive) engram_ways empty_way (inl refl))

no_read_fails :
    (reader : Reader) (t : ℕ) (ms : List Miss)
    → ((missing : List ℕ) → reader.fails t missing ≡ false)
    → reads_fail reader t ms ≡ false
no_read_fails reader t [] reads = refl
no_read_fails reader t (m ∷ ms) reads = reads (rows_of (m ∷ ms))

after_scan_answers :
    (reader : Reader) (t : ℕ) (rows : List ℕ) (out : List (List ℕ)) (c : EngramCache)
    (table : EngramTable)
    → t < 65535
    → table.rows ≤ 281474976710656
    → IsConsistent reader.row c
    → length out ≡ length rows
    → All (λ row. is_bad_row table row ≡ false) rows
    → ((missing : List ℕ) → reader.fails t missing ≡ false)
    → ((stats : EngramStats) × ((after_scan reader t (scan t table 0 rows (start c out))).2
          ≡ ok stats))
      × ((after_scan reader t (scan t table 0 rows (start c out))).1
          ≡ map (wanted reader t c.row_bytes) rows)
after_scan_answers reader t rows out c table small few good long rows_good reads =
    let z = scan t table 0 rows (start c out) in
    let ended = scan_ends reader t c.row_bytes rows table 0 rows (start c out) rows_good in
    let whole = (scanned reader t rows out c table small few good long).1 ended in
    let (_, done, right) =
      served reader t rows out c table small few good long z.0 whole
        (no_read_fails reader t z.0.misses reads) in
    subst
      (λ o.
        ((stats : EngramStats) × ((after_scan reader t (z.0, o)).2 ≡ ok stats))
        × ((after_scan reader t (z.0, o)).1 ≡ map (wanted reader t c.row_bytes) rows))
      (sym ended) (done, right)

-- A new cache of at most 65535 tables of at most 2^48 rows, after it has served any batches of any
-- tables, served or failed, over reads that failed or not, answers a batch whose rows are in the table
-- (or are skipped), into an output of the right length and with reads that succeed: for each row it
-- gives the bytes of the drive, or zeros if it is skipped, never those of another row or table.
pub engram_refines_drive :
    (drive : ℕ → ℕ → List ℕ) (tables : List EngramTable) (engram_ram : ℕ) (c : EngramCache)
    (history : List Request) (q : Request) (table : EngramTable)
    → new tables engram_ram ≡ ok c
    → length tables ≤ 65535
    → All (λ x. x.rows ≤ 281474976710656) tables
    → get_elem? tables q.table_index ≡ some table
    → length q.out ≡ length q.rows
    → All (λ row. is_bad_row table row ≡ false) q.rows
    → ((missing : List ℕ) → q.fails q.table_index missing ≡ false)
    → ((stats : EngramStats) × ((answer drive q (serve_all drive history c)).2 ≡ ok stats))
      × ((answer drive q (serve_all drive history c)).1
          ≡ map (wanted (reader_of drive q) q.table_index c.row_bytes) q.rows)
unfolding lookup_batch IsFew
engram_refines_drive drive tables engram_ram c history q table made most few found long rows_good
      reads =
    let (w, s, n, e) = new_cache tables engram_ram c made in
    let same : c.tables ≡ tables = ap EngramCache.tables (sym e) in
    let (good, kept) =
      serve_all-IsConsistent drive history c (rw same most) (rw same few)
        (subst (IsConsistent drive) e (cache_of-IsConsistent drive tables w s n)) in
    let now = serve_all drive history c in
    let found_now : get_elem? now.tables q.table_index ≡ some table = rw (kept.0, same) found in
    let fits : (length q.out == length q.rows) ≡ true = ground (arith, long) in
    let small : q.table_index < 65535 =
      omega (arith, in_list tables q.table_index table found, most) in
    let (done, right) =
      after_scan_answers (reader_of drive q) q.table_index q.rows q.out now table small
        (All-get_elem? IsFew tables q.table_index table few found) good long rows_good reads in
    rw (found_now, fits)
      (
        done,
        right ∙ ap (λ width. map (wanted (reader_of drive q) q.table_index width) q.rows) kept.1,
      )
