-- ===== src/Engram.antt =====
-- The cache of n-gram rows, EngramCache of crates/chatty-metal/src/store.rs. A set is its ways with
-- their reference bits and the hand of its clock; the output of a batch is the list of its rows.
pub mod Tags
pub mod Ways
pub mod Batch
pub mod Scanned
pub mod Store
pub mod Refine
pub mod History
pub mod Contract
pub mod Clock
mod Runs
pub use chatty.Common.Fallible.{Result, ok, err}
use Prim.Native.Nat.{bit_or, bit_xor}
use chatty.Common.{
  ℕ, zero, suc, ◌+◌, ◌-◌, ◌*◌, ◌/◌, ◌%◌, ◌^◌, Bool, true, false, ◌&&◌, ◌||◌, not, Option, none,
  some, List, [], ◌∷◌, ◌++◌, map,
}
use chatty.Common.{ltb, leb, ◌==◌, if◌then◌else◌, length, get_elem?, get_or, set, replicate}

pub data Error : Type 0 where
  inconsistent_tables no_table bad_output read_failed : Error
  row_out_of_bounds : ℕ → Error

pub record EngramTable : Type 0 where
  pub layer : ℕ
  pub rows : ℕ
  pub weight_len : ℕ
  pub scale_len : ℕ

pub record EngramStats : Type 0 where
  pub hits : ℕ
  pub misses : ℕ
  pub unique_misses : ℕ
  pub evictions : ℕ
  pub bytes_read : ℕ

pub record Way : Type 0 where
  pub tag : ℕ
  pub used : Bool
  pub payload : List ℕ

pub record WaySet : Type 0 where
  pub hand : ℕ
  pub ways : List Way

pub record EngramCache : Type 0 where
  pub tables : List EngramTable
  pub weight_bytes : ℕ
  pub scale_bytes : ℕ
  pub row_bytes : ℕ
  pub num_sets : ℕ
  pub sets : List WaySet
  pub stats : EngramStats

-- What `Reader::read_raw` does: the bytes of the rows of a table, and which reads fail.
pub record Reader : Type 0 where
  pub row : ℕ → ℕ → List ℕ
  pub fails : ℕ → List ℕ → Bool

abbrev pub engram_ways : ℕ
engram_ways = 8

abbrev pub engram_skip_row : ℕ
engram_skip_row = 2 ^ 64 - 1

abbrev pub no_stats : EngramStats
no_stats = record { hits = 0; misses = 0; unique_misses = 0; evictions = 0; bytes_read = 0 }

abbrev pub empty_way : Way
empty_way = record { tag = 0; used = false; payload = [] }

abbrev pub empty_set : WaySet
empty_set = record { hand = 0; ways = replicate engram_ways empty_way }

unfoldable pub has_other_widths : ℕ → ℕ → List EngramTable → Bool
has_other_widths weight_bytes scale_bytes [] = false
has_other_widths weight_bytes scale_bytes (table ∷ tables) =
    not (table.weight_len / table.rows == weight_bytes)
    || not (table.scale_len / table.rows == scale_bytes)
    || has_other_widths weight_bytes scale_bytes tables

-- 8 tags of 8 bytes, the clock, and 8 rows.
abbrev pub bytes_per_set : ℕ → ℕ
bytes_per_set row_bytes = engram_ways * 8 + 2 + engram_ways * row_bytes

abbrev pub cache_of : List EngramTable → ℕ → ℕ → ℕ → EngramCache
cache_of tables weight_bytes scale_bytes num_sets = record {
  tables = tables;
  weight_bytes = weight_bytes;
  scale_bytes = scale_bytes;
  row_bytes = weight_bytes + scale_bytes;
  num_sets = num_sets;
  sets = replicate num_sets empty_set;
  stats = no_stats;
}

-- `EngramCache::new`, of the tables of the catalog and the RAM of the plan.
unfoldable pub new : List EngramTable → ℕ → Result Error EngramCache
new [] engram_ram = ok (cache_of [] 0 0 0)
new (first ∷ tables) engram_ram =
    let weight_bytes = first.weight_len / first.rows in
    let scale_bytes = first.scale_len / first.rows in
    if has_other_widths weight_bytes scale_bytes tables
    then err inconsistent_tables
    else ok (
        cache_of (first ∷ tables) weight_bytes scale_bytes
          (engram_ram / bytes_per_set (weight_bytes + scale_bytes)))

-- The index shifted to the high 16 bits, or'ed with the row: only the row's high bits meet it.
unfoldable pub make_engram_tag : ℕ → ℕ → ℕ
make_engram_tag table_index row =
    (1 + (bit_or (row / 2 ^ 48) (table_index % 2 ^ 16) * 2 ^ 48 + row % 2 ^ 48)) % 2 ^ 64

unfoldable pub mix64 : ℕ → ℕ
mix64 x =
    let a = bit_xor x (x / 2 ^ 30) * 13787848793156543929 % 2 ^ 64 in
    let b = bit_xor a (a / 2 ^ 27) * 10723151780598845931 % 2 ^ 64 in bit_xor b (b / 2 ^ 31)

unfoldable pub set_index : ℕ → ℕ → ℕ
set_index num_sets tag = mix64 tag * num_sets / 2 ^ 64

abbrev pub put_way : Way → Option (List ℕ × List Way) → Option (List ℕ × List Way)
put_way w none = none
put_way w (some (payload, ways)) = some (payload, w ∷ ways)

-- The loop of `probe_hit` over the ways of a set.
unfoldable pub probe : ℕ → List Way → Option (List ℕ × List Way)
probe tag [] = none
probe tag (w ∷ ways) =
    let later = probe tag ways in
    if w.tag == tag then some (w.payload, record w { used = true } ∷ ways) else put_way w later

abbrev pub with_set : EngramCache → ℕ → WaySet → EngramCache
with_set c index s = record c { sets = set c.sets index s }

abbrev pub after_probe :
    EngramCache → ℕ → WaySet → Option (List ℕ × List Way) → Option (List ℕ × EngramCache)
after_probe c index s none = none
after_probe c index s (some (payload, ways)) =
    some (payload, with_set c index (record s { ways = ways }))

-- `probe_hit`
unfoldable pub probe_hit : EngramCache → ℕ → Option (List ℕ × EngramCache)
probe_hit c tag =
    if c.num_sets == 0
    then none
    else (let index = set_index c.num_sets tag in
        let s = get_or c.sets index empty_set in after_probe c index s (probe tag s.ways))

abbrev pub put_first : Way → Option (List Way) → Option (List Way)
put_first w none = none
put_first w (some ways) = some (w ∷ ways)

-- The first loop of `insert_row`: a way that is empty or has the tag.
unfoldable pub fill : ℕ → List ℕ → List Way → Option (List Way)
fill tag row_data [] = none
fill tag row_data (w ∷ ways) =
    let later = fill tag row_data ways in
    if w.tag == 0 || w.tag == tag
    then some (record { tag = tag; used = true; payload = row_data } ∷ ways)
    else put_first w later

-- The loop that looks for a victim; it clears the reference bits that it passes.
unfoldable pub sweep : ℕ → List Way → ℕ → List Way × ℕ
sweep zero ways hand = (ways, hand)
sweep (suc fuel) ways hand =
    let w = get_or ways hand empty_way in
    let later = sweep fuel (set ways hand (record w { used = false })) ((hand + 1) % engram_ways) in
    if w.used then later else (ways, hand)

abbrev pub evict : ℕ → List ℕ → List Way × ℕ → WaySet
evict tag row_data (ways, victim) = record {
  hand = (victim + 1) % engram_ways;
  ways = set ways victim (record { tag = tag; used = true; payload = row_data });
}

-- Nine rounds: after eight every bit is clear.
abbrev pub insert_into : ℕ → List ℕ → WaySet → Option (List Way) → WaySet × Bool
insert_into tag row_data s (some ways) = (record s { ways = ways }, false)
insert_into tag row_data s none = (evict tag row_data (sweep (engram_ways + 1) s.ways s.hand), true)

-- `insert_row`
unfoldable pub insert_row : EngramCache → ℕ → List ℕ → EngramCache × Bool
insert_row c tag row_data =
    let index = set_index c.num_sets tag in
    let s = get_or c.sets index empty_set in
    let (inserted, evicted) = insert_into tag row_data s (fill tag row_data s.ways) in
    (with_set c index inserted, evicted)

-- A row that has to be read: its first place in the output, and the others.
pub record Miss : Type 0 where
  pub row : ℕ
  pub first : ℕ
  pub extras : List ℕ

-- `misses` with `miss_order`: the entries in the order of their first rows.
unfoldable pub add_miss : ℕ → ℕ → List Miss → List Miss
add_miss row i [] = record { row = row; first = i; extras = [] } ∷ []
add_miss row i (m ∷ ms) =
    let later = add_miss row i ms in
    if m.row == row then record m { extras = m.extras ++ (i ∷ []) } ∷ ms else m ∷ later

pub record Scan : Type 0 where
  pub cache : EngramCache
  pub out : List (List ℕ)
  pub batch_stats : EngramStats
  pub misses : List Miss

abbrev pub after_lookup : Scan → ℕ → ℕ → Option (List ℕ × EngramCache) → Scan
after_lookup s i row (some (payload, c)) = record s {
  cache = c;
  out = set s.out i payload;
  batch_stats = record s.batch_stats { hits = s.batch_stats.hits + 1 };
}
after_lookup s i row none = record s {
  batch_stats = record s.batch_stats { misses = s.batch_stats.misses + 1 };
  misses = add_miss row i s.misses;
}

abbrev pub scan_row : ℕ → ℕ → ℕ → Scan → Scan
scan_row table_index i row s =
    if row == engram_skip_row
    then record s { out = set s.out i (replicate s.cache.row_bytes 0) }
    else after_lookup s i row (probe_hit s.cache (make_engram_tag table_index row))

abbrev pub is_bad_row : EngramTable → ℕ → Bool
is_bad_row table row = not (row == engram_skip_row) && leb table.rows row

-- The first loop of `lookup_batch`; a bad row ends it.
unfoldable pub scan : ℕ → EngramTable → ℕ → List ℕ → Scan → Scan × Option Error
scan table_index table i [] s = (s, none)
scan table_index table i (row ∷ rows) s =
    let rest = scan table_index table (i + 1) rows (scan_row table_index i row s) in
    if is_bad_row table row then (s, some (row_out_of_bounds row)) else rest

-- The reads, each to the first place of its row.
unfoldable pub read_rows : Reader → ℕ → List Miss → List (List ℕ) → List (List ℕ)
read_rows reader table_index [] out = out
read_rows reader table_index (m ∷ ms) out =
    read_rows reader table_index ms (set out m.first (reader.row table_index m.row))

unfoldable pub fan_out : ℕ → List ℕ → List (List ℕ) → List (List ℕ)
fan_out first [] out = out
fan_out first (dup ∷ extras) out = fan_out first extras (set out dup (get_or out first []))

abbrev pub insert_missed : ℕ → Miss → List (List ℕ) → EngramCache → EngramCache × Bool
insert_missed table_index m out c =
    if ltb 0 c.num_sets
    then insert_row c (make_engram_tag table_index m.row) (get_or out m.first [])
    else (c, false)

abbrev pub count_eviction : Bool → EngramStats → EngramStats
count_eviction evicted stats =
    if evicted then record stats { evictions = stats.evictions + 1 } else stats

-- The last loop, over the misses.
unfoldable pub store : ℕ → List Miss → Scan → Scan
store table_index [] s = s
store table_index (m ∷ ms) s =
    let inserted = insert_missed table_index m s.out s.cache in
    store table_index ms (record s {
      cache = inserted.0;
      out = fan_out m.first m.extras s.out;
      batch_stats = count_eviction inserted.1 s.batch_stats;
    })

unfoldable pub rows_of : List Miss → List ℕ
rows_of [] = []
rows_of (m ∷ ms) = m.row ∷ rows_of ms

abbrev pub count_reads : ℕ → List Miss → EngramStats → EngramStats
count_reads row_bytes ms stats = record stats {
  unique_misses = length ms;
  bytes_read = length ms * row_bytes;
}

abbrev pub add_stats : EngramStats → EngramStats → EngramStats
add_stats a b = record {
  hits = a.hits + b.hits;
  misses = a.misses + b.misses;
  unique_misses = a.unique_misses + b.unique_misses;
  evictions = a.evictions + b.evictions;
  bytes_read = a.bytes_read + b.bytes_read;
}

-- Nothing is read when nothing is missed.
abbrev pub reads_fail : Reader → ℕ → List Miss → Bool
reads_fail reader table_index [] = false
reads_fail reader table_index (m ∷ ms) = reader.fails table_index (rows_of (m ∷ ms))

-- What a batch leaves: the cache, the output (of no meaning after an error), and the result.
abbrev pub Batch : Type 0
Batch = EngramCache × List (List ℕ) × Result Error EngramStats

abbrev pub finish : Scan → Batch
finish s =
    (record s.cache { stats = add_stats s.cache.stats s.batch_stats }, s.out, ok s.batch_stats)

abbrev pub after_scan : Reader → ℕ → Scan × Option Error → Batch
after_scan reader table_index (s, some e) = (s.cache, s.out, err e)
after_scan reader table_index (s, none) =
    if reads_fail reader table_index s.misses
    then (s.cache, s.out, err read_failed)
    else finish (
        store table_index s.misses (record s {
          out = read_rows reader table_index s.misses s.out;
          batch_stats = count_reads s.cache.row_bytes s.misses s.batch_stats;
        }))

abbrev pub batch_of : Reader → EngramCache → ℕ → List ℕ → List (List ℕ) → Option EngramTable → Batch
batch_of reader c table_index rows out none = (c, out, err no_table)
batch_of reader c table_index rows out (some table) =
    if not (length out == length rows)
    then (c, out, err bad_output)
    else after_scan reader table_index (
        scan table_index table 0 rows
          (record { cache = c; out = out; batch_stats = no_stats; misses = [] }))

-- `lookup_batch`
unfoldable pub lookup_batch : Reader → EngramCache → ℕ → List ℕ → List (List ℕ) → Batch
lookup_batch reader c table_index rows out =
    batch_of reader c table_index rows out (get_elem? c.tables table_index)
