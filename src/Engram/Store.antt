-- ===== src/Engram/Store.antt =====
-- The reads of a batch, and its last loop.
use chatty.Common.{
  ℕ, zero, suc, ◌<◌, ◌≡◌, sym, ◌∙◌, ap, some, List, [], ◌∷◌, ltb, get_elem?, length-set, get_or,
  set, length, All, All_map, inl, inr, Bool-cases,
}
use mathlib.Core.Path.{subst}
use chatty.Engram.Ways.{IsConsistent, insert_row-IsConsistent}
use chatty.Engram.{Reader, Miss, Scan, read_rows, fan_out, insert_missed, count_eviction, store}
use chatty.Engram.Batch.{
  Has, Names, wanted, IsRight, IsPlace, IsSound, wanted_small, IsRight-here, IsRight-kept,
}

module _ (reader : Reader) (t : ℕ) (width : ℕ) (rows : List ℕ) where
  pub read_rows-IsRight :
      (ms : List Miss) (out : List (List ℕ))
      → All (IsSound reader t width rows) ms
      → length out ≡ length rows
      → (length (read_rows reader t ms out) ≡ length rows)
        × ((j : ℕ)
            → IsRight reader t width rows out j
            → IsRight reader t width rows (read_rows reader t ms out) j)
        × All (λ m. IsRight reader t width rows (read_rows reader t ms out) m.first) ms
  unfolding read_rows
  read_rows-IsRight [] out sound long = (long, λ j right. right, tt)
  read_rows-IsRight (m ∷ ms) out (first, sound) long =
      let e = sym (wanted_small reader t width rows m.row first.0) in
      let after = set out m.first (reader.row t m.row) in
      let (still, kept, others) =
        read_rows-IsRight ms after sound (length-set out m.first (reader.row t m.row) ∙ long) in
      (
        still,
        λ j right. kept j (
            IsRight-kept reader t width rows out m.row m.first (reader.row t m.row) j long first.1 e
              right),
        (
          kept m.first (
              IsRight-here reader t width rows out m.row m.first (reader.row t m.row) long first.1
                e),
          others,
        ),
      )

  get_or_right :
      (out : List (List ℕ)) (j : ℕ) (v : List ℕ) → get_elem? out j ≡ some v → get_or out j [] ≡ v
  get_or_right [] j v h = absurd (cc h)
  get_or_right (x ∷ out) zero v h = cc h
  get_or_right (x ∷ out) (suc j) v h = get_or_right out j v h

  fan_out-IsRight :
      (row first : ℕ) (extras : List ℕ) (out : List (List ℕ))
      → IsPlace reader t width rows row first
      → All (IsPlace reader t width rows row) extras
      → length out ≡ length rows
      → IsRight reader t width rows out first
      → (length (fan_out first extras out) ≡ length rows)
        × ((j : ℕ)
            → IsRight reader t width rows out j
            → IsRight reader t width rows (fan_out first extras out) j)
        × ((j : ℕ) → Has extras j → IsRight reader t width rows (fan_out first extras out) j)
  unfolding fan_out
  fan_out-IsRight row first [] out place places long right = (long, λ j r. r, λ j has. elim has [ ])
  fan_out-IsRight row first (dup ∷ extras) out place (here, places) long right =
      let v = get_or out first [] in
      let e : v ≡ wanted reader t width row =
        get_or_right out first _ right ∙ ap (wanted reader t width) (sym place.0) in
      let kept_here : (j : ℕ)
          → IsRight reader t width rows out j
          → IsRight reader t width rows (set out dup v) j =
        λ j r. IsRight-kept reader t width rows out row dup v j long here e r in
      let (still, kept, fanned) =
        fan_out-IsRight row first extras (set out dup v) place places (length-set out dup v ∙ long)
          (kept_here first right) in
      (
        still,
        λ j r. kept j (kept_here j r),
        λ j has. elim has [
          | inl eq ↦ kept j (
              subst (IsRight reader t width rows (set out dup v)) eq
                (IsRight-here reader t width rows out row dup v long here e))
          | inr later ↦ fanned j later
        ],
      )

  insert_good :
      (m : Miss) (s : Scan)
      → t < 65535
      → IsSound reader t width rows m
      → IsRight reader t width rows s.out m.first
      → IsConsistent reader.row s.cache
      → IsConsistent reader.row (insert_missed t m s.out s.cache).0
  insert_good m s index_small sound right good = elim (Bool-cases (ltb 0 s.cache.num_sets)) [
    | inl sets ↦
        let e : get_or s.out m.first [] ≡ reader.row t m.row =
          get_or_right s.out m.first _ right
          ∙ ap (wanted reader t width) (sym sound.1.0)
          ∙ wanted_small reader t width rows m.row sound.0 in
        rw (sets, e) (insert_row-IsConsistent reader.row s.cache t m.row index_small sound.0 good)
    | inr no_sets ↦ rw no_sets good
  ]

  pub store-IsRight :
      (ms : List Miss) (s : Scan)
      → t < 65535
      → All (IsSound reader t width rows) ms
      → length s.out ≡ length rows
      → IsConsistent reader.row s.cache
      → All (λ m. IsRight reader t width rows s.out m.first) ms
      → IsConsistent reader.row (store t ms s).cache
        × (length (store t ms s).out ≡ length rows)
        × ((j : ℕ)
            → IsRight reader t width rows s.out j
            → IsRight reader t width rows (store t ms s).out j)
        × ((j : ℕ) → Names ms j → IsRight reader t width rows (store t ms s).out j)
  unfolding store
  store-IsRight [] s index_small sound long good firsts =
      (good, long, λ j r. r, λ j named. elim named [ ])
  store-IsRight (m ∷ ms) s index_small (sound, others) long good (right, firsts) =
      let (fan_long, fan_kept, fanned) =
        fan_out-IsRight m.row m.first m.extras s.out sound.1 sound.2 long right in
      let inserted = insert_missed t m s.out s.cache in
      let after : Scan = record s {
        cache = inserted.0;
        out = fan_out m.first m.extras s.out;
        batch_stats = count_eviction inserted.1 s.batch_stats;
      } in
      let still =
        All_map _ (λ x. IsRight reader t width rows (fan_out m.first m.extras s.out) x.first) ms
          (λ x r. fan_kept x.first r) firsts in
      let (kept_good, kept_long, kept, named) =
        store-IsRight ms after index_small others fan_long
          (insert_good m s index_small sound right good) still in
      (
        kept_good,
        kept_long,
        λ j r. kept j (fan_kept j r),
        λ j names. elim names [
          | inl eq ↦ kept j (
              subst (IsRight reader t width rows (fan_out m.first m.extras s.out)) eq
                (fan_kept m.first right))
          | inr (inl has) ↦ kept j (fanned j has)
          | inr (inr later) ↦ named j later
        ],
      )
