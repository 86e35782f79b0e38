-- ===== src/Engram/Scanned.antt =====
-- The first loop of a batch.
use chatty.Common.{
  ℕ, suc, ◌+◌, ◌≤◌, ◌<◌, ◌≡◌, ◌⊎◌, refl, sym, ◌∙◌, true, false, none, some, List, [], ◌∷◌, ◌==◌,
  length-set, set, length, drop, replicate, All, inl, inr, arith, Bool-cases, Option-cases,
}
use mathlib.Core.Path.{subst}
use chatty.Engram.Ways.{IsConsistent, probe_hit_found}
use chatty.Engram.{
  EngramTable, EngramCache, Reader, Scan, engram_skip_row, make_engram_tag, probe_hit, add_miss,
  after_lookup, scan_row, is_bad_row, scan,
}
use chatty.Engram.Batch.{
  Names, add_miss-Names, add_miss-Names_kept, drop_cons, wanted, IsRight, IsPlace, IsSound,
  wanted_small, IsRight-here, IsRight-kept, add_miss-IsSound,
}

module _ (reader : Reader) (t : ℕ) (width : ℕ) (rows : List ℕ) where
  -- What holds after the rows before `i`: each is right, or is to be written by a miss.
  pub record IsScanned (i : ℕ) (s : Scan) : Type 0 where
    pub consistent : IsConsistent reader.row s.cache
    pub wide : s.cache.row_bytes ≡ width
    pub long : length s.out ≡ length rows
    pub sound : All (IsSound reader t width rows) s.misses
    pub done : (j : ℕ) → j < i → IsRight reader t width rows s.out j ⊎ Names s.misses j

  written :
      (i : ℕ) (s : Scan) (row : ℕ) (v : List ℕ) (c : EngramCache)
      → IsScanned i s
      → IsPlace reader t width rows row i
      → v ≡ wanted reader t width row
      → IsConsistent reader.row c
      → c.row_bytes ≡ width
      → (z : Scan) → z.cache ≡ c
      → z.out ≡ set s.out i v
      → z.misses ≡ s.misses
      → IsScanned (suc i) z
  written i s row v c h place e good wide z ec eo em = record {
    consistent = rw ec good;
    wide = rw ec wide;
    long = rw eo (length-set s.out i v ∙ h.long);
    sound = rw em h.sound;
    done = λ j lt. elim (Bool-cases (j == i)) [
      | inl same ↦
          let eq : i ≡ j = ground (arith, same) in
          inl (
            rw eo (
              subst (IsRight reader t width rows (set s.out i v)) eq
                (IsRight-here reader t width rows s.out row i v h.long place e)))
      | inr other ↦
          let before : j < i = ground (arith, lt, other) in
          elim (h.done j before) [
            | inl right ↦
                inl (rw eo (IsRight-kept reader t width rows s.out row i v j h.long place e right))
            | inr named ↦ inr (rw em named)
          ]
    ];
  }

  missed :
      (i row : ℕ) (s : Scan)
      → IsScanned i s
      → IsPlace reader t width rows row i
      → row < 281474976710656
      → IsScanned (suc i) (after_lookup s i row none)
  missed i row s h place small = record {
    consistent = h.consistent;
    wide = h.wide;
    long = h.long;
    sound = add_miss-IsSound reader t width rows row i s.misses small place h.sound;
    done = λ j lt. elim (Bool-cases (j == i)) [
      | inl same ↦
          let eq : i ≡ j = ground (arith, same) in
          inr (subst (Names (add_miss row i s.misses)) eq (add_miss-Names row i s.misses))
      | inr other ↦
          let before : j < i = ground (arith, lt, other) in
          elim (h.done j before) [
            | inl right ↦ inl right
            | inr named ↦ inr (add_miss-Names_kept row i s.misses j named)
          ]
    ];
  }

  scan_row-IsScanned :
      (i row : ℕ) (s : Scan)
      → t < 65535
      → IsScanned i s
      → IsPlace reader t width rows row i
      → (row ≡ engram_skip_row) ⊎ (row < 281474976710656)
      → IsScanned (suc i) (scan_row t i row s)
  scan_row-IsScanned i row s index_small h place (inl skip) =
      let test : (row == engram_skip_row) ≡ true = ground (arith, skip) in
      rw test (
        written i s row (replicate s.cache.row_bytes 0) s.cache h place (rw (test, h.wide) refl)
          h.consistent h.wide (record s { out = set s.out i (replicate s.cache.row_bytes 0) }) refl
          refl refl)
  scan_row-IsScanned i row s index_small h place (inr small) =
      let test : (row == engram_skip_row) ≡ false = ground (arith, small) in
      elim (Option-cases (probe_hit s.cache (make_engram_tag t row))) [
        | inl n ↦ rw (test, n) (missed i row s h place small)
        | inr ((payload, c), found) ↦
            let (known, good, wide) =
              probe_hit_found reader.row s.cache t row payload c index_small small h.consistent
                found in
            rw (test, found)
              (written i s row payload c h place
                (known ∙ sym (wanted_small reader t width rows row small)) good (sym wide ∙ h.wide)
                (after_lookup s i row (some (payload, c))) refl refl refl)
      ]

  is_good_row :
      (table : EngramTable) (row : ℕ)
      → table.rows ≤ 281474976710656
      → is_bad_row table row ≡ false
      → (row ≡ engram_skip_row) ⊎ (row < 281474976710656)
  is_good_row table row le h = elim (Bool-cases (row == engram_skip_row)) [
    | inl same ↦ inl (ground (arith, same))
    | inr other ↦ inr (ground (arith, h, other, le))
  ]

  -- Whatever ends the loop the cache is consistent, and the end of the rows leaves them all scanned.
  pub scan-IsScanned :
      (table : EngramTable) (i : ℕ) (ws : List ℕ) (s : Scan)
      → t < 65535
      → table.rows ≤ 281474976710656
      → drop i rows ≡ ws
      → IsScanned i s
      → IsConsistent reader.row (scan t table i ws s).0.cache
        × ((scan t table i ws s).1 ≡ none → IsScanned (i + length ws) (scan t table i ws s).0)
  unfolding scan
  scan-IsScanned table i [] s index_small le at h =
      let e : i + 0 ≡ i = omega arith in (h.consistent, λ ended. rw e h)
  scan-IsScanned table i (row ∷ ws) s index_small le at h =
      let (here, lt, later) = drop_cons i rows row ws at in
      let next : i + 1 ≡ suc i = omega arith in
      let count : i + suc (length ws) ≡ suc i + length ws = omega arith in
      elim (Bool-cases (is_bad_row table row)) [
        | inl bad ↦ rw bad (h.consistent, λ ended. absurd (cc ended))
        | inr good ↦
            let scanned =
              scan_row-IsScanned i row s index_small h (here, lt) (is_good_row table row le good) in
            rw (good, next, count)
              (scan-IsScanned table (suc i) ws (scan_row t i row s) index_small le later scanned)
      ]

  pub scan_ends :
      (table : EngramTable) (i : ℕ) (ws : List ℕ) (s : Scan)
      → All (λ row. is_bad_row table row ≡ false) ws
      → (scan t table i ws s).1 ≡ none
  unfolding scan
  scan_ends table i [] s good = refl
  scan_ends table i (row ∷ ws) s (here, good) =
      rw here (scan_ends table (i + 1) ws (scan_row t i row s) good)
