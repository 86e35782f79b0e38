-- ===== src/Engram/Ways.antt =====
-- What the ways of the cache hold: nothing, or the bytes of the row of their tag.
use chatty.Common.{
  ℕ, zero, suc, ◌+◌, ◌%◌, ◌<◌, ◌≡◌, ◌⊎◌, refl, sym, ◌∙◌, ap, true, false, ◌||◌, Option, none, some,
  List, [], ◌∷◌, ◌==◌, get_or, set, replicate, All, inl, inr, arith, Bool-cases,
}
use mathlib.Core.Path.{subst}
use chatty.Engram.Tags.{make_engram_tag_inj, make_engram_tag_ne}
use chatty.Engram.{
  Way, WaySet, EngramCache, make_engram_tag, probe, put_way, after_probe, with_set, probe_hit,
  set_index, fill, put_first, sweep, insert_into, insert_row, empty_way, empty_set, engram_ways,
}

-- The tag of a row that the bytes are those of.
abbrev pub IsTagged : (ℕ → ℕ → List ℕ) → ℕ → List ℕ → Type 0
IsTagged drive tag payload =
    (t : ℕ) × (r : ℕ) × (t < 65535)
    × (r < 281474976710656)
    × (tag ≡ make_engram_tag t r)
    × (payload ≡ drive t r)

abbrev pub IsGood : (ℕ → ℕ → List ℕ) → Way → Type 0
IsGood drive w = (w.tag ≡ 0) ⊎ IsTagged drive w.tag w.payload

abbrev pub IsConsistent : (ℕ → ℕ → List ℕ) → EngramCache → Type 0
IsConsistent drive c = All (λ s. All (IsGood drive) s.ways) c.sets

module _ {ℓ κ} {A : Type ℓ} (P : A → Type κ) where
  pub All-set : (xs : List A) (i : ℕ) (v : A) → All P xs → P v → All P (set xs i v)
  All-set [] i v all p = tt
  All-set (x ∷ xs) zero v all p = (p, all.1)
  All-set (x ∷ xs) (suc i) v all p = (all.0, All-set xs i v all.1 p)

  pub All-get_or : (xs : List A) (i : ℕ) (d : A) → All P xs → P d → P (get_or xs i d)
  All-get_or [] i d all p = p
  All-get_or (x ∷ xs) zero d all p = all.0
  All-get_or (x ∷ xs) (suc i) d all p = All-get_or xs i d all.1 p

  pub All-replicate : (n : ℕ) (a : A) → P a → All P (replicate n a)
  All-replicate zero a p = tt
  All-replicate (suc n) a p = (p, All-replicate n a p)

put_way_passed :
    (w : Way) (o : Option (List ℕ × List Way)) (payload : List ℕ) (after : List Way)
    → put_way w o ≡ some (payload, after)
    → (ways : List Way) × (o ≡ some (payload, ways)) × (w ∷ ways ≡ after)
put_way_passed w none payload after h = absurd (cc h)
put_way_passed w (some (p, ways)) payload after h = (ways, cc h, cc h)

pub after_probe_passed :
    (c : EngramCache) (index : ℕ) (s : WaySet) (o : Option (List ℕ × List Way)) (payload : List ℕ)
    (after : EngramCache)
    → after_probe c index s o ≡ some (payload, after)
    → (ways : List Way) × (o ≡ some (payload, ways))
      × (with_set c index (record s { ways = ways }) ≡ after)
after_probe_passed c index s none payload after h = absurd (cc h)
after_probe_passed c index s (some (p, ways)) payload after h = (ways, cc h, cc h)

put_first_passed :
    (w : Way) (o : Option (List Way)) (after : List Way)
    → put_first w o ≡ some after
    → (ways : List Way) × (o ≡ some ways) × (w ∷ ways ≡ after)
put_first_passed w none after h = absurd (cc h)
put_first_passed w (some ways) after h = (ways, refl, cc h)

module _ (drive : ℕ → ℕ → List ℕ) where
  empty_set-IsGood : All (IsGood drive) empty_set.ways
  empty_set-IsGood = All-replicate (IsGood drive) engram_ways empty_way (inl refl)

  module _ (t r : ℕ) (lt : t < 65535) (small : r < 281474976710656) where
    probe_found :
        (ways : List Way) (payload : List ℕ) (after : List Way)
        → All (IsGood drive) ways
        → probe (make_engram_tag t r) ways ≡ some (payload, after)
        → (payload ≡ drive t r) × All (IsGood drive) after
    unfolding probe
    probe_found [] payload after all h = absurd (cc h)
    probe_found (w ∷ ways) payload after all h = elim (Bool-cases (w.tag == make_engram_tag t r)) [
      | inl same ↦
          let e : w.tag ≡ make_engram_tag t r = ground (arith, same) in
          let hit : List ℕ × List Way = (w.payload, record w { used = true } ∷ ways) in
          let given : List ℕ × List Way = (payload, after) in
          let out : some hit ≡ some given = ground (arith, h, same) in
          let known : w.payload ≡ payload = cc out in
          let kept : record w { used = true } ∷ ways ≡ after = cc out in
          (sym known ∙ bytes e all.0, subst (All (IsGood drive)) kept all)
      | inr other ↦
          let (later, found, e) =
            put_way_passed w (probe (make_engram_tag t r) ways) payload after
              (ground (arith, h, other)) in
          let (known, good) = probe_found ways payload later all.1 found in
          (known, subst (All (IsGood drive)) e (all.0, good))
    ]
      where
        bytes : w.tag ≡ make_engram_tag t r → IsGood drive w → w.payload ≡ drive t r
        bytes e (inl blank) = absurd (make_engram_tag_ne t r lt small (sym e ∙ blank))
        bytes e (inr (u, q, lu, smaller, tagged, known)) =
            let (eu, eq) = make_engram_tag_inj t r u q lt small lu smaller (sym e ∙ tagged) in
            known ∙ ap (λ z. drive z q) (sym eu) ∙ ap (λ z. drive t z) (sym eq)

    fill-IsGood :
        (ways after : List Way)
        → All (IsGood drive) ways
        → fill (make_engram_tag t r) (drive t r) ways ≡ some after
        → All (IsGood drive) after
    unfolding fill
    fill-IsGood [] after all h = absurd (cc h)
    fill-IsGood (w ∷ ways) after all h =
        elim (Bool-cases (w.tag == 0 || w.tag == make_engram_tag t r)) [
          | inl taken ↦
              let new_way : Way = record {
                tag = make_engram_tag t r;
                used = true;
                payload = drive t r;
              } in
              let e : some (new_way ∷ ways) ≡ some after = ground (arith, h, taken) in
              let kept : new_way ∷ ways ≡ after = cc e in
              subst (All (IsGood drive)) kept (inr (t, r, lt, small, refl, refl), all.1)
          | inr other ↦
              let (later, found, e) =
                put_first_passed w (fill (make_engram_tag t r) (drive t r) ways) after
                  (ground (arith, h, other)) in
              subst (All (IsGood drive)) e (all.0, fill-IsGood ways later all.1 found)
        ]

  sweep-IsGood :
      (fuel : ℕ) (ways : List Way) (hand : ℕ)
      → All (IsGood drive) ways
      → All (IsGood drive) (sweep fuel ways hand).0
  unfolding sweep
  sweep-IsGood zero ways hand all = all
  sweep-IsGood (suc fuel) ways hand all =
      let w = get_or ways hand empty_way in
      let good = All-get_or (IsGood drive) ways hand empty_way all (inl refl) in
      elim (Bool-cases w.used) [
        | inl used ↦ rw used (
            sweep-IsGood fuel (set ways hand (record w { used = false })) ((hand + 1) % engram_ways)
              (All-set (IsGood drive) ways hand (record w { used = false }) all good))
        | inr free ↦ rw free all
      ]

  set-IsGood :
      (c : EngramCache) (index : ℕ)
      → IsConsistent drive c
      → All (IsGood drive) (get_or c.sets index empty_set).ways
  set-IsGood c index good =
      All-get_or (λ s. All (IsGood drive) s.ways) c.sets index empty_set good empty_set-IsGood

  -- A hit gives the bytes of the row.
  pub probe_hit_found :
      (c : EngramCache) (t r : ℕ) (payload : List ℕ) (after : EngramCache)
      → t < 65535
      → r < 281474976710656
      → IsConsistent drive c
      → probe_hit c (make_engram_tag t r) ≡ some (payload, after)
      → (payload ≡ drive t r) × IsConsistent drive after × (c.row_bytes ≡ after.row_bytes)
  unfolding probe_hit
  probe_hit_found c t r payload after lt small good h =
      let tag = make_engram_tag t r in
      let index = set_index c.num_sets tag in
      let s = get_or c.sets index empty_set in
      elim (Bool-cases (c.num_sets == 0)) [
        | inl nothing ↦ absurd (ground (arith, h, nothing))
        | inr some_sets ↦
            let (ways, found, e) =
              after_probe_passed c index s (probe tag s.ways) payload after
                (ground (arith, h, some_sets)) in
            let (known, kept) =
              probe_found t r lt small s.ways payload ways (set-IsGood c index good) found in
            (
              known,
              subst (IsConsistent drive) e (
                  All-set (λ x. All (IsGood drive) x.ways) c.sets index (record s { ways = ways })
                    good kept),
              ap EngramCache.row_bytes e,
            )
      ]

  pub insert_row-IsConsistent :
      (c : EngramCache) (t r : ℕ)
      → t < 65535
      → r < 281474976710656
      → IsConsistent drive c
      → IsConsistent drive (insert_row c (make_engram_tag t r) (drive t r)).0
  unfolding insert_row
  insert_row-IsConsistent c t r lt small good =
      let tag = make_engram_tag t r in
      let index = set_index c.num_sets tag in
      let s = get_or c.sets index empty_set in
      All-set (λ x. All (IsGood drive) x.ways) c.sets index
        (insert_into tag (drive t r) s (fill tag (drive t r) s.ways)).0 good
        (into s (fill tag (drive t r) s.ways) (set-IsGood c index good)
          (λ ways e. fill-IsGood t r lt small s.ways ways (set-IsGood c index good) e))
    where
      into :
          (s : WaySet) (o : Option (List Way))
          → All (IsGood drive) s.ways
          → ((ways : List Way) → o ≡ some ways → All (IsGood drive) ways)
          → All (IsGood drive) (insert_into (make_engram_tag t r) (drive t r) s o).0.ways
      into s none all filled =
          let (ways, victim) = sweep (engram_ways + 1) s.ways s.hand in
          All-set (IsGood drive) ways victim _ (sweep-IsGood (engram_ways + 1) s.ways s.hand all)
            (inr (t, r, lt, small, refl, refl))
      into s (some ways) all filled = filled ways refl
