-- ===== src/Tokenizer/Merging.antt =====
-- The merging loop ends, with nothing left to merge.
use chatty.Common.{
  ℕ, zero, suc, ◌+◌, ◌-◌, ◌≤◌, ◌<◌, ◌≡◌, ◌⊎◌, refl, sym, ◌∙◌, ap, Bool, true, false, ◌&&◌, Option,
  none, some, List, [], ◌∷◌, ◌==◌, if◌then◌else◌, length, ltb, arith, inl, inr, Bool-cases,
  Option-cases,
}
use chatty.Tokenizer.Words.{lookup_pair}
use chatty.Tokenizer.{
  Merges, Candidate, candidate, sooner, best_pair, merge_pairs, bpe_loop, bpe, symbols_of,
  Tokenizer,
}

-- The two stand next to each other somewhere.
unfoldable pub has_pair : ℕ → ℕ → List ℕ → Bool
has_pair a b [] = false
has_pair a b (x ∷ []) = false
has_pair a b (x ∷ y ∷ symbols) = if x == a && y == b then true else has_pair a b (y ∷ symbols)

sooner_among :
    (first later : Option Candidate) (c : Candidate)
    → sooner first later ≡ some c
    → (first ≡ some c) ⊎ (later ≡ some c)
sooner_among none later c h = inr h
sooner_among (some first) none c h = inl h
sooner_among (some first) (some later) c h = elim (Bool-cases (ltb later.0 first.0)) [
  | inl less ↦ inr (ground (arith, h, less))
  | inr other ↦ inl (ground (arith, h, other))
]

candidate_known :
    (x y : ℕ) (o : Option (ℕ × ℕ)) (r a b m : ℕ)
    → candidate x y o ≡ some (r, a, b, m)
    → (o ≡ some (r, m)) × (x ≡ a) × (y ≡ b)
candidate_known x y none r a b m h = absurd (cc h)
candidate_known x y (some (rank, merged)) r a b m h = (cc h, cc h, cc h)

pub best_pair_found :
    (merges : Merges) (symbols : List ℕ) (r a b m : ℕ)
    → best_pair merges symbols ≡ some (r, a, b, m)
    → (lookup_pair merges a b ≡ some (r, m)) × (has_pair a b symbols ≡ true)
unfolding best_pair has_pair
best_pair_found merges [] r a b m h = absurd (cc h)
best_pair_found merges (x ∷ []) r a b m h = absurd (cc h)
best_pair_found merges (x ∷ y ∷ symbols) r a b m h =
    elim (sooner_among (candidate x y (lookup_pair merges x y)) (best_pair merges (y ∷ symbols))
      (r, a, b, m) h) [
        | inl first ↦
            let (known, ex, ey) = candidate_known x y (lookup_pair merges x y) r a b m first in
            (rw (sym ex, sym ey) known, ground (arith, ex, ey))
        | inr later ↦
            let (known, there) = best_pair_found merges (y ∷ symbols) r a b m later in
            (known, ground (arith, there))
      ]

length-merge_pairs-le :
    (a b m : ℕ) (symbols : List ℕ) → length (merge_pairs a b m symbols) ≤ length symbols
unfolding merge_pairs
length-merge_pairs-le a b m [] = omega arith
length-merge_pairs-le a b m (x ∷ []) = omega arith
length-merge_pairs-le a b m (x ∷ y ∷ symbols) =
    ground (arith, length-merge_pairs-le a b m symbols, length-merge_pairs-le a b m (y ∷ symbols))

length-merge_pairs :
    (a b m : ℕ) (symbols : List ℕ)
    → has_pair a b symbols ≡ true
    → length (merge_pairs a b m symbols) < length symbols
unfolding merge_pairs has_pair
length-merge_pairs a b m [] h = absurd (cc h)
length-merge_pairs a b m (x ∷ []) h = absurd (cc h)
length-merge_pairs a b m (x ∷ y ∷ symbols) h =
    ground (arith, length-merge_pairs-le a b m symbols, length-merge_pairs a b m (y ∷ symbols))

bpe_loop_ends :
    (merges : Merges) (symbols : List ℕ) (fuel : ℕ)
    → length symbols ≤ fuel
    → (best_pair merges (bpe_loop merges fuel symbols) ≡ none)
      × (bpe_loop merges (suc fuel) symbols ≡ bpe_loop merges fuel symbols)
unfolding bpe_loop best_pair
bpe_loop_ends merges [] zero le = (refl, refl)
bpe_loop_ends merges (x ∷ symbols) zero le = absurd (omega (arith, le))
bpe_loop_ends merges symbols (suc fuel) le = elim (Option-cases (best_pair merges symbols)) [
  | inl n ↦ rw n (n, refl)
  | inr ((r, a, b, m), e) ↦
      let (known, there) = best_pair_found merges symbols r a b m e in
      rw e (
        bpe_loop_ends merges (merge_pairs a b m symbols) fuel
          (omega (arith, le, length-merge_pairs a b m symbols there)))
]

bpe_loop_enough :
    (merges : Merges) (symbols : List ℕ) (extra : ℕ)
    → bpe_loop merges (extra + length symbols) symbols ≡ bpe_loop merges (length symbols) symbols
bpe_loop_enough merges symbols zero = ap (λ n. bpe_loop merges n symbols) (omega arith)
bpe_loop_enough merges symbols (suc extra) =
    let n = extra + length symbols in
    let one_more : suc extra + length symbols ≡ suc n = omega arith in
    rw one_more
      ((bpe_loop_ends merges symbols n (omega arith)).1 ∙ bpe_loop_enough merges symbols extra)

length-symbols_of : (byte_ids bytes : List ℕ) → length (symbols_of byte_ids bytes) ≡ length bytes
unfolding symbols_of
length-symbols_of byte_ids [] = refl
length-symbols_of byte_ids (b ∷ bytes) = ap suc (length-symbols_of byte_ids bytes)

-- The merging loop ends for every table of merges, also one that leads in a circle: within as many
-- rounds as the text has bytes no pair is left that merges, and more rounds change nothing.
pub bpe_terminates :
    (t : Tokenizer) (bytes : List ℕ) (fuel : ℕ)
    → length bytes ≤ fuel
    → (best_pair t.merges (bpe t bytes) ≡ none)
      × (bpe_loop t.merges fuel (symbols_of t.byte_ids bytes) ≡ bpe t bytes)
unfolding bpe
bpe_terminates t bytes fuel le =
    let symbols = symbols_of t.byte_ids bytes in
    let long = length-symbols_of t.byte_ids bytes in
    let enough : (fuel - length bytes) + length symbols ≡ fuel = omega (arith, le, long) in
    (
      (bpe_loop_ends t.merges symbols (length bytes) (omega (arith, long))).0,
      ap (λ n. bpe_loop t.merges n symbols) (sym enough)
          ∙ bpe_loop_enough t.merges symbols (fuel - length bytes)
          ∙ ap (λ n. bpe_loop t.merges n symbols) long,
    )
