-- ===== src/Engram/Clock.antt =====
-- The clock of a set finds a victim.
use chatty.Common.{
  ℕ, zero, suc, ◌+◌, ◌%◌, ◌≤◌, ◌<◌, ◌≡◌, refl, ◌∙◌, ap, true, false, List, [], ◌∷◌, if◌then◌else◌,
  get_or, get_elem?, some, length-set, set, length, inl, inr, arith, Bool-cases,
}
use chatty.Engram.{Way, sweep, empty_way, engram_ways}

bit : Way → ℕ
bit w = if w.used then 1 else 0

used_ways : List Way → ℕ
used_ways [] = 0
used_ways (w ∷ ways) = bit w + used_ways ways

used_ways_bounded : (ways : List Way) → used_ways ways ≤ length ways
unfolding used_ways bit
used_ways_bounded [] = omega arith
used_ways_bounded (w ∷ ways) = ground (arith, used_ways_bounded ways)

-- Clearing a bit that is set leaves one fewer.
used_ways_cleared :
    (ways : List Way) (hand : ℕ)
    → (get_or ways hand empty_way).used ≡ true
    → used_ways (set ways hand (record (get_or ways hand empty_way) { used = false }))
      < used_ways ways
unfolding used_ways bit
used_ways_cleared [] hand h = absurd (cc h)
used_ways_cleared (w ∷ ways) zero h = rw h (omega arith)
used_ways_cleared (w ∷ ways) (suc hand) h = ground (arith, used_ways_cleared ways hand h)

sweep_ends :
    (fuel : ℕ) (ways : List Way) (hand : ℕ)
    → used_ways ways < fuel
    → ((get_or (sweep fuel ways hand).0 (sweep fuel ways hand).1 empty_way).used ≡ false)
      × (sweep (suc fuel) ways hand ≡ sweep fuel ways hand)
unfolding sweep
sweep_ends zero ways hand lt = absurd (omega (arith, lt))
sweep_ends (suc fuel) ways hand lt =
    let w = get_or ways hand empty_way in
    elim (Bool-cases w.used) [
      | inl used ↦ rw used (
          sweep_ends fuel (set ways hand (record w { used = false })) ((hand + 1) % engram_ways)
            (omega (arith, lt, used_ways_cleared ways hand used)))
      | inr free ↦ rw free (free, refl)
    ]

sweep_enough :
    (ways : List Way) (hand n extra : ℕ)
    → used_ways ways < n
    → sweep (extra + n) ways hand ≡ sweep n ways hand
sweep_enough ways hand n zero lt = ap (λ k. sweep k ways hand) (omega arith)
sweep_enough ways hand n (suc extra) lt =
    let one_more : suc extra + n ≡ suc (extra + n) = omega arith in
    rw one_more
      ((sweep_ends (extra + n) ways hand (omega (arith, lt))).1 ∙ sweep_enough ways hand n extra lt)

-- The hand stays on the ways, and no way is lost.
sweep_inside :
    (fuel : ℕ) (ways : List Way) (hand : ℕ)
    → length ways ≡ engram_ways
    → hand < engram_ways
    → ((sweep fuel ways hand).1 < engram_ways) × (length (sweep fuel ways hand).0 ≡ engram_ways)
unfolding sweep
sweep_inside zero ways hand eight lt = (lt, eight)
sweep_inside (suc fuel) ways hand eight lt =
    let w = get_or ways hand empty_way in
    elim (Bool-cases w.used) [
      | inl used ↦
          let cleared : List Way = set ways hand (record w { used = false }) in
          let same : length cleared ≡ engram_ways =
            length-set ways hand (record w { used = false }) ∙ eight in
          rw used (sweep_inside fuel cleared ((hand + 1) % engram_ways) same (omega arith))
      | inr free ↦ rw free (lt, eight)
    ]

way_at :
    (ways : List Way) (i : ℕ) → i < length ways → get_elem? ways i ≡ some (get_or ways i empty_way)
way_at [] i lt = absurd (omega arith)
way_at (w ∷ ways) zero lt = refl
way_at (w ∷ ways) (suc i) lt = way_at ways i (omega arith)

-- A way of the set whose bit is clear.
abbrev pub IsVictim : List Way × ℕ → Type 0
IsVictim (ways, hand) = (w : Way) × (get_elem? ways hand ≡ some w) × (w.used ≡ false)

-- In a set of eight ways with the hand at one of them, the loop that looks for a victim ends for every
-- setting of the reference bits: within nine rounds the hand stands at one of the eight ways, whose bit
-- is clear, and more rounds change nothing.
pub sweep_terminates :
    (ways : List Way) (hand extra : ℕ)
    → length ways ≡ engram_ways
    → hand < engram_ways
    → IsVictim (sweep (engram_ways + 1) ways hand)
      × (sweep (extra + (engram_ways + 1)) ways hand ≡ sweep (engram_ways + 1) ways hand)
sweep_terminates ways hand extra eight inside =
    let lt : used_ways ways < engram_ways + 1 = omega (arith, used_ways_bounded ways, eight) in
    let (hand_inside, same) = sweep_inside (engram_ways + 1) ways hand eight inside in
    let r : List Way × ℕ = sweep (engram_ways + 1) ways hand in
    (
      (
        get_or (r.0) (r.1) empty_way,
        way_at (r.0) (r.1) (omega (arith, hand_inside, same)),
        (sweep_ends (engram_ways + 1) ways hand lt).0,
      ),
      sweep_enough ways hand (engram_ways + 1) extra lt,
    )
