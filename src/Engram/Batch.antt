-- ===== src/Engram/Batch.antt =====
-- What the loops of a batch write: rows that are right, at the places where they are wanted.
use chatty.Common.{
  ℕ, zero, suc, ◌<◌, ◌≡◌, ◌≢◌, ◌⊎◌, refl, sym, ◌∙◌, ap, false, some, List, [], ◌∷◌, ◌++◌, ◌==◌,
  if◌then◌else◌, get_elem?, get_elem?-set_self, get_elem?-set_ne, get_or, set, length, drop,
  replicate, All, All-append, inl, inr, arith, Bool-cases,
}
use mathlib.Core.Path.{subst}
use chatty.Engram.{Reader, Miss, engram_skip_row, add_miss}

abbrev pub Has : List ℕ → ℕ → Type 0
Has [] j = ⊥
Has (x ∷ xs) j = (x ≡ j) ⊎ Has xs j

-- The place is to be written by a miss.
abbrev pub Names : List Miss → ℕ → Type 0
Names [] j = ⊥
Names (m ∷ ms) j = (m.first ≡ j) ⊎ Has m.extras j ⊎ Names ms j

Has-last : (xs : List ℕ) (i : ℕ) → Has (xs ++ (i ∷ [])) i
Has-last [] i = inl refl
Has-last (x ∷ xs) i = inr (Has-last xs i)

Has-before : (xs : List ℕ) (i j : ℕ) → Has xs j → Has (xs ++ (i ∷ [])) j
Has-before [] i j h = elim h [ ]
Has-before (x ∷ xs) i j (inl e) = inl e
Has-before (x ∷ xs) i j (inr h) = inr (Has-before xs i j h)

pub add_miss-Names : (row i : ℕ) (ms : List Miss) → Names (add_miss row i ms) i
unfolding add_miss
add_miss-Names row i [] = inl refl
add_miss-Names row i (m ∷ ms) = elim (Bool-cases (m.row == row)) [
  | inl same ↦ rw same (inr (inl (Has-last m.extras i)))
  | inr other ↦ rw other (inr (inr (add_miss-Names row i ms)))
]

pub add_miss-Names_kept :
    (row i : ℕ) (ms : List Miss) (j : ℕ) → Names ms j → Names (add_miss row i ms) j
unfolding add_miss
add_miss-Names_kept row i [] j named = elim named [ ]
add_miss-Names_kept row i (m ∷ ms) j named = elim (Bool-cases (m.row == row)) [
  | inl same ↦ rw same (elim named [
    | inl e ↦ inl e
    | inr (inl h) ↦ inr (inl (Has-before m.extras i j h))
    | inr (inr later) ↦ inr (inr later)
  ])
  | inr other ↦ rw other (elim named [
    | inl e ↦ inl e
    | inr (inl h) ↦ inr (inl h)
    | inr (inr later) ↦ inr (inr (add_miss-Names_kept row i ms j later))
  ])
]

pub drop_cons :
    (i : ℕ) (rows : List ℕ) (w : ℕ) (ws : List ℕ)
    → drop i rows ≡ w ∷ ws
    → (w ≡ get_or rows i 0) × (i < length rows) × (drop (suc i) rows ≡ ws)
drop_cons zero [] w ws h = absurd (cc h)
drop_cons zero (x ∷ rows) w ws h = (cc h, omega arith, cc h)
drop_cons (suc i) [] w ws h = absurd (cc h)
drop_cons (suc i) (x ∷ rows) w ws h =
    let (at, lt, rest) = drop_cons i rows w ws h in (at, omega (arith, lt), rest)

-- What is wanted of a row: zeros for the one that is skipped, else the bytes on the drive.
abbrev pub wanted : Reader → ℕ → ℕ → ℕ → List ℕ
wanted reader t width row = if row == engram_skip_row then replicate width 0 else reader.row t row

-- A batch of `rows` of one table, in rows of `width` bytes.
module _ (reader : Reader) (t : ℕ) (width : ℕ) (rows : List ℕ) where
  abbrev pub IsRight : List (List ℕ) → ℕ → Type 0
  IsRight out j = get_elem? out j ≡ some (wanted reader t width (get_or rows j 0))

  abbrev pub IsPlace : ℕ → ℕ → Type 0
  IsPlace row j = (row ≡ get_or rows j 0) × (j < length rows)

  abbrev pub IsSound : Miss → Type 0
  IsSound m = (m.row < 281474976710656) × IsPlace m.row m.first × All (IsPlace m.row) m.extras

  pub wanted_small :
      (row : ℕ) → row < 281474976710656 → wanted reader t width row ≡ reader.row t row
  wanted_small row small =
      let other : (row == engram_skip_row) ≡ false = ground (arith, small) in rw other refl

  pub IsRight-here :
      (out : List (List ℕ)) (row j : ℕ) (v : List ℕ)
      → length out ≡ length rows
      → IsPlace row j
      → v ≡ wanted reader t width row
      → IsRight (set out j v) j
  IsRight-here out row j v long (at, lt) e =
      get_elem?-set_self out j v (omega (arith, long, lt))
      ∙ ap some (e ∙ ap (wanted reader t width) at)

  pub IsRight-kept :
      (out : List (List ℕ)) (row i : ℕ) (v : List ℕ) (j : ℕ)
      → length out ≡ length rows
      → IsPlace row i
      → v ≡ wanted reader t width row
      → IsRight out j
      → IsRight (set out i v) j
  IsRight-kept out row i v j long place e right = elim (Bool-cases (i == j)) [
    | inl same ↦
        let eq : i ≡ j = ground (arith, same) in
        subst (IsRight (set out i v)) eq (IsRight-here out row i v long place e)
    | inr other ↦ let ne : i ≢ j = ground (arith, other) in get_elem?-set_ne out v ne ∙ right
  ]

  pub add_miss-IsSound :
      (row i : ℕ) (ms : List Miss)
      → row < 281474976710656
      → IsPlace row i
      → All IsSound ms
      → All IsSound (add_miss row i ms)
  unfolding add_miss
  add_miss-IsSound row i [] small place sound = ((small, place, tt), tt)
  add_miss-IsSound row i (m ∷ ms) small place (first, sound) = elim (Bool-cases (m.row == row)) [
    | inl same ↦
        let e : row ≡ m.row = ground (arith, same) in
        rw same (
          (
            first.0,
            first.1,
            All-append (IsPlace m.row) m.extras (i ∷ []) first.2 (rw (sym e) place, tt),
          ),
          sound,
        )
    | inr other ↦ rw other (first, add_miss-IsSound row i ms small place sound)
  ]
