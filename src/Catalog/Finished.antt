-- ===== src/Catalog/Finished.antt =====
-- The experts that finish hands over, and the arithmetic of their index.
use chatty.Common.{
  ℕ, zero, suc, ◌+◌, ◌*◌, ◌^◌, ◌≤◌, ◌<◌, ◌≡◌, refl, sym, ◌∙◌, ap, false, Option, some, List, [],
  ◌∷◌, ltb, leb, length, get_elem?, max_of, inl, inr, arith, Bool-cases, ltb→lt, ltb→le,
}
use chatty.Common.Fallible.{or_fail_passed, Result-passed, ok_inj}
use mathlib.Core.Path.{subst}
use native.Mathlib.Nat.{mul-le-mul_right, suc-mul}
use chatty.Catalog.Placed.{add_zero, add_suc}
use chatty.Catalog.{
  ok, Extent, Catalog, add64, six_slots, finish_experts, sum_len, largest, expert_of,
  missing_weight,
}

abbrev pub IsSix : (ℕ → Option Extent) → List Extent → Type 0
IsSix slots extents =
    (length extents ≡ 6)
    × ((slot : ℕ) (e : Extent) → get_elem? extents slot ≡ some e → slots slot ≡ some e)

six_slots-IsSix :
    (slots : ℕ → Option Extent) (extents : List Extent)
    → six_slots slots ≡ ok extents
    → IsSix slots extents
six_slots-IsSix slots extents h =
    let (a, ea, h1) = or_fail_passed (slots 0) missing_weight _ h in
    let (b, eb, h2) = or_fail_passed (slots 1) missing_weight _ h1 in
    let (c, ec, h3) = or_fail_passed (slots 2) missing_weight _ h2 in
    let (d, ed, h4) = or_fail_passed (slots 3) missing_weight _ h3 in
    let (e, ee, h5) = or_fail_passed (slots 4) missing_weight _ h4 in
    let (f, ef, h6) = or_fail_passed (slots 5) missing_weight _ h5 in
    subst (IsSix slots) (ok_inj h6) (refl, found a b c d e f ea eb ec ed ee ef)
  where
    found :
        (a b c d e f : Extent)
        → slots 0 ≡ some a
        → slots 1 ≡ some b
        → slots 2 ≡ some c
        → slots 3 ≡ some d
        → slots 4 ≡ some e
        → slots 5 ≡ some f
        → (slot : ℕ) (g : Extent) → get_elem? (a ∷ b ∷ c ∷ d ∷ e ∷ f ∷ []) slot ≡ some g
        → slots slot ≡ some g
    found a b c d e f ea eb ec ed ee ef zero g h = ea ∙ h
    found a b c d e f ea eb ec ed ee ef (suc zero) g h = eb ∙ h
    found a b c d e f ea eb ec ed ee ef (suc (suc zero)) g h = ec ∙ h
    found a b c d e f ea eb ec ed ee ef (suc (suc (suc zero))) g h = ed ∙ h
    found a b c d e f ea eb ec ed ee ef (suc (suc (suc (suc zero)))) g h = ee ∙ h
    found a b c d e f ea eb ec ed ee ef (suc (suc (suc (suc (suc zero))))) g h = ef ∙ h
    found a b c d e f ea eb ec ed ee ef (suc (suc (suc (suc (suc (suc n)))))) g h = absurd (cc h)

pub finish_experts_lem :
    (left index : ℕ) (experts : ℕ → ℕ → Option Extent) (all : List (List Extent))
    → finish_experts left index experts ≡ ok all
    → (length all ≡ left)
      × ((j : ℕ)
          → j < left
          → (extents : List Extent) × (get_elem? all j ≡ some extents)
            × IsSix (experts (index + j)) extents)
unfolding finish_experts
finish_experts_lem zero index experts all h =
    (rw (← ok_inj h) refl, λ j below. absurd (omega (arith, below)))
finish_experts_lem (suc left) index experts all h =
    let (extents, six, h1) = Result-passed (six_slots (experts index)) _ h in
    let (others, rest, h2) = Result-passed (finish_experts left (index + 1) experts) _ h1 in
    let (counted, each) = finish_experts_lem left (index + 1) experts others rest in
    let same : extents ∷ others ≡ all = ok_inj h2 in
    (sym (ap length same) ∙ ap suc counted, nth extents others six each same)
  where
    nth :
        (extents : List Extent) (others : List (List Extent))
        → six_slots (experts index) ≡ ok extents
        → ((j : ℕ)
            → j < left
            → (ys : List Extent) × (get_elem? others j ≡ some ys)
              × IsSix (experts (index + 1 + j)) ys)
        → extents ∷ others ≡ all
        → (j : ℕ) → j < suc left
        → (ys : List Extent) × (get_elem? all j ≡ some ys) × IsSix (experts (index + j)) ys
    nth extents others six each same zero below = (
      extents,
      sym (ap (λ l. get_elem? l 0) same),
      subst (λ n. IsSix (experts n) extents) (add_zero index) (six_slots-IsSix _ _ six),
    )
    nth extents others six each same (suc j) below =
        let (ys, at, rest) = each j (omega arith) in
        (
          ys,
          sym (ap (λ l. get_elem? l (suc j)) same) ∙ at,
          subst (λ n. IsSix (experts n) ys) (sym (add_suc index j)) rest,
        )

row_below : (n l m : ℕ) → l < m → l * n + n ≤ m * n
row_below n l m below = omega (arith, mul-le-mul_right {m = suc l} {n = m} n below, suc-mul l n)

-- Layers of n experts each do not overlap.
pub layers_apart : (n l m x y : ℕ) → x < n → y < n → l * n + x ≡ m * n + y → (l ≡ m) × (x ≡ y)
layers_apart n l m x y small_x small_y same = elim (Bool-cases (ltb l m)) [
  | inl under ↦ absurd (omega (arith, row_below n l m (ltb→lt l m under), small_x, same))
  | inr not_under ↦ elim (Bool-cases (ltb m l)) [
    | inl over ↦ absurd (omega (arith, row_below n m l (ltb→lt m l over), small_y, same))
    | inr not_over ↦
        let equal : l ≡ m = omega (arith, ltb→le l m not_under, ltb→le m l not_over) in
        (equal, omega (arith, same, ap (λ k. k * n) equal))
  ]
]

pub index_bound : (n layers l x : ℕ) → l < layers → x < n → l * n + x < layers * n
index_bound n layers l x below small = omega (arith, row_below n l layers below, small)

pub sum_len-largest :
    (experts : List (List Extent)) (j : ℕ) (extents : List Extent)
    → get_elem? experts j ≡ some extents
    → sum_len extents ≤ largest experts
sum_len-largest [] j extents h = absurd (cc h)
sum_len-largest (first ∷ experts) zero extents h =
    let same : first ≡ extents = cc h in
    subst (λ e. sum_len e ≤ max_of (sum_len first) (largest experts)) same (ground arith)
sum_len-largest (first ∷ experts) (suc j) extents h =
    ground (arith, sum_len-largest experts j extents h)

pub expert_of_at :
    (c : Catalog) (layer x n index : ℕ)
    → c.config.n_routed_experts ≡ n
    → leb n x ≡ false
    → leb (2 ^ 64) (layer * n) ≡ false
    → add64 (layer * n) x ≡ index
    → expert_of c layer x ≡ get_elem? c.experts index
expert_of_at c layer x n index same inside no_overflow whole =
    rw (same, inside, no_overflow) (ap (get_elem? c.experts) whole)
