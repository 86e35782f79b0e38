-- ===== src/Tokenizer/Words.antt =====
-- The vocabulary as an association list, and pairs as keys.
use chatty.Common.{
  ℕ, ◌+◌, ◌<◌, ◌≡◌, ◌≢◌, ◌&&◌, Option, none, some, List, [], ◌∷◌, ◌==◌, ltb, if◌then◌else◌, inl,
  inr, All, arith, Bool-cases,
}
use mathlib.Core.Path.{subst}
use chatty.Common.Texts.{same_text, same_text-eq}

-- `vocab.get(text)`; of the entries of a hash map, one has the text.
unfoldable pub lookup : List (List ℕ × ℕ) → List ℕ → Option ℕ
lookup [] text = none
lookup ((word, id) ∷ vocab) text = if same_text word text then some id else lookup vocab text

-- `merges.get(&(a, b))`, of the entry that was inserted last.
unfoldable pub lookup_pair : List ((ℕ × ℕ) × (ℕ × ℕ)) → ℕ → ℕ → Option (ℕ × ℕ)
lookup_pair [] a b = none
lookup_pair (((x, y), merged) ∷ merges) a b =
    if x == a && y == b then some merged else lookup_pair merges a b

-- `max().map_or(0, |max| max + 1)`, over the ids of the vocabulary and of the added tokens.
abbrev pub size_with : ℕ → ℕ → ℕ
size_with id size = if ltb id size then size else id + 1

unfoldable pub size_of : List (List ℕ × ℕ) → ℕ
size_of [] = 0
size_of ((word, id) ∷ vocab) = size_with id (size_of vocab)

-- No two texts have one id.
abbrev pub IsDistinct : List (List ℕ × ℕ) → Type 0
IsDistinct [] = Unit {0}
IsDistinct ((word, id) ∷ vocab) = All (λ e. e.1 ≢ id) vocab × IsDistinct vocab

-- What every entry satisfies, the entry found does.
pub lookup_found :
    (P : List ℕ × ℕ → Type 0) (vocab : List (List ℕ × ℕ)) (text : List ℕ) (id : ℕ)
    → All P vocab
    → lookup vocab text ≡ some id
    → P (text, id)
unfolding lookup
lookup_found P [] text id a h = absurd (cc h)
lookup_found P ((word, i) ∷ vocab) text id a h = elim (Bool-cases (same_text word text)) [
  | inl same ↦
      let e : i ≡ id = ground (arith, h, same) in
      subst (λ w. P (w, id)) (same_text-eq word text same) (subst (λ j. P (word, j)) e a.0)
  | inr other ↦ lookup_found P vocab text id a.1 (ground (arith, h, other))
]

pub lookup_pair_found :
    (P : (ℕ × ℕ) × (ℕ × ℕ) → Type 0) (merges : List ((ℕ × ℕ) × (ℕ × ℕ))) (a b r m : ℕ)
    → All P merges
    → lookup_pair merges a b ≡ some (r, m)
    → P ((a, b), (r, m))
unfolding lookup_pair
lookup_pair_found P [] a b r m all h = absurd (cc h)
lookup_pair_found P (((x, y), found) ∷ merges) a b r m all h =
    elim (Bool-cases (x == a && y == b)) [
      | inl same ↦
          let ex : x ≡ a = ground (arith, same) in
          let ey : y ≡ b = ground (arith, same) in
          let ef : found ≡ (r, m) = ground (arith, h, same) in
          subst (λ z. P ((z, b), (r, m))) ex
            (subst (λ z. P ((x, z), (r, m))) ey (subst (λ z. P ((x, y), z)) ef all.0))
      | inr other ↦ lookup_pair_found P merges a b r m all.1 (ground (arith, h, other))
    ]

pub lookup_in_size :
    (vocab : List (List ℕ × ℕ)) (text : List ℕ) (id : ℕ)
    → lookup vocab text ≡ some id
    → id < size_of vocab
unfolding lookup size_of
lookup_in_size [] text id h = absurd (cc h)
lookup_in_size ((word, i) ∷ vocab) text id h = ground (arith, lookup_in_size vocab text id)
