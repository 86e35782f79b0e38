-- ===== src/Tokenizer/Split.antt =====
-- The pieces of a text are the text, when the matches stand in order.
use chatty.Common.{
  ℕ, zero, suc, ◌-◌, ◌≤◌, ◌≡◌, refl, sym, ◌∙◌, ap, List, [], ◌∷◌, ◌++◌, append_assoc, ltb, length,
  take, drop, All, inl, inr, arith, Bool-cases,
}
use chatty.Tokenizer.{Pattern, slice, push_piece, split_from, split_isolated, split_all, split_by}

-- The matches from `last` on do not overlap, and end in the text.
abbrev pub AreOrdered : ℕ → ℕ → List (ℕ × ℕ) → Type 0
AreOrdered last len [] = last ≤ len
AreOrdered last len ((start, end) ∷ found) =
    (last ≤ start) × (start ≤ end) × AreOrdered end len found

abbrev pub IsMatcher : Pattern → Type 0
IsMatcher pattern = (text : List ℕ) → AreOrdered 0 (length text) (pattern text)

unfoldable pub joined : List (List ℕ) → List ℕ
joined [] = []
joined (piece ∷ pieces) = piece ++ joined pieces

pub joined-append :
    (front back : List (List ℕ)) → joined (front ++ back) ≡ joined front ++ joined back
unfolding joined
joined-append [] back = refl
joined-append (piece ∷ front) back =
    ap (λ z. piece ++ z) (joined-append front back)
    ∙ sym (append_assoc piece (joined front) (joined back))

take_nil : (n : ℕ) → take {A = ℕ} n [] ≡ []
take_nil zero = refl
take_nil (suc n) = refl

drop_all : (text : List ℕ) → drop (length text) text ≡ []
drop_all [] = refl
drop_all (b ∷ text) = drop_all text

take-drop : (n : ℕ) (text : List ℕ) → take n text ++ drop n text ≡ text
take-drop zero text = refl
take-drop (suc n) [] = refl
take-drop (suc n) (b ∷ text) = ap (λ z. b ∷ z) (take-drop n text)

slice-drop : (a b : ℕ) (text : List ℕ) → a ≤ b → slice text a b ++ drop b text ≡ drop a text
slice-drop zero b text le = let whole : b - 0 ≡ b = omega arith in rw whole (take-drop b text)
slice-drop (suc a) zero text le = absurd (omega (arith, le))
slice-drop (suc a) (suc b) [] le = rw (take_nil (suc b - suc a)) refl
slice-drop (suc a) (suc b) (x ∷ text) le =
    let less : suc b - suc a ≡ b - a = omega arith in
    rw less (slice-drop a b text (omega (arith, le)))

push_slice :
    (text : List ℕ) (a b : ℕ) (pieces : List (List ℕ))
    → a ≤ b
    → joined (push_piece (ltb a b) (slice text a b) pieces) ≡ slice text a b ++ joined pieces
unfolding joined
push_slice text a b pieces le = elim (Bool-cases (ltb a b)) [
  | inl less ↦ rw less refl
  | inr same ↦ let zero_long : b - a ≡ 0 = ground (arith, same, le) in rw (same, zero_long) refl
]

joined-split_from :
    (text : List ℕ) (last : ℕ) (found : List (ℕ × ℕ))
    → AreOrdered last (length text) found
    → joined (split_from text last found) ≡ drop last text
unfolding split_from joined
joined-split_from text last [] le =
    push_slice text last (length text) [] le
    ∙ sym (ap (λ z. slice text last (length text) ++ z) (drop_all text))
    ∙ slice-drop last (length text) text le
joined-split_from text last ((start, end) ∷ found) (le, ordered, later) =
    let rest = joined-split_from text end found later in
    push_slice text last start _ le
    ∙ ap (λ z. slice text last start ++ z)
        (push_slice text start end _ ordered
          ∙ ap (λ z. slice text start end ++ z) rest
          ∙ slice-drop start end text ordered)
    ∙ slice-drop last start text le

joined-split_all :
    (pattern : Pattern) (pieces : List (List ℕ))
    → IsMatcher pattern
    → joined (split_all pattern pieces) ≡ joined pieces
unfolding split_all joined
joined-split_all pattern [] matches = refl
joined-split_all pattern (piece ∷ pieces) matches =
    joined-append (split_isolated pattern piece) (split_all pattern pieces)
    ∙ ap (λ z. z ++ joined (split_all pattern pieces))
        (joined-split_from piece 0 (pattern piece) (matches piece))
    ∙ ap (λ z. piece ++ z) (joined-split_all pattern pieces matches)

pub joined-split_by :
    (patterns : List Pattern) (pieces : List (List ℕ))
    → All IsMatcher patterns
    → joined (split_by patterns pieces) ≡ joined pieces
unfolding split_by
joined-split_by [] pieces matches = refl
joined-split_by (pattern ∷ patterns) pieces (first, matches) =
    joined-split_by patterns (split_all pattern pieces) matches
    ∙ joined-split_all pattern pieces first
