-- ===== src/Images/Names.antt =====
-- The associated data names one owner and one image.
use chatty.Common.{ℕ, ◌≡◌, ◌≢◌, refl, sym, List, [], ◌∷◌, ◌++◌, All, arith}
use chatty.Images.{character_aad, message_aad}

-- Ids are UUIDs, without a colon.
abbrev pub HasNoColon : List ℕ → Type 0
HasNoColon = All (λ b. b ≢ 58)

-- The text before the first colon, and the text after it.
pub split_unique :
    (a b x y : List ℕ)
    → HasNoColon a
    → HasNoColon b
    → (a ++ 58 ∷ x) ≡ (b ++ 58 ∷ y)
    → (a ≡ b) × (x ≡ y)
split_unique [] [] x y ha hb e = (refl, cc e)
split_unique [] (q ∷ b) x y ha hb e = absurd (hb.0 (cc e))
split_unique (p ∷ a) [] x y ha hb e = absurd (ha.0 (cc e))
split_unique (p ∷ a) (q ∷ b) x y ha hb e =
    let (s, t) = split_unique a b x y ha.1 hb.1 (cc e) in (cc (e, s), t)

word_no_colon : HasNoColon (109 ∷ 101 ∷ 115 ∷ 115 ∷ 97 ∷ 103 ∷ 101 ∷ [])
word_no_colon = (
  λ f. omega (arith, f),
  (
    λ f. omega (arith, f),
    (
      λ f. omega (arith, f),
      (
        λ f. omega (arith, f),
        (λ f. omega (arith, f), (λ f. omega (arith, f), (λ f. omega (arith, f), tt))),
      ),
    ),
  ),
)

-- The associated data of two character images are equal for the same owner and character only, those
-- of two message images for the same owner and message only, and one of a character is never one of a
-- message, for owners whose ids have no colon and are not the text `message`.
aad_lem :
    (o p x y : List ℕ)
    → HasNoColon o
    → HasNoColon p
    → p ≢ (109 ∷ 101 ∷ 115 ∷ 115 ∷ 97 ∷ 103 ∷ 101 ∷ [])
    → (character_aad o x ≡ character_aad p y → (o ≡ p) × (x ≡ y))
      × (message_aad o x ≡ message_aad p y → (o ≡ p) × (x ≡ y))
      × (message_aad o x ≢ character_aad p y)
aad_lem o p x y ho hp ne = (
  split_unique o p x y ho hp,
  λ e. split_unique o p x y ho hp (cc e),
  λ e. ne (
      sym
        (split_unique (109 ∷ 101 ∷ 115 ∷ 115 ∷ 97 ∷ 103 ∷ 101 ∷ []) p (o ++ 58 ∷ x) y word_no_colon
          hp e).0),
)
