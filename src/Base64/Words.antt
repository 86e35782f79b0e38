-- ===== src/Base64/Words.antt =====
-- The decoder on the digits of one word.
use chatty.Common.{ℕ, ◌/◌, ◌%◌, ◌<◌, ◌≡◌, ◌∙◌}
use chatty.Common.{List, [], ◌∷◌, ◌++◌, arith}
use chatty.Common.Bytes.{IsByte}
use chatty.Base64.{digit, word_of, sextet, shift_in, after_digit, decode_loop}
use chatty.Base64.Table.{value_of-digit}

-- The decoder's loop on one digit.
decode_loop-digit :
    (acc bits : ℕ) (out : List ℕ) (v : ℕ) (bs : List ℕ)
    → v < 64
    → decode_loop acc bits out (digit v ∷ bs)
      ≡ decode_loop
          (after_digit acc bits out v).0
          (after_digit acc bits out v).1
          (after_digit acc bits out v).2
          bs
unfolding decode_loop
decode_loop-digit acc bits out v bs h = rw (decode_loop, value_of-digit v h)

module _ (acc a b c : ℕ) (ha : IsByte a) (hb : IsByte b) (hc : IsByte c) where
  -- What the digits of one word are worth, whatever the accumulator held before.
  byte_two :
      shift_in (shift_in acc (sextet (word_of a b c) 18)) (sextet (word_of a b c) 12) / 16 % 256 ≡ a
  byte_two = omega arith

  byte_three :
      shift_in (shift_in acc (sextet (word_of a b c) 12)) (sextet (word_of a b c) 6) / 4 % 256 ≡ b
  byte_three = omega arith

  byte_four :
      shift_in (shift_in acc (sextet (word_of a b c) 6)) (sextet (word_of a b c) 0) / 1 % 256 ≡ c
  byte_four = omega arith

module _ (acc a b c : ℕ) (out bs : List ℕ) (ha : IsByte a) (hb : IsByte b) (hc : IsByte c) where
  pub s₁ : ℕ
  s₁ = shift_in acc (sextet (word_of a b c) 18)

  pub s₂ : ℕ
  s₂ = shift_in s₁ (sextet (word_of a b c) 12)

  pub s₃ : ℕ
  s₃ = shift_in s₂ (sextet (word_of a b c) 6)

  pub s₄ : ℕ
  s₄ = shift_in s₃ (sextet (word_of a b c) 0)

  -- Two, three and four digits of a word, read with no bits left over.
  pub two_digits :
      decode_loop acc 0 out
        (digit (sextet (word_of a b c) 18) ∷ digit (sextet (word_of a b c) 12) ∷ bs)
      ≡ decode_loop s₂ 4 (out ++ a ∷ []) bs
  unfolding s₁ s₂
  two_digits =
      decode_loop-digit acc 0 out (sextet (word_of a b c) 18) _ (omega arith)
      ∙ decode_loop-digit s₁ 6 out (sextet (word_of a b c) 12) bs (omega arith)
      ∙ rw (byte_two acc a b c ha hb hc)

  pub three_digits :
      decode_loop acc 0 out (
        digit (sextet (word_of a b c) 18)
        ∷ digit (sextet (word_of a b c) 12)
        ∷ digit (sextet (word_of a b c) 6)
        ∷ bs)
      ≡ decode_loop s₃ 2 ((out ++ a ∷ []) ++ b ∷ []) bs
  unfolding s₁ s₂ s₃
  three_digits =
      decode_loop-digit acc 0 out (sextet (word_of a b c) 18) _ (omega arith)
      ∙ decode_loop-digit s₁ 6 out (sextet (word_of a b c) 12) _ (omega arith)
      ∙ rw (byte_two acc a b c ha hb hc) (
          decode_loop-digit s₂ 4 (out ++ a ∷ []) (sextet (word_of a b c) 6) bs (omega arith)
          ∙ rw (byte_three s₁ a b c ha hb hc))

  pub four_digits :
      decode_loop acc 0 out (
        digit (sextet (word_of a b c) 18)
        ∷ digit (sextet (word_of a b c) 12)
        ∷ digit (sextet (word_of a b c) 6)
        ∷ digit (sextet (word_of a b c) 0)
        ∷ bs)
      ≡ decode_loop s₄ 0 (((out ++ a ∷ []) ++ b ∷ []) ++ c ∷ []) bs
  unfolding s₁ s₂ s₃ s₄
  four_digits =
      decode_loop-digit acc 0 out (sextet (word_of a b c) 18) _ (omega arith)
      ∙ decode_loop-digit s₁ 6 out (sextet (word_of a b c) 12) _ (omega arith)
      ∙ rw (byte_two acc a b c ha hb hc) (
          decode_loop-digit s₂ 4 (out ++ a ∷ []) (sextet (word_of a b c) 6) _ (omega arith)
          ∙ rw (byte_three s₁ a b c ha hb hc) (
              decode_loop-digit s₃ 2 ((out ++ a ∷ []) ++ b ∷ []) (sextet (word_of a b c) 0) bs
                (omega arith)
              ∙ rw (byte_four s₂ a b c ha hb hc)))
