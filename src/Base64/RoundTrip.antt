-- ===== src/Base64/RoundTrip.antt =====
-- Decoding what was encoded.
use chatty.Common.{ℕ, ◌+◌, ◌-◌, ◌*◌, ◌/◌, ◌%◌, ◌≤◌, ◌<◌, ◌≡◌, ◌∙◌, refl, true, false, some}
use chatty.Common.{
  List, [], ◌∷◌, ◌++◌, arith, length, take, All, append_assoc, length-append, take-append, ◌==◌,
  le→ltb, append-nil, All-append,
}
use chatty.Common.Bytes.{IsByte}
use mathlib.Core.List.{reverse, reverse-append}
use chatty.Base64.{
  digit, word_of, sextet, encode, is_whitespace, clean, leading_pads, decode_loop, decode,
}
use chatty.Base64.Words.{two_digits, three_digits, four_digits}
use chatty.Base64.Table.{is_whitespace-digit, digit-ne-pad}

-- The digits of the data, and how many pads follow them.
body : List ℕ → List ℕ
body [] = []
body (a ∷ []) = let w = word_of a 0 0 in digit (sextet w 18) ∷ digit (sextet w 12) ∷ []
body (a ∷ b ∷ []) =
    let w = word_of a b 0 in digit (sextet w 18) ∷ digit (sextet w 12) ∷ digit (sextet w 6) ∷ []
body (a ∷ b ∷ c ∷ rest) =
    let w = word_of a b c in
    digit (sextet w 18) ∷ digit (sextet w 12) ∷ digit (sextet w 6) ∷ digit (sextet w 0) ∷ body rest

pads : List ℕ → List ℕ
pads [] = []
pads (a ∷ []) = b'=' ∷ b'=' ∷ []
pads (a ∷ b ∷ []) = b'=' ∷ []
pads (a ∷ b ∷ c ∷ rest) = pads rest

encode-parts : (d : List ℕ) → encode d ≡ body d ++ pads d
unfolding encode body pads
encode-parts [] = refl
encode-parts (a ∷ []) = refl
encode-parts (a ∷ b ∷ []) = refl
encode-parts (a ∷ b ∷ c ∷ rest) = rw (encode-parts rest)

decode_loop-body :
    (d : List ℕ) (acc : ℕ) (out : List ℕ)
    → All IsByte d
    → decode_loop acc 0 out (body d) ≡ some (out ++ d)
unfolding body
decode_loop-body [] acc out h = unfold decode_loop in rw (append-nil out)
decode_loop-body (a ∷ []) acc out h =
    two_digits acc a 0 0 out [] h.0 (omega arith) (omega arith) ∙ unfold decode_loop in refl
decode_loop-body (a ∷ b ∷ []) acc out h =
    three_digits acc a b 0 out [] h.0 h.1.0 (omega arith)
    ∙ unfold decode_loop in rw (append_assoc out (a ∷ []) (b ∷ []))
decode_loop-body (a ∷ b ∷ c ∷ rest) acc out h =
    four_digits acc a b c out (body rest) h.0 h.1.0 h.1.1.0
    ∙ decode_loop-body rest _ (((out ++ a ∷ []) ++ b ∷ []) ++ c ∷ []) h.1.1.1
    ∙ simp append_assoc

-- A byte that `encode` writes as a digit.
abbrev IsPlain : ℕ → Type 0
IsPlain b = (is_whitespace b ≡ false) × ((b == b'=') ≡ false)

plain : (v : ℕ) → v < 64 → IsPlain (digit v)
plain v h = (is_whitespace-digit v h, digit-ne-pad v h)

body-IsPlain : (d : List ℕ) → All IsByte d → All IsPlain (body d)
unfolding body
body-IsPlain [] h = tt
body-IsPlain (a ∷ []) h = (plain _ (omega arith), (plain _ (omega arith), tt))
body-IsPlain (a ∷ b ∷ []) h =
    (plain _ (omega arith), (plain _ (omega arith), (plain _ (omega arith), tt)))
body-IsPlain (a ∷ b ∷ c ∷ rest) h = (
  plain _ (omega arith),
  (
    plain _ (omega arith),
    (plain _ (omega arith), (plain _ (omega arith), body-IsPlain rest h.1.1.1)),
  ),
)

clean-plain : (xs ys : List ℕ) → All IsPlain xs → clean ys ≡ ys → clean (xs ++ ys) ≡ xs ++ ys
unfolding clean
clean-plain [] ys h e = e
clean-plain (x ∷ xs) ys h e = rw (h.0.0, clean-plain xs ys h.1 e)

clean-pads : (d : List ℕ) → clean (pads d) ≡ pads d
unfolding clean pads is_whitespace
clean-pads [] = refl
clean-pads (a ∷ []) = refl
clean-pads (a ∷ b ∷ []) = refl
clean-pads (a ∷ b ∷ c ∷ rest) = clean-pads rest

reverse-IsPlain : (xs : List ℕ) → All IsPlain xs → All IsPlain (reverse xs)
reverse-IsPlain [] h = tt
reverse-IsPlain (x ∷ xs) h =
    rw (reverse-append (x ∷ []) xs)
      (All-append IsPlain (reverse xs) (x ∷ []) (reverse-IsPlain xs h.1) (h.0, tt))

leading_pads-plain : (xs : List ℕ) → All IsPlain xs → leading_pads xs ≡ 0
unfolding leading_pads
leading_pads-plain [] h = refl
leading_pads-plain (x ∷ xs) h = rw h.0.1

leading_pads-pads :
    (d xs : List ℕ) → All IsPlain xs → leading_pads (reverse (pads d) ++ xs) ≡ length (pads d)
unfolding pads
leading_pads-pads [] xs h = leading_pads-plain xs h
leading_pads-pads (a ∷ []) xs h = unfold leading_pads in rw (leading_pads-plain xs h)
leading_pads-pads (a ∷ b ∷ []) xs h = unfold leading_pads in rw (leading_pads-plain xs h)
leading_pads-pads (a ∷ b ∷ c ∷ rest) xs h = leading_pads-pads rest xs h

length-pads : (d : List ℕ) → length (pads d) ≤ 2
unfolding pads
length-pads [] = omega arith
length-pads (a ∷ []) = omega arith
length-pads (a ∷ b ∷ []) = omega arith
length-pads (a ∷ b ∷ c ∷ rest) = length-pads rest

pub length-encode : (d : List ℕ) → length (encode d) ≡ (length d + 2) / 3 * 4
unfolding encode
length-encode [] = omega arith
length-encode (a ∷ []) = omega arith
length-encode (a ∷ b ∷ []) = omega arith
length-encode (a ∷ b ∷ c ∷ rest) = omega (arith, length-encode rest)

module _ (d : List ℕ) (h : All IsByte d) where
  clean-encode : clean (encode d) ≡ encode d
  clean-encode =
      rw (encode-parts d) (clean-plain (body d) (pads d) (body-IsPlain d h) (clean-pads d))

  padding_of_encode : leading_pads (reverse (encode d)) ≡ length (pads d)
  padding_of_encode =
      rw (encode-parts d, reverse-append (body d) (pads d))
        (leading_pads-pads d (reverse (body d)) (reverse-IsPlain (body d) (body-IsPlain d h)))

  body_of_encode : take (length (encode d) - length (pads d)) (encode d) ≡ body d
  body_of_encode =
      let e : length (body d ++ pads d) - length (pads d) ≡ length (body d) =
        omega (arith, length-append (body d) (pads d)) in
      rw (encode-parts d, e) (take-append (body d) (pads d))

-- Decoding what `encode` made of any bytes gives the bytes.
pub decode-encode : (d : List ℕ) → All IsByte d → decode (encode d) ≡ some d
unfolding decode
decode-encode d h =
    let e : (length (encode d) % 4 == 0) ≡ true = ground (arith, length-encode d) in
    rw
      (
        clean-encode d h,
        padding_of_encode d h,
        le→ltb 2 (length (pads d)) (length-pads d),
        e,
        body_of_encode d h,
      )
      (decode_loop-body d 0 [] h)
