-- ===== src/Base64/Decoder.antt =====
-- Which texts decode, and how much comes out.
use chatty.Common.{ℕ, ◌+◌, ◌-◌, ◌*◌, ◌/◌, ◌%◌, ◌≤◌, ◌<◌, ◌≡◌, refl, sym, ◌∙◌, ◌^◌, ◌↔◌, leb, some}
use chatty.Common.{
  List, [], ◌∷◌, arith, length, take, All, All-append, length-append, inl, inr, Option-cases,
  Bool-cases,
}
use chatty.Common.Bytes.{IsByte}
use mathlib.Core.List.{reverse}
use mathlib.Core.Path.{subst}
use mathlib.Core.Option.{some-injective}
use chatty.Base64.{shift_in, value_of, clean, leading_pads, after_digit, decode_loop, decode}

step-length :
    (acc bits v : ℕ) (out : List ℕ)
    → bits < 8
    → let (acc', bits', out') = after_digit acc bits out v in
      (bits' < 8) × (length out' * 8 + bits' ≡ length out * 8 + bits + 6)
step-length acc bits v out h =
    ground (arith, length-append out ((shift_in acc v / 2 ^ (bits + 6 - 8) % 256) ∷ []))

step-IsByte :
    (acc bits v : ℕ) (out : List ℕ) → All IsByte out → All IsByte (after_digit acc bits out v).2
step-IsByte acc bits v out h = elim (Bool-cases (leb 8 (bits + 6))) [
  | inl full ↦ rw full (All-append IsByte out _ h (omega arith))
  | inr part ↦ rw part h
]

-- The bits that came in are the bits of the bytes that go out, and fewer than eight more.
abbrev Fits : ℕ → List ℕ → Type 0
Fits bits r = (length r * 8 ≤ bits) × (bits < length r * 8 + 8)

decode_loop-Fits :
    (bs : List ℕ) (acc bits : ℕ) (out r : List ℕ)
    → bits < 8
    → decode_loop acc bits out bs ≡ some r
    → Fits (length out * 8 + bits + 6 * length bs) r
unfolding decode_loop
decode_loop-Fits [] acc bits out r h e = ground arith
decode_loop-Fits (b ∷ bs) acc bits out r h e = elim (Option-cases (value_of b)) [
  | inl n ↦ absurd (cc (rw (n, decode_loop) at e))
  | inr (v, s) ↦
      let (acc', bits', out') = after_digit acc bits out v in
      let (small, more) = step-length acc bits v out h in
      let ih = decode_loop-Fits bs acc' bits' out' r small (rw (s, decode_loop) at e) in
      (omega (arith, ih, more), omega (arith, ih, more))
]

decode_loop-IsByte :
    (bs : List ℕ) (acc bits : ℕ) (out r : List ℕ)
    → All IsByte out
    → decode_loop acc bits out bs ≡ some r
    → All IsByte r
unfolding decode_loop
decode_loop-IsByte [] acc bits out r h e = subst (All IsByte) (some-injective _ _ e) h
decode_loop-IsByte (b ∷ bs) acc bits out r h e = elim (Option-cases (value_of b)) [
  | inl n ↦ absurd (cc (rw (n, decode_loop) at e))
  | inr (v, s) ↦
      let (acc', bits', out') = after_digit acc bits out v in
      decode_loop-IsByte bs acc' bits' out' r (step-IsByte acc bits v out h)
        (rw (s, decode_loop) at e)
]

-- Every byte of a text that is all digits is read.
abbrev pub Digits : List ℕ → Type 0
Digits = All (λ b. (v : ℕ) × (value_of b ≡ some v))

decode_loop-total :
    (bs : List ℕ) (acc bits : ℕ) (out : List ℕ)
    → Digits bs
    → (r : List ℕ) × (decode_loop acc bits out bs ≡ some r)
unfolding decode_loop
decode_loop-total [] acc bits out h = (out, refl)
decode_loop-total (b ∷ bs) acc bits out ((v, s), h) =
    let (acc', bits', out') = after_digit acc bits out v in
    let (r, e) = decode_loop-total bs acc' bits' out' h in (r, rw (s, decode_loop) e)

decode_loop-Digits :
    (bs : List ℕ) (acc bits : ℕ) (out r : List ℕ) → decode_loop acc bits out bs ≡ some r → Digits bs
unfolding decode_loop
decode_loop-Digits [] acc bits out r e = tt
decode_loop-Digits (b ∷ bs) acc bits out r e = elim (Option-cases (value_of b)) [
  | inl n ↦ absurd (cc (rw (n, decode_loop) at e))
  | inr (v, s) ↦
      let (acc', bits', out') = after_digit acc bits out v in
      ((v, s), decode_loop-Digits bs acc' bits' out' r (rw (s, decode_loop) at e))
]

-- The text without its whitespace, the number of pads at its end, and what stands before them.
abbrev pub padding : List ℕ → ℕ
padding s = leading_pads (reverse (clean s))

abbrev pub before_pads : List ℕ → List ℕ
before_pads s = take (length (clean s) - padding s) (clean s)

-- A text that the decoder takes.
abbrev pub IsEncoded : List ℕ → Type 0
IsEncoded s = (padding s ≤ 2) × (length (clean s) % 4 ≡ 0) × Digits (before_pads s)

checks_pass :
    (s : List ℕ)
    → (padding s ≤ 2) × (length (clean s) % 4 ≡ 0)
    → decode s ≡ decode_loop 0 0 [] (before_pads s)
unfolding decode
checks_pass s (p, m) = ground arith

checks_passed :
    (s : List ℕ) {r : List ℕ} → decode s ≡ some r → (padding s ≤ 2) × (length (clean s) % 4 ≡ 0)
unfolding decode
checks_passed s e = ground arith

-- A text decodes exactly when, its whitespace left out, its length is a multiple of four, at most
-- two pads end it, and every byte before them is a digit.
pub decode_iff : (s : List ℕ) → ((r : List ℕ) × (decode s ≡ some r)) ↔ IsEncoded s
decode_iff s = (accepted, complete)
  where
    accepted : (r : List ℕ) × (decode s ≡ some r) → IsEncoded s
    accepted (r, e) =
        let (p, m) = checks_passed s e in
        (p, m, decode_loop-Digits (before_pads s) 0 0 [] r (sym (checks_pass s (p, m)) ∙ e))

    complete : IsEncoded s → (r : List ℕ) × (decode s ≡ some r)
    complete (p, m, d) =
        let (r, e) = decode_loop-total (before_pads s) 0 0 [] d in (r, checks_pass s (p, m) ∙ e)

-- What comes out of a text that decodes are bytes, as many as the digits before the pads have room
-- for: six bits for a digit, and fewer than eight bits are dropped.
decode_shape :
    (s : List ℕ) {r : List ℕ}
    → decode s ≡ some r
    → All IsByte r × (length r ≡ 6 * length (before_pads s) / 8)
decode_shape s {r} e =
    let c = checks_passed s e in
    let e' = sym (checks_pass s c) ∙ e in
    let (lo, hi) = decode_loop-Fits (before_pads s) 0 0 [] r (omega arith) e' in
    (decode_loop-IsByte (before_pads s) 0 0 [] r tt e', omega (arith, lo, hi))
