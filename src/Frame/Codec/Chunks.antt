-- ===== src/Frame/Codec/Chunks.antt =====
-- The loop that fills the receive buffer reads what `read_exact` reads, however the bytes arrive.
use chatty.Common.{ℕ, zero, suc, ◌+◌, ◌-◌, ◌≤◌, ◌≡◌, refl, Option, none, some, List, [], ◌∷◌, ◌++◌}
use chatty.Common.{length, take, drop, arith, append_assoc, append-nil, ◌∙◌, sym}
use chatty.Common.Bytes.{read_exact, push_byte}
use chatty.Frame.Codec.{Filled, filled, eof, chunk, fill}

-- The outcome of a read, with bytes that were read before it in front.
abbrev pub outcome : List ℕ → Option (List ℕ × List ℕ) → Filled
outcome got none = eof
outcome got (some (xs, r)) = filled (got ++ xs) r

outcome-push :
    (b : ℕ) (got : List ℕ) (o : Option (List ℕ × List ℕ))
    → outcome got (push_byte b o) ≡ outcome (got ++ b ∷ []) o
outcome-push b got none = refl
outcome-push b got (some (xs, r)) = rw (append_assoc got (b ∷ []) xs)

-- A read can be made in two parts.
read_exact-split :
    (n m : ℕ) (s got : List ℕ)
    → n ≤ m
    → n ≤ length s
    → outcome got (read_exact m s) ≡ outcome (got ++ take n s) (read_exact (m - n) (drop n s))
unfolding read_exact
read_exact-split zero m s got h l = let e : m - 0 ≡ m = omega arith in rw (e, append-nil got)
read_exact-split (suc n) zero s got h l = absurd (omega arith)
read_exact-split (suc n) (suc m) [] got h l = absurd (omega arith)
read_exact-split (suc n) (suc m) (b ∷ s) got h l =
    let e : suc m - suc n ≡ m - n = omega arith in
    outcome-push b got (read_exact m s)
    ∙ read_exact-split n m s (got ++ b ∷ []) (omega arith) (omega arith)
    ∙ rw (e, append_assoc got (b ∷ []) (take n s))

pub fill-read_exact :
    (sizes : ℕ → ℕ) (fuel round m : ℕ) (got s : List ℕ)
    → m ≤ fuel
    → fill sizes fuel round m got s ≡ outcome got (read_exact m s)
unfolding fill
fill-read_exact sizes fuel round zero got s h = unfold read_exact in rw (append-nil got)
fill-read_exact sizes zero round (suc m) got s h = absurd (omega arith)
fill-read_exact sizes (suc fuel) round (suc m) got [] h = unfold read_exact in refl
fill-read_exact sizes (suc fuel) round (suc m) got (b ∷ s) h =
    let n = chunk (suc m) (sizes round) (b ∷ s) in
    fill-read_exact sizes fuel (round + 1) (suc m - n) (got ++ take n (b ∷ s)) (drop n (b ∷ s))
      (omega arith)
    ∙ sym (read_exact-split n (suc m) (b ∷ s) got (omega arith) (omega arith))
