-- ===== src/Common/Bytes.antt =====
-- Bytes as numbers below 256, big-endian integers of a fixed number of bytes, and reading from a
-- stream of bytes.
use Prim.Native.Nat.{ℕ, zero, suc, ◌+◌, ◌*◌, ◌/◌, ◌%◌, ◌^◌, ◌≤◌, ◌<◌}
use mathlib.Core.Path.{◌≡◌, refl, ap, ◌∙◌}
use mathlib.Core.List.{List, [], ◌∷◌, ◌++◌}
use mathlib.Core.Option.{Option, none, some}
use native.Mathlib.Nat.{pow-suc}
use native.Mathlib.Omega.{arith}
use chatty.Common.Lists.{length, length-append, All, All-append}

abbrev pub IsByte : ℕ → Type 0
IsByte b = b < 256

-- `put_u32`, `put_u64`, `to_be_bytes`: the number in so many bytes, the highest first.
unfoldable pub be_bytes : ℕ → ℕ → List ℕ
be_bytes zero v = []
be_bytes (suc k) v = be_bytes k (v / 256) ++ (v % 256) ∷ []

-- `get_u32`, `get_u64`, `from_be_bytes`.
unfoldable pub be_value : ℕ → List ℕ → ℕ
be_value acc [] = acc
be_value acc (b ∷ bs) = be_value (acc * 256 + b) bs

be_value-append :
    (acc : ℕ) (bs : List ℕ) (b : ℕ) → be_value acc (bs ++ b ∷ []) ≡ be_value acc bs * 256 + b
unfolding be_value
be_value-append acc [] b = refl
be_value-append acc (c ∷ bs) b = be_value-append (acc * 256 + c) bs b

be_value-be_bytes_from :
    (k acc v : ℕ) → v < 256 ^ k → be_value acc (be_bytes k v) ≡ acc * 256 ^ k + v
unfolding be_bytes
be_value-be_bytes_from zero acc v h = unfold be_value in omega arith
be_value-be_bytes_from (suc k) acc v h =
    be_value-append acc (be_bytes k (v / 256)) (v % 256)
    ∙ grind (
      arith,
      be_value-be_bytes_from k acc (v / 256),
      pow-suc 256 k,
      ap (λ (t : ℕ). acc * t) (pow-suc 256 k),
    )

-- Reading back a number that fits its bytes gives the number.
pub be_value-be_bytes : (k v : ℕ) → v < 256 ^ k → be_value 0 (be_bytes k v) ≡ v
be_value-be_bytes k v h = omega (arith, be_value-be_bytes_from k 0 v h)

pub length-be_bytes : (k v : ℕ) → length (be_bytes k v) ≡ k
unfolding be_bytes
length-be_bytes zero v = refl
length-be_bytes (suc k) v =
    omega
      (arith, length-append (be_bytes k (v / 256)) ((v % 256) ∷ []), length-be_bytes k (v / 256))

pub be_bytes-All : (k v : ℕ) → All IsByte (be_bytes k v)
unfolding be_bytes
be_bytes-All zero v = tt
be_bytes-All (suc k) v =
    All-append IsByte (be_bytes k (v / 256)) ((v % 256) ∷ []) (be_bytes-All k (v / 256))
      (omega arith)

abbrev pub push_byte : ℕ → Option (List ℕ × List ℕ) → Option (List ℕ × List ℕ)
push_byte b none = none
push_byte b (some (xs, r)) = some (b ∷ xs, r)

-- `read_exact`: the first bytes and what follows them, or `none` at the end of the stream.
unfoldable pub read_exact : ℕ → List ℕ → Option (List ℕ × List ℕ)
read_exact zero s = some ([], s)
read_exact (suc n) [] = none
read_exact (suc n) (b ∷ s) = push_byte b (read_exact n s)

pub read_exact-append : (xs ys : List ℕ) → read_exact (length xs) (xs ++ ys) ≡ some (xs, ys)
unfolding read_exact
read_exact-append [] ys = refl
read_exact-append (x ∷ xs) ys = rw (read_exact-append xs ys)

-- The same with the number of bytes given by an equation.
pub read_exact-append_of :
    (n : ℕ) (xs ys : List ℕ) → length xs ≡ n → read_exact n (xs ++ ys) ≡ some (xs, ys)
read_exact-append_of n xs ys h = rw (← h) (read_exact-append xs ys)

pub read_exact-parts :
    (n : ℕ) (s xs r : List ℕ) → read_exact n s ≡ some (xs, r) → (s ≡ xs ++ r) × (length xs ≡ n)
unfolding read_exact
read_exact-parts zero s [] r h = ground arith
read_exact-parts zero s (x ∷ xs) r h = absurd (ground arith)
read_exact-parts (suc n) [] xs r h = absurd (ground arith)
read_exact-parts (suc n) (b ∷ s) [] r h = absurd (ground arith)
read_exact-parts (suc n) (b ∷ s) (x ∷ xs) r h = ground (arith, read_exact-parts n s xs r)

-- A stream that is too short ends the read.
pub read_exact-short : (n : ℕ) (s : List ℕ) → length s < n → read_exact n s ≡ none
unfolding read_exact
read_exact-short zero s h = absurd (omega arith)
read_exact-short (suc n) [] h = refl
read_exact-short (suc n) (b ∷ s) h = rw (read_exact-short n s (omega arith))

-- A stream that is long enough gives its first bytes.
pub read_exact-long :
    (n : ℕ) (s : List ℕ)
    → n ≤ length s
    → (xs : List ℕ) × (r : List ℕ) × (read_exact n s ≡ some (xs, r))
unfolding read_exact
read_exact-long zero s h = ([], s, refl)
read_exact-long (suc n) [] h = absurd (omega arith)
read_exact-long (suc n) (b ∷ s) h =
    let (xs, r, e) = read_exact-long n s (omega arith) in (b ∷ xs, r, rw e)

-- Two ways to take a stream apart at one place are the same.
pub split_unique :
    (xs ys r q : List ℕ) → length xs ≡ length ys → xs ++ r ≡ ys ++ q → (xs ≡ ys) × (r ≡ q)
split_unique [] [] r q h e = (refl, e)
split_unique [] (y ∷ ys) r q h e = absurd (omega arith)
split_unique (x ∷ xs) [] r q h e = absurd (omega arith)
split_unique (x ∷ xs) (y ∷ ys) r q h e =
    let (same, rest) = split_unique xs ys r q (omega arith) (cc) in (cc, rest)
