-- ===== src/Catalog/Extents.antt =====
-- What `extent` accepts.
use chatty.Common.{
  either_false, not-false, ℕ, ◌+◌, ◌-◌, ◌*◌, ◌^◌, ◌≤◌, ◌<◌, ◌≡◌, refl, Bool, true, false, Option,
  none, some, List, [], ◌∷◌, ltb, leb, if◌then◌else◌, arith, inl, inr, Option-cases, ltb→le,
}
use chatty.Common.Fallible.{fail_if_passed, or_fail_passed, ok_inj}
use native.Mathlib.Nat.{mul_assoc, mul_comm}
use mathlib.Core.Path.{subst}
use chatty.Catalog.{
  ok, Dtype, parse_dtype, element_bytes, Extent, TensorEntry, expected_bytes, is_expected, extent,
  wrong_offsets, past_end, unsupported_dtype,
}

-- The elements of a shape, times a number of bytes.
unfoldable pub product : ℕ → List ℕ → ℕ
product bytes [] = bytes
product bytes (dim ∷ shape) = product (bytes * dim) shape

-- An extent of an entry: it lies in the file, after the header, and holds the elements of the shape.
pub record IsLocated (shard : ℕ) (entry : TensorEntry) (data_start file_len : ℕ) (dtype : Dtype)
    (e : Extent) : Type 0 where
  pub dtypes : parse_dtype entry.dtype ≡ some dtype
  pub shards : e.shard ≡ shard
  pub after : data_start ≤ e.offset
  pub within : e.offset + e.len ≤ file_len
  pub bounded : e.offset + e.len < 2 ^ 64
  pub sized : e.len ≡ product (element_bytes dtype) entry.shape

expected_bytes-none : (shape : List ℕ) → expected_bytes none shape ≡ none
expected_bytes-none [] = refl
expected_bytes-none (dim ∷ shape) = expected_bytes-none shape

expected_bytes-product :
    (bytes m : ℕ) (shape : List ℕ)
    → expected_bytes (some bytes) shape ≡ some m
    → m ≡ product bytes shape
unfolding product
expected_bytes-product bytes m [] h = cc h
expected_bytes-product bytes m (dim ∷ shape) h =
    fitting (expected_bytes-product (bytes * dim) m shape) (ltb (bytes * dim) (2 ^ 64)) h
  where
    fitting :
        (expected_bytes (some (bytes * dim)) shape ≡ some m → m ≡ product (bytes * dim) shape)
        → (fits : Bool) → expected_bytes (if fits then some (bytes * dim) else none) shape ≡ some m
        → m ≡ product (bytes * dim) shape
    fitting later true h = later h
    fitting later false h = absurd (cc (h, expected_bytes-none shape))

is_expected-product :
    (bytes len : ℕ) (shape : List ℕ)
    → is_expected (expected_bytes (some bytes) shape) len ≡ true
    → len ≡ product bytes shape
is_expected-product bytes len shape h = elim (Option-cases (expected_bytes (some bytes) shape)) [
  | inl none_left ↦ absurd (no_bytes (expected_bytes (some bytes) shape) none_left h)
  | inr (m, e) ↦ ground (
    arith,
    expected_bytes-product bytes m shape e,
    has_bytes (expected_bytes (some bytes) shape) m e h,
  )
]
  where
    no_bytes : (o : Option ℕ) → o ≡ none → is_expected o len ≡ true → ⊥
    no_bytes none e h = absurd (cc h)
    no_bytes (some n) e h = absurd (cc e)

    has_bytes : (o : Option ℕ) (m : ℕ) → o ≡ some m → is_expected o len ≡ true → m ≡ len
    has_bytes none m e h = absurd (cc h)
    has_bytes (some n) m e h = let same : n ≡ m = cc e in ground arith

pub product-mul :
    (bytes k : ℕ) (shape : List ℕ) → product (bytes * k) shape ≡ product bytes shape * k
unfolding product
product-mul bytes k [] = refl
product-mul bytes k (dim ∷ shape) =
    rw (mul_assoc bytes k dim, mul_comm k dim, ← mul_assoc bytes dim k)
      (product-mul (bytes * dim) k shape)

pub extent-IsLocated :
    (shard : ℕ) (entry : TensorEntry) (data_start file_len : ℕ) (dtype : Dtype) (e : Extent)
    → extent shard entry data_start file_len ≡ ok (dtype, e)
    → IsLocated shard entry data_start file_len dtype e
unfolding extent
extent-IsLocated shard entry data_start file_len dtype e h =
    let (d, known, h1) = or_fail_passed (parse_dtype entry.dtype) unsupported_dtype _ h in
    let (matching, h2) = fail_if_passed _ wrong_offsets _ h1 in
    let (inside, h3) = fail_if_passed _ past_end _ h2 in
    let found : Extent = record {
      shard = shard;
      offset = data_start + entry.begins;
      len = entry.ends - entry.begins;
    } in
    let same : (d, found) ≡ (dtype, e) = ok_inj h3 in
    let (ordered, expected) = either_false _ _ matching in
    let (small, short) = either_false _ _ inside in
    let len_eq =
      is_expected-product (element_bytes d) (entry.ends - entry.begins) entry.shape
        (not-false _ expected) in
    let order = ltb→le entry.ends entry.begins ordered in
    let small_eq : leb (2 ^ 64) (data_start + entry.ends) ≡ false = small in
    let below : data_start + entry.ends < 2 ^ 64 = ground (arith, small_eq) in
    let bound = ltb→le file_len (data_start + entry.ends) short in
    let located : IsLocated shard entry data_start file_len d found = record {
      dtypes = known;
      shards = refl;
      after = omega arith;
      within = omega (arith, order, bound);
      bounded = omega (arith, order, below);
      sized = len_eq;
    } in
    subst (λ (t, x). IsLocated shard entry data_start file_len t x) same located
