-- ===== src/Base64/Table.antt =====
-- The two tables against each other: the 64 digits, checked by evaluation.
use chatty.Common.{
  ℕ, ◌≡◌, ◌<◌, refl, Bool, true, false, Option, none, some, ◌==◌, not, ◌&&◌, arith, all_below,
  all_below_sound,
}
use chatty.Base64.{value_of, digit, is_whitespace}

is_value : ℕ → Option ℕ → Bool
is_value v none = false
is_value v (some w) = w == v

is_value-eq : (v : ℕ) (o : Option ℕ) → is_value v o ≡ true → o ≡ some v
unfolding is_value
is_value-eq v none h = cc
is_value-eq v (some w) h = ground arith

is_digit : ℕ → Bool
is_digit v =
    is_value v (value_of (digit v)) && not (is_whitespace (digit v)) && not (digit v == b'=')

is_digit_below : (v : ℕ) → v < 64 → is_digit v ≡ true
unfolding all_below is_digit is_value value_of digit is_whitespace
is_digit_below v h = all_below_sound is_digit 64 v refl h

pub value_of-digit : (v : ℕ) → v < 64 → value_of (digit v) ≡ some v
unfolding is_digit
value_of-digit v h = is_value-eq v _ (ground (arith, is_digit_below v h))

pub is_whitespace-digit : (v : ℕ) → v < 64 → is_whitespace (digit v) ≡ false
unfolding is_digit
is_whitespace-digit v h = ground (arith, is_digit_below v h)

pub digit-ne-pad : (v : ℕ) → v < 64 → (digit v == b'=') ≡ false
unfolding is_digit
digit-ne-pad v h = ground (arith, is_digit_below v h)
