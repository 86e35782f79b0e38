-- ===== src/Tokenizer/Alphabet.antt =====
-- The map from bytes to characters is reversible.
use chatty.Common.{
  ℕ, ◌<◌, ◌≡◌, refl, Bool, true, false, Option, none, some, ◌==◌, get_or, length, all_below,
  all_below_sound, arith,
}
use chatty.Tokenizer.{byte_chars_from, byte_chars, char_bytes_from, char_byte}

abbrev is_byte : Option ℕ → ℕ → Bool
is_byte none b = false
is_byte (some c) b = c == b

is_byte-eq : (o : Option ℕ) (b : ℕ) → is_byte o b ≡ true → o ≡ some b
is_byte-eq none b h = absurd (cc h)
is_byte-eq (some c) b h = ground (arith, h)

pub length-byte_chars : length byte_chars ≡ 256
unfolding byte_chars byte_chars_from
length-byte_chars = refl

round_trip :
    all_below
      (λ b. is_byte (char_byte (char_bytes_from 0 byte_chars) (get_or byte_chars b 0)) b)
      256
    ≡ true
unfolding all_below char_byte char_bytes_from byte_chars byte_chars_from
round_trip = refl

-- Every byte has a character of its own.
pub char_byte_of_byte :
    (b : ℕ) → b < 256 → char_byte (char_bytes_from 0 byte_chars) (get_or byte_chars b 0) ≡ some b
char_byte_of_byte b lt = is_byte-eq _ b (
    all_below_sound
      (λ c. is_byte (char_byte (char_bytes_from 0 byte_chars) (get_or byte_chars c 0)) c) 256 b
      round_trip lt)
