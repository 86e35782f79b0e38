-- ===== src/Base64.antt =====
-- crates/chatty-protocol/src/util/base64.rs: encoding and decoding, RFC 4648 with padding.
-- A text is the list of its bytes.
mod Table
mod Words
pub mod Decoder
pub mod RoundTrip
mod Runs
use chatty.Common.{
  ℕ, ◌+◌, ◌-◌, ◌*◌, ◌/◌, ◌%◌, ◌^◌, Bool, true, false, ◌&&◌, ◌||◌, not, Option, none, some,
}
use chatty.Common.{List, [], ◌∷◌, ◌++◌, leb, ltb, ◌==◌, if◌then◌else◌, length, take, get_or, codes}
use mathlib.Core.List.{reverse}

abbrev pub alphabet : List ℕ
alphabet = codes "ABCDEFGHIJKLMNOPQRSTUVWXYZabcdefghijklmnopqrstuvwxyz0123456789+/"

unfoldable pub value_of : ℕ → Option ℕ
value_of byte =
    if leb b'A' byte && leb byte b'Z'
    then some (byte - b'A')
    else if leb b'a' byte && leb byte b'z'
    then some (byte - b'a' + 26)
    else if leb b'0' byte && leb byte b'9'
    then some (byte - b'0' + 52)
    else if byte == b'+'
    then some 62
    else if byte == b'/'
    then some 63
    else none

-- `ALPHABET[(word >> shift & 63) as usize]`
unfoldable pub digit : ℕ → ℕ
digit v = get_or alphabet v 0

-- `u32::from_be_bytes([0, a, b, c])`
abbrev pub word_of : ℕ → ℕ → ℕ → ℕ
word_of a b c = a * 65536 + b * 256 + c

abbrev pub sextet : ℕ → ℕ → ℕ
sextet word shift = word / 2 ^ shift % 64

unfoldable pub encode : List ℕ → List ℕ
encode [] = []
encode (a ∷ []) =
    let w = word_of a 0 0 in digit (sextet w 18) ∷ digit (sextet w 12) ∷ b'=' ∷ b'=' ∷ []
encode (a ∷ b ∷ []) =
    let w = word_of a b 0 in
    digit (sextet w 18) ∷ digit (sextet w 12) ∷ digit (sextet w 6) ∷ b'=' ∷ []
encode (a ∷ b ∷ c ∷ rest) =
    let w = word_of a b c in
    digit (sextet w 18)
    ∷ digit (sextet w 12)
    ∷ digit (sextet w 6)
    ∷ digit (sextet w 0)
    ∷ encode rest

-- `u8::is_ascii_whitespace`
unfoldable pub is_whitespace : ℕ → Bool
is_whitespace b = b == 9 || b == 10 || b == 12 || b == 13 || b == 32

unfoldable pub clean : List ℕ → List ℕ
clean [] = []
clean (b ∷ bs) = if is_whitespace b then clean bs else b ∷ clean bs

-- `take_while(|b| b == '=').count()`
unfoldable pub leading_pads : List ℕ → ℕ
leading_pads [] = 0
leading_pads (b ∷ bs) = if b == b'=' then leading_pads bs + 1 else 0

-- `accumulator << 6 | v`, in 32 bits; the low six bits are free.
abbrev pub shift_in : ℕ → ℕ → ℕ
shift_in acc v = acc * 64 % 2 ^ 32 + v

-- One byte of input: what is kept, and the byte that is pushed once eight bits are at hand.
abbrev pub after_digit : ℕ → ℕ → List ℕ → ℕ → ℕ × ℕ × List ℕ
after_digit acc bits out v =
    if leb 8 (bits + 6)
    then (shift_in acc v, bits + 6 - 8, out ++ (shift_in acc v / 2 ^ (bits + 6 - 8) % 256) ∷ [])
    else (shift_in acc v, bits + 6, out)

unfoldable pub decode_loop : ℕ → ℕ → List ℕ → List ℕ → Option (List ℕ)
decode_loop acc bits out [] = some out
decode_loop acc bits out (b ∷ bs) = elim (value_of b) [
  | none ↦ none
  | some v ↦ let (acc', bits', out') = after_digit acc bits out v in decode_loop acc' bits' out' bs
]

unfoldable pub decode : List ℕ → Option (List ℕ)
decode input =
    let cleaned = clean input in
    let padding = leading_pads (reverse cleaned) in
    if ltb 2 padding || not (length cleaned % 4 == 0)
    then none
    else decode_loop 0 0 [] (take (length cleaned - padding) cleaned)
