-- ===== src/Base64/Runs.antt =====
-- The test vectors of RFC 4648, and the theorems at texts that decode.
use chatty.Common.{◌≡◌, refl, none, some, [], ◌∷◌, codes, arith}
use chatty.Base64.{encode, decode, digit, value_of, clean, is_whitespace, leading_pads, decode_loop}
use chatty.Base64.Decoder.{IsEncoded, decode_iff}
use chatty.Base64.RoundTrip.{decode-encode}

foobar : encode (codes "foobar") ≡ codes "Zm9vYmFy"
unfolding encode digit
foobar = refl

fooba : encode (codes "fooba") ≡ codes "Zm9vYmE="
unfolding encode digit
fooba = refl

foob_spaced : decode (codes " Zm9v\n Yg == ") ≡ some (codes "foob")
unfolding decode clean is_whitespace leading_pads decode_loop value_of
foob_spaced = refl

three_pads : decode (codes "Z===") ≡ none
unfolding decode clean is_whitespace leading_pads decode_loop value_of
three_pads = refl

decode-encode_example : decode (encode (255 ∷ 0 ∷ 7 ∷ 128 ∷ [])) ≡ some (255 ∷ 0 ∷ 7 ∷ 128 ∷ [])
decode-encode_example = decode-encode (255 ∷ 0 ∷ 7 ∷ 128 ∷ []) (omega arith)

decode_iff_example : IsEncoded (codes " Zm9v\n Yg == ")
decode_iff_example = (decode_iff (codes " Zm9v\n Yg == ")).0 (codes "foob", foob_spaced)
