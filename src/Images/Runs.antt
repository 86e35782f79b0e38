-- ===== src/Images/Runs.antt =====
-- A cipher that puts the associated data before the message, and images that are numbers.
use chatty.Common.Texts.{strip_prefix}
use chatty.Common.{
  arith, ap, ℕ, ◌≡◌, ◌≢◌, refl, some, List, [], ◌∷◌, ◌++◌, length, drop, replicate, drop-append,
}
use mathlib.Core.Path.{subst}
use chatty.Common.{none}
use chatty.Images.{
  Aead, IsAead, Codec, IsCodec, ok, err, ◌>>=◌, not_encrypted, truncated, decrypt_image_bytes,
  encrypt_character_images, decrypt_character_images,
}
use chatty.Images.RoundTrip.{decrypt_character_images-encrypt_character_images}

abbrev plain : Aead
plain = record {
  encrypt = λ key nonce aad msg. some (aad ++ msg);
  decrypt = λ key nonce aad c. some (drop (length aad) c);
}

plain-IsAead : IsAead plain
plain-IsAead key nonce aad msg c e =
    subst (λ d. some (drop (length aad) d) ≡ some msg) (cc e) (ap some (drop-append aad msg))

abbrev numbers : Codec ℕ
numbers = record { encode = λ images. some images; decode = λ bs. some bs }

numbers-IsCodec : IsCodec numbers
numbers-IsCodec images bs e = cc e

decrypt_test : decrypt_image_bytes plain [] [] (1 ∷ 2 ∷ []) ≡ err not_encrypted
unfolding decrypt_image_bytes strip_prefix
decrypt_test = refl

truncated_test :
    decrypt_image_bytes plain [] [] (67 ∷ 72 ∷ 73 ∷ 77 ∷ 71 ∷ 49 ∷ 5 ∷ []) ≡ err truncated
unfolding decrypt_image_bytes strip_prefix
truncated_test = refl

abbrev nonce : List ℕ
nonce = replicate 24 7

decrypt_character_images-encrypt_character_images_example :
    ((encrypt_character_images plain numbers (some nonce) (1 ∷ []) (5 ∷ []) (6 ∷ []) (8 ∷ 9 ∷ [])
        >>= λ stored. decrypt_character_images plain numbers (1 ∷ []) (5 ∷ []) (6 ∷ []) stored)
      ≡ ok (8 ∷ 9 ∷ []))
    × (encrypt_character_images plain numbers none (1 ∷ []) (5 ∷ []) (6 ∷ []) [] ≡ ok [])
decrypt_character_images-encrypt_character_images_example =
    decrypt_character_images-encrypt_character_images plain numbers none (1 ∷ []) nonce (5 ∷ [])
      (6 ∷ []) (8 ∷ 9 ∷ []) (5 ∷ 58 ∷ 6 ∷ 8 ∷ 9 ∷ []) (8 ∷ 9 ∷ []) plain-IsAead numbers-IsCodec refl
      refl refl

abbrev owner : List ℕ
owner = 5 ∷ []

abbrev mine : List ℕ
mine = 6 ∷ []

abbrev other : List ℕ
other = 7 ∷ []

not_colon : ◌≢◌ {A = ℕ} 5 58
not_colon e = omega (arith, e)

not_the_word : owner ≢ (109 ∷ 101 ∷ 115 ∷ 115 ∷ 97 ∷ 103 ∷ 101 ∷ [])
not_the_word e = cc e
