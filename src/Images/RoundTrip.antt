-- ===== src/Images/RoundTrip.antt =====
-- What was encrypted is decrypted, under the same key and for the same owner and image.
use chatty.Common.Texts.{strip_prefix}
use chatty.Common.{
  Option, false, ℕ, ◌≡◌, refl, some, List, [], ◌∷◌, ◌++◌, length, take, drop, ltb, length-append,
  take-append, drop-append, arith, le→ltb,
}
use mathlib.Core.Path.{subst}
use chatty.Images.{
  ok, ◌>>=◌, Aead, IsAead, Codec, IsCodec, magic, encrypt_image_bytes, decrypt_image_bytes,
  encrypt_character_images, decrypt_character_images, encrypt_message_image, decrypt_message_image,
  character_aad, message_aad,
}

strip_prefix-append : (ps bs : List ℕ) → strip_prefix ps (ps ++ bs) ≡ some bs
unfolding strip_prefix
strip_prefix-append [] bs = refl
strip_prefix-append (p ∷ ps) bs = rw (strip_prefix-append ps bs) (ground arith)

module _ (a : Aead) (law : IsAead a) (key nonce aad msg c : List ℕ) (full : length nonce ≡ 24)
    (enc : a.encrypt key nonce aad msg ≡ some c) where
  pub encrypted_stored : encrypt_image_bytes a (some nonce) key aad msg ≡ ok (magic ++ nonce ++ c)
  unfolding encrypt_image_bytes
  encrypted_stored = rw enc refl

  pub decrypted_stored : decrypt_image_bytes a key aad (magic ++ nonce ++ c) ≡ ok msg
  unfolding decrypt_image_bytes
  decrypted_stored =
      let long : ltb (length (nonce ++ c)) 24 ≡ false =
        le→ltb (length (nonce ++ c)) 24 (omega (arith, length-append nonce c, full)) in
      let first : take 24 (nonce ++ c) ≡ nonce =
        subst (λ n. take n (nonce ++ c) ≡ nonce) full (take-append nonce c) in
      let after : drop 24 (nonce ++ c) ≡ c =
        subst (λ n. drop n (nonce ++ c) ≡ c) full (drop-append nonce c) in
      rw (strip_prefix-append magic (nonce ++ c), long, first, after, law key nonce aad msg c enc)
        refl

-- With a nonce of 24 bytes, and where the encoding and the cipher take what they are given, the
-- images of a character come back from what is stored for them; and no images are stored as no bytes at
-- all, for which neither the encoding nor the cipher is asked.
pub decrypt_character_images-encrypt_character_images {ℓ} :
    {Image : Type ℓ} (a : Aead) (c : Codec Image) (random : Option (List ℕ))
    (key nonce owner_id character_id bytes ct : List ℕ) (images : List Image)
    → IsAead a
    → IsCodec c
    → length nonce ≡ 24
    → c.encode images ≡ some bytes
    → a.encrypt key nonce (character_aad owner_id character_id) bytes ≡ some ct
    → ((encrypt_character_images a c (some nonce) key owner_id character_id images >>= λ stored.
          decrypt_character_images a c key owner_id character_id stored)
        ≡ ok images)
      × (encrypt_character_images a c random key owner_id character_id [] ≡ ok [])
unfolding encrypt_character_images decrypt_character_images
decrypt_character_images-encrypt_character_images a c random key nonce o i bytes ct [] law codec
      full e f =
    (refl, refl)
decrypt_character_images-encrypt_character_images a c random key nonce o i bytes ct (x ∷ images) law
      codec full e f =
    (
      rw
          (
            e,
            encrypted_stored a law key nonce (character_aad o i) bytes ct full f,
            decrypted_stored a law key nonce (character_aad o i) bytes ct full f,
            codec (x ∷ images) bytes e,
          )
          refl,
      refl,
    )

-- The same of the picture of a message.
decrypt_message_image-encrypt_message_image :
    (a : Aead) (key nonce owner_id message_id png ct : List ℕ)
    → IsAead a
    → length nonce ≡ 24
    → a.encrypt key nonce (message_aad owner_id message_id) png ≡ some ct
    → (encrypt_message_image a (some nonce) key owner_id message_id png >>= λ stored.
        decrypt_message_image a key owner_id message_id stored)
      ≡ ok png
unfolding encrypt_message_image decrypt_message_image
decrypt_message_image-encrypt_message_image a key nonce o i png ct law full f =
    rw (encrypted_stored a law key nonce (message_aad o i) png ct full f)
      (decrypted_stored a law key nonce (message_aad o i) png ct full f)
