-- ===== src/Images.antt =====
-- crates/chatty-broker/src/utils.rs: how images are encrypted for the database. The cipher, the
-- source of random bytes and the encoding of bincode are parameters. A text is its bytes.
pub mod Names
pub mod RoundTrip
mod Runs
pub use chatty.Common.Texts.{strip_prefix}
use chatty.Common.Fallible.{Result, ok, err, ◌>>=◌, ◌>>◌, or_fail, fail_if}
use chatty.Common.{
  ◌≡◌, ℕ, Bool, Option, none, some, List, [], ◌∷◌, ◌++◌, ltb, ◌==◌, if◌then◌else◌, length, take,
  drop,
}

-- `IMAGE_CIPHERTEXT_MAGIC`, the bytes of `CHIMG1`
abbrev pub magic : List ℕ
magic = 67 ∷ 72 ∷ 73 ∷ 77 ∷ 71 ∷ 49 ∷ []

abbrev pub nonce_len : ℕ
nonce_len = 24

pub data Error : Type 0 where
  generate_nonce encrypt_image decrypt_image not_encrypted truncated codec : Error

-- XChaCha20-Poly1305: key, nonce, associated data, and the message or the ciphertext.
pub record Aead : Type 0 where
  pub encrypt : List ℕ → List ℕ → List ℕ → List ℕ → Option (List ℕ)
  pub decrypt : List ℕ → List ℕ → List ℕ → List ℕ → Option (List ℕ)

-- Decryption under the key, the nonce and the associated data of an encryption gives the message.
abbrev pub IsAead : Aead → Type 0
IsAead a =
    (key nonce aad msg c : List ℕ)
    → a.encrypt key nonce aad msg ≡ some c
    → a.decrypt key nonce aad c ≡ some msg

-- `encrypt_image_bytes`; `random` is what `getrandom` fills the nonce with.
unfoldable pub encrypt_image_bytes :
    Aead → Option (List ℕ) → List ℕ → List ℕ → List ℕ → Result Error (List ℕ)
encrypt_image_bytes a random key aad plaintext = do
  nonce ← or_fail random generate_nonce
  ciphertext ← or_fail (a.encrypt key nonce aad plaintext) encrypt_image
  ok (magic ++ nonce ++ ciphertext)

-- `decrypt_image_bytes`
unfoldable pub decrypt_image_bytes : Aead → List ℕ → List ℕ → List ℕ → Result Error (List ℕ)
decrypt_image_bytes a key aad stored = do
  encrypted ← or_fail (strip_prefix magic stored) not_encrypted
  fail_if (ltb (length encrypted) nonce_len) truncated
  or_fail (a.decrypt key (take nonce_len encrypted) aad (drop nonce_len encrypted)) decrypt_image

-- `format!("{owner_id}:{character_id}")`
abbrev pub character_aad : List ℕ → List ℕ → List ℕ
character_aad owner_id character_id = owner_id ++ 58 ∷ character_id

-- `format!("message:{owner_id}:{message_id}")`
abbrev pub message_aad : List ℕ → List ℕ → List ℕ
message_aad owner_id message_id =
    109 ∷ 101 ∷ 115 ∷ 115 ∷ 97 ∷ 103 ∷ 101 ∷ 58 ∷ owner_id ++ 58 ∷ message_id

-- `CharacterImage` is a type of the wire protocol; bincode encodes a list of them.
pub record Codec {ℓ} (Image : Type ℓ) : Type ℓ where
  pub encode : List Image → Option (List ℕ)
  pub decode : List ℕ → Option (List Image)

abbrev pub IsCodec {ℓ} : {Image : Type ℓ} → Codec Image → Type ℓ
IsCodec {Image = Image} c =
    (images : List Image) (bs : List ℕ) → c.encode images ≡ some bs → c.decode bs ≡ some images

-- `encrypt_character_images`
unfoldable pub encrypt_character_images {ℓ} :
    {Image : Type ℓ}
    → Aead
    → Codec Image
    → Option (List ℕ)
    → List ℕ
    → List ℕ
    → List ℕ
    → List Image
    → Result Error (List ℕ)
encrypt_character_images a c random key owner_id character_id [] = ok []
encrypt_character_images a c random key owner_id character_id (i ∷ images) = do
  bytes ← or_fail (c.encode (i ∷ images)) codec
  encrypt_image_bytes a random key (character_aad owner_id character_id) bytes

-- `decrypt_character_images`
unfoldable pub decrypt_character_images {ℓ} :
    {Image : Type ℓ}
    → Aead
    → Codec Image
    → List ℕ
    → List ℕ
    → List ℕ
    → List ℕ
    → Result Error (List Image)
decrypt_character_images a c key owner_id character_id [] = ok []
decrypt_character_images a c key owner_id character_id (b ∷ stored) = do
  plaintext ← decrypt_image_bytes a key (character_aad owner_id character_id) (b ∷ stored)
  or_fail (c.decode plaintext) codec

-- `encrypt_message_image`, `decrypt_message_image`
unfoldable pub encrypt_message_image :
    Aead → Option (List ℕ) → List ℕ → List ℕ → List ℕ → List ℕ → Result Error (List ℕ)
encrypt_message_image a random key owner_id message_id png =
    encrypt_image_bytes a random key (message_aad owner_id message_id) png

unfoldable pub decrypt_message_image :
    Aead → List ℕ → List ℕ → List ℕ → List ℕ → Result Error (List ℕ)
decrypt_message_image a key owner_id message_id stored =
    decrypt_image_bytes a key (message_aad owner_id message_id) stored
