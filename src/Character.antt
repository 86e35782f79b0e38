-- ===== src/Character.antt =====
-- crates/chatty-broker/src/utils.rs: which characters the broker takes. The sizes of a PNG and the
-- trimming of a label are parameters; a text is its bytes.
pub mod Accepted
mod Runs
unfoldable pub use chatty.Common.Texts.{same_text}
pub use chatty.Common.Fallible.{Result, ok, err, ◌>>=◌, ◌>>◌, or_fail, fail_if}
use chatty.Common.{
  ℕ, ◌+◌, ◌*◌, min, Bool, true, false, ◌&&◌, ◌||◌, not, Option, none, some, List, [], ◌∷◌,
}
use chatty.Common.{ltb, ◌==◌, if◌then◌else◌, length}

pub record CharacterImage : Type 0 where
  pub id : List ℕ
  pub label : List ℕ
  pub png : List ℕ

-- The fields of `CharacterInput` that are looked at.
pub record CharacterInput : Type 0 where
  pub name : List ℕ
  pub description : List ℕ
  pub personality : List ℕ
  pub scenario : List ℕ
  pub system_prompt : List ℕ
  pub example_dialogue : List ℕ
  pub appearance : List ℕ
  pub age : List ℕ
  pub gender : List ℕ
  pub race : List ℕ
  pub misc : List ℕ
  pub tags : List (List ℕ)
  pub avatar : Option (List ℕ)
  pub images : List CharacterImage
  pub default_image_id : Option (List ℕ)

-- The texts of the first loop.
abbrev pub fields : CharacterInput → List (List ℕ)
fields c =
    c.description ∷ c.personality ∷ c.scenario ∷ c.system_prompt ∷ c.example_dialogue ∷ c.appearance
    ∷ c.age ∷ c.gender ∷ c.race ∷ c.misc ∷ []

pub data Error : Type 0 where
  credentials_length name_length field_too_large tags_too_large avatar_too_large too_many_images :
      Error
  image_invalid not_a_png image_dimensions images_too_large no_default_image : Error

-- `validate_credentials`
unfoldable pub validate_credentials : List ℕ → List ℕ → Result Error (Unit {0})
validate_credentials u p =
    fail_if (ltb (length u) 3 || ltb 64 (length u) || ltb (length p) 10 || ltb 1024 (length p))
      credentials_length

unfoldable pub has_id : List ℕ → List (List ℕ) → Bool
has_id id [] = false
has_id id (i ∷ ids) = same_text i id || has_id id ids

unfoldable pub any_longer : ℕ → List (List ℕ) → Bool
any_longer n [] = false
any_longer n (t ∷ ts) = ltb n (length t) || any_longer n ts

abbrev pub longer : ℕ → Option (List ℕ) → Bool
longer n none = false
longer n (some t) = ltb n (length t)

-- `saturating_add` on `usize`
abbrev pub add_usize : ℕ → ℕ → ℕ
add_usize a b = min (a + b) 18446744073709551615

abbrev pub max_image : ℕ
max_image = 2097152

abbrev pub max_images : ℕ
max_images = 5242880

-- The first test of the loop over the images, after the images with the ids `seen`.
abbrev pub is_bad : (List ℕ → Bool) → List (List ℕ) → CharacterImage → Bool
is_bad blank seen i =
    ltb (length i.id) 1
    || ltb 128 (length i.id)
    || has_id i.id seen
    || blank i.label
    || ltb 256 (length i.label)
    || ltb max_image (length i.png)

abbrev pub is_off_size : ℕ × ℕ → Bool
is_off_size (width, height) = ltb width 128 || ltb height 128 || ltb 512 width || ltb 512 height

-- The loop over the images: the total of their bytes.
unfoldable pub check_images :
    (List ℕ → Bool)
    → (List ℕ → Option (ℕ × ℕ))
    → List (List ℕ)
    → ℕ
    → List CharacterImage
    → Result Error ℕ
check_images blank dimensions seen total [] = ok total
check_images blank dimensions seen total (i ∷ images) = do
  fail_if (is_bad blank seen i) image_invalid
  size ← or_fail (dimensions i.png) not_a_png
  fail_if (is_off_size size) image_dimensions
  check_images blank dimensions (i.id ∷ seen) (add_usize total (length i.png)) images

abbrev pub ids : List CharacterImage → List (List ℕ)
ids [] = []
ids (i ∷ images) = i.id ∷ ids images

abbrev pub is_missing : Option (List ℕ) → List (List ℕ) → Bool
is_missing none known = false
is_missing (some id) known = not (has_id id known)

-- `validate_character`
unfoldable pub validate_character :
    (List ℕ → Bool) → (List ℕ → Option (ℕ × ℕ)) → CharacterInput → Result Error (Unit {0})
validate_character blank dimensions c = do
  fail_if (ltb (length c.name) 1 || ltb 256 (length c.name)) name_length
  fail_if (any_longer 65536 (fields c)) field_too_large
  fail_if (ltb 128 (length c.tags) || any_longer 256 c.tags) tags_too_large
  fail_if (longer max_image c.avatar) avatar_too_large
  fail_if (ltb 32 (length c.images)) too_many_images
  total ← check_images blank dimensions [] 0 c.images
  fail_if (ltb max_images total) images_too_large
  fail_if (is_missing c.default_image_id (ids c.images)) no_default_image
