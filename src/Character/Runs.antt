-- ===== src/Character/Runs.antt =====
-- A character with two images of 200 by 300.
use chatty.Common.{ℕ, ◌≡◌, refl, Bool, true, false, Option, none, some, List, [], ◌∷◌, replicate}
use chatty.Character.{
  ok, err, CharacterImage, CharacterInput, image_invalid, no_default_image, credentials_length,
  validate_credentials, validate_character, check_images, any_longer, has_id, same_text,
}
use chatty.Character.Accepted.{IsAccepted, validate_character-IsAccepted}

abbrev blank : List ℕ → Bool
blank [] = true
blank (b ∷ bs) = false

abbrev dimensions : List ℕ → Option (ℕ × ℕ)
dimensions png = some (200, 300)

abbrev face : CharacterImage
face = record { id = 1 ∷ []; label = 65 ∷ []; png = 9 ∷ 9 ∷ [] }

abbrev smile : CharacterImage
smile = record { id = 2 ∷ []; label = 66 ∷ []; png = 8 ∷ [] }

abbrev mira : CharacterInput
mira = record {
  name = 77 ∷ [];
  description = [];
  personality = [];
  scenario = [];
  system_prompt = [];
  example_dialogue = [];
  appearance = [];
  age = [];
  gender = [];
  race = [];
  misc = [];
  tags = (7 ∷ []) ∷ [];
  avatar = none;
  images = face ∷ smile ∷ [];
  default_image_id = some (2 ∷ []);
}

mira_test : validate_character blank dimensions mira ≡ ok tt
unfolding validate_character check_images any_longer has_id same_text
mira_test = refl

twice_test :
    validate_character blank dimensions (record mira { images = face ∷ face ∷ [] })
    ≡ err image_invalid
unfolding validate_character check_images any_longer has_id same_text
twice_test = refl

default_test :
    validate_character blank dimensions (record mira { default_image_id = some (3 ∷ []) })
    ≡ err no_default_image
unfolding validate_character check_images any_longer has_id same_text
default_test = refl

credentials_test : validate_credentials (1 ∷ 2 ∷ []) (replicate 10 1) ≡ err credentials_length
unfolding validate_credentials
credentials_test = refl

validate_character-IsAccepted_example : IsAccepted dimensions mira
validate_character-IsAccepted_example =
    validate_character-IsAccepted blank dimensions mira mira_test
