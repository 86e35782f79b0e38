-- ===== src/Character/Accepted.antt =====
-- What is known of a character that the broker has taken.
use chatty.Common.{
  ℕ, ◌+◌, ◌*◌, ◌≤◌, ◌<◌, ◌≡◌, Bool, true, false, ◌||◌, Option, none, some, List, [], ◌∷◌,
}
use chatty.Common.{All, either_false, ltb→le, ltb, length, arith}
use chatty.Common.Fallible.{Result-passed, fail_if_passed, or_fail_passed}
use chatty.Common.Texts.{same_text-length}
use chatty.Character.{
  ok, CharacterImage, CharacterInput, fields, has_id, any_longer, longer, add_usize, max_image,
  max_images, is_bad, is_off_size, check_images, ids, is_missing, validate_character,
}

abbrev pub sum_lengths : List (List ℕ) → ℕ
sum_lengths [] = 0
sum_lengths (t ∷ ts) = length t + sum_lengths ts

abbrev pub png_bytes : List CharacterImage → ℕ
png_bytes [] = 0
png_bytes (i ∷ images) = length i.png + png_bytes images

abbrev pub or_empty : Option (List ℕ) → List ℕ
or_empty none = []
or_empty (some t) = t

-- The images after those with the ids `seen`.
abbrev pub AreAccepted : (List ℕ → Option (ℕ × ℕ)) → List (List ℕ) → List CharacterImage → Type 0
AreAccepted dimensions seen [] = Unit {0}
AreAccepted dimensions seen (i ∷ images) =
    (has_id i.id seen ≡ false)
    × (0 < length i.id)
    × (length i.id ≤ 128)
    × (length i.label ≤ 256)
    × (length i.png ≤ max_image)
    × ((size : ℕ × ℕ) × (dimensions i.png ≡ some size)
        × (128 ≤ size.0)
        × (size.0 ≤ 512)
        × (128 ≤ size.1)
        × (size.1 ≤ 512))
    × AreAccepted dimensions (i.id ∷ seen) images

module _ (blank : List ℕ → Bool) (dimensions : List ℕ → Option (ℕ × ℕ)) where
  pub check_images-AreAccepted :
      (seen : List (List ℕ)) (total : ℕ) (images : List CharacterImage) {sum : ℕ}
      → check_images blank dimensions seen total images ≡ ok sum
      → AreAccepted dimensions seen images
  unfolding check_images
  check_images-AreAccepted seen total [] h = tt
  check_images-AreAccepted seen total (i ∷ images) h =
      let (good, h1) = fail_if_passed (is_bad blank seen i) _ _ h in
      let (size, found, h2) = or_fail_passed (dimensions i.png) _ _ h1 in
      let (fits, h3) = fail_if_passed (is_off_size size) _ _ h2 in
      (
        ground (arith, good),
        ground (arith, good),
        ground (arith, good),
        ground (arith, good),
        ground (arith, good),
        (
          size,
          found,
          ground (arith, fits),
          ground (arith, fits),
          ground (arith, fits),
          ground (arith, fits),
        ),
        check_images-AreAccepted (i.id ∷ seen) (add_usize total (length i.png)) images h3,
      )

  -- The total saturates only where it is refused.
  pub check_images-total :
      (seen : List (List ℕ)) (total : ℕ) (images : List CharacterImage) {sum : ℕ}
      → check_images blank dimensions seen total images ≡ ok sum
      → sum ≤ max_images
      → total + png_bytes images ≡ sum
  unfolding check_images
  check_images-total seen total [] h le = ground (arith, h)
  check_images-total seen total (i ∷ images) {sum} h le =
      let (good, h1) = fail_if_passed (is_bad blank seen i) _ _ h in
      let (size, found, h2) = or_fail_passed (dimensions i.png) _ _ h1 in
      let (fits, h3) = fail_if_passed (is_off_size size) _ _ h2 in
      let rest = check_images-total (i.id ∷ seen) (add_usize total (length i.png)) images h3 le in
      ground (arith, rest)

any_longer-sum :
    (n : ℕ) (ts : List (List ℕ)) → any_longer n ts ≡ false → sum_lengths ts ≤ n * length ts
unfolding any_longer
any_longer-sum n [] h = omega arith
any_longer-sum n (t ∷ ts) h = ground (arith, any_longer-sum n ts)

any_longer-All : (n : ℕ) (ts : List (List ℕ)) → any_longer n ts ≡ false → All (λ t. length t ≤ n) ts
unfolding any_longer
any_longer-All n [] h = tt
any_longer-All n (t ∷ ts) h =
    let (short, rest) = either_false (ltb n (length t)) (any_longer n ts) h in
    (ltb→le n (length t) short, any_longer-All n ts rest)

-- What the checks establish.
pub record IsAccepted (dimensions : List ℕ → Option (ℕ × ℕ)) (c : CharacterInput) : Type 0 where
  pub named : (0 < length c.name) × (length c.name ≤ 256)
  pub each_field_fits : All (λ t. length t ≤ 65536) (fields c)
  pub fields_fit : sum_lengths (fields c) ≤ 655360
  pub tag_count : length c.tags ≤ 128
  pub each_tag_fits : All (λ t. length t ≤ 256) c.tags
  pub tags_fit : sum_lengths c.tags ≤ 32768
  pub avatar_fits : length (or_empty c.avatar) ≤ max_image
  pub image_count : length c.images ≤ 32
  pub images_accepted : AreAccepted dimensions [] c.images
  pub images_fit : png_bytes c.images ≤ max_images
  pub default_known : is_missing c.default_image_id (ids c.images) ≡ false

-- A character that is taken has a name of at most 256 bytes; each of its texts has at most 65536 bytes;
-- it has at most 128 tags, each of at most 256 bytes; its texts, its tags and the files of its images
-- are within their limits in sum; its avatar and each of its at most 32 images are within theirs; its
-- images have sizes from 128 to 512 and ids of their own; and its default image, if it names one, is
-- one of its images.
pub validate_character-IsAccepted :
    (blank : List ℕ → Bool) (dimensions : List ℕ → Option (ℕ × ℕ)) (c : CharacterInput)
    → validate_character blank dimensions c ≡ ok tt
    → IsAccepted dimensions c
unfolding validate_character
validate_character-IsAccepted blank dimensions c h =
    let (a, h1) = fail_if_passed (ltb (length c.name) 1 || ltb 256 (length c.name)) _ _ h in
    let (b, h2) = fail_if_passed (any_longer 65536 (fields c)) _ _ h1 in
    let (d, h3) = fail_if_passed (ltb 128 (length c.tags) || any_longer 256 c.tags) _ _ h2 in
    let (e, h4) = fail_if_passed (longer max_image c.avatar) _ _ h3 in
    let (f, h5) = fail_if_passed (ltb 32 (length c.images)) _ _ h4 in
    let (total, g, h6) = Result-passed (check_images blank dimensions [] 0 c.images) _ h5 in
    let (i, h7) = fail_if_passed (ltb max_images total) _ _ h6 in
    let fits : total ≤ max_images = ground (arith, i) in
    record {
      named = (ground (arith, a), ground (arith, a));
      each_field_fits = any_longer-All 65536 (fields c) b;
      fields_fit = any_longer-sum 65536 (fields c) b;
      tag_count = ground (arith, d);
      each_tag_fits = any_longer-All 256 c.tags (either_false _ (any_longer 256 c.tags) d).1;
      tags_fit = ground (arith, d, any_longer-sum 256 c.tags);
      avatar_fits = ground (arith, e);
      image_count = ground (arith, f);
      images_accepted = check_images-AreAccepted blank dimensions [] 0 c.images g;
      images_fit = omega (arith, check_images-total blank dimensions [] 0 c.images g fits, fits);
      default_known = ground (arith, h7);
    }

abbrev pub id_bytes : List CharacterImage → ℕ
id_bytes [] = 0
id_bytes (i ∷ images) = length i.id + length i.label + id_bytes images

-- The bytes of the texts and the images of a character.
abbrev pub content_bytes : CharacterInput → ℕ
content_bytes c =
    length c.name
    + sum_lengths (fields c)
    + sum_lengths c.tags
    + length (or_empty c.avatar)
    + png_bytes c.images
    + id_bytes c.images
    + length (or_empty c.default_image_id)

module _ (dimensions : List ℕ → Option (ℕ × ℕ)) where
  id_bytes-AreAccepted :
      (seen : List (List ℕ)) (images : List CharacterImage)
      → AreAccepted dimensions seen images
      → id_bytes images ≤ 384 * length images
  id_bytes-AreAccepted seen [] h = omega arith
  id_bytes-AreAccepted seen (i ∷ images) (fresh, some_id, id, label, png, size, others) =
      omega (arith, id, label, id_bytes-AreAccepted (i.id ∷ seen) images others)

  known_id :
      (seen : List (List ℕ)) (images : List CharacterImage) (id : List ℕ)
      → AreAccepted dimensions seen images
      → has_id id (ids images) ≡ true
      → length id ≤ 128
  unfolding has_id
  known_id seen [] id h k = absurd (cc k)
  known_id seen (i ∷ images) id (fresh, some_id, le, label, png, size, others) k =
      ground (arith, le, same_text-length i.id id, known_id (i.id ∷ seen) images id others)

  default_bytes :
      (c : CharacterInput) (id : Option (List ℕ))
      → AreAccepted dimensions [] c.images
      → is_missing id (ids c.images) ≡ false
      → length (or_empty id) ≤ 128
  default_bytes c none h k = omega arith
  default_bytes c (some id) h k = known_id [] c.images id h (ground (arith, k))

-- The texts and the images of a character that is taken have together fewer bytes than a frame may
-- have, eight times 2 ^ 20.
content_bytes_bounded :
    (blank : List ℕ → Bool) (dimensions : List ℕ → Option (ℕ × ℕ)) (c : CharacterInput)
    → validate_character blank dimensions c ≡ ok tt
    → content_bytes c < 8388608
content_bytes_bounded blank dimensions c h =
    let a : IsAccepted dimensions c = validate_character-IsAccepted blank dimensions c h in
    omega (
      arith,
      a.named,
      a.fields_fit,
      a.tags_fit,
      a.avatar_fits,
      a.images_fit,
      a.image_count,
      id_bytes-AreAccepted dimensions [] c.images a.images_accepted,
      default_bytes dimensions c c.default_image_id a.images_accepted a.default_known,
    )
