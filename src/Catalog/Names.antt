-- ===== src/Catalog/Names.antt =====
-- The names of tensors, crates/chatty-metal/src/catalog.rs: a text is the list of its bytes.
use chatty.Common.{
  ℕ, ◌+◌, ◌-◌, ◌*◌, ◌^◌, Bool, true, false, ◌&&◌, ◌||◌, Option, none, some, List, [], ◌∷◌, ltb, leb,
  ◌==◌, if◌then◌else◌, codes,
}
use chatty.Common.Texts.{strip_prefix, same_text}

pub data Dtype : Type 0 where
  bf16 f32 f8_e4m3 f8_e8m0 i8 : Dtype

-- `Dtype::parse`
abbrev pub parse_dtype : List ℕ → Option Dtype
parse_dtype text =
    if same_text text (codes "BF16")
    then some bf16
    else if same_text text (codes "F32")
    then some f32
    else if same_text text (codes "F8_E4M3")
    then some f8_e4m3
    else if same_text text (codes "F8_E8M0")
    then some f8_e8m0
    else if same_text text (codes "I8")
    then some i8
    else none

-- `Dtype::bytes`
abbrev pub element_bytes : Dtype → ℕ
element_bytes bf16 = 2
element_bytes f32 = 4
element_bytes f8_e4m3 = 1
element_bytes f8_e8m0 = 1
element_bytes i8 = 1

abbrev pub push_char : ℕ → List (List ℕ) → List (List ℕ)
push_char c [] = (c ∷ []) ∷ []
push_char c (part ∷ parts) = (c ∷ part) ∷ parts

-- `split('.')`
unfoldable pub split_dots : List ℕ → List (List ℕ)
split_dots [] = [] ∷ []
split_dots (c ∷ text) =
    let parts = split_dots text in if c == 46 then [] ∷ parts else push_char c parts

-- Digits up to the end, in 64 bits.
unfoldable pub read_digits : ℕ → List ℕ → Option ℕ
read_digits value [] = some value
read_digits value (c ∷ text) =
    let rest = read_digits (value * 10 + (c - 48)) text in
    if ltb c 48 || ltb 57 c || leb (2 ^ 64) (value * 10 + (c - 48)) then none else rest

abbrev pub some_digits : List ℕ → Option ℕ
some_digits [] = none
some_digits (c ∷ text) = read_digits 0 (c ∷ text)

-- `str::parse::<usize>`, which takes a sign.
abbrev pub parse_usize : List ℕ → Option ℕ
parse_usize [] = none
parse_usize (c ∷ text) = if c == 43 then some_digits text else some_digits (c ∷ text)

abbrev pub matrix_of : List ℕ → Option ℕ
matrix_of text =
    if same_text text (codes "w1")
    then some 0
    else if same_text text (codes "w2")
    then some 1
    else if same_text text (codes "w3")
    then some 2
    else none

abbrev pub kind_of : List ℕ → Option ℕ
kind_of text =
    if same_text text (codes "weight")
    then some 0
    else if same_text text (codes "scale")
    then some 1
    else none

infixl 1 ◌>>=?◌
abbrev pub ◌>>=?◌ : {A B : Type 0} → Option A → (A → Option B) → Option B
none >>=? next = none
some a >>=? next = next a

abbrev pub parse_parts : List (List ℕ) → Option (ℕ × ℕ × ℕ)
parse_parts (layers ∷ l ∷ ffn ∷ experts ∷ e ∷ w ∷ k ∷ []) =
    if same_text layers (codes "layers")
      && same_text ffn (codes "ffn")
      && same_text experts (codes "experts")
    then (parse_usize l >>=? λ layer. parse_usize e >>=? λ expert.
        matrix_of w >>=? λ matrix. kind_of k >>=? λ kind. some (layer, expert, matrix * 2 + kind))
    else none
parse_parts _ = none

-- `parse_expert`
unfoldable pub parse_expert : List ℕ → Option (ℕ × ℕ × ℕ)
parse_expert name = parse_parts (split_dots name)

abbrev pub starts_with : List ℕ → List ℕ → Bool
starts_with prefix text = is_some (strip_prefix prefix text)
  where
    is_some : Option (List ℕ) → Bool
    is_some none = false
    is_some (some rest) = true

abbrev pub put_front : ℕ → Option (List ℕ × List ℕ) → Option (List ℕ × List ℕ)
put_front c none = none
put_front c (some (front, back)) = some (c ∷ front, back)

abbrev pub here_or : Option (List ℕ) → Option (List ℕ × List ℕ) → Option (List ℕ × List ℕ)
here_or none later = later
here_or (some rest) later = some ([], rest)

-- `split_once` at a text
unfoldable pub split_at : List ℕ → List ℕ → Option (List ℕ × List ℕ)
split_at separator [] = here_or (strip_prefix separator []) none
split_at separator (c ∷ text) =
    let later = split_at separator text in
    here_or (strip_prefix separator (c ∷ text)) (put_front c later)

abbrev pub contains : List ℕ → List ℕ → Bool
contains separator text = is_some (split_at separator text)
  where
    is_some : Option (List ℕ × List ℕ) → Bool
    is_some none = false
    is_some (some parts) = true

-- `parse_engram_table`
unfoldable pub parse_engram_table : List ℕ → Option (ℕ × ℕ)
parse_engram_table name = strip_prefix (codes "layers.") name >>=? λ rest.
    split_at (codes ".engram.embed.") rest >>=? λ (layer, table).
    kind_of table >>=? λ kind. parse_usize layer >>=? λ number. some (number, kind)

-- Where a tensor belongs, by the tests of `place`.
pub data Part : Type 0 where
  mtp vision core : Part
  expert : Option (ℕ × ℕ × ℕ) → Part
  table : ℕ → ℕ → Part

abbrev pub table_or_core : Option (ℕ × ℕ) → Part
table_or_core none = core
table_or_core (some (layer, kind)) = table layer kind

unfoldable pub part_of : List ℕ → Part
part_of name =
    if starts_with (codes "mtp.") name
    then mtp
    else if starts_with (codes "vision.") name
        || starts_with (codes "aligner.") name
        || starts_with (codes "image_") name
    then vision
    else if contains (codes ".ffn.experts.") name
    then expert (parse_expert name)
    else table_or_core (parse_engram_table name)

-- A name that could leave the directory: empty, with a slash, or of dots.
abbrev pub has_slash : List ℕ → Bool
has_slash [] = false
has_slash (c ∷ name) = (c == 47 || c == 92) || has_slash name

abbrev pub is_unsafe : List ℕ → Bool
is_unsafe name =
    same_text name [] || has_slash name || same_text name (codes "..") || same_text name (codes ".")

-- The order of texts, and their set.
unfoldable pub text_before : List ℕ → List ℕ → Bool
text_before [] [] = false
text_before [] (b ∷ bs) = true
text_before (a ∷ rest) [] = false
text_before (a ∷ rest) (b ∷ bs) = let later = text_before rest bs in ltb a b || (a == b && later)

unfoldable pub insert_name : List ℕ → List (List ℕ) → List (List ℕ)
insert_name name [] = name ∷ []
insert_name name (other ∷ names) =
    let rest = insert_name name names in
    if text_before name other
    then name ∷ other ∷ names
    else if text_before other name
    then other ∷ rest
    else other ∷ names

-- `weight_map.values().collect::<BTreeSet<_>>()`
unfoldable pub shard_names : List (List ℕ × List ℕ) → List (List ℕ)
shard_names [] = []
shard_names ((tensor, name) ∷ weight_map) = insert_name name (shard_names weight_map)
