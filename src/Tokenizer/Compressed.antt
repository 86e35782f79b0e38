-- ===== src/Tokenizer/Compressed.antt =====
-- compressed_map of crates/chatty-metal/src/tokenizer.rs: tokens that normalize alike get one number. A
-- hash map is the list of its entries.
use chatty.Common.{
  ℕ, zero, suc, ◌+◌, Bool, true, false, ◌||◌, Option, none, some, List, [], ◌∷◌, ◌==◌,
  if◌then◌else◌, length,
}
use chatty.Common.Texts.{same_text, strip_prefix}
use chatty.Tokenizer.{Tokenizer, decode, utf8_all}

-- What the standard library and the tables of Unicode do: `fold` is NFKC, NFD, without accents and in
-- lower case.
pub record Unicode : Type 0 where
  pub from_utf8_lossy : List ℕ → List ℕ
  pub fold : List ℕ → List ℕ
  pub trim : List ℕ → List ℕ

abbrev pub is_space : ℕ → Bool
is_space c = c == 32 || c == 9 || c == 13 || c == 10

-- The loop of `normalize_key`, on bytes.
unfoldable pub collapse : Bool → List ℕ → List ℕ
collapse in_space [] = []
collapse in_space (c ∷ text) =
    let after = collapse true text in
    let apart = collapse false text in
    if is_space c then (if in_space then after else 32 ∷ after) else c ∷ apart

abbrev pub begins_with : List ℕ → List ℕ → Bool
begins_with prefix text = is_there (strip_prefix prefix text)
  where
    is_there : Option (List ℕ) → Bool
    is_there none = false
    is_there (some rest) = true

-- `replace(SENTINEL, " ")`, with the bytes of a match that are still to be left out.
unfoldable pub replace_sentinel : ℕ → List ℕ → List ℕ
replace_sentinel left [] = []
replace_sentinel (suc left) (c ∷ text) = replace_sentinel left text
replace_sentinel zero (c ∷ text) =
    let matched = replace_sentinel 2 text in
    let other = replace_sentinel 0 text in
    if begins_with (238 ∷ 128 ∷ 128 ∷ []) (c ∷ text) then 32 ∷ matched else c ∷ other

-- `normalize_key`
unfoldable pub normalize_key : Unicode → List ℕ → List ℕ
normalize_key u text =
    let collapsed = collapse false (u.fold text) in
    if same_text collapsed (32 ∷ []) then 32 ∷ [] else replace_sentinel 0 (u.trim collapsed)

-- `text.contains('\u{fffd}')`
unfoldable pub has_replacement : List ℕ → Bool
has_replacement [] = false
has_replacement (c ∷ text) = begins_with (239 ∷ 191 ∷ 189 ∷ []) (c ∷ text) || has_replacement text

abbrev pub or_itself : List ℕ → List ℕ → List ℕ
or_itself text [] = text
or_itself text (c ∷ normalized) = c ∷ normalized

-- The key of a token, in UTF-8 in both branches; a token is a list of code points.
unfoldable pub key_from : Unicode → Tokenizer → ℕ → List ℕ → List ℕ
key_from u t id token =
    let text = decode u.from_utf8_lossy t (id ∷ []) in
    if has_replacement text then utf8_all token else or_itself text (normalize_key u text)

abbrev pub Keys : Type 0
Keys = List (List ℕ × ℕ)

unfoldable pub entry_of : List ℕ → Keys → Option ℕ
entry_of key [] = none
entry_of key ((other, number) ∷ keys) =
    let rest = entry_of key keys in if same_text key other then some number else rest

-- `*keys.entry(key).or_insert(next)`
abbrev pub or_insert : List ℕ → Keys → Option ℕ → ℕ × Keys
or_insert key keys none = (length keys, (key, length keys) ∷ keys)
or_insert key keys (some number) = (number, keys)

unfoldable pub number_tokens : Unicode → Tokenizer → ℕ → List (List ℕ) → Keys → List ℕ × Keys
number_tokens u t id [] keys = ([], keys)
number_tokens u t id (token ∷ tokens) keys =
    let key = key_from u t id token in
    let (number, next) = or_insert key keys (entry_of key keys) in
    let (map, all) = number_tokens u t (id + 1) tokens next in (number ∷ map, all)

-- `compressed_map`
unfoldable pub compressed_map : Unicode → Tokenizer → List ℕ × ℕ
compressed_map u t = let (map, keys) = number_tokens u t 0 t.tokens [] in (map, length keys)
