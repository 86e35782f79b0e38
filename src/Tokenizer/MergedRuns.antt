-- ===== src/Tokenizer/MergedRuns.antt =====
-- Tests, and the theorem at four tokens, three of which normalize alike.
use chatty.Common.{
  ℕ, ◌+◌, ◌≡◌, ◌<◌, refl, ◌&&◌, leb, ◌==◌, if◌then◌else◌, some, List, [], ◌∷◌, map, length,
  get_elem?,
}
use chatty.Common.Texts.{same_text, strip_prefix}
use chatty.Tokenizer.{utf8_all, Tokenizer, decode, all_bytes, token_bytes, spell, char_byte, lookup}
use chatty.Tokenizer.Compressed.{
  Unicode, collapse, replace_sentinel, normalize_key, has_replacement, key_from, entry_of,
  number_tokens, compressed_map,
}
use chatty.Tokenizer.Merged.{IsMerged, compressed_map-Merges}

abbrev lower : ℕ → ℕ
lower c = if leb 65 c && leb c 90 then c + 32 else c

abbrev trim_start : List ℕ → List ℕ
trim_start [] = []
trim_start (c ∷ text) = let rest = trim_start text in if c == 32 then rest else c ∷ text

abbrev ascii : Unicode
ascii = record {
  from_utf8_lossy = λ bytes. bytes;
  fold = λ text. map lower text;
  trim = trim_start;
}

-- H, h, a space, and a space with h.
abbrev four : Tokenizer
four = record {
  tokens = (72 ∷ []) ∷ (104 ∷ []) ∷ (288 ∷ []) ∷ (288 ∷ 104 ∷ []) ∷ [];
  specials = [];
  byte_ids = [];
  merges = [];
  char_bytes = (72, 72) ∷ (104, 104) ∷ (288, 32) ∷ [];
}

merged : compressed_map ascii four ≡ (0 ∷ 0 ∷ 1 ∷ 0 ∷ [], 2)
unfolding compressed_map number_tokens key_from entry_of normalize_key has_replacement
    replace_sentinel collapse decode all_bytes token_bytes spell char_byte lookup same_text
    strip_prefix
merged = refl

-- A token whose bytes are no text is its own key, in UTF-8.
abbrev broken : Unicode
broken = record ascii { from_utf8_lossy = λ bytes. 239 ∷ 191 ∷ 189 ∷ [] }

key_test : key_from broken four 0 (322 ∷ []) ≡ 197 ∷ 130 ∷ []
unfolding key_from has_replacement decode strip_prefix utf8_all
key_test = refl

compressed_map-Merges_example :
    (length (compressed_map ascii four).0 ≡ length four.tokens)
    × ((i j : ℕ) (a b : List ℕ)
        → get_elem? four.tokens i ≡ some a
        → get_elem? four.tokens j ≡ some b
        → IsMerged ascii four (compressed_map ascii four).0 (compressed_map ascii four).1 i j a b)
    × ((n : ℕ)
        → n < (compressed_map ascii four).1
        → (i : ℕ) × (get_elem? (compressed_map ascii four).0 i ≡ some n))
compressed_map-Merges_example = compressed_map-Merges ascii four
