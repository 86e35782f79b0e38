-- ===== src/Tokenizer/Runs.antt =====
-- Tests, and the theorems at a small vocabulary: a token for each byte, one merge and a special token.
use chatty.Common.{
  ℕ, zero, suc, ◌+◌, ◌≤◌, ◌<◌, ◌≡◌, ◌≢◌, ◌⊎◌, refl, sym, Bool, true, false, ◌&&◌, ◌||◌, not, none,
  some, List, [], ◌∷◌, ◌++◌, ◌==◌, if◌then◌else◌, length, get_elem?, All, inl, inr, arith,
  Bool-cases,
}
use mathlib.Core.Path.{subst}
use chatty.Common.Fallible.{ok, err}
use chatty.Common.Texts.{same_text}
use chatty.Tokenizer.Words.{lookup, IsDistinct, size_of}
use chatty.Tokenizer.Parsed.{IsAgreed}
use chatty.Tokenizer.Merging.{bpe_terminates}
use chatty.Tokenizer.Split.{AreOrdered, IsMatcher}
use chatty.Tokenizer.RoundTrip.{decode-encode_text, encode_forges_none}
use chatty.Tokenizer.{
  File, Tokenizer, bad_merge, parse, byte_chars, byte_chars_from, char_bytes_from, char_byte, spell,
  token_bytes, all_bytes, decode, encode, bpe, bpe_all, bpe_loop, best_pair, merge_pairs,
  symbols_of, Pattern, split_by, split_all, split_from, split_once, fill_vocab, fill_added,
  byte_ids_of, merges_of, specials_of, lookup_pair, utf8_all,
}

abbrev byte_words : List (ℕ × ℕ) → List (List ℕ × ℕ)
byte_words [] = []
byte_words ((c, byte) ∷ table) = (c ∷ [], byte) ∷ byte_words table

abbrev he : List ℕ
he = 104 ∷ 101 ∷ []

abbrev user : List ℕ
user = 60 ∷ 65372 ∷ 62 ∷ []

abbrev file : File
file = record {
  added_tokens = (257, user) ∷ [];
  vocab = (he, 256) ∷ byte_words (char_bytes_from 0 byte_chars);
  merges = (104 ∷ 32 ∷ 101 ∷ []) ∷ [];
}

abbrev count : ℕ → ℕ → List ℕ
count i zero = []
count i (suc n) = i ∷ count (i + 1) n

abbrev texts : List ℕ → List (List ℕ)
texts [] = []
texts (c ∷ table) = (c ∷ []) ∷ texts table

abbrev tokenizer : Tokenizer
tokenizer = record {
  tokens = texts byte_chars ++ (he ∷ user ∷ []);
  specials = (user, 257) ∷ [];
  byte_ids = count 0 256;
  merges = ((104, 101), (0, 256)) ∷ [];
  char_bytes = char_bytes_from 0 byte_chars;
}

file_parses : parse file ≡ ok tokenizer
unfolding parse byte_chars byte_chars_from char_bytes_from fill_vocab fill_added byte_ids_of
    merges_of specials_of split_once lookup same_text size_of
file_parses = refl

abbrev names_id : ℕ → List (List ℕ × ℕ) → Bool
names_id id [] = false
names_id id ((word, i) ∷ vocab) = i == id || names_id id vocab

abbrev is_distinct : List (List ℕ × ℕ) → Bool
is_distinct [] = true
is_distinct ((word, id) ∷ vocab) = not (names_id id vocab) && is_distinct vocab

names_id_sound :
    (id : ℕ) (vocab : List (List ℕ × ℕ)) → names_id id vocab ≡ false → All (λ e. e.1 ≢ id) vocab
names_id_sound id [] h = tt
names_id_sound id ((word, i) ∷ vocab) h = elim (Bool-cases (i == id)) [
  | inl same ↦ absurd (ground (arith, h, same))
  | inr other ↦ (λ e. ground (arith, other, e), names_id_sound id vocab (ground (arith, h, other)))
]

is_distinct_sound : (vocab : List (List ℕ × ℕ)) → is_distinct vocab ≡ true → IsDistinct vocab
is_distinct_sound [] h = tt
is_distinct_sound ((word, id) ∷ vocab) h = elim (Bool-cases (names_id id vocab)) [
  | inl has ↦ absurd (ground (arith, h, has))
  | inr lacks ↦ (names_id_sound id vocab lacks, is_distinct_sound vocab (ground (arith, h, lacks)))
]

file-IsDistinct : IsDistinct file.vocab
unfolding byte_chars byte_chars_from char_bytes_from
file-IsDistinct = is_distinct_sound file.vocab refl

lacks_added : names_id 257 file.vocab ≡ false
unfolding byte_chars byte_chars_from char_bytes_from
lacks_added = refl

file-IsAgreed : IsAgreed file.vocab file.added_tokens
file-IsAgreed = (agreed file.vocab (names_id_sound 257 file.vocab lacks_added), tt)
  where
    agreed :
        (vocab : List (List ℕ × ℕ))
        → All (λ v. v.1 ≢ 257) vocab
        → All (λ v. (257 ≢ v.1) ⊎ (user ≡ v.0)) vocab
    agreed [] all = tt
    agreed (v ∷ vocab) (ne, all) = (inl (λ e. ne (sym e)), agreed vocab all)

-- A pattern that matches each space.
abbrev spaces_from : ℕ → List ℕ → List (ℕ × ℕ)
spaces_from i [] = []
spaces_from i (b ∷ text) =
    let rest = spaces_from (i + 1) text in if b == 32 then (i, i + 1) ∷ rest else rest

abbrev spaces : Pattern
spaces text = spaces_from 0 text

spaces_ordered :
    (last i : ℕ) (text : List ℕ) → last ≤ i → AreOrdered last (i + length text) (spaces_from i text)
spaces_ordered last i [] le = omega (arith, le)
spaces_ordered last i (b ∷ text) le =
    let long : i + length (b ∷ text) ≡ (i + 1) + length text = omega arith in
    elim (Bool-cases (b == 32)) [
      | inl space ↦
          rw (space, long) (le, omega arith, spaces_ordered (i + 1) (i + 1) text (omega arith))
      | inr other ↦ rw (other, long) (spaces_ordered last (i + 1) text (omega (arith, le)))
    ]

spaces-IsMatcher : IsMatcher spaces
spaces-IsMatcher text =
    let long : 0 + length text ≡ length text = omega arith in
    subst (λ n. AreOrdered 0 n (spaces_from 0 text)) long (spaces_ordered 0 0 text (omega arith))

abbrev text : List ℕ
text = 104 ∷ 101 ∷ 32 ∷ 104 ∷ 195 ∷ 169 ∷ []

text_encoded : encode tokenizer (spaces ∷ []) text ≡ 256 ∷ 32 ∷ 104 ∷ 195 ∷ 169 ∷ []
unfolding encode bpe_all bpe bpe_loop best_pair merge_pairs symbols_of split_by split_all split_from
    lookup_pair
text_encoded = refl

special_text_encoded :
    encode tokenizer [] (60 ∷ 239 ∷ 189 ∷ 156 ∷ 62 ∷ []) ≡ 60 ∷ 239 ∷ 189 ∷ 156 ∷ 62 ∷ []
unfolding encode bpe_all bpe bpe_loop best_pair merge_pairs symbols_of split_by lookup_pair
special_text_encoded = refl

special_decoded : all_bytes tokenizer (257 ∷ 300 ∷ []) ≡ 60 ∷ 239 ∷ 189 ∷ 156 ∷ 62 ∷ []
unfolding all_bytes token_bytes spell char_byte utf8_all byte_chars byte_chars_from char_bytes_from
special_decoded = refl

user_unspelled : spell tokenizer.char_bytes user ≡ none
unfolding spell char_byte byte_chars byte_chars_from char_bytes_from
user_unspelled = refl

bad_merge_refused : parse (record file { merges = he ∷ [] }) ≡ err (bad_merge he)
unfolding parse byte_chars byte_chars_from char_bytes_from byte_ids_of merges_of split_once lookup
    same_text
bad_merge_refused = refl

text_small : All (λ b. b < 256) text
text_small =
    (omega arith, (omega arith, (omega arith, (omega arith, (omega arith, (omega arith, tt))))))

decode-encode_text_example :
    decode (λ bytes. bytes) tokenizer (encode tokenizer (spaces ∷ []) text) ≡ text
decode-encode_text_example =
    decode-encode_text file tokenizer file_parses file-IsDistinct file-IsAgreed (λ bytes. bytes)
      (spaces ∷ []) text (spaces-IsMatcher, tt) text_small refl

user_found : get_elem? tokenizer.tokens 257 ≡ some user
unfolding byte_chars byte_chars_from
user_found = refl

encode_forges_none_example : All (λ i. i ≢ 257) (encode tokenizer (spaces ∷ []) text)
encode_forges_none_example =
    encode_forges_none file tokenizer file_parses file-IsDistinct file-IsAgreed (spaces ∷ []) text
      user 257 (spaces-IsMatcher, tt) text_small user_found user_unspelled

bpe_terminates_example :
    (best_pair tokenizer.merges (bpe tokenizer he) ≡ none)
    × (bpe_loop tokenizer.merges 7 (symbols_of tokenizer.byte_ids he) ≡ bpe tokenizer he)
bpe_terminates_example = bpe_terminates tokenizer he 7 (omega arith)
