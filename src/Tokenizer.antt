-- ===== src/Tokenizer.antt =====
-- crates/chatty-metal/src/tokenizer.rs: byte-level BPE. A text is its UTF-8 bytes, a token's text its
-- code points; a hash map is an association list; a split pattern is a parameter, as its matches.
pub mod Words
pub mod Alphabet
pub mod Merging
pub mod Parsed
pub mod Split
pub mod RoundTrip
pub mod Compressed
pub mod Merged
mod MergedRuns
mod Runs
pub use chatty.Common.Fallible.{Result, ok, err, ◌>>=◌, ◌>>◌, or_fail}
unfoldable pub use Words.{lookup, lookup_pair, size_of}
use chatty.Common.{
  ℕ, zero, suc, ◌+◌, ◌-◌, ◌*◌, ◌/◌, ◌%◌, Bool, true, false, ◌&&◌, ◌||◌, Option, none, some, List,
  [], ◌∷◌, ◌++◌,
}
use chatty.Common.{
  ltb, leb, ◌==◌, if◌then◌else◌, max_of, length, take, drop, get_elem?, get_or, set, replicate,
}

pub data Error : Type 0 where
  no_token_for_byte : ℕ → Error
  bad_merge unknown_token no_special : List ℕ → Error

pub record File : Type 0 where
  pub added_tokens : List (ℕ × List ℕ)
  pub vocab : List (List ℕ × ℕ)
  pub merges : List (List ℕ)

pub record Tokenizer : Type 0 where
  pub tokens : List (List ℕ)
  pub specials : List (List ℕ × ℕ)
  pub byte_ids : List ℕ
  pub merges : List ((ℕ × ℕ) × (ℕ × ℕ))
  pub char_bytes : List (ℕ × ℕ)

abbrev pub is_printable : ℕ → Bool
is_printable byte =
    (leb 33 byte && leb byte 126)
    || (leb 161 byte && leb byte 172)
    || (leb 174 byte && leb byte 255)

-- The loop of `byte_chars`, with `extra` codes given to bytes that are not printable.
unfoldable pub byte_chars_from : ℕ → ℕ → ℕ → List ℕ
byte_chars_from byte extra zero = []
byte_chars_from byte extra (suc n) =
    if is_printable byte
    then byte ∷ byte_chars_from (byte + 1) extra n
    else (255 + (extra + 1)) ∷ byte_chars_from (byte + 1) (extra + 1) n

unfoldable pub byte_chars : List ℕ
byte_chars = byte_chars_from 0 0 256

-- `char_bytes`: the characters of the table with their bytes.
unfoldable pub char_bytes_from : ℕ → List ℕ → List (ℕ × ℕ)
char_bytes_from byte [] = []
char_bytes_from byte (c ∷ table) = (c, byte) ∷ char_bytes_from (byte + 1) table

unfoldable pub char_byte : List (ℕ × ℕ) → ℕ → Option ℕ
char_byte [] c = none
char_byte ((d, byte) ∷ rest) c = if d == c then some byte else char_byte rest c

unfoldable pub fill_vocab : List (List ℕ) → List (List ℕ × ℕ) → List (List ℕ)
fill_vocab tokens [] = tokens
fill_vocab tokens ((word, id) ∷ vocab) = fill_vocab (set tokens id word) vocab

unfoldable pub fill_added : List (List ℕ) → List (ℕ × List ℕ) → List (List ℕ)
fill_added tokens [] = tokens
fill_added tokens ((id, content) ∷ added) = fill_added (set tokens id content) added

-- The added tokens as entries, the last first: the last one of a text is found.
unfoldable pub specials_of : List (List ℕ × ℕ) → List (ℕ × List ℕ) → List (List ℕ × ℕ)
specials_of specials [] = specials
specials_of specials ((id, content) ∷ added) = specials_of ((content, id) ∷ specials) added

unfoldable pub byte_ids_of : List (List ℕ × ℕ) → ℕ → List ℕ → Result Error (List ℕ)
byte_ids_of vocab byte [] = ok []
byte_ids_of vocab byte (c ∷ table) = do
  id ← or_fail (lookup vocab (c ∷ [])) (no_token_for_byte byte)
  ids ← byte_ids_of vocab (byte + 1) table
  ok (id ∷ ids)

-- `split_once(' ')`
abbrev pub put_before : ℕ → Option (List ℕ × List ℕ) → Option (List ℕ × List ℕ)
put_before c none = none
put_before c (some (a, b)) = some (c ∷ a, b)

unfoldable pub split_once : List ℕ → Option (List ℕ × List ℕ)
split_once [] = none
split_once (c ∷ cs) =
    let rest = split_once cs in if c == 32 then some ([], cs) else put_before c rest

abbrev pub Merges : Type 0
Merges = List ((ℕ × ℕ) × (ℕ × ℕ))

-- The loop over the merges; an entry that is inserted stands before the earlier ones.
unfoldable pub merges_of : List (List ℕ × ℕ) → ℕ → Merges → List (List ℕ) → Result Error Merges
merges_of vocab rank merges [] = ok merges
merges_of vocab rank merges (merge ∷ rest) = do
  parts ← or_fail (split_once merge) (bad_merge merge)
  a ← or_fail (lookup vocab parts.0) (unknown_token parts.0)
  b ← or_fail (lookup vocab parts.1) (unknown_token parts.1)
  merged ← or_fail (lookup vocab (parts.0 ++ parts.1)) (unknown_token (parts.0 ++ parts.1))
  merges_of vocab (rank + 1) (((a, b), (rank, merged)) ∷ merges) rest

abbrev pub entries_of : List (ℕ × List ℕ) → List (List ℕ × ℕ)
entries_of [] = []
entries_of ((id, content) ∷ added) = (content, id) ∷ entries_of added

-- `Tokenizer::parse`, of a file that JSON and the regexes could be read from.
unfoldable pub parse : File → Result Error Tokenizer
parse file = do
  byte_ids ← byte_ids_of file.vocab 0 byte_chars
  merges ← merges_of file.vocab 0 [] file.merges
  ok (record {
    tokens =
        fill_added
          (fill_vocab
            (replicate (max_of (size_of file.vocab) (size_of (entries_of file.added_tokens))) [])
            file.vocab)
          file.added_tokens;
    specials = specials_of [] file.added_tokens;
    byte_ids = byte_ids;
    merges = merges;
    char_bytes = char_bytes_from 0 byte_chars;
  })

-- `special`
unfoldable pub special : Tokenizer → List ℕ → Result Error ℕ
special t name = or_fail (lookup t.specials name) (no_special name)

-- A pair of neighbours that merges: its rank, the pair, and what it becomes.
abbrev pub Candidate : Type 0
Candidate = ℕ × ℕ × ℕ × ℕ

-- `min_by_key` by the rank: the first of the least.
abbrev pub sooner : Option Candidate → Option Candidate → Option Candidate
sooner none later = later
sooner (some first) none = some first
sooner (some first) (some later) = if ltb later.0 first.0 then some later else some first

abbrev pub candidate : ℕ → ℕ → Option (ℕ × ℕ) → Option Candidate
candidate a b none = none
candidate a b (some (rank, merged)) = some (rank, a, b, merged)

unfoldable pub best_pair : Merges → List ℕ → Option Candidate
best_pair merges [] = none
best_pair merges (a ∷ []) = none
best_pair merges (a ∷ b ∷ symbols) =
    sooner (candidate a b (lookup_pair merges a b)) (best_pair merges (b ∷ symbols))

-- The inner loop: every pair becomes the merged token, from the left.
unfoldable pub merge_pairs : ℕ → ℕ → ℕ → List ℕ → List ℕ
merge_pairs a b merged [] = []
merge_pairs a b merged (x ∷ []) = x ∷ []
merge_pairs a b merged (x ∷ y ∷ symbols) =
    let both = merged ∷ merge_pairs a b merged symbols in
    let one = x ∷ merge_pairs a b merged (y ∷ symbols) in if x == a && y == b then both else one

-- One round of the loop: it stops without a pair, and continues with the pairs merged.
abbrev pub merge_best : (List ℕ → List ℕ) → List ℕ → Option Candidate → List ℕ
merge_best continue symbols none = symbols
merge_best continue symbols (some (rank, a, b, merged)) = continue (merge_pairs a b merged symbols)

-- The loop `while symbols.len() > 1`: one symbol has no pair.
unfoldable pub bpe_loop : Merges → ℕ → List ℕ → List ℕ
bpe_loop merges zero symbols = symbols
bpe_loop merges (suc fuel) symbols =
    merge_best (bpe_loop merges fuel) symbols (best_pair merges symbols)

unfoldable pub symbols_of : List ℕ → List ℕ → List ℕ
symbols_of byte_ids [] = []
symbols_of byte_ids (b ∷ bytes) = get_or byte_ids b 0 ∷ symbols_of byte_ids bytes

-- `bpe`
unfoldable pub bpe : Tokenizer → List ℕ → List ℕ
bpe t bytes = bpe_loop t.merges (length bytes) (symbols_of t.byte_ids bytes)

-- `find_iter`: the start and the end of each match in a text.
abbrev pub Pattern : Type 0
Pattern = List ℕ → List (ℕ × ℕ)

-- `&text[start..end]`
abbrev pub slice : List ℕ → ℕ → ℕ → List ℕ
slice text start end = take (end - start) (drop start text)

abbrev pub push_piece : Bool → List ℕ → List (List ℕ) → List (List ℕ)
push_piece wanted piece pieces = if wanted then piece ∷ pieces else pieces

-- The loop of `split_isolated` over the matches, from `last` on.
unfoldable pub split_from : List ℕ → ℕ → List (ℕ × ℕ) → List (List ℕ)
split_from text last [] = push_piece (ltb last (length text)) (slice text last (length text)) []
split_from text last ((start, end) ∷ found) =
    let rest = split_from text end found in
    push_piece (ltb last start) (slice text last start)
      (push_piece (ltb start end) (slice text start end) rest)

abbrev pub split_isolated : Pattern → List ℕ → List (List ℕ)
split_isolated pattern text = split_from text 0 (pattern text)

unfoldable pub split_all : Pattern → List (List ℕ) → List (List ℕ)
split_all pattern [] = []
split_all pattern (piece ∷ pieces) = split_isolated pattern piece ++ split_all pattern pieces

unfoldable pub split_by : List Pattern → List (List ℕ) → List (List ℕ)
split_by [] pieces = pieces
split_by (pattern ∷ patterns) pieces = split_by patterns (split_all pattern pieces)

unfoldable pub bpe_all : Tokenizer → List (List ℕ) → List ℕ
bpe_all t [] = []
bpe_all t (piece ∷ pieces) = bpe t piece ++ bpe_all t pieces

-- `encode`
unfoldable pub encode : Tokenizer → List Pattern → List ℕ → List ℕ
encode t patterns text = bpe_all t (split_by patterns (text ∷ []))

-- `token.as_bytes()`, of one code point.
abbrev pub utf8 : ℕ → List ℕ
utf8 c =
    if ltb c 128
    then c ∷ []
    else if ltb c 2048
    then (192 + c / 64) ∷ (128 + c % 64) ∷ []
    else if ltb c 65536
    then (224 + c / 4096) ∷ (128 + c / 64 % 64) ∷ (128 + c % 64) ∷ []
    else (240 + c / 262144) ∷ (128 + c / 4096 % 64) ∷ (128 + c / 64 % 64) ∷ (128 + c % 64) ∷ []

unfoldable pub utf8_all : List ℕ → List ℕ
utf8_all [] = []
utf8_all (c ∷ cs) = utf8 c ++ utf8_all cs

abbrev pub prepend : Option ℕ → Option (List ℕ) → Option (List ℕ)
prepend none rest = none
prepend (some b) none = none
prepend (some b) (some bytes) = some (b ∷ bytes)

-- `map(char_bytes.get).collect::<Option<Vec<u8>>>()`
unfoldable pub spell : List (ℕ × ℕ) → List ℕ → Option (List ℕ)
spell char_bytes [] = some []
spell char_bytes (c ∷ cs) = prepend (char_byte char_bytes c) (spell char_bytes cs)

abbrev pub spelled_or : Option (List ℕ) → List ℕ → List ℕ
spelled_or none token = utf8_all token
spelled_or (some bytes) token = bytes

abbrev pub bytes_of : List (ℕ × ℕ) → Option (List ℕ) → List ℕ
bytes_of char_bytes none = []
bytes_of char_bytes (some token) = spelled_or (spell char_bytes token) token

-- `token_bytes`
unfoldable pub token_bytes : Tokenizer → ℕ → List ℕ
token_bytes t id = bytes_of t.char_bytes (get_elem? t.tokens id)

unfoldable pub all_bytes : Tokenizer → List ℕ → List ℕ
all_bytes t [] = []
all_bytes t (id ∷ ids) = token_bytes t id ++ all_bytes t ids

-- `decode`, with `String::from_utf8_lossy` as the first argument.
unfoldable pub decode : (List ℕ → List ℕ) → Tokenizer → List ℕ → List ℕ
decode from_utf8_lossy t ids = from_utf8_lossy (all_bytes t ids)
