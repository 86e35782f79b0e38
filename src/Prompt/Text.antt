-- ===== src/Prompt/Text.antt =====
-- Texts as code points: `str::len`, `is_char_boundary`, slices, `chars().take`, `split_whitespace`.
use chatty.Common.{
  ℕ, zero, suc, ◌+◌, ◌-◌, Bool, true, false, ◌&&◌, ◌||◌, List, [], ◌∷◌, ◌++◌, ltb, leb, ◌==◌,
  if◌then◌else◌,
}

-- `char::len_utf8`
abbrev pub width : ℕ → ℕ
width c = if ltb c 128 then 1 else if ltb c 2048 then 2 else if ltb c 65536 then 3 else 4

unfoldable pub byte_len : List ℕ → ℕ
byte_len [] = 0
byte_len (c ∷ cs) = width c + byte_len cs

unfoldable pub is_char_boundary : List ℕ → ℕ → Bool
is_char_boundary [] i = i == 0
is_char_boundary (c ∷ cs) i =
    let later = is_char_boundary cs (i - width c) in i == 0 || (leb (width c) i && later)

-- `content[..end]`, at a boundary.
unfoldable pub cut : List ℕ → ℕ → List ℕ
cut [] end = []
cut (c ∷ cs) end = let rest = cut cs (end - width c) in if end == 0 then [] else c ∷ rest

-- `clip`: the first characters.
unfoldable pub clip : ℕ → List ℕ → List ℕ
clip zero cs = []
clip (suc n) [] = []
clip (suc n) (c ∷ cs) = c ∷ clip n cs

abbrev pub is_empty : List ℕ → Bool
is_empty [] = true
is_empty (c ∷ cs) = false

-- `char::is_whitespace`
unfoldable pub is_whitespace : ℕ → Bool
is_whitespace c =
    (leb 9 c && leb c 13)
    || c == 32
    || c == 133
    || c == 160
    || c == 5760
    || (leb 8192 c && leb c 8202)
    || c == 8232
    || c == 8233
    || c == 8239
    || c == 8287
    || c == 12288

abbrev pub push_word : List ℕ → List (List ℕ) → List (List ℕ)
push_word [] words = words
push_word (c ∷ cs) words = (c ∷ cs) ∷ words

-- The words after the letters `word` of one that has begun.
unfoldable pub words_after : List ℕ → List ℕ → List (List ℕ)
words_after word [] = push_word word []
words_after word (c ∷ cs) =
    let ended = push_word word (words_after [] cs) in
    let longer = words_after (word ++ c ∷ []) cs in if is_whitespace c then ended else longer

-- `split_whitespace`
abbrev pub split_words : List ℕ → List (List ℕ)
split_words text = words_after [] text

-- `join(" ")`
unfoldable pub join_words : List (List ℕ) → List ℕ
join_words [] = []
join_words (w ∷ []) = w
join_words (w ∷ v ∷ words) = w ++ (32 ∷ join_words (v ∷ words))
