-- ===== src/Tokenizer/Parsed.antt =====
-- What a file that parses gives: the tokens of its vocabulary, of the bytes and of the merges.
use chatty.Common.{
  ℕ, zero, suc, ◌+◌, ◌≤◌, ◌<◌, ◌≡◌, ◌≢◌, ◌⊎◌, refl, sym, ◌∙◌, ap, some, List, [], ◌∷◌, ◌++◌, ◌==◌,
  length, get_elem?, get_elem?-set_self, get_elem?-set_ne, length-set, length-replicate, replicate,
  get_or, set, max_of, All, All_map, inl, inr, arith, Bool-cases,
}
use chatty.Common.Fallible.{ok, ok_inj, or_fail_passed, Result-passed}
use chatty.Common.Texts.{same_text, same_text-eq}
use chatty.Tokenizer.Words.{
  lookup, lookup_pair, lookup_pair_found, IsDistinct, lookup_found, lookup_in_size, size_of,
}
use chatty.Tokenizer.Alphabet.{char_byte_of_byte, length-byte_chars}
use chatty.Tokenizer.{
  char_byte, File, Tokenizer, no_token_for_byte, bad_merge, unknown_token, Merges, parse,
  fill_vocab, fill_added, byte_ids_of, byte_chars, char_bytes_from, merges_of, split_once,
  entries_of,
}

-- The token is the word of an entry, or of an added token that has the same text.
abbrev pub IsAgreed : List (List ℕ × ℕ) → List (ℕ × List ℕ) → Type 0
IsAgreed vocab added = All (λ e. All (λ v. (e.0 ≢ v.1) ⊎ (e.1 ≡ v.0)) vocab) added

fill_vocab_other :
    (vocab : List (List ℕ × ℕ)) (tokens : List (List ℕ)) (id : ℕ)
    → All (λ e. e.1 ≢ id) vocab
    → get_elem? (fill_vocab tokens vocab) id ≡ get_elem? tokens id
unfolding fill_vocab
fill_vocab_other [] tokens id others = refl
fill_vocab_other ((word, i) ∷ vocab) tokens id others =
    fill_vocab_other vocab (set tokens i word) id others.1 ∙ get_elem?-set_ne tokens word others.0

length-fill_vocab :
    (vocab : List (List ℕ × ℕ)) (tokens : List (List ℕ))
    → length (fill_vocab tokens vocab) ≡ length tokens
unfolding fill_vocab
length-fill_vocab [] tokens = refl
length-fill_vocab ((word, i) ∷ vocab) tokens =
    length-fill_vocab vocab (set tokens i word) ∙ length-set tokens i word

fill_vocab_found :
    (vocab : List (List ℕ × ℕ)) (tokens : List (List ℕ)) (word : List ℕ) (id : ℕ)
    → IsDistinct vocab
    → lookup vocab word ≡ some id
    → id < length tokens
    → get_elem? (fill_vocab tokens vocab) id ≡ some word
unfolding fill_vocab lookup
fill_vocab_found [] tokens word id d h lt = absurd (cc h)
fill_vocab_found ((w, i) ∷ vocab) tokens word id d h lt = elim (Bool-cases (same_text w word)) [
  | inl same ↦
      let e : i ≡ id = ground (arith, h, same) in
      rw (sym e, fill_vocab_other vocab (set tokens i w) i d.0, sym (same_text-eq w word same))
        (get_elem?-set_self tokens i w (omega (arith, e, lt)))
  | inr other ↦
      fill_vocab_found vocab (set tokens i w) word id d.1 (ground (arith, h, other))
        (omega (arith, lt, length-set tokens i w))
]

fill_added_kept :
    (added : List (ℕ × List ℕ)) (tokens : List (List ℕ)) (word : List ℕ) (id : ℕ)
    → All (λ e. (e.0 ≢ id) ⊎ (e.1 ≡ word)) added
    → id < length tokens
    → get_elem? tokens id ≡ some word
    → get_elem? (fill_added tokens added) id ≡ some word
unfolding fill_added
fill_added_kept [] tokens word id agreed lt h = h
fill_added_kept ((i, content) ∷ added) tokens word id agreed lt h =
    fill_added_kept added (set tokens i content) word id agreed.1
      (omega (arith, lt, length-set tokens i content))
      (elim (Bool-cases (i == id)) [
        | inl same ↦
            let e : i ≡ id = ground (arith, same) in
            elim agreed.0 [
              | inl ne ↦ absurd (ne e)
              | inr text ↦ rw (e, text) (get_elem?-set_self tokens id word lt)
            ]
        | inr other ↦
            let ne : i ≢ id = ground (arith, other) in get_elem?-set_ne tokens content ne ∙ h
      ])

abbrev no_text : List ℕ
no_text = []

in_tokens :
    (file : File) (word : List ℕ) (id : ℕ)
    → lookup file.vocab word ≡ some id
    → id
      < length
          (replicate (max_of (size_of file.vocab) (size_of (entries_of file.added_tokens))) no_text)
in_tokens file word id h =
    let large = max_of (size_of file.vocab) (size_of (entries_of file.added_tokens)) in
    let in_size = lookup_in_size file.vocab word id h in
    let most : size_of file.vocab ≤ large = ground arith in
    omega (arith, in_size, most, length-replicate large no_text)

byte_ids_found :
    (vocab : List (List ℕ × ℕ)) (table : List ℕ) (byte : ℕ) (ids : List ℕ) (b : ℕ)
    → byte_ids_of vocab byte table ≡ ok ids
    → b < length table
    → lookup vocab (get_or table b 0 ∷ []) ≡ some (get_or ids b 0)
unfolding byte_ids_of
byte_ids_found vocab [] byte ids b h lt = absurd (omega (arith, lt))
byte_ids_found vocab (c ∷ table) byte ids zero h lt =
    let (id, found, more) = or_fail_passed (lookup vocab (c ∷ [])) (no_token_for_byte byte) _ h in
    let (later, rest, e) = Result-passed (byte_ids_of vocab (byte + 1) table) _ more in
    let same : id ∷ later ≡ ids = cc e in rw (sym same) found
byte_ids_found vocab (c ∷ table) byte ids (suc b) h lt =
    let (id, found, more) = or_fail_passed (lookup vocab (c ∷ [])) (no_token_for_byte byte) _ h in
    let (later, rest, e) = Result-passed (byte_ids_of vocab (byte + 1) table) _ more in
    let same : id ∷ later ≡ ids = cc e in
    rw (sym same) (byte_ids_found vocab table (byte + 1) later b rest (omega (arith, lt)))

-- The two words that merge, and the word that they become.
abbrev pub IsMerge : List (List ℕ × ℕ) → (ℕ × ℕ) × (ℕ × ℕ) → Type 0
IsMerge vocab e =
    (p : List ℕ) × (q : List ℕ) × (lookup vocab p ≡ some e.0.0)
    × (lookup vocab q ≡ some e.0.1)
    × (lookup vocab (p ++ q) ≡ some e.1.1)

merges_found :
    (vocab : List (List ℕ × ℕ)) (lines : List (List ℕ)) (rank : ℕ) (merges out : Merges)
    → All (IsMerge vocab) merges
    → merges_of vocab rank merges lines ≡ ok out
    → All (IsMerge vocab) out
unfolding merges_of
merges_found vocab [] rank merges out all h = let same : merges ≡ out = cc h in rw (sym same) all
merges_found vocab (line ∷ lines) rank merges out all h =
    let (parts, split, h1) = or_fail_passed (split_once line) (bad_merge line) _ h in
    let (a, found_a, h2) = or_fail_passed (lookup vocab parts.0) (unknown_token parts.0) _ h1 in
    let (b, found_b, h3) = or_fail_passed (lookup vocab parts.1) (unknown_token parts.1) _ h2 in
    let (m, found, h4) =
      or_fail_passed (lookup vocab (parts.0 ++ parts.1)) (unknown_token (parts.0 ++ parts.1)) _
        h3 in
    merges_found vocab lines (rank + 1) (((a, b), (rank, m)) ∷ merges) out
      ((parts.0, parts.1, found_a, found_b, found), all) h4

-- The fields of a tokenizer that a file parses to.
pub parse-fields :
    (file : File) (t : Tokenizer)
    → parse file ≡ ok t
    → (byte_ids_of file.vocab 0 byte_chars ≡ ok t.byte_ids)
      × (merges_of file.vocab 0 [] file.merges ≡ ok t.merges)
      × (fill_added
            (fill_vocab
              (replicate (max_of (size_of file.vocab) (size_of (entries_of file.added_tokens))) [])
              file.vocab)
            file.added_tokens
          ≡ t.tokens)
      × (char_bytes_from 0 byte_chars ≡ t.char_bytes)
unfolding parse
parse-fields file t h =
    let (byte_ids, e1, h1) = Result-passed (byte_ids_of file.vocab 0 byte_chars) _ h in
    let (merges, e2, h2) = Result-passed (merges_of file.vocab 0 [] file.merges) _ h1 in
    let e = ok_inj h2 in
    (
      e1 ∙ ap (λ u. ok u.byte_ids) e,
      e2 ∙ ap (λ u. ok u.merges) e,
      ap Tokenizer.tokens e,
      ap Tokenizer.char_bytes e,
    )

-- The words that have ids are the texts of those ids.
pub parse-tokens :
    (file : File) (t : Tokenizer) (word : List ℕ) (id : ℕ)
    → parse file ≡ ok t
    → IsDistinct file.vocab
    → IsAgreed file.vocab file.added_tokens
    → lookup file.vocab word ≡ some id
    → get_elem? t.tokens id ≡ some word
parse-tokens file t word id h d agreed found =
    let (_, _, filled, _) = parse-fields file t h in
    let size = max_of (size_of file.vocab) (size_of (entries_of file.added_tokens)) in
    let blank = replicate size no_text in
    let lt = in_tokens file word id found in
    let same =
      All_map _ (λ e. (e.0 ≢ id) ⊎ (e.1 ≡ word)) file.added_tokens
        (λ e a. lookup_found (λ v. (e.0 ≢ v.1) ⊎ (e.1 ≡ v.0)) file.vocab word id a found) agreed in
    rw (sym filled) (
      fill_added_kept file.added_tokens (fill_vocab blank file.vocab) word id same
        (omega (arith, lt, length-fill_vocab file.vocab blank))
        (fill_vocab_found file.vocab blank word id d found lt))

-- The token of a byte is its character, which stands for the byte.
pub parse-byte_ids :
    (file : File) (t : Tokenizer) (b : ℕ)
    → parse file ≡ ok t
    → b < 256
    → (lookup file.vocab (get_or byte_chars b 0 ∷ []) ≡ some (get_or t.byte_ids b 0))
      × (char_byte t.char_bytes (get_or byte_chars b 0) ≡ some b)
parse-byte_ids file t b h lt =
    let (ids, _, _, chars) = parse-fields file t h in
    (
      byte_ids_found file.vocab byte_chars 0 t.byte_ids b ids (rw length-byte_chars lt),
      rw (sym chars) (char_byte_of_byte b lt),
    )

pub parse-merges :
    (file : File) (t : Tokenizer) (a b r m : ℕ)
    → parse file ≡ ok t
    → lookup_pair t.merges a b ≡ some (r, m)
    → IsMerge file.vocab ((a, b), (r, m))
parse-merges file t a b r m h found =
    let (_, merges, _, _) = parse-fields file t h in
    lookup_pair_found (IsMerge file.vocab) t.merges a b r m
      (merges_found file.vocab file.merges 0 [] t.merges tt merges) found
