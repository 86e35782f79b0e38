-- ===== src/Tokenizer/RoundTrip.antt =====
-- What is encoded decodes to the text: merging keeps the bytes that the symbols spell.
use chatty.Common.{
  ℕ, zero, suc, ◌<◌, ◌≡◌, ◌≢◌, refl, sym, ◌∙◌, ap, ◌&&◌, Option, none, some, List, [], ◌∷◌, ◌++◌,
  append_assoc, append-nil, ◌==◌, length, get_elem?, get_or, All, All-append, All-front, All-back,
  All_map, inl, inr, arith, Bool-cases, Option-cases,
}
use chatty.Common.Fallible.{ok}
use chatty.Tokenizer.Words.{lookup_pair, IsDistinct}
use chatty.Tokenizer.Parsed.{IsAgreed, parse-tokens, parse-byte_ids, parse-merges}
use chatty.Tokenizer.Merging.{best_pair_found}
use chatty.Tokenizer.Split.{IsMatcher, joined, joined-split_by}
use chatty.Tokenizer.{
  File, Tokenizer, parse, byte_chars, char_byte, prepend, spell, token_bytes, all_bytes, decode,
  encode, bpe, bpe_all, bpe_loop, best_pair, merge_pairs, symbols_of, Pattern, split_by,
}

-- The text of the token consists of characters that stand for bytes.
abbrev pub IsSpelled : Tokenizer → ℕ → Type 0
IsSpelled t id =
    (word : List ℕ) × (bytes : List ℕ) × (get_elem? t.tokens id ≡ some word)
    × (spell t.char_bytes word ≡ some bytes)

prepend-some :
    (first : Option ℕ) (rest : Option (List ℕ)) (x : List ℕ)
    → prepend first rest ≡ some x
    → (b : ℕ) × (bytes : List ℕ) × (first ≡ some b) × (rest ≡ some bytes) × (b ∷ bytes ≡ x)
prepend-some none rest x h = absurd (cc h)
prepend-some (some b) none x h = absurd (cc h)
prepend-some (some b) (some bytes) x h = (b, bytes, refl, refl, cc h)

spell-append :
    (char_bytes : List (ℕ × ℕ)) (p q x y : List ℕ)
    → spell char_bytes p ≡ some x
    → spell char_bytes q ≡ some y
    → spell char_bytes (p ++ q) ≡ some (x ++ y)
unfolding spell
spell-append char_bytes [] q x y hp hq = let e : [] ≡ x = cc hp in rw (sym e) hq
spell-append char_bytes (c ∷ p) q x y hp hq =
    let (b, bytes, known, spelled, e) =
      prepend-some (char_byte char_bytes c) (spell char_bytes p) x hp in
    rw (sym e, known, spell-append char_bytes p q bytes y spelled hq) refl

token_bytes_spelled :
    (t : Tokenizer) (id : ℕ) (word bytes : List ℕ)
    → get_elem? t.tokens id ≡ some word
    → spell t.char_bytes word ≡ some bytes
    → token_bytes t id ≡ bytes
unfolding token_bytes
token_bytes_spelled t id word bytes found spelled = rw (found, spelled) refl

module _ (file : File) (t : Tokenizer) (parsed : parse file ≡ ok t)
    (distinct : IsDistinct file.vocab) (agreed : IsAgreed file.vocab file.added_tokens) where
  merged-IsSpelled :
      (a b r m : ℕ)
      → IsSpelled t a
      → IsSpelled t b
      → lookup_pair t.merges a b ≡ some (r, m)
      → IsSpelled t m × (token_bytes t m ≡ token_bytes t a ++ token_bytes t b)
  merged-IsSpelled a b r m (word_a, x, found_a, spelled_a) (word_b, y, found_b, spelled_b) h =
      let (p, q, id_p, id_q, id_pq) = parse-merges file t a b r m parsed h in
      let token_p = parse-tokens file t p a parsed distinct agreed id_p in
      let token_q = parse-tokens file t q b parsed distinct agreed id_q in
      let same_p : word_a ≡ p = cc (token_p, found_a) in
      let same_q : word_b ≡ q = cc (token_q, found_b) in
      let spelled =
        spell-append t.char_bytes p q x y (rw (sym same_p) spelled_a) (rw (sym same_q) spelled_b) in
      let found = parse-tokens file t (p ++ q) m parsed distinct agreed id_pq in
      (
        (p ++ q, x ++ y, found, spelled),
        token_bytes_spelled t m (p ++ q) (x ++ y) found spelled
            ∙ sym (
                ap (λ z. z ++ token_bytes t b) (token_bytes_spelled t a word_a x found_a spelled_a)
                ∙ ap (λ z. x ++ z) (token_bytes_spelled t b word_b y found_b spelled_b)),
      )

  merge_pairs-IsSpelled :
      (a b r m : ℕ) (symbols : List ℕ)
      → lookup_pair t.merges a b ≡ some (r, m)
      → All (IsSpelled t) symbols
      → All (IsSpelled t) (merge_pairs a b m symbols)
        × (all_bytes t (merge_pairs a b m symbols) ≡ all_bytes t symbols)
  unfolding merge_pairs all_bytes
  merge_pairs-IsSpelled a b r m [] h all = (tt, refl)
  merge_pairs-IsSpelled a b r m (x ∷ []) h all = (all, refl)
  merge_pairs-IsSpelled a b r m (x ∷ y ∷ symbols) h (first, (second, rest)) =
      elim (Bool-cases (x == a && y == b)) [
        | inl same ↦
            let ex : x ≡ a = ground (arith, same) in
            let ey : y ≡ b = ground (arith, same) in
            let (spelled, bytes) =
              merged-IsSpelled a b r m (rw (sym ex) first) (rw (sym ey) second) h in
            let (later, same_later) = merge_pairs-IsSpelled a b r m symbols h rest in
            rw same (
              (spelled, later),
              ap (λ z. z ++ all_bytes t (merge_pairs a b m symbols)) bytes
                  ∙ append_assoc (token_bytes t a) (token_bytes t b)
                      (all_bytes t (merge_pairs a b m symbols))
                  ∙ ap (λ z. token_bytes t a ++ (token_bytes t b ++ z)) same_later
                  ∙ ap (λ z. token_bytes t z ++ (token_bytes t b ++ all_bytes t symbols)) (sym ex)
                  ∙ ap (λ z. token_bytes t x ++ (token_bytes t z ++ all_bytes t symbols)) (sym ey),
            )
        | inr other ↦
            let (later, same_later) =
              merge_pairs-IsSpelled a b r m (y ∷ symbols) h (second, rest) in
            rw other ((first, later), ap (λ z. token_bytes t x ++ z) same_later)
      ]

  bpe_loop-IsSpelled :
      (fuel : ℕ) (symbols : List ℕ)
      → All (IsSpelled t) symbols
      → All (IsSpelled t) (bpe_loop t.merges fuel symbols)
        × (all_bytes t (bpe_loop t.merges fuel symbols) ≡ all_bytes t symbols)
  unfolding bpe_loop
  bpe_loop-IsSpelled zero symbols all = (all, refl)
  bpe_loop-IsSpelled (suc fuel) symbols all = elim (Option-cases (best_pair t.merges symbols)) [
    | inl n ↦ rw n (all, refl)
    | inr ((r, a, b, m), e) ↦
        let (known, there) = best_pair_found t.merges symbols r a b m e in
        let (spelled, bytes) = merge_pairs-IsSpelled a b r m symbols known all in
        let (more, same) = bpe_loop-IsSpelled fuel (merge_pairs a b m symbols) spelled in
        rw e (more, same ∙ bytes)
  ]

  symbols-IsSpelled :
      (bytes : List ℕ)
      → All (λ b. b < 256) bytes
      → All (IsSpelled t) (symbols_of t.byte_ids bytes)
        × (all_bytes t (symbols_of t.byte_ids bytes) ≡ bytes)
  unfolding symbols_of all_bytes spell
  symbols-IsSpelled [] all = (tt, refl)
  symbols-IsSpelled (b ∷ bytes) (small, all) =
      let (entry, known) = parse-byte_ids file t b parsed small in
      let word = get_or byte_chars b 0 ∷ [] in
      let id = get_or t.byte_ids b 0 in
      let found = parse-tokens file t word id parsed distinct agreed entry in
      let spelled : spell t.char_bytes word ≡ some (b ∷ []) = rw known refl in
      let (later, same) = symbols-IsSpelled bytes all in
      (
        ((word, b ∷ [], found, spelled), later),
        ap (λ z. z ++ all_bytes t (symbols_of t.byte_ids bytes))
              (token_bytes_spelled t id word (b ∷ []) found spelled)
            ∙ ap (λ z. b ∷ z) same,
      )

  all_bytes-append :
      (front back : List ℕ) → all_bytes t (front ++ back) ≡ all_bytes t front ++ all_bytes t back
  unfolding all_bytes
  all_bytes-append [] back = refl
  all_bytes-append (id ∷ front) back =
      ap (λ z. token_bytes t id ++ z) (all_bytes-append front back)
      ∙ sym (append_assoc (token_bytes t id) (all_bytes t front) (all_bytes t back))

  bpe_all-IsSpelled :
      (pieces : List (List ℕ))
      → All (λ b. b < 256) (joined pieces)
      → All (IsSpelled t) (bpe_all t pieces) × (all_bytes t (bpe_all t pieces) ≡ joined pieces)
  unfolding bpe_all bpe joined all_bytes
  bpe_all-IsSpelled [] all = (tt, refl)
  bpe_all-IsSpelled (piece ∷ pieces) all =
      let (spelled, bytes) = symbols-IsSpelled piece (All-front _ piece (joined pieces) all) in
      let (merged, same) =
        bpe_loop-IsSpelled (length piece) (symbols_of t.byte_ids piece) spelled in
      let (later, rest) = bpe_all-IsSpelled pieces (All-back _ piece (joined pieces) all) in
      (
        All-append _ _ _ merged later,
        all_bytes-append (bpe_loop t.merges (length piece) (symbols_of t.byte_ids piece))
              (bpe_all t pieces)
            ∙ ap (λ z. z ++ all_bytes t (bpe_all t pieces)) (same ∙ bytes)
            ∙ ap (λ z. piece ++ z) rest,
      )

  encode-IsSpelled :
      (patterns : List Pattern) (text : List ℕ)
      → All IsMatcher patterns
      → All (λ b. b < 256) text
      → All (IsSpelled t) (encode t patterns text) × (all_bytes t (encode t patterns text) ≡ text)
  unfolding encode joined
  encode-IsSpelled patterns text matches all =
      let whole : joined (split_by patterns (text ∷ [])) ≡ text =
        joined-split_by patterns (text ∷ []) matches ∙ append-nil text in
      let (spelled, same) = bpe_all-IsSpelled (split_by patterns (text ∷ [])) (rw whole all) in
      (spelled, same ∙ whole)

  -- Of a tokenizer parsed from a file whose vocabulary gives no id twice and agrees with its added
  -- tokens, what a text (its UTF-8 bytes) is encoded to decodes to the same text, however the patterns
  -- split it, as long as their matches stand in order in it, when the text is what
  -- `String::from_utf8_lossy` makes of its bytes.
  pub decode-encode_text :
      (from_utf8_lossy : List ℕ → List ℕ) (patterns : List Pattern) (text : List ℕ)
      → All IsMatcher patterns
      → All (λ b. b < 256) text
      → from_utf8_lossy text ≡ text
      → decode from_utf8_lossy t (encode t patterns text) ≡ text
  unfolding decode
  decode-encode_text from_utf8_lossy patterns text matches all valid =
      ap from_utf8_lossy (encode-IsSpelled patterns text matches all).1 ∙ valid

  -- Under the same conditions no token whose text is not all byte characters, as that of a special token
  -- with another character in it, stands in what any text is encoded to: content cannot forge it.
  pub encode_forges_none :
      (patterns : List Pattern) (text name : List ℕ) (id : ℕ)
      → All IsMatcher patterns
      → All (λ b. b < 256) text
      → get_elem? t.tokens id ≡ some name
      → spell t.char_bytes name ≡ none
      → All (λ i. i ≢ id) (encode t patterns text)
  encode_forges_none patterns text name id matches all named other =
      All_map (IsSpelled t) (λ i. i ≢ id) (encode t patterns text)
        (λ i (word, bytes, found, spelled) e. absurd (cc (found, spelled, named, other, e)))
        (encode-IsSpelled patterns text matches all).0
