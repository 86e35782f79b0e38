-- ===== src/Tokenizer/Merged.antt =====
-- Which tokens compressed_map gives one number.
use chatty.Common.{
  ℕ, zero, suc, ◌+◌, ◌<◌, ◌≡◌, ◌↔◌, ◌⊎◌, refl, sym, ◌∙◌, ap, Bool, true, false, Option, none, some,
  List, [], ◌∷◌, if◌then◌else◌, length, get_elem?, inl, inr, arith, Bool-cases,
}
use chatty.Common.Texts.{same_text, same_text_refl, same_text-eq}
use mathlib.Core.Path.{subst}
use chatty.Tokenizer.{Tokenizer}
use chatty.Tokenizer.Compressed.{
  Unicode, key_from, Keys, entry_of, or_insert, number_tokens, compressed_map,
}

-- Each entry has the number of those before it.
IsNumbered : Keys → Type 0
IsNumbered [] = Unit {0}
IsNumbered ((key, number) ∷ keys) = (number ≡ length keys) × IsNumbered keys

-- An entry stays when others come.
abbrev IsKept : Keys → Keys → Type 0
IsKept before after =
    (key : List ℕ) (n : ℕ) → entry_of key before ≡ some n → entry_of key after ≡ some n

entry_of-lt :
    (key : List ℕ) (keys : Keys) (n : ℕ)
    → IsNumbered keys
    → entry_of key keys ≡ some n
    → n < length keys
unfolding entry_of IsNumbered
entry_of-lt key [] n v h = absurd (cc h)
entry_of-lt key ((other, number) ∷ keys) n (e, v) h =
    tested (same_text key other) (entry_of-lt key keys n v) h
  where
    tested :
        (same : Bool)
        → (entry_of key keys ≡ some n → n < length keys)
        → (if same then some number else entry_of key keys) ≡ some n
        → n < suc (length keys)
    tested true later h = let same : number ≡ n = cc h in omega (arith, same, e)
    tested false later h = omega (arith, later h)

-- One number belongs to one key.
entry_of_inj :
    (keys : Keys) (a b : List ℕ) (n : ℕ)
    → IsNumbered keys
    → entry_of a keys ≡ some n
    → entry_of b keys ≡ some n
    → a ≡ b
unfolding entry_of IsNumbered
entry_of_inj [] a b n v p q = absurd (cc p)
entry_of_inj ((other, number) ∷ keys) a b n (e, v) p q =
    tested (same_text a other) (same_text b other) refl refl (entry_of_inj keys a b n v)
      (entry_of-lt a keys n v) (entry_of-lt b keys n v) p q
  where
    tested :
        (x y : Bool)
        → same_text a other ≡ x
        → same_text b other ≡ y
        → (entry_of a keys ≡ some n → entry_of b keys ≡ some n → a ≡ b)
        → (entry_of a keys ≡ some n → n < length keys)
        → (entry_of b keys ≡ some n → n < length keys)
        → (if x then some number else entry_of a keys) ≡ some n
        → (if y then some number else entry_of b keys) ≡ some n
        → a ≡ b
    tested true true f g later l m p q = same_text-eq a other f ∙ sym (same_text-eq b other g)
    tested true false f g later l m p q =
        let same : number ≡ n = cc p in absurd (omega (arith, same, e, m q))
    tested false true f g later l m p q =
        let same : number ≡ n = cc q in absurd (omega (arith, same, e, l p))
    tested false false f g later l m p q = later p q

abbrev Each : Unicode → Tokenizer → ℕ → List (List ℕ) → List ℕ × Keys → Type 0
Each u t id tokens (map, all) =
    (i : ℕ) (token : List ℕ)
    → get_elem? tokens i ≡ some token
    → (n : ℕ) × (get_elem? map i ≡ some n) × (entry_of (key_from u t (id + i) token) all ≡ some n)

Each-cons :
    (u : Unicode) (t : Tokenizer) (id : ℕ) (first : List ℕ) (tokens : List (List ℕ)) (number : ℕ)
    (next : Keys) (result : List ℕ × Keys)
    → entry_of (key_from u t id first) next ≡ some number
    → IsKept next (result.1)
    → Each u t (id + 1) tokens result
    → Each u t id (first ∷ tokens) (number ∷ result.0, result.1)
Each-cons u t id first tokens number next result found kept rest zero token h =
    let same : first ≡ token = cc h in
    let at : id ≡ id + 0 = omega arith in
    (
      number,
      refl,
      subst (λ k. entry_of (key_from u t k token) (result.1) ≡ some number) at
          (subst (λ w. entry_of (key_from u t id w) (result.1) ≡ some number) same
            (kept _ number found)),
    )
Each-cons u t id first tokens number next result found kept rest (suc i) token h =
    let (n, at, e) = rest i token h in
    let same : id + 1 + i ≡ id + suc i = omega arith in
    (n, at, subst (λ k. entry_of (key_from u t k token) (result.1) ≡ some n) same e)

record IsNumbering (u : Unicode) (t : Tokenizer) (id : ℕ) (tokens : List (List ℕ)) (keys : Keys)
    (result : List ℕ × Keys) : Type 0 where
  numbered : IsNumbered (result.1)
  kept : IsKept keys (result.1)
  counted : length (result.0) ≡ length tokens
  each : Each u t id tokens result
  dense :
      (n : ℕ)
      → n < length (result.1)
      → (n < length keys) ⊎ ((i : ℕ) × (get_elem? (result.0) i ≡ some n))

-- What one token does to the keys.
record IsInserted (key : List ℕ) (keys : Keys) (result : ℕ × Keys) : Type 0 where
  numbered : IsNumbered (result.1)
  kept : IsKept keys (result.1)
  found : entry_of key (result.1) ≡ some (result.0)
  grown : (n : ℕ) → n < length (result.1) → (n < length keys) ⊎ (n ≡ result.0)

or_insert-IsInserted :
    (key : List ℕ) (keys : Keys) (o : Option ℕ)
    → entry_of key keys ≡ o
    → IsNumbered keys
    → IsInserted key keys (or_insert key keys o)
unfolding entry_of IsNumbered
or_insert-IsInserted key keys (some number) e v = record {
  numbered = v;
  kept = λ k n h. h;
  found = e;
  grown = λ n below. inl below;
}
or_insert-IsInserted key keys none e v = record {
  numbered = (refl, v);
  kept = λ k n h. elim (Bool-cases (same_text k key)) [
    | inl same ↦ absurd (cc (h, ap (λ x. entry_of x keys) (same_text-eq k key same), e))
    | inr apart ↦ rw apart h
  ];
  found = rw (same_text_refl key) refl;
  grown = λ n below. ground arith;
}

number_tokens-IsNumbering :
    (u : Unicode) (t : Tokenizer) (id : ℕ) (tokens : List (List ℕ)) (keys : Keys)
    → IsNumbered keys
    → IsNumbering u t id tokens keys (number_tokens u t id tokens keys)
unfolding number_tokens
number_tokens-IsNumbering u t id [] keys v = record {
  numbered = v;
  kept = λ k n h. h;
  counted = refl;
  each = λ i token h. absurd (cc h);
  dense = λ n below. inl below;
}
number_tokens-IsNumbering u t id (token ∷ tokens) keys v =
    let key = key_from u t id token in
    let (number, next) = or_insert key keys (entry_of key keys) in
    let one : IsInserted key keys (or_insert key keys (entry_of key keys)) =
      or_insert-IsInserted key keys (entry_of key keys) refl v in
    let rest : IsNumbering u t (id + 1) tokens next (number_tokens u t (id + 1) tokens next) =
      number_tokens-IsNumbering u t (id + 1) tokens next one.numbered in
    record {
      numbered = rest.numbered;
      kept = λ k n h. rest.kept k n (one.kept k n h);
      counted = ap suc rest.counted;
      each =
          Each-cons u t id token tokens number next (number_tokens u t (id + 1) tokens next)
            one.found rest.kept rest.each;
      dense = λ n below. elim (rest.dense n below) [
        | inr (i, at) ↦ inr (suc i, at)
        | inl before ↦ elim (one.grown n before) [
          | inl earlier ↦ inl earlier
          | inr same ↦ inr (0, ap (λ k. some k) (sym same))
        ]
      ];
    }

-- The numbers of two tokens, which are below the size, and equal just when their keys are.
pub record IsMerged (u : Unicode) (t : Tokenizer) (map : List ℕ) (size i j : ℕ) (a b : List ℕ)
    : Type 0 where
  pub m : ℕ
  pub n : ℕ
  pub first : get_elem? map i ≡ some m
  pub second : get_elem? map j ≡ some n
  pub bounded : (m < size) × (n < size)
  pub merged : (m ≡ n) ↔ (key_from u t i a ≡ key_from u t j b)

-- The compressed map has a number for every token, two tokens have the same number just when their keys
-- are the same, and the numbers are exactly those below the size that is returned.
pub compressed_map-Merges :
    (u : Unicode) (t : Tokenizer)
    → (length (compressed_map u t).0 ≡ length t.tokens)
      × ((i j : ℕ) (a b : List ℕ)
          → get_elem? t.tokens i ≡ some a
          → get_elem? t.tokens j ≡ some b
          → IsMerged u t (compressed_map u t).0 (compressed_map u t).1 i j a b)
      × ((n : ℕ)
          → n < (compressed_map u t).1
          → (i : ℕ) × (get_elem? (compressed_map u t).0 i ≡ some n))
unfolding compressed_map IsNumbered
compressed_map-Merges u t =
    let all = number_tokens u t 0 t.tokens [] in
    let v : IsNumbering u t 0 t.tokens [] all = number_tokens-IsNumbering u t 0 t.tokens [] tt in
    (
      v.counted,
      λ i j a b p q.
          let (m, at_m, key_m) = v.each i a p in
          let (n, at_n, key_n) = v.each j b q in
          let zero_i : 0 + i ≡ i = omega arith in
          let zero_j : 0 + j ≡ j = omega arith in
          let key_i : entry_of (key_from u t i a) (all.1) ≡ some m =
            subst (λ k. entry_of (key_from u t k a) (all.1) ≡ some m) zero_i key_m in
          let key_j : entry_of (key_from u t j b) (all.1) ≡ some n =
            subst (λ k. entry_of (key_from u t k b) (all.1) ≡ some n) zero_j key_n in
          record {
            m = m;
            n = n;
            first = at_m;
            second = at_n;
            bounded = (
              entry_of-lt _ (all.1) m v.numbered key_i,
              entry_of-lt _ (all.1) n v.numbered key_j,
            );
            merged = (
              λ same. entry_of_inj (all.1) _ _ n v.numbered (key_i ∙ ap (λ k. some k) same) key_j,
              λ same. same_number key_i (ap (λ k. entry_of k (all.1)) same ∙ key_j),
            );
          },
      λ n below. elim (v.dense n below) [
        | inl none_before ↦ absurd (omega (arith, none_before))
        | inr found ↦ found
      ],
    )
  where
    same_number : {o : Option ℕ} {m n : ℕ} → o ≡ some m → o ≡ some n → m ≡ n
    same_number p q = cc (p, q)
