-- ===== src/Reservation/Invariant.antt =====
-- What holds of the reservations at any time, and when one is given.
use chatty.Common.{
  either_false, either_true, ℕ, zero, suc, ◌+◌, ◌≤◌, ◌≡◌, refl, sym, ◌∙◌, ap, Bool, true, false,
  ◌&&◌, ◌||◌, Option, none, some, List, [], ◌∷◌, map, leb, if◌then◌else◌, get_elem?, inl, inr,
  arith, if_both, Bool-cases,
}
use chatty.Common.Fallible.{fail_if_passed, ok_inj}
use chatty.Common.Texts.{same_text_refl, same_text-eq}
use mathlib.Core.Path.{subst}
use chatty.Reservation.{
  Result, ok, err, Text, same_text, ModelOperationKey, ReserveError, invalid_name, already_active,
  too_many_downloads, NameTests, Selected, max_parallel_downloads, Operations, same_key,
  contains_key, downloads, remove, key_of, is_invalid, reserve_model_operation, System, Action,
  reserve, let_go, remove_at, reserved, dropped, step, idle, run,
}

-- No key stands in two entries.
abbrev pub KeysDiffer : Operations → Type 0
KeysDiffer [] = Unit {0}
KeysDiffer ((key, download) ∷ operations) =
    (contains_key key operations ≡ false) × KeysDiffer operations

abbrev pub keys_of : Operations → List ModelOperationKey
keys_of operations = map (λ (key, download). key) operations

-- The guards are those of the entries, no model is in two of them, and the downloads are few.
pub record IsReserved (s : System) : Type 0 where
  pub differ : KeysDiffer s.operations
  pub held : keys_of s.operations ≡ s.guards
  pub few : downloads s.operations ≤ max_parallel_downloads

same_key_refl : (k : ModelOperationKey) → same_key k k ≡ true
same_key_refl k = rw (same_text_refl k.plugin, same_text_refl k.url, same_text_refl k.name) refl

same_key-eq : (a b : ModelOperationKey) → same_key a b ≡ true → a ≡ b
same_key-eq a b h =
    parts (same_text a.plugin b.plugin) (same_text a.url b.url) (same_text a.name b.name) refl refl
      refl h
  where
    parts :
        (p u n : Bool)
        → same_text a.plugin b.plugin ≡ p
        → same_text a.url b.url ≡ u
        → same_text a.name b.name ≡ n
        → (p && u && n) ≡ true
        → a ≡ b
    parts true true true p u n h =
        cc (
          same_text-eq a.plugin b.plugin p,
          same_text-eq a.url b.url u,
          same_text-eq a.name b.name n,
        )
    parts true true false p u n h = absurd (cc h)
    parts true false m p u n h = absurd (cc h)
    parts false v m p u n h = absurd (cc h)

-- Removing a key that is not there changes nothing.
remove_absent :
    (key : ModelOperationKey) (operations : Operations)
    → contains_key key operations ≡ false
    → remove key operations ≡ operations
unfolding contains_key remove
remove_absent key [] h = refl
remove_absent key ((other, download) ∷ operations) h =
    tested (same_key key other) refl (remove_absent key operations) h
  where
    tested :
        (same : Bool)
        → same_key key other ≡ same
        → (contains_key key operations ≡ false → remove key operations ≡ operations)
        → (same || contains_key key operations) ≡ false
        → (if same then remove key operations else (other, download) ∷ remove key operations)
          ≡ (other, download) ∷ operations
    tested true e later h = absurd (cc h)
    tested false e later h = ap (λ l. (other, download) ∷ l) (later h)

contains_held :
    (operations : Operations) (i : ℕ) (key : ModelOperationKey)
    → get_elem? (keys_of operations) i ≡ some key
    → contains_key key operations ≡ true
unfolding contains_key
contains_held [] i key h = absurd (cc h)
contains_held ((other, download) ∷ operations) zero key h =
    let same : other ≡ key = cc h in
    subst (λ k. contains_key k ((other, download) ∷ operations) ≡ true) same
      (rw (same_key_refl other) refl)
contains_held ((other, download) ∷ operations) (suc i) key h =
    either_true (same_key key other) (contains_held operations i key h)

-- Removing the key of an entry takes that entry away.
remove_held :
    (operations : Operations) (i : ℕ) (key : ModelOperationKey)
    → KeysDiffer operations
    → get_elem? (keys_of operations) i ≡ some key
    → keys_of (remove key operations) ≡ remove_at i (keys_of operations)
unfolding remove
remove_held [] i key v h = absurd (cc h)
remove_held ((other, download) ∷ operations) zero key (new, v) h =
    let same : other ≡ key = cc h in
    subst (λ k. keys_of (remove k ((other, download) ∷ operations)) ≡ keys_of operations) same
      (rw (same_key_refl other, remove_absent other operations new) refl)
remove_held ((other, download) ∷ operations) (suc i) key (new, v) h =
    elim (Bool-cases (same_key key other)) [
      | inl same ↦ absurd (
          cc (
            new,
            subst (λ k. contains_key k operations ≡ true) (same_key-eq key other same)
                (contains_held operations i key h),
          ))
      | inr apart ↦ rw apart (ap (λ l. other ∷ l) (remove_held operations i key v h))
    ]

contains_key-remove :
    (key other : ModelOperationKey) (operations : Operations)
    → contains_key other operations ≡ false
    → contains_key other (remove key operations) ≡ false
unfolding contains_key remove
contains_key-remove key other [] h = refl
contains_key-remove key other ((first, download) ∷ operations) h =
    let (apart, rest) = either_false (same_key other first) (contains_key other operations) h in
    let later = contains_key-remove key other operations rest in
    if_both (λ l. contains_key other l ≡ false) (same_key key first) (remove key operations)
      ((first, download) ∷ remove key operations) later (rw apart later)

remove-KeysDiffer :
    (key : ModelOperationKey) (operations : Operations)
    → KeysDiffer operations
    → KeysDiffer (remove key operations)
unfolding remove
remove-KeysDiffer key [] v = tt
remove-KeysDiffer key ((other, download) ∷ operations) (new, v) =
    let rest = remove-KeysDiffer key operations v in
    if_both KeysDiffer (same_key key other) (remove key operations)
      ((other, download) ∷ remove key operations) rest
      (contains_key-remove key other operations new, rest)

downloads-remove :
    (key : ModelOperationKey) (operations : Operations)
    → downloads (remove key operations) ≤ downloads operations
unfolding remove downloads
downloads-remove key [] = omega arith
downloads-remove key ((other, download) ∷ operations) =
    let later = downloads-remove key operations in
    if_both
      (λ l. downloads l ≤ (if download then downloads operations + 1 else downloads operations))
      (same_key key other) (remove key operations) ((other, download) ∷ remove key operations)
      (if_both (λ n. downloads (remove key operations) ≤ n) download _ _ (omega (arith, later))
        later)
      (both download later)
  where
    both :
        (download : Bool) {m n : ℕ}
        → m ≤ n
        → (if download then m + 1 else m) ≤ (if download then n + 1 else n)
    both true h = omega (arith, h)
    both false h = h

dropped-IsReserved :
    (s : System) (i : ℕ) (held : Option ModelOperationKey)
    → get_elem? s.guards i ≡ held
    → IsReserved s
    → IsReserved (dropped s i held)
dropped-IsReserved s i none at v = v
dropped-IsReserved s i (some key) at v =
    let there : get_elem? (keys_of s.operations) i ≡ some key =
      ap (λ l. get_elem? l i) v.held ∙ at in
    record {
      differ = remove-KeysDiffer key s.operations v.differ;
      held = remove_held s.operations i key v.differ there ∙ ap (remove_at i) v.held;
      few = omega (arith, downloads-remove key s.operations, v.few);
    }

-- What a reservation says when it is given.
reserved_passed :
    (names : NameTests) (selected : Selected) (model : Text) (download : Bool)
    (operations next : Operations)
    → reserve_model_operation names selected model download operations ≡ ok next
    → (is_invalid names model ≡ false)
      × (contains_key (key_of names selected model) operations ≡ false)
      × ((download && leb max_parallel_downloads (downloads operations)) ≡ false)
      × (next ≡ (key_of names selected model, download) ∷ operations)
unfolding reserve_model_operation
reserved_passed names selected model download operations next h =
    let (valid, h1) = fail_if_passed _ invalid_name _ h in
    let (free, h2) = fail_if_passed _ already_active _ h1 in
    let (few, h3) = fail_if_passed _ too_many_downloads _ h2 in (valid, free, few, sym (ok_inj h3))

reserved-IsReserved :
    (names : NameTests) (selected : Selected) (model : Text) (download : Bool) (s : System)
    (r : Result ReserveError Operations)
    → reserve_model_operation names selected model download s.operations ≡ r
    → IsReserved s
    → IsReserved (reserved s (key_of names selected model) r)
unfolding downloads
reserved-IsReserved names selected model download s (err reason) e v = v
reserved-IsReserved names selected model download s (ok next) e v =
    let (valid, free, few, same) =
      reserved_passed names selected model download s.operations next e in
    let key = key_of names selected model in
    let given : IsReserved
        (record { operations = (key, download) ∷ s.operations; guards = key ∷ s.guards }) =
      record {
        differ = (free, v.differ);
        held = ap (λ l. key ∷ l) v.held;
        few = counted download few;
      } in
    subst (λ l. IsReserved (record { operations = l; guards = key ∷ s.guards })) (sym same) given
  where
    counted :
        (download : Bool)
        → (download && leb max_parallel_downloads (downloads s.operations)) ≡ false
        → downloads ((key_of names selected model, download) ∷ s.operations)
          ≤ max_parallel_downloads
    counted true h = ground arith
    counted false h = v.few

run-IsReserved :
    (names : NameTests) (actions : List Action) (s : System)
    → IsReserved s
    → IsReserved (run names s actions)
unfolding run step
run-IsReserved names [] s v = v
run-IsReserved names (reserve selected model download ∷ actions) s v =
    run-IsReserved names actions _ (reserved-IsReserved names selected model download s _ refl v)
run-IsReserved names (let_go i ∷ actions) s v =
    run-IsReserved names actions _ (dropped-IsReserved s i (get_elem? s.guards i) refl v)

-- After any sequence of reservations, refused or given, and of guards that are dropped in any order, no
-- model is in two operations, the entries are exactly those of the guards that are held, and at most four
-- are downloads.
pub run-idle-IsReserved :
    (names : NameTests) (actions : List Action) → IsReserved (run names idle actions)
unfolding downloads
run-idle-IsReserved names actions =
    run-IsReserved names actions idle (record { differ = tt; held = refl; few = omega arith })

contains_key-remove_self :
    (key : ModelOperationKey) (operations : Operations)
    → contains_key key (remove key operations) ≡ false
unfolding contains_key remove
contains_key-remove_self key [] = refl
contains_key-remove_self key ((other, download) ∷ operations) =
    let later = contains_key-remove_self key operations in
    elim (Bool-cases (same_key key other)) [
      | inl same ↦ rw same later
      | inr apart ↦ rw (apart, apart) later
    ]

-- While a guard is held, after any sequence of steps from the start, a valid name with its key, in
-- whatever spelling, is refused as already active; once the guard is dropped, an operation on the model
-- that is no download is given.
pub guard_excludes :
    (names : NameTests) (actions : List Action) (selected : Selected) (model : Text)
    (download : Bool) (i : ℕ)
    → is_invalid names model ≡ false
    → get_elem? (run names idle actions).guards i ≡ some (key_of names selected model)
    → (reserve_model_operation names selected model download (run names idle actions).operations
        ≡ err already_active)
      × (reserve_model_operation names selected model false
            (step names (run names idle actions) (let_go i)).operations
          ≡ ok (
              (key_of names selected model, false)
              ∷ remove (key_of names selected model) (run names idle actions).operations))
unfolding reserve_model_operation step
guard_excludes names actions selected model download i valid held =
    let key = key_of names selected model in
    let s = run names idle actions in
    let v = run-idle-IsReserved names actions in
    let there : contains_key key s.operations ≡ true =
      contains_held s.operations i key (ap (λ l. get_elem? l i) v.held ∙ held) in
    (rw (valid, there) refl, rw (held, valid, contains_key-remove_self key s.operations) refl)
