-- ===== src/Catalog/Reading.antt =====
-- A build while the headers of the shards are read.
use chatty.Common.{
  not-false, ℕ, suc, ◌+◌, ◌≡◌, refl, sym, ◌∙◌, ap, Bool, true, false, not, Option, none, some, List,
  [], ◌∷◌, if◌then◌else◌, get_elem?, codes,
}
use chatty.Common.Fallible.{fail_if_passed, or_fail_passed, Result-passed, ok_inj}
use chatty.Common.Texts.{same_text}
use mathlib.Core.Path.{subst}
use chatty.Catalog.Extents.{IsLocated, extent-IsLocated}
use chatty.Catalog.{
  Result, ok, ◌>>=◌, ◌>>◌, fail_if, or_fail, Text, TensorEntry, ShardFile, Build, Directory,
  ModelConfig, Error, part_of, place, is_listed, extent, place_tensor, place_tensors, add_shard,
  add_shards, bad_entry, not_in_index, bad_header, header_too_long, header_past_end, unsafe_name,
}
use chatty.Catalog.Placed.{IsHeld, IsPlaced, place-IsPlaced, add_zero, add_suc, zero_add}

module _ (config : ModelConfig) (weight_map : List (Text × Text)) (dir : Directory)
    (names : List Text) where
  abbrev Placed : Build → Type 0
  Placed = IsPlaced config weight_map dir names

  -- A shard whose header is being read.
  record IsReading (shard : ℕ) (name : Text) (file : ShardFile)
      (tensors : List (Text × Option TensorEntry)) : Type 0 where
    named : get_elem? names shard ≡ some name
    opened : dir name ≡ some file
    header : file.tensors ≡ some tensors

  place_tensor-IsPlaced :
      (shard : ℕ) (name : Text) (file : ShardFile) (tensors : List (Text × Option TensorEntry))
      (position : ℕ) (tensor : Text) (value : Option TensorEntry) (b : Build) {after : Build}
      → IsReading shard name file tensors
      → get_elem? tensors position ≡ some (tensor, value)
      → Placed b
      → place_tensor config weight_map shard name
          (8 + file.header_len)
          file.file_len
          (tensor, value)
          b
        ≡ ok after
      → Placed after
  unfolding place_tensor
  place_tensor-IsPlaced shard name file tensors position tensor value b {after} reading at v h =
      skipped (same_text tensor (codes "__metadata__")) h
    where
      placing : Result Error Build
      placing = do
        entry ← or_fail value bad_entry
        fail_if (not (is_listed weight_map tensor name)) not_in_index
        (dtype, e) ← extent shard entry (8 + file.header_len) file.file_len
        place config tensor dtype entry e (part_of tensor) (record b { seen = b.seen + 1 })

      placed : placing ≡ ok after → Placed after
      placed h =
          let (entry, present, h1) = or_fail_passed value bad_entry _ h in
          let (named_so, h2) = fail_if_passed _ not_in_index _ h1 in
          let ((dtype, e), accepted, h3) =
            Result-passed (extent shard entry (8 + file.header_len) file.file_len) _ h2 in
          let located =
            extent-IsLocated shard entry (8 + file.header_len) file.file_len dtype e accepted in
          let held : IsHeld weight_map dir names tensor entry dtype e = record {
            name = name;
            file = file;
            tensors = tensors;
            position = position;
            named = ap (get_elem? names) located.shards ∙ reading.named;
            listed = not-false _ named_so;
            opened = reading.opened;
            header = reading.header;
            stands = at ∙ ap (λ o. some (tensor, o)) present;
            located =
                subst (λ n. IsLocated n entry (8 + file.header_len) file.file_len dtype e)
                  (sym located.shards) located;
          } in
          let counted : Placed (record b { seen = b.seen + 1 }) = record {
            experts = v.experts;
            tables = v.tables;
            cores = v.cores;
          } in
          place-IsPlaced config weight_map dir names tensor dtype entry e (part_of tensor) _ refl
            held counted h3

      skipped : (skip : Bool) → (if skip then ok b else placing) ≡ ok after → Placed after
      skipped true h = subst Placed (ok_inj h) v
      skipped false h = placed h

  -- Reading on from a position of the header.
  place_tensors-IsPlaced :
      (shard : ℕ) (name : Text) (file : ShardFile) (tensors rest : List (Text × Option TensorEntry))
      (position : ℕ) (b : Build) {after : Build}
      → IsReading shard name file tensors
      → ((k : ℕ) → get_elem? rest k ≡ get_elem? tensors (position + k))
      → Placed b
      → place_tensors config weight_map shard name (8 + file.header_len) file.file_len rest b
        ≡ ok after
      → Placed after
  unfolding place_tensors
  place_tensors-IsPlaced shard name file tensors [] position b reading same v h =
      subst Placed (ok_inj h) v
  place_tensors-IsPlaced shard name file tensors ((tensor, value) ∷ rest) position b reading same v
        h =
      let (next, placed, h1) =
        Result-passed
          (place_tensor config weight_map shard name (8 + file.header_len) file.file_len
            (tensor, value) b)
          _ h in
      let here : get_elem? tensors position ≡ some (tensor, value) =
        ap (get_elem? tensors) (add_zero position) ∙ sym (same 0) in
      place_tensors-IsPlaced shard name file tensors rest (position + 1) next reading
        (λ k. same (suc k) ∙ ap (get_elem? tensors) (add_suc position k))
        (place_tensor-IsPlaced shard name file tensors position tensor value b reading here v
          placed)
        h1

  add_shard-IsPlaced :
      (shard : ℕ) (name : Text) (read : Option ShardFile) (b : Build) {after : Build}
      → dir name ≡ read
      → get_elem? names shard ≡ some name
      → Placed b
      → add_shard config weight_map shard name read b ≡ ok after
      → Placed after
  unfolding add_shard
  add_shard-IsPlaced shard name none b opened named v h = absurd (cc h)
  add_shard-IsPlaced shard name (some file) b opened named v h =
      let (short, h1) = fail_if_passed _ header_too_long _ h in
      let (fits, h2) = fail_if_passed _ header_past_end _ h1 in
      let (tensors, header, h3) = or_fail_passed file.tensors bad_header _ h2 in
      place_tensors-IsPlaced shard name file tensors tensors 0 b
        (record { named = named; opened = opened; header = header })
        (λ k. ap (get_elem? tensors) (zero_add k)) v h3

  -- Reading on from a shard.
  pub add_shards-IsPlaced :
      (shard : ℕ) (rest : List Text) (b : Build) {after : Build}
      → ((k : ℕ) → get_elem? rest k ≡ get_elem? names (shard + k))
      → Placed b
      → add_shards config weight_map dir shard rest b ≡ ok after
      → Placed after
  unfolding add_shards
  add_shards-IsPlaced shard [] b same v h = subst Placed (ok_inj h) v
  add_shards-IsPlaced shard (name ∷ rest) b same v h =
      let (safe, h1) = fail_if_passed _ unsafe_name _ h in
      let (next, added, h2) =
        Result-passed (add_shard config weight_map shard name (dir name) b) _ h1 in
      let here : get_elem? names shard ≡ some name =
        ap (get_elem? names) (add_zero shard) ∙ sym (same 0) in
      add_shards-IsPlaced (shard + 1) rest next
        (λ k. same (suc k) ∙ ap (get_elem? names) (add_suc shard k))
        (add_shard-IsPlaced shard name (dir name) b refl here v added) h2
