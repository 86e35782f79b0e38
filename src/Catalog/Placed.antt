-- ===== src/Catalog/Placed.antt =====
-- Where everything that a build holds comes from.
use chatty.Common.{
  either_false, ℕ, suc, ◌+◌, ◌<◌, ◌≡◌, ◌⊎◌, refl, sym, Bool, true, false, ◌&&◌, Option, none, some,
  List, ◌∷◌, leb, ◌==◌, if◌then◌else◌, get_elem?, All, inl, inr, arith,
}
use chatty.Common.Fallible.{fail_if_passed, ok_inj}
use mathlib.Core.Path.{subst}
use chatty.Catalog.Extents.{IsLocated}
use chatty.Catalog.{
  ok, Text, Dtype, Extent, TensorEntry, CoreTensor, ShardFile, Build, Directory, ModelConfig, Part,
  mtp, vision, core, expert, table, part_of, place, place_expert, put, first_or_0, add64, mul64,
  is_listed, empty_build, duplicate, outside_model, out_of_range,
}

put_lem {ℓ} :
    {A : Type ℓ} (values : ℕ → ℕ → Option A) (i k : ℕ) (v : A) (j l : ℕ) (a : A)
    → put values i k v j l ≡ some a
    → ((j ≡ i) × (l ≡ k) × (v ≡ a)) ⊎ (values j l ≡ some a)
put_lem values i k v j l a h = tested (j == i) (l == k) refl refl h
  where
    tested :
        (here there : Bool)
        → (j == i) ≡ here
        → (l == k) ≡ there
        → ◌≡◌ {A = Option _} (if here && there then some v else values j l) (some a)
        → ((j ≡ i) × (l ≡ k) × (v ≡ a)) ⊎ (values j l ≡ some a)
    tested true true p q h = inl (ground (arith, p), ground (arith, q), cc h)
    tested true false p q h = inr h
    tested false there p q h = inr h

pub add_zero : (n : ℕ) → n ≡ n + 0
add_zero n = omega arith

pub zero_add : (k : ℕ) → k ≡ 0 + k
zero_add k = omega arith

pub add_suc : (n k : ℕ) → n + suc k ≡ n + 1 + k
add_suc n k = omega arith

moved {ℓ} :
    {A : Type ℓ} (P : ℕ → ℕ → A → Type 0) {i j k l : ℕ} {a b : A}
    → j ≡ i
    → l ≡ k
    → a ≡ b
    → P i k a
    → P j l b
moved P {i} {j} {k} {l} {a} {b} p q r h =
    subst (P j l) r (subst (λ n. P j n a) (sym q) (subst (λ n. P n k a) (sym p) h))

-- The tensor stands in the header of the shard that the index names for it, and the extent is its own.
pub record IsHeld (weight_map : List (Text × Text)) (dir : Directory) (names : List Text)
    (tensor : Text) (entry : TensorEntry) (dtype : Dtype) (e : Extent) : Type 0 where
  pub name : Text
  pub file : ShardFile
  pub tensors : List (Text × Option TensorEntry)
  pub position : ℕ
  pub named : get_elem? names e.shard ≡ some name
  pub listed : is_listed weight_map tensor name ≡ true
  pub opened : dir name ≡ some file
  pub header : file.tensors ≡ some tensors
  pub stands : get_elem? tensors position ≡ some (tensor, some entry)
  pub located : IsLocated e.shard entry (8 + file.header_len) file.file_len dtype e

module _ (config : ModelConfig) (weight_map : List (Text × Text)) (dir : Directory)
    (names : List Text) where
  -- The extent of a tensor with the name of a weight.
  pub record IsWeight (layer x slot : ℕ) (e : Extent) : Type 0 where
    pub tensor : Text
    pub entry : TensorEntry
    pub dtype : Dtype
    pub parsed : part_of tensor ≡ expert (some (layer, x, slot))
    pub held : IsHeld weight_map dir names tensor entry dtype e

  pub record IsExpert (index slot : ℕ) (e : Extent) : Type 0 where
    pub layer : ℕ
    pub x : ℕ
    pub layers : layer < config.n_layers
    pub experts : x < config.n_routed_experts
    pub indexed : index ≡ add64 (mul64 layer config.n_routed_experts) x
    pub weight : IsWeight layer x slot e

  -- The extent of a tensor with the name of a table, of the rows that its shape starts with.
  pub record IsTable (layer kind : ℕ) (e : Extent) (rows : ℕ) : Type 0 where
    pub tensor : Text
    pub entry : TensorEntry
    pub dtype : Dtype
    pub parsed : part_of tensor ≡ table layer kind
    pub counted : first_or_0 entry.shape ≡ rows
    pub held : IsHeld weight_map dir names tensor entry dtype e

  pub record IsCore (tensor : Text) (c : CoreTensor) : Type 0 where
    pub entry : TensorEntry
    pub parsed : part_of tensor ≡ core
    pub shapes : c.shape ≡ entry.shape
    pub held : IsHeld weight_map dir names tensor entry c.dtype c.extent

  pub record IsPlaced (b : Build) : Type 0 where
    pub experts :
        (index slot : ℕ) (e : Extent) → b.experts index slot ≡ some e → IsExpert index slot e
    pub tables :
        (layer kind : ℕ) (e : Extent) (rows : ℕ)
        → b.engram layer kind ≡ some (e, rows)
        → IsTable layer kind e rows
    pub cores : All (λ (name, c). IsCore name c) b.core

  pub empty_build-IsPlaced : IsPlaced empty_build
  empty_build-IsPlaced = record {
    experts = λ i k e h. absurd (cc h);
    tables = λ l k e r h. absurd (cc h);
    cores = tt;
  }

  place_expert-IsPlaced :
      (tensor : Text) (dtype : Dtype) (entry : TensorEntry) (e : Extent)
      (found : Option (ℕ × ℕ × ℕ)) (b : Build) {after : Build}
      → part_of tensor ≡ expert found
      → IsHeld weight_map dir names tensor entry dtype e
      → IsPlaced b
      → place_expert config e found b ≡ ok after
      → IsPlaced after
  place_expert-IsPlaced tensor dtype entry e none b parsed held v h = absurd (cc h)
  place_expert-IsPlaced tensor dtype entry e (some (layer, x, slot)) b parsed held v h =
      let (inside, h1) = fail_if_passed _ outside_model _ h in
      let (few_layers, few_experts) = either_false _ _ inside in
      let (in_range, h2) = fail_if_passed _ out_of_range _ h1 in
      let (free, h3) = fail_if_passed _ duplicate _ h2 in
      let index = add64 (mul64 layer config.n_routed_experts) x in
      let weight : IsWeight layer x slot e = record {
        tensor = tensor;
        entry = entry;
        dtype = dtype;
        parsed = parsed;
        held = held;
      } in
      let here : IsExpert index slot e = record {
        layer = layer;
        x = x;
        layers = below few_layers;
        experts = below few_experts;
        indexed = refl;
        weight = weight;
      } in
      let placed : IsPlaced (record b {
        experts = put b.experts index slot e;
        sizes = record b.sizes { experts = add64 b.sizes.experts e.len };
      }) =
        record {
          experts = λ i k found at. elim (put_lem b.experts index slot e i k found at) [
            | inl (same_i, same_k, same_e) ↦ moved IsExpert same_i same_k same_e here
            | inr before ↦ v.experts i k found before
          ];
          tables = v.tables;
          cores = v.cores;
        } in
      subst IsPlaced (ok_inj h3) placed
    where
      below : {a b : ℕ} → leb b a ≡ false → a < b
      below {a} {b} h = ground arith

  pub place-IsPlaced :
      (tensor : Text) (dtype : Dtype) (entry : TensorEntry) (e : Extent) (part : Part) (b : Build)
      {after : Build}
      → part_of tensor ≡ part
      → IsHeld weight_map dir names tensor entry dtype e
      → IsPlaced b
      → place config tensor dtype entry e part b ≡ ok after
      → IsPlaced after
  place-IsPlaced tensor dtype entry e mtp b parsed held v h =
      subst IsPlaced (ok_inj h) (record { experts = v.experts; tables = v.tables; cores = v.cores })
  place-IsPlaced tensor dtype entry e vision b parsed held v h =
      subst IsPlaced (ok_inj h) (record { experts = v.experts; tables = v.tables; cores = v.cores })
  place-IsPlaced tensor dtype entry e (expert found) b parsed held v h =
      place_expert-IsPlaced tensor dtype entry e found b parsed held v h
  place-IsPlaced tensor dtype entry e (table layer kind) b parsed held v h =
      let (free, h1) = fail_if_passed _ duplicate _ h in
      let rows = first_or_0 entry.shape in
      let here : IsTable layer kind e rows = record {
        tensor = tensor;
        entry = entry;
        dtype = dtype;
        parsed = parsed;
        counted = refl;
        held = held;
      } in
      let placed : IsPlaced (record b {
        engram = put b.engram layer kind (e, rows);
        sizes = record b.sizes { engram = add64 b.sizes.engram e.len };
      }) =
        record {
          experts = v.experts;
          tables = λ l k found n at.
              elim (put_lem b.engram layer kind (e, rows) l k (found, n) at) [
                | inl (same_l, same_k, same) ↦
                    moved (λ a c (d, m). IsTable a c d m) {a = (e, rows)} {b = (found, n)} same_l
                      same_k same here
                | inr before ↦ v.tables l k found n before
              ];
          cores = v.cores;
        } in
      subst IsPlaced (ok_inj h1) placed
  place-IsPlaced tensor dtype entry e core b parsed held v h =
      let (free, h1) = fail_if_passed _ duplicate _ h in
      let c : CoreTensor = record { dtype = dtype; shape = entry.shape; extent = e } in
      let here : IsCore tensor c = record {
        entry = entry;
        parsed = parsed;
        shapes = refl;
        held = held;
      } in
      let placed : IsPlaced (record b {
        core = (tensor, c) ∷ b.core;
        sizes = record b.sizes { core = add64 b.sizes.core e.len };
      }) =
        record { experts = v.experts; tables = v.tables; cores = (here, v.cores) } in
      subst IsPlaced (ok_inj h1) placed
