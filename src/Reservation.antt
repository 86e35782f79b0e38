-- ===== src/Reservation.antt =====
-- The reservations of model operations in crates/chatty-broker/src/adapters.rs: at most one operation
-- for a model, and few downloads. A locked section is one step; a hash map is the list of its entries.

pub mod Invariant
mod Runs
pub use chatty.Common.Fallible.{Result, ok, err, ◌>>=◌, ◌>>◌, fail_if}
pub use chatty.Common.Texts.{same_text}
use chatty.Common.{
  ℕ, zero, suc, ◌+◌, Bool, true, false, ◌&&◌, ◌||◌, not, Option, none, some, List, [], ◌∷◌, ◌++◌,
  map, ltb, leb, ◌==◌, if◌then◌else◌, length, get_elem?, codes,
}
use chatty.Common.Texts.{strip_prefix}

abbrev pub Text : Type 0
Text = List ℕ

pub record ModelOperationKey : Type 0 where
  pub plugin : Text
  pub url : Text
  pub name : Text

pub data ReserveError : Type 0 where
  invalid_name already_active too_many_downloads : ReserveError

-- What the standard library says of a name.
pub record NameTests : Type 0 where
  pub trim : Text → Text
  pub has_control : Text → Bool

-- The plugin and the server that the configuration selects.
pub record Selected : Type 0 where
  pub plugin : Text
  pub url : Text

abbrev pub max_parallel_downloads : ℕ
max_parallel_downloads = 4

abbrev pub Operations : Type 0
Operations = List (ModelOperationKey × Bool)

abbrev pub same_key : ModelOperationKey → ModelOperationKey → Bool
same_key a b = same_text a.plugin b.plugin && same_text a.url b.url && same_text a.name b.name

unfoldable pub contains_key : ModelOperationKey → Operations → Bool
contains_key key [] = false
contains_key key ((other, download) ∷ operations) =
    same_key key other || contains_key key operations

unfoldable pub downloads : Operations → ℕ
downloads [] = 0
downloads ((key, download) ∷ operations) =
    let rest = downloads operations in if download then rest + 1 else rest

unfoldable pub remove : ModelOperationKey → Operations → Operations
remove key [] = []
remove key ((other, download) ∷ operations) =
    let rest = remove key operations in
    if same_key key other then rest else (other, download) ∷ rest

abbrev pub or_text : Option Text → Text → Text
or_text none text = text
or_text (some rest) text = rest

unfoldable pub strip_suffix : Text → Text → Option Text
strip_suffix suffix [] = if same_text suffix [] then some [] else none
strip_suffix suffix (c ∷ text) =
    let rest = strip_suffix suffix text in
    if same_text suffix (c ∷ text) then some [] else kept c rest
  where
    kept : ℕ → Option Text → Option Text
    kept c none = none
    kept c (some front) = some (c ∷ front)

-- The spellings of one model of Ollama.
unfoldable pub short_name : Text → Text
short_name name =
    let here = or_text (strip_prefix (codes "registry.ollama.ai/") name) name in
    let owned = or_text (strip_prefix (codes "library/") here) here in
    or_text (strip_suffix (codes ":latest") owned) owned

unfoldable pub key_of : NameTests → Selected → Text → ModelOperationKey
key_of names selected model = record {
  plugin = selected.plugin;
  url = selected.url;
  name =
      if same_text selected.plugin (codes "ollama")
      then short_name (names.trim model)
      else names.trim model;
}

abbrev pub is_invalid : NameTests → Text → Bool
is_invalid names model =
    length (names.trim model) == 0 || ltb 256 (length model) || names.has_control model

-- `reserve_model_operation`: the operations with the new one, whose guard has the key.
unfoldable pub reserve_model_operation :
    NameTests → Selected → Text → Bool → Operations → Result ReserveError Operations
reserve_model_operation names selected model download operations = do
  fail_if (is_invalid names model) invalid_name
  let key = key_of names selected model
  fail_if (contains_key key operations) already_active
  fail_if (download && leb max_parallel_downloads (downloads operations)) too_many_downloads
  ok ((key, download) ∷ operations)

-- The operations, and the keys of the guards that are held.
pub record System : Type 0 where
  pub operations : Operations
  pub guards : List ModelOperationKey

pub data Action : Type 0 where
  reserve : Selected → Text → Bool → Action
  let_go : ℕ → Action

abbrev pub remove_at {ℓ} : {A : Type ℓ} → ℕ → List A → List A
remove_at i [] = []
remove_at zero (x ∷ xs) = xs
remove_at (suc i) (x ∷ xs) = x ∷ remove_at i xs

abbrev pub reserved : System → ModelOperationKey → Result ReserveError Operations → System
reserved s key (err reason) = s
reserved s key (ok operations) = record { operations = operations; guards = key ∷ s.guards }

-- `ModelOperationGuard::drop`
abbrev pub dropped : System → ℕ → Option ModelOperationKey → System
dropped s i none = s
dropped s i (some key) = record {
  operations = remove key s.operations;
  guards = remove_at i s.guards;
}

unfoldable pub step : NameTests → System → Action → System
step names s (reserve selected model download) =
    reserved s (key_of names selected model)
      (reserve_model_operation names selected model download s.operations)
step names s (let_go i) = dropped s i (get_elem? s.guards i)

abbrev pub idle : System
idle = record { operations = []; guards = [] }

unfoldable pub run : NameTests → System → List Action → System
run names s [] = s
run names s (action ∷ actions) = run names (step names s action) actions
