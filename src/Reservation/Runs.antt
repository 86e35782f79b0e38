-- ===== src/Reservation/Runs.antt =====
-- Tests, and the theorems at a download and its other spelling.
use chatty.Common.{◌≡◌, refl, Bool, true, false, ◌==◌, if◌then◌else◌, List, [], ◌∷◌, codes}
use chatty.Common.Texts.{strip_prefix, same_text}
use chatty.Reservation.Invariant.{IsReserved, run-idle-IsReserved, guard_excludes}
use chatty.Reservation.{
  ok, err, NameTests, Selected, Text, already_active, too_many_downloads, contains_key, downloads,
  remove, strip_suffix, short_name, key_of, reserve_model_operation, Action, reserve, let_go, step,
  idle, run,
}

-- Spaces are dropped at the front, and 7 is a control character.
abbrev names : NameTests
names = record { trim = trim; has_control = has_bell }
  where
    trim : Text → Text
    trim [] = []
    trim (c ∷ text) = let rest = trim text in if c == 32 then rest else c ∷ text

    has_bell : Text → Bool
    has_bell [] = false
    has_bell (c ∷ text) = let rest = has_bell text in if c == 7 then true else rest

abbrev ollama : Selected
ollama = record { plugin = codes "ollama"; url = codes "u" }

abbrev other : Selected
other = record { plugin = codes "metal"; url = codes "u" }

abbrev five : List Action
five =
    reserve ollama (codes "library/a:latest") true
    ∷ reserve ollama (codes "b") true
    ∷ reserve ollama (codes "a") false
    ∷ reserve other (codes "a") true
    ∷ reserve ollama (codes "c") true
    ∷ reserve ollama (codes "d") true
    ∷ reserve ollama (codes "d") false
    ∷ []

spellings : short_name (codes "registry.ollama.ai/library/a:latest") ≡ codes "a"
unfolding short_name strip_prefix strip_suffix same_text
spellings = refl

held_keys :
    (run names idle five).guards
    ≡ key_of names ollama (codes "d")
      ∷ key_of names ollama (codes "c")
      ∷ key_of names other (codes "a")
      ∷ key_of names ollama (codes "b")
      ∷ key_of names ollama (codes "a")
      ∷ []
unfolding run step reserve_model_operation contains_key downloads key_of short_name strip_prefix
    strip_suffix same_text
held_keys = refl

fifth_download :
    reserve_model_operation names ollama (codes "e") true (run names idle five).operations
    ≡ err too_many_downloads
unfolding run step reserve_model_operation contains_key downloads key_of short_name strip_prefix
    strip_suffix same_text
fifth_download = refl

run-idle-IsReserved_example : IsReserved (run names idle five)
run-idle-IsReserved_example = run-idle-IsReserved names five

guard_excludes_example :
    (reserve_model_operation names ollama (codes " a:latest") true (run names idle five).operations
      ≡ err already_active)
    × (reserve_model_operation names ollama
          (codes " a:latest")
          false
          (step names (run names idle five) (let_go 4)).operations
        ≡ ok (
            (key_of names ollama (codes " a:latest"), false)
            ∷ remove (key_of names ollama (codes " a:latest")) (run names idle five).operations))
unfolding run step reserve_model_operation contains_key downloads key_of short_name strip_prefix
    strip_suffix same_text
guard_excludes_example = guard_excludes names five ollama (codes " a:latest") true 4 refl refl
