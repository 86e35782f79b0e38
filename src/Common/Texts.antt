-- ===== src/Common/Texts.antt =====
-- Texts as lists of numbers, and their equality.
use Prim.Native.Nat.{ℕ}
use mathlib.Core.Path.{◌≡◌, refl}
use mathlib.Core.List.{List, [], ◌∷◌}
use mathlib.Core.Bool.{Bool, true, false, ◌&&◌}
use mathlib.Core.Option.{Option, none, some}
use native.Mathlib.Omega.{arith}
use chatty.Common.Tests.{◌==◌, if◌then◌else◌}
use chatty.Common.Lists.{length}

unfoldable pub same_text : List ℕ → List ℕ → Bool
same_text [] [] = true
same_text [] (b ∷ bs) = false
same_text (a ∷ rest) [] = false
same_text (a ∷ rest) (b ∷ bs) = let tails = same_text rest bs in a == b && tails

pub same_text-length : (a b : List ℕ) → same_text a b ≡ true → length a ≡ length b
unfolding same_text
same_text-length [] [] h = refl
same_text-length [] (b ∷ bs) h = absurd (cc h)
same_text-length (a ∷ tail) [] h = absurd (cc h)
same_text-length (a ∷ tail) (b ∷ bs) h = ground (arith, same_text-length tail bs)

pub same_text_refl : (a : List ℕ) → same_text a a ≡ true
unfolding same_text
same_text_refl [] = refl
same_text_refl (a ∷ tail) = ground (arith, same_text_refl tail)

pub same_text-eq : (a b : List ℕ) → same_text a b ≡ true → a ≡ b
unfolding same_text
same_text-eq [] [] h = refl
same_text-eq [] (b ∷ bs) h = absurd (cc h)
same_text-eq (a ∷ tail) [] h = absurd (cc h)
same_text-eq (a ∷ tail) (b ∷ bs) h = ground (arith, same_text-eq tail bs)

-- `strip_prefix`
unfoldable pub strip_prefix : List ℕ → List ℕ → Option (List ℕ)
strip_prefix [] text = some text
strip_prefix (p ∷ prefix) [] = none
strip_prefix (p ∷ prefix) (c ∷ text) =
    let rest = strip_prefix prefix text in if p == c then rest else none
