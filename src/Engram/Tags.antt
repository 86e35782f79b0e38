-- ===== src/Engram/Tags.antt =====
-- The tags of the rows are apart, and none is the tag of an empty way.
use chatty.Common.{ℕ, ◌+◌, ◌*◌, ◌/◌, ◌%◌, ◌<◌, ◌≡◌, ◌≢◌, arith}
use Prim.Native.Nat.{bit_or, bit_or-bitwise}
use chatty.Engram.{make_engram_tag}

or_zero : (a : ℕ) → bit_or 0 a ≡ a
or_zero a = λ i. bit_or-bitwise 0 a i

make_engram_tag-eq :
    (t r : ℕ)
    → t < 65535
    → r < 281474976710656
    → make_engram_tag t r ≡ 1 + (t * 281474976710656 + r)
unfolding make_engram_tag
make_engram_tag-eq t r lt small =
    let high : r / 281474976710656 ≡ 0 = omega arith in
    let whole : t % 65536 ≡ t = omega arith in rw (high, whole, or_zero t) (omega arith)

pub make_engram_tag_inj :
    (t r u q : ℕ)
    → t < 65535
    → r < 281474976710656
    → u < 65535
    → q < 281474976710656
    → make_engram_tag t r ≡ make_engram_tag u q
    → (t ≡ u) × (r ≡ q)
make_engram_tag_inj t r u q lt small lu smaller e =
    let et = make_engram_tag-eq t r lt small in
    let eu = make_engram_tag-eq u q lu smaller in
    (omega (arith, et, eu, e), omega (arith, et, eu, e))

pub make_engram_tag_ne : (t r : ℕ) → t < 65535 → r < 281474976710656 → make_engram_tag t r ≢ 0
make_engram_tag_ne t r lt small e = omega (arith, make_engram_tag-eq t r lt small, e)
