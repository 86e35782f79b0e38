-- ===== src/Prompt/Clip.antt =====
-- Clipped texts are prefixes that fit, and the priority context keeps its share.
use chatty.Common.{
  ℕ, zero, suc, ◌+◌, ◌-◌, ◌*◌, ◌/◌, ◌≤◌, ◌<◌, ◌≡◌, refl, sym, min, true, false, List, [], ◌∷◌, ◌++◌,
  inl, inr, ltb, ◌==◌, arith, Bool-cases, append_assoc,
}
use chatty.Prompt.Text.{width, byte_len, is_char_boundary, cut}
use chatty.Prompt.{
  mul_usize, back_up, clip_to_byte_budget, clip_to_token_budget, newline, separator_of,
  clipped_system, budget_system_prompt,
}

pub byte_len-append : (a b : List ℕ) → byte_len (a ++ b) ≡ byte_len a + byte_len b
unfolding byte_len
byte_len-append [] b = omega arith
byte_len-append (c ∷ a) b = omega (arith, byte_len-append a b)

start_is_boundary : (cs : List ℕ) → is_char_boundary cs 0 ≡ true
unfolding is_char_boundary
start_is_boundary [] = refl
start_is_boundary (c ∷ cs) = refl

byte_len-cut :
    (cs : List ℕ) (end : ℕ) → is_char_boundary cs end ≡ true → byte_len (cut cs end) ≡ end
unfolding is_char_boundary cut byte_len
byte_len-cut [] end h = ground arith
byte_len-cut (c ∷ cs) end h = ground (arith, byte_len-cut cs (end - width c))

back_up_lem :
    (cs : List ℕ) (n : ℕ) → (back_up cs n ≤ n) × (is_char_boundary cs (back_up cs n) ≡ true)
unfolding back_up
back_up_lem cs zero = (omega arith, start_is_boundary cs)
back_up_lem cs (suc n) = ground (arith, back_up_lem cs n)

pub byte_len-clip_to_byte_budget : (cs : List ℕ) (m : ℕ) → byte_len (clip_to_byte_budget cs m) ≤ m
unfolding clip_to_byte_budget
byte_len-clip_to_byte_budget cs m =
    let n : ℕ = min m (byte_len cs) in
    ground (arith, back_up_lem cs n, byte_len-cut cs (back_up cs n))

pub clip_to_byte_budget_all :
    (cs : List ℕ) (m : ℕ) → byte_len cs ≤ m → clip_to_byte_budget cs m ≡ cs
unfolding clip_to_byte_budget
clip_to_byte_budget_all cs m le = ground arith

pub byte_len-clip_to_token_budget :
    (cs : List ℕ) (tokens : ℕ) → byte_len (clip_to_token_budget cs tokens) ≤ (tokens - 4) * 3
unfolding clip_to_token_budget byte_len
byte_len-clip_to_token_budget cs tokens =
    ground (arith, byte_len-clip_to_byte_budget cs ((tokens - 4) * 3))

byte_len-newline : byte_len newline ≡ 1
unfolding byte_len
byte_len-newline = refl

byte_len-separator_of :
    (s p : List ℕ) (m : ℕ) → byte_len p < m → byte_len p + byte_len (separator_of s p m) ≤ m
byte_len-separator_of s p m lt = ground (arith, byte_len-newline)

byte_len-clipped_system :
    (s p : List ℕ) (k : ℕ) → 0 < k → byte_len (clipped_system s p (k * 3)) ≤ k * 3
unfolding clipped_system
byte_len-clipped_system s p k pos =
    let q : List ℕ = clip_to_byte_budget p (mul_usize (k * 3) 2 / 3) in
    let sep : List ℕ = separator_of s q (k * 3) in
    let t : List ℕ = clip_to_byte_budget s (k * 3 - (byte_len q + byte_len sep)) in
    omega (
      arith,
      byte_len-append t (sep ++ q),
      byte_len-append sep q,
      byte_len-clip_to_byte_budget p (mul_usize (k * 3) 2 / 3),
      byte_len-clip_to_byte_budget s (k * 3 - (byte_len q + byte_len sep)),
      byte_len-separator_of s q (k * 3),
    )

pub byte_len-budget_system_prompt :
    (s p : List ℕ) (tokens : ℕ) → byte_len (budget_system_prompt s p tokens) ≤ (tokens - 4) * 3
unfolding budget_system_prompt
byte_len-budget_system_prompt s p tokens = elim (Bool-cases ((tokens - 4) * 3 == 0)) [
  | inl z ↦ rw z (unfold byte_len in omega arith)
  | inr nz ↦ rw nz (elim (Bool-cases (ltb (byte_len s + byte_len p) ((tokens - 4) * 3))) [
    | inl fits ↦ rw fits (
        ground (
          arith,
          fits,
          byte_len-append s (newline ++ p),
          byte_len-append newline p,
          byte_len-newline,
        ))
    | inr long ↦ rw long (byte_len-clipped_system s p (tokens - 4) (ground (arith, nz)))
  ])
]

clipped_system_keeps :
    (s p : List ℕ) (k : ℕ)
    → byte_len p ≤ k * 2
    → k * 6 < 18446744073709551616
    → (before : List ℕ) × (clipped_system s p (k * 3) ≡ before ++ p)
unfolding clipped_system
clipped_system_keeps s p k le small =
    let whole : clip_to_byte_budget p (mul_usize (k * 3) 2 / 3) ≡ p =
      clip_to_byte_budget_all p (mul_usize (k * 3) 2 / 3) (omega arith) in
    let sep : List ℕ = separator_of s p (k * 3) in
    let t : List ℕ = clip_to_byte_budget s (k * 3 - (byte_len p + byte_len sep)) in
    (t ++ sep, rw whole (sym (append_assoc t sep p)))

-- A system message keeps all of the long-term memory that takes at most two thirds of its bytes, as
-- its end, however long the rest is.
budget_system_prompt_keeps :
    (s p : List ℕ) (tokens : ℕ)
    → 4 < tokens
    → byte_len p ≤ (tokens - 4) * 2
    → (tokens - 4) * 6 < 18446744073709551616
    → (before : List ℕ) × (budget_system_prompt s p tokens ≡ before ++ p)
unfolding budget_system_prompt
budget_system_prompt_keeps s p tokens lt le small =
    let some_room : ((tokens - 4) * 3 == 0) ≡ false = ground arith in
    rw some_room (elim (Bool-cases (ltb (byte_len s + byte_len p) ((tokens - 4) * 3))) [
      | inl fits ↦ (s ++ newline, rw fits (sym (append_assoc s newline p)))
      | inr long ↦
          let (before, e) = clipped_system_keeps s p (tokens - 4) (omega arith) (omega arith) in
          (before, rw long e)
    ])
