-- ===== src/Prompt/Sent.antt =====
-- What budget_system_prompt and the loop over the earlier turns send, of crates/chatty-broker/src/systems/
-- inference.rs: beginnings of what they are given.
use chatty.Common.{
  ℕ, zero, suc, ◌+◌, ◌-◌, ◌*◌, ◌/◌, ◌≤◌, ◌<◌, ◌≡◌, ◌⊎◌, ap, refl, sym, min, List, [], ◌∷◌, ◌++◌,
  append-nil, ltb, leb, ◌==◌, ltb→lt, ltb→le, take, codes, arith, inl, inr, Bool-cases,
}
use chatty.Prompt.Text.{byte_len, cut, clip, split_words, join_words}
use chatty.Prompt.{
  Message, estimated_message_tokens, message_overhead_tokens, clip_to_byte_budget,
  clip_to_token_budget, back_up, long_separator, separator_of, clipped_system, mul_usize,
  budget_system_prompt, compact_history_content, last_turn, compact_turns,
}

-- One text begins another.
abbrev pub Begins : List ℕ → List ℕ → Type 0
Begins kept text = (rest : List ℕ) × (text ≡ kept ++ rest)

Begins-cut : (text : List ℕ) (end : ℕ) → Begins (cut text end) text
unfolding cut
Begins-cut [] end = ([], refl)
Begins-cut (c ∷ cs) end = elim (Bool-cases (end == 0)) [
  | inl none ↦ rw none (c ∷ cs, refl)
  | inr some ↦ rw some (begun_longer c cs _ (Begins-cut cs _))
]
  where
    begun_longer : (c : ℕ) (cs kept : List ℕ) → Begins kept cs → Begins (c ∷ kept) (c ∷ cs)
    begun_longer c cs kept (rest, e) = (rest, ap (λ t. c ∷ t) e)

Begins-clip_to_byte_budget : (text : List ℕ) (n : ℕ) → Begins (clip_to_byte_budget text n) text
unfolding clip_to_byte_budget
Begins-clip_to_byte_budget text n = elim (Bool-cases (leb (byte_len text) n)) [
  | inl fits ↦ rw fits ([], sym (append-nil text))
  | inr large ↦ rw large (Begins-cut text (back_up text (min n (byte_len text))))
]

Begins-clip_to_token_budget : (text : List ℕ) (n : ℕ) → Begins (clip_to_token_budget text n) text
unfolding clip_to_token_budget
Begins-clip_to_token_budget text n = elim (Bool-cases ((n - message_overhead_tokens) * 3 == 0)) [
  | inl none ↦ rw none (text, refl)
  | inr some ↦ rw some (Begins-clip_to_byte_budget text ((n - message_overhead_tokens) * 3))
]

-- What stands in the system message, of at most so many bytes: nothing; the two texts, on lines of
-- their own; or, where they are too long together, the beginnings of both.
pub data SystemText (system priority : List ℕ) (bytes : ℕ) : List ℕ → Type 0 where
  nothing : bytes ≡ 0 → SystemText system priority bytes []
  entire :
      byte_len system + byte_len priority < bytes
      → SystemText system priority bytes (system ++ (10 ∷ priority))
  shortened :
      (first separator second : List ℕ)
      → bytes ≤ byte_len system + byte_len priority
      → Begins first system
      → Begins second priority
      → (separator ≡ 10 ∷ []) ⊎ (separator ≡ long_separator)
      → SystemText system priority bytes (first ++ (separator ++ second))

separator_of-cases :
    (system priority : List ℕ) (bytes : ℕ)
    → (separator_of system priority bytes ≡ 10 ∷ [])
      ⊎ (separator_of system priority bytes ≡ long_separator)
separator_of-cases system priority bytes = ground arith

clipped_system-SystemText :
    (system priority : List ℕ) (bytes : ℕ)
    → bytes ≤ byte_len system + byte_len priority
    → SystemText system priority bytes (clipped_system system priority bytes)
unfolding clipped_system
clipped_system-SystemText system priority bytes large =
    let second : List ℕ = clip_to_byte_budget priority (mul_usize bytes 2 / 3) in
    let separator : List ℕ = separator_of system second bytes in
    shortened _ separator second large (Begins-clip_to_byte_budget system _)
      (Begins-clip_to_byte_budget priority _) (separator_of-cases system second bytes)

pub budget_system_prompt-SystemText :
    (system priority : List ℕ) (tokens : ℕ)
    → SystemText system priority ((tokens - 4) * 3) (budget_system_prompt system priority tokens)
unfolding budget_system_prompt
budget_system_prompt-SystemText system priority tokens =
    let bytes : ℕ = (tokens - 4) * 3 in
    elim (Bool-cases (bytes == 0)) [
      | inl none ↦ rw none (nothing (ground (arith, none)))
      | inr some ↦ elim (Bool-cases (ltb (byte_len system + byte_len priority) bytes)) [
        | inl fits ↦
            rw (some, fits) (entire (ltb→lt (byte_len system + byte_len priority) bytes fits))
        | inr large ↦
            rw (some, large)
              (clipped_system-SystemText system priority bytes
                (ltb→le (byte_len system + byte_len priority) bytes large))
      ]
    ]

-- An earlier turn, compacted: behind a mark, the first 512 characters of its words with single spaces
-- between them.
abbrev pub compaction : List ℕ → List ℕ
compaction text = codes "[Earlier turn, compacted] " ++ take 512 (join_words (split_words text))

clip-take : (n : ℕ) (text : List ℕ) → clip n text ≡ take n text
unfolding clip
clip-take zero text = refl
clip-take (suc n) [] = refl
clip-take (suc n) (c ∷ cs) = ap (λ t. c ∷ t) (clip-take n cs)

compact_history_content-compaction :
    (text : List ℕ) → compact_history_content text ≡ compaction text
unfolding compact_history_content
compact_history_content-compaction text =
    ap (λ t. codes "[Earlier turn, compacted] " ++ t)
      (clip-take 512 (join_words (split_words text)))

-- What is sent of the earlier turns, the newest first, with so many tokens left: each compacted with the
-- role that it had, until one does not fit; of that one a beginning, or nothing.
pub data Compacted : ℕ → List Message → List Message → Type 0 where
  all_sent : {left : ℕ} → Compacted left [] []
  no_room :
      {left : ℕ} {turn : Message} {turns : List Message}
      → left < estimated_message_tokens (compaction turn.content)
      → Compacted left (turn ∷ turns) []
  whole :
      {left : ℕ} {turn : Message} {turns sent : List Message}
      → estimated_message_tokens (compaction turn.content) ≤ left
      → Compacted (left - estimated_message_tokens (compaction turn.content)) turns sent
      → Compacted left
          (turn ∷ turns)
          ((record { role = turn.role; content = compaction turn.content }) ∷ sent)
  cut_off :
      {left : ℕ} {turn : Message} {turns : List Message} (kept : List ℕ)
      → left < estimated_message_tokens (compaction turn.content)
      → Begins kept (compaction turn.content)
      → Compacted left (turn ∷ turns) ((record { role = turn.role; content = kept }) ∷ [])

overhead_under : (text : List ℕ) → 4 < estimated_message_tokens (compaction text)
unfolding byte_len
overhead_under text = omega arith

last_turn-Compacted :
    (left : ℕ) (turn : Message) (turns : List Message) (kept : List ℕ)
    → left < estimated_message_tokens (compaction turn.content)
    → Begins kept (compaction turn.content)
    → Compacted left (turn ∷ turns) (last_turn turn.role kept)
last_turn-Compacted left turn turns [] over b = no_room over
last_turn-Compacted left turn turns (c ∷ cs) over b = cut_off (c ∷ cs) over b

pub compact_turns-Compacted :
    (left : ℕ) (turns : List Message) → Compacted left turns (compact_turns left turns)
unfolding compact_turns
compact_turns-Compacted left [] = all_sent
compact_turns-Compacted left (turn ∷ turns) =
    let content : List ℕ = compaction turn.content in
    rw (compact_history_content-compaction turn.content) (elim (Bool-cases (leb left 4)) [
      | inl little ↦ rw little (no_room (ground (arith, little, overhead_under turn.content)))
      | inr more ↦ elim (Bool-cases (leb (estimated_message_tokens content) left)) [
        | inl fits ↦
            rw (more, fits)
              (whole (ground (arith, fits))
                (compact_turns-Compacted (left - estimated_message_tokens content) turns))
        | inr over ↦
            rw (more, over)
              (last_turn-Compacted left turn turns (clip_to_token_budget content left)
                (ground (arith, over)) (Begins-clip_to_token_budget content left))
      ]
    ])
