-- ===== src/Prompt/Window.antt =====
-- The messages that are sent, and what they are estimated to take of the context window.
use chatty.Common.{
  ℕ, zero, suc, ◌+◌, ◌-◌, ◌*◌, ◌/◌, ◌≤◌, ◌<◌, ◌≡◌, refl, ◌∙◌, min, true, false, List, [], ◌∷◌, ◌++◌,
  le→ltb, lt→ltb, ltb, take, drop, arith, max_of,
}
use mathlib.Core.List.{reverse, reverse_aux}
use mathlib.Core.Path.{subst}
use native.Mathlib.Decide.{dec_lt}
use chatty.Common.{codes, ap}
use chatty.Common.Fallible.{ok_inj}
use chatty.Prompt.Sent.{
  SystemText, Compacted, budget_system_prompt-SystemText, compact_turns-Compacted,
}
use chatty.Prompt.Text.{byte_len}
use chatty.Prompt.{
  Result, ok, err, Error, latest_messages_exceed_window, Config, Message, estimated_message_tokens,
  clip_to_token_budget, budget_system_prompt, requested_output, output_reserve, prompt_input_budget,
  compact_history_content, sum_tokens, last_turn, compact_turns, system_role, budget_chat_messages,
}
use chatty.Prompt.Clip.{byte_len-clip_to_token_budget, byte_len-budget_system_prompt}

sum_tokens-append : (a b : List Message) → sum_tokens (a ++ b) ≡ sum_tokens a + sum_tokens b
sum_tokens-append [] b = omega arith
sum_tokens-append (m ∷ a) b = omega (arith, sum_tokens-append a b)

sum_tokens-reverse_aux :
    (a b : List Message) → sum_tokens (reverse_aux a b) ≡ sum_tokens a + sum_tokens b
sum_tokens-reverse_aux [] b = omega arith
sum_tokens-reverse_aux (m ∷ a) b = omega (arith, sum_tokens-reverse_aux a (m ∷ b))

sum_tokens-reverse : (a : List Message) → sum_tokens (reverse a) ≡ sum_tokens a
sum_tokens-reverse a = sum_tokens-reverse_aux a [] ∙ omega arith

estimated_fits :
    (text : List ℕ) (tokens : ℕ)
    → 4 ≤ tokens
    → byte_len text ≤ (tokens - 4) * 3
    → estimated_message_tokens text ≤ tokens
estimated_fits text tokens le h = omega arith

last_turn-sum_tokens :
    (role text : List ℕ) (tokens : ℕ)
    → estimated_message_tokens text ≤ tokens
    → sum_tokens (last_turn role text) ≤ tokens
last_turn-sum_tokens role [] tokens h = omega arith
last_turn-sum_tokens role (c ∷ cs) tokens h = omega (arith, h)

sum_tokens-compact_turns :
    (remaining : ℕ) (ms : List Message) → sum_tokens (compact_turns remaining ms) ≤ remaining
unfolding compact_turns
sum_tokens-compact_turns remaining [] = omega arith
sum_tokens-compact_turns remaining (m ∷ ms) =
    let content : List ℕ = compact_history_content m.content in
    let clipped : List ℕ = clip_to_token_budget content remaining in
    ground (
      arith,
      sum_tokens-compact_turns (remaining - estimated_message_tokens content) ms,
      byte_len-clip_to_token_budget content remaining,
      last_turn-sum_tokens m.role clipped remaining,
      estimated_fits clipped remaining,
    )

take_recent : (h : List Message) → take 3 (take 23 h) ≡ take 3 h
take_recent [] = refl
take_recent (a ∷ []) = refl
take_recent (a ∷ b ∷ []) = refl
take_recent (a ∷ b ∷ c ∷ h) = refl

take_twice : (n : ℕ) (h : List Message) → take n (take n h) ≡ take n h
take_twice zero h = refl
take_twice (suc n) [] = refl
take_twice (suc n) (m ∷ h) = ap (λ t. m ∷ t) (take_twice n h)

take_earlier : (h : List Message) → take 20 (drop 3 (take 23 h)) ≡ take 20 (drop 3 h)
take_earlier [] = refl
take_earlier (a ∷ []) = refl
take_earlier (a ∷ b ∷ []) = refl
take_earlier (a ∷ b ∷ c ∷ h) = take_twice 20 h

module _ (system priority : List ℕ) (history : List Message) (input : ℕ) where
  -- The system text, and the earlier turns, of the messages that are sent.
  abbrev recent : List Message
  recent = take 3 (take 23 history)

  abbrev system_text : List ℕ
  system_text =
      budget_system_prompt system priority (max_of (min (input / 2) (input - sum_tokens recent)) 4)

  abbrev earlier : List Message
  earlier =
      compact_turns (input - estimated_message_tokens system_text - sum_tokens recent)
        (take 20 (drop 3 (take 23 history)))

  abbrev sent : List Message
  sent =
      (record { role = system_role; content = system_text }) ∷ (reverse earlier ++ reverse recent)

  pub budget_chat_messages-sent :
      sum_tokens recent + 4 ≤ input → budget_chat_messages system priority history input ≡ ok sent
  unfolding budget_chat_messages
  budget_chat_messages-sent le =
      let fits : ltb input (sum_tokens recent + 4) ≡ false =
        le→ltb input (sum_tokens recent + 4) le in
      rw fits refl

  sum_tokens-sent : sum_tokens recent + 4 ≤ input → sum_tokens sent ≤ input
  sum_tokens-sent le =
      let budget : ℕ = max_of (min (input / 2) (input - sum_tokens recent)) 4 in
      let within : (4 ≤ budget) × (budget ≤ input - sum_tokens recent) = ground arith in
      omega (
        arith,
        estimated_fits system_text budget within.0
            (byte_len-budget_system_prompt system priority budget),
        within,
        sum_tokens-append (reverse earlier) (reverse recent),
        sum_tokens-reverse earlier,
        sum_tokens-reverse recent,
        sum_tokens-compact_turns (input - estimated_message_tokens system_text - sum_tokens recent)
            (take 20 (drop 3 (take 23 history))),
      )

  pub budget_chat_messages_refused :
      input < sum_tokens recent + 4
      → budget_chat_messages system priority history input ≡ err latest_messages_exceed_window
  unfolding budget_chat_messages
  budget_chat_messages_refused lt =
      let over : ltb input (sum_tokens recent + 4) ≡ true =
        lt→ltb input (sum_tokens recent + 4) lt in
      rw over refl

-- What becomes of a chat, of which `history` has the turns, newest first.
pub data Budgeted (system priority : List ℕ) (history : List Message) (input : ℕ)
    : Result Error (List Message) → Type 0 where
  exceeded :
      input < sum_tokens (take 3 history) + 4
      → Budgeted system priority history input (err latest_messages_exceed_window)
  fitted :
      (text : List ℕ) (older : List Message)
      → sum_tokens (take 3 history) + 4 ≤ input
      → SystemText system priority
          ((max_of (min (input / 2) (input - sum_tokens (take 3 history))) 4 - 4) * 3)
          text
      → Compacted
          (input - estimated_message_tokens text - sum_tokens (take 3 history))
          (take 20 (drop 3 history))
          older
      → sum_tokens (
          (record { role = codes "system"; content = text })
          ∷ (reverse older ++ reverse (take 3 history)))
        ≤ input
      → Budgeted system priority history input (
          ok (
            (record { role = codes "system"; content = text })
            ∷ (reverse older ++ reverse (take 3 history))))

fitted_of :
    (system priority : List ℕ) (history : List Message) (input : ℕ) (latest turns : List Message)
    → latest ≡ take 3 history
    → turns ≡ take 20 (drop 3 history)
    → sum_tokens latest + 4 ≤ input
    → (let text =
          budget_system_prompt system priority
            (max_of (min (input / 2) (input - sum_tokens latest)) 4) in
        let older =
          compact_turns (input - estimated_message_tokens text - sum_tokens latest) turns in
        let sent : List Message =
          (record { role = codes "system"; content = text }) ∷ (reverse older ++ reverse latest) in
        sum_tokens sent ≤ input → Budgeted system priority history input (ok sent))
fitted_of system priority history input latest turns same_latest same_turns le within =
    rw (same_latest, same_turns)
      (fitted _ _ (rw (← same_latest) le) (budget_system_prompt-SystemText system priority _)
        (compact_turns-Compacted _ (take 20 (drop 3 history)))
        (rw (← same_latest, ← same_turns) within))

-- A chat is refused when its three latest turns and the overhead of the system message take more
-- tokens than there are. Otherwise the system message is sent, then up to twenty turns before the three
-- latest, in the order of time, then the three latest turns word for word, in the order of time; and all
-- of them are within the budget by the broker's estimate. The text of the system message is the two that
-- are given, where they are shorter than the bytes for half of the budget and for what the latest turns
-- leave; else beginnings of both, or nothing where there are no bytes. Each of the earlier turns keeps its role and has its words compacted behind a mark; they are
-- taken from the newest on while they fit, and of the first that does not fit at most a beginning is sent.
pub budget_chat_messages-Budgeted :
    (system priority : List ℕ) (history : List Message) (input : ℕ)
    → Budgeted system priority history input (budget_chat_messages system priority history input)
budget_chat_messages-Budgeted system priority history input =
    let three : take 3 (take 23 history) ≡ take 3 history = take_recent history in
    elim (dec_lt input (sum_tokens (recent system priority history input) + 4)) [
      | yes over ↦
          rw (budget_chat_messages_refused system priority history input over)
            (exceeded (subst (λ t. input < sum_tokens t + 4) three over))
      | no enough ↦
          let le : sum_tokens (recent system priority history input) + 4 ≤ input =
            omega (arith, enough) in
          rw (budget_chat_messages-sent system priority history input le) (
            fitted_of system priority history input (recent system priority history input)
              (take 20 (drop 3 (take 23 history))) three (take_earlier history) le
              (sum_tokens-sent system priority history input le))
    ]

Budgeted-sum_tokens :
    {system priority : List ℕ} {history : List Message} {input : ℕ}
    {r : Result Error (List Message)}
    → Budgeted system priority history input r
    → (messages : List Message) → r ≡ ok messages
    → sum_tokens messages ≤ input
Budgeted-sum_tokens (exceeded over) messages e = absurd (cc e)
Budgeted-sum_tokens {input = input} (fitted text older le system taken fits) messages e =
    let same = ok_inj e in subst (λ m. sum_tokens m ≤ input) same fits

output_reserve_small : (c : Config) → output_reserve c ≤ c.num_ctx
unfolding output_reserve
output_reserve_small c = ground arith

-- With the budget that the configuration gives, what is sent, by the broker's estimate of three bytes
-- a token and four tokens a message, and what is kept for the output are together at most `num_ctx`; the
-- output keeps what is asked for, up to half of it. How many tokens the model makes of the text is not
-- stated.
pub prompt_fits_context :
    (system priority : List ℕ) (history : List Message) (c : Config) {messages : List Message}
    → budget_chat_messages system priority history (prompt_input_budget c) ≡ ok messages
    → (sum_tokens messages + output_reserve c ≤ c.num_ctx)
      × (0 < requested_output c.num_predict
          → output_reserve c ≡ min (requested_output c.num_predict) (c.num_ctx / 2))
unfolding prompt_input_budget
prompt_fits_context system priority history c {messages} h = (
  omega (
    arith,
    Budgeted-sum_tokens
        (budget_chat_messages-Budgeted system priority history (c.num_ctx - output_reserve c))
        messages h,
    output_reserve_small c,
  ),
  λ p. unfold output_reserve in ground (arith, p),
)
