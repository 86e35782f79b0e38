-- ===== src/Prompt.antt =====
-- crates/chatty-broker/src/systems/inference.rs: fitting a chat into the context window of the model.
-- A text is the list of its code points; lengths are those of its UTF-8 bytes.
pub mod Text
pub mod Clip
pub mod Sent
pub mod Window
mod Runs
pub use chatty.Common.Fallible.{Result, ok, err, ◌>>=◌, ◌>>◌, fail_if}
use chatty.Common.{
  zero, suc, ℕ, ◌+◌, ◌-◌, ◌*◌, ◌/◌, min, Bool, true, false, Option, none, some, List, [], ◌∷◌, ◌++◌,
}
use chatty.Common.{ltb, leb, ◌==◌, if◌then◌else◌, max_of, length, take, drop, codes, ◌&&◌}
use mathlib.Core.List.{reverse}
use chatty.Prompt.Text.{byte_len, is_char_boundary, cut, clip, split_words, join_words, is_empty}

abbrev pub message_overhead_tokens : ℕ
message_overhead_tokens = 4

abbrev pub verbatim_history_messages : ℕ
verbatim_history_messages = 3

abbrev pub compacted_history_messages : ℕ
compacted_history_messages = 20

abbrev pub compacted_message_chars : ℕ
compacted_message_chars = 512

-- `max`
-- `saturating_mul` on `usize`
abbrev pub mul_usize : ℕ → ℕ → ℕ
mul_usize a b = min (a * b) 18446744073709551615

abbrev pub estimated_message_tokens : List ℕ → ℕ
estimated_message_tokens content = (byte_len content + 2) / 3 + message_overhead_tokens

-- `while end > 0 && !content.is_char_boundary(end) { end -= 1 }`
unfoldable pub back_up : List ℕ → ℕ → ℕ
back_up content zero = 0
back_up content (suc n) =
    let lower = back_up content n in if is_char_boundary content (suc n) then suc n else lower

unfoldable pub clip_to_byte_budget : List ℕ → ℕ → List ℕ
clip_to_byte_budget content max_bytes =
    if leb (byte_len content) max_bytes
    then content
    else cut content (back_up content (min max_bytes (byte_len content)))

unfoldable pub clip_to_token_budget : List ℕ → ℕ → List ℕ
clip_to_token_budget content tokens =
    let max_bytes = (tokens - message_overhead_tokens) * 3 in
    if max_bytes == 0 then [] else clip_to_byte_budget content max_bytes

unfoldable pub long_separator : List ℕ
long_separator = codes "\n[Additional character context clipped to fit the model window]\n"

abbrev pub newline : List ℕ
newline = 10 ∷ []

abbrev pub separator_of : List ℕ → List ℕ → ℕ → List ℕ
separator_of system priority max_bytes =
    if ltb (max_bytes - (byte_len priority + 1)) (byte_len system)
      && leb (byte_len priority + byte_len long_separator) max_bytes
    then long_separator
    else newline

-- The second half of `budget_system_prompt`, where something is clipped.
unfoldable pub clipped_system : List ℕ → List ℕ → ℕ → List ℕ
clipped_system system priority_context max_bytes =
    let priority = clip_to_byte_budget priority_context (mul_usize max_bytes 2 / 3) in
    let separator = separator_of system priority max_bytes in
    let system_cap = max_bytes - (byte_len priority + byte_len separator) in
    clip_to_byte_budget system system_cap ++ (separator ++ priority)

unfoldable pub budget_system_prompt : List ℕ → List ℕ → ℕ → List ℕ
budget_system_prompt system priority_context tokens =
    let max_bytes = (tokens - message_overhead_tokens) * 3 in
    if max_bytes == 0
    then []
    else if ltb (byte_len system + byte_len priority_context) max_bytes
    then system ++ (newline ++ priority_context)
    else clipped_system system priority_context max_bytes

-- The two fields of `BrokerConfig` that are read; `num_predict` is `none` where it is negative.
pub record Config : Type 0 where
  pub num_ctx : ℕ
  pub num_predict : Option ℕ

abbrev pub requested_output : Option ℕ → ℕ
requested_output none = 0
requested_output (some n) = n

unfoldable pub output_reserve : Config → ℕ
output_reserve c =
    if ltb 0 (requested_output c.num_predict)
    then min (requested_output c.num_predict) (c.num_ctx / 2)
    else min (max_of (c.num_ctx / 4) 32) (c.num_ctx / 2)

unfoldable pub prompt_input_budget : Config → ℕ
prompt_input_budget c = c.num_ctx - output_reserve c

unfoldable pub compact_history_content : List ℕ → List ℕ
compact_history_content content =
    codes "[Earlier turn, compacted] "
    ++ clip compacted_message_chars (join_words (split_words content))

pub record Message : Type 0 where
  pub role : List ℕ
  pub content : List ℕ

abbrev pub sum_tokens : List Message → ℕ
sum_tokens [] = 0
sum_tokens (m ∷ ms) = estimated_message_tokens m.content + sum_tokens ms

-- The last turn that is taken: clipped to what remains, and left out where nothing is left of it.
abbrev pub last_turn : List ℕ → List ℕ → List Message
last_turn role clipped =
    if is_empty clipped then [] else (record { role = role; content = clipped }) ∷ []

-- The loop over the earlier turns, newest first.
unfoldable pub compact_turns : ℕ → List Message → List Message
compact_turns remaining [] = []
compact_turns remaining (m ∷ ms) =
    let content = compact_history_content m.content in
    let rest = compact_turns (remaining - estimated_message_tokens content) ms in
    if leb remaining message_overhead_tokens
    then []
    else if leb (estimated_message_tokens content) remaining
    then (record { role = m.role; content = content }) ∷ rest
    else last_turn m.role (clip_to_token_budget content remaining)

pub data Error : Type 0 where
  latest_messages_exceed_window : Error

abbrev pub system_role : List ℕ
system_role = codes "system"

unfoldable pub budget_chat_messages :
    List ℕ → List ℕ → List Message → ℕ → Result Error (List Message)
budget_chat_messages system priority_context all_history input_budget =
    let history = take (verbatim_history_messages + compacted_history_messages) all_history in
    let recent = take verbatim_history_messages history in
    let recent_tokens = sum_tokens recent in
    let system_budget =
      max_of (min (input_budget / 2) (input_budget - recent_tokens)) message_overhead_tokens in
    let system_text = budget_system_prompt system priority_context system_budget in
    let remaining = input_budget - estimated_message_tokens system_text - recent_tokens in
    let compacted =
      compact_turns remaining
        (take compacted_history_messages (drop verbatim_history_messages history)) in
    do
      fail_if (ltb input_budget (recent_tokens + message_overhead_tokens))
          latest_messages_exceed_window
      ok (
          (record { role = system_role; content = system_text })
          ∷ (reverse compacted ++ reverse recent))
