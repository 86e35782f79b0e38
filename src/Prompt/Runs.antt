-- ===== src/Prompt/Runs.antt =====
-- Small chats.
use chatty.Common.{ℕ, ◌+◌, ◌/◌, ◌≤◌, ◌<◌, ◌≡◌, refl, min, some, List, [], ◌∷◌, codes}
use chatty.Prompt.Text.{
  byte_len, is_char_boundary, cut, clip, words_after, join_words, split_words, is_whitespace,
}
use chatty.Prompt.{
  ok, err, Config, Message, back_up, clip_to_byte_budget, budget_system_prompt, requested_output,
  output_reserve, prompt_input_budget, compact_history_content, sum_tokens, compact_turns,
  system_role, budget_chat_messages, latest_messages_exceed_window,
}
use chatty.Prompt.Window.{Budgeted, budget_chat_messages-Budgeted, prompt_fits_context}

-- A letter of two bytes is not cut.
clip_test : clip_to_byte_budget (97 ∷ 233 ∷ 98 ∷ []) 2 ≡ 97 ∷ []
unfolding clip_to_byte_budget byte_len back_up is_char_boundary cut
clip_test = refl

words_test : join_words (split_words (codes " a \n bc ")) ≡ codes "a bc"
unfolding join_words words_after is_whitespace
words_test = refl

abbrev user : List ℕ → Message
user text = record { role = codes "user"; content = text }

abbrev chat : List Message
chat = user (codes "four") ∷ user (codes "three") ∷ user (codes "two") ∷ user (codes "o  ne") ∷ []

chat_test :
    budget_chat_messages (codes "s") (codes "m") chat 100
    ≡ ok (
        (record { role = system_role; content = codes "s\nm" })
        ∷ user (codes "[Earlier turn, compacted] o ne")
        ∷ user (codes "two")
        ∷ user (codes "three")
        ∷ user (codes "four")
        ∷ [])
unfolding budget_chat_messages budget_system_prompt compact_turns compact_history_content byte_len
    clip join_words words_after is_whitespace
chat_test = refl

refused_test :
    budget_chat_messages (codes "s") (codes "m") chat 20 ≡ err latest_messages_exceed_window
unfolding budget_chat_messages budget_system_prompt byte_len
refused_test = refl

abbrev config : Config
config = record { num_ctx = 128; num_predict = some 28 }

config_test : prompt_input_budget config ≡ 100
unfolding prompt_input_budget output_reserve
config_test = refl

budget_chat_messages-Budgeted_example :
    Budgeted
      (codes "s")
      (codes "m")
      chat
      100
      (budget_chat_messages (codes "s") (codes "m") chat 100)
budget_chat_messages-Budgeted_example =
    budget_chat_messages-Budgeted (codes "s") (codes "m") chat 100

abbrev answer : List Message
answer =
    (record { role = system_role; content = codes "s\nm" })
    ∷ user (codes "[Earlier turn, compacted] o ne")
    ∷ user (codes "two")
    ∷ user (codes "three")
    ∷ user (codes "four")
    ∷ []

answer_test :
    budget_chat_messages (codes "s") (codes "m") chat (prompt_input_budget config) ≡ ok answer
unfolding prompt_input_budget output_reserve budget_chat_messages budget_system_prompt compact_turns
    compact_history_content byte_len clip join_words words_after is_whitespace
answer_test = refl

prompt_fits_context_example :
    (sum_tokens answer + output_reserve config ≤ 128)
    × (0 < requested_output (some 28)
        → output_reserve config ≡ min (requested_output (some 28)) (128 / 2))
prompt_fits_context_example = prompt_fits_context (codes "s") (codes "m") chat config answer_test
