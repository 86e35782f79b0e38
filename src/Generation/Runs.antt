-- ===== src/Generation/Runs.antt =====
-- Tests, and the theorem at a request that is answered with two chunks.
use chatty.Common.{ℕ, ◌+◌, ◌≡◌, refl, true, false, some, [], ◌∷◌, length, ◌==◌, if◌then◌else◌}
use chatty.Generation.Answer.{IsServed, generate-IsServed}
use chatty.Generation.{
  Env, text_chunk, done, error, end_of_text, was_cancelled, length_reached, invalid_request,
  Tokenizer, Generate, marker, user, assistant, thought_end, end_of_sentence, marker_name, validate,
  text_bytes, prompt_ids, prefill, decode_loop, generate,
}
use chatty.Tokenizer.{special, token_bytes, spell, char_byte, lookup}
use chatty.Common.Texts.{same_text}

-- Tokens 0 to 4: h, the ends of a sentence and of thought, and the two roles.
abbrev tokenizer : Tokenizer
tokenizer = record {
  tokens =
      (104 ∷ [])
      ∷ marker_name end_of_sentence
      ∷ marker_name thought_end
      ∷ marker_name user
      ∷ marker_name assistant
      ∷ [];
  specials =
      (marker_name end_of_sentence, 1)
      ∷ (marker_name thought_end, 2)
      ∷ (marker_name user, 3)
      ∷ (marker_name assistant, 4)
      ∷ [];
  byte_ids = [];
  merges = [];
  char_bytes = (104, 104) ∷ [];
}

-- The model counts what it is fed; the token after five is the end.
abbrev env : Env ℕ ℕ
env = record {
  reset = λ m. 0;
  forward = λ m ids. (m + length ids, some (m + length ids));
  no_logits = 0;
  sample = λ l rng. (if l == 5 then 1 else 0, rng);
  valid_up_to = λ bytes. length bytes;
  cancelled = λ n. false;
  receives = λ n. true;
}

abbrev small_request : Generate
small_request = record {
  prompt = marker user ∷ marker assistant ∷ marker thought_end ∷ [];
  valid_sampling = true;
  seed = 7;
  max_tokens = 10;
}

answered :
    (generate env tokenizer [] 99 small_request).events
    ≡ text_chunk 0 (104 ∷ []) false ∷ text_chunk 1 (104 ∷ []) false ∷ done end_of_text 3 3 ∷ []
unfolding generate validate text_bytes prompt_ids special lookup same_text prefill decode_loop
    token_bytes spell char_byte
answered = refl

stopped :
    (generate env tokenizer [] 99 (record small_request { max_tokens = 1 })).events
    ≡ text_chunk 0 (104 ∷ []) false ∷ done length_reached 3 1 ∷ []
unfolding generate validate text_bytes prompt_ids special lookup same_text prefill decode_loop
    token_bytes spell char_byte
stopped = refl

thinks :
    (generate env tokenizer [] 99 (record small_request { prompt = marker user ∷ [] })).events
    ≡ text_chunk 0 [] true ∷ done end_of_text 1 5 ∷ []
unfolding generate validate text_bytes prompt_ids special lookup same_text prefill decode_loop
    token_bytes spell char_byte
thinks = refl

cancelled_early :
    (generate (record env { cancelled = λ n. true }) tokenizer [] 99 small_request).events
    ≡ done was_cancelled 3 0 ∷ []
unfolding generate validate text_bytes prompt_ids special lookup same_text prefill decode_loop
    token_bytes spell char_byte
cancelled_early = refl

refused :
    (generate env tokenizer [] 99 (record small_request { max_tokens = 0 })).events
    ≡ error invalid_request ∷ []
unfolding generate validate text_bytes
refused = refl

generate-IsServed_example : IsServed env 10 (generate env tokenizer [] 99 small_request)
generate-IsServed_example = generate-IsServed env tokenizer [] 99 small_request
