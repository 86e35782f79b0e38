-- ===== src/Client/Runs.antt =====
-- Tests, and the theorems at a asked that a ready appliance answers.
use chatty.Common.{ℕ, ◌≡◌, refl, true, false, none, some, List, [], ◌∷◌, length, codes, suc, arith}
use chatty.Generation.{validate, end_of_text}
use chatty.Common.Texts.{same_text}
use chatty.Session.Sample.{wire}
use chatty.Session.{Status, ready, Worker, text_chunk, done}
use chatty.Client.Sample.{wire-IsWire}
use chatty.Client.EndToEnd.{appliance, promised, complete-appliance}
use chatty.Client.Accepted.{content_bytes, validate-generate_request}
use chatty.Client.Stream.{stream, read_all, read_all-stream}
use chatty.Client.{
  ok, ◌>>=◌, marker, plain, begin_of_sentence, user, assistant, end_of_sentence, thought_end,
  ChatMessage, ChatRequest, pos, negsuc, prompt, system_texts, turns, generate_request, complete,
  max_tokens_of,
}

abbrev board : Status
board = record { state = ready; detail = []; model = codes "m"; context_tokens = 65536 }

abbrev answers : Worker
answers asked = some (
    text_chunk 0 (codes "hm") true
    ∷ text_chunk 1 (codes "Hi") false
    ∷ text_chunk 2 (codes "!") false
    ∷ done end_of_text 3 2
    ∷ [])

abbrev message : List ℕ → List ℕ → ChatMessage
message role content = record { role = role; content = content }

abbrev asked : ChatRequest
asked = record {
  messages =
      message (codes "system") (codes "Be kind.")
      ∷ message (codes "user") (codes "a")
      ∷ message (codes "assistant") (codes "b")
      ∷ message (codes "tool") (codes "t")
      ∷ message (codes "system") (codes "Stay.")
      ∷ message (codes "user") (codes "c")
      ∷ [];
  options = record {
    nan_sampling = false;
    max_tokens = some (negsuc 4);
    seed = none;
    disable_reasoning = true;
  };
}

prompt_test :
    prompt asked.messages asked.options
    ≡ marker begin_of_sentence
      ∷ plain (codes "Be kind.\n\nStay.\n\n")
      ∷ marker user
      ∷ plain (codes "a")
      ∷ marker assistant
      ∷ plain (codes "b")
      ∷ marker end_of_sentence
      ∷ marker user
      ∷ plain (codes "c")
      ∷ marker assistant
      ∷ marker thought_end
      ∷ []
unfolding prompt system_texts turns same_text
prompt_test = refl

max_tokens_test : (max_tokens_of (some (pos 70000)) ≡ 32768) × (max_tokens_of (some (pos 0)) ≡ 4096)
max_tokens_test = (refl, refl)

complete-appliance_example :
    complete wire (appliance wire answers board) asked ≡ promised answers board asked
complete-appliance_example = complete-appliance wire wire-IsWire answers board asked

validate-generate_request_example : validate (generate_request asked) ≡ ok tt
unfolding content_bytes
validate-generate_request_example = validate-generate_request asked (omega arith) (omega arith) refl

read_all-stream_example :
    (stream wire (appliance wire answers board) asked
      >>= (λ s. read_all wire (suc (length s.frames)) s []))
    ≡ complete wire (appliance wire answers board) asked
read_all-stream_example = read_all-stream wire (appliance wire answers board) asked
