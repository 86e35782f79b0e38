-- ===== src/Generation.antt =====
-- The worker of the appliance, `generate` of crates/chatty-metal/src/server.rs, and the request of
-- crates/chatty-metal-protocol/src/lib.rs. `fed` is what the model was given since it was reset.
pub mod Fed
pub mod Answer
mod Runs
pub use chatty.Common.Fallible.{Result, ok, err, ◌>>=◌, ◌>>◌, fail_if}
pub use chatty.Tokenizer.{Tokenizer, Pattern}
use chatty.Tokenizer
use chatty.Tokenizer.{encode, special, token_bytes}
use Prim.Native.Nat.{bit_or}
use chatty.Common.{
  ℕ, zero, suc, ◌+◌, ◌-◌, ◌*◌, ◌%◌, ◌^◌, min, Bool, true, false, ◌||◌, not, Option, none, some,
  List, [], ◌∷◌, ◌++◌,
}
use chatty.Common.{ltb, leb, ◌==◌, if◌then◌else◌, length, take, drop, codes}

pub data Marker : Type 0 where
  begin_of_sentence user assistant end_of_sentence thought_end : Marker

pub data Piece : Type 0 where
  marker : Marker → Piece
  plain : List ℕ → Piece

-- `valid_sampling` is what Sampling::validate says of the floats.
pub record Generate : Type 0 where
  pub prompt : List Piece
  pub valid_sampling : Bool
  pub seed : ℕ
  pub max_tokens : ℕ

pub data Invalid : Type 0 where
  empty_prompt many_pieces large_prompt bad_max_tokens bad_sampling : Invalid

abbrev pub max_prompt_bytes : ℕ
max_prompt_bytes = 4 * 1024 * 1024

abbrev pub max_prompt_pieces : ℕ
max_prompt_pieces = 1024

abbrev pub max_output_tokens : ℕ
max_output_tokens = 32 * 1024

abbrev pub context : ℕ
context = 65536

abbrev pub max_chunk : ℕ
max_chunk = 64

-- The sum of the lengths, saturating.
unfoldable pub text_bytes : ℕ → List Piece → ℕ
text_bytes bytes [] = bytes
text_bytes bytes (marker m ∷ pieces) = text_bytes bytes pieces
text_bytes bytes (plain text ∷ pieces) = text_bytes (min (bytes + length text) (2 ^ 64 - 1)) pieces

-- `Generate::validate`
unfoldable pub validate : Generate → Result Invalid (Unit {0})
validate r = do
  fail_if (length r.prompt == 0) empty_prompt
  fail_if (ltb max_prompt_pieces (length r.prompt)) many_pieces
  fail_if (ltb max_prompt_bytes (text_bytes 0 r.prompt)) large_prompt
  fail_if (r.max_tokens == 0 || ltb max_output_tokens r.max_tokens) bad_max_tokens
  fail_if (not r.valid_sampling) bad_sampling
  ok tt

abbrev pub marker_name : Marker → List ℕ
marker_name begin_of_sentence = codes "<｜begin▁of▁sentence｜>"
marker_name user = codes "<｜User｜>"
marker_name assistant = codes "<｜Assistant｜>"
marker_name end_of_sentence = codes "<｜end▁of▁sentence｜>"
marker_name thought_end = codes "</think>"

unfoldable pub prompt_ids : Tokenizer → List Pattern → List Piece → Result Tokenizer.Error (List ℕ)
prompt_ids t patterns [] = ok []
prompt_ids t patterns (plain text ∷ pieces) = do
  ids ← prompt_ids t patterns pieces
  ok (encode t patterns text ++ ids)
prompt_ids t patterns (marker m ∷ pieces) = do
  id ← special t (marker_name m)
  ids ← prompt_ids t patterns pieces
  ok (id ∷ ids)

pub data FinishReason : Type 0 where
  end_of_text length_reached was_cancelled : FinishReason

pub data ErrorCode : Type 0 where
  bad_protocol unsupported not_ready invalid_request context_exceeded internal cancelled : ErrorCode

pub data Event : Type 0 where
  text_chunk : ℕ → List ℕ → Bool → Event
  done : FinishReason → ℕ → ℕ → Event
  error : ErrorCode → Event

-- The model, the sampling, the connection and the checks of UTF-8, as the worker uses them: `forward`
-- gives the logits, `sample` the next token and the state of the random numbers, `valid_up_to` how many
-- bytes are UTF-8, `cancelled` what each look at the flag sees, `receives` which sends are taken.
pub record Env (M L : Type 0) : Type 0 where
  pub reset : M → M
  pub forward : M → List ℕ → M × Option L
  pub no_logits : L
  pub sample : L → ℕ → ℕ × ℕ
  pub valid_up_to : List ℕ → ℕ
  pub cancelled : ℕ → Bool
  pub receives : ℕ → Bool

pub record Run (M L : Type 0) : Type 0 where
  pub model : M
  pub fed : List ℕ
  pub logits : L
  pub rng : ℕ
  pub looks : ℕ
  pub in_thinking : Bool
  pub thinking_reported : Bool
  pub pending : List ℕ
  pub sequence : ℕ
  pub completion : ℕ
  pub events : List Event

pub data Ending : Type 0 where
  finished : FinishReason → Ending
  failed : Ending
  gone : Ending

abbrev pub some_id : Result Tokenizer.Error ℕ → Option ℕ
some_id (ok id) = some id
some_id (err reason) = none

abbrev pub is_same_id : Option ℕ → ℕ → Bool
is_same_id none next = false
is_same_id (some id) next = next == id

abbrev pub ends_thought : List Piece → Bool
ends_thought [] = false
ends_thought (plain text ∷ pieces) = ends_thought pieces
ends_thought (marker thought_end ∷ pieces) = true
ends_thought (marker m ∷ pieces) = ends_thought pieces

module _ {M L : Type 0} (env : Env M L) where
  abbrev pub after_forward : Run M L → List ℕ → M × Option L → Run M L × Bool
  after_forward r ids (model, none) = (record r { model = model; fed = r.fed ++ ids }, false)
  after_forward r ids (model, some logits) =
      (record r { model = model; fed = r.fed ++ ids; logits = logits }, true)

  -- `model.forward`, with whether it succeeds.
  abbrev pub feed : List ℕ → Run M L → Run M L × Bool
  feed ids r = after_forward r ids (env.forward r.model ids)

  -- A look at the flag.
  abbrev pub look : Run M L → Run M L
  look r = record r { looks = r.looks + 1 }

  abbrev pub is_cancelled : Run M L → Bool
  is_cancelled r = env.cancelled r.looks

  -- The chunks of the prompt.
  unfoldable pub prefill : ℕ → List ℕ → Run M L → Run M L × Option Ending
  prefill zero ids r = (r, none)
  prefill (suc fuel) [] r = (r, none)
  prefill (suc fuel) (id ∷ ids) r =
      let fed = feed (take max_chunk (id ∷ ids)) r in
      let later = prefill fuel (drop max_chunk (id ∷ ids)) (look fed.0) in
      if not fed.1
      then (fed.0, some failed)
      else if is_cancelled fed.0
      then (look fed.0, some (finished was_cancelled))
      else later

  -- A chunk is sent, and counted; false if the client is gone.
  abbrev pub send_chunk : List ℕ → Bool → Run M L → Run M L × Bool
  send_chunk text reasoning r =
      if env.receives (length r.events)
      then (
        record r {
          events = r.events ++ (text_chunk r.sequence text reasoning ∷ []);
          sequence = (r.sequence + 1) % 2 ^ 32;
        },
        true,
      )
      else (r, false)

  abbrev pub reported : Run M L × Bool → Run M L × Bool
  reported (r, alive) = (record r { thinking_reported = true }, alive)

  abbrev pub end_thinking : Option ℕ → ℕ → Run M L × Bool → Run M L × Bool
  end_thinking think_end next (r, alive) = (
    record r {
      in_thinking = if is_same_id think_end next then false else r.in_thinking;
      pending = [];
    },
    alive,
  )

  -- A token while the model thinks.
  abbrev pub think : Option ℕ → ℕ → Run M L → Run M L × Bool
  think think_end next r =
      end_thinking think_end next
        (if r.thinking_reported then (r, true) else reported (send_chunk [] true r))

  abbrev pub send_valid : ℕ → Run M L → Run M L × Bool
  send_valid valid r =
      if ltb 0 valid
      then send_chunk (take valid r.pending) false (record r { pending = drop valid r.pending })
      else (r, true)

  -- A token of the answer: the bytes that are UTF-8 so far are sent.
  abbrev pub speak : List ℕ → Run M L → Run M L × Bool
  speak bytes r =
      send_valid (env.valid_up_to (r.pending ++ bytes)) (record r { pending = r.pending ++ bytes })

  abbrev pub emit : Tokenizer → Option ℕ → ℕ → Run M L → Run M L × Bool
  emit t think_end next r =
      if r.in_thinking then think think_end next r else speak (token_bytes t next) r

  abbrev pub drawn : Run M L → ℕ × ℕ → Run M L
  drawn r (next, rng) = record r { rng = rng; completion = r.completion + 1 }

  -- The loop of tokens.
  unfoldable pub decode_loop : Tokenizer → ℕ → Option ℕ → ℕ → ℕ → Run M L → Run M L × Ending
  decode_loop t stop think_end max_tokens zero r = (r, finished length_reached)
  decode_loop t stop think_end max_tokens (suc fuel) r =
      let looked = look r in
      let next = (env.sample looked.logits looked.rng).0 in
      let counted = drawn looked (env.sample looked.logits looked.rng) in
      let emitted = emit t think_end next counted in
      let fed = feed (next ∷ []) emitted.0 in
      let later = decode_loop t stop think_end max_tokens fuel fed.0 in
      if is_cancelled r
      then (looked, finished was_cancelled)
      else if next == stop
      then (counted, finished end_of_text)
      else if not emitted.1
      then (emitted.0, gone)
      else if leb max_tokens emitted.0.completion
      then (emitted.0, finished length_reached)
      else if not fed.1
      then (fed.0, failed)
      else later

  abbrev pub close : ℕ → Run M L × Ending → Run M L
  close prompt_tokens (r, finished reason) = record r {
    events = r.events ++ (done reason prompt_tokens r.completion ∷ []);
  }
  close prompt_tokens (r, failed) = record r { events = r.events ++ (error internal ∷ []) }
  close prompt_tokens (r, gone) = r

  abbrev pub decode_from : Tokenizer → ℕ → List ℕ → Run M L → Result Tokenizer.Error ℕ → Run M L
  decode_from t max_tokens ids r (err reason) = close (length ids) (r, failed)
  decode_from t max_tokens ids r (ok stop) =
      close (length ids)
        (decode_loop t stop (some_id (special t (marker_name thought_end))) max_tokens max_tokens r)

  abbrev pub answer : Tokenizer → ℕ → List ℕ → Run M L × Option Ending → Run M L
  answer t max_tokens ids (r, some ending) = close (length ids) (r, ending)
  answer t max_tokens ids (r, none) =
      decode_from t max_tokens ids r (special t (marker_name end_of_sentence))

  abbrev pub refuse : M → ErrorCode → Run M L
  refuse model code = record {
    model = model;
    fed = [];
    logits = env.no_logits;
    rng = 0;
    looks = 0;
    in_thinking = false;
    thinking_reported = false;
    pending = [];
    sequence = 0;
    completion = 0;
    events = error code ∷ [];
  }

  abbrev pub begin : M → Generate → Run M L
  begin model request = record (refuse model internal) {
    model = env.reset model;
    rng = bit_or request.seed 1;
    in_thinking = not (ends_thought request.prompt);
    events = [];
  }

  abbrev pub generate_ids : Tokenizer → M → Generate → Result Tokenizer.Error (List ℕ) → Run M L
  generate_ids t model request (err reason) = refuse model invalid_request
  generate_ids t model request (ok ids) =
      if ltb context (length ids + request.max_tokens)
      then refuse model context_exceeded
      else answer t request.max_tokens ids (prefill (length ids) ids (begin model request))

  abbrev pub generate_valid :
      Tokenizer → List Pattern → M → Generate → Result Invalid (Unit {0}) → Run M L
  generate_valid t patterns model request (err reason) = refuse model invalid_request
  generate_valid t patterns model request (ok valid) =
      generate_ids t model request (prompt_ids t patterns request.prompt)

  -- `generate`; `Job` is the request, its replies are the events.
  unfoldable pub generate : Tokenizer → List Pattern → M → Generate → Run M L
  generate t patterns model request = generate_valid t patterns model request (validate request)
