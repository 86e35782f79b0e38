-- ===== src/Client.antt =====
-- The broker's client of the appliance, crates/chatty-broker/src/adapters/metal.rs. The other end of a
-- connection is a function: what it has replied to the frames sent so far. Time is left out.
pub mod EndToEnd
pub mod Accepted
pub mod Stream
mod Sample
mod Runs
pub use chatty.Generation.{
  Piece, marker, plain, begin_of_sentence, user, assistant, end_of_sentence, thought_end, Generate,
  validate, Invalid, FinishReason, end_of_text, length_reached, was_cancelled, ErrorCode,
}
pub use chatty.Session.{
  Result, ok, err, ◌>>=◌, ◌>>◌, fail_if, or_fail, Wire, Frame, as_frame, MessageType, hello,
  hello_ack, status_request, status, generate, chunk, finished, cancel, failure, Hello, HelloAck,
  Chunk, Done, is_ready, protocol_version,
}
use chatty.Common.{
  ℕ, zero, suc, ◌+◌, ◌*◌, min, Bool, true, false, not, Option, none, some, List, [], ◌∷◌, ◌++◌,
  drop, ltb, ◌==◌, if◌then◌else◌, length, codes,
}
use chatty.Common.Texts.{same_text}

-- `negsuc n` is -(n + 1).
pub data ℤ : Type 0 where
  pos : ℕ → ℤ
  negsuc : ℕ → ℤ

pub record ChatMessage : Type 0 where
  pub role : List ℕ
  pub content : List ℕ

-- `nan_sampling`: the temperature or top_p is no number, which `clamp` keeps.
pub record GenerationOptions : Type 0 where
  pub nan_sampling : Bool
  pub max_tokens : Option ℤ
  pub seed : Option ℤ
  pub disable_reasoning : Bool

pub record ChatRequest : Type 0 where
  pub messages : List ChatMessage
  pub options : GenerationOptions

pub record Completion : Type 0 where
  pub content : List ℕ
  pub finish_reason : List ℕ
  pub prompt_tokens : ℕ
  pub completion_tokens : ℕ

pub data ClientError : Type 0 where
  connection_closed no_ack unsupported_protocol not_ready_yet other_request unexpected_frame
        bad_payload :
      ClientError
  bad_request : Invalid → ClientError
  refused : ErrorCode → ClientError

abbrev pub default_max_tokens : ℕ
default_max_tokens = 4096

-- The contents of the system messages, between blank lines.
abbrev pub join_with : List ℕ → List (List ℕ) → List ℕ
join_with separator [] = []
join_with separator (text ∷ []) = text
join_with separator (text ∷ next ∷ texts) =
    text ++ (separator ++ join_with separator (next ∷ texts))

abbrev pub is_role : List ℕ → ChatMessage → Bool
is_role role message = same_text message.role role

unfoldable pub system_texts : List ChatMessage → List (List ℕ)
system_texts [] = []
system_texts (message ∷ messages) =
    let rest = system_texts messages in
    if is_role (codes "system") message then message.content ∷ rest else rest

abbrev pub system_pieces : List ℕ → List Piece
system_pieces [] = []
system_pieces (c ∷ system) = plain ((c ∷ system) ++ codes "\n\n") ∷ []

abbrev pub turn : ChatMessage → List Piece
turn message =
    if is_role (codes "user") message
    then marker user ∷ plain message.content ∷ []
    else if is_role (codes "assistant") message
    then marker assistant ∷ plain message.content ∷ marker end_of_sentence ∷ []
    else []

unfoldable pub turns : List ChatMessage → List Piece
turns [] = []
turns (message ∷ messages) = turn message ++ turns messages

-- `prompt`
unfoldable pub prompt : List ChatMessage → GenerationOptions → List Piece
prompt messages options =
    marker begin_of_sentence
    ∷ (system_pieces (join_with (codes "\n\n") (system_texts messages))
        ++ (turns messages
            ++ (marker assistant
                ∷ (if options.disable_reasoning then marker thought_end ∷ [] else []))))

abbrev pub max_tokens_of : Option ℤ → ℕ
max_tokens_of none = default_max_tokens
max_tokens_of (some (pos n)) = if ltb 0 n then min n (32 * 1024) else default_max_tokens
max_tokens_of (some (negsuc n)) = default_max_tokens

abbrev pub seed_of : Option ℤ → ℕ
seed_of none = 0
seed_of (some (pos n)) = n
seed_of (some (negsuc n)) = 0

-- `generate_request`
unfoldable pub generate_request : ChatRequest → Generate
generate_request request = record {
  prompt = prompt request.messages request.options;
  valid_sampling = not request.options.nan_sampling;
  seed = seed_of request.options.seed;
  max_tokens = max_tokens_of request.options.max_tokens;
}

-- `finish_reason`
abbrev pub finish_reason_of : FinishReason → List ℕ
finish_reason_of end_of_text = codes "stop"
finish_reason_of length_reached = codes "length"
finish_reason_of was_cancelled = codes "cancelled"

abbrev pub client_hello : Hello
client_hello = record { version = protocol_version; client = codes "chatty-broker" }

abbrev pub Peer : Type 0
Peer = List Frame → List Frame

abbrev pub or_bad_request : Result Invalid (Unit {0}) → Result ClientError (Unit {0})
or_bad_request (ok valid) = ok tt
or_bad_request (err reason) = err (bad_request reason)

module _ (wire : Wire) where
  abbrev pub hello_frame : Frame
  hello_frame = as_frame hello 0 (wire.hellos.encode client_hello)

  abbrev pub read_ack : MessageType → Frame → Result ClientError HelloAck
  read_ack hello_ack frame = do
    ack ← or_fail (wire.acks.decode frame.payload) bad_payload
    fail_if (not (ack.version == protocol_version)) unsupported_protocol
    ok ack
  read_ack hello frame = err no_ack
  read_ack status_request frame = err no_ack
  read_ack status frame = err no_ack
  read_ack generate frame = err no_ack
  read_ack chunk frame = err no_ack
  read_ack finished frame = err no_ack
  read_ack cancel frame = err no_ack
  read_ack failure frame = err no_ack

  -- `connect`, on what the other end has replied.
  abbrev pub connect : List Frame → Result ClientError HelloAck
  connect [] = err connection_closed
  connect (frame ∷ frames) = read_ack frame.message_type frame

  abbrev pub completed : List ℕ → Done → Completion
  completed text d = record {
    content = text;
    finish_reason = finish_reason_of d.finish;
    prompt_tokens = d.prompt_tokens;
    completion_tokens = d.completion_tokens;
  }

  abbrev pub with_chunk : List ℕ → Chunk → List ℕ
  with_chunk text c = if not c.reasoning then text ++ c.text else text

  -- One frame of an answer, with what reads the others.
  abbrev pub receive_one :
      MessageType
      → Frame
      → List ℕ
      → (List ℕ → Result ClientError Completion)
      → Result ClientError Completion
  receive_one chunk frame text next = do
    c ← or_fail (wire.chunks.decode frame.payload) bad_payload
    next (with_chunk text c)
  receive_one finished frame text next = do
    d ← or_fail (wire.dones.decode frame.payload) bad_payload
    ok (completed text d)
  receive_one failure frame text next = do
    code ← or_fail (wire.errors.decode frame.payload) bad_payload
    err (refused code)
  receive_one hello frame text next = err unexpected_frame
  receive_one hello_ack frame text next = err unexpected_frame
  receive_one status_request frame text next = err unexpected_frame
  receive_one status frame text next = err unexpected_frame
  receive_one generate frame text next = err unexpected_frame
  receive_one cancel frame text next = err unexpected_frame

  -- The loop of `complete_inner`.
  unfoldable pub receive : List Frame → List ℕ → Result ClientError Completion
  receive [] text = err connection_closed
  receive (frame ∷ frames) text =
      if not (frame.request_id == 1)
      then err other_request
      else receive_one frame.message_type frame text (receive frames)

  -- `complete_inner`
  unfoldable pub complete : Peer → ChatRequest → Result ClientError Completion
  complete peer request = do
    ack ← connect (peer (hello_frame ∷ []))
    fail_if (not (is_ready ack.state)) not_ready_yet
    or_bad_request (validate (generate_request request))
    let asked = as_frame generate 1 (wire.generates.encode (generate_request request))
    receive (drop 1 (peer (hello_frame ∷ asked ∷ []))) []
