-- ===== src/Session.antt =====
-- The messages of crates/chatty-metal-protocol/src/lib.rs, and the session of one connection in
-- crates/chatty-metal/src/server.rs. A connection is the list of the frames that come, each with what
-- the status board says when it is handled; it ends where no further frame can be read.
pub mod Safety
pub mod Sample
mod Runs
pub use chatty.Common.Fallible.{Result, ok, err, ◌>>=◌, ◌>>◌, fail_if, or_fail}
pub use chatty.Generation.{
  Generate, validate, Invalid, Event, text_chunk, done, error, FinishReason, ErrorCode,
  bad_protocol, not_ready, invalid_request, internal,
}
use chatty.Generation.{max_output_tokens}
use chatty.Common.{
  ℕ, ◌+◌, ◌*◌, Bool, true, false, not, Option, none, some, List, [], ◌∷◌, ◌==◌, ltb, if◌then◌else◌,
  length,
}

pub data MessageType : Type 0 where
  hello hello_ack status_request status generate chunk finished cancel failure : MessageType

pub data ServerState : Type 0 where
  loading ready failed : ServerState

pub record Hello : Type 0 where
  pub version : ℕ
  pub client : List ℕ

pub record HelloAck : Type 0 where
  pub version : ℕ
  pub model : List ℕ
  pub context_tokens : ℕ
  pub max_output : ℕ
  pub state : ServerState
  pub detail : List ℕ

-- `Status`, but for its counters.
pub record Status : Type 0 where
  pub state : ServerState
  pub detail : List ℕ
  pub model : List ℕ
  pub context_tokens : ℕ

pub record Chunk : Type 0 where
  pub sequence : ℕ
  pub text : List ℕ
  pub reasoning : Bool

pub record Done : Type 0 where
  pub finish : FinishReason
  pub prompt_tokens : ℕ
  pub completion_tokens : ℕ

pub record Frame : Type 0 where
  pub message_type : MessageType
  pub request_id : ℕ
  pub payload : List ℕ

abbrev pub protocol_version : ℕ
protocol_version = 1

abbrev pub max_client_bytes : ℕ
max_client_bytes = 64

pub data HelloError : Type 0 where
  unsupported_version long_name : HelloError

-- `Hello::validate`
unfoldable pub validate_hello : Hello → Result HelloError (Unit {0})
validate_hello h = do
  fail_if (not (h.version == protocol_version)) unsupported_version
  fail_if (ltb max_client_bytes (length h.client)) long_name
  ok tt

-- `encode` and `decode` of one type of message, by bincode; a payload that does not decode, or leaves
-- bytes over, is none.
pub record Bincode {ℓ} (A : Type ℓ) : Type ℓ where
  pub encode : A → List ℕ
  pub decode : List ℕ → Option A

pub record Wire : Type 0 where
  pub hellos : Bincode Hello
  pub acks : Bincode HelloAck
  pub statuses : Bincode Status
  pub generates : Bincode Generate
  pub chunks : Bincode Chunk
  pub dones : Bincode Done
  pub errors : Bincode ErrorCode

-- Whether the state is Ready.
abbrev pub is_ready : ServerState → Bool
is_ready loading = false
is_ready ready = true
is_ready failed = false

-- `StatusBoard::hello_ack`
abbrev pub ack_of : Status → HelloAck
ack_of board = record {
  version = protocol_version;
  model = board.model;
  context_tokens = board.context_tokens;
  max_output = max_output_tokens;
  state = board.state;
  detail = board.detail;
}

abbrev pub as_frame : MessageType → ℕ → List ℕ → Frame
as_frame message_type request_id payload = record {
  message_type = message_type;
  request_id = request_id;
  payload = payload;
}

-- What a session has sent, and the jobs it has handed to the worker.
pub record Served : Type 0 where
  pub replies : List Frame
  pub jobs : List Generate

abbrev pub Incoming : Type 0
Incoming = Frame × Status

-- The worker: the events of a job, or none when it takes no more jobs.
abbrev pub Worker : Type 0
Worker = Generate → Option (List Event)

module _ (wire : Wire) (worker : Worker) where
  abbrev pub send_error : ℕ → ErrorCode → Served
  send_error request_id code = record {
    replies = as_frame failure request_id (wire.errors.encode code) ∷ [];
    jobs = [];
  }

  abbrev pub reply_with : Frame → Served → Served
  reply_with frame served = record served { replies = frame ∷ served.replies }

  -- The loop over the events of the worker.
  unfoldable pub send_events : ℕ → List Event → List Frame
  send_events request_id [] = []
  send_events request_id (text_chunk sequence text reasoning ∷ events) =
      as_frame chunk request_id
        (wire.chunks.encode (record { sequence = sequence; text = text; reasoning = reasoning }))
      ∷ send_events request_id events
  send_events request_id (done finish prompt_tokens completion_tokens ∷ events) =
      as_frame finished request_id (
        wire.dones.encode (record {
          finish = finish;
          prompt_tokens = prompt_tokens;
          completion_tokens = completion_tokens;
        }))
      ∷ []
  send_events request_id (error code ∷ events) =
      as_frame failure request_id (wire.errors.encode code) ∷ []

  abbrev pub take_job : ℕ → Generate → Option (List Event) → Served
  take_job request_id request none = send_error request_id internal
  take_job request_id request (some events) = record {
    replies = send_events request_id events;
    jobs = request ∷ [];
  }

  abbrev pub admit_valid : ℕ → Status → Generate → Result Invalid (Unit {0}) → Served
  admit_valid request_id board request (err reason) = send_error request_id invalid_request
  admit_valid request_id board request (ok valid) =
      if not (is_ready board.state)
      then send_error request_id not_ready
      else take_job request_id request (worker request)

  abbrev pub admit_decoded : ℕ → Status → Option Generate → Served
  admit_decoded request_id board none = send_error request_id invalid_request
  admit_decoded request_id board (some request) =
      admit_valid request_id board request (validate request)

  -- `handle_generate`
  unfoldable pub handle_generate : Frame → Status → Served
  handle_generate frame board =
      admit_decoded frame.request_id board (wire.generates.decode frame.payload)

  abbrev pub closed : Served
  closed = record { replies = []; jobs = [] }

  -- One round of the loop of `handle_protocol`, with what follows if it goes on.
  abbrev pub handle_one : MessageType → Frame → Status → Served → Served
  handle_one status_request frame board rest =
      reply_with (as_frame status frame.request_id (wire.statuses.encode board)) rest
  handle_one generate frame board rest = handle_generate frame board
  handle_one cancel frame board rest = closed
  handle_one hello frame board rest = send_error frame.request_id bad_protocol
  handle_one hello_ack frame board rest = send_error frame.request_id bad_protocol
  handle_one status frame board rest = send_error frame.request_id bad_protocol
  handle_one chunk frame board rest = send_error frame.request_id bad_protocol
  handle_one finished frame board rest = send_error frame.request_id bad_protocol
  handle_one failure frame board rest = send_error frame.request_id bad_protocol

  unfoldable pub handle_loop : List Incoming → Served
  handle_loop [] = closed
  handle_loop ((frame, board) ∷ incoming) =
      handle_one frame.message_type frame board (handle_loop incoming)

  abbrev pub greet_valid : Frame → Status → Served → Result HelloError (Unit {0}) → Served
  greet_valid frame board rest (err reason) = send_error frame.request_id bad_protocol
  greet_valid frame board rest (ok valid) =
      reply_with (as_frame hello_ack frame.request_id (wire.acks.encode (ack_of board))) rest

  abbrev pub greet : Frame → Status → Served → Option Hello → Served
  greet frame board rest none = send_error frame.request_id bad_protocol
  greet frame board rest (some h) = greet_valid frame board rest (validate_hello h)

  -- `handle_protocol`
  unfoldable pub handle_protocol : List Incoming → Served
  handle_protocol [] = closed
  handle_protocol ((frame, board) ∷ incoming) =
      greet frame board (handle_loop incoming) (wire.hellos.decode frame.payload)
