-- ===== src/Client/Stream.antt =====
-- The streams of the client, MetalStream of crates/chatty-broker/src/adapters/metal.rs, and its other
-- requests.
use chatty.Common.{
  ℕ, zero, suc, ◌≡◌, refl, Bool, true, false, not, Option, none, some, List, [], ◌∷◌, ◌++◌,
  append-nil, drop, ◌==◌, if◌then◌else◌, length, inl, inr, Bool-cases, Option-cases, ap,
}
use mathlib.Core.Path.{fun_ext}
use chatty.Common.Fallible.{Result-cases}
use chatty.Session.{Status}
use chatty.Client.{
  Result, ok, err, ◌>>=◌, ◌>>◌, fail_if, or_fail, Wire, Frame, as_frame, MessageType, hello,
  hello_ack, status_request, status, generate, chunk, finished, cancel, failure, Chunk, Done,
  is_ready, validate, Peer, ChatRequest, Completion, ClientError, connection_closed, not_ready_yet,
  other_request, unexpected_frame, bad_payload, refused, generate_request, finish_reason_of,
  hello_frame, connect, or_bad_request, receive, receive_one, complete, with_chunk,
}

pub record StreamUpdate : Type 0 where
  pub text : List ℕ
  pub reasoning : Bool
  pub finish_reason : Option (List ℕ)
  pub prompt_tokens : Option ℕ
  pub completion_tokens : Option ℕ
  pub done : Bool

-- `MetalStream`: the frames that are still to come.
pub record MetalStream : Type 0 where
  pub frames : List Frame
  pub ended : Bool

module _ (wire : Wire) where
  abbrev pub chunk_update : Chunk → StreamUpdate
  chunk_update c = record {
    text = if c.reasoning then [] else c.text;
    reasoning = c.reasoning;
    finish_reason = none;
    prompt_tokens = none;
    completion_tokens = none;
    done = false;
  }

  abbrev pub done_update : Done → StreamUpdate
  done_update d = record {
    text = [];
    reasoning = false;
    finish_reason = some (finish_reason_of d.finish);
    prompt_tokens = some d.prompt_tokens;
    completion_tokens = some d.completion_tokens;
    done = true;
  }

  abbrev pub next_one :
      MessageType → Frame → List Frame → Result ClientError (Option StreamUpdate × MetalStream)
  next_one chunk frame frames = do
    c ← or_fail (wire.chunks.decode frame.payload) bad_payload
    ok (some (chunk_update c), record { frames = frames; ended = false })
  next_one finished frame frames = do
    d ← or_fail (wire.dones.decode frame.payload) bad_payload
    ok (some (done_update d), record { frames = frames; ended = true })
  next_one failure frame frames = do
    code ← or_fail (wire.errors.decode frame.payload) bad_payload
    err (refused code)
  next_one hello frame frames = err unexpected_frame
  next_one hello_ack frame frames = err unexpected_frame
  next_one status_request frame frames = err unexpected_frame
  next_one status frame frames = err unexpected_frame
  next_one generate frame frames = err unexpected_frame
  next_one cancel frame frames = err unexpected_frame

  abbrev pub next_frame : List Frame → Result ClientError (Option StreamUpdate × MetalStream)
  next_frame [] = err connection_closed
  next_frame (frame ∷ frames) =
      if not (frame.request_id == 1)
      then err other_request
      else next_one frame.message_type frame frames

  -- `MetalStream::next`
  unfoldable pub next : MetalStream → Result ClientError (Option StreamUpdate × MetalStream)
  next s = if s.ended then ok (none, s) else next_frame s.frames

  -- `stream`
  unfoldable pub stream : Peer → ChatRequest → Result ClientError MetalStream
  stream peer request = do
    ack ← connect wire (peer (hello_frame wire ∷ []))
    fail_if (not (is_ready ack.state)) not_ready_yet
    or_bad_request (validate (generate_request request))
    let asked = as_frame generate 1 (wire.generates.encode (generate_request request))
    ok (record { frames = drop 1 (peer (hello_frame wire ∷ asked ∷ [])); ended = false })

  -- `models`
  unfoldable pub models : Peer → Result ClientError (List (List ℕ))
  models peer = do
    ack ← connect wire (peer (hello_frame wire ∷ []))
    fail_if (not (is_ready ack.state)) not_ready_yet
    ok (if length ack.model == 0 then [] else ack.model ∷ [])

  abbrev pub read_status : List Frame → Result ClientError Status
  read_status [] = err connection_closed
  read_status (frame ∷ frames) = status_in frame.message_type frame
    where
      status_in : MessageType → Frame → Result ClientError Status
      status_in status frame = or_fail (wire.statuses.decode frame.payload) bad_payload
      status_in hello frame = err unexpected_frame
      status_in hello_ack frame = err unexpected_frame
      status_in status_request frame = err unexpected_frame
      status_in generate frame = err unexpected_frame
      status_in chunk frame = err unexpected_frame
      status_in finished frame = err unexpected_frame
      status_in cancel frame = err unexpected_frame
      status_in failure frame = err unexpected_frame

  -- `status`, with what encodes ().
  unfoldable pub client_status : Peer → List ℕ → Result ClientError Status
  client_status peer nothing = do
    ack ← connect wire (peer (hello_frame wire ∷ []))
    read_status (drop 1 (peer (hello_frame wire ∷ as_frame status_request 1 nothing ∷ [])))

  -- A reader that calls `next` up to a number of times and puts the texts together, up to an update that
  -- is done.
  abbrev pub put_together :
      List ℕ
      → (MetalStream → List ℕ → Result ClientError Completion)
      → Option StreamUpdate × MetalStream
      → Result ClientError Completion
  put_together text rest (none, s) = err connection_closed
  put_together text rest (some u, s) =
      if u.done
      then last_update u.finish_reason u.prompt_tokens u.completion_tokens
      else rest s (text ++ u.text)
    where
      last_update : Option (List ℕ) → Option ℕ → Option ℕ → Result ClientError Completion
      last_update (some reason) (some prompt_tokens) (some completion_tokens) = ok (record {
        content = text ++ u.text;
        finish_reason = reason;
        prompt_tokens = prompt_tokens;
        completion_tokens = completion_tokens;
      })
      last_update (some reason) (some prompt_tokens) none = err connection_closed
      last_update (some reason) none c = err connection_closed
      last_update none p c = err connection_closed

  unfoldable pub read_all : ℕ → MetalStream → List ℕ → Result ClientError Completion
  read_all zero s text = err connection_closed
  read_all (suc calls) s text = next s >>= put_together text (read_all calls)

  put_together-chunk :
      (c : Chunk) (frames : List Frame) (text : List ℕ)
      (rest : MetalStream → List ℕ → Result ClientError Completion)
      → put_together text rest (some (chunk_update c), record { frames = frames; ended = false })
        ≡ rest (record { frames = frames; ended = false }) (with_chunk wire text c)
  put_together-chunk c frames text rest = elim (Bool-cases c.reasoning) [
    | inl hidden ↦ rw (hidden, append-nil text) refl
    | inr shown ↦ rw shown refl
  ]

  next_one-receive_one :
      (m : MessageType) (frame : Frame) (frames : List Frame) (text : List ℕ)
      (rest : MetalStream → List ℕ → Result ClientError Completion)
      → (next_one m frame frames >>= put_together text rest)
        ≡ receive_one wire m frame text (rest (record { frames = frames; ended = false }))
  next_one-receive_one chunk frame frames text rest =
      elim (Option-cases (wire.chunks.decode frame.payload)) [
        | inl bad ↦ rw bad refl
        | inr (c, e) ↦ rw e (put_together-chunk c frames text rest)
      ]
  next_one-receive_one finished frame frames text rest =
      elim (Option-cases (wire.dones.decode frame.payload)) [
        | inl bad ↦ rw bad refl
        | inr (d, e) ↦ rw (e, append-nil text) refl
      ]
  next_one-receive_one failure frame frames text rest =
      elim (Option-cases (wire.errors.decode frame.payload)) [
        | inl bad ↦ rw bad refl
        | inr (code, e) ↦ rw e refl
      ]
  next_one-receive_one hello frame frames text rest = refl
  next_one-receive_one hello_ack frame frames text rest = refl
  next_one-receive_one status_request frame frames text rest = refl
  next_one-receive_one status frame frames text rest = refl
  next_one-receive_one generate frame frames text rest = refl
  next_one-receive_one cancel frame frames text rest = refl

  read_all-receive :
      (frames : List Frame) (text : List ℕ)
      → read_all (suc (length frames)) (record { frames = frames; ended = false }) text
        ≡ receive wire frames text
  unfolding read_all next receive
  read_all-receive [] text = refl
  read_all-receive (frame ∷ frames) text = elim (Bool-cases (frame.request_id == 1)) [
    | inr other ↦ rw other refl
    | inl mine ↦
        rw
          (
            mine,
            next_one-receive_one frame.message_type frame frames text
                (read_all (suc (length frames))),
          )
          (ap (receive_one wire frame.message_type frame text) (fun_ext (read_all-receive frames)))
  ]

  -- Whatever the other end replies, reading the stream of a request to its end gives the completion or
  -- the error that asking for it at once gives; as many calls of next as there are frames, and one more,
  -- are enough.
  pub read_all-stream :
      (peer : Peer) (request : ChatRequest)
      → (stream peer request >>= (λ s. read_all (suc (length s.frames)) s []))
        ≡ complete wire peer request
  unfolding stream complete
  read_all-stream peer request = elim (Result-cases (connect wire (peer (hello_frame wire ∷ [])))) [
    | inl (reason, e) ↦ rw e refl
    | inr (ack, e) ↦ elim (Bool-cases (is_ready ack.state)) [
      | inr down ↦ rw (e, down) refl
      | inl up ↦ elim (Result-cases (validate (generate_request request))) [
        | inl (reason, bad) ↦ rw (e, up, bad) refl
        | inr (tt, valid) ↦ rw (e, up, valid) (read_all-receive _ [])
      ]
    ]
  ]
