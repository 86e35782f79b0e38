-- ===== src/Session/Runs.antt =====
-- Tests, and the theorem at a session that asks for the status and then for an answer.
use chatty.Common.{◌≡◌, ◌⊎◌, refl, true, false, some, List, [], ◌∷◌, codes}
use chatty.Generation.{marker, user, assistant, end_of_text, validate, text_bytes}
use chatty.Session.Sample.{wire, pieces_encoded, pieces_decoded}
use chatty.Session.Safety.{IsSafe, IsGreeting, handle_protocol-IsSafe}
use chatty.Session.{
  Status, ready, loading, Generate, text_chunk, done, Frame, as_frame, hello, hello_ack,
  status_request, status, generate, chunk, finished, failure, Incoming, Worker, ack_of,
  validate_hello, send_events, handle_generate, handle_loop, handle_protocol,
}

abbrev pub board : Status
board = record { state = ready; detail = []; model = codes "m"; context_tokens = 65536 }

abbrev pub answers : Worker
answers request =
    some
      (text_chunk 0 (codes "hm") true ∷ text_chunk 1 (codes "Hi") false ∷ done end_of_text 3 2 ∷ [])

abbrev small_request : Generate
small_request = record {
  prompt = marker user ∷ marker assistant ∷ [];
  valid_sampling = true;
  seed = 7;
  max_tokens = 10;
}

abbrev greeting : Frame
greeting = as_frame hello 0 (wire.hellos.encode (record { version = 1; client = codes "b" }))

abbrev asking : Generate → Frame
asking request = as_frame generate 1 (wire.generates.encode request)

abbrev session : Generate → Status → List Incoming
session request at_request =
    (greeting, board)
    ∷ (as_frame status_request 5 [], board)
    ∷ (asking request, at_request)
    ∷ (greeting, board)
    ∷ []

served : handle_protocol wire answers (session small_request board) ≡ record {
  replies =
      as_frame hello_ack 0 (wire.acks.encode (ack_of board))
      ∷ as_frame status 5 (wire.statuses.encode board)
      ∷ as_frame chunk 1 (0 ∷ 1 ∷ codes "hm")
      ∷ as_frame chunk 1 (1 ∷ 0 ∷ codes "Hi")
      ∷ as_frame finished 1 (0 ∷ 3 ∷ 2 ∷ [])
      ∷ [];
  jobs = small_request ∷ [];
}
unfolding handle_protocol handle_loop handle_generate send_events validate_hello validate text_bytes
    pieces_encoded pieces_decoded
served = refl

not_served_before_ready :
    (handle_protocol wire answers (session small_request (record board { state = loading }))).jobs
    ≡ []
unfolding handle_protocol handle_loop handle_generate send_events validate_hello validate text_bytes
    pieces_encoded pieces_decoded
not_served_before_ready = refl

not_served_other_version :
    handle_protocol wire answers
      ((as_frame hello 3 (9 ∷ codes "b"), board) ∷ (asking small_request, board) ∷ [])
    ≡ record { replies = as_frame failure 3 (0 ∷ []) ∷ []; jobs = [] }
unfolding handle_protocol validate_hello
not_served_other_version = refl

handle_protocol-IsSafe_example :
    IsSafe wire answers
      (session small_request board)
      (handle_protocol wire answers (session small_request board))
    × (((handle_protocol wire answers (session small_request board)).jobs ≡ [])
        ⊎ IsGreeting wire answers (session small_request board))
handle_protocol-IsSafe_example = handle_protocol-IsSafe wire answers (session small_request board)
