-- ===== src/Session/Safety.antt =====
-- What a session sends, and what it hands to the worker.
use chatty.Common.{
  ℕ, ◌≤◌, ◌≡◌, ◌⊎◌, refl, Bool, true, false, Option, none, some, List, [], ◌∷◌, length, All,
  All_map, inl, inr, arith, Bool-cases,
}
use chatty.Session.{
  Result, ok, err, Generate, validate, Invalid, Event, text_chunk, done, error, ErrorCode,
  MessageType, hello, hello_ack, status_request, status, generate, chunk, finished, cancel, failure,
  Frame, Status, HelloError, Hello, Wire, Served, Incoming, Worker, validate_hello, send_error,
  reply_with, send_events, take_job, admit_valid, admit_decoded, handle_generate, closed, ack_of,
  as_frame, handle_one, handle_loop, greet_valid, greet, handle_protocol, is_ready,
}

abbrev pub is_last : MessageType → Bool
is_last finished = true
is_last failure = true
is_last hello = false
is_last hello_ack = false
is_last status_request = false
is_last status = false
is_last generate = false
is_last chunk = false
is_last cancel = false

-- Nothing follows a frame that ends the answer.
abbrev pub EndsOnce : List Frame → Type 0
EndsOnce [] = Unit {0}
EndsOnce (frame ∷ frames) = ((is_last frame.message_type ≡ false) × EndsOnce frames) ⊎ (frames ≡ [])

-- Some frame that came has the number.
abbrev pub Asks : List Incoming → ℕ → Type 0
Asks [] id = ⊥
Asks ((frame, board) ∷ incoming) id = (frame.request_id ≡ id) ⊎ Asks incoming id

module _ (wire : Wire) (worker : Worker) where
  -- Some frame that came asks for the job, when the board is ready.
  abbrev pub Requests : List Incoming → Generate → Type 0
  Requests [] job = ⊥
  Requests ((frame, board) ∷ incoming) job =
      ((frame.message_type ≡ generate)
        × (wire.generates.decode frame.payload ≡ some job)
        × (is_ready board.state ≡ true))
      ⊎ Requests incoming job

  abbrev pub IsGreeting : List Incoming → Type 0
  IsGreeting [] = ⊥
  IsGreeting ((frame, board) ∷ incoming) =
      (h : Hello) × (wire.hellos.decode frame.payload ≡ some h) × (validate_hello h ≡ ok tt)

  pub record IsSafe (incoming : List Incoming) (served : Served) : Type 0 where
    pub once : EndsOnce served.replies
    pub answers : All (λ f. Asks incoming f.request_id) served.replies
    pub single : length served.jobs ≤ 1
    pub valid : All (λ j. validate j ≡ ok tt) served.jobs
    pub requested : All (Requests incoming) served.jobs

  send_error-IsSafe :
      (frame : Frame) (board : Status) (incoming : List Incoming) (code : ErrorCode)
      → IsSafe ((frame, board) ∷ incoming) (send_error wire worker frame.request_id code)
  send_error-IsSafe frame board incoming code = record {
    once = inr refl;
    answers = (inl refl, tt);
    single = omega arith;
    valid = tt;
    requested = tt;
  }

  send_events-EndsOnce :
      (id : ℕ) (events : List Event) → EndsOnce (send_events wire worker id events)
  unfolding send_events
  send_events-EndsOnce id [] = tt
  send_events-EndsOnce id (text_chunk sequence text reasoning ∷ events) =
      inl (refl, send_events-EndsOnce id events)
  send_events-EndsOnce id (done f p c ∷ events) = inr refl
  send_events-EndsOnce id (error code ∷ events) = inr refl

  send_events-id :
      (id : ℕ) (events : List Event)
      → All (λ f. id ≡ f.request_id) (send_events wire worker id events)
  unfolding send_events
  send_events-id id [] = tt
  send_events-id id (text_chunk sequence text reasoning ∷ events) = (refl, send_events-id id events)
  send_events-id id (done f p c ∷ events) = (refl, tt)
  send_events-id id (error code ∷ events) = (refl, tt)

  handle_generate-IsSafe :
      (frame : Frame) (board : Status) (incoming : List Incoming)
      → frame.message_type ≡ generate
      → IsSafe ((frame, board) ∷ incoming) (handle_generate wire worker frame board)
  unfolding handle_generate
  handle_generate-IsSafe frame board incoming asked =
      decoded (wire.generates.decode frame.payload) refl
    where
      refused :
          (code : ErrorCode)
          → IsSafe ((frame, board) ∷ incoming) (send_error wire worker frame.request_id code)
      refused = send_error-IsSafe frame board incoming

      taken :
          (request : Generate) (o : Option (List Event))
          → wire.generates.decode frame.payload ≡ some request
          → validate request ≡ ok tt
          → is_ready board.state ≡ true
          → IsSafe ((frame, board) ∷ incoming) (take_job wire worker frame.request_id request o)
      taken request none e v r = refused _
      taken request (some events) e v r = record {
        once = send_events-EndsOnce frame.request_id events;
        answers =
            All_map _ _ (send_events wire worker frame.request_id events) (λ f same. inl same)
              (send_events-id frame.request_id events);
        single = omega arith;
        valid = (v, tt);
        requested = (inl (asked, e, r), tt);
      }

      checked :
          (request : Generate) (v : Result Invalid (Unit {0}))
          → validate request ≡ v
          → wire.generates.decode frame.payload ≡ some request
          → IsSafe
              ((frame, board) ∷ incoming)
              (admit_valid wire worker frame.request_id board request v)
      checked request (err reason) v e = refused _
      checked request (ok passed) v e = elim (Bool-cases (is_ready board.state)) [
        | inl r ↦ rw r (taken request (worker request) e v r)
        | inr not_yet ↦ rw not_yet (refused _)
      ]

      decoded :
          (o : Option Generate)
          → wire.generates.decode frame.payload ≡ o
          → IsSafe ((frame, board) ∷ incoming) (admit_decoded wire worker frame.request_id board o)
      decoded none e = refused _
      decoded (some request) e = checked request (validate request) refl e

  later :
      (first : Incoming) (incoming : List Incoming) (served : Served)
      → IsSafe incoming served
      → IsSafe (first ∷ incoming) served
  later first incoming served h = record {
    once = h.once;
    answers = All_map _ _ served.replies (λ f asks. inr asks) h.answers;
    single = h.single;
    valid = h.valid;
    requested = All_map _ _ served.jobs (λ j asks. inr asks) h.requested;
  }

  reply_with-IsSafe :
      (frame reply : Frame) (board : Status) (incoming : List Incoming) (served : Served)
      → is_last reply.message_type ≡ false
      → frame.request_id ≡ reply.request_id
      → IsSafe incoming served
      → IsSafe ((frame, board) ∷ incoming) (reply_with wire worker reply served)
  reply_with-IsSafe frame reply board incoming served goes_on same h =
      let rest = later (frame, board) incoming served h in
      record {
        once = inl (goes_on, h.once);
        answers = (inl same, rest.answers);
        single = h.single;
        valid = h.valid;
        requested = rest.requested;
      }

  closed-IsSafe : (incoming : List Incoming) → IsSafe incoming (closed wire worker)
  closed-IsSafe incoming = record {
    once = tt;
    answers = tt;
    single = omega arith;
    valid = tt;
    requested = tt;
  }

  handle_one-IsSafe :
      (m : MessageType) (frame : Frame) (board : Status) (incoming : List Incoming) (rest : Served)
      → frame.message_type ≡ m
      → IsSafe incoming rest
      → IsSafe ((frame, board) ∷ incoming) (handle_one wire worker m frame board rest)
  handle_one-IsSafe status_request frame board incoming rest e h =
      reply_with-IsSafe frame (as_frame status frame.request_id (wire.statuses.encode board)) board
        incoming rest refl refl h
  handle_one-IsSafe generate frame board incoming rest e h =
      handle_generate-IsSafe frame board incoming e
  handle_one-IsSafe cancel frame board incoming rest e h = closed-IsSafe _
  handle_one-IsSafe hello frame board incoming rest e h = send_error-IsSafe frame board incoming _
  handle_one-IsSafe hello_ack frame board incoming rest e h =
      send_error-IsSafe frame board incoming _
  handle_one-IsSafe status frame board incoming rest e h = send_error-IsSafe frame board incoming _
  handle_one-IsSafe chunk frame board incoming rest e h = send_error-IsSafe frame board incoming _
  handle_one-IsSafe finished frame board incoming rest e h =
      send_error-IsSafe frame board incoming _
  handle_one-IsSafe failure frame board incoming rest e h = send_error-IsSafe frame board incoming _

  handle_loop-IsSafe :
      (incoming : List Incoming) → IsSafe incoming (handle_loop wire worker incoming)
  unfolding handle_loop
  handle_loop-IsSafe [] = closed-IsSafe []
  handle_loop-IsSafe ((frame, board) ∷ incoming) =
      handle_one-IsSafe frame.message_type frame board incoming (handle_loop wire worker incoming)
        refl (handle_loop-IsSafe incoming)

  -- Whatever frames come on a connection and whatever the worker does: every reply carries the number of
  -- a frame that came, nothing follows a last event or an error, and at most one job goes to the worker,
  -- only after a greeting that is valid, and only a request that came, is valid and found the board
  -- ready.
  pub handle_protocol-IsSafe :
      (incoming : List Incoming)
      → IsSafe incoming (handle_protocol wire worker incoming)
        × (((handle_protocol wire worker incoming).jobs ≡ []) ⊎ IsGreeting incoming)
  unfolding handle_protocol
  handle_protocol-IsSafe [] = (closed-IsSafe [], inl refl)
  handle_protocol-IsSafe ((frame, board) ∷ incoming) =
      decoded (wire.hellos.decode frame.payload) refl
    where
      Good : Served → Type 0
      Good served =
          IsSafe ((frame, board) ∷ incoming) served
          × ((served.jobs ≡ []) ⊎ IsGreeting ((frame, board) ∷ incoming))

      checked :
          (h : Hello) (v : Result HelloError (Unit {0}))
          → wire.hellos.decode frame.payload ≡ some h
          → validate_hello h ≡ v
          → Good (greet_valid wire worker frame board (handle_loop wire worker incoming) v)
      checked h (err reason) e v = (send_error-IsSafe frame board incoming _, inl refl)
      checked h (ok passed) e v = (
        reply_with-IsSafe frame
            (as_frame hello_ack frame.request_id (wire.acks.encode (ack_of board))) board incoming
            (handle_loop wire worker incoming) refl refl (handle_loop-IsSafe incoming),
        inr (h, e, v),
      )

      decoded :
          (o : Option Hello)
          → wire.hellos.decode frame.payload ≡ o
          → Good (greet wire worker frame board (handle_loop wire worker incoming) o)
      decoded none e = (send_error-IsSafe frame board incoming _, inl refl)
      decoded (some h) e = checked h (validate_hello h) e refl
