-- ===== src/Client/EndToEnd.antt =====
-- The client against the session of the appliance.
use chatty.Common.{
  ℕ, ◌≡◌, refl, ◌∙◌, ap, true, false, not, Option, none, some, List, [], ◌∷◌, ◌++◌, map,
  if◌then◌else◌, inl, inr, Bool-cases,
}
use chatty.Common.Fallible.{Result-cases}
use chatty.Generation.{Event, text_chunk, done, error, internal}
use chatty.Session.{
  Bincode, Worker, Status, ack_of, validate_hello, handle_protocol, handle_loop, handle_generate,
  send_events, take_job,
}
use chatty.Client.{
  Result, ok, err, ◌>>◌, fail_if, Wire, Frame, as_frame, hello_ack, generate, Generate, validate,
  is_ready, Peer, ChatRequest, Completion, ClientError, connection_closed, not_ready_yet, refused,
  generate_request, finish_reason_of, hello_frame, client_hello, receive, or_bad_request, complete,
}

abbrev pub IsBincode {ℓ} : {A : Type ℓ} → Bincode A → Type ℓ
IsBincode {A} b = (a : A) → b.decode (b.encode a) ≡ some a

-- What bincode documents: what it has encoded it decodes.
pub record IsWire (wire : Wire) : Type 0 where
  pub hellos : IsBincode wire.hellos
  pub acks : IsBincode wire.acks
  pub generates : IsBincode wire.generates
  pub chunks : IsBincode wire.chunks
  pub dones : IsBincode wire.dones
  pub errors : IsBincode wire.errors

-- The appliance as the other end of a connection, with one status of its board.
abbrev pub appliance : Wire → Worker → Status → Peer
appliance wire worker board frames =
    (handle_protocol wire worker (map (λ f. (f, board)) frames)).replies

-- What the events of a worker say: the text of the chunks but for the reasoning, up to the last event.
unfoldable pub outcome : List ℕ → List Event → Result ClientError Completion
outcome text [] = err connection_closed
outcome text (text_chunk sequence more reasoning ∷ events) =
    outcome (if reasoning then text else text ++ more) events
outcome text (done finish prompt_tokens completion_tokens ∷ events) = ok (record {
  content = text;
  finish_reason = finish_reason_of finish;
  prompt_tokens = prompt_tokens;
  completion_tokens = completion_tokens;
})
outcome text (error code ∷ events) = err (refused code)

abbrev pub outcome_of : Option (List Event) → Result ClientError Completion
outcome_of none = err (refused internal)
outcome_of (some events) = outcome [] events

-- What is promised of a request: it is refused by the client when the appliance is not ready or the
-- request is not valid, and is else what the worker makes of it.
abbrev pub promised : Worker → Status → ChatRequest → Result ClientError Completion
promised worker board request = do
  fail_if (not (is_ready board.state)) not_ready_yet
  or_bad_request (validate (generate_request request))
  outcome_of (worker (generate_request request))

module _ (wire : Wire) (law : IsWire wire) (worker : Worker) where
  receive-send_events :
      (events : List Event) (text : List ℕ)
      → receive wire (send_events wire worker 1 events) text ≡ outcome text events
  unfolding receive send_events outcome
  receive-send_events [] text = refl
  receive-send_events (text_chunk sequence more true ∷ events) text =
      rw (law.chunks _) (receive-send_events events text)
  receive-send_events (text_chunk sequence more false ∷ events) text =
      rw (law.chunks _) (receive-send_events events (text ++ more))
  receive-send_events (done f p c ∷ events) text = rw (law.dones _) refl
  receive-send_events (error code ∷ events) text = rw (law.errors _) refl

  greeted :
      (board : Status) (frames : List Frame)
      → appliance wire worker board (hello_frame wire ∷ frames)
        ≡ as_frame hello_ack 0 (wire.acks.encode (ack_of board))
          ∷ (handle_loop wire worker (map (λ f. (f, board)) frames)).replies
  unfolding handle_protocol validate_hello
  greeted board frames = rw (law.hellos client_hello, appliance) refl

  asked :
      (board : Status) (g : Generate)
      → is_ready board.state ≡ true
      → validate g ≡ ok tt
      → (handle_loop wire worker
          ((as_frame generate 1 (wire.generates.encode g), board) ∷ [])).replies
        ≡ (take_job wire worker 1 g (worker g)).replies
  unfolding handle_loop handle_generate
  asked board g ready_now valid = rw (law.generates g, valid, ready_now) refl

  received :
      (g : Generate) (o : Option (List Event))
      → receive wire (take_job wire worker 1 g o).replies [] ≡ outcome_of o
  unfolding receive
  received g none = rw (law.errors internal) refl
  received g (some events) = receive-send_events events []

  -- Between the broker and the appliance nothing is lost: over frames that bincode gives back, and for
  -- every worker, a request is completed with the text of the worker's chunks in order, but for the
  -- reasoning, and with the reason and the counts of its last event; it fails with the worker's error
  -- when that comes first, as closed when the events end before, as internal when the worker takes no
  -- more jobs, and without asking when the board is not ready or the request is not valid.
  pub complete-appliance :
      (board : Status) (request : ChatRequest)
      → complete wire (appliance wire worker board) request ≡ promised worker board request
  unfolding complete
  complete-appliance board request =
      let g = generate_request request in
      elim (Bool-cases (is_ready board.state)) [
        | inr down ↦ rw (greeted board [], law.acks (ack_of board), down) refl
        | inl up ↦ elim (Result-cases (validate g)) [
          | inl (reason, bad) ↦ rw (greeted board [], law.acks (ack_of board), up, bad) refl
          | inr (tt, valid) ↦
              rw
                (
                  greeted board [],
                  law.acks (ack_of board),
                  up,
                  valid,
                  greeted board (as_frame generate 1 (wire.generates.encode g) ∷ []),
                )
                (ap (λ frames. receive wire frames []) (asked board g up valid)
                  ∙ received g (worker g))
        ]
      ]
