-- ===== src/Session/Sample.antt =====
-- An encoding of the messages that gives back what it was given, for the tests: a number for each number
-- and character.
use chatty.Common.{
  ℕ, zero, suc, ◌≡◌, refl, Bool, true, false, Option, none, some, List, [], ◌∷◌, ◌++◌, length, take,
  drop,
}
use chatty.Generation.{
  Piece, marker, plain, Marker, begin_of_sentence, user, assistant, end_of_sentence, thought_end,
  end_of_text, length_reached, was_cancelled, unsupported, context_exceeded, cancelled,
}
use chatty.Session.{
  Wire, Hello, HelloAck, Status, Chunk, Done, ServerState, loading, ready, failed, Generate,
  FinishReason, ErrorCode, bad_protocol, not_ready, invalid_request, internal,
}

abbrev bit : Bool → ℕ
bit false = 0
bit true = 1

abbrev of_bit : ℕ → Bool
of_bit zero = false
of_bit (suc n) = true

pub of_bit-bit : (b : Bool) → of_bit (bit b) ≡ b
of_bit-bit false = refl
of_bit-bit true = refl

abbrev state_number : ServerState → ℕ
state_number loading = 0
state_number ready = 1
state_number failed = 2

abbrev state_of : ℕ → ServerState
state_of zero = loading
state_of (suc zero) = ready
state_of (suc (suc n)) = failed

pub state_of-state_number : (s : ServerState) → state_of (state_number s) ≡ s
state_of-state_number loading = refl
state_of-state_number ready = refl
state_of-state_number failed = refl

abbrev reason_number : FinishReason → ℕ
reason_number end_of_text = 0
reason_number length_reached = 1
reason_number was_cancelled = 2

abbrev reason_of : ℕ → FinishReason
reason_of zero = end_of_text
reason_of (suc zero) = length_reached
reason_of (suc (suc n)) = was_cancelled

pub reason_of-reason_number : (r : FinishReason) → reason_of (reason_number r) ≡ r
reason_of-reason_number end_of_text = refl
reason_of-reason_number length_reached = refl
reason_of-reason_number was_cancelled = refl

abbrev code_number : ErrorCode → ℕ
code_number bad_protocol = 0
code_number unsupported = 1
code_number not_ready = 2
code_number invalid_request = 3
code_number context_exceeded = 4
code_number internal = 5
code_number cancelled = 6

abbrev code_of : ℕ → ErrorCode
code_of zero = bad_protocol
code_of (suc zero) = unsupported
code_of (suc (suc zero)) = not_ready
code_of (suc (suc (suc zero))) = invalid_request
code_of (suc (suc (suc (suc zero)))) = context_exceeded
code_of (suc (suc (suc (suc (suc zero))))) = internal
code_of (suc (suc (suc (suc (suc (suc n)))))) = cancelled

pub code_of-code_number : (c : ErrorCode) → code_of (code_number c) ≡ c
code_of-code_number bad_protocol = refl
code_of-code_number unsupported = refl
code_of-code_number not_ready = refl
code_of-code_number invalid_request = refl
code_of-code_number context_exceeded = refl
code_of-code_number internal = refl
code_of-code_number cancelled = refl

-- Two texts, with the length of the first.
abbrev both : List ℕ → List ℕ → List ℕ
both first second = length first ∷ (first ++ second)

-- A marker is its number, a text 5 and its characters, each 6 higher.
abbrev letters : List ℕ → List ℕ → List ℕ
letters [] rest = rest
letters (c ∷ text) rest = suc (suc (suc (suc (suc (suc c))))) ∷ letters text rest

abbrev marker_number : Marker → ℕ
marker_number begin_of_sentence = 0
marker_number user = 1
marker_number assistant = 2
marker_number end_of_sentence = 3
marker_number thought_end = 4

unfoldable pub pieces_encoded : List Piece → List ℕ
pieces_encoded [] = []
pieces_encoded (marker m ∷ pieces) = marker_number m ∷ pieces_encoded pieces
pieces_encoded (plain text ∷ pieces) = 5 ∷ letters text (pieces_encoded pieces)

abbrev read_back : ℕ → List ℕ × List Piece → List ℕ × List Piece
read_back zero (text, pieces) = (text, marker begin_of_sentence ∷ pieces)
read_back (suc zero) (text, pieces) = (text, marker user ∷ pieces)
read_back (suc (suc zero)) (text, pieces) = (text, marker assistant ∷ pieces)
read_back (suc (suc (suc zero))) (text, pieces) = (text, marker end_of_sentence ∷ pieces)
read_back (suc (suc (suc (suc zero)))) (text, pieces) = (text, marker thought_end ∷ pieces)
read_back (suc (suc (suc (suc (suc zero))))) (text, pieces) = ([], plain text ∷ pieces)
read_back (suc (suc (suc (suc (suc (suc c)))))) (text, pieces) = (c ∷ text, pieces)

unfoldable pub pieces_decoded : List ℕ → List ℕ × List Piece
pieces_decoded [] = ([], [])
pieces_decoded (n ∷ numbers) = read_back n (pieces_decoded numbers)

read_back-marker_number :
    (m : Marker) (text : List ℕ) (pieces : List Piece)
    → read_back (marker_number m) (text, pieces) ≡ (text, marker m ∷ pieces)
read_back-marker_number begin_of_sentence text pieces = refl
read_back-marker_number user text pieces = refl
read_back-marker_number assistant text pieces = refl
read_back-marker_number end_of_sentence text pieces = refl
read_back-marker_number thought_end text pieces = refl

pieces_decoded-letters :
    (text numbers : List ℕ) (pieces : List Piece)
    → pieces_decoded numbers ≡ ([], pieces)
    → pieces_decoded (letters text numbers) ≡ (text, pieces)
unfolding pieces_decoded
pieces_decoded-letters [] numbers pieces h = h
pieces_decoded-letters (c ∷ text) numbers pieces h =
    rw (pieces_decoded-letters text numbers pieces h) refl

pub pieces_decoded-pieces_encoded :
    (pieces : List Piece) → pieces_decoded (pieces_encoded pieces) ≡ ([], pieces)
unfolding pieces_decoded pieces_encoded
pieces_decoded-pieces_encoded [] = refl
pieces_decoded-pieces_encoded (marker m ∷ pieces) =
    rw (pieces_decoded-pieces_encoded pieces) (read_back-marker_number m [] pieces)
pieces_decoded-pieces_encoded (plain text ∷ pieces) =
    rw (pieces_decoded-letters text _ pieces (pieces_decoded-pieces_encoded pieces)) refl

abbrev hello_read : List ℕ → Option Hello
hello_read [] = none
hello_read (version ∷ client) = some (record { version = version; client = client })

abbrev ack_read : List ℕ → Option HelloAck
ack_read (version ∷ tokens ∷ output ∷ s ∷ n ∷ rest) = some (record {
  version = version;
  model = take n rest;
  context_tokens = tokens;
  max_output = output;
  state = state_of s;
  detail = drop n rest;
})
ack_read _ = none

abbrev status_read : List ℕ → Option Status
status_read (tokens ∷ s ∷ n ∷ rest) = some (record {
  state = state_of s;
  detail = drop n rest;
  model = take n rest;
  context_tokens = tokens;
})
status_read _ = none

abbrev generate_read : List ℕ → Option Generate
generate_read (sampling ∷ seed ∷ tokens ∷ rest) = some (record {
  prompt = (pieces_decoded rest).1;
  valid_sampling = of_bit sampling;
  seed = seed;
  max_tokens = tokens;
})
generate_read _ = none

abbrev chunk_read : List ℕ → Option Chunk
chunk_read (sequence ∷ reasoning ∷ text) =
    some (record { sequence = sequence; text = text; reasoning = of_bit reasoning })
chunk_read _ = none

abbrev done_read : List ℕ → Option Done
done_read (reason ∷ p ∷ c ∷ []) =
    some (record { finish = reason_of reason; prompt_tokens = p; completion_tokens = c })
done_read _ = none

abbrev code_read : List ℕ → Option ErrorCode
code_read (n ∷ []) = some (code_of n)
code_read _ = none

abbrev pub wire : Wire
wire = record {
  hellos = record { encode = λ h. h.version ∷ h.client; decode = hello_read };
  acks = record {
    encode = λ a.
        a.version ∷ a.context_tokens ∷ a.max_output ∷ state_number a.state ∷ both a.model a.detail;
    decode = ack_read;
  };
  statuses = record {
    encode = λ s. s.context_tokens ∷ state_number s.state ∷ both s.model s.detail;
    decode = status_read;
  };
  generates = record {
    encode = λ g. bit g.valid_sampling ∷ g.seed ∷ g.max_tokens ∷ pieces_encoded g.prompt;
    decode = generate_read;
  };
  chunks = record { encode = λ c. c.sequence ∷ bit c.reasoning ∷ c.text; decode = chunk_read };
  dones = record {
    encode = λ d. reason_number d.finish ∷ d.prompt_tokens ∷ d.completion_tokens ∷ [];
    decode = done_read;
  };
  errors = record { encode = λ c. code_number c ∷ []; decode = code_read };
}
