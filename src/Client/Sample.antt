-- ===== src/Client/Sample.antt =====
-- The encoding of the tests gives back what it was given.
use chatty.Common.{refl, take-append, drop-append}
use chatty.Session.Sample.{
  wire, of_bit-bit, state_of-state_number, reason_of-reason_number, code_of-code_number,
  pieces_decoded-pieces_encoded,
}
use chatty.Client.EndToEnd.{IsWire}

pub wire-IsWire : IsWire wire
wire-IsWire = record {
  hellos = λ h. refl;
  acks = λ a.
      rw (take-append a.model a.detail, drop-append a.model a.detail, state_of-state_number a.state)
        refl;
  generates = λ g. rw (of_bit-bit g.valid_sampling, pieces_decoded-pieces_encoded g.prompt) refl;
  chunks = λ c. rw (of_bit-bit c.reasoning) refl;
  dones = λ d. rw (reason_of-reason_number d.finish) refl;
  errors = λ c. rw (code_of-code_number c) refl;
}
