-- ===== src/Frame/Bounds.antt =====
-- What the reader takes off any stream, and what it does on one that is cut.
use chatty.Common.{ℕ, ◌^◌, ◌≡◌, ◌≤◌, ◌<◌, ◌∙◌, ap, sym}
use chatty.Common.{List, ◌∷◌, ◌++◌, arith, append_assoc, inl, inr, Option-cases}
use chatty.Common.{length, length-append}
use native.Mathlib.Decide.{dec_lt}
use chatty.Common.Bytes.{
  read_exact-long, read_exact-short, split_unique, read_exact, read_exact-parts,
}
use Prim.Native.Nat.{bit_and}
use chatty.Frame.RoundTrip.{finish, length-header, parse_header-header, write_payload_shape}
use chatty.Frame.{
  io, header_len, max_payload, MessageType, ok, err, Frame, Zstd, header, Result-cases,
  write_payload, Head, parse_header, decompress, read_frame,
}

parse_header-small : (xs : List ℕ) {h : Head} → parse_header xs ≡ ok h → h.len ≤ max_payload
unfolding parse_header
parse_header-small xs e = ground arith

decompress-small : (z : Zstd) (c p : List ℕ) → decompress z c ≡ ok p → length p ≤ max_payload
unfolding decompress
decompress-small z c p e = ground arith

finish-small :
    (z : Zstd) (h : Head) (w rest r : List ℕ) {f : Frame}
    → length w ≤ max_payload
    → finish z h w rest ≡ ok (f, r)
    → (length f.payload ≤ max_payload) × (r ≡ rest)
finish-small z h w rest r {f} small e = ground (arith, decompress-small z w f.payload)

-- What a read took off the stream: a header, a payload of at most `max_payload` bytes, and what is
-- left; and the payload that it hands over is no longer than that either, decoded or not.
abbrev pub Takes : List ℕ → Frame → List ℕ → Type 0
Takes s f rest =
    (head : List ℕ) × (wire : List ℕ) × (s ≡ head ++ (wire ++ rest))
    × (length head ≡ header_len)
    × (length wire ≤ max_payload)
    × (length f.payload ≤ max_payload)

-- Whatever the stream holds and whatever the decoder does: a read that succeeds took one header and
-- at most `max_payload` bytes behind it, left the rest of the stream, and hands over at most
-- `max_payload` bytes.
pub read_frame_bounded :
    (z : Zstd) (s : List ℕ) {f : Frame} (rest : List ℕ)
    → read_frame z s ≡ ok (f, rest)
    → Takes s f rest
unfolding read_frame
read_frame_bounded z s rest e = elim (Option-cases (read_exact header_len s)) [
  | inl p ↦ absurd (cc (rw p at e))
  | inr ((head, s'), p) ↦ elim (Result-cases (parse_header head)) [
    | inl (x, q) ↦ absurd (cc (rw (p, q) at e))
    | inr (h, q) ↦ elim (Option-cases (read_exact h.len s')) [
      | inl r ↦ absurd (cc (rw (p, q, r) at e))
      | inr ((wire, s''), r) ↦
          let (e₁, l₁) = read_exact-parts header_len s head s' p in
          let (e₂, l₂) = read_exact-parts h.len s' wire s'' r in
          let (small, e₃) =
            finish-small z h wire s'' rest (omega (arith, parse_header-small head q))
              (rw (p, q, r) at e) in
          (head, wire, cc, l₁, omega (arith, parse_header-small head q), small)
    ]
  ]
]

no_header : (z : Zstd) (front : List ℕ) → length front < header_len → read_frame z front ≡ err io
unfolding read_frame
no_header z front h = rw (read_exact-short header_len front h)

cut_payload :
    (z : Zstd) (flags : ℕ) (ty : MessageType) (id : ℕ) (p front back : List ℕ) (b : ℕ)
    → bit_and flags 254 ≡ 0
    → length p ≤ max_payload
    → id < 2 ^ 64
    → front ++ (b ∷ back) ≡ header (length p) flags ty id ++ p
    → header_len ≤ length front
    → read_frame z front ≡ err io
unfolding read_frame
cut_payload z flags ty id p front back b known small fits e long =
    let (xs, r, q) = read_exact-long header_len front long in
    let (f, l) = read_exact-parts header_len front xs r q in
    let (same, rest) =
      split_unique xs (header (length p) flags ty id) (r ++ (b ∷ back)) p
        (l ∙ sym (length-header (length p) flags ty id))
        (sym (append_assoc xs r (b ∷ back)) ∙ rw (← f) e) in
    rw (
      q,
      same,
      parse_header-header (length p) flags ty id small known fits,
      read_exact-short (length p) r (omega (arith, ap length rest, length-append r (b ∷ back))),
    )

-- A stream that ends inside of a frame that the writer wrote gives an I/O error.
pub read_frame_truncated :
    (z : Zstd) (ty : MessageType) (id : ℕ) (raw front back : List ℕ) (b : ℕ)
    → id < 2 ^ 64
    → write_payload z ty id raw ≡ ok (front ++ (b ∷ back))
    → read_frame z front ≡ err io
read_frame_truncated z ty id raw front back b fits w =
    let (flags, p, known, small, e) = write_payload_shape z ty id raw w in
    elim (dec_lt (length front) header_len) [
      | yes short ↦ no_header z front short
      | no long ↦ cut_payload z flags ty id p front back b known small fits e (omega arith)
    ]
