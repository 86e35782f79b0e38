-- ===== src/Frame/RoundTrip.antt =====
-- What the reader makes of what the writer wrote, and what it accepts at all.
use chatty.Common.{ℕ, ◌+◌, ◌^◌, ◌≡◌, ◌≤◌, ◌<◌, ◌∙◌, refl, some}
use chatty.Common.{List, ◌++◌, arith, append_assoc, le→ltb, inl, inr, Bool-cases, Option-cases}
use chatty.Common.{if◌then◌else◌, length, take, drop, get_or, take_all}
use chatty.Common.Bytes.{be_bytes, be_value-be_bytes, read_exact-append_of}
use Prim.Native.Nat.{bit_and}
use chatty.Frame.{
  ProtocolError, header_len, max_payload, flag_zstd, MessageType, code, Result, ok, ◌>>=◌, try_from,
  Frame, Zstd, IsZstd, header, compresses, framed, write_payload, Head, parse_header, is_compressed,
  decompress, frame_of, read_frame,
}

try_from-code : (ty : MessageType) → try_from (code ty) ≡ ok ty
unfolding try_from
try_from-code MessageType.handshake = refl
try_from-code _ = refl

module _ (len flags : ℕ) (ty : MessageType) (id : ℕ) where
  len_field : take 4 (header len flags ty id) ≡ be_bytes 4 len
  unfolding header be_bytes
  len_field = refl

  flags_field : get_or (header len flags ty id) 4 0 ≡ flags
  unfolding header be_bytes
  flags_field = refl

  type_field : get_or (header len flags ty id) 5 0 ≡ code ty
  unfolding header be_bytes
  type_field = refl

  id_field : drop 6 (header len flags ty id) ≡ be_bytes 8 id
  unfolding header be_bytes
  id_field = refl

  pub length-header : length (header len flags ty id) ≡ header_len
  unfolding header be_bytes
  length-header = refl

  -- The checks pass on a header that the writer made.
  pub parse_header-header :
      len ≤ max_payload
      → bit_and flags 254 ≡ 0
      → id < 2 ^ 64
      → parse_header (header len flags ty id)
        ≡ ok (record { len = len; flags = flags; ty = ty; id = id })
  unfolding parse_header
  parse_header-header small known fits = rw (
    type_field,
    try_from-code ty,
    len_field,
    be_value-be_bytes 4 len (omega arith),
    flags_field,
    id_field,
    be_value-be_bytes 8 id fits,
    le→ltb max_payload len small,
    known,
  )

-- What the reader does behind the header, with the bytes of the payload at hand.
abbrev pub finish : Zstd → Head → List ℕ → List ℕ → Result ProtocolError (Frame × List ℕ)
finish z h p rest = do
  q ← if is_compressed h.flags then decompress z p else ok p
  ok (frame_of h q, rest)

abbrev pub head_of : ℕ → ℕ → MessageType → ℕ → Head
head_of len flags ty id = record { len = len; flags = flags; ty = ty; id = id }

-- The reader takes a frame off the stream and leaves what follows it.
read_frame-header :
    (z : Zstd) (flags : ℕ) (ty : MessageType) (id : ℕ) (p rest : List ℕ)
    → length p ≤ max_payload
    → bit_and flags 254 ≡ 0
    → id < 2 ^ 64
    → read_frame z ((header (length p) flags ty id ++ p) ++ rest)
      ≡ finish z (head_of (length p) flags ty id) p rest
unfolding read_frame
read_frame-header z flags ty id p rest small known fits = rw (
  append_assoc (header (length p) flags ty id) p rest,
  read_exact-append_of header_len (header (length p) flags ty id) (p ++ rest)
      (length-header (length p) flags ty id),
  parse_header-header (length p) flags ty id small known fits,
  read_exact-append_of (length p) p rest refl,
)

pub framed-ok :
    (ty : MessageType) (id flags : ℕ) (p : List ℕ) {out : List ℕ}
    → framed ty id (flags, p) ≡ ok out
    → (length p ≤ max_payload) × (out ≡ header (length p) flags ty id ++ p)
unfolding framed
framed-ok ty id flags p h = ground arith

-- What the decoder makes of an encoded payload that is not too large.
pub decompress-encode_all :
    (z : Zstd) (raw c : List ℕ)
    → IsZstd z
    → length raw ≤ max_payload
    → z.encode_all raw ≡ some c
    → decompress z c ≡ ok raw
unfolding decompress
decompress-encode_all z raw c good small h = rw (
  good.decode-encode_all raw c (max_payload + 1) h,
  take_all (max_payload + 1) raw (omega arith),
  le→ltb max_payload (length raw) small,
)

pub read_frame-framed :
    (z : Zstd) (ty : MessageType) (id flags : ℕ) (p rest : List ℕ) {out : List ℕ}
    → bit_and flags 254 ≡ 0
    → id < 2 ^ 64
    → framed ty id (flags, p) ≡ ok out
    → read_frame z (out ++ rest) ≡ finish z (head_of (length p) flags ty id) p rest
read_frame-framed z ty id flags p rest known fits w =
    let (small, e) = framed-ok ty id flags p w in
    rw e (read_frame-header z flags ty id p rest small known fits)

-- The wire form of a frame: the header of its payload, with flags that the reader knows.
pub write_payload_shape :
    (z : Zstd) (ty : MessageType) (id : ℕ) (raw : List ℕ) {out : List ℕ}
    → write_payload z ty id raw ≡ ok out
    → (flags : ℕ) × (p : List ℕ) × (bit_and flags 254 ≡ 0)
      × (length p ≤ max_payload)
      × (out ≡ header (length p) flags ty id ++ p)
unfolding write_payload
write_payload_shape z ty id raw w = elim (Bool-cases (compresses ty (length raw))) [
  | inl more ↦ elim (Option-cases (z.encode_all raw)) [
    | inl e ↦ absurd (cc (rw (more, e) at w))
    | inr (c, e) ↦
        let (small, q) = framed-ok ty id flag_zstd c (rw (more, e) at w) in
        (flag_zstd, c, refl, small, q)
  ]
  | inr less ↦ let (small, q) = framed-ok ty id 0 raw (rw less at w) in (0, raw, refl, small, q)
]

-- Reading back a frame that the writer wrote, with a decoder that gives back what the
-- encoder was given and a payload within the limit, gives the message's type, request id and payload, says whether it was
-- compressed, and leaves the rest of the stream as it was.
pub read_frame-write_payload :
    (z : Zstd) (ty : MessageType) (id : ℕ) (raw out rest : List ℕ)
    → IsZstd z
    → id < 2 ^ 64
    → length raw ≤ max_payload
    → write_payload z ty id raw ≡ ok out
    → read_frame z (out ++ rest)
      ≡ ok (
        record {
          compressed = compresses ty (length raw);
          message_type = ty;
          request_id = id;
          payload = raw;
        },
        rest,
      )
unfolding write_payload
read_frame-write_payload z ty id raw out rest good fits small w =
    elim (Bool-cases (compresses ty (length raw))) [
      | inl more ↦ elim (Option-cases (z.encode_all raw)) [
        | inl e ↦ absurd (cc (rw (more, e) at w))
        | inr (c, e) ↦ rw more (
            read_frame-framed z ty id flag_zstd c rest refl fits (rw (more, e) at w)
            ∙ rw (decompress-encode_all z raw c good small e))
      ]
      | inr less ↦ rw less (read_frame-framed z ty id 0 raw rest refl fits (rw less at w))
    ]
