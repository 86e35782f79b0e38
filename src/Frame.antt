-- ===== src/Frame.antt =====
-- crates/chatty-protocol/src/frame.rs: the 14-byte header shared by every message between the
-- client and the broker, and the two writers and readers of framed payloads.
pub mod RoundTrip
pub mod Bounds
pub mod Codec
mod Runs
pub use chatty.Common.Fallible.{Result, ok, err, ◌>>=◌, ◌>>◌, or_fail, fail_if, Result-cases}
use chatty.Common.{◌⊎◌, ◌<◌}
use chatty.Common.{
  ℕ, ◌+◌, ◌*◌, ◌≡◌, ◌≤◌, Bool, true, false, ◌||◌, not, Option, none, some, List, [], ◌∷◌, ◌++◌,
}
use chatty.Common.{
  refl, ◌⊎◌, inl, inr, leb, ltb, ◌==◌, if◌then◌else◌, length, take, drop, get_or, All,
}
use chatty.Common.Bytes.{IsByte, be_bytes, be_value, read_exact}
use Prim.Native.Nat.{bit_and}

abbrev pub header_len : ℕ
header_len = 14

abbrev pub max_payload : ℕ
max_payload = 8388608

abbrev pub compression_threshold : ℕ
compression_threshold = 256

abbrev pub flag_zstd : ℕ
flag_zstd = 1

pub data MessageType : Type 0 where
  handshake request response delta stream_chunk stream_end error cancel : MessageType

-- `ty as u8`
abbrev pub code : MessageType → ℕ
code handshake = 1
code request = 2
code response = 3
code delta = 4
code stream_chunk = 5
code stream_end = 6
code error = 7
code cancel = 8

-- The texts of `ProtocolError::Invalid`.
pub data Reason : Type 0 where
  unknown_message_type payload_too_large unknown_compression_flag : Reason
  decompressed_payload_too_large : Reason

pub data ProtocolError : Type 0 where
  io : ProtocolError
  invalid : Reason → ProtocolError
  codec : ProtocolError

-- `MessageType::try_from`
unfoldable pub try_from : ℕ → Result ProtocolError MessageType
try_from n =
    if n == 1
    then ok handshake
    else if n == 2
    then ok request
    else if n == 3
    then ok response
    else if n == 4
    then ok delta
    else if n == 5
    then ok stream_chunk
    else if n == 6
    then ok stream_end
    else if n == 7
    then ok error
    else if n == 8
    then ok cancel
    else err (invalid unknown_message_type)

pub record Frame : Type 0 where
  pub compressed : Bool
  pub message_type : MessageType
  pub request_id : ℕ
  pub payload : List ℕ

-- The zstd crate. `encode_all` fails with an I/O error. `decode n` reads at most `n` bytes of the
-- decoded stream to its end. `bulk_compress n` and `bulk_decompress n` work into a buffer of `n`
-- bytes, and fail if the output does not fit.
pub record Zstd : Type 0 where
  pub encode_all : List ℕ → Option (List ℕ)
  pub decode : ℕ → List ℕ → Option (List ℕ)
  pub bulk_compress : ℕ → List ℕ → Option (List ℕ)
  pub bulk_decompress : ℕ → List ℕ → Option (List ℕ)

-- The output of one of the two encoders for the bytes `raw`.
abbrev pub Encodes : Zstd → List ℕ → List ℕ → Type 0
Encodes z raw c = (z.encode_all raw ≡ some c) ⊎ ((m : ℕ) × (z.bulk_compress m raw ≡ some c))

-- What its documentation says of what the encoders make: the streaming decoder gives back what was
-- encoded, cut off at the limit of the reader; the bulk decoder gives it back when it fits into a
-- buffer that is not empty, and fails when it does not. Nothing is said of other inputs.
pub record IsZstd (z : Zstd) : Type 0 where
  pub decode-encode_all :
      (raw c : List ℕ) (n : ℕ) → z.encode_all raw ≡ some c → z.decode n c ≡ some (take n raw)
  pub decode-bulk_compress :
      (raw c : List ℕ) (m n : ℕ) → z.bulk_compress m raw ≡ some c → z.decode n c ≡ some (take n raw)
  pub bulk_decompress-fitting :
      (raw c : List ℕ) (m : ℕ)
      → Encodes z raw c
      → 0 < m
      → length raw ≤ m
      → z.bulk_decompress m c ≡ some raw
  pub bulk_decompress-overflow :
      (raw c : List ℕ) (m : ℕ) → Encodes z raw c → m < length raw → z.bulk_decompress m c ≡ none

-- `put_u32(len)`, `put_u8(flags)`, `put_u8(ty)`, `put_u64(request_id)`
unfoldable pub header : ℕ → ℕ → MessageType → ℕ → List ℕ
header len flags ty request_id = be_bytes 4 len ++ flags ∷ code ty ∷ be_bytes 8 request_id

abbrev pub must_compress : MessageType → Bool
must_compress stream_chunk = true
must_compress delta = true
must_compress _ = false

-- Whether a payload of this length is compressed.
unfoldable pub compresses : MessageType → ℕ → Bool
compresses ty n = must_compress ty || leb compression_threshold n

-- The part of `write_payload` behind the choice of the flags: what is written to the stream. Writing
-- itself is taken not to fail.
unfoldable pub framed : MessageType → ℕ → ℕ × List ℕ → Result ProtocolError (List ℕ)
framed ty request_id (flags, payload) = do
  fail_if (ltb max_payload (length payload)) (invalid payload_too_large)
  ok (header (length payload) flags ty request_id ++ payload)

unfoldable pub write_payload : Zstd → MessageType → ℕ → List ℕ → Result ProtocolError (List ℕ)
write_payload z ty request_id raw =
    if compresses ty (length raw)
    then (do c ← or_fail (z.encode_all raw) io; framed ty request_id (flag_zstd, c))
    else framed ty request_id (0, raw)

-- The fields of a header, and the checks on them.
pub record Head : Type 0 where
  pub len : ℕ
  pub flags : ℕ
  pub ty : MessageType
  pub id : ℕ

unfoldable pub parse_header : List ℕ → Result ProtocolError Head
parse_header h = do
  t ← try_from (get_or h 5 0)
  fail_if (ltb max_payload (be_value 0 (take 4 h))) (invalid payload_too_large)
  fail_if (not (bit_and (get_or h 4 0) 254 == 0)) (invalid unknown_compression_flag)
  ok (record {
    len = be_value 0 (take 4 h);
    flags = get_or h 4 0;
    ty = t;
    id = be_value 0 (drop 6 h);
  })

abbrev pub is_compressed : ℕ → Bool
is_compressed flags = not (bit_and flags flag_zstd == 0)

-- The streaming decoder behind `take(MAX_PAYLOAD + 1)`, and the check of its output.
unfoldable pub decompress : Zstd → List ℕ → Result ProtocolError (List ℕ)
decompress z c = do
  out ← or_fail (z.decode (max_payload + 1) c) io
  fail_if (ltb max_payload (length out)) (invalid decompressed_payload_too_large)
  ok out

abbrev pub frame_of : Head → List ℕ → Frame
frame_of h p = record {
  compressed = is_compressed h.flags;
  message_type = h.ty;
  request_id = h.id;
  payload = p;
}

-- `read_frame`: the frame, and what the stream holds after it.
unfoldable pub read_frame : Zstd → List ℕ → Result ProtocolError (Frame × List ℕ)
read_frame z s = do
  hs ← or_fail (read_exact header_len s) io
  h ← parse_header hs.0
  ps ← or_fail (read_exact h.len hs.1) io
  p ← if is_compressed h.flags then decompress z ps.0 else ok ps.0
  ok (frame_of h p, ps.1)
