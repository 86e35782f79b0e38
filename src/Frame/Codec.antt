-- ===== src/Frame/Codec.antt =====
-- `ProtocolCodec`: the writer and the reader of a connection, with reused buffers and the bulk
-- interface of zstd, and the loop that reads a payload as the transport delivers it.
pub mod Chunks
pub mod Agrees
use chatty.Common.{
  ℕ, zero, suc, ◌+◌, ◌-◌, ◌*◌, ◌/◌, ◌^◌, min, Option, none, some, List, [], ◌∷◌, ◌++◌,
}
use chatty.Common.{if◌then◌else◌, length, take, drop}
use Prim.Native.Nat.{max}
use chatty.Common.Bytes.{read_exact}
use chatty.Frame.{
  ProtocolError, header_len, max_payload, compression_threshold, flag_zstd, MessageType, Result, ok,
  err, ◌>>=◌, or_fail, io, codec, Frame, Zstd, compresses, framed, Head, parse_header,
  is_compressed, decompress, frame_of,
}

-- The room for compressed output: `len + len / 8 + COMPRESS_BOUND_SLACK`.
abbrev pub bound : ℕ → ℕ
bound n = n + n / 8 + 1024

-- `ProtocolCodec::write_payload`
unfoldable pub codec_write_payload : Zstd → MessageType → ℕ → List ℕ → Result ProtocolError (List ℕ)
codec_write_payload z ty request_id raw =
    if compresses ty (length raw)
    then (do
      c ← or_fail (z.bulk_compress (bound (length raw)) raw) codec
      framed ty request_id (flag_zstd, c))
    else framed ty request_id (0, raw)

-- The loop over `read_buf`: `sizes` says how much the transport has at hand in each round, one byte
-- at least, and the reader takes no more than `remaining`. The fuel is the number of bytes wanted.
pub data Filled : Type 0 where
  filled : List ℕ → List ℕ → Filled
  eof : Filled
  out_of_fuel : Filled

abbrev pub chunk : ℕ → ℕ → List ℕ → ℕ
chunk remaining size s = min remaining (min (suc size) (length s))

unfoldable pub fill : (ℕ → ℕ) → ℕ → ℕ → ℕ → List ℕ → List ℕ → Filled
fill sizes fuel round zero got s = filled got s
fill sizes zero round (suc m) got s = out_of_fuel
fill sizes (suc fuel) round (suc m) got [] = eof
fill sizes (suc fuel) round (suc m) got (b ∷ s) =
    let n = chunk (suc m) (sizes round) (b ∷ s) in
    fill sizes fuel (round + 1) (suc m - n) (got ++ take n (b ∷ s)) (drop n (b ∷ s))

abbrev pub to_result : Filled → Result ProtocolError (List ℕ × List ℕ)
to_result (filled got s) = ok (got, s)
to_result eof = err io
to_result out_of_fuel = err codec

-- `saturating_mul(6)`, clamped between the threshold and the limit
abbrev pub first_guess : ℕ → ℕ
first_guess n = min (max (min (n * 6) (2 ^ 64 - 1)) compression_threshold) max_payload

-- A buffer of the guessed size, then one of the largest size, then the streaming decoder.
unfoldable pub decompress_via : Zstd → List ℕ → Result ProtocolError (List ℕ)
decompress_via z src = elim (z.bulk_decompress (first_guess (length src)) src) [
  | some out ↦ ok out
  | none ↦ elim (z.bulk_decompress max_payload src) [ some out ↦ ok out | none ↦ decompress z src ]
]

-- `ProtocolCodec::read_frame`
unfoldable pub codec_read_frame : Zstd → (ℕ → ℕ) → List ℕ → Result ProtocolError (Frame × List ℕ)
codec_read_frame z sizes s = do
  hs ← or_fail (read_exact header_len s) io
  h ← parse_header hs.0
  ps ← to_result (fill sizes h.len 0 h.len [] hs.1)
  p ← if is_compressed h.flags then decompress_via z ps.0 else ok ps.0
  ok (frame_of h p, ps.1)
