-- ===== src/Frame/Runs.antt =====
-- A concrete compressor that meets the assumptions, and the theorems on frames that it makes.
use chatty.Common.{
  ℕ, ◌≡◌, refl, true, Option, none, some, List, [], ◌∷◌, ◌++◌, inl, inr, le→leb, lt→leb,
}
use chatty.Common.{length, take, arith, leb, if◌then◌else◌, ◌==◌}
use chatty.Common.Bytes.{be_bytes, be_value, read_exact}
use chatty.Frame.{
  stream_chunk, ok, err, io, Frame, Zstd, Encodes, IsZstd, write_payload, read_frame, compresses,
  framed, header, parse_header, try_from,
}
use chatty.Frame.RoundTrip.{read_frame-write_payload}
use chatty.Frame.Bounds.{Takes, read_frame_bounded, read_frame_truncated}
use chatty.Frame.Codec.{codec_write_payload, codec_read_frame, fill, decompress_via}
use chatty.Frame.Codec.Agrees.{codec_read_frame-codec_write_payload}

-- A marker byte in front of the bytes as they are.
unmark : List ℕ → Option (List ℕ)
unmark [] = none
unmark (b ∷ c) = if b == 40 then some c else none

abbrev limited : (List ℕ → ℕ) → ℕ → Option (List ℕ) → Option (List ℕ)
limited size m none = none
limited size m (some xs) = if leb (size xs) m then some xs else none

abbrev cut_to : ℕ → Option (List ℕ) → Option (List ℕ)
cut_to n none = none
cut_to n (some xs) = some (take n xs)

abbrev marking : Zstd
marking = record {
  encode_all = λ raw. some (40 ∷ raw);
  decode = λ n c. cut_to n (unmark c);
  bulk_compress = λ m raw. limited length m (some (40 ∷ raw));
  bulk_decompress = λ m c. limited length m (unmark c);
}

decode-encode :
    (raw c : List ℕ) (n : ℕ) → some (40 ∷ raw) ≡ some c → cut_to n (unmark c) ≡ some (take n raw)
unfolding unmark
decode-encode raw c n e = let p : 40 ∷ raw ≡ c = cc in rw (← p)

decode-bulk :
    (raw c : List ℕ) (m n : ℕ)
    → limited length m (some (40 ∷ raw)) ≡ some c
    → cut_to n (unmark c) ≡ some (take n raw)
decode-bulk raw c m n e = decode-encode raw c n (ground arith)

unmarked : (raw c : List ℕ) → Encodes marking raw c → unmark c ≡ some raw
unfolding unmark
unmarked raw c (inl e) = let p : 40 ∷ raw ≡ c = cc e in rw (← p) refl
unmarked raw c (inr (m, e)) = let p : 40 ∷ raw ≡ c = ground (arith, e) in rw (← p) refl

marking-IsZstd : IsZstd marking
marking-IsZstd = record {
  decode-encode_all = decode-encode;
  decode-bulk_compress = decode-bulk;
  bulk_decompress-fitting =
      λ raw c m e room fits. rw (unmarked raw c e, le→leb (length raw) m fits) refl;
  bulk_decompress-overflow =
      λ raw c m e over. rw (unmarked raw c e, lt→leb (length raw) m over) refl;
}

-- The frame of a stream chunk with the payload 1, 2 and the request id 7.
abbrev chunk_frame : List ℕ
chunk_frame = 0 ∷ 0 ∷ 0 ∷ 3 ∷ 1 ∷ 5 ∷ 0 ∷ 0 ∷ 0 ∷ 0 ∷ 0 ∷ 0 ∷ 0 ∷ 7 ∷ 40 ∷ 1 ∷ 2 ∷ []

chunk_written : write_payload marking stream_chunk 7 (1 ∷ 2 ∷ []) ≡ ok chunk_frame
unfolding write_payload compresses framed header be_bytes
chunk_written = refl

chunk_codec_written : codec_write_payload marking stream_chunk 7 (1 ∷ 2 ∷ []) ≡ ok chunk_frame
unfolding codec_write_payload compresses framed header be_bytes
chunk_codec_written = refl

abbrev chunk_read : Frame
chunk_read = record {
  compressed = true;
  message_type = stream_chunk;
  request_id = 7;
  payload = 1 ∷ 2 ∷ [];
}

chunk_codec_read :
    codec_read_frame marking (λ _. 0) (chunk_frame ++ 9 ∷ []) ≡ ok (chunk_read, 9 ∷ [])
unfolding codec_read_frame parse_header try_from be_value read_exact fill unmark decompress_via
chunk_codec_read = refl

read_frame-write_payload_example :
    read_frame marking (chunk_frame ++ 9 ∷ []) ≡ ok (chunk_read, 9 ∷ [])
unfolding compresses
read_frame-write_payload_example =
    read_frame-write_payload marking stream_chunk 7 (1 ∷ 2 ∷ []) chunk_frame (9 ∷ []) marking-IsZstd
      (omega arith) (omega arith) chunk_written

read_frame_bounded_example : Takes (chunk_frame ++ 9 ∷ []) chunk_read (9 ∷ [])
read_frame_bounded_example =
    read_frame_bounded marking (chunk_frame ++ 9 ∷ []) (9 ∷ []) read_frame-write_payload_example

read_frame_truncated_example :
    read_frame marking (0 ∷ 0 ∷ 0 ∷ 3 ∷ 1 ∷ 5 ∷ 0 ∷ 0 ∷ 0 ∷ 0 ∷ 0 ∷ 0 ∷ 0 ∷ 7 ∷ 40 ∷ []) ≡ err io
read_frame_truncated_example =
    read_frame_truncated marking stream_chunk 7 (1 ∷ 2 ∷ [])
      (0 ∷ 0 ∷ 0 ∷ 3 ∷ 1 ∷ 5 ∷ 0 ∷ 0 ∷ 0 ∷ 0 ∷ 0 ∷ 0 ∷ 0 ∷ 7 ∷ 40 ∷ []) (2 ∷ []) 1 (omega arith)
      chunk_written

codec_round_trip_example :
    codec_read_frame marking (λ round. round) (chunk_frame ++ 9 ∷ []) ≡ ok (chunk_read, 9 ∷ [])
unfolding compresses
codec_round_trip_example =
    codec_read_frame-codec_write_payload marking (λ round. round) stream_chunk 7 (1 ∷ 2 ∷ [])
      chunk_frame (9 ∷ []) marking-IsZstd (omega arith) (omega arith) chunk_codec_written
