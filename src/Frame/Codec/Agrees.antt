-- ===== src/Frame/Codec/Agrees.antt =====
-- The reader of a connection against `read_frame`, and the round trip through it.
use chatty.Common.{
  ℕ, ◌+◌, ◌≤◌, ◌<◌, ◌^◌, ◌≡◌, ◌∙◌, ap, refl, sym, Bool, true, false, Option, none, some, List, [],
  ◌++◌, append_assoc, if◌then◌else◌,
}
use chatty.Common.{length, take, arith, take_all, le→ltb, inl, inr, Bool-cases, Option-cases}
use chatty.Common.Bytes.{read_exact, read_exact-append_of}
use chatty.Common.Fallible.{Result-cases}
use mathlib.Core.Path.{subst}
use native.Mathlib.Nat.{le_refl}
use native.Mathlib.Decide.{dec_le}
use Prim.Native.Nat.{bit_and}
use chatty.Frame.{
  max_payload, header_len, flag_zstd, MessageType, ok, ◌>>=◌, or_fail, io, Head, header, framed,
  parse_header, is_compressed, frame_of, Frame, Result, ProtocolError, Zstd, Encodes, IsZstd,
  compresses, decompress, read_frame,
}
use chatty.Frame.RoundTrip.{
  read_frame-framed, framed-ok, length-header, parse_header-header, head_of,
}
use chatty.Frame.Codec.{
  bound, codec_write_payload, fill, to_result, first_guess, decompress_via, codec_read_frame,
}
use chatty.Frame.Codec.Chunks.{outcome, fill-read_exact}

to_result-outcome : (o : Option (List ℕ × List ℕ)) → to_result (outcome [] o) ≡ or_fail o io
to_result-outcome none = refl
to_result-outcome (some (xs, r)) = refl

decode-Encodes :
    (z : Zstd) (raw c : List ℕ) (n : ℕ)
    → IsZstd z
    → Encodes z raw c
    → z.decode n c ≡ some (take n raw)
decode-Encodes z raw c n good (inl e) = good.decode-encode_all raw c n e
decode-Encodes z raw c n good (inr (m, e)) = good.decode-bulk_compress raw c m n e

decompress-Encodes :
    (z : Zstd) (raw c : List ℕ)
    → IsZstd z
    → length raw ≤ max_payload
    → Encodes z raw c
    → decompress z c ≡ ok raw
unfolding decompress
decompress-Encodes z raw c good small h = rw (
  decode-Encodes z raw c (max_payload + 1) good h,
  take_all (max_payload + 1) raw (omega arith),
  le→ltb max_payload (length raw) small,
)

-- What an encoder made of some bytes.
abbrev pub IsEncoded : Zstd → List ℕ → Type 0
IsEncoded z c = (raw : List ℕ) × Encodes z raw c

-- On what an encoder made the guess only saves work.
decompress_via-decompress :
    (z : Zstd) (c : List ℕ) → IsZstd z → IsEncoded z c → decompress_via z c ≡ decompress z c
unfolding decompress_via
decompress_via-decompress z c good (raw, h) = elim (dec_le (length raw) (first_guess (length c))) [
  | yes guessed ↦
      rw
        (
          good.bulk_decompress-fitting raw c (first_guess (length c)) h (omega arith) guessed,
          decompress_via,
        )
        (sym (decompress-Encodes z raw c good (omega (arith, guessed)) h))
  | no short ↦ elim (dec_le (length raw) max_payload) [
    | yes small ↦
        rw
          (
            good.bulk_decompress-overflow raw c (first_guess (length c)) h (omega arith),
            good.bulk_decompress-fitting raw c max_payload h (omega arith) small,
            decompress_via,
          )
          (sym (decompress-Encodes z raw c good small h))
    | no large ↦ rw (
      good.bulk_decompress-overflow raw c (first_guess (length c)) h (omega arith),
      good.bulk_decompress-overflow raw c max_payload h (omega arith),
      decompress_via,
    )
  ]
]

fill-or_fail :
    (sizes : ℕ → ℕ) (m : ℕ) (s : List ℕ)
    → to_result (fill sizes m 0 m [] s) ≡ or_fail (read_exact m s) io
fill-or_fail sizes m s =
    ap to_result (fill-read_exact sizes m 0 m [] s (le_refl m)) ∙ to_result-outcome (read_exact m s)

-- A stream on which a whole payload behind a good header that says it is compressed is the output of
-- an encoder.
pub record HasEncoded (z : Zstd) (s : List ℕ) : Type 0 where
  pub encoded :
      (head after p rest : List ℕ) (h : Head)
      → read_exact header_len s ≡ some (head, after)
      → parse_header head ≡ ok h
      → read_exact h.len after ≡ some (p, rest)
      → is_compressed h.flags ≡ true
      → IsEncoded z p

payload_agrees :
    (z : Zstd) (b : Bool) (p : List ℕ)
    → IsZstd z
    → (b ≡ true → IsEncoded z p)
    → (if b then decompress_via z p else ok p) ≡ (if b then decompress z p else ok p)
payload_agrees z true p good made = decompress_via-decompress z p good (made refl)
payload_agrees z false p good made = refl

-- What a reader does behind the header, with the bytes of the payload at hand.
abbrev finish_with :
    (List ℕ → Result ProtocolError (List ℕ))
    → Head
    → List ℕ × List ℕ
    → Result ProtocolError (Frame × List ℕ)
finish_with decoder h ps = do
  p ← if is_compressed h.flags then decoder ps.0 else ok ps.0
  ok (frame_of h p, ps.1)

abbrev frame_after : Head → List ℕ → List ℕ → Result ProtocolError (Frame × List ℕ)
frame_after h rest payload = ok (frame_of h payload, rest)

-- The two readers behind a good header.
after_header :
    (z : Zstd) (sizes : ℕ → ℕ) (h : Head) (after : List ℕ)
    → IsZstd z
    → ((p rest : List ℕ)
        → read_exact h.len after ≡ some (p, rest)
        → is_compressed h.flags ≡ true
        → IsEncoded z p)
    → (to_result (fill sizes h.len 0 h.len [] after) >>= λ ps. finish_with (decompress_via z) h ps)
      ≡ (or_fail (read_exact h.len after) io >>= λ ps. finish_with (decompress z) h ps)
after_header z sizes h after good made =
    rw (fill-or_fail sizes h.len after) (elim (Option-cases (read_exact h.len after)) [
      | inl e ↦ rw e refl
      | inr ((p, rest), e) ↦ rw e (
          ap (λ q. q >>= frame_after h rest)
            (payload_agrees z (is_compressed h.flags) p good (made p rest e)))
    ])

pub codec_read_frame-read_frame :
    (z : Zstd) (sizes : ℕ → ℕ) (s : List ℕ)
    → IsZstd z
    → HasEncoded z s
    → codec_read_frame z sizes s ≡ read_frame z s
unfolding codec_read_frame read_frame
codec_read_frame-read_frame z sizes s good made = elim (Option-cases (read_exact header_len s)) [
  | inl e ↦ rw e refl
  | inr ((head, after), e) ↦ elim (Result-cases (parse_header head)) [
    | inr (h, f) ↦
        rw (e, f)
          (after_header z sizes h after good
            (λ p rest g more. made.encoded head after p rest h e f g more))
    | inl (x, f) ↦ rw (e, f) refl
  ]
]

-- A frame that is written is such a stream, whatever follows it.
framed-HasEncoded :
    (z : Zstd) (ty : MessageType) (id flags : ℕ) (p rest : List ℕ) {out : List ℕ}
    → bit_and flags 254 ≡ 0
    → id < 2 ^ 64
    → framed ty id (flags, p) ≡ ok out
    → (is_compressed flags ≡ true → IsEncoded z p)
    → HasEncoded z (out ++ rest)
framed-HasEncoded z ty id flags p rest {out} known fits w made =
    let (small, shape) = framed-ok ty id flags p w in
    let front : List ℕ = header (length p) flags ty id in
    let split : (out ++ rest) ≡ (front ++ (p ++ rest)) =
      ap (λ o. o ++ rest) shape ∙ append_assoc front p rest in
    let begins : read_exact header_len (out ++ rest) ≡ some (front, p ++ rest) =
      ap (read_exact header_len) split
      ∙ read_exact-append_of header_len front (p ++ rest) (length-header (length p) flags ty id) in
    let parsed = parse_header-header (length p) flags ty id small known fits in
    let whole : read_exact (length p) (p ++ rest) ≡ some (p, rest) =
      read_exact-append_of (length p) p rest refl in
    record {
      encoded = λ head after q r h e f g more.
          let same_head : front ≡ head = cc (begins, e) in
          let same_after : (p ++ rest) ≡ after = cc (begins, e) in
          let same_fields : head_of (length p) flags ty id ≡ h = cc (parsed, f, same_head) in
          let same_len : length p ≡ h.len = ap (λ k. k.len) same_fields in
          let same_flags : flags ≡ h.flags = ap (λ k. k.flags) same_fields in
          let same_payload : p ≡ q = cc (whole, g, same_len, same_after) in
          subst (IsEncoded z) same_payload (made (ap is_compressed same_flags ∙ more));
    }

-- What the writer of one connection sends, the reader of another gives back, whatever portions the
-- transport delivers it in: type, request id, payload and compression, with the rest of the stream
-- left alone, for a payload within the limit and a decoder that gives back what the encoder was
-- given.
pub codec_read_frame-codec_write_payload :
    (z : Zstd) (sizes : ℕ → ℕ) (ty : MessageType) (id : ℕ) (raw out rest : List ℕ)
    → IsZstd z
    → id < 2 ^ 64
    → length raw ≤ max_payload
    → codec_write_payload z ty id raw ≡ ok out
    → codec_read_frame z sizes (out ++ rest)
      ≡ ok (
        record {
          compressed = compresses ty (length raw);
          message_type = ty;
          request_id = id;
          payload = raw;
        },
        rest,
      )
unfolding codec_write_payload
codec_read_frame-codec_write_payload z sizes ty id raw out rest good fits small w =
    elim (Bool-cases (compresses ty (length raw))) [
      | inl more ↦ elim (Option-cases (z.bulk_compress (bound (length raw)) raw)) [
        | inl e ↦ absurd (cc (rw (more, e) at w))
        | inr (c, e) ↦
            let sent : framed ty id (flag_zstd, c) ≡ ok out = rw (more, e) at w in
            let made : Encodes z raw c = inr (bound (length raw), e) in
            rw more (
              codec_read_frame-read_frame z sizes (out ++ rest) good
                (framed-HasEncoded z ty id flag_zstd c rest refl fits sent (λ _. (raw, made)))
              ∙ read_frame-framed z ty id flag_zstd c rest refl fits sent
              ∙ rw (decompress-Encodes z raw c good small made))
      ]
      | inr less ↦
          let sent : framed ty id (0, raw) ≡ ok out = rw less at w in
          rw less (
            codec_read_frame-read_frame z sizes (out ++ rest) good
              (framed-HasEncoded z ty id 0 raw rest refl fits sent (λ plain. absurd (cc plain)))
            ∙ read_frame-framed z ty id 0 raw rest refl fits sent)
    ]
