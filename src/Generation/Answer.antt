-- ===== src/Generation/Answer.antt =====
-- What a request is answered with, and what the model is fed for it.
use chatty.Common.{
  ℕ, suc, ◌+◌, ◌≤◌, ◌≡◌, refl, sym, ◌∙◌, ap, ◌||◌, Option, none, some, List, [], ◌∷◌, ◌++◌, length,
  ltb, ◌==◌, inl, inr, arith, Bool-cases,
}
use mathlib.Core.Path.{subst}
use chatty.Common.Fallible.{fail_if_passed}
use chatty.Tokenizer
use chatty.Generation.Fed.{AreChunks, IsSent, Ends, Feeds, prefill-Feeds, decode_loop-Ends}
use chatty.Generation.{
  Env, Run, Event, ErrorCode, invalid_request, context_exceeded, text_chunk, done, error, Ending,
  finished, failed, gone, Tokenizer, Pattern, Generate, Invalid, Result, ok, err, empty_prompt,
  many_pieces, large_prompt, bad_max_tokens, text_bytes, max_prompt_bytes, max_prompt_pieces,
  max_output_tokens, context, validate, close, decode_from, some_id, special, marker_name,
  thought_end, end_of_sentence, answer, refuse, begin, prefill, decode_loop, generate_ids,
  generate_valid, generate, prompt_ids,
}

-- Chunks numbered from `n` on, then one last event at most; the tokens that it counts are within the
-- request and, with the prompt, within the context.
abbrev pub IsAnswer : ℕ → ℕ → List Event → Type 0
IsAnswer max_tokens n [] = Unit {0}
IsAnswer max_tokens n (text_chunk sequence text reasoning ∷ events) =
    (sequence ≡ n) × IsAnswer max_tokens (suc n) events
IsAnswer max_tokens n (done reason prompt_tokens completion ∷ events) =
    (completion ≤ max_tokens) × (prompt_tokens + completion ≤ context) × (events ≡ [])
IsAnswer max_tokens n (error code ∷ events) = events ≡ []

AreChunks-IsAnswer :
    (max_tokens n : ℕ) (events last : List Event)
    → AreChunks n events
    → ((k : ℕ) → IsAnswer max_tokens k last)
    → IsAnswer max_tokens n (events ++ last)
AreChunks-IsAnswer max_tokens n [] last chunks ends = ends n
AreChunks-IsAnswer max_tokens n (text_chunk s text b ∷ events) last (here, chunks) ends =
    (here, AreChunks-IsAnswer max_tokens (suc n) events last chunks ends)
AreChunks-IsAnswer max_tokens n (done f p c ∷ events) last chunks ends = elim chunks [ ]
AreChunks-IsAnswer max_tokens n (error code ∷ events) last chunks ends = elim chunks [ ]

AreChunks-alone :
    (max_tokens n : ℕ) (events : List Event) → AreChunks n events → IsAnswer max_tokens n events
AreChunks-alone max_tokens n [] chunks = tt
AreChunks-alone max_tokens n (text_chunk s text b ∷ events) (here, chunks) =
    (here, AreChunks-alone max_tokens (suc n) events chunks)
AreChunks-alone max_tokens n (done f p c ∷ events) chunks = elim chunks [ ]
AreChunks-alone max_tokens n (error code ∷ events) chunks = elim chunks [ ]

validate_max_tokens : (request : Generate) → validate request ≡ ok tt → request.max_tokens ≤ 32768
unfolding validate
validate_max_tokens r h =
    let (_, h1) = fail_if_passed (length r.prompt == 0) empty_prompt _ h in
    let (_, h2) = fail_if_passed (ltb max_prompt_pieces (length r.prompt)) many_pieces _ h1 in
    let (_, h3) = fail_if_passed (ltb max_prompt_bytes (text_bytes 0 r.prompt)) large_prompt _ h2 in
    let (fits, _) =
      fail_if_passed (r.max_tokens == 0 || ltb max_output_tokens r.max_tokens) bad_max_tokens _
        h3 in
    ground (arith, fits)

module _ {M L : Type 0} (env : Env M L) where
  abbrev pub IsServed : ℕ → Run M L → Type 0
  IsServed max_tokens r = IsAnswer max_tokens 0 r.events × (length r.fed ≤ context)

  close-IsServed :
      (max_tokens prompt_tokens : ℕ) (z : Run M L × Ending)
      → prompt_tokens + max_tokens ≤ context
      → Ends env max_tokens prompt_tokens z
      → IsServed max_tokens (close env prompt_tokens z)
  close-IsServed max_tokens prompt_tokens (r, finished reason) fits (sent, few, fed) = (
    AreChunks-IsAnswer max_tokens 0 r.events _ sent.chunks
        (λ k. (few, omega (arith, few, fits), refl)),
    omega (arith, fed, fits),
  )
  close-IsServed max_tokens prompt_tokens (r, failed) fits (sent, few, fed) =
      (AreChunks-IsAnswer max_tokens 0 r.events _ sent.chunks (λ k. refl), omega (arith, fed, fits))
  close-IsServed max_tokens prompt_tokens (r, gone) fits (sent, few, fed) =
      (AreChunks-alone max_tokens 0 r.events sent.chunks, omega (arith, fed, fits))

  refuse-IsServed :
      (max_tokens : ℕ) (model : M) (code : ErrorCode) → IsServed max_tokens (refuse env model code)
  refuse-IsServed max_tokens model code = (refl, omega arith)

  prompt_fed :
      (max_tokens : ℕ) (ids : List ℕ) (first r : Run M L)
      → first.events ≡ []
      → first.sequence ≡ 0
      → first.completion ≡ 0
      → first.fed ≡ []
      → Feeds env (length ids) first r
      → IsSent env r.completion r × (r.completion ≡ 0) × (length r.fed ≤ length ids)
  prompt_fed max_tokens ids first r no_events at_zero none_yet unfed (ee, es, ec, ef) =
      let blank : r.events ≡ [] = ee ∙ no_events in
      (
        record {
          chunks = subst (AreChunks 0) (sym blank) tt;
          counted = es ∙ at_zero ∙ ap length (sym blank);
          few = omega (arith, ap length blank);
        },
        ec ∙ none_yet,
        omega (arith, ef, ap length unfed),
      )

  answer-IsServed :
      (t : Tokenizer) (max_tokens : ℕ) (ids : List ℕ) (z : Run M L × Option Ending)
      → max_tokens ≤ 32768
      → length ids + max_tokens ≤ context
      → IsSent env z.0.completion z.0
      → z.0.completion ≡ 0
      → length z.0.fed ≤ length ids
      → IsServed max_tokens (answer env t max_tokens ids z)
  answer-IsServed t max_tokens ids (r, some ending) le fits sent zero_yet fed =
      close-IsServed max_tokens (length ids) (r, ending) fits
        (
          record {
            chunks = sent.chunks;
            counted = sent.counted;
            few = omega (arith, sent.few, zero_yet);
          },
          omega (arith, zero_yet),
          omega (arith, fed),
        )
  answer-IsServed t max_tokens ids (r, none) le fits sent zero_yet fed =
      decoded (special t (marker_name end_of_sentence))
    where
      decoded :
          (found : Result Tokenizer.Error ℕ)
          → IsServed max_tokens (decode_from env t max_tokens ids r found)
      decoded (err reason) =
          close-IsServed max_tokens (length ids) (r, failed) fits
            (
              record {
                chunks = sent.chunks;
                counted = sent.counted;
                few = omega (arith, sent.few, zero_yet);
              },
              omega (arith, zero_yet),
              omega (arith, fed),
            )
      decoded (ok stop) =
          let think_end = some_id (special t (marker_name thought_end)) in
          close-IsServed max_tokens (length ids)
            (decode_loop env t stop think_end max_tokens max_tokens r) fits
            (decode_loop-Ends env t stop think_end max_tokens (length ids) max_tokens r
              (omega (arith, zero_yet)) le sent (omega (arith, fed)))

  generate_ids-IsServed :
      (t : Tokenizer) (model : M) (request : Generate) (found : Result Tokenizer.Error (List ℕ))
      → request.max_tokens ≤ 32768
      → IsServed request.max_tokens (generate_ids env t model request found)
  generate_ids-IsServed t model request (err reason) le =
      refuse-IsServed request.max_tokens model invalid_request
  generate_ids-IsServed t model request (ok ids) le =
      elim (Bool-cases (ltb context (length ids + request.max_tokens))) [
        | inl over ↦ rw over (refuse-IsServed request.max_tokens model context_exceeded)
        | inr fits ↦
            let first = begin env model request in
            let (sent, zero_yet, fed) =
              prompt_fed request.max_tokens ids first (prefill env (length ids) ids first).0 refl
                refl refl refl (prefill-Feeds env (length ids) ids first) in
            let room : length ids + request.max_tokens ≤ context = ground (arith, fits) in
            rw fits (
              answer-IsServed t request.max_tokens ids (prefill env (length ids) ids first) le room
                sent zero_yet fed)
      ]

  -- Whatever the model, the sampling and the client do, and whatever is asked: the worker answers with
  -- chunks that are numbered without a gap from 0 on and one last event at most, with nothing after it;
  -- a last event that reports success counts no more tokens than the request allows, and no more with
  -- the prompt than the context holds; and the model is never fed more tokens than the context holds.
  pub generate-IsServed :
      (t : Tokenizer) (patterns : List Pattern) (model : M) (request : Generate)
      → IsServed request.max_tokens (generate env t patterns model request)
  unfolding generate
  generate-IsServed t patterns model request =
      valid (validate request) (validate_max_tokens request)
    where
      valid :
          (checked : Result Invalid (Unit {0}))
          → (checked ≡ ok tt → request.max_tokens ≤ 32768)
          → IsServed request.max_tokens (generate_valid env t patterns model request checked)
      valid (err reason) le = refuse-IsServed request.max_tokens model invalid_request
      valid (ok passed) le =
          generate_ids-IsServed t model request (prompt_ids t patterns request.prompt) (le refl)
