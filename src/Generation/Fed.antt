-- ===== src/Generation/Fed.antt =====
-- What a round of the worker does to the events and to the count of tokens.
use chatty.Common.{
  ℕ, zero, suc, ◌+◌, ◌≤◌, ◌<◌, ◌≡◌, refl, sym, ◌∙◌, ap, Bool, true, false, not, Option, none, some,
  List, [], ◌∷◌, ◌++◌, length, length-append, take, drop, if_both, ltb, leb, ◌==◌, arith,
}
use mathlib.Core.Path.{subst}
use chatty.Tokenizer.{token_bytes}
use chatty.Generation.{
  Env, Run, Event, text_chunk, done, error, Ending, finished, gone, Tokenizer, feed, after_forward,
  look, is_cancelled, prefill, send_chunk, think, speak, reported, emit, drawn, decode_loop,
  max_chunk, was_cancelled, end_of_text,
}

-- Chunks, numbered from `n` on.
abbrev pub AreChunks : ℕ → List Event → Type 0
AreChunks n [] = Unit {0}
AreChunks n (text_chunk sequence text reasoning ∷ events) =
    (sequence ≡ n) × AreChunks (suc n) events
AreChunks n (done reason p c ∷ events) = ⊥
AreChunks n (error code ∷ events) = ⊥

AreChunks-last :
    (n k : ℕ) (events : List Event) (text : List ℕ) (reasoning : Bool)
    → AreChunks n events
    → k ≡ n + length events
    → AreChunks n (events ++ (text_chunk k text reasoning ∷ []))
AreChunks-last n k [] text reasoning all e = (omega (arith, e), tt)
AreChunks-last n k (text_chunk s u b ∷ events) text reasoning (here, all) e =
    (here, AreChunks-last (suc n) k events text reasoning all (omega (arith, e)))
AreChunks-last n k (done f p c ∷ events) text reasoning all e = elim all [ ]
AreChunks-last n k (error code ∷ events) text reasoning all e = elim all [ ]

module _ {M L : Type 0} (env : Env M L) where
  pub record IsSent (n : ℕ) (r : Run M L) : Type 0 where
    pub chunks : AreChunks 0 r.events
    pub counted : r.sequence ≡ length r.events
    pub few : length r.events ≤ n

  abbrev pub Sends : ℕ → Run M L → Run M L × Bool → Type 0
  Sends n r z = IsSent (suc n) z.0 × (z.0.completion ≡ r.completion) × (z.0.fed ≡ r.fed)

  none_sent : (n : ℕ) (r : Run M L) (alive : Bool) → IsSent n r → Sends n r (r, alive)
  none_sent n r alive h =
      (record { chunks = h.chunks; counted = h.counted; few = omega (arith, h.few) }, refl, refl)

  send_chunk-Sends :
      (n : ℕ) (text : List ℕ) (reasoning : Bool) (r : Run M L)
      → n < 65536
      → IsSent n r
      → Sends n r (send_chunk env text reasoning r)
  send_chunk-Sends n text reasoning r small h =
      let long = length-append r.events (text_chunk r.sequence text reasoning ∷ []) in
      if_both (Sends n r) (env.receives (length r.events)) _ _
        (
          record {
            chunks =
                AreChunks-last 0 r.sequence r.events text reasoning h.chunks
                  (omega (arith, h.counted));
            counted = omega (arith, h.counted, h.few, small, long);
            few = omega (arith, h.few, long);
          },
          refl,
          refl,
        )
        (none_sent n r false h)

  think-Sends :
      (n : ℕ) (think_end : Option ℕ) (next : ℕ) (r : Run M L)
      → n < 65536
      → IsSent n r
      → Sends n r (think env think_end next r)
  think-Sends n think_end next r small h =
      let (sent, count, fed) =
        if_both (Sends n r) r.thinking_reported (r, true) (reported env (send_chunk env [] true r))
          (none_sent n r true h)
          (report (send_chunk env [] true r) (send_chunk-Sends n [] true r small h)) in
      (record { chunks = sent.chunks; counted = sent.counted; few = sent.few }, count, fed)
    where
      report : (z : Run M L × Bool) → Sends n r z → Sends n r (reported env z)
      report z (sent, count, fed) =
          (record { chunks = sent.chunks; counted = sent.counted; few = sent.few }, count, fed)

  pub emit-Sends :
      (n : ℕ) (t : Tokenizer) (think_end : Option ℕ) (next : ℕ) (r : Run M L)
      → n < 65536
      → IsSent n r
      → Sends n r (emit env t think_end next r)
  emit-Sends n t think_end next r small h =
      let bytes = r.pending ++ token_bytes t next in
      let valid = env.valid_up_to bytes in
      let waiting : Run M L = record r { pending = bytes } in
      let held : Run M L = record r { pending = drop valid bytes } in
      let kept : IsSent n held = record { chunks = h.chunks; counted = h.counted; few = h.few } in
      let same : IsSent n waiting = record {
        chunks = h.chunks;
        counted = h.counted;
        few = h.few;
      } in
      if_both (Sends n r) r.in_thinking (think env think_end next r)
        (speak env (token_bytes t next) r) (think-Sends n think_end next r small h)
        (if_both (Sends n r) (ltb 0 valid) (send_chunk env (take valid bytes) false held)
          (waiting, true) (send_chunk-Sends n (take valid bytes) false held small kept)
          (none_sent n waiting true same))

  feed_same :
      (r : Run M L) (ids : List ℕ) (o : M × Option L)
      → ((after_forward env r ids o).0.fed ≡ r.fed ++ ids)
        × ((after_forward env r ids o).0.events ≡ r.events)
        × ((after_forward env r ids o).0.sequence ≡ r.sequence)
        × ((after_forward env r ids o).0.completion ≡ r.completion)
  feed_same r ids (model, none) = (refl, refl, refl, refl)
  feed_same r ids (model, some logits) = (refl, refl, refl, refl)

  length-take : (n : ℕ) (ids : List ℕ) → length (take n ids) + length (drop n ids) ≡ length ids
  length-take zero ids = omega arith
  length-take (suc n) [] = omega arith
  length-take (suc n) (id ∷ ids) = omega (arith, length-take n ids)

  -- The prompt sends nothing, and feeds its tokens at most.
  abbrev pub Feeds : ℕ → Run M L → Run M L → Type 0
  Feeds k r z =
      (z.events ≡ r.events)
      × (z.sequence ≡ r.sequence)
      × (z.completion ≡ r.completion)
      × (length z.fed ≤ length r.fed + k)

  pub prefill-Feeds :
      (fuel : ℕ) (ids : List ℕ) (r : Run M L) → Feeds (length ids) r (prefill env fuel ids r).0
  unfolding prefill
  prefill-Feeds zero ids r = (refl, refl, refl, omega arith)
  prefill-Feeds (suc fuel) [] r = (refl, refl, refl, omega arith)
  prefill-Feeds (suc fuel) (id ∷ ids) r =
      let part = take max_chunk (id ∷ ids) in
      let rest = drop max_chunk (id ∷ ids) in
      let fed = feed env part r in
      let (ef, ee, es, ec) = feed_same r part (env.forward r.model part) in
      let long : length fed.0.fed ≡ length r.fed + length part =
        ap length ef ∙ length-append r.fed part in
      let split = length-take max_chunk (id ∷ ids) in
      let (le, ls, lc, lf) = prefill-Feeds fuel rest (look env fed.0) in
      let now : Feeds (length (id ∷ ids)) r fed.0 = (ee, es, ec, omega (arith, long, split)) in
      let later = prefill env fuel rest (look env fed.0) in
      let P : Run M L × Option Ending → Type 0 = λ z. Feeds (length (id ∷ ids)) r z.0 in
      if_both P (not fed.1) _ _ now (
        if_both P (is_cancelled env fed.0) _ later now
          (le ∙ ee, ls ∙ es, lc ∙ ec, omega (arith, long, split, lf)))

  -- What the loop has done at its end.
  abbrev pub Ends : ℕ → ℕ → Run M L × Ending → Type 0
  Ends max_tokens prompt_tokens z =
      IsSent max_tokens z.0
      × (z.0.completion ≤ max_tokens)
      × (length z.0.fed ≤ prompt_tokens + max_tokens)

  pub decode_loop-Ends :
      (t : Tokenizer) (stop : ℕ) (think_end : Option ℕ) (max_tokens prompt_tokens fuel : ℕ)
      (r : Run M L)
      → r.completion + fuel ≡ max_tokens
      → max_tokens ≤ 32768
      → IsSent r.completion r
      → length r.fed ≤ prompt_tokens + r.completion
      → Ends max_tokens prompt_tokens (decode_loop env t stop think_end max_tokens fuel r)
  unfolding decode_loop
  decode_loop-Ends t stop think_end max_tokens prompt_tokens zero r e le h fed = (
    record { chunks = h.chunks; counted = h.counted; few = omega (arith, h.few, e) },
    omega (arith, e),
    omega (arith, e, fed),
  )
  decode_loop-Ends t stop think_end max_tokens prompt_tokens (suc fuel) r e le h fed =
      let P = Ends max_tokens prompt_tokens in
      let looked = look env r in
      let next = (env.sample looked.logits looked.rng).0 in
      let counted = drawn env looked (env.sample looked.logits looked.rng) in
      let emitted = emit env t think_end next counted in
      let before : IsSent r.completion counted = record {
        chunks = h.chunks;
        counted = h.counted;
        few = h.few;
      } in
      let (sent, count, same) =
        emit-Sends r.completion t think_end next counted (omega (arith, e, le)) before in
      let fed_now = feed env (next ∷ []) emitted.0 in
      let (ef, ee, es, ec) =
        feed_same emitted.0 (next ∷ []) (env.forward emitted.0.model (next ∷ [])) in
      let long : length fed_now.0.fed ≡ length emitted.0.fed + 1 =
        ap length ef ∙ length-append emitted.0.fed (next ∷ []) in
      let long_before : length emitted.0.fed ≡ length r.fed = ap length same in
      let after_fed : IsSent fed_now.0.completion fed_now.0 = record {
        chunks = subst (AreChunks 0) (sym ee) sent.chunks;
        counted = es ∙ sent.counted ∙ ap length (sym ee);
        few = omega (arith, ap length ee, sent.few, ec, count);
      } in
      let wide : IsSent max_tokens emitted.0 = record {
        chunks = sent.chunks;
        counted = sent.counted;
        few = omega (arith, sent.few, e);
      } in
      let wide_fed : IsSent max_tokens fed_now.0 = record {
        chunks = after_fed.chunks;
        counted = after_fed.counted;
        few = omega (arith, after_fed.few, ec, count, e);
      } in
      let bound : emitted.0.completion ≤ max_tokens = omega (arith, count, e) in
      let now : P (emitted.0, gone) = (wide, bound, omega (arith, long_before, fed, e)) in
      let plain : IsSent max_tokens r = record {
        chunks = h.chunks;
        counted = h.counted;
        few = omega (arith, h.few, e);
      } in
      let later =
        decode_loop-Ends t stop think_end max_tokens prompt_tokens fuel fed_now.0
          (omega (arith, ec, count, e)) le after_fed
          (omega (arith, long, long_before, fed, ec, count)) in
      let whole = decode_loop env t stop think_end max_tokens fuel fed_now.0 in
      if_both P (is_cancelled env r) (looked, finished was_cancelled) _
        (
          record { chunks = h.chunks; counted = h.counted; few = plain.few },
          omega (arith, e),
          omega (arith, fed, e),
        )
        (if_both P (next == stop) (counted, finished end_of_text) _
          (
            record { chunks = h.chunks; counted = h.counted; few = plain.few },
            omega (arith, e),
            omega (arith, fed, e),
          )
          (if_both P (not emitted.1) _ _ now (
            if_both P (leb max_tokens emitted.0.completion) _ _ now (
              if_both P (not fed_now.1) _ whole
                (wide_fed, omega (arith, ec, bound), omega (arith, long, long_before, fed, e))
                later))))
