-- ===== src/Client/Accepted.antt =====
-- The requests that the broker builds are valid.
use chatty.Common.{
  ℕ, suc, ◌+◌, ◌*◌, ◌-◌, ◌^◌, ◌≤◌, ◌<◌, ◌≡◌, refl, min, false, ◌||◌, Option, none, some, List, [],
  ◌∷◌, ◌++◌, ◌==◌, ltb, if◌then◌else◌, if_both, length, length-append, codes, arith,
}
use chatty.Generation.{validate, text_bytes, max_prompt_bytes, max_prompt_pieces, max_output_tokens}
use chatty.Client.{
  ok, Piece, marker, plain, ChatMessage, GenerationOptions, ChatRequest, ℤ, pos, negsuc,
  system_texts, system_pieces, join_with, turn, turns, prompt, generate_request, max_tokens_of,
  is_role, assistant, thought_end,
}

-- The bytes of the contents, and two more for each message.
unfoldable pub content_bytes : List ChatMessage → ℕ
content_bytes [] = 0
content_bytes (message ∷ messages) = length message.content + 2 + content_bytes messages

-- The bytes of the text in a prompt, without a limit.
plain_bytes : List Piece → ℕ
plain_bytes [] = 0
plain_bytes (marker m ∷ pieces) = plain_bytes pieces
plain_bytes (plain text ∷ pieces) = length text + plain_bytes pieces

text_bytes-le :
    (bytes : ℕ) (pieces : List Piece) → text_bytes bytes pieces ≤ bytes + plain_bytes pieces
unfolding text_bytes plain_bytes
text_bytes-le bytes [] = omega arith
text_bytes-le bytes (marker m ∷ pieces) = text_bytes-le bytes pieces
text_bytes-le bytes (plain text ∷ pieces) =
    omega (arith, text_bytes-le (min (bytes + length text) (2 ^ 64 - 1)) pieces)

plain_bytes-append :
    (front back : List Piece) → plain_bytes (front ++ back) ≡ plain_bytes front + plain_bytes back
unfolding plain_bytes
plain_bytes-append [] back = omega arith
plain_bytes-append (marker m ∷ front) back = plain_bytes-append front back
plain_bytes-append (plain text ∷ front) back = omega (arith, plain_bytes-append front back)

-- A prompt has three pieces for each message at most.
abbrev IsSmall : ℕ → ℕ → List Piece → Type 0
IsSmall pieces bytes ps = (length ps ≤ pieces) × (plain_bytes ps ≤ bytes)

turn-IsSmall : (message : ChatMessage) → IsSmall 3 (length message.content) (turn message)
unfolding plain_bytes
turn-IsSmall message =
    if_both (IsSmall 3 (length message.content)) (is_role (codes "user") message) _ _
      (omega arith, omega arith)
      (if_both (IsSmall 3 (length message.content)) (is_role (codes "assistant") message) _ _
        (omega arith, omega arith) (omega arith, omega arith))

turns-IsSmall :
    (messages : List ChatMessage)
    → IsSmall (3 * length messages) (content_bytes messages) (turns messages)
unfolding turns content_bytes plain_bytes
turns-IsSmall [] = (omega arith, omega arith)
turns-IsSmall (message ∷ messages) =
    let (few, small) = turn-IsSmall message in
    let (others, bytes) = turns-IsSmall messages in
    (
      omega (arith, few, others, length-append (turn message) (turns messages)),
      omega (arith, small, bytes, plain_bytes-append (turn message) (turns messages)),
    )

joined_bytes : List (List ℕ) → ℕ
joined_bytes [] = 0
joined_bytes (text ∷ texts) = length text + 2 + joined_bytes texts

length-join_with :
    (texts : List (List ℕ)) → length (join_with (codes "\n\n") texts) ≤ joined_bytes texts
unfolding joined_bytes
length-join_with [] = omega arith
length-join_with (text ∷ []) = omega arith
length-join_with (text ∷ next ∷ texts) = omega (
  arith,
  length-join_with (next ∷ texts),
  length-append text (codes "\n\n" ++ join_with (codes "\n\n") (next ∷ texts)),
)

system_texts-small :
    (messages : List ChatMessage) → joined_bytes (system_texts messages) ≤ content_bytes messages
unfolding system_texts joined_bytes content_bytes
system_texts-small [] = omega arith
system_texts-small (message ∷ messages) =
    if_both (λ texts. joined_bytes texts ≤ length message.content + 2 + content_bytes messages)
      (is_role (codes "system") message) (message.content ∷ system_texts messages)
      (system_texts messages) (omega (arith, system_texts-small messages))
      (omega (arith, system_texts-small messages))

system_pieces-IsSmall : (text : List ℕ) → IsSmall 1 (length text + 2) (system_pieces text)
unfolding plain_bytes
system_pieces-IsSmall [] = (omega arith, omega arith)
system_pieces-IsSmall (c ∷ text) =
    (omega arith, omega (arith, length-append (c ∷ text) (codes "\n\n")))

prompt-IsSmall :
    (messages : List ChatMessage) (options : GenerationOptions)
    → IsSmall (3 * length messages + 4) (2 * content_bytes messages + 2) (prompt messages options)
unfolding prompt plain_bytes
prompt-IsSmall messages options =
    let system = system_pieces (join_with (codes "\n\n") (system_texts messages)) in
    let thought : List Piece = if options.disable_reasoning then marker thought_end ∷ [] else [] in
    let closing : List Piece = marker assistant ∷ thought in
    let (s1, s2) = system_pieces-IsSmall (join_with (codes "\n\n") (system_texts messages)) in
    let (t1, t2) = turns-IsSmall messages in
    let (c1, c2) : IsSmall 1 0 thought =
      if_both (IsSmall 1 0) options.disable_reasoning _ _ (omega arith, omega arith)
        (omega arith, omega arith) in
    (
      omega (
        arith,
        s1,
        t1,
        c1,
        length-append system (turns messages ++ closing),
        length-append (turns messages) closing,
      ),
      omega (
        arith,
        s2,
        t2,
        c2,
        plain_bytes-append system (turns messages ++ closing),
        plain_bytes-append (turns messages) closing,
        length-join_with (system_texts messages),
        system_texts-small messages,
      ),
    )

max_tokens_of_bounds : (n : Option ℤ) → (0 < max_tokens_of n) × (max_tokens_of n ≤ 32768)
max_tokens_of_bounds none = (omega arith, omega arith)
max_tokens_of_bounds (some (pos n)) = (ground arith, ground arith)
max_tokens_of_bounds (some (negsuc n)) = (omega arith, omega arith)

suc_not_zero : (n : ℕ) → (suc n == 0) ≡ false
suc_not_zero n = ground arith

prompt_starts :
    (messages : List ChatMessage) (options : GenerationOptions)
    → (length (prompt messages options) == 0) ≡ false
unfolding prompt
prompt_starts messages options = suc_not_zero _

ltb_le : {a b : ℕ} → b ≤ a → ltb a b ≡ false
ltb_le {a} {b} h = ground arith

in_range : {n : ℕ} → 0 < n → n ≤ 32768 → (n == 0 || ltb max_output_tokens n) ≡ false
in_range {n} positive bounded = ground arith

-- The request that is built of at most 340 messages, of at most 2 MiB less one byte of text with two
-- bytes for each message, passes `validate` when its temperature and top_p are numbers, whatever the
-- roles, the seed and the tokens asked for. What `prompt_ids` makes of it afterwards is not stated.
pub validate-generate_request :
    (request : ChatRequest)
    → length request.messages ≤ 340
    → content_bytes request.messages ≤ 2097151
    → request.options.nan_sampling ≡ false
    → validate (generate_request request) ≡ ok tt
unfolding generate_request validate
validate-generate_request request few small numbers =
    let pieces = prompt request.messages request.options in
    let (counted, bytes) = prompt-IsSmall request.messages request.options in
    let (positive, bounded) = max_tokens_of_bounds request.options.max_tokens in
    let some_pieces : (length pieces == 0) ≡ false =
      prompt_starts request.messages request.options in
    let few_pieces : ltb max_prompt_pieces (length pieces) ≡ false =
      ltb_le (omega (arith, counted, few)) in
    let few_bytes : ltb max_prompt_bytes (text_bytes 0 pieces) ≡ false =
      ltb_le (omega (arith, bytes, small, text_bytes-le 0 pieces)) in
    let tokens : (max_tokens_of request.options.max_tokens == 0
          || ltb max_output_tokens (max_tokens_of request.options.max_tokens))
        ≡ false =
      in_range positive bounded in
    rw (some_pieces, few_pieces, few_bytes, tokens, numbers) refl
