-- ===== src/Agent/Message/Usage.antt =====
-- Usage and durations summed over a stream, and what a stored message says of itself on reading.
use tegg.Prelude.{
  ℕ, ◌+◌, ◌≡◌, refl, ◌≢◌, ◌⊎◌, String, Bool, true, false, ◌&&◌, ◌||◌, List, [], ◌∷◌, map, none,
  some, if◌then◌else◌, string_key, filter, any, Result, ok, err, arith, All, eq_iff, ==_refl,
}
use tegg.Agent.{AgentError}
use tegg.Agent.Message.{
  AgentMessage, Totals, is, or_zero, declared, is_conversation_message, add_usage, add_usages,
  no_totals, extract_usage, filter_for_storage, Yielded, v1, v2, NormalizedMessage,
  has_runtime_message_protocol, runtime_message_violation, normalize, annotate_for_storage,
  runtime_message_protocol, or_else,
}

module _ {J : Type 0} where
  abbrev pub is_result : AgentMessage J → Bool
  is_result m = is m.type "result"

  -- What a message reports, and 0 where it reports nothing.
  abbrev pub reports : AgentMessage J → Bool
  reports m = is_result m && elim m.usage [ none ↦ false | some u ↦ true ]

  abbrev pub input_of : AgentMessage J → ℕ
  input_of m =
      if is_result m then elim m.usage [ none ↦ 0 | some u ↦ or_zero u.input_tokens ] else 0

  abbrev pub output_of : AgentMessage J → ℕ
  output_of m =
      if is_result m then elim m.usage [ none ↦ 0 | some u ↦ or_zero u.output_tokens ] else 0

  abbrev pub sum_of : (AgentMessage J → ℕ) → List (AgentMessage J) → ℕ
  sum_of f [] = 0
  sum_of f (m ∷ ms) = f m + sum_of f ms

  add_usages-sum :
      (ms : List (AgentMessage J)) (t : Totals)
      → ((add_usages ms t).prompt_tokens ≡ t.prompt_tokens + sum_of input_of ms)
        × ((add_usages ms t).completion_tokens ≡ t.completion_tokens + sum_of output_of ms)
        × ((add_usages ms t).has_usage ≡ (t.has_usage || any reports ms))
  unfolding add_usages
  add_usages-sum [] t = (omega arith, omega arith, ground arith)
  add_usages-sum (m ∷ ms) t =
      ground (arith, add_usages-sum ms (if is m.type "result" then add_usage m.usage t else t))

  -- The usage of a stream is the sum over its `result` messages with a usage, and missing where there
  -- is none; the total is that of prompt and completion.
  pub extract_usage-sum :
      (ms : List (AgentMessage J))
      → extract_usage ms ≡ (
          if any reports ms
          then some (record {
            prompt_tokens = sum_of input_of ms;
            completion_tokens = sum_of output_of ms;
            total_tokens = sum_of input_of ms + sum_of output_of ms;
          })
          else none)
  unfolding extract_usage
  extract_usage-sum ms = ground (arith, add_usages-sum ms no_totals)

  -- Whatever is stored of a normalised message is read back with the conversational status that its
  -- contract gives it; a V1 message must not carry the stamp of V2 itself.
  pub conversation-annotate :
      (y : Yielded J) (n : NormalizedMessage J)
      → normalize y ≡ ok n
      → (n.protocol ≡ v1 → declared y.agent.egg_ext ≡ none)
      → is_conversation_message (annotate_for_storage n) ≡ n.conversational
  unfolding is_conversation_message annotate_for_storage normalize
  conversation-annotate y n h unstamped =
      ground (arith, unstamped, eq_iff runtime_message_protocol runtime_message_protocol)

  -- How a message is read: `ok` by one of the contracts, `err` where it breaks the one that it claims.
  abbrev pub IsReadBy : Yielded J → Result AgentError (NormalizedMessage J) → Type 0
  IsReadBy y (err e) =
      (has_runtime_message_protocol y ≡ true) × (runtime_message_violation y ≢ none)
  IsReadBy y (ok n) =
      (has_runtime_message_protocol y ≡ true)
        × (n.protocol ≡ v2)
        × (y.payload ≡ some n.message)
        × (y.event_type ≡ some n.event_type)
        × (n.event_type ≢ "")
      ⊎ (has_runtime_message_protocol y ≡ false) × (n.protocol ≡ v1) × (n.message ≡ y.agent)

  -- A message that claims the V2 contract is read by it, with its payload and its event name, or it is
  -- refused, and never taken for a V1 message; any other is a V1 message and never refused.
  pub normalize-IsReadBy : (y : Yielded J) → IsReadBy y (normalize y)
  unfolding normalize
  normalize-IsReadBy y =
      ground (arith, eq_iff (or_else y.event_type "") "", ==_refl {A = String} "")

  -- The V1 stream that the runtime keeps is what `filterForStorage` keeps of it.
  pub durable-filter_for_storage :
      (ys : List (Yielded J)) (ns : List (NormalizedMessage J))
      → All (λ y. has_runtime_message_protocol y ≡ false) ys
      → map normalize ys ≡ map ok ns
      → map (λ n. n.message) (filter (λ n. n.durable) ns)
        ≡ filter_for_storage (map (λ y. y.agent) ys)
  unfolding normalize filter_for_storage
  durable-filter_for_storage [] [] c h = refl
  durable-filter_for_storage [] (n ∷ ns) c h = cc
  durable-filter_for_storage (y ∷ ys) [] c h = cc
  durable-filter_for_storage (y ∷ ys) (n ∷ ns) c h =
      ground (arith, durable-filter_for_storage ys ns c.1)
