-- ===== src/Agent/Message.antt =====
-- core/agent-runtime/src/MessageConverter.ts, and the normalised view of a message that
-- AgentRuntime.ts builds from either contract (core/types/agent-runtime/RuntimeMessage.ts).
-- `J` stands for the rest of a message's payload, which is passed through.
pub mod Usage
use tegg.Prelude.{
  ℕ, ◌+◌, String, Bool, true, false, not, ◌&&◌, ◌||◌, List, [], ◌∷◌, map, Option, none, some,
  if◌then◌else◌, ◌==◌, string_key, filter, Result, ok, err,
}
use tegg.Agent.{AgentError, invalid_request, RunUsage, InputMessage}

-- The fields of `eggExt` that the runtime reads or writes.
pub record EggExt : Type 0 where
  pub runtime_protocol : Option String
  pub conversational : Option Bool
  pub persisted_at_ms : Option ℕ

-- The token counts of a `result` message.
pub record ResultUsage : Type 0 where
  pub input_tokens : Option ℕ
  pub output_tokens : Option ℕ

pub record AgentMessage (J : Type 0) : Type 0 where
  pub type : Option String
  pub subtype : Option String
  pub egg_ext : Option EggExt
  pub usage : Option ResultUsage
  pub duration_api_ms : Option ℕ
  pub body : J

abbrev pub runtime_message_protocol : String
runtime_message_protocol = "agent-runtime/v2"

-- `a === "literal"` for a field that may be missing.
abbrev pub is : Option String → String → Bool
is none s = false
is (some t) s = t == s

abbrev pub or_zero : Option ℕ → ℕ
or_zero none = 0
or_zero (some n) = n

-- `ext?.runtimeProtocol === RUNTIME_MESSAGE_PROTOCOL && typeof ext.conversational === 'boolean'`.
abbrev declared : Option EggExt → Option Bool
declared none = none
declared (some ext) =
    if is ext.runtime_protocol runtime_message_protocol then ext.conversational else none

-- The variables of the loop of `extractUsage`.
pub record Totals : Type 0 where
  pub has_usage : Bool
  pub prompt_tokens : ℕ
  pub completion_tokens : ℕ

abbrev no_totals : Totals
no_totals = record { has_usage = false; prompt_tokens = 0; completion_tokens = 0 }

-- The rest of a round for a `result` message.
abbrev add_usage : Option ResultUsage → Totals → Totals
add_usage none t = t
add_usage (some u) t = record {
  has_usage = true;
  prompt_tokens = t.prompt_tokens + or_zero u.input_tokens;
  completion_tokens = t.completion_tokens + or_zero u.output_tokens;
}

-- The variables `has` and `total` of the loop of `extractApiDurationMs`.
abbrev add_duration : Option ℕ → Bool × ℕ → Bool × ℕ
add_duration none t = t
add_duration (some d) t = (true, t.1 + d)

module _ {J : Type 0} where
  unfoldable pub is_conversation_message : AgentMessage J → Bool
  is_conversation_message m = elim (declared m.egg_ext) [
    | some b ↦ b
    | none ↦ is m.type "user" || is m.type "assistant"
  ]

  add_usages : List (AgentMessage J) → Totals → Totals
  add_usages [] t = t
  add_usages (m ∷ ms) t = add_usages ms (if is m.type "result" then add_usage m.usage t else t)

  unfoldable pub extract_usage : List (AgentMessage J) → Option RunUsage
  unfolding add_usages
  extract_usage ms =
      let t = add_usages ms no_totals in
      if t.has_usage
      then some (record {
        prompt_tokens = t.prompt_tokens;
        completion_tokens = t.completion_tokens;
        total_tokens = t.prompt_tokens + t.completion_tokens;
      })
      else none

  add_durations : List (AgentMessage J) → Bool × ℕ → Bool × ℕ
  add_durations [] t = t
  add_durations (m ∷ ms) t =
      add_durations ms (if is m.type "result" then add_duration m.duration_api_ms t else t)

  unfoldable pub extract_api_duration_ms : List (AgentMessage J) → Option ℕ
  unfolding add_durations
  extract_api_duration_ms ms = let t = add_durations ms (false, 0) in if t.0 then some t.1 else none

  unfoldable pub is_transient_message : AgentMessage J → Bool
  is_transient_message m =
      is m.type "stream_event" || (is m.type "system" && is m.subtype "thinking_tokens")

  unfoldable pub filter_for_storage : List (AgentMessage J) → List (AgentMessage J)
  filter_for_storage ms = filter (λ m. not (is_transient_message m)) ms

  -- `pack` builds the payload `{ role, content }`.
  unfoldable pub to_agent_messages :
      (String → J → J) → List (InputMessage J) → List (AgentMessage J)
  to_agent_messages pack ms =
      map
        (λ m. record {
          type = some m.role;
          subtype = none;
          egg_ext = none;
          usage = none;
          duration_api_ms = none;
          body = pack m.role m.content;
        })
        (filter (λ m. not (m.role == "system")) ms)

-- The object that an executor yields, as the two contracts read it: `agent` is the object itself
-- taken for an `AgentMessage`. A field of the wrong type is `none`; `payload` is `none` where it is
-- no plain object.
pub record Yielded (J : Type 0) : Type 0 where
  pub agent : AgentMessage J
  pub protocol : Option String
  pub event_type : Option String
  pub persistence : Option String
  pub payload : Option (AgentMessage J)
  pub conversational : Option Bool
  pub session_committed : Option Bool
  pub usage : Option RunUsage
  pub api_duration_ms : Option ℕ

pub data Protocol : Type 0 where
  v1 v2 : Protocol

pub record NormalizedMessage (J : Type 0) : Type 0 where
  pub protocol : Protocol
  pub message : AgentMessage J
  pub event_type : String
  pub durable : Bool
  pub conversational : Bool
  pub session_committed : Option Bool
  pub usage : Option RunUsage
  pub api_duration_ms : Option ℕ

abbrev pub or_else {ℓ} : {A : Type ℓ} → Option A → A → A
or_else none d = d
or_else (some a) d = a

-- `type || 'message'`: an empty text counts as missing.
abbrev event_type_of : Option String → String
event_type_of none = "message"
event_type_of (some t) = if t == "" then "message" else t

module _ {J : Type 0} where
  unfoldable pub has_runtime_message_protocol : Yielded J → Bool
  has_runtime_message_protocol y = is y.protocol runtime_message_protocol

  -- The checks of `runtimeMessageViolation` on an object, in their order.
  unfoldable pub runtime_message_violation : Yielded J → Option String
  runtime_message_violation y =
      if not (is y.protocol runtime_message_protocol)
      then some "'protocol' must be 'agent-runtime/v2'"
      else if or_else y.event_type "" == ""
      then some "'eventType' must be a non-empty string"
      else if not (is y.persistence "transient") && not (is y.persistence "durable")
      then some "'persistence' must be 'transient' or 'durable'"
      else elim y.payload [ none ↦ some "'payload' must be a plain object" | some _ ↦ none ]

  normalize_v1 : Yielded J → NormalizedMessage J
  normalize_v1 y = record {
    protocol = v1;
    message = y.agent;
    event_type = event_type_of y.agent.type;
    durable = not (is_transient_message y.agent);
    conversational = is y.agent.type "user" || is y.agent.type "assistant";
    session_committed = none;
    usage = none;
    api_duration_ms = none;
  }

  normalize_v2 : Yielded J → AgentMessage J → NormalizedMessage J
  normalize_v2 y payload = record {
    protocol = v2;
    message = payload;
    event_type = or_else y.event_type "";
    durable = is y.persistence "durable";
    conversational = or_else y.conversational true;
    session_committed = some (or_else y.session_committed false);
    usage = y.usage;
    api_duration_ms = y.api_duration_ms;
  }

  unfoldable pub normalize : Yielded J → Result AgentError (NormalizedMessage J)
  unfolding has_runtime_message_protocol runtime_message_violation normalize_v1 normalize_v2
  normalize y =
      if has_runtime_message_protocol y
      then elim (runtime_message_violation y) [
        | some violation ↦ err (invalid_request violation)
        | none ↦ ok (normalize_v2 y (or_else y.payload y.agent))
      ]
      else ok (normalize_v1 y)

  unfoldable pub v1_messages_of : List (NormalizedMessage J) → List (AgentMessage J)
  v1_messages_of ns =
      map (λ n. n.message) (filter (λ n. elim n.protocol [ v1 ↦ true | v2 ↦ false ]) ns)

  -- The loops that keep the last declared value.
  last_usage : List (NormalizedMessage J) → Option RunUsage → Option RunUsage
  last_usage [] declared = declared
  last_usage (n ∷ ns) declared = last_usage ns (elim n.usage [ none ↦ declared | some u ↦ some u ])

  last_duration : List (NormalizedMessage J) → Option ℕ → Option ℕ
  last_duration [] declared = declared
  last_duration (n ∷ ns) declared =
      last_duration ns (elim n.api_duration_ms [ none ↦ declared | some d ↦ some d ])

  unfoldable pub resolve_usage : List (NormalizedMessage J) → Option RunUsage
  unfolding last_usage v1_messages_of extract_usage
  resolve_usage ns = elim (last_usage ns none) [
    | some u ↦ some u
    | none ↦ extract_usage (v1_messages_of ns)
  ]

  unfoldable pub resolve_api_duration_ms : List (NormalizedMessage J) → Option ℕ
  unfolding last_duration v1_messages_of extract_api_duration_ms
  resolve_api_duration_ms ns = elim (last_duration ns none) [
    | some d ↦ some d
    | none ↦ extract_api_duration_ms (v1_messages_of ns)
  ]

  -- The declaration that a stored V2 record carries.
  unfoldable pub annotate_for_storage : NormalizedMessage J → AgentMessage J
  annotate_for_storage n = elim n.protocol [
    | v1 ↦ n.message
    | v2 ↦
        let old : Option EggExt = n.message.egg_ext in
        record {
          type = n.message.type;
          subtype = n.message.subtype;
          egg_ext = some (record {
            runtime_protocol = some runtime_message_protocol;
            conversational = some n.conversational;
            persisted_at_ms = elim old [ none ↦ none | some ext ↦ ext.persisted_at_ms ];
          });
          usage = n.message.usage;
          duration_api_ms = n.message.duration_api_ms;
          body = n.message.body;
        }
  ]
