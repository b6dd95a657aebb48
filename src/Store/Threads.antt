-- ===== src/Store/Threads.antt =====
-- The operations of OSSAgentStore.ts on threads.
use tegg.Prelude.{
  ℕ, suc, ◌+◌, ◌/◌, String, Bool, true, false, List, [], ◌∷◌, ◌++◌, map, Option, none, some, Result,
  ok, err, ◌==◌, ◌&&◌, nat_key, string_key, if◌then◌else◌, ltb, length, filter,
}
use tegg.Prelude.JsMap.{JsMap, get, set, delete}
use tegg.Agent.{AgentError, not_found}
use tegg.Agent.Message.{AgentMessage, EggExt, is_conversation_message}
use tegg.Store.{
  Json, ThreadMetadata, ThreadRecord, StoreOptions, ThrottleEntry, Store, Outcome, present, then_do,
  rejected, syntax_error, put_object, write_thread_activity_index,
}
use tegg.Store.Lines.{Text, trim, lines_of, encode, newline, is_empty}

-- `lines.map(line => JSON.parse(line))`.
unfoldable pub parse_all : {A : Type 0} → Json A → List Text → Result AgentError (List A)
parse_all json [] = ok []
parse_all json (l ∷ ls) = elim (json.parse l) [
  | none ↦ err syntax_error
  | some a ↦ elim (parse_all json ls) [ err e ↦ err e | ok rest ↦ ok (a ∷ rest) ]
]

-- `lines.some(line => isConversationMessage(JSON.parse(line)))`.
unfoldable pub some_conversation :
    {J : Type 0} → Json (AgentMessage J) → List Text → Result AgentError Bool
unfolding is_conversation_message
some_conversation json [] = ok false
some_conversation json (l ∷ ls) = elim (json.parse l) [
  | none ↦ err syntax_error
  | some m ↦
      let rest = some_conversation json ls in if is_conversation_message m then ok true else rest
]

-- `data.slice(0, data.lastIndexOf('\n'))`, and `none` where there is no line end.
unfoldable pub before_last_newline : Text → Option Text
before_last_newline [] = none
before_last_newline (c ∷ cs) = elim (before_last_newline cs) [
  | some rest ↦ some (c ∷ rest)
  | none ↦ if c == newline then some [] else none
]

unfoldable pub contains_conversation_message :
    {J : Type 0} → Json (AgentMessage J) → Text → Bool → Result AgentError Bool
unfolding some_conversation before_last_newline lines_of trim
contains_conversation_message json content true = elim (before_last_newline content) [
  | none ↦ ok false
  | some parseable ↦ some_conversation json (lines_of parseable)
]
contains_conversation_message json content false = some_conversation json (lines_of (trim content))

abbrev pub has_messages_prefix_end : ℕ
has_messages_prefix_end = 65535

-- `Thread.metadata` with the new entries over the old.
unfoldable pub merge_metadata : {J : Type 0} → JsMap String J → JsMap String J → JsMap String J
unfolding set
merge_metadata old [] = old
merge_metadata old ((k, v) ∷ new) = merge_metadata (set k v old) new

abbrev pub ms_per_day : ℕ
ms_per_day = 86400000

abbrev pub max_throttle_entries : ℕ
max_throttle_entries = 10000

abbrev pub is_throttled : Option ThrottleEntry → ℕ → ℕ → Bool
is_throttled none now_ms throttle_ms = false
is_throttled (some last) now_ms throttle_ms =
    last.bucket == now_ms / ms_per_day && ltb now_ms (last.ms + throttle_ms)

-- The map keeps the order of insertion, so that its first key is the oldest.
unfoldable pub evict : JsMap String ThrottleEntry → JsMap String ThrottleEntry
unfolding delete
evict [] = []
evict ((k, e) ∷ m) =
    if ltb max_throttle_entries (length ((k, e) ∷ m)) then delete k ((k, e) ∷ m) else (k, e) ∷ m

-- What persisting stamps into a message.
abbrev pub stamp_ext : ℕ → Option EggExt → EggExt
stamp_ext now_ms none = record {
  runtime_protocol = none;
  conversational = none;
  persisted_at_ms = some now_ms;
}
stamp_ext now_ms (some ext) = record ext { persisted_at_ms = some now_ms }

abbrev pub stamp : {J : Type 0} → ℕ → AgentMessage J → AgentMessage J
stamp now_ms m = record m { egg_ext = some (stamp_ext now_ms m.egg_ext) }

module _ {S J : Type 0} where
  unfoldable pub create_thread :
      StoreOptions S J
      → String
      → ℕ
      → Option (JsMap String J)
      → Store S J
      → Outcome S J (ThreadRecord J)
  unfolding put_object write_thread_activity_index
  create_thread env thread_id now_ms metadata s =
      let meta : ThreadMetadata J = record {
        id = thread_id;
        metadata = elim metadata [ none ↦ [] | some m ↦ m ];
        created_at = now_ms / 1000;
        latest_run_id = none;
      } in
      then_do (put_object env (env.meta_key thread_id) (env.thread_json.stringify meta) s) (λ _ t. (
        write_thread_activity_index env thread_id meta.created_at now_ms meta.metadata none t,
        ok (record { meta = meta; messages = [] }),
      ))

  unfoldable pub read_messages :
      StoreOptions S J → Option Text → Result AgentError (List (AgentMessage J))
  unfolding parse_all lines_of trim
  read_messages env content = elim (present content) [
    | none ↦ ok []
    | some text ↦ parse_all env.message_json (lines_of (trim text))
  ]

  unfoldable pub get_thread :
      StoreOptions S J → String → Bool → Store S J → Result AgentError (ThreadRecord J)
  unfolding read_messages is_conversation_message
  get_thread env thread_id include_all_messages s =
      elim (present (env.client.get s.objects (env.meta_key thread_id))) [
        | none ↦ err (not_found thread_id)
        | some content ↦ elim (env.thread_json.parse content) [
          | none ↦ err syntax_error
          | some meta ↦
              elim (read_messages env (env.client.get s.objects (env.messages_key thread_id))) [
                | err e ↦ err e
                | ok messages ↦ ok (record {
                  meta = meta;
                  messages =
                      if include_all_messages
                      then messages
                      else filter is_conversation_message messages;
                })
              ]
        ]
      ]

  -- The search of the whole object, where the range did not decide.
  unfoldable pub search_all : StoreOptions S J → String → Store S J → Result AgentError Bool
  unfolding contains_conversation_message
  search_all env key s = elim (present (env.client.get s.objects key)) [
    | none ↦ ok false
    | some content ↦ contains_conversation_message env.message_json content false
  ]

  unfoldable pub search_messages : StoreOptions S J → String → Store S J → Result AgentError Bool
  unfolding search_all contains_conversation_message
  search_messages env key s = elim env.client.get_range [
    | none ↦ search_all env key s
    | some get_range ↦ elim (present (get_range s.objects key 0 has_messages_prefix_end)) [
      | none ↦ ok false
      | some messages_prefix ↦
          elim (contains_conversation_message env.message_json messages_prefix true) [
            | err e ↦ err e
            | ok true ↦ ok true
            | ok false ↦ search_all env key s
          ]
    ]
  ]

  unfoldable pub has_messages : StoreOptions S J → String → Store S J → Result AgentError Bool
  unfolding search_messages
  has_messages env thread_id s =
      elim (present (env.client.get s.objects (env.meta_key thread_id))) [
        | none ↦ err (not_found thread_id)
        | some content ↦ elim (env.thread_json.parse content) [
          | none ↦ err syntax_error
          | some _ ↦ search_messages env (env.messages_key thread_id) s
        ]
      ]

  unfoldable pub update_thread_metadata :
      StoreOptions S J → String → ℕ → JsMap String J → Store S J → Outcome S J (Unit {0})
  unfolding put_object write_thread_activity_index merge_metadata
  update_thread_metadata env thread_id now_ms metadata s =
      if is_empty metadata
      then (s, ok tt)
      else elim (present (env.client.get s.objects (env.meta_key thread_id))) [
        | none ↦ (s, err (not_found thread_id))
        | some content ↦ elim (env.thread_json.parse content) [
          | none ↦ (s, err syntax_error)
          | some meta ↦
              let merged = merge_metadata meta.metadata metadata in
              then_do
                (put_object env (env.meta_key thread_id)
                  (env.thread_json.stringify (record meta { metadata = merged })) s)
                (λ _ t. (
                  write_thread_activity_index env thread_id meta.created_at now_ms merged none t,
                  ok tt,
                ))
        ]
      ]

  -- `append`, or the fallback that reads, joins and puts.
  unfoldable pub append_text : StoreOptions S J → String → Text → Store S J → Outcome S J (Unit {0})
  unfolding put_object
  append_text env key text s = elim env.client.append [
    | some append ↦
        let r = append s.objects key text in
        (record s { objects = r.0 }, if r.1 then ok tt else err rejected)
    | none ↦
        put_object env key
          (elim (env.client.get s.objects key) [ none ↦ text | some old ↦ old ++ text ]) s
  ]

  -- The throttle of the activity index: the entry that it makes is passed on to the write.
  unfoldable pub index_append :
      StoreOptions S J → String → ℕ → ThreadMetadata J → Store S J → Store S J
  unfolding write_thread_activity_index evict get set
  index_append env thread_id now_ms meta s =
      if env.index_throttle_ms == 0
      then write_thread_activity_index env thread_id meta.created_at now_ms meta.metadata none s
      else if is_throttled (get thread_id s.last_append_index_at_ms) now_ms env.index_throttle_ms
      then s
      else let entry : ThrottleEntry = record {
        ms = now_ms;
        bucket = now_ms / ms_per_day;
        serial = s.next_serial;
      } in
        write_thread_activity_index env thread_id meta.created_at now_ms meta.metadata (some entry)
          (record s {
            last_append_index_at_ms = evict (set thread_id entry s.last_append_index_at_ms);
            next_serial = suc s.next_serial;
          })

  unfoldable pub append_messages :
      StoreOptions S J → String → ℕ → List (AgentMessage J) → Store S J → Outcome S J (Unit {0})
  unfolding append_text index_append encode
  append_messages env thread_id now_ms messages s =
      elim (present (env.client.get s.objects (env.meta_key thread_id))) [
        | none ↦ (s, err (not_found thread_id))
        | some content ↦
            if is_empty messages then (s, ok tt) else elim (env.thread_json.parse content) [
              | none ↦ (s, err syntax_error)
              | some meta ↦
                  let lines =
                    encode (map (λ m. env.message_json.stringify (stamp now_ms m)) messages) in
                  then_do (append_text env (env.messages_key thread_id) lines s)
                    (λ _ t. (index_append env thread_id now_ms meta t, ok tt))
            ]
      ]
