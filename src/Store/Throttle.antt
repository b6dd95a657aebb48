-- ===== src/Store/Throttle.antt =====
-- The throttle of the activity index: its size, what it leaves out, and what a rejected write undoes.
use tegg.Prelude.{
  ℕ, suc, ◌+◌, ◌/◌, ◌≤◌, ◌<◌, ◌≡◌, ◌⊎◌, inl, inr, String, false, List, [], ◌∷◌, ◌++◌, Option, none,
  some, ok, err, ◌==◌, nat_key, string_key, eq_iff, nat_beq_iff, arith, length, map, Option-cases,
  Bool-cases,
}
use tegg.Prelude.JsMap.{JsMap, get, set, delete, get-delete}
use tegg.Agent.Message.{AgentMessage}
use tegg.Store.{
  ThreadMetadata, StoreOptions, Store, Outcome, index_write, ThrottleEntry, put_object, then_do,
  write_thread_activity_index, present,
}
use tegg.Store.Threads.{
  index_append, append_messages, append_text, stamp, is_throttled, evict, ms_per_day,
  max_throttle_entries,
}
use tegg.Store.Lines.{encode, is_empty}
use tegg.Store.Runs.{settle}

length-set :
    (k : String) (v : ThrottleEntry) (m : JsMap String ThrottleEntry)
    → length (set k v m) ≤ suc (length m)
unfolding set
length-set k v [] = omega arith
length-set k v ((j, w) ∷ m) = ground (arith, length-set k v m)

length-delete : (k : String) (m : JsMap String ThrottleEntry) → length (delete k m) ≤ length m
unfolding delete
length-delete k [] = omega arith
length-delete k ((j, w) ∷ m) = ground (arith, length-delete k m)

length-evict :
    (m : JsMap String ThrottleEntry)
    → length m ≤ suc max_throttle_entries
    → length (evict m) ≤ max_throttle_entries
unfolding evict delete
length-evict [] h = omega arith
length-evict ((k, e) ∷ m) h = ground (arith, eq_iff k k, length-delete k m)

module _ {S J : Type 0} where
  index_append_size :
      (env : StoreOptions S J) (id : String) (now_ms : ℕ) (meta : ThreadMetadata J) (s : Store S J)
      → length s.last_append_index_at_ms ≤ max_throttle_entries
      → length (index_append env id now_ms meta s).last_append_index_at_ms ≤ max_throttle_entries
  unfolding index_append write_thread_activity_index
  index_append_size env id now_ms meta s h =
      let entry : ThrottleEntry = record {
        ms = now_ms;
        bucket = now_ms / ms_per_day;
        serial = s.next_serial;
      } in
      let grown = length-set id entry s.last_append_index_at_ms in
      ground (arith, length-evict (set id entry s.last_append_index_at_ms) (omega arith))

  map-append_text :
      (env : StoreOptions S J) (key : String) (text : List ℕ) (s : Store S J)
      → (append_text env key text s).0.last_append_index_at_ms ≡ s.last_append_index_at_ms
  unfolding append_text put_object
  map-append_text env key text s = ground arith

  then_do_size :
      (env : StoreOptions S J) (id : String) (now_ms : ℕ) (meta : ThreadMetadata J)
      (o : Outcome S J (Unit {0}))
      → length (o.0).last_append_index_at_ms ≤ max_throttle_entries
      → length
          ((then_do o (λ _ t. (index_append env id now_ms meta t, ok tt))).0
            ).last_append_index_at_ms
        ≤ max_throttle_entries
  then_do_size env id now_ms meta (t, err e) h = h
  then_do_size env id now_ms meta (t, ok tt) h = index_append_size env id now_ms meta t h

  -- Appending messages, on every branch, keeps the throttle map within its bound.
  pub append_messages_size :
      (env : StoreOptions S J) (id : String) (now_ms : ℕ) (messages : List (AgentMessage J))
      (s : Store S J)
      → length s.last_append_index_at_ms ≤ max_throttle_entries
      → length (append_messages env id now_ms messages s).0.last_append_index_at_ms
        ≤ max_throttle_entries
  unfolding append_messages
  append_messages_size env id now_ms messages s h =
      elim (Option-cases (present (env.client.get s.objects (env.meta_key id)))) [
        | inl gone ↦ rw (gone, append_messages) h
        | inr (found, e) ↦ elim (Bool-cases (is_empty messages)) [
          | inl nothing ↦ rw (e, nothing, append_messages) h
          | inr some_messages ↦ elim (Option-cases (env.thread_json.parse found)) [
            | inl corrupt ↦ rw (e, some_messages, corrupt, append_messages) h
            | inr (meta, parsed) ↦
                let lines =
                  encode (map (λ m. env.message_json.stringify (stamp now_ms m)) messages) in
                rw (e, some_messages, parsed, append_messages)
                  (then_do_size env id now_ms meta (append_text env (env.messages_key id) lines s)
                    (rw (map-append_text env (env.messages_key id) lines s) h))
          ]
        ]
      ]

  -- After an append either one index write of this time is pending, behind the old ones, or nothing
  -- changed, and then an entry of the thread stands on the same day and less than the interval before.
  pub index_append_lem :
      (env : StoreOptions S J) (id : String) (now_ms : ℕ) (meta : ThreadMetadata J) (s : Store S J)
      → let t = index_append env id now_ms meta s in
        ((entry : Option ThrottleEntry) × (t.pending_index_writes
            ≡ s.pending_index_writes
              ++ index_write id
                  (env.index_key now_ms id)
                  (env.index_body id meta.created_at (now_ms / 1000) meta.metadata)
                  entry
                ∷ []))
        ⊎ (t ≡ s)
          × ((last : ThrottleEntry) × (get id s.last_append_index_at_ms ≡ some last)
              × (last.bucket ≡ now_ms / ms_per_day)
              × (now_ms < last.ms + env.index_throttle_ms))
  unfolding index_append write_thread_activity_index
  index_append_lem env id now_ms meta s = elim (Bool-cases (env.index_throttle_ms == 0)) [
    | inl off ↦ inl (none, ground arith)
    | inr on ↦ elim (Option-cases (get id s.last_append_index_at_ms)) [
      | inl fresh ↦ inl (
        some (record { ms = now_ms; bucket = now_ms / ms_per_day; serial = s.next_serial }),
        ground arith,
      )
      | inr (last, e) ↦ elim (Bool-cases (is_throttled (some last) now_ms env.index_throttle_ms)) [
        | inl throttled ↦ inr (
          ground arith,
          (last, e, ground (arith, nat_beq_iff last.bucket (now_ms / ms_per_day)), ground arith),
        )
        | inr late ↦ inl (
          some (record { ms = now_ms; bucket = now_ms / ms_per_day; serial = s.next_serial }),
          ground arith,
        )
      ]
    ]
  ]

  -- A rejected index write whose entry is still the thread's own takes it back: no later append of the
  -- thread is throttled because of it.
  pub settle_rejected :
      (env : StoreOptions S J) (id key : String) (body : List ℕ) (entry : ThrottleEntry)
      (s : Store S J) (now_ms : ℕ)
      → (env.client.put s.objects key body).1 ≡ false
      → get id s.last_append_index_at_ms ≡ some entry
      → is_throttled
          (get id (settle env (index_write id key body (some entry)) s).last_append_index_at_ms)
          now_ms
          env.index_throttle_ms
        ≡ false
  unfolding settle put_object
  settle_rejected env id key body entry s now_ms reject own = ground (
    arith,
    get-delete id id s.last_append_index_at_ms,
    eq_iff id id,
    nat_beq_iff entry.serial entry.serial,
  )
