-- ===== src/Store/Transcript.antt =====
-- A thread's messages are read as they were appended, through `append` and through the fallback.
use tegg.Prelude.{
  ℕ, ◌≡◌, inl, inr, refl, sym, ap, ◌∙◌, String, Bool, false, List, [], ◌∷◌, ◌++◌, map, map-append,
  append-nil, eq_iff, none, some, ok, err, if◌then◌else◌, ◌==◌, string_key, All, arith, filter,
  Option-cases, subst,
}
use tegg.Agent.Message.{AgentMessage, is_conversation_message}
use tegg.Store.{
  Json, ThreadMetadata, StoreOptions, Store, Outcome, present, put_object, then_do,
  write_thread_activity_index,
}
use tegg.Store.Lines.{Text, IsLine, encode, encode-append, lines_of-trim-encode, is_empty}
use tegg.Store.Threads.{
  parse_all, read_messages, get_thread, append_text, append_messages, index_append, stamp,
}
use tegg.Store.Stamps.{AreStamped, map-AreStamped}
use tegg.Store.Laws.{Laws, JsonLaws, IsStored, text_of, meta_present, present_filled}

parse_all-map :
    {A : Type 0} (json : Json A)
    → JsonLaws json
    → (xs : List A) → parse_all json (map (λ m. json.stringify m) xs) ≡ ok xs
unfolding parse_all
parse_all-map json laws [] = refl
parse_all-map json laws (x ∷ xs) =
    ground (arith, laws.parse_stringify x, parse_all-map json laws xs)

All-lines :
    {A : Type 0} (json : Json A)
    → JsonLaws json
    → (xs : List A) → All IsLine (map (λ m. json.stringify m) xs)
All-lines json laws [] = tt
All-lines json laws (x ∷ xs) = (laws.line x, All-lines json laws xs)

filled_encode : (l : Text) (ls : List Text) → IsLine l → is_empty (encode (l ∷ ls)) ≡ false
unfolding encode
filled_encode [] ls a = absurd (ground (arith, a.filled))
filled_encode (c ∷ l) ls a = refl

module _ {S J : Type 0} where
  read_messages-text_of :
      (env : StoreOptions S J) (laws : Laws env) (messages : List (AgentMessage J))
      → read_messages env (some (text_of env messages)) ≡ ok messages
  unfolding read_messages
  read_messages-text_of env laws [] = (unfold encode in refl)
  read_messages-text_of env laws (m ∷ ms) =
      let lines = map (λ m. env.message_json.stringify m) (m ∷ ms) in
      let read : present (some (encode lines)) ≡ some (encode lines) =
        present_filled (encode lines) (
          filled_encode (env.message_json.stringify m) (map (λ m. env.message_json.stringify m) ms)
            (laws.message_json.line m)) in
      ground (
        arith,
        read,
        lines_of-trim-encode lines (All-lines env.message_json laws.message_json (m ∷ ms)),
        parse_all-map env.message_json laws.message_json (m ∷ ms),
      )

  stored_messages :
      (env : StoreOptions S J) (laws : Laws env) (id : String) (meta : ThreadMetadata J)
      (messages : List (AgentMessage J)) (s : Store S J)
      → IsStored env id meta messages s
      → read_messages env (env.client.get s.objects (env.messages_key id)) ≡ ok messages
  stored_messages env laws id meta messages s stored = elim stored.messages_stored [
    | inl (gone, empty) ↦ ap (read_messages env) gone ∙ (unfold read_messages in ap ok (sym empty))
    | inr found ↦ ap (read_messages env) found ∙ read_messages-text_of env laws messages
  ]

  -- With a client and a JSON that keep their laws, a stored thread is read with its metadata and its
  -- messages, or with the conversation among them.
  pub get_thread-IsStored :
      (env : StoreOptions S J) (laws : Laws env) (id : String) (meta : ThreadMetadata J)
      (messages : List (AgentMessage J)) (s : Store S J) (all : Bool)
      → IsStored env id meta messages s
      → get_thread env id all s
        ≡ ok (record {
          meta = meta;
          messages = if all then messages else filter is_conversation_message messages;
        })
  unfolding get_thread
  get_thread-IsStored env laws id meta messages s all stored = ground (
    arith,
    meta_present env laws id meta messages s stored,
    laws.thread_json.parse_stringify meta,
    stored_messages env laws id meta messages s stored,
  )

  append_text-get :
      (env : StoreOptions S J) (laws : Laws env) (key : String) (text : Text) (s : Store S J)
      (k : String)
      → (append_text env key text s).1 ≡ ok tt
      → env.client.get (append_text env key text s).0.objects k ≡ (
          if key == k
          then elim (env.client.get s.objects key) [
            | none ↦ some text
            | some old ↦ some (old ++ text)
          ]
          else env.client.get s.objects k)
  unfolding append_text put_object
  append_text-get env laws key text s k done = elim (Option-cases env.client.append) [
    | inr (append, e) ↦ ground (arith, laws.client.get_append append e s.objects key text k)
    | inl e ↦ elim (Option-cases (env.client.get s.objects key)) [
      | inl n ↦ ground (arith, laws.client.get_put s.objects key text k)
      | inr (old, m) ↦ ground (arith, laws.client.get_put s.objects key (old ++ text) k)
    ]
  ]

  objects-index_append :
      (env : StoreOptions S J) (id : String) (now_ms : ℕ) (meta : ThreadMetadata J) (s : Store S J)
      → (index_append env id now_ms meta s).objects ≡ s.objects
  unfolding index_append write_thread_activity_index
  objects-index_append env id now_ms meta s = ground arith

  stamped_lines :
      (env : StoreOptions S J) (now_ms : ℕ) (messages : List (AgentMessage J))
      → map (λ m. env.message_json.stringify (stamp now_ms m)) messages
        ≡ map (λ m. env.message_json.stringify m) (map (stamp now_ms) messages)
  stamped_lines env now_ms [] = refl
  stamped_lines env now_ms (m ∷ ms) =
      ap (λ z. env.message_json.stringify (stamp now_ms m) ∷ z) (stamped_lines env now_ms ms)

  text_of-append :
      (env : StoreOptions S J) (old new : List (AgentMessage J))
      → text_of env (old ++ new) ≡ text_of env old ++ text_of env new
  text_of-append env old new =
      ap encode (map-append (λ m. env.message_json.stringify m) old new)
      ∙ encode-append (map (λ m. env.message_json.stringify m) old)
          (map (λ m. env.message_json.stringify m) new)

  append_text-IsStored :
      (env : StoreOptions S J) (laws : Laws env) (id : String) (meta : ThreadMetadata J)
      (old new : List (AgentMessage J)) (s : Store S J)
      → IsStored env id meta old s
      → (append_text env (env.messages_key id) (text_of env new) s).1 ≡ ok tt
      → IsStored env id meta
          (old ++ new)
          (append_text env (env.messages_key id) (text_of env new) s).0
  append_text-IsStored env laws id meta old new s stored done =
      let key = env.messages_key id in
      let at_meta = append_text-get env laws key (text_of env new) s (env.meta_key id) done in
      let at_messages = append_text-get env laws key (text_of env new) s key done in
      record {
        meta_stored = ground (
          arith,
          at_meta,
          laws.keys_differ id,
          eq_iff key (env.meta_key id),
          eq_iff (env.meta_key id) key,
          stored.meta_stored,
        );
        messages_stored = inr (elim stored.messages_stored [
          | inl (gone, empty) ↦
              ground
                (arith, at_messages, eq_iff key key, gone, ap (λ z. text_of env (z ++ new)) empty)
          | inr found ↦
              ground (arith, at_messages, eq_iff key key, found, text_of-append env old new)
        ]);
      }

  append_messages-eq :
      (env : StoreOptions S J) (laws : Laws env) (id : String) (now_ms : ℕ)
      (meta : ThreadMetadata J) (old : List (AgentMessage J)) (m : AgentMessage J)
      (ms : List (AgentMessage J)) (s : Store S J)
      → IsStored env id meta old s
      → append_messages env id now_ms (m ∷ ms) s
        ≡ then_do
            (append_text env (env.messages_key id) (text_of env (map (stamp now_ms) (m ∷ ms))) s)
            (λ _ t. (index_append env id now_ms meta t, ok tt))
  unfolding append_messages
  append_messages-eq env laws id now_ms meta old m ms s stored = ground (
    arith,
    meta_present env laws id meta old s stored,
    laws.thread_json.parse_stringify meta,
    ap encode (stamped_lines env now_ms (m ∷ ms)),
  )

  then_do-index :
      (env : StoreOptions S J) (id : String) (now_ms : ℕ) (meta : ThreadMetadata J)
      (messages : List (AgentMessage J)) (o : Outcome S J (Unit {0}))
      → (then_do o (λ _ t. (index_append env id now_ms meta t, ok tt))).1 ≡ ok tt
      → (o.1 ≡ ok tt)
        × (IsStored env id meta messages o.0
            → IsStored env id meta messages
                (then_do o (λ _ t. (index_append env id now_ms meta t, ok tt))).0)
  then_do-index env id now_ms meta messages (t, err e) done = cc
  then_do-index env id now_ms meta messages (t, ok tt) done = (
    refl,
    λ stored.
        let same = objects-index_append env id now_ms meta t in
        record {
          meta_stored = ap (λ z. env.client.get z (env.meta_key id)) same ∙ stored.meta_stored;
          messages_stored = elim stored.messages_stored [
            | inl (gone, empty) ↦
                inl (ap (λ z. env.client.get z (env.messages_key id)) same ∙ gone, empty)
            | inr found ↦ inr (ap (λ z. env.client.get z (env.messages_key id)) same ∙ found)
          ];
        },
  )

  append_nothing :
      (env : StoreOptions S J) (laws : Laws env) (id : String) (now_ms : ℕ)
      (meta : ThreadMetadata J) (old : List (AgentMessage J)) (s : Store S J)
      → IsStored env id meta old s
      → append_messages env id now_ms [] s ≡ (s, ok tt)
  unfolding append_messages
  append_nothing env laws id now_ms meta old s stored =
      ground (arith, meta_present env laws id meta old s stored)

  append_messages-stamp :
      (env : StoreOptions S J) (laws : Laws env) (id : String) (now_ms : ℕ)
      (meta : ThreadMetadata J) (old new : List (AgentMessage J)) (s : Store S J)
      → IsStored env id meta old s
      → (append_messages env id now_ms new s).1 ≡ ok tt
      → IsStored env id meta (old ++ map (stamp now_ms) new) (append_messages env id now_ms new s).0
  append_messages-stamp env laws id now_ms meta old [] s stored done =
      let still : append_messages env id now_ms [] s ≡ (s, ok tt) =
        append_nothing env laws id now_ms meta old s stored in
      rw still (rw (append-nil old) stored)
  append_messages-stamp env laws id now_ms meta old (m ∷ ms) s stored done =
      let same = append_messages-eq env laws id now_ms meta old m ms s stored in
      let new = map (stamp now_ms) (m ∷ ms) in
      let (resolved, kept) =
        then_do-index env id now_ms meta (old ++ new)
          (append_text env (env.messages_key id) (text_of env new) s)
          (ap (λ z. z.1) (sym same) ∙ done) in
      subst (λ z. IsStored env id meta (old ++ new) z.0) (sym same)
        (kept (append_text-IsStored env laws id meta old new s stored resolved))

  -- With a client and a JSON that keep their laws, appending to a stored thread, where it resolves,
  -- leaves the thread with its metadata, its old messages and the new ones, each stamped with the time
  -- and else as it was, whether or not the client can append.
  pub append_messages-IsStored :
      (env : StoreOptions S J) (laws : Laws env) (id : String) (now_ms : ℕ)
      (meta : ThreadMetadata J) (old new : List (AgentMessage J)) (s : Store S J)
      → IsStored env id meta old s
      → (append_messages env id now_ms new s).1 ≡ ok tt
      → (stamped : List (AgentMessage J)) × AreStamped now_ms new stamped
        × IsStored env id meta (old ++ stamped) (append_messages env id now_ms new s).0
  append_messages-IsStored env laws id now_ms meta old new s stored done = (
    map (stamp now_ms) new,
    map-AreStamped now_ms new,
    append_messages-stamp env laws id now_ms meta old new s stored done,
  )
