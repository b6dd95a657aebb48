-- ===== src/Store/Laws.antt =====
-- What the store relies on of its client and of JSON, and what it means that a thread is stored.
use tegg.Prelude.{
  ◌≡◌, ◌⊎◌, refl, ap, ◌∙◌, String, Bool, true, false, List, [], ◌∷◌, ◌++◌, map, none, some,
  if◌then◌else◌, ◌==◌, string_key,
}
use tegg.Agent.Message.{AgentMessage}
use tegg.Store.{ObjectStorageClient, Json, ThreadMetadata, StoreOptions, Store, present}
use tegg.Store.Lines.{Text, IsLine, encode, is_empty}

-- A resolved put or append has written its key and no other.
pub record ClientLaws {S : Type 0} (client : ObjectStorageClient S) : Type 0 where
  pub get_put :
      (s : S) (key : String) (value : Text) (k : String)
      → (client.put s key value).1 ≡ true
      → client.get (client.put s key value).0 k ≡ (if key == k then some value else client.get s k)
  pub get_append :
      (append : S → String → Text → S × Bool)
      → client.append ≡ some append
      → (s : S) (key : String) (value : Text) (k : String) → (append s key value).1 ≡ true
      → client.get (append s key value).0 k ≡ (
          if key == k
          then elim (client.get s key) [ none ↦ some value | some old ↦ some (old ++ value) ]
          else client.get s k)

-- What was written is read back, and is one line with no space around it.
pub record JsonLaws {A : Type 0} (json : Json A) : Type 0 where
  pub parse_stringify : (a : A) → json.parse (json.stringify a) ≡ some a
  pub line : (a : A) → IsLine (json.stringify a)

pub record Laws {S J : Type 0} (env : StoreOptions S J) : Type 0 where
  pub client : ClientLaws env.client
  pub thread_json : JsonLaws env.thread_json
  pub message_json : JsonLaws env.message_json
  pub run_json : JsonLaws env.run_json
  -- The keys of a thread's two objects differ.
  pub keys_differ : (id : String) → (env.meta_key id == env.messages_key id) ≡ false

pub present_filled : (t : Text) → is_empty t ≡ false → present (some t) ≡ some t
present_filled [] h = cc
present_filled (c ∷ cs) h = refl

module _ {S J : Type 0} where
  abbrev pub text_of : StoreOptions S J → List (AgentMessage J) → Text
  text_of env messages = encode (map (λ m. env.message_json.stringify m) messages)

  -- The objects of the thread hold this metadata and these messages.
  pub record IsStored (env : StoreOptions S J) (id : String) (meta : ThreadMetadata J)
      (messages : List (AgentMessage J)) (s : Store S J) : Type 0 where
    pub meta_stored :
        env.client.get s.objects (env.meta_key id) ≡ some (env.thread_json.stringify meta)
    pub messages_stored :
        (env.client.get s.objects (env.messages_key id) ≡ none) × (messages ≡ [])
        ⊎ (env.client.get s.objects (env.messages_key id) ≡ some (text_of env messages))

  -- The metadata is found by the test of every operation, and is read as it was written.
  pub meta_present :
      (env : StoreOptions S J) (laws : Laws env) (id : String) (meta : ThreadMetadata J)
      (messages : List (AgentMessage J)) (s : Store S J)
      → IsStored env id meta messages s
      → present (env.client.get s.objects (env.meta_key id)) ≡ some (env.thread_json.stringify meta)
  meta_present env laws id meta messages s stored =
      ap present stored.meta_stored
      ∙ present_filled (env.thread_json.stringify meta) (laws.thread_json.line meta).filled
