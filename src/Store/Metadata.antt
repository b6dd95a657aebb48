-- ===== src/Store/Metadata.antt =====
-- The two writers of a thread's metadata do not lose each other's fields, and runs are read as updated.
use tegg.Prelude.{
  ℕ, ◌≡◌, inl, inr, refl, sym, ap, ◌∙◌, String, true, List, [], ◌∷◌, Option, none, some, ok,
  if◌then◌else◌, ◌==◌, string_key, eq_iff, arith, subst,
}
use tegg.Prelude.JsMap.{JsMap, get, set, get-set}
use tegg.Agent.{RunRecord, RunUpdate, assign}
use tegg.Agent.Message.{AgentMessage}
use tegg.Store.{
  ThreadMetadata, StoreOptions, Store, Outcome, latest_run, put_object, then_do, present,
  write_thread_activity_index,
}
use tegg.Store.Threads.{merge_metadata, update_thread_metadata}
use tegg.Store.Runs.{get_run, update_run, get_latest_run_id, record_latest_run_id, settle}
use tegg.Store.Updates.{IsUpdated, assign-IsUpdated}
use tegg.Store.Lines.{Text}
use tegg.Store.Laws.{Laws, IsStored, meta_present, present_filled}

-- The last value of a key, in the order of the entries.
unfoldable pub last_entry : {J : Type 0} → String → JsMap String J → Option J → Option J
last_entry k [] o = o
last_entry k ((j, v) ∷ m) o = last_entry k m (if j == k then some v else o)

-- Merging gives a key its last new value, and its old value where it has no new one.
pub get-merge_metadata :
    {J : Type 0} (k : String) (old new : JsMap String J)
    → get k (merge_metadata old new) ≡ last_entry k new (get k old)
unfolding merge_metadata last_entry
get-merge_metadata k old [] = refl
get-merge_metadata k old ((j, v) ∷ new) =
    get-merge_metadata k (set j v old) new ∙ ap (last_entry k new) (get-set j k v old)

module _ {S J : Type 0} where
  put_meta-IsStored :
      (env : StoreOptions S J) (laws : Laws env) (id : String) (meta new_meta : ThreadMetadata J)
      (messages : List (AgentMessage J)) (s : Store S J)
      → IsStored env id meta messages s
      → (env.client.put s.objects (env.meta_key id) (env.thread_json.stringify new_meta)).1 ≡ true
      → IsStored env id new_meta messages
          (put_object env (env.meta_key id) (env.thread_json.stringify new_meta) s).0
  unfolding put_object
  put_meta-IsStored env laws id meta new_meta messages s stored done =
      let key = env.meta_key id in
      let written = env.thread_json.stringify new_meta in
      let at = λ (k : String). laws.client.get_put s.objects key written k done in
      record {
        meta_stored = ground (arith, at key, eq_iff key key);
        messages_stored = elim stored.messages_stored [
          | inl (gone, empty) ↦
              inl (ground (arith, at (env.messages_key id), laws.keys_differ id), empty)
          | inr found ↦ inr (ground (arith, at (env.messages_key id), laws.keys_differ id))
        ];
      }

  -- With a client and a JSON that keep their laws, settling the task of a new run, where its put
  -- resolves, points the thread at the run and leaves the rest of its metadata and its messages.
  pub settle-IsStored :
      (env : StoreOptions S J) (laws : Laws env) (id run_id : String) (meta : ThreadMetadata J)
      (messages : List (AgentMessage J)) (s : Store S J)
      → IsStored env id meta messages s
      → (env.client.put s.objects
          (env.meta_key id)
          (env.thread_json.stringify (record meta { latest_run_id = some run_id }))).1
        ≡ true
      → IsStored env id
          (record meta { latest_run_id = some run_id })
          messages
          (settle env (latest_run id run_id) s)
  unfolding settle record_latest_run_id
  settle-IsStored env laws id run_id meta messages s stored done =
      let new_meta : ThreadMetadata J = record meta { latest_run_id = some run_id } in
      let same : settle env (latest_run id run_id) s
          ≡ (put_object env (env.meta_key id) (env.thread_json.stringify new_meta) s).0 =
        ground (
          arith,
          meta_present env laws id meta messages s stored,
          laws.thread_json.parse_stringify meta,
        ) in
      subst (IsStored env id new_meta messages) (sym same)
        (put_meta-IsStored env laws id meta new_meta messages s stored done)

  -- The thread's latest run is read as it was recorded.
  pub get_latest_run_id-IsStored :
      (env : StoreOptions S J) (laws : Laws env) (id : String) (meta : ThreadMetadata J)
      (messages : List (AgentMessage J)) (s : Store S J)
      → IsStored env id meta messages s
      → get_latest_run_id env id s ≡ ok meta.latest_run_id
  unfolding get_latest_run_id
  get_latest_run_id-IsStored env laws id meta messages s stored = ground (
    arith,
    meta_present env laws id meta messages s stored,
    laws.thread_json.parse_stringify meta,
  )

  put_resolved :
      (env : StoreOptions S J) (key : String) (text : Text) (s : Store S J)
      (f : Unit {0} → Store S J → Outcome S J (Unit {0}))
      → (then_do (put_object env key text s) f).1 ≡ ok tt
      → ((env.client.put s.objects key text).1 ≡ true)
        × (then_do (put_object env key text s) f ≡ f tt (put_object env key text s).0)
  unfolding put_object
  put_resolved env key text s f done = ground arith

  update_metadata-merged :
      (env : StoreOptions S J) (laws : Laws env) (id : String) (now_ms : ℕ)
      (meta : ThreadMetadata J) (messages : List (AgentMessage J)) (new : JsMap String J)
      (s : Store S J)
      → IsStored env id meta messages s
      → (update_thread_metadata env id now_ms new s).1 ≡ ok tt
      → IsStored env id
          (record meta { metadata = merge_metadata meta.metadata new })
          messages
          (update_thread_metadata env id now_ms new s).0
  unfolding update_thread_metadata write_thread_activity_index
  update_metadata-merged env laws id now_ms meta messages [] s stored done =
      (unfold merge_metadata in stored)
  update_metadata-merged env laws id now_ms meta messages ((k, v) ∷ new) s stored done =
      let merged = merge_metadata meta.metadata ((k, v) ∷ new) in
      let new_meta : ThreadMetadata J = record meta { metadata = merged } in
      let text = env.thread_json.stringify new_meta in
      let finish : Unit {0} → Store S J → Outcome S J (Unit {0}) =
        λ _ t. (write_thread_activity_index env id meta.created_at now_ms merged none t, ok tt) in
      let same : update_thread_metadata env id now_ms ((k, v) ∷ new) s
          ≡ then_do (put_object env (env.meta_key id) text s) finish =
        ground (
          arith,
          meta_present env laws id meta messages s stored,
          laws.thread_json.parse_stringify meta,
        ) in
      let (resolved, ran) =
        put_resolved env (env.meta_key id) text s finish (ap (λ z. z.1) (sym same) ∙ done) in
      let kept = put_meta-IsStored env laws id meta new_meta messages s stored resolved in
      subst (λ z. IsStored env id new_meta messages z.0) (sym (same ∙ ran))
        (record { meta_stored = kept.meta_stored; messages_stored = kept.messages_stored })

  -- With a client and a JSON that keep their laws, updating the metadata of a stored thread,
  -- where it resolves, stores metadata that give each key its last new value, and its old value where
  -- it has no new one, and leaves the rest of the thread's record and the messages.
  pub update_thread_metadata-IsStored :
      (env : StoreOptions S J) (laws : Laws env) (id : String) (now_ms : ℕ)
      (meta : ThreadMetadata J) (messages : List (AgentMessage J)) (new : JsMap String J)
      (s : Store S J)
      → IsStored env id meta messages s
      → (update_thread_metadata env id now_ms new s).1 ≡ ok tt
      → (merged : JsMap String J) × IsStored env id
          (record meta { metadata = merged })
          messages
          (update_thread_metadata env id now_ms new s).0
        × ((k : String) → get k merged ≡ last_entry k new (get k meta.metadata))
  update_thread_metadata-IsStored env laws id now_ms meta messages new s stored done = (
    merge_metadata meta.metadata new,
    update_metadata-merged env laws id now_ms meta messages new s stored done,
    λ k. get-merge_metadata k meta.metadata new,
  )

  update_run-eq :
      (env : StoreOptions S J) (id : String) (run : RunRecord J) (u : RunUpdate) (s : Store S J)
      → get_run env id s ≡ ok run
      → update_run env id u s
        ≡ put_object env (env.run_key id) (env.run_json.stringify (assign run u)) s
  unfolding update_run
  update_run-eq env id run u s stored = rw (stored, update_run) refl

  put_object-get :
      (env : StoreOptions S J) (laws : Laws env) (key : String) (text : Text) (s : Store S J)
      (k : String)
      → (put_object env key text s).1 ≡ ok tt
      → env.client.get (put_object env key text s).0.objects k
        ≡ (if key == k then some text else env.client.get s.objects k)
  unfolding put_object
  put_object-get env laws key text s k done =
      ground (arith, laws.client.get_put s.objects key text k)

  get_run_stored :
      (env : StoreOptions S J) (laws : Laws env) (id : String) (run : RunRecord J) (s : Store S J)
      → env.client.get s.objects (env.run_key id) ≡ some (env.run_json.stringify run)
      → get_run env id s ≡ ok run
  unfolding get_run
  get_run_stored env laws id run s stored = ground (
    arith,
    ap present stored,
    present_filled (env.run_json.stringify run) (laws.run_json.line run).filled,
    laws.run_json.parse_stringify run,
  )

  -- With a client and a JSON that keep their laws, a stored run that was updated, where that
  -- resolves, is read with each field that the update gives at the given value and every other field
  -- as it was; its object holds that run, and every object under another key is as before.
  pub get_run-update_run :
      (env : StoreOptions S J) (laws : Laws env) (id : String) (run : RunRecord J) (u : RunUpdate)
      (s : Store S J) (key : String)
      → get_run env id s ≡ ok run
      → (update_run env id u s).1 ≡ ok tt
      → (now : RunRecord J) × (get_run env id (update_run env id u s).0 ≡ ok now)
        × IsUpdated run u now
        × (env.client.get (update_run env id u s).0.objects key ≡ (
            if env.run_key id == key
            then some (env.run_json.stringify now)
            else env.client.get s.objects key))
  get_run-update_run env laws id run u s key stored done =
      let same = update_run-eq env id run u s stored in
      let own = env.run_key id in
      let text = env.run_json.stringify (assign run u) in
      let written : (put_object env own text s).1 ≡ ok tt = ap (λ z. z.1) (sym same) ∙ done in
      (
        assign run u,
        rw same (
            get_run_stored env laws id (assign run u) (put_object env own text s).0
              (ground (arith, put_object-get env laws own text s own written, eq_iff own own))),
        assign-IsUpdated run u,
        rw same (put_object-get env laws own text s key written),
      )
