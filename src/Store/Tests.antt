-- ===== src/Store/Tests.antt =====
-- A client and a JSON that keep the laws, and the theorems at them.
pub mod Codec
pub mod Records
use tegg.Prelude.{
  ℕ, ◌/◌, ◌+◌, ◌≤◌, ◌<◌, ◌≡◌, ◌⊎◌, inl, inr, refl, subst, ap, String, Bool, true, false, List, [],
  ◌∷◌, ◌++◌, map, Option, none, some, Result, ok, err, if◌then◌else◌, ◌==◌, string_key, arith,
  length, eq_iff,
}
use tegg.Prelude.JsMap.{JsMap, get, set, get-set}
use tegg.Agent.{RunRecord, RunUpdate, queued, in_progress, no_update, assign}
use tegg.Agent.Message.{AgentMessage, is_conversation_message}
use tegg.Store.{
  ObjectStorageClient, Json, ThreadMetadata, StoreOptions, Store, ThrottleEntry, Task, latest_run,
  index_write, put_object, write_thread_activity_index,
}
use tegg.Store.Lines.{Text, encode}
use tegg.Store.Threads.{
  append_messages, get_thread, update_thread_metadata, merge_metadata, index_append, stamp,
  max_throttle_entries, ms_per_day, is_throttled, append_text,
}
use tegg.Store.Runs.{settle, get_run, update_run, get_latest_run_id}
use tegg.Store.Laws.{ClientLaws, Laws, IsStored}
use tegg.Store.Transcript.{get_thread-IsStored, append_messages-IsStored}
use tegg.Store.Throttle.{append_messages_size, index_append_lem, settle_rejected}
use tegg.Store.Stamps.{AreStamped}
use tegg.Store.Updates.{IsUpdated}
use tegg.Store.Metadata.{
  settle-IsStored, update_thread_metadata-IsStored, get_run-update_run, get-merge_metadata,
  last_entry,
}
use tegg.Store.Tests.Records.{json_of, json_of-JsonLaws, thread_codec, message_codec, run_codec}

abbrev Objects : Type 0
Objects = JsMap String Text

appended : Option Text → Text → Text
appended none value = value
appended (some old) value = old ++ value

abbrev client : Bool → ObjectStorageClient Objects
client resolves = record {
  get = λ s key. get key s;
  put = λ s key value. (set key value s, resolves);
  append = some (λ s key value. (set key (appended (get key s) value) s, resolves));
  get_range = none;
}

abbrev append_client : Bool → Objects → String → Text → Objects × Bool
append_client resolves s key value = (set key (appended (get key s) value) s, resolves)

given_append :
    Option (Objects → String → Text → Objects × Bool) → Objects → String → Text → Objects × Bool
given_append none = append_client true
given_append (some append) = append

append_law :
    (resolves : Bool) (s : Objects) (key : String) (value : Text) (k : String)
    → get k (append_client resolves s key value).0 ≡ (
        if key == k
        then elim (get key s) [ none ↦ some value | some old ↦ some (old ++ value) ]
        else get k s)
unfolding appended
append_law resolves s key value k = ground (arith, get-set key k (appended (get key s) value) s)

client-ClientLaws : (resolves : Bool) → ClientLaws (client resolves)
unfolding given_append
client-ClientLaws resolves = record {
  get_put = λ s key value k done. get-set key k value s;
  get_append = λ append e s key value k done.
      subst
        (λ (f : Objects → String → Text → Objects × Bool). get k (f s key value).0 ≡ (
          if key == k
          then elim (get key s) [ none ↦ some value | some old ↦ some (old ++ value) ]
          else get k s))
        (ap given_append e) (append_law resolves s key value k);
}

abbrev env : Bool → StoreOptions Objects ℕ
env resolves = record {
  client = client resolves;
  thread_json = json_of thread_codec;
  message_json = json_of message_codec;
  run_json = json_of run_codec;
  meta_key = λ id. "meta";
  messages_key = λ id. "messages";
  run_key = λ id. "run";
  index_key = λ now_ms id. "index";
  index_body = λ id created_at updated_at metadata. created_at ∷ [];
  index_throttle_ms = 5000;
}

env-Laws : Laws (env true)
env-Laws = record {
  client = client-ClientLaws true;
  thread_json = json_of-JsonLaws thread_codec;
  message_json = json_of-JsonLaws message_codec;
  run_json = json_of-JsonLaws run_codec;
  keys_differ = λ id. refl;
}

abbrev meta : ThreadMetadata ℕ
meta = record { id = "t"; metadata = ("title", 1) ∷ []; created_at = 7; latest_run_id = none }

abbrev message : AgentMessage ℕ
message = record {
  type = some "user";
  subtype = none;
  egg_ext = none;
  usage = none;
  duration_api_ms = none;
  body = 3;
}

abbrev store : Store Objects ℕ
store = record {
  objects = ("meta", (json_of thread_codec).stringify meta) ∷ [];
  pending_index_writes = [];
  last_append_index_at_ms = [];
  next_serial = 0;
}

store-IsStored : IsStored (env true) "t" meta [] store
unfolding get
store-IsStored = record { meta_stored = refl; messages_stored = inl (refl, refl) }

get_thread-IsStored_example :
    get_thread (env true) "t" true store ≡ ok (record { meta = meta; messages = [] })
get_thread-IsStored_example =
    get_thread-IsStored (env true) env-Laws "t" meta [] store true store-IsStored

appended_ok : (append_messages (env true) "t" 8000 (message ∷ []) store).1 ≡ ok tt
unfolding append_messages append_text get
appended_ok = ground (arith, (json_of-JsonLaws thread_codec).parse_stringify meta)

append_messages-IsStored_example :
    (stamped : List (AgentMessage ℕ)) × AreStamped 8000 (message ∷ []) stamped
    × IsStored
        (env true)
        "t"
        meta
        ([] ++ stamped)
        (append_messages (env true) "t" 8000 (message ∷ []) store).0
append_messages-IsStored_example =
    append_messages-IsStored (env true) env-Laws "t" 8000 meta [] (message ∷ []) store
      store-IsStored appended_ok

append_messages_size_example :
    length (append_messages (env true) "t" 8000 (message ∷ []) store).0.last_append_index_at_ms
    ≤ max_throttle_entries
append_messages_size_example =
    append_messages_size (env true) "t" 8000 (message ∷ []) store (omega arith)

abbrev entry : ThrottleEntry
entry = record { ms = 8000; bucket = 0; serial = 0 }

abbrev throttled_store : Store Objects ℕ
throttled_store = record store { last_append_index_at_ms = ("t", entry) ∷ [] }

own_entry : get "t" throttled_store.last_append_index_at_ms ≡ some entry
unfolding get
own_entry = refl

settle-IsStored_example :
    IsStored
      (env true)
      "t"
      (record meta { latest_run_id = some "r" })
      []
      (settle (env true) (latest_run "t" "r") store)
settle-IsStored_example =
    settle-IsStored (env true) env-Laws "t" "r" meta [] store store-IsStored refl

updated_ok : (update_thread_metadata (env true) "t" 9000 (("title", 2) ∷ []) store).1 ≡ ok tt
unfolding update_thread_metadata put_object get
updated_ok = ground (arith, (json_of-JsonLaws thread_codec).parse_stringify meta)

update_thread_metadata-IsStored_example :
    (merged : JsMap String ℕ) × IsStored
      (env true)
      "t"
      (record meta { metadata = merged })
      []
      (update_thread_metadata (env true) "t" 9000 (("title", 2) ∷ []) store).0
    × ((k : String) → get k merged ≡ last_entry k (("title", 2) ∷ []) (get k meta.metadata))
update_thread_metadata-IsStored_example =
    update_thread_metadata-IsStored (env true) env-Laws "t" 9000 meta [] (("title", 2) ∷ []) store
      store-IsStored updated_ok

abbrev run : RunRecord ℕ
run = record {
  id = "r";
  thread_id = some "t";
  status = queued;
  input = [];
  last_error = none;
  usage = none;
  config = none;
  metadata = none;
  created_at = 7;
  started_at = none;
  completed_at = none;
  cancelled_at = none;
  failed_at = none;
  started_at_ms = none;
  completed_at_ms = none;
  duration_ms = none;
  api_duration_ms = none;
}

abbrev run_store : Store Objects ℕ
run_store = record store { objects = ("run", (json_of run_codec).stringify run) ∷ [] }

abbrev update : RunUpdate
update = record no_update { status = some in_progress }

run_stored : get_run (env true) "r" run_store ≡ ok run
unfolding get_run get
run_stored = ground (arith, (json_of-JsonLaws run_codec).parse_stringify run)

run_updated : (update_run (env true) "r" update run_store).1 ≡ ok tt
unfolding update_run put_object
run_updated = ground (arith, run_stored)

get_run-update_run_example :
    (now : RunRecord ℕ) × (get_run (env true) "r" (update_run (env true) "r" update run_store).0
      ≡ ok now)
    × IsUpdated run update now
    × (get "meta" (update_run (env true) "r" update run_store).0.objects ≡ (
        if (env true).run_key "r" == "meta"
        then some ((json_of run_codec).stringify now)
        else get "meta" run_store.objects))
get_run-update_run_example =
    get_run-update_run (env true) env-Laws "r" run update run_store "meta" run_stored run_updated
