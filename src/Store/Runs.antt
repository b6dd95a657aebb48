-- ===== src/Store/Runs.antt =====
-- The operations of OSSAgentStore.ts on runs, and the tasks that settle in the background.
use tegg.Prelude.{
  ℕ, String, List, [], ◌∷◌, ◌++◌, Option, none, some, Result, ok, err, ◌==◌, nat_key, string_key,
  if◌then◌else◌,
}
use tegg.Prelude.JsMap.{JsMap, get, delete}
use tegg.Agent.{
  AgentError, not_found, RunRecord, RunUpdate, AgentRunConfig, InputMessage, queued, assign,
  now_unix,
}
use tegg.Store.{
  StoreOptions, ThrottleEntry, Task, index_write, latest_run, Store, Outcome, present,
  parse_or_throw, then_do, syntax_error, put_object,
}

unfoldable pub new_run :
    {J : Type 0}
    → String
    → ℕ
    → List (InputMessage J)
    → Option String
    → Option AgentRunConfig
    → Option (JsMap String J)
    → RunRecord J
unfolding now_unix
new_run run_id now_ms input thread_id config metadata = record {
  id = run_id;
  thread_id = thread_id;
  status = queued;
  input = input;
  last_error = none;
  usage = none;
  config = config;
  metadata = metadata;
  created_at = now_unix now_ms;
  started_at = none;
  completed_at = none;
  cancelled_at = none;
  failed_at = none;
  started_at_ms = none;
  completed_at_ms = none;
  duration_ms = none;
  api_duration_ms = none;
}

module _ {S J : Type 0} where
  -- The pointer to the run is written in the background.
  abbrev schedule_latest : String → Option String → Store S J → Store S J
  schedule_latest run_id none s = s
  schedule_latest run_id (some thread_id) s = if thread_id == "" then s else record s {
    pending_index_writes = s.pending_index_writes ++ latest_run thread_id run_id ∷ [];
  }

  unfoldable pub create_run :
      StoreOptions S J
      → String
      → ℕ
      → List (InputMessage J)
      → Option String
      → Option AgentRunConfig
      → Option (JsMap String J)
      → Store S J
      → Outcome S J (RunRecord J)
  unfolding put_object new_run
  create_run env run_id now_ms input thread_id config metadata s =
      let run = new_run run_id now_ms input thread_id config metadata in
      then_do (put_object env (env.run_key run_id) (env.run_json.stringify run) s)
        (λ _ t. (schedule_latest run_id thread_id t, ok run))

  unfoldable pub get_run : StoreOptions S J → String → Store S J → Result AgentError (RunRecord J)
  get_run env run_id s = elim (present (env.client.get s.objects (env.run_key run_id))) [
    | none ↦ err (not_found run_id)
    | some content ↦ parse_or_throw (env.run_json.parse content)
  ]

  unfoldable pub update_run :
      StoreOptions S J → String → RunUpdate → Store S J → Outcome S J (Unit {0})
  unfolding get_run put_object assign
  update_run env run_id updates s = elim (get_run env run_id s) [
    | err e ↦ (s, err e)
    | ok run ↦ put_object env (env.run_key run_id) (env.run_json.stringify (assign run updates)) s
  ]

  unfoldable pub get_latest_run_id :
      StoreOptions S J → String → Store S J → Result AgentError (Option String)
  get_latest_run_id env thread_id s =
      elim (present (env.client.get s.objects (env.meta_key thread_id))) [
        | none ↦ err (not_found thread_id)
        | some content ↦ elim (env.thread_json.parse content) [
          | none ↦ err syntax_error
          | some meta ↦ ok meta.latest_run_id
        ]
      ]

  -- Whatever fails is logged and swallowed.
  unfoldable pub record_latest_run_id : StoreOptions S J → String → String → Store S J → Store S J
  unfolding put_object
  record_latest_run_id env thread_id run_id s =
      elim (present (env.client.get s.objects (env.meta_key thread_id))) [
        | none ↦ s
        | some content ↦ elim (env.thread_json.parse content) [
          | none ↦ s
          | some meta ↦
              (put_object env (env.meta_key thread_id)
                (env.thread_json.stringify (record meta { latest_run_id = some run_id })) s).0
        ]
      ]

  -- A rejected index write takes back its own throttle entry, and no newer one.
  abbrev pub roll_back : String → Option ThrottleEntry → Store S J → Store S J
  roll_back thread_id none s = s
  roll_back thread_id (some entry) s = elim (get thread_id s.last_append_index_at_ms) [
    | none ↦ s
    | some last ↦
        if last.serial == entry.serial
        then record s { last_append_index_at_ms = delete thread_id s.last_append_index_at_ms }
        else s
  ]

  abbrev pub written : String → Option ThrottleEntry → Outcome S J (Unit {0}) → Store S J
  written thread_id entry (t, ok _) = t
  written thread_id entry (t, err _) = roll_back thread_id entry t

  unfoldable pub settle : StoreOptions S J → Task J → Store S J → Store S J
  unfolding put_object record_latest_run_id get
  settle env (index_write thread_id key body entry) s =
      written thread_id entry (put_object env key body s)
  settle env (latest_run thread_id run_id) s = record_latest_run_id env thread_id run_id s
