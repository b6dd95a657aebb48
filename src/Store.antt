-- ===== src/Store.antt =====
-- core/agent-runtime/src/OSSAgentStore.ts: threads and runs as objects of an `ObjectStorageClient`.
-- The client, the JSON of the records and the texts of the activity index are parameters. A put or
-- an append that rejects leaves any state; a read does not reject. Each operation runs without
-- another between its steps, as the locks per thread have it; what it leaves to the background is a
-- list of tasks, each settled as a step of its own.
pub mod Lines
pub mod Threads
pub mod Runs
pub mod Laws
pub mod Stamps
pub mod Updates
pub mod Transcript
pub mod Throttle
pub mod Metadata
pub mod Tests
use tegg.Prelude.{
  ℕ, ◌/◌, String, Bool, true, false, List, [], ◌∷◌, ◌++◌, Option, none, some, Result, ok, err, ◌==◌,
  nat_key, if◌then◌else◌,
}
use tegg.Prelude.JsMap.{JsMap}
use tegg.Agent.{AgentError, RunRecord, not_found, other}
use tegg.Agent.Message.{AgentMessage}
use tegg.Store.Lines.{Text}

pub record ObjectStorageClient (S : Type 0) : Type 0 where
  pub get : S → String → Option Text
  -- Whether the call resolved.
  pub put : S → String → Text → S × Bool
  pub append : Option (S → String → Text → S × Bool)
  pub get_range : Option (S → String → ℕ → ℕ → Option Text)

-- `JSON.stringify` and `JSON.parse` for one type; `none` is a SyntaxError.
pub record Json (A : Type 0) : Type 0 where
  pub stringify : A → Text
  pub parse : Text → Option A

pub record ThreadMetadata (J : Type 0) : Type 0 where
  pub id : String
  pub metadata : JsMap String J
  pub created_at : ℕ
  pub latest_run_id : Option String

pub record ThreadRecord (J : Type 0) : Type 0 where
  pub meta : ThreadMetadata J
  pub messages : List (AgentMessage J)

pub record StoreOptions (S J : Type 0) : Type 0 where
  pub client : ObjectStorageClient S
  pub thread_json : Json (ThreadMetadata J)
  pub message_json : Json (AgentMessage J)
  pub run_json : Json (RunRecord J)
  pub meta_key : String → String
  pub messages_key : String → String
  pub run_key : String → String
  pub index_key : ℕ → String → String
  pub index_body : String → ℕ → ℕ → JsMap String J → Text
  pub index_throttle_ms : ℕ

-- The bucket of a time is its day; the serial stands for the identity of the object.
pub record ThrottleEntry : Type 0 where
  pub ms : ℕ
  pub bucket : ℕ
  pub serial : ℕ

pub data Task (J : Type 0) : Type 0 where
  index_write : String → String → Text → Option ThrottleEntry → Task J
  latest_run : String → String → Task J

pub record Store (S J : Type 0) : Type 0 where
  pub objects : S
  pub pending_index_writes : List (Task J)
  pub last_append_index_at_ms : JsMap String ThrottleEntry
  pub next_serial : ℕ

-- What an operation leaves and answers.
abbrev pub Outcome : Type 0 → Type 0 → Type 0 → Type 0
Outcome S J A = Store S J × Result AgentError A

abbrev pub syntax_error : AgentError
syntax_error = other "SyntaxError"

abbrev pub rejected : AgentError
rejected = other "rejected"

-- `if (!data)`: a missing and an empty object are alike.
abbrev pub present : Option Text → Option Text
present none = none
present (some []) = none
present (some (c ∷ cs)) = some (c ∷ cs)

abbrev pub parse_or_throw : {A : Type 0} → Option A → Result AgentError A
parse_or_throw none = err syntax_error
parse_or_throw (some a) = ok a

-- `await`: go on with the answer, or throw what was thrown.
abbrev pub then_do :
    {S J A B : Type 0} → Outcome S J A → (A → Store S J → Outcome S J B) → Outcome S J B
then_do (t, ok a) f = f a t
then_do (t, err e) f = (t, err e)

module _ {S J : Type 0} where
  -- `put`, and `throw` where it rejects.
  unfoldable pub put_object : StoreOptions S J → String → Text → Store S J → Outcome S J (Unit {0})
  put_object env key value s =
      let r = env.client.put s.objects key value in
      (record s { objects = r.0 }, if r.1 then ok tt else err rejected)

  unfoldable pub write_thread_activity_index :
      StoreOptions S J
      → String
      → ℕ
      → ℕ
      → JsMap String J
      → Option ThrottleEntry
      → Store S J
      → Store S J
  write_thread_activity_index env thread_id created_at updated_at_ms metadata entry s = record s {
    pending_index_writes =
        s.pending_index_writes
        ++ index_write thread_id (env.index_key updated_at_ms thread_id)
            (env.index_body thread_id created_at (updated_at_ms / 1000) metadata) entry
          ∷ [];
  }
