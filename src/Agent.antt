-- ===== src/Agent.antt =====
-- core/agent-runtime and its types in core/types/agent-runtime.
-- `J` stands for the JSON values that the runtime passes through and never inspects.
pub mod Tests
pub mod Run
pub mod Message
pub mod Flush
pub mod Cancel
pub mod Stream
use tegg.Prelude.{ℕ, ◌/◌, String, Bool, true, false, List, Option, none, some, ℤ}
use tegg.Prelude.JsMap.{JsMap}

pub data RunStatus : Type 0 where
  queued in_progress completed failed cancelled cancelling expired : RunStatus

pub data AgentError : Type 0 where
  not_found : String → AgentError
  invalid_request : String → AgentError
  conflict : RunStatus → AgentError
  invalid_run_state_transition : RunStatus → RunStatus → AgentError
  timeout : AgentError
  -- An error of the executor or of the store, with its message.
  other : String → AgentError

pub record RunUsage : Type 0 where
  pub prompt_tokens : ℕ
  pub completion_tokens : ℕ
  pub total_tokens : ℕ

pub record LastError : Type 0 where
  pub code : String
  pub message : String

pub record AgentRunConfig : Type 0 where
  pub max_iterations : Option ℕ
  pub timeout_ms : Option ℕ

pub record InputMessage (J : Type 0) : Type 0 where
  pub role : String
  pub content : J

-- `null` and a missing field are both `none`: the code reads them through `??`.
pub record RunRecord (J : Type 0) : Type 0 where
  pub id : String
  pub thread_id : Option String
  pub status : RunStatus
  pub input : List (InputMessage J)
  pub last_error : Option LastError
  pub usage : Option RunUsage
  pub config : Option AgentRunConfig
  pub metadata : Option (JsMap String J)
  pub created_at : ℕ
  pub started_at : Option ℕ
  pub completed_at : Option ℕ
  pub cancelled_at : Option ℕ
  pub failed_at : Option ℕ
  pub started_at_ms : Option ℕ
  pub completed_at_ms : Option ℕ
  pub duration_ms : Option ℤ
  pub api_duration_ms : Option ℕ

-- `Partial<RunRecord>`: a field that is not given is `none`.
pub record RunUpdate : Type 0 where
  pub status : Option RunStatus
  pub last_error : Option (Option LastError)
  pub usage : Option (Option RunUsage)
  pub started_at : Option (Option ℕ)
  pub completed_at : Option (Option ℕ)
  pub cancelled_at : Option (Option ℕ)
  pub failed_at : Option (Option ℕ)
  pub started_at_ms : Option (Option ℕ)
  pub completed_at_ms : Option (Option ℕ)
  pub duration_ms : Option (Option ℤ)
  pub api_duration_ms : Option (Option ℕ)

abbrev pub no_update : RunUpdate
no_update = record {
  status = none;
  last_error = none;
  usage = none;
  started_at = none;
  completed_at = none;
  cancelled_at = none;
  failed_at = none;
  started_at_ms = none;
  completed_at_ms = none;
  duration_ms = none;
  api_duration_ms = none;
}

abbrev pub given {ℓ} : {A : Type ℓ} → Option A → A → A
given none old = old
given (some new) old = new

-- `Object.assign(run, updates)` as `updateRun` makes it: `id` and `object` are left alone.
unfoldable pub assign : {J : Type 0} → RunRecord J → RunUpdate → RunRecord J
assign run u = record run {
  status = given u.status run.status;
  last_error = given u.last_error run.last_error;
  usage = given u.usage run.usage;
  started_at = given u.started_at run.started_at;
  completed_at = given u.completed_at run.completed_at;
  cancelled_at = given u.cancelled_at run.cancelled_at;
  failed_at = given u.failed_at run.failed_at;
  started_at_ms = given u.started_at_ms run.started_at_ms;
  completed_at_ms = given u.completed_at_ms run.completed_at_ms;
  duration_ms = given u.duration_ms run.duration_ms;
  api_duration_ms = given u.api_duration_ms run.api_duration_ms;
}

-- `nowUnix` of a clock reading in milliseconds.
unfoldable pub now_unix : ℕ → ℕ
now_unix now_ms = now_ms / 1000
