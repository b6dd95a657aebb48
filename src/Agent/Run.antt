-- ===== src/Agent/Run.antt =====
-- core/agent-runtime/src/RunBuilder.ts: the state machine of a run. The clock's reading is an argument.
pub mod Transitions
pub mod Timing
use tegg.Prelude.{ℕ, ◌/◌, String, Bool, true, false, Option, none, some, Result, ok, err, ℤ, sub_ℕ}
use tegg.Prelude.JsMap.{JsMap}
use tegg.Agent.{
  RunStatus, queued, in_progress, completed, failed, cancelled, cancelling, expired, AgentError,
  invalid_run_state_transition, RunUsage, LastError, AgentRunConfig, RunRecord, RunUpdate,
  no_update, now_unix,
}

pub record RunBuilder (J : Type 0) : Type 0 where
  pub id : String
  pub thread_id : String
  pub created_at : ℕ
  pub metadata : Option (JsMap String J)
  pub config : Option AgentRunConfig
  pub status : RunStatus
  pub started_at : Option ℕ
  pub completed_at : Option ℕ
  pub cancelled_at : Option ℕ
  pub failed_at : Option ℕ
  pub started_at_ms : Option ℕ
  pub completed_at_ms : Option ℕ
  pub duration_ms : Option ℤ
  pub api_duration_ms : Option ℕ
  pub last_error : Option LastError
  pub usage : Option RunUsage

-- The error code `AgentErrorCode.ExecError`.
abbrev pub exec_error : String
exec_error = "EXEC_ERROR"

-- `completedAtMs - startedAtMs`, or `null` for a run restored without a start.
abbrev pub elapsed : ℕ → Option ℕ → Option ℤ
elapsed now none = none
elapsed now (some started) = some (sub_ℕ now started)

abbrev pub failure : String → LastError
failure message = record { code = exec_error; message = message }

module _ {J : Type 0} where
  unfoldable pub create : RunRecord J → String → RunBuilder J
  create run thread_id = record {
    id = run.id;
    thread_id = thread_id;
    created_at = run.created_at;
    metadata = run.metadata;
    config = run.config;
    status = run.status;
    started_at = run.started_at;
    completed_at = run.completed_at;
    cancelled_at = run.cancelled_at;
    failed_at = run.failed_at;
    started_at_ms = run.started_at_ms;
    completed_at_ms = run.completed_at_ms;
    duration_ms = run.duration_ms;
    api_duration_ms = run.api_duration_ms;
    last_error = run.last_error;
    usage = run.usage;
  }

  unfoldable pub from_record : RunRecord J → RunBuilder J
  unfolding create
  from_record run = create run (elim run.thread_id [ none ↦ "" | some t ↦ t ])

  unfoldable pub start : ℕ → RunBuilder J → Result AgentError (RunBuilder J × RunUpdate)
  start now rb = elim rb.status [
    | queued ↦ ok (
      record rb { status = in_progress; started_at_ms = some now; started_at = some (now / 1000) },
      record no_update {
        status = some in_progress;
        started_at = some (some (now / 1000));
        started_at_ms = some (some now);
      },
    )
    | other ↦ err (invalid_run_state_transition other in_progress)
  ]

  unfoldable pub complete :
      ℕ → Option RunUsage → Option ℕ → RunBuilder J → Result AgentError (RunBuilder J × RunUpdate)
  complete now usage api_duration_ms rb = elim rb.status [
    | in_progress ↦ ok (
      record rb {
        status = completed;
        completed_at_ms = some now;
        completed_at = some (now / 1000);
        duration_ms = elapsed now rb.started_at_ms;
        api_duration_ms = api_duration_ms;
        usage = usage;
      },
      record no_update {
        status = some completed;
        usage = some usage;
        completed_at = some (some (now / 1000));
        completed_at_ms = some (some now);
        duration_ms = some (elapsed now rb.started_at_ms);
        api_duration_ms = some api_duration_ms;
      },
    )
    | other ↦ err (invalid_run_state_transition other completed)
  ]

  abbrev fail_now : ℕ → String → RunBuilder J → RunBuilder J × RunUpdate
  fail_now now message rb = (
    record rb {
      status = failed;
      failed_at = some (now_unix now);
      last_error = some (failure message);
    },
    record no_update {
      status = some failed;
      last_error = some (some (failure message));
      failed_at = some (some (now_unix now));
    },
  )

  unfoldable pub fail : ℕ → String → RunBuilder J → Result AgentError (RunBuilder J × RunUpdate)
  fail now message rb = elim rb.status [
    | in_progress ↦ ok (fail_now now message rb)
    | queued ↦ ok (fail_now now message rb)
    | cancelling ↦ ok (fail_now now message rb)
    | other ↦ err (invalid_run_state_transition other failed)
  ]

  abbrev cancelling_now : RunBuilder J → RunBuilder J × RunUpdate
  cancelling_now rb =
      (record rb { status = cancelling }, record no_update { status = some cancelling })

  unfoldable pub start_cancelling : RunBuilder J → Result AgentError (RunBuilder J × RunUpdate)
  start_cancelling rb = elim rb.status [
    | cancelling ↦ ok (rb, record no_update { status = some cancelling })
    | in_progress ↦ ok (cancelling_now rb)
    | queued ↦ ok (cancelling_now rb)
    | other ↦ err (invalid_run_state_transition other cancelling)
  ]

  unfoldable pub cancel : ℕ → RunBuilder J → Result AgentError (RunBuilder J × RunUpdate)
  cancel now rb = elim rb.status [
    | cancelling ↦ ok (
      record rb { status = cancelled; cancelled_at = some (now_unix now) },
      record no_update { status = some cancelled; cancelled_at = some (some (now_unix now)) },
    )
    | other ↦ err (invalid_run_state_transition other cancelled)
  ]

-- A call of one of the mutation methods.
pub data Call : Type 0 where
  starts : ℕ → Call
  completes : ℕ → Option RunUsage → Option ℕ → Call
  fails : ℕ → String → Call
  begins_cancelling : Call
  cancels : ℕ → Call

module _ {J : Type 0} where
  unfoldable pub call : Call → RunBuilder J → Result AgentError (RunBuilder J × RunUpdate)
  unfolding start complete fail start_cancelling cancel
  call (starts now) rb = start now rb
  call (completes now usage api) rb = complete now usage api rb
  call (fails now message) rb = fail now message rb
  call begins_cancelling rb = start_cancelling rb
  call (cancels now) rb = cancel now rb
