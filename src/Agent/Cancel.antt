-- ===== src/Agent/Cancel.antt =====
-- core/agent-runtime/src/AgentRuntime.ts: one run executed by `syncRun`, `asyncRun` or `streamRun`,
-- while `cancelRun` is called on it any number of times, one call after another, and an outer signal
-- or `destroy` may abort it. A step is the code between two waits. The store's calls resolve; the
-- executor and the final flush may throw, and the executor yields at most the given messages.
pub mod Steps
pub mod Invariant
pub mod Safety
pub mod Measure
pub mod Progress
pub mod Tests
use tegg.Prelude.{ℕ, suc, ◌≡◌, String, Bool, true, false, ◌||◌, Option, Result, ok, err}
use tegg.Agent.{
  RunStatus, queued, in_progress, completed, failed, cancelled, cancelling, expired, AgentError,
  RunUsage, RunRecord, RunUpdate, assign,
}
use tegg.Agent.Run.{
  RunBuilder, create, from_record, starts, completes, fails, begins_cancelling, cancels, call,
}

-- `TERMINAL_RUN_STATUSES.has`
unfoldable pub is_terminal : RunStatus → Bool
is_terminal completed = true
is_terminal failed = true
is_terminal cancelled = true
is_terminal expired = true
is_terminal _ = false

-- `POST_LOOP_TERMINAL_STATUSES.has`
unfoldable pub is_post_loop_terminal : RunStatus → Bool
is_post_loop_terminal cancelling = true
is_post_loop_terminal cancelled = true
is_post_loop_terminal failed = true
is_post_loop_terminal expired = true
is_post_loop_terminal _ = false

-- The test of the `catch` blocks of `asyncRun` and `executeStreamBackground`.
unfoldable pub is_cancel_status : RunStatus → Bool
is_cancel_status cancelling = true
is_cancel_status cancelled = true
is_cancel_status _ = false

-- The test of `finaliseAbortedRun`.
unfoldable pub is_settled : RunStatus → Bool
unfolding is_terminal
is_settled cancelling = true
is_settled s = is_terminal s

pub data Mode : Type 0 where
  sync async stream : Mode

-- The stored run, `task.committed` and `task.abortController.signal.aborted`.
pub record Shared (J : Type 0) : Type 0 where
  pub run : RunRecord J
  pub committed : Bool
  pub aborted : Bool

-- What the execution of the run does next, with its builder.
pub data Worker (J : Type 0) : Type 0 where
  starting : (messages : ℕ) → RunBuilder J → Worker J
  running : (messages : ℕ) → RunBuilder J → Worker J
  checking : RunBuilder J → Worker J  -- `getRun` after the loop
  flushing : RunBuilder J → Worker J  -- `flush(true)`
  completing : RunBuilder J → Worker J
  catching : RunBuilder J → Worker J
  rechecking : RunBuilder J → Worker J  -- `getRun` in the `catch` block
  failing : RunBuilder J → Worker J
  finalising : Worker J  -- `getRun` in `finaliseAbortedRun`
  marking_aborted : RunBuilder J → Worker J
  cancelling_aborted : RunBuilder J → Worker J
  finishing : Worker J  -- the `finally` block
  ended : Worker J

-- What the current call of `cancelRun` does next, with the builder that it restored.
pub data Canceller (J : Type 0) : Type 0 where
  idle : Canceller J
  reading : Canceller J
  marking : RunBuilder J → Canceller J
  looking : RunBuilder J → Canceller J  -- `runningTasks.get`
  waiting : RunBuilder J → Canceller J  -- `waitForCommitted`
  timing_out : RunBuilder J → Canceller J
  aborting_late : Canceller J
  joining_late : Canceller J
  aborting : RunBuilder J → Canceller J
  joining : RunBuilder J → Canceller J
  rereading : RunBuilder J → Canceller J
  closing : RunBuilder J → Canceller J

-- The task has left `runningTasks`, and its promise is resolved.
unfoldable pub has_ended : {J : Type 0} → Worker J → Bool
has_ended ended = true
has_ended _ = false

module _ {J : Type 0} where
  -- `updateRun` with what a builder's method returned.
  unfoldable pub write : Shared J → RunUpdate → Shared J
  write m u = record m { run = assign m.run u }

  -- `markCommittedIfNeeded`, when the message is or is not a commit.
  unfoldable pub commit : Bool → Shared J → Shared J
  commit c m = record m { committed = m.committed || c }

  -- After the loop of a run whose status was set by another.
  unfoldable pub respect : Mode → Worker J
  respect sync = finalising
  respect _ = finishing

  -- The `catch` block of a run that was not aborted.
  unfoldable pub recover : Mode → RunBuilder J → Worker J
  recover sync rb = failing rb
  recover _ rb = rechecking rb
