-- ===== src/Agent/Cancel/Steps.antt =====
-- core/agent-runtime/src/AgentRuntime.ts: the steps of an execution, of `cancelRun` and of both.
use tegg.Prelude.{ℕ, suc, ◌≡◌, String, Bool, true, false, Option, ok, err}
use tegg.Agent.{AgentError, RunUsage, RunRecord, RunUpdate}
use tegg.Agent.Run.{
  RunBuilder, create, from_record, starts, completes, fails, begins_cancelling, cancels, call,
}
use tegg.Agent.Cancel.{
  Canceller, Mode, Shared, Worker, aborting, aborting_late, cancelling_aborted, catching, checking,
  closing, commit, completing, ended, failing, finalising, finishing, flushing, has_ended, idle,
  is_cancel_status, is_post_loop_terminal, is_settled, is_terminal, joining, joining_late, looking,
  marking, marking_aborted, reading, rechecking, recover, rereading, respect, running, starting,
  timing_out, waiting, write,
}

-- A step of the execution.
pub data Work {J : Type 0} (mode : Mode) (m : Shared J)
    : Worker J → Shared J → Worker J → Type 0 where
  start_run :
      (now : ℕ) {n : ℕ} {rb rb' : RunBuilder J} {u : RunUpdate}
      → call (starts now) rb ≡ ok (rb', u)
      → Work mode m (starting n rb) (write m u) (running n rb')
  start_throws :
      (now : ℕ) {n : ℕ} {rb : RunBuilder J} {e : AgentError}
      → call (starts now) rb ≡ err e
      → Work mode m (starting n rb) m (catching rb)
  take_message :
      {n : ℕ} {rb : RunBuilder J} (c : Bool)
      → m.aborted ≡ false
      → Work mode m (running (suc n) rb) (commit c m) (running n rb)
  see_abort :
      {n : ℕ} {rb : RunBuilder J} → m.aborted ≡ true → Work mode m (running n rb) m finalising
  see_end :
      {n : ℕ} {rb : RunBuilder J} → m.aborted ≡ false → Work mode m (running n rb) m (checking rb)
  loop_throws : {n : ℕ} {rb : RunBuilder J} → Work mode m (running n rb) m (catching rb)
  respect_status :
      {rb : RunBuilder J}
      → is_post_loop_terminal m.run.status ≡ true
      → Work mode m (checking rb) m (respect mode)
  go_on :
      {rb : RunBuilder J}
      → is_post_loop_terminal m.run.status ≡ false
      → Work mode m (checking rb) m (flushing rb)
  flush_all : {rb : RunBuilder J} → Work mode m (flushing rb) m (completing rb)
  flush_throws : {rb : RunBuilder J} → Work mode m (flushing rb) m (catching rb)
  complete_run :
      (now : ℕ) (usage : Option RunUsage) (api : Option ℕ) {rb rb' : RunBuilder J} {u : RunUpdate}
      → call (completes now usage api) rb ≡ ok (rb', u)
      → Work mode m (completing rb) (write m u) finishing
  complete_throws :
      (now : ℕ) (usage : Option RunUsage) (api : Option ℕ) {rb : RunBuilder J} {e : AgentError}
      → call (completes now usage api) rb ≡ err e
      → Work mode m (completing rb) m (catching rb)
  catch_abort : {rb : RunBuilder J} → m.aborted ≡ true → Work mode m (catching rb) m finalising
  catch_error :
      {rb : RunBuilder J} → m.aborted ≡ false → Work mode m (catching rb) m (recover mode rb)
  leave_cancelled :
      {rb : RunBuilder J}
      → is_cancel_status m.run.status ≡ true
      → Work mode m (rechecking rb) m finishing
  keep_failing :
      {rb : RunBuilder J}
      → is_cancel_status m.run.status ≡ false
      → Work mode m (rechecking rb) m (failing rb)
  fail_run :
      (now : ℕ) (message : String) {rb rb' : RunBuilder J} {u : RunUpdate}
      → call (fails now message) rb ≡ ok (rb', u)
      → Work mode m (failing rb) (write m u) finishing
  fail_throws :
      (now : ℕ) (message : String) {rb : RunBuilder J} {e : AgentError}
      → call (fails now message) rb ≡ err e
      → Work mode m (failing rb) m finishing
  find_settled : is_settled m.run.status ≡ true → Work mode m finalising m finishing
  find_open :
      is_settled m.run.status ≡ false
      → Work mode m finalising m (marking_aborted (from_record m.run))
  mark_aborted :
      {rb rb' : RunBuilder J} {u : RunUpdate}
      → call begins_cancelling rb ≡ ok (rb', u)
      → Work mode m (marking_aborted rb) (write m u) (cancelling_aborted rb')
  mark_throws :
      {rb : RunBuilder J} {e : AgentError}
      → call begins_cancelling rb ≡ err e
      → Work mode m (marking_aborted rb) m finishing
  cancel_aborted :
      (now : ℕ) {rb rb' : RunBuilder J} {u : RunUpdate}
      → call (cancels now) rb ≡ ok (rb', u)
      → Work mode m (cancelling_aborted rb) (write m u) finishing
  cancel_throws :
      (now : ℕ) {rb : RunBuilder J} {e : AgentError}
      → call (cancels now) rb ≡ err e
      → Work mode m (cancelling_aborted rb) m finishing
  finish : Work mode m finishing m ended

-- A step of a call of `cancelRun`, beside the execution.
pub data CancelRun {J : Type 0} (m : Shared J) (w : Worker J)
    : Canceller J → Shared J → Canceller J → Type 0 where
  conflicts : is_terminal m.run.status ≡ true → CancelRun m w reading m idle
  restores :
      is_terminal m.run.status ≡ false → CancelRun m w reading m (marking (from_record m.run))
  marks :
      {rb rb' : RunBuilder J} {u : RunUpdate}
      → call begins_cancelling rb ≡ ok (rb', u)
      → CancelRun m w (marking rb) (write m u) (looking rb')
  marking_throws :
      {rb : RunBuilder J} {e : AgentError}
      → call begins_cancelling rb ≡ err e
      → CancelRun m w (marking rb) m idle
  finds_none :
      {rb : RunBuilder J} → has_ended w ≡ true → CancelRun m w (looking rb) m (rereading rb)
  finds_committed :
      {rb : RunBuilder J}
      → has_ended w ≡ false
      → m.committed ≡ true
      → CancelRun m w (looking rb) m (aborting rb)
  holds :
      {rb : RunBuilder J}
      → has_ended w ≡ false
      → m.committed ≡ false
      → CancelRun m w (looking rb) m (waiting rb)
  sees_commit :
      {rb : RunBuilder J} → m.committed ≡ true → CancelRun m w (waiting rb) m (aborting rb)
  sees_end : {rb : RunBuilder J} → has_ended w ≡ true → CancelRun m w (waiting rb) m (aborting rb)
  times_out :
      {rb : RunBuilder J}
      → has_ended w ≡ false
      → m.committed ≡ false
      → CancelRun m w (waiting rb) m (timing_out rb)
  fails_late :
      (now : ℕ) (message : String) {rb rb' : RunBuilder J} {u : RunUpdate}
      → call (fails now message) rb ≡ ok (rb', u)
      → CancelRun m w (timing_out rb) (write m u) aborting_late
  failing_throws :
      (now : ℕ) (message : String) {rb : RunBuilder J} {e : AgentError}
      → call (fails now message) rb ≡ err e
      → CancelRun m w (timing_out rb) m aborting_late
  aborts_late : CancelRun m w aborting_late (record m { aborted = true }) joining_late
  joins_late : has_ended w ≡ true → CancelRun m w joining_late m idle
  aborts :
      {rb : RunBuilder J} → CancelRun m w (aborting rb) (record m { aborted = true }) (joining rb)
  joins : {rb : RunBuilder J} → has_ended w ≡ true → CancelRun m w (joining rb) m (rereading rb)
  finds_ended :
      {rb : RunBuilder J} → is_terminal m.run.status ≡ true → CancelRun m w (rereading rb) m idle
  finds_marked :
      {rb : RunBuilder J}
      → is_terminal m.run.status ≡ false
      → CancelRun m w (rereading rb) m (closing rb)
  closes :
      (now : ℕ) {rb rb' : RunBuilder J} {u : RunUpdate}
      → call (cancels now) rb ≡ ok (rb', u)
      → CancelRun m w (closing rb) (write m u) idle
  closing_throws :
      (now : ℕ) {rb : RunBuilder J} {e : AgentError}
      → call (cancels now) rb ≡ err e
      → CancelRun m w (closing rb) m idle

-- `calls` are the calls of `cancelRun` that are still to come.
pub record System (J : Type 0) : Type 0 where
  pub mem : Shared J
  pub worker : Worker J
  pub canceller : Canceller J
  pub calls : ℕ

pub data Step {J : Type 0} (mode : Mode) (s : System J) : System J → Type 0 where
  works :
      {m : Shared J} {w : Worker J}
      → Work mode s.mem s.worker m w
      → Step mode s (record s { mem = m; worker = w })
  advances :
      {m : Shared J} {c : Canceller J}
      → CancelRun s.mem s.worker s.canceller m c
      → Step mode s (record s { mem = m; canceller = c })
  calls_cancel :
      {k : ℕ}
      → s.canceller ≡ idle
      → s.calls ≡ suc k
      → Step mode s (record s { canceller = reading; calls = k })
  outer_abort :
      s.mem.aborted ≡ false → Step mode s (record s { mem = record s.mem { aborted = true } })

-- A run that `createRun` has stored, before its first step: the executor will yield at most
-- `messages`, and `cancelRun` will be called at most `calls` times.
abbrev pub begun : {J : Type 0} → RunRecord J → String → Bool → (messages calls : ℕ) → System J
begun run thread_id aborted messages calls = record {
  mem = record { run = run; committed = false; aborted = aborted };
  worker = starting messages (create run thread_id);
  canceller = idle;
  calls = calls;
}

pub data Reach {J : Type 0} (mode : Mode) (start : System J) : System J → Type 0 where
  here : Reach mode start start
  later : {s t : System J} → Reach mode start s → Step mode s t → Reach mode start t
