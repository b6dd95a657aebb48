-- ===== src/Agent/Cancel/Measure.antt =====
-- How many steps an execution has left at most: every step makes it less.
use tegg.Prelude.{ℕ, ◌+◌, ◌*◌, ◌<◌, ◌≡◌, Bool, true, false, arith}
use tegg.Agent.Cancel.{
  Canceller, Mode, Shared, Worker, aborting, aborting_late, cancelling_aborted, catching, checking,
  closing, commit, completing, ended, failing, finalising, finishing, flushing, idle, joining,
  joining_late, looking, marking, marking_aborted, reading, rechecking, recover, rereading, respect,
  running, starting, timing_out, waiting, write,
}
use tegg.Agent.Cancel.Steps.{
  CancelRun, Step, System, Work, aborts, aborts_late, advances, calls_cancel, cancel_aborted,
  cancel_throws, catch_abort, catch_error, closes, closing_throws, complete_run, complete_throws,
  conflicts, fail_run, fail_throws, failing_throws, fails_late, find_open, find_settled,
  finds_committed, finds_ended, finds_marked, finds_none, finish, flush_all, flush_throws, go_on,
  holds, joins, joins_late, keep_failing, leave_cancelled, loop_throws, mark_aborted, mark_throws,
  marking_throws, marks, outer_abort, respect_status, restores, see_abort, see_end, sees_commit,
  sees_end, start_run, start_throws, take_message, times_out, works,
}

-- The number of steps that the execution can still take.
abbrev pub work_left : {J : Type 0} → Worker J → ℕ
work_left (starting n _) = n + 10
work_left (running n _) = n + 9
work_left (checking _) = 8
work_left (flushing _) = 7
work_left (completing _) = 6
work_left (catching _) = 5
work_left (rechecking _) = 3
work_left (failing _) = 2
work_left finalising = 4
work_left (marking_aborted _) = 3
work_left (cancelling_aborted _) = 2
work_left finishing = 1
work_left ended = 0

-- The number of steps that the current call of `cancelRun` can still take.
abbrev pub cancel_left : {J : Type 0} → Canceller J → ℕ
cancel_left idle = 0
cancel_left reading = 8
cancel_left (marking _) = 7
cancel_left (looking _) = 6
cancel_left (waiting _) = 5
cancel_left (aborting _) = 4
cancel_left (joining _) = 3
cancel_left (rereading _) = 2
cancel_left (closing _) = 1
cancel_left (timing_out _) = 3
cancel_left aborting_late = 2
cancel_left joining_late = 1

abbrev pub abort_left : Bool → ℕ
abort_left false = 1
abort_left true = 0

module _ {J : Type 0} where
  abbrev pub left : System J → ℕ
  left s = work_left s.worker + (cancel_left s.canceller + (9 * s.calls + abort_left s.mem.aborted))

  Work-left :
      {mode : Mode} {m m' : Shared J} {w w' : Worker J}
      → Work mode m w m' w'
      → (work_left w' < work_left w) × (m'.aborted ≡ m.aborted)
  unfolding write commit respect recover
  Work-left (start_run now h) = ground arith
  Work-left (start_throws now h) = ground arith
  Work-left (take_message _ h) = ground arith
  Work-left (see_abort h) = ground arith
  Work-left (see_end h) = ground arith
  Work-left loop_throws = ground arith
  Work-left {mode} (respect_status h) = ground arith
  Work-left (go_on h) = ground arith
  Work-left flush_all = ground arith
  Work-left flush_throws = ground arith
  Work-left (complete_run now usage api h) = ground arith
  Work-left (complete_throws now usage api h) = ground arith
  Work-left (catch_abort h) = ground arith
  Work-left {mode} (catch_error h) = ground arith
  Work-left (leave_cancelled h) = ground arith
  Work-left (keep_failing h) = ground arith
  Work-left (fail_run now message h) = ground arith
  Work-left (fail_throws now message h) = ground arith
  Work-left (find_settled h) = ground arith
  Work-left (find_open h) = ground arith
  Work-left (mark_aborted h) = ground arith
  Work-left (mark_throws h) = ground arith
  Work-left (cancel_aborted now h) = ground arith
  Work-left (cancel_throws now h) = ground arith
  Work-left finish = ground arith

  CancelRun-left :
      {m m' : Shared J} {w : Worker J} {c c' : Canceller J}
      → CancelRun m w c m' c'
      → cancel_left c' + abort_left m'.aborted < cancel_left c + abort_left m.aborted
  unfolding write
  CancelRun-left (conflicts h) = ground arith
  CancelRun-left (restores h) = ground arith
  CancelRun-left (marks h) = ground arith
  CancelRun-left (marking_throws h) = ground arith
  CancelRun-left (finds_none h) = ground arith
  CancelRun-left (finds_committed h k) = ground arith
  CancelRun-left (holds h k) = ground arith
  CancelRun-left (sees_commit h) = ground arith
  CancelRun-left (sees_end h) = ground arith
  CancelRun-left (times_out h k) = ground arith
  CancelRun-left (fails_late now message h) = ground arith
  CancelRun-left (failing_throws now message h) = ground arith
  CancelRun-left {m} aborts_late = ground arith
  CancelRun-left (joins_late h) = ground arith
  CancelRun-left {m} aborts = ground arith
  CancelRun-left (joins h) = ground arith
  CancelRun-left (finds_ended h) = ground arith
  CancelRun-left (finds_marked h) = ground arith
  CancelRun-left (closes now h) = ground arith
  CancelRun-left (closing_throws now h) = ground arith

  pub Step-left : {mode : Mode} {s t : System J} → Step mode s t → left t < left s
  Step-left (works st) = ground (arith, Work-left st)
  Step-left (advances st) = ground (arith, CancelRun-left st)
  Step-left (calls_cancel h k) = ground arith
  Step-left (outer_abort h) = ground arith
