-- ===== src/Agent/Cancel/Tests.antt =====
-- Executions of a run beside a call of `cancelRun`.
use tegg.Prelude.{ℕ, ◌≡◌, refl, true, false, none}
use tegg.Agent.{completed, failed, cancelled, assign, now_unix}
use tegg.Agent.Run.{create, from_record, call}
use tegg.Agent.Run.Transitions.{IsTerminal, replay}
use tegg.Agent.Tests.{fresh}
use tegg.Agent.Cancel.{
  async, commit, has_ended, idle, is_cancel_status, is_post_loop_terminal, is_settled, is_terminal,
  recover, respect, sync, write,
}
use tegg.Agent.Cancel.Steps.{
  Reach, System, advances, begun, calls_cancel, cancel_aborted, closes, complete_run, fails_late,
  find_open, finds_marked, finds_none, finish, flush_all, go_on, here, holds, later, mark_aborted,
  marks, restores, see_abort, see_end, start_run, times_out, works,
}
use tegg.Agent.Cancel.Safety.{ended_for_good}

cancels_and_runs : Unit {0}
unfolding now_unix assign create from_record call replay write commit respect recover has_ended
    is_terminal is_post_loop_terminal is_cancel_status is_settled
cancels_and_runs = tt

-- A run of no message, cancelled by an outer abort before it yields one.
abbrev aborted_run : System ℕ
aborted_run = begun fresh "thread_1" true 0 0

-- An aborted run goes through Cancelling to Cancelled, with no call of `cancelRun`.
abortion :
    (t : System ℕ) × Reach sync aborted_run t
    × (has_ended t.worker ≡ true)
    × (t.canceller ≡ idle)
    × (t.mem.run.status ≡ cancelled)
unfolding cancels_and_runs
abortion = (
  _,
  later
      (later
        (later
          (later (later (later here (works (start_run 1500 refl))) (works (see_abort refl)))
            (works (find_open refl)))
          (works (mark_aborted refl)))
        (works (cancel_aborted 2500 refl)))
      (works finish),
  refl,
  refl,
  refl,
)

-- `cancelRun` reads the run before it completes, and writes after: Completed becomes Cancelled.
overwritten :
    (s t : System ℕ) × Reach async (begun fresh "thread_1" false 0 1) s
    × Reach async s t
    × (s.mem.run.status ≡ completed)
    × (t.mem.run.status ≡ cancelled)
unfolding cancels_and_runs
overwritten = (
  _,
  _,
  later
      (later
        (later
          (later
            (later (later (later here (works (start_run 1500 refl))) (calls_cancel refl refl))
              (advances (restores refl)))
            (works (see_end refl)))
          (works (go_on refl)))
        (works flush_all))
      (works (complete_run 2500 none none refl)),
  later
      (later
        (later (later (later here (works finish)) (advances (marks refl)))
          (advances (finds_none refl)))
        (advances (finds_marked refl)))
      (advances (closes 3500 refl)),
  refl,
  refl,
)

-- `cancelRun` times out after the execution has checked the status: Failed becomes Completed.
completed_late :
    (s t : System ℕ) × Reach async (begun fresh "thread_1" false 0 1) s
    × Reach async s t
    × (s.mem.run.status ≡ failed)
    × (t.mem.run.status ≡ completed)
unfolding cancels_and_runs
completed_late = (
  _,
  _,
  later
      (later
        (later
          (later
            (later
              (later
                (later (later (later here (works (start_run 1500 refl))) (works (see_end refl)))
                  (works (go_on refl)))
                (calls_cancel refl refl))
              (advances (restores refl)))
            (advances (marks refl)))
          (advances (holds refl refl)))
        (advances (times_out refl refl)))
      (advances (fails_late 2500 "timeout" refl)),
  later (later here (works flush_all)) (works (complete_run 3500 none none refl)),
  refl,
  refl,
)

ended_for_good_example :
    IsTerminal abortion.0.mem.run.status
    × ((t : System ℕ) → Reach sync abortion.0 t → t.mem.run ≡ abortion.0.mem.run)
ended_for_good_example =
    ended_for_good fresh "thread_1" true 0 0 abortion.0 refl abortion.1 abortion.2 abortion.3
