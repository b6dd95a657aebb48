-- ===== src/Agent/Cancel/Invariant.antt =====
-- Whoever writes Cancelling also writes what follows it: true at the start and kept by every step.
use tegg.Prelude.{ℕ, ◌≡◌, refl, ◌⊎◌, subst, String, Bool, true, false, ok, err, arith}
use tegg.Agent.{queued, in_progress, cancelling, AgentError, RunRecord, RunUpdate, assign}
use tegg.Agent.Run.{
  RunBuilder, create, from_record, Call, starts, completes, fails, begins_cancelling, cancels, call,
}
use tegg.Agent.Run.Transitions.{Accepts, target, Answers, call-Answers}
use tegg.Agent.Cancel.{
  Canceller, Mode, Shared, Worker, aborting, cancelling_aborted, catching, checking, closing,
  commit, completing, ended, failing, finishing, flushing, is_cancel_status, is_post_loop_terminal,
  is_settled, is_terminal, joining, looking, marking, marking_aborted, rechecking, recover,
  rereading, respect, running, starting, timing_out, waiting, write,
}
use tegg.Agent.Cancel.Steps.{
  CancelRun, Reach, Step, System, Work, aborts, aborts_late, advances, begun, calls_cancel,
  cancel_aborted, cancel_throws, catch_abort, catch_error, closes, closing_throws, complete_run,
  complete_throws, conflicts, fail_run, fail_throws, failing_throws, fails_late, find_open,
  find_settled, finds_committed, finds_ended, finds_marked, finds_none, finish, flush_all,
  flush_throws, go_on, here, holds, joins, joins_late, keep_failing, later, leave_cancelled,
  loop_throws, mark_aborted, mark_throws, marking_throws, marks, outer_abort, respect_status,
  restores, see_abort, see_end, sees_commit, sees_end, start_run, start_throws, take_message,
  times_out, works,
}

module _ {J : Type 0} where
  -- The status of the execution's builder at each point.
  abbrev pub WorkerFits : Worker J → Type 0
  WorkerFits (starting _ rb) = rb.status ≡ queued
  WorkerFits (running _ rb) = rb.status ≡ in_progress
  WorkerFits (checking rb) = rb.status ≡ in_progress
  WorkerFits (flushing rb) = rb.status ≡ in_progress
  WorkerFits (completing rb) = rb.status ≡ in_progress
  WorkerFits (catching rb) = rb.status ≡ in_progress
  WorkerFits (rechecking rb) = rb.status ≡ in_progress
  WorkerFits (failing rb) = rb.status ≡ in_progress
  WorkerFits (marking_aborted rb) = (rb.status ≡ queued) ⊎ (rb.status ≡ in_progress)
  WorkerFits (cancelling_aborted rb) = rb.status ≡ cancelling
  WorkerFits _ = Unit

  -- The status of the builder of `cancelRun` at each point.
  abbrev pub CancellerFits : Canceller J → Type 0
  CancellerFits (marking rb) =
      (rb.status ≡ queued) ⊎ (rb.status ≡ in_progress) ⊎ (rb.status ≡ cancelling)
  CancellerFits (looking rb) = rb.status ≡ cancelling
  CancellerFits (waiting rb) = rb.status ≡ cancelling
  CancellerFits (timing_out rb) = rb.status ≡ cancelling
  CancellerFits (aborting rb) = rb.status ≡ cancelling
  CancellerFits (joining rb) = rb.status ≡ cancelling
  CancellerFits (rereading rb) = rb.status ≡ cancelling
  CancellerFits (closing rb) = rb.status ≡ cancelling
  CancellerFits _ = Unit

  -- `cancelRun` has written Cancelling and has not yet read or written what follows it.
  abbrev pub owes : Canceller J → Bool
  owes (looking _) = true
  owes (waiting _) = true
  owes (timing_out _) = true
  owes (aborting _) = true
  owes (joining _) = true
  owes (rereading _) = true
  owes (closing _) = true
  owes _ = false

  -- `finaliseAbortedRun` has written Cancelling and is about to write Cancelled.
  abbrev pub is_closing : Worker J → Bool
  is_closing (cancelling_aborted _) = true
  is_closing _ = false

  -- The execution writes no more.
  abbrev pub is_over : Worker J → Bool
  is_over finishing = true
  is_over ended = true
  is_over _ = false

  -- Whoever has written Cancelling still has to write what follows, and a run whose execution is
  -- over has ended unless a call of `cancelRun` still owes its end.
  pub record Inv (m : Shared J) (w : Worker J) (c : Canceller J) : Type 0 where
    pub worker_fits : WorkerFits w
    pub canceller_fits : CancellerFits c
    pub owed : m.run.status ≡ cancelling → (owes c ≡ true) ⊎ (is_closing w ≡ true)
    pub settled : is_over w ≡ true → (is_terminal m.run.status ≡ true) ⊎ (owes c ≡ true)

  -- A builder's call that goes through leaves its target on the builder and in the store.
  call-target :
      (c : Call) (rb rb' : RunBuilder J) (u : RunUpdate) (m : Shared J)
      → call c rb ≡ ok (rb', u)
      → (rb'.status ≡ target c) × ((write m u).run.status ≡ target c)
  unfolding write assign
  call-target c rb rb' u m h =
      let (_, on_builder, on_update) = subst (Answers c rb.status) h (call-Answers c rb) in
      (on_builder, rw on_update)

  call-refuses :
      (c : Call) (rb : RunBuilder J) (e : AgentError) → call c rb ≡ err e → ¬ Accepts c rb.status
  call-refuses c rb e h = (subst (Answers c rb.status) h (call-Answers c rb)).0

  from_record-status : (run : RunRecord J) → (from_record run).status ≡ run.status
  unfolding from_record create
  from_record-status run = refl

  Work-Inv :
      {mode : Mode} {m m' : Shared J} {w w' : Worker J} (c : Canceller J)
      → Work mode m w m' w'
      → Inv m w c
      → Inv m' w' c
  unfolding is_terminal is_post_loop_terminal is_cancel_status is_settled respect recover commit
  Work-Inv {m} c (start_run now h) i = ground (arith, i, call-target (starts now) _ _ _ m h)
  Work-Inv c (start_throws now h) i = ground (arith, i, call-refuses (starts now) _ _ h)
  Work-Inv c (take_message _ h) i = ground arith
  Work-Inv c (see_abort h) i = ground arith
  Work-Inv c (see_end h) i = ground arith
  Work-Inv c loop_throws i = ground arith
  Work-Inv {mode} c (respect_status h) i = ground arith
  Work-Inv c (go_on h) i = ground arith
  Work-Inv c flush_all i = ground arith
  Work-Inv c flush_throws i = ground arith
  Work-Inv {m} c (complete_run now usage api h) i =
      ground (arith, call-target (completes now usage api) _ _ _ m h)
  Work-Inv c (complete_throws now usage api h) i =
      ground (arith, call-refuses (completes now usage api) _ _ h)
  Work-Inv c (catch_abort h) i = ground arith
  Work-Inv {mode} c (catch_error h) i = ground arith
  Work-Inv c (leave_cancelled h) i = ground arith
  Work-Inv c (keep_failing h) i = ground arith
  Work-Inv {m} c (fail_run now message h) i =
      ground (arith, call-target (fails now message) _ _ _ m h)
  Work-Inv c (fail_throws now message h) i = ground (arith, call-refuses (fails now message) _ _ h)
  Work-Inv c (find_settled h) i = ground arith
  Work-Inv {m} c (find_open h) i = ground (arith, from_record-status m.run)
  Work-Inv {m} c (mark_aborted h) i = ground (arith, call-target begins_cancelling _ _ _ m h)
  Work-Inv c (mark_throws h) i = ground (arith, call-refuses begins_cancelling _ _ h)
  Work-Inv {m} c (cancel_aborted now h) i = ground (arith, call-target (cancels now) _ _ _ m h)
  Work-Inv c (cancel_throws now h) i = ground (arith, call-refuses (cancels now) _ _ h)
  Work-Inv c finish i = ground arith

  CancelRun-Inv :
      {m m' : Shared J} (w : Worker J) {c c' : Canceller J}
      → CancelRun m w c m' c'
      → Inv m w c
      → Inv m' w c'
  unfolding is_terminal
  CancelRun-Inv w (conflicts h) i = ground arith
  CancelRun-Inv {m} w (restores h) i = ground (arith, from_record-status m.run)
  CancelRun-Inv {m} w (marks h) i = ground (arith, call-target begins_cancelling _ _ _ m h)
  CancelRun-Inv w (marking_throws h) i = ground (arith, call-refuses begins_cancelling _ _ h)
  CancelRun-Inv w (finds_none h) i = ground arith
  CancelRun-Inv w (finds_committed h k) i = ground arith
  CancelRun-Inv w (holds h k) i = ground arith
  CancelRun-Inv w (sees_commit h) i = ground arith
  CancelRun-Inv w (sees_end h) i = ground arith
  CancelRun-Inv w (times_out h k) i = ground arith
  CancelRun-Inv {m} w (fails_late now message h) i =
      ground (arith, call-target (fails now message) _ _ _ m h)
  CancelRun-Inv w (failing_throws now message h) i =
      ground (arith, call-refuses (fails now message) _ _ h)
  CancelRun-Inv w aborts_late i = ground arith
  CancelRun-Inv w (joins_late h) i = ground arith
  CancelRun-Inv w aborts i = ground arith
  CancelRun-Inv w (joins h) i = ground arith
  CancelRun-Inv w (finds_ended h) i = ground arith
  CancelRun-Inv w (finds_marked h) i = ground arith
  CancelRun-Inv {m} w (closes now h) i = ground (arith, call-target (cancels now) _ _ _ m h)
  CancelRun-Inv w (closing_throws now h) i = ground (arith, call-refuses (cancels now) _ _ h)

  Step-Inv :
      {mode : Mode} {s t : System J}
      → Step mode s t
      → Inv s.mem s.worker s.canceller
      → Inv t.mem t.worker t.canceller
  Step-Inv {s} (works st) i = Work-Inv s.canceller st i
  Step-Inv {s} (advances st) i = CancelRun-Inv s.worker st i
  Step-Inv (calls_cancel h k) i = ground arith
  Step-Inv (outer_abort h) i = ground arith

  begun-Inv :
      (run : RunRecord J) (thread_id : String) (a : Bool) (n k : ℕ)
      → run.status ≡ queued
      → let s = begun run thread_id a n k in Inv s.mem s.worker s.canceller
  unfolding create
  begun-Inv run thread_id a n k q = ground arith

  pub Reach-Inv :
      {mode : Mode} (run : RunRecord J) (thread_id : String) (a : Bool) (n k : ℕ) (s : System J)
      → run.status ≡ queued
      → Reach mode (begun run thread_id a n k) s
      → Inv s.mem s.worker s.canceller
  Reach-Inv run thread_id a n k s q here = begun-Inv run thread_id a n k q
  Reach-Inv run thread_id a n k s q (later r st) = Step-Inv st (Reach-Inv run thread_id a n k _ q r)
