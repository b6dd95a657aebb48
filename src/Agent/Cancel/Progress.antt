-- ===== src/Agent/Cancel/Progress.antt =====
-- No step is left only when the execution and the calls of `cancelRun` are over, and none go on for ever.
use tegg.Prelude.{
  ℕ, suc, ◌≡◌, refl, ◌⊎◌, inl, inr, true, false, none, Bool-cases, ℕ-cases, Result-cases,
}
use tegg.Agent.Run.{starts, completes, fails, begins_cancelling, cancels, call}
use tegg.Agent.Cancel.{
  Canceller, Mode, Shared, Worker, aborting, aborting_late, cancelling_aborted, catching, checking,
  closing, completing, ended, failing, finalising, finishing, flushing, has_ended, idle,
  is_cancel_status, is_post_loop_terminal, is_settled, is_terminal, joining, joining_late, looking,
  marking, marking_aborted, reading, rechecking, rereading, running, starting, timing_out, waiting,
}
use tegg.Agent.Cancel.Steps.{
  CancelRun, Reach, Step, System, Work, aborts, aborts_late, advances, calls_cancel, cancel_aborted,
  cancel_throws, catch_abort, catch_error, closes, closing_throws, complete_run, complete_throws,
  conflicts, fail_run, fail_throws, failing_throws, fails_late, find_open, find_settled,
  finds_ended, finds_marked, finds_none, finish, flush_all, go_on, here, joins, joins_late,
  keep_failing, later, leave_cancelled, mark_aborted, mark_throws, marking_throws, marks,
  respect_status, restores, see_abort, see_end, sees_end, start_run, start_throws, works,
}

module _ {J : Type 0} where
  Work-next :
      (mode : Mode) (m : Shared J) (w : Worker J)
      → has_ended w ≡ false
      → (m' : Shared J) × (w' : Worker J) × Work mode m w m' w'
  unfolding has_ended
  Work-next mode m (starting n rb) h = elim (Result-cases (call (starts 0) rb)) [
    | inl ((rb', u), e) ↦ (_, _, start_run 0 e)
    | inr (x, e) ↦ (_, _, start_throws 0 e)
  ]
  Work-next mode m (running n rb) h = elim (Bool-cases m.aborted) [
    | inl e ↦ (_, _, see_abort e)
    | inr e ↦ (_, _, see_end e)
  ]
  Work-next mode m (checking rb) h = elim (Bool-cases (is_post_loop_terminal m.run.status)) [
    | inl e ↦ (_, _, respect_status e)
    | inr e ↦ (_, _, go_on e)
  ]
  Work-next mode m (flushing rb) h = (_, _, flush_all)
  Work-next mode m (completing rb) h = elim (Result-cases (call (completes 0 none none) rb)) [
    | inl ((rb', u), e) ↦ (_, _, complete_run 0 none none e)
    | inr (x, e) ↦ (_, _, complete_throws 0 none none e)
  ]
  Work-next mode m (catching rb) h = elim (Bool-cases m.aborted) [
    | inl e ↦ (_, _, catch_abort e)
    | inr e ↦ (_, _, catch_error e)
  ]
  Work-next mode m (rechecking rb) h = elim (Bool-cases (is_cancel_status m.run.status)) [
    | inl e ↦ (_, _, leave_cancelled e)
    | inr e ↦ (_, _, keep_failing e)
  ]
  Work-next mode m (failing rb) h = elim (Result-cases (call (fails 0 "") rb)) [
    | inl ((rb', u), e) ↦ (_, _, fail_run 0 "" e)
    | inr (x, e) ↦ (_, _, fail_throws 0 "" e)
  ]
  Work-next mode m finalising h = elim (Bool-cases (is_settled m.run.status)) [
    | inl e ↦ (_, _, find_settled e)
    | inr e ↦ (_, _, find_open e)
  ]
  Work-next mode m (marking_aborted rb) h = elim (Result-cases (call begins_cancelling rb)) [
    | inl ((rb', u), e) ↦ (_, _, mark_aborted e)
    | inr (x, e) ↦ (_, _, mark_throws e)
  ]
  Work-next mode m (cancelling_aborted rb) h = elim (Result-cases (call (cancels 0) rb)) [
    | inl ((rb', u), e) ↦ (_, _, cancel_aborted 0 e)
    | inr (x, e) ↦ (_, _, cancel_throws 0 e)
  ]
  Work-next mode m finishing h = (_, _, finish)
  Work-next mode m ended h = cc

  -- With the execution over, a call of `cancelRun` that is in progress can go on.
  CancelRun-next :
      (m : Shared J) (w : Worker J) (c : Canceller J)
      → has_ended w ≡ true
      → (c ≡ idle) ⊎ ((m' : Shared J) × (c' : Canceller J) × CancelRun m w c m' c')
  CancelRun-next m w idle h = inl refl
  CancelRun-next m w reading h = inr (elim (Bool-cases (is_terminal m.run.status)) [
    | inl e ↦ (_, _, conflicts e)
    | inr e ↦ (_, _, restores e)
  ])
  CancelRun-next m w (marking rb) h = inr (elim (Result-cases (call begins_cancelling rb)) [
    | inl ((rb', u), e) ↦ (_, _, marks e)
    | inr (x, e) ↦ (_, _, marking_throws e)
  ])
  CancelRun-next m w (looking rb) h = inr (_, _, finds_none h)
  CancelRun-next m w (waiting rb) h = inr (_, _, sees_end h)
  CancelRun-next m w (timing_out rb) h = inr (elim (Result-cases (call (fails 0 "") rb)) [
    | inl ((rb', u), e) ↦ (_, _, fails_late 0 "" e)
    | inr (x, e) ↦ (_, _, failing_throws 0 "" e)
  ])
  CancelRun-next m w aborting_late h = inr (_, _, aborts_late)
  CancelRun-next m w joining_late h = inr (_, _, joins_late h)
  CancelRun-next m w (aborting rb) h = inr (_, _, aborts)
  CancelRun-next m w (joining rb) h = inr (_, _, joins h)
  CancelRun-next m w (rereading rb) h = inr (elim (Bool-cases (is_terminal m.run.status)) [
    | inl e ↦ (_, _, finds_ended e)
    | inr e ↦ (_, _, finds_marked e)
  ])
  CancelRun-next m w (closing rb) h = inr (elim (Result-cases (call (cancels 0) rb)) [
    | inl ((rb', u), e) ↦ (_, _, closes 0 e)
    | inr (x, e) ↦ (_, _, closing_throws 0 e)
  ])

  -- Nothing is left to do: the execution is over, and no call of `cancelRun` is in progress or to come.
  pub record IsDone (s : System J) : Type 0 where
    pub ended : has_ended s.worker ≡ true
    pub unclaimed : s.canceller ≡ idle
    pub uncalled : s.calls ≡ 0

  pub Step-next : (mode : Mode) (s : System J) → ((t : System J) × Step mode s t) ⊎ IsDone s
  Step-next mode s = elim (Bool-cases (has_ended s.worker)) [
    | inl h ↦ elim (CancelRun-next s.mem s.worker s.canceller h) [
      | inl c ↦ elim (ℕ-cases s.calls) [
        | inl z ↦ inr (record { ended = h; unclaimed = c; uncalled = z })
        | inr (k, e) ↦ inl (_, calls_cancel c e)
      ]
      | inr (m, c, st) ↦ inl (_, advances st)
    ]
    | inr h ↦ let (m, w, st) = Work-next mode s.mem s.worker h in inl (_, works st)
  ]

  -- The number of steps of an execution.
  abbrev pub steps : {mode : Mode} {s t : System J} → Reach mode s t → ℕ
  steps here = 0
  steps (later r st) = suc (steps r)
