-- ===== src/Agent/Run/Timing.antt =====
-- The timestamps of a run over any history of calls.
use tegg.Prelude.{ℕ, ◌/◌, ◌≡◌, ◌≢◌, ◌⊎◌, String, List, [], ◌∷◌, Option, none, some, arith, ℤ, sub_ℕ}
use tegg.Agent.{queued, in_progress, completed, failed, cancelled, RunRecord, now_unix}
use tegg.Agent.Run.{
  RunBuilder, create, Call, starts, completes, fails, begins_cancelling, cancels, call,
}
use tegg.Agent.Run.Transitions.{after, replay}

abbrev pub in_seconds : Option ℕ → Option ℕ
in_seconds none = none
in_seconds (some ms) = some (ms / 1000)

abbrev pub Present {ℓ} : {A : Type ℓ} → Option A → Type 0
Present none = ⊥
Present (some a) = Unit

-- The duration of a run that completed at the first time and started at the second, if it did.
abbrev pub Lasts : Option ℕ → Option ℕ → Option ℤ → Type 0
Lasts none start duration = duration ≡ none
Lasts (some end) none duration = duration ≡ none
Lasts (some end) (some start) duration = duration ≡ some (sub_ℕ end start)

module _ {J : Type 0} where
  -- The seconds are those of the milliseconds; each final stamp stands on its own status alone; an
  -- error is recorded on a failed run alone, and the duration is that between start and completion.
  pub record IsTimed (rb : RunBuilder J) : Type 0 where
    pub started : rb.started_at ≡ in_seconds rb.started_at_ms
    pub completed_seconds : rb.completed_at ≡ in_seconds rb.completed_at_ms
    pub on_completed :
        (rb.status ≡ completed) × Present rb.completed_at_ms
        ⊎ (rb.status ≢ completed) × (rb.completed_at_ms ≡ none)
    pub lasts : Lasts rb.completed_at_ms rb.started_at_ms rb.duration_ms
    pub on_failed :
        (rb.status ≡ failed) × Present rb.failed_at × Present rb.last_error
        ⊎ (rb.status ≢ failed) × (rb.failed_at ≡ none) × (rb.last_error ≡ none)
    pub on_cancelled :
        (rb.status ≡ cancelled) × Present rb.cancelled_at
        ⊎ (rb.status ≢ cancelled) × (rb.cancelled_at ≡ none)
    pub never_started : rb.status ≡ queued → rb.started_at_ms ≡ none
    pub was_started : (rb.status ≡ in_progress) ⊎ (rb.status ≡ completed) → Present rb.started_at_ms

  call-IsTimed : (c : Call) (rb : RunBuilder J) → IsTimed rb → IsTimed (after rb (call c rb))
  unfolding call now_unix
  call-IsTimed (starts now) rb t = ground arith
  call-IsTimed (completes now u a) rb t = ground arith
  call-IsTimed (fails now m) rb t = ground arith
  call-IsTimed begins_cancelling rb t = ground arith
  call-IsTimed (cancels now) rb t = ground arith

  replay-IsTimed : (cs : List Call) (rb : RunBuilder J) → IsTimed rb → IsTimed (replay cs rb)
  unfolding replay
  replay-IsTimed [] rb t = t
  replay-IsTimed (c ∷ cs) rb t = replay-IsTimed cs (after rb (call c rb)) (call-IsTimed c rb t)

  -- What `createRun` of a store writes: a queued run with no times.
  pub record IsFresh (run : RunRecord J) : Type 0 where
    pub status : run.status ≡ queued
    pub started : run.started_at ≡ none
    pub started_ms : run.started_at_ms ≡ none
    pub completed : run.completed_at ≡ none
    pub completed_ms : run.completed_at_ms ≡ none
    pub duration : run.duration_ms ≡ none
    pub failed : run.failed_at ≡ none
    pub error : run.last_error ≡ none
    pub cancelled : run.cancelled_at ≡ none

  create-IsTimed : (run : RunRecord J) (t : String) → IsFresh run → IsTimed (create run t)
  unfolding create
  create-IsTimed run t f = ground arith

  -- After any history of calls on a fresh run the timestamps agree with the status and with one another.
  pub history-IsTimed :
      (cs : List Call) (run : RunRecord J) (thread_id : String)
      → IsFresh run
      → IsTimed (replay cs (create run thread_id))
  history-IsTimed cs run thread_id f =
      replay-IsTimed cs (create run thread_id) (create-IsTimed run thread_id f)
