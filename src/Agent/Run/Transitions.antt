-- ===== src/Agent/Run/Transitions.antt =====
-- Which calls a run accepts, and that the store's record follows the builder.
use tegg.Prelude.{◌≡◌, refl, ◌⊎◌, String, List, [], ◌∷◌, some, Result, ok, err, arith}
use tegg.Agent.{
  RunStatus, queued, in_progress, completed, failed, cancelled, cancelling, expired, AgentError,
  invalid_run_state_transition, RunRecord, RunUpdate, assign,
}
use tegg.Agent.Run.{
  RunBuilder, create, Call, starts, completes, fails, begins_cancelling, cancels, call,
}

-- The edges that the comments of the methods draw.
abbrev pub Accepts : Call → RunStatus → Type 0
Accepts (starts now) s = s ≡ queued
Accepts (completes now u a) s = s ≡ in_progress
Accepts (fails now m) s = (s ≡ queued) ⊎ (s ≡ in_progress) ⊎ (s ≡ cancelling)
Accepts begins_cancelling s = (s ≡ queued) ⊎ (s ≡ in_progress) ⊎ (s ≡ cancelling)
Accepts (cancels now) s = s ≡ cancelling

abbrev pub target : Call → RunStatus
target (starts now) = in_progress
target (completes now u a) = completed
target (fails now m) = failed
target begins_cancelling = cancelling
target (cancels now) = cancelled

abbrev pub IsTerminal : RunStatus → Type 0
IsTerminal s = (s ≡ completed) ⊎ (s ≡ failed) ⊎ (s ≡ cancelled) ⊎ (s ≡ expired)

module _ {J : Type 0} where
  -- What a call from the status `s` answers.
  abbrev pub Answers : Call → RunStatus → Result AgentError (RunBuilder J × RunUpdate) → Type 0
  Answers c s (ok (rb, u)) = Accepts c s × (rb.status ≡ target c) × (u.status ≡ some (target c))
  Answers c s (err e) = (¬ Accepts c s) × (e ≡ invalid_run_state_transition s (target c))

  -- A call goes through on exactly the statuses that its edges leave, and leads to their target; on
  -- any other it throws the transition that was asked for.
  pub call-Answers : (c : Call) (rb : RunBuilder J) → Answers c rb.status (call c rb)
  unfolding call
  call-Answers (starts now) rb = ground arith
  call-Answers (completes now u a) rb = ground arith
  call-Answers (fails now m) rb = ground arith
  call-Answers begins_cancelling rb = ground arith
  call-Answers (cancels now) rb = ground arith

  -- The store's record, updated by what a call returns, restores the builder after the call.
  pub call-create :
      (c : Call) (run : RunRecord J) (thread_id : String) (rb : RunBuilder J) (u : RunUpdate)
      → call c (create run thread_id) ≡ ok (rb, u)
      → create (assign run u) thread_id ≡ rb
  unfolding call create assign
  call-create (starts now) run thread_id rb u h = ground arith
  call-create (completes now us a) run thread_id rb u h = ground arith
  call-create (fails now m) run thread_id rb u h = ground arith
  call-create begins_cancelling run thread_id rb u h = ground arith
  call-create (cancels now) run thread_id rb u h = ground arith

  -- What is left after a call that may throw.
  abbrev pub after : RunBuilder J → Result AgentError (RunBuilder J × RunUpdate) → RunBuilder J
  after rb (ok (rb', u)) = rb'
  after rb (err e) = rb

  unfoldable pub replay : List Call → RunBuilder J → RunBuilder J
  replay [] rb = rb
  replay (c ∷ cs) rb = replay cs (after rb (call c rb))

  terminal-after : (c : Call) (rb : RunBuilder J) → IsTerminal rb.status → after rb (call c rb) ≡ rb
  unfolding call
  terminal-after (starts now) rb h = ground arith
  terminal-after (completes now us a) rb h = ground arith
  terminal-after (fails now m) rb h = ground arith
  terminal-after begins_cancelling rb h = ground arith
  terminal-after (cancels now) rb h = ground arith

  -- No history of calls, each of which may throw, changes a run that has ended.
  pub replay_terminal :
      (cs : List Call) (rb : RunBuilder J) → IsTerminal rb.status → replay cs rb ≡ rb
  unfolding replay
  replay_terminal [] rb h = refl
  replay_terminal (c ∷ cs) rb h = rw (terminal-after c rb h) (replay_terminal cs rb h)
