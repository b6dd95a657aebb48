-- ===== src/Agent/Cancel/Safety.antt =====
-- A run whose execution has ended has ended itself.
use tegg.Prelude.{ℕ, ◌≡◌, refl, ◌∙◌, ◌⊎◌, inl, inr, subst, String, Bool, true, arith}
use tegg.Agent.{queued, RunRecord}
use tegg.Agent.Run.Transitions.{IsTerminal}
use tegg.Agent.Cancel.{
  Canceller, Mode, Shared, Worker, ended, has_ended, idle, is_terminal, reading,
}
use tegg.Agent.Cancel.Steps.{
  CancelRun, Reach, Step, System, Work, advances, begun, calls_cancel, conflicts, here, later,
  outer_abort, restores, works,
}
use tegg.Agent.Cancel.Invariant.{Inv, Reach-Inv}

module _ {J : Type 0} where
  is_terminal-IsTerminal :
      (m : Shared J) → is_terminal m.run.status ≡ true → IsTerminal m.run.status
  unfolding is_terminal
  is_terminal-IsTerminal m h = ground arith

  -- The execution is over, and no call of `cancelRun` has got further than to read the run.
  pub record IsAtRest (s : System J) : Type 0 where
    pub ended : has_ended s.worker ≡ true
    pub terminal : is_terminal s.mem.run.status ≡ true
    pub unclaimed : (s.canceller ≡ idle) ⊎ (s.canceller ≡ reading)

  Work-ended : {mode : Mode} {m m' : Shared J} {w' : Worker J} → ¬ Work mode m ended m' w'
  Work-ended st = elim st [ ]

  CancelRun-idle : {m m' : Shared J} {w : Worker J} {c : Canceller J} → ¬ CancelRun m w idle m' c
  CancelRun-idle st = elim st [ ]

  CancelRun-reading :
      {m m' : Shared J} {w : Worker J} {c : Canceller J}
      → is_terminal m.run.status ≡ true
      → CancelRun m w reading m' c
      → (m' ≡ m) × (c ≡ idle)
  CancelRun-reading t (conflicts h) = (refl, refl)
  CancelRun-reading t (restores h) = cc

  ended_worker : (w : Worker J) → has_ended w ≡ true → w ≡ ended
  unfolding has_ended
  ended_worker w h = ground arith

  IsAtRest-Step :
      {mode : Mode} {s t : System J}
      → IsAtRest s
      → Step mode s t
      → IsAtRest t × (t.mem.run ≡ s.mem.run)
  unfolding has_ended
  IsAtRest-Step {mode} {s} i (works {m} {w} st) =
      absurd (Work-ended (subst (λ v. Work mode s.mem v m w) (ended_worker s.worker i.ended) st))
  IsAtRest-Step {s} i (advances {m} {c} st) = elim i.unclaimed [
    | inl e ↦ absurd (CancelRun-idle (subst (λ d. CancelRun s.mem s.worker d m c) e st))
    | inr e ↦
        ground (
          arith,
          i,
          CancelRun-reading i.terminal (subst (λ d. CancelRun s.mem s.worker d m c) e st),
        )
  ]
  IsAtRest-Step i (calls_cancel h k) = ground arith
  IsAtRest-Step i (outer_abort h) = ground arith

  IsAtRest-Reach :
      {mode : Mode} {s t : System J}
      → IsAtRest s
      → Reach mode s t
      → IsAtRest t × (t.mem.run ≡ s.mem.run)
  IsAtRest-Reach i here = (i, refl)
  IsAtRest-Reach i (later r st) =
      let (j, e) = IsAtRest-Reach i r in let (k, f) = IsAtRest-Step j st in (k, f ∙ e)

  at_rest :
      (s : System J)
      → Inv s.mem s.worker s.canceller
      → has_ended s.worker ≡ true
      → s.canceller ≡ idle
      → IsAtRest s
  unfolding has_ended
  at_rest s i h c = ground arith

  -- When the execution of a queued run has ended and no call of `cancelRun` is in progress, the
  -- stored run has a terminal status, and no later step changes the record.
  pub ended_for_good :
      {mode : Mode} (run : RunRecord J) (thread_id : String) (a : Bool) (n k : ℕ) (s : System J)
      → run.status ≡ queued
      → Reach mode (begun run thread_id a n k) s
      → has_ended s.worker ≡ true
      → s.canceller ≡ idle
      → IsTerminal s.mem.run.status × ((t : System J) → Reach mode s t → t.mem.run ≡ s.mem.run)
  ended_for_good run thread_id a n k s q r h c =
      let rest = at_rest s (Reach-Inv run thread_id a n k s q r) h c in
      (is_terminal-IsTerminal s.mem rest.terminal, λ t more. (IsAtRest-Reach rest more).1)
