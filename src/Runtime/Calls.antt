-- ===== src/Runtime/Calls.antt =====
-- Calls of code that may throw, one awaited after another or a list of them at once.
use tegg.Prelude.{String, List, [], ◌∷◌, ◌++◌, Option, none, some, Result, ok, err, ℕ}
use tegg.Runtime.{Stage}

pub data Call : Type 0 where
  constructs : Call
  lifecycle_call : Stage → (lifecycle : ℕ) → Call
  method_call : (method : String) → Call
  gets_or_creates : (obj_name : String) → Call

-- How a call ends.
abbrev pub Done : Type 0
Done = Result String (Unit {0})

-- What the code that is called does after the given calls: it throws, or not.
abbrev pub World : Type 0
World = List Call → Call → Option String

-- The calls so far, before and after.
abbrev pub Action : Type 0
Action = List Call → List Call × Done

abbrev pub outcome : Option String → Done
outcome none = ok tt
outcome (some e) = err e

unfoldable pub nothing : Action
nothing log = (log, ok tt)

unfoldable pub fail_with : String → Action
fail_with e log = (log, err e)

unfoldable pub perform : World → Call → Action
perform world c log = (log ++ c ∷ [], outcome (world log c))

abbrev pub go_on_with : Action → List Call × Done → List Call × Done
go_on_with next (log, ok _) = next log
go_on_with next (log, err e) = (log, err e)

-- One `await` after another: the first that throws ends it.
unfoldable pub in_order : List Action → Action
unfolding nothing
in_order [] log = nothing log
in_order (a ∷ rest) log = go_on_with (in_order rest) (a log)

abbrev pub first_error : Done → Done → Done
first_error (err e) r = err e
first_error (ok _) r = r

-- `Promise.all`: all are started, and an error is thrown if any throws; which one is left open in
-- JavaScript, and is the first here.
unfoldable pub all_of : List Action → Action
unfolding nothing
all_of [] log = nothing log
all_of (a ∷ rest) log =
    let (log', r) = a log in let (log'', r') = all_of rest log' in (log'', first_error r r')
