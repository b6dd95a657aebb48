-- ===== src/Runtime/Follow.antt =====
-- Actions that follow a list of calls, however far they come.
use tegg.Prelude.{
  ◌≡◌, refl, sym, subst, ap, ◌∙◌, String, Bool, true, false, List, [], ◌∷◌, ◌++◌, append_assoc,
  append-nil, Option, none, some, ok, err, if◌then◌else◌, map, filter,
}
use tegg.Runtime.Calls.{
  Call, World, Action, Done, nothing, fail_with, perform, in_order, all_of, outcome, go_on_with,
}

-- `p` is a beginning of the script.
abbrev pub Begins : List Call → List Call → Type 0
Begins p script = (rest : List Call) × (script ≡ p ++ rest)

-- What an action leaves that follows a script: all of it, or an error after a beginning of it.
abbrev pub Follows : List Call → List Call → List Call × Done → Type 0
Follows script log (log', ok _) = log' ≡ log ++ script
Follows script log (log', err e) = (p : List Call) × (log' ≡ log ++ p) × (Begins p script)

abbrev pub Script : List Call → Action → Type 0
Script script a = (log : List Call) → Follows script log (a log)

nothing-Script : Script [] nothing
unfolding nothing
nothing-Script log = sym (append-nil log)

fail_with-Script : (e : String) → Script [] (fail_with e)
unfolding fail_with
fail_with-Script e log = ([], sym (append-nil log), ([], refl))

perform-outcome :
    (c : Call) (log : List Call) (o : Option String)
    → Follows (c ∷ []) log (log ++ c ∷ [], outcome o)
perform-outcome c log none = refl
perform-outcome c log (some e) = (c ∷ [], refl, ([], refl))

pub perform-Script : (world : World) (c : Call) → Script (c ∷ []) (perform world c)
unfolding perform
perform-Script world c log = perform-outcome c log (world log c)

shift :
    (s t log : List Call) (r : List Call × Done) → Follows t (log ++ s) r → Follows (s ++ t) log r
shift s t log (log', ok x) h = h ∙ append_assoc log s t
shift s t log (log', err e) (p, h, (rest, b)) =
    (s ++ p, h ∙ append_assoc log s p, (rest, ap (λ m. s ++ m) b ∙ sym (append_assoc s p rest)))

-- One step awaited after another.
go_on-Follows :
    (s t log : List Call) (next : Action) (r : List Call × Done)
    → Follows s log r
    → Script t next
    → Follows (s ++ t) log (go_on_with next r)
go_on-Follows s t log next (log', ok x) h k =
    shift s t log (next log') (subst (λ l. Follows t l (next log')) h (k log'))
go_on-Follows s t log next (log', err e) (p, e', (rest, e'')) k =
    (p, e', (rest ++ t, ap (λ m. m ++ t) e'' ∙ append_assoc p rest t))

-- A list of actions with their scripts.
abbrev pub Scripts : List (List Call) → List Action → Type 0
Scripts [] [] = Unit
Scripts (s ∷ ss) (a ∷ rest) = Script s a × Scripts ss rest
Scripts _ _ = ⊥

abbrev pub concat : List (List Call) → List Call
concat [] = []
concat (s ∷ ss) = s ++ concat ss

pub in_order-Script :
    (ss : List (List Call)) (actions : List Action)
    → Scripts ss actions
    → Script (concat ss) (in_order actions)
unfolding in_order
in_order-Script [] [] k log = nothing-Script log
in_order-Script [] (a ∷ rest) k log = absurd k
in_order-Script (s ∷ ss) [] k log = absurd k
in_order-Script (s ∷ ss) (a ∷ rest) k log =
    go_on-Follows s (concat ss) log (in_order rest) (a log) (k.0 log) (in_order-Script ss rest k.1)

-- An action that makes all of its calls, whether it throws or not.
abbrev pub Whole : List Call → Action → Type 0
Whole script a = (log : List Call) → (a log).0 ≡ log ++ script

Whole-Follows :
    (script log : List Call) (r : List Call × Done) → r.0 ≡ log ++ script → Follows script log r
Whole-Follows script log (log', ok x) h = h
Whole-Follows script log (log', err e) h = (script, h, ([], sym (append-nil script)))

pub Whole-Script : (script : List Call) (a : Action) → Whole script a → Script script a
Whole-Script script a w log = Whole-Follows script log (a log) (w log)

pub nothing-Whole : Whole [] nothing
unfolding nothing
nothing-Whole log = sym (append-nil log)

pub fail_with-Whole : (e : String) → Whole [] (fail_with e)
unfolding fail_with
fail_with-Whole e log = sym (append-nil log)

pub perform-Whole : (world : World) (c : Call) → Whole (c ∷ []) (perform world c)
unfolding perform
perform-Whole world c log = refl

pub if-Whole :
    (b : Bool) (c : Call) (x y : Action)
    → Whole (c ∷ []) x
    → Whole [] y
    → Whole (if b then c ∷ [] else []) (if b then x else y)
if-Whole true c x y h k = h
if-Whole false c x y h k = k

-- The calls that a list makes, each at most one.
module _ {A : Type 0} (test : A → Bool) (calls : A → Call) (action : A → Action) where
  pub all_of-Whole :
      ((a : A) → Whole (if test a then calls a ∷ [] else []) (action a))
      → (xs : List A) → Whole (map calls (filter test xs)) (all_of (map action xs))
  unfolding all_of
  all_of-Whole w [] log = nothing-Whole log
  all_of-Whole w (x ∷ xs) log =
      all_of-Whole w xs (action x log).0
      ∙ ap (λ l. l ++ map calls (filter test xs)) (w x log)
      ∙ append_assoc log _ _
      ∙ ap (λ m. log ++ m) (joined (test x))
    where
      joined :
          (b : Bool)
          → (if b then calls x ∷ [] else []) ++ map calls (filter test xs)
            ≡ map calls (if b then x ∷ filter test xs else filter test xs)
      joined true = refl
      joined false = refl
