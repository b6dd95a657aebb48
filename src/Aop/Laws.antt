-- ===== src/Aop/Laws.antt =====
-- What is relied on of koa-compose, and advices whose calls are noted down.
use tegg.Prelude.{
  ℕ, suc, ◌≡◌, ◌⊎◌, Bool, true, false, List, [], ◌∷◌, ◌++◌, Option, none, some, Result, ok, err,
}
use tegg.Aop.{Action, Middleware, Advice}

pub data Entry (E V : Type 0) : Type 0 where
  goes_on : Entry E V
  stops : Result E V → Entry E V

-- An around advice that calls `next` at most once: what it does before, and with its outcome.
pub record Around (S E Args V : Type 0) : Type 0 where
  pub enters : Args → S → S × Entry E V
  pub leaves : Args → Result E V → Action S E V

abbrev pub leave_with :
    {S E V : Type 0} → (Result E V → Action S E V) → S × Result E V → S × Result E V
leave_with leaves (s, answer) = leaves answer s

abbrev pub entered :
    {S E V : Type 0} → (Result E V → Action S E V) → Action S E V → S × Entry E V → S × Result E V
entered leaves next (s, goes_on) = leave_with leaves (next s)
entered leaves next (s, stops answer) = (s, answer)

abbrev pub run_around : {S E Args V : Type 0} → Around S E Args V → Middleware S E Args V
run_around a args next s = entered (a.leaves args) next (a.enters args s)

-- The first function is called with the rest behind `next`; koa-compose rejects a second `next`, of
-- which nothing is said here.
pub record ComposeLaws {S E Args V : Type 0}
    (compose : List (Middleware S E Args V) → Args → Action S E V) : Type 0 where
  pub compose_last :
      (method : Args → Action S E V) (args : Args) (s : S)
      → compose ((λ a next. method a) ∷ []) args s ≡ method args s
  pub compose_next :
      (a : Around S E Args V) (f : Middleware S E Args V) (fs : List (Middleware S E Args V))
      (args : Args) (s : S)
      → compose (run_around a ∷ f ∷ fs) args s ≡ run_around a args (compose (f ∷ fs) args) s

pub data Call : Type 0 where
  calls_before : ℕ → Call
  enters_around : ℕ → Call
  calls_method : Call
  leaves_around : ℕ → Call
  calls_return : ℕ → Call
  calls_throw : ℕ → Call
  calls_finally : ℕ → Call

-- An advice by what its methods do.
pub record Parts (S E Args V : Type 0) : Type 0 where
  pub before : Option (Args → Action S E Args)
  pub on_return : Option (Args → V → Action S E (Unit {0}))
  pub on_throw : Option (Args → E → Action S E (Unit {0}))
  pub finally_part : Option (Args → Action S E (Unit {0}))
  pub around_part : Option (Around S E Args V)

-- A call that is over, and whether it threw.
abbrev pub Note : Type 0
Note = Call × Bool

abbrev pub threw_of : {E A : Type 0} → Result E A → Bool
threw_of (ok a) = false
threw_of (err e) = true

abbrev pub stops_throwing : {E V : Type 0} → Entry E V → Bool
stops_throwing goes_on = false
stops_throwing (stops answer) = threw_of answer

-- A call is made, then noted.
abbrev pub noting :
    {S A : Type 0} → (A → Bool) → Call → (S → S × A) → S × List Note → (S × List Note) × A
noting threw c f (s, log) = let r = f s in ((r.0, log ++ (c, threw r.1) ∷ []), r.1)

abbrev pub map_option : {A B : Type 0} → (A → B) → Option A → Option B
map_option f none = none
map_option f (some a) = some (f a)

abbrev pub noting_around :
    {S E Args V : Type 0} → ℕ → Around S E Args V → Around (S × List Note) E Args V
noting_around n a = record {
  enters = λ args. noting stops_throwing (enters_around n) (a.enters args);
  leaves = λ args answer. noting threw_of (leaves_around n) (a.leaves args answer);
}

abbrev pub noting_advice :
    {S E Args V : Type 0} → ℕ → Parts S E Args V → Advice (S × List Note) E Args V
noting_advice n p = record {
  before_call = map_option (λ f args. noting threw_of (calls_before n) (f args)) p.before;
  after_return = map_option (λ f args v. noting threw_of (calls_return n) (f args v)) p.on_return;
  after_throw = map_option (λ f args e. noting threw_of (calls_throw n) (f args e)) p.on_throw;
  after_finally = map_option (λ f args. noting threw_of (calls_finally n) (f args)) p.finally_part;
  around = map_option (λ a. run_around (noting_around n a)) p.around_part;
}

-- The advices of a method, numbered in their order.
abbrev pub noting_all :
    {S E Args V : Type 0} → ℕ → List (Parts S E Args V) → List (Advice (S × List Note) E Args V)
noting_all n [] = []
noting_all n (p ∷ ps) = noting_advice n p ∷ noting_all (suc n) ps

abbrev pub if_some : {A : Type 0} → Option A → Call → List Call → List Call
if_some none c cs = cs
if_some (some a) c cs = c ∷ cs

-- Calls in the order of their row, up to the first that throws: one threw, or all were made.
abbrev pub Row : Bool → List Call → List Note → Type 0
Row threw [] part = (part ≡ []) × (threw ≡ false)
Row threw (c ∷ cs) part =
    ((part ≡ (c, true) ∷ []) × (threw ≡ true))
    ⊎ ((rest : List Note) × (part ≡ (c, false) ∷ rest) × Row threw cs rest)

module _ {S E Args V : Type 0} where
  -- The calls of each kind that the advices are there for.
  abbrev pub befores : ℕ → List (Parts S E Args V) → List Call
  befores n [] = []
  befores n (p ∷ ps) = if_some p.before (calls_before n) (befores (suc n) ps)

  abbrev pub returns : ℕ → List (Parts S E Args V) → List Call
  returns n [] = []
  returns n (p ∷ ps) = if_some p.on_return (calls_return n) (returns (suc n) ps)

  abbrev pub throws : ℕ → List (Parts S E Args V) → List Call
  throws n [] = []
  throws n (p ∷ ps) = if_some p.on_throw (calls_throw n) (throws (suc n) ps)

  abbrev pub finallies : ℕ → List (Parts S E Args V) → List Call
  finallies n [] = []
  finallies n (p ∷ ps) = if_some p.finally_part (calls_finally n) (finallies (suc n) ps)

  -- Within one advice, where it has `around`: it goes on, once, or stops there. `threw` is of the whole.
  abbrev pub Within :
      Option (Around S E Args V) → ℕ → (Bool → List Note → Type 0) → Bool → List Note → Type 0
  Within none n Inner threw log = Inner threw log
  Within (some a) n Inner threw log =
      (log ≡ (enters_around n, threw) ∷ [])
      ⊎ ((inner : List Note) × (inner_threw : Bool) × Inner inner_threw inner
          × (log ≡ (enters_around n, false) ∷ inner ++ (leaves_around n, threw) ∷ []))

  -- The calls of the method within its around advices, the first of them outermost.
  abbrev pub Nested : ℕ → List (Parts S E Args V) → Bool → List Note → Type 0
  Nested n [] threw log = log ≡ (calls_method, threw) ∷ []
  Nested n (p ∷ ps) threw log = Within p.around_part n (Nested (suc n) ps) threw log
