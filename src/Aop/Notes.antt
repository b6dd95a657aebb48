-- ===== src/Aop/Notes.antt =====
-- What each of the loops over the advices calls.
use tegg.Prelude.{
  ℕ, suc, ◌≡◌, inl, inr, refl, sym, ◌∙◌, true, false, ◌||◌, List, [], ◌∷◌, ◌++◌, append-nil,
  append_assoc, Option, none, some, Result, ok, err,
}
use tegg.Aop.{Action, Middleware, then_do, before_call, after_return, after_throw, after_finally}
use tegg.Aop.Laws.{
  Call, calls_before, calls_method, calls_return, calls_throw, calls_finally, Parts, Note, threw_of,
  Row, noting, noting_all, if_some, map_option, befores, returns, throws, finallies,
}

module _ {S E A : Type 0} where
  -- What a loop over the advices notes: its row, which it answers for.
  abbrev pub Noted : List Call → List Note → (S × List Note) × Result E A → Type 0
  Noted whole log out =
      (part : List Note) × (out.0.1 ≡ log ++ part) × Row (threw_of out.1) whole part

none-Noted :
    {S A : Type 0} (E : Type 0) (log : List Note) (s : S) (a : A)
    → Noted {E = E} [] log ((s, log), ok a)
none-Noted E log s a = ([], sym (append-nil log), (refl, refl))

module _ {S E A B : Type 0} where
  then-Noted :
      (c : Call) (whole : List Call) (log : List Note) (r : S × Result E B)
      (k : B → Action (S × List Note) E A)
      → ((b : B) (t : S) → Noted whole (log ++ (c, false) ∷ []) (k b (t, log ++ (c, false) ∷ [])))
      → Noted (c ∷ whole) log (then_do ((r.0, log ++ (c, threw_of r.1) ∷ []), r.1) k)
  then-Noted c whole log (s, err e) k h = ((c, true) ∷ [], refl, inl (refl, refl))
  then-Noted c whole log (s, ok b) k h =
      let (part, e, row) = h b s in
      ((c, false) ∷ part, e ∙ append_assoc log ((c, false) ∷ []) part, inr (part, refl, row))

-- An answer that is kept behind calls that may throw.
module _ {S E V : Type 0} where
  pub then_log :
      (out : (S × List Note) × Result E (Unit {0})) (answer : Result E V)
      → (then_do out (λ _ t. (t, answer))).0.1 ≡ out.0.1
  then_log (s, ok _) answer = refl
  then_log (s, err e) answer = refl

  pub then_threw :
      (out : (S × List Note) × Result E (Unit {0})) (answer : Result E V)
      → threw_of (then_do out (λ _ t. (t, answer))).1 ≡ (threw_of out.1 || threw_of answer)
  then_threw (s, ok _) answer = refl
  then_threw (s, err e) answer = refl

-- A loop over the advices, at one that may have the method of its kind.
module _ {S E A X Y : Type 0} where
  hook-Noted :
      (o : Option X) (g : X → Y) (c : Call) (whole : List Call) (log : List Note)
      (skipped : (S × List Note) × Result E A) (called : Y → (S × List Note) × Result E A)
      → Noted {S = S} {E = E} {A = A} whole log skipped
      → ((x : X) → Noted {S = S} {E = E} {A = A} (c ∷ whole) log (called (g x)))
      → Noted {S = S} {E = E} {A = A}
          (if_some o c whole)
          log
          (elim (map_option g o) [ none ↦ skipped | some call ↦ called call ])
  hook-Noted none g c whole log skipped called h k = h
  hook-Noted (some x) g c whole log skipped called h k = k x

module _ {S E Args V : Type 0}
    (compose : List (Middleware (S × List Note) E Args V) → Args → Action (S × List Note) E V)
    (method : Args → Action S E V) where
  -- The method, noted.
  abbrev pub noted_method : Args → Action (S × List Note) E V
  noted_method args = noting threw_of calls_method (method args)

  pub before_call-Noted :
      (n : ℕ) (ps : List (Parts S E Args V)) (args : Args) (s : S) (log : List Note)
      → Noted (befores n ps) log (before_call compose noted_method (noting_all n ps) args (s, log))
  unfolding before_call
  before_call-Noted n [] args s log = none-Noted E log s args
  before_call-Noted n (p ∷ ps) args s log =
      hook-Noted p.before (λ f args. noting threw_of (calls_before n) (f args)) (calls_before n)
        (befores (suc n) ps) log _ _ (before_call-Noted (suc n) ps args s log)
        (λ f.
          then-Noted (calls_before n) (befores (suc n) ps) log (f args s) _
            (λ a t. before_call-Noted (suc n) ps a t (log ++ (calls_before n, false) ∷ [])))

  pub after_return-Noted :
      (n : ℕ) (ps : List (Parts S E Args V)) (args : Args) (v : V) (s : S) (log : List Note)
      → Noted
          (returns n ps)
          log
          (after_return compose noted_method (noting_all n ps) args v (s, log))
  unfolding after_return
  after_return-Noted n [] args v s log = none-Noted E log s tt
  after_return-Noted n (p ∷ ps) args v s log =
      hook-Noted p.on_return (λ f args v. noting threw_of (calls_return n) (f args v))
        (calls_return n) (returns (suc n) ps) log _ _ (after_return-Noted (suc n) ps args v s log)
        (λ f.
          then-Noted (calls_return n) (returns (suc n) ps) log (f args v s) _
            (λ a t. after_return-Noted (suc n) ps args v t (log ++ (calls_return n, false) ∷ [])))

  pub after_throw-Noted :
      (n : ℕ) (ps : List (Parts S E Args V)) (args : Args) (e : E) (s : S) (log : List Note)
      → Noted (throws n ps) log (after_throw compose noted_method (noting_all n ps) args e (s, log))
  unfolding after_throw
  after_throw-Noted n [] args e s log = none-Noted E log s tt
  after_throw-Noted n (p ∷ ps) args e s log =
      hook-Noted p.on_throw (λ f args e. noting threw_of (calls_throw n) (f args e)) (calls_throw n)
        (throws (suc n) ps) log _ _ (after_throw-Noted (suc n) ps args e s log)
        (λ f.
          then-Noted (calls_throw n) (throws (suc n) ps) log (f args e s) _
            (λ a t. after_throw-Noted (suc n) ps args e t (log ++ (calls_throw n, false) ∷ [])))

  pub after_finally-Noted :
      (n : ℕ) (ps : List (Parts S E Args V)) (args : Args) (s : S) (log : List Note)
      → Noted
          (finallies n ps)
          log
          (after_finally compose noted_method (noting_all n ps) args (s, log))
  unfolding after_finally
  after_finally-Noted n [] args s log = none-Noted E log s tt
  after_finally-Noted n (p ∷ ps) args s log =
      hook-Noted p.finally_part (λ f args. noting threw_of (calls_finally n) (f args))
        (calls_finally n) (finallies (suc n) ps) log _ _ (after_finally-Noted (suc n) ps args s log)
        (λ f.
          then-Noted (calls_finally n) (finallies (suc n) ps) log (f args s) _
            (λ a t. after_finally-Noted (suc n) ps args t (log ++ (calls_finally n, false) ∷ [])))
