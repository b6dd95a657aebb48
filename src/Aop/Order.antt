-- ===== src/Aop/Order.antt =====
-- The order in which `execute` calls the advices of a method.
use tegg.Prelude.{
  ◌≡◌, ◌⊎◌, inl, inr, refl, ap, sym, ◌∙◌, subst, Bool, true, false, ◌||◌, List, [], ◌++◌,
  append-nil, append_assoc, Result, ok, err,
}
use tegg.Aop.{
  Action, Middleware, then_do, after_return, after_throw, after_finally, do_execute, try_call,
  catch_error, finally_call, execute,
}
use tegg.Aop.Laws.{
  ComposeLaws, Note, threw_of, Row, Parts, noting_all, befores, returns, throws, finallies, Nested,
}
use tegg.Aop.Notes.{
  Noted, then_log, then_threw, noted_method, before_call-Noted, after_return-Noted,
  after_throw-Noted, after_finally-Noted,
}
use tegg.Aop.Nest.{Notes, do_execute-Notes}

or_false : (b : Bool) → (b || false) ≡ b
or_false true = refl
or_false false = refl

or_true : (b : Bool) → (b || true) ≡ true
or_true true = refl
or_true false = refl

module _ {S E Args V : Type 0}
    (compose : List (Middleware (S × List Note) E Args V) → Args → Action (S × List Note) E V)
    (method : Args → Action S E V) (laws : ComposeLaws compose) where
  -- The `afterReturn`s, which are reached where the method within its around advices did not throw.
  abbrev pub Returned : List (Parts S E Args V) → Bool → Bool → List Note → Type 0
  Returned ps true threw r = (r ≡ []) × (threw ≡ true)
  Returned ps false threw r = Row threw (returns 0 ps) r

  -- The `afterThrow`s, where what stands before them threw.
  abbrev pub Thrown : List (Parts S E Args V) → Bool → List Note → Type 0
  Thrown ps true t = (threw : Bool) × Row threw (throws 0 ps) t
  Thrown ps false t = t ≡ []

  -- What the `try` notes.
  abbrev Tried : List (Parts S E Args V) → List Note → (S × List Note) × Result E V → Type 0
  Tried ps log out =
      (nest : List Note) × (r : List Note) × (nest_threw : Bool) × (out.0.1 ≡ log ++ (nest ++ r))
      × Nested 0 ps nest_threw nest
      × Returned ps nest_threw (threw_of out.1) r

  returned-Tried :
      (ps : List (Parts S E Args V)) (args : Args) (log : List Note)
      (out : (S × List Note) × Result E V)
      → Notes compose method laws (Nested 0 ps) log out
      → Tried ps log (
          then_do out (λ result t.
            then_do
              (after_return compose (noted_method compose method) (noting_all 0 ps) args result t)
              (λ _ u. (u, ok result))))
  returned-Tried ps args log ((s, l), err e) (nest, h, i) =
      (nest, [], true, h ∙ ap (λ t. log ++ t) (sym (append-nil nest)), i, (refl, refl))
  returned-Tried ps args log ((s, l), ok v) (nest, h, i) =
      let after =
        after_return compose (noted_method compose method) (noting_all 0 ps) args v (s, l) in
      let (r, g, row) = after_return-Noted compose method 0 ps args v s l in
      (
        nest,
        r,
        false,
        then_log after (ok v) ∙ g ∙ ap (λ t. t ++ r) h ∙ append_assoc log nest r,
        i,
        subst (λ b. Row b (returns 0 ps) r)
            (sym (then_threw after (ok v) ∙ or_false (threw_of after.1))) row,
      )

  -- With the `catch`.
  abbrev Caught : List (Parts S E Args V) → List Note → (S × List Note) × Result E V → Type 0
  Caught ps log out =
      (nest : List Note) × (r : List Note) × (t : List Note) × (nest_threw : Bool) × (out.0.1
        ≡ log ++ (nest ++ (r ++ t)))
      × Nested 0 ps nest_threw nest
      × Returned ps nest_threw (threw_of out.1) r
      × Thrown ps (threw_of out.1) t

  catch_error-Caught :
      (ps : List (Parts S E Args V)) (args : Args) (log : List Note)
      (out : (S × List Note) × Result E V)
      → Tried ps log out
      → Caught ps log (catch_error compose (noted_method compose method) (noting_all 0 ps) args out)
  unfolding catch_error
  catch_error-Caught ps args log ((s, l), ok v) (nest, r, b, h, i, ret) =
      (nest, r, [], b, h ∙ ap (λ t. log ++ (nest ++ t)) (sym (append-nil r)), i, ret, refl)
  catch_error-Caught ps args log ((s, l), err e) (nest, r, b, h, i, ret) =
      let thrown =
        after_throw compose (noted_method compose method) (noting_all 0 ps) args e (s, l) in
      let (t, g, row) = after_throw-Noted compose method 0 ps args e s l in
      let answer : Result E V = err e in
      let threw : true ≡ threw_of (then_do thrown (λ _ u. (u, answer))).1 =
        sym (then_threw thrown answer ∙ or_true (threw_of thrown.1)) in
      (
        nest,
        r,
        t,
        b,
        then_log thrown answer
            ∙ g
            ∙ ap (λ u. u ++ t) h
            ∙ append_assoc log (nest ++ r) t
            ∙ ap (λ u. log ++ u) (append_assoc nest r t),
        i,
        subst (λ c. Returned ps b c r) threw ret,
        subst (λ c. Thrown ps c t) threw (threw_of thrown.1, row),
      )

  -- The calls of a run that is over: of `beforeCall` alone, where one threw; or all of them, the method
  -- within its around advices, `afterReturn`s, `afterThrow`s, and `afterFinally`s. The run throws where
  -- the method, its around advices or an `afterReturn` threw, and where an `afterFinally` did.
  abbrev pub IsRun : List (Parts S E Args V) → (S × List Note) × Result E V → Type 0
  IsRun ps out =
      (Row true (befores 0 ps) out.0.1 × (threw_of out.1 ≡ true))
      ⊎ ((b : List Note) × (nest : List Note) × (r : List Note) × (t : List Note) × (f : List Note)
          × (nest_threw : Bool) × (try_threw : Bool) × (finally_threw : Bool) × (out.0.1
              ≡ b ++ (nest ++ (r ++ (t ++ f))))
          × Row false (befores 0 ps) b
          × Nested 0 ps nest_threw nest
          × Returned ps nest_threw try_threw r
          × Thrown ps try_threw t
          × Row finally_threw (finallies 0 ps) f
          × (threw_of out.1 ≡ (finally_threw || try_threw)))

  finally_call-IsRun :
      (ps : List (Parts S E Args V)) (args : Args) (b : List Note)
      (out : (S × List Note) × Result E V)
      → Row false (befores 0 ps) b
      → Caught ps b out
      → IsRun ps (finally_call compose (noted_method compose method) (noting_all 0 ps) args out)
  unfolding finally_call
  finally_call-IsRun ps args b ((s, l), answer) began (nest, r, t, nest_threw, h, i, ret, thrown) =
      let ended =
        after_finally compose (noted_method compose method) (noting_all 0 ps) args (s, l) in
      let (f, g, row) = after_finally-Noted compose method 0 ps args s l in
      inr (
        b,
        nest,
        r,
        t,
        f,
        nest_threw,
        threw_of answer,
        threw_of ended.1,
        then_log ended answer
            ∙ g
            ∙ ap (λ u. u ++ f) h
            ∙ append_assoc b (nest ++ (r ++ t)) f
            ∙ ap (λ u. b ++ u)
                (append_assoc nest (r ++ t) f ∙ ap (λ u. nest ++ u) (append_assoc r t f)),
        began,
        i,
        ret,
        thrown,
        row,
        then_threw ended answer,
      )

  began-IsRun :
      (ps : List (Parts S E Args V)) (out : (S × List Note) × Result E Args)
      → Noted (befores 0 ps) [] out
      → IsRun ps (
          then_do out (λ new_args t.
            finally_call compose (noted_method compose method) (noting_all 0 ps) new_args (
              catch_error compose
                (noted_method compose method)
                (noting_all 0 ps)
                new_args
                (try_call compose (noted_method compose method) (noting_all 0 ps) new_args t))))
  unfolding try_call
  began-IsRun ps ((s, l), err e) (b, h, row) =
      inl (subst (λ t. Row true (befores 0 ps) t) (sym h) row, refl)
  began-IsRun ps ((s, l), ok args) (b, h, row) = finally_call-IsRun ps args b _ row (
      catch_error-Caught ps args b _ (
        subst
          (λ t.
            Tried ps t
              (try_call compose (noted_method compose method) (noting_all 0 ps) args (s, l)))
          h
          (returned-Tried ps args l
            (do_execute compose (noted_method compose method) (noting_all 0 ps) args (s, l))
            (do_execute-Notes compose method laws 0 ps args s l))))

  -- However the advices and the method behave, the calls of an execution, with a note of which of them
  -- threw, are: the `beforeCall`s, and nothing else where one throws; else, behind all of them, the
  -- method once within its around advices, the first outermost, as far as these go on; where that, the
  -- outermost of these taken whole, did not throw, the `afterReturn`s; where it or an `afterReturn`
  -- threw, the `afterThrow`s, and otherwise none; and in each case the `afterFinally`s. Each row is in
  -- the order of the advices and is made whole, up to the first of its calls that throws. The execution
  -- throws exactly where a `beforeCall`, the method within its around advices, an `afterReturn` or an
  -- `afterFinally` did.
  pub execute-IsRun :
      (ps : List (Parts S E Args V)) (args : Args) (s : S)
      → IsRun ps (execute compose (noted_method compose method) (noting_all 0 ps) args (s, []))
  unfolding execute
  execute-IsRun ps args s = began-IsRun ps _ (before_call-Noted compose method 0 ps args s [])
