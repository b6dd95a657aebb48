-- ===== src/Aop/Tests.antt =====
-- Two advices: one with every method but `around`, and one that adds to the argument and doubles the
-- result.
use tegg.Prelude.{ℕ, ◌+◌, ◌*◌, ◌≡◌, refl, true, false, List, [], ◌∷◌, none, some, Result, ok, err}
use tegg.Aop.{
  Action, Middleware, before_call, after_return, after_throw, after_finally, functions, do_execute,
  try_call, catch_error, finally_call, execute,
}
use tegg.Aop.Laws.{
  goes_on, ComposeLaws, Note, threw_of, calls_before, enters_around, calls_method, leaves_around,
  calls_return, calls_throw, calls_finally, Parts, noting, noting_all,
}
use tegg.Aop.Order.{IsRun, execute-IsRun}

compose : List (Middleware (ℕ × List Note) ℕ ℕ ℕ) → ℕ → Action (ℕ × List Note) ℕ ℕ
compose [] args s = (s, err 0)
compose (f ∷ fs) args s = f args (compose fs args) s

compose-ComposeLaws : ComposeLaws compose
unfolding compose
compose-ComposeLaws = record {
  compose_last = λ method args s. refl;
  compose_next = λ a f fs args s. refl;
}

doubled : Result ℕ ℕ → Result ℕ ℕ
doubled (ok v) = ok (v * 2)
doubled (err e) = err e

abbrev watching : Parts ℕ ℕ ℕ ℕ
watching = record {
  before = some (λ args s. (s + 1, ok (args + 5)));
  on_return = some (λ args v s. (s + 1, ok tt));
  on_throw = some (λ args e s. (s + 1, ok tt));
  finally_part = some (λ args s. (s + 1, ok tt));
  around_part = none;
}

abbrev doubling : Parts ℕ ℕ ℕ ℕ
doubling = record {
  before = some (λ args s. (s, ok (args + 1)));
  on_return = none;
  on_throw = none;
  finally_part = some (λ args s. (s, ok tt));
  around_part =
      some
        (record { enters = λ args s. (s, goes_on); leaves = λ args answer s. (s, doubled answer) });
}

abbrev method : ℕ → Action ℕ ℕ ℕ
method args s = (s, ok args)

executed :
    execute compose
      (λ args. noting threw_of calls_method (method args))
      (noting_all 0 (watching ∷ doubling ∷ []))
      1
      (0, [])
    ≡ (
      (
        3,
        (calls_before 0, false)
            ∷ (calls_before 1, false)
            ∷ (enters_around 1, false)
            ∷ (calls_method, false)
            ∷ (leaves_around 1, false)
            ∷ (calls_return 0, false)
            ∷ (calls_finally 0, false)
            ∷ (calls_finally 1, false)
            ∷ [],
      ),
      ok 14,
    )
unfolding compose doubled before_call after_return after_throw after_finally functions do_execute
    try_call catch_error finally_call execute
executed = refl

-- A method that throws: no `afterReturn`, the `afterThrow`, and the `afterFinally`s.
abbrev failing : ℕ → Action ℕ ℕ ℕ
failing args s = (s, err 7)

failed :
    execute compose
      (λ args. noting threw_of calls_method (failing args))
      (noting_all 0 (watching ∷ doubling ∷ []))
      1
      (0, [])
    ≡ (
      (
        3,
        (calls_before 0, false)
            ∷ (calls_before 1, false)
            ∷ (enters_around 1, false)
            ∷ (calls_method, true)
            ∷ (leaves_around 1, true)
            ∷ (calls_throw 0, false)
            ∷ (calls_finally 0, false)
            ∷ (calls_finally 1, false)
            ∷ [],
      ),
      err 7,
    )
unfolding compose doubled before_call after_return after_throw after_finally functions do_execute
    try_call catch_error finally_call execute
failed = refl

execute-IsRun_example : IsRun compose failing compose-ComposeLaws (watching ∷ doubling ∷ []) (
    execute compose
      (λ args. noting threw_of calls_method (failing args))
      (noting_all 0 (watching ∷ doubling ∷ []))
      1
      (0, []))
execute-IsRun_example =
    execute-IsRun compose failing compose-ComposeLaws (watching ∷ doubling ∷ []) 1 0
