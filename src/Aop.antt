-- ===== src/Aop.antt =====
-- core/aop-runtime/src/AspectExecutor.ts: a method that runs with its advices. `compose` of koa-compose
-- is a parameter. An advice acts on any state, and gives a value or throws; the parameters that each
-- is given besides the context are part of it.
pub mod Laws
pub mod Notes
pub mod Nest
pub mod Order
pub mod Tests
use tegg.Prelude.{ℕ, ◌≡◌, List, [], ◌∷◌, ◌++◌, Option, none, some, Result, ok, err}

-- An action on a state that gives a value or throws.
abbrev pub Action : Type 0 → Type 0 → Type 0 → Type 0
Action S E A = S → S × Result E A

-- A function of koa-compose: the context, of which `args` is what varies, and `next`.
abbrev pub Middleware : Type 0 → Type 0 → Type 0 → Type 0 → Type 0
Middleware S E Args V = Args → Action S E V → Action S E V

-- `IAdvice`: the methods that an advice may have. `before_call` gives `params.args` as it leaves them.
pub record Advice (S E Args V : Type 0) : Type 0 where
  pub before_call : Option (Args → Action S E Args)
  pub after_return : Option (Args → V → Action S E (Unit {0}))
  pub after_throw : Option (Args → E → Action S E (Unit {0}))
  pub after_finally : Option (Args → Action S E (Unit {0}))
  pub around : Option (Middleware S E Args V)

-- `await`
abbrev pub then_do : {S E A B : Type 0} → S × Result E A → (A → Action S E B) → S × Result E B
then_do (s, ok a) f = f a s
then_do (s, err e) f = (s, err e)

module _ {S E Args V : Type 0} (compose : List (Middleware S E Args V) → Args → Action S E V)
    (method : Args → Action S E V) where
  unfoldable pub before_call : List (Advice S E Args V) → Args → Action S E Args
  before_call [] args s = (s, ok args)
  before_call (advice ∷ advices) args s = elim advice.before_call [
    | none ↦ before_call advices args s
    | some call ↦ then_do (call args s) (before_call advices)
  ]

  unfoldable pub after_return : List (Advice S E Args V) → Args → V → Action S E (Unit {0})
  after_return [] args result s = (s, ok tt)
  after_return (advice ∷ advices) args result s = elim advice.after_return [
    | none ↦ after_return advices args result s
    | some call ↦ then_do (call args result s) (λ _. after_return advices args result)
  ]

  unfoldable pub after_throw : List (Advice S E Args V) → Args → E → Action S E (Unit {0})
  after_throw [] args error s = (s, ok tt)
  after_throw (advice ∷ advices) args error s = elim advice.after_throw [
    | none ↦ after_throw advices args error s
    | some call ↦ then_do (call args error s) (λ _. after_throw advices args error)
  ]

  unfoldable pub after_finally : List (Advice S E Args V) → Args → Action S E (Unit {0})
  after_finally [] args s = (s, ok tt)
  after_finally (advice ∷ advices) args s = elim advice.after_finally [
    | none ↦ after_finally advices args s
    | some call ↦ then_do (call args s) (λ _. after_finally advices args)
  ]

  abbrev pub last_call : Middleware S E Args V
  last_call args next = method args

  -- `functions`, the method itself last.
  unfoldable pub functions : List (Advice S E Args V) → List (Middleware S E Args V)
  functions [] = last_call ∷ []
  functions (advice ∷ advices) = elim advice.around [
    | none ↦ functions advices
    | some around ↦ around ∷ functions advices
  ]

  unfoldable pub do_execute : List (Advice S E Args V) → Args → Action S E V
  do_execute advices args = compose (functions advices) args

  -- The `try`, up to its `return`.
  unfoldable pub try_call : List (Advice S E Args V) → Args → Action S E V
  try_call advices args s =
      then_do (do_execute advices args s)
        (λ result t. then_do (after_return advices args result t) (λ _ u. (u, ok result)))

  -- The `catch`.
  unfoldable pub catch_error : List (Advice S E Args V) → Args → S × Result E V → S × Result E V
  catch_error advices args (s, ok result) = (s, ok result)
  catch_error advices args (s, err error) =
      then_do (after_throw advices args error s) (λ _ t. (t, err error))

  -- The `finally`, whose error takes the place of what was returned or thrown.
  unfoldable pub finally_call : List (Advice S E Args V) → Args → S × Result E V → S × Result E V
  finally_call advices args (s, answer) =
      then_do (after_finally advices args s) (λ _ t. (t, answer))

  unfoldable pub execute : List (Advice S E Args V) → Args → Action S E V
  execute advices args s = then_do (before_call advices args s) (λ new_args t.
      finally_call advices new_args (catch_error advices new_args (try_call advices new_args t)))
