-- ===== src/Runtime/Order.antt =====
-- Which hooks an object has called by the end of its life.
use tegg.Prelude.{
  ℕ, zero, suc, ◌≡◌, refl, sym, subst, ◌⊎◌, inl, inr, Bool, true, false, List, ◌++◌, ok, err, ◌≢◌,
  arith, if◌then◌else◌,
}
use tegg.Runtime.{ready, error, destroying, destroyed, LifecycleUtil}
use tegg.Runtime.Calls.{Call, World, Done, in_order}
use tegg.Runtime.Follow.{Begins, Follows, concat}
use tegg.Runtime.Object.{
  EggObjectImpl, concluded, init_object, destroy_steps, destroyed_by, destroy_object, destroy_times,
}
use tegg.Runtime.Script.{
  create_script, destroy_script, property_steps-Script, constructor_steps-Script,
  destroy_steps-Script,
}

module _ (world : World) (u : LifecycleUtil) where
  -- What is left of an object when `init` and any number of `destroy` have been called on it.
  abbrev pub Lives : EggObjectImpl → List Call → EggObjectImpl × List Call → Type 0
  Lives obj log left =
      ((left.0.status ≡ error)
        × ((p : List Call) × (left.1 ≡ log ++ p) × Begins p (create_script world u obj)))
      ⊎ ((left.0.status ≡ ready) × (left.1 ≡ log ++ create_script world u obj))
      ⊎ ((left.0.status ≡ destroyed)
          × (left.1 ≡ (log ++ create_script world u obj) ++ concat (destroy_script world u obj)))
      ⊎ ((left.0.status ≡ destroying)
          × ((p : List Call) × (left.1 ≡ (log ++ create_script world u obj) ++ p)
              × Begins p (concat (destroy_script world u obj))))

  concluded-Lives :
      (obj : EggObjectImpl) (log : List Call) (r : List Call × Done)
      → Follows (create_script world u obj) log r
      → let (obj', log', _) = concluded world u obj r in
        Lives obj log (obj', log') × (obj'.id ≡ obj.id) × (obj'.proto ≡ obj.proto)
  concluded-Lives obj log (log', ok x) h = (inr (inl (refl, h)), refl, refl)
  concluded-Lives obj log (log', err e) h = (inl (refl, h), refl, refl)

  -- An object that was made of the first one by its own operations.
  abbrev Remains : EggObjectImpl → List Call → EggObjectImpl × List Call × Done → Type 0
  Remains obj log (obj', log', r) =
      Lives obj log (obj', log') × (obj'.id ≡ obj.id) × (obj'.proto ≡ obj.proto)

  Follows-if :
      (b : Bool) (s t log : List Call) (x y : List Call × Done)
      → Follows s log x
      → Follows t log y
      → Follows (if b then s else t) log (if b then x else y)
  Follows-if true s t log x y h k = h
  Follows-if false s t log x y h k = k

  init-Remains :
      (obj : EggObjectImpl) (log : List Call) → Remains obj log (init_object world u obj log)
  unfolding init_object
  init-Remains obj log = concluded-Lives obj log _ (
      Follows-if obj.proto.injects_constructor _ _ log _ _
        (constructor_steps-Script world u obj log) (property_steps-Script world u obj log))

  destroyed-Remains :
      (obj now : EggObjectImpl) (log log' : List Call) (r : List Call × Done)
      → now.id ≡ obj.id
      → now.proto ≡ obj.proto
      → Follows (concat (destroy_script world u obj)) (log ++ create_script world u obj) r
      → Remains obj log (destroyed_by world u now r)
  destroyed-Remains obj now log log' (l, ok x) i p h = (inr (inr (inl (refl, h))), i, p)
  destroyed-Remains obj now log log' (l, err e) i p h = (inr (inr (inr (refl, h))), i, p)

  not_ready :
      (obj : EggObjectImpl) (log : List Call)
      → obj.status ≢ ready
      → destroy_object world u obj log ≡ (obj, log, ok tt)
  unfolding destroy_object
  not_ready obj log h = ground arith

  on_ready :
      (obj : EggObjectImpl) (log : List Call)
      → obj.status ≡ ready
      → destroy_object world u obj log
        ≡ destroyed_by world u obj (in_order (destroy_steps world u obj) log)
  unfolding destroy_object
  on_ready obj log h = rw (destroy_object, h) refl

  same_script :
      (obj now : EggObjectImpl)
      → now.id ≡ obj.id
      → now.proto ≡ obj.proto
      → destroy_script world u now ≡ destroy_script world u obj
  same_script obj now i p = rw (i, p) refl

  unchanged-Remains :
      (obj now : EggObjectImpl) (log log' : List Call)
      → Lives obj log (now, log')
      → now.id ≡ obj.id
      → now.proto ≡ obj.proto
      → now.status ≢ ready
      → Remains obj log (destroy_object world u now log')
  unchanged-Remains obj now log log' h i p n =
      subst (Remains obj log) (sym (not_ready now log' n)) (h, i, p)

  destroy-Remains :
      (obj now : EggObjectImpl) (log log' : List Call)
      → Lives obj log (now, log')
      → now.id ≡ obj.id
      → now.proto ≡ obj.proto
      → Remains obj log (destroy_object world u now log')
  destroy-Remains obj now log log' h i p = elim h [
    | inl (e, x) ↦ unchanged-Remains obj now log log' (inl (e, x)) i p (ground arith)
    | inr (inl (e, x)) ↦ subst (Remains obj log) (sym (on_ready now log' e)) (
        destroyed-Remains obj now log log' _ i p (
          subst
            (λ l.
              Follows (concat (destroy_script world u obj)) l
                (in_order (destroy_steps world u now) log'))
            x
            (subst (λ s. Follows (concat s) log' (in_order (destroy_steps world u now) log'))
              (same_script obj now i p) (destroy_steps-Script world u now log'))))
    | inr (inr (inl (e, x))) ↦
        unchanged-Remains obj now log log' (inr (inr (inl (e, x)))) i p (ground arith)
    | inr (inr (inr (e, x))) ↦
        unchanged-Remains obj now log log' (inr (inr (inr (e, x)))) i p (ground arith)
  ]

  times-Lives :
      (n : ℕ) (obj now : EggObjectImpl) (log log' : List Call)
      → Lives obj log (now, log')
      → now.id ≡ obj.id
      → now.proto ≡ obj.proto
      → Lives obj log (destroy_times world u n now log')
  unfolding destroy_times
  times-Lives zero obj now log log' h i p = h
  times-Lives (suc n) obj now log log' h i p =
      let (h', i', p') = destroy-Remains obj now log log' h i p in
      times-Lives n obj _ log _ h' i' p'

  -- However the code that is called behaves, after `init` and then any number of `destroy`: where the
  -- status is Error, the calls made are a beginning of the order of creation and nothing else; where
  -- it is Ready, they are all of that order; where it is Destroyed, all of the order of destruction
  -- follows, once; and where it is Destroying, a beginning of the order of destruction follows. With
  -- injection by properties the order of creation is: construction, preCreate, postConstruct,
  -- preInject, the injections, postCreate, postInject, init. With injection by the constructor the
  -- injections and the construction stand before all of these, preInject included.
  pub life-Lives :
      (n : ℕ) (obj : EggObjectImpl) (log : List Call)
      → Lives obj log
          (destroy_times world u n (init_object world u obj log).0 (init_object world u obj log).1)
  life-Lives n obj log = let (h, i, p) = init-Remains obj log in times-Lives n obj _ log _ h i p
