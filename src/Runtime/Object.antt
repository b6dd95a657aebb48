-- ===== src/Runtime/Object.antt =====
-- core/runtime/src/impl/EggObjectImpl.ts: the initialisation and the end of an object.
use tegg.Prelude.{ℕ, zero, suc, String, not, ◌&&◌, List, [], ◌∷◌, ok, err, if◌then◌else◌, map}
use tegg.Runtime.{
  EggObjectStatus, pending, ready, error, destroying, destroyed, Stage, pre_create, post_create,
  pre_destroy, LifecycleHookName, post_construct, pre_inject, post_inject, init, pre_destroy_self,
  destroy_self, LifecycleUtil, get_object_lifecycle_list, InjectObject, EggPrototype, method_of,
}
use tegg.Runtime.Calls.{
  Call, constructs, lifecycle_call, method_call, gets_or_creates, World, Action, Done, nothing,
  fail_with, perform, in_order, all_of,
}

pub record EggObjectImpl : Type 0 where
  pub id : String
  pub proto : EggPrototype
  pub status : EggObjectStatus

unfoldable pub new_object : String → EggPrototype → EggObjectImpl
new_object id proto = record { id = id; proto = proto; status = pending }

abbrev pub no_load_unit : String
no_load_unit = "can not find load unit"

module _ (world : World) (u : LifecycleUtil) where
  -- `callPreCreate`, `callPostCreate` and `callPreDestroy`
  unfoldable pub call_stage : Stage → ℕ → Action
  unfolding nothing perform
  call_stage stage n = if u.defines n stage then perform world (lifecycle_call stage n) else nothing

  -- `objectPreCreate`, `objectPostCreate` and `objectPreDestroy`
  unfoldable pub object_stage : Stage → String → Action
  unfolding in_order all_of call_stage get_object_lifecycle_list
  object_stage stage id = in_order (
      all_of (map (call_stage stage) u.lifecycle_set)
      ∷ all_of (map (call_stage stage) (get_object_lifecycle_list id u))
      ∷ [])

  unfoldable pub call_self : EggPrototype → LifecycleHookName → Action
  unfolding nothing perform method_of
  call_self proto h =
      if proto.has_method (method_of h proto)
      then perform world (method_call (method_of h proto))
      else nothing

  unfoldable pub inject : EggPrototype → InjectObject → Action
  unfolding nothing perform fail_with
  inject proto o =
      if not o.has_load_unit
      then fail_with no_load_unit
      else (if not proto.is_context && o.is_context
          then nothing
          else perform world (gets_or_creates o.obj_name))

  abbrev pub inject_property_steps : EggObjectImpl → List Action
  inject_property_steps obj =
      perform world constructs
      ∷ object_stage pre_create obj.id
      ∷ call_self obj.proto post_construct
      ∷ call_self obj.proto pre_inject
      ∷ all_of (map (inject obj.proto) obj.proto.inject_objects)
      ∷ object_stage post_create obj.id
      ∷ call_self obj.proto post_inject
      ∷ call_self obj.proto init
      ∷ []

  abbrev pub inject_constructor_steps : EggObjectImpl → List Action
  inject_constructor_steps obj =
      all_of (map (inject obj.proto) obj.proto.inject_objects)
      ∷ perform world constructs
      ∷ object_stage pre_create obj.id
      ∷ call_self obj.proto post_construct
      ∷ call_self obj.proto pre_inject
      ∷ object_stage post_create obj.id
      ∷ call_self obj.proto post_inject
      ∷ call_self obj.proto init
      ∷ []

  -- The `try` and `catch` around the steps.
  abbrev pub concluded : EggObjectImpl → List Call × Done → EggObjectImpl × List Call × Done
  concluded obj (log, ok x) = (record obj { status = ready }, log, ok x)
  concluded obj (log, err e) = (record obj { status = error }, log, err e)

  unfoldable pub init_object : EggObjectImpl → List Call → EggObjectImpl × List Call × Done
  unfolding in_order all_of perform object_stage call_self inject
  init_object obj log = concluded obj (
      if obj.proto.injects_constructor
      then in_order (inject_constructor_steps obj) log
      else in_order (inject_property_steps obj) log)

  abbrev pub destroy_steps : EggObjectImpl → List Action
  destroy_steps obj =
      object_stage pre_destroy obj.id
      ∷ call_self obj.proto pre_destroy_self
      ∷ call_self obj.proto destroy_self
      ∷ []

  abbrev pub destroyed_by : EggObjectImpl → List Call × Done → EggObjectImpl × List Call × Done
  destroyed_by obj (log, ok x) = (record obj { status = destroyed }, log, ok x)
  destroyed_by obj (log, err e) = (record obj { status = destroying }, log, err e)

  unfoldable pub destroy_object : EggObjectImpl → List Call → EggObjectImpl × List Call × Done
  unfolding in_order object_stage call_self
  destroy_object obj log = elim obj.status [
    | ready ↦ destroyed_by obj (in_order (destroy_steps obj) log)
    | _ ↦ (obj, log, ok tt)
  ]

  -- Any number of calls of `destroy`, each of which may throw.
  unfoldable pub destroy_times : ℕ → EggObjectImpl → List Call → EggObjectImpl × List Call
  unfolding destroy_object
  destroy_times zero obj log = (obj, log)
  destroy_times (suc n) obj log =
      let (obj', log', _) = destroy_object obj log in destroy_times n obj' log'
