-- ===== src/Runtime/Script.antt =====
-- The order in which creation and destruction call, and that their steps follow it.
use tegg.Prelude.{
  ℕ, String, Bool, true, false, not, ◌&&◌, List, [], ◌∷◌, if◌then◌else◌, map, filter,
}
use tegg.Runtime.{
  Stage, pre_create, post_create, pre_destroy, LifecycleHookName, post_construct, pre_inject,
  post_inject, init, pre_destroy_self, destroy_self, LifecycleUtil, get_object_lifecycle_list,
  InjectObject, EggPrototype, method_of,
}
use tegg.Runtime.Calls.{
  Call, constructs, lifecycle_call, method_call, gets_or_creates, World, nothing, fail_with,
  perform, in_order, all_of,
}
use tegg.Runtime.Follow.{
  Script, concat, in_order-Script, Whole, Whole-Script, nothing-Whole, fail_with-Whole,
  perform-Whole, perform-Script, if-Whole, all_of-Whole,
}
use tegg.Runtime.Object.{
  EggObjectImpl, no_load_unit, call_stage, object_stage, call_self, inject, inject_property_steps,
  inject_constructor_steps, destroy_steps,
}

module _ (world : World) (u : LifecycleUtil) where
  abbrev pub stage_script : Stage → List ℕ → List Call
  stage_script stage ns = map (lifecycle_call stage) (filter (λ n. u.defines n stage) ns)

  -- The lifecycles of all objects, and then those of this one.
  abbrev pub object_script : Stage → String → List Call
  object_script stage id = concat (
      stage_script stage u.lifecycle_set ∷ stage_script stage (get_object_lifecycle_list id u) ∷ [])

  abbrev pub self_script : EggPrototype → LifecycleHookName → List Call
  self_script proto h =
      if proto.has_method (method_of h proto) then method_call (method_of h proto) ∷ [] else []

  -- The injections that fetch an object at once: all but those of the context into a longer life.
  abbrev pub inject_script : EggPrototype → List Call
  inject_script proto =
      map (λ o. gets_or_creates o.obj_name)
        (filter (λ o. o.has_load_unit && not (not proto.is_context && o.is_context))
          proto.inject_objects)

  abbrev pub property_script : EggObjectImpl → List (List Call)
  property_script obj =
      (constructs ∷ [])
      ∷ object_script pre_create obj.id
      ∷ self_script obj.proto post_construct
      ∷ self_script obj.proto pre_inject
      ∷ inject_script obj.proto
      ∷ object_script post_create obj.id
      ∷ self_script obj.proto post_inject
      ∷ self_script obj.proto init
      ∷ []

  abbrev pub constructor_script : EggObjectImpl → List (List Call)
  constructor_script obj =
      inject_script obj.proto
      ∷ (constructs ∷ [])
      ∷ object_script pre_create obj.id
      ∷ self_script obj.proto post_construct
      ∷ self_script obj.proto pre_inject
      ∷ object_script post_create obj.id
      ∷ self_script obj.proto post_inject
      ∷ self_script obj.proto init
      ∷ []

  abbrev pub create_script : EggObjectImpl → List Call
  create_script obj =
      if obj.proto.injects_constructor
      then concat (constructor_script obj)
      else concat (property_script obj)

  abbrev pub destroy_script : EggObjectImpl → List (List Call)
  destroy_script obj =
      object_script pre_destroy obj.id
      ∷ self_script obj.proto pre_destroy_self
      ∷ self_script obj.proto destroy_self
      ∷ []

  call_stage-Whole :
      (stage : Stage) (n : ℕ)
      → Whole
          (if u.defines n stage then lifecycle_call stage n ∷ [] else [])
          (call_stage world u stage n)
  unfolding call_stage
  call_stage-Whole stage n =
      if-Whole (u.defines n stage) _ _ _ (perform-Whole world (lifecycle_call stage n))
        nothing-Whole

  object_stage-Script :
      (stage : Stage) (id : String)
      → Script (object_script stage id) (object_stage world u stage id)
  unfolding object_stage
  object_stage-Script stage id =
      in_order-Script
        (stage_script stage u.lifecycle_set
          ∷ stage_script stage (get_object_lifecycle_list id u)
          ∷ [])
        (all_of (map (call_stage world u stage) u.lifecycle_set)
          ∷ all_of (map (call_stage world u stage) (get_object_lifecycle_list id u))
          ∷ [])
        (lists u.lifecycle_set, (lists (get_object_lifecycle_list id u), tt))
    where
      lists :
          (ns : List ℕ)
          → Script (stage_script stage ns) (all_of (map (call_stage world u stage) ns))
      lists ns = Whole-Script _ _ (
          all_of-Whole (λ n. u.defines n stage) (lifecycle_call stage) (call_stage world u stage)
            (call_stage-Whole stage) ns)

  call_self-Script :
      (proto : EggPrototype) (h : LifecycleHookName)
      → Script (self_script proto h) (call_self world u proto h)
  unfolding call_self
  call_self-Script proto h = Whole-Script _ _ (
      if-Whole (proto.has_method (method_of h proto)) _ _ _
        (perform-Whole world (method_call (method_of h proto))) nothing-Whole)

  inject-if :
      (found later : Bool) (c : Call)
      → Whole (if found && not later then c ∷ [] else []) (
          if not found
          then fail_with no_load_unit
          else (if later then nothing else perform world c))
  inject-if true true c = nothing-Whole
  inject-if true false c = perform-Whole world c
  inject-if false true c = fail_with-Whole no_load_unit
  inject-if false false c = fail_with-Whole no_load_unit

  inject-Whole :
      (proto : EggPrototype) (o : InjectObject)
      → Whole
          (if o.has_load_unit && not (not proto.is_context && o.is_context)
            then gets_or_creates o.obj_name ∷ []
            else [])
          (inject world u proto o)
  unfolding inject
  inject-Whole proto o =
      inject-if o.has_load_unit (not proto.is_context && o.is_context) (gets_or_creates o.obj_name)

  injects-Script :
      (proto : EggPrototype)
      → Script (inject_script proto) (all_of (map (inject world u proto) proto.inject_objects))
  injects-Script proto = Whole-Script _ _ (
      all_of-Whole (λ o. o.has_load_unit && not (not proto.is_context && o.is_context))
        (λ o. gets_or_creates o.obj_name) (inject world u proto) (inject-Whole proto)
        proto.inject_objects)

  pub property_steps-Script :
      (obj : EggObjectImpl)
      → Script (concat (property_script obj)) (in_order (inject_property_steps world u obj))
  property_steps-Script obj =
      in_order-Script (property_script obj) (inject_property_steps world u obj) (
        perform-Script world constructs,
        (
          object_stage-Script pre_create obj.id,
          (
            call_self-Script obj.proto post_construct,
            (
              call_self-Script obj.proto pre_inject,
              (
                injects-Script obj.proto,
                (
                  object_stage-Script post_create obj.id,
                  (call_self-Script obj.proto post_inject, (call_self-Script obj.proto init, tt)),
                ),
              ),
            ),
          ),
        ),
      )

  pub constructor_steps-Script :
      (obj : EggObjectImpl)
      → Script (concat (constructor_script obj)) (in_order (inject_constructor_steps world u obj))
  constructor_steps-Script obj =
      in_order-Script (constructor_script obj) (inject_constructor_steps world u obj) (
        injects-Script obj.proto,
        (
          perform-Script world constructs,
          (
            object_stage-Script pre_create obj.id,
            (
              call_self-Script obj.proto post_construct,
              (
                call_self-Script obj.proto pre_inject,
                (
                  object_stage-Script post_create obj.id,
                  (call_self-Script obj.proto post_inject, (call_self-Script obj.proto init, tt)),
                ),
              ),
            ),
          ),
        ),
      )

  pub destroy_steps-Script :
      (obj : EggObjectImpl)
      → Script (concat (destroy_script obj)) (in_order (destroy_steps world u obj))
  destroy_steps-Script obj = in_order-Script (destroy_script obj) (destroy_steps world u obj) (
    object_stage-Script pre_destroy obj.id,
    (call_self-Script obj.proto pre_destroy_self, (call_self-Script obj.proto destroy_self, tt)),
  )
