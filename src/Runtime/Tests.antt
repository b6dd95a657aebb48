-- ===== src/Runtime/Tests.antt =====
-- An object with hooks, of which the last may throw.
use tegg.Prelude.{List, ◌≡◌, refl, Bool, true, false, [], ◌∷◌, none, some, ◌==◌, ℕ, string_key}
use tegg.Prelude.JsMap.{get, set}
use tegg.Runtime.{
  error, Stage, pre_create, post_create, LifecycleUtil, EggPrototype, register_lifecycle,
  register_object_lifecycle, add_member, get_object_lifecycle_list, method_of,
}
use tegg.Runtime.Calls.{
  Call, constructs, lifecycle_call, method_call, gets_or_creates, World, Done, nothing, fail_with,
  perform, in_order, all_of,
}
use tegg.Runtime.Object.{
  EggObjectImpl, new_object, call_stage, object_stage, call_self, inject, init_object,
  destroy_object, destroy_times,
}
use tegg.Runtime.Order.{Lives, life-Lives}

lives : Unit {0}
unfolding get set register_lifecycle register_object_lifecycle add_member get_object_lifecycle_list
    method_of nothing fail_with perform in_order all_of new_object call_stage object_stage call_self
    inject init_object destroy_object destroy_times
lives = tt

abbrev defines_all : ℕ → Stage → Bool
defines_all n stage = true

abbrev util : LifecycleUtil
util = register_object_lifecycle "obj" 2 (
    register_lifecycle 1
      (record { lifecycle_set = []; obj_lifecycle_set = []; defines = defines_all }))

abbrev proto : EggPrototype
proto = record {
  is_context = false;
  injects_constructor = false;
  inject_objects =
      record { obj_name = "logger"; has_load_unit = true; is_context = false }
      ∷ record { obj_name = "user"; has_load_unit = true; is_context = true }
      ∷ [];
  hook_methods = λ h. none;
  has_method = λ m. m == "init";
}

abbrev calm : World
calm log c = none

abbrev failing_init : World
failing_init log (method_call m) = some "init failed"
failing_init log _ = none

created_calls :
    (init_object calm util (new_object "obj" proto) []).1
    ≡ constructs
      ∷ lifecycle_call pre_create 1
      ∷ lifecycle_call pre_create 2
      ∷ gets_or_creates "logger"
      ∷ lifecycle_call post_create 1
      ∷ lifecycle_call post_create 2
      ∷ method_call "init"
      ∷ []
unfolding lives
created_calls = refl

failed_status : (init_object failing_init util (new_object "obj" proto) []).0.status ≡ error
unfolding lives
failed_status = refl

abbrev made : EggObjectImpl × List Call × Done
made = init_object calm util (new_object "obj" proto) []

life-Lives_example :
    Lives calm util (new_object "obj" proto) [] (destroy_times calm util 2 made.0 made.1)
life-Lives_example = life-Lives calm util 2 (new_object "obj" proto) []
