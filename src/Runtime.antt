-- ===== src/Runtime.antt =====
-- core/lifecycle/src/LifycycleUtil.ts and core/runtime/src/impl/EggObjectImpl.ts: the hooks of an
-- object and the order in which they are called. Hooks are code of the application: a call of one
-- throws or not, as it likes, given the calls before it. What an object is injected with is left out.
pub mod Calls
pub mod Object
pub mod Follow
pub mod Script
pub mod Order
pub mod Tests
use tegg.Prelude.{
  ℕ, String, Bool, true, false, List, [], ◌∷◌, ◌++◌, Option, none, some, if◌then◌else◌, ◌==◌,
  nat_key, string_key,
}
use tegg.Prelude.JsMap.{JsMap, get, set, delete, has}

pub data EggObjectStatus : Type 0 where
  pending ready error destroying destroyed : EggObjectStatus

-- The methods of a `LifecycleHook`, and of an object's `EggObjectLifecycle`.
pub data Stage : Type 0 where
  pre_create post_create pre_destroy : Stage

pub data LifecycleHookName : Type 0 where
  post_construct pre_inject post_inject init pre_destroy_self destroy_self : LifecycleHookName

-- A lifecycle is an object, given by its number; `defines` are the methods that it has.
pub record LifecycleUtil : Type 0 where
  pub lifecycle_set : List ℕ
  pub obj_lifecycle_set : JsMap String (List ℕ)
  pub defines : ℕ → Stage → Bool

-- `Set.prototype.add` and `delete`
unfoldable pub add_member : ℕ → List ℕ → List ℕ
add_member n [] = n ∷ []
add_member n (m ∷ ms) = let rest = add_member n ms in if m == n then m ∷ ms else m ∷ rest

unfoldable pub delete_member : ℕ → List ℕ → List ℕ
delete_member n [] = []
delete_member n (m ∷ ms) = let rest = delete_member n ms in if m == n then rest else m ∷ rest

unfoldable pub register_lifecycle : ℕ → LifecycleUtil → LifecycleUtil
unfolding add_member
register_lifecycle n u = record u { lifecycle_set = add_member n u.lifecycle_set }

unfoldable pub delete_lifecycle : ℕ → LifecycleUtil → LifecycleUtil
unfolding delete_member
delete_lifecycle n u = record u { lifecycle_set = delete_member n u.lifecycle_set }

unfoldable pub get_object_lifecycle_list : String → LifecycleUtil → List ℕ
get_object_lifecycle_list id u = elim (get id u.obj_lifecycle_set) [ none ↦ [] | some ns ↦ ns ]

unfoldable pub register_object_lifecycle : String → ℕ → LifecycleUtil → LifecycleUtil
unfolding add_member get_object_lifecycle_list
register_object_lifecycle id n u = record u {
  obj_lifecycle_set = set id (add_member n (get_object_lifecycle_list id u)) u.obj_lifecycle_set;
}

unfoldable pub delete_object_lifecycle : String → ℕ → LifecycleUtil → LifecycleUtil
unfolding delete_member
delete_object_lifecycle id n u = elim (get id u.obj_lifecycle_set) [
  | none ↦ u
  | some ns ↦ record u { obj_lifecycle_set = set id (delete_member n ns) u.obj_lifecycle_set }
]

unfoldable pub clear_object_lifecycle : String → LifecycleUtil → LifecycleUtil
clear_object_lifecycle id u = record u { obj_lifecycle_set = delete id u.obj_lifecycle_set }

-- An injection: whether its load unit is found, and whether it is of the context.
pub record InjectObject : Type 0 where
  pub obj_name : String
  pub has_load_unit : Bool
  pub is_context : Bool

pub record EggPrototype : Type 0 where
  pub is_context : Bool
  pub injects_constructor : Bool
  pub inject_objects : List InjectObject
  -- What `getLifecycleHook` finds, and the methods of the object.
  pub hook_methods : LifecycleHookName → Option String
  pub has_method : String → Bool

-- The name of the method that a hook has by default.
abbrev pub default_method : LifecycleHookName → String
default_method post_construct = "postConstruct"
default_method pre_inject = "preInject"
default_method post_inject = "postInject"
default_method init = "init"
default_method pre_destroy_self = "preDestroy"
default_method destroy_self = "destroy"

-- `getLifecycleHook(name, proto) ?? name`
unfoldable pub method_of : LifecycleHookName → EggPrototype → String
method_of h proto = elim (proto.hook_methods h) [ none ↦ default_method h | some m ↦ m ]
