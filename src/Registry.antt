-- ===== src/Registry.antt =====
-- core/metadata/src/factory/EggPrototypeFactory.ts and the prototypes of a load unit in
-- core/metadata/src/impl/ModuleLoadUnit.ts: where prototypes are registered, found and deleted.
-- A prototype and a load unit are references to objects; the fields of a prototype do not change.
pub mod Tracks
pub mod Destroy
pub mod History
pub mod Tests
use tegg.Prelude.{
  ℕ, Bool, true, false, List, [], ◌∷◌, ◌++◌, Option, none, some, Result, ok, err, ◌==◌, nat_key,
  if◌then◌else◌, find, filter, map,
}
use tegg.Prelude.JsMap.{JsMap, get, set, keys, values}
use tegg.Store.Lines.{is_empty}
use tegg.Metadata.{PropertyKey, property_key, QualifierInfo, AccessLevel, is_public}
use tegg.Metadata.Qualifier.{verify_qualifiers}

pub record EggPrototype : Type 0 where
  pub name : PropertyKey
  pub access_level : AccessLevel
  pub qualifiers : List QualifierInfo
  -- The load unit of `loadUnitId`.
  pub load_unit : ℕ

pub data GetError : Type 0 where
  egg_prototype_not_found : PropertyKey → GetError
  multi_prototype_found : PropertyKey → GetError

abbrev pub ProtoMap : Type 0
ProtoMap = JsMap PropertyKey (List ℕ)

-- The factory's map, and the `protoMap` of each load unit.
pub record Registry : Type 0 where
  pub public_proto_map : ProtoMap
  pub proto_map : ℕ → ProtoMap

abbrev pub new_registry : Registry
new_registry = record { public_proto_map = []; proto_map = λ unit. [] }

abbrev pub or_empty : Option (List ℕ) → List ℕ
or_empty none = []
or_empty (some protos) = protos

-- `MapUtil.getOrStore(map, name, []).push(proto)`
unfoldable pub store_in : PropertyKey → ℕ → ProtoMap → ProtoMap
store_in name proto m = set name (or_empty (get name m) ++ proto ∷ []) m

-- `indexOf` and `splice`
unfoldable pub remove_first : ℕ → List ℕ → List ℕ
remove_first proto [] = []
remove_first proto (p ∷ ps) =
    let rest = remove_first proto ps in if p == proto then ps else p ∷ rest

unfoldable pub delete_in : PropertyKey → ℕ → ProtoMap → ProtoMap
delete_in name proto m = elim (get name m) [
  | none ↦ m
  | some protos ↦ set name (remove_first proto protos) m
]

abbrev pub with_unit : ℕ → ProtoMap → (ℕ → ProtoMap) → ℕ → ProtoMap
with_unit unit m units u = if unit == u then m else units u

abbrev pub only : PropertyKey → List ℕ → Result GetError ℕ
only name [] = err (egg_prototype_not_found name)
only name (proto ∷ []) = ok proto
only name (p ∷ q ∷ protos) = err (multi_prototype_found name)

module _ (info : ℕ → EggPrototype) where
  -- `ModuleLoadUnit.registerEggPrototype`
  unfoldable pub register_egg_prototype : ℕ → (unit : ℕ) → Registry → Registry
  register_egg_prototype proto unit r = record r {
    proto_map = with_unit unit (store_in (info proto).name proto (r.proto_map unit)) r.proto_map;
  }

  unfoldable pub register_prototype : ℕ → (unit : ℕ) → Registry → Registry
  register_prototype proto unit r = register_egg_prototype proto unit (
      if is_public (info proto).access_level
      then record r { public_proto_map = store_in (info proto).name proto r.public_proto_map }
      else r)

  -- `ModuleLoadUnit.deletePrototype`
  unfoldable pub delete_egg_prototype : ℕ → (unit : ℕ) → Registry → Registry
  delete_egg_prototype proto unit r = record r {
    proto_map = with_unit unit (delete_in (info proto).name proto (r.proto_map unit)) r.proto_map;
  }

  unfoldable pub delete_prototype : ℕ → (unit : ℕ) → Registry → Registry
  delete_prototype proto unit r = delete_egg_prototype proto unit (
      if is_public (info proto).access_level
      then record r { public_proto_map = delete_in (info proto).name proto r.public_proto_map }
      else r)

  unfoldable pub contain_prototype : ℕ → (unit : ℕ) → Registry → Bool
  contain_prototype proto unit r =
      elim (find (λ t. t == proto) (or_empty (get (info proto).name (r.proto_map unit)))) [
        | none ↦ false
        | some _ ↦ true
      ]

  abbrev pub verified : List QualifierInfo → ℕ → Bool
  verified qualifiers proto = verify_qualifiers (info proto).qualifiers qualifiers

  unfoldable pub get_egg_prototype :
      PropertyKey → List QualifierInfo → (unit : ℕ) → Registry → List ℕ
  get_egg_prototype name qualifiers unit r =
      filter (verified qualifiers) (or_empty (get name (r.proto_map unit)))

  unfoldable pub get_public : PropertyKey → List QualifierInfo → Registry → List ℕ
  get_public name qualifiers r =
      filter (verified qualifiers) (or_empty (get name r.public_proto_map))

  unfoldable pub do_get_prototype : PropertyKey → List QualifierInfo → Option ℕ → Registry → List ℕ
  do_get_prototype name qualifiers none r = get_public name qualifiers r
  do_get_prototype name qualifiers (some unit) r =
      if is_empty (get_egg_prototype name qualifiers unit r)
      then get_public name qualifiers r
      else get_egg_prototype name qualifiers unit r

  unfoldable pub get_prototype :
      PropertyKey → Option ℕ → List QualifierInfo → Registry → Result GetError ℕ
  get_prototype name unit qualifiers r = only name (do_get_prototype name qualifiers unit r)

  -- The inner loop of `destroy`, over a copy of a list.
  unfoldable pub delete_each : List ℕ → (unit : ℕ) → Registry → Registry
  delete_each [] unit r = r
  delete_each (proto ∷ protos) unit r = delete_each protos unit (delete_prototype proto unit r)

  unfoldable pub delete_named : List PropertyKey → (unit : ℕ) → Registry → Registry
  delete_named [] unit r = r
  delete_named (name ∷ names) unit r =
      delete_named names unit (delete_each (or_empty (get name (r.proto_map unit))) unit r)

  -- `ModuleLoadUnit.destroy`
  unfoldable pub destroy : (unit : ℕ) → Registry → Registry
  destroy unit r =
      let deleted = delete_named (keys (r.proto_map unit)) unit r in
      record deleted { proto_map = with_unit unit [] deleted.proto_map }
