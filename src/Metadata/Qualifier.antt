-- ===== src/Metadata/Qualifier.antt =====
-- core/core-decorator/src/util/QualifierUtil.ts, the selection of prototypes in
-- core/metadata/src/model/ProtoDescriptorHelper.ts, and the qualifiers of EggPrototypeImpl.ts.
pub mod Merge
pub mod Once
pub mod Default
pub mod Select
use tegg.Prelude.{
  ℕ, String, Bool, true, false, List, [], ◌∷◌, ◌++◌, Option, none, some, if◌then◌else◌, ◌==◌, ◌&&◌,
  nat_key, string_key, leb, find, length, not,
}
use tegg.Prelude.JsMap.{JsMap, set}
use tegg.Metadata.{
  PropertyKey, index_key, named, symbol, QualifierValue, QualifierInfo, ProtoDescriptor,
  property_key, value_key, str, is_public, init_type_qualifier_attribute,
  load_unit_name_qualifier_attribute,
}

-- What an object of properties holds; an assignment to an old property keeps its place.
abbrev pub Properties : Type 0
Properties = JsMap PropertyKey QualifierValue

abbrev pub Entry : Type 0
Entry = PropertyKey × QualifierValue

unfoldable pub match_qualifiers : List QualifierInfo → List QualifierInfo → Bool
match_qualifiers clazz [] = true
match_qualifiers clazz (request ∷ requests) =
    let rest = match_qualifiers clazz requests in
    elim (find (λ t. t.attribute == request.attribute && t.value == request.value) clazz) [
      | none ↦ false
      | some _ ↦ rest
    ]

unfoldable pub equal_qualifiers : List QualifierInfo → List QualifierInfo → Bool
unfolding match_qualifiers
equal_qualifiers clazz requests =
    if not (length clazz == length requests) then false else match_qualifiers clazz requests

unfoldable pub assign_all : List QualifierInfo → Properties → Properties
assign_all [] temp = temp
assign_all (q ∷ qs) temp = assign_all qs (set q.attribute q.value temp)

unfoldable pub assign_lists : List (List QualifierInfo) → Properties → Properties
unfolding assign_all
assign_lists [] temp = temp
assign_lists (qs ∷ lists) temp = assign_lists lists (assign_all qs temp)

-- The order of `Reflect.ownKeys`: indices upwards, then strings and then symbols as they came.
unfoldable pub insert_index : ℕ → QualifierValue → Properties → Properties
insert_index n v [] = (index_key n, v) ∷ []
insert_index n v ((index_key m, w) ∷ es) =
    let rest = insert_index n v es in
    if leb n m then (index_key n, v) ∷ (index_key m, w) ∷ es else (index_key m, w) ∷ rest
insert_index n v ((named s, w) ∷ es) = (index_key n, v) ∷ (named s, w) ∷ es
insert_index n v ((symbol s, w) ∷ es) = (index_key n, v) ∷ (symbol s, w) ∷ es

unfoldable pub indices : Properties → Properties
unfolding insert_index
indices [] = []
indices ((index_key n, v) ∷ es) = insert_index n v (indices es)
indices ((named s, v) ∷ es) = indices es
indices ((symbol s, v) ∷ es) = indices es

unfoldable pub strings : Properties → Properties
strings [] = []
strings ((index_key n, v) ∷ es) = strings es
strings ((named s, v) ∷ es) = (named s, v) ∷ strings es
strings ((symbol s, v) ∷ es) = strings es

unfoldable pub symbols : Properties → Properties
symbols [] = []
symbols ((index_key n, v) ∷ es) = symbols es
symbols ((named s, v) ∷ es) = symbols es
symbols ((symbol s, v) ∷ es) = (symbol s, v) ∷ symbols es

unfoldable pub own_entries : Properties → Properties
unfolding indices strings symbols
own_entries temp = indices temp ++ (strings temp ++ symbols temp)

unfoldable pub qualifiers_of : Properties → List QualifierInfo
qualifiers_of [] = []
qualifiers_of ((k, v) ∷ es) = record { attribute = k; value = v } ∷ qualifiers_of es

unfoldable pub merge_qualifiers : List (List QualifierInfo) → List QualifierInfo
unfolding assign_lists own_entries qualifiers_of
merge_qualifiers lists = qualifiers_of (own_entries (assign_lists lists []))

-- `EggPrototypeImpl.getQualifier`, and its test of one qualifier and of several.
unfoldable pub get_qualifier : PropertyKey → List QualifierInfo → Option QualifierValue
get_qualifier k [] = none
get_qualifier k (t ∷ ts) =
    let rest = get_qualifier k ts in if t.attribute == k then some t.value else rest

unfoldable pub verify_qualifier : List QualifierInfo → QualifierInfo → Bool
unfolding get_qualifier
verify_qualifier self q = elim (get_qualifier q.attribute self) [
  | none ↦ false
  | some v ↦ v == q.value
]

unfoldable pub verify_qualifiers : List QualifierInfo → List QualifierInfo → Bool
unfolding verify_qualifier
verify_qualifiers self [] = true
verify_qualifiers self (q ∷ qs) =
    let rest = verify_qualifiers self qs in if not (verify_qualifier self q) then false else rest

unfoldable pub add_default :
    List QualifierInfo → QualifierInfo → List QualifierInfo → List QualifierInfo
add_default qualifiers q res = elim (find (λ t. t.attribute == q.attribute) qualifiers) [
  | none ↦ res ++ q ∷ []
  | some _ ↦ res
]

unfoldable pub add_default_qualifier : List QualifierInfo → String → String → List QualifierInfo
unfolding add_default
add_default_qualifier qualifiers init_type load_unit_name =
    let init : QualifierInfo = record {
      attribute = init_type_qualifier_attribute;
      value = str init_type;
    } in
    let unit : QualifierInfo = record {
      attribute = load_unit_name_qualifier_attribute;
      value = str load_unit_name;
    } in
    add_default qualifiers unit (add_default qualifiers init qualifiers)

pub record ProtoSelectorContext : Type 0 where
  pub name : PropertyKey
  pub qualifiers : List QualifierInfo
  pub module_name : String

unfoldable pub select_proto : ProtoDescriptor → ProtoSelectorContext → Bool
unfolding match_qualifiers
select_proto proto ctx =
    if not (proto.name == ctx.name)
    then false
    else if not (is_public proto.access_level)
        && not (proto.instance_module_name == ctx.module_name)
    then false
    else match_qualifiers proto.qualifiers ctx.qualifiers
