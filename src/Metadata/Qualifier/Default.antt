-- ===== src/Metadata/Qualifier/Default.antt =====
-- The qualifiers that `addDefaultQualifier` gives every prototype.
use tegg.Prelude.{
  ◌≡◌, ◌↔◌, refl, String, List, [], ◌∷◌, ◌++◌, Option, none, some, if◌then◌else◌, ◌==◌, string_key,
  arith, find,
}
use tegg.Metadata.{
  PropertyKey, QualifierValue, QualifierInfo, property_key, same_property_iff, str,
  init_type_qualifier_attribute, load_unit_name_qualifier_attribute,
}
use tegg.Metadata.Qualifier.{get_qualifier, add_default, add_default_qualifier}
use tegg.Metadata.Qualifier.Merge.{or_else, or_else-none}

get_qualifier-append :
    (k : PropertyKey) (xs ys : List QualifierInfo)
    → get_qualifier k (xs ++ ys) ≡ or_else (get_qualifier k xs) (get_qualifier k ys)
unfolding get_qualifier or_else
get_qualifier-append k [] ys = refl
get_qualifier-append k (x ∷ xs) ys = ground (arith, get_qualifier-append k xs ys)

find-get_qualifier :
    (k : PropertyKey) (qs : List QualifierInfo)
    → (find (λ t. t.attribute == k) qs ≡ none) ↔ (get_qualifier k qs ≡ none)
unfolding get_qualifier
find-get_qualifier k [] = ground arith
find-get_qualifier k (q ∷ qs) = ground (arith, find-get_qualifier k qs)

get_qualifier-add_default :
    (k : PropertyKey) (qualifiers : List QualifierInfo) (q : QualifierInfo)
    (res : List QualifierInfo)
    → get_qualifier k (add_default qualifiers q res)
      ≡ or_else (get_qualifier k res) (elim (get_qualifier q.attribute qualifiers) [
        | none ↦ if q.attribute == k then some q.value else none
        | some _ ↦ none
      ])
unfolding add_default get_qualifier or_else
get_qualifier-add_default k qualifiers q res = ground (
  arith,
  find-get_qualifier q.attribute qualifiers,
  get_qualifier-append k res (q ∷ []),
  or_else-none (get_qualifier k res),
)

-- The values that a prototype has by default: its type of initialisation and its load unit.
abbrev pub default_value : PropertyKey → String → String → Option QualifierValue
default_value k init_type load_unit_name =
    if init_type_qualifier_attribute == k
    then some (str init_type)
    else if load_unit_name_qualifier_attribute == k
    then some (str load_unit_name)
    else none

-- With the default qualifiers added, each attribute has its own value where it had one, and else the
-- default: the type of initialisation, the load unit's name, or nothing.
pub add_default_qualifier_lem :
    (k : PropertyKey) (qs : List QualifierInfo) (init_type load_unit_name : String)
    → get_qualifier k (add_default_qualifier qs init_type load_unit_name)
      ≡ or_else (get_qualifier k qs) (default_value k init_type load_unit_name)
unfolding add_default_qualifier or_else
add_default_qualifier_lem k qs init_type load_unit_name =
    let init : QualifierInfo = record {
      attribute = init_type_qualifier_attribute;
      value = str init_type;
    } in
    let unit : QualifierInfo = record {
      attribute = load_unit_name_qualifier_attribute;
      value = str load_unit_name;
    } in
    ground (
      arith,
      get_qualifier-add_default k qs init qs,
      get_qualifier-add_default k qs unit (add_default qs init qs),
      same_property_iff init_type_qualifier_attribute k,
      same_property_iff load_unit_name_qualifier_attribute k,
    )
