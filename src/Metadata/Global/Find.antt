-- ===== src/Metadata/Global/Find.antt =====
-- The search for the prototype that an injection means: it ends, and what it finds fits the request.
use tegg.Prelude.{
  ℕ, zero, suc, ◌≡◌, ◌≢◌, inl, inr, ◌∙◌, List, [], ◌∷◌, none, some, nat_key, string_key, arith, In,
  In-filter, Option-cases, List-cases, ok,
}
use tegg.Prelude.JsMap.{values}
use tegg.Graph.{Ref}
use tegg.Metadata.{
  PropertyKey, QualifierValue, QualifierInfo, InjectObjectDescriptor, ProtoDescriptor, str,
  property_key, same_property_iff, init_type_qualifier_attribute,
  load_unit_name_qualifier_attribute, context_init_type,
}
use tegg.Metadata.Qualifier.{merge_qualifiers, get_qualifier, select_proto, ProtoSelectorContext}
use tegg.Metadata.Qualifier.Merge.{or_else, last_value, last_of_all, merge_qualifiers_lem}
use tegg.Metadata.Qualifier.Once.{last_value-merge, last_value-none}
use tegg.Metadata.Qualifier.Select.{IsVisible, select_proto-IsVisible, get_qualifier-In}
use tegg.Metadata.Global.{
  GlobalGraph, find_with_default_qualifiers, disambiguate, find_dependency_proto_node, only,
  context_qualifier, self_qualifier, load_unit_qualifier, in_own_module, Answer,
}

own_load_unit :
    (proto : ProtoDescriptor) (inject : InjectObjectDescriptor)
    → get_qualifier load_unit_name_qualifier_attribute (in_own_module proto inject).qualifiers
      ≡ some (str proto.instance_module_name)
unfolding last_of_all last_value or_else
own_load_unit proto inject =
    merge_qualifiers_lem load_unit_name_qualifier_attribute
      (inject.qualifiers ∷ load_unit_qualifier proto ∷ [])

-- A request that names its load unit is not searched again.
disambiguate_last :
    (g : GlobalGraph) (proto : ProtoDescriptor) (inject : InjectObjectDescriptor) (o : Answer)
    (v : QualifierValue)
    → get_qualifier load_unit_name_qualifier_attribute inject.qualifiers ≡ some v
    → disambiguate g proto inject o ≢ none
unfolding disambiguate
disambiguate_last g proto inject o v h = ground arith

disambiguate_again :
    (g : GlobalGraph) (proto : ProtoDescriptor) (inject : InjectObjectDescriptor) (o : Answer)
    → o ≢ none
    → disambiguate g proto inject o ≢ none
unfolding disambiguate
disambiguate_again g proto inject o h = ground arith

find_once :
    (f : ℕ) (g : GlobalGraph) (proto : ProtoDescriptor) (inject : InjectObjectDescriptor)
    → ((o : Answer) → disambiguate g proto inject o ≢ none)
    → find_dependency_proto_node (suc f) g proto inject ≢ none
unfolding find_dependency_proto_node
find_once f g proto inject h =
    ground (arith, h (find_dependency_proto_node f g proto (in_own_module proto inject)))

-- Two rounds of fuel are enough: the search answers or throws, on every graph and every request.
pub find_dependency_total :
    (f : ℕ) (g : GlobalGraph) (proto : ProtoDescriptor) (inject : InjectObjectDescriptor)
    → find_dependency_proto_node (suc (suc f)) g proto inject ≢ none
unfolding find_dependency_proto_node
find_dependency_total f g proto inject =
    let again : find_dependency_proto_node (suc f) g proto (in_own_module proto inject) ≢ none =
      find_once f g proto (in_own_module proto inject) (λ o.
        disambiguate_last g proto (in_own_module proto inject) o (str proto.instance_module_name)
          (own_load_unit proto inject)) in
    ground (
      arith,
      disambiguate_again g proto inject
          (find_dependency_proto_node (suc f) g proto (in_own_module proto inject)) again,
    )

-- A vertex of the graph with the requested name, visible to the requesting module, that has every
-- requested qualifier, the type of initialisation excepted.
pub record Fits (g : GlobalGraph) (proto : ProtoDescriptor) (inject : InjectObjectDescriptor)
    (r : Ref) : Type 0 where
  pub known : In r (values g.proto_graph.nodes)
  pub name : (g.proto_of r).name ≡ inject.obj_name
  pub visible : IsVisible (g.proto_of r) proto.instance_module_name
  pub qualified :
      (k : PropertyKey) (v : QualifierValue)
      → k ≢ init_type_qualifier_attribute
      → last_value k inject.qualifiers ≡ some v
      → In (record { attribute = k; value = v }) (g.proto_of r).qualifiers

-- The request with more qualifiers still gives these values.
Keeps : InjectObjectDescriptor → List QualifierInfo → Type 0
Keeps inject qualifiers =
    (k : PropertyKey) (v : QualifierValue)
    → k ≢ init_type_qualifier_attribute
    → last_value k inject.qualifiers ≡ some v
    → last_of_all k (inject.qualifiers ∷ qualifiers ∷ []) ≡ some v

Keeps-nil : (inject : InjectObjectDescriptor) → Keeps inject []
unfolding Keeps last_of_all last_value or_else
Keeps-nil inject k v ne h = h

Keeps-init :
    (inject : InjectObjectDescriptor) (v : QualifierValue)
    → Keeps inject (record { attribute = init_type_qualifier_attribute; value = v } ∷ [])
unfolding Keeps last_of_all last_value or_else
Keeps-init inject w k v ne h = ground (arith, same_property_iff init_type_qualifier_attribute k)

Keeps-own :
    (proto : ProtoDescriptor) (inject : InjectObjectDescriptor)
    → get_qualifier load_unit_name_qualifier_attribute inject.qualifiers ≡ none
    → Keeps inject (load_unit_qualifier proto)
unfolding Keeps last_of_all last_value or_else
Keeps-own proto inject free k v ne h = ground (
  arith,
  same_property_iff load_unit_name_qualifier_attribute k,
  last_value-none load_unit_name_qualifier_attribute inject.qualifiers free,
)

found-Fits :
    (g : GlobalGraph) (proto : ProtoDescriptor) (inject : InjectObjectDescriptor)
    (qualifiers : List QualifierInfo) (r : Ref)
    → Keeps inject qualifiers
    → In r (find_with_default_qualifiers g proto inject qualifiers)
    → Fits g proto inject r
unfolding find_with_default_qualifiers Keeps
found-Fits g proto inject qualifiers r keeps m =
    let merged = merge_qualifiers (inject.qualifiers ∷ qualifiers ∷ []) in
    let context : ProtoSelectorContext = record {
      name = inject.obj_name;
      qualifiers = merged;
      module_name = proto.instance_module_name;
    } in
    let (known, selected) =
      In-filter (λ node. select_proto (g.proto_of node) context) (values g.proto_graph.nodes) r m in
    let (name, visible, has) = select_proto-IsVisible (g.proto_of r) context selected in
    record {
      known = known;
      name = name;
      visible = visible;
      qualified = λ k v ne h.
          has (record { attribute = k; value = v })
            (get_qualifier-In k v merged
              (merge_qualifiers_lem k (inject.qualifiers ∷ qualifiers ∷ []) ∙ keeps k v ne h));
    }

only-In : (rs : List Ref) (r : Ref) → only rs ≡ some r → In r rs
only-In [] r h = cc
only-In (s ∷ []) r h = inl (ground arith)
only-In (s ∷ t ∷ rs) r h = cc

Fits-own :
    (g : GlobalGraph) (proto : ProtoDescriptor) (inject : InjectObjectDescriptor) (r : Ref)
    → get_qualifier load_unit_name_qualifier_attribute inject.qualifiers ≡ none
    → Fits g proto (in_own_module proto inject) r
    → Fits g proto inject r
unfolding Keeps
Fits-own g proto inject r free fits = record {
  known = fits.known;
  name = fits.name;
  visible = fits.visible;
  qualified = λ k v ne h. fits.qualified k v ne (
      last_value-merge k (inject.qualifiers ∷ load_unit_qualifier proto ∷ [])
      ∙ Keeps-own proto inject free k v ne h);
}

disambiguate-Fits :
    (g : GlobalGraph) (proto : ProtoDescriptor) (inject : InjectObjectDescriptor) (again : Answer)
    (r : Ref)
    → (again ≡ some (ok (some r)) → Fits g proto (in_own_module proto inject) r)
    → disambiguate g proto inject again ≡ some (ok (some r))
    → Fits g proto inject r
unfolding disambiguate
disambiguate-Fits g proto inject again r fits h =
    elim (Option-cases (only (find_with_default_qualifiers g proto inject context_qualifier))) [
      | inr (s, e) ↦
          found-Fits g proto inject context_qualifier r (Keeps-init inject (str context_init_type))
            (only-In (find_with_default_qualifiers g proto inject context_qualifier) r
              (ground arith))
      | inl n ↦
          elim (Option-cases
            (only (find_with_default_qualifiers g proto inject (self_qualifier proto)))) [
              | inr (s, e) ↦
                  found-Fits g proto inject (self_qualifier proto) r
                    (Keeps-init inject (str proto.init_type))
                    (only-In (find_with_default_qualifiers g proto inject (self_qualifier proto)) r
                      (ground arith))
              | inl n' ↦
                  elim (Option-cases
                    (get_qualifier load_unit_name_qualifier_attribute inject.qualifiers)) [
                      | inr (v, e) ↦ absurd (ground arith)
                      | inl free ↦ Fits-own g proto inject r free (fits (ground arith))
                    ]
            ]
    ]

-- Whatever prototype the search finds is a vertex of the graph, has the requested name, is visible
-- to the requesting module and has every requested qualifier but for the type of initialisation,
-- which the search may override.
pub find_dependency-Fits :
    (f : ℕ) (g : GlobalGraph) (proto : ProtoDescriptor) (inject : InjectObjectDescriptor) (r : Ref)
    → find_dependency_proto_node f g proto inject ≡ some (ok (some r))
    → Fits g proto inject r
unfolding find_dependency_proto_node
find_dependency-Fits zero g proto inject r h = cc
find_dependency-Fits (suc f) g proto inject r h =
    elim (List-cases (find_with_default_qualifiers g proto inject [])) [
      | inl e ↦ absurd (ground arith)
      | inr (p, [], e) ↦
          found-Fits g proto inject [] r (Keeps-nil inject) (rw e (inl (ground arith)))
      | inr (p, q ∷ ps, e) ↦
          disambiguate-Fits g proto inject
            (find_dependency_proto_node f g proto (in_own_module proto inject)) r
            (find_dependency-Fits f g proto (in_own_module proto inject) r) (ground arith)
    ]
