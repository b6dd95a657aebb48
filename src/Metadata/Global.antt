-- ===== src/Metadata/Global.antt =====
-- core/metadata/src/model/graph/GlobalGraph.ts and GlobalModuleNode.ts: the graph of modules and the
-- graph of prototypes, the resolution of injections, and the order of loading.
-- The payload of a vertex is kept by its reference; a vertex's id is in the graph's own object. An
-- operation that throws gives no graph back. `none` means that the fuel ran out.
pub mod Find
pub mod Load
pub mod Loaded
pub mod Order
use tegg.Prelude.{
  ℕ, zero, suc, String, Bool, true, false, List, [], ◌∷◌, ◌++◌, map, Option, none, some,
  if◌then◌else◌, ◌==◌, ◌&&◌, ◌||◌, not, nat_key, string_key, filter, find, Result, ok, err, ◌>>=◌,
  ltb, length,
}
use tegg.Prelude.JsMap.{JsMap, get, set, values}
use tegg.Graph.{Ref, GraphNode, Graph, add_vertex, add_edge, loop_path, sort}
use tegg.Metadata.{
  PropertyKey, QualifierInfo, InjectObjectDescriptor, ProtoDescriptor, property_key, str,
  init_type_qualifier_attribute, load_unit_name_qualifier_attribute, context_init_type,
}
use tegg.Metadata.Qualifier.{merge_qualifiers, get_qualifier, select_proto}

pub record ModuleDependencyMeta : Type 0 where
  pub obj : Ref
  pub inject_obj : PropertyKey

pub record GlobalModuleNode : Type 0 where
  pub name : String
  pub unit_path : String
  pub optional : Bool
  pub protos : List Ref

pub record ModuleReference : Type 0 where
  pub name : String
  pub path : String
  pub optional : Bool

pub data GraphError : Type 0 where
  duplicate_module duplicate_proto : Ref → GraphError
  proto_not_found : PropertyKey → String → GraphError
  multi_prototype_found : PropertyKey → List QualifierInfo → GraphError
  module_not_found : String → GraphError
  recursive_modules recursive_protos : GraphError

pub record GlobalGraph : Type 0 where
  pub module_graph : Graph ModuleDependencyMeta
  pub proto_graph : Graph PropertyKey
  pub module_of : Ref → GlobalModuleNode
  pub proto_of : Ref → ProtoDescriptor
  pub strict : Bool
  pub module_config_list : List ModuleReference
  pub module_proto_descriptor_map : JsMap String (List Ref)

unfoldable pub add_protos : List Ref → Graph PropertyKey → Result GraphError (Graph PropertyKey)
unfolding add_vertex
add_protos [] g = ok g
add_protos (p ∷ ps) g =
    if not (add_vertex g p).1 then err (duplicate_proto p) else add_protos ps (add_vertex g p).0

unfoldable pub add_module_node : GlobalGraph → Ref → Result GraphError GlobalGraph
unfolding add_vertex add_protos
add_module_node g r = if not (add_vertex g.module_graph r).1 then err (duplicate_module r) else do
  protos ← add_protos (g.module_of r).protos g.proto_graph
  ok (record g { module_graph = (add_vertex g.module_graph r).0; proto_graph = protos })

-- The prototypes that the request selects when these qualifiers are merged into it.
unfoldable pub find_with_default_qualifiers :
    GlobalGraph → ProtoDescriptor → InjectObjectDescriptor → List QualifierInfo → List Ref
unfolding merge_qualifiers select_proto
find_with_default_qualifiers g proto inject qualifiers =
    filter
      (λ node. select_proto (g.proto_of node) (record {
        name = inject.obj_name;
        qualifiers = merge_qualifiers (inject.qualifiers ∷ qualifiers ∷ []);
        module_name = proto.instance_module_name;
      }))
      (values g.proto_graph.nodes)

abbrev pub only : List Ref → Option Ref
only [] = none
only (r ∷ []) = some r
only (r ∷ s ∷ rs) = none

abbrev pub context_qualifier : List QualifierInfo
context_qualifier =
    record { attribute = init_type_qualifier_attribute; value = str context_init_type } ∷ []

abbrev pub self_qualifier : ProtoDescriptor → List QualifierInfo
self_qualifier proto =
    record { attribute = init_type_qualifier_attribute; value = str proto.init_type } ∷ []

abbrev pub load_unit_qualifier : ProtoDescriptor → List QualifierInfo
load_unit_qualifier proto =
    record {
      attribute = load_unit_name_qualifier_attribute;
      value = str proto.instance_module_name;
    }
    ∷ []

abbrev pub in_own_module : ProtoDescriptor → InjectObjectDescriptor → InjectObjectDescriptor
in_own_module proto inject = record inject {
  qualifiers = merge_qualifiers (inject.qualifiers ∷ load_unit_qualifier proto ∷ []);
}

-- `some (ok none)` is `undefined`.
abbrev pub Answer : Type 0
Answer = Option (Result GraphError (Option Ref))

-- The tests once the plain request has selected more than one prototype.
unfoldable pub disambiguate :
    GlobalGraph → ProtoDescriptor → InjectObjectDescriptor → Answer → Answer
unfolding find_with_default_qualifiers get_qualifier
disambiguate g proto inject again =
    elim (only (find_with_default_qualifiers g proto inject context_qualifier)) [
      | some r ↦ some (ok (some r))
      | none ↦ elim (only (find_with_default_qualifiers g proto inject (self_qualifier proto))) [
        | some r ↦ some (ok (some r))
        | none ↦ elim (get_qualifier load_unit_name_qualifier_attribute inject.qualifiers) [
          | none ↦ again
          | some _ ↦ some (err (multi_prototype_found inject.obj_name inject.qualifiers))
        ]
      ]
    ]

unfoldable pub find_dependency_proto_node :
    ℕ → GlobalGraph → ProtoDescriptor → InjectObjectDescriptor → Answer
unfolding find_with_default_qualifiers disambiguate
find_dependency_proto_node zero g proto inject = none
find_dependency_proto_node (suc fuel) g proto inject =
    elim (find_with_default_qualifiers g proto inject []) [
      | [] ↦ some (ok none)
      | p ∷ [] ↦ some (ok (some p))
      | p ∷ q ∷ ps ↦
          disambiguate g proto inject
            (find_dependency_proto_node fuel g proto (in_own_module proto inject))
    ]

unfoldable pub find_module_node : GlobalGraph → String → Option Ref
find_module_node g name =
    find (λ node. (g.module_of node).name == name) (values g.module_graph.nodes)

-- Two module nodes differ where their unit paths, which are their ids, do.
unfoldable pub add_inject :
    GlobalGraph → Ref → Ref → Ref → PropertyKey → Result GraphError GlobalGraph
unfolding add_edge find_module_node
add_inject g module_node proto_node inject_node inject_name =
    let linked : GlobalGraph = record g {
      proto_graph = (add_edge g.proto_graph proto_node inject_node (some inject_name)).0;
    } in
    let inject_module_name = (g.proto_of inject_node).instance_module_name in
    elim (find_module_node linked inject_module_name) [
      | none ↦ if not g.strict then ok linked else err (module_not_found inject_module_name)
      | some inject_module ↦
          if not ((g.module_of module_node).unit_path == (g.module_of inject_module).unit_path)
          then ok (record linked {
            module_graph =
                (add_edge g.module_graph module_node inject_module
                  (some (record { obj = proto_node; inject_obj = inject_name }))).0;
          })
          else ok linked
    ]

-- Two rounds of the search are enough fuel.
abbrev pub rounds : ℕ
rounds = 2

unfoldable pub build_inject_edge :
    GlobalGraph → Ref → Ref → InjectObjectDescriptor → Option (Result GraphError GlobalGraph)
unfolding find_dependency_proto_node add_inject
build_inject_edge g module_node proto_node inject =
    elim (find_dependency_proto_node rounds g (g.proto_of proto_node) inject) [
      | none ↦ none
      | some (err e) ↦ some (err e)
      | some (ok none) ↦
          if not g.strict
          then some (ok g)
          else some
              (err (proto_not_found inject.obj_name (g.proto_of proto_node).instance_module_name))
      | some (ok (some r)) ↦ some (add_inject g module_node proto_node r inject.obj_name)
    ]

-- A loop whose body may throw or run out of fuel.
unfoldable pub for_each :
    {A : Type 0}
    → (A → GlobalGraph → Option (Result GraphError GlobalGraph))
    → List A
    → GlobalGraph
    → Option (Result GraphError GlobalGraph)
for_each f [] g = some (ok g)
for_each f (x ∷ xs) g = elim (f x g) [
  | none ↦ none
  | some (err e) ↦ some (err e)
  | some (ok h) ↦ for_each f xs h
]

-- The edges of one prototype's injections, of one module's prototypes, and of all modules.
abbrev pub build_proto :
    GlobalGraph → Ref → Ref → GlobalGraph → Option (Result GraphError GlobalGraph)
build_proto g module_node proto_node =
    for_each (λ inject h. build_inject_edge h module_node proto_node inject)
      (g.proto_of proto_node).inject_objects

abbrev pub build_module : GlobalGraph → Ref → GlobalGraph → Option (Result GraphError GlobalGraph)
build_module g module_node = for_each (build_proto g module_node) (g.module_of module_node).protos

abbrev pub build_edges : GlobalGraph → Option (Result GraphError GlobalGraph)
build_edges g = for_each (build_module g) (values g.module_graph.nodes) g

-- The hooks are registered functions of the application.
unfoldable pub build :
    List (GlobalGraph → Option (Result GraphError GlobalGraph))
    → GlobalGraph
    → Option (Result GraphError GlobalGraph)
unfolding for_each build_inject_edge
build hooks g = elim (build_edges g) [
  | none ↦ none
  | some (err e) ↦ some (err e)
  | some (ok built) ↦ for_each (λ hook h. hook h) hooks built
]

abbrev pub reference : GlobalModuleNode → ModuleReference
reference t = record { name = t.name; path = t.unit_path; optional = t.optional }

abbrev pub is_loaded : GlobalGraph → Ref → Bool
is_loaded g t = not (g.module_of t).optional || ltb 0 (length (g.module_graph.heap t).from_node_map)

unfoldable pub sort_module : ℕ → GlobalGraph → Option (Result GraphError GlobalGraph)
unfolding loop_path sort
sort_module fuel g = elim (loop_path fuel g.module_graph) [
  | none ↦ none
  | some (some _) ↦ some (err recursive_modules)
  | some none ↦ elim (sort fuel g.module_graph) [
    | none ↦ none
    | some rs ↦ some (
        ok (record g {
          module_config_list = map (λ t. reference (g.module_of t)) (filter (is_loaded g) rs);
        }))
  ]
]

abbrev pub list_of : Option (List Ref) → List Ref
list_of none = []
list_of (some rs) = rs

-- The list of a module, made on its first prototype, takes the prototypes in their order.
unfoldable pub push_protos :
    (Ref → ProtoDescriptor) → List Ref → JsMap String (List Ref) → JsMap String (List Ref)
push_protos proto_of [] m = m
push_protos proto_of (p ∷ ps) m =
    let name = (proto_of p).instance_module_name in
    push_protos proto_of ps (set name (list_of (get name m) ++ p ∷ []) m)

unfoldable pub sort_clazz : ℕ → GlobalGraph → Option (Result GraphError GlobalGraph)
unfolding loop_path sort push_protos
sort_clazz fuel g = elim (loop_path fuel g.proto_graph) [
  | none ↦ none
  | some (some _) ↦ some (err recursive_protos)
  | some none ↦ elim (sort fuel g.proto_graph) [
    | none ↦ none
    | some rs ↦ some (
        ok (record g {
          module_proto_descriptor_map = push_protos g.proto_of rs g.module_proto_descriptor_map;
        }))
  ]
]

unfoldable pub sort_graphs : ℕ → GlobalGraph → Option (Result GraphError GlobalGraph)
unfolding sort_module sort_clazz
sort_graphs fuel g = elim (sort_module fuel g) [
  | none ↦ none
  | some (err e) ↦ some (err e)
  | some (ok h) ↦ sort_clazz fuel h
]
