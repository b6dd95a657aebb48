-- ===== src/Metadata/Tests.antt =====
-- Small graphs of prototypes, and the theorems at them.
use tegg.Prelude.{
  ◌-◌, ◌≡◌, ◌≢◌, refl, inl, inr, String, true, false, List, [], ◌∷◌, ◌++◌, Option, none, some,
  if◌then◌else◌, ◌==◌, nat_key, string_key, In, subst, Result, ok,
}
use tegg.Prelude.JsMap.{get, set}
use tegg.Graph.{
  append_vertex_to_path, push_vertex, append_each, is_accessed, add_from_vertex, pop_vertex,
  pop_last, add_to_vertex, index_of, Ref, GraphNode, loop_path, add_edge, add_vertex,
}
use tegg.Graph.Build.{empty, empty-WellFormed, add_vertex-WellFormed}
use tegg.Graph.Loop.{targets}
use tegg.Metadata.{
  PropertyKey, named, str, QualifierInfo, InjectObjectDescriptor, ProtoDescriptor, property_key,
  value_key, public_access,
}
use tegg.Metadata.Qualifier.{merge_qualifiers, get_qualifier, add_default_qualifier}
use tegg.Metadata.Qualifier.Merge.{merge_qualifiers_lem, last_of_all}
use tegg.Metadata.Global.{
  GlobalGraph, GlobalModuleNode, GraphError, find_dependency_proto_node, build, sort_graphs,
  list_of,
}
use tegg.Metadata.Global.Find.{Fits, find_dependency_total, find_dependency-Fits}
use tegg.Metadata.Global.Load.{IsBuilt, IsBare, Succeeds, build-Succeeds}
use tegg.Metadata.Global.Order.{IsSorted, sort_graphs-IsSorted, sort_graphs_injected}

abbrev qualifier : String → String → QualifierInfo
qualifier a v = record { attribute = named a; value = str v }

abbrev vertices : {M : Type 0} → List String → Ref → GraphNode M
vertices [] r = record { id = "none"; to_node_map = []; from_node_map = [] }
vertices (id ∷ ids) r =
    if r == 0
    then record { id = id; to_node_map = []; from_node_map = [] }
    else vertices ids (r - 1)

abbrev proto : String → String → List InjectObjectDescriptor → ProtoDescriptor
proto name unit injects = record {
  name = named name;
  access_level = public_access;
  init_type = "SINGLETON";
  qualifiers = add_default_qualifier [] "SINGLETON" unit;
  inject_objects = injects;
  define_module_name = unit;
  define_unit_path = unit;
  instance_module_name = unit;
  instance_define_unit_path = unit;
}

abbrev inject : String → InjectObjectDescriptor
inject name = record { ref_name = named name; obj_name = named name; qualifiers = [] }

-- Module b defines a controller, which injects its own service and the public logger of module a.
abbrev protos : Ref → ProtoDescriptor
protos r =
    if r == 0
    then proto "logger" "a" []
    else if r == 1
    then proto "controller" "b" (inject "service" ∷ inject "logger" ∷ [])
    else proto "service" "b" (inject "logger" ∷ [])

abbrev modules : Ref → GlobalModuleNode
modules r =
    if r == 0
    then record { name = "a"; unit_path = "path_a"; optional = false; protos = 0 ∷ [] }
    else record { name = "b"; unit_path = "path_b"; optional = true; protos = 1 ∷ 2 ∷ [] }

abbrev no_modules : GlobalGraph
no_modules = record {
  module_graph = empty (vertices ("path_a" ∷ "path_b" ∷ []));
  proto_graph = empty (vertices ("logger@a" ∷ "controller@b" ∷ "service@b" ∷ []));
  module_of = modules;
  proto_of = protos;
  strict = true;
  module_config_list = [];
  module_proto_descriptor_map = [];
}

-- Both prototypes in one module, after the modules were added: the service injects the logger.
abbrev one_module : GlobalGraph
one_module = record no_modules {
  module_graph = (add_vertex (empty (vertices ("path_a" ∷ []))) 0).0;
  proto_graph = (add_vertex (add_vertex (empty (vertices ("l" ∷ "s" ∷ []))) 0).0 1).0;
  module_of =
      λ r. record { name = "a"; unit_path = "path_a"; optional = false; protos = 0 ∷ 1 ∷ [] };
  proto_of = λ r.
      if r == 0
      then record (proto "logger" "a" []) { qualifiers = [] }
      else record (proto "service" "a" (inject "logger" ∷ [])) { qualifiers = [] };
}

abbrev linked : GlobalGraph
linked = record one_module {
  proto_graph = (add_edge one_module.proto_graph 1 0 (some (named "logger"))).0;
}

linked_build : build [] one_module ≡ some (ok linked)
unfolding build add_edge set add_vertex get
linked_build = refl

-- An injection that two foreign prototypes fit equally well is answered by `undefined`.
two_loggers : GlobalGraph
two_loggers = record no_modules {
  proto_graph = record {
    heap = vertices ("logger@a" ∷ "logger@c" ∷ []);
    nodes = ("logger@a", 0) ∷ ("logger@c", 1) ∷ [];
  };
  proto_of = λ r. if r == 0 then proto "logger" "a" [] else proto "logger" "c" [];
}

ambiguous_undefined :
    find_dependency_proto_node 2 two_loggers (proto "controller" "b" []) (inject "logger")
    ≡ some (ok none)
unfolding find_dependency_proto_node two_loggers set add_default_qualifier
ambiguous_undefined = refl

merge_qualifiers_lem_example :
    get_qualifier (named "a") (
      merge_qualifiers
        ((qualifier "a" "1" ∷ []) ∷ (qualifier "b" "2" ∷ qualifier "a" "3" ∷ []) ∷ []))
    ≡ last_of_all
        (named "a")
        ((qualifier "a" "1" ∷ []) ∷ (qualifier "b" "2" ∷ qualifier "a" "3" ∷ []) ∷ [])
merge_qualifiers_lem_example =
    merge_qualifiers_lem (named "a")
      ((qualifier "a" "1" ∷ []) ∷ (qualifier "b" "2" ∷ qualifier "a" "3" ∷ []) ∷ [])

find_dependency_total_example :
    find_dependency_proto_node 2 one_module (one_module.proto_of 1) (inject "logger") ≢ none
find_dependency_total_example =
    find_dependency_total 0 one_module (one_module.proto_of 1) (inject "logger")

found_logger :
    find_dependency_proto_node 2 one_module (one_module.proto_of 1) (inject "logger")
    ≡ some (ok (some 0))
unfolding find_dependency_proto_node set add_default_qualifier add_vertex get
found_logger = refl

find_dependency-Fits_example : Fits one_module (one_module.proto_of 1) (inject "logger") 0
find_dependency-Fits_example =
    find_dependency-Fits 2 one_module (one_module.proto_of 1) (inject "logger") 0 found_logger

no_modules-IsBuilt : IsBuilt no_modules
no_modules-IsBuilt = record {
  modules = empty-WellFormed (vertices ("path_a" ∷ "path_b" ∷ []));
  protos = empty-WellFormed (vertices ("logger@a" ∷ "controller@b" ∷ "service@b" ∷ []));
}

logger-IsBare : (p : Ref) → In p (0 ∷ []) → IsBare no_modules.proto_graph p
logger-IsBare p (inl e) t m = rw e at m
logger-IsBare p (inr z) t m = z

one_module-IsBuilt : IsBuilt one_module
unfolding add_vertex get set
one_module-IsBuilt = record {
  modules =
      add_vertex-WellFormed (empty (vertices ("path_a" ∷ []))) 0
        (empty-WellFormed (vertices ("path_a" ∷ []))) (λ t m. m);
  protos =
      add_vertex-WellFormed (add_vertex (empty (vertices ("l" ∷ "s" ∷ []))) 0).0 1
        (add_vertex-WellFormed (empty (vertices ("l" ∷ "s" ∷ []))) 0
          (empty-WellFormed (vertices ("l" ∷ "s" ∷ []))) (λ t m. m))
        second;
}
  where
    second :
        (t : Ref)
        → ¬ In t (targets (add_vertex (empty {M = PropertyKey} (vertices ("l" ∷ "s" ∷ []))) 0).0 1)
    second t m = m

no_hook :
    (hook : GlobalGraph → Option (Result GraphError GlobalGraph)) (h : GlobalGraph)
    → In hook []
    → IsBuilt h
    → Succeeds (hook h)
no_hook hook h m b = absurd m

build-Succeeds_example : Succeeds (build [] one_module)
build-Succeeds_example = build-Succeeds [] one_module no_hook one_module-IsBuilt

linked-IsBuilt : IsBuilt linked
linked-IsBuilt =
    subst Succeeds linked_build (build-Succeeds [] one_module no_hook one_module-IsBuilt)

linked_modules : loop_path 3 linked.module_graph ≡ some none
unfolding loop_path add_vertex get set append_vertex_to_path push_vertex append_each
linked_modules = refl

linked_protos : loop_path 3 linked.proto_graph ≡ some none
unfolding loop_path add_edge add_vertex get set append_vertex_to_path push_vertex append_each
    add_from_vertex pop_vertex pop_last add_to_vertex
linked_protos = refl

sort_graphs-IsSorted_example :
    (h : GlobalGraph) × (sort_graphs 3 linked ≡ some (ok h)) × IsSorted linked h
sort_graphs-IsSorted_example =
    sort_graphs-IsSorted 3 linked linked-IsBuilt refl linked_modules linked_protos

abbrev sorted : GlobalGraph
sorted = record linked {
  module_config_list = record { name = "a"; path = "path_a"; optional = false } ∷ [];
  module_proto_descriptor_map = ("a", 0 ∷ 1 ∷ []) ∷ [];
}

sorted_run : sort_graphs 3 linked ≡ some (ok sorted)
unfolding sort_graphs add_edge add_vertex get set append_vertex_to_path push_vertex append_each
    is_accessed add_from_vertex pop_vertex pop_last add_to_vertex index_of
sorted_run = refl

service_last : list_of (get "a" sorted.module_proto_descriptor_map) ≡ (0 ∷ []) ++ 1 ∷ []
unfolding get
service_last = refl

service_logger : In 0 (targets linked.proto_graph 1)
unfolding add_edge add_vertex get set add_to_vertex
service_logger = inl refl

sort_graphs_injected_example : In {A = Ref} 0 (0 ∷ [])
sort_graphs_injected_example =
    sort_graphs_injected 3 linked sorted "a" (0 ∷ []) 1 [] 0 linked-IsBuilt refl sorted_run
      service_last service_logger refl
