-- ===== src/Metadata/Global/Load.antt =====
-- Adding modules and building the edges of injections keep both graphs well formed.
use tegg.Prelude.{
  ◌≡◌, inl, inr, refl, String, Bool, true, false, List, [], ◌∷◌, Option, none, some, if◌then◌else◌,
  ◌==◌, nat_key, string_key, arith, In, find-In, map, not, subst, Bool-cases, Option-cases, Result,
  ok, err, ◌>>=◌,
}
use tegg.Prelude.JsMap.{values}
use tegg.Graph.{Ref, Graph, add_vertex, add_edge}
use tegg.Graph.Build.{WellFormed, add_vertex-WellFormed, add_edge-WellFormed, heap-add_vertex}
use tegg.Graph.Loop.{targets}
use tegg.Metadata.{PropertyKey, InjectObjectDescriptor, property_key}
use tegg.Metadata.Global.{
  GlobalGraph, GraphError, add_protos, add_module_node, add_inject, find_module_node,
  find_dependency_proto_node, build_inject_edge, for_each, build, build_proto, build_module,
  build_edges, rounds,
}
use tegg.Metadata.Global.Find.{find_dependency-Fits, find_dependency_total}

pub record IsBuilt (g : GlobalGraph) : Type 0 where
  pub modules : WellFormed g.module_graph
  pub protos : WellFormed g.proto_graph

-- An answer came: a graph that is well formed, or an error.
abbrev pub Succeeds : Option (Result GraphError GlobalGraph) → Type 0
Succeeds none = ⊥
Succeeds (some (err e)) = Unit
Succeeds (some (ok h)) = IsBuilt h

-- No edge leaves the vertex.
abbrev pub IsBare : {M : Type 0} → Graph M → Ref → Type 0
IsBare g r = (t : Ref) → ¬ In t (targets g r)

IsBare-add_vertex :
    {M : Type 0} (g : Graph M) (p q : Ref) → IsBare g q → IsBare (add_vertex g p).0 q
IsBare-add_vertex g p q bare t m =
    bare t
      (subst (λ h. In t (map (λ e. e.node) (values (h q).to_node_map))) (heap-add_vertex g p) m)

add_protos-cons :
    (p : Ref) (ps : List Ref) (g h : Graph PropertyKey)
    → add_protos (p ∷ ps) g ≡ ok h
    → add_protos ps (add_vertex g p).0 ≡ ok h
unfolding add_protos
add_protos-cons p ps g h e = ground arith

add_protos-WellFormed :
    (ps : List Ref) (g h : Graph PropertyKey)
    → WellFormed g
    → ((p : Ref) → In p ps → IsBare g p)
    → add_protos ps g ≡ ok h
    → WellFormed h
add_protos-WellFormed [] g h w bare e = (unfold add_protos in subst WellFormed (ground arith) w)
add_protos-WellFormed (p ∷ ps) g h w bare e =
    add_protos-WellFormed ps (add_vertex g p).0 h (add_vertex-WellFormed g p w (bare p (inl refl)))
      (λ q m. IsBare-add_vertex g p q (bare q (inr m))) (add_protos-cons p ps g h e)

-- What `addModuleNode` answers for the graph.
abbrev pub Added : Result GraphError GlobalGraph → Type 0
Added (ok h) = IsBuilt h
Added (err e) = Unit

-- A module whose vertex and prototypes have no edges yet is added, or refused as a duplicate: both
-- graphs of a graph that is given back are well formed.
pub add_module_node-Added :
    (g : GlobalGraph) (r : Ref)
    → IsBuilt g
    → IsBare g.module_graph r
    → ((p : Ref) → In p (g.module_of r).protos → IsBare g.proto_graph p)
    → Added (add_module_node g r)
unfolding add_module_node
add_module_node-Added g r built bare protos = elim (Bool-cases (add_vertex g.module_graph r).1) [
  | inr f ↦ rw f tt
  | inl t ↦ rw t (add_to (add_protos (g.module_of r).protos g.proto_graph) refl)
]
  where
    add_to :
        (o : Result GraphError (Graph PropertyKey))
        → add_protos (g.module_of r).protos g.proto_graph ≡ o
        → Added (
            o >>= λ ps.
            ok (record g { module_graph = (add_vertex g.module_graph r).0; proto_graph = ps }))
    add_to (err e) h = tt
    add_to (ok ps) h = record {
      modules = add_vertex-WellFormed g.module_graph r built.modules bare;
      protos = add_protos-WellFormed (g.module_of r).protos g.proto_graph ps built.protos protos h;
    }

add_edge_protos :
    (g : GlobalGraph) (p r : Ref) (name : PropertyKey)
    → IsBuilt g
    → In r (values g.proto_graph.nodes)
    → IsBuilt (record g { proto_graph = (add_edge g.proto_graph p r (some name)).0 })
add_edge_protos g p r name built m = record {
  modules = built.modules;
  protos = add_edge-WellFormed g.proto_graph p r (some name) built.protos m;
}

find_module_node-In :
    (g : GlobalGraph) (name : String) (r : Ref)
    → find_module_node g name ≡ some r
    → In r (values g.module_graph.nodes)
unfolding find_module_node
find_module_node-In g name r h =
    (find-In (λ node. (g.module_of node).name == name) (values g.module_graph.nodes) r h).0

Added-if :
    (b : Bool) (o p : Result GraphError GlobalGraph)
    → Added o
    → Added p
    → Added (if b then o else p)
Added-if true o p a b = a
Added-if false o p a b = b

Succeeds-if :
    (b : Bool) (o p : Option (Result GraphError GlobalGraph))
    → Succeeds o
    → Succeeds p
    → Succeeds (if b then o else p)
Succeeds-if true o p a b = a
Succeeds-if false o p a b = b

add_inject-Added :
    (g : GlobalGraph) (m p r : Ref) (name : PropertyKey)
    → IsBuilt g
    → In r (values g.proto_graph.nodes)
    → Added (add_inject g m p r name)
unfolding add_inject
add_inject-Added g m p r name built known =
    let linked : GlobalGraph = record g {
      proto_graph = (add_edge g.proto_graph p r (some name)).0;
    } in
    let b = add_edge_protos g p r name built known in
    elim (Option-cases (find_module_node linked (g.proto_of r).instance_module_name)) [
      | inl n ↦ rw (n, add_inject) (Added-if (not g.strict) (ok linked) (err _) b tt)
      | inr (s, e) ↦
          rw (e, add_inject)
            (elim (Bool-cases ((g.module_of m).unit_path == (g.module_of s).unit_path)) [
              | inl t ↦ rw t b
              | inr f ↦ rw f (record {
                modules =
                    add_edge-WellFormed g.module_graph m s
                      (some (record { obj = p; inject_obj = name })) built.modules
                      (find_module_node-In linked (g.proto_of r).instance_module_name s e);
                protos = b.protos;
              })
            ])
    ]

Succeeds-some : (o : Result GraphError GlobalGraph) → Added o → Succeeds (some o)
Succeeds-some (ok h) a = a
Succeeds-some (err e) a = tt

build_inject_edge-Succeeds :
    (g : GlobalGraph) (m p : Ref) (inject : InjectObjectDescriptor)
    → IsBuilt g
    → Succeeds (build_inject_edge g m p inject)
unfolding build_inject_edge
build_inject_edge-Succeeds g m p inject built =
    elim (Option-cases (find_dependency_proto_node rounds g (g.proto_of p) inject)) [
      | inl n ↦ absurd (find_dependency_total 0 g (g.proto_of p) inject n)
      | inr (err e, h) ↦ rw (h, build_inject_edge) tt
      | inr (ok none, h) ↦
          rw (h, build_inject_edge)
            (Succeeds-if (not g.strict) (some (ok g)) (some (err _)) built tt)
      | inr (ok (some r), h) ↦
          rw (h, build_inject_edge)
            (Succeeds-some (add_inject g m p r inject.obj_name) (
              add_inject-Added g m p r inject.obj_name built
                (find_dependency-Fits rounds g (g.proto_of p) inject r h).known))
    ]

for_each-Succeeds :
    {A : Type 0} (f : A → GlobalGraph → Option (Result GraphError GlobalGraph)) (xs : List A)
    (g : GlobalGraph)
    → ((x : A) (h : GlobalGraph) → In x xs → IsBuilt h → Succeeds (f x h))
    → IsBuilt g
    → Succeeds (for_each f xs g)
unfolding for_each
for_each-Succeeds f [] g step built = built
for_each-Succeeds f (x ∷ xs) g step built =
    let here = step x g (inl refl) built in
    elim (Option-cases (f x g)) [
      | inl n ↦ absurd (rw n at here)
      | inr (err e, h) ↦ rw (h, for_each) tt
      | inr (ok k, h) ↦
          rw (h, for_each) (for_each-Succeeds f xs k (λ y j m. step y j (inr m)) (rw h at here))
    ]

-- Building the edges of a graph answers or throws, within the fuel of two rounds for each search, and
-- a graph that it gives has well formed module and prototype graphs, provided that every build hook
-- answers or throws and keeps the two graphs well formed.
pub build-Succeeds :
    (hooks : List (GlobalGraph → Option (Result GraphError GlobalGraph))) (g : GlobalGraph)
    → ((hook : GlobalGraph → Option (Result GraphError GlobalGraph)) (h : GlobalGraph)
        → In hook hooks
        → IsBuilt h
        → Succeeds (hook h))
    → IsBuilt g
    → Succeeds (build hooks g)
unfolding build
build-Succeeds hooks g keep built =
    let edges : Option (Result GraphError GlobalGraph) = build_edges g in
    let made : Succeeds edges =
      for_each-Succeeds (build_module g) (values g.module_graph.nodes) g
        (λ m h _ b.
          for_each-Succeeds (build_proto g m) (g.module_of m).protos h
            (λ p j _ c.
              for_each-Succeeds (λ inject k. build_inject_edge k m p inject)
                (g.proto_of p).inject_objects j
                (λ inject k _ d. build_inject_edge-Succeeds k m p inject d) c)
            b)
        built in
    elim (Option-cases edges) [
      | inl n ↦ absurd (rw n at made)
      | inr (err e, h) ↦ rw (h, build) tt
      | inr (ok k, h) ↦
          rw (h, build)
            (for_each-Succeeds (λ hook j. hook j) hooks k (λ hook j m b. keep hook j m b)
              (rw h at made))
    ]
