-- ===== src/Metadata/Global/Order.antt =====
-- What `sort` of a global graph leaves: modules and prototypes in an order of initialisation.
use tegg.Prelude.{
  ℕ, ◌≡◌, inl, inr, refl, ap, ◌∙◌, sym, subst, String, Bool, true, false, List, [], ◌∷◌, ◌++◌,
  append_assoc, append-nil, map, none, some, ◌==◌, nat_key, string_key, eq_iff, arith, filter, In,
  All-In, In-append_left, In-filter_of, Bool-cases, Option-cases, ok, err,
}
use tegg.Prelude.JsMap.{JsMap, get, set, get-set}
use tegg.Graph.{Ref, Graph, loop_path, sort}
use tegg.Graph.Loop.{targets}
use tegg.Graph.Sort.{DependenciesFirst}
use tegg.Graph.Order.{IsOrder, sort-IsOrder}
use tegg.Metadata.{ProtoDescriptor, property_key}
use tegg.Metadata.Global.{
  GlobalGraph, ModuleReference, reference, is_loaded, list_of, push_protos, sort_module, sort_clazz,
  sort_graphs,
}
use tegg.Metadata.Global.Load.{IsBuilt}
use tegg.Metadata.Global.Loaded.{Kept, IsLoaded, filter-Kept}

-- The prototypes of the module, in the order of the list.
abbrev pub of_module : (Ref → ProtoDescriptor) → String → List Ref → List Ref
of_module proto_of name = filter (λ p. (proto_of p).instance_module_name == name)

push_protos_lem :
    (proto_of : Ref → ProtoDescriptor) (ps : List Ref) (m : JsMap String (List Ref)) (name : String)
    → list_of (get name (push_protos proto_of ps m))
      ≡ list_of (get name m) ++ of_module proto_of name ps
unfolding push_protos
push_protos_lem proto_of [] m name = sym (append-nil (list_of (get name m)))
push_protos_lem proto_of (p ∷ ps) m name =
    let own = (proto_of p).instance_module_name in
    let rest = push_protos_lem proto_of ps (set own (list_of (get own m) ++ p ∷ []) m) name in
    ground (
      arith,
      rest,
      eq_iff own name,
      get-set own name (list_of (get own m) ++ p ∷ []) m,
      append_assoc (list_of (get own m)) (p ∷ []) (of_module proto_of name ps),
    )

filter-snoc_skip :
    (p : Ref → Bool) (done : List Ref) (q : Ref)
    → p q ≡ false
    → filter p (done ++ q ∷ []) ≡ filter p done
filter-snoc_skip p [] q h = ground arith
filter-snoc_skip p (x ∷ done) q h = ground (arith, filter-snoc_skip p done q h)

filter-snoc_keep :
    (p : Ref → Bool) (done : List Ref) (q : Ref) (xs : List Ref)
    → p q ≡ true
    → filter p (done ++ q ∷ []) ++ xs ≡ filter p done ++ q ∷ xs
filter-snoc_keep p [] q xs h = ground arith
filter-snoc_keep p (x ∷ done) q xs h = ground (arith, filter-snoc_keep p done q xs h)

-- In the part of an order that a test keeps, a kept successor stands before its vertex.
filter-DependenciesFirst :
    {M : Type 0} (g : Graph M) (p : Ref → Bool) (done rs xs : List Ref) (r : Ref) (ys : List Ref)
    (t : Ref)
    → DependenciesFirst g done rs
    → filter p rs ≡ xs ++ r ∷ ys
    → In t (targets g r)
    → p t ≡ true
    → In t (filter p done ++ xs)
filter-DependenciesFirst g p done [] [] r ys t d e m k = cc
filter-DependenciesFirst g p done [] (x ∷ xs) r ys t d e m k = cc
filter-DependenciesFirst g p done (q ∷ rs) [] r ys t d e m k = elim (Bool-cases (p q)) [
  | inl here ↦
      let same : q ≡ r = ground arith in
      In-append_left t (filter p done) []
        (In-filter_of p done t (All-In (λ z. In z done) (targets g q) d.0 t (rw same m)) k)
  | inr skip ↦
      subst (λ z. In t (z ++ [])) (filter-snoc_skip p done q skip)
        (filter-DependenciesFirst g p (done ++ q ∷ []) rs [] r ys t d.1 (ground arith) m k)
]
filter-DependenciesFirst g p done (q ∷ rs) (x ∷ xs) r ys t d e m k = elim (Bool-cases (p q)) [
  | inl here ↦
      let same : q ≡ x = ground arith in
      subst (In t) (filter-snoc_keep p done q xs here ∙ ap (λ z. filter p done ++ z ∷ xs) same)
        (filter-DependenciesFirst g p (done ++ q ∷ []) rs xs r ys t d.1 (ground arith) m k)
  | inr skip ↦
      subst (λ z. In t (z ++ x ∷ xs)) (filter-snoc_skip p done q skip)
        (filter-DependenciesFirst g p (done ++ q ∷ []) rs (x ∷ xs) r ys t d.1 (ground arith) m k)
]

-- The order of loading that `sort` leaves in the graph.
pub record IsSorted (g h : GlobalGraph) : Type 0 where
  pub modules : List Ref
  pub protos : List Ref
  pub modules-IsOrder : IsOrder g.module_graph modules
  pub protos-IsOrder : IsOrder g.proto_graph protos
  pub loaded : List Ref
  pub loaded-Kept : Kept (IsLoaded g) modules loaded
  pub config_list :
      h.module_config_list
      ≡ map {B = ModuleReference}
          (λ t. record {
            name = (g.module_of t).name;
            path = (g.module_of t).unit_path;
            optional = (g.module_of t).optional;
          })
          loaded
  pub descriptor_map :
      (name : String)
      → list_of (get name h.module_proto_descriptor_map) ≡ of_module g.proto_of name protos

modules_sorted : GlobalGraph → List Ref → GlobalGraph
modules_sorted g ms = record g {
  module_config_list = map (λ t. reference (g.module_of t)) (filter (is_loaded g) ms);
}

sort_module_run :
    (f : ℕ) (g : GlobalGraph) (ms : List Ref)
    → loop_path f g.module_graph ≡ some none
    → sort f g.module_graph ≡ some ms
    → sort_module f g ≡ some (ok (modules_sorted g ms))
unfolding sort_module modules_sorted
sort_module_run f g ms free sorted = ground arith

sort_graphs_run :
    (f : ℕ) (g h : GlobalGraph) (ps : List Ref)
    → sort_module f g ≡ some (ok h)
    → loop_path f h.proto_graph ≡ some none
    → sort f h.proto_graph ≡ some ps
    → sort_graphs f g
      ≡ some (
          ok (record h {
            module_proto_descriptor_map = push_protos h.proto_of ps h.module_proto_descriptor_map;
          }))
unfolding sort_graphs sort_clazz
sort_graphs_run f g h ps ran free sorted = rw (ran, sort_graphs) (ground arith)

-- On a graph whose vertices are closed under edges and whose lists of prototypes are still empty,
-- where `loopPath` finds no loop among the modules and none among the prototypes, `sort` answers
-- within the same fuel: the module list refers, in an order of all modules, to those that are not
-- optional or to which an edge of the module graph leads, and to no others; and each module's list
-- holds its prototypes in an order of all prototypes.
pub sort_graphs-IsSorted :
    (f : ℕ) (g : GlobalGraph)
    → IsBuilt g
    → g.module_proto_descriptor_map ≡ []
    → loop_path f g.module_graph ≡ some none
    → loop_path f g.proto_graph ≡ some none
    → (h : GlobalGraph) × (sort_graphs f g ≡ some (ok h)) × IsSorted g h
unfolding get modules_sorted
sort_graphs-IsSorted f g built fresh modules_free protos_free =
    let (ms, sorted_modules, ordered_modules) =
      sort-IsOrder f g.module_graph built.modules.closed modules_free in
    let (ps, sorted_protos, ordered_protos) =
      sort-IsOrder f g.proto_graph built.protos.closed protos_free in
    (
      record g {
        module_config_list = map (λ t. reference (g.module_of t)) (filter (is_loaded g) ms);
        module_proto_descriptor_map = push_protos g.proto_of ps g.module_proto_descriptor_map;
      },
      sort_graphs_run f g (modules_sorted g ms) ps
          (sort_module_run f g ms modules_free sorted_modules) protos_free sorted_protos,
      record {
        modules = ms;
        protos = ps;
        modules-IsOrder = ordered_modules;
        protos-IsOrder = ordered_protos;
        loaded = filter (is_loaded g) ms;
        loaded-Kept = filter-Kept g ms;
        config_list = refl;
        descriptor_map = λ name.
            push_protos_lem g.proto_of ps g.module_proto_descriptor_map name
            ∙ ap (λ z. list_of (get name z) ++ of_module g.proto_of name ps) fresh;
      },
    )

sort_module_free :
    (f : ℕ) (g h : GlobalGraph)
    → sort_module f g ≡ some (ok h)
    → (loop_path f g.module_graph ≡ some none) × (h.proto_graph ≡ g.proto_graph)
unfolding sort_module
sort_module_free f g h ran = ground arith

sort_clazz_free :
    (f : ℕ) (g h : GlobalGraph)
    → sort_clazz f g ≡ some (ok h)
    → loop_path f g.proto_graph ≡ some none
unfolding sort_clazz
sort_clazz_free f g h ran = ground arith

sort_graphs_free :
    (f : ℕ) (g h : GlobalGraph)
    → sort_graphs f g ≡ some (ok h)
    → (loop_path f g.module_graph ≡ some none) × (loop_path f g.proto_graph ≡ some none)
unfolding sort_graphs
sort_graphs_free f g h ran = elim (Option-cases (sort_module f g)) [
  | inl n ↦ absurd (ground arith)
  | inr (err e, s) ↦ absurd (ground arith)
  | inr (ok k, s) ↦
      let (free, same) = sort_module_free f g k s in
      (free, rw same at (sort_clazz_free f k h (ground arith)))
]

sort_graphs_ok :
    (f : ℕ) (g h : GlobalGraph)
    → IsBuilt g
    → g.module_proto_descriptor_map ≡ []
    → sort_graphs f g ≡ some (ok h)
    → IsSorted g h
sort_graphs_ok f g h built fresh ran =
    let (modules_free, protos_free) = sort_graphs_free f g h ran in
    let (k, run, sorted) = sort_graphs-IsSorted f g built fresh modules_free protos_free in
    subst (IsSorted g) (ground (arith, run, ran)) sorted

-- Where `sort` gives a well formed graph back, each module's list of prototypes, which was empty
-- before, holds every prototype behind those of the same module that it injects.
pub sort_graphs_injected :
    (f : ℕ) (g h : GlobalGraph) (name : String) (before : List Ref) (r : Ref) (after : List Ref)
    (t : Ref)
    → IsBuilt g
    → g.module_proto_descriptor_map ≡ []
    → sort_graphs f g ≡ some (ok h)
    → list_of (get name h.module_proto_descriptor_map) ≡ before ++ r ∷ after
    → In t (targets g.proto_graph r)
    → (g.proto_of t).instance_module_name ≡ name
    → In t before
sort_graphs_injected f g h name before r after t built fresh ran e m own =
    let s = sort_graphs_ok f g h built fresh ran in
    filter-DependenciesFirst g.proto_graph (λ p. (g.proto_of p).instance_module_name == name) []
      s.protos before r after t s.protos-IsOrder.dependencies_first
      (sym (s.descriptor_map name) ∙ e) m
      (ground (arith, eq_iff (g.proto_of t).instance_module_name name, own))
