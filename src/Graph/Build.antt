-- ===== src/Graph/Build.antt =====
-- Building a graph by `addVertex` and `addEdge` keeps it well formed.
use tegg.Prelude.{
  ◌≡◌, refl, sym, ◌∙◌, ap, ◌⊎◌, inl, inr, ◌==◌, nat_key, string_key, ==-cases, ==_refl, eq_iff,
  String, true, false, List, [], ◌∷◌, ◌++◌, map, Option, none, some, arith, In, In-append_left,
  In-snoc, Distinct, Distinct-snoc, Option-cases, if◌then◌else◌, subst, map-append,
}
use tegg.Prelude.JsMap.{JsMap, get, set, has, values, get-set, set_new, values-append}
use tegg.Graph.{Ref, Edge, GraphNode, Graph, add_to_vertex, add_from_vertex, add_vertex, add_edge}
use tegg.Graph.Loop.{targets}
use tegg.Graph.Total.{IsClosed}

module _ {M : Type 0} where
  -- Every registered vertex is found by its id, none is registered twice, and edges lead from
  -- registered vertices to registered vertices.
  pub record WellFormed (g : Graph M) : Type 0 where
    pub found : (r : Ref) → In r (values g.nodes) → get (g.heap r).id g.nodes ≡ some r
    pub once : Distinct (values g.nodes)
    pub closed : IsClosed g

  abbrev pub empty : (Ref → GraphNode M) → Graph M
  empty heap = record { heap = heap; nodes = [] }

  pub empty-WellFormed : (heap : Ref → GraphNode M) → WellFormed (empty heap)
  empty-WellFormed heap = record { found = λ r m. absurd m; once = tt; closed = λ r m. absurd m }

  pub add_vertex_old :
      (g : Graph M) (r s : Ref) → get (g.heap r).id g.nodes ≡ some s → add_vertex g r ≡ (g, false)
  unfolding add_vertex
  add_vertex_old g r s h = ground arith

  pub add_vertex_new :
      (g : Graph M) (r : Ref)
      → get (g.heap r).id g.nodes ≡ none
      → add_vertex g r ≡ (record g { nodes = g.nodes ++ ((g.heap r).id, r) ∷ [] }, true)
  unfolding add_vertex
  add_vertex_new g r h = ground (arith, set_new (g.heap r).id r g.nodes h)

  -- `addVertex` refuses a second vertex of the same id and changes nothing then; a new vertex is
  -- found by its id from then on, and every other id is looked up as before.
  pub add_vertex_lem :
      (g : Graph M) (r : Ref) (id : String)
      → let answer = add_vertex g r in
        (answer.1 ≡ false) × (answer.0 ≡ g) × ((s : Ref) × (get (g.heap r).id g.nodes ≡ some s))
        ⊎ (answer.1 ≡ true)
          × (get (g.heap r).id g.nodes ≡ none)
          × (get id answer.0.nodes ≡ (if (g.heap r).id == id then some r else get id g.nodes))
  add_vertex_lem g r id = elim (Option-cases (get (g.heap r).id g.nodes)) [
    | inr (s, e) ↦ inl (rw (add_vertex_old g r s e) (refl, refl, (s, e)))
    | inl e ↦ inr (
        rw (add_vertex_new g r e) (
          refl,
          e,
          sym (ap (get id) (set_new (g.heap r).id r g.nodes e))
              ∙ get-set (g.heap r).id id r g.nodes,
        ))
  ]

  pub heap-add_vertex : (g : Graph M) (r : Ref) → (add_vertex g r).0.heap ≡ g.heap
  unfolding add_vertex
  heap-add_vertex g r = ground arith

  -- The vertices after a successful `addVertex`.
  abbrev pub grown : Graph M → Ref → Graph M
  grown g r = record g { nodes = g.nodes ++ ((g.heap r).id, r) ∷ [] }

  pub values-grown : (g : Graph M) (r : Ref) → values (grown g r).nodes ≡ values g.nodes ++ r ∷ []
  values-grown g r = values-append g.nodes (((g.heap r).id, r) ∷ [])

  pub get-grown :
      (g : Graph M) (r : Ref) (id : String)
      → get (g.heap r).id g.nodes ≡ none
      → get id (grown g r).nodes ≡ (if (g.heap r).id == id then some r else get id g.nodes)
  get-grown g r id e =
      ap (get id) (sym (set_new (g.heap r).id r g.nodes e)) ∙ get-set (g.heap r).id id r g.nodes

  grown-WellFormed :
      (g : Graph M) (r : Ref)
      → WellFormed g
      → get (g.heap r).id g.nodes ≡ none
      → ((t : Ref) → ¬ In t (targets g r))
      → WellFormed (grown g r)
  grown-WellFormed g r w e bare = record {
    found = λ t m. elim (In-snoc (values g.nodes) r t (subst (In t) (values-grown g r) m)) [
      | inl i ↦ ground (
        arith,
        get-grown g r (g.heap t).id e,
        w.found t i,
        eq_iff (g.heap r).id (g.heap t).id,
        ap (λ id. get id g.nodes),
      )
      | inr same ↦
          subst (λ z. get (g.heap z).id (grown g r).nodes ≡ some z) (sym same)
            (ground (arith, get-grown g r (g.heap r).id e, eq_iff (g.heap r).id (g.heap r).id))
    ];
    once =
        subst Distinct (sym (values-grown g r))
          (Distinct-snoc (values g.nodes) r w.once (λ i. absurd (ground (arith, w.found r i))));
    closed = λ s m t i. elim (In-snoc (values g.nodes) r s (subst (In s) (values-grown g r) m)) [
      | inl old ↦
          subst (In t) (sym (values-grown g r))
            (In-append_left t (values g.nodes) (r ∷ []) (w.closed s old t i))
      | inr same ↦ absurd (bare t (subst (λ z. In t (targets g z)) same i))
    ];
  }

  -- A vertex without edges is added, or refused: the graph stays well formed.
  pub add_vertex-WellFormed :
      (g : Graph M) (r : Ref)
      → WellFormed g
      → ((t : Ref) → ¬ In t (targets g r))
      → WellFormed (add_vertex g r).0
  add_vertex-WellFormed g r w bare = elim (Option-cases (get (g.heap r).id g.nodes)) [
    | inr (s, e) ↦ rw (add_vertex_old g r s e) w
    | inl e ↦ rw (add_vertex_new g r e) (grown-WellFormed g r w e bare)
  ]

  -- `addEdge` changes no id, and at most one target list, by the new target.
  pub id-add_edge :
      (g : Graph M) (from to : Ref) (meta : Option M) (r : Ref)
      → ((add_edge g from to meta).0.heap r).id ≡ (g.heap r).id
  unfolding add_edge add_to_vertex add_from_vertex
  id-add_edge g from to meta r = ground arith

  pub nodes-add_edge :
      (g : Graph M) (from to : Ref) (meta : Option M) → (add_edge g from to meta).0.nodes ≡ g.nodes
  unfolding add_edge
  nodes-add_edge g from to meta = refl

  pub to_nodes-add_edge :
      (g : Graph M) (from to : Ref) (meta : Option M) (r : Ref)
      → ((add_edge g from to meta).0.heap r).to_node_map ≡ (
          if from == r
          then if has (g.heap to).id (g.heap r).to_node_map
            then (g.heap r).to_node_map
            else set (g.heap to).id (record { node = to; meta = meta }) (g.heap r).to_node_map
          else (g.heap r).to_node_map)
  unfolding add_edge add_to_vertex add_from_vertex
  to_nodes-add_edge g from to meta r = ground arith

  targets_of : JsMap String (Edge M) → List Ref
  targets_of m = map (λ e. e.node) (values m)

  targets_of-set_new :
      (id : String) (e : Edge M) (m : JsMap String (Edge M))
      → get id m ≡ none
      → targets_of (set id e m) ≡ targets_of m ++ e.node ∷ []
  unfolding targets_of
  targets_of-set_new id e m h =
      ap targets_of (set_new id e m h)
      ∙ ap (map (λ x. x.node)) (values-append m ((id, e) ∷ []))
      ∙ map-append (λ x. x.node) (values m) (e ∷ [])

  targets-add_edge :
      (g : Graph M) (from to : Ref) (meta : Option M) (r t : Ref)
      → In t (targets (add_edge g from to meta).0 r)
      → In t (targets g r) ⊎ (t ≡ to)
  unfolding targets_of
  targets-add_edge g from to meta r t m = elim (==-cases from r) [
    | inr other ↦
        inl
          (subst (λ z. In t (targets_of z)) (ground (arith, to_nodes-add_edge g from to meta r)) m)
    | inl same ↦ elim (Option-cases (get (g.heap to).id (g.heap r).to_node_map)) [
      | inr (e, old) ↦
          inl (
            subst (λ z. In t (targets_of z)) (ground (arith, to_nodes-add_edge g from to meta r)) m)
      | inl new ↦
          let edge : Edge M = record { node = to; meta = meta } in
          In-snoc (targets g r) to t (
            subst (In t) (targets_of-set_new (g.heap to).id edge (g.heap r).to_node_map new) (
              subst (λ z. In t (targets_of z))
                (ground (
                  arith,
                  to_nodes-add_edge g from to meta r,
                  ==_refl from,
                  ap (λ z. from == z) same,
                ))
                m))
    ]
  ]

  -- An edge to a registered vertex keeps the graph well formed.
  pub add_edge-WellFormed :
      (g : Graph M) (from to : Ref) (meta : Option M)
      → WellFormed g
      → In to (values g.nodes)
      → WellFormed (add_edge g from to meta).0
  unfolding add_edge
  add_edge-WellFormed g from to meta w m = record {
    found = λ r i. rw (id-add_edge g from to meta r) (w.found r i);
    once = w.once;
    closed = λ r i t j. elim (targets-add_edge g from to meta r t j) [
      | inl old ↦ w.closed r i t old
      | inr new ↦ rw new m
    ];
  }
