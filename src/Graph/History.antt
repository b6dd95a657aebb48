-- ===== src/Graph/History.antt =====
-- What every graph that is made by `addVertex` and `addEdge` keeps.
use tegg.Prelude.{
  Bool, ◌&&◌, ◌≡◌, refl, sym, ◌∙◌, ap, ◌⊎◌, inl, inr, ◌==◌, nat_key, string_key, ==_of_ne, eq_iff,
  String, true, false, List, [], ◌∷◌, map, Option, none, some, arith, In, In-append_left,
  Bool-cases, In-snoc, Option-cases, if◌then◌else◌, subst,
}
use tegg.Prelude.JsMap.{JsMap, get, set, has, values, get-set}
use tegg.Graph.{Ref, GraphNode, Graph, add_to_vertex, add_from_vertex, add_vertex, add_edge}
use tegg.Graph.Build.{
  WellFormed, add_vertex_old, add_vertex_new, grown, values-grown, get-grown, empty,
  empty-WellFormed, add_vertex-WellFormed, add_edge-WellFormed, nodes-add_edge, to_nodes-add_edge,
  id-add_edge,
}

pub data Call (M : Type 0) : Type 0 where
  adds_vertex : Ref → Call M
  adds_edge : (from to : Ref) → Option M → Call M

some-if :
    {A : Type 0} (b : Bool) (v : A) (o : Option A)
    → (elim (if b then some v else o) [ none ↦ false | some _ ↦ true ])
      ≡ (if b then true else elim o [ none ↦ false | some _ ↦ true ])
some-if true v o = refl
some-if false v o = refl

-- Whether a map has a key after one was added unless it was there.
has-added :
    {V : Type 0} (k j : String) (v : V) (m : JsMap String V)
    → has j (if has k m then m else set k v m) ≡ (if k == j then true else has j m)
has-added k j v m = elim (Bool-cases (has k m)) [
  | inl h ↦ rw h (elim (Bool-cases (k == j)) [
    | inl e ↦ rw e (ap (λ i. has i m) (sym ((eq_iff k j).0 e)) ∙ h)
    | inr n ↦ rw n refl
  ])
  | inr h ↦ rw h (
      ap (λ o. elim o [ none ↦ false | some _ ↦ true ]) (get-set k j v m)
      ∙ some-if (k == j) v (get j m))
]

has-added_if :
    {V : Type 0} (p : Bool) (k j : String) (v : V) (m : JsMap String V)
    → has j (if p then (if has k m then m else set k v m) else m)
      ≡ (if p && (k == j) then true else has j m)
has-added_if true k j v m = has-added k j v m
has-added_if false k j v m = refl

and_comm : (p q : Bool) → (p && q) ≡ (q && p)
and_comm true true = refl
and_comm true false = refl
and_comm false true = refl
and_comm false false = refl

module _ {M : Type 0} where
  -- An edge joins vertices that are registered by then.
  abbrev pub Allowed : Call M → Graph M → Type 0
  Allowed (adds_vertex r) g = Unit
  Allowed (adds_edge from to meta) g = In from (values g.nodes) × In to (values g.nodes)

  abbrev pub call : Call M → Graph M → Graph M
  call (adds_vertex r) g = (add_vertex g r).0
  call (adds_edge from to meta) g = (add_edge g from to meta).0

  abbrev pub replay : List (Call M) → Graph M → Graph M
  replay [] g = g
  replay (c ∷ cs) g = replay cs (call c g)

  abbrev pub AllAllowed : List (Call M) → Graph M → Type 0
  AllAllowed [] g = Unit
  AllAllowed (c ∷ cs) g = Allowed c g × AllAllowed cs (call c g)

  abbrev pub IsBare : GraphNode M → Type 0
  IsBare n = (n.to_node_map ≡ []) × (n.from_node_map ≡ [])

  pub record Built (g : Graph M) : Type 0 where
    pub well_formed : WellFormed g
    -- An edge stands at both of its ends.
    pub mirrored :
        (a b : Ref)
        → In a (values g.nodes)
        → In b (values g.nodes)
        → has (g.heap b).id (g.heap a).to_node_map ≡ has (g.heap a).id (g.heap b).from_node_map
    -- The keys of a vertex's edges are ids of vertices.
    pub known :
        (a : Ref) (k : String)
        → In a (values g.nodes)
        → get k g.nodes ≡ none
        → (has k (g.heap a).to_node_map ≡ false) × (has k (g.heap a).from_node_map ≡ false)
    pub bare : (r : Ref) → ¬ In r (values g.nodes) → IsBare (g.heap r)

  from_nodes-add_edge :
      (g : Graph M) (from to : Ref) (meta : Option M) (r : Ref)
      → ((add_edge g from to meta).0.heap r).from_node_map ≡ (
          if to == r
          then if has (g.heap from).id (g.heap r).from_node_map
            then (g.heap r).from_node_map
            else set (g.heap from).id (record { node = from; meta = meta }) (g.heap r).from_node_map
          else (g.heap r).from_node_map)
  unfolding add_edge add_to_vertex add_from_vertex
  from_nodes-add_edge g from to meta r = ground arith

  -- Registered vertices are told apart by their ids.
  same_id :
      (g : Graph M) (w : WellFormed g) (a b : Ref)
      → In a (values g.nodes)
      → In b (values g.nodes)
      → (a == b) ≡ ((g.heap a).id == (g.heap b).id)
  same_id g w a b m n = ground (
    arith,
    w.found a m,
    w.found b n,
    eq_iff (g.heap a).id (g.heap b).id,
    ap (λ r. (g.heap r).id),
    ap (λ id. get id g.nodes),
  )

  mirrored-add_edge :
      (g : Graph M) (from to : Ref) (meta : Option M) (w : Built g)
      → In from (values g.nodes)
      → In to (values g.nodes)
      → (a b : Ref) → In a (values g.nodes)
      → In b (values g.nodes)
      → has (g.heap b).id ((add_edge g from to meta).0.heap a).to_node_map
        ≡ has (g.heap a).id ((add_edge g from to meta).0.heap b).from_node_map
  mirrored-add_edge g from to meta w mf mt a b ma mb =
      ap (has (g.heap b).id) (to_nodes-add_edge g from to meta a)
      ∙ has-added_if (from == a) (g.heap to).id (g.heap b).id (record { node = to; meta = meta })
          (g.heap a).to_node_map
      ∙ ap (λ q. if (from == a) && q then true else has (g.heap b).id (g.heap a).to_node_map)
          (sym (same_id g w.well_formed to b mt mb))
      ∙ ap (λ o. if (from == a) && (to == b) then true else o) (w.mirrored a b ma mb)
      ∙ ap (λ q. if q then true else has (g.heap a).id (g.heap b).from_node_map)
          (and_comm (from == a) (to == b))
      ∙ ap (λ q. if (to == b) && q then true else has (g.heap a).id (g.heap b).from_node_map)
          (same_id g w.well_formed from a mf ma)
      ∙ sym (
          has-added_if (to == b) (g.heap from).id (g.heap a).id
            (record { node = from; meta = meta }) (g.heap b).from_node_map)
      ∙ ap (has (g.heap a).id) (sym (from_nodes-add_edge g from to meta b))

  IsBare-add_edge :
      (g : Graph M) (from to : Ref) (meta : Option M) (w : Built g)
      → In from (values g.nodes)
      → In to (values g.nodes)
      → (r : Ref) → ¬ In r (values g.nodes)
      → IsBare ((add_edge g from to meta).0.heap r)
  IsBare-add_edge g from to meta w mf mt r n = (
    to_nodes-add_edge g from to meta r ∙ rw (apart from mf) (w.bare r n).0,
    from_nodes-add_edge g from to meta r ∙ rw (apart to mt) (w.bare r n).1,
  )
    where
      apart : (s : Ref) → In s (values g.nodes) → (s == r) ≡ false
      apart s m = ==_of_ne s r (λ e. n (subst (λ t. In t (values g.nodes)) e m))

  known-add_edge :
      (g : Graph M) (from to : Ref) (meta : Option M) (w : Built g)
      → In from (values g.nodes)
      → In to (values g.nodes)
      → (a : Ref) (k : String) → In a (values g.nodes)
      → get k g.nodes ≡ none
      → (has k ((add_edge g from to meta).0.heap a).to_node_map ≡ false)
        × (has k ((add_edge g from to meta).0.heap a).from_node_map ≡ false)
  known-add_edge g from to meta w mf mt a k m none_k =
      let old = w.known a k m none_k in
      (
        ap (has k) (to_nodes-add_edge g from to meta a)
            ∙ has-added_if (from == a) (g.heap to).id k (record { node = to; meta = meta })
                (g.heap a).to_node_map
            ∙ unknown (from == a) to mt old.0,
        ap (has k) (from_nodes-add_edge g from to meta a)
            ∙ has-added_if (to == a) (g.heap from).id k (record { node = from; meta = meta })
                (g.heap a).from_node_map
            ∙ unknown (to == a) from mf old.1,
      )
    where
      unknown :
          (p : Bool) (s : Ref)
          → In s (values g.nodes)
          → {b : Bool} → b ≡ false
          → (if p && ((g.heap s).id == k) then true else b) ≡ false
      unknown p s ms h = ground (
        arith,
        h,
        none_k,
        w.well_formed.found s ms,
        eq_iff (g.heap s).id k,
        ap (λ id. get id g.nodes),
      )

  add_edge-Built :
      (g : Graph M) (from to : Ref) (meta : Option M)
      → Built g
      → In from (values g.nodes)
      → In to (values g.nodes)
      → Built (add_edge g from to meta).0
  add_edge-Built g from to meta w mf mt = record {
    well_formed = add_edge-WellFormed g from to meta w.well_formed mt;
    mirrored = λ a b ma mb.
        ap (λ id. has id ((add_edge g from to meta).0.heap a).to_node_map)
          (id-add_edge g from to meta b)
        ∙ mirrored-add_edge g from to meta w mf mt a b (registered a ma) (registered b mb)
        ∙ ap (λ id. has id ((add_edge g from to meta).0.heap b).from_node_map)
            (sym (id-add_edge g from to meta a));
    known = λ a k m none_k.
        known-add_edge g from to meta w mf mt a k (registered a m)
          (ap (get k) (sym (nodes-add_edge g from to meta)) ∙ none_k);
    bare = λ r n.
        IsBare-add_edge g from to meta w mf mt r
          (λ m. n (subst (λ v. In r (values v)) (sym (nodes-add_edge g from to meta)) m));
  }
    where
      registered :
          (r : Ref) → In r (values (add_edge g from to meta).0.nodes) → In r (values g.nodes)
      registered r m = subst (λ v. In r (values v)) (nodes-add_edge g from to meta) m

  grown-known :
      (g : Graph M) (r : Ref) (w : Built g)
      → get (g.heap r).id g.nodes ≡ none
      → (k : String) → get k (grown g r).nodes ≡ none
      → get k g.nodes ≡ none
  grown-known g r w e k h = ground (arith, get-grown g r k e, h)

  grown-Built :
      (g : Graph M) (r : Ref)
      → Built g
      → get (g.heap r).id g.nodes ≡ none
      → ¬ In r (values g.nodes)
      → Built (grown g r)
  unfolding get
  grown-Built g r w e n =
      let (no_to, no_from) = w.bare r n in
      record {
        well_formed =
            subst (λ t. WellFormed t.0) (add_vertex_new g r e)
              (add_vertex-WellFormed g r w.well_formed
                (λ t m. subst (λ z. In t (map (λ x. x.node) (values z))) no_to m));
        mirrored = λ a b ma mb. elim (old_or_new a ma) [
          | inl oa ↦ elim (old_or_new b mb) [
            | inl ob ↦ w.mirrored a b oa ob
            | inr eb ↦ rw (eb, no_from) (w.known a (g.heap r).id oa e).0
          ]
          | inr ea ↦ elim (old_or_new b mb) [
            | inl ob ↦ rw (ea, no_to) (sym (w.known b (g.heap r).id ob e).1)
            | inr eb ↦ rw (ea, eb, no_to, no_from) refl
          ]
        ];
        known = λ a k m none_k. elim (old_or_new a m) [
          | inl oa ↦ w.known a k oa (grown-known g r w e k none_k)
          | inr ea ↦ rw (ea, no_to, no_from) (refl, refl)
        ];
        bare = λ s m. w.bare s (λ i.
            m (
              subst (In s) (sym (values-grown g r))
                (In-append_left s (values g.nodes) (r ∷ []) i)));
      }
    where
      old_or_new : (a : Ref) → In a (values (grown g r).nodes) → In a (values g.nodes) ⊎ (a ≡ r)
      old_or_new a m = In-snoc (values g.nodes) r a (subst (In a) (values-grown g r) m)

  add_vertex-Built : (g : Graph M) (r : Ref) → Built g → Built (add_vertex g r).0
  add_vertex-Built g r w = elim (Option-cases (get (g.heap r).id g.nodes)) [
    | inr (s, e) ↦ rw (add_vertex_old g r s e) w
    | inl e ↦
        rw (add_vertex_new g r e) (grown-Built g r w e (λ m. fresh (w.well_formed.found r m) e))
  ]
    where
      fresh : {o : Option Ref} {s : Ref} → o ≡ some s → o ≡ none → ⊥
      fresh h k = cc

  -- Whatever graph is made from nothing by `addVertex` and `addEdge`, in any order, with edges between
  -- vertices that are registered by then: every vertex is found by its id and registered once, edges
  -- end in registered vertices, and a vertex has an edge to another exactly where the other has it from
  -- that vertex.
  pub replay-Built :
      (heap : Ref → GraphNode M) (cs : List (Call M))
      → ((r : Ref) → IsBare (heap r))
      → AllAllowed cs (empty heap)
      → Built (replay cs (empty heap))
  replay-Built heap cs bare allowed = go cs (empty heap) allowed (record {
    well_formed = empty-WellFormed heap;
    mirrored = λ a b m. absurd m;
    known = λ a k m. absurd m;
    bare = λ r n. bare r;
  })
    where
      go : (cs : List (Call M)) (g : Graph M) → AllAllowed cs g → Built g → Built (replay cs g)
      go [] g a w = w
      go (adds_vertex r ∷ cs) g a w = go cs (add_vertex g r).0 a.1 (add_vertex-Built g r w)
      go (adds_edge from to meta ∷ cs) g a w =
          go cs (add_edge g from to meta).0 a.1 (add_edge-Built g from to meta w (a.0).0 (a.0).1)
