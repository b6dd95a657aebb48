-- ===== src/Graph/Loop.antt =====
-- Cycle detection: with a vertex count as fuel `loopPath` always answers, and where it finds no loop
-- there is none.
use tegg.Prelude.{
  ℕ, zero, suc, ◌≡◌, inl, inr, true, false, List, [], ◌∷◌, map, Option, none, some, arith, In,
  Bool-cases, Option-cases, nat_key,
}
use tegg.Prelude.JsMap.{values}
use tegg.Graph.{
  Ref, Edge, Graph, GraphPath, Walk, push_vertex, pop_vertex, to_nodes, append_each,
  append_vertex_to_path, loop_from, loop_path, root, empty_path,
}
use tegg.Graph.Path.{Alike, Alike-trans, pop_vertex-push_vertex}

module _ {M : Type 0} where
  abbrev pub targets : Graph M → Ref → List Ref
  targets g r = map (λ e. e.node) (to_nodes g r)

  -- A chain of one or more edges.
  pub data Reach (g : Graph M) (r : Ref) : Ref → Type 0 where
    edge : {t : Ref} → In t (targets g r) → Reach g r t
    next : {t u : Ref} → Reach g r t → In u (targets g t) → Reach g r u

  -- Every chain of edges from the vertex has fewer than the given number of vertices.
  abbrev pub Deep : ℕ → Graph M → Ref → Type 0
  Deep zero g r = ⊥
  Deep (suc f) g r = (t : Ref) → In t (targets g r) → Deep f g t

  pub Deep-suc : (f : ℕ) (g : Graph M) (r : Ref) → Deep f g r → Deep (suc f) g r
  Deep-suc zero g r d = absurd d
  Deep-suc (suc f) g r d = λ t m. Deep-suc f g t (d t m)

  Deep-Reach : (f : ℕ) (g : Graph M) (r t : Ref) → Deep (suc f) g r → Reach g r t → Deep f g t
  Deep-Reach f g r t d (edge m) = d t m
  Deep-Reach zero g r t d (next {t = u} c m) = absurd (Deep-Reach zero g r u d c)
  Deep-Reach (suc f) g r t d (next {t = u} c m) = Deep-suc f g t (Deep-Reach (suc f) g r u d c t m)

  pub Deep-acyclic : (f : ℕ) (g : Graph M) (r : Ref) → Deep f g r → ¬ Reach g r r
  Deep-acyclic zero g r d c = d
  Deep-acyclic (suc f) g r d c = Deep-acyclic f g r (Deep-Reach f g r r d c) c

  append_each-Alike :
      (f : Edge M → GraphPath M → Option (Walk M)) (es : List (Edge M)) (p q : GraphPath M)
      → ((e : Edge M) (p' q' : GraphPath M) → f e p' ≡ some (q', true) → Alike p' q')
      → append_each f es p ≡ some (q, true)
      → Alike p q
  unfolding append_each
  append_each-Alike f [] p q keep h = record { nodes = ground arith; visits_eq = λ j. ground arith }
  append_each-Alike f (e ∷ es) p q keep h = elim (Option-cases (f e p)) [
    | inl n ↦ absurd (ground arith)
    | inr ((p', false), s) ↦ absurd (ground arith)
    | inr ((p', true), s) ↦
        Alike-trans (keep e p p' s) (append_each-Alike f es p' q keep (ground arith))
  ]

  -- A call that finds no loop leaves the path as it was, went through its loop, and pushed a vertex
  -- that was not on the path.
  append_true :
      (f : ℕ) (g : Graph M) (e : Edge M) (p q : GraphPath M)
      → append_vertex_to_path (suc f) g e p ≡ some (q, true)
      → (p' : GraphPath M) × (append_each
            (append_vertex_to_path f g)
            (to_nodes g e.node)
            (push_vertex g p e).0
          ≡ some (p', true))
        × (q ≡ pop_vertex g p')
  unfolding append_vertex_to_path
  append_true f g e p q h = elim (Bool-cases (push_vertex g p e).1) [
    | inr seen ↦ absurd (ground arith)
    | inl fresh ↦
        elim (Option-cases
          (append_each (append_vertex_to_path f g) (to_nodes g e.node) (push_vertex g p e).0)) [
            | inl n ↦ absurd (ground arith)
            | inr ((p', false), s) ↦ absurd (ground arith)
            | inr ((p', true), s) ↦ (p', s, ground arith)
          ]
  ]

  pub append_vertex-Alike :
      (f : ℕ) (g : Graph M) (e : Edge M) (p q : GraphPath M)
      → append_vertex_to_path f g e p ≡ some (q, true)
      → Alike p q
  append_vertex-Alike zero g e p q h = absurd (unfold append_vertex_to_path in cc h)
  append_vertex-Alike (suc f) g e p q h =
      let (p', s, same) = append_true f g e p q h in
      let inner =
        append_each-Alike (append_vertex_to_path f g) (to_nodes g e.node) (push_vertex g p e).0 p'
          (append_vertex-Alike f g) s in
      rw same (pop_vertex-push_vertex g p p' e inner)

  append_each-In :
      (f : Edge M → GraphPath M → Option (Walk M)) (es : List (Edge M)) (p q : GraphPath M)
      (P : Ref → Type 0)
      → ((e : Edge M) (p' q' : GraphPath M) → f e p' ≡ some (q', true) → P e.node)
      → append_each f es p ≡ some (q, true)
      → (t : Ref) → In t (map (λ e. e.node) es)
      → P t
  unfolding append_each
  append_each-In f [] p q P keep h t m = absurd m
  append_each-In f (e ∷ es) p q P keep h t m = elim (Option-cases (f e p)) [
    | inl n ↦ absurd (ground arith)
    | inr ((p', false), s) ↦ absurd (ground arith)
    | inr ((p', true), s) ↦ elim m [
      | inl here ↦ rw here (keep e p p' s)
      | inr there ↦ append_each-In f es p' q P keep (ground arith) t there
    ]
  ]

  -- Where `appendVertexToPath` finds no loop within its fuel, no chain is as long as the fuel.
  pub append_vertex-Deep :
      (f : ℕ) (g : Graph M) (e : Edge M) (p q : GraphPath M)
      → append_vertex_to_path f g e p ≡ some (q, true)
      → Deep f g e.node
  append_vertex-Deep zero g e p q h = unfold append_vertex_to_path in cc h
  append_vertex-Deep (suc f) g e p q h =
      let (p', s, same) = append_true f g e p q h in
      append_each-In (append_vertex_to_path f g) (to_nodes g e.node) (push_vertex g p e).0 p'
        (Deep f g) (append_vertex-Deep f g) s

  loop_from-Deep :
      (f : ℕ) (g : Graph M) (rs : List Ref) (p : GraphPath M)
      → loop_from f g rs p ≡ some none
      → (r : Ref) → In r rs
      → Deep f g r
  unfolding loop_from
  loop_from-Deep f g [] p h r m = absurd m
  loop_from-Deep f g (x ∷ rs) p h r m = elim (Option-cases (append_vertex_to_path f g (root x) p)) [
    | inl n ↦ absurd (ground arith)
    | inr ((p', false), s) ↦ absurd (ground arith)
    | inr ((p', true), s) ↦ elim m [
      | inl here ↦ rw here (append_vertex-Deep f g (root x) p p' s)
      | inr there ↦ loop_from-Deep f g rs p' (ground arith) r there
    ]
  ]

  pub loop_path-Deep :
      (f : ℕ) (g : Graph M)
      → loop_path f g ≡ some none
      → (r : Ref) → In r (values g.nodes)
      → Deep f g r
  unfolding loop_path
  loop_path-Deep f g h = loop_from-Deep f g (values g.nodes) empty_path h

  -- Where `loopPath` answers `undefined`, no vertex of the graph reaches itself by edges.
  pub loop_path_acyclic :
      (f : ℕ) (g : Graph M) (r : Ref)
      → loop_path f g ≡ some none
      → In r (values g.nodes)
      → ¬ Reach g r r
  loop_path_acyclic f g r h m = Deep-acyclic f g r (loop_path-Deep f g h r m)
