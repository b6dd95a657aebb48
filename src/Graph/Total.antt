-- ===== src/Graph/Total.antt =====
-- `loopPath` always answers: a vertex count is enough fuel, since every call adds an id to the path.
use tegg.Prelude.{
  ℕ, zero, suc, ◌<◌, ◌≡◌, refl, inl, inr, ◌≢◌, true, false, List, [], ◌∷◌, map, Option, none, some,
  arith, In, Option-cases, length, nat_key,
}
use tegg.Prelude.JsMap.{values}
use tegg.Graph.{
  Ref, Edge, Graph, GraphPath, Walk, visits, push_vertex, to_nodes, append_each,
  append_vertex_to_path, loop_from, loop_path, root, empty_path,
}
use tegg.Graph.Path.{free, free-alike, free-push_vertex, free-le-length}
use tegg.Graph.Loop.{targets, append_vertex-Alike}

module _ {M : Type 0} where
  -- The edges of registered vertices end in registered vertices.
  abbrev pub IsClosed : Graph M → Type 0
  IsClosed g =
      (r : Ref) → In r (values g.nodes) → (t : Ref) → In t (targets g r) → In t (values g.nodes)

  abbrev pub free_of : Graph M → GraphPath M → ℕ
  free_of g p = free g (visits p) (values g.nodes)

  append_each_total :
      (f : Edge M → GraphPath M → Option (Walk M)) (es : List (Edge M)) (p : GraphPath M)
      (P : GraphPath M → Type 0)
      → ((e : Edge M) (p' : GraphPath M) → In e.node (map (λ e. e.node) es) → P p' → f e p' ≢ none)
      → ((e : Edge M) (p' q' : GraphPath M) → P p' → f e p' ≡ some (q', true) → P q')
      → P p
      → append_each f es p ≢ none
  unfolding append_each
  append_each_total f [] p P run keep h = λ n. cc
  append_each_total f (e ∷ es) p P run keep h = elim (Option-cases (f e p)) [
    | inl n ↦ absurd (run e p (inl refl) h n)
    | inr ((p', false), s) ↦ ground arith
    | inr ((p', true), s) ↦
        let rest =
          append_each_total f es p' P (λ e' q m. run e' q (inr m)) keep (keep e p p' h s) in
        ground (arith, rest)
  ]

  append_vertex-ne-none :
      (f : ℕ) (g : Graph M) (e : Edge M) (p : GraphPath M)
      → ((push_vertex g p e).1 ≡ true
          → append_each (append_vertex_to_path f g) (to_nodes g e.node) (push_vertex g p e).0
            ≢ none)
      → append_vertex_to_path (suc f) g e p ≢ none
  unfolding append_vertex_to_path
  append_vertex-ne-none f g e p h = ground (arith, h)

  append_vertex_total :
      (f : ℕ) (g : Graph M) (e : Edge M) (p : GraphPath M)
      → IsClosed g
      → In e.node (values g.nodes)
      → free_of g p < f
      → append_vertex_to_path f g e p ≢ none
  append_vertex_total zero g e p c m h = absurd (omega arith)
  append_vertex_total (suc f) g e p c m h = append_vertex-ne-none f g e p λ fresh.
      append_each_total (append_vertex_to_path f g) (to_nodes g e.node) (push_vertex g p e).0
        (λ q. free_of g q < f)
        (λ e' q mem b. append_vertex_total f g e' q c (c e.node m e'.node mem) b)
        (λ e' q q' b r.
          rw
            (free-alike g (visits q) (visits q') (values g.nodes)
              (append_vertex-Alike f g e' q q' r).visits_eq)
            b)
        (let fewer = free-push_vertex g p e (values g.nodes) m fresh in omega arith)

  loop_from_total :
      (f : ℕ) (g : Graph M) (rs : List Ref) (p : GraphPath M)
      → IsClosed g
      → ((r : Ref) → In r rs → In r (values g.nodes))
      → free_of g p < f
      → loop_from f g rs p ≢ none
  unfolding loop_from
  loop_from_total f g [] p c m h = λ n. cc
  loop_from_total f g (r ∷ rs) p c m h =
      elim (Option-cases (append_vertex_to_path f g (root r) p)) [
        | inl n ↦ absurd (append_vertex_total f g (root r) p c (m r (inl refl)) h n)
        | inr ((q, false), s) ↦ ground arith
        | inr ((q, true), s) ↦
            let same =
              free-alike g (visits p) (visits q) (values g.nodes)
                (append_vertex-Alike f g (root r) p q s).visits_eq in
            let rest = loop_from_total f g rs q c (λ t i. m t (inr i)) (rw same h) in
            ground (arith, rest)
      ]

  -- With more fuel than the graph has vertices, `loopPath` answers.
  pub loop_path_total :
      (f : ℕ) (g : Graph M) → IsClosed g → length (values g.nodes) < f → loop_path f g ≢ none
  unfolding loop_path
  loop_path_total f g c h =
      loop_from_total f g (values g.nodes) empty_path c (λ r m. m)
        (omega (arith, free-le-length g (visits empty_path) (values g.nodes)))
