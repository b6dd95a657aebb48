-- ===== src/Graph/Cycle.antt =====
-- A path that `loopPath` reports is a loop: its vertices follow one another by edges, and the last
-- has the id of an earlier one.
use tegg.Prelude.{
  ℕ, zero, suc, ◌<◌, ◌≡◌, refl, ◌∙◌, ap, ◌⊎◌, inl, inr, string_key, ==-cases, true, false, String,
  List, [], ◌∷◌, ◌++◌, map, Option, some, arith, In, In-map, Bool-cases, Option-cases,
}
use tegg.Prelude.JsMap.{get, values}
use tegg.Graph.{
  Ref, Edge, Graph, GraphPath, Walk, visits, push_vertex, to_nodes, append_each,
  append_vertex_to_path, loop_from, loop_path, root, empty_path,
}
use tegg.Graph.Path.{node_id, visits-push_vertex, nodes-push_vertex, push_vertex_fresh, Alike}
use tegg.Graph.Loop.{targets, append_vertex-Alike}

empty_visits : (M : Type 0) (j : String) → ¬ (0 < visits {M = M} empty_path j)
unfolding get
empty_visits M j h = omega arith

module _ {M : Type 0} where
  abbrev pub Follows : Graph M → Edge M → List (Edge M) → Type 0
  Follows g e [] = Unit
  Follows g e (t ∷ ts) = In t.node (targets g e.node)

  -- Each vertex of the list is a successor of the one before it.
  abbrev pub Linked : Graph M → List (Edge M) → Type 0
  Linked g [] = Unit
  Linked g (e ∷ es) = Follows g e es × Linked g es

  -- A linked path whose last vertex has the id of an earlier one.
  pub record IsLoop (g : Graph M) (p : GraphPath M) : Type 0 where
    pub before : List (Edge M)
    pub last : Edge M
    pub split : p.nodes ≡ before ++ last ∷ []
    pub linked : Linked g p.nodes
    pub again : In (node_id g last) (map (node_id g) before)

  Linked-snoc :
      (g : Graph M) (xs : List (Edge M)) (e t : Edge M)
      → Linked g (xs ++ e ∷ [])
      → In t.node (targets g e.node)
      → Linked g ((xs ++ e ∷ []) ++ t ∷ [])
  Linked-snoc g [] e t l m = (m, (tt, tt))
  Linked-snoc g (x ∷ []) e t l m = (l.0, (m, (tt, tt)))
  Linked-snoc g (x ∷ y ∷ xs) e t l m = (l.0, Linked-snoc g (y ∷ xs) e t l.1 m)

  -- The ids with a count are those of vertices on the path.
  abbrev Recorded : Graph M → GraphPath M → Type 0
  Recorded g p = (j : String) → 0 < visits p j → In j (map (node_id g) p.nodes)

  Recorded-Alike : (g : Graph M) (p q : GraphPath M) → Alike p q → Recorded g p → Recorded g q
  Recorded-Alike g p q a h = λ j pos. rw a.nodes (h j (rw (a.visits_eq j) at pos))

  map-snoc_In :
      (g : Graph M) (xs : List (Edge M)) (e : Edge M) (j : String)
      → In j (map (node_id g) xs)
      → In j (map (node_id g) (xs ++ e ∷ []))
  map-snoc_In g [] e j m = absurd m
  map-snoc_In g (x ∷ xs) e j (inl h) = inl h
  map-snoc_In g (x ∷ xs) e j (inr m) = inr (map-snoc_In g xs e j m)

  map-snoc_self :
      (g : Graph M) (xs : List (Edge M)) (e : Edge M)
      → In (node_id g e) (map (node_id g) (xs ++ e ∷ []))
  map-snoc_self g [] e = inl refl
  map-snoc_self g (x ∷ xs) e = inr (map-snoc_self g xs e)

  Recorded-push_vertex :
      (g : Graph M) (p : GraphPath M) (e : Edge M) → Recorded g p → Recorded g (push_vertex g p e).0
  Recorded-push_vertex g p e h j pos =
      rw (nodes-push_vertex g p e) (elim (==-cases (node_id g e) j) [
        | inl same ↦ rw (← same) (map-snoc_self g p.nodes e)
        | inr other ↦
            map-snoc_In g p.nodes e j (h j (ground (arith, visits-push_vertex g p e j, other)))
      ])

  append_each_false :
      (f : Edge M → GraphPath M → Option (Walk M)) (es : List (Edge M)) (p q : GraphPath M)
      (P Q : GraphPath M → Type 0)
      → ((e : Edge M) (p' q' : GraphPath M) → In e es → P p' → f e p' ≡ some (q', false) → Q q')
      → ((e : Edge M) (p' q' : GraphPath M) → P p' → f e p' ≡ some (q', true) → P q')
      → P p
      → append_each f es p ≡ some (q, false)
      → Q q
  unfolding append_each
  append_each_false f [] p q P Q found keep h s = absurd (ground arith)
  append_each_false f (e ∷ es) p q P Q found keep h s = elim (Option-cases (f e p)) [
    | inl n ↦ absurd (ground arith)
    | inr ((p', false), r) ↦ found e p q (inl refl) h (ground arith)
    | inr ((p', true), r) ↦
        append_each_false f es p' q P Q (λ e' p'' q' m. found e' p'' q' (inr m)) keep
          (keep e p p' h r) (ground arith)
  ]

  append_false :
      (f : ℕ) (g : Graph M) (e : Edge M) (p q : GraphPath M)
      → append_vertex_to_path (suc f) g e p ≡ some (q, false)
      → ((push_vertex g p e).1 ≡ false) × (q ≡ (push_vertex g p e).0)
        ⊎ (append_each (append_vertex_to_path f g) (to_nodes g e.node) (push_vertex g p e).0
            ≡ some (q, false))
  unfolding append_vertex_to_path
  append_false f g e p q h = elim (Bool-cases (push_vertex g p e).1) [
    | inr seen ↦ inl (seen, ground arith)
    | inl fresh ↦
        elim (Option-cases
          (append_each (append_vertex_to_path f g) (to_nodes g e.node) (push_vertex g p e).0)) [
            | inl n ↦ absurd (ground arith)
            | inr ((p', false), s) ↦ inr (ground arith)
            | inr ((p', true), s) ↦ absurd (ground arith)
          ]
  ]

  append_vertex-IsLoop :
      (f : ℕ) (g : Graph M) (e : Edge M) (p q : GraphPath M)
      → Linked g (p.nodes ++ e ∷ [])
      → Recorded g p
      → append_vertex_to_path f g e p ≡ some (q, false)
      → IsLoop g q
  append_vertex-IsLoop zero g e p q l h s = absurd (unfold append_vertex_to_path in cc s)
  append_vertex-IsLoop (suc f) g e p q l h s = elim (append_false f g e p q s) [
    | inl (seen, same) ↦ record {
      before = p.nodes;
      last = e;
      split = ap (λ r. r.nodes) same ∙ nodes-push_vertex g p e;
      linked = rw (same, nodes-push_vertex g p e) l;
      again = h (node_id g e) (ground (arith, push_vertex_fresh g p e));
    }
    | inr inner ↦
        append_each_false (append_vertex_to_path f g) (to_nodes g e.node) (push_vertex g p e).0 q
          (λ r. (r.nodes ≡ p.nodes ++ e ∷ []) × Recorded g r) (IsLoop g)
          (λ t r q' m i.
            append_vertex-IsLoop f g t r q'
              (rw i.0 (Linked-snoc g p.nodes e t l (In-map (λ x. x.node) (to_nodes g e.node) t m)))
              i.1)
          (λ t r q' i ok.
            let a = append_vertex-Alike f g t r q' ok in
            (a.nodes ∙ i.0, Recorded-Alike g r q' a i.1))
          (nodes-push_vertex g p e, Recorded-push_vertex g p e h) inner
  ]

  loop_from-IsLoop :
      (f : ℕ) (g : Graph M) (rs : List Ref) (p q : GraphPath M)
      → p.nodes ≡ []
      → Recorded g p
      → loop_from f g rs p ≡ some (some q)
      → IsLoop g q
  unfolding loop_from
  loop_from-IsLoop f g [] p q e h s = absurd (ground arith)
  loop_from-IsLoop f g (r ∷ rs) p q e h s =
      elim (Option-cases (append_vertex_to_path f g (root r) p)) [
        | inl n ↦ absurd (ground arith)
        | inr ((p', false), t) ↦
            append_vertex-IsLoop f g (root r) p q (rw e (tt, tt)) h (ground arith)
        | inr ((p', true), t) ↦
            let a = append_vertex-Alike f g (root r) p p' t in
            loop_from-IsLoop f g rs p' q (a.nodes ∙ e) (Recorded-Alike g p p' a h) (ground arith)
      ]

  -- Whatever path `loopPath` reports is a loop.
  pub loop_path-IsLoop :
      (f : ℕ) (g : Graph M) (q : GraphPath M) → loop_path f g ≡ some (some q) → IsLoop g q
  unfolding loop_path
  loop_path-IsLoop f g q h =
      loop_from-IsLoop f g (values g.nodes) empty_path q refl
        (λ j pos. absurd (empty_visits M j pos)) h
