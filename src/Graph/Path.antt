-- ===== src/Graph/Path.antt =====
-- The access path of `appendVertexToPath`: pushing a vertex and popping it again, and the number of
-- vertices that are not on the path.
use tegg.Prelude.{
  ℕ, suc, ◌+◌, ◌-◌, ◌≤◌, ◌<◌, ◌≡◌, refl, ◌∙◌, ap, inl, inr, String, List, [], ◌∷◌, ◌++◌,
  if◌then◌else◌, ◌==◌, nat_key, string_key, arith, eq_iff, In, length, true,
}
use tegg.Prelude.JsMap.{get-set}
use tegg.Graph.{Ref, Edge, Graph, GraphPath, visits, push_vertex, pop_last, pop_vertex}

module _ {M : Type 0} where
  abbrev pub node_id : Graph M → Edge M → String
  node_id g e = (g.heap e.node).id

  pub visits-push_vertex :
      (g : Graph M) (p : GraphPath M) (e : Edge M) (j : String)
      → visits (push_vertex g p e).0 j
        ≡ (if node_id g e == j then visits p (node_id g e) + 1 else visits p j)
  unfolding push_vertex
  visits-push_vertex g p e j =
      ground (arith, get-set (node_id g e) j (visits p (node_id g e) + 1) p.node_id_map)

  pub nodes-push_vertex :
      (g : Graph M) (p : GraphPath M) (e : Edge M) → (push_vertex g p e).0.nodes ≡ p.nodes ++ e ∷ []
  unfolding push_vertex
  nodes-push_vertex g p e = refl

  pub push_vertex_fresh :
      (g : Graph M) (p : GraphPath M) (e : Edge M)
      → (push_vertex g p e).1 ≡ (visits p (node_id g e) == 0)
  unfolding push_vertex
  push_vertex_fresh g p e = refl

  pop_last-snoc :
      (f : Edge M) (fs : List (Edge M)) (e : Edge M) → pop_last f (fs ++ e ∷ []) ≡ (f ∷ fs, e)
  unfolding pop_last
  pop_last-snoc f [] e = refl
  pop_last-snoc f (h ∷ fs) e = rw (pop_last-snoc h fs e)

  pub nodes-pop_vertex :
      (g : Graph M) (p : GraphPath M) (fs : List (Edge M)) (e : Edge M)
      → p.nodes ≡ fs ++ e ∷ []
      → (pop_vertex g p).nodes ≡ fs
  unfolding pop_vertex pop_last
  nodes-pop_vertex g p [] e h = rw (h, pop_vertex)
  nodes-pop_vertex g p (f ∷ fs) e h = rw (h, pop_vertex) (rw (pop_last-snoc f fs e))

  pub visits-pop_vertex :
      (g : Graph M) (p : GraphPath M) (fs : List (Edge M)) (e : Edge M) (j : String)
      → p.nodes ≡ fs ++ e ∷ []
      → visits (pop_vertex g p) j
        ≡ (if node_id g e == j then visits p (node_id g e) - 1 else visits p j)
  unfolding pop_vertex pop_last
  visits-pop_vertex g p [] e j h =
      rw (h, pop_vertex)
        (ground (arith, get-set (node_id g e) j (visits p (node_id g e) - 1) p.node_id_map))
  visits-pop_vertex g p (f ∷ fs) e j h =
      rw (h, pop_vertex)
        (rw (pop_last-snoc f fs e)
          (ground (arith, get-set (node_id g e) j (visits p (node_id g e) - 1) p.node_id_map)))

  -- Two paths that no later call can tell apart.
  pub record Alike (p q : GraphPath M) : Type 0 where
    pub nodes : q.nodes ≡ p.nodes
    pub visits_eq : (j : String) → visits q j ≡ visits p j

  pub Alike-trans : {p q r : GraphPath M} → Alike p q → Alike q r → Alike p r
  Alike-trans a b = record {
    nodes = b.nodes ∙ a.nodes;
    visits_eq = λ j. b.visits_eq j ∙ a.visits_eq j;
  }

  -- A vertex is pushed, others come and go, and it is popped.
  pub pop_vertex-push_vertex :
      (g : Graph M) (p q : GraphPath M) (e : Edge M)
      → Alike (push_vertex g p e).0 q
      → Alike p (pop_vertex g q)
  pop_vertex-push_vertex g p q e a =
      let nodes : q.nodes ≡ p.nodes ++ e ∷ [] = a.nodes ∙ nodes-push_vertex g p e in
      record {
        nodes = nodes-pop_vertex g q p.nodes e nodes;
        visits_eq = λ j. ground (
          arith,
          visits-pop_vertex g q p.nodes e j nodes,
          a.visits_eq j,
          a.visits_eq (node_id g e),
          visits-push_vertex g p e j,
          visits-push_vertex g p e (node_id g e),
          eq_iff (node_id g e) j,
          eq_iff (node_id g e) (node_id g e),
        );
      }

  -- How many of the references have an id that is not on the path.
  pub free : Graph M → (String → ℕ) → List Ref → ℕ
  free g count [] = 0
  free g count (r ∷ rs) =
      if count (g.heap r).id == 0 then suc (free g count rs) else free g count rs

  pub free-alike :
      (g : Graph M) (c d : String → ℕ) (rs : List Ref)
      → ((j : String) → d j ≡ c j)
      → free g d rs ≡ free g c rs
  unfolding free
  free-alike g c d [] h = refl
  free-alike g c d (r ∷ rs) h = ground (arith, h (g.heap r).id, free-alike g c d rs h)

  free-le :
      (g : Graph M) (c d : String → ℕ) (rs : List Ref)
      → ((j : String) → c j ≤ d j)
      → free g d rs ≤ free g c rs
  unfolding free
  free-le g c d [] h = omega arith
  free-le g c d (r ∷ rs) h = ground (arith, h (g.heap r).id, free-le g c d rs h)

  -- A vertex that enters the path is no longer free.
  pub free-lt :
      (g : Graph M) (c d : String → ℕ) (rs : List Ref) (r : Ref)
      → ((j : String) → c j ≤ d j)
      → In r rs
      → c (g.heap r).id ≡ 0
      → 0 < d (g.heap r).id
      → free g d rs < free g c rs
  unfolding free
  free-lt g c d [] r h m z s = absurd m
  free-lt g c d (x ∷ rs) r h (inl e) z s =
      ground (arith, free-le g c d rs h, ap (λ t. c (g.heap t).id) e, ap (λ t. d (g.heap t).id) e)
  free-lt g c d (x ∷ rs) r h (inr m) z s =
      ground (arith, h (g.heap x).id, free-lt g c d rs r h m z s)

  pub free-le-length : (g : Graph M) (c : String → ℕ) (rs : List Ref) → free g c rs ≤ length rs
  unfolding free
  free-le-length g c [] = omega arith
  free-le-length g c (r ∷ rs) = ground (arith, free-le-length g c rs)

  pub free-push_vertex :
      (g : Graph M) (p : GraphPath M) (e : Edge M) (rs : List Ref)
      → In e.node rs
      → (push_vertex g p e).1 ≡ true
      → free g (visits (push_vertex g p e).0) rs < free g (visits p) rs
  free-push_vertex g p e rs m fresh =
      let z : visits p (node_id g e) ≡ 0 = ground (arith, push_vertex_fresh g p e) in
      free-lt g (visits p) (visits (push_vertex g p e).0) rs e.node
        (λ j. ground (arith, visits-push_vertex g p e j, eq_iff (node_id g e) j)) m z
        (ground (arith, visits-push_vertex g p e (node_id g e), eq_iff (node_id g e) (node_id g e)))
