-- ===== src/Graph/Sort.antt =====
-- `accessNode`, one call: from a vertex that is on no loop it puts every vertex that it reaches into the
-- result once, each behind the vertices that it points to.
use tegg.Prelude.{
  ℕ, zero, suc, ◌≡◌, refl, sym, subst, ap, ◌⊎◌, inl, inr, ◌≢◌, ◌↔◌, nat_key, true, false, List, [],
  ◌∷◌, ◌++◌, map, Option, none, some, arith, In, In-append, In-append_left, In-append_right, All,
  All-of_In, Distinct, Distinct-snoc, Bool-cases, List-cases, length, append-nil, append_assoc,
}
use tegg.Graph.{
  Ref, Edge, Graph, Access, index_of, is_accessed, same_index, each, to_nodes, mark, access_node,
}
use tegg.Graph.Loop.{targets, Reach, edge, next, Deep, Deep-acyclic}

index_of-ne-none : (r : Ref) (ns : List Ref) → In r ns → index_of r ns ≢ none
unfolding index_of
index_of-ne-none r [] m = absurd m
index_of-ne-none r (n ∷ ns) (inl e) = ground (arith, index_of-ne-none r ns)
index_of-ne-none r (n ∷ ns) (inr m) = ground (arith, index_of-ne-none r ns m)

index_of_injective : (r t : Ref) (ns : List Ref) → In r ns → index_of r ns ≡ index_of t ns → r ≡ t
unfolding index_of
index_of_injective r t [] m e = absurd m
index_of_injective r t (n ∷ ns) (inl h) e = ground arith
index_of_injective r t (n ∷ ns) (inr h) e = ground (arith, index_of_injective r t ns h)

same_index_iff : (i j : Option ℕ) → (same_index i j ≡ true) ↔ (i ≡ j)
unfolding same_index
same_index_iff none none = ground arith
same_index_iff none (some j) = ground arith
same_index_iff (some i) none = ground arith
same_index_iff (some i) (some j) = ground arith

-- The entries of `accessed` are those of the vertices in the result.
abbrev pub Marked : List Ref → Access → Type 0
Marked ns s = (r : Ref) → In r ns → (is_accessed (index_of r ns) s.accessed ≡ true) ↔ In r s.res

Marked-mark :
    (ns : List Ref) (r : Ref) (s : Access) → In r ns → Marked ns s → Marked ns (mark ns r s)
unfolding is_accessed
Marked-mark ns r s m h t mt = (to, from)
  where
    to : is_accessed (index_of t ns) (mark ns r s).accessed ≡ true → In t (mark ns r s).res
    to e = elim (Bool-cases (same_index (index_of r ns) (index_of t ns))) [
      | inl same ↦ In-append_right t s.res (r ∷ []) (
          inl (
            sym (
              index_of_injective r t ns m
                ((same_index_iff (index_of r ns) (index_of t ns)).0 same))))
      | inr other ↦ In-append_left t s.res (r ∷ []) ((h t mt).0 (ground arith))
    ]

    from : In t (mark ns r s).res → is_accessed (index_of t ns) (mark ns r s).accessed ≡ true
    from i = elim (In-append t s.res (r ∷ []) i) [
      | inl old ↦ ground (arith, (h t mt).1 old)
      | inr new ↦ elim new [
        | inl e ↦
            ground
              (arith, same_index_iff (index_of r ns) (index_of t ns), ap (λ x. index_of x ns) e)
        | inr z ↦ absurd z
      ]
    ]

-- What a call adds to the result, said of the vertices `From` which it may reach.
pub record Extends (From : Ref → Type 0) (s u : Access) : Type 0 where
  pub keeps : (t : Ref) → In t s.res → In t u.res
  pub adds : (t : Ref) → In t u.res → In t s.res ⊎ From t

pub each-cons {ℓ κ} :
    {A : Type ℓ} {S : Type κ} (f : A → S → Option S) (x : A) (xs : List A) (s : S) {t : S}
    {o : Option S}
    → f x s ≡ some t
    → each f xs t ≡ o
    → each f (x ∷ xs) s ≡ o
each-cons f x xs s h k = ground arith

module _ {M : Type 0} where
  -- Every vertex of the list stands behind its successors, or they are among those `done` before.
  abbrev pub DependenciesFirst : Graph M → List Ref → List Ref → Type 0
  DependenciesFirst g done [] = Unit
  DependenciesFirst g done (r ∷ rs) =
      All (λ t. In t done) (targets g r) × DependenciesFirst g (done ++ r ∷ []) rs

  DependenciesFirst-snoc :
      (g : Graph M) (done rs : List Ref) (r : Ref)
      → DependenciesFirst g done rs
      → ((t : Ref) → In t (targets g r) → In t (done ++ rs))
      → DependenciesFirst g done (rs ++ r ∷ [])
  DependenciesFirst-snoc g done [] r d h =
      (All-of_In _ (targets g r) (λ t m. rw (append-nil done) at (h t m)), tt)
  DependenciesFirst-snoc g done (x ∷ rs) r d h = (
    d.0,
    DependenciesFirst-snoc g (done ++ x ∷ []) rs r d.1
        (λ t m. rw (append_assoc done (x ∷ []) rs) (h t m)),
  )

  -- What holds between the calls of `accessNode`.
  pub record Progress (g : Graph M) (ns : List Ref) (s : Access) : Type 0 where
    pub marked : Marked ns s
    pub ordered : DependenciesFirst g [] s.res
    pub once : Distinct s.res
    pub known : (t : Ref) → In t s.res → In t ns

  abbrev pub FromSelf : Graph M → Ref → Ref → Type 0
  FromSelf g r t = (t ≡ r) ⊎ Reach g r t

  -- The call puts the vertex into the result, and keeps the rest in order.
  abbrev pub Visits : Graph M → List Ref → Ref → Access → Access → Type 0
  Visits g ns r s u = Progress g ns u × Extends (FromSelf g r) s u × In r u.res

  Reach-cons : (g : Graph M) (r x t : Ref) → In x (targets g r) → Reach g x t → Reach g r t
  Reach-cons g r x t m (edge h) = next (edge m) h
  Reach-cons g r x t m (next {t = u} c h) = next (Reach-cons g r x u m c) h

  -- The vertices that the loop over some edges may reach.
  abbrev FromEach : Graph M → List (Edge M) → Ref → Type 0
  FromEach g es t = (x : Ref) × In x (map (λ e. e.node) es) × FromSelf g x t

  each-Visits :
      (g : Graph M) (ns : List Ref) (f : Edge M → Access → Option Access) (es : List (Edge M))
      (s : Access)
      → ((e : Edge M) (s' : Access)
          → In e.node (map (λ e. e.node) es)
          → Progress g ns s'
          → (u : Access) × (f e s' ≡ some u) × Visits g ns e.node s' u)
      → Progress g ns s
      → (u : Access) × (each f es s ≡ some u)
        × Progress g ns u
        × Extends (FromEach g es) s u
        × ((t : Ref) → In t (map (λ e. e.node) es) → In t u.res)
  each-Visits g ns f [] s run p =
      (s, refl, p, record { keeps = λ t m. m; adds = λ t m. inl m }, λ t m. absurd m)
  each-Visits g ns f (e ∷ es) s run p =
      let (u, first, (pu, xu, here)) = run e s (inl refl) p in
      let (v, rest, pv, xv, all) = each-Visits g ns f es u (λ e' s' m. run e' s' (inr m)) pu in
      (
        v,
        each-cons f e es s first rest,
        pv,
        record {
          keeps = λ t m. xv.keeps t (xu.keeps t m);
          adds = λ t m. elim (xv.adds t m) [
            | inr (x, i, r) ↦ inr (x, inr i, r)
            | inl i ↦ elim (xu.adds t i) [ inl j ↦ inl j | inr r ↦ inr (e.node, inl refl, r) ]
          ];
        },
        λ t m. elim m [ inl i ↦ rw i (xv.keeps e.node here) | inr i ↦ all t i ],
      )

  access_node_old :
      (f : ℕ) (g : Graph M) (ns : List Ref) (r : Ref) (s : Access)
      → is_accessed (index_of r ns) s.accessed ≡ true
      → access_node (suc f) g ns r s ≡ some s
  unfolding access_node
  access_node_old f g ns r s h = rw h

  access_node_new :
      (f : ℕ) (g : Graph M) (ns : List Ref) (r : Ref) (s u : Access)
      → is_accessed (index_of r ns) s.accessed ≡ false
      → each (λ e. access_node f g ns e.node) (to_nodes g r) s ≡ some u
      → access_node (suc f) g ns r s ≡ some (mark ns r u)
  unfolding access_node
  access_node_new f g ns r s u h e = elim (List-cases (to_nodes g r)) [
    | inl none_left ↦ ground (
      arith,
      ap (λ es. each (λ x. access_node f g ns x.node) es s) none_left,
      ap length none_left,
    )
    | inr (x, xs, some_left) ↦ ground (arith, ap length some_left)
  ]

  Progress-mark :
      (g : Graph M) (ns : List Ref) (r : Ref) (u : Access)
      → In r ns
      → ¬ In r u.res
      → ((t : Ref) → In t (targets g r) → In t u.res)
      → Progress g ns u
      → Progress g ns (mark ns r u)
  Progress-mark g ns r u m fresh all p = record {
    marked = Marked-mark ns r u m p.marked;
    ordered = DependenciesFirst-snoc g [] u.res r p.ordered all;
    once = Distinct-snoc u.res r p.once fresh;
    known = λ t i. elim (In-append t u.res (r ∷ []) i) [
      | inl old ↦ p.known t old
      | inr new ↦ elim new [ inl e ↦ rw e m | inr z ↦ absurd z ]
    ];
  }

  Extends-mark :
      (g : Graph M) (ns : List Ref) (r : Ref) (s u : Access)
      → Extends (FromEach g (to_nodes g r)) s u
      → Extends (FromSelf g r) s (mark ns r u)
  Extends-mark g ns r s u x = record {
    keeps = λ t m. In-append_left t u.res (r ∷ []) (x.keeps t m);
    adds = λ t i. elim (In-append t u.res (r ∷ []) i) [
      | inr new ↦ elim new [ inl e ↦ inr (inl e) | inr z ↦ absurd z ]
      | inl old ↦ elim (x.adds t old) [
        | inl j ↦ inl j
        | inr (y, m, here_or_on) ↦ elim here_or_on [
          | inl e ↦ inr (inr (edge (rw e m)))
          | inr c ↦ inr (inr (Reach-cons g r y t m c))
        ]
      ]
    ];
  }

  -- On a vertex from which no chain is as long as the fuel, `accessNode` answers.
  pub access-Visits :
      (f : ℕ) (g : Graph M) (ns : List Ref) (r : Ref) (s : Access)
      → ((x : Ref) → In x ns → (t : Ref) → In t (targets g x) → In t ns)
      → Deep f g r
      → In r ns
      → Progress g ns s
      → (u : Access) × (access_node f g ns r s ≡ some u) × Visits g ns r s u
  access-Visits zero g ns r s c d m p = absurd d
  access-Visits (suc f) g ns r s c d m p =
      elim (Bool-cases (is_accessed (index_of r ns) s.accessed)) [
        | inl old ↦ (
          s,
          access_node_old f g ns r s old,
          (p, record { keeps = λ t i. i; adds = λ t i. inl i }, (p.marked r m).0 old),
        )
        | inr new ↦
            let (u, ran, pu, xu, all) =
              each-Visits g ns (λ e. access_node f g ns e.node) (to_nodes g r) s
                (λ e s' i q. access-Visits f g ns e.node s' c (d e.node i) (c r m e.node i) q) p in
            let fresh : ¬ In r u.res = λ i. elim (xu.adds r i) [
              | inl j ↦ absurd (ground (arith, (p.marked r m).1 j))
              | inr (y, k, back) ↦ elim back [
                | inl e ↦
                    Deep-acyclic (suc f) g r d (edge (subst (λ z. In z (targets g r)) (sym e) k))
                | inr w ↦ Deep-acyclic (suc f) g r d (Reach-cons g r y r k w)
              ]
            ] in
            (
              mark ns r u,
              access_node_new f g ns r s u new ran,
              (
                Progress-mark g ns r u m fresh all pu,
                Extends-mark g ns r s u xu,
                In-append_right r u.res (r ∷ []) (inl refl),
              ),
            )
      ]
