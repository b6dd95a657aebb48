-- ===== src/Graph/Order.antt =====
-- `sort` as a whole, and the order of initialisation that it promises.
use tegg.Prelude.{ℕ, ◌≡◌, refl, inl, inr, ◌↔◌, nat_key, List, [], ◌∷◌, none, some, In, Distinct}
use tegg.Prelude.JsMap.{values}
use tegg.Graph.{Ref, Graph, Access, is_accessed, each, access_node, sort, loop_path}
use tegg.Graph.Loop.{targets, Deep, loop_path-Deep}
use tegg.Graph.Total.{IsClosed}
use tegg.Graph.Sort.{access-Visits, each-cons, Progress, DependenciesFirst}

abbrev start : Access
start = record { accessed = []; res = [] }

module _ {M : Type 0} where
  sort_from :
      (f : ℕ) (g : Graph M) (ns rs : List Ref) (s : Access)
      → ((x : Ref) → In x ns → (t : Ref) → In t (targets g x) → In t ns)
      → ((r : Ref) → In r ns → Deep f g r)
      → ((r : Ref) → In r rs → In r ns)
      → Progress g ns s
      → (u : Access) × (each (access_node f g ns) rs s ≡ some u)
        × Progress g ns u
        × ((t : Ref) → In t s.res → In t u.res)
        × ((t : Ref) → In t rs → In t u.res)
  sort_from f g ns [] s c d sub p = (s, refl, p, λ t m. m, λ t m. absurd m)
  sort_from f g ns (r ∷ rs) s c d sub p =
      let m = sub r (inl refl) in
      let (u, ran, (pu, xu, here)) = access-Visits f g ns r s c (d r m) m p in
      let (v, rest, pv, keeps, all) = sort_from f g ns rs u c d (λ t i. sub t (inr i)) pu in
      (
        v,
        each-cons (access_node f g ns) r rs s ran rest,
        pv,
        λ t i. keeps t (xu.keeps t i),
        λ t i. elim i [ inl e ↦ rw e (keeps r here) | inr j ↦ all t j ],
      )

  start-Progress : (g : Graph M) (ns : List Ref) → Progress g ns start
  start-Progress g ns = record {
    marked = λ r m. (unfold is_accessed in λ e. cc, λ z. absurd z);
    ordered = tt;
    once = tt;
    known = λ t z. absurd z;
  }

  -- An order of initialisation: every vertex of the graph once, behind those that it points to.
  pub record IsOrder (g : Graph M) (rs : List Ref) : Type 0 where
    pub dependencies_first : DependenciesFirst g [] rs
    pub once : Distinct rs
    pub complete : (r : Ref) → In r (values g.nodes) ↔ In r rs

  sort-eq :
      (f : ℕ) (g : Graph M) (u : Access)
      → each (access_node f g (values g.nodes)) (values g.nodes) start ≡ some u
      → sort f g ≡ some u.res
  unfolding sort
  sort-eq f g u h = rw (h, sort)

  -- Where `loopPath` finds no loop in a closed graph, `sort` answers within the same fuel, and its
  -- result is an order of initialisation.
  pub sort-IsOrder :
      (f : ℕ) (g : Graph M)
      → IsClosed g
      → loop_path f g ≡ some none
      → (rs : List Ref) × (sort f g ≡ some rs) × IsOrder g rs
  sort-IsOrder f g c h =
      let (u, ran, p, keeps, all) =
        sort_from f g (values g.nodes) (values g.nodes) start c (loop_path-Deep f g h) (λ r m. m)
          (start-Progress g (values g.nodes)) in
      (
        u.res,
        sort-eq f g u ran,
        record {
          dependencies_first = p.ordered;
          once = p.once;
          complete = λ r. (all r, p.known r);
        },
      )
