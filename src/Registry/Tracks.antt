-- ===== src/Registry/Tracks.antt =====
-- The registry by the prototypes that are registered: the order of their registration, and nothing of
-- maps.
use tegg.Prelude.{
  ℕ, ◌≡◌, refl, ap, sym, ◌∙◌, subst, inl, inr, Bool, true, false, List, [], ◌∷◌, ◌++◌, append-nil,
  some, ◌==◌, ==-cases, ==_iff, ==_of_ne, nat_key, if◌then◌else◌, ◌&&◌, not, filter, filter-append,
  In, In-filter, Distinct, Distinct-snoc, Bool-cases, Option-cases, arith,
}
use tegg.Prelude.JsMap.{get, set, get-set}
use tegg.Metadata.{PropertyKey, property_key, is_public}
use tegg.Registry.{
  EggPrototype, ProtoMap, Registry, new_registry, or_empty, store_in, remove_first, delete_in,
  with_unit, register_egg_prototype, register_prototype, delete_egg_prototype, delete_prototype,
}

abbrev pub without : ℕ → List ℕ → List ℕ
without p live = filter (λ q. not (q == p)) live

without_absent : (p : ℕ) (live : List ℕ) → ¬ In p live → without p live ≡ live
without_absent p [] n = refl
without_absent p (q ∷ live) n =
    rw (==_of_ne q p (λ e. n (inl (sym e)))) (ap (◌∷◌ q) (without_absent p live (λ m. n (inr m))))

remove_first-filter :
    (Q : ℕ → Bool) (p : ℕ) (live : List ℕ)
    → Distinct live
    → remove_first p (filter Q live) ≡ filter Q (without p live)
unfolding remove_first
remove_first-filter Q p [] d = refl
remove_first-filter Q p (q ∷ live) d = elim (==-cases q p) [
  | inl e ↦
      let kept : without p live ≡ live =
        without_absent p live (λ m. d.0 (subst (λ t. In t live) (sym e) m)) in
      let same : (q == p) ≡ true = ground (arith, e) in
      elim (Bool-cases (Q q)) [
        | inl t ↦ rw (t, remove_first, same, kept) refl
        | inr t ↦ rw (t, same) (remove_first-filter Q p live d.1)
      ]
  | inr other ↦ elim (Bool-cases (Q q)) [
    | inl t ↦ rw (t, remove_first, other, t) (ap (◌∷◌ q) (remove_first-filter Q p live d.1))
    | inr t ↦ rw (t, other, t) (remove_first-filter Q p live d.1)
  ]
]

without-other :
    (Q : ℕ → Bool) (p : ℕ) (live : List ℕ) → Q p ≡ false → filter Q (without p live) ≡ filter Q live
without-other Q p [] h = refl
without-other Q p (q ∷ live) h = elim (==-cases q p) [
  | inl e ↦
      let same : (q == p) ≡ true = ground (arith, e) in
      let off : Q q ≡ false = ap Q e ∙ h in rw (same, off) (without-other Q p live h)
  | inr other ↦ rw other (elim (Bool-cases (Q q)) [
    | inl t ↦ rw t (ap (◌∷◌ q) (without-other Q p live h))
    | inr t ↦ rw t (without-other Q p live h)
  ])
]

or_empty-set :
    (n k : PropertyKey) (l : List ℕ) (m : ProtoMap)
    → or_empty (get n (set k l m)) ≡ (if k == n then l else or_empty (get n m))
or_empty-set n k l m = ap or_empty (get-set k n l m) ∙ or_empty-if (k == n)
  where
    or_empty-if :
        (b : Bool)
        → or_empty (if b then some l else get n m) ≡ (if b then l else or_empty (get n m))
    or_empty-if true = refl
    or_empty-if false = refl

removed_nil : (p : ℕ) → [] ≡ remove_first p []
unfolding remove_first
removed_nil p = refl

at_key :
    (k n : PropertyKey) (f : PropertyKey → List ℕ) (l : List ℕ)
    → (if k == n then f k else l) ≡ (if k == n then f n else l)
at_key k n f l = elim (Bool-cases (k == n)) [
  | inl e ↦ rw e (ap f ((==_iff k n).0 e))
  | inr e ↦ rw e refl
]

at_unit :
    (k n : ℕ) (f : ℕ → List ℕ) (l : List ℕ)
    → (if k == n then f k else l) ≡ (if k == n then f n else l)
at_unit k n f l = elim (Bool-cases (k == n)) [
  | inl e ↦ rw e (ap f ((==_iff k n).0 e))
  | inr e ↦ rw e refl
]

-- The lists of a map, when a name's list gets a prototype or loses one.
store_in-list :
    (k n : PropertyKey) (p : ℕ) (m : ProtoMap)
    → or_empty (get n (store_in k p m))
      ≡ (if k == n then or_empty (get n m) ++ p ∷ [] else or_empty (get n m))
unfolding store_in
store_in-list k n p m =
    or_empty-set n k (or_empty (get k m) ++ p ∷ []) m
    ∙ at_key k n (λ j. or_empty (get j m) ++ p ∷ []) (or_empty (get n m))

delete_in-list :
    (k n : PropertyKey) (p : ℕ) (m : ProtoMap)
    → or_empty (get n (delete_in k p m))
      ≡ (if k == n then remove_first p (or_empty (get n m)) else or_empty (get n m))
unfolding delete_in
delete_in-list k n p m = elim (Option-cases (get k m)) [
  | inl e ↦
      rw (delete_in, e)
        (absent (k == n) (λ h. ap or_empty (ap (λ j. get j m) (sym ((==_iff k n).0 h)) ∙ e)))
  | inr (l, e) ↦
      rw (delete_in, e)
        (or_empty-set n k (remove_first p l) m
          ∙ ap (λ t. if k == n then remove_first p t else or_empty (get n m)) (ap or_empty (sym e))
          ∙ at_key k n (λ j. remove_first p (or_empty (get j m))) (or_empty (get n m)))
]
  where
    absent :
        (b : Bool)
        → (b ≡ true → or_empty (get n m) ≡ [])
        → or_empty (get n m)
          ≡ (if b then remove_first p (or_empty (get n m)) else or_empty (get n m))
    absent true h = h refl ∙ removed_nil p ∙ ap (remove_first p) (sym (h refl))
    absent false h = refl

module _ (info : ℕ → EggPrototype) where
  abbrev pub is_public_named : PropertyKey → ℕ → Bool
  is_public_named n p = is_public (info p).access_level && (info p).name == n

  abbrev pub is_unit_named : ℕ → PropertyKey → ℕ → Bool
  is_unit_named u n p = (info p).load_unit == u && (info p).name == n

  pub record Tracks (live : List ℕ) (r : Registry) : Type 0 where
    pub distinct : Distinct live
    pub publics :
        (n : PropertyKey) → or_empty (get n r.public_proto_map) ≡ filter (is_public_named n) live
    pub units :
        (u : ℕ) (n : PropertyKey)
        → or_empty (get n (r.proto_map u)) ≡ filter (is_unit_named u n) live

  pub new-Tracks : Tracks [] new_registry
  unfolding get
  new-Tracks = record { distinct = tt; publics = λ n. refl; units = λ u n. refl }

  -- A new prototype stands behind the others of its lists.
  filter-snoc :
      (Q : ℕ → Bool) (live : List ℕ) (p : ℕ)
      → filter Q (live ++ p ∷ []) ≡ (if Q p then filter Q live ++ p ∷ [] else filter Q live)
  filter-snoc Q live p = filter-append Q live (p ∷ []) ∙ snoc-if (Q p)
    where
      snoc-if :
          (b : Bool)
          → filter Q live ++ (if b then p ∷ [] else [])
            ≡ (if b then filter Q live ++ p ∷ [] else filter Q live)
      snoc-if true = refl
      snoc-if false = append-nil (filter Q live)

  if-and :
      (b c : Bool) (x y : List ℕ)
      → (if b then (if c then x else y) else y) ≡ (if b && c then x else y)
  if-and true c x y = refl
  if-and false c x y = refl

  list-if :
      (b : Bool) (k : PropertyKey) (m m' : ProtoMap)
      → or_empty (get k (if b then m' else m))
        ≡ (if b then or_empty (get k m') else or_empty (get k m))
  list-if true k m m' = refl
  list-if false k m m' = refl

  -- A change of the lists of one prototype's name: in the factory's map, where the prototype is public,
  -- and in its load unit's.
  abbrev changed : (ProtoMap → ProtoMap) → ℕ → Registry → Registry
  changed f p r = record {
    public_proto_map =
        if is_public (info p).access_level then f r.public_proto_map else r.public_proto_map;
    proto_map = with_unit (info p).load_unit (f (r.proto_map (info p).load_unit)) r.proto_map;
  }

  changed-Tracks :
      (f : ProtoMap → ProtoMap) (F : List ℕ → List ℕ) (p : ℕ) (live live' : List ℕ) (r : Registry)
      → ((n : PropertyKey) (m : ProtoMap)
          → or_empty (get n (f m))
            ≡ (if (info p).name == n then F (or_empty (get n m)) else or_empty (get n m)))
      → ((Q : ℕ → Bool) → filter Q live' ≡ (if Q p then F (filter Q live) else filter Q live))
      → Distinct live'
      → Tracks live r
      → Tracks live' (changed f p r)
  changed-Tracks f F p live live' r spec lists d t = record {
    distinct = d;
    publics = λ k.
        list-if (is_public (info p).access_level) k r.public_proto_map (f r.public_proto_map)
        ∙ ap
            (λ l.
              if is_public (info p).access_level then l else or_empty (get k r.public_proto_map))
            (spec k r.public_proto_map)
        ∙ if-and (is_public (info p).access_level) ((info p).name == k) _ _
        ∙ ap (λ l. if is_public_named k p then F l else l) (t.publics k)
        ∙ sym (lists (is_public_named k));
    units = λ u k.
        list-if ((info p).load_unit == u) k (r.proto_map u) (f (r.proto_map (info p).load_unit))
        ∙ ap (λ l. if (info p).load_unit == u then l else or_empty (get k (r.proto_map u)))
            (spec k (r.proto_map (info p).load_unit))
        ∙ at_unit (info p).load_unit u
            (λ v.
              if (info p).name == k
              then F (or_empty (get k (r.proto_map v)))
              else or_empty (get k (r.proto_map v)))
            _
        ∙ if-and ((info p).load_unit == u) ((info p).name == k) _ _
        ∙ ap (λ l. if is_unit_named u k p then F l else l) (t.units u k)
        ∙ sym (lists (is_unit_named u k));
  }

  registered :
      (p : ℕ) (r : Registry)
      → changed (store_in (info p).name p) p r ≡ register_prototype info p (info p).load_unit r
  unfolding register_prototype register_egg_prototype
  registered p r = elim (Bool-cases (is_public (info p).access_level)) [
    | inl e ↦ rw e refl
    | inr e ↦ rw e refl
  ]

  pub register-Tracks :
      (live : List ℕ) (p : ℕ) (r : Registry)
      → Tracks live r
      → ¬ In p live
      → Tracks (live ++ p ∷ []) (register_prototype info p (info p).load_unit r)
  register-Tracks live p r t n = subst (Tracks (live ++ p ∷ [])) (registered p r) (
      changed-Tracks (store_in (info p).name p) (λ l. l ++ p ∷ []) p live (live ++ p ∷ []) r
        (λ k m. store_in-list (info p).name k p m) (λ Q. filter-snoc Q live p)
        (Distinct-snoc live p t.distinct n) t)

  Distinct-without : (p : ℕ) (live : List ℕ) → Distinct live → Distinct (without p live)
  Distinct-without p [] d = tt
  Distinct-without p (q ∷ live) d = elim (Bool-cases (q == p)) [
    | inl e ↦ rw e (Distinct-without p live d.1)
    | inr e ↦
        rw e (λ m. d.0 (In-filter (λ q. not (q == p)) live q m).0, Distinct-without p live d.1)
  ]

  without-list :
      (p : ℕ) (live : List ℕ) (Q : ℕ → Bool)
      → Distinct live
      → filter Q (without p live) ≡ (if Q p then remove_first p (filter Q live) else filter Q live)
  without-list p live Q d = elim (Bool-cases (Q p)) [
    | inl e ↦ rw e (sym (remove_first-filter Q p live d))
    | inr e ↦ rw e (without-other Q p live e)
  ]

  deleted :
      (p : ℕ) (r : Registry)
      → changed (delete_in (info p).name p) p r ≡ delete_prototype info p (info p).load_unit r
  unfolding delete_prototype delete_egg_prototype
  deleted p r = elim (Bool-cases (is_public (info p).access_level)) [
    | inl e ↦ rw e refl
    | inr e ↦ rw e refl
  ]

  pub delete-Tracks :
      (live : List ℕ) (p : ℕ) (r : Registry)
      → Tracks live r
      → Tracks (without p live) (delete_prototype info p (info p).load_unit r)
  delete-Tracks live p r t = subst (Tracks (without p live)) (deleted p r) (
      changed-Tracks (delete_in (info p).name p) (remove_first p) p live (without p live) r
        (λ k m. delete_in-list (info p).name k p m) (λ Q. without-list p live Q t.distinct)
        (Distinct-without p live t.distinct) t)
