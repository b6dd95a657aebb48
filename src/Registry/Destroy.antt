-- ===== src/Registry/Destroy.antt =====
-- The end of a load unit: all of its prototypes are deleted, and no other.
use tegg.Prelude.{
  ℕ, ◌≡◌, refl, ap, sym, ◌∙◌, subst, ◌⊎◌, inl, inr, Bool, true, false, List, [], ◌∷◌, ==_refl,
  ==_iff, ◌==◌, nat_key, ◌&&◌, not, filter, In, In-filter, In-filter_of, Bool-cases, arith,
}
use tegg.Prelude.JsMap.{get, keys}
use tegg.Metadata.{PropertyKey, property_key}
use tegg.Registry.{
  EggPrototype, ProtoMap, Registry, or_empty, delete_prototype, delete_each, delete_named, destroy,
}
use tegg.Registry.Tracks.{without, Tracks, delete-Tracks, is_unit_named}

pub filter-filter :
    (P Q : ℕ → Bool) (xs : List ℕ) → filter P (filter Q xs) ≡ filter (λ x. Q x && P x) xs
filter-filter P Q [] = refl
filter-filter P Q (x ∷ xs) = elim (Bool-cases (Q x)) [
  | inl e ↦ rw e (elim (Bool-cases (P x)) [
    | inl f ↦ rw f (ap (◌∷◌ x) (filter-filter P Q xs))
    | inr f ↦ rw f (filter-filter P Q xs)
  ])
  | inr e ↦ rw e (filter-filter P Q xs)
]

filter_same :
    (P Q : ℕ → Bool) (xs : List ℕ) → ((x : ℕ) → In x xs → P x ≡ Q x) → filter P xs ≡ filter Q xs
filter_same P Q [] h = refl
filter_same P Q (x ∷ xs) h = elim (Bool-cases (Q x)) [
  | inl e ↦ rw (h x (inl refl), e) (ap (◌∷◌ x) (filter_same P Q xs (λ y m. h y (inr m))))
  | inr e ↦ rw (h x (inl refl), e) (filter_same P Q xs (λ y m. h y (inr m)))
]

filter_none : (P : ℕ → Bool) (xs : List ℕ) → ((x : ℕ) → In x xs → P x ≡ false) → filter P xs ≡ []
filter_none P [] h = refl
filter_none P (x ∷ xs) h = rw (h x (inl refl)) (filter_none P xs (λ y m. h y (inr m)))

filter_all : (xs : List ℕ) → filter (λ x. true) xs ≡ xs
filter_all [] = refl
filter_all (x ∷ xs) = ap (◌∷◌ x) (filter_all xs)

key_of : (n : PropertyKey) (m : ProtoMap) (p : ℕ) → In p (or_empty (get n m)) → In n (keys m)
unfolding get
key_of n [] p i = absurd i
key_of n ((k, l) ∷ m) p i = elim (Bool-cases (k == n)) [
  | inl e ↦ inl (sym ((==_iff k n).0 e))
  | inr e ↦ inr (key_of n m p (rw e at i))
]

module _ (info : ℕ → EggPrototype) where
  -- What is left of the registered prototypes once those of some names are deleted.
  record Swept (unit : ℕ) (live : List ℕ) (Gone : ℕ → Type 0) (r : Registry) : Type 0 where
    keep : ℕ → Bool
    tracked : Tracks info (filter keep live) r
    others : (p : ℕ) → In p live → ((info p).load_unit == unit) ≡ false → keep p ≡ true
    gone : (p : ℕ) → In p live → ((info p).load_unit == unit) ≡ true → Gone p → keep p ≡ false

  delete_each-Swept :
      (ps : List ℕ) (unit : ℕ) (live : List ℕ) (Gone : ℕ → Type 0) (r : Registry)
      → ((p : ℕ) → In p ps → (info p).load_unit ≡ unit)
      → Swept unit live Gone r
      → Swept unit live (λ p. Gone p ⊎ In p ps) (delete_each info ps unit r)
  unfolding delete_each
  delete_each-Swept [] unit live Gone r h s = record {
    keep = s.keep;
    tracked = s.tracked;
    others = s.others;
    gone = λ p m e g. elim g [ inl old ↦ s.gone p m e old | inr i ↦ absurd i ];
  }
  delete_each-Swept (q ∷ ps) unit live Gone r h s =
      let deleted : Tracks info (filter (λ p. s.keep p && not (p == q)) live)
          (delete_prototype info q unit r) =
        subst (λ l. Tracks info l (delete_prototype info q unit r))
          (filter-filter (λ p. not (p == q)) s.keep live)
          (subst (λ u. Tracks info (without q (filter s.keep live)) (delete_prototype info q u r))
            (h q (inl refl)) (delete-Tracks info (filter s.keep live) q r s.tracked)) in
      let next : Swept unit live (λ p. Gone p ⊎ (p ≡ q)) (delete_prototype info q unit r) = record {
        keep = λ p. s.keep p && not (p == q);
        tracked = deleted;
        others = λ p m e.
            ground (arith, e, s.others p m e, h q (inl refl), ap (λ t. (info t).load_unit));
        gone = λ p m e g. elim g [
          | inl old ↦ ground (arith, s.gone p m e old)
          | inr same ↦ ground (arith, same)
        ];
      } in
      let rest =
        delete_each-Swept ps unit live (λ p. Gone p ⊎ (p ≡ q)) (delete_prototype info q unit r)
          (λ p m. h p (inr m)) next in
      record {
        keep = rest.keep;
        tracked = rest.tracked;
        others = rest.others;
        gone = λ p m e g. rest.gone p m e (elim g [
          | inl old ↦ inl (inl old)
          | inr i ↦ elim i [ inl same ↦ inl (inr same) | inr j ↦ inr j ]
        ]);
      }

  widen :
      (unit : ℕ) (live : List ℕ) (Gone More : ℕ → Type 0) (r : Registry)
      → Swept unit live Gone r
      → ((p : ℕ) → In p live → ((info p).load_unit == unit) ≡ true → More p → Gone p)
      → Swept unit live More r
  widen unit live Gone More r s h = record {
    keep = s.keep;
    tracked = s.tracked;
    others = s.others;
    gone = λ p m e g. s.gone p m e (h p m e g);
  }

  unit_of :
      (unit : ℕ) (k : PropertyKey) (live : List ℕ) (p : ℕ)
      → In p (filter (is_unit_named info unit k) live)
      → (info p).load_unit ≡ unit
  unit_of unit k live p m =
      let (_, e) = In-filter (is_unit_named info unit k) live p m in ground (arith, e)

  delete_named-Swept :
      (ks : List PropertyKey) (unit : ℕ) (live : List ℕ) (Gone : ℕ → Type 0) (r : Registry)
      → Swept unit live Gone r
      → Swept unit live (λ p. Gone p ⊎ In (info p).name ks) (delete_named info ks unit r)
  unfolding delete_named
  delete_named-Swept [] unit live Gone r s =
      widen unit live Gone _ r s (λ p m e g. elim g [ inl old ↦ old | inr i ↦ absurd i ])
  delete_named-Swept (k ∷ ks) unit live Gone r s =
      let ps = or_empty (get k (r.proto_map unit)) in
      let marked : Swept unit live (λ p. Gone p ⊎ (s.keep p ≡ false)) r = record {
        keep = s.keep;
        tracked = s.tracked;
        others = s.others;
        gone = λ p m e g. elim g [ inl old ↦ s.gone p m e old | inr off ↦ off ];
      } in
      let swept =
        delete_each-Swept ps unit live (λ p. Gone p ⊎ (s.keep p ≡ false)) r
          (λ p m. unit_of unit k (filter s.keep live) p (subst (In p) (s.tracked.units unit k) m))
          marked in
      let next : Swept unit live (λ p. Gone p ⊎ ((info p).name ≡ k)) (delete_each info ps unit r) =
        widen unit live _ _ (delete_each info ps unit r) swept (λ p m e g. elim g [
          | inl old ↦ inl (inl old)
          | inr same ↦ elim (Bool-cases (s.keep p)) [
            | inl on ↦ inr (
                subst (In p) (sym (s.tracked.units unit k)) (
                  In-filter_of (is_unit_named info unit k) (filter s.keep live) p
                    (In-filter_of s.keep live p m on)
                    (ground (arith, e, (==_iff (info p).name k).1 same))))
            | inr off ↦ inl (inr off)
          ]
        ]) in
      widen unit live _ _ (delete_named info ks unit (delete_each info ps unit r))
        (delete_named-Swept ks unit live (λ p. Gone p ⊎ ((info p).name ≡ k))
          (delete_each info ps unit r) next)
        (λ p m e g. elim g [
          | inl old ↦ inl (inl old)
          | inr i ↦ elim i [ inl same ↦ inl (inr same) | inr j ↦ inr j ]
        ])

  abbrev pub outside : ℕ → List ℕ → List ℕ
  outside unit live = filter (λ p. not ((info p).load_unit == unit)) live

  pub destroy-Tracks :
      (live : List ℕ) (unit : ℕ) (r : Registry)
      → Tracks info live r
      → Tracks info (outside unit live) (destroy info unit r)
  unfolding destroy get
  destroy-Tracks live unit r t =
      let all : Swept unit live (λ p. ⊥) r = record {
        keep = λ p. true;
        tracked = subst (λ l. Tracks info l r) (sym (filter_all live)) t;
        others = λ p m e. refl;
        gone = λ p m e g. absurd g;
      } in
      let swept = delete_named-Swept (keys (r.proto_map unit)) unit live (λ p. ⊥) r all in
      let deleted : Tracks info (outside unit live)
          (delete_named info (keys (r.proto_map unit)) unit r) =
        subst (λ l. Tracks info l (delete_named info (keys (r.proto_map unit)) unit r))
          (filter_same swept.keep (λ p. not ((info p).load_unit == unit)) live
            (λ p m. elim (Bool-cases ((info p).load_unit == unit)) [
              | inl e ↦
                  swept.gone p m e (
                    inr (
                      key_of (info p).name (r.proto_map unit) p (
                        subst (In p) (sym (t.units unit (info p).name)) (
                          In-filter_of (is_unit_named info unit (info p).name) live p m
                            (ground (arith, e, ==_refl (info p).name))))))
                  ∙ rw e refl
              | inr e ↦ swept.others p m e ∙ rw e refl
            ]))
          swept.tracked in
      record {
        distinct = deleted.distinct;
        publics = deleted.publics;
        units = λ u n. elim (Bool-cases (unit == u)) [
          | inl e ↦ rw e (
              sym (
                filter_none (is_unit_named info u n) (outside unit live) (λ p m.
                  ground
                    (arith, e, (In-filter (λ q. not ((info q).load_unit == unit)) live p m).1))))
          | inr e ↦ rw e (deleted.units u n)
        ];
      }
