-- ===== src/Registry/History.antt =====
-- Histories of the registry, and what it finds after one.
use tegg.Prelude.{
  ℕ, ◌≡◌, refl, ap, sym, ◌∙◌, subst, List, [], ◌∷◌, ◌++◌, Option, none, some, nat_key,
  if◌then◌else◌, ◌&&◌, filter, In, Result, ok, err,
}
use tegg.Store.Lines.{is_empty}
use tegg.Metadata.{PropertyKey, property_key, QualifierInfo}
use tegg.Registry.{
  EggPrototype, GetError, egg_prototype_not_found, multi_prototype_found, Registry, new_registry,
  register_prototype, delete_prototype, verified, get_egg_prototype, get_public, do_get_prototype,
  only, get_prototype, destroy,
}
use tegg.Registry.Tracks.{
  without, Tracks, new-Tracks, register-Tracks, delete-Tracks, is_public_named, is_unit_named,
}
use tegg.Registry.Destroy.{filter-filter, outside, destroy-Tracks}

pub data Change : Type 0 where
  registers : (proto : ℕ) → Change
  deletes : (proto : ℕ) → Change
  destroys : (unit : ℕ) → Change

module _ (info : ℕ → EggPrototype) where
  -- Each call is made with the load unit of its prototype.
  abbrev pub change : Change → Registry → Registry
  change (registers proto) r = register_prototype info proto (info proto).load_unit r
  change (deletes proto) r = delete_prototype info proto (info proto).load_unit r
  change (destroys unit) r = destroy info unit r

  abbrev pub registered_by : Change → List ℕ → List ℕ
  registered_by (registers proto) live = live ++ proto ∷ []
  registered_by (deletes proto) live = without proto live
  registered_by (destroys unit) live = outside info unit live

  abbrev pub replay : List Change → Registry → Registry
  replay [] r = r
  replay (c ∷ cs) r = replay cs (change c r)

  abbrev pub registered : List Change → List ℕ → List ℕ
  registered [] live = live
  registered (c ∷ cs) live = registered cs (registered_by c live)

  -- No prototype is registered while it is.
  abbrev pub Once : List Change → List ℕ → Type 0
  Once [] live = Unit
  Once (registers proto ∷ cs) live = ¬ In proto live × Once cs (live ++ proto ∷ [])
  Once (deletes proto ∷ cs) live = Once cs (without proto live)
  Once (destroys unit ∷ cs) live = Once cs (outside info unit live)

  replay-Tracks :
      (cs : List Change) (live : List ℕ) (r : Registry)
      → Once cs live
      → Tracks info live r
      → Tracks info (registered cs live) (replay cs r)
  replay-Tracks [] live r o t = t
  replay-Tracks (registers p ∷ cs) live r o t =
      replay-Tracks cs _ _ o.1 (register-Tracks info live p r t o.0)
  replay-Tracks (deletes p ∷ cs) live r o t = replay-Tracks cs _ _ o (delete-Tracks info live p r t)
  replay-Tracks (destroys u ∷ cs) live r o t =
      replay-Tracks cs _ _ o (destroy-Tracks info live u r t)

  -- The registered prototypes that a request means, in the order of their registration.
  abbrev pub in_unit : PropertyKey → List QualifierInfo → ℕ → List ℕ → List ℕ
  in_unit n qs u live = filter (λ p. is_unit_named info u n p && verified info qs p) live

  abbrev pub in_public : PropertyKey → List QualifierInfo → List ℕ → List ℕ
  in_public n qs live = filter (λ p. is_public_named info n p && verified info qs p) live

  abbrev pub candidates : PropertyKey → Option ℕ → List QualifierInfo → List ℕ → List ℕ
  candidates n none qs live = in_public n qs live
  candidates n (some u) qs live =
      if is_empty (in_unit n qs u live) then in_public n qs live else in_unit n qs u live

  found_public :
      (n : PropertyKey) (qs : List QualifierInfo) (live : List ℕ) (r : Registry)
      → Tracks info live r
      → get_public info n qs r ≡ in_public n qs live
  unfolding get_public
  found_public n qs live r t =
      ap (filter (verified info qs)) (t.publics n)
      ∙ filter-filter (verified info qs) (is_public_named info n) live

  found_unit :
      (n : PropertyKey) (qs : List QualifierInfo) (u : ℕ) (live : List ℕ) (r : Registry)
      → Tracks info live r
      → get_egg_prototype info n qs u r ≡ in_unit n qs u live
  unfolding get_egg_prototype
  found_unit n qs u live r t =
      ap (filter (verified info qs)) (t.units u n)
      ∙ filter-filter (verified info qs) (is_unit_named info u n) live

  found :
      (n : PropertyKey) (unit : Option ℕ) (qs : List QualifierInfo) (live : List ℕ) (r : Registry)
      → Tracks info live r
      → do_get_prototype info n qs unit r ≡ candidates n unit qs live
  unfolding do_get_prototype
  found n none qs live r t = found_public n qs live r t
  found n (some u) qs live r t =
      ap (λ l. if is_empty l then get_public info n qs r else l) (found_unit n qs u live r t)
      ∙ ap (λ l. if is_empty (in_unit n qs u live) then l else in_unit n qs u live)
          (found_public n qs live r t)

  -- The answer for the prototypes that are meant.
  abbrev pub Answered : PropertyKey → List ℕ → Result GetError ℕ → Type 0
  Answered n [] answer = answer ≡ err (egg_prototype_not_found n)
  Answered n (p ∷ []) answer = answer ≡ ok p
  Answered n (p ∷ q ∷ ps) answer = answer ≡ err (multi_prototype_found n)

  only-Answered : (n : PropertyKey) (ps : List ℕ) → Answered n ps (only n ps)
  only-Answered n [] = refl
  only-Answered n (p ∷ []) = refl
  only-Answered n (p ∷ q ∷ ps) = refl

  -- After any history of registering, deleting and destroying load units in which no prototype is
  -- registered twice at a time, a request is answered from the prototypes that are registered then:
  -- those of the load unit that have the name and the qualifiers, or, where there are none or no load
  -- unit is given, the public ones; the only one is found, none or several are an error.
  pub get_prototype_lem :
      (cs : List Change) (n : PropertyKey) (unit : Option ℕ) (qs : List QualifierInfo)
      → Once cs []
      → Answered n
          (candidates n unit qs (registered cs []))
          (get_prototype info n unit qs (replay cs new_registry))
  unfolding get_prototype
  get_prototype_lem cs n unit qs o =
      let t = replay-Tracks cs [] new_registry o (new-Tracks info) in
      subst (Answered n (candidates n unit qs (registered cs [])))
        (ap (only n) (sym (found n unit qs (registered cs []) (replay cs new_registry) t)))
        (only-Answered n (candidates n unit qs (registered cs [])))
