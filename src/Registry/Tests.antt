-- ===== src/Registry/Tests.antt =====
-- Two load units, with a private and a public prototype of one name.
use tegg.Prelude.{
  ℕ, ◌≡◌, refl, List, [], ◌∷◌, some, ok, ◌==◌, nat_key, if◌then◌else◌, inl, inr, arith,
}
use tegg.Metadata.{named, AccessLevel, public_access, private_access}
use tegg.Metadata.Qualifier.{verify_qualifiers}
use tegg.Registry.{EggPrototype, new_registry, only, get_prototype}
use tegg.Registry.History.{
  Change, registers, deletes, destroys, replay, registered, candidates, Answered, get_prototype_lem,
}

abbrev proto : AccessLevel → ℕ → EggPrototype
proto access unit = record {
  name = named "logger";
  access_level = access;
  qualifiers = [];
  load_unit = unit;
}

abbrev info : ℕ → EggPrototype
info p =
    if p == 0
    then proto private_access 0
    else (if p == 1 then proto public_access 0 else proto public_access 1)

abbrev changes : List Change
changes = registers 0 ∷ registers 1 ∷ registers 2 ∷ deletes 1 ∷ destroys 0 ∷ registers 0 ∷ []

-- The first unit finds its own prototype, the second its own, and without a unit the public one.
found_0 :
    only
      (named "logger")
      (candidates info (named "logger") (some 0) [] (registered info changes []))
    ≡ ok 0
unfolding verify_qualifiers
found_0 = refl

get_prototype_lem_example :
    Answered info
      (named "logger")
      (candidates info (named "logger") (some 0) [] (registered info changes []))
      (get_prototype info (named "logger") (some 0) [] (replay info changes new_registry))
get_prototype_lem_example = get_prototype_lem info changes (named "logger") (some 0) [] (
  λ m. m,
  (
    λ m. elim m [ inl e ↦ omega (arith, e) | inr z ↦ z ],
    (
      λ m. elim m [
        | inl e ↦ omega (arith, e)
        | inr z ↦ elim z [ inl f ↦ omega (arith, f) | inr y ↦ y ]
      ],
      (λ m. elim m [ inl e ↦ omega (arith, e) | inr z ↦ z ], tt),
    ),
  ),
)
