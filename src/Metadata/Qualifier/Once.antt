-- ===== src/Metadata/Qualifier/Once.antt =====
-- Merged qualifiers name each attribute once, so that they may be merged again.
use tegg.Prelude.{
  ℕ, ◌≡◌, ◌⊎◌, inl, inr, refl, ◌∙◌, List, [], ◌∷◌, ◌++◌, none, ◌==◌, nat_key, string_key, arith,
  nat_beq_iff, Bool-cases,
}
use tegg.Prelude.JsMap.{get, set, get-set}
use tegg.Metadata.{
  PropertyKey, index_key, named, symbol, QualifierValue, QualifierInfo, property_key,
  same_property_iff,
}
use tegg.Metadata.Qualifier.{
  Properties, assign_all, assign_lists, insert_index, indices, strings, symbols, own_entries,
  qualifiers_of, merge_qualifiers, get_qualifier,
}
use tegg.Metadata.Qualifier.Merge.{
  or_else, last_value, last_of_all, get-insert_index, get-indices, get-strings, get-symbols,
  indices_named, indices_symbol, strings_symbol, strings_index, symbols_index, symbols_named,
  get-append, get-own_entries, or_else-none, get-assign_lists,
}

-- No key stands twice.
abbrev pub Once : Properties → Type 0
Once [] = Unit
Once ((k, v) ∷ m) = (get k m ≡ none) × Once m

Once-set : (k : PropertyKey) (v : QualifierValue) (m : Properties) → Once m → Once (set k v m)
unfolding set
Once-set k v [] o = (unfold get in refl, tt)
Once-set k v ((j, w) ∷ m) o = elim (Bool-cases (j == k)) [
  | inl t ↦ rw t o
  | inr f ↦ rw f (
    ground (arith, get-set k j v m, same_property_iff k j, same_property_iff j k, o.0),
    Once-set k v m o.1,
  )
]

Once-assign_all : (qs : List QualifierInfo) (m : Properties) → Once m → Once (assign_all qs m)
unfolding assign_all
Once-assign_all [] m o = o
Once-assign_all (q ∷ qs) m o =
    Once-assign_all qs (set q.attribute q.value m) (Once-set q.attribute q.value m o)

Once-assign_lists :
    (lists : List (List QualifierInfo)) (m : Properties) → Once m → Once (assign_lists lists m)
unfolding assign_lists
Once-assign_lists [] m o = o
Once-assign_lists (qs ∷ lists) m o =
    Once-assign_lists lists (assign_all qs m) (Once-assign_all qs m o)

Once-insert_index :
    (n : ℕ) (v : QualifierValue) (es : Properties)
    → get (index_key n) es ≡ none
    → Once es
    → Once (insert_index n v es)
unfolding insert_index get
Once-insert_index n v [] h o = (refl, tt)
Once-insert_index n v ((index_key m, w) ∷ es) h o = ground (
  arith,
  get-insert_index (index_key m) n v es,
  nat_beq_iff m n,
  nat_beq_iff n m,
  Once-insert_index n v es (ground arith) o.1,
)
Once-insert_index n v ((named s, w) ∷ es) h o = (h, o)
Once-insert_index n v ((symbol s, w) ∷ es) h o = (h, o)

Once-indices : (es : Properties) → Once es → Once (indices es)
unfolding indices
Once-indices [] o = tt
Once-indices ((index_key n, v) ∷ es) o =
    Once-insert_index n v (indices es) (get-indices n es ∙ o.0) (Once-indices es o.1)
Once-indices ((named s, v) ∷ es) o = Once-indices es o.1
Once-indices ((symbol s, v) ∷ es) o = Once-indices es o.1

Once-strings : (es : Properties) → Once es → Once (strings es)
unfolding strings
Once-strings [] o = tt
Once-strings ((index_key n, v) ∷ es) o = Once-strings es o.1
Once-strings ((named s, v) ∷ es) o = (get-strings s es ∙ o.0, Once-strings es o.1)
Once-strings ((symbol s, v) ∷ es) o = Once-strings es o.1

Once-symbols : (es : Properties) → Once es → Once (symbols es)
unfolding symbols
Once-symbols [] o = tt
Once-symbols ((index_key n, v) ∷ es) o = Once-symbols es o.1
Once-symbols ((named s, v) ∷ es) o = Once-symbols es o.1
Once-symbols ((symbol s, v) ∷ es) o = (get-symbols s es ∙ o.0, Once-symbols es o.1)

Once-append :
    (m n : Properties)
    → Once m
    → Once n
    → ((k : PropertyKey) → (get k m ≡ none) ⊎ (get k n ≡ none))
    → Once (m ++ n)
unfolding get or_else
Once-append [] n om on apart = on
Once-append ((k, v) ∷ m) n om on apart = (
  ground (arith, get-append k m n, om.0, apart k, same_property_iff k k),
  Once-append m n om.1 on (λ j. ground (arith, apart j)),
)

Once-own_entries : (es : Properties) → Once es → Once (own_entries es)
unfolding own_entries or_else
Once-own_entries es o =
    Once-append (indices es) (strings es ++ symbols es) (Once-indices es o)
      (Once-append (strings es) (symbols es) (Once-strings es o) (Once-symbols es o) later) first
  where
    later : (k : PropertyKey) → (get k (strings es) ≡ none) ⊎ (get k (symbols es) ≡ none)
    later (index_key n) = inl (strings_index n es)
    later (named s) = inr (symbols_named s es)
    later (symbol s) = inl (strings_symbol s es)

    first :
        (k : PropertyKey) → (get k (indices es) ≡ none) ⊎ (get k (strings es ++ symbols es) ≡ none)
    first (index_key n) = inr (
        ground (
          arith,
          get-append (index_key n) (strings es) (symbols es),
          strings_index n es,
          symbols_index n es,
        ))
    first (named s) = inl (indices_named s es)
    first (symbol s) = inl (indices_symbol s es)

last_value-Once :
    (k : PropertyKey) (es : Properties) → Once es → last_value k (qualifiers_of es) ≡ get k es
unfolding last_value qualifiers_of get or_else
last_value-Once k [] o = refl
last_value-Once k ((j, v) ∷ es) o =
    ground (arith, last_value-Once k es o.1, o.0, same_property_iff j k)

-- In a merged list the first value of an attribute is its last, the one that was given last.
pub last_value-merge :
    (k : PropertyKey) (lists : List (List QualifierInfo))
    → last_value k (merge_qualifiers lists) ≡ last_of_all k lists
unfolding merge_qualifiers get
last_value-merge k lists =
    last_value-Once k (own_entries (assign_lists lists []))
      (Once-own_entries (assign_lists lists []) (Once-assign_lists lists [] tt))
    ∙ get-own_entries k (assign_lists lists [])
    ∙ get-assign_lists k lists []
    ∙ or_else-none (last_of_all k lists)

-- A list that names an attribute has both a first and a last value of it.
pub last_value-none :
    (k : PropertyKey) (qs : List QualifierInfo) → get_qualifier k qs ≡ none → last_value k qs ≡ none
unfolding get_qualifier last_value or_else
last_value-none k [] h = refl
last_value-none k (q ∷ qs) h = ground (arith, last_value-none k qs)
