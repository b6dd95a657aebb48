-- ===== src/Metadata/Qualifier/Merge.antt =====
-- What `mergeQualifiers` keeps: each attribute once, with the value that was given last.
use tegg.Prelude.{
  ℕ, ◌≡◌, refl, ◌∙◌, String, List, [], ◌∷◌, ◌++◌, Option, none, some, if◌then◌else◌, ◌==◌, nat_key,
  string_key, arith,
}
use tegg.Prelude.JsMap.{get, set, get-set}
use tegg.Metadata.{
  PropertyKey, index_key, named, symbol, QualifierValue, QualifierInfo, property_key,
}
use tegg.Metadata.Qualifier.{
  Properties, assign_all, assign_lists, insert_index, indices, strings, symbols, own_entries,
  qualifiers_of, merge_qualifiers, get_qualifier,
}

unfoldable pub or_else : Option QualifierValue → Option QualifierValue → Option QualifierValue
or_else none o = o
or_else (some v) o = some v

pub get-append : (k : PropertyKey) (m n : Properties) → get k (m ++ n) ≡ or_else (get k m) (get k n)
unfolding get or_else
get-append k [] n = refl
get-append k ((j, v) ∷ m) n = ground (arith, get-append k m n)

pub get-insert_index :
    (k : PropertyKey) (n : ℕ) (v : QualifierValue) (es : Properties)
    → get k (insert_index n v es) ≡ (if index_key n == k then some v else get k es)
unfolding get insert_index
get-insert_index k n v [] = refl
get-insert_index (index_key i) n v ((index_key m, w) ∷ es) =
    ground (arith, get-insert_index (index_key i) n v es)
get-insert_index (named s) n v ((index_key m, w) ∷ es) =
    ground (arith, get-insert_index (named s) n v es)
get-insert_index (symbol s) n v ((index_key m, w) ∷ es) =
    ground (arith, get-insert_index (symbol s) n v es)
get-insert_index k n v ((named s, w) ∷ es) = refl
get-insert_index k n v ((symbol s, w) ∷ es) = refl

pub get-indices : (n : ℕ) (es : Properties) → get (index_key n) (indices es) ≡ get (index_key n) es
unfolding get indices
get-indices n [] = refl
get-indices n ((index_key m, v) ∷ es) =
    ground (arith, get-insert_index (index_key n) m v (indices es), get-indices n es)
get-indices n ((named s, v) ∷ es) = get-indices n es
get-indices n ((symbol s, v) ∷ es) = get-indices n es

pub indices_named : (s : String) (es : Properties) → get (named s) (indices es) ≡ none
unfolding get indices
indices_named s [] = refl
indices_named s ((index_key m, v) ∷ es) =
    ground (arith, get-insert_index (named s) m v (indices es), indices_named s es)
indices_named s ((named t, v) ∷ es) = indices_named s es
indices_named s ((symbol t, v) ∷ es) = indices_named s es

pub indices_symbol : (s : String) (es : Properties) → get (symbol s) (indices es) ≡ none
unfolding get indices
indices_symbol s [] = refl
indices_symbol s ((index_key m, v) ∷ es) =
    ground (arith, get-insert_index (symbol s) m v (indices es), indices_symbol s es)
indices_symbol s ((named t, v) ∷ es) = indices_symbol s es
indices_symbol s ((symbol t, v) ∷ es) = indices_symbol s es

pub get-strings : (s : String) (es : Properties) → get (named s) (strings es) ≡ get (named s) es
unfolding get strings
get-strings s [] = refl
get-strings s ((index_key m, v) ∷ es) = get-strings s es
get-strings s ((named t, v) ∷ es) = ground (arith, get-strings s es)
get-strings s ((symbol t, v) ∷ es) = get-strings s es

pub strings_index : (n : ℕ) (es : Properties) → get (index_key n) (strings es) ≡ none
unfolding get strings
strings_index n [] = refl
strings_index n ((index_key m, v) ∷ es) = strings_index n es
strings_index n ((named t, v) ∷ es) = strings_index n es
strings_index n ((symbol t, v) ∷ es) = strings_index n es

pub strings_symbol : (s : String) (es : Properties) → get (symbol s) (strings es) ≡ none
unfolding get strings
strings_symbol s [] = refl
strings_symbol s ((index_key m, v) ∷ es) = strings_symbol s es
strings_symbol s ((named t, v) ∷ es) = strings_symbol s es
strings_symbol s ((symbol t, v) ∷ es) = strings_symbol s es

pub get-symbols : (s : String) (es : Properties) → get (symbol s) (symbols es) ≡ get (symbol s) es
unfolding get symbols
get-symbols s [] = refl
get-symbols s ((index_key m, v) ∷ es) = get-symbols s es
get-symbols s ((named t, v) ∷ es) = get-symbols s es
get-symbols s ((symbol t, v) ∷ es) = ground (arith, get-symbols s es)

pub symbols_index : (n : ℕ) (es : Properties) → get (index_key n) (symbols es) ≡ none
unfolding get symbols
symbols_index n [] = refl
symbols_index n ((index_key m, v) ∷ es) = symbols_index n es
symbols_index n ((named t, v) ∷ es) = symbols_index n es
symbols_index n ((symbol t, v) ∷ es) = symbols_index n es

pub symbols_named : (s : String) (es : Properties) → get (named s) (symbols es) ≡ none
unfolding get symbols
symbols_named s [] = refl
symbols_named s ((index_key m, v) ∷ es) = symbols_named s es
symbols_named s ((named t, v) ∷ es) = symbols_named s es
symbols_named s ((symbol t, v) ∷ es) = symbols_named s es

-- Reading the keys in the order of `Reflect.ownKeys` loses no property and changes none.
pub get-own_entries : (k : PropertyKey) (es : Properties) → get k (own_entries es) ≡ get k es
unfolding own_entries or_else
get-own_entries (index_key n) es = ground (
  arith,
  get-append (index_key n) (indices es) (strings es ++ symbols es),
  get-append (index_key n) (strings es) (symbols es),
  get-indices n es,
  strings_index n es,
  symbols_index n es,
)
get-own_entries (named s) es = ground (
  arith,
  get-append (named s) (indices es) (strings es ++ symbols es),
  get-append (named s) (strings es) (symbols es),
  indices_named s es,
  get-strings s es,
  symbols_named s es,
)
get-own_entries (symbol s) es = ground (
  arith,
  get-append (symbol s) (indices es) (strings es ++ symbols es),
  get-append (symbol s) (strings es) (symbols es),
  indices_symbol s es,
  strings_symbol s es,
  get-symbols s es,
)

pub get_qualifier-qualifiers_of :
    (k : PropertyKey) (es : Properties) → get_qualifier k (qualifiers_of es) ≡ get k es
unfolding get get_qualifier qualifiers_of
get_qualifier-qualifiers_of k [] = refl
get_qualifier-qualifiers_of k ((j, v) ∷ es) = ground (arith, get_qualifier-qualifiers_of k es)

-- The value that the lists give an attribute, read from the end.
unfoldable pub last_value : PropertyKey → List QualifierInfo → Option QualifierValue
unfolding or_else
last_value k [] = none
last_value k (q ∷ qs) = or_else (last_value k qs) (if q.attribute == k then some q.value else none)

unfoldable pub last_of_all : PropertyKey → List (List QualifierInfo) → Option QualifierValue
unfolding or_else last_value
last_of_all k [] = none
last_of_all k (qs ∷ lists) = or_else (last_of_all k lists) (last_value k qs)

get-assign_all :
    (k : PropertyKey) (qs : List QualifierInfo) (temp : Properties)
    → get k (assign_all qs temp) ≡ or_else (last_value k qs) (get k temp)
unfolding assign_all last_value or_else
get-assign_all k [] temp = refl
get-assign_all k (q ∷ qs) temp =
    ground (
      arith,
      get-assign_all k qs (set q.attribute q.value temp),
      get-set q.attribute k q.value temp,
    )

pub get-assign_lists :
    (k : PropertyKey) (lists : List (List QualifierInfo)) (temp : Properties)
    → get k (assign_lists lists temp) ≡ or_else (last_of_all k lists) (get k temp)
unfolding assign_lists last_of_all or_else
get-assign_lists k [] temp = refl
get-assign_lists k (qs ∷ lists) temp =
    ground (arith, get-assign_lists k lists (assign_all qs temp), get-assign_all k qs temp)

pub or_else-none : (o : Option QualifierValue) → or_else o none ≡ o
unfolding or_else
or_else-none none = refl
or_else-none (some v) = refl

-- Merging lists of qualifiers gives every attribute the value that stands last among all of the
-- lists, and gives no value to an attribute that none of them names.
pub merge_qualifiers_lem :
    (k : PropertyKey) (lists : List (List QualifierInfo))
    → get_qualifier k (merge_qualifiers lists) ≡ last_of_all k lists
unfolding merge_qualifiers get
merge_qualifiers_lem k lists =
    get_qualifier-qualifiers_of k (own_entries (assign_lists lists []))
    ∙ get-own_entries k (assign_lists lists [])
    ∙ get-assign_lists k lists []
    ∙ or_else-none (last_of_all k lists)
