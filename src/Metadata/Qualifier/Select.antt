-- ===== src/Metadata/Qualifier/Select.antt =====
-- Which prototypes `selectProto` accepts, and the qualifiers that every prototype is given.
use tegg.Prelude.{
  ◌≡◌, ◌≢◌, ◌↔◌, ◌⊎◌, inl, inr, refl, ◌∙◌, sym, String, Bool, true, List, [], ◌∷◌, none, some, ◌==◌,
  ◌&&◌, nat_key, string_key, eq_iff, arith, find, find-In, In, Bool-cases, Option-cases, subst,
}
use tegg.Metadata.{
  PropertyKey, QualifierValue, QualifierInfo, ProtoDescriptor, property_key, value_key,
  same_property_iff, same_value_iff, AccessLevel, public_access, private_access, is_public,
}
use tegg.Metadata.Qualifier.{match_qualifiers, get_qualifier, ProtoSelectorContext, select_proto}

find_complete :
    {A : Type 0} (p : A → Bool) (xs : List A) (a : A) → In a xs → p a ≡ true → find p xs ≢ none
find_complete p [] a m t = absurd m
find_complete p (x ∷ xs) a (inl e) t = ground arith
find_complete p (x ∷ xs) a (inr m) t = ground (arith, find_complete p xs a m t)

match-cons :
    (clazz : List QualifierInfo) (r : QualifierInfo) (rs : List QualifierInfo)
    → match_qualifiers clazz (r ∷ rs) ≡ true
    → (find (λ t. t.attribute == r.attribute && t.value == r.value) clazz ≢ none)
      × (match_qualifiers clazz rs ≡ true)
unfolding match_qualifiers
match-cons clazz r rs h = ground arith

same_info :
    (t r : QualifierInfo) → (t.attribute == r.attribute && t.value == r.value) ≡ true → t ≡ r
same_info t r h =
    ground (arith, same_property_iff t.attribute r.attribute, same_value_iff t.value r.value)

same_self : (r : QualifierInfo) → (r.attribute == r.attribute && r.value == r.value) ≡ true
same_self r =
    ground (arith, same_property_iff r.attribute r.attribute, same_value_iff r.value r.value)

-- Every request qualifier is a qualifier of the class.
pub match-In :
    (clazz requests : List QualifierInfo)
    → match_qualifiers clazz requests ≡ true
    → (q : QualifierInfo) → In q requests
    → In q clazz
match-In clazz [] h q m = absurd m
match-In clazz (r ∷ rs) h q (inr m) = match-In clazz rs (match-cons clazz r rs h).1 q m
match-In clazz (r ∷ rs) h q (inl e) =
    elim (Option-cases (find (λ t. t.attribute == r.attribute && t.value == r.value) clazz)) [
      | inl n ↦ absurd ((match-cons clazz r rs h).0 n)
      | inr (t, f) ↦
          let (m, p) = find-In (λ t. t.attribute == r.attribute && t.value == r.value) clazz t f in
          subst (λ z. In z clazz) (same_info t r p ∙ sym e) m
    ]

match_of_In :
    (clazz requests : List QualifierInfo)
    → ((q : QualifierInfo) → In q requests → In q clazz)
    → match_qualifiers clazz requests ≡ true
unfolding match_qualifiers
match_of_In clazz [] h = refl
match_of_In clazz (r ∷ rs) h = ground (
  arith,
  find_complete (λ t. t.attribute == r.attribute && t.value == r.value) clazz r (h r (inl refl))
      (same_self r),
  match_of_In clazz rs (λ q m. h q (inr m)),
)

-- `matchQualifiers` is inclusion: the class may have more qualifiers than the request, in any order.
pub match_qualifiers_lem :
    (clazz requests : List QualifierInfo)
    → (match_qualifiers clazz requests ≡ true) ↔ ((q : QualifierInfo) → In q requests → In q clazz)
match_qualifiers_lem clazz requests = (match-In clazz requests, match_of_In clazz requests)

-- A prototype that a module may inject: public, or its own.
abbrev pub IsVisible : ProtoDescriptor → String → Type 0
IsVisible proto module_name =
    (proto.access_level ≡ public_access) ⊎ (proto.instance_module_name ≡ module_name)

select-parts :
    (proto : ProtoDescriptor) (ctx : ProtoSelectorContext)
    → select_proto proto ctx ≡ true
    → (proto.name ≡ ctx.name)
      × ((is_public proto.access_level ≡ true) ⊎ (proto.instance_module_name ≡ ctx.module_name))
      × (match_qualifiers proto.qualifiers ctx.qualifiers ≡ true)
unfolding select_proto
select-parts proto ctx h = ground (
  arith,
  same_property_iff proto.name ctx.name,
  eq_iff proto.instance_module_name ctx.module_name,
)

public_of_true : (a : AccessLevel) → is_public a ≡ true → a ≡ public_access
public_of_true public_access h = refl
public_of_true private_access h = cc

-- A selected prototype has the name, is visible to the module and has every requested qualifier.
pub select_proto-IsVisible :
    (proto : ProtoDescriptor) (ctx : ProtoSelectorContext)
    → select_proto proto ctx ≡ true
    → (proto.name ≡ ctx.name)
      × IsVisible proto ctx.module_name
      × ((q : QualifierInfo) → In q ctx.qualifiers → In q proto.qualifiers)
select_proto-IsVisible proto ctx h =
    let (name, visible, matched) = select-parts proto ctx h in
    (
      name,
      elim visible [ inl p ↦ inl (public_of_true proto.access_level p) | inr m ↦ inr m ],
      match-In proto.qualifiers ctx.qualifiers matched,
    )

pub get_qualifier-In :
    (k : PropertyKey) (v : QualifierValue) (qs : List QualifierInfo)
    → get_qualifier k qs ≡ some v
    → In (record { attribute = k; value = v }) qs
unfolding get_qualifier
get_qualifier-In k v [] h = cc
get_qualifier-In k v (t ∷ ts) h = elim (Bool-cases (t.attribute == k)) [
  | inl p ↦ inl (ground (arith, same_property_iff t.attribute k))
  | inr f ↦ inr (get_qualifier-In k v ts (ground arith))
]
