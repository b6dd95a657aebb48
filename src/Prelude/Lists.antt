-- ===== src/Prelude/Lists.antt =====
-- Lists measured by native numbers, membership and predicates by recursion.
use Prim.Native.Nat.{ℕ, zero, suc, ◌+◌, ◌≤◌, ◌<◌}
use mathlib.Core.Path.{◌≡◌, refl, ap, sym, ◌∙◌}
use mathlib.Core.Logic.{◌⊎◌, inl, inr}
use mathlib.Core.Bool.{Bool, true, false}
use mathlib.Core.List.{List, [], ◌∷◌, ◌++◌, map}
use mathlib.Core.Option.{Option, none, some}
use native.Mathlib.Omega.{arith}
use tegg.Prelude.Tests.{if◌then◌else◌, Bool-cases}

module _ {ℓ} {A : Type ℓ} where
  abbrev pub length : List A → ℕ
  length [] = 0
  length (x ∷ xs) = suc (length xs)

  pub length-append : (xs ys : List A) → length (xs ++ ys) ≡ length xs + length ys
  length-append [] ys = omega arith
  length-append (x ∷ xs) ys = omega (arith, length-append xs ys)

  -- `Array.prototype.filter`.
  abbrev pub filter : (A → Bool) → List A → List A
  filter p [] = []
  filter p (x ∷ xs) = let rest = filter p xs in if p x then x ∷ rest else rest

  -- `Array.prototype.find`.
  abbrev pub find : (A → Bool) → List A → Option A
  find p [] = none
  find p (x ∷ xs) = let rest = find p xs in if p x then some x else rest

  -- `Array.prototype.some`.
  abbrev pub any : (A → Bool) → List A → Bool
  any p [] = false
  any p (x ∷ xs) = let rest = any p xs in if p x then true else rest

  pub length-filter-le : (p : A → Bool) (xs : List A) → length (filter p xs) ≤ length xs
  length-filter-le p [] = omega arith
  length-filter-le p (x ∷ xs) = ground (arith, length-filter-le p xs)

-- Membership with its position kept, so that proofs can take it apart.
abbrev pub In : {A : Type 0} → A → List A → Type 0
In a [] = ⊥
In a (x ∷ xs) = (a ≡ x) ⊎ In a xs

abbrev pub All {κ ℓ} : {T : Type ℓ} (Holds : T → Type κ) (ts : List T) → Type κ
All Holds (t ∷ ts) = Holds t × All Holds ts
All Holds [] = Unit

-- No element stands twice.
abbrev pub Distinct : {A : Type 0} → List A → Type 0
Distinct [] = Unit
Distinct (x ∷ xs) = ¬ In x xs × Distinct xs

module _ {A : Type 0} where
  pub In-append_left : (a : A) (xs ys : List A) → In a xs → In a (xs ++ ys)
  In-append_left a [] ys h = absurd h
  In-append_left a (x ∷ xs) ys (inl e) = inl e
  In-append_left a (x ∷ xs) ys (inr h) = inr (In-append_left a xs ys h)

  pub In-append_right : (a : A) (xs ys : List A) → In a ys → In a (xs ++ ys)
  In-append_right a [] ys h = h
  In-append_right a (x ∷ xs) ys h = inr (In-append_right a xs ys h)

  pub In-append : (a : A) (xs ys : List A) → In a (xs ++ ys) → In a xs ⊎ In a ys
  In-append a [] ys h = inr h
  In-append a (x ∷ xs) ys (inl e) = inl (inl e)
  In-append a (x ∷ xs) ys (inr h) = elim (In-append a xs ys h) [
    | inl l ↦ inl (inr l)
    | inr r ↦ inr r
  ]

  pub In-snoc : (xs : List A) (r t : A) → In t (xs ++ r ∷ []) → In t xs ⊎ (t ≡ r)
  In-snoc xs r t m = elim (In-append t xs (r ∷ []) m) [
    | inl i ↦ inl i
    | inr j ↦ elim j [ inl e ↦ inr e | inr z ↦ absurd z ]
  ]

  pub All-In {κ} : (P : A → Type κ) (xs : List A) → All P xs → (a : A) → In a xs → P a
  All-In P [] h a m = absurd m
  All-In P (x ∷ xs) h a (inl e) = rw e h.0
  All-In P (x ∷ xs) h a (inr m) = All-In P xs h.1 a m

  pub All-of_In {κ} : (P : A → Type κ) (xs : List A) → ((a : A) → In a xs → P a) → All P xs
  All-of_In P [] h = tt
  All-of_In P (x ∷ xs) h = (h x (inl refl), All-of_In P xs (λ a m. h a (inr m)))

  pub All-append {κ} : (P : A → Type κ) (ys xs : List A) → All P ys → All P xs → All P (xs ++ ys)
  All-append P ys (x ∷ xs) h (hd, tl) = (hd, All-append P ys xs h tl)
  All-append P ys [] h _ = h

  pub Distinct-snoc : (xs : List A) (a : A) → Distinct xs → ¬ In a xs → Distinct (xs ++ a ∷ [])
  Distinct-snoc [] a d h = (λ m. m, tt)
  Distinct-snoc (x ∷ xs) a d h = (
    λ m. elim (In-append x xs (a ∷ []) m) [
      | inl l ↦ d.0 l
      | inr r ↦ elim r [ inl e ↦ h (inl (sym e)) | inr z ↦ absurd z ]
    ],
    Distinct-snoc xs a d.1 (λ m. h (inr m)),
  )

  pub In-filter : (p : A → Bool) (xs : List A) (a : A) → In a (filter p xs) → In a xs × (p a ≡ true)
  In-filter p [] a h = absurd h
  In-filter p (x ∷ xs) a h = elim (Bool-cases (p x)) [
    | inl t ↦
        let split : In a (x ∷ filter p xs) = rw t at h in
        elim split [
          | inl e ↦ (inl e, rw e t)
          | inr m ↦ let (i, t') = In-filter p xs a m in (inr i, t')
        ]
    | inr f ↦
        let m : In a (filter p xs) = rw f at h in let (i, t') = In-filter p xs a m in (inr i, t')
  ]

  -- `find` answers an element of the list that passes its test.
  pub find-In : (p : A → Bool) (xs : List A) (a : A) → find p xs ≡ some a → In a xs × (p a ≡ true)
  find-In p [] a h = cc
  find-In p (x ∷ xs) a h = elim (Bool-cases (p x)) [
    | inl t ↦ (inl (ground arith), ground arith)
    | inr f ↦ let (m, t) = find-In p xs a (ground arith) in (inr m, t)
  ]

  pub In-filter_of :
      (p : A → Bool) (xs : List A) (a : A) → In a xs → p a ≡ true → In a (filter p xs)
  In-filter_of p [] a m t = absurd m
  In-filter_of p (x ∷ xs) a (inl e) t = rw (ap p (sym e) ∙ t) (inl e)
  In-filter_of p (x ∷ xs) a (inr m) t = elim (Bool-cases (p x)) [
    | inl f ↦ rw f (inr (In-filter_of p xs a m t))
    | inr f ↦ rw f (In-filter_of p xs a m t)
  ]

module _ {A B : Type 0} where
  pub In-map : (f : A → B) (xs : List A) (a : A) → In a xs → In (f a) (map f xs)
  In-map f [] a h = absurd h
  In-map f (x ∷ xs) a (inl e) = inl (ap f e)
  In-map f (x ∷ xs) a (inr h) = inr (In-map f xs a h)

  pub length-map : (f : A → B) (xs : List A) → length (map f xs) ≡ length xs
  length-map f [] = refl
  length-map f (x ∷ xs) = ap suc (length-map f xs)

module _ {ℓ} {A : Type ℓ} where
  abbrev pub take : ℕ → List A → List A
  take zero xs = []
  take (suc n) [] = []
  take (suc n) (x ∷ xs) = x ∷ take n xs

  abbrev pub drop : ℕ → List A → List A
  drop zero xs = xs
  drop (suc n) [] = []
  drop (suc n) (x ∷ xs) = drop n xs

  pub take-append-drop : (n : ℕ) (xs : List A) → take n xs ++ drop n xs ≡ xs
  take-append-drop zero xs = refl
  take-append-drop (suc n) [] = refl
  take-append-drop (suc n) (x ∷ xs) = ap (◌∷◌ x) (take-append-drop n xs)

  pub take-length : (xs : List A) → take (length xs) xs ≡ xs
  take-length [] = refl
  take-length (x ∷ xs) = ap (◌∷◌ x) (take-length xs)

  pub take-append_left : (n : ℕ) (xs ys : List A) → n ≤ length xs → take n (xs ++ ys) ≡ take n xs
  take-append_left zero xs ys h = refl
  take-append_left (suc n) [] ys h = absurd (omega arith)
  take-append_left (suc n) (x ∷ xs) ys h = ap (◌∷◌ x) (take-append_left n xs ys (omega arith))

  pub filter-append :
      (p : A → Bool) (xs ys : List A) → filter p (xs ++ ys) ≡ filter p xs ++ filter p ys
  filter-append p [] ys = refl
  filter-append p (x ∷ xs) ys = ground (arith, filter-append p xs ys)

-- `xs[n]`: past the end it is undefined.
abbrev pub element {ℓ} : {A : Type ℓ} → ℕ → List A → Option A
element n [] = none
element zero (x ∷ xs) = some x
element (suc n) (x ∷ xs) = element n xs

pub element-All {ℓ} :
    {A : Type 0} (P : A → Type ℓ) (n : ℕ) (xs : List A) (x : A)
    → element n xs ≡ some x
    → All P xs
    → P x
element-All P n [] x h a = cc
element-All P zero (y ∷ ys) x h a = ground arith
element-All P (suc n) (y ∷ ys) x h a = element-All P n ys x h a.1

pub element_below :
    {A : Type 0} (n : ℕ) (xs : List A) → n < length xs → (x : A) × (element n xs ≡ some x)
element_below n [] h = absurd (omega arith)
element_below zero (x ∷ xs) h = (x, refl)
element_below (suc n) (x ∷ xs) h = element_below n xs (omega arith)

pub element-middle :
    {A : Type 0} (xs ys : List A) (x : A) → element (length xs) (xs ++ x ∷ ys) ≡ some x
element-middle [] ys x = refl
element-middle (z ∷ xs) ys x = element-middle xs ys x
