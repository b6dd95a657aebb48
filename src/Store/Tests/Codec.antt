-- ===== src/Store/Tests/Codec.antt =====
-- A text for every value of the records, which stands for their JSON in the tests.
use Prim.Native.Char.{Char, char, code, IsLt, IsScalar}
use Prim.Native.Nat.{Ordering, compare}
use text.Mathlib.TextBridge.{to_list, of_list, of_list-to_list}
use tegg.Prelude.{
  ℕ, ◌-◌, ◌+◌, ◌≤◌, zero, suc, ◌≡◌, refl, ap, ◌∙◌, String, Bool, true, false, List, [], ◌∷◌, ◌++◌,
  append_assoc, Option, none, some, ◌==◌, nat_key, All, All-append, arith, length, length-append, ℤ,
  pos, negsuc,
}
use tegg.Agent.{RunStatus, queued, in_progress, completed, failed, cancelled, cancelling, expired}
use tegg.Store.Lines.{Text}

abbrev pub base : ℕ
base = 100000

abbrev pub AreUnits : Text → Type 0
AreUnits = All (λ c. base ≤ c)

pub record Codec (A : Type 0) : Type 0 where
  pub write : A → Text
  pub read : Text → Option (A × Text)
  pub back : (a : A) (rest : Text) → read (write a ++ rest) ≡ some (a, rest)
  pub units : (a : A) → AreUnits (write a)

pub read_nat : Text → Option (ℕ × Text)
read_nat [] = none
read_nat (c ∷ cs) = some (c - base, cs)

abbrev pub nat_codec : Codec ℕ
unfolding read_nat
nat_codec = record {
  write = λ n. (n + base) ∷ [];
  read = read_nat;
  back = λ n rest. ap (λ z. some (z, rest)) (omega arith);
  units = λ n. (omega arith, tt);
}

module _ {A B : Type 0} where
  pub after : Option (A × Text) → (A → Text → Option (B × Text)) → Option (B × Text)
  after none f = none
  after (some (a, rest)) f = f a rest

abbrev pub iso_codec :
    {A B : Type 0} → Codec A → (f : B → A) (g : A → B) → ((b : B) → g (f b) ≡ b) → Codec B
unfolding after
iso_codec c f g back = record {
  write = λ b. c.write (f b);
  read = λ t. after (c.read t) (λ a rest. some (g a, rest));
  back = λ b rest.
      ap (λ z. after z (λ a r. some (g a, r))) (c.back (f b) rest)
      ∙ ap (λ z. some (z, rest)) (back b);
  units = λ b. c.units (f b);
}

abbrev pub pair_codec : {A B : Type 0} → Codec A → Codec B → Codec (A × B)
unfolding after
pair_codec c d = record {
  write = λ p. c.write p.0 ++ d.write p.1;
  read = λ t. after (c.read t) (λ a rest. after (d.read rest) (λ b last. some ((a, b), last)));
  back = λ p rest.
      ap (λ z. after (c.read z) (λ a r. after (d.read r) (λ b last. some ((a, b), last))))
        (append_assoc (c.write p.0) (d.write p.1) rest)
      ∙ ap (λ z. after z (λ a r. after (d.read r) (λ b last. some ((a, b), last))))
          (c.back p.0 (d.write p.1 ++ rest))
      ∙ ap (λ z. after z (λ b last. some ((p.0, b), last))) (d.back p.1 rest);
  units = λ p. All-append _ (d.write p.1) (c.write p.0) (d.units p.1) (c.units p.0);
}

module _ {A : Type 0} (c : Codec A) where
  pub write_list : List A → Text
  write_list [] = base ∷ []
  write_list (x ∷ xs) = suc base ∷ c.write x ++ write_list xs

  -- The fuel is the length of the text.
  pub read_list : ℕ → Text → Option (List A × Text)
  unfolding after
  read_list zero t = none
  read_list (suc f) [] = none
  read_list (suc f) (k ∷ t) =
      let more =
        after (c.read t) (λ x rest. after (read_list f rest) (λ xs last. some (x ∷ xs, last))) in
      elim (k == base) [ true ↦ some ([], t) | false ↦ more ]

  pub read_list-write :
      (f : ℕ) (xs : List A) (rest : Text)
      → length xs + 1 ≤ f
      → read_list f (write_list xs ++ rest) ≡ some (xs, rest)
  unfolding read_list write_list after
  read_list-write zero xs rest h = absurd (omega arith)
  read_list-write (suc f) [] rest h = refl
  read_list-write (suc f) (x ∷ xs) rest h =
      ap (λ z. after (c.read z) (λ y r. after (read_list f r) (λ ys last. some (y ∷ ys, last))))
        (append_assoc (c.write x) (write_list xs) rest)
      ∙ ap (λ z. after z (λ y r. after (read_list f r) (λ ys last. some (y ∷ ys, last))))
          (c.back x (write_list xs ++ rest))
      ∙ ap (λ z. after z (λ ys last. some (x ∷ ys, last))) (read_list-write f xs rest (omega arith))

  pub write_list-units : (xs : List A) → AreUnits (write_list xs)
  unfolding write_list
  write_list-units [] = (omega arith, tt)
  write_list-units (x ∷ xs) =
      (omega arith, All-append _ (write_list xs) (c.write x) (write_list-units xs) (c.units x))

  pub length-write_list :
      (xs : List A) (rest : Text) → length xs + 1 ≤ length (write_list xs ++ rest)
  unfolding write_list
  length-write_list [] rest = omega arith
  length-write_list (x ∷ xs) rest =
      let more = length-write_list xs rest in
      omega (
        arith,
        more,
        ap length (append_assoc (c.write x) (write_list xs) rest),
        length-append (c.write x) (write_list xs ++ rest),
      )

  abbrev pub list_codec : Codec (List A)
  list_codec = record {
    write = write_list;
    read = λ t. read_list (length t) t;
    back = λ xs rest.
        read_list-write (length (write_list xs ++ rest)) xs rest (length-write_list xs rest);
    units = write_list-units;
  }

-- The helpers of `IsScalar`, clause by clause.
abbrev pub BothLt : Ordering → Ordering → Type 0
BothLt Ordering.lt o = IsLt o
BothLt Ordering.eq _ = ⊥
BothLt Ordering.gt _ = ⊥

abbrev pub IsLtOrBoth : Ordering → Ordering → Ordering → Type 0
IsLtOrBoth Ordering.lt _ _ = Unit
IsLtOrBoth Ordering.eq o p = BothLt o p
IsLtOrBoth Ordering.gt o p = BothLt o p

pub scalar : (o p q : Ordering) → Option (IsLtOrBoth o p q)
scalar Ordering.lt p q = some tt
scalar Ordering.eq Ordering.lt Ordering.lt = some tt
scalar Ordering.eq Ordering.lt Ordering.eq = none
scalar Ordering.eq Ordering.lt Ordering.gt = none
scalar Ordering.eq Ordering.eq q = none
scalar Ordering.eq Ordering.gt q = none
scalar Ordering.gt Ordering.lt Ordering.lt = some tt
scalar Ordering.gt Ordering.lt Ordering.eq = none
scalar Ordering.gt Ordering.lt Ordering.gt = none
scalar Ordering.gt Ordering.eq q = none
scalar Ordering.gt Ordering.gt q = none

scalar_complete : (o p q : Ordering) (h : IsLtOrBoth o p q) → scalar o p q ≡ some h
unfolding scalar
scalar_complete Ordering.lt p q h = refl
scalar_complete Ordering.eq Ordering.lt Ordering.lt h = refl
scalar_complete Ordering.gt Ordering.lt Ordering.lt h = refl
scalar_complete Ordering.eq Ordering.lt Ordering.eq h = absurd h
scalar_complete Ordering.eq Ordering.lt Ordering.gt h = absurd h
scalar_complete Ordering.eq Ordering.eq q h = absurd h
scalar_complete Ordering.eq Ordering.gt q h = absurd h
scalar_complete Ordering.gt Ordering.lt Ordering.eq h = absurd h
scalar_complete Ordering.gt Ordering.lt Ordering.gt h = absurd h
scalar_complete Ordering.gt Ordering.eq q h = absurd h
scalar_complete Ordering.gt Ordering.gt q h = absurd h

pub char_of : ℕ → Option Char
unfolding scalar
char_of n =
    let found : Option (IsScalar n) =
      scalar (compare n 55296) (compare 57343 n) (compare n 1114112) in
    elim found [ none ↦ none | some h ↦ some (char n h) ]

char_of-code : (n : ℕ) (h : IsScalar n) → char_of n ≡ some (char n h)
unfolding char_of
char_of-code n h =
    let found : scalar (compare n 55296) (compare 57343 n) (compare n 1114112) ≡ some h =
      scalar_complete (compare n 55296) (compare 57343 n) (compare n 1114112) h in
    ap (λ (o : Option (IsScalar n)). elim o [ none ↦ none | some h ↦ some (char n h) ]) found

pub or_space : Option Char → Char
or_space none = char 32 tt
or_space (some c) = c

pub char_of_back : (c : Char) → or_space (char_of (code c)) ≡ c
unfolding or_space
char_of_back (char n h) = ap or_space (char_of-code n h)

abbrev pub char_codec : Codec Char
char_codec = iso_codec nat_codec code (λ n. or_space (char_of n)) char_of_back

abbrev pub string_codec : Codec String
string_codec = iso_codec (list_codec char_codec) to_list of_list of_list-to_list

pub option_list : {A : Type 0} → Option A → List A
option_list none = []
option_list (some a) = a ∷ []

pub list_option : {A : Type 0} → List A → Option A
list_option [] = none
list_option (a ∷ as') = some a

pub list_option_back : {A : Type 0} (o : Option A) → list_option (option_list o) ≡ o
unfolding option_list list_option
list_option_back none = refl
list_option_back (some a) = refl

abbrev pub option_codec : {A : Type 0} → Codec A → Codec (Option A)
option_codec c = iso_codec (list_codec c) option_list list_option list_option_back

pub bool_number : Bool → ℕ
bool_number true = 1
bool_number false = 0

pub number_bool : ℕ → Bool
number_bool n = n == 1

pub number_bool_back : (b : Bool) → number_bool (bool_number b) ≡ b
unfolding bool_number number_bool
number_bool_back true = refl
number_bool_back false = refl

abbrev pub bool_codec : Codec Bool
bool_codec = iso_codec nat_codec bool_number number_bool number_bool_back

pub integer_pair : ℤ → Bool × ℕ
integer_pair (pos n) = (true, n)
integer_pair (negsuc n) = (false, n)

pub pair_integer : Bool × ℕ → ℤ
pair_integer (true, n) = pos n
pair_integer (false, n) = negsuc n

pub pair_integer_back : (z : ℤ) → pair_integer (integer_pair z) ≡ z
unfolding integer_pair pair_integer
pair_integer_back (pos n) = refl
pair_integer_back (negsuc n) = refl

abbrev pub integer_codec : Codec ℤ
integer_codec =
    iso_codec (pair_codec bool_codec nat_codec) integer_pair pair_integer pair_integer_back

pub status_number : RunStatus → ℕ
status_number queued = 0
status_number in_progress = 1
status_number completed = 2
status_number failed = 3
status_number cancelled = 4
status_number cancelling = 5
status_number expired = 6

pub number_status : ℕ → RunStatus
number_status zero = queued
number_status (suc zero) = in_progress
number_status (suc (suc zero)) = completed
number_status (suc (suc (suc zero))) = failed
number_status (suc (suc (suc (suc zero)))) = cancelled
number_status (suc (suc (suc (suc (suc zero))))) = cancelling
number_status _ = expired

pub number_status_back : (s : RunStatus) → number_status (status_number s) ≡ s
unfolding status_number number_status
number_status_back queued = refl
number_status_back in_progress = refl
number_status_back completed = refl
number_status_back failed = refl
number_status_back cancelled = refl
number_status_back cancelling = refl
number_status_back expired = refl

abbrev pub status_codec : Codec RunStatus
status_codec = iso_codec nat_codec status_number number_status number_status_back
