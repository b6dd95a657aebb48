-- ===== src/Oss/Tests.antt =====
-- A bucket as a map of the keys to their bytes, with one byte for a unit.
use tegg.Prelude.{
  ℕ, ◌+◌, ◌-◌, ◌≤◌, ◌<◌, ◌≡◌, inl, inr, refl, ap, sym, ◌∙◌, String, true, false, List, [], ◌∷◌,
  Option, none, some, Result, ok, err, ◌==◌, ==-cases, Bool-cases, ◌^◌, ◌⊎◌, ==_of_ne, ==_refl,
  nat_key, string_key, if◌then◌else◌, leb, length, take, drop, pos, arith,
}
use tegg.Prelude.JsMap.{JsMap, get, set, get-set}
use tegg.Store.Lines.{Text}
use tegg.Oss.{
  Bytes, Thrown, coded, OssObject, Utf8, OssClient, range_error, put_object, append_object,
  get_object, get_range,
}
use tegg.Oss.Laws.{is_well_formed, OssLaws, Utf8Laws, appended, size}
use tegg.Oss.Append.{Made, append_object_heals, append_object_gone}
use tegg.Oss.Stored.{
  Write, puts, appends, write_all, write_all-get_object, get_range_lem, IsStored, part,
}

abbrev utf8 : Utf8
utf8 = record { encode = λ t. t; decode = λ b. b }

utf8-Utf8Laws : Utf8Laws utf8
utf8-Utf8Laws = record { back = λ t f. refl; encode-append = λ s t f. refl }

abbrev Bucket : Type 0
Bucket = JsMap String Bytes

bytes_of : Option Bytes → Option (ℕ × ℕ) → Result Thrown (Option Bytes)
bytes_of none range = err (coded "NoSuchKey")
bytes_of (some b) none = ok (some b)
bytes_of (some b) (some (m, n)) =
    if leb (length b) m then err (coded "InvalidRange") else ok (some (take (n - m + 1) (drop m b)))

head_of : Option Bytes → Result Thrown (Option ℕ)
head_of none = err (coded "NoSuchKey")
head_of (some b) = ok (some (length b))

append_at : Bucket → String → Bytes → ℕ → Bucket × Result Thrown ℕ
append_at r k b p =
    if p == size (get k r)
    then (set k (appended (get k r) b) r, ok (p + length b))
    else (r, err (coded "PositionNotEqualToLength"))

abbrev oss : OssObject Bucket
oss = record {
  put = λ r k b. (set k b r, ok tt);
  get = λ r k range. bytes_of (get k r) range;
  head = λ r k. head_of (get k r);
  append = append_at;
}

append_at_refused :
    (r : Bucket) (k : String) (b : Bytes) (p : ℕ)
    → (p == size (get k r)) ≡ false
    → append_at r k b p ≡ (r, err (coded "PositionNotEqualToLength"))
unfolding append_at
append_at_refused r k b p f = rw f refl

ok-injective : (m n : ℕ) → ◌≡◌ {A = Result Thrown ℕ} (ok m) (ok n) → m ≡ n
ok-injective m n h = cc

refused-ok : (n : ℕ) → ◌≡◌ {A = Result Thrown ℕ} (err (coded "PositionNotEqualToLength")) (ok n) → ⊥
refused-ok n h = cc

ok_refused : (n : ℕ) → ◌≡◌ {A = Result Thrown ℕ} (ok n) (err (coded "PositionNotEqualToLength")) → ⊥
ok_refused n h = cc

append_at_taken :
    (r : Bucket) (k : String) (b : Bytes)
    → append_at r k b (size (get k r))
      ≡ (set k (appended (get k r) b) r, ok (size (get k r) + length b))
unfolding append_at
append_at_taken r k b = rw (==_refl (size (get k r))) refl

append_at_ok :
    (r : Bucket) (k : String) (b : Bytes) (p n : ℕ)
    → (append_at r k b p).1 ≡ ok n
    → (p ≡ size (get k r))
      × (n ≡ p + length b)
      × ((j : String)
          → get j (append_at r k b p).0 ≡ (if k == j then some (appended (get k r) b) else get j r))
append_at_ok r k b p n h = elim (==-cases p (size (get k r))) [
  | inl e ↦
      let same : (p == size (get k r)) ≡ true = ground (arith, e) in
      let done : append_at r k b p ≡ (set k (appended (get k r) b) r, ok (p + length b)) =
        unfold append_at in rw same refl in
      (
        e,
        ok-injective n (p + length b) (sym h ∙ ap (λ x. x.1) done),
        λ j. ap (λ x. get j x.0) done ∙ get-set k j (appended (get k r) b) r,
      )
  | inr f ↦ absurd (refused-ok n (sym (ap (λ x. x.1) (append_at_refused r k b p f)) ∙ h))
]

oss-OssLaws : OssLaws oss
oss-OssLaws = record {
  objects = λ r k. get k r;
  get_missing = λ r k range h. unfold bytes_of in rw h refl;
  get_whole = λ r k b h. unfold bytes_of in rw h refl;
  get_part = λ r k b m n h l i. unfold bytes_of in rw h (ground (arith, l, i));
  get_beyond = λ r k b m n h l. unfold bytes_of in rw h (ground (arith, l));
  head_missing = λ r k h. unfold head_of in rw h refl;
  head_size = λ r k b h. unfold head_of in rw h refl;
  put_ok = λ r k b h j. get-set k j b r;
  append_ok = append_at_ok;
  append_elsewhere = λ r k b p h. append_at_refused r k b p (==_of_ne p (size (get k r)) h);
  append_at_end = λ r k b h. ok_refused _ (sym (ap (λ x. x.1) (append_at_taken r k b)) ∙ h);
}

-- A process that has cached an old position, and one that has cached nothing.
abbrev writes : List (JsMap String ℕ × Write)
writes =
    ([], puts "a" (1 ∷ 2 ∷ []))
    ∷ (("b", 7) ∷ [], appends "b" (3 ∷ []))
    ∷ ([], appends "b" (4 ∷ 5 ∷ []))
    ∷ []

abbrev start : Bucket
start = ("b", 9 ∷ []) ∷ []

abbrev texts : String → Option Text
texts k = if "b" == k then some (9 ∷ []) else none

abbrev reader : OssClient Bucket
reader = record {
  remote = ("b", 9 ∷ 3 ∷ 4 ∷ 5 ∷ []) ∷ ("a", 1 ∷ 2 ∷ []) ∷ [];
  append_positions = [];
}

start-IsStored : IsStored oss utf8 oss-OssLaws utf8-Utf8Laws texts start
unfolding get is_well_formed oss-OssLaws
start-IsStored k = elim (Bool-cases ("b" == k)) [
  | inl e ↦ rw e (refl, refl)
  | inr n ↦ rw n (refl, tt)
]

writes_done : write_all oss utf8 writes start ≡ some reader.remote
unfolding set get append_object put_object append_at head_of
writes_done = refl

write_all-get_object_example : get_object oss utf8 "b" reader ≡ ok (some (9 ∷ 3 ∷ 4 ∷ 5 ∷ []))
unfolding is_well_formed
write_all-get_object_example =
    write_all-get_object oss utf8 oss-OssLaws utf8-Utf8Laws writes texts start reader start-IsStored
      (refl, (refl, (refl, tt))) writes_done "b"

abbrev stale : OssClient Bucket
stale = record { remote = start; append_positions = ("b", 7) ∷ [] }

append_object_heals_example :
    ((append_object oss utf8 "b" (3 ∷ []) stale).1 ≡ ok tt)
    × Made oss utf8 oss-OssLaws "b" (3 ∷ []) start (append_object oss utf8 "b" (3 ∷ []) stale).0
unfolding oss-OssLaws
append_object_heals_example =
    append_object_heals oss utf8 oss-OssLaws "b" (3 ∷ []) stale 2 (inl (9 ∷ [], unfold get in refl))
      (unfold get append_at in refl)

abbrev gone : OssClient Bucket
gone = record { remote = start; append_positions = ("c", 3) ∷ [] }

append_object_gone_example :
    append_object oss utf8 "c" (3 ∷ []) gone ≡ (gone, err (coded "NoSuchKey"))
unfolding get oss-OssLaws
append_object_gone_example = append_object_gone oss utf8 oss-OssLaws "c" (3 ∷ []) gone 2 refl refl

zero_of : (n : ℕ) → pos 0 ≡ pos n → 0 ≡ n
zero_of n h = cc

get_range_lem_example :
    ((m n : ℕ) × (pos 0 ≡ pos m)
      × (pos 0 ≡ pos n)
      × (m ≤ n)
      × (n < 2 ^ 53)
      × (get_range oss utf8 "b" (pos 0) (pos 0) stale
          ≡ ok (part oss utf8 oss-OssLaws utf8-Utf8Laws (texts "b") m n)))
    ⊎ (((m n : ℕ) → pos 0 ≡ pos m → pos 0 ≡ pos n → m ≤ n → n < 2 ^ 53 → ⊥)
        × (get_range oss utf8 "b" (pos 0) (pos 0) stale ≡ err (range_error (pos 0) (pos 0))))
get_range_lem_example =
    get_range_lem oss utf8 oss-OssLaws utf8-Utf8Laws texts "b" (pos 0) (pos 0) stale start-IsStored
      inside
  where
    inside : (m n : ℕ) → pos 0 ≡ pos m → pos 0 ≡ pos n → (n < 1) ⊎ (1 ≤ m)
    inside m n h k = inl (omega (arith, zero_of n k))
