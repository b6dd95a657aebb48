-- ===== src/Oss/Laws.antt =====
-- What is relied on of `Buffer` and of OSS, as it answers while it is up; a put or an append may fail.
use tegg.Prelude.{
  ℕ, ◌+◌, ◌-◌, not, ◌&&◌, ◌≤◌, ◌<◌, ◌≡◌, ◌≢◌, String, Bool, true, false, [], ◌∷◌, ◌++◌, Option,
  none, some, ok, err, ◌==◌, nat_key, string_key, if◌then◌else◌, leb, length, take, drop, arith,
}
use tegg.Store.Lines.{Text}
use tegg.Oss.{Bytes, coded, OssObject, Utf8}

abbrev pub is_high : ℕ → Bool
is_high c = leb 55296 c && leb c 56319

abbrev pub is_low : ℕ → Bool
is_low c = leb 56320 c && leb c 57343

-- Whether each surrogate has its other half; the first argument tells of a high one just before.
unfoldable pub is_well_formed : Bool → Text → Bool
is_well_formed pending [] = not pending
is_well_formed false (c ∷ cs) =
    let alone = is_well_formed false cs in
    let pair = is_well_formed true cs in
    if is_high c then pair else (if is_low c then false else alone)
is_well_formed true (c ∷ cs) =
    let rest = is_well_formed false cs in if is_low c then rest else false

abbrev pub IsWellFormed : Text → Type 0
IsWellFormed t = is_well_formed false t ≡ true

pub well_formed-append :
    (b : Bool) (s t : Text)
    → is_well_formed b s ≡ true
    → IsWellFormed t
    → is_well_formed b (s ++ t) ≡ true
unfolding is_well_formed
well_formed-append true [] t h k = cc
well_formed-append false [] t h k = k
well_formed-append true (c ∷ s) t h k = ground (arith, well_formed-append false s t)
well_formed-append false (c ∷ s) t h k =
    ground (arith, well_formed-append false s t, well_formed-append true s t)

pub record Utf8Laws (utf8 : Utf8) : Type 0 where
  pub back : (text : Text) → IsWellFormed text → utf8.decode (utf8.encode text) ≡ text
  pub encode-append :
      (s t : Text) → IsWellFormed s → utf8.encode (s ++ t) ≡ utf8.encode s ++ utf8.encode t

abbrev pub appended : Option Bytes → Bytes → Bytes
appended none bytes = bytes
appended (some old) bytes = old ++ bytes

abbrev pub size : Option Bytes → ℕ
size none = 0
size (some bytes) = length bytes

-- What OSS documents. `objects` is what the service holds.
pub record OssLaws {R : Type 0} (oss : OssObject R) : Type 0 where
  pub objects : R → String → Option Bytes
  pub get_missing :
      (r : R) (k : String) (range : Option (ℕ × ℕ))
      → objects r k ≡ none
      → oss.get r k range ≡ err (coded "NoSuchKey")
  pub get_whole :
      (r : R) (k : String) (b : Bytes) → objects r k ≡ some b → oss.get r k none ≡ ok (some b)
  pub get_part :
      (r : R) (k : String) (b : Bytes) (start end_ : ℕ)
      → objects r k ≡ some b
      → start ≤ end_
      → end_ < length b
      → oss.get r k (some (start, end_)) ≡ ok (some (take (end_ - start + 1) (drop start b)))
  pub get_beyond :
      (r : R) (k : String) (b : Bytes) (start end_ : ℕ)
      → objects r k ≡ some b
      → length b ≤ start
      → oss.get r k (some (start, end_)) ≡ err (coded "InvalidRange")
  pub head_missing :
      (r : R) (k : String) → objects r k ≡ none → oss.head r k ≡ err (coded "NoSuchKey")
  pub head_size :
      (r : R) (k : String) (b : Bytes) → objects r k ≡ some b → oss.head r k ≡ ok (some (length b))
  pub put_ok :
      (r : R) (k : String) (b : Bytes)
      → (oss.put r k b).1 ≡ ok tt
      → (j : String) → objects (oss.put r k b).0 j ≡ (if k == j then some b else objects r j)
  -- An append goes through at the end of the object alone.
  pub append_ok :
      (r : R) (k : String) (b : Bytes) (p n : ℕ)
      → (oss.append r k b p).1 ≡ ok n
      → (p ≡ size (objects r k))
        × (n ≡ p + length b)
        × ((j : String)
            → objects (oss.append r k b p).0 j
              ≡ (if k == j then some (appended (objects r k) b) else objects r j))
  pub append_elsewhere :
      (r : R) (k : String) (b : Bytes) (p : ℕ)
      → p ≢ size (objects r k)
      → oss.append r k b p ≡ (r, err (coded "PositionNotEqualToLength"))
  -- At the end it is not refused for its position.
  pub append_at_end :
      (r : R) (k : String) (b : Bytes)
      → (oss.append r k b (size (objects r k))).1 ≢ err (coded "PositionNotEqualToLength")
