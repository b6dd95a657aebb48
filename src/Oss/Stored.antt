-- ===== src/Oss/Stored.antt =====
-- What the objects of the service hold after the client's operations.
use tegg.Prelude.{
  ℕ, ◌^◌, negsuc, ◌+◌, ◌-◌, ◌&&◌, ◌≤◌, ◌<◌, ◌≡◌, ◌⊎◌, inl, inr, refl, ap, sym, ◌∙◌, subst, String,
  Bool, true, false, List, [], ◌∷◌, ◌++◌, Option, none, some, Result, ok, err, ◌==◌, nat_key,
  string_key, if◌then◌else◌, ltb, leb, length, All, take, drop, ℤ, pos, Option-cases, Bool-cases,
  Result-cases, arith,
}
use tegg.Prelude.JsMap.{JsMap}
use tegg.Store.Lines.{Text}
use tegg.Oss.{
  Bytes, Thrown, range_error, OssObject, Utf8, OssClient, range_of, put_object, get_object,
  get_range, append_object, is_oss_error, content_or_empty,
}
use tegg.Oss.Laws.{IsWellFormed, well_formed-append, Utf8Laws, appended, OssLaws}
use tegg.Oss.Append.{append_object-Made, put_object-objects}

pub data Write : Type 0 where
  puts : (key : String) (value : Text) → Write
  appends : (key : String) (value : Text) → Write

abbrev pub text_of : Write → Text
text_of (puts key value) = value
text_of (appends key value) = value

abbrev pub joined : Option Text → Text → Text
joined none value = value
joined (some old) value = old ++ value

-- The texts behind a write.
abbrev pub written : Write → (String → Option Text) → String → Option Text
written (puts key value) texts k = if key == k then some value else texts k
written (appends key value) texts k = if key == k then some (joined (texts key) value) else texts k

abbrev pub AllFormed : Option Text → Type 0
AllFormed none = Unit
AllFormed (some t) = IsWellFormed t

module _ {R : Type 0} (oss : OssObject R) (utf8 : Utf8) where
  abbrev pub write : Write → OssClient R → OssClient R × Result Thrown (Unit {0})
  write (puts key value) client = put_object oss utf8 key value client
  write (appends key value) client = append_object oss utf8 key value client

  -- What the service has when every write has resolved, each by a process of its own positions.
  abbrev pub go_on : Result Thrown (Unit {0}) → Option R → Option R
  go_on (ok _) rest = rest
  go_on (err thrown) rest = none

  abbrev pub write_all : List (JsMap String ℕ × Write) → R → Option R
  write_all [] r = some r
  write_all ((positions, w) ∷ ws) r =
      let (client, answer) = write w (record { remote = r; append_positions = positions }) in
      go_on answer (write_all ws client.remote)

  abbrev pub encoded : Option Text → Option Bytes
  encoded none = none
  encoded (some t) = some (utf8.encode t)

  module _ (laws : OssLaws oss) (code : Utf8Laws utf8) where
    abbrev pub IsStored : (String → Option Text) → R → Type 0
    IsStored texts r = (k : String) → (laws.objects r k ≡ encoded (texts k)) × AllFormed (texts k)

    get_object-read :
        (texts : String → Option Text) (k : String) (client : OssClient R)
        → IsStored texts client.remote
        → get_object oss utf8 k client ≡ ok (texts k)
    unfolding get_object
    get_object-read texts k client s = elim (Option-cases (texts k)) [
      | inl n ↦
          rw (get_object, n, laws.get_missing client.remote k none ((s k).0 ∙ ap encoded n)) refl
      | inr (t, e) ↦
          rw
            (get_object, e, laws.get_whole client.remote k (utf8.encode t) ((s k).0 ∙ ap encoded e))
            (ap (λ u. ok (some u)) (code.back t (subst AllFormed e (s k).1)))
    ]

    encoded-joined :
        (o : Option Text) (value : Text)
        → AllFormed o
        → appended (encoded o) (utf8.encode value) ≡ utf8.encode (joined o value)
    encoded-joined none value a = refl
    encoded-joined (some old) value a = sym (code.encode-append old value a)

    joined-AllFormed :
        (o : Option Text) (value : Text)
        → AllFormed o
        → IsWellFormed value
        → AllFormed (some (joined o value))
    joined-AllFormed none value a f = f
    joined-AllFormed (some old) value a f = well_formed-append false old value a f

    -- A key that is overwritten, in the objects and in the texts.
    if-stored :
        (b : Bool) (t : Text) (o : Option Bytes) (u : Option Text)
        → IsWellFormed t
        → (o ≡ encoded u) × AllFormed u
        → ((if b then some (utf8.encode t) else o) ≡ encoded (if b then some t else u))
          × AllFormed (if b then some t else u)
    if-stored true t o u f s = (refl, f)
    if-stored false t o u f s = s

    write-IsStored :
        (texts : String → Option Text) (w : Write) (client : OssClient R)
        → IsStored texts client.remote
        → IsWellFormed (text_of w)
        → (write w client).1 ≡ ok tt
        → IsStored (written w texts) (write w client).0.remote
    write-IsStored texts (puts key value) client s f h k =
        let (e, a) = if-stored (key == k) value (laws.objects client.remote k) (texts k) f (s k) in
        (put_object-objects oss utf8 laws key value client h k ∙ e, a)
    write-IsStored texts (appends key value) client s f h k =
        let (here, _) = append_object-Made oss utf8 laws key value client h in
        let (e, a) =
          if-stored (key == k) (joined (texts key) value) (laws.objects client.remote k) (texts k)
            (joined-AllFormed (texts key) value (s key).1 f) (s k) in
        let bytes : appended (laws.objects client.remote key) (utf8.encode value)
            ≡ utf8.encode (joined (texts key) value) =
          ap (λ o. appended o (utf8.encode value)) (s key).0
          ∙ encoded-joined (texts key) value (s key).1 in
        (here k ∙ ap (λ b. if key == k then some b else laws.objects client.remote k) bytes ∙ e, a)

    -- The texts behind a row of writes.
    abbrev pub written_all :
        List (JsMap String ℕ × Write) → (String → Option Text) → String → Option Text
    written_all [] texts = texts
    written_all ((_, w) ∷ ws) texts = written_all ws (written w texts)

    none-some : {q : R} → none ≡ some q → ⊥
    none-some h = cc

    write_all-IsStored :
        (ws : List (JsMap String ℕ × Write)) (texts : String → Option Text) (r q : R)
        → IsStored texts r
        → All (λ w. IsWellFormed (text_of w.1)) ws
        → write_all ws r ≡ some q
        → IsStored (written_all ws texts) q
    write_all-IsStored [] texts r q s f h = ground arith
    write_all-IsStored ((positions, w) ∷ ws) texts r q s f h =
        let client : OssClient R = record { remote = r; append_positions = positions } in
        elim (Result-cases (write w client).1) [
          | inl (a, e) ↦
              write_all-IsStored ws (written w texts) (write w client).0.remote q
                (write-IsStored texts w client s f.0 e) f.1
                (ap (λ a. go_on a (write_all ws (write w client).0.remote)) (sym e) ∙ h)
          | inr (t, e) ↦
              absurd
                (none-some (ap (λ a. go_on a (write_all ws (write w client).0.remote)) (sym e) ∙ h))
        ]

    -- Processes put and append well-formed texts to the objects of a bucket, each with whatever
    -- positions it has cached. When every write resolved, any process reads of any key what the writes
    -- amount to: the last put of the key and what was appended behind it, each once and in order.
    pub write_all-get_object :
        (ws : List (JsMap String ℕ × Write)) (texts : String → Option Text) (r : R)
        (client : OssClient R)
        → IsStored texts r
        → All (λ w. IsWellFormed (text_of w.1)) ws
        → write_all ws r ≡ some client.remote
        → (k : String) → get_object oss utf8 k client ≡ ok (written_all ws texts k)
    write_all-get_object ws texts r client s f h k =
        get_object-read (written_all ws texts) k client
          (write_all-IsStored ws texts r client.remote s f h)

    -- The texts that a range of bytes stands for.
    abbrev pub part : Option Text → (start end_ : ℕ) → Option Text
    part none start end_ = none
    part (some t) start end_ =
        if leb (length (utf8.encode t)) start
        then some []
        else some (utf8.decode (take (end_ - start + 1) (drop start (utf8.encode t))))

    -- A range inside the object, or behind it.
    abbrev pub Within : Option Text → (start end_ : ℕ) → Type 0
    Within none start end_ = Unit
    Within (some t) start end_ = (end_ < length (utf8.encode t)) ⊎ (length (utf8.encode t) ≤ start)

    range_of_valid :
        (m n : ℕ) → (leb m n && ltb n (2 ^ 53)) ≡ true → range_of (pos m) (pos n) ≡ some (m, n)
    unfolding range_of
    range_of_valid m n b = ground arith

    range_of_bad : (m n : ℕ) → (leb m n && ltb n (2 ^ 53)) ≡ false → range_of (pos m) (pos n) ≡ none
    unfolding range_of
    range_of_bad m n b = ground arith

    pos-injective : (m n : ℕ) → pos m ≡ pos n → m ≡ n
    pos-injective m n h = cc

    bad_range :
        (m n i j : ℕ)
        → (leb m n && ltb n (2 ^ 53)) ≡ false
        → pos m ≡ pos i
        → pos n ≡ pos j
        → i ≤ j
        → j < 2 ^ 53
        → ⊥
    bad_range m n i j b e f g h = ground (arith, b, g, h, pos-injective m i e, pos-injective n j f)

    -- What is made of the service's answer to a range.
    abbrev pub ranged : Result Thrown (Option Bytes) → Result Thrown (Option Text)
    ranged (ok content) = ok (some (content_or_empty oss utf8 content))
    ranged (err thrown) =
        if is_oss_error thrown "NoSuchKey"
        then ok none
        else (if is_oss_error thrown "InvalidRange" then ok (some []) else err thrown)

    read_part :
        (texts : String → Option Text) (key : String) (m n : ℕ) (client : OssClient R)
        → IsStored texts client.remote
        → m ≤ n
        → Within (texts key) m n
        → ranged (oss.get client.remote key (some (m, n))) ≡ ok (part (texts key) m n)
    read_part texts key m n client s h w = elim (Option-cases (texts key)) [
      | inl e ↦
          rw (e, laws.get_missing client.remote key (some (m, n)) ((s key).0 ∙ ap encoded e)) refl
      | inr (t, e) ↦
          let stored : laws.objects client.remote key ≡ some (utf8.encode t) =
            (s key).0 ∙ ap encoded e in
          elim (subst (λ o. Within o m n) e w) [
            | inl inside ↦
                rw (e, laws.get_part client.remote key (utf8.encode t) m n stored h inside)
                  (ground (arith, h, inside))
            | inr behind ↦
                rw (e, laws.get_beyond client.remote key (utf8.encode t) m n stored behind)
                  (ground (arith, behind))
          ]
    ]

    -- `getRange` answers, for every two numbers whose range does not reach over the end of the object: the part of the text whose bytes the range names, an
    -- empty text where the range starts behind the object, null where there is no object; or it throws
    -- its RangeError where the numbers are no safe integers from zero on, or stand the wrong way round.
    pub get_range_lem :
        (texts : String → Option Text) (key : String) (start end_ : ℤ) (client : OssClient R)
        → IsStored texts client.remote
        → ((m n : ℕ) → start ≡ pos m → end_ ≡ pos n → Within (texts key) m n)
        → ((m n : ℕ) × (start ≡ pos m)
            × (end_ ≡ pos n)
            × (m ≤ n)
            × (n < 2 ^ 53)
            × (get_range oss utf8 key start end_ client ≡ ok (part (texts key) m n)))
          ⊎ (((m n : ℕ) → start ≡ pos m → end_ ≡ pos n → m ≤ n → n < 2 ^ 53 → ⊥)
              × (get_range oss utf8 key start end_ client ≡ err (range_error start end_)))
    unfolding get_range
    get_range_lem texts key (pos m) (pos n) client s w =
        elim (Bool-cases (leb m n && ltb n (2 ^ 53))) [
          | inl b ↦ inl (
            m,
            n,
            refl,
            refl,
            ground arith,
            ground arith,
            rw (get_range, range_of_valid m n b)
                (read_part texts key m n client s (ground arith) (w m n refl refl)),
          )
          | inr b ↦
              inr (
                λ i j e f g h. bad_range m n i j b e f g h,
                rw (get_range, range_of_bad m n b) refl,
              )
        ]
    get_range_lem texts key (pos m) (negsuc n) client s w =
        inr (λ i j e f g h. cc, unfold range_of in refl)
    get_range_lem texts key (negsuc m) end_ client s w =
        inr (λ i j e f g h. cc, unfold range_of in refl)
