-- ===== src/Oss/Append.antt =====
-- Each append of the client is made at the end of the object.
use tegg.Prelude.{
  ℕ, suc, ◌+◌, ◌≡◌, ◌≢◌, ◌⊎◌, inl, inr, refl, ap, sym, ◌∙◌, subst, String, true, false, Option,
  none, some, Result, ok, err, ◌==◌, ==_refl, ==_iff, ==-cases, nat_key, length-append, string_key,
  if◌then◌else◌, length, Option-cases, Bool-cases, Result-cases, arith,
}
use tegg.Prelude.JsMap.{get, get-set}
use tegg.Store.Lines.{Text}
use tegg.Oss.{
  Bytes, Thrown, coded, range_error, other, OssObject, Utf8, OssClient, put_object, keep_position,
  append_again, settle_append, append_object, or_zero, is_oss_error,
}
use tegg.Oss.Laws.{appended, size, OssLaws}

module _ {R : Type 0} (oss : OssObject R) (utf8 : Utf8) (laws : OssLaws oss) where
  keep_position_ok :
      (key : String) (x : R × Result Thrown ℕ) (client : OssClient R)
      → (keep_position oss utf8 key x client).1 ≡ ok tt
      → (n : ℕ) × (x.1 ≡ ok n)
        × ((keep_position oss utf8 key x client).0.remote ≡ x.0)
        × (get key (keep_position oss utf8 key x client).0.append_positions ≡ some n)
  unfolding keep_position
  keep_position_ok key (r, ok n) client h =
      (n, refl, refl, get-set key key n client.append_positions ∙ rw (==_refl key) refl)
  keep_position_ok key (r, err t) client h = cc

  oss_error_coded : (t : Thrown) (c : String) → is_oss_error t c ≡ true → t ≡ coded c
  oss_error_coded (coded d) c h = ap coded ((==_iff d c).0 h)
  oss_error_coded (range_error a b) c h = cc
  oss_error_coded (other m) c h = cc

  -- Which attempt an append resolved with.
  settle_append_ok :
      (key : String) (value : Text) (x : R × Result Thrown ℕ) (client : OssClient R)
      → (settle_append oss utf8 key value x client).1 ≡ ok tt
      → (settle_append oss utf8 key value x client ≡ keep_position oss utf8 key x client)
        ⊎ ((x.1 ≡ err (coded "PositionNotEqualToLength"))
            × ((p : ℕ) × (settle_append oss utf8 key value x client
                  ≡ keep_position oss utf8 key
                      (oss.append x.0 key (utf8.encode value) p)
                      (record client { remote = x.0 }))))
  unfolding settle_append
  settle_append_ok key value (r, ok n) client h = inl refl
  settle_append_ok key value (r, err t) client h =
      elim (Bool-cases (is_oss_error t "PositionNotEqualToLength")) [
        | inl b ↦ elim (Result-cases (oss.head r key)) [
          | inl (size, e) ↦ inr (
            ap err (oss_error_coded t _ b),
            (or_zero size, rw (b, e) (unfold append_again in refl)),
          )
          | inr (u, e) ↦
              let failed : (settle_append oss utf8 key value (r, err t) client).1 ≡ err u =
                rw (b, e) (unfold append_again in refl) in
              cc
        ]
        | inr b ↦
            let failed : (settle_append oss utf8 key value (r, err t) client).1 ≡ err t =
              rw b refl in
            cc
      ]

  -- The append is made at the end of the object, once, and the end of the object is cached.
  abbrev pub Made : String → Text → R → OssClient R → Type 0
  Made key value r client =
      ((k : String)
        → laws.objects client.remote k ≡ (
            if key == k
            then some (appended (laws.objects r key) (utf8.encode value))
            else laws.objects r k))
      × (get key client.append_positions ≡ some (size (laws.objects client.remote key)))

  length-appended : (o : Option Bytes) (b : Bytes) → size (some (appended o b)) ≡ size o + length b
  length-appended none b = omega arith
  length-appended (some old) b = length-append {0} old b

  keep_position-Made :
      (key : String) (value : Text) (r : R) (p : ℕ) (client : OssClient R)
      → (keep_position oss utf8 key (oss.append r key (utf8.encode value) p) client).1 ≡ ok tt
      → Made key value r
          (keep_position oss utf8 key (oss.append r key (utf8.encode value) p) client).0
  keep_position-Made key value r p client h =
      let (n, e, remote, g) =
        keep_position_ok key (oss.append r key (utf8.encode value) p) client h in
      let (at_end, next, objects) = laws.append_ok r key (utf8.encode value) p n e in
      let here : laws.objects (oss.append r key (utf8.encode value) p).0 key
          ≡ some (appended (laws.objects r key) (utf8.encode value)) =
        objects key
        ∙ ap
            (λ b.
              if b
              then some (appended (laws.objects r key) (utf8.encode value))
              else laws.objects r key)
            (==_refl key) in
      (
        λ k. ap (λ t. laws.objects t k) remote ∙ objects k,
        g
            ∙ ap some (
                next
                ∙ ap (λ m. m + length (utf8.encode value)) at_end
                ∙ sym (length-appended (laws.objects r key) (utf8.encode value))
                ∙ ap size (sym here)
                ∙ ap (λ t. size (laws.objects t key)) (sym remote)),
      )

  -- A refused position leaves the service as it was.
  refused_unchanged :
      (r : R) (key : String) (b : Bytes) (p : ℕ)
      → (oss.append r key b p).1 ≡ err (coded "PositionNotEqualToLength")
      → (oss.append r key b p).0 ≡ r
  refused_unchanged r key b p h = elim (==-cases p (size (laws.objects r key))) [
    | inl e ↦ absurd (laws.append_at_end r key b (rw (sym e) h))
    | inr n ↦ ap (λ x. x.0) (laws.append_elsewhere r key b p (ground (arith, n)))
  ]

  pub append_object-Made :
      (key : String) (value : Text) (client : OssClient R)
      → (append_object oss utf8 key value client).1 ≡ ok tt
      → Made key value client.remote (append_object oss utf8 key value client).0
  unfolding append_object
  append_object-Made key value client h =
      let p = or_zero (get key client.append_positions) in
      let x = oss.append client.remote key (utf8.encode value) p in
      elim (settle_append_ok key value x client h) [
        | inl e ↦
            subst (λ t. Made key value client.remote t.0) (sym e)
              (keep_position-Made key value client.remote p client (ap (λ t. t.1) (sym e) ∙ h))
        | inr (refused, (q, e)) ↦
            subst (λ t. Made key value client.remote t.0) (sym e)
              (subst
                (λ r.
                  Made key value r
                    (keep_position oss utf8 key (oss.append x.0 key (utf8.encode value) q)
                      (record client { remote = x.0 })).0)
                (refused_unchanged client.remote key (utf8.encode value) p refused)
                (keep_position-Made key value x.0 q (record client { remote = x.0 })
                  (ap (λ t. t.1) (sym e) ∙ h)))
      ]

  pub put_object-objects :
      (key : String) (value : Text) (client : OssClient R)
      → (put_object oss utf8 key value client).1 ≡ ok tt
      → (k : String)
      → laws.objects (put_object oss utf8 key value client).0.remote k
        ≡ (if key == k then some (utf8.encode value) else laws.objects client.remote k)
  unfolding put_object
  put_object-objects key value client h = laws.put_ok client.remote key (utf8.encode value) h

  keep_position_resolves :
      (key : String) (x : R × Result Thrown ℕ) (client : OssClient R) (n : ℕ)
      → x.1 ≡ ok n
      → (keep_position oss utf8 key x client).1 ≡ ok tt
  unfolding keep_position
  keep_position_resolves key (r, ok m) client n h = refl
  keep_position_resolves key (r, err t) client n h = cc

  settle_append_resolves :
      (key : String) (value : Text) (x : R × Result Thrown ℕ) (client : OssClient R) (n : ℕ)
      → x.1 ≡ ok n
      → (settle_append oss utf8 key value x client).1 ≡ ok tt
  unfolding settle_append
  settle_append_resolves key value (r, ok m) client n h = unfold keep_position in refl
  settle_append_resolves key value (r, err t) client n h = cc

  -- What follows a refused position.
  append_refused :
      (key : String) (value : Text) (client : OssClient R)
      → or_zero (get key client.append_positions) ≢ size (laws.objects client.remote key)
      → append_object oss utf8 key value client
        ≡ append_again oss utf8 key value (oss.head client.remote key) client
  unfolding append_object settle_append
  append_refused key value client stale =
      rw (laws.append_elsewhere client.remote key (utf8.encode value) _ stale) refl

  nothing_stale :
      (objects : Option Bytes) (cached : Option ℕ)
      → ((b : Bytes) × (objects ≡ some b)) ⊎ (cached ≡ none)
      → objects ≡ none
      → (or_zero cached == size objects) ≡ false
      → ⊥
  nothing_stale objects cached (inl (b, e)) gone stale = cc
  nothing_stale (some b) cached (inr e) gone stale = cc
  nothing_stale none (some n) (inr e) gone stale = cc
  nothing_stale none none (inr e) gone stale = cc

  ahead :
      (objects : Option Bytes) (cached : Option ℕ) (p : ℕ)
      → objects ≡ none
      → cached ≡ some (suc p)
      → or_zero cached ≢ size objects
  ahead (some b) cached p gone e h = cc
  ahead none none p gone e h = cc
  ahead none (some n) p gone e h = ground arith

  append_object_resolves :
      (key : String) (value : Text) (client : OssClient R) (n : ℕ)
      → ((b : Bytes) × (laws.objects client.remote key ≡ some b))
        ⊎ (get key client.append_positions ≡ none)
      → (oss.append client.remote key (utf8.encode value) (size (laws.objects client.remote key))).1
        ≡ ok n
      → (append_object oss utf8 key value client).1 ≡ ok tt
  append_object_resolves key value client n there takes =
      let p = or_zero (get key client.append_positions) in
      elim (==-cases p (size (laws.objects client.remote key))) [
        | inl e ↦
            unfold append_object in
            settle_append_resolves key value _ client n
              (ap (λ q. (oss.append client.remote key (utf8.encode value) q).1) e ∙ takes)
        | inr stale ↦ elim (Option-cases (laws.objects client.remote key)) [
          | inl gone ↦ absurd (nothing_stale _ _ there gone stale)
          | inr (b, e) ↦
              let again : append_object oss utf8 key value client
                  ≡ append_again oss utf8 key value (ok (some (length b))) client =
                append_refused key value client (ground (arith, stale))
                ∙ ap (λ h. append_again oss utf8 key value h client)
                    (laws.head_size client.remote key b e) in
              ap (λ t. t.1) again
              ∙ unfold append_again in
                keep_position_resolves key _ client n (
                  ap (λ o. (oss.append client.remote key (utf8.encode value) (size o)).1) (sym e)
                  ∙ takes)
        ]
      ]

  -- A position that is stale does not make an append fail: where the service takes an append at the
  -- end of the object, and the object is there or nothing is cached for it, the append resolves.
  pub append_object_heals :
      (key : String) (value : Text) (client : OssClient R) (n : ℕ)
      → ((b : Bytes) × (laws.objects client.remote key ≡ some b))
        ⊎ (get key client.append_positions ≡ none)
      → (oss.append client.remote key (utf8.encode value) (size (laws.objects client.remote key))).1
        ≡ ok n
      → ((append_object oss utf8 key value client).1 ≡ ok tt)
        × Made key value client.remote (append_object oss utf8 key value client).0
  append_object_heals key value client n there takes =
      let resolved = append_object_resolves key value client n there takes in
      (resolved, append_object-Made key value client resolved)

  -- A position that is cached for an object that has gone: the append fails with the answer to the
  -- request for its size, and the position stays, so that the next append fails as well.
  pub append_object_gone :
      (key : String) (value : Text) (client : OssClient R) (p : ℕ)
      → laws.objects client.remote key ≡ none
      → get key client.append_positions ≡ some (suc p)
      → append_object oss utf8 key value client ≡ (client, err (coded "NoSuchKey"))
  append_object_gone key value client p gone cached =
      append_refused key value client (λ e. ahead _ _ p gone cached e)
      ∙ ap (λ h. append_again oss utf8 key value h client)
          (laws.head_missing client.remote key gone)
      ∙ unfold append_again in refl
