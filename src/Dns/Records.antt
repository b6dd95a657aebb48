-- ===== src/Dns/Records.antt =====
-- The records that a resolution gives: at least one, and all of the name.
use tegg.Prelude.{
  ℕ, suc, ◌%◌, ◌<◌, ◌≡◌, ◌≢◌, refl, sym, subst, String, Bool, true, false, List, [], ◌∷◌, ◌>>=◌,
  Result, ok, err, if◌then◌else◌, ◌==◌, length, nat_key, string_key, arith, eq_iff, All,
}
use tegg.Dns.{
  DnsCacheRecord, Address, Outcome, resolves, rejects, type_error, empty_address, dns_error,
  DnsError, resolve_host, lookup_records, resolve_records, fresh_records,
}

pub mod_below : (n k : ℕ) → 0 < k → n % k < k
mod_below n k h = omega arith

module _ (K : String → String → Type 0) where
  -- The records of an entry, whose addresses are all the name's.
  abbrev pub Records : String → List DnsCacheRecord → Type 0
  Records h records = (0 < length records) × All (λ r. K h r.ip) records

  -- What is asked of the answers of node's dns module.
  abbrev pub Answers : String → Outcome → Type 0
  Answers h (resolves addresses) = All (λ a. K h a.address) addresses
  Answers h (rejects message) = Unit

  -- What a resolution gives: records of the name, or an error.
  abbrev pub Gives : String → Result DnsError (List DnsCacheRecord) → Type 0
  Gives h (ok records) = Records h records
  Gives h (err e) = e ≢ type_error

  lookup_records-All :
      (h : String) (interval now index : ℕ) (addresses : List Address)
      → All (λ a. K h a.address) addresses
      → All (λ r. K h r.ip) (lookup_records interval now index addresses)
  unfolding lookup_records
  lookup_records-All h interval now index [] k = tt
  lookup_records-All h interval now index (a ∷ rest) k =
      (k.0, lookup_records-All h interval now (suc index) rest k.1)

  resolve_records-All :
      (h : String) (now index : ℕ) (addresses : List Address)
      → All (λ a. K h a.address) addresses
      → All (λ r. K h r.ip) (resolve_records now index addresses)
  unfolding resolve_records
  resolve_records-All h now index [] k = tt
  resolve_records-All h now index (a ∷ rest) k =
      (k.0, resolve_records-All h now (suc index) rest k.1)

  not_type_error : (h : String) → empty_address h ≢ type_error
  not_type_error h = ground arith

  Gives-if :
      (b : Bool) (h : String) (x y : Result DnsError (List DnsCacheRecord))
      → Gives h x
      → Gives h y
      → Gives h (if b then x else y)
  Gives-if true h x y i j = i
  Gives-if false h x y i j = j

  fresh_records-Gives :
      (use_resolver : Bool) (interval now : ℕ) (h : String) (addresses : List Address)
      → All (λ a. K h a.address) addresses
      → Gives h (fresh_records use_resolver interval now h addresses)
  unfolding fresh_records resolve_records lookup_records
  fresh_records-Gives true interval now h [] k = not_type_error h
  fresh_records-Gives true interval now h (a ∷ rest) k =
      Gives-if (a.address == "") h _ _ (not_type_error h)
        (omega arith, resolve_records-All h now 0 (a ∷ rest) k)
  fresh_records-Gives false interval now h [] k = not_type_error h
  fresh_records-Gives false interval now h (a ∷ rest) k =
      (omega arith, lookup_records-All h interval now 0 (a ∷ rest) k)

  abbrev pub AllKnown : String → Result DnsError (List Address) → Type 0
  AllKnown h (ok addresses) = All (λ a. K h a.address) addresses
  AllKnown h (err e) = e ≢ type_error

  AllKnown-if :
      (b : Bool) (h : String) (x y : Result DnsError (List Address))
      → (b ≡ true → AllKnown h x)
      → AllKnown h y
      → AllKnown h (if b then x else y)
  AllKnown-if true h x y i j = i refl
  AllKnown-if false h x y i j = j

  pub resolve_host-AllKnown :
      (h : String) (outcome : Outcome)
      → K "localhost" "127.0.0.1"
      → Answers h outcome
      → AllKnown h (resolve_host h outcome)
  unfolding resolve_host
  resolve_host-AllKnown h (resolves addresses) l k =
      AllKnown-if (h == "localhost") h _ (ok addresses)
        (λ e. (subst (λ j. K j "127.0.0.1") (sym (ground (arith, eq_iff h "localhost"))) l, tt)) k
  resolve_host-AllKnown h (rejects message) l k =
      AllKnown-if (h == "localhost") h _ (err (dns_error message))
        (λ e. (subst (λ j. K j "127.0.0.1") (sym (ground (arith, eq_iff h "localhost"))) l, tt))
        (ground arith)

  pub bind-Gives :
      (h : String) (use_resolver : Bool) (interval now : ℕ) (r : Result DnsError (List Address))
      → AllKnown h r
      → Gives h (r >>= fresh_records use_resolver interval now h)
  bind-Gives h use_resolver interval now (ok addresses) k =
      fresh_records-Gives use_resolver interval now h addresses k
  bind-Gives h use_resolver interval now (err e) k = k
