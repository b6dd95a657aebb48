-- ===== src/Dns/Lookup.antt =====
-- plugin/dns-cache/lib/DnsResolver.ts: the operations of a resolver.
use tegg.Prelude.{
  element, ℕ, zero, suc, ◌+◌, ◌%◌, String, Bool, true, false, List, [], ◌∷◌, ◌++◌, Option, none,
  some, ◌>>=◌, Result, ok, err, if◌then◌else◌, length, nat_key, string_key,
}
use tegg.Prelude.JsMap.{get, set}
use tegg.Dns.{
  DnsError, DnsResolverOptions, DnsCacheRecord, CacheEntry, Outcome, LookupOptions, Reply, single,
  listed, fails, Task, refresh, answer, Resolver, Lru, or_number, given_number, type_error,
  resolve_host, fresh_records, is_expired,
}

module _ {C : Type 0} (lru : Lru C) (is_ip : String → Bool) where
  unfoldable pub replied : String → Reply → Resolver C → Resolver C
  replied hostname reply s = record s { replies = s.replies ++ (hostname, reply) ∷ [] }

  -- The constructor.
  unfoldable pub new_resolver : DnsResolverOptions → Resolver C
  new_resolver options =
      let size = given_number options.max 1000 in
      record {
        cache = lru.create size;
        heap = [];
        next = 0;
        pending = [];
        replies = [];
        max_cache_size = size;
        use_resolver = elim options.use_resolver [ none ↦ false | some b ↦ b ];
        dns_cache_lookup_interval = given_number options.dns_cache_lookup_interval 10000;
        enable_address_rotation = elim options.address_rotation [ none ↦ true | some b ↦ b ];
      }

  unfoldable pub rotate : ℕ → CacheEntry → Resolver C → Resolver C
  rotate ref entry s =
      if s.enable_address_rotation
      then record s {
        heap =
            set ref
              (record entry { current_index = (entry.current_index + 1) % length entry.records })
              s.heap;
      }
      else s

  unfoldable pub reply_with : LookupOptions → DnsCacheRecord → Reply
  reply_with options r =
      if options.all then listed r.ip (or_number r.family 4) else single r.ip (or_number r.family 4)

  unfoldable pub callback_with_record : String → ℕ → LookupOptions → Resolver C → Resolver C
  unfolding replied rotate reply_with
  callback_with_record hostname ref options s = elim (get ref s.heap) [
    | none ↦ replied hostname (fails type_error) s
    | some entry ↦ elim (element (entry.current_index % length entry.records) entry.records) [
      | none ↦ replied hostname (fails type_error) s
      | some current ↦ replied hostname (reply_with options current) (rotate ref entry s)
    ]
  ]

  unfoldable pub start : Task → Resolver C → Resolver C
  start task s = record s { pending = s.pending ++ task ∷ [] }

  unfoldable pub refresh_if_expired : ℕ → String → DnsCacheRecord → Resolver C → Resolver C
  unfolding start is_expired
  refresh_if_expired now hostname first s =
      if is_expired now first then start (refresh hostname) s else s

  -- A call of the function that `getLookupFunction` gives.
  unfoldable pub lookup : String → LookupOptions → (now : ℕ) → Resolver C → Resolver C
  unfolding callback_with_record refresh_if_expired replied start
  lookup hostname options now s =
      if is_ip hostname
      then replied hostname
          (if options.all
            then listed hostname (given_number options.family 4)
            else single hostname (given_number options.family 4))
          s
      else (let (cache, found) = lru.read hostname s.cache in
          let s = record s { cache = cache } in
          elim found [
            | none ↦ start (answer hostname options) s
            | some ref ↦ elim (get ref s.heap) [
              | none ↦ replied hostname (fails type_error) s
              | some entry ↦ elim entry.records [
                | [] ↦ replied hostname (fails type_error) s
                | first ∷ _ ↦
                    callback_with_record hostname ref options
                      (refresh_if_expired now hostname first s)
              ]
            ]
          ])

  -- The new entry of `_updateDNS`, put into the cache.
  unfoldable pub store_records : String → List DnsCacheRecord → Resolver C → Resolver C
  store_records hostname records s = record s {
    cache = lru.store hostname s.next s.cache;
    heap = set s.next (record { records = records; current_index = 0 }) s.heap;
    next = suc s.next;
  }

  unfoldable pub cache_records :
      String → Result DnsError (List DnsCacheRecord) → Resolver C → Resolver C × Result DnsError ℕ
  unfolding store_records
  cache_records hostname (ok records) s = (store_records hostname records s, ok s.next)
  cache_records hostname (err e) s = (s, err e)

  -- `_updateDNS`, from the answer of node's dns module on.
  unfoldable pub update_dns :
      String → Outcome → (now : ℕ) → Resolver C → Resolver C × Result DnsError ℕ
  unfolding resolve_host fresh_records cache_records
  update_dns hostname outcome now s =
      cache_records hostname
        (resolve_host hostname outcome
          >>= fresh_records s.use_resolver s.dns_cache_lookup_interval now hostname)
        s

  -- The two ends of the promise that a lookup waits for.
  unfoldable pub call_back : String → LookupOptions → Resolver C × Result DnsError ℕ → Resolver C
  unfolding callback_with_record replied
  call_back hostname options (s, ok ref) = callback_with_record hostname ref options s
  call_back hostname options (s, err e) = replied hostname (fails e) s

  -- What the promise of `_updateDNS` leads to.
  unfoldable pub settle : Task → (String → Outcome) → (now : ℕ) → Resolver C → Resolver C
  unfolding update_dns call_back
  settle (refresh hostname) dns now s = (update_dns hostname (dns hostname) now s).0
  settle (answer hostname options) dns now s =
      call_back hostname options (update_dns hostname (dns hostname) now s)

  -- `resetCache`
  unfoldable pub reset_cache : Bool → Resolver C → Resolver C
  reset_cache recreate s = record s {
    cache = if recreate then lru.create s.max_cache_size else lru.reset s.cache;
  }

  -- `resetCacheSize`
  unfoldable pub reset_cache_size : ℕ → Resolver C → Resolver C
  unfolding reset_cache
  reset_cache_size size s = reset_cache true (record s { max_cache_size = size })

  -- `getCacheRecord`
  unfoldable pub get_cache_record : String → Resolver C → Resolver C × Option DnsCacheRecord
  get_cache_record hostname s =
      let (cache, found) = lru.read hostname s.cache in
      let s = record s { cache = cache } in
      elim found [
        | none ↦ (s, none)
        | some ref ↦ elim (get ref s.heap) [
          | none ↦ (s, none)
          | some entry ↦ (s, element (entry.current_index % length entry.records) entry.records)
        ]
      ]

-- What happens to a resolver; the index of a settled task counts the pending ones, and `dns` is what
-- node's dns module answers for each name.
pub data Event : Type 0 where
  looks_up : String → LookupOptions → (now : ℕ) → Event
  settles : (index : ℕ) → (dns : String → Outcome) → (now : ℕ) → Event
  resets : (recreate : Bool) → Event
  resizes : (size : ℕ) → Event
  reads : String → Event

unfoldable pub without {ℓ} : {A : Type ℓ} → ℕ → List A → List A
without n [] = []
without zero (x ∷ xs) = xs
without (suc n) (x ∷ xs) = x ∷ without n xs

module _ {C : Type 0} (lru : Lru C) (is_ip : String → Bool) where
  unfoldable pub step : Event → Resolver C → Resolver C
  unfolding lookup settle reset_cache_size reset_cache get_cache_record without
  step (looks_up hostname options now) s = lookup lru is_ip hostname options now s
  step (settles i dns now) s = elim (element i s.pending) [
    | none ↦ s
    | some task ↦ settle lru is_ip task dns now (record s { pending = without i s.pending })
  ]
  step (resets recreate) s = reset_cache lru is_ip recreate s
  step (resizes size) s = reset_cache_size lru is_ip size s
  step (reads hostname) s = (get_cache_record lru is_ip hostname s).0

  unfoldable pub run : List Event → Resolver C → Resolver C
  unfolding step
  run [] s = s
  run (e ∷ es) s = run es (step e s)
