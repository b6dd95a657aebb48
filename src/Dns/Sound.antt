-- ===== src/Dns/Sound.antt =====
-- What a resolver replies about a name is what node's dns module answered for it.
use tegg.Prelude.{
  element, ℕ, ◌≡◌, ◌≢◌, sym, inl, inr, subst, String, Bool, true, false, List, [], ◌∷◌, Option,
  none, some, Result, ok, err, ==-cases, nat_key, string_key, arith, eq_iff, All, Option-cases,
  nat_beq_iff,
}
use tegg.Prelude.JsMap.{get, get-set}
use tegg.Dns.{
  DnsResolverOptions, DnsCacheRecord, Outcome, LookupOptions, fails, Task, refresh, answer, Lru,
  LruLaws, type_error, DnsError, resolve_host, Resolver,
}
use tegg.Dns.Lookup.{
  new_resolver, store_records, cache_records, call_back, update_dns, settle, reset_cache,
  reset_cache_size, get_cache_record, Event, looks_up, settles, resets, resizes, reads, without,
  step, run,
}
use tegg.Dns.Records.{Answers, Gives, Records, bind-Gives, resolve_host-AllKnown}
use tegg.Dns.Cached.{
  Holds, Replies, Cached, Sound, replied-Sound, callback-Sound, Cached-either, read-Sound,
  lookup-Sound,
}

module _ {C : Type 0} (K : String → String → Type 0) (lru : Lru C) (is_ip : String → Bool) where
  Cached-store :
      (s : Resolver C) (h : String) (records : List DnsCacheRecord) (j : String) (o : Option ℕ)
      → Cached K lru is_ip s j o
      → Cached K lru is_ip (store_records lru is_ip h records s) j o
  unfolding store_records
  Cached-store s h records j none k = tt
  Cached-store s h records j (some r) k = ground (
    arith,
    get-set s.next r (record { records = records; current_index = 0 }) s.heap,
    nat_beq_iff s.next r,
  )

  Cached-new :
      (s : Resolver C) (h : String) (records : List DnsCacheRecord)
      → Records K h records
      → Cached K lru is_ip (store_records lru is_ip h records s) h (some s.next)
  unfolding store_records
  Cached-new s h records k = ground (
    arith,
    k,
    get-set s.next s.next (record { records = records; current_index = 0 }) s.heap,
    nat_beq_iff s.next s.next,
  )

  store-Sound :
      (laws : LruLaws lru) (s : Resolver C) (h : String) (records : List DnsCacheRecord)
      → Records K h records
      → Sound K lru is_ip s
      → Sound K lru is_ip (store_records lru is_ip h records s)
  unfolding store_records
  store-Sound laws s h records k i = record {
    cached = λ j. elim (==-cases h j) [
      | inl e ↦
          subst
            (λ m.
              Cached K lru is_ip (store_records lru is_ip h records s) m
                (lru.read m (lru.store h s.next s.cache)).1)
            e
            (Cached-either K lru is_ip (store_records lru is_ip h records s) h (some s.next) _
              (inl (laws.stored h s.next s.cache)) (Cached-new s h records k))
      | inr n ↦
          Cached-either K lru is_ip (store_records lru is_ip h records s) j _ _
            (laws.stored_other j h s.next s.cache (ground (arith, eq_iff h j)))
            (Cached-store s h records j _ (i.cached j))
    ];
    replied = i.replied;
  }

  -- What `_updateDNS` leaves and answers.
  abbrev pub Updated : String → Resolver C × Result DnsError ℕ → Type 0
  Updated h (s, ok ref) = Sound K lru is_ip s × Holds K lru is_ip h (get ref s.heap)
  Updated h (s, err e) = Sound K lru is_ip s × (e ≢ type_error)

  cache_records-Updated :
      (laws : LruLaws lru) (s : Resolver C) (h : String) (r : Result DnsError (List DnsCacheRecord))
      → Gives K h r
      → Sound K lru is_ip s
      → Updated h (cache_records lru is_ip h r s)
  unfolding cache_records
  cache_records-Updated laws s h (ok records) k i =
      (store-Sound laws s h records k i, (Cached-new s h records k).1)
  cache_records-Updated laws s h (err e) k i = (i, k)

  call_back-Sound :
      (h : String) (options : LookupOptions) (u : Resolver C × Result DnsError ℕ)
      → Updated h u
      → Sound K lru is_ip (call_back lru is_ip h options u)
  unfolding call_back
  call_back-Sound h options (s, ok ref) k = callback-Sound K lru is_ip s h ref options k.0 k.1
  call_back-Sound h options (s, err e) k = replied-Sound K lru is_ip s h (fails e) k.0 k.1

  Updated-Sound :
      (h : String) (u : Resolver C × Result DnsError ℕ) → Updated h u → Sound K lru is_ip u.0
  Updated-Sound h (s, ok ref) k = k.0
  Updated-Sound h (s, err e) k = k.0

  update_dns-Updated :
      (laws : LruLaws lru) (s : Resolver C) (h : String) (outcome : Outcome) (now : ℕ)
      → K "localhost" "127.0.0.1"
      → Answers K h outcome
      → Sound K lru is_ip s
      → Updated h (update_dns lru is_ip h outcome now s)
  unfolding update_dns
  update_dns-Updated laws s h outcome now l k i =
      cache_records-Updated laws s h _
        (bind-Gives K h s.use_resolver s.dns_cache_lookup_interval now (resolve_host h outcome)
          (resolve_host-AllKnown K h outcome l k))
        i

  settle-Sound :
      (laws : LruLaws lru) (s : Resolver C) (task : Task) (dns : String → Outcome) (now : ℕ)
      → K "localhost" "127.0.0.1"
      → ((h : String) → Answers K h (dns h))
      → Sound K lru is_ip s
      → Sound K lru is_ip (settle lru is_ip task dns now s)
  unfolding settle
  settle-Sound laws s (refresh h) dns now l k i =
      Updated-Sound h _ (update_dns-Updated laws s h (dns h) now l (k h) i)
  settle-Sound laws s (answer h options) dns now l k i =
      call_back-Sound h options _ (update_dns-Updated laws s h (dns h) now l (k h) i)

  empty-Sound :
      (s : Resolver C) (c : C)
      → ((h : String) → (lru.read h c).1 ≡ none)
      → All (Replies K lru is_ip) s.replies
      → Sound K lru is_ip (record s { cache = c })
  empty-Sound s c e k = record {
    cached = λ h. subst (Cached K lru is_ip s h) (sym (e h)) tt;
    replied = k;
  }

  get_cache_record-Sound :
      (laws : LruLaws lru) (s : Resolver C) (h : String)
      → Sound K lru is_ip s
      → Sound K lru is_ip (get_cache_record lru is_ip h s).0
  unfolding get_cache_record
  get_cache_record-Sound laws s h i = elim (Option-cases (lru.read h s.cache).1) [
    | inl e ↦ rw (get_cache_record, e) (read-Sound K lru is_ip laws s h i)
    | inr (ref, e) ↦ elim (Option-cases (get ref s.heap)) [
      | inl f ↦ rw (get_cache_record, e, f) (read-Sound K lru is_ip laws s h i)
      | inr (entry, f) ↦ rw (get_cache_record, e, f) (read-Sound K lru is_ip laws s h i)
    ]
  ]

  -- Literal addresses stand for themselves, `localhost` is 127.0.0.1, and dns answers with addresses
  -- of the name, or rejects.
  abbrev pub Known : Event → Type 0
  Known (looks_up h options now) = is_ip h ≡ true → K h h
  Known (settles index dns now) = (h : String) → Answers K h (dns h)
  Known (resets recreate) = Unit
  Known (resizes size) = Unit
  Known (reads h) = Unit

  step-Sound :
      (laws : LruLaws lru) (e : Event) (s : Resolver C)
      → K "localhost" "127.0.0.1"
      → Known e
      → Sound K lru is_ip s
      → Sound K lru is_ip (step lru is_ip e s)
  unfolding step reset_cache reset_cache_size
  step-Sound laws (looks_up h options now) s l k i =
      lookup-Sound K lru is_ip laws s h options now k i
  step-Sound laws (settles index dns now) s l k i = elim (Option-cases (element index s.pending)) [
    | inl e ↦ rw (e, step) i
    | inr (task, e) ↦
        rw (e, step)
          (settle-Sound laws (record s { pending = without index s.pending }) task dns now l k
            (record { cached = i.cached; replied = i.replied }))
  ]
  step-Sound laws (resets true) s l k i = empty-Sound s _ (laws.created s.max_cache_size) i.replied
  step-Sound laws (resets false) s l k i = empty-Sound s _ (λ h. laws.emptied h s.cache) i.replied
  step-Sound laws (resizes size) s l k i =
      empty-Sound (record s { max_cache_size = size }) _ (laws.created size) i.replied
  step-Sound laws (reads h) s l k i = get_cache_record-Sound laws s h i

  run-Sound :
      (laws : LruLaws lru) (es : List Event) (s : Resolver C)
      → K "localhost" "127.0.0.1"
      → All Known es
      → Sound K lru is_ip s
      → Sound K lru is_ip (run lru is_ip es s)
  unfolding run
  run-Sound laws [] s l k i = i
  run-Sound laws (e ∷ es) s l k i =
      run-Sound laws es (step lru is_ip e s) l k.1 (step-Sound laws e s l k.0 i)

  new_resolver-Sound :
      (laws : LruLaws lru) (options : DnsResolverOptions)
      → Sound K lru is_ip (new_resolver lru is_ip options)
  unfolding new_resolver
  new_resolver-Sound laws options = record {
    cached = λ h.
        subst (Cached K lru is_ip (new_resolver lru is_ip options) h) (sym (laws.created _ h)) tt;
    replied = tt;
  }

  -- With a cache that keeps its laws, and answers of dns that are addresses of the names asked for,
  -- every reply of a new resolver about a name, whatever happens, is an address of that name or an
  -- error that is not the engine's: no entry is empty and no index is out of range.
  pub run-Replies :
      (laws : LruLaws lru) (options : DnsResolverOptions) (es : List Event)
      → K "localhost" "127.0.0.1"
      → All Known es
      → All (Replies K lru is_ip) (run lru is_ip es (new_resolver lru is_ip options)).replies
  run-Replies laws options es l k =
      (run-Sound laws es _ l k (new_resolver-Sound laws options)).replied
