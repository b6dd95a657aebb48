-- ===== src/Dns/Cached.antt =====
-- The cached entries of a resolver, and its replies, hold addresses of their names.
use tegg.Prelude.{
  element-All, element_below, ℕ, ◌%◌, ◌<◌, ◌≡◌, ◌≢◌, sym, ◌⊎◌, inl, inr, subst, Bool-cases, String,
  Bool, true, false, [], ◌∷◌, Option, none, some, if◌then◌else◌, ==-cases, length, nat_key,
  string_key, arith, eq_iff, All, All-append, Option-cases, List-cases, nat_beq_iff,
}
use tegg.Prelude.JsMap.{JsMap, get, set, get-set}
use tegg.Dns.{
  DnsCacheRecord, LookupOptions, Reply, single, listed, fails, Task, refresh, answer, Lru, LruLaws,
  type_error, is_expired, CacheEntry, Resolver,
}
use tegg.Dns.Lookup.{
  replied, rotate, start, refresh_if_expired, reply_with, callback_with_record, lookup,
}
use tegg.Dns.Records.{mod_below, Records}

module _ {C : Type 0} (K : String → String → Type 0) (lru : Lru C) (is_ip : String → Bool) where
  abbrev pub Holds : String → Option CacheEntry → Type 0
  Holds h none = ⊥
  Holds h (some e) = Records K h e.records

  -- A reply is an address of the name, or an error, and then none that the engine threw.
  abbrev pub Replies : String × Reply → Type 0
  Replies (h, single ip family) = K h ip
  Replies (h, listed ip family) = K h ip
  Replies (h, fails message) = message ≢ type_error

  abbrev pub Cached : Resolver C → String → Option ℕ → Type 0
  Cached s h none = Unit
  Cached s h (some r) = (r < s.next) × Holds h (get r s.heap)

  pub record Sound (s : Resolver C) : Type 0 where
    pub cached : (h : String) → Cached s h (lru.read h s.cache).1
    pub replied : All Replies s.replies

  Sound-if : (b : Bool) (s t : Resolver C) → Sound s → Sound t → Sound (if b then s else t)
  Sound-if true s t i j = i
  Sound-if false s t i j = j

  pub replied-Sound :
      (s : Resolver C) (h : String) (reply : Reply)
      → Sound s
      → Replies (h, reply)
      → Sound (replied lru is_ip h reply s)
  unfolding replied
  replied-Sound s h reply i k = record {
    cached = i.cached;
    replied = All-append Replies ((h, reply) ∷ []) s.replies (k, tt) i.replied;
  }

  -- Changing an entry to one with the same records.
  Holds-set :
      (heap : JsMap ℕ CacheEntry) (ref : ℕ) (entry : CacheEntry) (n : ℕ) (h : String) (r : ℕ)
      → get ref heap ≡ some entry
      → Holds h (get r heap)
      → Holds h (get r (set ref (record entry { current_index = n }) heap))
  Holds-set heap ref entry n h r e k =
      ground (arith, get-set ref r (record entry { current_index = n }) heap, nat_beq_iff ref r)

  Cached-set :
      (s : Resolver C) (ref : ℕ) (entry : CacheEntry) (n : ℕ) (h : String) (o : Option ℕ)
      → get ref s.heap ≡ some entry
      → Cached s h o
      → Cached (record s { heap = set ref (record entry { current_index = n }) s.heap }) h o
  Cached-set s ref entry n h none e k = tt
  Cached-set s ref entry n h (some r) e k = (k.0, Holds-set s.heap ref entry n h r e k.1)

  rotated-Sound :
      (s : Resolver C) (ref : ℕ) (entry : CacheEntry) (n : ℕ)
      → get ref s.heap ≡ some entry
      → Sound s
      → Sound (record s { heap = set ref (record entry { current_index = n }) s.heap })
  rotated-Sound s ref entry n e i = record {
    cached = λ h. Cached-set s ref entry n h (lru.read h s.cache).1 e (i.cached h);
    replied = i.replied;
  }

  rotate-Sound :
      (s : Resolver C) (ref : ℕ) (entry : CacheEntry)
      → get ref s.heap ≡ some entry
      → Sound s
      → Sound (rotate lru is_ip ref entry s)
  unfolding rotate
  rotate-Sound s ref entry e i =
      Sound-if s.enable_address_rotation _ s (rotated-Sound s ref entry _ e i) i

  reply_with-Replies :
      (h : String) (options : LookupOptions) (r : DnsCacheRecord)
      → K h r.ip
      → Replies (h, reply_with lru is_ip options r)
  unfolding reply_with
  reply_with-Replies h options r k = elim (Bool-cases options.all) [
    | inl b ↦ rw b k
    | inr b ↦ rw b k
  ]

  pub callback-Sound :
      (s : Resolver C) (h : String) (ref : ℕ) (options : LookupOptions)
      → Sound s
      → Holds h (get ref s.heap)
      → Sound (callback_with_record lru is_ip h ref options s)
  unfolding callback_with_record
  callback-Sound s h ref options i k = elim (Option-cases (get ref s.heap)) [
    | inl e ↦ absurd (subst (Holds h) e k)
    | inr (entry, e) ↦
        let (below, all) = subst (Holds h) e k in
        let (current, f) =
          element_below (entry.current_index % length entry.records) entry.records
            (mod_below entry.current_index (length entry.records) below) in
        rw (e, callback_with_record, f)
          (replied-Sound (rotate lru is_ip ref entry s) h (reply_with lru is_ip options current)
            (rotate-Sound s ref entry e i)
            (reply_with-Replies h options current (element-All (λ r. K h r.ip) _ _ current f all)))
  ]

  pub Cached-either :
      (s : Resolver C) (h : String) (o o' : Option ℕ)
      → (o' ≡ o) ⊎ (o' ≡ none)
      → Cached s h o
      → Cached s h o'
  Cached-either s h o o' (inl e) k = subst (Cached s h) (sym e) k
  Cached-either s h o o' (inr e) k = subst (Cached s h) (sym e) tt

  -- Reading the cache, for whatever name, keeps what it holds or evicts it.
  pub read-Sound :
      (laws : LruLaws lru) (s : Resolver C) (h : String)
      → Sound s
      → Sound (record s { cache = (lru.read h s.cache).0 })
  read-Sound laws s h i = record {
    cached = λ j. elim (==-cases h j) [
      | inl e ↦
          subst (λ k. Cached s k (lru.read k (lru.read h s.cache).0).1) e
            (Cached-either s h _ _ (inl (laws.read_again h s.cache)) (i.cached h))
      | inr n ↦
          Cached-either s j _ _ (laws.read_other j h s.cache (ground (arith, eq_iff h j)))
            (i.cached j)
    ];
    replied = i.replied;
  }

  start-Sound : (s : Resolver C) (task : Task) → Sound s → Sound (start lru is_ip task s)
  unfolding start
  start-Sound s task i = record { cached = i.cached; replied = i.replied }

  refresh_if_expired-Sound :
      (s : Resolver C) (now : ℕ) (h : String) (first : DnsCacheRecord)
      → Sound s
      → Sound (refresh_if_expired lru is_ip now h first s)
  unfolding refresh_if_expired
  refresh_if_expired-Sound s now h first i =
      Sound-if (is_expired now first) _ s (start-Sound s (refresh h) i) i

  refresh-heap :
      (s : Resolver C) (now : ℕ) (h : String) (first : DnsCacheRecord)
      → (refresh_if_expired lru is_ip now h first s).heap ≡ s.heap
  unfolding refresh_if_expired start
  refresh-heap s now h first = ground arith

  single_or_listed :
      (h ip : String) (all : Bool) (family : ℕ)
      → K h ip
      → Replies (h, (if all then listed ip family else single ip family))
  single_or_listed h ip true family k = k
  single_or_listed h ip false family k = k

  cached-Sound :
      (s : Resolver C) (h : String) (ref : ℕ) (entry : CacheEntry) (options : LookupOptions)
      (first : DnsCacheRecord) (now : ℕ)
      → Sound s
      → get ref s.heap ≡ some entry
      → Records K h entry.records
      → Sound (
          callback_with_record lru is_ip h ref options (refresh_if_expired lru is_ip now h first s))
  cached-Sound s h ref entry options first now i e k =
      callback-Sound _ h ref options (refresh_if_expired-Sound s now h first i) (
        subst (λ heap. Holds h (get ref heap)) (sym (refresh-heap s now h first))
          (subst (Holds h) (sym e) k))

  pub lookup-Sound :
      (laws : LruLaws lru) (s : Resolver C) (h : String) (options : LookupOptions) (now : ℕ)
      → (is_ip h ≡ true → K h h)
      → Sound s
      → Sound (lookup lru is_ip h options now s)
  unfolding lookup
  lookup-Sound laws s h options now literal i = elim (Bool-cases (is_ip h)) [
    | inl b ↦
        rw (b, lookup) (replied-Sound s h _ i (single_or_listed h h options.all _ (literal b)))
    | inr b ↦ elim (Option-cases (lru.read h s.cache).1) [
      | inl e ↦ rw (b, lookup, e) (start-Sound _ (answer h options) (read-Sound laws s h i))
      | inr (ref, e) ↦
          let (_, holds) = subst (Cached s h) e (i.cached h) in
          elim (Option-cases (get ref s.heap)) [
            | inl f ↦ absurd (subst (Holds h) f holds)
            | inr (entry, f) ↦
                let records = subst (Holds h) f holds in
                elim (List-cases entry.records) [
                  | inl g ↦ absurd (ground (arith, records))
                  | inr (first, more, g) ↦
                      rw (b, lookup, e, f, g)
                        (cached-Sound (record s { cache = (lru.read h s.cache).0 }) h ref entry
                          options first now (read-Sound laws s h i) f records)
                ]
          ]
    ]
  ]
