-- ===== src/Dns/Rotation.antt =====
-- Lookups in a row go round the addresses of a cached name.
use tegg.Prelude.{
  element_below, element, ℕ, ◌+◌, ◌%◌, ◌<◌, ◌≡◌, refl, sym, ap, if◌then◌else◌, ◌∙◌, subst, String,
  Bool, true, false, List, [], ◌∷◌, ◌++◌, append_assoc, append-nil, none, some, length, map,
  nat_key, arith, nat_beq_iff,
}
use native.Mathlib.Nat.{mod-mod, mod-add-mod}
use tegg.Prelude.JsMap.{JsMap, get, set, get-set}
use tegg.Dns.{
  DnsCacheRecord, CacheEntry, LookupOptions, Reply, fails, refresh, is_expired, Lru, LruLaws,
  type_error, Resolver,
}
use tegg.Dns.Lookup.{
  callback_with_record, lookup, replied, rotate, start, refresh_if_expired, reply_with, looks_up,
  step, run,
}
use tegg.Dns.Records.{mod_below}

if_true {ℓ} : {A : Type ℓ} (b : Bool) (x y : A) → b ≡ true → (if b then x else y) ≡ x
if_true true x y h = refl
if_true false x y h = cc

rotated-entry :
    (ref : ℕ) (heap : JsMap ℕ CacheEntry) (e : CacheEntry) → get ref (set ref e heap) ≡ some e
rotated-entry ref heap e = ground (arith, get-set ref ref e heap, nat_beq_iff ref ref)

module _ {C : Type 0} (lru : Lru C) (is_ip : String → Bool) where
  -- The reply with the record at a place, counted round the records.
  abbrev pub turn : LookupOptions → List DnsCacheRecord → ℕ → Reply
  turn options records i = elim (element (i % length records) records) [
    | none ↦ fails type_error
    | some r ↦ reply_with lru is_ip options r
  ]

  -- The replies of lookups in a row, from a place on.
  abbrev pub turns :
      String → LookupOptions → List DnsCacheRecord → ℕ → List ℕ → List (String × Reply)
  turns h options records i [] = []
  turns h options records i (now ∷ nows) =
      (h, turn options records i) ∷ turns h options records (i + 1) nows

  -- The name is cached, and the next lookup uses the record at `i`, counted round.
  pub record Serves (h : String) (ref : ℕ) (records : List DnsCacheRecord) (i : ℕ) (s : Resolver C)
      : Type 0 where
    pub found : (lru.read h s.cache).1 ≡ some ref
    pub index : ℕ
    pub entry : get ref s.heap ≡ some (record { records = records; current_index = index })
    pub agrees : index % length records ≡ i % length records
    pub rotates : s.enable_address_rotation ≡ true

  start-Serves :
      (s : Resolver C) (h : String) (ref : ℕ) (records : List DnsCacheRecord) (i : ℕ)
      → Serves h ref records i s
      → Serves h ref records i (start lru is_ip (refresh h) s)
        × ((start lru is_ip (refresh h) s).replies ≡ s.replies)
  unfolding start
  start-Serves s h ref records i v = (
    record {
      found = v.found;
      index = v.index;
      entry = v.entry;
      agrees = v.agrees;
      rotates = v.rotates;
    },
    refl,
  )

  Serves-if :
      (b : Bool) (h : String) (ref : ℕ) (records : List DnsCacheRecord) (i : ℕ) (t s : Resolver C)
      → Serves h ref records i t × (t.replies ≡ s.replies)
      → Serves h ref records i s × (s.replies ≡ s.replies)
      → Serves h ref records i (if b then t else s) × ((if b then t else s).replies ≡ s.replies)
  Serves-if true h ref records i t s k l = k
  Serves-if false h ref records i t s k l = l

  refresh-Serves :
      (s : Resolver C) (h : String) (ref : ℕ) (records : List DnsCacheRecord) (i now : ℕ)
      (first : DnsCacheRecord)
      → Serves h ref records i s
      → Serves h ref records i (refresh_if_expired lru is_ip now h first s)
        × ((refresh_if_expired lru is_ip now h first s).replies ≡ s.replies)
  unfolding refresh_if_expired
  refresh-Serves s h ref records i now first v =
      Serves-if (is_expired now first) h ref records i _ s (start-Serves s h ref records i v)
        (v, refl)

  rotate-heap :
      (s : Resolver C) (ref : ℕ) (e : CacheEntry)
      → s.enable_address_rotation ≡ true
      → rotate lru is_ip ref e s ≡ record s {
        heap =
            set ref (record e { current_index = (e.current_index + 1) % length e.records }) s.heap;
      }
  unfolding rotate
  rotate-heap s ref e b = if_true s.enable_address_rotation _ s b

  callback-replied :
      (s : Resolver C) (h : String) (ref : ℕ) (options : LookupOptions) (e : CacheEntry)
      (x : DnsCacheRecord)
      → get ref s.heap ≡ some e
      → element (e.current_index % length e.records) e.records ≡ some x
      → callback_with_record lru is_ip h ref options s
        ≡ replied lru is_ip h (reply_with lru is_ip options x) (rotate lru is_ip ref e s)
  unfolding callback_with_record
  callback-replied s h ref options e x f g = rw (callback_with_record, f, g) refl

  next-place : (index i k : ℕ) → index % k ≡ i % k → (index + 1) % k % k ≡ (i + 1) % k
  next-place index i k e =
      mod-mod (index + 1) k
      ∙ sym (mod-add-mod index k 1)
      ∙ ap (λ m. (m + 1) % k) e
      ∙ mod-add-mod i k 1

  callback-turn :
      (s : Resolver C) (h : String) (ref : ℕ) (records : List DnsCacheRecord) (i : ℕ)
      (options : LookupOptions)
      → 0 < length records
      → Serves h ref records i s
      → Serves h ref records (i + 1) (callback_with_record lru is_ip h ref options s)
        × ((callback_with_record lru is_ip h ref options s).replies
            ≡ s.replies ++ (h, turn options records i) ∷ [])
  unfolding replied
  callback-turn s h ref records i options below v =
      let entry : CacheEntry = record { records = records; current_index = v.index } in
      let (x, e) =
        element_below (i % length records) records (mod_below i (length records) below) in
      subst
        (λ t.
          Serves h ref records (i + 1) t
          × (t.replies ≡ s.replies ++ (h, turn options records i) ∷ []))
        (sym (
          callback-replied s h ref options entry x v.entry (rw v.agrees e)
          ∙ ap (replied lru is_ip h (reply_with lru is_ip options x))
              (rotate-heap s ref entry v.rotates)))
        (
          record {
            found = v.found;
            index = (v.index + 1) % length records;
            entry =
                rotated-entry ref s.heap
                  (record entry { current_index = (v.index + 1) % length records });
            agrees = next-place v.index i (length records) v.agrees;
            rotates = v.rotates;
          },
          rw (turn, e) refl,
        )

  lookup-cached :
      (s : Resolver C) (h : String) (ref index now : ℕ) (options : LookupOptions)
      (first : DnsCacheRecord) (more : List DnsCacheRecord)
      → is_ip h ≡ false
      → (lru.read h s.cache).1 ≡ some ref
      → get ref s.heap ≡ some (record { records = first ∷ more; current_index = index })
      → lookup lru is_ip h options now s
        ≡ callback_with_record lru is_ip h ref options
            (refresh_if_expired lru is_ip now h first (record s { cache = (lru.read h s.cache).0 }))
  unfolding lookup
  lookup-cached s h ref index now options first more b f g = rw (lookup, b, f, g) refl

  lookup-turn :
      (laws : LruLaws lru) (s : Resolver C) (h : String) (ref : ℕ) (records : List DnsCacheRecord)
      (i : ℕ) (options : LookupOptions) (now : ℕ)
      → is_ip h ≡ false
      → 0 < length records
      → Serves h ref records i s
      → Serves h ref records (i + 1) (lookup lru is_ip h options now s)
        × ((lookup lru is_ip h options now s).replies
            ≡ s.replies ++ (h, turn options records i) ∷ [])
  lookup-turn laws s h ref [] i options now b below v = absurd (omega arith)
  lookup-turn laws s h ref (first ∷ more) i options now b below v =
      let (served, same) =
        refresh-Serves (record s { cache = (lru.read h s.cache).0 }) h ref (first ∷ more) i now
          first
          (record {
            found = laws.read_again h s.cache ∙ v.found;
            index = v.index;
            entry = v.entry;
            agrees = v.agrees;
            rotates = v.rotates;
          }) in
      let (turned, replies) = callback-turn _ h ref (first ∷ more) i options below served in
      subst
        (λ t.
          Serves h ref (first ∷ more) (i + 1) t
          × (t.replies ≡ s.replies ++ (h, turn options (first ∷ more) i) ∷ []))
        (sym (lookup-cached s h ref v.index now options first more b v.found v.entry))
        (turned, replies ∙ ap (λ r. r ++ (h, turn options (first ∷ more) i) ∷ []) same)

  -- With a cache that keeps its laws and addressRotation on, lookups in a row of a cached name that is
  -- no literal address, at whatever times, are answered by its records in turn, round and round from
  -- the entry's index on, though some of the lookups start a refresh.
  pub run-turns :
      (laws : LruLaws lru) (nows : List ℕ) (s : Resolver C) (h : String) (ref : ℕ)
      (records : List DnsCacheRecord) (i : ℕ) (options : LookupOptions)
      → is_ip h ≡ false
      → 0 < length records
      → Serves h ref records i s
      → (run lru is_ip (map (looks_up h options) nows) s).replies
        ≡ s.replies ++ turns h options records i nows
  unfolding run step
  run-turns laws [] s h ref records i options b below v = sym (append-nil s.replies)
  run-turns laws (now ∷ nows) s h ref records i options b below v =
      let (served, replies) = lookup-turn laws s h ref records i options now b below v in
      run-turns laws nows _ h ref records (i + 1) options b below served
      ∙ ap (λ r. r ++ turns h options records (i + 1) nows) replies
      ∙ append_assoc s.replies _ _
