-- ===== src/Dns/Tests.antt =====
-- A resolver with an unbounded cache, and the names of one site.
use tegg.Prelude.{
  ℕ, ◌<◌, ◌≡◌, refl, ◌⊎◌, inl, String, Bool, false, List, [], ◌∷◌, ◌++◌, none, ◌==◌, string_key,
  All, arith, eq_iff, map, length,
}
use tegg.Prelude.JsMap.{JsMap, get, set, get-set}
use tegg.Dns.{
  DnsResolverOptions, DnsCacheRecord, Address, Outcome, resolves, LookupOptions, single, Lru,
  LruLaws, Resolver, resolve_host, lookup_records, resolve_records, fresh_records, is_expired,
}
use tegg.Dns.Lookup.{
  new_resolver, looks_up, settles, Event, step, run, lookup, settle, callback_with_record, replied,
  rotate, start, refresh_if_expired, reply_with, store_records, cache_records, update_dns,
  call_back, without,
}
use tegg.Dns.Cached.{Replies}
use tegg.Dns.Sound.{Known, run-Replies}
use tegg.Dns.Rotation.{Serves, turns, run-turns}

resolves_names : Unit {0}
unfolding get set resolve_host lookup_records resolve_records fresh_records is_expired new_resolver
    step run lookup settle callback_with_record replied rotate start refresh_if_expired reply_with
    store_records cache_records update_dns call_back without
resolves_names = tt

abbrev unbounded : Lru (JsMap String ℕ)
unbounded = record { create = λ n. []; read = λ k c. (c, get k c); store = set; reset = λ c. [] }

unbounded-LruLaws : LruLaws unbounded
unfolding get
unbounded-LruLaws = record {
  created = λ n k. refl;
  emptied = λ k c. refl;
  read_again = λ k c. refl;
  read_other = λ k j c ne. inl refl;
  stored = λ k r c. ground (arith, get-set k k r c, eq_iff k k);
  stored_other = λ k j r c ne. ground (arith, get-set j k r c, eq_iff j k);
}

abbrev loopback : String → Bool
loopback hostname = hostname == "127.0.0.1"

abbrev OfSite : String → String → Type 0
OfSite hostname ip = (ip ≡ "127.0.0.1") ⊎ (ip ≡ "10.0.0.1") ⊎ (ip ≡ "10.0.0.2")

abbrev at_ip : String → Address
at_ip ip = record { address = ip; family = none; ttl = none }

abbrev site : String → Outcome
site hostname = resolves (at_ip "10.0.0.1" ∷ at_ip "10.0.0.2" ∷ [])

abbrev defaults : DnsResolverOptions
defaults = record {
  use_resolver = none;
  max = none;
  dns_cache_lookup_interval = none;
  address_rotation = none;
}

abbrev any_family : LookupOptions
any_family = record { family = none; all = false }

abbrev visit : List Event
visit =
    looks_up "a.com" any_family 5
    ∷ settles 0 site 7
    ∷ looks_up "a.com" any_family 9
    ∷ looks_up "127.0.0.1" any_family 9
    ∷ []

abbrev visited : Resolver (JsMap String ℕ)
visited = run unbounded loopback visit (new_resolver unbounded loopback defaults)

visited_replies :
    visited.replies
    ≡ ("a.com", single "10.0.0.1" 4)
      ∷ ("a.com", single "10.0.0.2" 4)
      ∷ ("127.0.0.1", single "127.0.0.1" 4)
      ∷ []
unfolding resolves_names
visited_replies = refl

visit-Known : All (Known OfSite unbounded loopback) visit
visit-Known = ground (arith, eq_iff "127.0.0.1" "127.0.0.1", eq_iff "a.com" "127.0.0.1")

run-Replies_example : All (Replies OfSite unbounded loopback) visited.replies
run-Replies_example =
    run-Replies OfSite unbounded loopback unbounded-LruLaws defaults visit (inl refl) visit-Known

abbrev both : List DnsCacheRecord
both = lookup_records 10000 7 0 (at_ip "10.0.0.1" ∷ at_ip "10.0.0.2" ∷ [])

visited-Serves : Serves unbounded loopback "a.com" 0 both 0 visited
unfolding resolves_names
visited-Serves = record { found = refl; index = 0; entry = refl; agrees = refl; rotates = refl }

two_records : 0 < length both
unfolding lookup_records
two_records = omega arith

run-turns_example :
    (run unbounded loopback
      (map (looks_up "a.com" any_family) (11 ∷ 20000 ∷ 20001 ∷ []))
      visited).replies
    ≡ visited.replies
      ++ turns unbounded loopback "a.com" any_family both 0 (11 ∷ 20000 ∷ 20001 ∷ [])
run-turns_example =
    run-turns unbounded loopback unbounded-LruLaws (11 ∷ 20000 ∷ 20001 ∷ []) visited "a.com" 0 both
      0 any_family refl two_records visited-Serves
