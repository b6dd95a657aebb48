-- ===== src/Dns.antt =====
-- plugin/dns-cache/lib/DnsResolver.ts: the DNS cache, its refreshes and the rotation of addresses.
-- The cache of `ylru` holds references to entries, which the resolver changes in place; the cache,
-- the answers of node's dns module and the test `IP_REGEX` are parameters.
pub mod Lookup
pub mod Records
pub mod Cached
pub mod Sound
pub mod Rotation
pub mod Tests
use tegg.Prelude.{
  ℕ, zero, suc, ◌+◌, ◌*◌, ◌/◌, ◌%◌, ◌≡◌, ◌≢◌, ◌⊎◌, String, Bool, true, false, not, List, [], ◌∷◌,
  ◌++◌, Option, none, some, Result, ok, err, if◌then◌else◌, ◌==◌, leb, length, nat_key, string_key,
}
use tegg.Prelude.JsMap.{JsMap, get, set}

pub record DnsResolverOptions : Type 0 where
  pub use_resolver : Option Bool
  pub max : Option ℕ
  pub dns_cache_lookup_interval : Option ℕ
  pub address_rotation : Option Bool

pub record DnsCacheRecord : Type 0 where
  pub ip : String
  pub family : ℕ
  pub ttl : ℕ
  pub timestamp : ℕ
  pub index : ℕ

pub record CacheEntry : Type 0 where
  pub records : List DnsCacheRecord
  pub current_index : ℕ

-- An address of `dns.lookup` or `resolve4`; a `ttl` that is no natural number is `none`.
pub record Address : Type 0 where
  pub address : String
  pub family : Option ℕ
  pub ttl : Option ℕ

pub data Outcome : Type 0 where
  resolves : List Address → Outcome
  rejects : String → Outcome

-- `LookupOneOptions`, after the three signatures of the lookup function are brought to one.
pub record LookupOptions : Type 0 where
  pub family : Option ℕ
  pub all : Bool

-- `type_error` is what the engine throws for a property of `undefined`.
pub data DnsError : Type 0 where
  empty_address : (hostname : String) → DnsError
  dns_error : (message : String) → DnsError
  type_error : DnsError

-- What the callback is given: one address, a list of one, or an error.
pub data Reply : Type 0 where
  single : String → ℕ → Reply
  listed : String → ℕ → Reply
  fails : DnsError → Reply

-- A running `_updateDNS`, in the background or with a callback that waits.
pub data Task : Type 0 where
  refresh : String → Task
  answer : String → LookupOptions → Task

pub record Resolver (C : Type 0) : Type 0 where
  pub cache : C
  pub heap : JsMap ℕ CacheEntry
  pub next : ℕ
  pub pending : List Task
  pub replies : List (String × Reply)
  pub max_cache_size : ℕ
  pub use_resolver : Bool
  pub dns_cache_lookup_interval : ℕ
  pub enable_address_rotation : Bool

-- `ylru`: reading moves the key that was read, and may evict another.
pub record Lru (C : Type 0) : Type 0 where
  pub create : ℕ → C
  pub read : String → C → C × Option ℕ
  pub store : String → ℕ → C → C
  pub reset : C → C

pub record LruLaws {C : Type 0} (lru : Lru C) : Type 0 where
  pub created : (n : ℕ) (k : String) → (lru.read k (lru.create n)).1 ≡ none
  pub emptied : (k : String) (c : C) → (lru.read k (lru.reset c)).1 ≡ none
  pub read_again : (k : String) (c : C) → (lru.read k (lru.read k c).0).1 ≡ (lru.read k c).1
  pub read_other :
      (k j : String) (c : C)
      → j ≢ k
      → ((lru.read k (lru.read j c).0).1 ≡ (lru.read k c).1)
        ⊎ ((lru.read k (lru.read j c).0).1 ≡ none)
  pub stored : (k : String) (r : ℕ) (c : C) → (lru.read k (lru.store k r c)).1 ≡ some r
  pub stored_other :
      (k j : String) (r : ℕ) (c : C)
      → j ≢ k
      → ((lru.read k (lru.store j r c)).1 ≡ (lru.read k c).1)
        ⊎ ((lru.read k (lru.store j r c)).1 ≡ none)

-- `a || b` on numbers.
abbrev pub or_number : ℕ → ℕ → ℕ
or_number a b = if a == 0 then b else a

abbrev pub given_number : Option ℕ → ℕ → ℕ
given_number none b = b
given_number (some a) b = or_number a b

abbrev localhost_address : Address
localhost_address = record { address = "127.0.0.1"; family = some 4; ttl = some 9007199254740 }

abbrev outcome_result : Outcome → Result DnsError (List Address)
outcome_result (resolves addresses) = ok addresses
outcome_result (rejects message) = err (dns_error message)

-- `lookup` and `resolve4`
unfoldable pub resolve_host : String → Outcome → Result DnsError (List Address)
resolve_host hostname outcome =
    if hostname == "localhost" then ok (localhost_address ∷ []) else outcome_result outcome

unfoldable pub lookup_records : (interval now index : ℕ) → List Address → List DnsCacheRecord
lookup_records interval now index [] = []
lookup_records interval now index (a ∷ rest) =
    record {
      ip = a.address;
      family = given_number a.family 4;
      ttl = interval;
      timestamp = now;
      index = index;
    }
    ∷ lookup_records interval now (suc index) rest

abbrev ttl_seconds : Option ℕ → ℕ
ttl_seconds none = 0
ttl_seconds (some ttl) = ttl

unfoldable pub resolve_records : (now index : ℕ) → List Address → List DnsCacheRecord
resolve_records now index [] = []
resolve_records now index (a ∷ rest) =
    record {
      ip = a.address;
      family = 4;
      ttl = ttl_seconds a.ttl * 1000;
      timestamp = now;
      index = index;
    }
    ∷ resolve_records now (suc index) rest

-- The records of a resolution, or the error that it throws.
unfoldable pub fresh_records :
    (use_resolver : Bool) (interval now : ℕ) (hostname : String)
    → List Address
    → Result DnsError (List DnsCacheRecord)
unfolding lookup_records resolve_records
fresh_records true interval now hostname [] = err (empty_address hostname)
fresh_records true interval now hostname (a ∷ rest) =
    if a.address == "" then err (empty_address hostname) else ok (resolve_records now 0 (a ∷ rest))
fresh_records false interval now hostname [] = err (empty_address hostname)
fresh_records false interval now hostname (a ∷ rest) = ok (lookup_records interval now 0 (a ∷ rest))

-- `now - timestamp >= ttl` of the first record; a missing timestamp is now.
unfoldable pub is_expired : ℕ → DnsCacheRecord → Bool
is_expired now first = leb (or_number first.timestamp now + first.ttl) now
