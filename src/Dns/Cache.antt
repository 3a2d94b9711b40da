-- ===== src/Dns/Cache.antt =====
-- dns.rs: the cache of a network stack. Instants and durations
-- are in nanoseconds.
use warp_socks.Prelude.{
  ℕ, ◌+◌, ◌*◌, ◌^◌, ◌≤◌, ◌<◌, ◌≡◌, refl, List, [], ◌∷◌, Option, none, some, Bool, true, false, ◌&&◌,
  length, ltb, leb, if◌then◌else◌, eq→==, min, max, arith,
}
use warp_socks.Prelude.Utf8.{bytes_eq_refl, bytes_eq}
use warp_socks.Net.{ip_eq_refl, IpAddr, SocketAddr, addr_eq}
use warp_socks.Dns.{RecordType, a, aaaa}

-- `Duration::from_secs`
abbrev pub seconds : ℕ → ℕ
seconds n = n * 10 ^ 9

abbrev pub cache_min_ttl : ℕ
cache_min_ttl = seconds 5

abbrev pub cache_max_ttl : ℕ
cache_max_ttl = seconds 300

pub record CacheKey : Type 0 where
  pub server : SocketAddr
  pub name : List ℕ
  pub record_type : RecordType

pub record CacheEntry : Type 0 where
  pub addrs : List IpAddr
  pub expires_at : ℕ

abbrev type_eq : RecordType → RecordType → Bool
type_eq a a = true
type_eq aaaa aaaa = true
type_eq a aaaa = false
type_eq aaaa a = false

abbrev pub key_eq : CacheKey → CacheKey → Bool
key_eq k l =
    addr_eq k.server l.server && (bytes_eq k.name l.name && type_eq k.record_type l.record_type)

-- the map, by its entries
abbrev pub DnsCache : Type 0
DnsCache = List (CacheKey × CacheEntry)

unfoldable pub lookup : DnsCache → CacheKey → Option CacheEntry
lookup [] key = none
lookup ((k, e) ∷ entries) key = if key_eq k key then some e else lookup entries key

unfoldable pub get : DnsCache → CacheKey → ℕ → Option (List IpAddr)
unfolding lookup
get cache key now = elim (lookup cache key) [
  | none ↦ none
  | some entry ↦ if ltb now entry.expires_at then some entry.addrs else none
]

-- `retain` of the entries that have not expired
pub unexpired : ℕ → DnsCache → DnsCache
unexpired now [] = []
unexpired now ((k, e) ∷ entries) =
    if ltb now e.expires_at then (k, e) ∷ unexpired now entries else unexpired now entries

pub without : CacheKey → DnsCache → DnsCache
without key [] = []
without key ((k, e) ∷ entries) =
    if key_eq k key then without key entries else (k, e) ∷ without key entries

-- what makes room for one entry
pub make_room : DnsCache → ℕ → DnsCache
unfolding unexpired
make_room cache now =
    if leb 512 (length cache)
    then (let kept = unexpired now cache in if leb 512 (length kept) then [] else kept)
    else cache

-- `now` is the instant of the clean-up, and `later` that of the insertion
pub put : DnsCache → CacheKey → List IpAddr → ℕ → ℕ → ℕ → DnsCache
unfolding make_room without
put cache key addrs ttl_secs now later =
    (
      key,
      record {
        addrs = addrs;
        expires_at = later + min (max (seconds ttl_secs) cache_min_ttl) cache_max_ttl;
      },
    )
    ∷ without key (make_room cache now)

length-unexpired : (now : ℕ) (cache : DnsCache) → length (unexpired now cache) ≤ length cache
unfolding unexpired
length-unexpired now [] = omega arith
length-unexpired now ((k, e) ∷ entries) = let rest = length-unexpired now entries in ground arith

length-without : (key : CacheKey) (cache : DnsCache) → length (without key cache) ≤ length cache
unfolding without
length-without key [] = omega arith
length-without key ((k, e) ∷ entries) = let rest = length-without key entries in ground arith

length-make_room : (cache : DnsCache) (now : ℕ) → length (make_room cache now) < 512
unfolding make_room
length-make_room cache now = ground arith

-- The cache never holds more than 512 entries after an insertion, whatever it held before.
pub length-put :
    (cache : DnsCache) (key : CacheKey) (addrs : List IpAddr) (ttl_secs now later : ℕ)
    → length (put cache key addrs ttl_secs now later) ≤ 512
unfolding put
length-put cache key addrs ttl_secs now later =
    let room = length-make_room cache now in
    let rest = length-without key (make_room cache now) in omega arith

type_eq_refl : (t : RecordType) → type_eq t t ≡ true
type_eq_refl a = refl
type_eq_refl aaaa = refl

key_eq_refl : (key : CacheKey) → key_eq key key ≡ true
key_eq_refl key =
    rw
      (
        ip_eq_refl key.server.ip,
        eq→== key.server.port key.server.port refl,
        bytes_eq_refl key.name,
        type_eq_refl key.record_type,
      )
      refl

-- An answer that was stored is the one that is found, for at least 5 and at most 300 seconds: for its
-- time to live, brought between these bounds, and then no longer. What was cached before, for this
-- key or for others, and how full the cache was make no difference.
pub get-put :
    (cache : DnsCache) (key : CacheKey) (addrs : List IpAddr) (ttl_secs now later t : ℕ)
    → get (put cache key addrs ttl_secs now later) key t ≡ (
        if ltb t (later + min (max (seconds ttl_secs) cache_min_ttl) cache_max_ttl)
        then some addrs
        else none)
unfolding get put lookup
get-put cache key addrs ttl_secs now later t = rw (key_eq_refl key, get, lookup) refl
