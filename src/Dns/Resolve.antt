-- ===== src/Dns/Resolve.antt =====
-- dns.rs: `resolve_inner`, over what its socket gives. Instants are in nanoseconds.
use warp_socks.Prelude.{
  ℕ, ◌+◌, ◌<◌, ◌≡◌, refl, ap, ◌∙◌, List, [], ◌∷◌, none, some, Bool, true, false, length, ltb,
  if◌then◌else◌, Bool-cases, inl, inr, ◌==◌, min, max, arith,
}
use warp_socks.Prelude.Exec.{Result-cases, ok-injective, Result, ok, err}
use warp_socks.Prelude.Utf8.{to_ascii_lowercase}
use warp_socks.Net.{IpAddr, SocketAddr, addr_eq}
use warp_socks.Dns.{Error, encode_dns_query, parse_dns_response}
use warp_socks.Dns.Cache.{
  CacheKey, DnsCache, get, put, seconds, cache_min_ttl, cache_max_ttl, get-put,
}

-- What the socket of a query gives: a datagram with its sender, an error, or nothing for the
-- interval after which the query is sent again.
pub data Event : Type 0 where
  datagram : SocketAddr → List ℕ → Event
  failed silent : Event

pub data ResolveError : Type 0 where
  unresolved : Error → ResolveError
  bind_failed receive_failed send_failed timed_out : ResolveError

-- The addresses or the error, the cache, and how many times the query was sent. `sends` says of each
-- further send whether it succeeds. The events end when the budget of `resolve` does.
unfoldable pub await :
    CacheKey
    → ℕ
    → ℕ
    → ℕ
    → List Event
    → (ℕ → Bool)
    → ℕ
    → DnsCache
    → Result ResolveError (List IpAddr) × (DnsCache × ℕ)
await key id now later [] sends sent cache = (err timed_out, (cache, sent))
await key id now later (failed ∷ events) sends sent cache = (err receive_failed, (cache, sent))
await key id now later (silent ∷ events) sends sent cache = elim (sends sent) [
  | true ↦ await key id now later events sends (sent + 1) cache
  | false ↦ (err send_failed, (cache, sent))
]
await key id now later (datagram from buf ∷ events) sends sent cache =
    elim (addr_eq from key.server) [
      | false ↦ await key id now later events sends sent cache
      | true ↦ elim (parse_dns_response buf id key.record_type) [
        | err e ↦ (err (unresolved e), (cache, sent))
        | ok f ↦ (
          ok f.addrs,
          (put cache key f.addrs (if length f.addrs == 0 then 5 else f.min_ttl) now later, sent),
        )
      ]
    ]

-- names are cached in lower case
abbrev pub lowercase : CacheKey → CacheKey
lowercase key = record key { name = to_ascii_lowercase key.name }

-- `now` is the instant of the lookup; `cleared` and `later` are those of the clean-up and of the
-- insertion after the response; `binds` says whether the socket can be bound.
unfoldable pub resolve_inner :
    CacheKey
    → ℕ
    → ℕ
    → ℕ
    → ℕ
    → Bool
    → List Event
    → (ℕ → Bool)
    → DnsCache
    → Result ResolveError (List IpAddr) × (DnsCache × ℕ)
resolve_inner asked id now cleared later binds events sends cache =
    elim (get cache (lowercase asked) now) [
      | some addrs ↦ (ok addrs, (cache, 0))
      | none ↦ elim (encode_dns_query id asked.name asked.record_type) [
        | err e ↦ (err (unresolved e), (cache, 0))
        | ok query ↦ elim binds [
          | false ↦ (err bind_failed, (cache, 0))
          | true ↦ elim (sends 0) [
            | true ↦ await (lowercase asked) id cleared later events sends 1 cache
            | false ↦ (err send_failed, (cache, 0))
          ]
        ]
      ]
    ]

-- a result that was put in the cache
abbrev Stored :
    CacheKey → ℕ → ℕ → DnsCache → Result ResolveError (List IpAddr) × (DnsCache × ℕ) → Type 0
Stored key now later cache r =
    (addrs : List IpAddr) → r.0 ≡ ok addrs → (ttl : ℕ) × (r.1.0 ≡ put cache key addrs ttl now later)

await-Stored :
    (key : CacheKey) (id now later : ℕ) (events : List Event) (sends : ℕ → Bool) (sent : ℕ)
    (cache : DnsCache)
    → Stored key now later cache (await key id now later events sends sent cache)
unfolding await
await-Stored key id now later [] sends sent cache = λ addrs h. cc
await-Stored key id now later (failed ∷ events) sends sent cache = λ addrs h. cc
await-Stored key id now later (silent ∷ events) sends sent cache = elim (Bool-cases (sends sent)) [
  | inl sent_again ↦
      rw (sent_again, await) (await-Stored key id now later events sends (sent + 1) cache)
  | inr not_sent ↦ rw (not_sent, await) (λ addrs h. cc)
]
await-Stored key id now later (datagram from buf ∷ events) sends sent cache =
    elim (Bool-cases (addr_eq from key.server)) [
      | inr stranger ↦ rw (stranger, await) (await-Stored key id now later events sends sent cache)
      | inl server ↦ elim (Result-cases (parse_dns_response buf id key.record_type)) [
        | inl (f, parsed) ↦
            rw (server, parsed, await)
              (λ addrs h. (
                if length f.addrs == 0 then 5 else f.min_ttl,
                ap
                    (λ as'.
                      put cache key as' (if length f.addrs == 0 then 5 else f.min_ttl) now later)
                    (ok-injective h),
              ))
        | inr (e, refused) ↦ rw (server, refused, await) (λ addrs h. cc)
      ]
    ]

resolve_inner-Stored :
    (asked : CacheKey) (id now cleared later : ℕ) (binds : Bool) (events : List Event)
    (sends : ℕ → Bool) (cache : DnsCache)
    → get cache (lowercase asked) now ≡ none
    → Stored
        (lowercase asked)
        cleared
        later
        cache
        (resolve_inner asked id now cleared later binds events sends cache)
unfolding resolve_inner
resolve_inner-Stored asked id now cleared later binds events sends cache missed =
    elim (Result-cases (encode_dns_query id asked.name asked.record_type)) [
      | inr (e, refused) ↦ rw (missed, refused, resolve_inner) (λ addrs h. cc)
      | inl (query, encoded) ↦ elim (Bool-cases binds) [
        | inr unbound ↦ rw (missed, encoded, unbound, resolve_inner) (λ addrs h. cc)
        | inl bound ↦ elim (Bool-cases (sends 0)) [
          | inr not_sent ↦ rw (missed, encoded, bound, not_sent, resolve_inner) (λ addrs h. cc)
          | inl sent ↦
              rw (missed, encoded, bound, sent, resolve_inner)
                (await-Stored (lowercase asked) id cleared later events sends 1 cache)
        ]
      ]
    ]

resolve_inner-cached :
    (asked : CacheKey) (id now cleared later : ℕ) (binds : Bool) (events : List Event)
    (sends : ℕ → Bool) (cache : DnsCache) (addrs : List IpAddr)
    → get cache (lowercase asked) now ≡ some addrs
    → resolve_inner asked id now cleared later binds events sends cache ≡ (ok addrs, (cache, 0))
unfolding resolve_inner
resolve_inner-cached asked id now cleared later binds events sends cache addrs hit =
    rw (hit, resolve_inner) refl

get-put-soon :
    (cache : DnsCache) (key : CacheKey) (addrs : List IpAddr) (ttl now later t : ℕ)
    → t < later + seconds 5
    → get (put cache key addrs ttl now later) key t ≡ some addrs
get-put-soon cache key addrs ttl now later t soon =
    get-put cache key addrs ttl now later t ∙ rw fresh refl
  where
    fresh : ltb t (later + min (max (seconds ttl) cache_min_ttl) cache_max_ttl) ≡ true
    fresh = ground arith

-- A name that was resolved is found again without a query in the cache as that resolution left it: for
-- five seconds after it was stored, whatever the letter case it is asked with, and also when it has no
-- address of its type.
pub resolve_inner-again :
    (asked again : CacheKey) (id now cleared later : ℕ) (binds : Bool) (events : List Event)
    (sends : ℕ → Bool) (cache : DnsCache) (addrs : List IpAddr) (id' t cleared' later' : ℕ)
    (binds' : Bool) (events' : List Event) (sends' : ℕ → Bool)
    → get cache (lowercase asked) now ≡ none
    → (resolve_inner asked id now cleared later binds events sends cache).0 ≡ ok addrs
    → lowercase again ≡ lowercase asked
    → t < later + seconds 5
    → resolve_inner again id' t cleared' later' binds' events' sends'
        (resolve_inner asked id now cleared later binds events sends cache).1.0
      ≡ (ok addrs, ((resolve_inner asked id now cleared later binds events sends cache).1.0, 0))
resolve_inner-again asked again id now cleared later binds events sends cache addrs id' t cleared'
      later' binds' events' sends' missed found same soon =
    let (ttl, stored) =
      resolve_inner-Stored asked id now cleared later binds events sends cache missed addrs found in
    resolve_inner-cached again id' t cleared' later' binds' events' sends' stored_cache addrs
      (rw (same, stored) (get-put-soon cache (lowercase asked) addrs ttl cleared later t soon))
  where
    stored_cache : DnsCache
    stored_cache = (resolve_inner asked id now cleared later binds events sends cache).1.0
