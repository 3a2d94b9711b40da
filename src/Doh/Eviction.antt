-- ===== src/Doh/Eviction.antt =====
-- The cache of names keeps to its size, and what was stored is found.
use mathlib.Core.Path.{subst}
use warp_socks.Prelude.{
  ℕ, ◌+◌, ◌≤◌, ◌<◌, ◌≡◌, refl, sym, ◌∙◌, List, [], ◌∷◌, none, some, true, if◌then◌else◌, ltb, leb,
  length, min, max, inl, inr, Bool-cases, Option-cases, Any, arith,
}
use warp_socks.Prelude.Utf8.{bytes_eq, bytes_eq_refl}
use warp_socks.Net.{IpAddr}
use warp_socks.Doh.{
  CacheEntry, DnsCache, cached, evict, evict_one, lookup, make_room, max_ttl, min_ttl, store,
  unexpired, victim_after, without,
}

length-unexpired : (now : ℕ) (cache : DnsCache) → length (unexpired now cache) ≤ length cache
unfolding unexpired
length-unexpired now [] = omega arith
length-unexpired now ((name, entry) ∷ entries) =
    let rest = length-unexpired now entries in ground arith

length-without : (domain : List ℕ) (cache : DnsCache) → length (without domain cache) ≤ length cache
unfolding without
length-without domain [] = omega arith
length-without domain ((name, entry) ∷ entries) =
    let rest = length-without domain entries in ground arith

abbrev HasKey : List ℕ → DnsCache → Type 0
HasKey domain = Any (λ e. bytes_eq e.0 domain ≡ true)

-- a name of the cache takes its entry along
length-without_key :
    (domain : List ℕ) (cache : DnsCache)
    → HasKey domain cache
    → length (without domain cache) < length cache
unfolding without
length-without_key domain [] h = elim h [ ]
length-without_key domain ((name, entry) ∷ entries) (inl here) =
    rw here (omega (arith, length-without domain entries))
length-without_key domain ((name, entry) ∷ entries) (inr there) =
    let rest = length-without_key domain entries there in ground arith

victim_after-HasKey :
    (best : List ℕ × CacheEntry) (entries : DnsCache)
    → HasKey (victim_after best entries).0 (best ∷ entries)
unfolding victim_after
victim_after-HasKey best [] = inl (bytes_eq_refl best.0)
victim_after-HasKey best (e ∷ entries) = elim (Bool-cases (ltb e.1.expires_at best.1.expires_at)) [
  | inl sooner ↦
      let same : victim_after best (e ∷ entries) ≡ victim_after e entries =
        rw (sooner, victim_after) refl in
      subst (λ v. HasKey v.0 (best ∷ e ∷ entries)) (sym same) (inr (victim_after-HasKey e entries))
  | inr later ↦
      let same : victim_after best (e ∷ entries) ≡ victim_after best entries =
        rw (later, victim_after) refl in
      subst (λ v. HasKey v.0 (best ∷ e ∷ entries)) (sym same)
        (elim (victim_after-HasKey best entries) [
          | inl here ↦ inl here
          | inr there ↦ inr (inr there)
        ])
]

-- one entry at least goes
length-evict_one : (cache : DnsCache) → 0 < length cache → length (evict_one cache) < length cache
unfolding evict_one
length-evict_one [] h = absurd (omega arith)
length-evict_one (e ∷ entries) h =
    length-without_key (victim_after e entries).0 (e ∷ entries) (victim_after-HasKey e entries)

length-evict : (cache : DnsCache) (now : ℕ) → length cache ≤ 512 → length (evict cache now) < 512
unfolding evict
length-evict cache now le =
    let kept = unexpired now cache in
    let fewer = length-unexpired now cache in
    elim (Bool-cases (leb 512 (length kept))) [
      | inl full ↦
          let enough : 512 ≤ length kept = ground arith in
          rw full (omega (arith, length-evict_one kept (omega (arith, enough)), fewer, le))
      | inr room ↦ rw room (ground arith)
    ]

lookup-HasKey :
    (domain : List ℕ) (cache : DnsCache) (entry : CacheEntry)
    → lookup domain cache ≡ some entry
    → HasKey domain cache
unfolding lookup
lookup-HasKey domain [] entry e = cc
lookup-HasKey domain ((name, other) ∷ entries) entry e = elim (Bool-cases (bytes_eq name domain)) [
  | inl same ↦ inl same
  | inr different ↦ inr (lookup-HasKey domain entries entry (sym (rw (different, lookup) refl) ∙ e))
]

room_for :
    (cache : DnsCache) (domain : List ℕ) (now : ℕ)
    → length cache ≤ 512
    → length (without domain (make_room cache domain now)) < 512
unfolding make_room
room_for cache domain now le = elim (Option-cases (lookup domain cache)) [
  | inl new ↦ elim (Bool-cases (leb 512 (length cache))) [
    | inl full ↦
        let gone = length-evict cache now le in
        rw (new, make_room, full) (omega (arith, gone, length-without domain (evict cache now)))
    | inr room ↦
        rw (new, make_room, room)
          (let fits : length cache < 512 = ground arith in
            omega (arith, fits, length-without domain cache))
  ]
  | inr (entry, e) ↦
      rw (e, make_room)
        (omega (arith, le, length-without_key domain cache (lookup-HasKey domain cache entry e)))
]

-- A cache of at most 512 entries still has at most 512 after an insertion, and the stored address is
-- what it then gives for the name, up to but not at the instant at which its time to live, brought
-- between 5 and 300 seconds, is over.
pub cached-store :
    (cache : DnsCache) (domain : List ℕ) (ip : IpAddr) (ttl now later : ℕ)
    → length cache ≤ 512
    → (length (store cache domain ip ttl now) ≤ 512)
      × ((cached (store cache domain ip ttl now) domain later).0
          ≡ (if ltb later (now + min (max ttl min_ttl) max_ttl) then some ip else none))
unfolding store cached lookup
cached-store cache domain ip ttl now later le =
    let entry : CacheEntry = record { ip = ip; expires_at = now + min (max ttl min_ttl) max_ttl } in
    let found : lookup domain (store cache domain ip ttl now) ≡ some entry =
      rw (bytes_eq_refl domain) refl in
    (
      omega (arith, room_for cache domain now le),
      elim (Bool-cases (ltb later entry.expires_at)) [
        | inl fresh ↦ rw (found, cached, fresh) refl
        | inr stale ↦ rw (found, cached, stale) refl
      ],
    )
