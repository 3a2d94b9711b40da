-- ===== src/Masque/Lookup.antt =====
-- The order in which a name is looked up through the tunnel.
use warp_socks.Prelude.{
  ℕ, ◌≡◌, refl, ◌∙◌, List, [], ◌∷◌, ◌++◌, Option, none, some, ◌⊎◌, inl, inr, map,
}
use warp_socks.Prelude.Exec.{Result, ok, err, Exec}
use warp_socks.Dns.{RecordType, a, aaaa}
use warp_socks.Doh.{DnsCache, cached}
use warp_socks.Net.{IpAddr, SocketAddr}
use warp_socks.Masque.{after_attempt, doh_query, first_ok, lookup_both, resolve_domain}

module _ {S E A : Type 0} where
  nested_attempts :
      (r : Result E A × S) (f g h : E → Exec S E A)
      → ((e : E) (s : S) → after_attempt (f e s) g ≡ h e s)
      → after_attempt (after_attempt r f) g ≡ after_attempt r h
  nested_attempts (ok x, s) f g h same = refl
  nested_attempts (err e, s) f g h same = same e s

  same_attempts :
      (r : Result E A × S) (f g : E → Exec S E A)
      → ((e : E) (s : S) → f e s ≡ g e s)
      → after_attempt r f ≡ after_attempt r g
  same_attempts (ok x, s) f g same = refl
  same_attempts (err e, s) f g same = same e s

  last_attempt : (r : Result E A × S) → after_attempt r (λ e s. (err e, s)) ≡ r
  last_attempt (ok x, s) = refl
  last_attempt (err e, s) = refl

  -- an attempt that is itself a sequence of attempts
  first_ok-nested :
      (ms rest : List (Exec S E A)) (last : E) (s : S)
      → after_attempt (first_ok ms last s) (first_ok rest) ≡ first_ok (ms ++ rest) last s
  unfolding first_ok
  first_ok-nested [] rest last s = refl
  first_ok-nested (m ∷ ms) rest last s =
      nested_attempts (m s) (first_ok ms) (first_ok rest) (first_ok (ms ++ rest))
        (first_ok-nested ms rest)

-- What comes of attempts that are made in order, each in the state that the one before it left: the
-- first success ends them, and when there is none, the result is the error of the last, or the given
-- one if there was no attempt.
pub data Attempts {S E A : Type 0} : List (Exec S E A) → E → S → Result E A × S → Type 0 where
  over : (last : E) (s : S) → Attempts [] last s (err last, s)
  answered :
      (m : Exec S E A) (ms : List (Exec S E A)) (last : E) (s : S) (x : A) (after : S)
      → m s ≡ (ok x, after)
      → Attempts (m ∷ ms) last s (ok x, after)
  failed :
      (m : Exec S E A) (ms : List (Exec S E A)) (last : E) (s : S) (e : E) (after : S)
      (result : Result E A × S)
      → m s ≡ (err e, after)
      → Attempts ms e after result
      → Attempts (m ∷ ms) last s result

module _ {S E A : Type 0} where
  outcome-cases :
      (r : Result E A × S)
      → ((x : A) × (s : S) × (r ≡ (ok x, s))) ⊎ ((e : E) × (s : S) × (r ≡ (err e, s)))
  outcome-cases (ok x, s) = inl (x, s, refl)
  outcome-cases (err e, s) = inr (e, s, refl)

  first_ok-Attempts :
      (ms : List (Exec S E A)) (last : E) (s : S) → Attempts ms last s (first_ok ms last s)
  unfolding first_ok
  first_ok-Attempts [] last s = over last s
  first_ok-Attempts (m ∷ ms) last s = elim (outcome-cases (m s)) [
    | inl (x, t, e) ↦ rw (e, first_ok) (answered m ms last s x t e)
    | inr (error, t, e) ↦
        rw (e, first_ok)
          (failed m ms last s error t (first_ok ms error t) e (first_ok-Attempts ms error t))
  ]

module _ {W E : Type 0} (via : SocketAddr → List ℕ → RecordType → Exec (DnsCache × W) E IpAddr)
    (no_candidate : E) where
  abbrev pub queries : List SocketAddr → List ℕ → List (Exec (DnsCache × W) E IpAddr)
  queries servers name =
      map (λ server. via server name a) servers ++ map (λ server. via server name aaaa) servers

  lookup_both-queries :
      (servers : List SocketAddr) (name : List ℕ) (s : DnsCache × W)
      → lookup_both via no_candidate servers name s ≡ first_ok (queries servers name) no_candidate s
  unfolding lookup_both doh_query first_ok
  lookup_both-queries [] name s = refl
  lookup_both-queries (server ∷ servers) name s =
      let firsts = map (λ x. via x name a) (server ∷ servers) in
      let seconds = map (λ x. via x name aaaa) (server ∷ servers) in
      same_attempts (first_ok firsts no_candidate s) _ (first_ok seconds)
        (λ e t. last_attempt (first_ok seconds no_candidate t))
      ∙ first_ok-nested firsts seconds no_candidate s

  -- the result of a lookup, by what the cache has for the name
  abbrev pub IsLookedUp :
      List SocketAddr
      → List ℕ
      → Option IpAddr × DnsCache
      → W
      → Result E IpAddr × (DnsCache × W)
      → Type 0
  IsLookedUp servers name (some i, kept) rest result = result ≡ (ok i, (kept, rest))
  IsLookedUp servers name (none, kept) rest result =
      Attempts (queries servers name) no_candidate (kept, rest) result

  resolve_domain-IsLookedUp :
      (servers : List SocketAddr) (name : List ℕ) (now : ℕ) (cache : DnsCache) (rest : W)
      (found : Option IpAddr × DnsCache)
      → cached cache name now ≡ found
      → IsLookedUp servers name found rest
          (resolve_domain via no_candidate servers name now (cache, rest))
  unfolding resolve_domain
  resolve_domain-IsLookedUp servers name now cache rest (some i, kept) e =
      rw (e, resolve_domain, e) refl
  resolve_domain-IsLookedUp servers name now cache rest (none, kept) e =
      rw (e, resolve_domain, e)
        (rw (lookup_both-queries servers name (kept, rest))
          (first_ok-Attempts (queries servers name) no_candidate (kept, rest)))

  -- A name for which the cache has an address that has not expired is answered with it, without a query.
  -- Any other name is asked of each server in order for its A record, and then of each in the same
  -- order for its AAAA record, every query in the state that the one before it left. The first success
  -- is the result and no query follows it; when all fail, the result is the error of the last, and
  -- when there is no server, it is the error that says so.
  pub resolve_domain-queries :
      (servers : List SocketAddr) (name : List ℕ) (now : ℕ) (cache : DnsCache) (rest : W)
      → IsLookedUp servers name
          (cached cache name now)
          rest
          (resolve_domain via no_candidate servers name now (cache, rest))
  resolve_domain-queries servers name now cache rest =
      resolve_domain-IsLookedUp servers name now cache rest (cached cache name now) refl
