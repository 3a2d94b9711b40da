-- ===== src/Ip/Targets.antt =====
-- The targets that a name resolves to.
use warp_socks.Prelude.{
  ℕ, ◌≡◌, refl, sym, ap, ◌∙◌, List, [], ◌∷◌, ◌++◌, Bool, true, false, not, ◌&&◌, ◌||◌, inl, inr,
  Bool-cases, map, arith, both_true,
}
use warp_socks.Prelude.Exec.{Result, ok, err}
use warp_socks.Prelude.Utf8.{bytes_eq_sound}
use warp_socks.Net.{IpAddr, v4, v6, SocketAddr, domain, ip_eq, ip_eq_refl}
use warp_socks.Dns.{RecordType, a, aaaa}
use warp_socks.Ip.{
  TargetsError, seen_before, fresh, insert_all, addresses, resolve_targets, nonempty_targets,
}

ip_eq→eq : (i j : IpAddr) → ip_eq i j ≡ true → i ≡ j
ip_eq→eq (v4 x) (v4 y) h = ap v4 (bytes_eq_sound x y h)
ip_eq→eq (v6 x) (v6 y) h = ap v6 (bytes_eq_sound x y h)
ip_eq→eq (v4 x) (v6 y) h = cc
ip_eq→eq (v6 x) (v4 y) h = cc

seen_before-fresh :
    (i : IpAddr) (seen is : List IpAddr)
    → seen_before i (fresh seen is) ≡ (seen_before i is && not (seen_before i seen))
unfolding fresh
seen_before-fresh i seen [] = refl
seen_before-fresh i seen (j ∷ js) = elim (Bool-cases (seen_before j seen)) [
  | inl old ↦ elim (Bool-cases (ip_eq i j)) [
    | inl same ↦
        let known : seen_before i seen ≡ true =
          ap (λ x. seen_before x seen) (ip_eq→eq i j same) ∙ old in
        rw (old, same, known, seen_before-fresh i seen js, known) (ground arith)
    | inr other ↦ rw (old, other) (seen_before-fresh i seen js)
  ]
  | inr new ↦ elim (Bool-cases (ip_eq i j)) [
    | inl same ↦
        let unknown : seen_before i seen ≡ false =
          ap (λ x. seen_before x seen) (ip_eq→eq i j same) ∙ new in
        rw (new, same, unknown) refl
    | inr other ↦ rw (new, other, seen_before-fresh i (j ∷ seen) js, other) refl
  ]
]

seen_before-insert_all :
    (i : IpAddr) (seen is : List IpAddr)
    → seen_before i (insert_all seen is) ≡ (seen_before i seen || seen_before i is)
seen_before-insert_all i seen [] = ground arith
seen_before-insert_all i seen (j ∷ js) = elim (Bool-cases (seen_before j seen)) [
  | inl old ↦ elim (Bool-cases (ip_eq i j)) [
    | inl same ↦
        let known : seen_before i seen ≡ true =
          ap (λ x. seen_before x seen) (ip_eq→eq i j same) ∙ old in
        rw (old, seen_before-insert_all i seen js, known) refl
    | inr other ↦ rw (old, other) (seen_before-insert_all i seen js)
  ]
  | inr new ↦ rw (new, seen_before-insert_all i (j ∷ seen) js) (ground arith)
]

seen_before-append :
    (i : IpAddr) (is js : List IpAddr)
    → seen_before i (is ++ js) ≡ (seen_before i is || seen_before i js)
seen_before-append i [] js = refl
seen_before-append i (j ∷ is) js = rw (seen_before-append i is js) (ground arith)

-- no address stands twice
abbrev pub Distinct : List IpAddr → Type 0
Distinct [] = Unit
Distinct (i ∷ is) = (seen_before i is ≡ false) × Distinct is

fresh-Distinct : (seen is : List IpAddr) → Distinct (fresh seen is)
unfolding fresh
fresh-Distinct seen [] = tt
fresh-Distinct seen (j ∷ js) = elim (Bool-cases (seen_before j seen)) [
  | inl old ↦ rw (old, Distinct) (fresh-Distinct seen js)
  | inr new ↦
      rw (new, Distinct)
        (
          seen_before-fresh j (j ∷ seen) js ∙ rw (ip_eq_refl j) (ground arith),
          fresh-Distinct (j ∷ seen) js,
        )
]

Distinct-append :
    (is js : List IpAddr)
    → Distinct is
    → Distinct js
    → ((i : IpAddr) → seen_before i is ≡ true → seen_before i js ≡ false)
    → Distinct (is ++ js)
Distinct-append [] js h g apart = g
Distinct-append (i ∷ is) js (new, h) g apart = (
  seen_before-append i is js ∙ rw (new, apart i (rw (ip_eq_refl i) refl)) refl,
  Distinct-append is js h g (λ k among. apart k (rw among (ground arith))),
)

-- The addresses of the two record types, as the targets have them.
abbrev pub ips : List SocketAddr → List IpAddr
ips = map (λ target. target.ip)

module _ {E : Type 0} (resolve : List ℕ → RecordType → Result E (List IpAddr)) (name : List ℕ)
    (port : ℕ) where
  abbrev pub resolved : IpAddr → Bool
  resolved i =
      seen_before i (addresses (resolve name a)) || seen_before i (addresses (resolve name aaaa))

  abbrev pub IsResolved : Result (TargetsError E) (List SocketAddr) → Type 0
  IsResolved (ok targets) =
      Distinct (ips targets) × ((i : IpAddr) → seen_before i (ips targets) ≡ resolved i)
  IsResolved (err e) = (i : IpAddr) → resolved i ≡ false

  found : List IpAddr
  found =
      let v4s = addresses (resolve name a) in
      fresh [] v4s ++ fresh (insert_all [] v4s) (addresses (resolve name aaaa))

  seen_before-found : (i : IpAddr) → seen_before i found ≡ resolved i
  unfolding found
  seen_before-found i =
      let v4s = addresses (resolve name a) in
      let v6s = addresses (resolve name aaaa) in
      let first = seen_before-fresh i [] v4s in
      let second = seen_before-fresh i (insert_all [] v4s) v6s in
      rw
        (
          seen_before-append i (fresh [] v4s) (fresh (insert_all [] v4s) v6s),
          first,
          second,
          seen_before-insert_all i [] v4s,
        )
        (ground arith)

  found-Distinct : Distinct found
  unfolding found
  found-Distinct =
      let v4s = addresses (resolve name a) in
      let v6s = addresses (resolve name aaaa) in
      Distinct-append (fresh [] v4s) (fresh (insert_all [] v4s) v6s) (fresh-Distinct [] v4s)
        (fresh-Distinct (insert_all [] v4s) v6s)
        (λ i among.
          let (inside, new) =
            both_true (seen_before i v4s) true (sym (seen_before-fresh i [] v4s) ∙ among) in
          rw (seen_before-fresh i (insert_all [] v4s) v6s, seen_before-insert_all i [] v4s, inside)
            (ground arith))

ips-map : (port : ℕ) (is : List IpAddr) → ips (map (λ i. record { ip = i; port = port }) is) ≡ is
ips-map port [] = refl
ips-map port (i ∷ is) = ap (λ js. i ∷ js) (ips-map port is)

module _ {E : Type 0} (resolve : List ℕ → RecordType → Result E (List IpAddr)) (name : List ℕ)
    (port : ℕ) where
  nonempty_targets-IsResolved :
      (is : List IpAddr) (errors : List E)
      → Distinct is
      → ((i : IpAddr) → seen_before i is ≡ resolved resolve name port i)
      → IsResolved resolve name port
          (nonempty_targets (map (λ i. record { ip = i; port = port }) is) errors)
  nonempty_targets-IsResolved [] errors distinct same = λ i. sym (same i)
  nonempty_targets-IsResolved (j ∷ is) errors distinct same = rw (ips-map port is) (distinct, same)

  -- The targets of a name have, each once, exactly the addresses that the lookups of its two record
  -- types gave (a lookup that failed gives none); there is an error only if they gave none at all.
  pub resolve_targets-IsResolved :
      IsResolved resolve name port (resolve_targets resolve (domain name) port)
  unfolding resolve_targets found
  resolve_targets-IsResolved =
      nonempty_targets-IsResolved (found resolve name port) _ (found-Distinct resolve name port)
        (seen_before-found resolve name port)
