-- ===== src/Ip.antt =====
-- outbound/ip.rs: the targets of a name, their order, and the race of the dials. The netstack's dial and
-- the resolver of dns.rs are arguments; `Config` of smoltcp is a library's.
pub mod Order
pub mod Race
pub mod Connect
pub mod Runs
pub mod Targets
use warp_socks.Prelude.{
  ℕ, ◌+◌, List, [], ◌∷◌, ◌++◌, Option, none, some, Bool, true, false, not, if◌then◌else◌, ◌||◌,
  filter, map, length,
}
use warp_socks.Prelude.Exec.{Result, ok, err}
use warp_socks.Net.{IpAddr, v4, v6, SocketAddr, Host, domain, ip, ip_eq}
use warp_socks.Dns.{RecordType, a, aaaa}

abbrev pub ip_is_v4 : IpAddr → Bool
ip_is_v4 (v4 octets) = true
ip_is_v4 (v6 octets) = false

abbrev pub is_v4 : SocketAddr → Bool
is_v4 addr = ip_is_v4 addr.ip

abbrev pub is_v6 : SocketAddr → Bool
is_v6 addr = not (ip_is_v4 addr.ip)

-- the loop of `interleave_addresses`, which pops one address of each queue per turn
pub take_turns : List SocketAddr → List SocketAddr → List SocketAddr
take_turns [] [] = []
take_turns (p ∷ ps) [] = p ∷ take_turns ps []
take_turns [] (q ∷ qs) = q ∷ take_turns [] qs
take_turns (p ∷ ps) (q ∷ qs) = p ∷ q ∷ take_turns ps qs

unfoldable pub interleave_addresses : List SocketAddr → List SocketAddr
unfolding take_turns
interleave_addresses targets = take_turns (filter is_v4 targets) (filter is_v6 targets)

abbrev pub enumerate_from {ℓ} : {A : Type ℓ} → ℕ → List A → List (ℕ × A)
enumerate_from n [] = []
enumerate_from n (x ∷ xs) = (n, x) ∷ enumerate_from (n + 1) xs

pub data DialError {ℓ} (E : Type ℓ) : Type ℓ where
  timed_out : DialError E
  failed : E → DialError E

-- `not_connected` with the failed dials, in the order in which they ended
pub data ConnectError {ℓ} (E : Type ℓ) : Type ℓ where
  not_connected : List (SocketAddr × DialError E) → ConnectError E

abbrev pub pick {ℓ} : {A : Type ℓ} → Bool → A → A → A × A
pick true p q = (q, p)
pick false p q = (p, q)

module _ {ℓ κ} {E : Type ℓ} {T : Type κ} (dial : ℕ → SocketAddr → Option (Result E T)) where
  -- one dial, where `none` is a dial that did not end within CONNECT_TIMEOUT
  pub attempt : ℕ × SocketAddr → Result (DialError E) T
  attempt (index, target) = elim (dial index target) [
    | none ↦ err timed_out
    | some (ok stream) ↦ ok stream
    | some (err e) ↦ err (failed e)
  ]

  pub finish :
      ℕ × SocketAddr
      → List (SocketAddr × DialError E)
      → (List (SocketAddr × DialError E) → Result (ConnectError E) (T × SocketAddr))
      → Result (ConnectError E) (T × SocketAddr)
  finish (index, target) errors rest = elim (attempt (index, target)) [
    | ok stream ↦ ok (stream, target)
    | err e ↦ rest (errors ++ ((target, e) ∷ []))
  ]

  -- `buffer_unordered(2)`: two dials are in flight while there are two, and the next one starts when one
  -- ends. `second k` says which of the two ends first when `k` dials have not started.
  pub race :
      (ℕ → Bool)
      → ℕ × SocketAddr
      → ℕ × SocketAddr
      → List (ℕ × SocketAddr)
      → List (SocketAddr × DialError E)
      → Result (ConnectError E) (T × SocketAddr)
  unfolding finish
  race second p q [] errors =
      let (done, other) = pick (second 0) p q in
      finish done errors (λ es. finish other es (λ all. err (not_connected all)))
  race second p q (w ∷ ws) errors =
      let (done, other) = pick (second (length ws + 1)) p q in
      finish done errors (race second other w ws)

  pub race_all : (ℕ → Bool) → List (ℕ × SocketAddr) → Result (ConnectError E) (T × SocketAddr)
  unfolding finish race
  race_all second [] = err (not_connected [])
  race_all second (p ∷ []) = finish p [] (λ all. err (not_connected all))
  race_all second (p ∷ q ∷ ws) = race second p q ws []

  unfoldable pub connect_first :
      (ℕ → Bool) → List SocketAddr → Result (ConnectError E) (T × SocketAddr)
  unfolding interleave_addresses race_all
  connect_first second targets = race_all second (enumerate_from 0 (interleave_addresses targets))

-- What resolving a name gives, for one type of record: addresses, or an error of the resolver.
pub data TargetsError {ℓ} (E : Type ℓ) : Type ℓ where
  addr_not_available : List E → TargetsError E
  connect_timed_out : TargetsError E

abbrev pub seen_before : IpAddr → List IpAddr → Bool
seen_before i [] = false
seen_before i (j ∷ js) = ip_eq i j || seen_before i js

-- `filter(|ip| seen.insert(*ip))`: what is new, and all that has been seen
pub fresh : List IpAddr → List IpAddr → List IpAddr
fresh seen [] = []
fresh seen (i ∷ is) = if seen_before i seen then fresh seen is else i ∷ fresh (i ∷ seen) is

abbrev pub insert_all : List IpAddr → List IpAddr → List IpAddr
insert_all seen [] = seen
insert_all seen (i ∷ is) = insert_all (if seen_before i seen then seen else i ∷ seen) is

module _ {ℓ} {E : Type ℓ} where
  abbrev pub addresses : Result E (List IpAddr) → List IpAddr
  addresses (ok is) = is
  addresses (err e) = []

  abbrev errors_of : Result E (List IpAddr) → List E
  errors_of (ok is) = []
  errors_of (err e) = e ∷ []

  abbrev pub nonempty_targets : List SocketAddr → List E → Result (TargetsError E) (List SocketAddr)
  nonempty_targets [] errors = err (addr_not_available errors)
  nonempty_targets (target ∷ targets) errors = ok (target ∷ targets)

  unfoldable pub resolve_targets :
      (List ℕ → RecordType → Result E (List IpAddr))
      → Host
      → ℕ
      → Result (TargetsError E) (List SocketAddr)
  unfolding fresh
  resolve_targets resolve (ip i) port = ok (record { ip = i; port = port } ∷ [])
  resolve_targets resolve (domain name) port =
      let v4s = resolve name a in
      let v6s = resolve name aaaa in
      let seen = insert_all [] (addresses v4s) in
      let found = fresh [] (addresses v4s) ++ fresh seen (addresses v6s) in
      nonempty_targets (map (λ i. record { ip = i; port = port }) found)
        (errors_of v4s ++ errors_of v6s)

-- Why a family of addresses gave no stream, and why `connect_tcp` gave none: the dial of an address
-- failed, both families failed (in the order in which they ended), or the whole budget passed.
pub data FamilyError {ℓ κ} (E : Type ℓ) (D : Type κ) : Type (ℓ ⊔ κ) where
  lookup_failed : E → FamilyError E D
  dials_failed : ConnectError D → FamilyError E D

pub data TcpError {ℓ κ} (E : Type ℓ) (D : Type κ) : Type (ℓ ⊔ κ) where
  dial_failed : D → TcpError E D
  all_failed : List (FamilyError E D) → TcpError E D
  budget_spent : TcpError E D

module _ {ℓ κ μ} {E : Type ℓ} {D : Type κ} {T : Type μ}
    (resolve : List ℕ → RecordType → Result E (List IpAddr))
    (dial : RecordType → ℕ → SocketAddr → Option (Result D T))
    (second : RecordType → ℕ → Bool) where
  pub family : List ℕ → ℕ → RecordType → Result (FamilyError E D) (T × SocketAddr)
  family name port record_type = elim (resolve name record_type) [
    | err e ↦ err (lookup_failed e)
    | ok is ↦
        elim (connect_first (dial record_type) (second record_type)
          (map (λ i. record { ip = i; port = port }) is)) [
            | err e ↦ err (dials_failed e)
            | ok connected ↦ ok connected
          ]
  ]

  abbrev pub first_connected :
      Result (FamilyError E D) (T × SocketAddr)
      → Result (FamilyError E D) (T × SocketAddr)
      → Result (TcpError E D) (T × SocketAddr)
  first_connected (ok connected) later = ok connected
  first_connected (err e) (ok connected) = ok connected
  first_connected (err e) (err f) = err (all_failed (e ∷ f ∷ []))

  -- `aaaa_first` says which family ends first, and `direct` is the dial of an address that is given.
  pub connect_within :
      Bool → (SocketAddr → Result D T) → Host → ℕ → Result (TcpError E D) (T × SocketAddr)
  unfolding family
  connect_within aaaa_first direct (ip i) port =
      let target : SocketAddr = record { ip = i; port = port } in
      elim (direct target) [ ok stream ↦ ok (stream, target) | err e ↦ err (dial_failed e) ]
  connect_within aaaa_first direct (domain name) port =
      let (sooner, later) = pick aaaa_first a aaaa in
      first_connected (family name port sooner) (family name port later)

  -- `spent`: the budget for the name and the dials passes first
  pub connect_tcp :
      Bool → Bool → (SocketAddr → Result D T) → Host → ℕ → Result (TcpError E D) (T × SocketAddr)
  unfolding connect_within
  connect_tcp spent aaaa_first direct host port =
      if spent then err budget_spent else connect_within aaaa_first direct host port
