-- ===== src/Socks5/Association/Client.antt =====
-- The client of a UDP association over a whole run: the address that the first datagram fixes, and where
-- the replies go.
use mathlib.Core.Path.{subst}
use warp_socks.Prelude.{
  arith, ◌⊎◌, ap, ℕ, ◌≡◌, refl, List, [], ◌∷◌, ◌++◌, Option, none, some, true, Bool-cases,
  Option-cases, inl, inr, All, All-append, drop,
}
use warp_socks.Net.{SocketAddr, ip_eq}
use warp_socks.Socks5.Udp.{decode_udp_header}
use warp_socks.Socks5.Association.{
  Association, Event, control_byte, control_closed, relay_failed, datagram, reply, worker_takes,
  worker_ends, acquires, frees, udp_source_allowed, get_or_insert, relay_datagram, relay_reply,
  step,
}
use warp_socks.Socks5.Association.Invariant.{IsEgress, send-IsEgress, worker_event-IsEgress}

-- what is known of the client has the address of the control connection's peer
abbrev pub IsKnown : SocketAddr → Option SocketAddr → Type 0
IsKnown peer none = Unit
IsKnown peer (some a) = ip_eq a.ip peer.ip ≡ true

pub record IsAssociation (total : ℕ) (s : Association) : Type 0 where
  pub relays : IsEgress total s.egress
  pub known : IsKnown s.peer s.client_addr

abbrev pub Whenever {ℓ κ} : {A : Type ℓ} → (A → Type κ) → Option A → Type κ
Whenever P none = Unit
Whenever P (some x) = P x

-- The turns of the loop for a sequence of events, and what they send to the client.
unfoldable pub run : List Event → Association → Option Association
run [] s = some s
run (event ∷ events) s = elim ((step event s).0) [ none ↦ none | some next ↦ run events next ]

unfoldable pub sent : List Event → Association → List (SocketAddr × List ℕ)
sent [] s = []
sent (event ∷ events) s =
    (step event s).1 ++ elim ((step event s).0) [ none ↦ [] | some next ↦ sent events next ]

allowed_source :
    (peer : SocketAddr) (client : Option SocketAddr) (from : SocketAddr)
    → udp_source_allowed peer client from ≡ true
    → ip_eq from.ip peer.ip ≡ true
unfolding udp_source_allowed
allowed_source peer none from e = e
allowed_source peer (some a) from e = ground arith

inserted-IsKnown :
    (peer : SocketAddr) (client : Option SocketAddr) (from : SocketAddr)
    → IsKnown peer client
    → udp_source_allowed peer client from ≡ true
    → IsKnown peer (get_or_insert client from)
inserted-IsKnown peer none from h e = allowed_source peer none from e
inserted-IsKnown peer (some a) from h e = h

-- a datagram from the client's side leaves the invariant
relay_datagram-IsAssociation :
    {total : ℕ} (from : SocketAddr) (bytes : List ℕ) (s : Association)
    → IsAssociation total s
    → IsAssociation total (relay_datagram from bytes s)
unfolding relay_datagram
relay_datagram-IsAssociation from bytes s v =
    elim (Bool-cases (udp_source_allowed s.peer s.client_addr from)) [
      | inl fine ↦ elim (Option-cases (decode_udp_header bytes)) [
        | inl bad ↦ rw (fine, bad) v
        | inr ((target, header_len), e) ↦
            rw (fine, e)
              (record {
                relays = send-IsEgress target (drop header_len bytes) s.egress v.relays;
                known = inserted-IsKnown s.peer s.client_addr from v.known fine;
              })
      ]
      | inr refused ↦ rw refused v
    ]

step-IsAssociation :
    {total : ℕ} (event : Event) (s : Association)
    → IsAssociation total s
    → Whenever (IsAssociation total) ((step event s).0)
unfolding step
step-IsAssociation control_byte s v = v
step-IsAssociation control_closed s v = tt
step-IsAssociation relay_failed s v = tt
step-IsAssociation (datagram from bytes) s v = relay_datagram-IsAssociation from bytes s v
step-IsAssociation (reply from payload) s v = v
step-IsAssociation (worker_takes t) s v = record {
  relays = worker_event-IsEgress (worker_takes t) s.egress v.relays;
  known = v.known;
}
step-IsAssociation (worker_ends t) s v = record {
  relays = worker_event-IsEgress (worker_ends t) s.egress v.relays;
  known = v.known;
}
step-IsAssociation (acquires n) s v = record {
  relays = worker_event-IsEgress (acquires n) s.egress v.relays;
  known = v.known;
}
step-IsAssociation (frees n) s v = record {
  relays = worker_event-IsEgress (frees n) s.egress v.relays;
  known = v.known;
}

-- Every turn of the loop leaves an association with at most 64 routes, each with at most 32 datagrams
-- queued, the bytes queued, free and held still those of the semaphore, and the client's address, where
-- it is known, that of the control connection's peer: after every sequence of events that does not end it.
pub run-IsAssociation :
    {total : ℕ} (events : List Event) (s : Association)
    → IsAssociation total s
    → Whenever (IsAssociation total) (run events s)
unfolding run
run-IsAssociation [] s v = v
run-IsAssociation {total} (event ∷ events) s v = elim (Option-cases ((step event s).0)) [
  | inl ends ↦ rw (ends, Whenever) tt
  | inr (next, e) ↦
      let valid : IsAssociation total next =
        subst (Whenever (IsAssociation total)) e (step-IsAssociation event s v) in
      rw (e, Whenever) (run-IsAssociation events next valid)
]

-- A turn keeps the peer, and the client's address once there is one.
abbrev Keeps : Association → Association → Type 0
Keeps s next =
    (next.peer ≡ s.peer) × ((a : SocketAddr) → s.client_addr ≡ some a → next.client_addr ≡ some a)

relay_datagram-Keeps :
    (from : SocketAddr) (bytes : List ℕ) (s : Association) → Keeps s (relay_datagram from bytes s)
unfolding relay_datagram
relay_datagram-Keeps from bytes s =
    elim (Bool-cases (udp_source_allowed s.peer s.client_addr from)) [
      | inl fine ↦ elim (Option-cases (decode_udp_header bytes)) [
        | inl bad ↦ rw (fine, bad) (refl, λ a e. e)
        | inr ((target, header_len), e) ↦
            rw (fine, e) (refl, λ a known. ap (λ c. get_or_insert c from) known)
      ]
      | inr refused ↦ rw refused (refl, λ a e. e)
    ]

step-Keeps : (event : Event) (s : Association) → Whenever (Keeps s) ((step event s).0)
unfolding step
step-Keeps control_closed s = tt
step-Keeps relay_failed s = tt
step-Keeps (datagram from bytes) s = relay_datagram-Keeps from bytes s
step-Keeps control_byte s = (refl, λ a e. e)
step-Keeps (reply from payload) s = (refl, λ a e. e)
step-Keeps (worker_takes t) s = (refl, λ a e. e)
step-Keeps (worker_ends t) s = (refl, λ a e. e)
step-Keeps (acquires n) s = (refl, λ a e. e)
step-Keeps (frees n) s = (refl, λ a e. e)

abbrev pub AreTo : SocketAddr → List (SocketAddr × List ℕ) → Type 0
AreTo a = All (λ out. out.0 ≡ a)

relay_reply-AreTo :
    (from : SocketAddr) (payload : List ℕ) (s : Association) (a : SocketAddr)
    → s.client_addr ≡ some a
    → AreTo a (relay_reply from payload s)
unfolding relay_reply
relay_reply-AreTo from payload s a e = rw e (refl, tt)

step-AreTo :
    (event : Event) (s : Association) (a : SocketAddr)
    → s.client_addr ≡ some a
    → AreTo a ((step event s).1)
unfolding step
step-AreTo (reply from payload) s a e = relay_reply-AreTo from payload s a e
step-AreTo control_closed s a e = tt
step-AreTo relay_failed s a e = tt
step-AreTo (datagram from bytes) s a e = tt
step-AreTo control_byte s a e = tt
step-AreTo (worker_takes t) s a e = tt
step-AreTo (worker_ends t) s a e = tt
step-AreTo (acquires n) s a e = tt
step-AreTo (frees n) s a e = tt

sent-AreTo :
    (events : List Event) (s : Association) (a : SocketAddr)
    → s.client_addr ≡ some a
    → AreTo a (sent events s)
unfolding sent
sent-AreTo [] s a known = tt
sent-AreTo (event ∷ events) s a known =
    All-append (λ out. out.0 ≡ a) ((step event s).1) _ (step-AreTo event s a known)
      (elim (Option-cases ((step event s).0)) [
        | inl ends ↦ rw ends tt
        | inr (next, e) ↦
            let (peer, kept) = subst (Whenever (Keeps s)) e (step-Keeps event s) in
            rw e (sent-AreTo events next a (kept a known))
      ])

-- one address with the peer's IP gets all that is sent
abbrev pub IsForOne : SocketAddr → List (SocketAddr × List ℕ) → Type 0
IsForOne peer out = (out ≡ []) ⊎ ((a : SocketAddr) × (ip_eq a.ip peer.ip ≡ true) × AreTo a out)

step_unknown : (event : Event) (s : Association) → s.client_addr ≡ none → (step event s).1 ≡ []
unfolding step relay_reply
step_unknown (reply from payload) s e = rw e refl
step_unknown control_closed s e = refl
step_unknown relay_failed s e = refl
step_unknown (datagram from bytes) s e = refl
step_unknown control_byte s e = refl
step_unknown (worker_takes t) s e = refl
step_unknown (worker_ends t) s e = refl
step_unknown (acquires n) s e = refl
step_unknown (frees n) s e = refl

-- Whatever the events of a run, all that is sent to the client's side goes to one single address, whose
-- IP is that of the control connection's peer.
pub sent-IsForOne :
    {total : ℕ} (events : List Event) (s : Association)
    → IsAssociation total s
    → IsForOne s.peer (sent events s)
unfolding sent
sent-IsForOne [] s v = inl refl
sent-IsForOne {total} (event ∷ events) s v = elim (Option-cases s.client_addr) [
  | inr (a, known) ↦
      inr (a, subst (IsKnown s.peer) known v.known, sent-AreTo (event ∷ events) s a known)
  | inl unknown ↦ elim (Option-cases ((step event s).0)) [
    | inl ends ↦ inl (rw (step_unknown event s unknown, ends) refl)
    | inr (next, e) ↦
        let valid : IsAssociation total next =
          subst (Whenever (IsAssociation total)) e (step-IsAssociation event s v) in
        let (peer, kept) = subst (Whenever (Keeps s)) e (step-Keeps event s) in
        rw (step_unknown event s unknown, e)
          (subst (λ p. IsForOne p (sent events next)) peer (sent-IsForOne events next valid))
  ]
]
