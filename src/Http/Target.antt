-- ===== src/Http/Target.antt =====
-- What a request to the HTTP proxy is answered, and what stands behind a tunnel.
use mathlib.Core.Path.{subst}
use warp_socks.Prelude.{
  ℕ, ◌≡◌, ◌≢◌, ◌⊎◌, refl, sym, List, [], Option, none, some, Bool, true, false, ◌==◌, inl, inr,
  Bool-cases, ==→eq, ==→ne, Option-cases,
}
use warp_socks.Prelude.Exec.{Result, ok, err, Result-cases}
use warp_socks.Net.{IpAddr, Host}
use warp_socks.Http.{
  error_response, no_body, upstream_body, Authority, Request, TargetError, ForwardError, HeaderMap,
  Response, Tunnel, connect_tunnel, upgrade_tunnel, forward, forward_to, get, has, relayed, serve,
  strip_hop_headers, tunnelled, upgrade, upstream_headers, target, dial_failed, repeated_upgrade,
  bad_authority, upstream_failed, unrequested_upgrade,
}

-- what holds of a result holds of what equals it
transfer : {A : Type 0} (P : A → Type 0) {x y : A} → P y → x ≡ y → P x
transfer P p e = subst P (sym e) p

module _ (dials : Host → ℕ → Bool) (free : Bool) (as_value : List ℕ → Bool)
    (send : HeaderMap → Option (ℕ × HeaderMap)) where
  -- What the upstream's answer to a request of the client comes to.
  pub data Relays (request : Request) (authority : List ℕ)
      : ℕ × HeaderMap → Result ForwardError (Response × Option Tunnel) → Type 0 where
    plain_answer :
        (status : ℕ) (headers : HeaderMap)
        → status ≢ 101
        → Relays request authority
            (status, headers)
            (ok (
              record {
                status = status;
                headers = strip_hop_headers headers none;
                body = upstream_body;
              },
              none,
            ))
    switches :
        (headers : HeaderMap)
        → has upgrade request.headers ≡ true
        → free ≡ true
        → Relays request authority
            (101, headers)
            (ok (
              record {
                status = 101;
                headers = strip_hop_headers headers (get upgrade headers);
                body = no_body;
              },
              some (upgrade_tunnel authority),
            ))
    switch_unasked :
        (headers : HeaderMap)
        → has upgrade request.headers ≡ false
        → Relays request authority (101, headers) (err unrequested_upgrade)
    switch_taken :
        (headers : HeaderMap)
        → has upgrade request.headers ≡ true
        → free ≡ false
        → Relays request authority (101, headers) (err repeated_upgrade)

  -- What a request with a valid target comes to.
  pub data Forwards (request : Request)
      : Host × ℕ × List ℕ → Result ForwardError (Response × Option Tunnel) → Type 0 where
    undialled :
        (host : Host) (port : ℕ) (authority : List ℕ)
        → dials host port ≡ false
        → Forwards request (host, port, authority) (err dial_failed)
    connects :
        (host : Host) (port : ℕ) (authority : List ℕ)
        → dials host port ≡ true
        → request.is_connect ≡ true
        → free ≡ true
        → Forwards request
            (host, port, authority)
            (ok (
              record { status = 200; headers = []; body = no_body },
              some (connect_tunnel authority),
            ))
    connect_taken :
        (host : Host) (port : ℕ) (authority : List ℕ)
        → dials host port ≡ true
        → request.is_connect ≡ true
        → free ≡ false
        → Forwards request (host, port, authority) (err repeated_upgrade)
    unwritable :
        (host : Host) (port : ℕ) (authority : List ℕ)
        → dials host port ≡ true
        → request.is_connect ≡ false
        → as_value authority ≡ false
        → Forwards request (host, port, authority) (err bad_authority)
    unanswered :
        (host : Host) (port : ℕ) (authority : List ℕ)
        → dials host port ≡ true
        → request.is_connect ≡ false
        → as_value authority ≡ true
        → send (upstream_headers request.headers authority) ≡ none
        → Forwards request (host, port, authority) (err upstream_failed)
    relays :
        (host : Host) (port : ℕ) (authority : List ℕ) (answer : ℕ × HeaderMap)
        (result : Result ForwardError (Response × Option Tunnel))
        → dials host port ≡ true
        → request.is_connect ≡ false
        → as_value authority ≡ true
        → send (upstream_headers request.headers authority) ≡ some answer
        → Relays request authority answer result
        → Forwards request (host, port, authority) result

  relayed-Relays :
      (request : Request) (authority : List ℕ) (answer : ℕ × HeaderMap)
      → Relays request authority answer
          (relayed free (has upgrade request.headers) authority answer)
  unfolding relayed tunnelled
  relayed-Relays request authority (status, headers) = elim (Bool-cases (status == 101)) [
    | inr other ↦ rw other (plain_answer status headers (==→ne status 101 other))
    | inl switching ↦
        subst
          (λ s.
            Relays request authority (s, headers)
              (relayed free (has upgrade request.headers) authority (s, headers)))
          (sym (==→eq status 101 switching))
          (elim (Bool-cases (has upgrade request.headers)) [
            | inr unasked ↦
                transfer (Relays request authority (101, headers)) (switch_unasked headers unasked)
                  (rw unasked refl)
            | inl asked ↦ elim (Bool-cases free) [
              | inr taken ↦
                  transfer (Relays request authority (101, headers))
                    (switch_taken headers asked taken) (rw (asked, taken) refl)
              | inl vacant ↦
                  transfer (Relays request authority (101, headers)) (switches headers asked vacant)
                    (rw (asked, vacant) refl)
            ]
          ])
  ]

  forward_to-Forwards :
      (request : Request) (host : Host) (port : ℕ) (authority : List ℕ)
      → Forwards request
          (host, port, authority)
          (forward_to dials free as_value send request (host, port, authority))
  unfolding forward_to tunnelled
  forward_to-Forwards request host port authority = elim (Bool-cases (dials host port)) [
    | inr dead ↦
        transfer (Forwards request (host, port, authority)) (undialled host port authority dead)
          (rw dead refl)
    | inl dialled ↦ elim (Bool-cases request.is_connect) [
      | inl asks ↦ elim (Bool-cases free) [
        | inr taken ↦
            transfer (Forwards request (host, port, authority))
              (connect_taken host port authority dialled asks taken)
              (rw (dialled, asks, taken) refl)
        | inl vacant ↦
            transfer (Forwards request (host, port, authority))
              (connects host port authority dialled asks vacant) (rw (dialled, asks, vacant) refl)
      ]
      | inr plain ↦ elim (Bool-cases (as_value authority)) [
        | inr odd ↦
            transfer (Forwards request (host, port, authority))
              (unwritable host port authority dialled plain odd) (rw (dialled, plain, odd) refl)
        | inl value ↦ elim (Option-cases (send (upstream_headers request.headers authority))) [
          | inl dead ↦
              transfer (Forwards request (host, port, authority))
                (unanswered host port authority dialled plain value dead)
                (rw (dialled, plain, value, dead) refl)
          | inr (answer, e) ↦
              transfer (Forwards request (host, port, authority))
                (relays host port authority answer
                  (relayed free (has upgrade request.headers) authority answer) dialled plain value
                  e (relayed-Relays request authority answer))
                (rw (dialled, plain, value, e) refl)
        ]
      ]
    ]
  ]

  -- What the client is answered, by the target of the request: 400 when it has none, and else what
  -- forwarding comes to, where any failure is a 502 without a tunnel.
  abbrev pub IsAnswered :
      Request → Result TargetError (Host × ℕ × List ℕ) → Response × Option Tunnel → Type 0
  IsAnswered request (err e) answer = answer ≡ (error_response 400, none)
  IsAnswered request (ok at) answer =
      Forwards request at (ok answer)
      ⊎ ((e : ForwardError) × Forwards request at (err e) × (answer ≡ (error_response 502, none)))

  module _ (parse_ip : List ℕ → Option IpAddr) (parse_authority : List ℕ → Option Authority) where
    abbrev pub IsServed : Request → Response × Option Tunnel → Type 0
    IsServed request = IsAnswered request (target parse_ip parse_authority request)

    forward_to-IsServed :
        (request : Request) (at : Host × ℕ × List ℕ)
        → target parse_ip parse_authority request ≡ ok at
        → IsServed request (serve dials free as_value send parse_ip parse_authority request)
    unfolding serve forward
    forward_to-IsServed request (host, port, authority) found =
        let forwarded = forward_to-Forwards request host port authority in
        elim (Result-cases (forward_to dials free as_value send request (host, port, authority))) [
          | inr (error, e) ↦
              rw (found, serve, e)
                (inr (error, subst (Forwards request (host, port, authority)) e forwarded, refl))
          | inl (answer, e) ↦
              rw (found, serve, e)
                (inl (subst (Forwards request (host, port, authority)) e forwarded))
        ]

    -- A request without a valid target is answered 400. Any other is dialled first. A CONNECT is then
    -- answered 200 with a tunnel to the target's authority. Any other request is sent on with the headers
    -- of upstream_headers, and the upstream's answer goes to the client with its status and without
    -- its hop headers, unless the status is 101: that opens a tunnel when the client asked for an
    -- upgrade. A connection has one tunnel at most. In every other case (no dial, a second tunnel, an
    -- authority that is no header value, no answer, a 101 that was not asked for) the answer is 502, and
    -- no tunnel is opened.
    pub serve-IsServed :
        (request : Request)
        → IsServed request (serve dials free as_value send parse_ip parse_authority request)
    unfolding serve forward
    serve-IsServed request = elim (Result-cases (target parse_ip parse_authority request)) [
      | inr (e, bad) ↦ rw (bad, serve) refl
      | inl (at, found) ↦ forward_to-IsServed request at found
    ]
