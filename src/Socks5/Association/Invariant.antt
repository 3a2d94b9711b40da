-- ===== src/Socks5/Association/Invariant.antt =====
-- What holds of a UDP association between two turns of its loop.
use mathlib.Core.Path.{subst}
use warp_socks.Prelude.{
  ℕ, ◌+◌, ◌-◌, ◌<◌, ◌≤◌, ◌≡◌, refl, sym, ap, ◌∙◌, List, [], ◌∷◌, ◌++◌, some, true, false, length,
  length-append, ltb, leb, ◌==◌, Bool-cases, Option-cases, some_injective, inl, inr, arith, All,
}
use warp_socks.Socks5.Udp.{SocketAddrOrName}
use warp_socks.Socks5.Association.{
  Route, Egress, receiving_routes, prune, find, adjust, enqueue, after_first, open_route, send_on,
  send_pruned, send, bytes_of, first_length, take_oldest, close, Event, worker_takes, worker_ends,
  control_byte, control_closed, relay_failed, datagram, reply, acquires, frees, worker_event,
  target_eq, udp_target_channel_capacity,
}

unfoldable pub queued_bytes : List Route → ℕ
queued_bytes [] = 0
queued_bytes (r ∷ rs) = bytes_of r.queued + queued_bytes rs

-- a channel within its capacity, and empty when its worker is gone
pub record IsRoute (r : Route) : Type 0 where
  pub within : length r.queued ≤ udp_target_channel_capacity
  pub emptied : r.receiving ≡ false → bytes_of r.queued ≡ 0

-- of the routes and the semaphore of bytes, whose permits are `total`
pub record IsEgress (total : ℕ) (e : Egress) : Type 0 where
  pub few : length e.routes ≤ 64
  pub bounded : All IsRoute e.routes
  pub conserved : e.budget + queued_bytes e.routes + e.held ≡ total

length-receiving_routes : (rs : List Route) → length (receiving_routes rs) ≤ length rs
unfolding receiving_routes
length-receiving_routes [] = omega arith
length-receiving_routes (r ∷ rs) = let rest = length-receiving_routes rs in ground arith

receiving_routes-All : (rs : List Route) → All IsRoute rs → All IsRoute (receiving_routes rs)
unfolding receiving_routes
receiving_routes-All [] h = tt
receiving_routes-All (r ∷ rs) (h, hs) = elim (Bool-cases r.receiving) [
  | inl on ↦ simp on (h, receiving_routes-All rs hs)
  | inr off ↦ simp off (receiving_routes-All rs hs)
]

receiving_routes-bytes :
    (rs : List Route) → All IsRoute rs → queued_bytes (receiving_routes rs) ≡ queued_bytes rs
unfolding receiving_routes queued_bytes
receiving_routes-bytes [] h = refl
receiving_routes-bytes (r ∷ rs) (h, hs) = elim (Bool-cases r.receiving) [
  | inl on ↦ rw on (omega (arith, receiving_routes-bytes rs hs))
  | inr off ↦ rw off (omega (arith, receiving_routes-bytes rs hs, h.emptied off))
]

prune-IsEgress : {total : ℕ} (e : Egress) → IsEgress total e → IsEgress total (prune e)
unfolding prune
prune-IsEgress e v = record {
  few = omega (arith, length-receiving_routes e.routes, v.few);
  bounded = receiving_routes-All e.routes v.bounded;
  conserved = omega (arith, receiving_routes-bytes e.routes v.bounded, v.conserved);
}

-- the route that `find` gives is one of the routes
found-IsRoute :
    (t : SocketAddrOrName) (rs : List Route) (r : Route)
    → All IsRoute rs
    → find t rs ≡ some r
    → IsRoute r × (bytes_of r.queued ≤ queued_bytes rs)
unfolding find queued_bytes
found-IsRoute t [] r all e = cc
found-IsRoute t (q ∷ rs) r (h, hs) e = elim (Bool-cases (target_eq q.target t)) [
  | inl same ↦
      let here : q ≡ r = some_injective (sym (rw (same, find) refl) ∙ e) in
      (subst IsRoute here h, omega (arith, ap (λ x. bytes_of x.queued) here))
  | inr other ↦
      let (good, le) = found-IsRoute t rs r hs (sym (rw (other, find) refl) ∙ e) in
      (good, omega (arith, le))
]

bytes_of-append :
    (ps : List (List ℕ)) (p : List ℕ) → bytes_of (ps ++ p ∷ []) ≡ bytes_of ps + length p
unfolding bytes_of
bytes_of-append [] p = omega arith
bytes_of-append (q ∷ ps) p = omega (arith, bytes_of-append ps p)

-- a datagram added to a channel with room, whose worker is there
appended-IsRoute :
    (r : Route) (payload : List ℕ)
    → length r.queued < udp_target_channel_capacity
    → r.receiving ≡ true
    → IsRoute (enqueue payload r)
appended-IsRoute r payload room on = record {
  within = omega (arith, length-append r.queued (payload ∷ []), room);
  emptied = λ off. cc;
}

-- a change of the route that was found, which keeps it within its bounds
adjust_lem :
    (t : SocketAddrOrName) (f : Route → Route) (rs : List Route) (r : Route)
    → All IsRoute rs
    → find t rs ≡ some r
    → IsRoute (f r)
    → All IsRoute (adjust t f rs)
      × (length (adjust t f rs) ≡ length rs)
      × (queued_bytes (adjust t f rs) + bytes_of r.queued ≡ queued_bytes rs + bytes_of (f r).queued)
unfolding adjust find queued_bytes
adjust_lem t f [] r all e good = cc
adjust_lem t f (q ∷ rs) r (h, hs) e good = elim (Bool-cases (target_eq q.target t)) [
  | inl same ↦
      let here : r ≡ q = some_injective (sym e ∙ rw (same, find) refl) in
      rw (same, adjust)
        (
          (subst (λ x. IsRoute (f x)) here good, hs),
          refl,
          omega (arith, ap (λ x. bytes_of x.queued) here, ap (λ x. bytes_of (f x).queued) here),
        )
  | inr other ↦
      let (all, len, bytes) = adjust_lem t f rs r hs (sym (rw (other, find) refl) ∙ e) good in
      rw (other, adjust) ((h, all), omega (arith, len), omega (arith, bytes))
]

pub receiving_routes-find :
    (t : SocketAddrOrName) (rs : List Route) (r : Route)
    → find t (receiving_routes rs) ≡ some r
    → r.receiving ≡ true
unfolding receiving_routes find
receiving_routes-find t [] r e = cc
receiving_routes-find t (q ∷ rs) r e = elim (Bool-cases q.receiving) [
  | inl on ↦
      let seen : find t (q ∷ receiving_routes rs) ≡ some r =
        sym (rw (on, receiving_routes) refl) ∙ e in
      elim (Bool-cases (target_eq q.target t)) [
        | inl same ↦
            let here : q ≡ r = some_injective (sym (rw (same, find) refl) ∙ seen) in
            sym (ap (λ x. x.receiving) here) ∙ on
        | inr other ↦ receiving_routes-find t rs r (sym (rw (other, find) refl) ∙ seen)
      ]
  | inr off ↦ receiving_routes-find t rs r (sym (rw (off, receiving_routes) refl) ∙ e)
]

open_route-IsEgress :
    {total : ℕ} (t : SocketAddrOrName) (payload : List ℕ) (e : Egress)
    → IsEgress total e
    → length payload ≤ e.budget
    → IsEgress total (open_route t payload e)
unfolding open_route queued_bytes bytes_of
open_route-IsEgress t payload e v le = elim (Bool-cases (leb 64 (length e.routes))) [
  | inl full ↦ rw full v
  | inr room ↦ elim (Bool-cases (e.workers == 0)) [
    | inl busy ↦ rw (room, busy) v
    | inr idle ↦
        rw (room, idle)
          (record {
            few = ground arith;
            bounded = (record { within = omega arith; emptied = λ off. cc }, v.bounded);
            conserved = omega (arith, v.conserved, le);
          })
  ]
]

-- a route that was found is changed, and with it the permits of its bytes
adjusted-IsEgress :
    {total : ℕ} (t : SocketAddrOrName) (f : Route → Route) (r : Route) (e : Egress)
    (workers budget held : ℕ)
    → IsEgress total e
    → find t e.routes ≡ some r
    → IsRoute (f r)
    → bytes_of (f r).queued + budget + held ≡ bytes_of r.queued + e.budget + e.held
    → IsEgress total
        (record { routes = adjust t f e.routes; workers = workers; budget = budget; held = held })
adjusted-IsEgress t f r e workers budget held v found good bytes =
    let (all, len, same) = adjust_lem t f e.routes r v.bounded found good in
    record {
      few = omega (arith, len, v.few);
      bounded = all;
      conserved = omega (arith, same, bytes, v.conserved);
    }

send_on-IsEgress :
    {total : ℕ} (r : Route) (t : SocketAddrOrName) (payload : List ℕ) (e : Egress)
    → IsEgress total e
    → find t e.routes ≡ some r
    → r.receiving ≡ true
    → length payload ≤ e.budget
    → IsEgress total (send_on r t payload e)
unfolding send_on
send_on-IsEgress r t payload e v found on le =
    elim (Bool-cases (leb udp_target_channel_capacity (length r.queued))) [
      | inl full ↦ rw (on, full) v
      | inr room ↦
          rw (on, room)
            (adjusted-IsEgress t (enqueue payload) r e e.workers (e.budget - length payload) e.held
              v found (appended-IsRoute r payload (ground arith) on)
              (omega (arith, bytes_of-append r.queued payload, le)))
    ]

send_pruned-IsEgress :
    {total : ℕ} (t : SocketAddrOrName) (payload : List ℕ) (e : Egress)
    → IsEgress total e
    → ((r : Route) → find t e.routes ≡ some r → r.receiving ≡ true)
    → IsEgress total (send_pruned t payload e)
unfolding send_pruned
send_pruned-IsEgress t payload e v alive = elim (Bool-cases (ltb e.budget (length payload))) [
  | inl short ↦ rw short v
  | inr room ↦ elim (Option-cases (find t e.routes)) [
    | inl absent ↦ rw (room, absent) (open_route-IsEgress t payload e v (ground arith))
    | inr (r, found) ↦
        rw (room, found) (send_on-IsEgress r t payload e v found (alive r found) (ground arith))
  ]
]

pub send-IsEgress :
    {total : ℕ} (t : SocketAddrOrName) (payload : List ℕ) (e : Egress)
    → IsEgress total e
    → IsEgress total (send t payload e)
unfolding send prune
send-IsEgress t payload e v =
    send_pruned-IsEgress t payload (prune e) (prune-IsEgress e v) (receiving_routes-find t e.routes)

after_first_lem :
    (ps : List (List ℕ))
    → (length (after_first ps) ≤ length ps)
      × (bytes_of (after_first ps) + first_length ps ≡ bytes_of ps)
unfolding bytes_of
after_first_lem [] = (omega arith, refl)
after_first_lem (p ∷ ps) = (omega arith, omega arith)

-- the oldest datagram leaves a channel
taken-IsRoute : (r : Route) → IsRoute r → IsRoute (take_oldest r)
taken-IsRoute r v =
    let (shorter, bytes) = after_first_lem r.queued in
    record {
      within = omega (arith, shorter, v.within);
      emptied = λ off. omega (arith, bytes, v.emptied off);
    }

closed-IsRoute : (r : Route) → IsRoute (close r)
unfolding bytes_of
closed-IsRoute r = record { within = omega arith; emptied = λ off. refl }

pub worker_event-IsEgress :
    {total : ℕ} (event : Event) (e : Egress)
    → IsEgress total e
    → IsEgress total (worker_event event e)
unfolding worker_event bytes_of
worker_event-IsEgress (worker_takes t) e v = elim (Option-cases (find t e.routes)) [
  | inl absent ↦ rw (absent, worker_event) v
  | inr (r, found) ↦
      let (good, le) = found-IsRoute t e.routes r v.bounded found in
      let (shorter, bytes) = after_first_lem r.queued in
      rw (found, worker_event)
        (adjusted-IsEgress t take_oldest r e e.workers e.budget (e.held + first_length r.queued) v
          found (taken-IsRoute r good) (omega (arith, bytes)))
]
worker_event-IsEgress (worker_ends t) e v = elim (Option-cases (find t e.routes)) [
  | inl absent ↦ rw (absent, worker_event) v
  | inr (r, found) ↦ elim (Bool-cases r.receiving) [
    | inl on ↦
        rw (found, worker_event, on)
          (adjusted-IsEgress t close r e (e.workers + 1) (e.budget + bytes_of r.queued) e.held v
            found (closed-IsRoute r) (omega arith))
    | inr off ↦ rw (found, worker_event, off) v
  ]
]
worker_event-IsEgress (acquires n) e v = elim (Bool-cases (ltb e.budget n)) [
  | inl short ↦ rw (short, worker_event) v
  | inr room ↦
      let fits : n ≤ e.budget = ground arith in
      rw (room, worker_event)
        (record { few = v.few; bounded = v.bounded; conserved = omega (arith, v.conserved, fits) })
]
worker_event-IsEgress (frees n) e v = elim (Bool-cases (ltb e.held n)) [
  | inl short ↦ rw (short, worker_event) v
  | inr room ↦
      let fits : n ≤ e.held = ground arith in
      rw (room, worker_event)
        (record { few = v.few; bounded = v.bounded; conserved = omega (arith, v.conserved, fits) })
]
worker_event-IsEgress control_byte e v = v
worker_event-IsEgress control_closed e v = v
worker_event-IsEgress relay_failed e v = v
worker_event-IsEgress (datagram from bytes) e v = v
worker_event-IsEgress (reply from payload) e v = v
