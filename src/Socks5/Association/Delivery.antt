-- ===== src/Socks5/Association/Delivery.antt =====
-- What becomes of a datagram that the client sends for a target with room.
use mathlib.Core.Path.{subst}
use warp_socks.Prelude.{
  ℕ, ◌<◌, ◌≤◌, ◌≡◌, refl, sym, ap, ◌∙◌, List, [], ◌∷◌, ◌++◌, ◌^◌, drop-append_length, Option, none,
  some, true, false, length, ltb, leb, ◌==◌, Bool-cases, Option-cases, some_injective, inl, inr,
  arith, eq→==,
}
use warp_socks.Prelude.Utf8.{bytes_eq_refl}
use warp_socks.Net.{SocketAddr, addr_eq_refl, IsIp}
use warp_socks.Socks5.Udp.{SocketAddrOrName, addr, name, encode_udp_header}
use warp_socks.Socks5.Udp.Header.{decode_udp_header-encode_udp_header}
use warp_socks.Socks5.Association.{
  Route, Egress, Association, receiving_routes, prune, find, adjust, enqueue, open_route, send_on,
  send_pruned, send, target_eq, udp_source_allowed, relay_datagram,
}
use warp_socks.Socks5.Association.Invariant.{receiving_routes-find}

target_eq_refl : (t : SocketAddrOrName) → target_eq t t ≡ true
target_eq_refl (addr a) = addr_eq_refl a
target_eq_refl (name n p) = rw (bytes_eq_refl n, eq→== p p refl) refl

find-adjust :
    (t : SocketAddrOrName) (f : Route → Route) (rs : List Route) (r : Route)
    → ((q : Route) → (f q).target ≡ q.target)
    → find t rs ≡ some r
    → find t (adjust t f rs) ≡ some (f r)
unfolding find adjust
find-adjust t f [] r kept e = cc
find-adjust t f (q ∷ rs) r kept e = elim (Bool-cases (target_eq q.target t)) [
  | inl same ↦
      let still : target_eq (f q).target t ≡ true = ap (λ x. target_eq x t) (kept q) ∙ same in
      let here : q ≡ r = some_injective (sym (rw (same, find) refl) ∙ e) in
      rw (same, adjust, still, find) (ap (λ x. some (f x)) here)
  | inr other ↦
      rw (other, adjust, find, other) (find-adjust t f rs r kept (sym (rw (other, find) refl) ∙ e))
]

-- The datagram is the last one of the channel to the worker of its target.
abbrev pub EndsWith : List ℕ → Route → Type 0
EndsWith payload r = (earlier : List (List ℕ)) × (r.queued ≡ earlier ++ (payload ∷ []))

abbrev pub IsQueued : SocketAddrOrName → List ℕ → Egress → Type 0
IsQueued t payload e = (r : Route) × (find t e.routes ≡ some r) × EndsWith payload r

-- the target's channel has room, or the target has none and one more worker may start
abbrev pub RoomFor : Egress → Option Route → Type 0
RoomFor e none = (length (receiving_routes e.routes) < 64) × (0 < e.workers)
RoomFor e (some r) = length r.queued < 32

abbrev pub HasRoom : SocketAddrOrName → Egress → Type 0
HasRoom t e = RoomFor e (find t (receiving_routes e.routes))

open_route-IsQueued :
    (t : SocketAddrOrName) (payload : List ℕ) (e : Egress)
    → length e.routes < 64
    → 0 < e.workers
    → IsQueued t payload (open_route t payload e)
unfolding open_route find
open_route-IsQueued t payload e room idle =
    let more : leb 64 (length e.routes) ≡ false = ground arith in
    let free : (e.workers == 0) ≡ false = ground arith in
    rw (more, free)
      (
        record { target = t; queued = payload ∷ []; receiving = true },
        rw (target_eq_refl t) refl,
        ([], refl),
      )

send_on-IsQueued :
    (r : Route) (t : SocketAddrOrName) (payload : List ℕ) (e : Egress)
    → find t e.routes ≡ some r
    → r.receiving ≡ true
    → length r.queued < 32
    → IsQueued t payload (send_on r t payload e)
unfolding send_on
send_on-IsQueued r t payload e found on room =
    let more : leb 32 (length r.queued) ≡ false = ground arith in
    rw (on, more)
      (
        enqueue payload r,
        find-adjust t (enqueue payload) e.routes r (λ q. refl) found,
        (r.queued, refl),
      )

send-IsQueued :
    (t : SocketAddrOrName) (payload : List ℕ) (e : Egress)
    → HasRoom t e
    → length payload ≤ e.budget
    → IsQueued t payload (send t payload e)
unfolding send prune send_pruned
send-IsQueued t payload e room le =
    let fits : ltb e.budget (length payload) ≡ false = ground arith in
    elim (Option-cases (find t (receiving_routes e.routes))) [
      | inl absent ↦
          let (few, idle) = subst (RoomFor e) absent room in
          rw (fits, absent) (open_route-IsQueued t payload (prune e) few idle)
      | inr (r, found) ↦
          rw (fits, found)
            (send_on-IsQueued r t payload (prune e) found (receiving_routes-find t e.routes r found)
              (subst (RoomFor e) found room))
    ]

-- A datagram of the client (one whose source is allowed) with a header for an address is relayed: if the
-- address has a route with room, or one can be opened, and the payload fits the free bytes, then
-- afterwards the route of that address has the payload at the end of its channel.
pub relay_datagram-IsQueued :
    (from a : SocketAddr) (payload : List ℕ) (s : Association)
    → IsIp a.ip
    → a.port < 2 ^ 16
    → udp_source_allowed s.peer s.client_addr from ≡ true
    → HasRoom (addr a) s.egress
    → length payload ≤ s.egress.budget
    → IsQueued (addr a) payload (relay_datagram from (encode_udp_header a ++ payload) s).egress
unfolding relay_datagram
relay_datagram-IsQueued from a payload s good port fine room le =
    rw
      (
        fine,
        decode_udp_header-encode_udp_header a payload good port,
        drop-append_length (encode_udp_header a) payload,
      )
      (send-IsQueued (addr a) payload s.egress room le)
