-- ===== src/Socks5/Association.antt =====
-- socks5.rs, the loop of `handle_udp_associate`: the client's address, the routes of `UdpEgressSet`, and
-- the two semaphores that all associations share. What the sockets and the workers do are events.
pub mod Client
pub mod Delivery
pub mod Invariant
use warp_socks.Prelude.{
  ℕ, ◌+◌, ◌-◌, ◌*◌, List, [], ◌∷◌, ◌++◌, Option, none, some, Bool, true, false, not, ◌&&◌, length,
  drop, ltb, leb, ◌==◌, if◌then◌else◌,
}
use warp_socks.Prelude.Utf8.{bytes_eq}
use warp_socks.Net.{SocketAddr, ip_eq, addr_eq}
use warp_socks.Socks5.Udp.{SocketAddrOrName, addr, name, decode_udp_header, encode_udp_header}

abbrev pub max_udp_targets_per_association : ℕ
max_udp_targets_per_association = 64

abbrev pub udp_target_channel_capacity : ℕ
udp_target_channel_capacity = 32

abbrev pub target_eq : SocketAddrOrName → SocketAddrOrName → Bool
target_eq (addr a) (addr b) = addr_eq a b
target_eq (name n p) (name m q) = bytes_eq n m && p == q
target_eq (addr a) (name m q) = false
target_eq (name n p) (addr b) = false

-- A route: its target, the datagrams in the channel to its worker, and whether the worker still
-- receives. `routes` is the map, `workers` the free permits of `UDP_WORKERS`, `budget` the free bytes
-- of `UDP_QUEUE_BYTES`, and `held` the bytes that are neither free nor queued here.
pub record Route : Type 0 where
  pub target : SocketAddrOrName
  pub queued : List (List ℕ)
  pub receiving : Bool

pub record Egress : Type 0 where
  pub routes : List Route
  pub workers : ℕ
  pub budget : ℕ
  pub held : ℕ

-- `retain(|_, sender| !sender.is_closed())`
unfoldable pub receiving_routes : List Route → List Route
receiving_routes [] = []
receiving_routes (r ∷ rs) = if r.receiving then r ∷ receiving_routes rs else receiving_routes rs

pub prune : Egress → Egress
prune e = record e { routes = receiving_routes e.routes }

unfoldable pub find : SocketAddrOrName → List Route → Option Route
find t [] = none
find t (r ∷ rs) = if target_eq r.target t then some r else find t rs

pub remove : SocketAddrOrName → List Route → List Route
remove t [] = []
remove t (r ∷ rs) = if target_eq r.target t then remove t rs else r ∷ remove t rs

-- a change of the route of a target, where the map has one
pub adjust : SocketAddrOrName → (Route → Route) → List Route → List Route
adjust t f [] = []
adjust t f (r ∷ rs) = if target_eq r.target t then f r ∷ rs else r ∷ adjust t f rs

-- the datagram goes to the end of the route's channel
abbrev pub enqueue : List ℕ → Route → Route
enqueue payload r = record r { queued = r.queued ++ (payload ∷ []) }

-- A worker for a target that has none: within the limit of targets, and if a permit is free.
pub open_route : SocketAddrOrName → List ℕ → Egress → Egress
open_route t payload e =
    if leb max_udp_targets_per_association (length e.routes)
    then e
    else if e.workers == 0
    then e
    else record e {
      routes = record { target = t; queued = payload ∷ []; receiving = true } ∷ e.routes;
      workers = e.workers - 1;
      budget = e.budget - length payload;
    }

-- `try_send` on a route that exists
pub send_on : Route → SocketAddrOrName → List ℕ → Egress → Egress
send_on r t payload e =
    if not r.receiving
    then open_route t payload (record e { routes = remove t e.routes })
    else if leb udp_target_channel_capacity (length r.queued)
    then e
    else record e {
      routes = adjust t (enqueue payload) e.routes;
      budget = e.budget - length payload;
    }

pub send_pruned : SocketAddrOrName → List ℕ → Egress → Egress
send_pruned t payload e =
    if ltb e.budget (length payload)
    then e
    else elim (find t e.routes) [ none ↦ open_route t payload e | some r ↦ send_on r t payload e ]

pub send : SocketAddrOrName → List ℕ → Egress → Egress
send t payload e = send_pruned t payload (prune e)

pub record Association : Type 0 where
  pub peer : SocketAddr
  pub client_addr : Option SocketAddr
  pub egress : Egress

unfoldable pub udp_source_allowed : SocketAddr → Option SocketAddr → SocketAddr → Bool
udp_source_allowed control_peer none source = ip_eq source.ip control_peer.ip
udp_source_allowed control_peer (some learned) source =
    ip_eq source.ip control_peer.ip && addr_eq learned source

-- `client_addr.get_or_insert(from)`
abbrev pub get_or_insert : Option SocketAddr → SocketAddr → Option SocketAddr
get_or_insert none from = some from
get_or_insert (some a) from = some a

-- A datagram from the client's side. The source's second test on `client_addr` repeats the first.
pub relay_datagram : SocketAddr → List ℕ → Association → Association
relay_datagram from bytes s =
    if not (udp_source_allowed s.peer s.client_addr from)
    then s
    else elim (decode_udp_header bytes) [
      | none ↦ s
      | some (target, header_len) ↦ record s {
        client_addr = get_or_insert s.client_addr from;
        egress = send target (drop header_len bytes) s.egress;
      }
    ]

-- what is sent to the client for a reply of a worker
pub relay_reply : SocketAddr → List ℕ → Association → List (SocketAddr × List ℕ)
relay_reply from payload s = elim s.client_addr [
  | none ↦ []
  | some a ↦ (a, encode_udp_header from ++ payload) ∷ []
]

-- `run_udp_egress`, by what it does to the channels: it takes the oldest datagram of a route, it ends
-- and drops what its channel still holds, and bytes are acquired and freed for replies, by datagrams
-- that have been sent, and by other associations.
pub bytes_of : List (List ℕ) → ℕ
bytes_of [] = 0
bytes_of (p ∷ ps) = length p + bytes_of ps

abbrev pub after_first : List (List ℕ) → List (List ℕ)
after_first [] = []
after_first (p ∷ ps) = ps

abbrev pub first_length : List (List ℕ) → ℕ
first_length [] = 0
first_length (p ∷ ps) = length p

abbrev pub take_oldest : Route → Route
take_oldest r = record r { queued = after_first r.queued }

abbrev pub close : Route → Route
close r = record r { queued = []; receiving = false }

pub data Event : Type 0 where
  control_byte control_closed relay_failed : Event
  datagram reply : SocketAddr → List ℕ → Event
  worker_takes worker_ends : SocketAddrOrName → Event
  acquires frees : ℕ → Event

pub worker_event : Event → Egress → Egress
worker_event (worker_takes t) e = elim (find t e.routes) [
  | none ↦ e
  | some r ↦ record e {
    routes = adjust t take_oldest e.routes;
    held = e.held + first_length r.queued;
  }
]
worker_event (worker_ends t) e = elim (find t e.routes) [
  | none ↦ e
  | some r ↦
      if r.receiving
      then record e {
        routes = adjust t close e.routes;
        workers = e.workers + 1;
        budget = e.budget + bytes_of r.queued;
      }
      else e
]
worker_event (acquires n) e =
    if ltb e.budget n then e else record e { budget = e.budget - n; held = e.held + n }
worker_event (frees n) e =
    if ltb e.held n then e else record e { budget = e.budget + n; held = e.held - n }
worker_event _ e = e

-- One turn of the loop: the new state, or the end of the association, and what was sent to the client.
pub step : Event → Association → Option Association × List (SocketAddr × List ℕ)
step control_byte s = (some s, [])
step control_closed s = (none, [])
step relay_failed s = (none, [])
step (datagram from bytes) s = (some (relay_datagram from bytes s), [])
step (reply from payload) s = (some s, relay_reply from payload s)
step event s = (some (record s { egress = worker_event event s.egress }), [])
