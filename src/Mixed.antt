-- ===== src/Mixed.antt =====
-- mixed.rs: the listeners, the turns of `accept_loop` with the permits that all listeners share, and the
-- choice of the protocol. The sockets of the system are arguments.
pub mod Capacity
pub mod Runs
use warp_socks.Prelude.{
  ℕ, zero, suc, ◌+◌, ◌-◌, List, [], ◌∷◌, ◌++◌, Option, none, some, Bool, true, false, not, ◌&&◌,
  ◌||◌, if◌then◌else◌, ◌==◌, leb, ltb, length, get_or,
}
use warp_socks.Prelude.Exec.{Result, ok, err}
use warp_socks.Net.{IpAddr, v4, v6, SocketAddr}

abbrev pub max_connections : ℕ
max_connections = 64

pub data ListenMode : Type 0 where
  auto : ℕ → ListenMode
  explicit : List SocketAddr → ListenMode

abbrev pub unspecified_v4 : IpAddr
unspecified_v4 = v4 (0 ∷ 0 ∷ 0 ∷ 0 ∷ [])

abbrev pub unspecified_v6 : IpAddr
unspecified_v6 = v6 (0 ∷ 0 ∷ 0 ∷ 0 ∷ 0 ∷ 0 ∷ 0 ∷ 0 ∷ 0 ∷ 0 ∷ 0 ∷ 0 ∷ 0 ∷ 0 ∷ 0 ∷ 0 ∷ [])

-- A listener: its address, and whether it only takes clients of the local network.
abbrev pub Listener : Type 0
Listener = SocketAddr × Bool

-- `binds addr only_v6`: whether the system binds the address. The error is the address that it refuses.
module _ (binds : SocketAddr → Bool → Bool) where
  pub bind_all : List SocketAddr → Result SocketAddr (List Listener)
  bind_all [] = ok []
  bind_all (addr ∷ addrs) =
      if binds addr false
      then elim (bind_all addrs) [ err e ↦ err e | ok listeners ↦ ok ((addr, false) ∷ listeners) ]
      else err addr

  pub bind_auto : SocketAddr → SocketAddr → Result SocketAddr (List Listener)
  bind_auto first second =
      if not (binds first false)
      then err first
      else if not (binds second true)
      then err second
      else ok ((first, true) ∷ (second, true) ∷ [])

  pub bind_listeners : ListenMode → Result SocketAddr (List Listener)
  unfolding bind_all bind_auto
  bind_listeners (auto port) =
      bind_auto (record { ip = unspecified_v4; port = port })
        (record { ip = unspecified_v6; port = port })
  bind_listeners (explicit addrs) = bind_all addrs

abbrev octet : List ℕ → ℕ → ℕ
octet octets i = get_or octets i 0

abbrev between : ℕ → ℕ → ℕ → Bool
between lo hi b = leb lo b && leb b hi

-- 127/8; 10/8, 172.16/12 and 192.168/16; 169.254/16
abbrev is_lan_v4 : ℕ → ℕ → Bool
is_lan_v4 a b =
    a == 127
    || (a == 10 || (a == 172 && between 16 31 b || (a == 192 && b == 168 || a == 169 && b == 254)))

abbrev all_zero : ℕ → List ℕ → Bool
all_zero zero octets = true
all_zero (suc n) [] = true
all_zero (suc n) (b ∷ bs) = b == 0 && all_zero n bs

-- ::1; fc00::/7; fe80::/10
unfoldable pub is_lan_address : IpAddr → Bool
is_lan_address (v4 octets) = is_lan_v4 (octet octets 0) (octet octets 1)
is_lan_address (v6 octets) =
    all_zero 15 octets && octet octets 15 == 1
    || (between 0xfc 0xfd (octet octets 0)
        || octet octets 0 == 0xfe && between 0x80 0xbf (octet octets 1))

pub data ErrorKind : Type 0 where
  connection_refused connection_aborted connection_reset other : ErrorKind

unfoldable pub is_connection_error : ErrorKind → Bool
is_connection_error connection_refused = true
is_connection_error connection_aborted = true
is_connection_error connection_reset = true
is_connection_error other = false

-- A connection that is being served: its peer, and whether its listener is for the local network.
abbrev pub Connection : Type 0
Connection = SocketAddr × Bool

-- the free permits, and what is served
pub record Pool : Type 0 where
  pub permits : ℕ
  pub serving : List Connection

abbrev pub new_pool : Pool
new_pool = record { permits = max_connections; serving = [] }

-- what a turn of the loop does
pub data Action : Type 0 where
  retry back_off drop_not_lan drop_full serve : Action

unfoldable pub admit : SocketAddr → Bool → Pool → Pool × Action
admit peer lan_only pool =
    if lan_only && not (is_lan_address peer.ip)
    then (pool, drop_not_lan)
    else if pool.permits == 0
    then (pool, drop_full)
    else (record { permits = pool.permits - 1; serving = (peer, lan_only) ∷ pool.serving }, serve)

-- `listener.accept()` gives a peer or an error; or the connection at a position of the pool ends.
pub data Event : Type 0 where
  accepted : Bool → SocketAddr → Event
  failed : Bool → ErrorKind → Event
  ended : ℕ → Event

abbrev pub drop_at : ℕ → List Connection → List Connection
drop_at n [] = []
drop_at zero (c ∷ cs) = cs
drop_at (suc n) (c ∷ cs) = c ∷ drop_at n cs

unfoldable pub end_at : ℕ → Pool → Pool
end_at n pool =
    if ltb n (length pool.serving)
    then record { permits = pool.permits + 1; serving = drop_at n pool.serving }
    else pool

unfoldable pub turn : Event → Pool → Pool × Action
unfolding admit is_connection_error end_at
turn (accepted lan_only peer) pool = admit peer lan_only pool
turn (failed lan_only kind) pool =
    if is_connection_error kind then (pool, retry) else (pool, back_off)
turn (ended n) pool = (end_at n pool, retry)

unfoldable pub turns : List Event → Pool → Pool
unfolding turn
turns [] pool = pool
turns (event ∷ events) pool = turns events (turn event pool).0

-- The outbound that a connection gets: the published one, or a refusing one after RECOVERY_WAIT.
pub data Outlet {ℓ} (O : Type ℓ) : Type ℓ where
  published : O → Outlet O
  unavailable : Outlet O

abbrev pub outlet {ℓ} : {O : Type ℓ} → Option O → Outlet O
outlet none = unavailable
outlet (some o) = published o

pub data Protocol : Type 0 where
  socks5 socks4 http closed timed_out : Protocol

-- `dispatch` by the first byte: `none` when none comes before the deadline
unfoldable pub dispatch : Option (List ℕ) → Protocol
dispatch none = timed_out
dispatch (some []) = closed
dispatch (some (b ∷ bs)) = if b == 0x05 then socks5 else if b == 0x04 then socks4 else http
