-- ===== src/Wireguard.antt =====
-- tunnel.rs: the reserved bytes of a packet, the queue of the outer socket, what becomes of a received
-- datagram, the timer, and the reports of errors. The state machine of boringtun and the socket are
-- arguments; what they answer is given call by call.
pub mod Queue
pub mod Receive
pub mod Runs
use warp_socks.Prelude.{
  ℕ, zero, suc, ◌+◌, ◌-◌, ◌^◌, List, [], ◌∷◌, ◌++◌, Option, none, some, Bool, true, false, not,
  ◌&&◌, ◌||◌, if◌then◌else◌, ◌==◌, leb, ltb, length, min,
}
use warp_socks.Prelude.Exec.{Result, ok, err}

abbrev pub max_pending_network_packets : ℕ
max_pending_network_packets = 256

abbrev pub max_receive_burst : ℕ
max_receive_burst = 64

abbrev pub Packet : Type 0
Packet = List ℕ

-- the three bytes of a configuration
pub record Reserved : Type 0 where
  pub first : ℕ
  pub second : ℕ
  pub third : ℕ

abbrev pub no_reserved : Reserved
no_reserved = record { first = 0; second = 0; third = 0 }

-- `copy_from_slice` onto bytes 1 to 3 of a packet whose type is that of a WireGuard message
pub overwrite : Reserved → Packet → Packet
overwrite r (kind ∷ a ∷ b ∷ c ∷ rest) =
    if ltb 0 kind && ltb kind 5
    then kind ∷ r.first ∷ r.second ∷ r.third ∷ rest
    else kind ∷ a ∷ b ∷ c ∷ rest
overwrite r packet = packet

unfoldable pub patch_reserved : Reserved → Packet → Packet
unfolding overwrite
patch_reserved r packet = overwrite r packet

unfoldable pub strip_reserved : Packet → Packet
unfolding overwrite
strip_reserved packet = overwrite no_reserved packet

-- What the socket says to one `try_send`, and what the outer socket has sent so far, in order; `dropped`
-- counts the packets that found the queue full.
pub data SendResult : Type 0 where
  sent would_block send_error : SendResult

pub record Outer : Type 0 where
  pub on_wire : List Packet
  pub pending : List Packet
  pub dropped : ℕ

abbrev pub new_outer : Outer
new_outer = record { on_wire = []; pending = []; dropped = 0 }

abbrev pub enqueue : Packet → Outer → Outer
enqueue packet o =
    if length o.pending == max_pending_network_packets
    then record o { dropped = o.dropped + 1 }
    else record o { pending = o.pending ++ (packet ∷ []) }

abbrev pub put_on_wire : Packet → Outer → Outer
put_on_wire packet o = record o { on_wire = o.on_wire ++ (packet ∷ []) }

-- the attempt on an empty queue
abbrev pub send_now : Packet → SendResult → Outer → Bool × Outer
send_now packet sent o = (true, put_on_wire packet o)
send_now packet would_block o = (true, enqueue packet o)
send_now packet send_error o = (false, o)

-- by the queue as it is; `false` is the error that the call returns
abbrev pub send_behind : List Packet → Packet → SendResult → Outer → Bool × Outer
send_behind [] packet answer o = send_now packet answer o
send_behind (p ∷ ps) packet answer o = (true, enqueue packet o)

unfoldable pub send_or_queue_network : Packet → SendResult → Outer → Bool × Outer
send_or_queue_network packet answer o = send_behind o.pending packet answer o

pub data Flush : Type 0 where
  flushed flush_pending flush_error : Flush

-- The answers of the socket to the packets of the queue, one by one; when there is none left the socket
-- is not ready.
unfoldable pub flush_queue : List Packet → List SendResult → Outer → Flush × Outer
flush_queue [] answers o = (flushed, record o { pending = [] })
flush_queue (p ∷ ps) [] o = (flush_pending, record o { pending = p ∷ ps })
flush_queue (p ∷ ps) (sent ∷ answers) o = flush_queue ps answers (put_on_wire p o)
flush_queue (p ∷ ps) (would_block ∷ answers) o = (flush_pending, record o { pending = p ∷ ps })
flush_queue (p ∷ ps) (send_error ∷ answers) o = (flush_error, record o { pending = p ∷ ps })

unfoldable pub poll_network_flush : List SendResult → Outer → Flush × Outer
unfolding flush_queue
poll_network_flush answers o = flush_queue o.pending answers o

-- what the state machine answers to a call
pub data TunnResult (E : Type 0) : Type 0 where
  done : TunnResult E
  tunn_error : E → TunnResult E
  write_to_network write_to_tunnel_v4 write_to_tunnel_v6 : Packet → TunnResult E

-- A call that writes one packet or none: whether it succeeds, and the outer socket afterwards.
unfoldable pub emit : Reserved → Option Packet → SendResult → Outer → Bool × Outer
unfolding send_or_queue_network patch_reserved
emit r none answer o = (true, o)
emit r (some packet) answer o = send_or_queue_network (patch_reserved r packet) answer o

-- The timer: what `update_timers` answers, and, if the session has expired, what the new handshake does;
-- the inner `none` is an error of the call.
unfoldable pub tick_packet : TunnResult Bool → TunnResult Bool → Option (Option Packet)
tick_packet (write_to_network packet) again = some (some packet)
tick_packet (tunn_error true) (write_to_network packet) = some (some packet)
tick_packet (tunn_error true) done = some none
tick_packet (tunn_error true) _ = none
tick_packet done again = some none
tick_packet _ again = none

-- a call of the state machine for a timer, and the socket's answer to what it writes
pub record Tick : Type 0 where
  pub timers : TunnResult Bool
  pub again : TunnResult Bool
  pub socket : SendResult

unfoldable pub try_tick : Reserved → Tick → Outer → Bool × Outer
unfolding emit tick_packet
try_tick r tick o = elim (tick_packet tick.timers tick.again) [
  | none ↦ (false, o)
  | some packet ↦ emit r packet tick.socket o
]

unfoldable pub try_ticks : Reserved → List Tick → Outer → Bool × Outer
unfolding try_tick
try_ticks r [] o = (true, o)
try_ticks r (tick ∷ ticks) o =
    let (fine, o') = try_tick r tick o in
    let rest = try_ticks r ticks o' in if fine then rest else (false, o')

-- What one datagram comes to. `decapsulate` is called again after each packet that it writes, and the
-- list has its answers with those of the socket; behind the last one it is done.
pub data Received : Type 0 where
  nothing receive_error : Received
  plaintext : Packet → Received

unfoldable pub receive : Reserved → List (TunnResult Bool × SendResult) → Outer → Received × Outer
unfolding emit
receive r [] o = (nothing, o)
receive r ((done, socket) ∷ answers) o = (nothing, o)
receive r ((tunn_error e, socket) ∷ answers) o = (nothing, o)
receive r ((write_to_tunnel_v4 packet, socket) ∷ answers) o = (plaintext packet, o)
receive r ((write_to_tunnel_v6 packet, socket) ∷ answers) o = (plaintext packet, o)
receive r ((write_to_network packet, socket) ∷ answers) o =
    let (fine, o') = emit r (some packet) socket o in
    let rest = receive r answers o' in if fine then rest else (receive_error, o')

-- a poll of the socket for a datagram, with what decapsulating it comes to
pub data Datagram : Type 0 where
  arrived : List (TunnResult Bool × SendResult) → Datagram
  socket_error : Datagram

pub data Poll : Type 0 where
  pending ready_error : Poll
  ready : Packet → Poll

abbrev pub by_received : Received → Outer → Poll × Outer → Poll × Outer
by_received (plaintext packet) o rest = (ready packet, o)
by_received receive_error o rest = (ready_error, o)
by_received nothing o rest = rest

abbrev pub by_flush : Flush → Outer → Poll × Outer → Poll × Outer
by_flush flush_error o rest = (ready_error, o)
by_flush flush_pending o rest = rest
by_flush flushed o rest = rest

-- At most `burst` datagrams in one poll; none is left at the end of the list.
unfoldable pub receive_burst : ℕ → Reserved → List Datagram → Outer → Poll × Outer
unfolding receive
receive_burst zero r datagrams o = (pending, o)
receive_burst (suc burst) r [] o = (pending, o)
receive_burst (suc burst) r (socket_error ∷ datagrams) o = (ready_error, o)
receive_burst (suc burst) r (arrived answers ∷ datagrams) o =
    let result = receive r answers o in
    let rest = receive_burst burst r datagrams result.1 in by_received result.0 result.1 rest

unfoldable pub poll_next :
    Reserved → List Tick → List SendResult → List Datagram → Outer → Poll × Outer
unfolding try_ticks poll_network_flush receive_burst
poll_next r ticks answers datagrams o =
    let ticked = try_ticks r ticks o in
    let flush = poll_network_flush answers ticked.1 in
    if not ticked.0
    then (ready_error, ticked.1)
    else by_flush flush.0 flush.1 (receive_burst max_receive_burst r datagrams flush.1)

-- a packet of the stack, and what `encapsulate` makes of it
abbrev pub encapsulated : TunnResult Bool → Option (Option Packet)
encapsulated (write_to_network packet) = some (some packet)
encapsulated done = some none
encapsulated _ = none

unfoldable pub start_send : Reserved → TunnResult Bool → SendResult → Outer → Bool × Outer
unfolding emit
start_send r answer socket o = elim (encapsulated answer) [
  | none ↦ (false, o)
  | some packet ↦ emit r packet socket o
]

-- the calls of the network stack
pub data Call : Type 0 where
  polls_next : List Tick → List SendResult → List Datagram → Call
  starts_send : TunnResult Bool → SendResult → Call
  polls_flush : List SendResult → Call

unfoldable pub call : Reserved → Call → Outer → Outer
unfolding poll_next start_send poll_network_flush
call r (polls_next ticks answers datagrams) o = (poll_next r ticks answers datagrams o).1
call r (starts_send answer socket) o = (start_send r answer socket o).1
call r (polls_flush answers) o = (poll_network_flush answers o).1

unfoldable pub calls : Reserved → List Call → Outer → Outer
unfolding call
calls r [] o = o
calls r (c ∷ cs) o = calls r cs (call r c o)

-- The reports of rejected datagrams: the first one, and then one per interval at most. Times in
-- nanoseconds; both counters are of 64 bits and stop at their end.
abbrev pub decap_error_report_interval : ℕ
decap_error_report_interval = 10000000000

pub record DecapErrorTracker : Type 0 where
  pub total : ℕ
  pub since_last_report : ℕ
  pub last_report_at : Option ℕ

pub record DecapErrorReport : Type 0 where
  pub total : ℕ
  pub since_last_report : ℕ

abbrev pub saturating_inc : ℕ → ℕ
saturating_inc n = min (n + 1) (2 ^ 64 - 1)

abbrev pub is_due : Option ℕ → ℕ → Bool
is_due none now = false
is_due (some last) now = leb decap_error_report_interval (now - last)

unfoldable pub observe : DecapErrorTracker → ℕ → Option DecapErrorReport × DecapErrorTracker
observe t now =
    let total = saturating_inc t.total in
    let since = saturating_inc t.since_last_report in
    if total == 1 || is_due t.last_report_at now
    then (
      some (record { total = total; since_last_report = since }),
      record { total = total; since_last_report = 0; last_report_at = some now },
    )
    else (
      none,
      record { total = total; since_last_report = since; last_report_at = t.last_report_at },
    )
