-- ===== src/Wireguard/Receive.antt =====
-- The calls of the network stack, and what they leave on the outer socket.
use warp_socks.Prelude.{
  ℕ, zero, suc, List, [], ◌∷◌, some, Bool, true, false, not, if◌then◌else◌, inl, inr, Bool-cases,
  Option-cases,
}
use warp_socks.Wireguard.{
  Poll, by_received, by_flush, ready_error, Call, Datagram, Flush, Outer, Received, Reserved,
  SendResult, Tick, TunnResult, arrived, call, calls, done, emit, encapsulated, flush_error,
  flush_pending, flushed, nothing, plaintext, poll_network_flush, poll_next, polls_flush,
  polls_next, receive, receive_burst, receive_error, socket_error, start_send, starts_send,
  tick_packet, try_tick, try_ticks, tunn_error, write_to_network, write_to_tunnel_v4,
  write_to_tunnel_v6, max_receive_burst,
}
use warp_socks.Wireguard.Queue.{
  Steps, Steps-refl, Steps-trans, emit-Steps, poll_network_flush-Steps,
}

module _ (r : Reserved) where
  try_tick-Steps : (tick : Tick) (o : Outer) → Steps r o (try_tick r tick o).1
  unfolding try_tick
  try_tick-Steps tick o = elim (Option-cases (tick_packet tick.timers tick.again)) [
    | inl fails ↦ rw (fails, try_tick) (Steps-refl r o)
    | inr (packet, e) ↦ rw (e, try_tick) (emit-Steps r packet tick.socket o)
  ]

  try_ticks-Steps : (ticks : List Tick) (o : Outer) → Steps r o (try_ticks r ticks o).1
  unfolding try_ticks
  try_ticks-Steps [] o = Steps-refl r o
  try_ticks-Steps (tick ∷ ticks) o =
      let first = try_tick-Steps tick o in
      elim (Bool-cases ((try_tick r tick o).0)) [
        | inl fine ↦
            rw (fine, try_ticks)
              (Steps-trans r o (try_tick r tick o).1 _ first
                (try_ticks-Steps ticks (try_tick r tick o).1))
        | inr fails ↦ rw (fails, try_ticks) first
      ]

  receive-Steps :
      (answers : List (TunnResult Bool × SendResult)) (o : Outer)
      → Steps r o (receive r answers o).1
  unfolding receive
  receive-Steps [] o = Steps-refl r o
  receive-Steps ((done, socket) ∷ answers) o = Steps-refl r o
  receive-Steps ((tunn_error e, socket) ∷ answers) o = Steps-refl r o
  receive-Steps ((write_to_tunnel_v4 packet, socket) ∷ answers) o = Steps-refl r o
  receive-Steps ((write_to_tunnel_v6 packet, socket) ∷ answers) o = Steps-refl r o
  receive-Steps ((write_to_network packet, socket) ∷ answers) o =
      let first = emit-Steps r (some packet) socket o in
      let o' = (emit r (some packet) socket o).1 in
      elim (Bool-cases ((emit r (some packet) socket o).0)) [
        | inl fine ↦ rw (fine, receive) (Steps-trans r o o' _ first (receive-Steps answers o'))
        | inr fails ↦ rw (fails, receive) first
      ]

  by_received-Steps :
      (received : Received) (o o' : Outer) (rest : Poll × Outer)
      → Steps r o o'
      → Steps r o rest.1
      → Steps r o (by_received received o' rest).1
  by_received-Steps (plaintext packet) o o' rest first later = first
  by_received-Steps receive_error o o' rest first later = first
  by_received-Steps nothing o o' rest first later = later

  by_flush-Steps :
      (flush : Flush) (o o' : Outer) (rest : Poll × Outer)
      → Steps r o o'
      → Steps r o rest.1
      → Steps r o (by_flush flush o' rest).1
  by_flush-Steps flush_error o o' rest first later = first
  by_flush-Steps flush_pending o o' rest first later = later
  by_flush-Steps flushed o o' rest first later = later

  if-Steps :
      (b : Bool) (o : Outer) (x y : Poll × Outer)
      → Steps r o x.1
      → Steps r o y.1
      → Steps r o (if b then x else y).1
  if-Steps true o x y first later = first
  if-Steps false o x y first later = later

  receive_burst-Steps :
      (burst : ℕ) (datagrams : List Datagram) (o : Outer)
      → Steps r o (receive_burst burst r datagrams o).1
  unfolding receive_burst
  receive_burst-Steps zero datagrams o = Steps-refl r o
  receive_burst-Steps (suc burst) [] o = Steps-refl r o
  receive_burst-Steps (suc burst) (socket_error ∷ datagrams) o = Steps-refl r o
  receive_burst-Steps (suc burst) (arrived answers ∷ datagrams) o =
      let o' = (receive r answers o).1 in
      let first = receive-Steps answers o in
      by_received-Steps (receive r answers o).0 o o' (receive_burst burst r datagrams o') first
        (Steps-trans r o o' _ first (receive_burst-Steps burst datagrams o'))

  poll_next-Steps :
      (ticks : List Tick) (answers : List SendResult) (datagrams : List Datagram) (o : Outer)
      → Steps r o (poll_next r ticks answers datagrams o).1
  unfolding poll_next
  poll_next-Steps ticks answers datagrams o =
      let ticked = (try_ticks r ticks o).1 in
      let flush = poll_network_flush answers ticked in
      let first = try_ticks-Steps ticks o in
      let second =
        Steps-trans r o ticked flush.1 first (poll_network_flush-Steps r answers ticked) in
      let burst = receive_burst max_receive_burst r datagrams flush.1 in
      if-Steps (not (try_ticks r ticks o).0) o (ready_error, ticked)
        (by_flush flush.0 flush.1 burst) first
        (by_flush-Steps flush.0 o flush.1 burst second (
          Steps-trans r o flush.1 burst.1 second
            (receive_burst-Steps max_receive_burst datagrams flush.1)))

  start_send-Steps :
      (answer : TunnResult Bool) (socket : SendResult) (o : Outer)
      → Steps r o (start_send r answer socket o).1
  unfolding start_send
  start_send-Steps answer socket o = elim (Option-cases (encapsulated answer)) [
    | inl fails ↦ rw (fails, start_send) (Steps-refl r o)
    | inr (packet, e) ↦ rw (e, start_send) (emit-Steps r packet socket o)
  ]

  call-Steps : (c : Call) (o : Outer) → Steps r o (call r c o)
  unfolding call
  call-Steps (polls_next ticks answers datagrams) o = poll_next-Steps ticks answers datagrams o
  call-Steps (starts_send answer socket) o = start_send-Steps answer socket o
  call-Steps (polls_flush answers) o = poll_network_flush-Steps r answers o

  -- Whatever the stack calls, and whatever the state machine and the socket answer: packets leave the
  -- outer socket in the order in which they were accepted, none of those accepted is lost, what is added
  -- bears the reserved bytes of the configuration, and the queue keeps to at most 256 packets.
  pub calls-Steps : (cs : List Call) (o : Outer) → Steps r o (calls r cs o)
  unfolding calls
  calls-Steps [] o = Steps-refl r o
  calls-Steps (c ∷ cs) o =
      Steps-trans r o (call r c o) _ (call-Steps c o) (calls-Steps cs (call r c o))
