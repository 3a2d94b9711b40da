-- ===== src/Wireguard/Runs.antt =====
-- Calls of a tunnel's stack.
use warp_socks.Prelude.{◌≡◌, refl, List, [], ◌∷◌}
use warp_socks.Wireguard.{
  Call, Reserved, arrived, call, calls, emit, flush_queue, new_outer, patch_reserved,
  poll_network_flush, poll_next, polls_flush, polls_next, receive, receive_burst,
  send_or_queue_network, sent, start_send, starts_send, try_ticks, would_block, write_to_network,
}
use warp_socks.Wireguard.Queue.{Steps}
use warp_socks.Wireguard.Receive.{calls-Steps}

abbrev reserved : Reserved
reserved = record { first = 7; second = 8; third = 9 }

abbrev busy : List Call
busy =
    starts_send (write_to_network (4 ∷ 0 ∷ 0 ∷ 0 ∷ 1 ∷ [])) would_block
    ∷ polls_next [] [] (arrived ((write_to_network (2 ∷ 0 ∷ 0 ∷ 0 ∷ 2 ∷ []), sent) ∷ []) ∷ [])
    ∷ polls_flush (sent ∷ sent ∷ [])
    ∷ []

in_turn :
    (calls reserved busy new_outer).on_wire
    ≡ (4 ∷ 7 ∷ 8 ∷ 9 ∷ 1 ∷ []) ∷ (2 ∷ 7 ∷ 8 ∷ 9 ∷ 2 ∷ []) ∷ []
unfolding calls call start_send poll_next try_ticks poll_network_flush flush_queue receive_burst
    receive emit send_or_queue_network patch_reserved
in_turn = refl

calls-Steps_example : Steps reserved new_outer (calls reserved busy new_outer)
calls-Steps_example = calls-Steps reserved busy new_outer
