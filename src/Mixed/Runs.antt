-- ===== src/Mixed/Runs.antt =====
-- Turns of the listeners.
use warp_socks.Prelude.{ℕ, ◌≡◌, refl, List, [], ◌∷◌, true, false}
use warp_socks.Net.{SocketAddr, v4}
use warp_socks.Mixed.{
  Event, accepted, admit, end_at, ended, failed, is_lan_address, new_pool, other, turn, turns,
}
use warp_socks.Mixed.Capacity.{IsPool, turns-new_pool}

abbrev peer : ℕ → SocketAddr
peer a = record { ip = v4 (a ∷ 0 ∷ 0 ∷ 1 ∷ []); port = 4000 }

abbrev events : List Event
events =
    accepted true (peer 10)
    ∷ accepted true (peer 8)
    ∷ accepted false (peer 8)
    ∷ failed true other
    ∷ ended 0
    ∷ []

one_left : turns events new_pool ≡ record { permits = 63; serving = (peer 10, true) ∷ [] }
unfolding turns turn admit end_at is_lan_address
one_left = refl

turns-new_pool_example : IsPool (turns events new_pool)
turns-new_pool_example = turns-new_pool events
