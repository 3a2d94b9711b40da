-- ===== src/Mixed/Capacity.antt =====
-- What holds of the connections that are served, after any sequence of turns of all listeners.
use warp_socks.Prelude.{
  ℕ, zero, suc, ◌+◌, ◌<◌, ◌≡◌, refl, List, [], ◌∷◌, Bool, true, not, ◌&&◌, ◌==◌, ltb, length, All,
  arith, inl, inr, Bool-cases,
}
use warp_socks.Net.{SocketAddr}
use warp_socks.Mixed.{
  Connection, Event, Pool, accepted, admit, drop_at, end_at, ended, failed, is_connection_error,
  is_lan_address, max_connections, new_pool, turn, turns,
}

-- a listener for the local network serves only clients of it
abbrev pub IsAdmitted : Connection → Type 0
IsAdmitted c = c.1 ≡ true → is_lan_address c.0.ip ≡ true

pub record IsPool (pool : Pool) : Type 0 where
  pub account : pool.permits + length pool.serving ≡ max_connections
  pub admitted : All IsAdmitted pool.serving

admit-IsPool :
    (peer : SocketAddr) (lan_only : Bool) (pool : Pool)
    → IsPool pool
    → IsPool (admit peer lan_only pool).0
unfolding admit
admit-IsPool peer lan_only pool v = elim (Bool-cases (lan_only && not (is_lan_address peer.ip))) [
  | inl foreign ↦ rw foreign v
  | inr fine ↦ elim (Bool-cases (pool.permits == 0)) [
    | inl full ↦ rw (fine, full) v
    | inr room ↦
        let left : 0 < pool.permits = ground arith in
        rw (fine, room)
          (record {
            account = omega (arith, v.account, left);
            admitted = (λ lan. ground arith, v.admitted);
          })
  ]
]

drop_at_lem :
    (n : ℕ) (cs : List Connection)
    → All IsAdmitted cs
    → n < length cs
    → All IsAdmitted (drop_at n cs) × (suc (length (drop_at n cs)) ≡ length cs)
drop_at_lem n [] all lt = absurd (omega arith)
drop_at_lem zero (c ∷ cs) (h, all) lt = (all, refl)
drop_at_lem (suc n) (c ∷ cs) (h, all) lt =
    let (rest, len) = drop_at_lem n cs all (omega (arith, lt)) in ((h, rest), omega (arith, len))

end_at-IsPool : (n : ℕ) (pool : Pool) → IsPool pool → IsPool (end_at n pool)
unfolding end_at
end_at-IsPool n pool v = elim (Bool-cases (ltb n (length pool.serving))) [
  | inl there ↦
      let (all, len) = drop_at_lem n pool.serving v.admitted (ground arith) in
      rw there (record { account = omega (arith, v.account, len); admitted = all })
  | inr beyond ↦ rw beyond v
]

turn-IsPool : (event : Event) (pool : Pool) → IsPool pool → IsPool (turn event pool).0
unfolding turn
turn-IsPool (accepted lan_only peer) pool v = admit-IsPool peer lan_only pool v
turn-IsPool (failed lan_only kind) pool v = elim (Bool-cases (is_connection_error kind)) [
  | inl brief ↦ rw brief v
  | inr resource ↦ rw resource v
]
turn-IsPool (ended n) pool v = end_at-IsPool n pool v

turns-IsPool : (events : List Event) (pool : Pool) → IsPool pool → IsPool (turns events pool)
unfolding turns
turns-IsPool [] pool v = v
turns-IsPool (event ∷ events) pool v =
    turns-IsPool events (turn event pool).0 (turn-IsPool event pool v)

-- After any sequence of accepted and ended connections and of failures to accept, on all listeners, the
-- free permits and the connections that are served are 64 together, and each connection of a listener
-- for the local network has a client of the local network.
pub turns-new_pool : (events : List Event) → IsPool (turns events new_pool)
turns-new_pool events = turns-IsPool events new_pool (record { account = refl; admitted = tt })
