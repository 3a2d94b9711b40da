-- ===== src/Supervisor/Choice.antt =====
-- Which WireGuard endpoint supervisor.rs settles on.
use warp_socks.Prelude.{
  ℕ, ◌≡◌, refl, List, [], ◌∷◌, Option, none, some, true, Option-cases, inl, inr,
}
use warp_socks.Prelude.Exec.{Result, ok, err}
use warp_socks.Endpoint.{Text, Store, record_success, mark_cooldown, plan_candidates, save}
use warp_socks.Supervisor.{Error, all_failed, try_candidates, prepare_wireguard}

module _ {Conn : Type 0} (try : Text → Option Conn) where
  -- the first candidate that answers
  abbrev pub first_up : List Text → Option (Conn × Text)
  first_up [] = none
  first_up (e ∷ es) = elim (try e) [ some conn ↦ some (conn, e) | none ↦ first_up es ]

  abbrev pub Chosen : Option (Conn × Text) → Result Error (Conn × Text) × Store → Type 0
  Chosen none r = r.0 ≡ err all_failed
  Chosen (some (conn, e)) r = (r.0 ≡ ok (conn, e)) × (r.1.state.last_good_endpoint ≡ e)

  try_candidates-Chosen :
      (now cooldown : ℕ) (es : List Text) (store : Store)
      → Chosen (first_up es) (try_candidates try (λ _. true) now cooldown es store)
  unfolding try_candidates record_success mark_cooldown save
  try_candidates-Chosen now cooldown [] store = refl
  try_candidates-Chosen now cooldown (e ∷ es) store = elim (Option-cases (try e)) [
    | inl down ↦
        rw (down, first_up, try_candidates)
          (try_candidates-Chosen now cooldown es (mark_cooldown true now cooldown e store).1)
    | inr (conn, up) ↦ rw (up, first_up, try_candidates) (refl, refl)
  ]

  -- For a plan that is not empty, and while the state file can be written: a WireGuard outlet is the
  -- first endpoint of the list that plan_candidates gives whose tunnel comes up, and it is remembered as
  -- the last good one; when none of the list comes up, the error says so.
  pub prepare_wireguard-Chosen :
      (now cooldown : ℕ) (pool : List Text) (store : Store) (e : Text) (es : List Text)
      → plan_candidates pool store now ≡ e ∷ es
      → Chosen (first_up (e ∷ es)) (prepare_wireguard try (λ _. true) now cooldown pool store)
  unfolding prepare_wireguard
  prepare_wireguard-Chosen now cooldown pool store e es planned =
      rw (planned, prepare_wireguard) (try_candidates-Chosen now cooldown (e ∷ es) store)
