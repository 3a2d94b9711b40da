-- ===== src/Supervisor.antt =====
-- supervisor.rs: how an outlet is chosen, published, watched and rebuilt. What the network does is an
-- argument: the outcome of every dial, and the events of every watch.
pub mod Watch
pub mod Choice
pub mod Region
mod Runs
use warp_socks.Prelude.{
  ℕ, ◌+◌, ◌-◌, ◌*◌, ◌^◌, List, [], ◌∷◌, ◌++◌, Option, none, some, Bool, true, false, not, ◌&&◌, ltb,
  leb, if◌then◌else◌, min, max,
}
use warp_socks.Prelude.Exec.{Result, ok, err}
use warp_socks.Endpoint.{Text, Store, State, load, record_success, mark_cooldown, plan_candidates}
use warp_socks.Health.{
  ThresholdRecovery, RecoveryAction, request_exit, continue_watching, new_recovery, on_success,
  on_failure,
}

pub data Error : Type 0 where
  no_candidate save_failed all_failed masque_failed : Error

pub record SelectedWarp (Conn : Type 0) : Type 0 where
  pub outbound : Conn
  pub wg_endpoint : Option Text

module _ {Conn : Type 0} where
  -- the loop of `prepare_wireguard`: `try` is `try_wg_candidate`, `saves` whether the state file can be
  -- written after this candidate, and `now` the clock
  pub try_candidates :
      (Text → Option Conn)
      → (Text → Bool)
      → ℕ
      → ℕ
      → List Text
      → Store
      → Result Error (Conn × Text) × Store
  try_candidates try saves now cooldown [] store = (err all_failed, store)
  try_candidates try saves now cooldown (e ∷ es) store = elim (try e) [
    | some conn ↦
        let (saved, store') = record_success (saves e) e store in
        (if saved then ok (conn, e) else err save_failed, store')
    | none ↦
        let (saved, store') = mark_cooldown (saves e) now cooldown e store in
        if saved then try_candidates try saves now cooldown es store' else (err save_failed, store')
  ]

  pub prepare_wireguard :
      (Text → Option Conn)
      → (Text → Bool)
      → ℕ
      → ℕ
      → List Text
      → Store
      → Result Error (Conn × Text) × Store
  prepare_wireguard try saves now cooldown pool store = elim (plan_candidates pool store now) [
    | [] ↦ (err no_candidate, store)
    | e ∷ es ↦ try_candidates try saves now cooldown (e ∷ es) store
  ]

  -- MASQUE first, when it is enabled; `masque` is the outcome of `try_masque`
  pub prepare_base :
      Bool
      → Option Conn
      → Result Error (Conn × Text) × Store
      → Store
      → Result Error (SelectedWarp Conn) × Store
  prepare_base true (some conn) wireguard store =
      (ok (record { outbound = conn; wg_endpoint = none }), store)
  prepare_base true none (ok (conn, e), store') store =
      (ok (record { outbound = conn; wg_endpoint = some e }), store')
  prepare_base true none (err error, store') store = (err error, store')
  prepare_base false masque (ok (conn, e), store') store =
      (ok (record { outbound = conn; wg_endpoint = some e }), store')
  prepare_base false masque (err error, store') store = (err error, store')

-- What `watch_outbound` sees: an end of the outlet or of the WARP under it, or a probe's outcome.
pub data Event : Type 0 where
  terminated probe_ok probe_failed : Event

-- still watching, or returned after these events were seen
pub data Watched : Type 0 where
  watching : ThresholdRecovery → Watched
  lost : Watched
  unhealthy : ThresholdRecovery → Watched

pub watch : ThresholdRecovery → List Event → Watched
watch r [] = watching r
watch r (terminated ∷ events) = lost
watch r (probe_ok ∷ events) = watch (on_success r) events
watch r (probe_failed ∷ events) =
    let (action, r') = on_failure r in
    let rest = watch r' events in
    elim action [ request_exit ↦ unhealthy r' | continue_watching ↦ rest ]

pub watch_outbound : ℕ → List Event → Watched
unfolding watch on_failure
watch_outbound failure_threshold events = watch (new_recovery failure_threshold) events

abbrev pub wg_health_failure_threshold : ℕ
wg_health_failure_threshold = 1

-- the threshold of the outlet's watch
pub failure_threshold : Bool → Option Text → ℕ → ℕ
failure_threshold regional (some endpoint) configured =
    if regional then configured else wg_health_failure_threshold
failure_threshold regional none configured = configured

-- The longest wait, in milliseconds, after this many failures in a row; the wait is drawn from 1000 to
-- this.
pub longest_delay : ℕ → ℕ
longest_delay failures = 2 ^ min failures 5 * 1000

-- What `recover_outbound` has shown of its outlet: the one that clients are given, the heartbeat, and
-- the failures in a row.
pub record Service (Conn : Type 0) : Type 0 where
  pub published : Option Conn
  pub healthy : Bool
  pub failures : ℕ

module _ {Conn : Type 0} where
  -- A turn of the loop up to the watch: an outlet is published only when it was prepared. That the
  -- heartbeat cannot be reset, which ends the loop, is left out here and in `end_turn`.
  pub begin_turn : Option Conn → Service Conn → Service Conn
  begin_turn (some outbound) s = record { published = some outbound; healthy = true; failures = 0 }
  begin_turn none s = record s { healthy = false }

  -- and from its end to the wait: `saturating_add` of a u32
  pub end_turn : Option Conn → Service Conn → Service Conn
  end_turn (some outbound) s = record {
    published = none;
    healthy = false;
    failures = min (s.failures + 1) (2 ^ 32 - 1);
  }
  end_turn none s = record s { failures = min (s.failures + 1) (2 ^ 32 - 1) }

  pub turn : Option Conn → Service Conn → Service Conn
  unfolding begin_turn end_turn
  turn prepared s = end_turn prepared (begin_turn prepared s)

  pub turns : List (Option Conn) → Service Conn → Service Conn
  unfolding turn
  turns [] s = s
  turns (prepared ∷ rest) s = turns rest (turn prepared s)
