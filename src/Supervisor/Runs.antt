-- ===== src/Supervisor/Runs.antt =====
-- The supervisor's theorems at concrete inputs.
use warp_socks.Prelude.{
  ℕ, ◌+◌, ◌≡◌, refl, List, [], ◌∷◌, Option, none, some, true, false, max, arith, if◌then◌else◌,
}
use warp_socks.Prelude.Utf8.{bytes_eq}
use warp_socks.Endpoint.{Text, Store, plan_candidates}
use warp_socks.Prelude.Exec.{ok}
use warp_socks.Prelude.{◌==◌}
use warp_socks.Supervisor.Region.{has, prepare_region, prepare_region-preferred}
use warp_socks.Supervisor.{
  Event, probe_ok, probe_failed, watch_outbound, Service, turns, prepare_wireguard,
}
use warp_socks.Supervisor.Watch.{
  run_of, failures_of, watch_outbound-run_of, turns-published, failed_turns,
}
use warp_socks.Supervisor.Choice.{first_up, Chosen, prepare_wireguard-Chosen}

abbrev probes : List Event
probes = probe_failed ∷ probe_ok ∷ probe_failed ∷ probe_failed ∷ []

watch_outbound-run_of_example : failures_of (watch_outbound 3 probes) ≡ run_of (max 3 1) 0 probes
watch_outbound-run_of_example = watch_outbound-run_of 3 probes (omega arith)

abbrev fresh : Service ℕ
fresh = record { published = none; healthy = false; failures = 4 }

turns-published_example :
    turns (some 8 ∷ failed_turns 2) fresh
    ≡ record { published = none; healthy = false; failures = 2 + 1 }
turns-published_example = turns-published 8 2 fresh (omega arith)

abbrev pool : List Text
pool = (b'a' ∷ []) ∷ (b'b' ∷ []) ∷ []

abbrev store : Store
store = record { state = record { last_good_endpoint = []; cooldowns = [] }; file = none }

-- only the second endpoint answers
abbrev dial : Text → Option ℕ
dial e = if bytes_eq e (b'b' ∷ []) then some 5 else none

planned : plan_candidates pool store 0 ≡ pool
unfolding plan_candidates
planned = refl

prepare_wireguard-Chosen_example :
    Chosen dial (first_up dial pool) (prepare_wireguard dial (λ _. true) 0 30 pool store)
prepare_wireguard-Chosen_example =
    prepare_wireguard-Chosen dial 0 30 pool store (b'a' ∷ []) ((b'b' ∷ []) ∷ []) planned

abbrev attempt : ℕ → Option ℕ
attempt entry = if entry == 70 then none else some (entry + 1)

prepare_region-preferred_example :
    prepare_region attempt true none 500
      (0 ∷ 2 ∷ 1 ∷ [])
      (some (record { entries = 70 ∷ 80 ∷ 90 ∷ []; fetched = 100; preferred = some 2 }))
    ≡ (ok 91, some (record { entries = 70 ∷ 80 ∷ 90 ∷ []; fetched = 100; preferred = some 2 }))
unfolding has
prepare_region-preferred_example =
    prepare_region-preferred attempt none 500 (0 ∷ 2 ∷ 1 ∷ []) (70 ∷ 80 ∷ 90 ∷ []) 100 2 90 91
      (omega arith) refl refl refl
