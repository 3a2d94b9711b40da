-- ===== src/Supervisor/Watch.antt =====
-- When the watch of supervisor.rs gives an outlet up, and how long a rebuilding waits.
use warp_socks.Prelude.{
  ℕ, zero, suc, ◌+◌, ◌-◌, ◌^◌, ◌<◌, ◌≤◌, ◌≡◌, refl, ap, ◌∙◌, List, [], ◌∷◌, Option, none, some,
  false, leb, if◌then◌else◌, Bool-cases, inl, inr, min, max, arith,
}
use warp_socks.Health.{
  ThresholdRecovery, new_recovery, on_success, on_failure, request_exit, continue_watching,
}
use warp_socks.Supervisor.{
  Event, terminated, probe_ok, probe_failed, Watched, watching, lost, unhealthy, watch,
  watch_outbound, longest_delay, Service, begin_turn, end_turn, turn, turns,
}

-- what an independent reading of the events says: the failures at their end, after `k` before them,
-- as long as no run of failures reached the threshold
pub run_of : ℕ → ℕ → List Event → Option ℕ
run_of threshold k [] = some k
run_of threshold k (terminated ∷ events) = none
run_of threshold k (probe_ok ∷ events) = run_of threshold 0 events
run_of threshold k (probe_failed ∷ events) =
    let rest = run_of threshold (k + 1) events in if leb threshold (k + 1) then none else rest

abbrev pub failures_of : Watched → Option ℕ
failures_of (watching r) = some r.consecutive_failures
failures_of lost = none
failures_of (unhealthy r) = none

on_failure-below :
    (r : ThresholdRecovery)
    → r.consecutive_failures + 1 < 2 ^ 32
    → on_failure r ≡ (
      if leb r.threshold (r.consecutive_failures + 1) then request_exit else continue_watching,
      record r { consecutive_failures = r.consecutive_failures + 1 },
    )
unfolding on_failure
on_failure-below r small = rw (counted, on_failure) refl
  where
    counted : min (r.consecutive_failures + 1) (2 ^ 32 - 1) ≡ r.consecutive_failures + 1
    counted = omega (arith, small)

watch-run_of :
    (r : ThresholdRecovery) (events : List Event)
    → r.threshold < 2 ^ 32
    → r.consecutive_failures < r.threshold
    → failures_of (watch r events) ≡ run_of r.threshold r.consecutive_failures events
unfolding watch run_of
watch-run_of r [] small below = refl
watch-run_of r (terminated ∷ events) small below = refl
watch-run_of r (probe_ok ∷ events) small below =
    watch-run_of (on_success r) events small (omega (arith, below))
watch-run_of r (probe_failed ∷ events) small below =
    elim (Bool-cases (leb r.threshold (r.consecutive_failures + 1))) [
      | inl reached ↦ rw (on_failure-below r (omega (arith, small, below)), reached, watch) refl
      | inr more ↦
          rw
            (
              on_failure-below r (omega (arith, small, below)),
              more,
              watch,
              on_failure-below r (omega (arith, small, below)),
            )
            (watch-run_of (record r { consecutive_failures = r.consecutive_failures + 1 }) events
              small (ground arith))
    ]

-- An outlet is given up by its probes exactly when as many of them in a row have failed as the
-- threshold says (one, when it is zero), and until then the count is that of the failures since the
-- last success. The threshold is a u32.
pub watch_outbound-run_of :
    (threshold : ℕ) (events : List Event)
    → threshold < 2 ^ 32
    → failures_of (watch_outbound threshold events) ≡ run_of (max threshold 1) 0 events
unfolding watch_outbound
watch_outbound-run_of threshold events small =
    watch-run_of (new_recovery threshold) events (omega (arith, small)) (omega arith)

abbrev pub failed_turns : {Conn : Type 0} → ℕ → List (Option Conn)
failed_turns zero = []
failed_turns (suc n) = none ∷ failed_turns n

turns-failed :
    {Conn : Type 0} (n k : ℕ)
    → k + n < 2 ^ 32
    → turns
        (failed_turns {Conn = Conn} n)
        (record { published = none; healthy = false; failures = k })
      ≡ record { published = none; healthy = false; failures = k + n }
unfolding turns turn begin_turn end_turn
turns-failed zero k small =
    ap (λ i. record { published = none; healthy = false; failures = i }) (omega arith)
turns-failed (suc n) k small =
    ap (λ i. turns (failed_turns n) (record { published = none; healthy = false; failures = i }))
      counted
    ∙ turns-failed n (k + 1) (omega (arith, small))
    ∙ ap (λ i. record { published = none; healthy = false; failures = i }) (omega arith)
  where
    counted : min (k + 1) (2 ^ 32 - 1) ≡ k + 1
    counted = omega (arith, small)

-- Between two turns no client is given an outlet and the heartbeat does not say healthy, whatever was
-- shown before. The count of failures starts again with every outlet that was published: after it
-- and `n` preparations that fail it is `n + 1`, as long as that is a u32.
pub turns-published :
    {Conn : Type 0} (outbound : Conn) (n : ℕ) (s : Service Conn)
    → n + 1 < 2 ^ 32
    → turns (some outbound ∷ failed_turns n) s
      ≡ record { published = none; healthy = false; failures = n + 1 }
unfolding turns turn begin_turn end_turn
turns-published outbound n s small =
    turns-failed n 1 (omega (arith, small))
    ∙ ap (λ k. record { published = none; healthy = false; failures = k }) (omega arith)

-- The wait is at least drawn from two seconds and at most from 32, and grows with the failures.
pub longest_delay_bounds :
    (failures : ℕ)
    → 1 ≤ failures
    → (2000 ≤ longest_delay failures)
      × (longest_delay failures ≤ 32000)
      × (longest_delay failures ≤ longest_delay (failures + 1))
unfolding longest_delay
longest_delay_bounds zero some_failure = absurd (omega (arith, some_failure))
longest_delay_bounds (suc zero) some_failure = (omega arith, omega arith, omega arith)
longest_delay_bounds (suc (suc zero)) some_failure = (omega arith, omega arith, omega arith)
longest_delay_bounds (suc (suc (suc zero))) some_failure = (omega arith, omega arith, omega arith)
longest_delay_bounds (suc (suc (suc (suc zero)))) some_failure =
    (omega arith, omega arith, omega arith)
longest_delay_bounds (suc (suc (suc (suc (suc n))))) some_failure =
    let capped : min (suc (suc (suc (suc (suc n))))) 5 ≡ 5 = omega arith in
    let capped' : min (suc (suc (suc (suc (suc n)))) + 1) 5 ≡ 5 = omega arith in
    rw (capped, capped') (omega arith, omega arith, omega arith)
