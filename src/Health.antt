-- ===== src/Health.antt =====
-- health/recovery.rs and the check of health/heartbeat.rs. Instants are in seconds since 1970, and the
-- parser of a decimal u64 is the standard library's.
use warp_socks.Prelude.{ℕ, ◌+◌, ◌-◌, ◌^◌, Option, none, some, ltb, leb, if◌then◌else◌, min, max}
use warp_socks.Prelude.Exec.{Result, ok, err}

pub data RecoveryAction : Type 0 where
  continue_watching request_exit : RecoveryAction

pub record ThresholdRecovery : Type 0 where
  pub threshold : ℕ
  pub consecutive_failures : ℕ

abbrev pub new_recovery : ℕ → ThresholdRecovery
new_recovery threshold = record { threshold = max threshold 1; consecutive_failures = 0 }

abbrev pub on_success : ThresholdRecovery → ThresholdRecovery
on_success r = record r { consecutive_failures = 0 }

-- `saturating_add` of a u32
unfoldable pub on_failure : ThresholdRecovery → RecoveryAction × ThresholdRecovery
on_failure r =
    let failures = min (r.consecutive_failures + 1) (2 ^ 32 - 1) in
    (
      if leb r.threshold failures then request_exit else continue_watching,
      record r { consecutive_failures = failures },
    )

pub data HeartbeatError : Type 0 where
  no_heartbeat malformed expired : HeartbeatError

-- `evaluate`, over the reading of the trimmed content as a u64
unfoldable pub evaluate : Option ℕ → ℕ → ℕ → Result HeartbeatError (Unit {0})
evaluate none now max_age = err malformed
evaluate (some ts) now max_age = if ltb max_age (now - ts) then err expired else ok tt
