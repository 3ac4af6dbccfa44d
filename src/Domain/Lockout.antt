-- ===== src/Domain/Lockout.antt =====
-- apps/backend/src/domain/lockout.ts: the escalating lock of the login.
-- An instant is a number of milliseconds since the epoch.
pub mod Escalation
use pookie_chat.Prelude.{
  ltb, if◌then◌else◌, ℕ, ◌+◌, ◌-◌, ◌*◌, ◌^◌, min, Bool, false, Option, none, some,
}

pub record LoginAttemptState : Type 0 where
  pub failed_login_count : ℕ
  pub locked_until : Option ℕ

abbrev pub lockout_threshold : ℕ
lockout_threshold = 5

abbrev pub base_lockout_seconds : ℕ
base_lockout_seconds = 30

-- `lockedUntil !== null && now < lockedUntil`, shared with the pairing codes.
abbrev pub is_before : ℕ → Option ℕ → Bool
is_before now none = false
is_before now (some t) = ltb now t

unfoldable pub is_login_locked : LoginAttemptState → ℕ → Bool
is_login_locked state now = is_before now state.locked_until

-- `Math.min(BASE_LOCKOUT_SECONDS * 2 ** (timesOverThreshold - 1), 24 * 60 * 60)`
unfoldable pub lockout_seconds : ℕ → ℕ
lockout_seconds times_over_threshold =
    min (base_lockout_seconds * 2 ^ (times_over_threshold - 1)) (24 * 60 * 60)

unfoldable pub record_failed_login : LoginAttemptState → ℕ → LoginAttemptState
record_failed_login state now =
    let failed : ℕ = state.failed_login_count + 1 in
    if ltb failed lockout_threshold
    then record { failed_login_count = failed; locked_until = state.locked_until }
    else record {
      failed_login_count = failed;
      locked_until = some (now + lockout_seconds (failed - lockout_threshold + 1) * 1000);
    }

unfoldable pub clear_login_lockout : LoginAttemptState
clear_login_lockout = record { failed_login_count = 0; locked_until = none }
