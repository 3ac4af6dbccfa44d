-- ===== src/AppLock.antt =====
-- apps/web/lib/applock/lifecycle.ts: the state machine that locks the application while its user is
-- away. The storage is kept per user; an event runs to its end before the next one.
pub mod Gate
pub mod Steps
pub mod StaysLocked
pub mod Away
use pookie_chat.Prelude.{
  ltb, leb, ◌==◌, if◌then◌else◌, changed, ℕ, ◌+◌, ◌*◌, Bool, true, false, not, ◌&&◌, Option, none,
  some,
}
use pookie_chat.Domain.Text.{Text}

pub data AppLockState : Type 0 where
  disabled unlocked pending_departure locked : AppLockState

-- What AppLockStorageAdapter reads and writes for one user.
pub record Settings : Type 0 where
  pub is_enabled : Bool
  pub is_locked : Bool
  pub timeout_seconds : ℕ
  pub verifier : Option Text
  pub last_active_at : ℕ

-- The fields of AppLockStateMachine, and the storage; `timer` is whether the departure timer runs.
pub record Machine : Type 0 where
  pub state : AppLockState
  pub user_id : Option ℕ
  pub departure_started_at : ℕ
  pub timer : Bool
  pub storage : ℕ → Settings

-- The grace period, and `checkLocalSecret`.
pub record Options : Type 0 where
  pub grace_period_ms : ℕ
  pub check_local_secret : Text → Option Text → Bool

abbrev pub stored : (Settings → Settings) → ℕ → (ℕ → Settings) → ℕ → Settings
stored change user storage v = if v == user then change (storage v) else storage v

abbrev pub set_app_locked : Bool → ℕ → Machine → Machine
set_app_locked value user m = record m {
  storage = stored (λ s. record s { is_locked = value }) user m.storage;
}

abbrev pub record_activity : ℕ → ℕ → Machine → Machine
record_activity user now m = record m {
  storage = stored (λ s. record s { last_active_at = now }) user m.storage;
}

abbrev pub transition : AppLockState → Machine → Machine
transition next m = record m { state = next }

abbrev pub commit_lock : ℕ → Machine → Machine
commit_lock user m = transition locked (set_app_locked true user m)

-- `lastActiveAt > 0` and the time since then is past the timeout, or past the grace period where the
-- lock is immediate.
abbrev pub is_overdue : Options → ℕ → Settings → Bool
is_overdue o now s =
    ltb 0 s.last_active_at
    && (if s.timeout_seconds == 0
        then leb (s.last_active_at + o.grace_period_ms) now
        else leb (s.last_active_at + s.timeout_seconds * 1000) now)

-- `timeout > 0`, and the same for a timed lock.
abbrev pub is_timed_out : ℕ → Settings → Bool
is_timed_out now s =
    ltb 0 s.timeout_seconds
    && (ltb 0 s.last_active_at && leb (s.last_active_at + s.timeout_seconds * 1000) now)

abbrev pub init_for : Options → Option ℕ → ℕ → Machine → Machine
init_for o none now m = transition disabled m
init_for o (some user) now m =
    if not (m.storage user).is_enabled
    then transition disabled m
    else if (m.storage user).is_locked
    then transition locked m
    else if is_overdue o now (m.storage user)
    then commit_lock user m
    else transition unlocked m

unfoldable pub init : Options → Bool → Option ℕ → ℕ → Machine → Machine
init o is_protected user now m =
    let fresh : Machine = record m { timer = false; user_id = user } in
    if is_protected then init_for o user now fresh else transition disabled fresh

abbrev pub depart_at : ℕ → Machine → Machine
depart_at now m = record m { departure_started_at = now; state = pending_departure; timer = true }

abbrev pub if_immediate : Option ℕ → ℕ → Machine → Machine
if_immediate none now m = m
if_immediate (some user) now m =
    if (m.storage user).timeout_seconds == 0 then depart_at now m else m

abbrev pub when_unlocked : AppLockState → Machine → Machine → Machine
when_unlocked unlocked changed m = changed
when_unlocked _ changed m = m

unfoldable pub handle_departure : ℕ → Machine → Machine
handle_departure now m = when_unlocked m.state (if_immediate m.user_id now m) m

abbrev pub lock_user : Option ℕ → Machine → Machine
lock_user none m = transition locked m
lock_user (some user) m = commit_lock user m

-- The callback of the departure timer.
abbrev pub when_pending : AppLockState → Machine → Machine → Machine
when_pending pending_departure changed m = changed
when_pending _ changed m = m

unfoldable pub timer_fires : Machine → Machine
timer_fires m =
    if m.timer
    then (let rung : Machine = record m { timer = false } in
        when_pending m.state (lock_user m.user_id rung) rung)
    else m

abbrev pub if_timed_out : Option ℕ → ℕ → Machine → Machine
if_timed_out none now m = m
if_timed_out (some user) now m = if is_timed_out now (m.storage user) then commit_lock user m else m

-- `handleReturn`, whose three parts are by the state.
abbrev pub return_in : AppLockState → Options → ℕ → Machine → Machine
return_in locked o now m = m
return_in pending_departure o now m =
    let stopped : Machine = record m { timer = false } in
    if ltb now (m.departure_started_at + o.grace_period_ms)
    then transition unlocked stopped
    else lock_user m.user_id stopped
return_in unlocked o now m = if_timed_out m.user_id now m
return_in disabled o now m = m

unfoldable pub handle_return : Options → ℕ → Machine → Machine
handle_return o now m = return_in m.state o now m

abbrev pub note_activity : Option ℕ → ℕ → Machine → Machine
note_activity none now m = m
note_activity (some user) now m = record_activity user now m

unfoldable pub handle_user_activity : ℕ → Machine → Machine
handle_user_activity now m = when_unlocked m.state (note_activity m.user_id now m) m

unfoldable pub check_inactivity : ℕ → Machine → Machine
check_inactivity now m = when_unlocked m.state (if_timed_out m.user_id now m) m

-- The reply, and the machine.
abbrev pub unlock_in : AppLockState → Option ℕ → Options → Text → ℕ → Machine → Bool × Machine
unlock_in locked none o pin now m = (false, m)
unlock_in locked (some user) o pin now m =
    if o.check_local_secret pin (m.storage user).verifier
    then (true, transition unlocked (record_activity user now (set_app_locked false user m)))
    else (false, m)
unlock_in _ user o pin now m = (true, m)

unfoldable pub attempt_unlock : Options → Text → ℕ → Machine → Bool × Machine
attempt_unlock o pin now m = unlock_in m.state m.user_id o pin now m

abbrev pub leave_user : Option ℕ → Machine → Machine
leave_user none m = m
leave_user (some user) m = if (m.storage user).is_enabled then set_app_locked true user m else m

unfoldable pub handle_logout : Machine → Machine
handle_logout m =
    transition disabled
      (record (leave_user m.user_id (record m { timer = false })) { user_id = none })

abbrev pub lock_now_user : Option ℕ → Machine → Machine
lock_now_user none m = m
lock_now_user (some user) m = commit_lock user m

unfoldable pub lock_now : Machine → Machine
lock_now m = lock_now_user m.user_id (record m { timer = false })
