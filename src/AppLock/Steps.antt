-- ===== src/AppLock/Steps.antt =====
-- The steps of the lock's state machine, for a user whose lock is set.
use pookie_chat.Prelude.{
  ltb, ◌==◌, if◌then◌else◌, Bool-cases, ℕ, ◌+◌, ◌≡◌, refl, ap, ◌≢◌, inl, inr, Bool, true, false,
  Option, none, some, arith,
}
use pookie_chat.Domain.Text.{Text}
use pookie_chat.AppLock.{
  commit_lock, is_overdue, is_timed_out, init_for, init, if_immediate, when_unlocked, lock_user,
  when_pending, timer_fires, if_timed_out, return_in, note_activity, unlock_in, leave_user,
  handle_logout, lock_now_user, AppLockState, disabled, unlocked, pending_departure, locked,
  Settings, Machine, Options,
}

abbrev is_locked_state : AppLockState → Bool
is_locked_state locked = true
is_locked_state _ = false

abbrev pub IsArmed : Option Text → Settings → Type 0
IsArmed verifier s = (s.is_enabled ≡ true) × (s.is_locked ≡ true) × (s.verifier ≡ verifier)

-- The user's lock is on and set; and where the page is protected and the machine is the user's, the
-- machine is in the one state in which the gate hides the page.
pub record IsLockedFor (user : ℕ) (verifier : Option Text) (guarded : Bool) (m : Machine)
    : Type 0 where
  pub set : IsArmed verifier (m.storage user)
  pub shut : guarded ≡ true → m.user_id ≡ some user → m.state ≡ locked

module _ (o : Options) (user : ℕ) (verifier : Option Text) (guarded : Bool) where
  pub changed-IsArmed :
      (b : Bool) (change : Settings → Settings) (s : Settings)
      → (IsArmed verifier s → IsArmed verifier (change s))
      → IsArmed verifier s
      → IsArmed verifier (if b then change s else s)
  changed-IsArmed true change s keeps h = keeps h
  changed-IsArmed false change s keeps h = h

  pub commit-IsLockedFor :
      (who : ℕ) (m : Machine)
      → IsArmed verifier (m.storage user)
      → IsLockedFor user verifier guarded (commit_lock who m)
  commit-IsLockedFor who m v = record {
    set =
        changed-IsArmed (user == who) (λ s. record s { is_locked = true }) (m.storage user)
          (λ h. (h.0, refl, h.2)) v;
    shut = λ _ e. refl;
  }

  pub lock_user-IsLockedFor :
      (who : Option ℕ) (m : Machine)
      → IsArmed verifier (m.storage user)
      → IsLockedFor user verifier guarded (lock_user who m)
  lock_user-IsLockedFor none m v = record { set = v; shut = λ _ e. refl }
  lock_user-IsLockedFor (some who) m v = commit-IsLockedFor who m v

  -- The machine is not open for the user.
  pub not_open :
      (m : Machine)
      → IsLockedFor user verifier guarded m
      → is_locked_state m.state ≡ false
      → guarded ≡ true
      → m.user_id ≢ some user
  not_open m v open_ on e = ground (arith, ap is_locked_state (v.shut on e), open_)

  init_for-IsLockedFor :
      (who : Option ℕ) (now : ℕ) (m : Machine)
      → m.user_id ≡ who
      → IsArmed verifier (m.storage user)
      → IsLockedFor user verifier guarded (init_for o who now m)
  init_for-IsLockedFor none now m e v = record {
    set = v;
    shut = λ _ h. absurd (ground (arith, e, h));
  }
  init_for-IsLockedFor (some who) now m e v = elim (Bool-cases (m.storage who).is_enabled) [
    | inr off ↦ rw off (record {
      set = v;
      shut = λ _ h.
          let same : who ≡ user = ground (arith, e, h) in
          absurd (ground (arith, v.0, off, ap (λ k. (m.storage k).is_enabled) same));
    })
    | inl on ↦ elim (Bool-cases (m.storage who).is_locked) [
      | inl is_set ↦ rw (on, is_set) (record { set = v; shut = λ _ h. refl })
      | inr free ↦ elim (Bool-cases (is_overdue o now (m.storage who))) [
        | inl late ↦ rw (on, free, late) (commit-IsLockedFor who m v)
        | inr early ↦
            rw (on, free, early)
              (record {
                set = v;
                shut = λ _ h.
                    let same : who ≡ user = ground (arith, e, h) in
                    absurd (ground (arith, v.1, free, ap (λ k. (m.storage k).is_locked) same));
              })
      ]
    ]
  ]

  pub departure-IsLockedFor :
      (state : AppLockState) (who : Option ℕ) (now : ℕ) (m : Machine)
      → m.state ≡ state
      → IsLockedFor user verifier guarded m
      → IsLockedFor user verifier guarded (when_unlocked state (if_immediate who now m) m)
  departure-IsLockedFor unlocked none now m e v = v
  departure-IsLockedFor unlocked (some who) now m e v =
      elim (Bool-cases ((m.storage who).timeout_seconds == 0)) [
        | inl at_once ↦ rw at_once (record {
          set = v.set;
          shut = λ on h. absurd (not_open m v (ap is_locked_state e) on h);
        })
        | inr later ↦ rw later v
      ]
  departure-IsLockedFor disabled who now m e v = v
  departure-IsLockedFor pending_departure who now m e v = v
  departure-IsLockedFor locked who now m e v = v

  pub timed-IsLockedFor :
      (who : Option ℕ) (now : ℕ) (m : Machine)
      → IsLockedFor user verifier guarded m
      → IsLockedFor user verifier guarded (if_timed_out who now m)
  timed-IsLockedFor none now m v = v
  timed-IsLockedFor (some who) now m v = elim (Bool-cases (is_timed_out now (m.storage who))) [
    | inl late ↦ rw late (commit-IsLockedFor who m v.set)
    | inr early ↦ rw early v
  ]

  pub return-IsLockedFor :
      (state : AppLockState) (now : ℕ) (m : Machine)
      → m.state ≡ state
      → IsLockedFor user verifier guarded m
      → IsLockedFor user verifier guarded (return_in state o now m)
  return-IsLockedFor locked now m e v = v
  return-IsLockedFor disabled now m e v = v
  return-IsLockedFor unlocked now m e v = timed-IsLockedFor m.user_id now m v
  return-IsLockedFor pending_departure now m e v =
      elim (Bool-cases (ltb now (m.departure_started_at + o.grace_period_ms))) [
        | inl soon ↦ rw soon (record {
          set = v.set;
          shut = λ on h. absurd (not_open m v (ap is_locked_state e) on h);
        })
        | inr late ↦ rw late (lock_user-IsLockedFor m.user_id (record m { timer = false }) v.set)
      ]

  pub activity-IsLockedFor :
      (state : AppLockState) (who : Option ℕ) (now : ℕ) (m : Machine)
      → IsLockedFor user verifier guarded m
      → IsLockedFor user verifier guarded (when_unlocked state (note_activity who now m) m)
  activity-IsLockedFor unlocked none now m v = v
  activity-IsLockedFor unlocked (some who) now m v = record {
    set =
        changed-IsArmed (user == who) (λ s. record s { last_active_at = now }) (m.storage user)
          (λ h. h) v.set;
    shut = v.shut;
  }
  activity-IsLockedFor disabled who now m v = v
  activity-IsLockedFor pending_departure who now m v = v
  activity-IsLockedFor locked who now m v = v

  pub inactivity-IsLockedFor :
      (state : AppLockState) (now : ℕ) (m : Machine)
      → IsLockedFor user verifier guarded m
      → IsLockedFor user verifier guarded (when_unlocked state (if_timed_out m.user_id now m) m)
  inactivity-IsLockedFor unlocked now m v = timed-IsLockedFor m.user_id now m v
  inactivity-IsLockedFor disabled now m v = v
  inactivity-IsLockedFor pending_departure now m v = v
  inactivity-IsLockedFor locked now m v = v

  pending-IsLockedFor :
      (state : AppLockState) (m : Machine)
      → IsLockedFor user verifier guarded m
      → IsLockedFor user verifier guarded (when_pending state (lock_user m.user_id m) m)
  pending-IsLockedFor pending_departure m v = lock_user-IsLockedFor m.user_id m v.set
  pending-IsLockedFor disabled m v = v
  pending-IsLockedFor unlocked m v = v
  pending-IsLockedFor locked m v = v

  pub timer-IsLockedFor :
      (m : Machine)
      → IsLockedFor user verifier guarded m
      → IsLockedFor user verifier guarded (timer_fires m)
  unfolding timer_fires
  timer-IsLockedFor m v = elim (Bool-cases m.timer) [
    | inl runs ↦ simp runs (
        pending-IsLockedFor m.state (record m { timer = false })
          (record { set = v.set; shut = v.shut }))
    | inr stopped ↦ simp stopped v
  ]

  pub unlock-IsLockedFor :
      (state : AppLockState) (who : Option ℕ) (pin : Text) (now : ℕ) (m : Machine)
      → m.user_id ≡ who
      → o.check_local_secret pin verifier ≡ false
      → IsLockedFor user verifier guarded m
      → IsLockedFor user verifier guarded (unlock_in state who o pin now m).1
  unlock-IsLockedFor locked none pin now m e wrong v = v
  unlock-IsLockedFor locked (some who) pin now m e wrong v =
      elim (Bool-cases (o.check_local_secret pin (m.storage who).verifier)) [
        | inr refused ↦ rw refused v
        | inl right ↦
            let other : who ≢ user = λ same. ground (
              arith,
              right,
              wrong,
              ap (λ k. o.check_local_secret pin (m.storage k).verifier) same,
              ap (o.check_local_secret pin) v.set.2,
            ) in
            let off : (user == who) ≡ false = ground (arith, other) in
            rw right
              (record { set = rw off v.set; shut = λ _ h. absurd (other (ground (arith, e, h))) })
      ]
  unlock-IsLockedFor disabled who pin now m e wrong v = v
  unlock-IsLockedFor unlocked who pin now m e wrong v = v
  unlock-IsLockedFor pending_departure who pin now m e wrong v = v

  leave-IsArmed :
      (who : Option ℕ) (m : Machine)
      → IsArmed verifier (m.storage user)
      → IsArmed verifier ((leave_user who m).storage user)
  leave-IsArmed none m v = v
  leave-IsArmed (some who) m v = elim (Bool-cases (m.storage who).is_enabled) [
    | inl on ↦ rw on (commit-IsLockedFor who m v).set
    | inr off ↦ rw off v
  ]

  pub logout-IsLockedFor :
      (m : Machine)
      → IsLockedFor user verifier guarded m
      → IsLockedFor user verifier guarded (handle_logout m)
  unfolding handle_logout
  logout-IsLockedFor m v = record {
    set = leave-IsArmed m.user_id (record m { timer = false }) v.set;
    shut = λ _ e. ground arith;
  }

  pub lock_now-IsLockedFor :
      (who : Option ℕ) (m : Machine)
      → IsLockedFor user verifier guarded m
      → IsLockedFor user verifier guarded (lock_now_user who m)
  lock_now-IsLockedFor none m v = v
  lock_now-IsLockedFor (some who) m v = commit-IsLockedFor who m v.set

pub init-IsLockedFor :
    (o : Options) (user : ℕ) (verifier : Option Text) (is_protected : Bool) (who : Option ℕ)
    (now : ℕ) (m : Machine)
    → IsArmed verifier (m.storage user)
    → IsLockedFor user verifier is_protected (init o is_protected who now m)
unfolding init
init-IsLockedFor o user verifier true who now m v =
    init_for-IsLockedFor o user verifier true who now (record m { timer = false; user_id = who })
      refl v
init-IsLockedFor o user verifier false who now m v = record { set = v; shut = λ on e. ground arith }
